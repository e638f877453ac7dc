-- ===== src/Protocol/Canonical.antt =====
-- What `read_message` accepts and how much it takes off the stream, whatever arrives.
use zo_tunnel.Prelude.{
  All, All-prefix, All-drop, subst, ℕ, zero, suc, ◌+◌, ◌%◌, ◌^◌, ◌≤◌, ◌<◌, ◌≡◌, refl, ap, ◌∙◌, sym,
  ◌>>=◌, List, [], ◌∷◌, ◌++◌, append_assoc, lift, ok, >>=-eq-ok, continue-state, lt→ltb, ◌==◌,
  length, take, drop, get_or, take-append-drop, length-drop, length-append, arith, Bool-cases, inl,
  inr, Result-cases,
}
use zo_tunnel.Protocol.{
  MessageType, Message, max_payload_size, protocol_version, type_byte, try_from, try_from_iff,
}
use zo_tunnel.Protocol.Stream.{Stream, read_exact}
use zo_tunnel.Protocol.Codec.{
  Wire, WireLaws, decode, frame, read_payload, check_length, check_header, read_message,
}

-- A successful read took the asked number of bytes off the front.
read_exact-eq-ok :
    (n : ℕ) (s s' : Stream) (bytes : List ℕ)
    → read_exact n s ≡ (ok bytes, s')
    → (s.incoming ≡ bytes ++ s'.incoming) × (length bytes ≡ n) × (s'.outgoing ≡ s.outgoing)
unfolding read_exact
read_exact-eq-ok n s s' bytes e = (
  ground (arith, take-append-drop n s.incoming),
  ground (
    arith,
    ap length (take-append-drop n s.incoming),
    length-drop n s.incoming,
    length-append (take n s.incoming) (drop n s.incoming),
  ),
  ground arith,
)

-- Every read leaves at least what stood behind the asked number of bytes.
read_exact-takes : (n : ℕ) (s : Stream) → length s.incoming ≤ length (read_exact n s).1.incoming + n
unfolding read_exact
read_exact-takes n s = ground (arith, length-drop n s.incoming)

module _ (w : Wire) where
  read_payload-takes :
      (t : MessageType) (n : ℕ) (s : Stream)
      → length s.incoming ≤ length (read_payload w t n s).1.incoming + n
  unfolding read_payload
  read_payload-takes t n s = ground (arith, read_exact-takes n s)

  -- A bound on what a step may take, as a property of the state that it leaves.
  abbrev Leaves : Stream → ℕ → Stream → Type 0
  Leaves s n u = length s.incoming ≤ length u.incoming + n

  check_length-takes :
      (t : MessageType) (n : ℕ) (s : Stream) → Leaves s max_payload_size (check_length w t n s).1
  unfolding check_length
  check_length-takes t n s = ground (arith, read_payload-takes t n s)

  check_header-takes :
      (header : List ℕ) (s : Stream) → Leaves s max_payload_size (check_header w header s).1
  unfolding check_header
  check_header-takes header s = elim (Bool-cases (get_or header 0 0 == protocol_version)) [
    | inl same ↦ rw same (
        continue-state (Leaves s max_payload_size) (try_from (get_or header 1 0))
          (λ t. check_length w t (w.get_u32 (drop 2 header))) s (omega arith)
          (λ t. check_length-takes t _ s))
    | inr other ↦ rw other (omega arith)
  ]

  -- Whatever arrives, accepted or not, a call takes at most a header and the largest payload.
  pub read_message_bounded :
      (s : Stream)
      → length s.incoming ≤ length (read_message w s).1.incoming + (6 + max_payload_size)
  unfolding read_message
  read_message_bounded s =
      let t = (read_exact 6 s).1 in
      continue-state (Leaves s (6 + max_payload_size)) (read_exact 6 s).0 (check_header w) t
        (omega (arith, read_exact-takes 6 s))
        (λ header. omega (arith, read_exact-takes 6 s, check_header-takes header t))

  read_payload-suc :
      (t : MessageType) (n : ℕ) (s : Stream)
      → read_payload w t (suc n) s ≡ (read_exact (suc n) >>= λ b. lift (decode w t b)) s
  unfolding read_payload
  read_payload-suc t n s = rw (lt→ltb 0 (suc n) (omega arith))

  read_payload-eq-ok :
      (t : MessageType) (n : ℕ) (s s' : Stream) (m : Message)
      → read_payload w t n s ≡ (ok m, s')
      → (payload : List ℕ) × (s.incoming ≡ payload ++ s'.incoming)
        × (length payload ≡ n)
        × (decode w t payload ≡ ok m)
        × (s'.outgoing ≡ s.outgoing)
  unfolding read_payload
  read_payload-eq-ok t zero s s' m e = ([], ground arith, refl, ground arith, ground arith)
  read_payload-eq-ok t (suc n) s s' m e =
      let (payload, u, p, q) =
        >>=-eq-ok (read_exact (suc n)) (λ b. lift (decode w t b)) s
          (sym (read_payload-suc t n s) ∙ e) in
      let (front, len, out) = read_exact-eq-ok (suc n) s u payload p in
      (
        payload,
        front ∙ ap (λ (v : Stream). payload ++ v.incoming) (ap (λ r. r.1) q),
        len,
        ap (λ r. r.0) q,
        ap (λ (v : Stream). v.outgoing) (sym (ap (λ r. r.1) q)) ∙ out,
      )

  check_header-eq-ok :
      (header : List ℕ) (s s' : Stream) (m : Message)
      → check_header w header s ≡ (ok m, s')
      → (t : MessageType) × (get_or header 0 0 ≡ protocol_version)
        × (get_or header 1 0 ≡ type_byte t)
        × (w.get_u32 (drop 2 header) ≤ max_payload_size)
        × (read_payload w t (w.get_u32 (drop 2 header)) s ≡ (ok m, s'))
  unfolding check_header check_length
  check_header-eq-ok header s s' m e = elim (Result-cases (try_from (get_or header 1 0))) [
    | inl (t, p) ↦ (t, ground arith, (try_from_iff _ t).0 p, ground arith, ground arith)
    | inr (c, p) ↦ absurd (ground arith)
  ]

  header-eq :
      (header : List ℕ)
      → length header ≡ 6
      → header ≡ get_or header 0 0 ∷ get_or header 1 0 ∷ drop 2 header
  header-eq [] h = absurd (omega arith)
  header-eq (v ∷ []) h = absurd (omega arith)
  header-eq (v ∷ t ∷ rest) h = refl

  frame-front :
      {bytes : List ℕ} (header : List ℕ) (t : MessageType) (payload rest : List ℕ)
      → get_or header 0 0 ≡ protocol_version
      → get_or header 1 0 ≡ type_byte t
      → header ≡ get_or header 0 0 ∷ get_or header 1 0 ∷ drop 2 header
      → w.put_u32 (length payload % 2 ^ 32) ≡ drop 2 header
      → bytes ≡ header ++ (payload ++ rest)
      → bytes ≡ frame w t payload ++ rest
  unfolding frame
  frame-front header t payload rest version byte shape back e =
      let head : header ≡ protocol_version ∷ type_byte t ∷ drop 2 header =
        cc (version, byte, shape) in
      rw (back, append_assoc) (e ∙ ap (λ h. h ++ (payload ++ rest)) head)

  -- Where `read_message` accepts what arrives on a stream of bytes, it has taken exactly the frame
  -- of a type and of a payload that is not above the maximum and decodes to the message, and it
  -- has sent nothing.
  pub read_message-canonical :
      (laws : WireLaws w) (s s' : Stream) (m : Message)
      → All (λ x. x < 256) s.incoming
      → read_message w s ≡ (ok m, s')
      → (t : MessageType) × (payload : List ℕ) × (s.incoming ≡ frame w t payload ++ s'.incoming)
        × (length payload ≤ max_payload_size)
        × (decode w t payload ≡ ok m)
        × (s'.outgoing ≡ s.outgoing)
  unfolding read_message
  read_message-canonical laws s s' m bytes e =
      let (header, u, p, q) = >>=-eq-ok (read_exact 6) (check_header w) s e in
      let (front, six, out) = read_exact-eq-ok 6 s u header p in
      let (t, version, byte, small, r) = check_header-eq-ok header u s' m q in
      let (payload, front', len, dec, out') = read_payload-eq-ok t _ u s' m r in
      let cast : length payload % 2 ^ 32 ≡ w.get_u32 (drop 2 header) = omega arith in
      let header_bytes : All (λ x. x < 256) header =
        All-prefix (λ x. x < 256) header u.incoming (subst (All (λ x. x < 256)) front bytes) in
      let back =
        laws.put_u32_get (drop 2 header) (omega (arith, length-drop 2 header))
          (All-drop (λ x. x < 256) 2 header header_bytes) in
      (
        t,
        payload,
        frame-front header t payload s'.incoming version byte (header-eq header six) (rw cast back)
            (front ∙ ap (◌++◌ header) front'),
        omega arith,
        dec,
        out' ∙ out,
      )
