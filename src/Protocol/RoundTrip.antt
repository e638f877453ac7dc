-- ===== src/Protocol/RoundTrip.antt =====
-- Reading what was written.
use zo_tunnel.Prelude.{
  ℕ, zero, suc, ◌%◌, ◌^◌, ◌≤◌, ◌<◌, ◌≡◌, refl, ap, ◌∙◌, append-nil, ◌>>◌, Bool, List, [], ◌∷◌, ◌++◌,
  append_assoc, Exec, ◌>>=◌, pure, ok, length, All, IsScalar, arith, Result-cases, >>=-eq-ok, inl,
  inr,
}
use zo_tunnel.Protocol.{
  MessageType, Message, Error, max_payload_size, protocol_version, type_byte, try_from_iff,
  msg_type,
}
use zo_tunnel.Protocol.Stream.{Stream, read_exact, read_exact-append, write_all}
use zo_tunnel.Protocol.Utf8.{from_utf8_lossy-utf8}
use zo_tunnel.Protocol.Codec.{
  Wire, WireLaws, encode_payload, decode, frame, write_message, read_payload, check_header,
  check_length, read_message,
}

-- A `String` of the source holds scalar values only.
abbrev pub IsText : Message → Type 0
IsText (Message.error msg) = All IsScalar msg
IsText _ = Unit

module _ (w : Wire) where
  -- The payload of a message fits a `u32`, so that its cast keeps the length.
  abbrev pub IsShort : Message → Type 0
  IsShort m = (payload : List ℕ) → encode_payload w m ≡ ok payload → length payload < 2 ^ 32

  unfoldable pub write_messages : List Message → Exec Stream Error Unit
  write_messages [] = pure tt
  write_messages (m ∷ ms) = do write_message w m; write_messages ms

  unfoldable pub read_messages : ℕ → Exec Stream Error (List Message)
  read_messages zero = pure []
  read_messages (suc n) = do m ← read_message w; ms ← read_messages n; pure (m ∷ ms)

module _ (w : Wire) (laws : WireLaws w) where
  pub decode-encode_payload :
      (m : Message) (payload : List ℕ)
      → IsText m
      → encode_payload w m ≡ ok payload
      → decode w (msg_type m) payload ≡ ok m
  unfolding encode_payload decode msg_type
  decode-encode_payload (Message.auth_req p) b t e = ground (arith, laws.auth_req p b)
  decode-encode_payload (Message.auth_res p) b t e = ground (arith, laws.auth_res p b)
  decode-encode_payload (Message.new_conn p) b t e = ground (arith, laws.new_conn p b)
  decode-encode_payload (Message.accept_conn p) b t e = ground (arith, laws.accept_conn p b)
  decode-encode_payload (Message.error msg) b t e = ground (arith, from_utf8_lossy-utf8 msg t)
  decode-encode_payload _ b t e = ground arith

  read_payload-append :
      (t : MessageType) (payload rest out : List ℕ) (open_ : Bool)
      → read_payload w t
          (length payload)
          (record { incoming = payload ++ rest; outgoing = out; writable = open_ })
        ≡ (decode w t payload, record { incoming = rest; outgoing = out; writable = open_ })
  unfolding read_payload
  read_payload-append t [] rest out o = refl
  read_payload-append t (b ∷ payload) rest out o =
      ground (arith, read_exact-append (b ∷ payload) rest out o)

  abbrev header : MessageType → ℕ → List ℕ
  header t n = protocol_version ∷ type_byte t ∷ w.put_u32 n

  length-header : (t : MessageType) (n : ℕ) → length (header t n) ≡ 6
  length-header t n = omega (arith, laws.put_u32_length n)

  check-header :
      (t : MessageType) (n : ℕ) (s : Stream)
      → n ≤ max_payload_size
      → check_header w (header t n) s ≡ read_payload w t n s
  unfolding check_header check_length
  check-header t n s h = ground (arith, laws.get_u32_put n, try_from_iff (type_byte t) t)

  frame-eq :
      (t : MessageType) (payload rest : List ℕ)
      → length payload ≤ max_payload_size
      → frame w t payload ++ rest ≡ header t (length payload) ++ (payload ++ rest)
  unfolding frame
  frame-eq t payload rest h =
      let small : length payload % 2 ^ 32 ≡ length payload = omega arith in
      rw (small, append_assoc) refl

  read-header :
      (t : MessageType) (n : ℕ) (rest out : List ℕ) (o : Bool)
      → read_exact 6 (record { incoming = header t n ++ rest; outgoing = out; writable = o })
        ≡ (ok (header t n), record { incoming = rest; outgoing = out; writable = o })
  read-header t n rest out o = rw (length-header t n) at (read_exact-append (header t n) rest out o)

  pub read-frame :
      (t : MessageType) (payload rest out : List ℕ) (o : Bool)
      → length payload ≤ max_payload_size
      → read_message w
          (record { incoming = frame w t payload ++ rest; outgoing = out; writable = o })
        ≡ (decode w t payload, record { incoming = rest; outgoing = out; writable = o })
  unfolding read_message
  read-frame t payload rest out o h =
      rw (frame-eq t payload rest h, read-header t (length payload) (payload ++ rest) out o)
        (rw (check-header t (length payload) _ h) (read_payload-append t payload rest out o))

  abbrev sent : Stream → List ℕ → Stream
  sent s bytes = record s { outgoing = s.outgoing ++ bytes }

  -- A write that succeeds has sent the frame of an encoded payload, cut down to 32 bits in its check.
  pub write_message-sent :
      (m : Message) (s s' : Stream)
      → write_message w m s ≡ (ok tt, s')
      → (payload : List ℕ) × (encode_payload w m ≡ ok payload)
        × (length payload % 2 ^ 32 ≤ max_payload_size)
        × (s' ≡ sent s (frame w (msg_type m) payload))
  unfolding write_message write_all
  write_message-sent m s s' e = elim (Result-cases (encode_payload w m)) [
    | inl (payload, enc) ↦ (payload, enc, ground arith, ground arith)
    | inr (c, enc) ↦ absurd (ground arith)
  ]

  abbrev arriving : List ℕ → List ℕ → Bool → Stream
  arriving bytes out o = record { incoming = bytes; outgoing = out; writable = o }

  read-sent :
      (m : Message) (payload rest out : List ℕ) (o : Bool)
      → IsText m
      → IsShort w m
      → encode_payload w m ≡ ok payload
      → length payload % 2 ^ 32 ≤ max_payload_size
      → read_message w (arriving (frame w (msg_type m) payload ++ rest) out o)
        ≡ (ok m, arriving rest out o)
  read-sent m payload rest out o t short e h =
      let fits : length payload < 2 ^ 32 = short payload e in
      read-frame (msg_type m) payload rest out o (omega arith)
      ∙ ap (λ r. (r, arriving rest out o)) (decode-encode_payload m payload t e)

  -- Messages whose texts are scalar values and whose payloads fit 32 bits, written one after the
  -- other without an error, are read back in their order, and what follows them on the stream is
  -- left.
  pub read_messages-write_messages :
      (ms : List Message) (s s' : Stream)
      → All IsText ms
      → All (IsShort w) ms
      → write_messages w ms s ≡ (ok tt, s')
      → (bytes : List ℕ) × (s'.outgoing ≡ s.outgoing ++ bytes)
        × ((rest out : List ℕ) (o : Bool)
            → read_messages w (length ms) (arriving (bytes ++ rest) out o)
              ≡ (ok ms, arriving rest out o))
  unfolding write_messages read_messages
  read_messages-write_messages [] s s' t h e =
      ([], ground (arith, append-nil s.outgoing), λ rest out o. refl)
  read_messages-write_messages (m ∷ ms) s s' (t, ts) (h, hs) e =
      let (_, mid, wrote, later) = >>=-eq-ok (write_message w m) (λ _. write_messages w ms) s e in
      let (payload, enc, fits, same) = write_message-sent m s mid wrote in
      let (bytes, total, reads) = read_messages-write_messages ms mid s' ts hs later in
      let first = frame w (msg_type m) payload in
      (
        first ++ bytes,
        total ∙ ap (λ (u : Stream). u.outgoing ++ bytes) same ∙ append_assoc s.outgoing first bytes,
        λ rest out o.
            rw (append_assoc first bytes rest)
              (rw (read-sent m payload (bytes ++ rest) out o t h enc fits) (rw (reads rest out o))),
      )
