-- ===== src/Protocol/Errors.antt =====
-- The error paths of `read_message` and the length check of `write_message`.
use zo_tunnel.Prelude.{
  ℕ, ◌%◌, ◌^◌, ◌≤◌, ◌<◌, ◌≡◌, ◌≢◌, refl, true, List, [], ◌∷◌, ◌++◌, ok, err, length, take, drop,
  length-append, length-drop, ltb, Bool-cases, inl, inr, take-append-drop, append_assoc, Bool, ◌⊎◌,
  ◌∙◌, ap, arith,
}
use zo_tunnel.Protocol.{
  MessageType, Message, Error, version_mismatch, unknown_message_type, payload_too_large,
  max_payload_size, protocol_version, type_byte, try_from, try_from_iff, msg_type,
}
use zo_tunnel.Protocol.Stream.{Stream, read_exact, read_exact-append, write_all}
use zo_tunnel.Protocol.RoundTrip.{read-frame}
use zo_tunnel.Protocol.Codec.{
  Wire, WireLaws, decode, encode_payload, frame, write_message, check_length, check_header,
  read_message,
}

-- No type has this byte.
abbrev pub IsUnknown : ℕ → Type 0
IsUnknown b = (t : MessageType) → b ≢ type_byte t

try_from-IsUnknown : (b : ℕ) → IsUnknown b → try_from b ≡ err (unknown_message_type b)
unfolding try_from type_byte
try_from-IsUnknown b h = ground (
  arith,
  h MessageType.auth_req,
  h MessageType.auth_res,
  h MessageType.new_conn,
  h MessageType.content,
  h MessageType.ping,
  h MessageType.pong,
  h MessageType.close,
  h MessageType.error,
  h MessageType.accept_conn,
)

module _ (w : Wire) where
  -- A header is six bytes: the version, the type and the four of the length.
  abbrev pub with_header : ℕ → ℕ → List ℕ → List ℕ → Stream
  with_header version byte len rest = record {
    incoming = version ∷ byte ∷ (len ++ rest);
    outgoing = [];
    writable = true;
  }

  abbrev pub left : List ℕ → Stream
  left rest = record { incoming = rest; outgoing = []; writable = true }

  read_message-header :
      (version byte : ℕ) (len rest : List ℕ)
      → length len ≡ 4
      → read_message w (with_header version byte len rest)
        ≡ check_header w (version ∷ byte ∷ len) (left rest)
  unfolding read_message
  read_message-header version byte len rest four =
      let header = version ∷ byte ∷ len in
      let six : length header ≡ 6 = omega arith in
      let e : read_exact 6 (with_header version byte len rest) ≡ (ok header, left rest) =
        rw six at (read_exact-append header rest [] true) in
      rw e

  -- The reasons to refuse a header, each of them where those before it do not hold.
  pub data Refused : ℕ → ℕ → List ℕ → Error → Type 0 where
    version : {v b : ℕ} {len : List ℕ} → v ≢ protocol_version → Refused v b len (version_mismatch v)
    kind :
        {b : ℕ} {len : List ℕ}
        → IsUnknown b
        → Refused protocol_version b len (unknown_message_type b)
    size :
        {len : List ℕ} (t : MessageType)
        → max_payload_size < w.get_u32 len
        → Refused protocol_version (type_byte t) len (payload_too_large (w.get_u32 len))

  -- A header with a wrong version, with an unknown type behind a right version, or with too large
  -- a length behind both, is refused with its own error, and nothing behind the header is read.
  pub read_message_refuses :
      (v b : ℕ) (len rest : List ℕ) (e : Error)
      → length len ≡ 4
      → Refused v b len e
      → read_message w (with_header v b len rest) ≡ (err e, left rest)
  unfolding check_header check_length
  read_message_refuses v b len rest e four (Refused.version other) =
      rw (read_message-header v b len rest four) (ground arith)
  read_message_refuses v b len rest e four (Refused.kind u) =
      rw (read_message-header protocol_version b len rest four)
        (ground (arith, try_from-IsUnknown b u))
  read_message_refuses v b len rest e four (Refused.size t big) =
      rw (read_message-header protocol_version (type_byte t) len rest four)
        (ground (arith, (try_from_iff (type_byte t) t).1 refl))

  -- A payload over the limit whose length fits 32 bits is refused, and nothing is sent.
  pub write_message_too_large :
      (m : Message) (payload : List ℕ) (s : Stream)
      → encode_payload w m ≡ ok payload
      → max_payload_size < length payload
      → length payload < 2 ^ 32
      → write_message w m s ≡ (err (payload_too_large (length payload)), s)
  unfolding write_message
  write_message_too_large m payload s e big short =
      let cast : length payload % 2 ^ 32 ≡ length payload = omega arith in ground arith

module _ (w : Wire) (laws : WireLaws w) where
  -- A payload over the limit, behind the header for its first bytes only, is a frame of these and the
  -- rest of it.
  frame-splits :
      (t : MessageType) (payload : List ℕ) (n : ℕ)
      → length payload % 2 ^ 32 ≡ n
      → n ≤ max_payload_size
      → frame w t payload ≡ frame w t (take n payload) ++ drop n payload
  unfolding frame
  frame-splits t payload n wraps le =
      let whole = take-append-drop n payload in
      let fits : length (take n payload) % 2 ^ 32 ≡ length payload % 2 ^ 32 = omega (
        arith,
        ap length whole,
        length-append (take n payload) (drop n payload),
        length-drop n payload,
        wraps,
      ) in
      rw (fits, append_assoc) (rw whole refl)

  -- A payload of 2 ^ 32 bytes or more, on an open stream, by its length modulo 2 ^ 32: above the maximum
  -- it is refused with that number and nothing is sent. Else it is sent, and who reads what was sent
  -- takes only so many of its first bytes for the payload, and finds the rest of it where the next
  -- message should begin.
  pub write_message_wraps :
      (m : Message) (payload rest out : List ℕ) (s : Stream) (o : Bool)
      → encode_payload w m ≡ ok payload
      → s.writable ≡ true
      → 2 ^ 32 ≤ length payload
      → let n = length payload % 2 ^ 32 in
        ((max_payload_size < n) × (write_message w m s ≡ (err (payload_too_large n), s)))
        ⊎ ((n ≤ max_payload_size)
            × ((bytes : List ℕ) × (write_message w m s
                  ≡ (ok tt, record s { outgoing = s.outgoing ++ bytes }))
                × (read_message w
                      (record { incoming = bytes ++ rest; outgoing = out; writable = o })
                    ≡ (
                      decode w (msg_type m) (take n payload),
                      record { incoming = drop n payload ++ rest; outgoing = out; writable = o },
                    ))))
  unfolding write_message write_all
  write_message_wraps m payload rest out s o e open_ long =
      let n = length payload % 2 ^ 32 in
      elim (Bool-cases (ltb max_payload_size n)) [
        | inl big ↦ inl (ground arith, ground arith)
        | inr small ↦
            let le : n ≤ max_payload_size = ground arith in
            let t = msg_type m in
            let first : length (take n payload) ≤ max_payload_size = omega (
              arith,
              ap length (take-append-drop n payload),
              length-append (take n payload) (drop n payload),
              length-drop n payload,
            ) in
            let cut : frame w t payload ++ rest
                ≡ frame w t (take n payload) ++ (drop n payload ++ rest) =
              ap (λ b. b ++ rest) (frame-splits t payload n refl le)
              ∙ append_assoc (frame w t (take n payload)) (drop n payload) rest in
            inr (
              le,
              (
                frame w t payload,
                ground arith,
                ap (λ b. read_message w (record { incoming = b; outgoing = out; writable = o })) cut
                    ∙ read-frame w laws t (take n payload) (drop n payload ++ rest) out o first,
              ),
            )
      ]
