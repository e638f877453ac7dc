-- ===== src/Protocol/Codec.antt =====
-- lib.rs: `encode_payload`, `decode`, `write_message` and `read_message`. The JSON library and the
-- byte order of the length are parameters.
use zo_tunnel.Prelude.{
  ℕ, ◌%◌, ◌^◌, ◌<◌, ◌≡◌, not, Option, none, some, List, [], ◌∷◌, ◌++◌, Exec, All, ◌>>=◌, pure,
  raise, lift, Result, ok, err, ok_or, ltb, ◌==◌, length, get_or, drop, if◌then◌else◌,
}
use zo_tunnel.Protocol.{
  MessageType, Message, AuthReq, AuthRes, NewConn, AcceptConn, Error, codec, version_mismatch,
  payload_too_large, data_message, protocol_version, max_payload_size, type_byte, try_from,
  msg_type,
}
use zo_tunnel.Protocol.Stream.{Stream, read_exact, write_all}
use zo_tunnel.Protocol.Utf8.{utf8, from_utf8_lossy}

-- `serde_json::to_vec` and `serde_json::from_slice` at one type.
pub record Json (A : Type 0) : Type 0 where
  pub to_vec : A → Option (List ℕ)
  pub from_slice : List ℕ → Option A

-- The packages serde_json and bytes, as far as the protocol calls them.
pub record Wire : Type 0 where
  pub auth_req : Json AuthReq
  pub auth_res : Json AuthRes
  pub new_conn : Json NewConn
  pub accept_conn : Json AcceptConn
  pub put_u32 : ℕ → List ℕ
  pub get_u32 : List ℕ → ℕ

abbrev pub IsFaithful : {A : Type 0} → Json A → Type 0
IsFaithful {A} j = (a : A) (b : List ℕ) → j.to_vec a ≡ some b → j.from_slice b ≡ some a

-- What their documentation promises: a value that was serialised is read back, and a `u32` is four
-- bytes and is got back from them.
pub record WireLaws (w : Wire) : Type 0 where
  pub auth_req : IsFaithful w.auth_req
  pub auth_res : IsFaithful w.auth_res
  pub new_conn : IsFaithful w.new_conn
  pub accept_conn : IsFaithful w.accept_conn
  pub put_u32_length : (n : ℕ) → length (w.put_u32 n) ≡ 4
  pub get_u32_put : (n : ℕ) → n < 2 ^ 32 → w.get_u32 (w.put_u32 n) ≡ n
  pub put_u32_get : (b : List ℕ) → length b ≡ 4 → All (λ x. x < 256) b → w.put_u32 (w.get_u32 b) ≡ b

module _ (w : Wire) where
  -- `Message::encode_payload`
  unfoldable pub encode_payload : Message → Result Error (List ℕ)
  encode_payload (Message.auth_req p) = ok_or (w.auth_req.to_vec p) codec
  encode_payload (Message.auth_res p) = ok_or (w.auth_res.to_vec p) codec
  encode_payload (Message.new_conn p) = ok_or (w.new_conn.to_vec p) codec
  encode_payload (Message.accept_conn p) = ok_or (w.accept_conn.to_vec p) codec
  encode_payload (Message.error msg) = ok (utf8 msg)
  encode_payload Message.ping = ok []
  encode_payload Message.pong = ok []
  encode_payload Message.close = ok []

  abbrev decoded : {A : Type 0} → Json A → (A → Message) → List ℕ → Result Error Message
  decoded j wrap payload = elim (j.from_slice payload) [ none ↦ err codec | some p ↦ ok (wrap p) ]

  -- `Message::decode`
  unfoldable pub decode : MessageType → List ℕ → Result Error Message
  decode MessageType.auth_req payload = decoded w.auth_req Message.auth_req payload
  decode MessageType.auth_res payload = decoded w.auth_res Message.auth_res payload
  decode MessageType.new_conn payload = decoded w.new_conn Message.new_conn payload
  decode MessageType.accept_conn payload = decoded w.accept_conn Message.accept_conn payload
  decode MessageType.error payload = ok (Message.error (from_utf8_lossy payload))
  decode MessageType.ping payload = ok Message.ping
  decode MessageType.pong payload = ok Message.pong
  decode MessageType.close payload = ok Message.close
  decode MessageType.content payload = err data_message

  -- The buffer of `write_message`, with the length as it was cast to `u32`.
  unfoldable pub frame : MessageType → List ℕ → List ℕ
  frame t payload =
      protocol_version ∷ type_byte t ∷ (w.put_u32 (length payload % 2 ^ 32) ++ payload)

  unfoldable pub write_message : Message → Exec Stream Error Unit
  write_message msg = do
    payload ← lift (encode_payload msg)
    let payload_len = length payload % 2 ^ 32
    if ltb max_payload_size payload_len
        then raise (payload_too_large payload_len)
        else write_all (frame (msg_type msg) payload)

  -- The part of `read_message` behind the header.
  unfoldable pub read_payload : MessageType → ℕ → Exec Stream Error Message
  read_payload t payload_len = do
    payload ← if ltb 0 payload_len then read_exact payload_len else pure []
    lift (decode t payload)

  unfoldable pub check_length : MessageType → ℕ → Exec Stream Error Message
  check_length t payload_len =
      if ltb max_payload_size payload_len
      then raise (payload_too_large payload_len)
      else read_payload t payload_len

  -- The checks on the header, in the order of the source.
  unfoldable pub check_header : List ℕ → Exec Stream Error Message
  check_header header =
      let version = get_or header 0 0 in
      let msg_type_byte = get_or header 1 0 in
      let payload_len = w.get_u32 (drop 2 header) in
      if not (version == protocol_version)
      then raise (version_mismatch version)
      else do t ← lift (try_from msg_type_byte); check_length t payload_len

  unfoldable pub read_message : Exec Stream Error Message
  read_message = do header ← read_exact 6; check_header header
