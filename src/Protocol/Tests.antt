-- ===== src/Protocol/Tests.antt =====
-- The theorems about lib.rs at concrete messages.
mod Upgrades
use zo_tunnel.Prelude.{
  split, strip_prefix, false, ℕ, ◌+◌, ◌*◌, ◌^◌, ◌≤◌, ◌<◌, ◌≡◌, refl, Bool, true, none, some, List,
  take, drop, ◌%◌, ◌⊎◌, [], ◌∷◌, ◌++◌, ok, err, length, replicate, length-replicate, length-append,
  All, text, arith, inl,
}
use zo_tunnel.Protocol.{
  MessageType, Message, AuthReq, Error, max_payload_size, msg_type, type_byte, try_from,
}
use zo_tunnel.Protocol.Utf8.{utf8, encode_char}
use zo_tunnel.Protocol.Stream.{Stream, read_exact, write_all}
use zo_tunnel.Protocol.Codec.{
  Wire, encode_payload, decode, frame, write_message, read_message, check_header, check_length,
  read_payload,
}
use zo_tunnel.Protocol.RoundTrip.{
  IsShort, write_messages, read_messages, read_messages-write_messages,
}
use zo_tunnel.Protocol.Canonical.{read_message_bounded, read_message-canonical}
use zo_tunnel.Protocol.Errors.{
  Refused, with_header, left, read_message_refuses, write_message_wraps,
}
use zo_tunnel.Protocol.SelfUpdate.{is_newer, parse, parse_u32, digits_u32, is_newer_order}
use zo_tunnel.Protocol.Samples.{sample_wire, sample_laws, auth_req_bytes}

abbrev auth : AuthReq
auth = record { client_id = text "my-api"; token = text "secret"; version = some (text "0.3.0") }

abbrev fresh : Stream
fresh = record { incoming = []; outgoing = []; writable = true }

abbrev three : List Message
three = Message.auth_req auth ∷ Message.ping ∷ Message.error (text "né") ∷ []

short :
    (w : Wire) (m : Message) (p : List ℕ)
    → encode_payload w m ≡ ok p
    → length p < 2 ^ 32
    → IsShort w m
short w m p e h q e' = ground arith

three-IsShort : All (IsShort sample_wire) three
unfolding encode_payload utf8 encode_char
three-IsShort = (
  short sample_wire (Message.auth_req auth) _ refl (omega arith),
  (
    short sample_wire Message.ping [] refl (omega arith),
    (short sample_wire (Message.error (text "né")) _ refl (omega arith), tt),
  ),
)

abbrev written : Stream
written = (write_messages sample_wire three fresh).1

three-written : write_messages sample_wire three fresh ≡ (ok tt, written)
unfolding write_messages write_message encode_payload utf8 encode_char write_all
three-written = refl

read_messages-write_messages_example :
    (bytes : List ℕ) × (written.outgoing ≡ [] ++ bytes)
    × ((rest out : List ℕ) (o : Bool)
        → read_messages sample_wire 3
            (record { incoming = bytes ++ rest; outgoing = out; writable = o })
          ≡ (ok three, record { incoming = rest; outgoing = out; writable = o }))
read_messages-write_messages_example =
    read_messages-write_messages sample_wire sample_laws three fresh written
      (tt, (tt, ((inl (omega arith), (inl (omega arith), tt)), tt))) three-IsShort three-written

abbrev ping_stream : Stream
ping_stream = record { incoming = 1 ∷ 5 ∷ 0 ∷ 0 ∷ 0 ∷ 0 ∷ 9 ∷ []; outgoing = []; writable = true }

abbrev ping_read : Stream
ping_read = record { incoming = 9 ∷ []; outgoing = []; writable = true }

ping-read : read_message sample_wire ping_stream ≡ (ok Message.ping, ping_read)
unfolding read_message read_exact check_header check_length read_payload decode try_from
ping-read = refl

read_message-canonical_example :
    (t : MessageType) × (payload : List ℕ) × (ping_stream.incoming
      ≡ frame sample_wire t payload ++ ping_read.incoming)
    × (length payload ≤ max_payload_size)
    × (decode sample_wire t payload ≡ ok Message.ping)
    × (ping_read.outgoing ≡ ping_stream.outgoing)
read_message-canonical_example =
    read_message-canonical sample_wire sample_laws ping_stream ping_read Message.ping (ground arith)
      ping-read

read_message_refuses_example :
    read_message sample_wire (with_header sample_wire 1 5 (2 ∷ 0 ∷ 0 ∷ 0 ∷ []) (7 ∷ []))
    ≡ (err (Error.payload_too_large (2 * 2 ^ 24)), left sample_wire (7 ∷ []))
unfolding type_byte
read_message_refuses_example =
    read_message_refuses sample_wire 1 5 (2 ∷ 0 ∷ 0 ∷ 0 ∷ []) (7 ∷ [])
      (Error.payload_too_large (2 * 2 ^ 24)) refl (Refused.size MessageType.ping (omega arith))

-- A long token, and the payload that holds it.
many : ℕ → List ℕ
many n = replicate n 0

length-many : (n : ℕ) → length (many n) ≡ n
unfolding many
length-many n = length-replicate n 0

abbrev long : AuthReq
long = record { client_id = []; token = many (2 ^ 32 + 3); version = none }

length-long : length (auth_req_bytes long) ≡ 2 ^ 32 + 5
length-long = omega (arith, length-append (many (2 ^ 32 + 3)) [], length-many (2 ^ 32 + 3))

write_message_wraps_example :
    let payload = auth_req_bytes long in
    let n = length payload % 2 ^ 32 in
    ((max_payload_size < n)
      × (write_message sample_wire (Message.auth_req long) fresh
          ≡ (err (Error.payload_too_large n), fresh)))
    ⊎ ((n ≤ max_payload_size)
        × ((bytes : List ℕ) × (write_message sample_wire (Message.auth_req long) fresh
              ≡ (ok tt, record fresh { outgoing = [] ++ bytes }))
            × (read_message sample_wire
                  (record { incoming = bytes ++ []; outgoing = []; writable = true })
                ≡ (
                  decode sample_wire (msg_type (Message.auth_req long)) (take n payload),
                  record { incoming = drop n payload ++ []; outgoing = []; writable = true },
                ))))
unfolding encode_payload
write_message_wraps_example =
    write_message_wraps sample_wire sample_laws (Message.auth_req long) (auth_req_bytes long) [] []
      fresh true refl refl (omega (arith, length-long))

newer-here :
    (is_newer (text "0.3.9") (text "v0.4.0") ≡ true)
    × (is_newer (text "v0.4.0") (text "v0.10.0") ≡ true)
unfolding is_newer parse split parse_u32 digits_u32 strip_prefix
newer-here = (refl, refl)
