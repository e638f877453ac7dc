-- ===== src/Protocol.antt =====
-- crates/zo-tunnel-protocol/src/lib.rs: constants, message types and payloads.
pub mod Utf8
pub mod Stream
pub mod Codec
pub mod RoundTrip
pub mod Delivery
pub mod Canonical
pub mod Errors
pub mod SelfUpdate
pub mod Files
pub mod Upgrade
pub mod Uninstall
pub mod Samples
pub mod Tests
use zo_tunnel.Prelude.{
  ℕ, ◌*◌, ◌<◌, ◌≡◌, refl, ◌↔◌, Bool, true, false, Option, none, some, List, Text, Result, ok, err,
  arith, ◌==◌, if◌then◌else◌,
}

abbrev pub protocol_version : ℕ
protocol_version = 1

-- 16 MB
abbrev pub max_payload_size : ℕ
max_payload_size = 16 * 1024 * 1024

abbrev pub stream_type_proxy : ℕ
stream_type_proxy = 0x00

abbrev pub stream_type_heartbeat : ℕ
stream_type_heartbeat = 0x01

pub data MessageType : Type 0 where
  auth_req auth_res new_conn content ping pong close error accept_conn : MessageType

-- `msg_type as u8`
unfoldable pub type_byte : MessageType → ℕ
type_byte auth_req = 0x01
type_byte auth_res = 0x02
type_byte new_conn = 0x03
type_byte content = 0x04
type_byte ping = 0x05
type_byte pong = 0x06
type_byte close = 0x07
type_byte error = 0x08
type_byte accept_conn = 0x09

-- What the functions of the protocol fail with; `io` and `codec` stand for the errors of the reader,
-- the writer and the JSON library, whatever text they carry.
pub data Error : Type 0 where
  io codec : Error
  unknown_message_type : ℕ → Error
  version_mismatch : ℕ → Error
  payload_too_large : ℕ → Error
  data_message : Error

-- `MessageType::try_from`
unfoldable pub try_from : ℕ → Result Error MessageType
try_from value =
    if value == 0x01
    then ok auth_req
    else if value == 0x02
    then ok auth_res
    else if value == 0x03
    then ok new_conn
    else if value == 0x04
    then ok content
    else if value == 0x05
    then ok ping
    else if value == 0x06
    then ok pong
    else if value == 0x07
    then ok close
    else if value == 0x08
    then ok error
    else if value == 0x09
    then ok accept_conn
    else err (unknown_message_type value)

pub record AuthReq : Type 0 where
  pub client_id : Text
  pub token : Text
  pub version : Option Text

-- Legacy clients send no version.
unfoldable pub supports_heartbeat : AuthReq → Bool
supports_heartbeat auth = elim auth.version [ none ↦ false | some v ↦ true ]

pub record AuthRes : Type 0 where
  pub success : Bool
  pub message : Text
  pub public_port : Option ℕ
  pub assigned_route : Option Text

-- A UUID is its 128 bits.
pub record NewConn : Type 0 where
  pub conn_id : ℕ

pub record AcceptConn : Type 0 where
  pub conn_id : ℕ
  pub client_id : Text

pub data Message : Type 0 where
  auth_req : AuthReq → Message
  auth_res : AuthRes → Message
  new_conn : NewConn → Message
  accept_conn : AcceptConn → Message
  ping pong close : Message
  error : Text → Message

-- `Message::msg_type`
unfoldable pub msg_type : Message → MessageType
msg_type (auth_req p) = auth_req
msg_type (auth_res p) = auth_res
msg_type (new_conn p) = new_conn
msg_type (accept_conn p) = accept_conn
msg_type ping = ping
msg_type pong = pong
msg_type close = close
msg_type (error msg) = error

-- A byte is accepted exactly where it is the byte of a type, and stands for that type only.
pub try_from_iff : (value : ℕ) (t : MessageType) → (try_from value ≡ ok t) ↔ (value ≡ type_byte t)
unfolding try_from type_byte
try_from_iff value auth_req = ground arith
try_from_iff value auth_res = ground arith
try_from_iff value new_conn = ground arith
try_from_iff value content = ground arith
try_from_iff value ping = ground arith
try_from_iff value pong = ground arith
try_from_iff value close = ground arith
try_from_iff value error = ground arith
try_from_iff value accept_conn = ground arith
