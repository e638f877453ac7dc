-- ===== src/Protocol/Samples.antt =====
-- A concrete wire for the tests: the length in big endian, and a plain encoding in the place of JSON.
use mathlib.Core.Option.{some-injective}
use zo_tunnel.Prelude.{
  ℕ, zero, suc, ◌+◌, ◌*◌, ◌/◌, ◌%◌, ◌^◌, ◌≤◌, ◌<◌, ◌≡◌, refl, subst, Bool, true, false, Option,
  none, some, List, [], ◌∷◌, ◌++◌, length, take, drop, take-append_length, drop-append_length, All,
  Text, arith, ◌==◌,
}
use zo_tunnel.Protocol.{AuthReq, AuthRes, NewConn, AcceptConn}
use zo_tunnel.Protocol.{Message, max_payload_size}
use zo_tunnel.Protocol.Delivery.{Fits}
use zo_tunnel.Protocol.Codec.{Json, IsFaithful, Wire, WireLaws, encode_payload}

abbrev option_bytes : Option Text → List ℕ
option_bytes none = []
option_bytes (some t) = 0 ∷ t

abbrev bytes_option : List ℕ → Option Text
bytes_option [] = none
bytes_option (x ∷ t) = some t

bytes_option-option_bytes : (o : Option Text) → bytes_option (option_bytes o) ≡ o
bytes_option-option_bytes none = refl
bytes_option-option_bytes (some t) = refl

abbrev pub auth_req_bytes : AuthReq → List ℕ
auth_req_bytes a =
    length a.client_id ∷ length a.token ∷ (a.client_id ++ (a.token ++ option_bytes a.version))

abbrev auth_req_from : List ℕ → Option AuthReq
auth_req_from (n ∷ m ∷ rest) = some (record {
  client_id = take n rest;
  token = take m (drop n rest);
  version = bytes_option (drop m (drop n rest));
})
auth_req_from _ = none

abbrev auth_req_json : Json AuthReq
auth_req_json = record { to_vec = λ a. some (auth_req_bytes a); from_slice = auth_req_from }

abbrev bit : Bool → ℕ
bit true = 1
bit false = 0

bit-back : (b : Bool) → (bit b == 1) ≡ b
bit-back true = refl
bit-back false = refl

abbrev port_bytes : Option ℕ → ℕ
port_bytes none = 0
port_bytes (some p) = suc p

abbrev bytes_port : ℕ → Option ℕ
bytes_port zero = none
bytes_port (suc p) = some p

bytes_port-port_bytes : (o : Option ℕ) → bytes_port (port_bytes o) ≡ o
bytes_port-port_bytes none = refl
bytes_port-port_bytes (some p) = refl

abbrev pub auth_res_bytes : AuthRes → List ℕ
auth_res_bytes a =
    bit a.success
    ∷ port_bytes a.public_port
    ∷ length a.message
    ∷ (a.message ++ option_bytes a.assigned_route)

abbrev auth_res_from : List ℕ → Option AuthRes
auth_res_from (s ∷ p ∷ n ∷ rest) = some (record {
  success = s == 1;
  message = take n rest;
  public_port = bytes_port p;
  assigned_route = bytes_option (drop n rest);
})
auth_res_from _ = none

abbrev auth_res_json : Json AuthRes
auth_res_json = record { to_vec = λ a. some (auth_res_bytes a); from_slice = auth_res_from }

abbrev new_conn_json : Json NewConn
new_conn_json = record {
  to_vec = λ c. some (c.conn_id ∷ []);
  from_slice = λ b. elim b [ [] ↦ none | n ∷ _ ↦ some (record { conn_id = n }) ];
}

abbrev accept_conn_json : Json AcceptConn
accept_conn_json = record {
  to_vec = λ c. some (c.conn_id ∷ c.client_id);
  from_slice = λ b. elim b [ [] ↦ none | n ∷ t ↦ some (record { conn_id = n; client_id = t }) ];
}

abbrev from_be : List ℕ → ℕ
from_be (a ∷ b ∷ c ∷ d ∷ _) = a * 2 ^ 24 + b * 2 ^ 16 + c * 2 ^ 8 + d
from_be _ = 0

abbrev pub sample_wire : Wire
sample_wire = record {
  auth_req = auth_req_json;
  auth_res = auth_res_json;
  new_conn = new_conn_json;
  accept_conn = accept_conn_json;
  put_u32 = λ n. n / 2 ^ 24 % 256 ∷ n / 2 ^ 16 % 256 ∷ n / 2 ^ 8 % 256 ∷ n % 256 ∷ [];
  get_u32 = from_be;
}

auth_req-IsFaithful : IsFaithful auth_req_json
auth_req-IsFaithful a b e =
    subst (λ x. auth_req_from x ≡ some a) (some-injective _ _ e)
      (ground (
        arith,
        take-append_length a.client_id (a.token ++ option_bytes a.version),
        drop-append_length a.client_id (a.token ++ option_bytes a.version),
        take-append_length a.token (option_bytes a.version),
        drop-append_length a.token (option_bytes a.version),
        bytes_option-option_bytes a.version,
      ))

auth_res-IsFaithful : IsFaithful auth_res_json
auth_res-IsFaithful a b e =
    subst (λ x. auth_res_from x ≡ some a) (some-injective _ _ e)
      (ground (
        arith,
        take-append_length a.message (option_bytes a.assigned_route),
        drop-append_length a.message (option_bytes a.assigned_route),
        bytes_option-option_bytes a.assigned_route,
        bytes_port-port_bytes a.public_port,
        bit-back a.success,
      ))

put_get :
    (b : List ℕ)
    → length b ≡ 4
    → All (λ x. x < 256) b
    → sample_wire.put_u32 (sample_wire.get_u32 b) ≡ b
put_get (a ∷ b ∷ c ∷ d ∷ []) four (ha, (hb, (hc, (hd, _)))) =
    let n = a * 2 ^ 24 + b * 2 ^ 16 + c * 2 ^ 8 + d in
    let first : n / 2 ^ 24 % 256 ≡ a = omega arith in
    let second_ : n / 2 ^ 16 % 256 ≡ b = omega arith in
    let third : n / 2 ^ 8 % 256 ≡ c = omega arith in
    let fourth : n % 256 ≡ d = omega arith in cc (first, second_, third, fourth)
put_get _ four h = absurd (ground arith)

pub sample_laws : WireLaws sample_wire
sample_laws = record {
  auth_req = auth_req-IsFaithful;
  auth_res = auth_res-IsFaithful;
  new_conn = λ a b e. ground arith;
  accept_conn = λ a b e. ground arith;
  put_u32_length = λ n. refl;
  get_u32_put = λ n h. omega arith;
  put_u32_get = put_get;
}

pub auth_req-Fits :
    (a : AuthReq)
    → length (auth_req_bytes a) ≤ max_payload_size
    → Fits sample_wire (Message.auth_req a)
unfolding encode_payload
auth_req-Fits a h = (auth_req_bytes a, refl, h)

pub auth_res-Fits :
    (a : AuthRes)
    → length (auth_res_bytes a) ≤ max_payload_size
    → Fits sample_wire (Message.auth_res a)
unfolding encode_payload
auth_res-Fits a h = (auth_res_bytes a, refl, h)
