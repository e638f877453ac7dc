-- ===== src/Server/Dashboard.antt =====
-- dashboard.rs: the sessions of the dashboard, its cookie, and the handlers of its API.
pub mod Cookies
pub mod Access
pub mod Life
pub mod Login
pub mod Certificates
use zo_tunnel.Prelude.{
  ℕ, ◌≤◌, ◌<◌, Bool, true, false, not, ◌&&◌, Option, none, some, List, [], ◌∷◌, ◌++◌, is_empty, ltb,
  leb, Text, text, Assoc, lookup, insert, remove, strip_prefix, strip_suffix, split, trim,
  eq_ignore_ascii_case, decimal, if◌then◌else◌,
}
use zo_tunnel.Server.Clock.{Instant, secs_since}
use zo_tunnel.Server.Config.{ServerConfig, default, is_reserved, validate_dashboard_token}
use zo_tunnel.Server.Http.{Http, Headers, header_str}
use zo_tunnel.Server.Metrics.{Metrics, MetricsSnapshot, snapshot}
use zo_tunnel.Server.Registry.{Registry, ClientInfo, get, list, count}

-- A session is the time of its creation.
pub record SessionStore : Type 0 where
  pub sessions : Assoc Instant
  pub ttl_secs : ℕ

-- `id` is what the package uuid returned.
unfoldable pub create : Text → Instant → SessionStore → SessionStore
create id now s = record s { sessions = insert id now s.sessions }

unfoldable pub invalidate : Text → SessionStore → SessionStore
invalidate session_id s = record s { sessions = remove session_id s.sessions }

unfoldable pub validate : Text → Instant → SessionStore → Bool × SessionStore
unfolding invalidate
validate session_id now s = elim (lookup session_id s.sessions) [
  | none ↦ (false, s)
  | some created_at ↦
      if ltb (secs_since created_at now) s.ttl_secs
      then (true, s)
      else (false, invalidate session_id s)
]

-- `ask` of the Caddy manager is an argument of `api_tls_check`.
pub record DashboardState : Type 0 where
  pub registry : Registry
  pub metrics : Metrics
  pub dashboard_token : Text
  pub auth_enabled : Bool
  pub tls_enabled : Bool
  pub domain : Text
  pub sessions : SessionStore

abbrev pub cookie_name : Text
cookie_name = text "zo-session"

-- The loop of `extract_session_id`, which a part that begins with the name and has no `=` behind
-- it ends with no result.
unfoldable pub find_session : List Text → Option Text
find_session [] = none
find_session (part ∷ parts) =
    let rest = find_session parts in
    elim (strip_prefix (trim part) cookie_name) [
      | none ↦ rest
      | some value ↦ elim (strip_prefix value (text "=")) [
        | none ↦ none
        | some value' ↦ if not (is_empty value') then some value' else rest
      ]
    ]

unfoldable pub extract_session_id : Http → Headers → Option Text
unfolding find_session
extract_session_id http headers = elim (header_str http (text "cookie") headers) [
  | none ↦ none
  | some cookie_header ↦ find_session (split b';' cookie_header)
]

unfoldable pub build_session_cookie : Text → ℕ → Bool → Text
build_session_cookie session_id max_age_secs tls_enabled =
    let cookie =
      cookie_name
      ++ (b'=' ∷ session_id)
      ++ (text "; Path=/; HttpOnly; SameSite=Strict; Max-Age=" ++ decimal max_age_secs) in
    if tls_enabled then cookie ++ text "; Secure" else cookie

unfoldable pub build_clear_cookie : Text
build_clear_cookie = cookie_name ++ text "=; Path=/; HttpOnly; SameSite=Strict; Max-Age=0"

abbrev pub on_sessions : DashboardState → Bool × SessionStore → Bool × DashboardState
on_sessions state (b, s) = (b, record state { sessions = s })

unfoldable pub is_authenticated : Http → Headers → Instant → DashboardState → Bool × DashboardState
is_authenticated http headers now state =
    if not state.auth_enabled then (true, state) else elim (extract_session_id http headers) [
      | none ↦ (false, state)
      | some session_id ↦ on_sessions state (validate session_id now state.sessions)
    ]

unfoldable pub is_tls_enabled : Http → Headers → DashboardState → Bool
is_tls_enabled http headers state =
    if state.tls_enabled then true else elim (header_str http (text "x-forwarded-proto") headers) [
      | none ↦ false
      | some proto ↦ eq_ignore_ascii_case (trim proto) (text "https")
    ]

-- A response: its status, the cookie that it sets, and what its body is made from.
pub record Reply (A : Type 0) : Type 0 where
  pub status : ℕ
  pub set_cookie : Option Text
  pub body : A

pub record LoginResponse : Type 0 where
  pub success : Bool
  pub message : Text

pub record AuthCheckResponse : Type 0 where
  pub authenticated : Bool
  pub auth_required : Bool
  pub tls_enabled : Bool

pub record StatusResponse : Type 0 where
  pub status : Text
  pub version : Text
  pub connected_clients : ℕ

abbrev pub login_reply : ℕ → Option Text → Bool → Text → Reply LoginResponse
login_reply status cookie success message = record {
  status = status;
  set_cookie = cookie;
  body = record { success = success; message = message };
}

-- The settings whose token `api_login` checks.
abbrev pub check_cfg : DashboardState → ServerConfig
check_cfg state = record default {
  dashboard_auth = record default.dashboard_auth { token = state.dashboard_token };
}

unfoldable pub api_login :
    Http
    → (List ℕ → List ℕ → Bool)
    → Headers
    → Text
    → Text
    → Instant
    → DashboardState
    → Reply LoginResponse × DashboardState
api_login http ct_eq headers token id now state =
    if not state.auth_enabled
    then (login_reply 200 none true (text "Authentication not required"), state)
    else let (already, state') = is_authenticated http headers now state in
      if already
      then (login_reply 200 none true (text "Already authenticated"), state')
      else if validate_dashboard_token ct_eq (check_cfg state') token
      then (
        login_reply 200
            (some (
              build_session_cookie id state'.sessions.ttl_secs
                (is_tls_enabled http headers state')))
            true (text "Login successful"),
        record state' { sessions = create id now state'.sessions },
      )
      else (login_reply 401 none false (text "Invalid admin token"), state')

unfoldable pub api_auth_check :
    Http → Headers → Instant → DashboardState → Reply AuthCheckResponse × DashboardState
api_auth_check http headers now state =
    let (b, state') = is_authenticated http headers now state in
    (
      record {
        status = 200;
        set_cookie = none;
        body = record {
          authenticated = b;
          auth_required = state'.auth_enabled;
          tls_enabled = is_tls_enabled http headers state';
        };
      },
      state',
    )

unfoldable pub api_logout : Http → Headers → DashboardState → Reply LoginResponse × DashboardState
api_logout http headers state =
    let reply = login_reply 200 (some build_clear_cookie) true (text "Logged out") in
    elim (extract_session_id http headers) [
      | none ↦ (reply, state)
      | some session_id ↦ (reply, record state { sessions = invalidate session_id state.sessions })
    ]

-- The check at the start of a protected handler; `none` stands for the body of the error.
unfoldable pub guarded :
    {A : Type 0}
    → Http
    → Headers
    → Instant
    → (DashboardState → A)
    → DashboardState
    → Reply (Option A) × DashboardState
guarded http headers now answer state =
    let (b, state') = is_authenticated http headers now state in
    if not b
    then (record { status = 401; set_cookie = none; body = none }, state')
    else (record { status = 200; set_cookie = none; body = some (answer state') }, state')

unfoldable pub api_status :
    Http
    → Text
    → Headers
    → Instant
    → DashboardState
    → Reply (Option StatusResponse) × DashboardState
api_status http version headers now = guarded http headers now (λ state. record {
  status = text "running";
  version = version;
  connected_clients = count state.registry;
})

unfoldable pub api_clients :
    Http → Headers → Instant → DashboardState → Reply (Option (List ClientInfo)) × DashboardState
api_clients http headers now = guarded http headers now (λ state. list now state.registry)

unfoldable pub api_metrics :
    Http → Headers → Instant → DashboardState → Reply (Option MetricsSnapshot) × DashboardState
api_metrics http headers now = guarded http headers now (λ state. snapshot now state.metrics)

-- `StatusCode::from_u16(status).unwrap_or(StatusCode::FORBIDDEN)`
abbrev pub from_u16_or_forbidden : ℕ → ℕ
from_u16_or_forbidden status = if leb 100 status && ltb status 1000 then status else 403

-- `fallback` is what the Caddy manager's `check_fallback` answers for the domain.
unfoldable pub api_tls_check : (Text → Option ℕ) → Text → DashboardState → ℕ
api_tls_check fallback requested_domain state =
    elim (strip_suffix requested_domain (b'.' ∷ state.domain)) [
      | none ↦ elim (fallback requested_domain) [
        | none ↦ 403
        | some status ↦ from_u16_or_forbidden status
      ]
      | some subdomain ↦
          if is_reserved subdomain
          then 200
          else elim (get subdomain state.registry) [ none ↦ 403 | some _ ↦ 200 ]
    ]
