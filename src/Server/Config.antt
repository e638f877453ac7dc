-- ===== src/Server/Config.antt =====
-- config.rs: the settings, their defaults, and the two token checks.
pub mod Tokens
use zo_tunnel.Prelude.{
  ℕ, ◌+◌, ◌/◌, ◌%◌, Bool, true, false, not, ◌&&◌, List, [], ◌∷◌, ◌++◌, ltb, ◌==◌, length, is_empty,
  any, Text, text, text_eq, if◌then◌else◌,
}
use zo_tunnel.Protocol.Utf8.{utf8}

abbrev pub reserved_subdomains : List Text
reserved_subdomains =
    text "dashboard" ∷ text "connect" ∷ text "api" ∷ text "www" ∷ text "admin" ∷ []

-- `RESERVED_SUBDOMAINS.contains(&id)`
unfoldable pub is_reserved : Text → Bool
is_reserved id = any (text_eq id) reserved_subdomains

pub record AuthConfig : Type 0 where
  pub tokens : List Text

pub record DashboardAuthConfig : Type 0 where
  pub token : Text
  pub session_ttl_secs : ℕ

pub record RateLimitConfig : Type 0 where
  pub requests_per_second : ℕ
  pub max_connections_per_client : ℕ

-- `CaddyConfig` of caddy.rs
pub record CaddyConfig : Type 0 where
  pub enabled : Bool
  pub admin_api : Text

pub record ServerConfig : Type 0 where
  pub control_port : ℕ
  pub public_port : ℕ
  pub domain : Text
  pub auth : AuthConfig
  pub dashboard_auth : DashboardAuthConfig
  pub rate_limit : RateLimitConfig
  pub caddy : CaddyConfig
  pub log_level : Text

-- `ServerConfig::default()`
abbrev pub default : ServerConfig
default = record {
  control_port = 6200;
  public_port = 6210;
  domain = [];
  auth = record { tokens = [] };
  dashboard_auth = record { token = []; session_ttl_secs = 86400 };
  rate_limit = record { requests_per_second = 100; max_connections_per_client = 50 };
  caddy = record { enabled = false; admin_api = text "http://localhost:2019" };
  log_level = text "info";
}

unfoldable pub validate_token : ServerConfig → Text → Bool
validate_token config token =
    if is_empty config.auth.tokens then true else any (λ t. text_eq t token) config.auth.tokens

unfoldable pub dashboard_auth_enabled : ServerConfig → Bool
dashboard_auth_enabled config = not (is_empty config.dashboard_auth.token)

-- `ct_eq` is the package subtle's comparison of two slices.
unfoldable pub validate_dashboard_token : (List ℕ → List ℕ → Bool) → ServerConfig → Text → Bool
unfolding dashboard_auth_enabled
validate_dashboard_token ct_eq config token =
    let expected = utf8 config.dashboard_auth.token in
    let provided = utf8 token in
    if not (dashboard_auth_enabled config)
    then true
    else length expected == length provided && ct_eq expected provided

-- A digit of `{:x}`.
hex_digit : ℕ → ℕ
hex_digit d = if ltb d 10 then 48 + d else 87 + d

-- `generate_token` and the client's `generate_id`, from the bytes that `getrandom` put into the buffer.
unfoldable pub hex_string : List ℕ → Text
unfolding hex_digit
hex_string [] = []
hex_string (b ∷ buf) = hex_digit (b / 16) ∷ hex_digit (b % 16) ∷ hex_string buf
