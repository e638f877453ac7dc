-- ===== src/Server/Tests/Pages.antt =====
-- The dashboard at concrete states.
use zo_tunnel.Prelude.{
  ◌≡◌, ◌↔◌, ◌<◌, refl, true, false, none, some, List, [], ◌∷◌, ◌++◌, All, Text, text, text_eq,
  lookup, first_piece, split, strip_prefix, ◌+◌, trim, trim_start, is_whitespace, arith, decimal,
  digits,
}
use zo_tunnel.Protocol.Utf8.{utf8, encode_char}
use zo_tunnel.Server.Clock.{second, secs_since}
use zo_tunnel.Server.Config.{
  ServerConfig, default, validate_dashboard_token, dashboard_auth_enabled,
}
use zo_tunnel.Server.Http.{Headers, header_str}
use zo_tunnel.Server.Dashboard.{
  DashboardState, extract_session_id, find_session, is_authenticated, api_login, api_logout,
  api_status, api_clients, api_metrics, api_tls_check, check_cfg, build_session_cookie,
  is_tls_enabled, create, cookie_name,
}
use zo_tunnel.Server.Dashboard.Cookies.{IsIdentifier, pair, extract_session_id-shadowed}
use zo_tunnel.Server.Dashboard.Life.{Event, run, Spares}
use zo_tunnel.Server.Dashboard.Login.{login_lasts, logout_ends}
use zo_tunnel.Server.Dashboard.Certificates.{IsKnown, api_tls_check_iff}
use zo_tunnel.Server.Lifecycle.{dash_state}
use zo_tunnel.Server.Lifecycle.Doors.{Fails, dash_state-shut}
use zo_tunnel.Server.Tests.Samples.{sample_http, sample_registry, sample_metrics}

abbrev id : Text
id = text "0f-a1"

id-IsIdentifier : IsIdentifier id
unfolding is_whitespace
id-IsIdentifier = ((λ e. ground arith), ground arith, ground arith)

abbrev cookie_of : Text → Headers
cookie_of value = (text "cookie", value) ∷ []

extract_session_id-shadowed_example :
    extract_session_id sample_http (cookie_of ((cookie_name ++ text "s=1") ++ b';' ∷ pair id))
    ≡ none
unfolding header_str lookup text_eq is_whitespace
extract_session_id-shadowed_example =
    extract_session_id-shadowed sample_http
      (cookie_of ((cookie_name ++ text "s=1") ++ b';' ∷ pair id)) b's' (text "=1") (pair id)
      (omega arith) (ground arith) (ground arith) refl

abbrev locked : DashboardState
locked = record {
  registry = sample_registry;
  metrics = sample_metrics;
  dashboard_token = text "ad";
  auth_enabled = true;
  tls_enabled = false;
  domain = text "t.io";
  sessions = record { sessions = []; ttl_secs = 60 };
}

abbrev entered : DashboardState
entered = record locked { sessions = record { sessions = (id, 0) ∷ []; ttl_secs = 60 } }

abbrev guarded_config : ServerConfig
guarded_config = record default {
  domain = text "t.io";
  dashboard_auth = record { token = text "ad"; session_ttl_secs = 60 };
}

-- A guess, a check and a logout.
abbrev guesses : List Event
guesses = Event.logs_in [] (text "ab") id 0 ∷ Event.reads [] second ∷ Event.logs_out [] ∷ []

guesses-Fails : All (Fails sample_http text_eq guarded_config) guesses
unfolding validate_dashboard_token text_eq utf8 encode_char dashboard_auth_enabled
guesses-Fails = (refl, (tt, (tt, tt)))

dash_state-shut_example :
    ((api_status sample_http
        (text "0.3.0")
        (cookie_of (pair id))
        second
        (run sample_http text_eq (dash_state 0 guarded_config) guesses)).0
      ≡ record { status = 401; set_cookie = none; body = none })
    × ((api_clients sample_http
          (cookie_of (pair id))
          second
          (run sample_http text_eq (dash_state 0 guarded_config) guesses)).0
        ≡ record { status = 401; set_cookie = none; body = none })
    × ((api_metrics sample_http
          (cookie_of (pair id))
          second
          (run sample_http text_eq (dash_state 0 guarded_config) guesses)).0
        ≡ record { status = 401; set_cookie = none; body = none })
unfolding dashboard_auth_enabled
dash_state-shut_example =
    dash_state-shut sample_http text_eq guarded_config 0 second (text "0.3.0") (cookie_of (pair id))
      guesses refl guesses-Fails

abbrev logged_in : DashboardState
logged_in = (api_login sample_http text_eq [] (text "ad") id 0 locked).1

abbrev others : List Event
others =
    Event.logs_in [] (text "ad") (text "77") second ∷ Event.reads [] second ∷ Event.logs_out [] ∷ []

abbrev set_cookie : Text
set_cookie = build_session_cookie id 60 false

cookie-set :
    (api_login sample_http text_eq [] (text "ad") id 0 locked).0.set_cookie ≡ some set_cookie
unfolding api_login is_authenticated extract_session_id is_tls_enabled header_str lookup
    validate_dashboard_token text_eq utf8 encode_char
cookie-set = refl

others-spare : All (Spares sample_http id 0 logged_in.sessions.ttl_secs) others
unfolding api_login is_authenticated extract_session_id header_str lookup validate_dashboard_token
    text_eq utf8 encode_char create
others-spare = (((λ e. ground arith), omega arith), (omega arith, ((λ e. ground arith), tt)))

cookie-returned :
    header_str sample_http (text "cookie") (cookie_of (pair id))
    ≡ some (first_piece b';' set_cookie)
unfolding header_str lookup text_eq build_session_cookie first_piece split decimal digits
cookie-returned = refl

still-young : secs_since 0 (second + second) < logged_in.sessions.ttl_secs
unfolding api_login is_authenticated extract_session_id header_str lookup validate_dashboard_token
    text_eq utf8 encode_char create
still-young = omega arith

login_lasts_example :
    (validate_dashboard_token text_eq (check_cfg locked) (text "ad") ≡ true)
    × ((is_authenticated sample_http
          (cookie_of (pair id))
          (second + second)
          (run sample_http text_eq logged_in others)).0
        ≡ true)
login_lasts_example =
    login_lasts sample_http text_eq [] (cookie_of (pair id)) (text "ad") id set_cookie 0
      (second + second) locked others id-IsIdentifier cookie-set others-spare cookie-returned
      still-young

logout_ends_example :
    (is_authenticated sample_http
      (cookie_of (pair id))
      second
      (run sample_http text_eq (api_logout sample_http (cookie_of (pair id)) entered).1 others)).0
    ≡ false
unfolding extract_session_id find_session header_str lookup text_eq split trim trim_start
    is_whitespace strip_prefix
logout_ends_example =
    logout_ends sample_http text_eq (cookie_of (pair id)) (cookie_of (pair id)) id second entered
      others refl refl ((λ e. ground arith), (tt, (tt, tt))) refl

api_tls_check_iff_example : (api_tls_check (λ _. none) (text "api2.t.io") entered ≡ 200) ↔ (
    (name : Text) × (text "api2.t.io" ≡ name ++ b'.' ∷ text "t.io") × IsKnown name sample_registry)
api_tls_check_iff_example = api_tls_check_iff (text "api2.t.io") entered
