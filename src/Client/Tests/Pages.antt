-- ===== src/Client/Tests/Pages.antt =====
-- The theorems about the client's web page at concrete states.
use zo_tunnel.Prelude.{
  inr, text_eq, missing, holds, ◌≡◌, ◌≢◌, refl, subst, ap, inl, true, false, none, some, List, [],
  ◌∷◌, ok, Text, text, lookup, to_ascii_lowercase, arith,
}
use zo_tunnel.Server.Proxy.{route_host}
use zo_tunnel.Client.Config.{TunnelEntry, TunnelsConfig, find_id}
use zo_tunnel.Client.Manager.{TunnelManager}
use zo_tunnel.Client.Manager.Faithful.{IsFaithful}
use zo_tunnel.Client.Manager.Startup.{only_enabled}
use zo_tunnel.Client.Session.{TunnelStatus}
use zo_tunnel.Client.Storage.{load_or_default}
use zo_tunnel.Client.WebServer.{Connected, Host, Io, credentials_of, connect, disconnect}
use zo_tunnel.Client.WebServer.Api.{not_connected}
use zo_tunnel.Client.WebServer.Handlers.{is_name}
use zo_tunnel.Client.WebServer.Router.{Env, Request, respond, serve}
use zo_tunnel.Client.WebServer.Sound.{IsSound}
use zo_tunnel.Client.WebServer.Serving.{serve-IsSound}
use zo_tunnel.Client.WebServer.Reconnect.{disconnect-shuts, connect-restores}
use zo_tunnel.Server.Http.{header_str}
use zo_tunnel.Server.Registry.{get}
use zo_tunnel.Server.Dispatch.Reach.{Arrives}
use zo_tunnel.Server.Tests.Samples.{sample_http, sample-IsWellFormed, sample_world, sample_request}
use zo_tunnel.Client.WebServer.Names.{
  is_ascii_alphanumeric, lowercase, tunnels_reached, route_host-lowercase,
}

abbrev api : TunnelEntry
api = record { id = text "a1"; client_id = text "api2"; local_addr = text ":3000"; enabled = true }

abbrev one : TunnelsConfig
one = record { tunnels = api ∷ [] }

abbrev here : Connected
here = record {
  server_addr = text "t.io:7835";
  token = text "secret";
  tls_config = record { enabled = false; server_name = []; skip_verify = false };
  manager = record { config = one; tunnels = (text "a1", api) ∷ [] };
}

abbrev host : Host
host = record {
  app = record { inner = some here; bind = text "127.0.0.1"; port = 7836 };
  disk = record { credentials = missing; tunnels = holds one };
}

running-IsFaithful : IsFaithful here.manager
unfolding find_id lookup
running-IsFaithful = record { runs = λ k e there. ground arith; distinct = (tt, tt) }

host-IsSound : IsSound is_ascii_alphanumeric host
unfolding load_or_default is_name
host-IsSound = record {
  faithful = λ c e.
      let same : here ≡ c = ground arith in
      subst (λ (d : Connected). IsFaithful d.manager) same running-IsFaithful;
  fine = ((tt, tt), (((λ e. ground arith), refl), tt));
  kept = λ c e. let same : here ≡ c = ground arith in ap (λ (d : Connected). d.manager.config) same;
}

abbrev env : Env
env = record {
  version = text "1.0";
  is_alphanumeric = is_ascii_alphanumeric;
  status_of = λ id. TunnelStatus.connecting;
  reachable = λ addr. true;
  now = 0;
}

abbrev io : Io
io = record {
  credentials = none;
  tunnels = none;
  deletes = true;
  generated = text "b2";
  error_text = text "no space";
}

abbrev requests : List (Io × Request)
requests =
    (io, Request.adds (text " web ") (text ":80") true) ∷ (io, Request.stops (text "a1")) ∷ []

serve-IsSound_example : IsSound is_ascii_alphanumeric (serve env host requests)
unfolding load_or_default
serve-IsSound_example =
    serve-IsSound env host requests (refl, ((λ e. ground arith), tt), (refl, tt, tt)) host-IsSound

disconnect-shuts_example :
    ((m : TunnelManager) × ((disconnect io host).0 ≡ some m)
      × ((k : Text) → lookup k m.tunnels ≡ none))
    × (respond env io (Request.starts (text "a1")) (disconnect io host).1
        ≡ (not_connected, (disconnect io host).1))
disconnect-shuts_example = disconnect-shuts env io io host (Request.starts (text "a1")) here tt refl

connect-restores_example :
    let (r, h') = connect io (text "u.io:1") (text "t") true none false host in
    (r ≡ ok tt)
    × (h'.disk.credentials ≡ holds (credentials_of (text "u.io:1") (text "t") true none false))
    × ((c' : Connected) × (h'.app.inner ≡ some c')
        × (c'.server_addr ≡ text "u.io:1")
        × (c'.manager.config ≡ one)
        × ((k : Text) → lookup k c'.manager.tunnels ≡ only_enabled (find_id k one.tunnels)))
connect-restores_example =
    connect-restores is_ascii_alphanumeric io host here (text "u.io:1") (text "t") true false none
      host-IsSound refl refl

tunnels_reached_example :
    Arrives sample_http (text "t.io") 5 sample_request sample_world (text "api2") 0
unfolding get lookup text_eq header_str
tunnels_reached_example =
    tunnels_reached is_ascii_alphanumeric (λ c h. refl) sample_http 5 sample_request sample_world
      host here 0 api (text "t.io") (text "api2.t.io:443") (text "443") 0 host-IsSound refl refl
      sample-IsWellFormed refl refl (inr refl) (omega arith) (λ e. ground arith)

route_host-lowercase_example :
    (route_host (lowercase (text "Api.t.io")) (text "/") (text "t.io")
      ≡ some (lowercase (text "Api"), text "/"))
    × (lowercase (text "Api") ≢ text "Api")
unfolding is_name to_ascii_lowercase
route_host-lowercase_example =
    route_host-lowercase is_ascii_alphanumeric (λ c h. refl) (text "Api") (text "t.io") (text "/")
      ((λ e. ground arith), refl) (inl refl) refl (omega arith)
