-- ===== src/Server/Dispatch.antt =====
-- server.rs: `serve_http`, which sends a public request to the dashboard or through the proxy.
pub mod Reach
use zo_tunnel.Prelude.{
  ℕ, Bool, true, false, Option, none, some, List, [], ◌∷◌, ◌++◌, ◌⊎◌, Text, text, text_eq,
  first_piece, if◌then◌else◌,
}
use zo_tunnel.Server.Clock.{Instant}
use zo_tunnel.Server.Http.{Http, Request, Response, header_str}
use zo_tunnel.Server.Proxy.{World, Flight, begin}

-- `handle_dashboard`, or `handle_proxy_request` up to its first await.
pub data Served : Type 0 where
  dashboard : Request → Served
  proxied : (Response ⊎ Flight) × World → Served

-- The host of a request without its port; empty where there is none.
unfoldable pub host_no_port : Http → Request → Text
host_no_port http req = elim (header_str http (text "host") req.headers) [
  | none ↦ []
  | some host ↦ first_piece b':' host
]

unfoldable pub serve_http : Http → Text → Instant → Request → World → Served
serve_http http domain now req w =
    let dashboard_host = text "dashboard." ++ domain in
    if text_eq req.path (text "/api/tls-check")
    then dashboard req
    else if text_eq (host_no_port http req) dashboard_host
    then dashboard req
    else proxied (begin http domain now req w)
