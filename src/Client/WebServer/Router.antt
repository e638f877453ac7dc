-- ===== src/Client/WebServer/Router.antt =====
-- web_server.rs: `create_router`, which handler a request goes to, and sequences of requests.
use zo_tunnel.Prelude.{ℕ, Bool, Option, List, [], ◌∷◌, Text}
use zo_tunnel.Server.Clock.{Instant}
use zo_tunnel.Client.Session.{TunnelStatus}
use zo_tunnel.Client.WebServer.{Host, Io}
use zo_tunnel.Client.WebServer.Handlers.{
  Handler, api_connect, api_disconnect, api_add_tunnel, api_update_tunnel, api_delete_tunnel,
  api_start_tunnel, api_stop_tunnel, api_restart_tunnel, api_list_tunnels, api_status,
}
use zo_tunnel.Client.WebServer.Upgrades.{api_upgrade_check}

-- The routes of the API, but for the upgrade, which ends the process.
pub data Request : Type 0 where
  connects : Text → Text → Bool → Option Text → Bool → Request
  disconnects lists asks_status : Request
  adds : Text → Text → Bool → Request
  updates : Text → Text → Text → Bool → Request
  deletes starts stops restarts : Text → Request
  checks_upgrade : Option Text → Request

-- What the handlers ask of the system and of the tasks while they run.
pub record Env : Type 0 where
  pub version : Text
  pub is_alphanumeric : ℕ → Bool
  pub status_of : Text → TunnelStatus
  pub reachable : Text → Bool
  pub now : Instant

module _ (env : Env) where
  unfoldable pub respond : Io → Request → Handler
  respond io (connects server token tls name skip) = api_connect io server token tls name skip
  respond io disconnects = api_disconnect io
  respond io lists = api_list_tunnels env.status_of env.reachable env.now
  respond io asks_status = api_status env.status_of env.reachable env.now env.version
  respond io (adds client_id local_addr enabled) =
      api_add_tunnel io env.is_alphanumeric client_id local_addr enabled
  respond io (updates id client_id local_addr enabled) =
      api_update_tunnel io env.is_alphanumeric id client_id local_addr enabled
  respond io (deletes id) = api_delete_tunnel io id
  respond io (starts id) = api_start_tunnel io id
  respond io (stops id) = api_stop_tunnel io id
  respond io (restarts id) = api_restart_tunnel io id
  respond io (checks_upgrade fetched) = λ h. (api_upgrade_check env.version fetched, h)

  unfoldable pub serve : Host → List (Io × Request) → Host
  unfolding respond
  serve h [] = h
  serve h ((io, r) ∷ requests) = serve (respond io r h).1 requests
