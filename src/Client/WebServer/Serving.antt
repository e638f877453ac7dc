-- ===== src/Client/WebServer/Serving.antt =====
-- Any sequence of requests, from the start of the client.
use zo_tunnel.Prelude.{
  ◌≡◌, inl, inr, none, List, [], ◌∷◌, is_empty, text, trim, Bool-cases, Option-cases,
}
use zo_tunnel.Client.Manager.{TunnelManager, ManagerError, start_all}
use zo_tunnel.Client.Manager
use zo_tunnel.Client.Manager.Faithful.{stop_tunnel-IsFaithful, start_tunnel-IsFaithful}
use zo_tunnel.Client.Manager.Running.{stop_config}
use zo_tunnel.Client.Manager.Configs.{start_tunnel-config, restart_tunnel-config}
use zo_tunnel.Client.Manager.Listing.{list_tunnels}
use zo_tunnel.Client.WebServer.{Host, Io}
use zo_tunnel.Client.WebServer.Handlers.{
  edited, acted, saved, api_connect, api_disconnect, api_add_tunnel, api_update_tunnel,
  api_delete_tunnel, api_start_tunnel, add_checked, update_checked, api_stop_tunnel,
  api_restart_tunnel, api_list_tunnels, api_status,
}
use zo_tunnel.Client.WebServer.Router.{Env, Request, respond, serve}
use zo_tunnel.Client.WebServer.Sound.{IsSound, IsFreshFor, Served, require-IsSound}
use zo_tunnel.Client.WebServer.Api.{ok_response, tunnels}
use zo_tunnel.Client.WebServer.Requests.{
  acted-IsSound, remove-IsSound, add_checked-IsSound, update_checked-IsSound, connect-IsSound,
  disconnect-IsSound,
}

module _ (env : Env) where
  respond-IsSound :
      (io : Io) (r : Request) (h : Host)
      → io.tunnels ≡ none
      → IsFreshFor env.is_alphanumeric h io r
      → IsSound env.is_alphanumeric h
      → IsSound env.is_alphanumeric (respond env io r h).1
  unfolding respond api_connect api_disconnect api_add_tunnel api_update_tunnel api_delete_tunnel
      api_start_tunnel api_stop_tunnel api_restart_tunnel api_list_tunnels api_status
      Manager.restart_tunnel
  respond-IsSound io (Request.connects server token tls name skip) h writes new s =
      elim (Bool-cases (is_empty (trim server))) [
        | inl no_server ↦ rw (no_server, api_connect) s
        | inr has_server ↦ elim (Bool-cases (is_empty (trim token))) [
          | inl no_token ↦ rw (has_server, api_connect) (rw no_token s)
          | inr has_token ↦
              rw (has_server, api_connect)
                (rw has_token (
                  connect-IsSound env.is_alphanumeric io writes h s (trim server) (trim token) tls
                    name skip))
        ]
      ]
  respond-IsSound io Request.disconnects h writes new s =
      disconnect-IsSound env.is_alphanumeric io writes h s
  respond-IsSound io Request.lists h writes new s =
      require-IsSound env.is_alphanumeric
        (λ c g.
          (ok_response (tunnels (list_tunnels env.status_of env.reachable env.now c.manager)), g))
        h s (λ c there. s)
  respond-IsSound io Request.asks_status h writes new s = elim (Option-cases h.app.inner) [
    | inl idle ↦ rw (idle, api_status) s
    | inr (c, there) ↦ rw (there, api_status) s
  ]
  respond-IsSound io (Request.adds client_id local_addr enabled) h writes new s =
      require-IsSound env.is_alphanumeric
        (add_checked io env.is_alphanumeric (trim client_id) (trim local_addr) enabled) h s
        (λ c there.
          add_checked-IsSound env.is_alphanumeric io writes h s (trim client_id) (trim local_addr)
            enabled c there new)
  respond-IsSound io (Request.updates id client_id local_addr enabled) h writes new s =
      require-IsSound env.is_alphanumeric
        (update_checked io env.is_alphanumeric id (trim client_id) (trim local_addr) enabled) h s
        (λ c there.
          update_checked-IsSound env.is_alphanumeric io writes h s (trim client_id)
            (trim local_addr) enabled c there id)
  respond-IsSound io (Request.deletes id) h writes new s =
      require-IsSound env.is_alphanumeric
        (λ c g. edited io (Manager.remove_tunnel id (saved io) c.manager) c g) h s
        (λ c there. remove-IsSound env.is_alphanumeric io writes h s c there id)
  respond-IsSound io (Request.starts id) h writes new s =
      require-IsSound env.is_alphanumeric
        (λ c g. acted io (text "started") (Manager.start_tunnel id c.manager) c g) h s
        (λ c there.
          acted-IsSound env.is_alphanumeric io writes h s c there (text "started")
            (Manager.start_tunnel id c.manager)
            (start_tunnel-IsFaithful id c.manager (s.faithful c there))
            (start_tunnel-config id c.manager))
  respond-IsSound io (Request.stops id) h writes new s =
      require-IsSound env.is_alphanumeric
        (λ c g. acted io (text "stopped") (Manager.stop_tunnel id c.manager) c g) h s
        (λ c there.
          acted-IsSound env.is_alphanumeric io writes h s c there (text "stopped")
            (Manager.stop_tunnel id c.manager)
            (stop_tunnel-IsFaithful id c.manager (s.faithful c there))
            ((stop_config id c.manager).0))
  respond-IsSound io (Request.restarts id) h writes new s =
      require-IsSound env.is_alphanumeric
        (λ c g. acted io (text "restarted") (Manager.restart_tunnel id c.manager) c g) h s
        (λ c there.
          acted-IsSound env.is_alphanumeric io writes h s c there (text "restarted")
            (Manager.restart_tunnel id c.manager)
            (start_tunnel-IsFaithful id (Manager.stop_tunnel id c.manager).1
              (stop_tunnel-IsFaithful id c.manager (s.faithful c there)))
            (restart_tunnel-config id c.manager))
  respond-IsSound io (Request.checks_upgrade fetched) h writes new s = s

  -- From a client whose manager runs its tunnels as they are configured, with distinct identifiers
  -- and distinct names that the page lets through, and whose file holds that configuration, any
  -- requests in any order lead to such a client, while the tunnels' file can be written and each
  -- added tunnel gets a new identifier; the file of the credentials may fail.
  pub serve-IsSound :
      (h : Host) (requests : List (Io × Request))
      → Served env.is_alphanumeric env h requests
      → IsSound env.is_alphanumeric h
      → IsSound env.is_alphanumeric (serve env h requests)
  unfolding serve
  serve-IsSound h [] served s = s
  serve-IsSound h ((io, r) ∷ requests) (writes, new, served) s =
      serve-IsSound (respond env io r h).1 requests served (respond-IsSound io r h writes new s)
