-- ===== src/Client/WebServer/Reconnect.antt =====
-- Leaving a server and connecting again.
use zo_tunnel.Prelude.{
  saved_file, holds, ℕ, ◌≡◌, refl, ap, ◌∙◌, Bool, Option, none, some, ok, [], Text, lookup, arith,
}
use zo_tunnel.Client.Config.{TunnelsConfig, find_id}
use zo_tunnel.Client.Manager.{TunnelManager, stop_all}
use zo_tunnel.Client.Manager.Idle.{stop_all-idle}
use zo_tunnel.Client.Manager.Startup.{only_enabled, start_all-runs}
use zo_tunnel.Client.Manager.Configs.{start_all-config}
use zo_tunnel.Client.Storage.{load_or_default}
use zo_tunnel.Client.WebServer.{
  Connected, Host, Io, new_manager, started, credentials_of, connect, disconnect,
}
use zo_tunnel.Client.WebServer.Api.{not_connected}
use zo_tunnel.Client.WebServer.Handlers.{
  require_connected, api_add_tunnel, api_update_tunnel, api_delete_tunnel, api_start_tunnel,
  api_stop_tunnel, api_restart_tunnel, api_list_tunnels,
}
use zo_tunnel.Client.WebServer.Router.{Env, Request, respond}
use zo_tunnel.Client.WebServer.Sound.{IsSound}

-- The requests about tunnels.
abbrev pub IsOfTunnels : Request → Type 0
IsOfTunnels (Request.connects server token tls name skip) = ⊥
IsOfTunnels Request.disconnects = ⊥
IsOfTunnels Request.asks_status = ⊥
IsOfTunnels (Request.checks_upgrade fetched) = ⊥
IsOfTunnels r = Unit

-- The manager that `disconnect` drops runs no tunnel any more, and behind it every request about
-- tunnels is answered by `Not connected` and changes nothing.
pub disconnect-shuts :
    (env : Env) (io io' : Io) (h : Host) (r : Request) (c : Connected)
    → IsOfTunnels r
    → h.app.inner ≡ some c
    → ((m : TunnelManager) × ((disconnect io h).0 ≡ some m)
        × ((k : Text) → lookup k m.tunnels ≡ none))
      × (respond env io' r (disconnect io h).1 ≡ (not_connected, (disconnect io h).1))
unfolding disconnect respond require_connected api_add_tunnel api_update_tunnel api_delete_tunnel
    api_start_tunnel api_stop_tunnel api_restart_tunnel api_list_tunnels
disconnect-shuts env io io' h (Request.connects server token tls name skip) c about there =
    absurd about
disconnect-shuts env io io' h Request.disconnects c about there = absurd about
disconnect-shuts env io io' h Request.asks_status c about there = absurd about
disconnect-shuts env io io' h (Request.checks_upgrade fetched) c about there = absurd about
disconnect-shuts env io io' h r c about there =
    ((stop_all c.manager, ground arith, λ k. stop_all-idle k c.manager), refl)

-- A client that satisfies the invariant of serve and that connects to any server, while the file of
-- its credentials can be written, gets the configuration that it had, and of its tunnels exactly
-- those run that are enabled; the credentials are those of the request.
pub connect-restores :
    (is_alphanumeric : ℕ → Bool) (io : Io) (h : Host) (c : Connected) (server token : Text)
    (tls skip : Bool) (name : Option Text)
    → IsSound is_alphanumeric h
    → h.app.inner ≡ some c
    → io.credentials ≡ none
    → let (r, h') = connect io server token tls name skip h in
      (r ≡ ok tt)
      × (h'.disk.credentials ≡ holds (credentials_of server token tls name skip))
      × ((c' : Connected) × (h'.app.inner ≡ some c')
          × (c'.server_addr ≡ server)
          × (c'.manager.config ≡ c.manager.config)
          × ((k : Text)
              → lookup k c'.manager.tunnels ≡ only_enabled (find_id k c.manager.config.tunnels)))
unfolding connect disconnect new_manager saved_file
connect-restores is_alphanumeric io h c server token tls skip name s there writes =
    let same = s.kept c there in
    let config = load_or_default h.disk.tunnels in
    let fresh : TunnelManager = record { config = config; tunnels = [] } in
    rw (writes, connect)
      (
        refl,
        ground arith,
        (
          started (new_manager (credentials_of server token tls name skip) config),
          refl,
          refl,
          start_all-config fresh ∙ same,
          λ k.
              start_all-runs config k (s.fine.0)
              ∙ ap (λ (g : TunnelsConfig). only_enabled (find_id k g.tunnels)) same,
        ),
      )
