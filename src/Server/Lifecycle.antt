-- ===== src/Server/Lifecycle.antt =====
-- server.rs: `Server::run`, from its start to the end of its shutdown. Whether the two ports can be
-- bound is an argument, and so is what happens to the Caddy server while this one runs.
pub mod Handover
pub mod Doors
use zo_tunnel.Prelude.{
  ℕ, Bool, true, false, not, Option, none, some, List, [], ◌∷◌, ◌++◌, Result, ok, err, is_empty,
  Text, text, decimal, if◌then◌else◌,
}
use zo_tunnel.Server.Clock.{Instant}
use zo_tunnel.Server.Config.{ServerConfig, dashboard_auth_enabled}
use zo_tunnel.Server.Dashboard.{DashboardState}
use zo_tunnel.Server.Metrics
use zo_tunnel.Server.Registry
use zo_tunnel.Server.Caddy.{Caddy, CaddyManager, new, register, unregister, check_and_reregister}

pub data RunError : Type 0 where
  no_domain : RunError
  bind_control_port bind_public_port : ℕ → RunError

-- What happens at Caddy while the server runs: the watchdog looks, or another application acts.
pub data Event (S : Type 0) : Type 0 where
  watched : Event S
  other : (S → S) → Event S

-- What ends a server that runs: Ctrl-C, the end of its control task, or SIGTERM, which it does not
-- listen to and which `zo-tunnel-server stop` makes systemd send.
pub data Stop : Type 0 where
  interrupted control_ended terminated : Stop

pub data Exit : Type 0 where
  returned killed : Exit

unfoldable pub our_endpoint : ServerConfig → Text
our_endpoint config =
    text "http://127.0.0.1:" ++ (decimal config.public_port ++ text "/api/tls-check")

-- The state behind the dashboard that `run` starts with, at the instant of its metrics.
unfoldable pub dash_state : Instant → ServerConfig → DashboardState
unfolding dashboard_auth_enabled
dash_state now config = record {
  registry = Registry.new;
  metrics = Metrics.new now;
  dashboard_token = config.dashboard_auth.token;
  auth_enabled = dashboard_auth_enabled config;
  tls_enabled = config.caddy.enabled;
  domain = config.domain;
  sessions = record { sessions = []; ttl_secs = config.dashboard_auth.session_ttl_secs };
}

module _ {S : Type 0} (caddy : Caddy S) where
  -- The manager, where Caddy is configured and lets itself be registered with.
  unfoldable pub start_caddy : ServerConfig → S → Option CaddyManager × S
  unfolding our_endpoint
  start_caddy config s =
      let ((r, m), s') = register caddy (new config.caddy.admin_api (our_endpoint config)) s in
      if not config.caddy.enabled then (none, s) else (elim r [ ok _ ↦ some m | err _ ↦ none ], s')

  -- The watchdog runs if there is a manager.
  abbrev watch : Option CaddyManager × S → Option CaddyManager × S
  watch (none, s) = (none, s)
  watch (some m, s) = let (m', s') = check_and_reregister caddy m s in (some m', s')

  unfoldable pub serve : List (Event S) → Option CaddyManager × S → Option CaddyManager × S
  serve [] here = here
  serve (watched ∷ events) here = serve events (watch here)
  serve (other f ∷ events) (mgr, s) = serve events (mgr, f s)

  -- The cleanup behind Ctrl-C, or behind the end of the control task.
  unfoldable pub clean_up : Option CaddyManager × S → S
  clean_up (none, s) = s
  clean_up (some m, s) = unregister caddy m s

  unfoldable pub stopped_by : Stop → Option CaddyManager × S → Exit × S
  unfolding clean_up
  stopped_by terminated here = (killed, here.1)
  stopped_by _ here = (returned, clean_up here)

  unfoldable pub run :
      Bool → Bool → ServerConfig → List (Event S) → Stop → S → Result RunError Exit × S
  unfolding start_caddy serve stopped_by
  run control_bound public_bound config events stop s =
      let started = start_caddy config s in
      if is_empty config.domain
      then (err no_domain, s)
      else if not control_bound
      then (err (bind_control_port config.control_port), s)
      else if not public_bound
      then (err (bind_public_port config.public_port), started.1)
      else let (exit, s') = stopped_by stop (serve events started) in (ok exit, s')
