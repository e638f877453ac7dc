-- ===== src/Client/Manager.antt =====
-- tunnel_manager.rs: the tunnels that run. A handle is the entry that its task serves; a task that
-- is stopped is cancelled and aborted, so that the map holds exactly the tasks that are alive.
pub mod Running
pub mod Faithful
pub mod Orders
pub mod Backoff
pub mod Configs
pub mod Idle
pub mod Startup
pub mod Listing
use zo_tunnel.Prelude.{
  ℕ, ◌*◌, min, Bool, true, false, Option, none, some, List, [], ◌∷◌, ◌>>◌, Exec, raise, Result, ok,
  err, Text, Assoc, lookup, insert, remove, map, length, if◌then◌else◌,
}
use zo_tunnel.Client.Config.{TunnelEntry, TunnelsConfig, ConfigError, get_tunnel}
use zo_tunnel.Client.Config

pub record TunnelManager : Type 0 where
  pub config : TunnelsConfig
  pub tunnels : Assoc TunnelEntry

pub data ManagerError : Type 0 where
  already_running : Text → ManagerError
  not_running : Text → ManagerError
  not_in_config : Text → ManagerError
  config : ConfigError → ManagerError

unfoldable pub start_tunnel_internal : TunnelEntry → Exec TunnelManager ManagerError Unit
start_tunnel_internal entry m = elim (lookup entry.id m.tunnels) [
  | some _ ↦ (err (already_running entry.client_id), m)
  | none ↦ (ok tt, record m { tunnels = insert entry.id entry m.tunnels })
]

unfoldable pub stop_tunnel : Text → Exec TunnelManager ManagerError Unit
stop_tunnel id m = elim (lookup id m.tunnels) [
  | none ↦ (err (not_running id), m)
  | some _ ↦ (ok tt, record m { tunnels = remove id m.tunnels })
]

-- The entries that are enabled are started one after the other, and an error is only logged.
unfoldable pub start_enabled : Bool → TunnelEntry → TunnelManager → TunnelManager
start_enabled true entry m = (start_tunnel_internal entry m).1
start_enabled false entry m = m

unfoldable pub start_each : List TunnelEntry → TunnelManager → TunnelManager
unfolding start_enabled
start_each [] m = m
start_each (t ∷ ts) m = start_each ts (start_enabled t.enabled t m)

unfoldable pub start_all : TunnelManager → TunnelManager
unfolding start_each
start_all m = start_each m.config.tunnels m

-- `if added.enabled { self.start_tunnel_internal(&added)?; } Ok(added)`
unfoldable pub start_if : Bool → TunnelEntry → Exec TunnelManager ManagerError TunnelEntry
start_if true entry m =
    let (r, m') = start_tunnel_internal entry m in (elim r [ ok _ ↦ ok entry | err e ↦ err e ], m')
start_if false entry m = (ok entry, m)

-- The end of `add_tunnel` and `update_tunnel`: a changed entry is started if it is enabled.
unfoldable pub start_changed :
    Result ConfigError TunnelEntry × TunnelsConfig
    → Assoc TunnelEntry
    → Result ManagerError TunnelEntry × TunnelManager
unfolding start_if
start_changed (err e, c) running = (err (config e), record { config = c; tunnels = running })
start_changed (ok entry, c) running =
    start_if entry.enabled entry (record { config = c; tunnels = running })

unfoldable pub add_tunnel : Text → Bool → TunnelEntry → Exec TunnelManager ManagerError TunnelEntry
unfolding start_changed
add_tunnel generated saved entry m =
    start_changed (Config.add_tunnel generated saved entry m.config) m.tunnels

unfoldable pub update_tunnel :
    Text → Text → Text → Bool → Bool → Exec TunnelManager ManagerError TunnelEntry
unfolding start_changed
update_tunnel id client_id local_addr enabled saved m =
    let m' = (stop_tunnel id m).1 in
    start_changed (Config.update_tunnel id client_id local_addr enabled saved m'.config) m'.tunnels

unfoldable pub remove_tunnel : Text → Bool → Exec TunnelManager ManagerError TunnelEntry
remove_tunnel id saved m =
    let m' = (stop_tunnel id m).1 in
    let (r, c) = Config.remove_tunnel id saved m'.config in
    (elim r [ ok t ↦ ok t | err e ↦ err (config e) ], record m' { config = c })

unfoldable pub start_tunnel : Text → Exec TunnelManager ManagerError Unit
start_tunnel id m = elim (get_tunnel id m.config) [
  | none ↦ (err (not_in_config id), m)
  | some entry ↦ start_tunnel_internal entry m
]

-- With nothing else in its pause of 200 ms; with something there, it is a stop and a later start.
unfoldable pub restart_tunnel : Text → Exec TunnelManager ManagerError Unit
restart_tunnel id m = start_tunnel id (stop_tunnel id m).1

unfoldable pub stop_each : List Text → TunnelManager → TunnelManager
stop_each [] m = m
stop_each (id ∷ ids) m = stop_each ids (stop_tunnel id m).1

unfoldable pub stop_all : TunnelManager → TunnelManager
unfolding stop_each
stop_all m = stop_each (map (λ b. b.0) m.tunnels) m

unfoldable pub running_count : TunnelManager → ℕ
running_count m = length m.tunnels

abbrev pub max_backoff : ℕ
max_backoff = 30

-- One pass of a task's loop: how long it waits before the next, and the backoff that this one gets.
unfoldable pub pass : Bool → ℕ → ℕ × ℕ
pass connected backoff_secs =
    let now = if connected then 1 else backoff_secs in (now, min (now * 2) max_backoff)

-- The waits of a task, by whether each connection ended without an error.
unfoldable pub waits : ℕ → List Bool → List ℕ
unfolding pass
waits backoff_secs [] = []
waits backoff_secs (connected ∷ rest) =
    let (wait, next) = pass connected backoff_secs in wait ∷ waits next rest
