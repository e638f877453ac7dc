-- ===== src/Client/Manager/Configs.antt =====
-- tunnel_manager.rs: what an operation makes of the configuration, and whether it writes it.
use zo_tunnel.Prelude.{
  ◌≡◌, refl, ◌∙◌, ap, Bool, true, false, inl, inr, List, [], ◌∷◌, Result, ok, err, Text, Assoc,
  lookup, Option-cases, arith,
}
use zo_tunnel.Client.Config.{
  TunnelEntry, TunnelsConfig, ConfigError, save_failed, saving, find_id, get_tunnel,
}
use zo_tunnel.Client.Config
use zo_tunnel.Client.Manager.{
  TunnelManager, start_tunnel_internal, stop_tunnel, start_enabled, start_each, start_all, start_if,
  start_changed, add_tunnel, update_tunnel, remove_tunnel, start_tunnel, restart_tunnel,
}
use zo_tunnel.Client.Manager.Running.{stop_config}

-- A call that has come as far as writing the configuration.
unfoldable pub reached : Result ConfigError TunnelEntry → Bool
reached (ok t) = true
reached (err save_failed) = true
reached (err e) = false

internal-config :
    (t : TunnelEntry) (m : TunnelManager) → (start_tunnel_internal t m).1.config ≡ m.config
unfolding start_tunnel_internal
internal-config t m = elim (Option-cases (lookup t.id m.tunnels)) [
  | inl idle ↦ ground arith
  | inr (e, there) ↦ ground arith
]

pub start_tunnel-config : (id : Text) (m : TunnelManager) → (start_tunnel id m).1.config ≡ m.config
unfolding start_tunnel
start_tunnel-config id m = elim (Option-cases (get_tunnel id m.config)) [
  | inl missing ↦ ground arith
  | inr (t, found) ↦ ground (arith, internal-config t m)
]

pub restart_tunnel-config :
    (id : Text) (m : TunnelManager) → (restart_tunnel id m).1.config ≡ m.config
unfolding restart_tunnel
restart_tunnel-config id m =
    let (same, _) = stop_config id m in start_tunnel-config id (stop_tunnel id m).1 ∙ same

enabled-config :
    (b : Bool) (t : TunnelEntry) (m : TunnelManager) → (start_enabled b t m).config ≡ m.config
unfolding start_enabled
enabled-config true t m = internal-config t m
enabled-config false t m = refl

start_each-config :
    (ts : List TunnelEntry) (m : TunnelManager) → (start_each ts m).config ≡ m.config
unfolding start_each
start_each-config [] m = refl
start_each-config (t ∷ ts) m =
    start_each-config ts (start_enabled t.enabled t m) ∙ enabled-config t.enabled t m

pub start_all-config : (m : TunnelManager) → (start_all m).config ≡ m.config
unfolding start_all
start_all-config m = start_each-config m.config.tunnels m

start_if-config :
    (b : Bool) (t : TunnelEntry) (m : TunnelManager) → (start_if b t m).1.config ≡ m.config
unfolding start_if
start_if-config true t m = internal-config t m
start_if-config false t m = refl

start_changed-config :
    (out : Result ConfigError TunnelEntry × TunnelsConfig) (running : Assoc TunnelEntry)
    → (start_changed out running).1.config ≡ out.1
unfolding start_changed
start_changed-config (err e, c) running = refl
start_changed-config (ok t, c) running =
    start_if-config t.enabled t (record { config = c; tunnels = running })

pub add_tunnel-config :
    (generated : Text) (saved : Bool) (entry : TunnelEntry) (m : TunnelManager)
    → (add_tunnel generated saved entry m).1.config
      ≡ (Config.add_tunnel generated saved entry m.config).1
unfolding add_tunnel
add_tunnel-config generated saved entry m =
    start_changed-config (Config.add_tunnel generated saved entry m.config) m.tunnels

pub update_tunnel-config :
    (id client_id local_addr : Text) (enabled saved : Bool) (m : TunnelManager)
    → (update_tunnel id client_id local_addr enabled saved m).1.config
      ≡ (Config.update_tunnel id client_id local_addr enabled saved m.config).1
unfolding update_tunnel
update_tunnel-config id client_id local_addr enabled saved m =
    let m' = (stop_tunnel id m).1 in
    start_changed-config (Config.update_tunnel id client_id local_addr enabled saved m'.config)
      m'.tunnels
    ∙ ap (λ c. (Config.update_tunnel id client_id local_addr enabled saved c).1)
        ((stop_config id m).0)

pub remove_tunnel-config :
    (id : Text) (saved : Bool) (m : TunnelManager)
    → (remove_tunnel id saved m).1.config ≡ (Config.remove_tunnel id saved m.config).1
unfolding remove_tunnel
remove_tunnel-config id saved m =
    ap (λ c. (Config.remove_tunnel id saved c).1) ((stop_config id m).0)

-- A call of the configuration that does not come to the write leaves it as it was.
pub add_tunnel-reached :
    (generated : Text) (saved : Bool) (entry : TunnelEntry) (c : TunnelsConfig)
    → reached (Config.add_tunnel generated saved entry c).0 ≡ false
    → (Config.add_tunnel generated saved entry c).1 ≡ c
unfolding reached Config.add_tunnel
add_tunnel-reached generated true entry c h = ground arith
add_tunnel-reached generated false entry c h = ground arith

pub update_tunnel-reached :
    (id client_id local_addr : Text) (enabled saved : Bool) (c : TunnelsConfig)
    → reached (Config.update_tunnel id client_id local_addr enabled saved c).0 ≡ false
    → (Config.update_tunnel id client_id local_addr enabled saved c).1 ≡ c
unfolding reached Config.update_tunnel
update_tunnel-reached id client_id local_addr enabled true c h =
    elim (Option-cases (find_id id c.tunnels)) [
      | inl missing ↦ ground arith
      | inr (t, found) ↦ ground arith
    ]
update_tunnel-reached id client_id local_addr enabled false c h =
    elim (Option-cases (find_id id c.tunnels)) [
      | inl missing ↦ ground arith
      | inr (t, found) ↦ ground arith
    ]

pub remove_tunnel-reached :
    (id : Text) (saved : Bool) (c : TunnelsConfig)
    → reached (Config.remove_tunnel id saved c).0 ≡ false
    → (Config.remove_tunnel id saved c).1 ≡ c
unfolding reached Config.remove_tunnel
remove_tunnel-reached id true c h = elim (Option-cases (find_id id c.tunnels)) [
  | inl missing ↦ ground arith
  | inr (t, found) ↦ absurd (ground arith)
]
remove_tunnel-reached id false c h = elim (Option-cases (find_id id c.tunnels)) [
  | inl missing ↦ ground arith
  | inr (t, found) ↦ absurd (ground arith)
]
