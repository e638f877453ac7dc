-- ===== src/Client/WebServer/Saves.antt =====
-- When a handler has written the configuration.
use zo_tunnel.Prelude.{
  ◌≡◌, refl, sym, ◌∙◌, ap, Bool, true, false, inl, inr, Result, ok, err, Text, Assoc, lookup,
  Option-cases, arith,
}
use zo_tunnel.Client.Config.{
  TunnelEntry, TunnelsConfig, ConfigError, empty_client_id, empty_local_addr, save_failed,
  already_exists, not_found,
}
use zo_tunnel.Client.Config
use zo_tunnel.Client.Manager.{
  TunnelManager, config, start_tunnel_internal, start_if, start_changed, stop_tunnel, add_tunnel,
  update_tunnel, remove_tunnel,
}
use zo_tunnel.Client.Manager.Running.{stop_config}
use zo_tunnel.Client.Manager.Configs.{
  reached, add_tunnel-config, update_tunnel-config, remove_tunnel-config, add_tunnel-reached,
  update_tunnel-reached, remove_tunnel-reached,
}
use zo_tunnel.Client.WebServer.Handlers.{came_to_save}

start_if-came :
    (b : Bool) (t : TunnelEntry) (m : TunnelManager) → came_to_save (start_if b t m).0 ≡ true
unfolding start_if start_tunnel_internal came_to_save
start_if-came true t m = elim (Option-cases (lookup t.id m.tunnels)) [
  | inl idle ↦ ground arith
  | inr (e, there) ↦ ground arith
]
start_if-came false t m = refl

start_changed-came :
    (out : Result ConfigError TunnelEntry × TunnelsConfig) (running : Assoc TunnelEntry)
    → came_to_save (start_changed out running).0 ≡ reached out.0
unfolding start_changed came_to_save reached
start_changed-came (err empty_client_id, c) running = refl
start_changed-came (err empty_local_addr, c) running = refl
start_changed-came (err save_failed, c) running = refl
start_changed-came (err (already_exists n), c) running = refl
start_changed-came (err (not_found n), c) running = refl
start_changed-came (ok t, c) running =
    start_if-came t.enabled t (record { config = c; tunnels = running })

-- A call that has not come to the write leaves the configuration as it was.
pub add_tunnel-unsaved :
    (generated : Text) (saved : Bool) (entry : TunnelEntry) (m : TunnelManager)
    → came_to_save (add_tunnel generated saved entry m).0 ≡ false
    → (add_tunnel generated saved entry m).1.config ≡ m.config
unfolding add_tunnel
add_tunnel-unsaved generated saved entry m h =
    let out = Config.add_tunnel generated saved entry m.config in
    add_tunnel-config generated saved entry m
    ∙ add_tunnel-reached generated saved entry m.config (sym (start_changed-came out m.tunnels) ∙ h)

pub update_tunnel-unsaved :
    (id client_id local_addr : Text) (enabled saved : Bool) (m : TunnelManager)
    → came_to_save (update_tunnel id client_id local_addr enabled saved m).0 ≡ false
    → (update_tunnel id client_id local_addr enabled saved m).1.config ≡ m.config
unfolding update_tunnel
update_tunnel-unsaved id client_id local_addr enabled saved m h =
    let m' = (stop_tunnel id m).1 in
    let out = λ (c : TunnelsConfig). Config.update_tunnel id client_id local_addr enabled saved c in
    update_tunnel-config id client_id local_addr enabled saved m
    ∙ update_tunnel-reached id client_id local_addr enabled saved m.config (
        ap (λ c. reached (out c).0) (sym ((stop_config id m).0))
        ∙ sym (start_changed-came (out m'.config) m'.tunnels)
        ∙ h)

removed-came :
    (r : Result ConfigError TunnelEntry)
    → came_to_save {A = TunnelEntry} (elim r [ ok t ↦ ok t | err e ↦ err (config e) ]) ≡ reached r
unfolding came_to_save reached
removed-came (ok t) = refl
removed-came (err empty_client_id) = refl
removed-came (err empty_local_addr) = refl
removed-came (err save_failed) = refl
removed-came (err (already_exists n)) = refl
removed-came (err (not_found n)) = refl

pub remove_tunnel-unsaved :
    (id : Text) (saved : Bool) (m : TunnelManager)
    → came_to_save (remove_tunnel id saved m).0 ≡ false
    → (remove_tunnel id saved m).1.config ≡ m.config
unfolding remove_tunnel
remove_tunnel-unsaved id saved m h =
    let m' = (stop_tunnel id m).1 in
    remove_tunnel-config id saved m
    ∙ remove_tunnel-reached id saved m.config (
        ap (λ c. reached (Config.remove_tunnel id saved c).0) (sym ((stop_config id m).0))
        ∙ sym (removed-came (Config.remove_tunnel id saved m'.config).0)
        ∙ h)
