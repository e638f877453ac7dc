-- ===== src/Client/Manager/Running.antt =====
-- What each operation of the manager does to the tunnels that run.
use zo_tunnel.Prelude.{
  ◌≡◌, refl, sym, ◌∙◌, subst, Bool, true, false, none, some, Result, ok, err, Text, text_eq,
  text_eq_iff, Assoc, lookup, lookup-insert, lookup-remove, inl, inr, Option-cases, arith,
}
use zo_tunnel.Client.Config.{TunnelEntry, TunnelsConfig, ConfigError, find_id, with_id, get_tunnel}
use zo_tunnel.Client.Config
use zo_tunnel.Client.Config.Changes.{Changed, find_id-drop_other}
use zo_tunnel.Client.Manager.{
  TunnelManager, start_tunnel_internal, stop_tunnel, start_if, start_changed,
}

-- Every tunnel that runs has the settings that its identifier has in the configuration.
abbrev pub Runs : TunnelsConfig → Assoc TunnelEntry → Type 0
Runs c running =
    (k : Text) (e : TunnelEntry) → lookup k running ≡ some e → find_id k c.tunnels ≡ some e

-- A tunnel that was stopped does not run, and the configuration is as it was.
pub stop_config :
    (id : Text) (m : TunnelManager)
    → ((stop_tunnel id m).1.config ≡ m.config) × (lookup id (stop_tunnel id m).1.tunnels ≡ none)
unfolding stop_tunnel
stop_config id m = elim (Option-cases (lookup id m.tunnels)) [
  | inl missing ↦ rw (missing, stop_tunnel) (refl, missing)
  | inr (e, there) ↦
      rw (there, stop_tunnel)
        (refl, ground (arith, lookup-remove id id m.tunnels, text_eq_iff id id))
]

pub start_internal-Runs :
    (e : TunnelEntry) (m : TunnelManager)
    → Runs m.config m.tunnels
    → find_id e.id m.config.tunnels ≡ some e
    → Runs m.config (start_tunnel_internal e m).1.tunnels
      × ((start_tunnel_internal e m).1.config ≡ m.config)
unfolding start_tunnel_internal
start_internal-Runs e m runs found = elim (Option-cases (lookup e.id m.tunnels)) [
  | inl missing ↦
      rw (missing, start_tunnel_internal)
        (
          λ k f there.
              ground (arith, lookup-insert e.id k e m.tunnels, text_eq_iff e.id k, runs k f),
          refl,
        )
  | inr (f, there) ↦ rw (there, start_tunnel_internal) (runs, refl)
]

pub stop-Runs :
    (id : Text) (m : TunnelManager)
    → Runs m.config m.tunnels
    → Runs m.config (stop_tunnel id m).1.tunnels
      × ((stop_tunnel id m).1.config ≡ m.config)
      × (lookup id (stop_tunnel id m).1.tunnels ≡ none)
unfolding stop_tunnel
stop-Runs id m runs = elim (Option-cases (lookup id m.tunnels)) [
  | inl missing ↦ rw (missing, stop_tunnel) (runs, refl, missing)
  | inr (e, there) ↦
      rw (there, stop_tunnel)
        (
          λ k f there'. ground (arith, lookup-remove id k m.tunnels, runs k f),
          refl,
          ground (arith, lookup-remove id id m.tunnels, text_eq_iff id id),
        )
]

start_if-Runs :
    (b : Bool) (e : TunnelEntry) (m : TunnelManager)
    → Runs m.config m.tunnels
    → find_id e.id m.config.tunnels ≡ some e
    → Runs (start_if b e m).1.config (start_if b e m).1.tunnels
      × ((start_if b e m).1.config ≡ m.config)
unfolding start_if
start_if-Runs true e m runs found =
    let (started, still) = start_internal-Runs e m runs found in
    (
      subst (λ (c : TunnelsConfig). Runs c (start_tunnel_internal e m).1.tunnels) (sym still)
          started,
      still,
    )
start_if-Runs false e m runs found = (runs, refl)

-- A change of one tunnel that does not run keeps what runs.
pub start_changed-Runs :
    (id : Text) (c : TunnelsConfig) (out : Result ConfigError TunnelEntry × TunnelsConfig)
    (running : Assoc TunnelEntry)
    → Changed id c out
    → lookup id running ≡ none
    → Runs c running
    → Runs (start_changed out running).1.config (start_changed out running).1.tunnels
      × ((start_changed out running).1.config ≡ out.1)
unfolding start_changed
start_changed-Runs id c (err e, c') running (others, done) idle runs = (
  λ k f there.
      let other : text_eq id k ≡ false = ground (arith, text_eq_iff id k) in
      others k other ∙ runs k f there,
  refl,
)
start_changed-Runs id c (ok e, c') running (others, done) idle runs =
    let (same, found) = done e refl in
    let kept : Runs c' running = λ k f there.
      let other : text_eq id k ≡ false = ground (arith, text_eq_iff id k) in
      others k other ∙ runs k f there in
    start_if-Runs e.enabled e (record { config = c'; tunnels = running }) kept
      (subst (λ i. find_id i c'.tunnels ≡ some e) (sym same) found)

pub drop-Runs :
    (id : Text) (saved : Bool) (c : TunnelsConfig) (running : Assoc TunnelEntry)
    → lookup id running ≡ none
    → Runs c running
    → Runs (Config.remove_tunnel id saved c).1 running
unfolding Config.remove_tunnel
drop-Runs id saved c running idle runs = elim (Option-cases (find_id id c.tunnels)) [
  | inl missing ↦ rw (missing, Config.remove_tunnel) runs
  | inr (t, found) ↦ rw (found, Config.remove_tunnel) (dropped saved t)
]
  where
    dropped :
        (b : Bool) (t : TunnelEntry)
        → Runs (Config.saving b t (record c { tunnels = Config.drop_id id c.tunnels })).1 running
    dropped true t k f there =
        find_id-drop_other id k c.tunnels (ground (arith, text_eq_iff id k)) ∙ runs k f there
    dropped false t k f there =
        find_id-drop_other id k c.tunnels (ground (arith, text_eq_iff id k)) ∙ runs k f there
