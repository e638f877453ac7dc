-- ===== src/Client/Manager/Startup.antt =====
-- tunnel_manager.rs: what runs after `start_all`.
use zo_tunnel.Prelude.{
  ◌≡◌, refl, ◌∙◌, subst, inl, inr, Option, none, some, true, false, Bool, ◌&&◌, List, [], ◌∷◌, Text,
  text_eq, text_eq_iff, lookup, lookup-insert, Bool-cases, Option-cases, arith, if◌then◌else◌,
}
use zo_tunnel.Client.Config.{TunnelEntry, TunnelsConfig, find_id}
use zo_tunnel.Client.Config.Unique.{IsDistinct, IsNewId, All-IsNewId}
use zo_tunnel.Client.Manager.{
  TunnelManager, start_tunnel_internal, start_enabled, start_each, start_all,
}

abbrev pub or_else : Option TunnelEntry → Option TunnelEntry → Option TunnelEntry
or_else none o = o
or_else (some t) o = some t

abbrev pub only_enabled : Option TunnelEntry → Option TunnelEntry
only_enabled none = none
only_enabled (some t) = if t.enabled then some t else none

first_enabled : Text → List TunnelEntry → Option TunnelEntry
first_enabled k [] = none
first_enabled k (t ∷ ts) = if t.enabled && text_eq t.id k then some t else first_enabled k ts

start_enabled-lookup :
    (b : Bool) (t : TunnelEntry) (m : TunnelManager) (k : Text)
    → lookup k (start_enabled b t m).tunnels
      ≡ or_else (lookup k m.tunnels) (if b && text_eq t.id k then some t else none)
unfolding start_enabled start_tunnel_internal
start_enabled-lookup true t m k = elim (Option-cases (lookup t.id m.tunnels)) [
  | inl idle ↦ ground (arith, lookup-insert t.id k t m.tunnels, text_eq_iff t.id k)
  | inr (e, there) ↦ ground (arith, text_eq_iff t.id k)
]
start_enabled-lookup false t m k = ground arith

start_each-lookup :
    (ts : List TunnelEntry) (m : TunnelManager) (k : Text)
    → lookup k (start_each ts m).tunnels ≡ or_else (lookup k m.tunnels) (first_enabled k ts)
unfolding start_each first_enabled
start_each-lookup [] m k = ground arith
start_each-lookup (t ∷ ts) m k = ground (
  arith,
  start_each-lookup ts (start_enabled t.enabled t m) k,
  start_enabled-lookup t.enabled t m k,
)

first_enabled-new : (k : Text) (ts : List TunnelEntry) → IsNewId k ts → first_enabled k ts ≡ none
unfolding first_enabled
first_enabled-new k [] new = refl
first_enabled-new k (t ∷ ts) (ne, new) =
    ground (arith, text_eq_iff t.id k, first_enabled-new k ts new)

first_enabled-find_id :
    (k : Text) (ts : List TunnelEntry)
    → IsDistinct ts
    → first_enabled k ts ≡ only_enabled (find_id k ts)
unfolding first_enabled find_id
first_enabled-find_id k [] d = refl
first_enabled-find_id k (t ∷ ts) (apart, d) = elim (Bool-cases (text_eq t.id k)) [
  | inl same ↦
      let new : IsNewId k ts =
        subst (λ i. IsNewId i ts) ((text_eq_iff t.id k).0 same) (All-IsNewId t ts apart) in
      ground (arith, first_enabled-new k ts new)
  | inr other ↦ ground (arith, first_enabled-find_id k ts d)
]

-- From a manager that runs nothing, exactly the tunnels that are enabled run.
pub start_all-runs :
    (config : TunnelsConfig) (k : Text)
    → IsDistinct config.tunnels
    → lookup k (start_all (record { config = config; tunnels = [] })).tunnels
      ≡ only_enabled (find_id k config.tunnels)
unfolding start_all first_enabled lookup
start_all-runs config k d =
    start_each-lookup config.tunnels (record { config = config; tunnels = [] }) k
    ∙ first_enabled-find_id k config.tunnels d
