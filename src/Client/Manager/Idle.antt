-- ===== src/Client/Manager/Idle.antt =====
-- tunnel_manager.rs: after `stop_all`.
use zo_tunnel.Prelude.{
  ◌≡◌, inl, inr, none, false, refl, List, [], ◌∷◌, map, any, Text, text_eq, text_eq_iff, Assoc,
  lookup, lookup-remove, Bool-cases, Option-cases, arith, if◌then◌else◌,
}
use zo_tunnel.Client.Config.{TunnelEntry}
use zo_tunnel.Client.Manager.{TunnelManager, stop_tunnel, stop_each, stop_all}

stop_tunnel-lookup :
    (id k : Text) (m : TunnelManager)
    → lookup k (stop_tunnel id m).1.tunnels ≡ (if text_eq id k then none else lookup k m.tunnels)
unfolding stop_tunnel
stop_tunnel-lookup id k m = elim (Option-cases (lookup id m.tunnels)) [
  | inl missing ↦ ground (arith, text_eq_iff id k)
  | inr (e, there) ↦ ground (arith, lookup-remove id k m.tunnels)
]

stop_each-lookup :
    (ids : List Text) (k : Text) (m : TunnelManager)
    → lookup k (stop_each ids m).tunnels
      ≡ (if any (λ id. text_eq id k) ids then none else lookup k m.tunnels)
unfolding stop_each
stop_each-lookup [] k m = refl
stop_each-lookup (id ∷ ids) k m =
    ground (arith, stop_each-lookup ids k (stop_tunnel id m).1, stop_tunnel-lookup id k m)

no_key :
    (k : Text) (running : Assoc TunnelEntry)
    → any (λ id. text_eq id k) (map (λ b. b.0) running) ≡ false
    → lookup k running ≡ none
unfolding lookup
no_key k [] h = refl
no_key k ((j, e) ∷ running) h = ground (arith, no_key k running)

-- Nothing runs any more.
pub stop_all-idle : (k : Text) (m : TunnelManager) → lookup k (stop_all m).tunnels ≡ none
unfolding stop_all
stop_all-idle k m =
    let ids = map (λ b. b.0) m.tunnels in
    elim (Bool-cases (any (λ id. text_eq id k) ids)) [
      | inl there ↦ ground (arith, stop_each-lookup ids k m)
      | inr missing ↦ ground (arith, stop_each-lookup ids k m, no_key k m.tunnels missing)
    ]
