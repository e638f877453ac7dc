-- ===== src/Client/Config/Named.antt =====
-- What holds of the name of every tunnel of a configuration, under its operations.
use zo_tunnel.Prelude.{
  Bool, true, false, inl, inr, List, [], ◌∷◌, ◌++◌, is_empty, All, All-append, Text, text_eq,
  Bool-cases, Option-cases, arith,
}
use zo_tunnel.Client.Config.{
  TunnelEntry, TunnelsConfig, saving, find_id, replace_id, drop_id, with_id, add_tunnel,
  update_tunnel, remove_tunnel,
}

module _ (P : Text → Type 0) where
  abbrev pub AllNamed : List TunnelEntry → Type 0
  AllNamed ts = All (λ t. P t.client_id) ts

  saving-AllNamed :
      {A : Type 0} (saved : Bool) (a : A) (c : TunnelsConfig)
      → AllNamed c.tunnels
      → AllNamed (saving saved a c).1.tunnels
  saving-AllNamed true a c h = h
  saving-AllNamed false a c h = h

  with_id-name :
      (generated : Text) (e : TunnelEntry) → P e.client_id → P (with_id generated e).client_id
  with_id-name generated e p = elim (Bool-cases (is_empty e.id)) [
    | inl new ↦ rw new p
    | inr old ↦ rw old p
  ]

  pub add_tunnel-AllNamed :
      (generated : Text) (saved : Bool) (entry : TunnelEntry) (c : TunnelsConfig)
      → P entry.client_id
      → AllNamed c.tunnels
      → AllNamed (add_tunnel generated saved entry c).1.tunnels
  unfolding add_tunnel
  add_tunnel-AllNamed generated saved entry c p h =
      let e = with_id generated entry in
      let more : AllNamed (c.tunnels ++ e ∷ []) =
        All-append (λ (t : TunnelEntry). P t.client_id) c.tunnels (e ∷ []) h
          (with_id-name generated entry p, tt) in
      let kept = saving-AllNamed saved e (record c { tunnels = c.tunnels ++ e ∷ [] }) more in
      ground arith

  replace_id-AllNamed :
      (id : Text) (e : TunnelEntry) (ts : List TunnelEntry)
      → P e.client_id
      → AllNamed ts
      → AllNamed (replace_id id e ts)
  unfolding replace_id
  replace_id-AllNamed id e [] p h = tt
  replace_id-AllNamed id e (t ∷ ts) p (h, hs) = elim (Bool-cases (text_eq t.id id)) [
    | inl same ↦ rw same (p, hs)
    | inr other ↦ rw other (h, replace_id-AllNamed id e ts p hs)
  ]

  drop_id-AllNamed : (id : Text) (ts : List TunnelEntry) → AllNamed ts → AllNamed (drop_id id ts)
  unfolding drop_id
  drop_id-AllNamed id [] h = tt
  drop_id-AllNamed id (t ∷ ts) (h, hs) = elim (Bool-cases (text_eq t.id id)) [
    | inl same ↦ rw same hs
    | inr other ↦ rw other (h, drop_id-AllNamed id ts hs)
  ]

  pub update_tunnel-AllNamed :
      (id client_id local_addr : Text) (enabled saved : Bool) (c : TunnelsConfig)
      → P client_id
      → AllNamed c.tunnels
      → AllNamed (update_tunnel id client_id local_addr enabled saved c).1.tunnels
  unfolding update_tunnel
  update_tunnel-AllNamed id client_id local_addr enabled saved c p h =
      elim (Option-cases (find_id id c.tunnels)) [
        | inl missing ↦ ground arith
        | inr (t, found) ↦
            let e : TunnelEntry = record t {
              client_id = client_id;
              local_addr = local_addr;
              enabled = enabled;
            } in
            let kept =
              saving-AllNamed saved e (record c { tunnels = replace_id id e c.tunnels })
                (replace_id-AllNamed id e c.tunnels p h) in
            ground arith
      ]

  pub remove_tunnel-AllNamed :
      (id : Text) (saved : Bool) (c : TunnelsConfig)
      → AllNamed c.tunnels
      → AllNamed (remove_tunnel id saved c).1.tunnels
  unfolding remove_tunnel
  remove_tunnel-AllNamed id saved c h = elim (Option-cases (find_id id c.tunnels)) [
    | inl missing ↦ rw (missing, remove_tunnel) h
    | inr (t, found) ↦
        rw (found, remove_tunnel)
          (saving-AllNamed saved t (record c { tunnels = drop_id id c.tunnels })
            (drop_id-AllNamed id c.tunnels h))
  ]
