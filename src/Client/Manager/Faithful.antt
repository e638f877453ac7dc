-- ===== src/Client/Manager/Faithful.antt =====
-- The tunnels that run beside those of the configuration, through each operation.
use zo_tunnel.Prelude.{
  ◌≡◌, sym, subst, Bool, none, some, Text, lookup, inl, inr, Option-cases, arith,
}
use zo_tunnel.Client.Config.{TunnelEntry, TunnelsConfig, ConfigError, find_id, with_id, get_tunnel}
use zo_tunnel.Client.Config
use zo_tunnel.Client.Config.Unique.{
  IsNewId, IsDistinct, find_id-same, add_tunnel-IsDistinct, update_tunnel-IsDistinct,
  remove_tunnel-IsDistinct,
}
use zo_tunnel.Client.Config.Changes.{add_tunnel-Changed, update_tunnel-Changed, find_id-new}
use zo_tunnel.Client.Manager.{
  TunnelManager, start_tunnel_internal, stop_tunnel, add_tunnel, update_tunnel, remove_tunnel,
  start_tunnel,
}
use zo_tunnel.Client.Manager.Running.{
  Runs, start_internal-Runs, stop-Runs, start_changed-Runs, drop-Runs,
}

pub record IsFaithful (m : TunnelManager) : Type 0 where
  pub runs : Runs m.config m.tunnels
  pub distinct : IsDistinct m.config.tunnels

pub add_tunnel-IsFaithful :
    (generated : Text) (saved : Bool) (entry : TunnelEntry) (m : TunnelManager)
    → IsNewId (with_id generated entry).id m.config.tunnels
    → IsFaithful m
    → IsFaithful (add_tunnel generated saved entry m).1
unfolding add_tunnel
add_tunnel-IsFaithful generated saved entry m new h =
    let id = (with_id generated entry).id in
    let idle : lookup id m.tunnels ≡ none = elim (Option-cases (lookup id m.tunnels)) [
      | inl missing ↦ missing
      | inr (e, there) ↦
          absurd (ground (arith, h.runs id e there, find_id-new id m.config.tunnels new))
    ] in
    let (runs, same) =
      start_changed-Runs id m.config (Config.add_tunnel generated saved entry m.config) m.tunnels
        (add_tunnel-Changed generated saved entry m.config new) idle h.runs in
    record {
      runs = runs;
      distinct =
          subst (λ (c : TunnelsConfig). IsDistinct c.tunnels) (sym same)
            (add_tunnel-IsDistinct generated saved entry m.config h.distinct new);
    }

pub update_tunnel-IsFaithful :
    (id client_id local_addr : Text) (enabled saved : Bool) (m : TunnelManager)
    → IsFaithful m
    → IsFaithful (update_tunnel id client_id local_addr enabled saved m).1
unfolding update_tunnel
update_tunnel-IsFaithful id client_id local_addr enabled saved m h =
    let (runs, same, idle) = stop-Runs id m h.runs in
    let m' = (stop_tunnel id m).1 in
    let runs' : Runs m'.config m'.tunnels =
      subst (λ (c : TunnelsConfig). Runs c m'.tunnels) (sym same) runs in
    let (runs'', same') =
      start_changed-Runs id m'.config
        (Config.update_tunnel id client_id local_addr enabled saved m'.config) m'.tunnels
        (update_tunnel-Changed id client_id local_addr enabled saved m'.config) idle runs' in
    record {
      runs = runs'';
      distinct =
          subst (λ (c : TunnelsConfig). IsDistinct c.tunnels) (sym same')
            (update_tunnel-IsDistinct id client_id local_addr enabled saved m'.config
              (subst (λ (c : TunnelsConfig). IsDistinct c.tunnels) (sym same) h.distinct));
    }

pub stop_tunnel-IsFaithful :
    (id : Text) (m : TunnelManager) → IsFaithful m → IsFaithful (stop_tunnel id m).1
stop_tunnel-IsFaithful id m h =
    let (runs, same, idle) = stop-Runs id m h.runs in
    record {
      runs = subst (λ (c : TunnelsConfig). Runs c (stop_tunnel id m).1.tunnels) (sym same) runs;
      distinct = subst (λ (c : TunnelsConfig). IsDistinct c.tunnels) (sym same) h.distinct;
    }

pub remove_tunnel-IsFaithful :
    (id : Text) (saved : Bool) (m : TunnelManager)
    → IsFaithful m
    → IsFaithful (remove_tunnel id saved m).1
unfolding remove_tunnel
remove_tunnel-IsFaithful id saved m h =
    let m' = (stop_tunnel id m).1 in
    let h' = stop_tunnel-IsFaithful id m h in
    let (_, _, idle) = stop-Runs id m h.runs in
    record {
      runs = drop-Runs id saved m'.config m'.tunnels idle h'.runs;
      distinct = remove_tunnel-IsDistinct id saved m'.config h'.distinct;
    }

pub start_internal-IsFaithful :
    (e : TunnelEntry) (m : TunnelManager)
    → IsFaithful m
    → find_id e.id m.config.tunnels ≡ some e
    → IsFaithful (start_tunnel_internal e m).1
start_internal-IsFaithful e m h found =
    let (runs, same) = start_internal-Runs e m h.runs found in
    record {
      runs =
          subst (λ (c : TunnelsConfig). Runs c (start_tunnel_internal e m).1.tunnels) (sym same)
            runs;
      distinct = subst (λ (c : TunnelsConfig). IsDistinct c.tunnels) (sym same) h.distinct;
    }

pub start_tunnel-IsFaithful :
    (id : Text) (m : TunnelManager) → IsFaithful m → IsFaithful (start_tunnel id m).1
unfolding start_tunnel get_tunnel
start_tunnel-IsFaithful id m h = elim (Option-cases (find_id id m.config.tunnels)) [
  | inl missing ↦ rw (missing, start_tunnel) h
  | inr (e, found) ↦
      let same = find_id-same id m.config.tunnels e found in
      rw (found, start_tunnel)
        (start_internal-IsFaithful e m h
          (subst (λ i. find_id i m.config.tunnels ≡ some e) (sym same) found))
]
