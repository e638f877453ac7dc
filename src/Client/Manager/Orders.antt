-- ===== src/Client/Manager/Orders.antt =====
-- The operations of the manager in any order.
use zo_tunnel.Prelude.{
  ◌≡◌, refl, sym, subst, Bool, true, false, none, some, List, [], ◌∷◌, Result, ok, err, All, map,
  Text, text_eq_iff, text_eq_refl, Assoc, lookup, arith,
}
use zo_tunnel.Client.Config.{TunnelEntry, TunnelsConfig, ConfigError, find_id, with_id}
use zo_tunnel.Client.Config
use zo_tunnel.Client.Config.Unique.{IsNewId, IsDistinct, IsApart}
use zo_tunnel.Client.Manager.{
  TunnelManager, config, stop_tunnel, start_enabled, start_each, start_all, start_changed,
  add_tunnel, update_tunnel, remove_tunnel, start_tunnel, restart_tunnel, stop_each, stop_all,
}
use zo_tunnel.Client.Manager.Faithful.{
  IsFaithful, add_tunnel-IsFaithful, update_tunnel-IsFaithful, stop_tunnel-IsFaithful,
  remove_tunnel-IsFaithful, start_internal-IsFaithful, start_tunnel-IsFaithful,
}
use zo_tunnel.Client.Manager.Running.{start_internal-Runs, stop_config}

pub data Op : Type 0 where
  starts_all stops_all : Op
  adds : Text → Bool → TunnelEntry → Op
  updates : Text → Text → Text → Bool → Bool → Op
  removes : Text → Bool → Op
  starts stops restarts : Text → Op

unfoldable pub step : TunnelManager → Op → TunnelManager
step m Op.starts_all = start_all m
step m Op.stops_all = stop_all m
step m (Op.adds generated saved entry) = (add_tunnel generated saved entry m).1
step m (Op.updates id client_id local_addr enabled saved) =
    (update_tunnel id client_id local_addr enabled saved m).1
step m (Op.removes id saved) = (remove_tunnel id saved m).1
step m (Op.starts id) = (start_tunnel id m).1
step m (Op.stops id) = (stop_tunnel id m).1
step m (Op.restarts id) = (restart_tunnel id m).1

unfoldable pub run : TunnelManager → List Op → TunnelManager
unfolding step
run m [] = m
run m (op ∷ ops) = run (step m op) ops

-- An added tunnel gets an identifier that no tunnel has.
abbrev pub IsFresh : TunnelManager → Op → Type 0
IsFresh m (Op.adds generated saved entry) = IsNewId (with_id generated entry).id m.config.tunnels
IsFresh m _ = Unit

abbrev pub AreFresh : TunnelManager → List Op → Type 0
AreFresh m [] = Unit
AreFresh m (op ∷ ops) = IsFresh m op × AreFresh (step m op) ops

abbrev AreFound : List TunnelEntry → List TunnelEntry → Type 0
AreFound ts us = All (λ u. find_id u.id ts ≡ some u) us

AreFound-cons :
    (t : TunnelEntry) (ts us : List TunnelEntry)
    → All (IsApart t) us
    → AreFound ts us
    → AreFound (t ∷ ts) us
unfolding find_id
AreFound-cons t ts [] a f = tt
AreFound-cons t ts (u ∷ us) ((name, id), a) (f, fs) =
    (ground (arith, text_eq_iff t.id u.id), AreFound-cons t ts us a fs)

listed-AreFound : (ts : List TunnelEntry) → IsDistinct ts → AreFound ts ts
unfolding find_id
listed-AreFound [] d = tt
listed-AreFound (t ∷ ts) (a, d) =
    (ground (arith, text_eq_refl t.id), AreFound-cons t ts ts a (listed-AreFound ts d))

start_enabled-IsFaithful :
    (b : Bool) (t : TunnelEntry) (m : TunnelManager)
    → IsFaithful m
    → find_id t.id m.config.tunnels ≡ some t
    → IsFaithful (start_enabled b t m) × ((start_enabled b t m).config ≡ m.config)
unfolding start_enabled
start_enabled-IsFaithful true t m h found =
    let (_, same) = start_internal-Runs t m h.runs found in
    (start_internal-IsFaithful t m h found, same)
start_enabled-IsFaithful false t m h found = (h, refl)

start_each-IsFaithful :
    (ts : List TunnelEntry) (m : TunnelManager)
    → IsFaithful m
    → AreFound m.config.tunnels ts
    → IsFaithful (start_each ts m)
unfolding start_each
start_each-IsFaithful [] m h f = h
start_each-IsFaithful (t ∷ ts) m h (f, fs) =
    let (kept, same) = start_enabled-IsFaithful t.enabled t m h f in
    start_each-IsFaithful ts (start_enabled t.enabled t m) kept
      (subst (λ (c : TunnelsConfig). AreFound c.tunnels ts) (sym same) fs)

stop_each-IsFaithful :
    (ids : List Text) (m : TunnelManager) → IsFaithful m → IsFaithful (stop_each ids m)
unfolding stop_each
stop_each-IsFaithful [] m h = h
stop_each-IsFaithful (id ∷ ids) m h =
    stop_each-IsFaithful ids (stop_tunnel id m).1 (stop_tunnel-IsFaithful id m h)

pub step-IsFaithful :
    (m : TunnelManager) (op : Op) → IsFaithful m → IsFresh m op → IsFaithful (step m op)
unfolding step start_all stop_all restart_tunnel
step-IsFaithful m Op.starts_all h new =
    start_each-IsFaithful m.config.tunnels m h (listed-AreFound m.config.tunnels h.distinct)
step-IsFaithful m Op.stops_all h new = stop_each-IsFaithful (map (λ b. b.0) m.tunnels) m h
step-IsFaithful m (Op.adds generated saved entry) h new =
    add_tunnel-IsFaithful generated saved entry m new h
step-IsFaithful m (Op.updates id client_id local_addr enabled saved) h new =
    update_tunnel-IsFaithful id client_id local_addr enabled saved m h
step-IsFaithful m (Op.removes id saved) h new = remove_tunnel-IsFaithful id saved m h
step-IsFaithful m (Op.starts id) h new = start_tunnel-IsFaithful id m h
step-IsFaithful m (Op.stops id) h new = stop_tunnel-IsFaithful id m h
step-IsFaithful m (Op.restarts id) h new =
    start_tunnel-IsFaithful id (stop_tunnel id m).1 (stop_tunnel-IsFaithful id m h)

-- From a state where every tunnel that runs has the settings that its identifier has in the
-- configuration, and no two tunnels of the configuration have the same name or identifier, any
-- order of operations, saved or not, leads to such a state, if each added tunnel gets a new
-- identifier.
pub run-IsFaithful :
    (m : TunnelManager) (ops : List Op) → IsFaithful m → AreFresh m ops → IsFaithful (run m ops)
unfolding run
run-IsFaithful m [] h new = h
run-IsFaithful m (op ∷ ops) h (new, news) =
    run-IsFaithful (step m op) ops (step-IsFaithful m op h new) news

start_changed-err :
    (out : Result ConfigError TunnelEntry × TunnelsConfig) (running : Assoc TunnelEntry)
    (e : ConfigError)
    → out.0 ≡ err e
    → start_changed out running ≡ (err (config e), record { config = out.1; tunnels = running })
unfolding start_changed
start_changed-err (ok t, c) running e h = absurd (ground arith)
start_changed-err (err x, c) running e h = ground arith

-- A change that the configuration refuses is answered with its error, but the tunnel has been
-- stopped before and does not run any more.
pub update_tunnel-stops :
    (id client_id local_addr : Text) (enabled saved : Bool) (m : TunnelManager) (e : ConfigError)
    → (Config.update_tunnel id client_id local_addr enabled saved m.config).0 ≡ err e
    → ((update_tunnel id client_id local_addr enabled saved m).0 ≡ err (config e))
      × (lookup id (update_tunnel id client_id local_addr enabled saved m).1.tunnels ≡ none)
unfolding update_tunnel
update_tunnel-stops id client_id local_addr enabled saved m e refused =
    let (same, idle) = stop_config id m in
    let m' = (stop_tunnel id m).1 in
    let out = Config.update_tunnel id client_id local_addr enabled saved m'.config in
    let refused' : out.0 ≡ err e =
      subst (λ c. (Config.update_tunnel id client_id local_addr enabled saved c).0 ≡ err e)
        (sym same) refused in
    rw (start_changed-err out m'.tunnels e refused') (refl, idle)
