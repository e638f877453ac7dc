-- ===== src/Server/Registry/View.antt =====
-- The registry as a map from names to entries: what its operations do to it, and what it lists.
use zo_tunnel.Prelude.{
  ℕ, ◌≡◌, ◌⊎◌, refl, Bool, true, false, not, ◌&&◌, Option, none, some, List, [], ◌∷◌, ◌++◌, map,
  Result, ok, err, length, get_elem?, get_elem?-append_some, get_elem?-append_last, Text, text_eq,
  Assoc, lookup, insert, lookup-insert, lookup-remove, Every, Every-lookup, HasDistinctKeys, arith,
  if◌then◌else◌, Bool-cases, Option-cases, inl, inr,
}
use zo_tunnel.Server.Clock.{Instant}
use zo_tunnel.Server.Config.{is_reserved}
use zo_tunnel.Server.Registry.{
  ClientEntry, ClientInfo, Registry, RegisterError, reserved, already_registered, new_metrics,
  register, unregister, infos, list, count,
}
use zo_tunnel.Server.Registry.Invariant.{IsHeld, IsWellFormed}

-- The entry that a name stands for.
unfoldable pub view : Registry → Text → Option ClientEntry
view r k = elim (lookup k r.clients) [ none ↦ none | some place ↦ get_elem? r.entries place ]

-- A registered name has an entry, and an unregistered one none.
pub view-lookup :
    (r : Registry) (k : Text)
    → IsWellFormed r
    → ((lookup k r.clients ≡ none) × (view r k ≡ none))
      ⊎ ((place : ℕ) × (e : ClientEntry) × (lookup k r.clients ≡ some place)
          × (get_elem? r.entries place ≡ some e)
          × (view r k ≡ some e)
          × (e.client_id ≡ k))
unfolding view
view-lookup r k h = elim (Option-cases (lookup k r.clients)) [
  | inl e ↦ inl (e, ground arith)
  | inr (place, e) ↦
      let (_, (f, at, same)) = Every-lookup (IsHeld r.entries) k place r.clients h.held e in
      inr (place, f, e, at, ground arith, same)
]

abbrev is_some {ℓ} : {A : Type ℓ} → Option A → Bool
is_some none = false
is_some (some a) = true

-- What `register` answers, by the map alone: `place` is that of the new entry.
abbrev pub answer : Text → Option ClientEntry → ℕ → Result RegisterError ℕ
answer client_id found place =
    if is_reserved client_id
    then err reserved
    else if is_some found
    then err already_registered
    else ok place

abbrev pub may_register : Text → Option ClientEntry → Bool
may_register client_id found = not (is_reserved client_id) && not (is_some found)

abbrev pub joined : Text → ℕ → Bool → Instant → ClientEntry
joined client_id handle hb now = record {
  client_id = client_id;
  handle = handle;
  connected_at = now;
  metrics = new_metrics;
  supports_heartbeat = hb;
}

module _ (client_id : Text) (handle : ℕ) (hb : Bool) (now : Instant) (r : Registry)
    (h : IsWellFormed r) where
  register-answer :
      (register client_id handle hb now r).0
      ≡ answer client_id (view r client_id) (length r.entries)
  unfolding register
  register-answer = elim (view-lookup r client_id h) [
    | inl (e, v) ↦ ground arith
    | inr (place, f, e, at, v, _) ↦ ground arith
  ]

  -- The map behind the insertion of a new name.
  added-view :
      (k : Text)
      → lookup client_id r.clients ≡ none
      → view
          (record {
            clients = insert client_id (length r.entries) r.clients;
            entries = r.entries ++ joined client_id handle hb now ∷ [];
          })
          k
        ≡ (if text_eq client_id k then some (joined client_id handle hb now) else view r k)
  unfolding view
  added-view k e = elim (view-lookup r k h) [
    | inl (e', v) ↦ ground (
      arith,
      lookup-insert client_id k (length r.entries) r.clients,
      get_elem?-append_last r.entries (joined client_id handle hb now),
    )
    | inr (place, f, e', at, v, _) ↦ ground (
      arith,
      lookup-insert client_id k (length r.entries) r.clients,
      get_elem?-append_last r.entries (joined client_id handle hb now),
      get_elem?-append_some r.entries (joined client_id handle hb now ∷ []) place f at,
    )
  ]

  view-register_at :
      (k : Text)
      → view (register client_id handle hb now r).1 k ≡ (
          if may_register client_id (view r client_id) && text_eq client_id k
          then some (joined client_id handle hb now)
          else view r k)
  unfolding register
  view-register_at k = elim (view-lookup r client_id h) [
    | inl (e, v) ↦ elim (Bool-cases (is_reserved client_id)) [
      | inl taken ↦ ground arith
      | inr free ↦ rw (free, e, register) (rw v (added-view k e))
    ]
    | inr (place, f, e, at, v, _) ↦ ground arith
  ]

-- On a well-formed registry `register` refuses a reserved name and a name that is taken, and
-- changes nothing then; else the name, and no other, stands for a new entry.
pub view-register :
    (client_id : Text) (handle : ℕ) (hb : Bool) (now : Instant) (r : Registry)
    → IsWellFormed r
    → ((register client_id handle hb now r).0
        ≡ answer client_id (view r client_id) (length r.entries))
      × ((k : Text)
          → view (register client_id handle hb now r).1 k ≡ (
              if may_register client_id (view r client_id) && text_eq client_id k
              then some (joined client_id handle hb now)
              else view r k))
view-register client_id handle hb now r h =
    (register-answer client_id handle hb now r h, view-register_at client_id handle hb now r h)

-- `unregister` takes the name out of the map, and no other.
pub view-unregister :
    (client_id k : Text) (r : Registry)
    → view (unregister client_id r) k ≡ (if text_eq client_id k then none else view r k)
unfolding unregister view
view-unregister client_id k r = ground (arith, lookup-remove client_id k r.clients)

infos-length :
    (now : Instant) (entries : List ClientEntry) (m : Assoc ℕ)
    → Every (IsHeld entries) m
    → (length (infos now entries m) ≡ length m)
      × (map (λ (i : ClientInfo). i.client_id) (infos now entries m) ≡ map (λ b. b.0) m)
unfolding infos
infos-length now entries [] h = (refl, refl)
infos-length now entries ((k, place) ∷ m) ((_, (e, at, same)), hs) =
    let (len, ids) = infos-length now entries m hs in (ground arith, ground arith)

-- On a well-formed registry the list has one line for each registered name, no name twice, and as
-- many lines as `count` says.
pub list-count :
    (now : Instant) (r : Registry)
    → IsWellFormed r
    → (length (list now r) ≡ count r)
      × (map (λ (i : ClientInfo). i.client_id) (list now r) ≡ map (λ b. b.0) r.clients)
      × HasDistinctKeys r.clients
unfolding list count
list-count now r h =
    let (len, ids) = infos-length now r.entries r.clients h.held in (len, ids, h.distinct)
