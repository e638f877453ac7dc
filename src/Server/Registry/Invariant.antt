-- ===== src/Server/Registry/Invariant.antt =====
-- The registry's invariant, through each operation.
use native.Mathlib.Decide.{ℕ_discrete}
use zo_tunnel.Prelude.{
  ℕ, ◌≡◌, refl, ap, ◌∙◌, Bool, false, some, List, [], ◌∷◌, ◌++◌, length, get_elem?,
  get_elem?-append_last, get_elem?-set_self, get_elem?-set_ne, set, Text, Assoc, lookup,
  HasDistinctKeys, insert-HasDistinctKeys, remove-HasDistinctKeys, Every, Every-insert,
  Every-remove, get_elem?-append_some, get_elem?-lt, arith, Bool-cases, Option-cases, inl, inr,
}
use zo_tunnel.Server.Clock.{Instant}
use zo_tunnel.Server.Config.{is_reserved}
use zo_tunnel.Server.Registry.{
  ClientMetrics, ClientEntry, Registry, new, register, unregister, update_metrics,
}

-- A registered name is not reserved, and its place holds an entry of that name.
abbrev pub IsHeld : List ClientEntry → Text → ℕ → Type 0
IsHeld entries k place =
    (is_reserved k ≡ false)
    × ((e : ClientEntry) × (get_elem? entries place ≡ some e) × (e.client_id ≡ k))

pub record IsWellFormed (r : Registry) : Type 0 where
  pub held : Every (IsHeld r.entries) r.clients
  pub distinct : HasDistinctKeys r.clients

-- The entries may grow and change their counters.
held-append :
    (entries : List ClientEntry) (e : ClientEntry) (m : Assoc ℕ)
    → Every (IsHeld entries) m
    → Every (IsHeld (entries ++ e ∷ [])) m
held-append entries e [] h = tt
held-append entries e ((k, place) ∷ m) ((free, (f, at, same)), hs) = (
  (free, (f, get_elem?-append_some entries (e ∷ []) place f at, same)),
  held-append entries e m hs,
)

held-set :
    (entries : List ClientEntry) (i : ℕ) (old e : ClientEntry) (m : Assoc ℕ)
    → get_elem? entries i ≡ some old
    → e.client_id ≡ old.client_id
    → Every (IsHeld entries) m
    → Every (IsHeld (set entries i e)) m
held-set entries i old e [] at same h = tt
held-set entries i old e ((k, place) ∷ m) at same ((free, (f, at', same')), hs) = (
  (
    free,
    elim (ℕ_discrete i place) [
      | yes here ↦ (
        e,
        rw (← here) (get_elem?-set_self entries i e (get_elem?-lt entries i old at)),
        same ∙ ap (λ (c : ClientEntry). c.client_id) (found here) ∙ same',
      )
      | no there ↦ (f, get_elem?-set_ne entries i place e there ∙ at', same')
    ],
  ),
  held-set entries i old e m at same hs,
)
  where
    found : i ≡ place → old ≡ f
    found here = ground arith

pub new-IsWellFormed : IsWellFormed new
new-IsWellFormed = record { held = tt; distinct = tt }

pub register-IsWellFormed :
    (client_id : Text) (handle : ℕ) (hb : Bool) (now : Instant) (r : Registry)
    → IsWellFormed r
    → IsWellFormed (register client_id handle hb now r).1
unfolding register
register-IsWellFormed client_id handle hb now r h = elim (Bool-cases (is_reserved client_id)) [
  | inl taken ↦ rw (taken, register) h
  | inr free ↦ elim (Option-cases (lookup client_id r.clients)) [
    | inr (place, e) ↦ rw (free, e, register) h
    | inl e ↦
        rw (free, e, register)
          (record {
            held =
                Every-insert (IsHeld (r.entries ++ _ ∷ [])) client_id (length r.entries) r.clients
                  (free, (_, get_elem?-append_last r.entries _, refl))
                  (held-append r.entries _ r.clients h.held);
            distinct = insert-HasDistinctKeys client_id (length r.entries) r.clients h.distinct;
          })
  ]
]

pub unregister-IsWellFormed :
    (client_id : Text) (r : Registry) → IsWellFormed r → IsWellFormed (unregister client_id r)
unfolding unregister
unregister-IsWellFormed client_id r h = record {
  held = Every-remove (IsHeld r.entries) client_id r.clients h.held;
  distinct = remove-HasDistinctKeys client_id r.clients h.distinct;
}

pub update_metrics-IsWellFormed :
    (place : ℕ) (change : ClientMetrics → ClientMetrics) (r : Registry)
    → IsWellFormed r
    → IsWellFormed (update_metrics place change r)
unfolding update_metrics
update_metrics-IsWellFormed place change r h = elim (Option-cases (get_elem? r.entries place)) [
  | inl e ↦ rw (e, update_metrics) h
  | inr (old, e) ↦
      rw (e, update_metrics)
        (record {
          held =
              held-set r.entries place old (record old { metrics = change old.metrics }) r.clients e
                refl h.held;
          distinct = h.distinct;
        })
]
