-- ===== src/Server/Proxy/Gauges.antt =====
-- How many requests are in flight, and what the gauges of the clients read.
use native.Mathlib.Decide.{ℕ_discrete}
use zo_tunnel.Prelude.{
  ℕ, zero, suc, ◌≤◌, ◌<◌, ◌≡◌, refl, none, some, List, [], ◌∷◌, inl, inr, length, length-set,
  get_elem?, get_elem?-set_self, get_elem?-set_ne, get_elem?-none, set, remove_at, All, ◌==◌,
  if◌then◌else◌, Option-cases, arith,
}
use zo_tunnel.Server.Registry.{ClientMetrics, ClientEntry, Registry, update_metrics}
use zo_tunnel.Server.Proxy.{Flight}

-- How many requests in flight hold a place.
unfoldable pub aboard : ℕ → List Flight → ℕ
aboard p [] = 0
aboard p (f ∷ fs) = let n = aboard p fs in if f.place == p then suc n else n

pub aboard-remove_at :
    (p i : ℕ) (fs : List Flight) (f : Flight)
    → get_elem? fs i ≡ some f
    → aboard p fs
      ≡ (if f.place == p then suc (aboard p (remove_at fs i)) else aboard p (remove_at fs i))
unfolding aboard
aboard-remove_at p i [] f e = absurd (ground arith)
aboard-remove_at p zero (g ∷ fs) f e = ground arith
aboard-remove_at p (suc i) (g ∷ fs) f e = ground (arith, aboard-remove_at p i fs f e)

pub aboard-set :
    (p i : ℕ) (fs : List Flight) (f f' : Flight)
    → get_elem? fs i ≡ some f
    → f'.place ≡ f.place
    → aboard p (set fs i f') ≡ aboard p fs
unfolding aboard
aboard-set p i [] f f' e same = refl
aboard-set p zero (g ∷ fs) f f' e same = ground arith
aboard-set p (suc i) (g ∷ fs) f f' e same = ground (arith, aboard-set p i fs f f' e same)

pub aboard-above :
    (p n : ℕ) (fs : List Flight) → All (λ f. f.place < n) fs → n ≤ p → aboard p fs ≡ 0
unfolding aboard
aboard-above p n [] h le = refl
aboard-above p n (f ∷ fs) (h, hs) le = ground (arith, aboard-above p n fs hs le)

-- The gauge of a place; places that are not there read zero.
unfoldable pub streams : Registry → ℕ → ℕ
streams r p = elim (get_elem? r.entries p) [ none ↦ 0 | some e ↦ e.metrics.active_streams ]

module _ (change : ClientMetrics → ClientMetrics) (g : ℕ → ℕ)
    (law : (m : ClientMetrics) → (change m).active_streams ≡ g m.active_streams) where
  pub streams-update :
      (r : Registry) (place p : ℕ)
      → place < length r.entries
      → streams (update_metrics place change r) p
        ≡ (if place == p then g (streams r p) else streams r p)
  unfolding streams update_metrics
  streams-update r place p h = elim (Option-cases (get_elem? r.entries place)) [
    | inl e ↦ absurd (omega (arith, get_elem?-none r.entries place e))
    | inr (old, e) ↦
        let new : ClientEntry = record old { metrics = change old.metrics } in
        elim (ℕ_discrete place p) [
          | yes here ↦ ground (arith, get_elem?-set_self r.entries place new h, law old.metrics)
          | no there ↦ ground (arith, get_elem?-set_ne r.entries place p new there)
        ]
  ]

pub length-update :
    (place : ℕ) (change : ClientMetrics → ClientMetrics) (r : Registry)
    → length (update_metrics place change r).entries ≡ length r.entries
unfolding update_metrics
length-update place change r = elim (Option-cases (get_elem? r.entries place)) [
  | inl e ↦ rw (e, update_metrics) refl
  | inr (old, e) ↦ rw (e, update_metrics) (length-set r.entries place _)
]
