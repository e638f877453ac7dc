-- ===== src/Prelude/Maps.antt =====
-- A map with texts for keys, as the source uses `DashMap<String, V>`: an association list in which
-- `insert` replaces, so that no key stands twice.
use Prim.Native.Nat.{◌+◌}
use mathlib.Core.Path.{◌≡◌, refl, subst, subst₂}
use mathlib.Core.Logic.{inl, inr, ◌≢◌}
use mathlib.Core.Option.{Option, none, some}
use mathlib.Core.List.{List, [], ◌∷◌}
use native.Mathlib.Omega.{arith}
use zo_tunnel.Prelude.Tests.{if◌then◌else◌, Bool-cases}
use zo_tunnel.Prelude.Lists.{length}
use zo_tunnel.Prelude.Texts.{Text, text_eq, text_eq_iff}

abbrev pub Assoc {ℓ} : Type ℓ → Type ℓ
Assoc V = List (Text × V)

module _ {ℓ} {V : Type ℓ} where
  unfoldable pub lookup : Text → Assoc V → Option V
  lookup k [] = none
  lookup k ((j, v) ∷ m) = if text_eq j k then some v else lookup k m

  unfoldable pub insert : Text → V → Assoc V → Assoc V
  insert k v [] = (k, v) ∷ []
  insert k v ((j, w) ∷ m) = if text_eq j k then (k, v) ∷ m else (j, w) ∷ insert k v m

  unfoldable pub remove : Text → Assoc V → Assoc V
  remove k [] = []
  remove k ((j, v) ∷ m) = let rest = remove k m in if text_eq j k then rest else (j, v) ∷ rest

  pub lookup-insert :
      (k j : Text) (v : V) (m : Assoc V)
      → lookup j (insert k v m) ≡ (if text_eq k j then some v else lookup j m)
  unfolding lookup insert
  lookup-insert k j v [] = refl
  lookup-insert k j v ((i, w) ∷ m) =
      ground (arith, text_eq_iff k j, text_eq_iff i k, text_eq_iff i j, lookup-insert k j v m)

  pub lookup-remove :
      (k j : Text) (m : Assoc V)
      → lookup j (remove k m) ≡ (if text_eq k j then none else lookup j m)
  unfolding lookup remove
  lookup-remove k j [] = ground arith
  lookup-remove k j ((i, w) ∷ m) =
      ground (arith, text_eq_iff k j, text_eq_iff i k, text_eq_iff i j, lookup-remove k j m)

module _ {ℓ} {V : Type ℓ} where
  -- No pair of the map has this key.
  abbrev pub Absent : Text → Assoc V → Type 0
  Absent k [] = Unit
  Absent k ((j, _) ∷ m) = (j ≢ k) × Absent k m

  abbrev pub HasDistinctKeys : Assoc V → Type 0
  HasDistinctKeys [] = Unit
  HasDistinctKeys ((k, _) ∷ m) = Absent k m × HasDistinctKeys m

  pub lookup-none : (k : Text) (m : Assoc V) → lookup k m ≡ none → Absent k m
  unfolding lookup
  lookup-none k [] e = tt
  lookup-none k ((j, v) ∷ m) e = (ground (arith, text_eq_iff j k), lookup-none k m (ground arith))

  pub Absent-lookup : (k : Text) (m : Assoc V) → Absent k m → lookup k m ≡ none
  unfolding lookup
  Absent-lookup k [] h = refl
  Absent-lookup k ((j, v) ∷ m) (h, hs) = ground (arith, text_eq_iff j k, Absent-lookup k m hs)

  Absent-insert : (k j : Text) (v : V) (m : Assoc V) → j ≢ k → Absent k m → Absent k (insert j v m)
  unfolding insert
  Absent-insert k j v [] ne h = (ne, tt)
  Absent-insert k j v ((i, w) ∷ m) ne (h, hs) = ground (arith, Absent-insert k j v m ne hs)

  pub insert-HasDistinctKeys :
      (k : Text) (v : V) (m : Assoc V) → HasDistinctKeys m → HasDistinctKeys (insert k v m)
  unfolding insert
  insert-HasDistinctKeys k v [] h = (tt, tt)
  insert-HasDistinctKeys k v ((j, w) ∷ m) (h, hs) = elim (Bool-cases (text_eq j k)) [
    | inl same ↦ rw same (subst (λ i. Absent i m) ((text_eq_iff j k).0 same) h, hs)
    | inr other ↦
        let ne : k ≢ j = ground (arith, text_eq_iff j k) in
        rw other (Absent-insert j k v m ne h, insert-HasDistinctKeys k v m hs)
  ]

  Absent-remove : (k j : Text) (m : Assoc V) → Absent k m → Absent k (remove j m)
  unfolding remove
  Absent-remove k j [] h = tt
  Absent-remove k j ((i, w) ∷ m) (h, hs) = ground (arith, Absent-remove k j m hs)

  pub remove-HasDistinctKeys :
      (k : Text) (m : Assoc V) → HasDistinctKeys m → HasDistinctKeys (remove k m)
  unfolding remove
  remove-HasDistinctKeys k [] h = tt
  remove-HasDistinctKeys k ((j, w) ∷ m) (h, hs) =
      ground (arith, remove-HasDistinctKeys k m hs, Absent-remove j k m h)

  -- A new key makes the map longer by one.
  pub length-insert_new :
      (k : Text) (v : V) (m : Assoc V) → lookup k m ≡ none → length (insert k v m) ≡ length m + 1
  unfolding lookup insert
  length-insert_new k v [] e = omega arith
  length-insert_new k v ((j, w) ∷ m) e = ground (arith, length-insert_new k v m)

  remove-Absent : (k : Text) (m : Assoc V) → Absent k m → remove k m ≡ m
  unfolding remove
  remove-Absent k [] h = refl
  remove-Absent k ((j, w) ∷ m) (h, hs) = ground (arith, text_eq_iff j k, remove-Absent k m hs)

  -- Where the keys are distinct, a removed key makes it shorter by one.
  pub length-remove :
      (k : Text) (v : V) (m : Assoc V)
      → HasDistinctKeys m
      → lookup k m ≡ some v
      → length (remove k m) + 1 ≡ length m
  unfolding lookup remove
  length-remove k v [] d e = absurd (ground arith)
  length-remove k v ((j, w) ∷ m) (h, hs) e = elim (Bool-cases (text_eq j k)) [
    | inl same ↦
        let gone : remove k m ≡ m =
          remove-Absent k m (subst (λ i. Absent i m) ((text_eq_iff j k).0 same) h) in
        rw same (rw gone (omega arith))
    | inr other ↦ ground (arith, length-remove k v m hs)
  ]

module _ {ℓ κ} {V : Type ℓ} (P : Text → V → Type κ) where
  -- What holds of every pair of a map.
  abbrev pub Every : Assoc V → Type κ
  Every [] = Unit
  Every ((k, v) ∷ m) = P k v × Every m

  pub Every-insert : (k : Text) (v : V) (m : Assoc V) → P k v → Every m → Every (insert k v m)
  unfolding insert
  Every-insert k v [] p h = (p, tt)
  Every-insert k v ((j, w) ∷ m) p (h, hs) = elim (Bool-cases (text_eq j k)) [
    | inl same ↦ rw same (p, hs)
    | inr other ↦ rw other (h, Every-insert k v m p hs)
  ]

  pub Every-remove : (k : Text) (m : Assoc V) → Every m → Every (remove k m)
  unfolding remove
  Every-remove k [] h = tt
  Every-remove k ((j, w) ∷ m) (h, hs) = elim (Bool-cases (text_eq j k)) [
    | inl same ↦ rw same (Every-remove k m hs)
    | inr other ↦ rw other (h, Every-remove k m hs)
  ]

  pub Every-lookup : (k : Text) (v : V) (m : Assoc V) → Every m → lookup k m ≡ some v → P k v
  unfolding lookup
  Every-lookup k v [] h e = absurd (ground arith)
  Every-lookup k v ((j, w) ∷ m) (h, hs) e = elim (Bool-cases (text_eq j k)) [
    | inl same ↦ subst₂ P ((text_eq_iff j k).0 same) (ground arith) h
    | inr other ↦ Every-lookup k v m hs (ground arith)
  ]
