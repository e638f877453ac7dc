-- ===== src/Client/Manager/Backoff.antt =====
-- How long a tunnel waits before it connects again.
use native.Mathlib.Decide.{dec_le}
use zo_tunnel.Prelude.{
  ℕ, zero, suc, ◌*◌, ◌≤◌, ◌≡◌, refl, ap, ◌∙◌, ◌++◌, min, Bool, false, some, List, ◌∷◌, get_elem?,
  replicate, arith,
}
use zo_tunnel.Client.Manager.{max_backoff, waits}

-- `b` doubled `n` times.
abbrev pub doubled : ℕ → ℕ → ℕ
doubled zero b = b
doubled (suc n) b = doubled n (b * 2)

doubled-ge : (n b : ℕ) → b ≤ doubled n b
doubled-ge zero b = omega arith
doubled-ge (suc n) b = omega (arith, doubled-ge n (b * 2))

capped : (n b : ℕ) → min (doubled n (min b 30)) 30 ≡ min (doubled n b) 30
capped n b = elim (dec_le b 30) [
  | yes le ↦ let same : min b 30 ≡ b = omega arith in rw same refl
  | no gt ↦
      let same : min b 30 ≡ 30 = omega arith in
      rw same (omega (arith, doubled-ge n 30, doubled-ge n b))
]

-- After `n` failures in a row, from a backoff of at most 30 seconds on, a tunnel waits that backoff
-- doubled `n` times, and 30 seconds at most.
pub waits-failed :
    (n b : ℕ) (rest : List Bool)
    → b ≤ max_backoff
    → get_elem? (waits b (replicate n false ++ false ∷ rest)) n
      ≡ some (min (doubled n b) max_backoff)
unfolding waits
waits-failed zero b rest h = let same : min b 30 ≡ b = omega arith in rw same refl
waits-failed (suc n) b rest h =
    waits-failed n (min (b * 2) 30) rest (omega arith) ∙ ap some (capped n (b * 2))
