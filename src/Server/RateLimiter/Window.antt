-- ===== src/Server/RateLimiter/Window.antt =====
-- One key: how many of its requests are allowed.
use zo_tunnel.Prelude.{
  ℕ, ◌+◌, ◌-◌, ◌≤◌, ◌<◌, ◌≡◌, true, false, List, [], ◌∷◌, min, arith, ltb, leb, length, All,
  if◌then◌else◌,
}
use native.Mathlib.Decide.{dec_lt}
use zo_tunnel.Server.Clock.{Instant, second, secs_since}
use zo_tunnel.Server.RateLimiter.{Counter, hit}

-- The requests of one key, at their times: how many are allowed, and the counter behind them.
unfoldable pub hits : ℕ → Counter → List Instant → ℕ × Counter
hits limit c [] = (0, c)
hits limit c (now ∷ times) =
    let (allowed, c') = hit limit c now in
    let (n, last) = hits limit c' times in (if allowed then n + 1 else n, last)

-- The time lies in the second that a window opens.
abbrev pub IsWithin : Instant → Instant → Type 0
IsWithin start now = now < start + second

pub hit_within :
    (limit : ℕ) (c : Counter) (now : Instant)
    → IsWithin c.window_start now
    → hit limit c now
      ≡ (if ltb c.count limit then (true, record c { count = c.count + 1 }) else (false, c))
unfolding hit
hit_within limit c now w =
    let young : leb 1 (secs_since c.window_start now) ≡ false = ground arith in rw young

pub hit_beyond :
    (limit : ℕ) (c : Counter) (now : Instant)
    → c.window_start + second ≤ now
    → hit limit c now ≡ (true, record { window_start = now; count = 1 })
unfolding hit
hit_beyond limit c now w =
    let old : leb 1 (secs_since c.window_start now) ≡ true = ground arith in rw old

-- In one window exactly the first requests are allowed, as many as the limit has left.
pub hits_in_window :
    (limit : ℕ) (c : Counter) (times : List Instant)
    → c.count ≤ limit
    → All (IsWithin c.window_start) times
    → (hits limit c times).0 ≡ min (length times) (limit - c.count)
unfolding hits
hits_in_window limit c [] h w = omega arith
hits_in_window limit c (now ∷ times) h (w, ws) = ground (
  arith,
  hit_within limit c now w,
  hits_in_window limit (record c { count = c.count + 1 }) times,
  hits_in_window limit c times,
)

-- Times in order, in the second that begins at `from`.
abbrev pub IsOrdered : Instant → List Instant → Type 0
IsOrdered from [] = Unit
IsOrdered from (now ∷ times) = (from ≤ now) × IsOrdered now times

IsWithin-mono :
    (s t : Instant) (times : List Instant) → s ≤ t → All (IsWithin s) times → All (IsWithin t) times
IsWithin-mono s t [] h w = tt
IsWithin-mono s t (now ∷ times) h (w, ws) = (omega arith, IsWithin-mono s t times h ws)

-- Two windows at most meet one second: what is left of the first, and a whole one.
pub hits_in_second :
    (limit : ℕ) (c : Counter) (from : Instant) (times : List Instant)
    → 0 < limit
    → c.count ≤ limit
    → IsOrdered from times
    → All (IsWithin from) times
    → (hits limit c times).0 ≤ (limit - c.count) + limit
unfolding hits
hits_in_second limit c from [] pos h o w = omega arith
hits_in_second limit c from (now ∷ times) pos h (o, os) (w, ws) =
    elim (dec_lt now (c.window_start + second)) [
      | yes young ↦ ground (
        arith,
        hit_within limit c now young,
        hits_in_second limit (record c { count = c.count + 1 }) now times pos,
        hits_in_second limit c now times pos h os,
        IsWithin-mono from now times o ws,
      )
      | no old ↦ ground (
        arith,
        hit_beyond limit c now,
        hits_in_window limit (record { window_start = now; count = 1 }) times,
        IsWithin-mono from now times o ws,
      )
    ]
