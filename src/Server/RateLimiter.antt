-- ===== src/Server/RateLimiter.antt =====
-- metrics.rs: `RateLimiter`. Each key has the start of its window and the requests counted in it.
pub mod Window
pub mod Keys
pub mod Limits
use zo_tunnel.Prelude.{
  ℕ, ◌+◌, Bool, true, false, Option, none, some, [], ltb, leb, ◌==◌, Text, Assoc, lookup, insert,
  if◌then◌else◌,
}
use zo_tunnel.Server.Clock.{Instant, secs_since}

pub record Counter : Type 0 where
  pub window_start : Instant
  pub count : ℕ

pub record RateLimiter : Type 0 where
  pub max_per_second : ℕ
  pub counters : Assoc Counter

unfoldable pub new : ℕ → RateLimiter
new max_per_second = record { max_per_second = max_per_second; counters = [] }

-- `entry(key).or_insert((now, 0))`
abbrev pub counter_of : RateLimiter → Text → Instant → Counter
counter_of r key now = elim (lookup key r.counters) [
  | none ↦ record { window_start = now; count = 0 }
  | some c ↦ c
]

-- What a request does to its counter, and whether it is allowed.
unfoldable pub hit : ℕ → Counter → Instant → Bool × Counter
hit limit c now =
    if leb 1 (secs_since c.window_start now)
    then (true, record { window_start = now; count = 1 })
    else if ltb c.count limit
    then (true, record c { count = c.count + 1 })
    else (false, c)

unfoldable pub check : Text → Instant → RateLimiter → Bool × RateLimiter
unfolding hit
check key now r =
    let (allowed, c) = hit r.max_per_second (counter_of r key now) now in
    if r.max_per_second == 0
    then (true, r)
    else (allowed, record r { counters = insert key c r.counters })
