-- ===== src/Server/RateLimiter/Keys.antt =====
-- The limiter over the requests of many keys.
use zo_tunnel.Prelude.{
  ℕ, ◌+◌, ◌<◌, ◌≡◌, refl, ◌&&◌, some, List, [], ◌∷◌, arith, Text, text_eq, text_eq_iff, lookup,
  lookup-insert, if◌then◌else◌, Bool-cases, inl, inr,
}
use zo_tunnel.Server.Clock.{Instant}
use zo_tunnel.Server.RateLimiter.{Counter, RateLimiter, counter_of, hit, check}
use zo_tunnel.Server.RateLimiter.Window.{hits}

-- The requests are pairs of a key and a time.
abbrev pub Requests : Type 0
Requests = List (Text × Instant)

unfoldable pub times_of : Text → Requests → List Instant
times_of key [] = []
times_of key ((k, now) ∷ reqs) =
    let rest = times_of key reqs in if text_eq k key then now ∷ rest else rest

-- How many requests of a key the limiter allows in a run.
unfoldable pub allowed_of : Text → RateLimiter → Requests → ℕ
allowed_of key r [] = 0
allowed_of key r ((k, now) ∷ reqs) =
    let (allowed, r') = check k now r in
    let n = allowed_of key r' reqs in if text_eq k key && allowed then n + 1 else n

-- What `check` leaves in the map: the key's counter is hit, and all others stay.
pub lookup-check :
    (k key : Text) (now : Instant) (r : RateLimiter)
    → 0 < r.max_per_second
    → lookup key (check k now r).1.counters ≡ (
        if text_eq k key
        then some (hit r.max_per_second (counter_of r k now) now).1
        else lookup key r.counters)
unfolding check
lookup-check k key now r pos =
    ground (arith, lookup-insert k key (hit r.max_per_second (counter_of r k now) now).1 r.counters)

pub check_max :
    (k : Text) (now : Instant) (r : RateLimiter)
    → (check k now r).1.max_per_second ≡ r.max_per_second
unfolding check
check_max k now r = ground arith

pub check_allowed :
    (k : Text) (now : Instant) (r : RateLimiter)
    → 0 < r.max_per_second
    → (check k now r).0 ≡ (hit r.max_per_second (counter_of r k now) now).0
unfolding check
check_allowed k now r pos = ground arith

-- A key's requests are counted as if there were no other key.
pub allowed_of-hits :
    (key : Text) (r : RateLimiter) (c : Counter) (reqs : Requests)
    → 0 < r.max_per_second
    → lookup key r.counters ≡ some c
    → allowed_of key r reqs ≡ (hits r.max_per_second c (times_of key reqs)).0
unfolding allowed_of times_of hits
allowed_of-hits key r c [] pos e = refl
allowed_of-hits key r c ((k, now) ∷ reqs) pos e =
    let r' = (check k now r).1 in
    let same_max = check_max k now r in
    let pos' : 0 < r'.max_per_second = omega arith in
    elim (Bool-cases (text_eq k key)) [
      | inl same ↦
          let found : counter_of r k now ≡ c = ground (arith, text_eq_iff k key) in
          let c' = (hit r.max_per_second c now).1 in
          let later : lookup key r'.counters ≡ some c' =
            ground (arith, lookup-check k key now r pos) in
          ground (arith, check_allowed k now r pos, allowed_of-hits key r' c' reqs pos' later)
      | inr other ↦
          let later : lookup key r'.counters ≡ some c =
            ground (arith, lookup-check k key now r pos) in
          ground (arith, allowed_of-hits key r' c reqs pos' later)
    ]
