-- ===== src/Server/RateLimiter/Limits.antt =====
-- How many requests of a key the limiter allows in a second.
use native.Mathlib.Decide.{dec_lt}
use zo_tunnel.Prelude.{
  ℕ, zero, suc, ◌+◌, ◌-◌, ◌*◌, ◌≤◌, ◌<◌, ◌≡◌, refl, subst, ap, ◌∙◌, true, none, some, List, [], ◌∷◌,
  ◌++◌, min, arith, length, All, replicate, Text, text_eq, text_eq_iff, text_eq_refl, lookup,
  Bool-cases, Option-cases, inl, inr,
}
use zo_tunnel.Server.Clock.{Instant, second}
use zo_tunnel.Server.RateLimiter.{Counter, RateLimiter, new, counter_of, hit, check}
use zo_tunnel.Server.RateLimiter.Window.{
  hits, IsWithin, IsOrdered, hits_in_window, hits_in_second, hit_within, hit_beyond,
}
use zo_tunnel.Server.RateLimiter.Keys.{
  Requests, times_of, allowed_of, allowed_of-hits, lookup-check, check_max, check_allowed,
}

abbrev opened : Instant → Counter
opened t = record { window_start = t; count = 0 }

-- The first request of a key opens its window.
allowed_of-opened :
    (key : Text) (r : RateLimiter) (t : Instant) (ts : List Instant) (reqs : Requests)
    → 0 < r.max_per_second
    → lookup key r.counters ≡ none
    → times_of key reqs ≡ t ∷ ts
    → allowed_of key r reqs ≡ (hits r.max_per_second (opened t) (t ∷ ts)).0
unfolding allowed_of times_of
allowed_of-opened key r t ts [] pos e h = absurd (ground arith)
allowed_of-opened key r t ts ((k, now) ∷ reqs) pos e h =
    let r' = (check k now r).1 in
    let same_max = check_max k now r in
    let pos' : 0 < r'.max_per_second = omega arith in
    elim (Bool-cases (text_eq k key)) [
      | inl same ↦
          let found : counter_of r k now ≡ opened t = ground (arith, text_eq_iff k key) in
          let c' = (hit r.max_per_second (opened t) now).1 in
          let later : lookup key r'.counters ≡ some c' =
            ground (arith, lookup-check k key now r pos) in
          unfold hits in
          ground (arith, check_allowed k now r pos, allowed_of-hits key r' c' reqs pos' later)
      | inr other ↦
          let later : lookup key r'.counters ≡ none =
            ground (arith, lookup-check k key now r pos) in
          ground (arith, allowed_of-opened key r' t ts reqs pos' later)
    ]

-- With a limit above zero, of the requests of a new key in the second that its first request opens
-- exactly the first are allowed, as many as the limit, whatever requests of other keys come in
-- between.
pub allowed_of_window :
    (key : Text) (r : RateLimiter) (t : Instant) (ts : List Instant) (reqs : Requests)
    → 0 < r.max_per_second
    → lookup key r.counters ≡ none
    → times_of key reqs ≡ t ∷ ts
    → All (IsWithin t) ts
    → allowed_of key r reqs ≡ min (length (times_of key reqs)) r.max_per_second
allowed_of_window key r t ts reqs pos e h w =
    let counted = hits_in_window r.max_per_second (opened t) (t ∷ ts) in
    rw h (
      omega
        (arith, allowed_of-opened key r t ts reqs pos e h, counted (omega arith) (omega arith, w)))

-- No counter stands above the limit.
abbrev pub IsBounded : RateLimiter → Type 0
IsBounded r =
    (key : Text) (c : Counter) → lookup key r.counters ≡ some c → c.count ≤ r.max_per_second

pub new-IsBounded : (limit : ℕ) → IsBounded (new limit)
unfolding new lookup
new-IsBounded limit key c e = absurd (ground arith)

hit-le :
    (limit : ℕ) (c : Counter) (now : Instant)
    → 0 < limit
    → c.count ≤ limit
    → (hit limit c now).1.count ≤ limit
unfolding hit
hit-le limit c now pos h = ground arith

counter_of-le :
    (r : RateLimiter) (k : Text) (now : Instant)
    → IsBounded r
    → (counter_of r k now).count ≤ r.max_per_second
counter_of-le r k now h = elim (Option-cases (lookup k r.counters)) [
  | inl e ↦ ground arith
  | inr (c, e) ↦ ground (arith, h k c)
]

check_off :
    (k : Text) (now : Instant) (r : RateLimiter) → r.max_per_second ≡ 0 → check k now r ≡ (true, r)
unfolding check
check_off k now r off = ground arith

pub check-IsBounded :
    (k : Text) (now : Instant) (r : RateLimiter) → IsBounded r → IsBounded (check k now r).1
check-IsBounded k now r h key c e = elim (dec_lt 0 r.max_per_second) [
  | no off ↦ off_case off
  | yes pos ↦ ground (
    arith,
    lookup-check k key now r pos,
    check_max k now r,
    h key c,
    hit-le r.max_per_second (counter_of r k now) now pos,
    counter_of-le r k now h,
  )
]
  where
    off_case : ¬ (0 < r.max_per_second) → c.count ≤ (check k now r).1.max_per_second
    off_case off = let same = check_off k now r (omega arith) in rw same (h key c (rw same at e))

allowed_of-none :
    (key : Text) (r : RateLimiter) (reqs : Requests)
    → times_of key reqs ≡ []
    → allowed_of key r reqs ≡ 0
unfolding allowed_of times_of
allowed_of-none key r [] e = refl
allowed_of-none key r ((k, now) ∷ reqs) e =
    ground (arith, allowed_of-none key (check k now r).1 reqs)

-- With a limit above zero and no counter above it, at most twice the limit of the requests of a
-- key are allowed in any second, wherever it begins, if they come in the order of their times.
pub allowed_of_second :
    (key : Text) (r : RateLimiter) (from : Instant) (reqs : Requests)
    → 0 < r.max_per_second
    → IsBounded r
    → IsOrdered from (times_of key reqs)
    → All (IsWithin from) (times_of key reqs)
    → allowed_of key r reqs ≤ 2 * r.max_per_second
allowed_of_second key r from reqs pos b o w = elim (Option-cases (lookup key r.counters)) [
  | inr (c, e) ↦
      let counted =
        hits_in_second r.max_per_second c from (times_of key reqs) pos (b key c e) o w in
      omega (arith, allowed_of-hits key r c reqs pos e, counted)
  | inl e ↦ new_key e (times_of key reqs) refl
]
  where
    new_key :
        lookup key r.counters ≡ none
        → (times : List Instant) → times_of key reqs ≡ times
        → allowed_of key r reqs ≤ 2 * r.max_per_second
    new_key e [] e' = omega (arith, allowed_of-none key r reqs e')
    new_key e (t ∷ ts) e' =
        let (front, ordered) = subst (IsOrdered from) e' o in
        let within = subst (All (IsWithin from)) e' w in
        let counted =
          hits_in_second r.max_per_second (opened t) from (t ∷ ts) pos (omega arith)
            (front, ordered) within in
        omega (arith, allowed_of-opened key r t ts reqs pos e e', counted)

-- A batch of requests that fits the window.
hits_batch :
    (limit : ℕ) (c : Counter) (t : Instant) (m : ℕ) (rest : List Instant)
    → IsWithin c.window_start t
    → c.count + m ≤ limit
    → (hits limit c (replicate m t ++ rest)).0
      ≡ m + (hits limit (record c { count = c.count + m }) rest).0
unfolding hits
hits_batch limit c t zero rest w h =
    let same : c.count + 0 ≡ c.count = omega arith in rw same (omega arith)
hits_batch limit c t (suc m) rest w h =
    let next : Counter = record c { count = c.count + 1 } in
    let same : c.count + 1 + m ≡ c.count + suc m = omega arith in
    ground
      (arith, hit_within limit c t w, rw same at (hits_batch limit next t m rest w (omega arith)))

times_of-batch :
    (key : Text) (t : Instant) (m : ℕ) (reqs : Requests)
    → times_of key (replicate m (key, t) ++ reqs) ≡ replicate m t ++ times_of key reqs
unfolding times_of
times_of-batch key t zero reqs = refl
times_of-batch key t (suc m) reqs = rw (text_eq_refl key, times_of-batch key t m reqs)

abbrev pub burst : Text → ℕ → Instant → Requests
burst key n t =
    (key, t) ∷ (replicate n (key, t + second - 1) ++ (replicate (suc n) (key, t + second) ++ []))

times_of-burst :
    (key : Text) (n : ℕ) (t : Instant)
    → times_of key (burst key n t)
      ≡ t ∷ (replicate n (t + second - 1) ++ (replicate (suc n) (t + second) ++ []))
unfolding times_of
times_of-burst key n t = rw (text_eq_refl key) (
    ap (◌∷◌ t) (
      times_of-batch key (t + second - 1) n (replicate (suc n) (key, t + second) ++ [])
      ∙ ap (◌++◌ (replicate n (t + second - 1))) (times_of-batch key (t + second) (suc n) [])))

-- With a limit of `n + 1`, all of these requests are allowed: one at `t`, `n` in the last
-- nanosecond of the window that it opens, and `n + 1` in the nanosecond behind it.
pub allowed_of-burst :
    (key : Text) (n : ℕ) (t : Instant) → allowed_of key (new (suc n)) (burst key n t) ≡ 2 * suc n
unfolding new
allowed_of-burst key n t =
    let late = replicate n (t + second - 1) in
    let next = replicate (suc n) (t + second) ++ [] in
    let used : Counter = record { window_start = t; count = 1 } in
    let full : Counter = record { window_start = t; count = 1 + n } in
    let fresh : Counter = record { window_start = t + second; count = 1 } in
    unfold hits lookup in
    ground (
      arith,
      allowed_of-opened key (new (suc n)) t (late ++ next) (burst key n t) (omega arith) refl
          (times_of-burst key n t),
      hit_within (suc n) (opened t) t (omega arith),
      hits_batch (suc n) used (t + second - 1) n next (omega arith) (omega arith),
      hit_beyond (suc n) full (t + second) (omega arith),
      hits_batch (suc n) fresh (t + second) n [] (omega arith) (omega arith),
    )
