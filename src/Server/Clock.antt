-- ===== src/Server/Clock.antt =====
-- Points in time and the atomic counters of the server.
use zo_tunnel.Prelude.{ℕ, ◌+◌, ◌-◌, ◌/◌, ◌%◌, ◌^◌, ◌<◌, ◌≡◌, arith}

-- An `Instant`, in nanoseconds. `now.duration_since(then)` is zero when `then` is later.
abbrev pub Instant : Type 0
Instant = ℕ

abbrev pub second : ℕ
second = 1_000_000_000

-- `now.duration_since(start).as_secs()`, which is also `start.elapsed().as_secs()` at `now`.
abbrev pub secs_since : Instant → Instant → ℕ
secs_since start now = (now - start) / second

-- `fetch_add(1)` and `fetch_sub(1)` on an `AtomicU64`, which wrap.
abbrev pub fetch_add : ℕ → ℕ
fetch_add n = (n + 1) % 2 ^ 64

abbrev pub fetch_sub : ℕ → ℕ
fetch_sub n = (n + 2 ^ 64 - 1) % 2 ^ 64

-- An increment is undone by a decrement.
pub fetch_sub-fetch_add : (n : ℕ) → n < 2 ^ 64 → fetch_sub (fetch_add n) ≡ n
fetch_sub-fetch_add n h = omega arith
