-- ===== src/Server/Driver.antt =====
-- server.rs: `spawn_yamux_driver`, the task of one client's connection. Each round of its loop takes
-- one event; what a heartbeat came to is part of its event.
use native.Mathlib.Decide.{dec_lt}
use zo_tunnel.Prelude.{
  ℕ, ◌+◌, ◌≤◌, ◌<◌, ◌≡◌, ◌↔◌, ◌⊎◌, inl, inr, refl, Bool, true, false, List, [], ◌∷◌, leb, arith,
  if◌then◌else◌,
}

abbrev pub max_missed : ℕ
max_missed = 5

-- What `poll_next_inbound` returned.
pub data Inbound : Type 0 where
  stream broken closed : Inbound

-- What a heartbeat came to within ten seconds.
pub data Beat : Type 0 where
  answered failed timed_out : Beat

pub data Event : Type 0 where
  inbound : Inbound → Event
  -- `true` is a command to open a stream, `false` that all handles are gone.
  command : Bool → Event
  tick : Beat → Event

-- The driver runs with a number of missed heartbeats, or has left its loop.
pub data Driver : Type 0 where
  running : ℕ → Driver
  stopped : Driver

abbrev count_beat : ℕ → Beat → ℕ
count_beat missed answered = 0
count_beat missed failed = missed + 1
count_beat missed timed_out = missed + 1

-- One round of the loop; the tick is off for a client without heartbeats.
unfoldable pub round : Bool → ℕ → Event → Driver
round supports_heartbeat missed (inbound stream) = running missed
round supports_heartbeat missed (inbound broken) = stopped
round supports_heartbeat missed (inbound closed) = stopped
round supports_heartbeat missed (command true) = running missed
round supports_heartbeat missed (command false) = stopped
round true missed (tick b) =
    let missed' = count_beat missed b in if leb max_missed missed' then stopped else running missed'
round false missed (tick b) = running missed

-- The loop over the events in their order.
unfoldable pub drive : Bool → Driver → List Event → Driver
unfolding round
drive hb stopped events = stopped
drive hb (running missed) [] = running missed
drive hb (running missed) (e ∷ events) = drive hb (round hb missed e) events

-- The connection ends by itself, or nobody holds a handle any more.
abbrev pub Ends : Event → Type 0
Ends (inbound broken) = Unit
Ends (inbound closed) = Unit
Ends (command false) = Unit
Ends _ = ⊥

-- Five misses in a row stand somewhere in the events, counted on from `n`.
abbrev pub FiveMissed : ℕ → List Event → Type 0
FiveMissed n [] = 5 ≤ n
FiveMissed n (tick answered ∷ events) = (5 ≤ n) ⊎ FiveMissed 0 events
FiveMissed n (tick failed ∷ events) = (5 ≤ n) ⊎ FiveMissed (n + 1) events
FiveMissed n (tick timed_out ∷ events) = (5 ≤ n) ⊎ FiveMissed (n + 1) events
FiveMissed n (inbound i ∷ events) = (5 ≤ n) ⊎ FiveMissed n events
FiveMissed n (command b ∷ events) = (5 ≤ n) ⊎ FiveMissed n events

abbrev pub EndsSomewhere : List Event → Type 0
EndsSomewhere [] = ⊥
EndsSomewhere (e ∷ events) = Ends e ⊎ EndsSomewhere events

drive-stopped : (hb : Bool) (events : List Event) → drive hb stopped events ≡ stopped
unfolding drive
drive-stopped hb events = refl

FiveMissed-now : (n : ℕ) (events : List Event) → 5 ≤ n → FiveMissed n events
FiveMissed-now n [] h = h
FiveMissed-now n (tick answered ∷ events) h = inl h
FiveMissed-now n (tick failed ∷ events) h = inl h
FiveMissed-now n (tick timed_out ∷ events) h = inl h
FiveMissed-now n (inbound i ∷ events) h = inl h
FiveMissed-now n (command b ∷ events) h = inl h

-- One more heartbeat was missed: the fifth in a row stops the driver.
after_miss :
    (n : ℕ) (events : List Event)
    → n ≤ 5
    → (n < 5
        → (drive true (running n) events ≡ stopped) ↔ (EndsSomewhere events ⊎ FiveMissed n events))
    → (drive true (if leb max_missed n then stopped else running n) events ≡ stopped)
      ↔ (EndsSomewhere events ⊎ FiveMissed n events)
after_miss n events le later = elim (dec_lt n 5) [
  | yes few ↦ let go : leb max_missed n ≡ false = ground arith in rw go (later few)
  | no five ↦
      let stop : leb max_missed n ≡ true = ground arith in
      rw stop (λ e. inr (FiveMissed-now n events (omega arith)), λ e. drive-stopped true events)
]

-- From fewer than five missed heartbeats, the driver of a client with heartbeats stops exactly if
-- the connection ended or the handles were gone, or five heartbeats in a row were missed; an
-- answered one starts the count again.
pub drive-stopped_iff :
    (missed : ℕ) (events : List Event)
    → missed < 5
    → (drive true (running missed) events ≡ stopped)
      ↔ (EndsSomewhere events ⊎ FiveMissed missed events)
unfolding drive
drive-stopped_iff missed [] h = ground arith
drive-stopped_iff missed (inbound stream ∷ events) h =
    ground (arith, drive-stopped_iff missed events h)
drive-stopped_iff missed (inbound broken ∷ events) h = (λ e. inl (inl tt), λ e. refl)
drive-stopped_iff missed (inbound closed ∷ events) h = (λ e. inl (inl tt), λ e. refl)
drive-stopped_iff missed (command true ∷ events) h =
    ground (arith, drive-stopped_iff missed events h)
drive-stopped_iff missed (command false ∷ events) h = (λ e. inl (inl tt), λ e. refl)
drive-stopped_iff missed (tick answered ∷ events) h =
    ground (arith, drive-stopped_iff 0 events (omega arith))
drive-stopped_iff missed (tick failed ∷ events) h =
    let (to, from) =
      after_miss (missed + 1) events (omega arith) (drive-stopped_iff (missed + 1) events) in
    ground arith
drive-stopped_iff missed (tick timed_out ∷ events) h =
    let (to, from) =
      after_miss (missed + 1) events (omega arith) (drive-stopped_iff (missed + 1) events) in
    ground arith

-- Without heartbeats no number of ticks stops it.
pub drive-legacy :
    (missed : ℕ) (events : List Event)
    → (drive false (running missed) events ≡ stopped) ↔ EndsSomewhere events
unfolding drive
drive-legacy missed [] = ground arith
drive-legacy missed (inbound stream ∷ events) = ground (arith, drive-legacy missed events)
drive-legacy missed (inbound broken ∷ events) = (λ e. inl tt, λ e. refl)
drive-legacy missed (inbound closed ∷ events) = (λ e. inl tt, λ e. refl)
drive-legacy missed (command true ∷ events) = ground (arith, drive-legacy missed events)
drive-legacy missed (command false ∷ events) = (λ e. inl tt, λ e. refl)
drive-legacy missed (tick b ∷ events) = ground (arith, drive-legacy missed events)
