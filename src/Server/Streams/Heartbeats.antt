-- ===== src/Server/Streams/Heartbeats.antt =====
-- server.rs: what the heartbeats of `spawn_yamux_driver` come to.
use native.Mathlib.Decide.{dec_lt}
use zo_tunnel.Prelude.{
  ℕ, ◌+◌, ◌≤◌, ◌<◌, ◌≡◌, ◌≢◌, refl, ◌⊎◌, inl, inr, true, false, List, [], ◌∷◌, ok, leb, Bool-cases,
  Result-cases, ◌∙◌, if◌then◌else◌, arith,
}
use zo_tunnel.Protocol.{stream_type_heartbeat}
use zo_tunnel.Server.Clock.{Instant}
use zo_tunnel.Server.Driver.{
  failed, timed_out, Event, inbound, command, tick, stream, broken, closed, running, stopped,
  max_missed, round, drive,
}
use zo_tunnel.Server.Streams.{Yamux, beat}

-- As yamux documents, a connection makes progress only while it is polled: nothing that a client
-- writes can be read before.
abbrev pub NeedsPolling : Yamux → Type 0
NeedsPolling y =
    (now : Instant) (bytes : List ℕ) (b : ℕ) (rest : List ℕ)
    → y.exchange now false bytes ≢ ok (b ∷ rest)

-- Every tick is a heartbeat of its own instant.
abbrev pub AreBeats : Yamux → List Event → Type 0
AreBeats y [] = Unit
AreBeats y (tick b ∷ events) = ((now : Instant) × (b ≡ beat y now)) × AreBeats y events
AreBeats y (inbound i ∷ events) = AreBeats y events
AreBeats y (command b ∷ events) = AreBeats y events

abbrev pub ticks : List Event → ℕ
ticks [] = 0
ticks (tick b ∷ events) = 1 + ticks events
ticks (inbound i ∷ events) = ticks events
ticks (command b ∷ events) = ticks events

module _ (y : Yamux) (polling : NeedsPolling y) where
  beat-missed : (now : Instant) → (beat y now ≡ failed) ⊎ (beat y now ≡ timed_out)
  unfolding beat
  beat-missed now = elim (Bool-cases (y.opens now)) [
    | inr shut ↦ inl (ground arith)
    | inl open_ ↦ elim (Result-cases (y.exchange now false (stream_type_heartbeat ∷ []))) [
      | inr (e, failing) ↦ inl (ground arith)
      | inl ([], nothing) ↦ inr (ground arith)
      | inl (b ∷ rest, moved) ↦ absurd (polling now (stream_type_heartbeat ∷ []) b rest moved)
    ]
  ]

  miss-stops :
      (n : ℕ) (events : List Event)
      → n < 5
      → (n + 1 < 5 → drive true (running (n + 1)) events ≡ stopped)
      → drive true (if leb max_missed (n + 1) then stopped else running (n + 1)) events ≡ stopped
  unfolding drive
  miss-stops n events few later = elim (dec_lt (n + 1) 5) [
    | yes more ↦ let go : leb max_missed (n + 1) ≡ false = ground arith in rw go (later more)
    | no five ↦ let stop : leb max_missed (n + 1) ≡ true = ground arith in rw stop refl
  ]

  drive-counts :
      (n : ℕ) (events : List Event)
      → n < 5
      → AreBeats y events
      → 5 ≤ n + ticks events
      → drive true (running n) events ≡ stopped
  unfolding drive round
  drive-counts n [] few beats enough = absurd (omega arith)
  drive-counts n (inbound stream ∷ events) few beats enough = drive-counts n events few beats enough
  drive-counts n (inbound broken ∷ events) few beats enough = refl
  drive-counts n (inbound closed ∷ events) few beats enough = refl
  drive-counts n (command true ∷ events) few beats enough = drive-counts n events few beats enough
  drive-counts n (command false ∷ events) few beats enough = refl
  drive-counts n (tick b ∷ events) few ((now, at), beats) enough =
      let stops =
        miss-stops n events few (λ more. drive-counts (n + 1) events more beats (omega arith)) in
      elim (beat-missed now) [
        | inl missed ↦ rw (at ∙ missed) stops
        | inr missed ↦ rw (at ∙ missed) stops
      ]

  -- Where yamux moves nothing on a connection that is not polled, the driver of a client with
  -- heartbeats stops by its fifth heartbeat, whatever else happens and however alive the client is:
  -- none of them is answered.
  pub drive-gives_up :
      (events : List Event)
      → AreBeats y events
      → 5 ≤ ticks events
      → drive true (running 0) events ≡ stopped
  drive-gives_up events beats enough = drive-counts 0 events (omega arith) beats (omega arith)
