-- ===== src/Server/Tests/Basics.antt =====
-- Tokens, the rate limiter, the registry and the driver at concrete states.
use zo_tunnel.Prelude.{
  ℕ, ◌-◌, ◌≡◌, ◌↔◌, ◌⊎◌, ◌&&◌, refl, true, false, ok, some, List, [], ◌∷◌, min, All, length, Text,
  text, text_eq, text_eq_iff, lookup, arith, inl, if◌then◌else◌, IsScalar,
}
use zo_tunnel.Server.Clock.{second}
use zo_tunnel.Server.Config.{ServerConfig, default}
use zo_tunnel.Server.Config.Tokens.{IsSliceEq}
use zo_tunnel.Server.RateLimiter.{RateLimiter}
use zo_tunnel.Server.RateLimiter.Keys.{Requests, times_of, allowed_of}
use zo_tunnel.Server.RateLimiter.Limits.{allowed_of_window, IsBounded}
use zo_tunnel.Server.Registry.{register}
use zo_tunnel.Server.Registry.View.{view, answer, may_register, joined, view-register}
use zo_tunnel.Server.Streams.{Yamux, beat}
use zo_tunnel.Server.Streams.Heartbeats.{NeedsPolling, drive-gives_up}
use zo_tunnel.Server.Driver.{
  Driver, Event, drive, Beat, EndsSomewhere, FiveMissed, drive-stopped_iff,
}
use zo_tunnel.Server.Tests.Samples.{sample_registry, sample-IsWellFormed}

abbrev dashboard_config : ServerConfig
dashboard_config = record default {
  dashboard_auth = record { token = text "ad"; session_ttl_secs = 60 };
}

text_eq-IsSliceEq : IsSliceEq text_eq
text_eq-IsSliceEq a b e = text_eq_iff a b

ad-IsScalar : All IsScalar (text "ad")
ad-IsScalar = (inl (omega arith), (inl (omega arith), tt))

abbrev buffer : List ℕ
buffer = 171 ∷ 5 ∷ []

abbrev key : Text
key = text "api2"

abbrev two_a_second : RateLimiter
two_a_second = record { max_per_second = 2; counters = [] }

two-IsBounded : IsBounded two_a_second
unfolding lookup
two-IsBounded k c e = absurd (ground arith)

abbrev requests : Requests
requests = (key, 0) ∷ (text "other", 1) ∷ (key, 5) ∷ (key, second - 1) ∷ []

allowed_of_window_example :
    allowed_of key two_a_second requests ≡ min (length (times_of key requests)) 2
unfolding times_of lookup text_eq
allowed_of_window_example =
    allowed_of_window key two_a_second 0 (5 ∷ (second - 1) ∷ []) requests (omega arith) refl refl
      (omega arith, (omega arith, tt))

view-register_example :
    ((register (text "web") 8 false 9 sample_registry).0
      ≡ answer (text "web") (view sample_registry (text "web")) (length sample_registry.entries))
    × ((k : Text)
        → view (register (text "web") 8 false 9 sample_registry).1 k ≡ (
            if may_register (text "web") (view sample_registry (text "web"))
              && text_eq (text "web") k
            then some (joined (text "web") 8 false 9)
            else view sample_registry k))
view-register_example = view-register (text "web") 8 false 9 sample_registry sample-IsWellFormed

abbrev beats : List Event
beats = Event.tick Beat.failed ∷ Event.tick Beat.answered ∷ Event.tick Beat.timed_out ∷ []

drive-stopped_iff_example :
    (drive true (Driver.running 4) beats ≡ Driver.stopped)
    ↔ (EndsSomewhere beats ⊎ FiveMissed 4 beats)
drive-stopped_iff_example = drive-stopped_iff 4 beats (omega arith)

-- A client that echoes at once, as long as the connection is polled.
abbrev lively : Yamux
lively = record {
  opens = λ now. true;
  exchange = λ now polled bytes. if polled then ok bytes else ok [];
  closes = λ now. true;
}

lively-NeedsPolling : NeedsPolling lively
lively-NeedsPolling now bytes b rest e = ground arith

abbrev five : List Event
five =
    Event.tick (beat lively 15)
    ∷ Event.command true
    ∷ Event.tick (beat lively 30)
    ∷ Event.tick (beat lively 45)
    ∷ Event.tick (beat lively 60)
    ∷ Event.tick (beat lively 75)
    ∷ []

drive-gives_up_example : drive true (Driver.running 0) five ≡ Driver.stopped
drive-gives_up_example =
    drive-gives_up lively lively-NeedsPolling five
      ((15, refl), ((30, refl), ((45, refl), ((60, refl), ((75, refl), tt))))) (omega arith)
