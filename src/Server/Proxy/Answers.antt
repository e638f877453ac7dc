-- ===== src/Server/Proxy/Answers.antt =====
-- What a request comes to when all its awaits have returned.
use zo_tunnel.Prelude.{
  ℕ, suc, ◌^◌, ◌≤◌, ◌<◌, ◌≡◌, refl, ap, ◌∙◌, List, [], ◌∷◌, inl, inr, ◌⊎◌, length, Text, arith,
}
use zo_tunnel.Server.Clock.{Instant, fetch_add, fetch_sub}
use zo_tunnel.Server.Http.{Http, Request, Response}
use zo_tunnel.Server.Registry.{Registry}
use zo_tunnel.Server.Registry.Invariant.{IsWellFormed}
use zo_tunnel.Server.Proxy.{
  World, Stage, opening, marking, handshaking, sending, Flight, Outcome, begin, advance, leave,
  drive, handle_proxy_request, count_request, count_end,
}
use zo_tunnel.Server.Proxy.System.{Begun, begin-Begun}
use zo_tunnel.Server.Proxy.Gauges.{streams, streams-update, length-update}
use zo_tunnel.Server.Proxy.Balance.{get-lt}

-- How many awaits are left at most.
abbrev awaits : Stage → ℕ
awaits opening = 4
awaits marking = 3
awaits handshaking = 2
awaits (sending r) = 1

-- An await ends the request, or brings it on.
abbrev Nearer : Flight → World → (Response ⊎ Flight) × World → Type 0
Nearer f w (inl response, w') = w' ≡ leave f.place w
Nearer f w (inr f', w') = (f'.place ≡ f.place) × (w' ≡ w) × (awaits f'.stage < awaits f.stage)

advance-Nearer :
    (http : Http) (f : Flight) (o : Outcome) (w : World) → Nearer f w (advance http f o w)
unfolding advance
advance-Nearer http f o w = ground arith

drive-answered :
    (http : Http) (outcomes : List Outcome) (response : Response) (w : World)
    → drive http outcomes (inl response, w) ≡ (inl response, w)
unfolding drive
drive-answered http [] response w = refl
drive-answered http (o ∷ outcomes) response w = refl

abbrev Answers : Http → List Outcome → Flight → World → (Response ⊎ Flight) × World → Type 0
Answers http outcomes f w r =
    (response : Response) × (drive http outcomes r ≡ (inl response, leave f.place w))

after_await :
    (http : Http) (outcomes : List Outcome) (f : Flight) (w : World)
    (r : (Response ⊎ Flight) × World)
    → Nearer f w r
    → awaits f.stage ≤ suc (length outcomes)
    → ((g : Flight) (v : World)
        → awaits g.stage ≤ length outcomes
        → Answers http outcomes g v (inr g, v))
    → Answers http outcomes f w r
after_await http outcomes f w (inl response, w') b h later =
    (response, drive-answered http outcomes response w' ∙ ap (λ v. (inl response, v)) b)
after_await http outcomes f w (inr g, w') (same, b, near) h later =
    let (response, e) = later g w' (omega arith) in
    (
      response,
      e
          ∙ ap (λ (v : World). (inl response, leave g.place v)) b
          ∙ ap (λ place. (inl response, leave place w)) same,
    )

drive-Answers :
    (http : Http) (outcomes : List Outcome) (f : Flight) (w : World)
    → awaits f.stage ≤ length outcomes
    → Answers http outcomes f w (inr f, w)
unfolding drive
drive-Answers http [] f w h = elim (some_await f.stage h) [ ]
  where
    some_await : (stage : Stage) → awaits stage ≤ 0 → ⊥
    some_await opening h = omega arith
    some_await marking h = omega arith
    some_await handshaking h = omega arith
    some_await (sending r) h = omega arith
drive-Answers http (o ∷ outcomes) f w h =
    after_await http outcomes f w (advance http f o w) (advance-Nearer http f o w) h
      (drive-Answers http outcomes)

-- The gauges of two worlds agree.
pub record SameGauges (v w : World) : Type 0 where
  pub connections : v.metrics.active_connections ≡ w.metrics.active_connections
  pub streams_at : (p : ℕ) → streams v.registry p ≡ streams w.registry p

-- No gauge has wrapped round.
pub record IsNarrow (w : World) : Type 0 where
  pub connections : w.metrics.active_connections < 2 ^ 64
  pub streams_at : (p : ℕ) → streams w.registry p < 2 ^ 64

left-SameGauges :
    (w w' : World) (f : Flight)
    → IsWellFormed w.registry
    → IsNarrow w
    → Begun w (inr f, w')
    → SameGauges (leave f.place w') w
unfolding leave
left-SameGauges w w' f h narrow (held, stage, counted, gauge) =
    let lt = get-lt w.registry f.client_id f.place h held in
    let len : length w'.registry.entries ≡ length w.registry.entries =
      ap (λ (r : Registry). length r.entries) counted
      ∙ length-update f.place count_request w.registry in
    record {
      connections = omega (arith, narrow.connections);
      streams_at = λ p. ground (
        arith,
        streams-update count_end fetch_sub (λ m. refl) w'.registry f.place p (rw len lt),
        ap (λ r. streams r p) counted,
        streams-update count_request fetch_add (λ m. refl) w.registry f.place p lt,
        narrow.streams_at p,
      );
    }

Begun-answers :
    (http : Http) (outcomes : List Outcome) (w : World) (r : (Response ⊎ Flight) × World)
    → IsWellFormed w.registry
    → IsNarrow w
    → 4 ≤ length outcomes
    → Begun w r
    → (response : Response) × (w' : World) × (drive http outcomes r ≡ (inl response, w'))
      × SameGauges w' w
Begun-answers http outcomes w (inl response, w') h narrow enough (same, gauge) = (
  response,
  w',
  drive-answered http outcomes response w',
  record { connections = gauge; streams_at = λ p. ap (λ r. streams r p) same },
)
Begun-answers http outcomes w (inr f, w') h narrow enough b =
    let four : awaits f.stage ≡ 4 = ap awaits b.1 in
    let (response, e) = drive-Answers http outcomes f w' (omega arith) in
    (response, leave f.place w', e, left-SameGauges w w' f h narrow b)

-- On a well-formed registry, with gauges below 2 ^ 64 and nothing in between, a request gets its
-- answer after four awaits at most, whatever these return, and every gauge then reads what it read
-- before: each way out of the handler undoes what the way in has counted.
pub handle_proxy_request_answers :
    (http : Http) (domain : Text) (now : Instant) (req : Request) (outcomes : List Outcome)
    (w : World)
    → IsWellFormed w.registry
    → IsNarrow w
    → 4 ≤ length outcomes
    → (response : Response) × (w' : World) × (handle_proxy_request http domain now req outcomes w
        ≡ (inl response, w'))
      × SameGauges w' w
unfolding handle_proxy_request
handle_proxy_request_answers http domain now req outcomes w h narrow enough =
    Begun-answers http outcomes w (begin http domain now req w) h narrow enough
      (begin-Begun http domain now req w)
