-- ===== src/Server/Proxy/System.antt =====
-- Requests in flight between each other and between clients that come and go, in any order.
use zo_tunnel.Prelude.{
  ℕ, ◌≡◌, refl, Bool, none, some, List, [], ◌∷◌, inl, inr, ◌⊎◌, get_elem?, set, remove_at, Text,
  Option-cases, Bool-cases, arith,
}
use zo_tunnel.Server.Clock.{Instant, fetch_add}
use zo_tunnel.Server.Http.{Http, Request, Response}
use zo_tunnel.Server.RateLimiter.{check}
use zo_tunnel.Server.Registry.{Registry, register, unregister, get, update_metrics}
use zo_tunnel.Server.Proxy.{
  World, Flight, Outcome, Stage, begin, advance, enter, leave, find_client, limited, count_request,
  extract_routing,
}

-- The requests in flight, and those that hyper has dropped between two awaits, for which nothing
-- more runs.
pub record System : Type 0 where
  pub world : World
  pub flights : List Flight
  pub lost : List Flight

-- What the tasks of the server do between two awaits.
pub data Event : Type 0 where
  arrives : Request → Instant → Event
  proceeds : ℕ → Outcome → Event
  joins : Text → ℕ → Bool → Instant → Event
  departs : Text → Event
  dropped : ℕ → Event

abbrev pub on_registry : (Registry → Registry) → System → System
on_registry change s = record s { world = record s.world { registry = change s.world.registry } }

-- A new request: answered at once, or one more in flight.
abbrev pub take_off : System → (Response ⊎ Flight) × World → System
take_off s (inl response, w) = record s { world = w }
take_off s (inr f, w) = record s { world = w; flights = f ∷ s.flights }

-- A request that went on: answered, or still in flight.
abbrev pub go_on : System → ℕ → (Response ⊎ Flight) × World → System
go_on s i (inl response, w) = record s { world = w; flights = remove_at s.flights i }
go_on s i (inr f, w) = record s { world = w; flights = set s.flights i f }

unfoldable pub step : Http → Text → System → Event → System
step http domain s (arrives req now) = take_off s (begin http domain now req s.world)
step http domain s (proceeds i o) = elim (get_elem? s.flights i) [
  | none ↦ s
  | some f ↦ go_on s i (advance http f o s.world)
]
step http domain s (joins client_id handle hb now) =
    on_registry (λ r. (register client_id handle hb now r).1) s
step http domain s (departs client_id) = on_registry (unregister client_id) s
step http domain s (dropped i) = elim (get_elem? s.flights i) [
  | none ↦ s
  | some f ↦ record s { flights = remove_at s.flights i; lost = f ∷ s.lost }
]

unfoldable pub run : Http → Text → System → List Event → System
unfolding step
run http domain s [] = s
run http domain s (e ∷ events) = run http domain (step http domain s e) events

-- What `begin` does: it answers and leaves the gauges, or it counts the request in and holds the
-- place of the client that the registry has.
abbrev pub Begun : World → (Response ⊎ Flight) × World → Type 0
Begun w (inl response, w') =
    (w'.registry ≡ w.registry) × (w'.metrics.active_connections ≡ w.metrics.active_connections)
Begun w (inr f, w') =
    (get f.client_id w.registry ≡ some f.place)
    × (f.stage ≡ Stage.opening)
    × (w'.registry ≡ update_metrics f.place count_request w.registry)
    × (w'.metrics.active_connections ≡ fetch_add w.metrics.active_connections)

find_client-Begun :
    (req : Request) (client_id path : Text) (w : World) → Begun w (find_client req client_id path w)
unfolding find_client enter
find_client-Begun req client_id path w = elim (Option-cases (get client_id w.registry)) [
  | inl e ↦ rw (e, find_client) (refl, refl)
  | inr (place, e) ↦ rw (e, find_client) (e, refl, refl, refl)
]

limited-Begun :
    (req : Request) (client_id path : Text) (now : Instant) (w : World)
    → Begun w (limited req client_id path now w)
unfolding limited
limited-Begun req client_id path now w =
    let (allowed, rl) = check client_id now w.rate_limiter in
    elim (Bool-cases allowed) [
      | inl yes_ ↦
          rw (yes_, limited) (find_client-Begun req client_id path (record w { rate_limiter = rl }))
      | inr no_ ↦ rw (no_, limited) (refl, refl)
    ]

pub begin-Begun :
    (http : Http) (domain : Text) (now : Instant) (req : Request) (w : World)
    → Begun w (begin http domain now req w)
unfolding begin
begin-Begun http domain now req w =
    let w' : World = record w {
      metrics = record w.metrics { total_requests = fetch_add w.metrics.total_requests };
    } in
    elim (Option-cases (extract_routing http req domain)) [
      | inl e ↦ rw (e, begin) (refl, refl)
      | inr ((client_id, path), e) ↦ rw (e, begin) (limited-Begun req client_id path now w')
    ]

-- What `advance` does: it answers and counts the request out, or it goes on with the same place.
abbrev pub Advanced : Flight → World → (Response ⊎ Flight) × World → Type 0
Advanced f w (inl response, w') = w' ≡ leave f.place w
Advanced f w (inr f', w') = (f'.place ≡ f.place) × (w' ≡ w)

pub advance-Advanced :
    (http : Http) (f : Flight) (o : Outcome) (w : World) → Advanced f w (advance http f o w)
unfolding advance
advance-Advanced http f o w = ground arith
