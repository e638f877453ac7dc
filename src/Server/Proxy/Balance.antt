-- ===== src/Server/Proxy/Balance.antt =====
-- The gauges beside the requests in flight, through every event.
use zo_tunnel.Prelude.{
  ℕ, zero, suc, ◌+◌, ◌%◌, ◌^◌, ◌≤◌, ◌<◌, ◌≡◌, refl, sym, ap, ◌∙◌, subst, Bool, some, List, [], ◌∷◌,
  ◌++◌, inl, inr, ◌⊎◌, length, length-append, length-set, length-remove_at, get_elem?, get_elem?-lt,
  set, remove_at, All, All-get_elem?, All-remove_at, All-set, Text, lookup, Option-cases,
  Bool-cases, arith, Every-lookup,
}
use zo_tunnel.Server.Clock.{Instant, fetch_add, fetch_sub}
use zo_tunnel.Server.Config.{is_reserved}
use zo_tunnel.Server.Http.{Http, Response}
use zo_tunnel.Server.Registry.{ClientEntry, Registry, register, unregister, get}
use zo_tunnel.Server.Registry.Invariant.{
  IsHeld, IsWellFormed, register-IsWellFormed, unregister-IsWellFormed, update_metrics-IsWellFormed,
}
use zo_tunnel.Server.Proxy.{World, Flight, begin, advance, leave, count_request, count_end}
use zo_tunnel.Server.Proxy.System.{
  System, Event, arrives, proceeds, joins, departs, dropped, take_off, go_on, step, run, Begun,
  begin-Begun, Advanced, advance-Advanced,
}
use zo_tunnel.Server.Proxy.Gauges.{
  aboard, aboard-remove_at, aboard-set, streams, streams-update, length-update,
}

pub record IsBalanced (s : System) : Type 0 where
  pub registry : IsWellFormed s.world.registry
  pub placed : All (λ f. f.place < length s.world.registry.entries) s.flights
  pub connections : s.world.metrics.active_connections ≡ (length s.flights + length s.lost) % 2 ^ 64
  pub streams_at :
      (p : ℕ) → streams s.world.registry p ≡ (aboard p s.flights + aboard p s.lost) % 2 ^ 64

-- A client's place is one of the registry's.
pub get-lt :
    (r : Registry) (k : Text) (place : ℕ)
    → IsWellFormed r
    → get k r ≡ some place
    → place < length r.entries
unfolding get
get-lt r k place h e =
    let (_, (f, at, _)) = Every-lookup (IsHeld r.entries) k place r.clients h.held e in
    get_elem?-lt r.entries place f at

placed_mono :
    (m n : ℕ) (fs : List Flight) → m ≤ n → All (λ f. f.place < m) fs → All (λ f. f.place < n) fs
placed_mono m n [] le h = tt
placed_mono m n (f ∷ fs) le (h, hs) = (omega arith, placed_mono m n fs le hs)

module _ (w : World) (flights lost : List Flight)
    (h : IsBalanced (record { world = w; flights = flights; lost = lost })) where
  -- A request that is answered at once.
  grounded-IsBalanced :
      (response : Response) (w' : World)
      → Begun w (inl response, w')
      → IsBalanced (record { world = w'; flights = flights; lost = lost })
  grounded-IsBalanced response w' (same, gauge) = record {
    registry = subst IsWellFormed (sym same) h.registry;
    placed =
        subst (λ (r : Registry). All (λ f. f.place < length r.entries) flights) (sym same) h.placed;
    connections = gauge ∙ h.connections;
    streams_at = λ p. ap (λ r. streams r p) same ∙ h.streams_at p;
  }

  took_off-IsBalanced :
      (f : Flight) (w' : World)
      → Begun w (inr f, w')
      → IsBalanced (record { world = w'; flights = f ∷ flights; lost = lost })
  unfolding aboard
  took_off-IsBalanced f w' (held, stage, counted, gauge) =
      let lt = get-lt w.registry f.client_id f.place h.registry held in
      let len : length w'.registry.entries ≡ length w.registry.entries =
        ap (λ (r : Registry). length r.entries) counted
        ∙ length-update f.place count_request w.registry in
      record {
        registry =
            subst IsWellFormed (sym counted)
              (update_metrics-IsWellFormed f.place count_request w.registry h.registry);
        placed = (omega arith, subst (λ n. All (λ g. g.place < n) flights) (sym len) h.placed);
        connections = omega (arith, h.connections);
        streams_at = λ p.
            ap (λ r. streams r p) counted
            ∙ ground (
              arith,
              streams-update count_request fetch_add (λ m. refl) w.registry f.place p lt,
              h.streams_at p,
            );
      }

  module _ (i : ℕ) (f : Flight) (at : get_elem? flights i ≡ some f) where
    landed-IsBalanced :
        IsBalanced (record { world = leave f.place w; flights = remove_at flights i; lost = lost })
    unfolding leave
    landed-IsBalanced =
        let lt = All-get_elem? (λ g. g.place < length w.registry.entries) flights i f h.placed at in
        record {
          registry = update_metrics-IsWellFormed f.place count_end w.registry h.registry;
          placed =
              rw (length-update f.place count_end w.registry)
                (All-remove_at (λ g. g.place < length w.registry.entries) flights i h.placed);
          connections = omega (arith, h.connections, length-remove_at flights i f at);
          streams_at = λ p. ground (
            arith,
            streams-update count_end fetch_sub (λ m. refl) w.registry f.place p lt,
            h.streams_at p,
            aboard-remove_at p i flights f at,
          );
        }

    kept-IsBalanced :
        (f' : Flight)
        → f'.place ≡ f.place
        → IsBalanced (record { world = w; flights = set flights i f'; lost = lost })
    kept-IsBalanced f' same =
        let lt = All-get_elem? (λ g. g.place < length w.registry.entries) flights i f h.placed at in
        record {
          registry = h.registry;
          placed =
              All-set (λ g. g.place < length w.registry.entries) flights i f' (rw same lt) h.placed;
          connections = rw (length-set flights i f') h.connections;
          streams_at = λ p.
              h.streams_at p
              ∙ ap (λ n. (n + aboard p lost) % 2 ^ 64) (sym (aboard-set p i flights f f' at same));
        }

    -- A request that hyper drops: it is counted as before.
    dropped-IsBalanced :
        IsBalanced (record { world = w; flights = remove_at flights i; lost = f ∷ lost })
    unfolding aboard
    dropped-IsBalanced = record {
      registry = h.registry;
      placed = All-remove_at (λ g. g.place < length w.registry.entries) flights i h.placed;
      connections = omega (arith, h.connections, length-remove_at flights i f at);
      streams_at = λ p. ground (arith, h.streams_at p, aboard-remove_at p i flights f at);
    }

-- A new entry counts nothing.
streams-joined :
    (entries : List ClientEntry) (e : ClientEntry) (p : ℕ) (clients : List (Text × ℕ))
    (m : List (Text × ℕ))
    → e.metrics.active_streams ≡ 0
    → streams (record { clients = clients; entries = entries ++ e ∷ [] }) p
      ≡ streams (record { clients = m; entries = entries }) p
unfolding streams
streams-joined [] e zero clients m z = z
streams-joined [] e (suc p) clients m z = refl
streams-joined (x ∷ entries) e zero clients m z = refl
streams-joined (x ∷ entries) e (suc p) clients m z = streams-joined entries e p clients m z

register-streams :
    (client_id : Text) (handle : ℕ) (hb : Bool) (now : Instant) (r : Registry)
    → let r' = (register client_id handle hb now r).1 in
      ((p : ℕ) → streams r' p ≡ streams r p) × (length r.entries ≤ length r'.entries)
unfolding register
register-streams client_id handle hb now r = elim (Bool-cases (is_reserved client_id)) [
  | inl taken ↦ rw (taken, register) (λ p. refl, omega arith)
  | inr free ↦ elim (Option-cases (lookup client_id r.clients)) [
    | inr (place, e) ↦ rw (free, e, register) (λ p. refl, omega arith)
    | inl e ↦
        rw (free, e, register)
          (
            λ p. streams-joined r.entries _ p _ r.clients refl,
            omega (arith, length-append r.entries (_ ∷ [])),
          )
  ]
]

step-IsBalanced :
    (http : Http) (domain : Text) (s : System) (e : Event)
    → IsBalanced s
    → IsBalanced (step http domain s e)
unfolding step
step-IsBalanced http domain s (arrives req now) h =
    go (begin http domain now req s.world) (begin-Begun http domain now req s.world)
  where
    go : (r : (Response ⊎ Flight) × World) → Begun s.world r → IsBalanced (take_off s r)
    go (inl response, w') b = grounded-IsBalanced s.world s.flights s.lost h response w' b
    go (inr f, w') b = took_off-IsBalanced s.world s.flights s.lost h f w' b
step-IsBalanced http domain s (proceeds i o) h = elim (Option-cases (get_elem? s.flights i)) [
  | inl e ↦ rw (e, step) h
  | inr (f, e) ↦
      rw (e, step) (go f e (advance http f o s.world) (advance-Advanced http f o s.world))
]
  where
    go :
        (f : Flight)
        → get_elem? s.flights i ≡ some f
        → (r : (Response ⊎ Flight) × World) → Advanced f s.world r
        → IsBalanced (go_on s i r)
    go f e (inl response, w') b =
        subst
          (λ w. IsBalanced (record { world = w; flights = remove_at s.flights i; lost = s.lost }))
          (sym b) (landed-IsBalanced s.world s.flights s.lost h i f e)
    go f e (inr f', w') (same, b) =
        subst (λ w. IsBalanced (record { world = w; flights = set s.flights i f'; lost = s.lost }))
          (sym b) (kept-IsBalanced s.world s.flights s.lost h i f e f' same)
step-IsBalanced http domain s (joins client_id handle hb now) h =
    let (same, longer) = register-streams client_id handle hb now s.world.registry in
    record {
      registry = register-IsWellFormed client_id handle hb now s.world.registry h.registry;
      placed = placed_mono _ _ s.flights longer h.placed;
      connections = h.connections;
      streams_at = λ p. same p ∙ h.streams_at p;
    }
step-IsBalanced http domain s (departs client_id) h = record {
  registry = unregister-IsWellFormed client_id s.world.registry h.registry;
  placed = unfold unregister in h.placed;
  connections = h.connections;
  streams_at = unfold unregister streams in h.streams_at;
}
step-IsBalanced http domain s (dropped i) h = elim (Option-cases (get_elem? s.flights i)) [
  | inl e ↦ rw (e, step) h
  | inr (f, e) ↦ rw (e, step) (dropped-IsBalanced s.world s.flights s.lost h i f e)
]

-- From a balanced state, whatever happens in whatever order: `active_connections` is the number of
-- requests in flight and of those that hyper has dropped between two awaits, and the
-- `active_streams` of each client that of its own, both modulo 2 ^ 64, and the registry stays
-- well-formed.
pub run-IsBalanced :
    (http : Http) (domain : Text) (s : System) (events : List Event)
    → IsBalanced s
    → IsBalanced (run http domain s events)
unfolding run
run-IsBalanced http domain s [] h = h
run-IsBalanced http domain s (e ∷ events) h =
    run-IsBalanced http domain (step http domain s e) events (step-IsBalanced http domain s e h)
