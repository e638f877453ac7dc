-- ===== src/Server/Dispatch/Reach.antt =====
-- Who answers a request: the dashboard for its own host, and a registered client for its host.
use zo_tunnel.Prelude.{
  ℕ, ◌≡◌, ◌≢◌, ◌⊎◌, refl, sym, ap, ◌∙◌, Bool, true, false, none, some, [], ◌∷◌, ◌++◌, Text, text,
  text_eq, text_eq_iff, first_piece, strip_suffix, strip_suffix-append, arith, inl, inr,
  Every-lookup, get_elem?, set, Bool-cases, ◌+◌, ◌%◌, ◌^◌,
}
use zo_tunnel.Server.Clock.{Instant, fetch_add}
use zo_tunnel.Server.Config.{is_reserved}
use zo_tunnel.Server.Http.{Http, Request, Response, header_str}
use zo_tunnel.Server.RateLimiter.{check}
use zo_tunnel.Server.Registry.{ClientEntry, Registry, get, entry_at, update_metrics}
use zo_tunnel.Server.Registry.Invariant.{IsHeld, IsWellFormed}
use zo_tunnel.Server.Proxy.{
  World, Flight, Stage, Status, begin, limited, find_client, extract_routing, enter, error_response,
}
use zo_tunnel.Server.Proxy.Routing.{route_host_iff}
use zo_tunnel.Server.Dispatch.{Served, host_no_port, serve_http}

-- A registered client is not called `dashboard`.
registered-free :
    (client_id : Text) (place : ℕ) (r : Registry)
    → IsWellFormed r
    → get client_id r ≡ some place
    → is_reserved client_id ≡ false
unfolding get
registered-free client_id place r h e =
    (Every-lookup (IsHeld r.entries) client_id place r.clients h.held e).0

dashboard-reserved : is_reserved (text "dashboard") ≡ true
unfolding is_reserved text_eq
dashboard-reserved = refl

not-dashboard :
    (client_id domain : Text)
    → is_reserved client_id ≡ false
    → client_id ++ b'.' ∷ domain ≢ text "dashboard." ++ domain
not-dashboard client_id domain free e =
    let one = strip_suffix-append client_id (b'.' ∷ domain) in
    let two = strip_suffix-append (text "dashboard") (b'.' ∷ domain) in
    let same : some client_id ≡ some (text "dashboard") =
      sym one ∙ ap (λ t. strip_suffix t (b'.' ∷ domain)) e ∙ two in
    ground (arith, dashboard-reserved)

-- A registered client has an entry at its place.
entry-held :
    (client_id : Text) (place : ℕ) (r : Registry)
    → IsWellFormed r
    → get client_id r ≡ some place
    → (e : ClientEntry) × (get_elem? r.entries place ≡ some e)
unfolding get
entry-held client_id place r h there =
    let (_, (e, at, _)) = Every-lookup (IsHeld r.entries) client_id place r.clients h.held there in
    (e, at)

module _ (http : Http) (domain : Text) (now : Instant) (req : Request) (w : World) where
  -- The request goes through the proxy: it is in flight to the client at a place, with its path as it
  -- was, and one more in the counters of that client and of the server, and in no other.
  abbrev pub GoesTo : Text → ℕ → Type 0
  GoesTo client_id place =
      (e : ClientEntry) × (f : Flight) × (w' : World) × (get_elem? w.registry.entries place
        ≡ some e)
      × (serve_http http domain now req w ≡ Served.proxied (inr f, w'))
      × (f ≡ record {
        place = place;
        supports_heartbeat = e.supports_heartbeat;
        client_id = client_id;
        path = req.path;
        request = req;
        stage = Stage.opening;
      })
      × (w'.registry ≡ record w.registry {
        entries = set w.registry.entries place (record e {
          metrics = record e.metrics {
            requests = (e.metrics.requests + 1) % 2 ^ 64;
            active_streams = (e.metrics.active_streams + 1) % 2 ^ 64;
          };
        });
      })
      × (w'.metrics ≡ record w.metrics {
        total_requests = (w.metrics.total_requests + 1) % 2 ^ 64;
        active_connections = (w.metrics.active_connections + 1) % 2 ^ 64;
      })

  -- The proxy answers 429: the request is counted as one that was limited, and nowhere in flight.
  abbrev pub IsLimited : Type 0
  IsLimited =
      (response : Response) × (w' : World) × (serve_http http domain now req w
        ≡ Served.proxied (inl response, w'))
      × (response.status ≡ 429)
      × (w'.registry ≡ w.registry)
      × (w'.metrics ≡ record w.metrics {
        total_requests = (w.metrics.total_requests + 1) % 2 ^ 64;
        rate_limited = (w.metrics.rate_limited + 1) % 2 ^ 64;
      })

  -- What becomes of a request to a client, by the rate limit.
  abbrev pub Arrives : Text → ℕ → Type 0
  Arrives client_id place =
      (((check client_id now w.rate_limiter).0 ≡ true) × GoesTo client_id place)
      ⊎ (((check client_id now w.rate_limiter).0 ≡ false) × IsLimited)

  -- On a well-formed registry, a request whose host names a registered client with a name that is not
  -- empty, for any path but that of the certificate check, goes through the proxy and not to the
  -- dashboard. Within the rate limit it is in flight to the place of that client, with its path as it
  -- was, and one more in the counters of that client and of the server; above the limit it is
  -- answered 429 and counted as limited only.
  pub serve_http-reaches :
      (host client_id : Text) (place : ℕ)
      → IsWellFormed w.registry
      → get client_id w.registry ≡ some place
      → client_id ≢ []
      → header_str http (text "host") req.headers ≡ some host
      → first_piece b':' host ≡ client_id ++ b'.' ∷ domain
      → req.path ≢ text "/api/tls-check"
      → Arrives client_id place
  unfolding serve_http host_no_port begin extract_routing limited find_client enter update_metrics
      entry_at error_response
  serve_http-reaches host client_id place h there ne hosted named other =
      let route : extract_routing http req domain ≡ some (client_id, req.path) =
        rw (hosted, extract_routing)
          ((route_host_iff host req.path domain client_id req.path).1 (named, ne, refl)) in
      let not_check : text_eq req.path (text "/api/tls-check") ≡ false =
        ground (arith, text_eq_iff req.path (text "/api/tls-check")) in
      let not_own : text_eq (host_no_port http req) (text "dashboard." ++ domain) ≡ false = ground (
        arith,
        text_eq_iff (first_piece b':' host) (text "dashboard." ++ domain),
        not-dashboard client_id domain (registered-free client_id place w.registry h there),
      ) in
      let (e, at) = entry-held client_id place w.registry h there in
      let asked : World = record w {
        metrics = record w.metrics { total_requests = fetch_add w.metrics.total_requests };
        rate_limiter = (check client_id now w.rate_limiter).1;
      } in
      let over_limit : World = record asked {
        metrics = record asked.metrics { rate_limited = fetch_add asked.metrics.rate_limited };
      } in
      let hb : Bool = elim (entry_at place w.registry) [
        | none ↦ false
        | some e ↦ e.supports_heartbeat
      ] in
      let flight : Flight = record {
        place = place;
        supports_heartbeat = hb;
        client_id = client_id;
        path = req.path;
        request = req;
        stage = Stage.opening;
      } in
      elim (Bool-cases (check client_id now w.rate_limiter).0) [
        | inl allowed ↦ inl (
          allowed,
          (
            e,
            flight,
            enter place asked,
            at,
            rw (not_check, serve_http)
                (rw not_own
                  (rw (route, begin) (rw (allowed, limited) (rw (there, find_client) refl)))),
            ground (arith, at),
            ground (arith, at),
            refl,
          ),
        )
        | inr over ↦ inr (
          over,
          (
            error_response Status.too_many_requests (text "Rate limit exceeded"),
            over_limit,
            rw (not_check, serve_http) (rw not_own (rw (route, begin) (rw (over, limited) refl))),
            refl,
            refl,
            refl,
          ),
        )
      ]

  -- The host of the dashboard, and the path of the certificate check on any host, are the dashboard's.
  pub serve_http-dashboard :
      (host_no_port http req ≡ text "dashboard." ++ domain) ⊎ (req.path ≡ text "/api/tls-check")
      → serve_http http domain now req w ≡ Served.dashboard req
  unfolding serve_http
  serve_http-dashboard (inl e) =
      ground (arith, text_eq_iff (host_no_port http req) (text "dashboard." ++ domain))
  serve_http-dashboard (inr e) = ground (arith, text_eq_iff req.path (text "/api/tls-check"))
