-- ===== src/Server/Proxy.antt =====
-- proxy.rs: a public request on its way through a tunnel. The code between two awaits is one step;
-- what the awaited calls return is an argument.
pub mod Routing
pub mod System
pub mod Gauges
pub mod Balance
pub mod Answers
use zo_tunnel.Prelude.{
  ℕ, Bool, true, false, Option, none, some, List, [], ◌∷◌, ◌++◌, ◌⊎◌, inl, inr, is_empty, map, Text,
  text, Assoc, lookup, insert, first_piece, ends_with, strip_suffix, if◌then◌else◌,
}
use zo_tunnel.Server.Clock.{Instant, fetch_add, fetch_sub}
use zo_tunnel.Server.Http.{Http, Request, Response, header_str}
use zo_tunnel.Server.Metrics.{Metrics}
use zo_tunnel.Server.RateLimiter.{RateLimiter, check}
use zo_tunnel.Server.Registry.{
  ClientMetrics, ClientEntry, ClientInfo, Registry, get, entry_at, update_metrics, list,
}

-- The statuses of the error responses.
pub data Status : Type 0 where
  not_found too_many_requests internal_server_error bad_gateway service_unavailable : Status

abbrev pub as_u16 : Status → ℕ
as_u16 not_found = 404
as_u16 too_many_requests = 429
as_u16 internal_server_error = 500
as_u16 bad_gateway = 502
as_u16 service_unavailable = 503

abbrev status_text : Status → Text
status_text not_found = text "404"
status_text too_many_requests = text "429"
status_text internal_server_error = text "500"
status_text bad_gateway = text "502"
status_text service_unavailable = text "503"

-- The message stands in the JSON text as it is.
unfoldable pub error_response : Status → Text → Response
error_response status msg = record {
  status = as_u16 status;
  headers =
      (text "content-type", text "application/json") ∷ (text "x-powered-by", text "zo-tunnel") ∷ [];
  body =
      text "{\"error\":\"" ++ (msg ++ (text "\",\"status\":" ++ (status_text status ++ text "}")));
}

-- The decision of `extract_routing` on the host, which `tests` repeats as a function of its own.
unfoldable pub route_host : Text → Text → Text → Option (Text × Text)
route_host host path domain =
    let host_no_port = first_piece b':' host in
    let suffix = b'.' ∷ domain in
    if ends_with host_no_port suffix
    then elim (strip_suffix host_no_port suffix) [
      | none ↦ none
      | some client_id ↦ if is_empty client_id then none else some (client_id, path)
    ]
    else none

unfoldable pub extract_routing : Http → Request → Text → Option (Text × Text)
unfolding route_host
extract_routing http req domain = elim (header_str http (text "host") req.headers) [
  | none ↦ none
  | some host ↦ route_host host req.path domain
]

abbrev query_text : Option Text → Text
query_text none = []
query_text (some q) = text "?" ++ q

unfoldable pub build_forwarded_request : Http → Request → Text → Text → Option Request
build_forwarded_request http req path client_id =
    elim (http.parse_uri (path ++ query_text req.query)) [
      | none ↦ none
      | some (new_path, new_query) ↦
          let marked : Assoc (List ℕ) = elim (http.from_str client_id) [
            | none ↦ req.headers
            | some val ↦ insert (text "x-zo-tunnel-client") val req.headers
          ] in
          some (record req {
            headers = insert (text "connection") (text "close") marked;
            path = new_path;
            query = new_query;
          })
    ]

-- What the requests share.
pub record World : Type 0 where
  pub registry : Registry
  pub metrics : Metrics
  pub rate_limiter : RateLimiter

pub data Stage : Type 0 where
  opening marking handshaking : Stage
  sending : Request → Stage

-- A request between two awaits, with the place of the client that it holds.
pub record Flight : Type 0 where
  pub place : ℕ
  pub supports_heartbeat : Bool
  pub client_id : Text
  pub path : Text
  pub request : Request
  pub stage : Stage

abbrev join_ids : Text → List ClientInfo → Text
join_ids domain [] = []
join_ids domain (c ∷ []) = c.client_id ++ b'.' ∷ domain
join_ids domain (c ∷ d ∷ cs) =
    c.client_id ++ b'.' ∷ domain ++ (text ", " ++ join_ids domain (d ∷ cs))

-- The answer to a request for no subdomain of the domain.
unfoldable pub hint : Text → List ClientInfo → Response
hint domain [] = error_response service_unavailable (text "No tunnel clients connected")
hint domain (c ∷ cs) =
    error_response not_found
      (text "Invalid subdomain. Available tunnels: " ++ join_ids domain (c ∷ cs))

abbrev count_request : ClientMetrics → ClientMetrics
count_request m = record m {
  requests = fetch_add m.requests;
  active_streams = fetch_add m.active_streams;
}

abbrev count_end : ClientMetrics → ClientMetrics
count_end m = record m { active_streams = fetch_sub m.active_streams }

-- The counters of the client and of the server at the start of a forwarded request, and at its end.
unfoldable pub enter : ℕ → World → World
enter place w = record w {
  registry = update_metrics place count_request w.registry;
  metrics = record w.metrics { active_connections = fetch_add w.metrics.active_connections };
}

unfoldable pub leave : ℕ → World → World
leave place w = record w {
  registry = update_metrics place count_end w.registry;
  metrics = record w.metrics { active_connections = fetch_sub w.metrics.active_connections };
}

quoted : Text → Text → Text
quoted client_id what = text "Tunnel '" ++ (client_id ++ (text "' " ++ what))

-- From the lookup of the client up to the first await.
unfoldable pub find_client : Request → Text → Text → World → (Response ⊎ Flight) × World
unfolding quoted
find_client req client_id path w = elim (get client_id w.registry) [
  | none ↦ (inl (error_response bad_gateway (quoted client_id (text "not found or offline"))), w)
  | some place ↦
      let hb : Bool = elim (entry_at place w.registry) [
        | none ↦ false
        | some e ↦ e.supports_heartbeat
      ] in
      (
        inr (record {
          place = place;
          supports_heartbeat = hb;
          client_id = client_id;
          path = path;
          request = req;
          stage = opening;
        }),
        enter place w,
      )
]

-- The rate limit, and what stands behind it.
unfoldable pub limited : Request → Text → Text → Instant → World → (Response ⊎ Flight) × World
limited req client_id path now w =
    let (allowed, rl) = check client_id now w.rate_limiter in
    let w' : World = record w { rate_limiter = rl } in
    if allowed then find_client req client_id path w' else (
      inl (error_response too_many_requests (text "Rate limit exceeded")),
      record w' {
        metrics = record w'.metrics { rate_limited = fetch_add w'.metrics.rate_limited };
      },
    )

-- `handle_proxy_request` up to its first await: an answer, or a request in flight.
unfoldable pub begin : Http → Text → Instant → Request → World → (Response ⊎ Flight) × World
begin http domain now req w =
    let w' : World = record w {
      metrics = record w.metrics { total_requests = fetch_add w.metrics.total_requests };
    } in
    elim (extract_routing http req domain) [
      | none ↦ (inl (hint domain (list now w.registry)), w')
      | some (client_id, path) ↦ limited req client_id path now w'
    ]

-- What an awaited call returned; `response` is read where the forwarded request was sent.
pub record Outcome : Type 0 where
  pub passed : Bool
  pub response : Response

failing : Flight → Status → Text → World → (Response ⊎ Flight) × World
failing f status msg w = (inl (error_response status msg), leave f.place w)

-- `handle_proxy_request` from one await to the next.
unfoldable pub advance : Http → Flight → Outcome → World → (Response ⊎ Flight) × World
unfolding failing quoted
advance http f o w =
    let broken = quoted f.client_id (text "connection error") in
    elim f.stage [
      | opening ↦
          if o.passed
          then (inr (record f { stage = if f.supports_heartbeat then marking else handshaking }), w)
          else failing f bad_gateway broken w
      | marking ↦
          if o.passed
          then (inr (record f { stage = handshaking }), w)
          else failing f bad_gateway broken w
      | handshaking ↦
          if o.passed
          then elim (build_forwarded_request http f.request f.path f.client_id) [
            | none ↦ failing f internal_server_error (text "Request forwarding error") w
            | some forwarded ↦ (inr (record f { stage = sending forwarded }), w)
          ]
          else failing f bad_gateway (text "Tunnel HTTP handshake failed") w
      | sending forwarded ↦
          if o.passed
          then (inl o.response, leave f.place w)
          else failing f bad_gateway (quoted f.client_id (text "did not respond")) w
    ]

-- The awaits of a request, one after the other.
unfoldable pub drive :
    Http → List Outcome → (Response ⊎ Flight) × World → (Response ⊎ Flight) × World
drive http [] r = r
drive http (o ∷ outcomes) (inl response, w) = (inl response, w)
drive http (o ∷ outcomes) (inr f, w) = drive http outcomes (advance http f o w)

-- The whole of a request with nothing in between, on the outcomes of its awaits.
unfoldable pub handle_proxy_request :
    Http → Text → Instant → Request → List Outcome → World → (Response ⊎ Flight) × World
unfolding drive
handle_proxy_request http domain now req outcomes w =
    drive http outcomes (begin http domain now req w)
