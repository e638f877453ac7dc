-- ===== src/Server/Tests/Requests.antt =====
-- Requests through the proxy, and who answers them.
use zo_tunnel.Prelude.{
  ℕ, zero, suc, ◌≡◌, ◌≢◌, refl, true, List, [], ◌∷◌, Text, text, text_eq, lookup, Lacks,
  first_piece, split, arith, inl,
}
use zo_tunnel.Server.Http.{Response, header_str}
use zo_tunnel.Server.Registry.{get}
use zo_tunnel.Server.Proxy.{World, Outcome, error_response, Status, handle_proxy_request}
use zo_tunnel.Server.Proxy.System.{System, Event, run}
use zo_tunnel.Server.Proxy.Gauges.{aboard, streams}
use zo_tunnel.Server.Proxy.Balance.{IsBalanced, run-IsBalanced}
use zo_tunnel.Server.Proxy.Answers.{SameGauges, IsNarrow, handle_proxy_request_answers}
use zo_tunnel.Server.Dispatch.Reach.{Arrives, serve_http-reaches}
use zo_tunnel.Server.Tests.Samples.{
  sample_http, sample_registry, sample-IsWellFormed, sample_world, sample_request,
}

abbrev host : Text
host = text "api2.t.io:443"

api2-some : text "api2" ≢ []
api2-some e = ground arith

api2-Lacks : Lacks b':' (text "api2")
api2-Lacks = ground arith

domain-Lacks : Lacks b':' (text "t.io")
domain-Lacks = ground arith

abbrev idle : System
idle = record { world = sample_world; flights = []; lost = [] }

idle-streams : (p : ℕ) → streams sample_registry p ≡ 0
unfolding streams
idle-streams zero = refl
idle-streams (suc p) = refl

idle-IsBalanced : IsBalanced idle
unfolding aboard
idle-IsBalanced = record {
  registry = sample-IsWellFormed;
  placed = tt;
  connections = refl;
  streams_at = idle-streams;
}

abbrev passed : Outcome
passed = record { passed = true; response = error_response Status.not_found (text "none") }

abbrev busy : List Event
busy =
    Event.arrives sample_request 5
    ∷ Event.proceeds 0 passed
    ∷ Event.departs (text "api2")
    ∷ Event.joins (text "api2") 9 true 6
    ∷ Event.arrives sample_request 7
    ∷ Event.proceeds 1 passed
    ∷ Event.dropped 0
    ∷ []

run-IsBalanced_example : IsBalanced (run sample_http (text "t.io") idle busy)
run-IsBalanced_example = run-IsBalanced sample_http (text "t.io") idle busy idle-IsBalanced

idle-IsNarrow : IsNarrow sample_world
idle-IsNarrow = record {
  connections = omega arith;
  streams_at = λ p. omega (arith, idle-streams p);
}

abbrev four : List Outcome
four = passed ∷ passed ∷ passed ∷ passed ∷ []

handle_proxy_request_answers_example :
    (response : Response) × (w' : World) × (handle_proxy_request sample_http
        (text "t.io")
        5
        sample_request
        four
        sample_world
      ≡ (inl response, w'))
    × SameGauges w' sample_world
handle_proxy_request_answers_example =
    handle_proxy_request_answers sample_http (text "t.io") 5 sample_request four sample_world
      sample-IsWellFormed idle-IsNarrow (omega arith)

serve_http-reaches_example :
    Arrives sample_http (text "t.io") 5 sample_request sample_world (text "api2") 0
unfolding get lookup text_eq header_str first_piece split
serve_http-reaches_example =
    serve_http-reaches sample_http (text "t.io") 5 sample_request sample_world host (text "api2") 0
      sample-IsWellFormed refl api2-some refl refl (λ e. ground arith)
