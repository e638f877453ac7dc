-- ===== src/Server/Tests/Clients.antt =====
-- Control connections: clients that are admitted, refused and welcomed in vain.
use zo_tunnel.Prelude.{
  ℕ, ◌≡◌, refl, true, false, none, some, List, [], ◌∷◌, ◌++◌, ok, Text, text, text_eq, length,
  lookup, if◌then◌else◌,
}
use zo_tunnel.Protocol.{Message, AuthReq, supports_heartbeat, try_from}
use zo_tunnel.Protocol.Stream.{Stream, read_exact, write_all}
use zo_tunnel.Protocol.Codec.{
  encode_payload, decode, write_message, read_message, check_header, check_length, read_payload,
}
use zo_tunnel.Protocol.Samples.{sample_wire}
use zo_tunnel.Server.Config.{validate_token, is_reserved}
use zo_tunnel.Server.Registry.{register}
use zo_tunnel.Server.Registry.View.{view, joined}
use zo_tunnel.Server.Session.{
  Control, Serving, welcome_message, start, authenticate, welcome, enrol,
}
use zo_tunnel.Server.Session.Admission.{start-serving}
use zo_tunnel.Server.Session.Ownership.{Sessions, Event, IsOwned, run, run-IsOwned}
use zo_tunnel.Server.Tests.Samples.{
  sample_config, sample_registry, sample-IsWellFormed, sample_metrics,
}

abbrev asks : Text → Text → AuthReq
asks client_id token = record { client_id = client_id; token = token; version = none }

-- The stream of a client that sends its first message, `n` bytes behind the header, and no more.
abbrev stream_of : ℕ → AuthReq → Stream
stream_of n auth = record {
  incoming =
      1
      ∷ 1
      ∷ 0
      ∷ 0
      ∷ 0
      ∷ n
      ∷ length auth.client_id
      ∷ length auth.token
      ∷ (auth.client_id ++ auth.token);
  outgoing = [];
  writable = true;
}

abbrev control_of : ℕ → AuthReq → Control
control_of n auth = record {
  stream = stream_of n auth;
  registry = sample_registry;
  metrics = sample_metrics;
}

abbrev web : AuthReq
web = asks (text "web") (text "secret")

abbrev served : Control
served = (start sample_wire sample_config 8 9 true (control_of 11 web)).1

abbrev web_serving : Serving
web_serving = record { client_id = text "web"; place = 1 }

web-served :
    start sample_wire sample_config 8 9 true (control_of 11 web) ≡ (ok (some web_serving), served)
unfolding start authenticate welcome enrol register read_message read_exact check_header
    check_length read_payload decode try_from validate_token text_eq is_reserved lookup
    write_message encode_payload write_all
web-served = refl

start-serving_example :
    (true ≡ true)
    × ((auth : AuthReq) × ((read_message sample_wire (stream_of 11 web)).0
          ≡ ok (Message.auth_req auth))
        × (validate_token sample_config auth.token ≡ true)
        × (is_reserved auth.client_id ≡ false)
        × (view sample_registry auth.client_id ≡ none)
        × (text "web" ≡ auth.client_id)
        × (write_message sample_wire
              (Message.auth_res (welcome_message sample_config auth.client_id))
              (read_message sample_wire (stream_of 11 web)).1
            ≡ (ok tt, served.stream))
        × ((k : Text)
            → view served.registry k ≡ (
                if text_eq auth.client_id k
                then some (joined auth.client_id 8 (supports_heartbeat auth) 9)
                else view sample_registry k))
        × (served.metrics ≡ sample_metrics))
start-serving_example =
    start-serving sample_wire sample_config 8 9 true (control_of 11 web) served web_serving
      sample-IsWellFormed web-served

abbrev stranger : AuthReq
stranger = asks (text "web") (text "wrong!")

abbrev read_from : ℕ → AuthReq → Stream
read_from n auth = (read_message sample_wire (stream_of n auth)).1

abbrev sent_to : AuthReq → Message → Stream
sent_to auth m =
    (write_message sample_wire m (record { incoming = []; outgoing = []; writable = true })).1

abbrev taken : AuthReq
taken = asks (text "api2") (text "secret")

abbrev one_served : Sessions
one_served = record {
  registry = sample_registry;
  metrics = sample_metrics;
  serving = record { client_id = text "api2"; place = 0 } ∷ [];
}

one-IsOwned : IsOwned one_served
one-IsOwned = record { same = λ k. refl; distinct = (tt, tt) }

abbrev comings : List Event
comings =
    Event.connects 8 9 true (stream_of 11 web)
    ∷ Event.connects 9 9 true (stream_of 12 taken)
    ∷ Event.ends 1
    ∷ []

run-IsOwned_example : IsOwned (run sample_wire sample_config one_served comings)
run-IsOwned_example = run-IsOwned sample_wire sample_config one_served comings one-IsOwned
