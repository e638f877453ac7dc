-- ===== src/Client/Tests/Sessions.antt =====
-- The theorems about a client's session at concrete connections.
use zo_tunnel.Prelude.{
  ◌≡◌, ◌⊎◌, refl, true, false, ◌&&◌, some, [], ◌∷◌, ◌++◌, ok, err, Text, text, text_eq, arith,
  if◌then◌else◌,
}
use zo_tunnel.Protocol.{Message, AuthRes}
use zo_tunnel.Protocol.Stream.{Stream}
use zo_tunnel.Protocol.Codec.{read_message, write_message}
use zo_tunnel.Protocol.Delivery.{arriving}
use zo_tunnel.Protocol.Samples.{sample_wire, sample_laws, auth_req-Fits, auth_res-Fits}
use zo_tunnel.Server.Config.{validate_token}
use zo_tunnel.Server.Registry.View.{view, joined, may_register}
use zo_tunnel.Server.Session.{Control, denial, welcome_message}
use zo_tunnel.Server.Tests.Samples.{
  sample_config, sample_registry, sample-IsWellFormed, sample_metrics,
}
use zo_tunnel.Client.Session.{
  Client, Network, webpki_roots, Shown, RunError, TunnelStatus, refused, auth_req, route_prefix,
  tunnel_url, open_stream, display, run_cancellable, Local, forwarded,
}
use zo_tunnel.Client.Session.Handshake.{meet, served, meet_lem}
use zo_tunnel.Client.Session.Streams.{proxied, proxied_lem}
use zo_tunnel.Client.Session.Outcomes.{server_name_of, open_stream-tls, run_cancellable-ends}

abbrev web : Client
web = record {
  server_addr = text "t.io:7835";
  local_addr = text ":3000";
  client_id = text "web";
  token = text "secret";
  tls_config = record { enabled = true; server_name = []; skip_verify = false };
}

abbrev control : Control
control = record {
  stream = arriving [] [] true;
  registry = sample_registry;
  metrics = sample_metrics;
}

meet_lem_example :
    let met = meet sample_wire (text "1.0") sample_config 9 0 web control in
    let valid = validate_token sample_config (text "secret") in
    let may = may_register (text "web") (view sample_registry (text "web")) in
    (met.client ≡ (if valid then ok tt else err (refused (text "Invalid token"))))
    × (met.status ≡ (
        if valid
        then TunnelStatus.connected (text "http://web.t.io") 0
        else TunnelStatus.connecting))
    × (met.server ≡ ok (served (text "web") 1 (valid && may)))
    × ((k : Text)
        → view met.registry k ≡ (
            if (valid && may) && text_eq (text "web") k
            then some (joined (text "web") 9 true 0)
            else view sample_registry k))
meet_lem_example =
    meet_lem sample_wire sample_laws (text "1.0") sample_config 9 0 web
      (auth_req-Fits (auth_req (text "1.0") web) (omega arith))
      (auth_res-Fits (welcome_message sample_config (text "web")) (omega arith))
      (auth_res-Fits denial (omega arith)) control sample-IsWellFormed

abbrev echo : Local
echo addr = some (λ b. b)

-- A request whose first byte is that of a heartbeat.
proxied_lem_example :
    proxied echo (text "1.0") web (1 ∷ 71 ∷ []) ≡ forwarded (arriving [] (1 ∷ 71 ∷ []) true)
proxied_lem_example = proxied_lem echo (text "1.0") web (1 ∷ 71 ∷ [])

abbrev net : Network
net = record {
  tcp = λ addr. ok (arriving [] [] true);
  tls_versions = ok tt;
  is_server_name = λ name. true;
  tls = λ verifier name s. ok (arriving (1 ∷ []) [] true);
}

open_stream-tls_example :
    (raw : Stream) × (net.tcp (text "t.io:7835") ≡ ok raw)
    × (net.is_server_name (server_name_of web) ≡ true)
    × (net.tls webpki_roots (server_name_of web) raw ≡ ok (arriving (1 ∷ []) [] true))
unfolding open_stream
open_stream-tls_example = open_stream-tls net web (arriving (1 ∷ []) [] true) refl refl

abbrev shown : Shown
shown = record { error = λ e. text "error"; message = λ m. text "message" }

run_cancellable-ends_example :
    let e = run_cancellable net sample_wire shown (text "1.0") 0 web false in
    ((x : RunError) × (e.result ≡ err x) × (e.status ≡ TunnelStatus.error (display shown web x)))
    ⊎ ((s : Stream) × (res : AuthRes) × (open_stream net web ≡ ok s)
        × ((read_message sample_wire
              (write_message sample_wire (Message.auth_req (auth_req (text "1.0") web)) s).1).0
            ≡ ok (Message.auth_res res))
        × (res.success ≡ true)
        × (e.result ≡ ok tt)
        × (e.status ≡ TunnelStatus.connected (route_prefix ++ tunnel_url res) 0))
run_cancellable-ends_example = run_cancellable-ends net web sample_wire (text "1.0") 0 shown
