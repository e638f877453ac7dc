-- ===== src/Client/Session.antt =====
-- client.rs: a client's session. The network, the clock and the texts of foreign errors are
-- arguments; an address is connected to by a function, which returns the stream or an error's text.
pub mod Streams
pub mod Handshake
pub mod Outcomes
use zo_tunnel.Prelude.{
  ℕ, Bool, true, false, not, Option, none, some, List, [], ◌∷◌, ◌++◌, Exec, ◌>>=◌, ◌>>◌, Result, ok,
  err, is_empty, get_or, first_piece, strip_prefix, Text, text, ◌==◌, if◌then◌else◌,
}
use zo_tunnel.Protocol.{Message, AuthReq, stream_type_heartbeat}
use zo_tunnel.Protocol
use zo_tunnel.Protocol.Stream.{Stream, read_exact, write_all}
use zo_tunnel.Protocol.Codec.{Wire, read_message, write_message}
use zo_tunnel.Server.Clock.{Instant}

pub record ClientTlsConfig : Type 0 where
  pub enabled : Bool
  pub server_name : Text
  pub skip_verify : Bool

pub record Client : Type 0 where
  pub server_addr : Text
  pub local_addr : Text
  pub client_id : Text
  pub token : Text
  pub tls_config : ClientTlsConfig

pub data TunnelStatus : Type 0 where
  stopped connecting : TunnelStatus
  connected : Text → Instant → TunnelStatus
  error : Text → TunnelStatus

-- What a run fails with; a text is that of the system's or the TLS library's error.
pub data RunError : Type 0 where
  connect tls_versions tls_handshake : Text → RunError
  tls_server_name : Text → RunError
  write read : Protocol.Error → RunError
  refused : Text → RunError
  expected_auth_res : Message → RunError

-- What a certificate is checked against: `NoVerifier` accepts any.
pub data Verifier : Type 0 where
  no_verifier webpki_roots : Verifier

-- The system and the TLS library: `TcpStream::connect`, the versions of the protocol that the
-- provider offers, `ServerName::try_from` and the TLS handshake with a verifier.
pub record Network : Type 0 where
  pub tcp : Text → Result Text Stream
  pub tls_versions : Result Text (Unit {0})
  pub is_server_name : Text → Bool
  pub tls : Verifier → Text → Stream → Result Text Stream

-- The texts of the protocol's errors, and of a message in an error.
pub record Shown : Type 0 where
  pub error : Protocol.Error → Text
  pub message : Message → Text

-- What the watch channel holds last, and the connection.
pub record Session : Type 0 where
  pub stream : Stream
  pub status : TunnelStatus

unfoldable pub resolve_server_name : Network → Client → Result RunError Text
resolve_server_name net c =
    let name =
      if not (is_empty c.tls_config.server_name)
      then c.tls_config.server_name
      else first_piece b':' c.server_addr in
    if net.is_server_name name then ok name else err (tls_server_name name)

unfoldable pub tls_connect : Network → Client → Stream → Result RunError Stream
unfolding resolve_server_name
tls_connect net c s =
    let verifier = if c.tls_config.skip_verify then no_verifier else webpki_roots in
    elim net.tls_versions [
      | err e ↦ err (tls_versions e)
      | ok _ ↦ elim (resolve_server_name net c) [
        | err e ↦ err e
        | ok name ↦ elim (net.tls verifier name s) [ err e ↦ err (tls_handshake e) | ok s' ↦ ok s' ]
      ]
    ]

-- `run_with_status` up to the session.
unfoldable pub open_stream : Network → Client → Result RunError Stream
unfolding tls_connect
open_stream net c = elim (net.tcp c.server_addr) [
  | err e ↦ err (connect e)
  | ok s ↦ if c.tls_config.enabled then tls_connect net c s else ok s
]

-- A call on the connection, whose error is wrapped.
abbrev on_stream :
    {A : Type 0}
    → (Protocol.Error → RunError)
    → Exec Stream Protocol.Error A
    → Exec Session RunError A
on_stream wrap m s = (
  elim (m s.stream).0 [ ok a ↦ ok a | err e ↦ err (wrap e) ],
  record s { stream = (m s.stream).1 },
)

abbrev unwrap_or : {A : Type 0} → Option A → A → A
unwrap_or none a = a
unwrap_or (some x) a = x

abbrev pub route_prefix : Text
route_prefix = text "http://"

-- What the reply says of the route.
unfoldable pub tunnel_url : Protocol.AuthRes → Text
tunnel_url res =
    unwrap_or (strip_prefix res.message (text "OK — ")) (unwrap_or res.assigned_route (text "-"))

unfoldable pub hear : Instant → Message → Exec Session RunError Unit
unfolding tunnel_url
hear now (Message.auth_res res) s =
    if not res.success
    then (err (refused res.message), s)
    else (ok tt, record s { status = TunnelStatus.connected (route_prefix ++ tunnel_url res) now })
hear now other s = (err (expected_auth_res other), s)

abbrev pub auth_req : Text → Client → AuthReq
auth_req version c = record { client_id = c.client_id; token = c.token; version = some version }

-- `run_session_with_status` up to its loop. The version is that of the package.
unfoldable pub authenticate : Wire → Text → Instant → Client → Exec Session RunError Unit
unfolding hear
authenticate w version now c = do
  on_stream write (write_message w (Message.auth_req (auth_req version c)))
  auth_res ← on_stream read (read_message w)
  hear now auth_res

-- What a task of the client has made of a stream that the server opened.
pub data Handled : Type 0 where
  ponged forwarded dropped : Stream → Handled

-- The local service at an address, if it can be reached: what it answers to all that it is sent.
abbrev pub Local : Type 0
Local = Text → Option (List ℕ → List ℕ)

-- `copy_bidirectional` sends the service what arrives, and sends back what it answers.
unfoldable pub handle_tunnel_stream : Local → Text → Stream → Handled
handle_tunnel_stream local local_addr s = elim (local local_addr) [
  | none ↦ dropped s
  | some service ↦
      forwarded (record s { incoming = []; outgoing = s.outgoing ++ service s.incoming })
]

-- The task of one stream; `timely` says that its first byte came within five seconds.
unfoldable pub handle_stream : Local → Text → Bool → Stream → Handled
unfolding handle_tunnel_stream
handle_stream local local_addr timely s =
    let (marker_result, s') = read_exact 1 s in
    if not timely then dropped s else elim marker_result [
      | err e ↦ dropped s'
      | ok marker ↦
          if get_or marker 0 0 == stream_type_heartbeat
          then ponged (record (write_all (stream_type_heartbeat ∷ []) s').1 { writable = false })
          else handle_tunnel_stream local local_addr s'
    ]

-- What `poll_next_inbound` returned.
pub data Arrival : Type 0 where
  stream : Bool → Stream → Arrival
  broken closed : Arrival

-- The loop of the session: the streams that it has handed to tasks, and whether it has ended.
unfoldable pub inbound_loop : Local → Text → List Arrival → List Handled × Bool
unfolding handle_stream
inbound_loop local local_addr [] = ([], false)
inbound_loop local local_addr (stream timely s ∷ arrivals) =
    let (handled, ended) = inbound_loop local local_addr arrivals in
    (handle_stream local local_addr timely s ∷ handled, ended)
inbound_loop local local_addr (broken ∷ arrivals) = ([], true)
inbound_loop local local_addr (closed ∷ arrivals) = ([], true)

-- `format!("{:#}", e)`
unfoldable pub display : Shown → Client → RunError → Text
display shown c (connect e) = text "connect to " ++ (c.server_addr ++ (text ": " ++ e))
display shown c (tls_versions e) = text "build TLS protocol versions: " ++ e
display shown c (tls_handshake e) = text "TLS handshake failed: " ++ e
display shown c (tls_server_name name) =
    text "Invalid TLS server name '"
    ++ (name ++ text "'. If connecting by IP, use --tls-server-name to specify the domain.")
display shown c (write e) = shown.error e
display shown c (read e) = text "read auth response: " ++ shown.error e
display shown c (refused message) = text "Authentication failed: " ++ message
display shown c (expected_auth_res m) = text "Expected AuthRes, got " ++ shown.message m

-- How a run ended, and the status that it leaves: with an error, by the end of its session, or by
-- the token that cancels it.
pub record Ended : Type 0 where
  pub result : Result RunError (Unit {0})
  pub status : TunnelStatus

abbrev reported : Shown → Client → Result RunError (Unit {0}) → TunnelStatus → Ended
reported shown c (ok _) status = record { result = ok tt; status = status }
reported shown c (err e) status = record {
  result = err e;
  status = TunnelStatus.error (display shown c e);
}

-- `run_cancellable`, with the session's loop run to its end; `cancelled` says that the token was
-- cancelled before the run ended.
unfoldable pub run_cancellable : Network → Wire → Shown → Text → Instant → Client → Bool → Ended
unfolding open_stream display authenticate
run_cancellable net w shown version now c true = record {
  result = ok tt;
  status = TunnelStatus.stopped;
}
run_cancellable net w shown version now c false = elim (open_stream net c) [
  | err e ↦ reported shown c (err e) TunnelStatus.connecting
  | ok s ↦
      let (r, session) =
        authenticate w version now c (record { stream = s; status = TunnelStatus.connecting }) in
      reported shown c r session.status
]
