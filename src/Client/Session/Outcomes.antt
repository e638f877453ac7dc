-- ===== src/Client/Session/Outcomes.antt =====
-- client.rs: how a run of a client ends, and what status it leaves.
use zo_tunnel.Prelude.{
  ◌≡◌, refl, ◌⊎◌, inl, inr, true, false, ok, err, ◌++◌, Bool-cases, Result-cases, Text, is_empty,
  not, first_piece, arith, if◌then◌else◌,
}
use zo_tunnel.Protocol.{Message, AuthRes}
use zo_tunnel.Protocol.Stream.{Stream}
use zo_tunnel.Protocol.Codec.{Wire, read_message, write_message}
use zo_tunnel.Server.Clock.{Instant}
use zo_tunnel.Client.Session.{
  Client, Network, Verifier, no_verifier, webpki_roots, refused, expected_auth_res, write, read,
  Shown, Session, RunError, TunnelStatus, resolve_server_name, tls_connect, open_stream, tunnel_url,
  hear, authenticate, auth_req, display, route_prefix, run_cancellable,
}

-- The name that the certificate is checked against.
abbrev pub server_name_of : Client → Text
server_name_of c =
    if not (is_empty c.tls_config.server_name)
    then c.tls_config.server_name
    else first_piece b':' c.server_addr

-- The certificate is checked unless that is configured to be skipped.
abbrev pub verifier_of : Client → Verifier
verifier_of c = if c.tls_config.skip_verify then no_verifier else webpki_roots

tls_connect-ok :
    (net : Network) (c : Client) (raw s : Stream)
    → tls_connect net c raw ≡ ok s
    → (net.is_server_name (server_name_of c) ≡ true)
      × (net.tls (verifier_of c) (server_name_of c) raw ≡ ok s)
unfolding tls_connect resolve_server_name
tls_connect-ok net c raw s e = elim (Bool-cases (net.is_server_name (server_name_of c))) [
  | inl good ↦ ground arith
  | inr bad ↦ absurd (ground arith)
]

module _ (net : Network) (c : Client) where
  -- With TLS enabled, whatever stream a session gets comes from a TLS handshake over the connection
  -- to the server's address, with the name that is configured, or else the host of the address, and
  -- with verification unless it is configured to be skipped: no error leads back to the plain stream.
  pub open_stream-tls :
      (s : Stream)
      → c.tls_config.enabled ≡ true
      → open_stream net c ≡ ok s
      → (raw : Stream) × (net.tcp c.server_addr ≡ ok raw)
        × (net.is_server_name (server_name_of c) ≡ true)
        × (net.tls (verifier_of c) (server_name_of c) raw ≡ ok s)
  unfolding open_stream
  open_stream-tls s on e = elim (Result-cases (net.tcp c.server_addr)) [
    | inl (raw, there) ↦
        let (good, done) = tls_connect-ok net c raw s (ground arith) in (raw, there, good, done)
    | inr (os, failed) ↦ absurd (ground arith)
  ]

  module _ (w : Wire) (version : Text) (now : Instant) where
    hear-ok :
        (m : Message) (s : Session)
        → ((x : RunError) × (hear now m s ≡ (err x, s)))
          ⊎ ((res : AuthRes) × (m ≡ Message.auth_res res)
              × (res.success ≡ true)
              × (hear now m s ≡ (
                ok tt,
                record s { status = TunnelStatus.connected (route_prefix ++ tunnel_url res) now },
              )))
    unfolding hear
    hear-ok (Message.auth_res res) s = elim (Bool-cases res.success) [
      | inl good ↦ inr (res, refl, good, ground arith)
      | inr bad ↦ inl (refused res.message, ground arith)
    ]
    hear-ok m s = inl (expected_auth_res m, refl)

    authenticate-ok :
        (s : Session)
        → ((x : RunError) × ((authenticate w version now c s).0 ≡ err x))
          ⊎ ((res : AuthRes) × ((read_message w
                  (write_message w (Message.auth_req (auth_req version c)) s.stream).1).0
                ≡ ok (Message.auth_res res))
              × (res.success ≡ true)
              × ((authenticate w version now c s).0 ≡ ok tt)
              × ((authenticate w version now c s).1.status
                  ≡ TunnelStatus.connected (route_prefix ++ tunnel_url res) now))
    unfolding authenticate
    authenticate-ok s =
        let wrote = write_message w (Message.auth_req (auth_req version c)) s.stream in
        let back = read_message w wrote.1 in
        elim (Result-cases wrote.0) [
          | inr (e, failed) ↦ inl (write e, ground arith)
          | inl (_, sent) ↦ elim (Result-cases back.0) [
            | inr (e, failed) ↦ inl (read e, ground arith)
            | inl (m, got) ↦ elim (hear-ok m (record { stream = back.1; status = s.status })) [
              | inl (x, same) ↦ inl (x, ground arith)
              | inr (res, said, good, done) ↦
                  inr (res, ground arith, good, ground arith, ground arith)
            ]
          ]
        ]

    -- A run that is not cancelled either fails, and leaves the text of its error as the status, or
    -- it was connected: the server's answer to its request was an AuthRes of success, and the status
    -- that it leaves is connected with the route of that answer.
    pub run_cancellable-ends :
        (shown : Shown)
        → let e = run_cancellable net w shown version now c false in
          ((x : RunError) × (e.result ≡ err x)
            × (e.status ≡ TunnelStatus.error (display shown c x)))
          ⊎ ((s : Stream) × (res : AuthRes) × (open_stream net c ≡ ok s)
              × ((read_message w (write_message w (Message.auth_req (auth_req version c)) s).1).0
                  ≡ ok (Message.auth_res res))
              × (res.success ≡ true)
              × (e.result ≡ ok tt)
              × (e.status ≡ TunnelStatus.connected (route_prefix ++ tunnel_url res) now))
    unfolding run_cancellable
    run_cancellable-ends shown = elim (Result-cases (open_stream net c)) [
      | inr (x, failed) ↦ inl (x, ground arith, ground arith)
      | inl (s, there) ↦
          let s0 : Session = record { stream = s; status = TunnelStatus.connecting } in
          elim (authenticate-ok s0) [
            | inl (x, failed) ↦ inl (x, ground arith, ground arith)
            | inr (res, got, good, done, status) ↦
                inr (s, res, there, got, good, ground arith, ground arith)
          ]
    ]
