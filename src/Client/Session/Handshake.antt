-- ===== src/Client/Session/Handshake.antt =====
-- The handshake from both ends: client.rs against server.rs.
use zo_tunnel.Prelude.{
  ℕ, ◌≡◌, refl, Bool, true, false, ◌&&◌, Option, none, some, [], ◌∷◌, ◌++◌, Result, ok, err, inl,
  inr, Bool-cases, length, Text, text, text_eq, strip_prefix, arith, if◌then◌else◌,
}
use zo_tunnel.Protocol.{Message, AuthReq, AuthRes}
use zo_tunnel.Protocol
use zo_tunnel.Protocol.Codec.{Wire, WireLaws, write_message}
use zo_tunnel.Protocol.Delivery.{arriving, Fits, bytes, write-Fits, read-Fits}
use zo_tunnel.Server.Clock.{Instant}
use zo_tunnel.Server.Config.{ServerConfig, validate_token}
use zo_tunnel.Server.Registry.{Registry}
use zo_tunnel.Server.Registry.Invariant.{IsWellFormed}
use zo_tunnel.Server.Registry.View.{view, view-register, joined, may_register}
use zo_tunnel.Server.Session.{Control, SessionError, Serving, denial, welcome_message, enrol, start}
use zo_tunnel.Server.Session
use zo_tunnel.Client.Session.{
  Client, RunError, TunnelStatus, refused, auth_req, route_prefix, tunnel_url, hear, authenticate,
}

-- The two ends of a fresh connection: the server reads what the client writes, and the client what
-- the server answers.
pub record Met : Type 0 where
  pub server : Result SessionError (Option Serving)
  pub registry : Registry
  pub client : Result RunError (Unit {0})
  pub status : TunnelStatus

module _ (w : Wire) (version : Text) (config : ServerConfig) (handle : ℕ) (now : Instant)
    (c : Client) where
  abbrev request : Message
  request = Message.auth_req (auth_req version c)

  unfoldable pub meet : Control → Met
  meet control =
      let asked = (write_message w request (arriving [] [] true)).1.outgoing in
      let (result, control') =
        start w config handle now true (record control { stream = arriving asked [] true }) in
      let (r, session) = authenticate w version now c (record {
        stream = arriving control'.stream.outgoing [] true;
        status = TunnelStatus.connecting;
      }) in
      record { server = result; registry = control'.registry; client = r; status = session.status }

enrol-stream :
    (handle : ℕ) (now : Instant) (auth : AuthReq) (control : Control)
    → (enrol handle now auth control).1.stream ≡ control.stream
unfolding enrol
enrol-stream handle now auth control = ground arith

abbrev pub served : Text → ℕ → Bool → Option Serving
served client_id place true = some (record { client_id = client_id; place = place })
served client_id place false = none

-- The registration behind the handshake, by the map.
enrol-view :
    (handle : ℕ) (now : Instant) (auth : AuthReq) (control : Control)
    → IsWellFormed control.registry
    → let may = may_register auth.client_id (view control.registry auth.client_id) in
      ((enrol handle now auth control).0
        ≡ ok (served auth.client_id (length control.registry.entries) may))
      × ((k : Text)
          → view (enrol handle now auth control).1.registry k ≡ (
              if may && text_eq auth.client_id k
              then some (joined auth.client_id handle (Protocol.supports_heartbeat auth) now)
              else view control.registry k))
unfolding enrol
enrol-view handle now auth control h =
    let hb = Protocol.supports_heartbeat auth in
    let (answered, seen) = view-register auth.client_id handle hb now control.registry h in
    elim (Bool-cases (may_register auth.client_id (view control.registry auth.client_id))) [
      | inl may ↦ (ground arith, λ k. ground (arith, seen k))
      | inr not_ ↦ (ground arith, λ k. ground (arith, seen k))
    ]

module _ (w : Wire) (laws : WireLaws w) (version : Text) (config : ServerConfig) (handle : ℕ)
    (now : Instant) (c : Client) (asks : Fits w (request w version config handle now c)) where
  abbrev asked : Message
  asked = request w version config handle now c

  module _ (control : Control) where
    abbrev heard : Control
    heard = record control { stream = arriving (bytes w asked asks) [] true }

    start-admits :
        (welcome : Fits w (Message.auth_res (welcome_message config c.client_id)))
        → validate_token config c.token ≡ true
        → start w config handle now true heard
          ≡ enrol handle now (auth_req version c) (record control {
            stream =
                arriving []
                  (bytes w (Message.auth_res (welcome_message config c.client_id)) welcome)
                  true;
          })
    unfolding start Session.authenticate Session.welcome
    start-admits welcome valid =
        let reply = Message.auth_res (welcome_message config c.client_id) in
        let first = read-Fits w asked asks laws tt [] true in
        let sent = write-Fits w reply welcome (arriving [] [] true) refl in ground arith

    start-refuses :
        (denied : Fits w (Message.auth_res denial))
        → validate_token config c.token ≡ false
        → let (r, control') = start w config handle now true heard in
          (r ≡ ok none)
          × (control'.registry ≡ control.registry)
          × (control'.stream ≡ arriving [] (bytes w (Message.auth_res denial) denied) true)
    unfolding start Session.authenticate Session.refuse
    start-refuses denied invalid =
        let first = read-Fits w asked asks laws tt [] true in
        let sent = write-Fits w (Message.auth_res denial) denied (arriving [] [] true) refl in
        (ground arith, ground arith, ground arith)

  authenticate-told :
      (res : AuthRes) (told : Fits w (Message.auth_res res)) (status : TunnelStatus)
      → authenticate w version now c (record {
        stream = arriving (bytes w (Message.auth_res res) told) [] true;
        status = status;
      })
        ≡ hear now
            (Message.auth_res res)
            (record { stream = arriving [] (bytes w asked asks) true; status = status })
  unfolding authenticate
  authenticate-told res told status =
      let reply = Message.auth_res res in
      let sent = write-Fits w asked asks (arriving (bytes w reply told) [] true) refl in
      let back = read-Fits w reply told laws tt (bytes w asked asks) true in ground arith

  module _ (welcome : Fits w (Message.auth_res (welcome_message config c.client_id)))
      (denied : Fits w (Message.auth_res denial)) (control : Control)
      (h : IsWellFormed control.registry) where
    -- Where a token is accepted, the client is told `http://`, its name and the domain, and believes
    -- that it is connected; the server serves it only if its name is neither reserved nor taken.
    -- Where it is not, the client fails with the reason `Invalid token`, and the server keeps its
    -- registry. The conditions are that the three messages fit the protocol's maximum.
    pub meet_lem :
        let met = meet w version config handle now c control in
        let valid = validate_token config c.token in
        let may = may_register c.client_id (view control.registry c.client_id) in
        (met.client ≡ (if valid then ok tt else err (refused (text "Invalid token"))))
        × (met.status ≡ (
            if valid
            then TunnelStatus.connected (route_prefix ++ (c.client_id ++ b'.' ∷ config.domain)) now
            else TunnelStatus.connecting))
        × (met.server ≡ ok (served c.client_id (length control.registry.entries) (valid && may)))
        × ((k : Text)
            → view met.registry k ≡ (
                if (valid && may) && text_eq c.client_id k
                then some (joined c.client_id handle true now)
                else view control.registry k))
    unfolding meet hear tunnel_url strip_prefix Protocol.supports_heartbeat
    meet_lem =
        let sent = write-Fits w asked asks (arriving [] [] true) refl in
        elim (Bool-cases (validate_token config c.token)) [
          | inl valid ↦
              let reply = welcome_message config c.client_id in
              let out = bytes w (Message.auth_res reply) welcome in
              let control' = record control { stream = arriving [] out true } in
              let admitted = start-admits control welcome valid in
              let told = authenticate-told reply welcome TunnelStatus.connecting in
              let stream = enrol-stream handle now (auth_req version c) control' in
              let (answered, seen) = enrol-view handle now (auth_req version c) control' h in
              rw valid (ground arith, ground arith, ground arith, λ k. ground (arith, seen k))
          | inr invalid ↦
              let (result, kept, stream) = start-refuses control denied invalid in
              let told = authenticate-told denial denied TunnelStatus.connecting in
              rw invalid (ground arith, ground arith, ground arith, λ k. ground arith)
        ]
