-- ===== src/Server/Session/Admission.antt =====
-- Who gets in: what a session has checked before its client is registered, and what it answers.
use zo_tunnel.Prelude.{
  ℕ, ◌≡◌, refl, ap, Bool, Text, text_eq, true, false, none, some, Result, ok, inl, inr,
  Result-cases, Bool-cases, Option-cases, arith, if◌then◌else◌,
}
use zo_tunnel.Protocol.{Message, AuthReq, supports_heartbeat, msg_type}
use zo_tunnel.Protocol
use zo_tunnel.Protocol.Stream.{Stream}
use zo_tunnel.Protocol.Codec.{Wire, read_message, write_message}
use zo_tunnel.Server.Clock.{Instant, fetch_add}
use zo_tunnel.Server.Config.{ServerConfig, validate_token, is_reserved}
use zo_tunnel.Server.Registry.{Registry, register}
use zo_tunnel.Server.Registry.Invariant.{IsWellFormed}
use zo_tunnel.Server.Registry.View.{view, view-lookup, view-register, joined, may_register}
use zo_tunnel.Server.Session.{
  Control, Serving, denial, welcome_message, enrol, refuse, welcome, authenticate, start,
}

enrol-serving :
    (handle : ℕ) (now : Instant) (auth : AuthReq) (c c' : Control) (s : Serving)
    → enrol handle now auth c ≡ (ok (some s), c')
    → (s.client_id ≡ auth.client_id)
      × (register auth.client_id handle (supports_heartbeat auth) now c.registry
          ≡ (ok s.place, c'.registry))
      × (c'.stream ≡ c.stream)
      × (c'.metrics ≡ c.metrics)
unfolding enrol
enrol-serving handle now auth c c' s e = ground arith

-- What a registration that succeeded says of the name, by the map.
register-registered :
    (client_id : Text) (handle : ℕ) (hb : Bool) (now : Instant) (r r' : Registry) (place : ℕ)
    → IsWellFormed r
    → register client_id handle hb now r ≡ (ok place, r')
    → (is_reserved client_id ≡ false)
      × (view r client_id ≡ none)
      × ((k : Text)
          → view r' k
            ≡ (if text_eq client_id k then some (joined client_id handle hb now) else view r k))
register-registered client_id handle hb now r r' place h e =
    let (answered, seen) = view-register client_id handle hb now r h in
    let free : is_reserved client_id ≡ false = ground arith in
    let absent : view r client_id ≡ none = elim (Option-cases (view r client_id)) [
      | inl there_is ↦ there_is
      | inr (f, there) ↦ absurd (ground arith)
    ] in
    (free, absent, λ k. ground (arith, seen k))

-- A valid token whose name is reserved or taken is answered as admitted all the same, and the
-- session ends without an entry.
enrol-refused :
    (handle : ℕ) (now : Instant) (auth : AuthReq) (c : Control)
    → IsWellFormed c.registry
    → may_register auth.client_id (view c.registry auth.client_id) ≡ false
    → enrol handle now auth c ≡ (ok none, c)
unfolding enrol register view
enrol-refused handle now auth c h e = elim (view-lookup c.registry auth.client_id h) [
  | inl (none_there, v) ↦ ground arith
  | inr (place, f, there, at, v, _) ↦ ground arith
]

module _ (w : Wire) (config : ServerConfig) where
  welcome-serving :
      (handle : ℕ) (now : Instant) (auth : AuthReq) (c c' : Control) (s : Serving)
      → welcome w config handle now auth c ≡ (ok (some s), c')
      → (write_message w (Message.auth_res (welcome_message config auth.client_id)) c.stream
          ≡ (ok tt, c'.stream))
        × (s.client_id ≡ auth.client_id)
        × (register auth.client_id handle (supports_heartbeat auth) now c.registry
            ≡ (ok s.place, c'.registry))
        × (c'.metrics ≡ c.metrics)
  unfolding welcome
  welcome-serving handle now auth c c' s e =
      let reply = Message.auth_res (welcome_message config auth.client_id) in
      let out = write_message w reply c.stream in
      elim (Result-cases out.0) [
        | inl (unit, sent) ↦
            let back : enrol handle now auth (record c { stream = out.1 }) ≡ (ok (some s), c') =
              ground arith in
            let (name, there, stream, metrics) =
              enrol-serving handle now auth (record c { stream = out.1 }) c' s back in
            (ground arith, name, there, metrics)
        | inr (x, failed) ↦ absurd (ground arith)
      ]

  refuse-idle : (c c' : Control) (s : Serving) → refuse w config c ≡ (ok (some s), c') → ⊥
  unfolding refuse
  refuse-idle c c' s e =
      elim (Result-cases (write_message w (Message.auth_res denial) c.stream).0) [
        | inl (_, f) ↦ ground arith
        | inr (_, f) ↦ ground arith
      ]

  authenticate-serving :
      (handle : ℕ) (now : Instant) (r : Result Protocol.Error Message) (c c' : Control)
      (s : Serving)
      → authenticate w config handle now r c ≡ (ok (some s), c')
      → (auth : AuthReq) × (r ≡ ok (Message.auth_req auth))
        × (validate_token config auth.token ≡ true)
        × (welcome w config handle now auth c ≡ (ok (some s), c'))
  unfolding authenticate
  authenticate-serving handle now (ok (Message.auth_req auth)) c c' s e =
      elim (Bool-cases (validate_token config auth.token)) [
        | inl valid ↦ (auth, refl, valid, ground arith)
        | inr invalid ↦ absurd (refuse-idle c c' s (ground arith))
      ]
  authenticate-serving handle now other c c' s e = absurd (ground arith)

  -- On a well-formed registry, a client is served only when its first message came in time and was
  -- an AuthReq with a token that the server accepts, for a name that is not reserved and that no
  -- other session holds; it has been sent the reply of success, its name stands for its new entry,
  -- every other name is as before, and no counter has moved.
  pub start-serving :
      (handle : ℕ) (now : Instant) (timely : Bool) (c c' : Control) (s : Serving)
      → IsWellFormed c.registry
      → start w config handle now timely c ≡ (ok (some s), c')
      → (timely ≡ true)
        × ((auth : AuthReq) × ((read_message w c.stream).0 ≡ ok (Message.auth_req auth))
            × (validate_token config auth.token ≡ true)
            × (is_reserved auth.client_id ≡ false)
            × (view c.registry auth.client_id ≡ none)
            × (s.client_id ≡ auth.client_id)
            × (write_message w
                  (Message.auth_res (welcome_message config auth.client_id))
                  (read_message w c.stream).1
                ≡ (ok tt, c'.stream))
            × ((k : Text)
                → view c'.registry k ≡ (
                    if text_eq auth.client_id k
                    then some (joined auth.client_id handle (supports_heartbeat auth) now)
                    else view c.registry k))
            × (c'.metrics ≡ c.metrics))
  unfolding start
  start-serving handle now timely c c' s h e =
      let c1 = record c { stream = (read_message w c.stream).1 } in
      let in_time : timely ≡ true = ground arith in
      let (auth, first, valid, welcomed) =
        authenticate-serving handle now (read_message w c.stream).0 c1 c' s (ground arith) in
      let (sent, name, there, metrics) = welcome-serving handle now auth c1 c' s welcomed in
      let (free, absent, seen) =
        register-registered auth.client_id handle (supports_heartbeat auth) now c.registry
          c'.registry s.place h there in
      (in_time, (auth, first, valid, free, absent, name, sent, seen, metrics))

  -- A token that the server does not accept, in a message that came in time, is answered by the
  -- refusal if that can be written, counted once, and changes neither the registry nor another
  -- counter; the session ends.
  pub start-refused :
      (handle : ℕ) (now : Instant) (auth : AuthReq) (c : Control) (s s' : Stream)
      → read_message w c.stream ≡ (ok (Message.auth_req auth), s)
      → validate_token config auth.token ≡ false
      → write_message w (Message.auth_res denial) s ≡ (ok tt, s')
      → start w config handle now true c ≡ (
        ok none,
        record c {
          stream = s';
          metrics = record c.metrics { failed_auth = fetch_add c.metrics.failed_auth };
        },
      )
  unfolding start authenticate refuse
  start-refused handle now auth c s s' first invalid sent =
      let denied : (write_message w (Message.auth_res denial) s).0 ≡ ok tt = ap (λ p. p.0) sent in
      ground arith

  -- On a well-formed registry, a client with an accepted token whose name is reserved or held by
  -- another session is told that it was admitted, if that can be written, and then dropped: the
  -- registry and the counters stay as they are.
  pub start-welcomes_in_vain :
      (handle : ℕ) (now : Instant) (auth : AuthReq) (c : Control) (s s' : Stream)
      → IsWellFormed c.registry
      → read_message w c.stream ≡ (ok (Message.auth_req auth), s)
      → validate_token config auth.token ≡ true
      → may_register auth.client_id (view c.registry auth.client_id) ≡ false
      → write_message w (Message.auth_res (welcome_message config auth.client_id)) s ≡ (ok tt, s')
      → start w config handle now true c ≡ (ok none, record c { stream = s' })
  unfolding start authenticate welcome
  start-welcomes_in_vain handle now auth c s s' h first valid taken sent =
      let refused = enrol-refused handle now auth (record c { stream = s' }) h taken in ground arith
