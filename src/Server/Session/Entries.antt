-- ===== src/Server/Session/Entries.antt =====
-- What each path through `handle_client` does to the registry.
use zo_tunnel.Prelude.{
  ℕ, ◌≡◌, refl, Bool, true, false, Option, none, some, Result, ok, err, lookup, insert, inl, inr,
  Option-cases, Result-cases, Bool-cases,
}
use zo_tunnel.Protocol.{Message, AuthReq, supports_heartbeat}
use zo_tunnel.Protocol
use zo_tunnel.Protocol.Codec.{Wire, read_message, write_message}
use zo_tunnel.Server.Clock.{Instant}
use zo_tunnel.Server.Config.{ServerConfig, validate_token, is_reserved}
use zo_tunnel.Server.Registry.{Registry, register}
use zo_tunnel.Server.Session.{
  Control, SessionError, Serving, denial, welcome_message, enrol, refuse, welcome, authenticate,
  start,
}

-- What a start does to the registry, by its result: a client that is served has been registered,
-- and nothing else happens to the registry.
abbrev pub Entered : Registry → Result SessionError (Option Serving) × Control → Type 0
Entered r (ok (some s), c) =
    (lookup s.client_id r.clients ≡ none)
    × (c.registry.clients ≡ insert s.client_id s.place r.clients)
Entered r (ok none, c) = c.registry ≡ r
Entered r (err e, c) = c.registry ≡ r

enrol-Entered :
    (handle : ℕ) (now : Instant) (auth : AuthReq) (c : Control)
    → Entered c.registry (enrol handle now auth c)
unfolding enrol register
enrol-Entered handle now auth c = elim (Bool-cases (is_reserved auth.client_id)) [
  | inl taken ↦ rw (taken, register, enrol) (rw (taken, register) refl)
  | inr free ↦ elim (Option-cases (lookup auth.client_id c.registry.clients)) [
    | inl e ↦ rw (free, e, register, enrol) (e, rw (free, e, register) refl)
    | inr (place, e) ↦ rw (free, e, register, enrol) (rw (free, e, register) refl)
  ]
]

module _ (w : Wire) (config : ServerConfig) where
  refuse-Entered : (c : Control) → Entered c.registry (refuse w config c)
  unfolding refuse
  refuse-Entered c = elim (Result-cases (write_message w (Message.auth_res denial) c.stream).0) [
    | inl (_, e) ↦ rw (e, refuse) refl
    | inr (_, e) ↦ rw (e, refuse) refl
  ]

  welcome-Entered :
      (handle : ℕ) (now : Instant) (auth : AuthReq) (c : Control)
      → Entered c.registry (welcome w config handle now auth c)
  unfolding welcome
  welcome-Entered handle now auth c =
      let out =
        write_message w (Message.auth_res (welcome_message config auth.client_id)) c.stream in
      elim (Result-cases out.0) [
        | inl (_, e) ↦ rw (e, welcome) (enrol-Entered handle now auth (record c { stream = out.1 }))
        | inr (_, e) ↦ rw (e, welcome) refl
      ]

  authenticate-Entered :
      (handle : ℕ) (now : Instant) (r : Result Protocol.Error Message) (c : Control)
      → Entered c.registry (authenticate w config handle now r c)
  unfolding authenticate
  authenticate-Entered handle now (err e) c = refl
  authenticate-Entered handle now (ok (Message.auth_req auth)) c =
      elim (Bool-cases (validate_token config auth.token)) [
        | inl valid ↦ rw (valid, authenticate) (welcome-Entered handle now auth c)
        | inr invalid ↦ rw (invalid, authenticate) (refuse-Entered c)
      ]
  authenticate-Entered handle now (ok other) c = refl

  pub start-Entered :
      (handle : ℕ) (now : Instant) (timely : Bool) (c : Control)
      → Entered c.registry (start w config handle now timely c)
  unfolding start
  start-Entered handle now true c =
      authenticate-Entered handle now (read_message w c.stream).0
        (record c { stream = (read_message w c.stream).1 })
  start-Entered handle now false c = refl
