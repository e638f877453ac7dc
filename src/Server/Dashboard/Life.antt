-- ===== src/Server/Dashboard/Life.antt =====
-- The life of a dashboard session, from the login on, among the requests of others.
use zo_tunnel.Prelude.{
  ℕ, ◌≡◌, ◌≢◌, ◌<◌, refl, ◌∙◌, Bool, true, none, some, List, [], ◌∷◌, Text, text_eq_iff,
  text_eq_refl, All, lookup, lookup-insert, lookup-remove, arith, Option-cases, Bool-cases, inl,
  inr,
}
use zo_tunnel.Server.Clock.{Instant, secs_since}
use zo_tunnel.Server.Config.{validate_dashboard_token}
use zo_tunnel.Server.Http.{Http, Headers}
use zo_tunnel.Server.Dashboard.{
  SessionStore, DashboardState, create, invalidate, validate, extract_session_id, is_authenticated,
  api_login, api_logout, api_auth_check, check_cfg, build_session_cookie, is_tls_enabled,
}

-- The requests that touch the sessions: a login with the identifier that it may be given, a
-- request that is only checked, and a logout.
pub data Event : Type 0 where
  logs_in : Headers → Text → Text → Instant → Event
  reads : Headers → Instant → Event
  logs_out : Headers → Event

-- What leaves the session `id`, created at `t0`, alone: it comes before the session expires, a
-- login gets another identifier, and a logout carries another.
abbrev pub Spares : Http → Text → Instant → ℕ → Event → Type 0
Spares http id t0 ttl (logs_in headers token id' now) = (id' ≢ id) × (secs_since t0 now < ttl)
Spares http id t0 ttl (reads headers now) = secs_since t0 now < ttl
Spares http id t0 ttl (logs_out headers) = extract_session_id http headers ≢ some id

-- What does not create the session `id` again.
abbrev pub Forgets : Text → Event → Type 0
Forgets id (logs_in headers token id' now) = id' ≢ id
Forgets id (reads headers now) = Unit
Forgets id (logs_out headers) = Unit

module _ (http : Http) (ct_eq : List ℕ → List ℕ → Bool) where
  unfoldable pub step : DashboardState → Event → DashboardState
  step state (logs_in headers token id now) = (api_login http ct_eq headers token id now state).1
  step state (reads headers now) = (api_auth_check http headers now state).1
  step state (logs_out headers) = (api_logout http headers state).1

  unfoldable pub run : DashboardState → List Event → DashboardState
  unfolding step
  run state [] = state
  run state (e ∷ events) = run (step state e) events

  authenticated_enabled :
      (headers : Headers) (now : Instant) (state : DashboardState)
      → (is_authenticated http headers now state).1.auth_enabled ≡ state.auth_enabled
  unfolding is_authenticated
  authenticated_enabled headers now state = ground arith

  validate_spares :
      (id id' : Text) (t0 now : Instant) (s : SessionStore)
      → lookup id s.sessions ≡ some t0
      → secs_since t0 now < s.ttl_secs
      → (lookup id (validate id' now s).1.sessions ≡ some t0)
        × ((validate id' now s).1.ttl_secs ≡ s.ttl_secs)
  unfolding validate invalidate
  validate_spares id id' t0 now s there young = elim (Option-cases (lookup id' s.sessions)) [
    | inl missing ↦ ground arith
    | inr (t, found) ↦ ground (arith, lookup-remove id' id s.sessions, text_eq_iff id' id)
  ]

  is_authenticated_spares :
      (id : Text) (headers : Headers) (t0 now : Instant) (state : DashboardState)
      → lookup id state.sessions.sessions ≡ some t0
      → secs_since t0 now < state.sessions.ttl_secs
      → (lookup id (is_authenticated http headers now state).1.sessions.sessions ≡ some t0)
        × ((is_authenticated http headers now state).1.sessions.ttl_secs ≡ state.sessions.ttl_secs)
  unfolding is_authenticated
  is_authenticated_spares id headers t0 now state there young =
      elim (Bool-cases state.auth_enabled) [
        | inr off ↦ ground arith
        | inl on ↦ elim (Option-cases (extract_session_id http headers)) [
          | inl missing ↦ ground arith
          | inr (id', found) ↦
              let kept = validate_spares id id' t0 now state.sessions there young in ground arith
        ]
      ]

  step-Spares :
      (id : Text) (t0 : Instant) (ttl : ℕ) (state : DashboardState) (e : Event)
      → lookup id state.sessions.sessions ≡ some t0
      → state.sessions.ttl_secs ≡ ttl
      → Spares http id t0 ttl e
      → (lookup id (step state e).sessions.sessions ≡ some t0)
        × ((step state e).sessions.ttl_secs ≡ ttl)
  unfolding step api_login api_auth_check api_logout create invalidate
  step-Spares id t0 ttl state (logs_in headers token id' now) there same (ne, young) =
      let kept = is_authenticated_spares id headers t0 now state there (rw same young) in
      ground (
        arith,
        text_eq_iff id' id,
        lookup-insert id' id now (is_authenticated http headers now state).1.sessions.sessions,
      )
  step-Spares id t0 ttl state (reads headers now) there same young =
      let kept = is_authenticated_spares id headers t0 now state there (rw same young) in
      ground arith
  step-Spares id t0 ttl state (logs_out headers) there same ne =
      elim (Option-cases (extract_session_id http headers)) [
        | inl missing ↦ ground arith
        | inr (id', found) ↦
            ground (arith, text_eq_iff id' id, lookup-remove id' id state.sessions.sessions)
      ]

  pub run-Spares :
      (id : Text) (t0 : Instant) (ttl : ℕ) (state : DashboardState) (events : List Event)
      → lookup id state.sessions.sessions ≡ some t0
      → state.sessions.ttl_secs ≡ ttl
      → All (Spares http id t0 ttl) events
      → (lookup id (run state events).sessions.sessions ≡ some t0)
        × ((run state events).sessions.ttl_secs ≡ ttl)
  unfolding run
  run-Spares id t0 ttl state [] there same h = (there, same)
  run-Spares id t0 ttl state (e ∷ events) there same (h, hs) =
      let (there', same') = step-Spares id t0 ttl state e there same h in
      run-Spares id t0 ttl (step state e) events there' same' hs

  -- What a session that is gone stays, while its identifier is not created again.
  is_authenticated_forgets :
      (id : Text) (headers : Headers) (now : Instant) (state : DashboardState)
      → lookup id state.sessions.sessions ≡ none
      → lookup id (is_authenticated http headers now state).1.sessions.sessions ≡ none
  unfolding is_authenticated validate invalidate
  is_authenticated_forgets id headers now state gone = elim (Bool-cases state.auth_enabled) [
    | inr off ↦ ground arith
    | inl on ↦ elim (Option-cases (extract_session_id http headers)) [
      | inl missing ↦ ground arith
      | inr (id', found) ↦ elim (Option-cases (lookup id' state.sessions.sessions)) [
        | inl missing ↦ ground arith
        | inr (t, there) ↦ ground (arith, lookup-remove id' id state.sessions.sessions)
      ]
    ]
  ]

  step-Forgets :
      (id : Text) (state : DashboardState) (e : Event)
      → lookup id state.sessions.sessions ≡ none
      → Forgets id e
      → (lookup id (step state e).sessions.sessions ≡ none)
        × ((step state e).auth_enabled ≡ state.auth_enabled)
  unfolding step api_login api_auth_check api_logout create invalidate
  step-Forgets id state (logs_in headers token id' now) gone ne = ground (
    arith,
    is_authenticated_forgets id headers now state gone,
    authenticated_enabled headers now state,
    text_eq_iff id' id,
    lookup-insert id' id now (is_authenticated http headers now state).1.sessions.sessions,
  )
  step-Forgets id state (reads headers now) gone h = ground (
    arith,
    is_authenticated_forgets id headers now state gone,
    authenticated_enabled headers now state,
  )
  step-Forgets id state (logs_out headers) gone h =
      elim (Option-cases (extract_session_id http headers)) [
        | inl missing ↦ ground arith
        | inr (id', found) ↦ ground (arith, lookup-remove id' id state.sessions.sessions)
      ]

  pub run-Forgets :
      (id : Text) (state : DashboardState) (events : List Event)
      → lookup id state.sessions.sessions ≡ none
      → All (Forgets id) events
      → (lookup id (run state events).sessions.sessions ≡ none)
        × ((run state events).auth_enabled ≡ state.auth_enabled)
  unfolding run
  run-Forgets id state [] gone h = (gone, refl)
  run-Forgets id state (e ∷ events) gone (h, hs) =
      let (gone', same) = step-Forgets id state e gone h in
      let (gone'', same') = run-Forgets id (step state e) events gone' hs in (gone'', same' ∙ same)

  -- A login that sets a cookie had the right token, has stored the session, and sets its cookie.
  pub login_stores :
      (headers : Headers) (token id cookie : Text) (t0 : Instant) (state : DashboardState)
      → (api_login http ct_eq headers token id t0 state).0.set_cookie ≡ some cookie
      → (lookup id (api_login http ct_eq headers token id t0 state).1.sessions.sessions ≡ some t0)
        × ((tls : Bool) × (cookie
              ≡ build_session_cookie id
                  (api_login http ct_eq headers token id t0 state).1.sessions.ttl_secs
                  tls))
        × (validate_dashboard_token ct_eq (check_cfg state) token ≡ true)
  unfolding api_login create is_authenticated
  login_stores headers token id cookie t0 state e = elim (Bool-cases state.auth_enabled) [
    | inr off ↦ absurd (ground arith)
    | inl on ↦ elim (Bool-cases (is_authenticated http headers t0 state).0) [
      | inl already ↦ absurd (ground arith)
      | inr fresh ↦ elim (Bool-cases (validate_dashboard_token ct_eq (check_cfg state) token)) [
        | inr wrong ↦ absurd (ground arith)
        | inl right ↦ (
          ground (
            arith,
            text_eq_refl id,
            lookup-insert id id t0 (is_authenticated http headers t0 state).1.sessions.sessions,
          ),
          (is_tls_enabled http headers (is_authenticated http headers t0 state).1, ground arith),
          right,
        )
      ]
    ]
  ]
