-- ===== src/Server/Dashboard/Access.antt =====
-- Who may read the dashboard: authentication and the protected handlers.
use zo_tunnel.Prelude.{
  ◌≡◌, ◌↔◌, ◌<◌, ◌⊎◌, ap, true, false, none, some, Text, text, lookup, arith, Option-cases,
  Bool-cases, inl, inr,
}
use zo_tunnel.Server.Clock.{Instant, secs_since}
use zo_tunnel.Server.Http.{Http, Headers}
use zo_tunnel.Server.Metrics.{snapshot}
use zo_tunnel.Server.Registry.{list, count}
use zo_tunnel.Server.Dashboard.{
  DashboardState, validate, extract_session_id, is_authenticated, guarded, api_status, api_clients,
  api_metrics,
}

-- The request carries a session that was created less than the time to live ago.
abbrev pub HasSession : Http → Headers → Instant → DashboardState → Type 0
HasSession http headers now state =
    (id : Text) × (created_at : Instant) × (extract_session_id http headers ≡ some id)
    × (lookup id state.sessions.sessions ≡ some created_at)
    × (secs_since created_at now < state.sessions.ttl_secs)

module _ (http : Http) (headers : Headers) (now : Instant) (state : DashboardState) where
  is_authenticated_sound :
      (is_authenticated http headers now state).0 ≡ true
      → (state.auth_enabled ≡ false) ⊎ HasSession http headers now state
  unfolding is_authenticated validate
  is_authenticated_sound e = elim (Bool-cases state.auth_enabled) [
    | inr off ↦ inl off
    | inl on ↦ elim (Option-cases (extract_session_id http headers)) [
      | inl missing ↦ absurd (ground arith)
      | inr (id, found) ↦ elim (Option-cases (lookup id state.sessions.sessions)) [
        | inl missing ↦ absurd (ground arith)
        | inr (created_at, there) ↦ inr (id, created_at, found, there, ground arith)
      ]
    ]
  ]

  is_authenticated_complete :
      (state.auth_enabled ≡ false) ⊎ HasSession http headers now state
      → is_authenticated http headers now state ≡ (true, state)
  unfolding is_authenticated validate
  is_authenticated_complete (inl off) = ground arith
  is_authenticated_complete (inr (id, created_at, found, there, young)) = ground arith

  -- A request is authenticated exactly if no token is set or it carries a session that has not
  -- expired.
  pub is_authenticated_iff :
      ((is_authenticated http headers now state).0 ≡ true)
      ↔ ((state.auth_enabled ≡ false) ⊎ HasSession http headers now state)
  is_authenticated_iff = (is_authenticated_sound, λ h. ap (λ p. p.0) (is_authenticated_complete h))

  -- Where a token is set, a session that is not stored is none.
  pub is_authenticated_without :
      (id : Text)
      → state.auth_enabled ≡ true
      → extract_session_id http headers ≡ some id
      → lookup id state.sessions.sessions ≡ none
      → (is_authenticated http headers now state).0 ≡ false
  unfolding is_authenticated validate
  is_authenticated_without id on found gone = ground arith

  -- May this request read?
  abbrev pub IsOpen : Type 0
  IsOpen = (state.auth_enabled ≡ false) ⊎ HasSession http headers now state

  guarded_open :
      {A : Type 0} (answer : DashboardState → A)
      → IsOpen
      → guarded http headers now answer state
        ≡ (record { status = 200; set_cookie = none; body = some (answer state) }, state)
  unfolding guarded
  guarded_open answer h = rw (is_authenticated_complete h)

  guarded_shut :
      {A : Type 0} (answer : DashboardState → A)
      → ¬ IsOpen
      → (guarded http headers now answer state).0
        ≡ record { status = 401; set_cookie = none; body = none }
  unfolding guarded
  guarded_shut answer h = elim (Bool-cases (is_authenticated http headers now state).0) [
    | inl b ↦ absurd (h (is_authenticated_sound b))
    | inr b ↦ rw (b, guarded)
  ]

-- The three protected handlers answer 200 with their data, and change nothing, when no token is set
-- or the request carries a session that has not expired.
pub protected_handlers_open :
    (http : Http) (version : Text) (headers : Headers) (now : Instant) (state : DashboardState)
    → IsOpen http headers now state
    → (api_status http version headers now state ≡ (
      record {
        status = 200;
        set_cookie = none;
        body = some (record {
          status = text "running";
          version = version;
          connected_clients = count state.registry;
        });
      },
      state,
    ))
      × (api_clients http headers now state ≡ (
        record { status = 200; set_cookie = none; body = some (list now state.registry) },
        state,
      ))
      × (api_metrics http headers now state ≡ (
        record { status = 200; set_cookie = none; body = some (snapshot now state.metrics) },
        state,
      ))
unfolding api_status api_clients api_metrics
protected_handlers_open http version headers now state h = (
  guarded_open http headers now state _ h,
  guarded_open http headers now state _ h,
  guarded_open http headers now state _ h,
)

-- Where a token is set and the request carries no session that is still valid, the three protected
-- handlers answer 401 with no data.
pub protected_handlers_shut :
    (http : Http) (version : Text) (headers : Headers) (now : Instant) (state : DashboardState)
    → ¬ IsOpen http headers now state
    → ((api_status http version headers now state).0
        ≡ record { status = 401; set_cookie = none; body = none })
      × ((api_clients http headers now state).0
          ≡ record { status = 401; set_cookie = none; body = none })
      × ((api_metrics http headers now state).0
          ≡ record { status = 401; set_cookie = none; body = none })
unfolding api_status api_clients api_metrics
protected_handlers_shut http version headers now state h = (
  guarded_shut http headers now state _ h,
  guarded_shut http headers now state _ h,
  guarded_shut http headers now state _ h,
)
