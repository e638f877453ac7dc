-- ===== src/Server/Lifecycle/Doors.antt =====
-- The dashboard of a server that has just been started.
use zo_tunnel.Prelude.{
  ◌≡◌, refl, subst, remove, ap, ◌∙◌, sym, true, false, none, List, [], ◌∷◌, ℕ, All, Bool, Text,
  lookup, arith, Option-cases, inl, inr,
}
use zo_tunnel.Server.Clock.{Instant}
use zo_tunnel.Server.Config.{ServerConfig, validate_dashboard_token, dashboard_auth_enabled}
use zo_tunnel.Server.Http.{Http, Headers}
use zo_tunnel.Server.Dashboard.{
  DashboardState, check_cfg, validate, extract_session_id, is_authenticated, api_login,
  api_auth_check, api_logout, invalidate, api_status, api_clients, api_metrics,
}
use zo_tunnel.Server.Dashboard.Access.{IsOpen, protected_handlers_shut}
use zo_tunnel.Server.Dashboard.Life.{Event, logs_in, reads, logs_out, step, run}
use zo_tunnel.Server.Lifecycle.{dash_state}

module _ (http : Http) (ct_eq : List ℕ → List ℕ → Bool) (config : ServerConfig) where
  -- No login with a token that the settings accept.
  abbrev pub Fails : Event → Type 0
  Fails (logs_in headers token id now) = validate_dashboard_token ct_eq config token ≡ false
  Fails (reads headers now) = Unit
  Fails (logs_out headers) = Unit

  -- A token is set, that of the settings, and there is no session.
  record IsClosed (state : DashboardState) : Type 0 where
    enabled : state.auth_enabled ≡ true
    token : state.dashboard_token ≡ config.dashboard_auth.token
    none_there : state.sessions.sessions ≡ []

  closed-authenticated :
      (headers : Headers) (now : Instant) (state : DashboardState)
      → IsClosed state
      → is_authenticated http headers now state ≡ (false, state)
  unfolding is_authenticated validate lookup
  closed-authenticated headers now state c = elim (Option-cases (extract_session_id http headers)) [
    | inl missing ↦ ground (arith, c.enabled)
    | inr (id, found) ↦ ground (arith, c.enabled, ap (lookup id) c.none_there)
  ]

  closed-shut :
      (headers : Headers) (now : Instant) (state : DashboardState)
      → IsClosed state
      → ¬ IsOpen http headers now state
  unfolding lookup
  closed-shut headers now state c (inl off) = ground (arith, c.enabled)
  closed-shut headers now state c (inr (id, t, found, there, young)) =
      ground (arith, ap (lookup id) c.none_there)

  -- The token that a login is checked against is that of the settings.
  closed-validate :
      (token : Text) (state : DashboardState)
      → IsClosed state
      → validate_dashboard_token ct_eq (check_cfg state) token
        ≡ validate_dashboard_token ct_eq config token
  unfolding validate_dashboard_token dashboard_auth_enabled
  closed-validate token state c =
      ap
        (λ t.
          validate_dashboard_token ct_eq
            (record config { dashboard_auth = record config.dashboard_auth { token = t } }) token)
        c.token

  login-fails :
      (headers : Headers) (token id : Text) (now : Instant) (state : DashboardState)
      → state.auth_enabled ≡ true
      → is_authenticated http headers now state ≡ (false, state)
      → validate_dashboard_token ct_eq (check_cfg state) token ≡ false
      → (api_login http ct_eq headers token id now state).1 ≡ state
  unfolding api_login
  login-fails headers token id now state enabled none_ wrong = ground arith

  logout-IsClosed :
      (headers : Headers) (state : DashboardState)
      → IsClosed state
      → IsClosed (api_logout http headers state).1
  unfolding api_logout invalidate remove
  logout-IsClosed headers state c = elim (Option-cases (extract_session_id http headers)) [
    | inl missing ↦ rw (missing, api_logout) c
    | inr (id, found) ↦
        rw (found, api_logout)
          (record {
            enabled = c.enabled;
            token = c.token;
            none_there = ap (remove id) c.none_there;
          })
  ]

  step-IsClosed :
      (state : DashboardState) (e : Event)
      → Fails e
      → IsClosed state
      → IsClosed (step http ct_eq state e)
  unfolding step api_auth_check
  step-IsClosed state (logs_in headers token id now) wrong c =
      subst IsClosed
        (sym (
          login-fails headers token id now state c.enabled
            (closed-authenticated headers now state c) (closed-validate token state c ∙ wrong)))
        c
  step-IsClosed state (reads headers now) wrong c =
      subst IsClosed (sym (ap (λ x. x.1) (closed-authenticated headers now state c))) c
  step-IsClosed state (logs_out headers) wrong c = logout-IsClosed headers state c

  run-IsClosed :
      (state : DashboardState) (events : List Event)
      → All Fails events
      → IsClosed state
      → IsClosed (run http ct_eq state events)
  unfolding run
  run-IsClosed state [] wrong c = c
  run-IsClosed state (e ∷ events) (wrong, wrongs) c =
      run-IsClosed (step http ct_eq state e) events wrongs (step-IsClosed state e wrong c)

  -- Where a dashboard's token is configured, the dashboard of a server that was just started answers
  -- 401 with no data on each of its protected pages, to any request at any time, whatever logins,
  -- checks and logouts came before, as long as no login had the token that is configured.
  pub dash_state-shut :
      (started_at now : Instant) (version : Text) (headers : Headers) (events : List Event)
      → dashboard_auth_enabled config ≡ true
      → All Fails events
      → ((api_status http version headers now
            (run http ct_eq (dash_state started_at config) events)).0
          ≡ record { status = 401; set_cookie = none; body = none })
        × ((api_clients http headers now (run http ct_eq (dash_state started_at config) events)).0
            ≡ record { status = 401; set_cookie = none; body = none })
        × ((api_metrics http headers now (run http ct_eq (dash_state started_at config) events)).0
            ≡ record { status = 401; set_cookie = none; body = none })
  unfolding dash_state
  dash_state-shut started_at now version headers events enabled wrong =
      let state = run http ct_eq (dash_state started_at config) events in
      protected_handlers_shut http version headers now state (
        closed-shut headers now state (
          run-IsClosed (dash_state started_at config) events wrong
            (record { enabled = enabled; token = refl; none_there = refl })))
