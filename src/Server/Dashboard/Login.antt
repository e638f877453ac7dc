-- ===== src/Server/Dashboard/Login.antt =====
-- From a login to the logout: what the cookie of a session is good for, and how long.
use zo_tunnel.Prelude.{
  ℕ, ◌≡◌, ◌<◌, refl, ap, ◌∙◌, Bool, true, false, none, some, List, [], ◌++◌, Text, text,
  append_assoc, decimal, text_eq_refl, All, Lacks, first_piece, first_piece-append, lookup,
  lookup-remove, strip_prefix, trim, trim_start, arith, inl, inr,
}
use zo_tunnel.Server.Clock.{Instant, secs_since}
use zo_tunnel.Server.Config.{validate_dashboard_token}
use zo_tunnel.Server.Http.{Http, Headers, header_str}
use zo_tunnel.Server.Dashboard.{
  DashboardState, invalidate, extract_session_id, is_authenticated, api_login, api_logout,
  check_cfg, build_session_cookie,
}
use zo_tunnel.Server.Dashboard.Cookies.{IsIdentifier, pair, pair-Lacks, extract_session_id-pair}
use zo_tunnel.Server.Dashboard.Access.{is_authenticated_iff, is_authenticated_without}
use zo_tunnel.Server.Dashboard.Life.{
  Event, run, Spares, Forgets, run-Spares, run-Forgets, login_stores,
}

nothing-misses : strip_prefix (trim []) (text "zo-session") ≡ none
unfolding strip_prefix trim trim_start
nothing-misses = refl

-- What stands behind the pair in a session cookie, up to the number of seconds.
abbrev attributes : Text
attributes = text "; Path=/; HttpOnly; SameSite=Strict; Max-Age="

cookie-pair :
    (id : Text) (ttl : ℕ) (tls : Bool)
    → Lacks b';' id
    → first_piece b';' (build_session_cookie id ttl tls) ≡ pair id
unfolding build_session_cookie
cookie-pair id ttl true h =
    ap (λ t. first_piece b';' (pair t))
      (append_assoc id (attributes ++ decimal ttl) (text "; Secure"))
    ∙ first_piece-append b';' (pair id) _ (pair-Lacks id h)
cookie-pair id ttl false h = first_piece-append b';' (pair id) _ (pair-Lacks id h)

module _ (http : Http) (ct_eq : List ℕ → List ℕ → Bool) where
  -- A login that answers with a cookie was made with the token of the dashboard. For an identifier
  -- that is not empty and has neither white space nor a semicolon, the part of the cookie that a
  -- client sends back authenticates its requests until the session has lived for its time to live,
  -- whatever logins, checks and logouts with other identifiers come in between.
  pub login_lasts :
      (headers headers' : Headers) (token id cookie : Text) (t0 now : Instant)
      (state : DashboardState) (events : List Event)
      → IsIdentifier id
      → (api_login http ct_eq headers token id t0 state).0.set_cookie ≡ some cookie
      → All
          (Spares http id t0 (api_login http ct_eq headers token id t0 state).1.sessions.ttl_secs)
          events
      → header_str http (text "cookie") headers' ≡ some (first_piece b';' cookie)
      → secs_since t0 now < (api_login http ct_eq headers token id t0 state).1.sessions.ttl_secs
      → (validate_dashboard_token ct_eq (check_cfg state) token ≡ true)
        × ((is_authenticated http headers' now
              (run http ct_eq (api_login http ct_eq headers token id t0 state).1 events)).0
            ≡ true)
  login_lasts headers headers' token id cookie t0 now state events (ne, solid, lacks) e spared sent
        young =
      let after = (api_login http ct_eq headers token id t0 state).1 in
      let (stored, (tls, made), right) =
        login_stores http ct_eq headers token id cookie t0 state e in
      let (there, same) =
        run-Spares http ct_eq id t0 after.sessions.ttl_secs after events stored refl spared in
      let back : first_piece b';' cookie ≡ pair id =
        ap (first_piece b';') made ∙ cookie-pair id after.sessions.ttl_secs tls lacks in
      let found : extract_session_id http headers' ≡ some id =
        extract_session_id-pair http headers' id [] (ne, solid, lacks) tt nothing-misses
          (inl (sent ∙ ap some back)) in
      (
        right,
        (is_authenticated_iff http headers' now (run http ct_eq after events)).1
            (inr (id, t0, found, there, rw same young)),
      )

  -- Where a token is set, a session that has logged out authenticates no request any more, at any
  -- time, as long as no login is given the same identifier.
  pub logout_ends :
      (headers headers' : Headers) (id : Text) (now : Instant) (state : DashboardState)
      (events : List Event)
      → state.auth_enabled ≡ true
      → extract_session_id http headers ≡ some id
      → All (Forgets id) events
      → extract_session_id http headers' ≡ some id
      → (is_authenticated http headers' now
          (run http ct_eq (api_logout http headers state).1 events)).0
        ≡ false
  unfolding api_logout invalidate
  logout_ends headers headers' id now state events on left forgets again =
      let after = (api_logout http headers state).1 in
      let out : after ≡ record state { sessions = invalidate id state.sessions } =
        rw (left, api_logout) refl in
      let gone : lookup id after.sessions.sessions ≡ none =
        rw out (ground (arith, text_eq_refl id, lookup-remove id id state.sessions.sessions)) in
      let (gone', same) = run-Forgets http ct_eq id after events gone forgets in
      let enabled : (run http ct_eq after events).auth_enabled ≡ true =
        same ∙ ap (λ (s : DashboardState). s.auth_enabled) out ∙ on in
      is_authenticated_without http headers' now (run http ct_eq after events) id enabled again
        gone'
