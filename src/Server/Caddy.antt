-- ===== src/Server/Caddy.antt =====
-- caddy.rs: the on-demand TLS endpoint of a Caddy server, taken over and chained.
pub mod Chain
use mathlib.Core.List.{reverse}
use zo_tunnel.Prelude.{
  ℕ, Bool, true, false, not, ◌&&◌, ◌||◌, ◌==◌, Option, none, some, List, [], ◌∷◌, ◌++◌, Result, ok,
  err, is_empty, any, Text, text, text_eq, trim, take, if◌then◌else◌,
}

-- What the requests to Caddy use: `serde_json` on strings, and an answer to each request, which
-- may change the server that is asked.
pub record Caddy (S : Type 0) : Type 0 where
  pub from_json : Text → Option Text
  pub to_json : Text → Text
  pub get : Text → S → Option (ℕ × Text) × S
  pub patch : Text → Text → S → Option (ℕ × Text) × S

pub record CaddyManager : Type 0 where
  pub admin_api : Text
  pub our_endpoint : Text
  pub fallback_endpoint : Option Text

abbrev pub new : Text → Text → CaddyManager
new admin_api our_endpoint = record {
  admin_api = admin_api;
  our_endpoint = our_endpoint;
  fallback_endpoint = none;
}

unfoldable pub endpoint_url : CaddyManager → Text
endpoint_url m = m.admin_api ++ text "/config/apps/tls/automation/on_demand/permission/endpoint"

unfoldable pub drop_quotes : Text → Text
drop_quotes [] = []
drop_quotes (c ∷ s) = let rest = drop_quotes s in if c == b'"' then rest else c ∷ s

-- `s.trim_matches('"')`
unfoldable pub trim_quotes : Text → Text
unfolding drop_quotes
trim_quotes s = reverse (drop_quotes (reverse (drop_quotes s)))

pub data RegisterError : Type 0 where
  refused : ℕ → Text → RegisterError
  unreachable : RegisterError

module _ {S : Type 0} (caddy : Caddy S) where
  -- The endpoint in a body that Caddy sent.
  unfoldable pub parse_endpoint : Text → Text
  parse_endpoint body = elim (caddy.from_json (trim body)) [
    | none ↦ trim_quotes (trim body)
    | some endpoint ↦ endpoint
  ]

  -- The first half of `register`: an endpoint of another application becomes the fallback.
  unfoldable pub note_existing : CaddyManager → Option (ℕ × Text) → CaddyManager
  note_existing m none = m
  note_existing m (some (status, body)) =
      let existing = parse_endpoint body in
      if status == 200 && not (is_empty existing) && not (text_eq existing m.our_endpoint)
      then record m { fallback_endpoint = some existing }
      else m

  abbrev pub patch_answer : Option (ℕ × Text) → Result {0, 0} RegisterError Unit
  patch_answer none = err unreachable
  patch_answer (some (status, body)) =
      if status == 200 then ok tt else err (refused status (take 200 body))

  unfoldable pub register : CaddyManager → S → (Result {0, 0} RegisterError Unit × CaddyManager) × S
  register m s =
      let (got, s1) = caddy.get (endpoint_url m) s in
      let m' = note_existing m got in
      let (answer, s2) = caddy.patch (endpoint_url m) (caddy.to_json m.our_endpoint) s1 in
      ((patch_answer answer, m'), s2)

  -- Only the fallback is restored, and its outcome is only logged.
  unfoldable pub unregister : CaddyManager → S → S
  unregister m s = elim m.fallback_endpoint [
    | none ↦ s
    | some endpoint ↦ (caddy.patch (endpoint_url m) (caddy.to_json endpoint) s).1
  ]

  -- The second half of `check_and_reregister`, at the endpoint that Caddy has.
  unfoldable pub reregister : Text → CaddyManager → S → CaddyManager × S
  reregister current m s = if text_eq current m.our_endpoint then (m, s) else (
    if is_empty current then m else record m { fallback_endpoint = some current },
    (caddy.patch (endpoint_url m) (caddy.to_json m.our_endpoint) s).1,
  )

  unfoldable pub check_and_reregister : CaddyManager → S → CaddyManager × S
  check_and_reregister m s =
      let (got, s1) = caddy.get (endpoint_url m) s in
      elim got [
        | none ↦ (m, s1)
        | some (status, body) ↦
            if status == 200 then reregister (parse_endpoint body) m s1 else (m, s1)
      ]

  unfoldable pub check_fallback : CaddyManager → Text → S → Option ℕ × S
  check_fallback m domain s = elim m.fallback_endpoint [
    | none ↦ (none, s)
    | some endpoint ↦
        let separator = if any (λ c. c == b'?') endpoint then b'&' else b'?' in
        let (got, s1) = caddy.get (endpoint ++ separator ∷ text "domain=" ++ domain) s in
        (elim got [ none ↦ none | some (status, _) ↦ some status ], s1)
  ]
