-- ===== src/Server/Caddy/Chain.antt =====
-- The endpoint of a Caddy server, taken over, kept and given back.
use zo_tunnel.Prelude.{
  ◌≡◌, ◌≢◌, refl, ap, ◌∙◌, not, ◌&&◌, Option, some, [], ◌∷◌, ok, is_empty, Text, text_eq,
  text_eq_iff, trim, arith, if◌then◌else◌,
}
use zo_tunnel.Server.Caddy.{
  Caddy, CaddyManager, endpoint_url, parse_endpoint, note_existing, register, unregister,
  reregister, check_and_reregister,
}

-- What the code relies on of Caddy and `serde_json`: a string is read back as it was written; the
-- endpoint is served as such a string, and a change of it is accepted and made.
pub record CaddyLaws {S : Type 0} (caddy : Caddy S) (url : Text) (endpoint : S → Text)
    : Type 0 where
  pub from_json-to_json : (e : Text) → caddy.from_json (trim (caddy.to_json e)) ≡ some e
  pub get-endpoint : (s : S) → caddy.get url s ≡ (some (200, caddy.to_json (endpoint s)), s)
  pub patch-accepted : (e : Text) (s : S) → (caddy.patch url (caddy.to_json e) s).0 ≡ some (200, [])
  pub endpoint-patch : (e : Text) (s : S) → endpoint (caddy.patch url (caddy.to_json e) s).1 ≡ e

-- The fallback that a manager has once it saw an endpoint.
abbrev pub chained : CaddyManager → Text → Option Text
chained m existing =
    if not (is_empty existing) && not (text_eq existing m.our_endpoint)
    then some existing
    else m.fallback_endpoint

pub chained-foreign :
    (m : CaddyManager) (e : Text) → e ≢ [] → e ≢ m.our_endpoint → chained m e ≡ some e
chained-foreign m [] ne other = absurd (ne refl)
chained-foreign m (c ∷ e) ne other = ground (arith, text_eq_iff (c ∷ e) m.our_endpoint)

pub chained-ours : (m : CaddyManager) → chained m m.our_endpoint ≡ m.fallback_endpoint
chained-ours m = ground (arith, text_eq_iff m.our_endpoint m.our_endpoint)

module _ {S : Type 0} (caddy : Caddy S) (endpoint : S → Text) (m : CaddyManager)
    (laws : CaddyLaws caddy (endpoint_url m) endpoint) where
  parsed : (s : S) → parse_endpoint caddy (caddy.to_json (endpoint s)) ≡ endpoint s
  unfolding parse_endpoint
  parsed s = rw (laws.from_json-to_json (endpoint s), parse_endpoint) refl

  noted :
      (s : S)
      → note_existing caddy m (some (200, caddy.to_json (endpoint s)))
        ≡ record m { fallback_endpoint = chained m (endpoint s) }
  unfolding note_existing
  noted s = ground (arith, parsed s)

  -- Where Caddy serves and accepts its endpoint, `register` succeeds, makes the server the
  -- endpoint, and keeps an endpoint of another application, and nothing else, as the fallback.
  pub register-takes :
      (s : S)
      → ((register caddy m s).0.0 ≡ ok tt)
        × (endpoint (register caddy m s).1 ≡ m.our_endpoint)
        × ((register caddy m s).0.1 ≡ record m { fallback_endpoint = chained m (endpoint s) })
  unfolding register note_existing
  register-takes s = rw (laws.get-endpoint s) (
    ground (arith, laws.patch-accepted m.our_endpoint s),
    laws.endpoint-patch m.our_endpoint s,
    noted s,
  )

  -- Where Caddy serves and accepts its endpoint and another application had it, `unregister`
  -- behind `register` gives it back.
  pub unregister-register :
      (s : S)
      → endpoint s ≢ []
      → endpoint s ≢ m.our_endpoint
      → endpoint (unregister caddy (register caddy m s).0.1 (register caddy m s).1) ≡ endpoint s
  unfolding unregister endpoint_url
  unregister-register s ne other =
      let (_, _, kept) = register-takes s in
      let here : (register caddy m s).0.1 ≡ record m { fallback_endpoint = some (endpoint s) } =
        kept
        ∙ ap (λ o. record m { fallback_endpoint = o }) (chained-foreign m (endpoint s) ne other) in
      rw here (laws.endpoint-patch (endpoint s) (register caddy m s).1)

  reregister-chains :
      (e : Text) (s : S)
      → endpoint s ≡ e
      → (endpoint (reregister caddy e m s).1 ≡ m.our_endpoint)
        × ((reregister caddy e m s).0 ≡ record m { fallback_endpoint = chained m e })
  unfolding reregister
  reregister-chains [] s at =
      ground (arith, text_eq_iff [] m.our_endpoint, laws.endpoint-patch m.our_endpoint s)
  reregister-chains (c ∷ e) s at =
      ground (arith, text_eq_iff (c ∷ e) m.our_endpoint, laws.endpoint-patch m.our_endpoint s)

  -- Where Caddy serves and accepts its endpoint, the server is the endpoint after a check of the
  -- watchdog, whatever it was before; an endpoint of another application has become the fallback.
  pub check_and_reregister-retakes :
      (s : S)
      → (endpoint (check_and_reregister caddy m s).1 ≡ m.our_endpoint)
        × ((check_and_reregister caddy m s).0
            ≡ record m { fallback_endpoint = chained m (endpoint s) })
  unfolding check_and_reregister
  check_and_reregister-retakes s =
      rw (laws.get-endpoint s, check_and_reregister)
        (rw (laws.get-endpoint s) (rw (parsed s) (reregister-chains (endpoint s) s refl)))
