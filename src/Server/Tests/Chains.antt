-- ===== src/Server/Tests/Chains.antt =====
-- A server's run beside a concrete Caddy server.
use zo_tunnel.Prelude.{
  ◌≡◌, refl, List, true, false, ok, err, some, [], ◌∷◌, Text, text, ◌+◌, ◌-◌, ap, ◌∙◌, map,
  trim-IsSolid, is_whitespace, IsSolid, arith,
}
use zo_tunnel.Server.Caddy.{Caddy, endpoint_url}
use zo_tunnel.Server.Config.{ServerConfig}
use zo_tunnel.Server.Lifecycle.{Event, interrupted, returned, bind_public_port, our_endpoint, run}
use zo_tunnel.Server.Lifecycle.Handover.{
  Turn, IsForeign, manager, looks, claims, events, run-hands_over, run-strands,
}
use zo_tunnel.Server.Tests.Samples.{sample_config}
use zo_tunnel.Server.Caddy.Chain.{CaddyLaws}

-- A Caddy server whose state is its endpoint; its strings are written with other characters.
abbrev shifted : Text → Text
shifted t = map (λ c. c + 0x110000) t

abbrev shifted_back : Text → Text
shifted_back t = map (λ c. c - 0x110000) t

shifted-IsSolid : (t : Text) → IsSolid (shifted t)
unfolding is_whitespace
shifted-IsSolid [] = tt
shifted-IsSolid (c ∷ t) = (ground arith, shifted-IsSolid t)

shifted_back-shifted : (t : Text) → shifted_back (shifted t) ≡ t
shifted_back-shifted [] = refl
shifted_back-shifted (c ∷ t) =
    let same : c + 0x110000 - 0x110000 ≡ c = omega arith in cc (same, shifted_back-shifted t)

abbrev caddy : Caddy Text
caddy = record {
  from_json = λ t. some (shifted_back t);
  to_json = shifted;
  get = λ url s. (some (200, shifted s), s);
  patch = λ url body s. (some (200, []), shifted_back body);
}

caddy-laws : (url : Text) → CaddyLaws caddy url (λ s. s)
caddy-laws url = record {
  from_json-to_json = λ e.
      ap some
        (ap shifted_back (trim-IsSolid (shifted e) (shifted-IsSolid e)) ∙ shifted_back-shifted e);
  get-endpoint = λ s. refl;
  patch-accepted = λ e s. refl;
  endpoint-patch = λ e s. shifted_back-shifted e;
}

abbrev other_app : Text
other_app = text "http://localhost:2615/check"

abbrev config : ServerConfig
config = record sample_config {
  caddy = record { enabled = true; admin_api = text "http://localhost:2019" };
}

abbrev late_app : Text
late_app = text "http://localhost:2616/ask"

late-IsForeign : IsForeign config late_app
unfolding our_endpoint
late-IsForeign = ((λ e. ground arith), (λ e. ground arith))

other-IsForeign : IsForeign config other_app
unfolding our_endpoint
other-IsForeign = ((λ e. ground arith), (λ e. ground arith))

abbrev turns : List Turn
turns = claims late_app ∷ looks ∷ claims other_app ∷ []

abbrev laws : CaddyLaws caddy (endpoint_url (manager config)) (λ s. s)
laws = caddy-laws (endpoint_url (manager config))

abbrev happens : List (Event Text)
happens = events caddy (λ s. s) (λ e s. e) config laws (λ e s. refl) turns

-- Another application takes the endpoint, the watchdog takes it back, and a third comes too late.
run-hands_over_example :
    ((run caddy true true config happens interrupted other_app).0 ≡ ok returned)
    × ((run caddy true true config happens interrupted other_app).1 ≡ late_app)
run-hands_over_example =
    run-hands_over caddy (λ s. s) (λ e s. e) config laws (λ e s. refl) interrupted turns other_app
      (λ e. ground arith) refl other-IsForeign (late-IsForeign, (other-IsForeign, tt))

run-strands_example :
    ((run caddy true false config [] interrupted other_app).0 ≡ err (bind_public_port 6210))
    × ((run caddy true false config [] interrupted other_app).1 ≡ our_endpoint config)
run-strands_example =
    run-strands caddy (λ s. s) (λ e s. e) config laws (λ e s. refl) [] interrupted other_app
      (λ e. ground arith) refl other-IsForeign
