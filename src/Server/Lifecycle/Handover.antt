-- ===== src/Server/Lifecycle/Handover.antt =====
-- Server::run: which application has Caddy's endpoint when the server has stopped.
use zo_tunnel.Prelude.{
  ◌≡◌, ◌≢◌, ◌⊎◌, inl, inr, refl, sym, ◌∙◌, ap, true, false, Option, some, List, [], ◌∷◌, ok, err,
  Text, is_empty,
}
use zo_tunnel.Server.Config.{ServerConfig}
use zo_tunnel.Server.Caddy.{
  Caddy, CaddyManager, new, endpoint_url, register, unregister, check_and_reregister,
}
use zo_tunnel.Server.Caddy.Chain.{
  CaddyLaws, chained, chained-foreign, chained-ours, register-takes, check_and_reregister-retakes,
}
use zo_tunnel.Server.Lifecycle.{
  bind_public_port, Event, watched, other, our_endpoint, Stop, interrupted, control_ended,
  terminated, Exit, returned, killed, start_caddy, serve, stopped_by, clean_up, run,
}

-- The manager that a configuration leads to.
abbrev pub manager : ServerConfig → CaddyManager
manager config = new config.caddy.admin_api (our_endpoint config)

-- What happens while the server runs, where others do nothing but claim the endpoint.
pub data Turn : Type 0 where
  looks : Turn
  claims : Text → Turn

-- The endpoint that another application had when the server looked last: `last` is the one it saw
-- before, `now` the one that has been claimed since.
abbrev pub seen : Text → Text → List Turn → Text
seen last now [] = last
seen last now (looks ∷ turns) = seen now now turns
seen last now (claims e ∷ turns) = seen last e turns

-- The endpoint that stands at Caddy.
abbrev pub standing : ServerConfig → Text → List Turn → Text
standing config now [] = now
standing config now (looks ∷ turns) = standing config (our_endpoint config) turns
standing config now (claims e ∷ turns) = standing config e turns

-- What is left at Caddy behind a server that found `start` there.
abbrev pub left_by : ServerConfig → Text → Stop → List Turn → Text
left_by config start terminated turns = standing config (our_endpoint config) turns
left_by config start _ turns = seen start start turns

abbrev pub exit_of : Stop → Exit
exit_of terminated = killed
exit_of _ = returned

-- An endpoint that is there and is not ours.
abbrev pub IsForeign : ServerConfig → Text → Type 0
IsForeign config e = (e ≢ []) × (e ≢ our_endpoint config)

abbrev pub AreForeign : ServerConfig → List Turn → Type 0
AreForeign config [] = Unit
AreForeign config (looks ∷ turns) = AreForeign config turns
AreForeign config (claims e ∷ turns) = IsForeign config e × AreForeign config turns

nonempty : (s : Text) → s ≢ [] → is_empty s ≡ false
nonempty [] ne = absurd (ne refl)
nonempty (c ∷ s) ne = refl

module _ {S : Type 0} (caddy : Caddy S) (endpoint : S → Text) (claim : Text → S → S)
    (config : ServerConfig) (laws : CaddyLaws caddy (endpoint_url (manager config)) endpoint)
    (claimed : (e : Text) (s : S) → endpoint (claim e s) ≡ e) where
  abbrev pub event : Turn → Event S
  event looks = watched
  event (claims e) = other (claim e)

  abbrev pub events : List Turn → List (Event S)
  events [] = []
  events (t ∷ turns) = event t ∷ events turns

  abbrev with_fallback : Text → CaddyManager
  with_fallback last = record (manager config) { fallback_endpoint = some last }

  -- Where the endpoint stands: with us, or with an application that we have not seen there.
  abbrev Holds : Text → Text → S → Type 0
  Holds last now s =
      ((endpoint s ≡ our_endpoint config) × (now ≡ last))
      ⊎ ((endpoint s ≡ now) × IsForeign config now)

  laws' : (last : Text) → CaddyLaws caddy (endpoint_url (with_fallback last)) endpoint
  unfolding endpoint_url
  laws' last = laws

  -- The Caddy server behind the registration.
  abbrev registered : S → S
  registered s = (register caddy (manager config) s).1

  started :
      (s : S)
      → config.caddy.enabled ≡ true
      → IsForeign config (endpoint s)
      → (start_caddy caddy config s ≡ (some (with_fallback (endpoint s)), registered s))
        × (endpoint (registered s) ≡ our_endpoint config)
  unfolding start_caddy
  started s enabled (ne, foreign) =
      let (accepted, ours, m) = register-takes caddy endpoint (manager config) laws s in
      let first : (register caddy (manager config) s).0.1 ≡ with_fallback (endpoint s) =
        m
        ∙ ap (λ o. record (manager config) { fallback_endpoint = o })
            (chained-foreign (manager config) (endpoint s) ne foreign) in
      (rw enabled (rw accepted (rw first refl)), ours)

  abbrev kept : Text → Option Text → CaddyManager
  kept last o = record (with_fallback last) { fallback_endpoint = o }

  -- What the manager keeps when the watchdog looks.
  chained-seen :
      (last now : Text) (s : S)
      → Holds last now s
      → chained (with_fallback last) (endpoint s) ≡ some now
  chained-seen last now s (inl (at, same)) =
      ap (chained (with_fallback last)) at ∙ chained-ours (with_fallback last) ∙ ap some (sym same)
  chained-seen last now s (inr (at, (ne, foreign))) =
      ap (chained (with_fallback last)) at ∙ chained-foreign (with_fallback last) now ne foreign

  looked :
      (last now : Text) (s : S)
      → Holds last now s
      → ((check_and_reregister caddy (with_fallback last) s).0 ≡ with_fallback now)
        × Holds now now (check_and_reregister caddy (with_fallback last) s).1
  looked last now s h =
      let (ours, m) =
        check_and_reregister-retakes caddy endpoint (with_fallback last) (laws' last) s in
      (m ∙ ap (kept last) (chained-seen last now s h), inl (ours, refl))

  serve-seen :
      (turns : List Turn) (last now : Text) (s : S)
      → AreForeign config turns
      → Holds last now s
      → endpoint (clean_up caddy (serve caddy (events turns) (some (with_fallback last), s)))
        ≡ seen last now turns
  unfolding serve clean_up unregister endpoint_url
  serve-seen [] last now s f h = laws.endpoint-patch last s
  serve-seen (looks ∷ turns) last now s f h =
      let (m, h') = looked last now s h in
      rw m (serve-seen turns now now (check_and_reregister caddy (with_fallback last) s).1 f h')
  serve-seen (claims e ∷ turns) last now s (foreign, f) h =
      serve-seen turns last e (claim e s) f (inr (claimed e s, foreign))

  serve-standing :
      (turns : List Turn) (last now : Text) (s : S)
      → AreForeign config turns
      → Holds last now s
      → endpoint (serve caddy (events turns) (some (with_fallback last), s)).1
        ≡ standing config (endpoint s) turns
  unfolding serve
  serve-standing [] last now s f h = refl
  serve-standing (looks ∷ turns) last now s f h =
      let (m, h') = looked last now s h in
      let (ours, _) =
        check_and_reregister-retakes caddy endpoint (with_fallback last) (laws' last) s in
      let s' = (check_and_reregister caddy (with_fallback last) s).1 in
      rw m (serve-standing turns now now s' f h' ∙ ap (λ e. standing config e turns) ours)
  serve-standing (claims e ∷ turns) last now s (foreign, f) h =
      serve-standing turns last e (claim e s) f (inr (claimed e s, foreign))
      ∙ ap (λ a. standing config a turns) (claimed e s)

  stopped-leaves :
      (stop : Stop) (turns : List Turn) (start : Text) (s : S)
      → AreForeign config turns
      → Holds start start s
      → endpoint s ≡ our_endpoint config
      → let (exit, s') =
          stopped_by caddy stop (serve caddy (events turns) (some (with_fallback start), s)) in
        (exit ≡ exit_of stop) × (endpoint s' ≡ left_by config start stop turns)
  unfolding stopped_by
  stopped-leaves terminated turns start s f h ours =
      (refl, serve-standing turns start start s f h ∙ ap (λ a. standing config a turns) ours)
  stopped-leaves interrupted turns start s f h ours = (refl, serve-seen turns start start s f h)
  stopped-leaves control_ended turns start s f h ours = (refl, serve-seen turns start start s f h)

  -- Where a domain and Caddy are configured, Caddy serves and accepts its endpoint, and an endpoint of
  -- another application stands there at the start: a server that gets its two ports and ends by Ctrl-C
  -- or with its control task leaves there the endpoint that another application had when it looked
  -- last, at the start or by its watchdog, whatever others have claimed since, each an endpoint of its
  -- own. A server that SIGTERM ends leaves there what stands there: its own endpoint, unless another
  -- has claimed it since it looked.
  pub run-hands_over :
      (stop : Stop) (turns : List Turn) (s : S)
      → config.domain ≢ []
      → config.caddy.enabled ≡ true
      → IsForeign config (endpoint s)
      → AreForeign config turns
      → ((run caddy true true config (events turns) stop s).0 ≡ ok (exit_of stop))
        × (endpoint (run caddy true true config (events turns) stop s).1
            ≡ left_by config (endpoint s) stop turns)
  unfolding run
  run-hands_over stop turns s domain enabled foreign f =
      let (first, ours) = started s enabled foreign in
      let named : is_empty config.domain ≡ false = nonempty config.domain domain in
      let (exit, left) =
        stopped-leaves stop turns (endpoint s) (registered s) f (inl (ours, refl)) ours in
      rw named (rw first (ap ok exit, left))

  -- Where a domain and Caddy are configured, Caddy serves and accepts its endpoint, and an endpoint of
  -- another application stands there at the start: a server that gets its control port but not its
  -- public port fails, and leaves its own endpoint there in the place of the other.
  pub run-strands :
      (es : List (Event S)) (stop : Stop) (s : S)
      → config.domain ≢ []
      → config.caddy.enabled ≡ true
      → IsForeign config (endpoint s)
      → ((run caddy true false config es stop s).0 ≡ err (bind_public_port config.public_port))
        × (endpoint (run caddy true false config es stop s).1 ≡ our_endpoint config)
  unfolding run
  run-strands es stop s domain enabled foreign =
      let (first, ours) = started s enabled foreign in
      let named : is_empty config.domain ≡ false = nonempty config.domain domain in
      rw named (refl, rw first ours)
