-- ===== src/Server/Session/Ownership.antt =====
-- Many sessions on one registry: every task runs `handle_client`, and clients come and go in any order.
use zo_tunnel.Prelude.{
  ℕ, zero, suc, ◌≡◌, ◌≢◌, sym, ap, ◌∙◌, subst, Bool, true, Option, none, some, List, [], ◌∷◌,
  Result, ok, err, get_elem?, remove_at, Text, text_eq, text_eq_iff, Assoc, lookup, lookup-insert,
  lookup-remove, lookup-none, Absent, Absent-lookup, HasDistinctKeys, inl, inr, Option-cases,
  if◌then◌else◌, arith,
}
use zo_tunnel.Protocol.Stream.{Stream}
use zo_tunnel.Protocol.Codec.{Wire}
use zo_tunnel.Server.Clock.{Instant}
use zo_tunnel.Server.Config.{ServerConfig}
use zo_tunnel.Server.Metrics.{Metrics}
use zo_tunnel.Server.Registry.{Registry, unregister}
use zo_tunnel.Server.Session.{Control, SessionError, Serving, accept, start, finish}
use zo_tunnel.Server.Session.Entries.{Entered, start-Entered}

-- The server's side of all sessions: the clients that are being served, in no particular order.
pub record Sessions : Type 0 where
  pub registry : Registry
  pub metrics : Metrics
  pub serving : List Serving

-- A connection that is accepted, with what it sends and when; and a driver that ends.
pub data Event : Type 0 where
  connects : ℕ → Instant → Bool → Stream → Event
  ends : ℕ → Event

abbrev pub admit : List Serving → Result SessionError (Option Serving) × Control → Sessions
admit serving (ok (some s), c) = record {
  registry = c.registry;
  metrics = c.metrics;
  serving = s ∷ serving;
}
admit serving (ok none, c) = record {
  registry = c.registry;
  metrics = c.metrics;
  serving = serving;
}
admit serving (err e, c) = record { registry = c.registry; metrics = c.metrics; serving = serving }

module _ (w : Wire) (config : ServerConfig) where
  unfoldable pub step : Sessions → Event → Sessions
  step s (connects handle now timely stream) = admit s.serving (
      start w config handle now timely
        (record { stream = stream; registry = s.registry; metrics = accept s.metrics }))
  step s (ends i) = elim (get_elem? s.serving i) [
    | none ↦ s
    | some client ↦ record s {
      registry = finish client s.registry;
      serving = remove_at s.serving i;
    }
  ]

  unfoldable pub run : Sessions → List Event → Sessions
  unfolding step
  run s [] = s
  run s (e ∷ events) = run (step s e) events

-- The names and places of the clients that are served.
abbrev pub held : List Serving → Assoc ℕ
held [] = []
held (s ∷ serving) = (s.client_id, s.place) ∷ held serving

-- The registry maps the names of the clients that are served, and no other, to their places, and
-- no two of them have the same name.
pub record IsOwned (s : Sessions) : Type 0 where
  pub same : (k : Text) → lookup k s.registry.clients ≡ lookup k (held s.serving)
  pub distinct : HasDistinctKeys (held s.serving)

Absent-remove_at :
    (k : Text) (serving : List Serving) (i : ℕ)
    → Absent k (held serving)
    → Absent k (held (remove_at serving i))
Absent-remove_at k [] i h = tt
Absent-remove_at k (s ∷ serving) zero (h, hs) = hs
Absent-remove_at k (s ∷ serving) (suc i) (h, hs) = (h, Absent-remove_at k serving i hs)

remove_at-HasDistinctKeys :
    (serving : List Serving) (i : ℕ)
    → HasDistinctKeys (held serving)
    → HasDistinctKeys (held (remove_at serving i))
remove_at-HasDistinctKeys [] i d = tt
remove_at-HasDistinctKeys (s ∷ serving) zero (h, d) = d
remove_at-HasDistinctKeys (s ∷ serving) (suc i) (h, d) =
    (Absent-remove_at s.client_id serving i h, remove_at-HasDistinctKeys serving i d)

Absent-served :
    (k : Text) (serving : List Serving) (i : ℕ) (client : Serving)
    → Absent k (held serving)
    → get_elem? serving i ≡ some client
    → client.client_id ≢ k
Absent-served k [] i client h at = absurd (ground arith)
Absent-served k (s ∷ serving) zero client (h, hs) at = ground arith
Absent-served k (s ∷ serving) (suc i) client (h, hs) at = Absent-served k serving i client hs at

lookup-remove_at :
    (k : Text) (serving : List Serving) (i : ℕ) (client : Serving)
    → HasDistinctKeys (held serving)
    → get_elem? serving i ≡ some client
    → lookup k (held (remove_at serving i))
      ≡ (if text_eq client.client_id k then none else lookup k (held serving))
unfolding lookup
lookup-remove_at k [] i client d at = absurd (ground arith)
lookup-remove_at k (s ∷ serving) zero client (h, d) at =
    let gone : text_eq s.client_id k ≡ true → lookup k (held serving) ≡ none = λ e.
      Absent-lookup k (held serving)
        (subst (λ n. Absent n (held serving)) ((text_eq_iff s.client_id k).0 e) h) in
    ground arith
lookup-remove_at k (s ∷ serving) (suc i) client (h, d) at = ground (
  arith,
  text_eq_iff s.client_id k,
  text_eq_iff client.client_id k,
  Absent-served s.client_id serving i client h at,
  lookup-remove_at k serving i client d at,
)

module _ (w : Wire) (config : ServerConfig) where
  admit-IsOwned :
      (s : Sessions) (out : Result SessionError (Option Serving) × Control)
      → IsOwned s
      → Entered s.registry out
      → IsOwned (admit s.serving out)
  unfolding lookup
  admit-IsOwned s (ok (some client), c) h (absent, there) =
      let name = client.client_id in
      record {
        same = λ k.
            ap (lookup k) there
            ∙ lookup-insert name k client.place s.registry.clients
            ∙ ap (λ o. if text_eq name k then some client.place else o) (h.same k);
        distinct = (lookup-none name (held s.serving) (sym (h.same name) ∙ absent), h.distinct);
      }
  admit-IsOwned s (ok none, c) h e = record {
    same = λ k. ap (λ (r : Registry). lookup k r.clients) e ∙ h.same k;
    distinct = h.distinct;
  }
  admit-IsOwned s (err x, c) h e = record {
    same = λ k. ap (λ (r : Registry). lookup k r.clients) e ∙ h.same k;
    distinct = h.distinct;
  }

  step-IsOwned : (s : Sessions) (e : Event) → IsOwned s → IsOwned (step w config s e)
  unfolding step finish unregister
  step-IsOwned s (connects handle now timely stream) h =
      let c : Control = record {
        stream = stream;
        registry = s.registry;
        metrics = accept s.metrics;
      } in
      admit-IsOwned s (start w config handle now timely c) h
        (start-Entered w config handle now timely c)
  step-IsOwned s (ends i) h = elim (Option-cases (get_elem? s.serving i)) [
    | inl e ↦ rw (e, step) h
    | inr (client, at) ↦
        rw (at, step)
          (record {
            same = λ k.
                lookup-remove client.client_id k s.registry.clients
                ∙ ap (λ o. if text_eq client.client_id k then none else o) (h.same k)
                ∙ sym (lookup-remove_at k s.serving i client h.distinct at);
            distinct = remove_at-HasDistinctKeys s.serving i h.distinct;
          })
  ]

  -- From a state in which the registry holds exactly the clients that are being served, each under
  -- its name and at its place, and no name twice, any order of connections and ends leads to such
  -- a state: a session that ends removes its own name only, and one that was refused removes none.
  pub run-IsOwned :
      (s : Sessions) (events : List Event) → IsOwned s → IsOwned (run w config s events)
  unfolding run
  run-IsOwned s [] h = h
  run-IsOwned s (e ∷ events) h = run-IsOwned (step w config s e) events (step-IsOwned s e h)
