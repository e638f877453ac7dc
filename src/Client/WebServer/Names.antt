-- ===== src/Client/WebServer/Names.antt =====
-- The names that the client's page lets through, against the routing of the server.
use zo_tunnel.Prelude.{
  ℕ, ◌<◌, ◌≡◌, ◌≢◌, ◌∙◌, ap, Bool, true, ◌&&◌, ◌||◌, some, [], ◌∷◌, ◌++◌, All-get_elem?, get_elem?,
  subst, ◌⊎◌, map, Text, text, Lacks, All-append, first_piece, first_piece-Lacks,
  first_piece-append, to_ascii_lowercase, leb, ◌==◌, inl, inr, arith,
}
use zo_tunnel.Server.Clock.{Instant}
use zo_tunnel.Server.Http.{Http, Request, header_str}
use zo_tunnel.Server.Registry.{get}
use zo_tunnel.Server.Registry.Invariant.{IsWellFormed}
use zo_tunnel.Server.Dispatch.Reach.{Arrives, serve_http-reaches}
use zo_tunnel.Server.Proxy.{World, route_host}
use zo_tunnel.Server.Proxy.Routing.{route_host_reaches}
use mathlib.Core.List.{map-append}
use zo_tunnel.Client.Config.{TunnelEntry, TunnelsConfig}
use zo_tunnel.Client.WebServer.{Connected, Host}
use zo_tunnel.Client.WebServer.Handlers.{is_name}
use zo_tunnel.Client.WebServer.Sound.{IsName, IsSound}
use zo_tunnel.Client.Config.Named.{AllNamed}

-- The ASCII letters and digits.
abbrev pub is_ascii_alphanumeric : ℕ → Bool
is_ascii_alphanumeric c =
    (leb b'0' c && leb c b'9') || (leb b'A' c && leb c b'Z') || (leb b'a' c && leb c b'z')

-- `char::is_alphanumeric` on ASCII, as its documentation has it.
abbrev pub AgreesOnAscii : (ℕ → Bool) → Type 0
AgreesOnAscii is_alphanumeric = (c : ℕ) → c < 128 → is_alphanumeric c ≡ is_ascii_alphanumeric c

-- A host name in which a letter is written small, as browsers send it.
abbrev pub lowercase : Text → Text
lowercase s = map to_ascii_lowercase s

module _ (is_alphanumeric : ℕ → Bool) (ascii : AgreesOnAscii is_alphanumeric) where
  letter-ne-colon : (c : ℕ) → (is_alphanumeric c || c == b'-' || c == b'_') ≡ true → c ≢ b':'
  letter-ne-colon c h e = ground (arith, ascii c)

  name-Lacks : (s : Text) → is_name is_alphanumeric s ≡ true → Lacks b':' s
  unfolding is_name
  name-Lacks [] h = tt
  name-Lacks (c ∷ s) h = (letter-ne-colon c (ground arith), name-Lacks s (ground arith))

  first_piece-host :
      (name domain host port : Text)
      → Lacks b':' name
      → Lacks b':' domain
      → (host ≡ name ++ b'.' ∷ domain) ⊎ (host ≡ (name ++ b'.' ∷ domain) ++ b':' ∷ port)
      → first_piece b':' host ≡ name ++ b'.' ∷ domain
  first_piece-host name domain host port h h' named =
      let lacks = All-append (λ c. c ≢ b':') name (b'.' ∷ domain) h ((λ e. ground arith), h') in
      elim named [
        | inl bare ↦
            ap (first_piece b':') bare ∙ first_piece-Lacks b':' (name ++ b'.' ∷ domain) lacks
        | inr ported ↦
            ap (first_piece b':') ported
            ∙ first_piece-append b':' (name ++ b'.' ∷ domain) port lacks
      ]

  -- Of a client that satisfies the invariant of serve, a tunnel that is registered at a server with a
  -- well-formed registry is reached: a request whose host can be read and is the tunnel's name at the
  -- domain, with a port or without, goes through the proxy to the client that is registered under
  -- the name, or is answered 429 above the rate limit. The conditions are that the domain has no
  -- colon, that the path is not that of the certificate check, and that is_alphanumeric has the ASCII
  -- letters and digits.
  pub tunnels_reached :
      (http : Http) (now : Instant) (req : Request) (w : World) (h : Host) (c : Connected) (i : ℕ)
      (t : TunnelEntry) (domain host port : Text) (place : ℕ)
      → IsSound is_alphanumeric h
      → h.app.inner ≡ some c
      → get_elem? c.manager.config.tunnels i ≡ some t
      → IsWellFormed w.registry
      → get t.client_id w.registry ≡ some place
      → header_str http (text "host") req.headers ≡ some host
      → (host ≡ t.client_id ++ b'.' ∷ domain)
        ⊎ (host ≡ (t.client_id ++ b'.' ∷ domain) ++ b':' ∷ port)
      → Lacks b':' domain
      → req.path ≢ text "/api/tls-check"
      → Arrives http domain now req w t.client_id place
  tunnels_reached http now req w h c i t domain host port place s there at formed held read named
        lacks other =
      let names : AllNamed (IsName is_alphanumeric) c.manager.config.tunnels =
        subst (λ (g : TunnelsConfig). AllNamed (IsName is_alphanumeric) g.tunnels) (s.kept c there)
          (s.fine.1) in
      let (ne, name) =
        All-get_elem? (λ (u : TunnelEntry). IsName is_alphanumeric u.client_id)
          c.manager.config.tunnels i t names at in
      serve_http-reaches http domain now req w host t.client_id place formed held ne read
        (first_piece-host t.client_id domain host port (name-Lacks t.client_id name) lacks named)
        other

  abbrev is_capital : ℕ → Bool
  is_capital c = leb b'A' c && leb c b'Z'

  abbrev pub HasCapital : Text → Type 0
  HasCapital [] = ⊥
  HasCapital (c ∷ s) = (is_capital c ≡ true) ⊎ HasCapital s

  lowercase-ne : (s : Text) → HasCapital s → lowercase s ≢ s
  unfolding to_ascii_lowercase
  lowercase-ne [] capital e = absurd capital
  lowercase-ne (c ∷ s) (inl capital) e = ground arith
  lowercase-ne (c ∷ s) (inr later) e = ground (arith, lowercase-ne s later)

  lowercase-Lacks : (s : Text) → Lacks b':' s → Lacks b':' (lowercase s)
  unfolding to_ascii_lowercase
  lowercase-Lacks [] h = tt
  lowercase-Lacks (c ∷ s) (ne, h) = (ground arith, lowercase-Lacks s h)

  -- The page lets names with capital letters through, but the host of such a tunnel in small
  -- letters, as browsers send it, is routed to another name, at a domain in small letters without a
  -- colon.
  pub route_host-lowercase :
      (s domain path : Text)
      → IsName is_alphanumeric s
      → HasCapital s
      → lowercase domain ≡ domain
      → Lacks b':' domain
      → (route_host (lowercase (s ++ b'.' ∷ domain)) path domain ≡ some (lowercase s, path))
        × (lowercase s ≢ s)
  unfolding to_ascii_lowercase
  route_host-lowercase [] domain path (ne, name) capital low lacks = absurd capital
  route_host-lowercase (c ∷ s) domain path (ne, name) capital low lacks =
      let host : lowercase ((c ∷ s) ++ b'.' ∷ domain) ≡ lowercase (c ∷ s) ++ b'.' ∷ domain =
        map-append to_ascii_lowercase (c ∷ s) (b'.' ∷ domain)
        ∙ ap (λ d. lowercase (c ∷ s) ++ b'.' ∷ d) low in
      (
        rw host
            (route_host_reaches (lowercase (c ∷ s)) domain path [] (ground arith)
              (lowercase-Lacks (c ∷ s) (name-Lacks (c ∷ s) name)) lacks).0,
        lowercase-ne (c ∷ s) capital,
      )
