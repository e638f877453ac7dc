-- ===== src/Server/Dashboard/Certificates.antt =====
-- Which domains Caddy may get a certificate for.
use zo_tunnel.Prelude.{
  ℕ, ◌≡◌, ◌↔◌, ◌⊎◌, sym, subst, true, Option, none, some, ◌∷◌, ◌++◌, Text, first_piece,
  strip_suffix, strip_suffix_sound, strip_suffix-append, arith, Option-cases, Bool-cases, inl, inr,
}
use zo_tunnel.Server.Config.{is_reserved}
use zo_tunnel.Server.Registry.{Registry, get}
use zo_tunnel.Server.Proxy.{route_host}
use zo_tunnel.Server.Proxy.Routing.{route_host_iff}
use zo_tunnel.Server.Dashboard.{DashboardState, api_tls_check}

-- The name is reserved, or a client has it.
abbrev pub IsKnown : Text → Registry → Type 0
IsKnown name r = (is_reserved name ≡ true) ⊎ ((place : ℕ) × (get name r ≡ some place))

IsKnown-granted :
    (fallback : Text → Option ℕ) (name : Text) (state : DashboardState)
    → IsKnown name state.registry
    → api_tls_check fallback (name ++ b'.' ∷ state.domain) state ≡ 200
unfolding api_tls_check
IsKnown-granted fallback name state known =
    let cut = strip_suffix-append name (b'.' ∷ state.domain) in ground arith

granted-IsKnown :
    (requested : Text) (state : DashboardState)
    → api_tls_check (λ _. none) requested state ≡ 200
    → (name : Text) × (requested ≡ name ++ b'.' ∷ state.domain) × IsKnown name state.registry
unfolding api_tls_check
granted-IsKnown requested state e =
    elim (Option-cases (strip_suffix requested (b'.' ∷ state.domain))) [
      | inl outside ↦ absurd (ground arith)
      | inr (name, cut) ↦ (
        name,
        strip_suffix_sound requested (b'.' ∷ state.domain) name cut,
        elim (Bool-cases (is_reserved name)) [
          | inl reserved ↦ inl reserved
          | inr free ↦ elim (Option-cases (get name state.registry)) [
            | inl missing ↦ absurd (ground arith)
            | inr there ↦ inr there
          ]
        ],
      )
    ]

-- Without a fallback, a certificate is granted exactly for the names under the domain that are
-- reserved or registered.
pub api_tls_check_iff :
    (requested : Text) (state : DashboardState)
    → (api_tls_check (λ _. none) requested state ≡ 200)
      ↔ ((name : Text) × (requested ≡ name ++ b'.' ∷ state.domain) × IsKnown name state.registry)
api_tls_check_iff requested state = (
  granted-IsKnown requested state,
  λ (name, e, known).
      subst (λ t. api_tls_check (λ _. none) t state ≡ 200) (sym e)
        (IsKnown-granted (λ _. none) name state known),
)

-- Every host that the proxy routes to a registered client is granted a certificate, whatever the
-- fallback says.
pub routed-granted :
    (fallback : Text → Option ℕ) (host path client_id found : Text) (place : ℕ)
    (state : DashboardState)
    → route_host host path state.domain ≡ some (client_id, found)
    → get client_id state.registry ≡ some place
    → api_tls_check fallback (first_piece b':' host) state ≡ 200
routed-granted fallback host path client_id found place state routed there =
    let (named, _, _) = (route_host_iff host path state.domain client_id found).0 routed in
    subst (λ t. api_tls_check fallback t state ≡ 200) (sym named)
      (IsKnown-granted fallback client_id state (inr (place, there)))
