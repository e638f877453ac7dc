-- ===== src/Server/Proxy/Routing.antt =====
-- Which client a host names.
use zo_tunnel.Prelude.{
  ℕ, ◌≡◌, ◌≢◌, ◌↔◌, refl, ap, ◌∙◌, some, [], ◌∷◌, ◌++◌, Text, Lacks, All-append, first_piece,
  first_piece-append, first_piece-Lacks, ends_with, strip_suffix, strip_suffix_sound,
  strip_suffix-append, arith, Option-cases, inl, inr,
}
use zo_tunnel.Server.Proxy.{route_host}

route_host_sound :
    (host path domain client_id found : Text)
    → route_host host path domain ≡ some (client_id, found)
    → (first_piece b':' host ≡ client_id ++ b'.' ∷ domain) × (client_id ≢ []) × (found ≡ path)
unfolding route_host ends_with
route_host_sound host path domain client_id found e =
    elim (Option-cases (strip_suffix (first_piece b':' host) (b'.' ∷ domain))) [
      | inl missing ↦ absurd (ground arith)
      | inr ([], hit) ↦ absurd (ground arith)
      | inr (c ∷ r, hit) ↦
          let same : c ∷ r ≡ client_id = ground arith in
          (
            strip_suffix_sound _ _ (c ∷ r) hit ∙ ap (λ i. i ++ b'.' ∷ domain) same,
            ground arith,
            ground arith,
          )
    ]

route_host_complete :
    (host path domain client_id : Text)
    → first_piece b':' host ≡ client_id ++ b'.' ∷ domain
    → client_id ≢ []
    → route_host host path domain ≡ some (client_id, path)
unfolding route_host ends_with
route_host_complete host path domain [] e ne = absurd (ne refl)
route_host_complete host path domain (c ∷ r) e ne =
    let hit : strip_suffix (first_piece b':' host) (b'.' ∷ domain) ≡ some (c ∷ r) =
      rw e (strip_suffix-append (c ∷ r) (b'.' ∷ domain)) in
    ground arith

-- A host is routed exactly if it is, up to a port, a nonempty name, a dot and the domain, and then to
-- this name, with the path as it was.
pub route_host_iff :
    (host path domain client_id found : Text)
    → (route_host host path domain ≡ some (client_id, found))
      ↔ ((first_piece b':' host ≡ client_id ++ b'.' ∷ domain) × (client_id ≢ []) × (found ≡ path))
route_host_iff host path domain client_id found = (
  route_host_sound host path domain client_id found,
  λ (e, ne, same). rw same (route_host_complete host path domain client_id e ne),
)

dot-ne-colon : ◌≢◌ {A = ℕ} b'.' b':'
dot-ne-colon = omega arith

-- Where neither name nor domain has a colon and the name is not empty, the host of a client is
-- routed to it, with a port or without.
pub route_host_reaches :
    (client_id domain path port : Text)
    → client_id ≢ []
    → Lacks b':' client_id
    → Lacks b':' domain
    → (route_host (client_id ++ b'.' ∷ domain) path domain ≡ some (client_id, path))
      × (route_host ((client_id ++ b'.' ∷ domain) ++ b':' ∷ port) path domain
          ≡ some (client_id, path))
route_host_reaches client_id domain path port ne h h' =
    let lacks = All-append (λ c. c ≢ b':') client_id (b'.' ∷ domain) h (dot-ne-colon, h') in
    let named = client_id ++ b'.' ∷ domain in
    (
      (route_host_iff named path domain client_id path).1
          (first_piece-Lacks b':' named lacks, ne, refl),
      (route_host_iff (named ++ b':' ∷ port) path domain client_id path).1
          (first_piece-append b':' named port lacks, ne, refl),
    )
