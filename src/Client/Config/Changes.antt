-- ===== src/Client/Config/Changes.antt =====
-- What a change of the configuration does to the lookup of a tunnel by its identifier.
use zo_tunnel.Prelude.{
  ◌≡◌, refl, Bool, true, false, not, ◌&&◌, none, some, List, [], ◌∷◌, ◌++◌, Result, ok, err,
  is_empty, any, Text, text_eq, text_eq_iff, text_eq_refl, trim, inl, inr, Bool-cases, Option-cases,
  arith,
}
use zo_tunnel.Client.Config.{
  TunnelEntry, TunnelsConfig, ConfigError, saving, find_id, with_id, add_tunnel, replace_id,
  update_tunnel, drop_id,
}
use zo_tunnel.Client.Config.Unique.{IsNewId, find_id-same}

-- Only the tunnel `id` may have changed, and on success it is the one that was returned.
abbrev pub Changed : Text → TunnelsConfig → Result ConfigError TunnelEntry × TunnelsConfig → Type 0
Changed id c (r, c') =
    ((k : Text) → text_eq id k ≡ false → find_id k c'.tunnels ≡ find_id k c.tunnels)
    × ((e : TunnelEntry) → r ≡ ok e → (e.id ≡ id) × (find_id id c'.tunnels ≡ some e))

unchanged : (id : Text) (e : ConfigError) (c : TunnelsConfig) → Changed id c (err e, c)
unchanged id e c = (λ k h. refl, λ t h. absurd (ground arith))

find_id-append_other :
    (k : Text) (e : TunnelEntry) (ts : List TunnelEntry)
    → text_eq e.id k ≡ false
    → find_id k (ts ++ e ∷ []) ≡ find_id k ts
unfolding find_id
find_id-append_other k e [] h = ground arith
find_id-append_other k e (t ∷ ts) h = ground (arith, find_id-append_other k e ts h)

find_id-append_new :
    (e : TunnelEntry) (ts : List TunnelEntry)
    → IsNewId e.id ts
    → find_id e.id (ts ++ e ∷ []) ≡ some e
unfolding find_id
find_id-append_new e [] h = ground (arith, text_eq_refl e.id)
find_id-append_new e (t ∷ ts) (h, hs) =
    ground (arith, text_eq_iff t.id e.id, find_id-append_new e ts hs)

pub find_id-new : (id : Text) (ts : List TunnelEntry) → IsNewId id ts → find_id id ts ≡ none
unfolding find_id
find_id-new id [] h = refl
find_id-new id (t ∷ ts) (h, hs) = ground (arith, text_eq_iff t.id id, find_id-new id ts hs)

find_id-replace_other :
    (id k : Text) (e : TunnelEntry) (ts : List TunnelEntry)
    → e.id ≡ id
    → text_eq id k ≡ false
    → find_id k (replace_id id e ts) ≡ find_id k ts
unfolding find_id replace_id
find_id-replace_other id k e [] same h = refl
find_id-replace_other id k e (t ∷ ts) same h = ground (
  arith,
  text_eq_iff t.id id,
  text_eq_iff t.id k,
  text_eq_iff e.id k,
  text_eq_iff id k,
  find_id-replace_other id k e ts same h,
)

find_id-replace_same :
    (id : Text) (e t : TunnelEntry) (ts : List TunnelEntry)
    → e.id ≡ id
    → find_id id ts ≡ some t
    → find_id id (replace_id id e ts) ≡ some e
unfolding find_id replace_id
find_id-replace_same id e t [] same h = absurd (ground arith)
find_id-replace_same id e t (u ∷ ts) same h =
    ground (arith, text_eq_iff e.id id, find_id-replace_same id e t ts same)

pub find_id-drop_other :
    (id k : Text) (ts : List TunnelEntry)
    → text_eq id k ≡ false
    → find_id k (drop_id id ts) ≡ find_id k ts
unfolding find_id drop_id
find_id-drop_other id k [] h = refl
find_id-drop_other id k (t ∷ ts) h =
    ground (
      arith,
      text_eq_iff t.id id,
      text_eq_iff t.id k,
      text_eq_iff id k,
      find_id-drop_other id k ts h,
    )

saving-Changed :
    (id : Text) (saved : Bool) (e : TunnelEntry) (c c' : TunnelsConfig)
    → ((k : Text) → text_eq id k ≡ false → find_id k c'.tunnels ≡ find_id k c.tunnels)
    → e.id ≡ id
    → find_id id c'.tunnels ≡ some e
    → Changed id c (saving saved e c')
saving-Changed id true e c c' others same found = (others, λ t h. ground arith)
saving-Changed id false e c c' others same found = (others, λ t h. absurd (ground arith))

pub add_tunnel-Changed :
    (generated : Text) (saved : Bool) (entry : TunnelEntry) (c : TunnelsConfig)
    → IsNewId (with_id generated entry).id c.tunnels
    → Changed (with_id generated entry).id c (add_tunnel generated saved entry c)
unfolding add_tunnel
add_tunnel-Changed generated saved entry c new =
    let e = with_id generated entry in
    elim (Bool-cases (is_empty (trim e.client_id))) [
      | inl no_name ↦ rw (no_name, add_tunnel) (unchanged e.id _ c)
      | inr name ↦ elim (Bool-cases (is_empty (trim e.local_addr))) [
        | inl no_addr ↦ rw (name, add_tunnel) (rw no_addr (unchanged e.id _ c))
        | inr addr ↦ elim (Bool-cases (any (λ t. text_eq t.client_id e.client_id) c.tunnels)) [
          | inl taken ↦ rw (name, add_tunnel) (rw addr (rw taken (unchanged e.id _ c)))
          | inr free ↦
              rw (name, add_tunnel)
                (rw addr (
                  rw free (
                    saving-Changed e.id saved e c (record c { tunnels = c.tunnels ++ e ∷ [] })
                      (λ k h. find_id-append_other k e c.tunnels h) refl
                      (find_id-append_new e c.tunnels new))))
        ]
      ]
    ]

pub update_tunnel-Changed :
    (id client_id local_addr : Text) (enabled saved : Bool) (c : TunnelsConfig)
    → Changed id c (update_tunnel id client_id local_addr enabled saved c)
unfolding update_tunnel
update_tunnel-Changed id client_id local_addr enabled saved c =
    elim (Bool-cases (is_empty (trim client_id))) [
      | inl no_name ↦ rw (no_name, update_tunnel) (unchanged id _ c)
      | inr name ↦ elim (Bool-cases (is_empty (trim local_addr))) [
        | inl no_addr ↦ rw (name, update_tunnel) (rw no_addr (unchanged id _ c))
        | inr addr ↦
            elim (Bool-cases
              (any (λ t. text_eq t.client_id client_id && not (text_eq t.id id)) c.tunnels)) [
                | inl taken ↦ rw (name, update_tunnel) (rw addr (rw taken (unchanged id _ c)))
                | inr free ↦ elim (Option-cases (find_id id c.tunnels)) [
                  | inl missing ↦
                      rw (name, update_tunnel) (rw addr (rw free (rw missing (unchanged id _ c))))
                  | inr (t, found) ↦
                      let e : TunnelEntry = record t {
                        client_id = client_id;
                        local_addr = local_addr;
                        enabled = enabled;
                      } in
                      let same : e.id ≡ id = find_id-same id c.tunnels t found in
                      rw (name, update_tunnel)
                        (rw addr (
                          rw free (
                            rw found (
                              saving-Changed id saved e c
                                (record c { tunnels = replace_id id e c.tunnels })
                                (λ k h. find_id-replace_other id k e c.tunnels same h) same
                                (find_id-replace_same id e t c.tunnels same found)))))
                ]
              ]
      ]
    ]
