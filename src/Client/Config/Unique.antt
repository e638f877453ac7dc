-- ===== src/Client/Config/Unique.antt =====
-- Names and identifiers in a configuration.
use zo_tunnel.Prelude.{
  ◌≡◌, ◌≢◌, ◌⊎◌, sym, subst, Bool, true, false, not, ◌&&◌, some, List, [], ◌∷◌, ◌++◌, is_empty, any,
  All, Text, text_eq, text_eq_iff, trim, inl, inr, Bool-cases, Option-cases, arith,
}
use zo_tunnel.Client.Config.{
  TunnelEntry, TunnelsConfig, saving, find_id, with_id, add_tunnel, replace_id, update_tunnel,
  drop_id, remove_tunnel,
}

abbrev pub IsApart : TunnelEntry → TunnelEntry → Type 0
IsApart t u = (u.client_id ≢ t.client_id) × (u.id ≢ t.id)

abbrev pub IsDistinct : List TunnelEntry → Type 0
IsDistinct [] = Unit
IsDistinct (t ∷ ts) = All (IsApart t) ts × IsDistinct ts

-- The identifier is that of no tunnel.
abbrev pub IsNewId : Text → List TunnelEntry → Type 0
IsNewId id ts = All (λ t. t.id ≢ id) ts

taken-false :
    (e : TunnelEntry) (ts : List TunnelEntry)
    → any (λ t. text_eq t.client_id e.client_id) ts ≡ false
    → IsNewId e.id ts
    → All (IsApart e) ts
taken-false e [] h new = tt
taken-false e (t ∷ ts) h (new, news) =
    let apart : t.client_id ≢ e.client_id = ground (arith, text_eq_iff t.client_id e.client_id) in
    ((apart, new), taken-false e ts (ground arith) news)

All-IsApart_last :
    (t e : TunnelEntry) (ts : List TunnelEntry)
    → IsApart e t
    → All (IsApart t) ts
    → All (IsApart t) (ts ++ e ∷ [])
All-IsApart_last t e [] (n, i) h = (((λ q. n (sym q)), (λ q. i (sym q))), tt)
All-IsApart_last t e (u ∷ ts) a (h, hs) = (h, All-IsApart_last t e ts a hs)

append-IsDistinct :
    (ts : List TunnelEntry) (e : TunnelEntry)
    → IsDistinct ts
    → All (IsApart e) ts
    → IsDistinct (ts ++ e ∷ [])
append-IsDistinct [] e d a = (tt, tt)
append-IsDistinct (t ∷ ts) e (h, d) (a, apart) =
    (All-IsApart_last t e ts a h, append-IsDistinct ts e d apart)

-- Another tunnel than that of the identifier does not have the name.
abbrev IsSpared : Text → Text → TunnelEntry → Type 0
IsSpared id name t = (t.client_id ≢ name) ⊎ (t.id ≡ id)

clash-false :
    (id name : Text) (ts : List TunnelEntry)
    → any (λ t. text_eq t.client_id name && not (text_eq t.id id)) ts ≡ false
    → All (IsSpared id name) ts
clash-false id name [] h = tt
clash-false id name (t ∷ ts) h = (
  ground (arith, text_eq_iff t.client_id name, text_eq_iff t.id id),
  clash-false id name ts (ground arith),
)

spared-IsApart :
    (e : TunnelEntry) (ts : List TunnelEntry)
    → IsNewId e.id ts
    → All (IsSpared e.id e.client_id) ts
    → All (IsApart e) ts
spared-IsApart e [] new h = tt
spared-IsApart e (t ∷ ts) (new, news) (inl apart, hs) = ((apart, new), spared-IsApart e ts news hs)
spared-IsApart e (t ∷ ts) (new, news) (inr same, hs) = absurd (new same)

pub All-IsNewId : (t : TunnelEntry) (ts : List TunnelEntry) → All (IsApart t) ts → IsNewId t.id ts
All-IsNewId t [] h = tt
All-IsNewId t (u ∷ ts) ((n, i), hs) = (i, All-IsNewId t ts hs)

replace_id-IsApart :
    (t e : TunnelEntry) (ts : List TunnelEntry)
    → IsApart t e
    → All (IsApart t) ts
    → All (IsApart t) (replace_id e.id e ts)
unfolding replace_id
replace_id-IsApart t e [] a h = tt
replace_id-IsApart t e (u ∷ ts) a (h, hs) = elim (Bool-cases (text_eq u.id e.id)) [
  | inl same ↦ rw same (a, hs)
  | inr other ↦ rw other (h, replace_id-IsApart t e ts a hs)
]

replace_id-IsDistinct :
    (e : TunnelEntry) (ts : List TunnelEntry)
    → IsDistinct ts
    → All (IsSpared e.id e.client_id) ts
    → IsDistinct (replace_id e.id e ts)
unfolding replace_id
replace_id-IsDistinct e [] d h = tt
replace_id-IsDistinct e (t ∷ ts) (a, d) (h, hs) = elim (Bool-cases (text_eq t.id e.id)) [
  | inl same ↦
      let new : IsNewId e.id ts =
        subst (λ i. IsNewId i ts) ((text_eq_iff t.id e.id).0 same) (All-IsNewId t ts a) in
      rw same (spared-IsApart e ts new hs, d)
  | inr other ↦
      let ne : t.id ≢ e.id = ground (arith, text_eq_iff t.id e.id) in
      let apart : IsApart t e = (ground arith, ground arith) in
      rw other (replace_id-IsApart t e ts apart a, replace_id-IsDistinct e ts d hs)
]

drop_id-IsApart :
    (t : TunnelEntry) (id : Text) (ts : List TunnelEntry)
    → All (IsApart t) ts
    → All (IsApart t) (drop_id id ts)
unfolding drop_id
drop_id-IsApart t id [] h = tt
drop_id-IsApart t id (u ∷ ts) (h, hs) = elim (Bool-cases (text_eq u.id id)) [
  | inl same ↦ rw same hs
  | inr other ↦ rw other (h, drop_id-IsApart t id ts hs)
]

drop_id-IsDistinct :
    (id : Text) (ts : List TunnelEntry) → IsDistinct ts → IsDistinct (drop_id id ts)
unfolding drop_id
drop_id-IsDistinct id [] d = tt
drop_id-IsDistinct id (t ∷ ts) (a, d) = elim (Bool-cases (text_eq t.id id)) [
  | inl same ↦ rw same d
  | inr other ↦ rw other (drop_id-IsApart t id ts a, drop_id-IsDistinct id ts d)
]

saving-IsDistinct :
    {A : Type 0} (saved : Bool) (a : A) (c : TunnelsConfig)
    → IsDistinct c.tunnels
    → IsDistinct (saving saved a c).1.tunnels
saving-IsDistinct true a c d = d
saving-IsDistinct false a c d = d

-- Adding a tunnel whose identifier is new, with or without success, leaves names and identifiers
-- distinct.
pub add_tunnel-IsDistinct :
    (generated : Text) (saved : Bool) (entry : TunnelEntry) (c : TunnelsConfig)
    → IsDistinct c.tunnels
    → IsNewId (with_id generated entry).id c.tunnels
    → IsDistinct (add_tunnel generated saved entry c).1.tunnels
unfolding add_tunnel
add_tunnel-IsDistinct generated saved entry c d new =
    let e = with_id generated entry in
    elim (Bool-cases (is_empty (trim e.client_id))) [
      | inl no_name ↦ rw (no_name, add_tunnel) d
      | inr name ↦ elim (Bool-cases (is_empty (trim e.local_addr))) [
        | inl no_addr ↦ rw (name, add_tunnel) (rw no_addr d)
        | inr addr ↦ elim (Bool-cases (any (λ t. text_eq t.client_id e.client_id) c.tunnels)) [
          | inl taken ↦ rw (name, add_tunnel) (rw addr (rw taken d))
          | inr free ↦
              rw (name, add_tunnel)
                (rw addr (
                  rw free (
                    saving-IsDistinct saved e (record c { tunnels = c.tunnels ++ e ∷ [] })
                      (append-IsDistinct c.tunnels e d (taken-false e c.tunnels free new)))))
        ]
      ]
    ]

pub find_id-same :
    (id : Text) (ts : List TunnelEntry) (t : TunnelEntry) → find_id id ts ≡ some t → t.id ≡ id
unfolding find_id
find_id-same id [] t e = absurd (ground arith)
find_id-same id (u ∷ ts) t e = ground (arith, text_eq_iff u.id id, find_id-same id ts t)

-- A change of a tunnel, with or without success, leaves the names and the identifiers of a
-- configuration distinct if they were so before.
pub update_tunnel-IsDistinct :
    (id client_id local_addr : Text) (enabled saved : Bool) (c : TunnelsConfig)
    → IsDistinct c.tunnels
    → IsDistinct (update_tunnel id client_id local_addr enabled saved c).1.tunnels
unfolding update_tunnel
update_tunnel-IsDistinct id client_id local_addr enabled saved c d =
    elim (Bool-cases (is_empty (trim client_id))) [
      | inl no_name ↦ rw (no_name, update_tunnel) d
      | inr name ↦ elim (Bool-cases (is_empty (trim local_addr))) [
        | inl no_addr ↦ rw (name, update_tunnel) (rw no_addr d)
        | inr addr ↦
            elim (Bool-cases
              (any (λ t. text_eq t.client_id client_id && not (text_eq t.id id)) c.tunnels)) [
                | inl taken ↦ rw (name, update_tunnel) (rw addr (rw taken d))
                | inr free ↦ elim (Option-cases (find_id id c.tunnels)) [
                  | inl missing ↦ rw (name, update_tunnel) (rw addr (rw free (rw missing d)))
                  | inr (t, found) ↦
                      let e : TunnelEntry = record t {
                        client_id = client_id;
                        local_addr = local_addr;
                        enabled = enabled;
                      } in
                      let same = find_id-same id c.tunnels t found in
                      rw (name, update_tunnel)
                        (rw addr (
                          rw free (
                            rw found (
                              saving-IsDistinct saved e
                                (record c { tunnels = replace_id id e c.tunnels })
                                (subst (λ i. IsDistinct (replace_id i e c.tunnels)) same
                                  (replace_id-IsDistinct e c.tunnels d (
                                    subst (λ i. All (IsSpared i client_id) c.tunnels) (sym same)
                                      (clash-false id client_id c.tunnels free))))))))
                ]
              ]
      ]
    ]

-- And so does a removal.
pub remove_tunnel-IsDistinct :
    (id : Text) (saved : Bool) (c : TunnelsConfig)
    → IsDistinct c.tunnels
    → IsDistinct (remove_tunnel id saved c).1.tunnels
unfolding remove_tunnel
remove_tunnel-IsDistinct id saved c d = elim (Option-cases (find_id id c.tunnels)) [
  | inl missing ↦ rw (missing, remove_tunnel) d
  | inr (t, found) ↦
      rw (found, remove_tunnel)
        (saving-IsDistinct saved t (record c { tunnels = drop_id id c.tunnels })
          (drop_id-IsDistinct id c.tunnels d))
]
