-- ===== src/Client/Config.antt =====
-- config.rs: the tunnels that a client is configured with. Whether `save` succeeds is an argument,
-- and so is the identifier that `generate_id` makes.
pub mod Unique
pub mod Changes
pub mod Named
use zo_tunnel.Prelude.{
  ℕ, Bool, true, false, not, ◌&&◌, Option, none, some, List, [], ◌∷◌, ◌++◌, Exec, raise, Result, ok,
  err, is_empty, any, Text, text_eq, trim, if◌then◌else◌,
}

pub record TunnelEntry : Type 0 where
  pub id : Text
  pub client_id : Text
  pub local_addr : Text
  pub enabled : Bool

pub record TunnelsConfig : Type 0 where
  pub tunnels : List TunnelEntry

pub data ConfigError : Type 0 where
  empty_client_id empty_local_addr save_failed : ConfigError
  already_exists : Text → ConfigError
  not_found : Text → ConfigError

-- `self.save()?` and the value behind it; what was changed before stays changed.
abbrev pub saving : {A : Type 0} → Bool → A → TunnelsConfig → Result ConfigError A × TunnelsConfig
saving true a c = (ok a, c)
saving false a c = (err save_failed, c)

-- `find` of the first tunnel with the identifier.
unfoldable pub find_id : Text → List TunnelEntry → Option TunnelEntry
find_id id [] = none
find_id id (t ∷ ts) = if text_eq t.id id then some t else find_id id ts

unfoldable pub get_tunnel : Text → TunnelsConfig → Option TunnelEntry
unfolding find_id
get_tunnel id c = find_id id c.tunnels

abbrev pub with_id : Text → TunnelEntry → TunnelEntry
with_id generated entry = if is_empty entry.id then record entry { id = generated } else entry

unfoldable pub add_tunnel : Text → Bool → TunnelEntry → Exec TunnelsConfig ConfigError TunnelEntry
add_tunnel generated saved entry c =
    let entry' = with_id generated entry in
    if is_empty (trim entry'.client_id)
    then (err empty_client_id, c)
    else if is_empty (trim entry'.local_addr)
    then (err empty_local_addr, c)
    else if any (λ t. text_eq t.client_id entry'.client_id) c.tunnels
    then (err (already_exists entry'.client_id), c)
    else saving saved entry' (record c { tunnels = c.tunnels ++ entry' ∷ [] })

-- The change of the first tunnel with the identifier.
unfoldable pub replace_id : Text → TunnelEntry → List TunnelEntry → List TunnelEntry
replace_id id entry [] = []
replace_id id entry (t ∷ ts) =
    let rest = replace_id id entry ts in if text_eq t.id id then entry ∷ ts else t ∷ rest

unfoldable pub update_tunnel :
    Text → Text → Text → Bool → Bool → Exec TunnelsConfig ConfigError TunnelEntry
unfolding find_id
update_tunnel id client_id local_addr enabled saved c =
    if is_empty (trim client_id)
    then (err empty_client_id, c)
    else if is_empty (trim local_addr)
    then (err empty_local_addr, c)
    else if any (λ t. text_eq t.client_id client_id && not (text_eq t.id id)) c.tunnels
    then (err (already_exists client_id), c)
    else elim (find_id id c.tunnels) [
      | none ↦ (err (not_found id), c)
      | some t ↦
          let entry : TunnelEntry = record t {
            client_id = client_id;
            local_addr = local_addr;
            enabled = enabled;
          } in
          saving saved entry (record c { tunnels = replace_id id entry c.tunnels })
    ]

-- The list without the first tunnel with the identifier.
unfoldable pub drop_id : Text → List TunnelEntry → List TunnelEntry
drop_id id [] = []
drop_id id (t ∷ ts) = let rest = drop_id id ts in if text_eq t.id id then ts else t ∷ rest

unfoldable pub remove_tunnel : Text → Bool → Exec TunnelsConfig ConfigError TunnelEntry
unfolding find_id
remove_tunnel id saved c = elim (find_id id c.tunnels) [
  | none ↦ (err (not_found id), c)
  | some t ↦ saving saved t (record c { tunnels = drop_id id c.tunnels })
]
