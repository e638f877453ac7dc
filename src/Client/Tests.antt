-- ===== src/Client/Tests.antt =====
-- The theorems about the client at concrete configurations.
mod Sessions
mod Pages
mod Processes
use zo_tunnel.Prelude.{
  ◌≡◌, ◌++◌, refl, min, true, false, none, some, List, [], ◌∷◌, err, text, lookup, get_elem?,
  replicate, arith, trim, trim_start,
}
use zo_tunnel.Client.Credentials.{masked_token, masked_token-front}
use zo_tunnel.Client.Config.{TunnelEntry, TunnelsConfig, ConfigError, find_id, with_id}
use zo_tunnel.Client.Config
use zo_tunnel.Client.Config.Unique.{IsDistinct, IsNewId, update_tunnel-IsDistinct}
use zo_tunnel.Client.Manager.{TunnelManager, config, update_tunnel, max_backoff, waits}
use zo_tunnel.Client.Manager.Faithful.{IsFaithful}
use zo_tunnel.Client.Manager.Orders.{Op, run, run-IsFaithful, update_tunnel-stops}
use zo_tunnel.Client.Manager.Backoff.{doubled, waits-failed}

abbrev api : TunnelEntry
api = record { id = text "a1"; client_id = text "api"; local_addr = text ":3000"; enabled = true }

abbrev web : TunnelEntry
web = record { id = []; client_id = text "web"; local_addr = text ":80"; enabled = true }

abbrev one : TunnelsConfig
one = record { tunnels = api ∷ [] }

b2-IsNewId : IsNewId (text "b2") one.tunnels
b2-IsNewId = ((λ e. ground arith), tt)

abbrev running : TunnelManager
running = record { config = one; tunnels = (text "a1", api) ∷ [] }

running-IsFaithful : IsFaithful running
unfolding find_id lookup
running-IsFaithful = record { runs = λ k e there. ground arith; distinct = (tt, tt) }

abbrev ops : List Op
ops =
    Op.adds (text "b2") true web
    ∷ Op.updates (text "a1") (text "app") (text ":1") true false
    ∷ Op.restarts (text "b2")
    ∷ []

run-IsFaithful_example : IsFaithful (run running ops)
run-IsFaithful_example = run-IsFaithful running ops running-IsFaithful (b2-IsNewId, (tt, (tt, tt)))

update-refused :
    (Config.update_tunnel (text "a1") [] (text ":3001") true true running.config).0
    ≡ err ConfigError.empty_client_id
unfolding Config.update_tunnel trim trim_start
update-refused = refl

update_tunnel-stops_example :
    ((update_tunnel (text "a1") [] (text ":3001") true true running).0
      ≡ err (config ConfigError.empty_client_id))
    × (lookup (text "a1") (update_tunnel (text "a1") [] (text ":3001") true true running).1.tunnels
        ≡ none)
update_tunnel-stops_example =
    update_tunnel-stops (text "a1") [] (text ":3001") true true running ConfigError.empty_client_id
      update-refused

masked_token-front_example : masked_token (text "abcé1") ≡ none
masked_token-front_example =
    masked_token-front b'a' b'b' b'c' 0xe9 (text "1") (omega arith) (omega arith) (omega arith)
      (λ e. ground arith)
