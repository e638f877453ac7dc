-- ===== src/Client/Manager/Listing.antt =====
-- tunnel_manager.rs: `list_tunnels`, what the web page shows of each tunnel.
use zo_tunnel.Prelude.{ℕ, Bool, Option, none, some, List, [], ◌∷◌, Text, text, lookup}
use zo_tunnel.Server.Clock.{Instant, secs_since}
use zo_tunnel.Client.Config.{TunnelEntry}
use zo_tunnel.Client.Session.{TunnelStatus}
use zo_tunnel.Client.Manager.{TunnelManager}

pub record TunnelStatusInfo : Type 0 where
  pub state : Text
  pub route : Option Text
  pub connected_since_secs : Option ℕ
  pub error : Option Text
  pub local_reachable : Bool

pub record TunnelInfo : Type 0 where
  pub id : Text
  pub client_id : Text
  pub local_addr : Text
  pub enabled : Bool
  pub status : TunnelStatusInfo

unfoldable pub from_status : Instant → TunnelStatus → Bool → TunnelStatusInfo
from_status now TunnelStatus.stopped local_reachable = record {
  state = text "stopped";
  route = none;
  connected_since_secs = none;
  error = none;
  local_reachable = local_reachable;
}
from_status now TunnelStatus.connecting local_reachable = record {
  state = text "connecting";
  route = none;
  connected_since_secs = none;
  error = none;
  local_reachable = local_reachable;
}
from_status now (TunnelStatus.connected route since) local_reachable = record {
  state = text "connected";
  route = some route;
  connected_since_secs = some (secs_since since now);
  error = none;
  local_reachable = local_reachable;
}
from_status now (TunnelStatus.error message) local_reachable = record {
  state = text "error";
  route = none;
  connected_since_secs = none;
  error = some message;
  local_reachable = local_reachable;
}

-- The status that a running tunnel's task sent last, and whether its local service answers, are
-- arguments.
module _ (status_of : Text → TunnelStatus) (check_local_reachable : Text → Bool)
    (now : Instant) where
  unfoldable pub tunnel_info : TunnelManager → TunnelEntry → TunnelInfo
  tunnel_info m entry =
      let server_status : TunnelStatus = elim (lookup entry.id m.tunnels) [
        | none ↦ TunnelStatus.stopped
        | some _ ↦ status_of entry.id
      ] in
      record {
        id = entry.id;
        client_id = entry.client_id;
        local_addr = entry.local_addr;
        enabled = entry.enabled;
        status = from_status now server_status (check_local_reachable entry.local_addr);
      }

  unfoldable pub infos : TunnelManager → List TunnelEntry → List TunnelInfo
  unfolding tunnel_info
  infos m [] = []
  infos m (t ∷ ts) = tunnel_info m t ∷ infos m ts

  unfoldable pub list_tunnels : TunnelManager → List TunnelInfo
  unfolding infos
  list_tunnels m = infos m m.config.tunnels
