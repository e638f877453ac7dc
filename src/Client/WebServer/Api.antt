-- ===== src/Client/WebServer/Api.antt =====
-- web_server.rs: what the handlers of the API answer with.
use zo_tunnel.Prelude.{ℕ, Bool, true, false, Option, none, some, List, ◌++◌, Text, text}
use zo_tunnel.Client.Config.{
  TunnelEntry, empty_client_id, empty_local_addr, save_failed, already_exists, not_found,
}
use zo_tunnel.Client.Manager.{ManagerError, already_running, not_running, not_in_config, config}
use zo_tunnel.Client.Manager.Listing.{TunnelInfo}

pub record StatusInfo : Type 0 where
  pub version : Text
  pub connected : Bool
  pub server : Option Text
  pub total_tunnels : ℕ
  pub running_tunnels : ℕ

pub record UpgradeCheckInfo : Type 0 where
  pub current : Text
  pub latest : Text
  pub upgrade_available : Bool

-- What the handlers answer with.
pub data Payload : Type 0 where
  message : Text → Payload
  tunnel : TunnelEntry → Payload
  tunnels : List TunnelInfo → Payload
  status : StatusInfo → Payload
  upgrade : UpgradeCheckInfo → Payload

pub record ApiResponse : Type 0 where
  pub success : Bool
  pub payload : Option Payload
  pub error : Option Text

-- An HTTP status and a body.
abbrev pub Response : Type 0
Response = ℕ × ApiResponse

abbrev pub ok_response : Payload → Response
ok_response p = (200, record { success = true; payload = some p; error = none })

abbrev pub err_response : Text → Response
err_response msg = (400, record { success = false; payload = none; error = some msg })

abbrev pub not_connected : Response
not_connected = err_response (text "Not connected. Please connect first.")

quoted : Text → Text → Text → Text
quoted before name after = before ++ (name ++ after)

-- `format!("{:#}", e)` of the manager's errors.
unfoldable pub error_text : Text → ManagerError → Text
unfolding quoted
error_text os (already_running id) = quoted (text "Tunnel '") id (text "' is already running")
error_text os (not_running id) = quoted (text "Tunnel '") id (text "' is not running")
error_text os (not_in_config id) = quoted (text "Tunnel '") id (text "' not found in config")
error_text os (config empty_client_id) = text "client_id cannot be empty"
error_text os (config empty_local_addr) = text "local_addr cannot be empty"
error_text os (config save_failed) = os
error_text os (config (already_exists name)) =
    quoted (text "tunnel with client_id '") name (text "' already exists")
error_text os (config (not_found id)) = quoted (text "tunnel '") id (text "' not found")
