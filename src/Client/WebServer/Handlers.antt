-- ===== src/Client/WebServer/Handlers.antt =====
-- web_server.rs: the handlers of the API. `axum` has routed a request and read its body; white
-- space is trimmed here. `char::is_alphanumeric` is an argument, and so is the version.
use zo_tunnel.Prelude.{
  saved_file, ℕ, Bool, true, false, not, ◌&&◌, ◌||◌, Option, none, some, [], ◌∷◌, Result, ok, err,
  is_empty, length, Text, text, trim, ◌==◌, if◌then◌else◌,
}
use zo_tunnel.Server.Clock.{Instant}
use zo_tunnel.Client.Config.{TunnelEntry, save_failed}
use zo_tunnel.Client.Session.{TunnelStatus}
use zo_tunnel.Client.Manager.{
  TunnelManager, ManagerError, already_running, not_running, not_in_config, config, running_count,
}
use zo_tunnel.Client.Manager
use zo_tunnel.Client.Manager.Listing.{list_tunnels}
use zo_tunnel.Client.WebServer.{Connected, Host, Io, connect, disconnect}
use zo_tunnel.Client.WebServer.Api.{
  message, tunnel, tunnels, status, Payload, Response, ok_response, err_response, not_connected,
  error_text,
}

abbrev pub Handler : Type 0
Handler = Host → Response × Host

-- `require_connected!`
unfoldable pub require_connected : (Connected → Handler) → Handler
require_connected k h = elim h.app.inner [ none ↦ (not_connected, h) | some mgr ↦ k mgr h ]

-- The configuration has been written when the manager's call has come as far as `save`.
unfoldable pub came_to_save : {A : Type 0} → Result ManagerError A → Bool
came_to_save (ok a) = true
came_to_save (err (already_running id)) = true
came_to_save (err (config save_failed)) = true
came_to_save (err e) = false

module _ (is_alphanumeric : ℕ → Bool) where
  -- `client_id.chars().all(|c| c.is_alphanumeric() || c == '-' || c == '_')`
  unfoldable pub is_name : Text → Bool
  is_name [] = true
  is_name (c ∷ s) = (is_alphanumeric c || c == b'-' || c == b'_') && is_name s

  -- The checks that adding and changing a tunnel begin with: what is wrong, if anything.
  unfoldable pub wrong : Text → Text → Option Text
  unfolding is_name
  wrong client_id local_addr =
      if is_empty client_id
      then some (text "client_id is required")
      else if is_empty local_addr
      then some (text "local_addr is required")
      else if not (is_name client_id)
      then some
          (text "client_id must contain only alphanumeric characters, hyphens, and underscores")
      else none

module _ (io : Io) where
  abbrev pub answer : {A : Type 0} → (A → Payload) → Result ManagerError A → Response
  answer wrap (ok a) = ok_response (wrap a)
  answer wrap (err e) = err_response (error_text io.error_text e)

  abbrev with_manager : Connected → TunnelManager → Host → Host
  with_manager c m h = record h { app = record h.app { inner = some (record c { manager = m }) } }

  -- A call of the manager that starts or stops, and one that changes the configuration too.
  unfoldable pub acted : Text → Result ManagerError (Unit {0}) × TunnelManager → Connected → Handler
  acted done (r, m) c h = (answer (λ _. message done) r, with_manager c m h)

  unfoldable pub edited : Result ManagerError TunnelEntry × TunnelManager → Connected → Handler
  unfolding came_to_save
  edited (r, m) c h =
      let h' = with_manager c m h in
      (
        answer tunnel r,
        record h' {
          disk =
              if came_to_save r
              then record h.disk { tunnels = saved_file io.tunnels m.config }
              else h.disk;
        },
      )

  -- Whether the file of the configuration will be written.
  abbrev pub saved : Bool
  saved = elim io.tunnels [ none ↦ true | some left ↦ false ]

  unfoldable pub api_connect : Text → Text → Bool → Option Text → Bool → Handler
  api_connect server token tls tls_server_name tls_skip_verify h =
      let server' = trim server in
      let token' = trim token in
      if is_empty server'
      then (err_response (text "Server address is required"), h)
      else if is_empty token'
      then (err_response (text "Token is required"), h)
      else let (r, h') = connect io server' token' tls tls_server_name tls_skip_verify h in
        (elim r [ ok _ ↦ ok_response (message (text "connected")) | err e ↦ err_response e ], h')

  unfoldable pub api_disconnect : Handler
  api_disconnect h = (ok_response (message (text "disconnected")), (disconnect io h).1)

  module _ (is_alphanumeric : ℕ → Bool) where
    -- The two handlers behind `require_connected!`.
    unfoldable pub add_checked : Text → Text → Bool → Connected → Handler
    unfolding wrong edited
    add_checked client_id local_addr enabled mgr h =
        elim (wrong is_alphanumeric client_id local_addr) [
          | some msg ↦ (err_response msg, h)
          | none ↦
              let entry : TunnelEntry = record {
                id = [];
                client_id = client_id;
                local_addr = local_addr;
                enabled = enabled;
              } in
              edited (Manager.add_tunnel io.generated saved entry mgr.manager) mgr h
        ]

    unfoldable pub update_checked : Text → Text → Text → Bool → Connected → Handler
    unfolding wrong edited
    update_checked id client_id local_addr enabled mgr h =
        elim (wrong is_alphanumeric client_id local_addr) [
          | some msg ↦ (err_response msg, h)
          | none ↦
              edited (Manager.update_tunnel id client_id local_addr enabled saved mgr.manager) mgr h
        ]

    unfoldable pub api_add_tunnel : Text → Text → Bool → Handler
    unfolding require_connected add_checked
    api_add_tunnel client_id local_addr enabled =
        require_connected (add_checked (trim client_id) (trim local_addr) enabled)

    unfoldable pub api_update_tunnel : Text → Text → Text → Bool → Handler
    unfolding require_connected update_checked
    api_update_tunnel id client_id local_addr enabled =
        require_connected (update_checked id (trim client_id) (trim local_addr) enabled)

  unfoldable pub api_delete_tunnel : Text → Handler
  unfolding require_connected edited
  api_delete_tunnel id =
      require_connected λ mgr h. edited (Manager.remove_tunnel id saved mgr.manager) mgr h

  unfoldable pub api_start_tunnel : Text → Handler
  unfolding require_connected acted
  api_start_tunnel id =
      require_connected λ mgr h. acted (text "started") (Manager.start_tunnel id mgr.manager) mgr h

  unfoldable pub api_stop_tunnel : Text → Handler
  unfolding require_connected acted
  api_stop_tunnel id =
      require_connected λ mgr h. acted (text "stopped") (Manager.stop_tunnel id mgr.manager) mgr h

  unfoldable pub api_restart_tunnel : Text → Handler
  unfolding require_connected acted
  api_restart_tunnel id =
      require_connected
        λ mgr h. acted (text "restarted") (Manager.restart_tunnel id mgr.manager) mgr h

-- The list asks each task for its status and each local service whether it answers.
module _ (status_of : Text → TunnelStatus) (check_local_reachable : Text → Bool)
    (now : Instant) where
  unfoldable pub api_list_tunnels : Handler
  unfolding require_connected
  api_list_tunnels = require_connected λ mgr h.
      (ok_response (tunnels (list_tunnels status_of check_local_reachable now mgr.manager)), h)

  unfoldable pub api_status : Text → Handler
  api_status version h = elim h.app.inner [
    | some mgr ↦ (
      ok_response (
          status (record {
            version = version;
            connected = true;
            server = some mgr.server_addr;
            total_tunnels = length (list_tunnels status_of check_local_reachable now mgr.manager);
            running_tunnels = running_count mgr.manager;
          })),
      h,
    )
    | none ↦ (
      ok_response (
          status (record {
            version = version;
            connected = false;
            server = none;
            total_tunnels = 0;
            running_tunnels = 0;
          })),
      h,
    )
  ]
