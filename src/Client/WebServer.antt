-- ===== src/Client/WebServer.antt =====
-- web_server.rs: the state behind the client's web page, and its changes by the user.
pub mod Api
pub mod Handlers
pub mod Upgrades
pub mod Router
pub mod Saves
pub mod Sound
pub mod Requests
pub mod Serving
pub mod Reconnect
pub mod Names
use zo_tunnel.Prelude.{
  File, missing, holds, Write, saved_file, ℕ, Bool, true, false, Option, none, some, List, [], ◌∷◌,
  Result, ok, err, Text, if◌then◌else◌,
}
use zo_tunnel.Client.Config.{TunnelsConfig}
use zo_tunnel.Client.Session.{ClientTlsConfig}
use zo_tunnel.Client.Manager.{TunnelManager, start_all, stop_all}
use zo_tunnel.Client.Storage.{SavedCredentials, Disk, load_credentials, deleted, load_or_default}

-- A manager with the server that its tunnels connect to.
pub record Connected : Type 0 where
  pub server_addr : Text
  pub token : Text
  pub tls_config : ClientTlsConfig
  pub manager : TunnelManager

pub record AppState : Type 0 where
  pub inner : Option Connected
  pub bind : Text
  pub port : ℕ

-- The state with the files that belong to it.
pub record Host : Type 0 where
  pub app : AppState
  pub disk : Disk

-- What the file system makes of a request's writes, the identifier that `generate_id` makes, and
-- the text of an error of the file system.
pub record Io : Type 0 where
  pub credentials : Write SavedCredentials
  pub tunnels : Write TunnelsConfig
  pub deletes : Bool
  pub generated : Text
  pub error_text : Text

abbrev unwrap_or_empty : Option Text → Text
unwrap_or_empty none = []
unwrap_or_empty (some t) = t

-- `TunnelManager::new`
unfoldable pub new_manager : SavedCredentials → TunnelsConfig → Connected
new_manager creds config = record {
  server_addr = creds.server;
  token = creds.token;
  tls_config = creds.tls;
  manager = record { config = config; tunnels = [] };
}

-- `AppState::new`
unfoldable pub new : Text → ℕ → Disk → AppState
new bind port disk = record {
  inner = elim (load_credentials disk.credentials) [
    | err _ ↦ none
    | ok none ↦ none
    | ok (some creds) ↦ some (new_manager creds (load_or_default disk.tunnels))
  ];
  bind = bind;
  port = port;
}

abbrev pub started : Connected → Connected
started c = record c { manager = start_all c.manager }

-- `AppState::disconnect`, with the manager that it drops when it has stopped its tunnels.
unfoldable pub disconnect : Io → Host → Option TunnelManager × Host
disconnect io h = (
  elim h.app.inner [ none ↦ none | some c ↦ some (stop_all c.manager) ],
  record h {
    app = record h.app { inner = none };
    disk = record h.disk { credentials = deleted io.deletes h.disk.credentials };
  },
)

-- The credentials of a request to connect.
abbrev pub credentials_of : Text → Text → Bool → Option Text → Bool → SavedCredentials
credentials_of server token tls tls_server_name tls_skip_verify = record {
  server = server;
  token = token;
  tls = record {
    enabled = tls;
    server_name = unwrap_or_empty tls_server_name;
    skip_verify = tls_skip_verify;
  };
}

-- `AppState::connect`
unfoldable pub connect :
    Io → Text → Text → Bool → Option Text → Bool → Host → Result Text (Unit {0}) × Host
unfolding disconnect new_manager
connect io server token tls tls_server_name tls_skip_verify h =
    let h' = (disconnect io h).1 in
    let creds = credentials_of server token tls tls_server_name tls_skip_verify in
    let disk : Disk = record h'.disk { credentials = saved_file io.credentials creds } in
    elim io.credentials [
      | some left ↦ (err io.error_text, record h' { disk = disk })
      | none ↦
          let fresh = new_manager creds (load_or_default disk.tunnels) in
          (ok tt, record { app = record h'.app { inner = some (started fresh) }; disk = disk })
    ]

-- The start of `run_foreground`: the state, and the tunnels of saved credentials started.
unfoldable pub boot : Text → ℕ → Disk → Host
unfolding new
boot bind port disk =
    let app = new bind port disk in
    record {
      app = elim app.inner [ none ↦ app | some c ↦ record app { inner = some (started c) } ];
      disk = disk;
    }
