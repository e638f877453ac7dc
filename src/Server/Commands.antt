-- ===== src/Server/Commands.antt =====
-- main.rs and config.rs of the server: where its settings are kept, and the commands that start,
-- stop and restart its service (self_update.rs). What the system answers is an argument.
pub mod Sources
pub mod Settings
use zo_tunnel.Prelude.{
  ℕ, Bool, true, false, not, ◌&&◌, ◌||◌, Option, none, some, List, [], ◌∷◌, ◌++◌, Result, ok, err,
  is_empty, Text, text, text_eq, ends_with, File, missing, unreadable, holds, Write, saved_file,
  if◌then◌else◌,
}
use zo_tunnel.Server.Config.{ServerConfig, CaddyConfig, default, hex_string}

-- Whose process it is, and its environment.
pub record Environment : Type 0 where
  pub root : Bool
  pub xdg_config_home : Option Text
  pub home : Option Text

-- `Path::join` of a relative path.
unfoldable pub join : Text → Text → Text
join a b = if is_empty a || ends_with a (text "/") then a ++ b else a ++ b'/' ∷ b

unfoldable pub dirs_fallback : Environment → Text
unfolding join
dirs_fallback env = elim env.xdg_config_home [
  | some dir ↦ dir
  | none ↦ elim env.home [ some home ↦ join home (text ".config") | none ↦ text "/tmp/.config" ]
]

abbrev pub system_path : Text
system_path = text "/etc/zo-tunnel/server.yaml"

unfoldable pub user_path : Environment → Text
unfolding dirs_fallback
user_path env = join (join (dirs_fallback env) (text "zo-tunnel")) (text "server.yaml")

unfoldable pub config_path : Environment → Text
unfolding user_path
config_path env = if env.root then system_path else user_path env

-- The files of settings, and the service: whether it is installed, and whether it is active.
pub record Host : Type 0 where
  pub files : Text → File ServerConfig
  pub installed : Bool
  pub active : Bool

unfoldable pub exists : {A : Type 0} → File A → Bool
exists missing = false
exists _ = true

unfoldable pub resolve_config_path : Environment → Host → Option Text
unfolding exists user_path
resolve_config_path env host =
    if exists (host.files system_path)
    then some system_path
    else if exists (host.files (user_path env))
    then some (user_path env)
    else none

pub data CommandError : Type 0 where
  config_exists domain_required not_installed : CommandError
  load save install service : CommandError

unfoldable pub loaded : File ServerConfig → Result CommandError ServerConfig
loaded (holds c) = ok c
loaded _ = err load

unfoldable pub load_config : Text → Host → Result CommandError ServerConfig
unfolding loaded
load_config path host = loaded (host.files path)

unfoldable pub with_file : Text → File ServerConfig → Host → Host
with_file path file host = record host {
  files = λ p. if text_eq p path then file else host.files p;
}

unfoldable pub save_config :
    Environment → Write ServerConfig → ServerConfig → Host → Result CommandError (Unit {0}) × Host
unfolding config_path with_file
save_config env w cfg host = (
  elim w [ none ↦ ok tt | some _ ↦ err save ],
  with_file (config_path env) (saved_file w cfg) host,
)

-- `CaddyConfig::auto_detect`: whether `/etc/caddy` is a directory, and whether `which` finds a caddy.
unfoldable pub auto_detect : Bool → Bool → CaddyConfig
auto_detect dir which =
    if dir || which
    then record { enabled = true; admin_api = text "http://localhost:2019" }
    else default.caddy

pub record StartArgs : Type 0 where
  pub domain : Option Text
  pub token : Option Text
  pub dashboard_token : Option Text
  pub control_port : ℕ
  pub public_port : ℕ
  pub force : Bool

-- What the system answers to a command: the random bytes, whether Caddy is found, the write of the
-- settings, the write of the unit, and what `systemctl` says, with the state of the service then.
pub record Answers : Type 0 where
  pub client_bytes : List ℕ
  pub dashboard_bytes : List ℕ
  pub caddy_dir : Bool
  pub caddy_in_path : Bool
  pub write : Write ServerConfig
  pub unit_written : Bool
  pub commanded : Bool
  pub active_after : Bool

abbrev pub or_random : Option Text → List ℕ → Text
or_random none bytes = hex_string bytes
or_random (some token) bytes = token

-- The settings that `create_config` saves.
unfoldable pub new_config : Text → StartArgs → Answers → ServerConfig
unfolding auto_detect
new_config domain args a = record default {
  domain = domain;
  control_port = args.control_port;
  public_port = args.public_port;
  auth = record { tokens = or_random args.token a.client_bytes ∷ [] };
  dashboard_auth = record default.dashboard_auth {
    token = or_random args.dashboard_token a.dashboard_bytes;
  };
  caddy = auto_detect a.caddy_dir a.caddy_in_path;
}

unfoldable pub create_config :
    Environment → Text → StartArgs → Answers → Host → Result CommandError ServerConfig × Host
unfolding save_config
create_config env domain args a host =
    let cfg = new_config domain args a in
    let (r, host') = save_config env a.write cfg host in
    (elim r [ ok _ ↦ ok cfg | err e ↦ err e ], host')

-- The settings that `start` goes on with, by the file that is there and the domain that is given.
unfoldable pub settle :
    Environment
    → Option Text
    → Option Text
    → StartArgs
    → Answers
    → Host
    → Result CommandError ServerConfig × Host
unfolding create_config load_config
settle env (some path) none args a host = (load_config path host, host)
settle env (some path) (some domain) args a host =
    if args.force then create_config env domain args a host else (err config_exists, host)
settle env none none args a host = (err domain_required, host)
settle env none (some domain) args a host = create_config env domain args a host

unfoldable pub ensure_config :
    Environment → StartArgs → Answers → Host → Result CommandError ServerConfig × Host
unfolding resolve_config_path settle
ensure_config env args a host = settle env (resolve_config_path env host) args.domain args a host

-- `start_service`, `stop_service` and `restart_service`
unfoldable pub command_service : Answers → Host → Result CommandError (Unit {0}) × Host
command_service a host =
    (if a.commanded then ok tt else err service, record host { active = a.active_after })

-- The unit is written if there is none; then the service is started or restarted.
unfoldable pub start_service : Answers → Host → Result CommandError (Unit {0}) × Host
unfolding command_service
start_service a host =
    if not (host.installed || a.unit_written)
    then (err install, host)
    else command_service a (record host { installed = true })

-- The end of `cmd_start`, behind the settings.
unfoldable pub go_on :
    Answers → Result CommandError ServerConfig → Host → Result CommandError ServerConfig × Host
unfolding start_service
go_on a (err e) host = (err e, host)
go_on a (ok cfg) host =
    let (s, host') = start_service a host in (elim s [ ok _ ↦ ok cfg | err e ↦ err e ], host')

-- `cmd_start` without `--foreground`, which returns what it prints the summary of.
unfoldable pub cmd_start :
    Environment → StartArgs → Answers → Host → Result CommandError ServerConfig × Host
unfolding ensure_config go_on
cmd_start env args a host = let (r, host') = ensure_config env args a host in go_on a r host'

unfoldable pub load_or_at : Environment → Option Text → Host → Result CommandError ServerConfig
unfolding config_path load_config
load_or_at env (some path) host = load_config path host
load_or_at env none host = load_config (config_path env) host

-- The settings that `run_foreground` runs the server with: it is what the unit starts.
unfoldable pub foreground_config : Environment → Host → Result CommandError ServerConfig
unfolding resolve_config_path load_or_at
foreground_config env host = load_or_at env (resolve_config_path env host) host

unfoldable pub cmd_stop : Answers → Host → Result CommandError (Unit {0}) × Host
unfolding command_service
cmd_stop a host = if not host.active then (ok tt, host) else command_service a host

unfoldable pub cmd_restart : Answers → Host → Result CommandError (Unit {0}) × Host
unfolding command_service
cmd_restart a host =
    if not host.installed then (err not_installed, host) else command_service a host
