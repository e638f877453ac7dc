-- ===== src/Server/Commands/Sources.antt =====
-- config.rs of the server: which file a process reads, and what new settings let in.
use zo_tunnel.Prelude.{
  ◌≡◌, ℕ, List, is_empty, Bool-cases, ◌≢◌, ◌⊎◌, ◌↔◌, inl, inr, refl, sym, ◌∙◌, ap, Bool, true,
  false, Option, none, some, [], ◌∷◌, Result, ok, Text, text_eq_iff, text_eq_refl, if◌then◌else◌,
  File, holds, arith,
}
use zo_tunnel.Server.Config.{ServerConfig, validate_token, dashboard_auth_enabled, hex_string}
use zo_tunnel.Server.Commands.{
  Environment, Host, StartArgs, Answers, CommandError, system_path, user_path, config_path, exists,
  resolve_config_path, loaded, load_config, with_file, new_config, or_random, create_config, settle,
  load_or_at, foreground_config,
}

resolve-system :
    (env : Environment) (host : Host)
    → exists (host.files system_path) ≡ true
    → resolve_config_path env host ≡ some system_path
unfolding resolve_config_path
resolve-system env host there = rw there refl

resolve-user :
    (env : Environment) (host : Host)
    → exists (host.files system_path) ≡ false
    → resolve_config_path env host
      ≡ (if exists (host.files (user_path env)) then some (user_path env) else none)
unfolding resolve_config_path
resolve-user env host absent = rw absent refl

-- The system's file is taken if it is there.
foreground-system :
    (service : Environment) (host : Host)
    → exists (host.files system_path) ≡ true
    → foreground_config service host ≡ load_config system_path host
unfolding foreground_config load_or_at
foreground-system service host there = rw (resolve-system service host there) refl

pub settle-creates :
    (env : Environment) (found : Option Text) (domain : Text) (args : StartArgs) (a : Answers)
    (host : Host)
    → (found ≡ none) ⊎ (args.force ≡ true)
    → settle env found (some domain) args a host ≡ create_config env domain args a host
unfolding settle
settle-creates env none domain args a host new = refl
settle-creates env (some path) domain args a host new = ground arith

-- What a process of root runs with, by what is in the system's file and in its own.
abbrev pub first_of : File ServerConfig → File ServerConfig → Result CommandError ServerConfig
first_of system user =
    if exists system then loaded system else if exists user then loaded user else loaded system

pub first_of-system :
    (system user : File ServerConfig) → exists system ≡ true → first_of system user ≡ loaded system
first_of-system system user there = rw there refl

first_of-user :
    (system user : File ServerConfig)
    → exists system ≡ false
    → first_of system user ≡ (if exists user then loaded user else loaded system)
first_of-user system user absent = rw absent refl

-- Where the system's file is not there: the user's, or an attempt at the place to save to.
load_or_at-if :
    (env : Environment) (path : Text) (host : Host) (there : Bool)
    → load_or_at env (if there then some path else none) host
      ≡ (if there then loaded (host.files path) else loaded (host.files (config_path env)))
unfolding load_or_at load_config
load_or_at-if env path host true = refl
load_or_at-if env path host false = refl

config_path-root : (env : Environment) → env.root ≡ true → config_path env ≡ system_path
unfolding config_path
config_path-root env root = ap (λ r. if r then system_path else user_path env) root

pub foreground-root :
    (service : Environment) (host : Host)
    → service.root ≡ true
    → foreground_config service host
      ≡ first_of (host.files system_path) (host.files (user_path service))
unfolding foreground_config load_config
foreground-root service host root =
    let user = user_path service in
    elim (Bool-cases (exists (host.files system_path))) [
      | inl there ↦
          foreground-system service host there
          ∙ sym (first_of-system (host.files system_path) (host.files user) there)
      | inr absent ↦
          ap (λ p. load_or_at service p host) (resolve-user service host absent)
          ∙ load_or_at-if service user host (exists (host.files user))
          ∙ ap
              (λ p.
                if exists (host.files user)
                then loaded (host.files user)
                else loaded (host.files p))
              (config_path-root service root)
          ∙ sym (first_of-user (host.files system_path) (host.files user) absent)
    ]

pub foreground-holds :
    (service : Environment) (host : Host) (cfg : ServerConfig)
    → host.files system_path ≡ holds cfg
    → foreground_config service host ≡ ok cfg
unfolding load_config loaded exists
foreground-holds service host cfg file =
    foreground-system service host (ap exists file) ∙ ap loaded file

pub with_file-at :
    (path : Text) (file : File ServerConfig) (host : Host)
    → (with_file path file host).files path ≡ file
unfolding with_file
with_file-at path file host = rw (text_eq_refl path) refl

pub with_file-other :
    (path other : Text) (file : File ServerConfig) (host : Host)
    → other ≢ path
    → (with_file path file host).files other ≡ host.files other
unfolding with_file
with_file-other path other file host ne = ground (arith, text_eq_iff other path)

pub new_config-accepts :
    (domain token : Text) (args : StartArgs) (a : Answers)
    → (validate_token (new_config domain args a) token ≡ true)
      ↔ (token ≡ or_random args.token a.client_bytes)
unfolding validate_token new_config
new_config-accepts domain token args a =
    ground (arith, text_eq_iff (or_random args.token a.client_bytes) token)

or_random-empty :
    (given : Option Text) (bytes : List ℕ)
    → bytes ≢ []
    → (is_empty (or_random given bytes) ≡ true) ↔ (given ≡ some [])
unfolding hex_string
or_random-empty none [] ne = absurd (ne refl)
or_random-empty none (b ∷ bytes) ne = ground arith
or_random-empty (some []) bytes ne = ground arith
or_random-empty (some (c ∷ t)) bytes ne = ground arith

pub new_config-open :
    (domain : Text) (args : StartArgs) (a : Answers)
    → a.dashboard_bytes ≢ []
    → (dashboard_auth_enabled (new_config domain args a) ≡ false) ↔ (args.dashboard_token ≡ some [])
unfolding dashboard_auth_enabled new_config
new_config-open domain args a ne =
    ground (arith, or_random-empty args.dashboard_token a.dashboard_bytes ne)
