-- ===== src/Server/Commands/Settings.antt =====
-- Which settings the service runs with once `start` has ended.
use zo_tunnel.Prelude.{
  ◌≡◌, ◌≢◌, ◌⊎◌, ◌↔◌, inl, inr, refl, sym, ◌∙◌, ap, true, false, ◌||◌, Option, none, some, [],
  Result, ok, err, Text, saved_file, if◌then◌else◌, holds, arith,
}
use zo_tunnel.Server.Config.{ServerConfig, validate_token, dashboard_auth_enabled}
use zo_tunnel.Server.Commands.{
  Environment, Host, StartArgs, Answers, CommandError, system_path, user_path, config_path, exists,
  resolve_config_path, with_file, save_config, new_config, or_random, create_config, settle,
  ensure_config, start_service, command_service, go_on, cmd_start, foreground_config,
}
use zo_tunnel.Server.Commands.Sources.{
  settle-creates, first_of-system, foreground-root, foreground-holds, with_file-at, with_file-other,
  new_config-accepts, new_config-open, first_of,
}

module _ (env : Environment) (args : StartArgs) (a : Answers) (host : Host) where
  abbrev after : Host
  after = (cmd_start env args a host).1

  -- What the commands to the service leave alone.
  start_service-files : (h : Host) → (start_service a h).1.files ≡ h.files
  unfolding start_service command_service
  start_service-files h = ground arith

  go_on-files : (r : Result CommandError ServerConfig) (h : Host) → (go_on a r h).1.files ≡ h.files
  unfolding go_on
  go_on-files (err e) h = refl
  go_on-files (ok cfg) h = start_service-files h

  -- What `start` leaves alone for a user that is not root.
  create-files :
      (domain path : Text)
      → env.root ≡ false
      → path ≢ user_path env
      → (create_config env domain args a host).1.files path ≡ host.files path
  unfolding create_config save_config config_path
  create-files domain path user ne =
      with_file-other (config_path env) path (saved_file a.write (new_config domain args a)) host
        (λ e. ne (e ∙ ap (λ r. if r then system_path else user_path env) user))

  settle-files :
      (found given : Option Text) (path : Text)
      → env.root ≡ false
      → path ≢ user_path env
      → (settle env found given args a host).1.files path ≡ host.files path
  unfolding settle
  settle-files none none path user ne = refl
  settle-files none (some domain) path user ne = create-files domain path user ne
  settle-files (some p) none path user ne = refl
  settle-files (some p) (some domain) path user ne =
      ground (arith, create-files domain path user ne)

  after-files :
      (path : Text) → env.root ≡ false → path ≢ user_path env → after.files path ≡ host.files path
  unfolding cmd_start ensure_config
  after-files path user ne =
      ap (λ g. g path)
        (go_on-files (ensure_config env args a host).0 (ensure_config env args a host).1)
      ∙ settle-files (resolve_config_path env host) args.domain path user ne

  -- `start` creates settings where there are none or it is told to.
  ensure-creates :
      (domain : Text)
      → args.domain ≡ some domain
      → (resolve_config_path env host ≡ none) ⊎ (args.force ≡ true)
      → ensure_config env args a host ≡ create_config env domain args a host
  unfolding ensure_config
  ensure-creates domain given new =
      ap (λ d. settle env (resolve_config_path env host) d args a host) given
      ∙ settle-creates env (resolve_config_path env host) domain args a host new

  saves :
      (domain : Text)
      → env.root ≡ true
      → a.write ≡ none
      → create_config env domain args a host ≡ (
        ok (new_config domain args a),
        with_file system_path (holds (new_config domain args a)) host,
      )
  unfolding create_config save_config config_path saved_file with_file new_config
  saves domain root written = rw root (rw written refl)

  started :
      (cfg : ServerConfig) (h : Host)
      → h.installed || a.unit_written ≡ true
      → a.commanded ≡ true
      → (go_on a (ok cfg) h).0 ≡ ok cfg
  unfolding go_on start_service command_service
  started cfg h unit commanded = ground arith

  -- `start`, run by root with a domain that is given, where there are no settings yet or it is told to
  -- replace them: when the settings are written, the unit is there or written, and the service is
  -- started, the service runs with what `start` reports, whatever its environment. It accepts one
  -- client's token, the given one or the random one, and, as the random bytes are not none, its
  -- dashboard is open only to a dashboard's token given as the empty text.
  pub cmd_start-serves :
      (service : Environment) (domain token : Text)
      → env.root ≡ true
      → args.domain ≡ some domain
      → (resolve_config_path env host ≡ none) ⊎ (args.force ≡ true)
      → a.write ≡ none
      → host.installed || a.unit_written ≡ true
      → a.commanded ≡ true
      → a.dashboard_bytes ≢ []
      → ((cmd_start env args a host).0 ≡ ok (new_config domain args a))
        × (foreground_config service after ≡ ok (new_config domain args a))
        × ((validate_token (new_config domain args a) token ≡ true)
            ↔ (token ≡ or_random args.token a.client_bytes))
        × ((dashboard_auth_enabled (new_config domain args a) ≡ false)
            ↔ (args.dashboard_token ≡ some []))
  unfolding cmd_start
  cmd_start-serves service domain token root given new written unit commanded bytes =
      let created : ensure_config env args a host ≡ (
        ok (new_config domain args a),
        with_file system_path (holds (new_config domain args a)) host,
      ) =
        ensure-creates domain given new ∙ saves domain root written in
      let kept : after.files
          ≡ (with_file system_path (holds (new_config domain args a)) host).files =
        go_on-files (ensure_config env args a host).0 (ensure_config env args a host).1
        ∙ ap (λ x. x.1.files) created in
      let file : after.files system_path ≡ holds (new_config domain args a) =
        ap (λ g. g system_path) kept
        ∙ with_file-at system_path (holds (new_config domain args a)) host in
      (
        ap (λ x. (go_on a x.0 x.1).0) created
            ∙ started (new_config domain args a)
                (with_file system_path (holds (new_config domain args a)) host) unit commanded,
        foreground-holds service after (new_config domain args a) file,
        new_config-accepts domain token args a,
        new_config-open domain args a bytes,
      )

  -- For a user that is not root and whose own file is not the system-wide one, the service, which
  -- root runs, has the settings that it had before `start`, whatever `start` was told and reports:
  -- where a system-wide file is there, or the environment of the service names another directory than
  -- the user's.
  pub cmd_start-shadowed :
      (service : Environment)
      → env.root ≡ false
      → service.root ≡ true
      → user_path env ≢ system_path
      → (exists (host.files system_path) ≡ true) ⊎ (user_path service ≢ user_path env)
      → foreground_config service after ≡ foreground_config service host
  cmd_start-shadowed service user root ne other =
      let system : after.files system_path ≡ host.files system_path =
        after-files system_path user (λ e. ne (sym e)) in
      foreground-root service after root
      ∙ ap (λ f. first_of f (after.files (user_path service))) system
      ∙ elim other [
        | inl there ↦
            first_of-system (host.files system_path) (after.files (user_path service)) there
            ∙ sym (first_of-system (host.files system_path) (host.files (user_path service)) there)
        | inr elsewhere ↦
            ap (first_of (host.files system_path)) (after-files (user_path service) user elsewhere)
      ]
      ∙ sym (foreground-root service host root)
