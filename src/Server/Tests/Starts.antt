-- ===== src/Server/Tests/Starts.antt =====
-- The commands of the server on a concrete machine.
use zo_tunnel.Prelude.{
  ◌≡◌, ◌≢◌, ◌↔◌, refl, true, false, none, some, [], ◌∷◌, ok, inl, inr, text, missing, arith,
}
use zo_tunnel.Server.Config.{validate_token, dashboard_auth_enabled, hex_string}
use zo_tunnel.Server.Commands.{
  Environment, Host, StartArgs, Answers, system_path, resolve_config_path, dirs_fallback, join,
  user_path, new_config, cmd_start, foreground_config,
}
use zo_tunnel.Server.Commands.Settings.{cmd_start-serves, cmd_start-shadowed}

abbrev fresh : Host
fresh = record { files = λ p. missing; installed = false; active = false }

abbrev owner : Environment
owner = record { root = true; xdg_config_home = none; home = some (text "/root") }

abbrev visitor : Environment
visitor = record { root = false; xdg_config_home = none; home = some (text "/home/u") }

-- What systemd gives to a service without a user.
abbrev service : Environment
service = record { root = true; xdg_config_home = none; home = none }

abbrev args : StartArgs
args = record {
  domain = some (text "t.io");
  token = none;
  dashboard_token = none;
  control_port = 6200;
  public_port = 6210;
  force = false;
}

abbrev answers : Answers
answers = record {
  client_bytes = 171 ∷ [];
  dashboard_bytes = 1 ∷ [];
  caddy_dir = false;
  caddy_in_path = true;
  write = none;
  unit_written = true;
  commanded = true;
  active_after = true;
}

cmd_start-serves_example :
    ((cmd_start owner args answers fresh).0 ≡ ok (new_config (text "t.io") args answers))
    × (foreground_config service (cmd_start owner args answers fresh).1
        ≡ ok (new_config (text "t.io") args answers))
    × ((validate_token (new_config (text "t.io") args answers) (text "ab") ≡ true)
        ↔ (text "ab" ≡ text "ab"))
    × ((dashboard_auth_enabled (new_config (text "t.io") args answers) ≡ false)
        ↔ (args.dashboard_token ≡ some []))
unfolding resolve_config_path hex_string
cmd_start-serves_example =
    cmd_start-serves owner args answers fresh service (text "t.io") (text "ab") refl refl (inl refl)
      refl refl refl (λ e. ground arith)

visitor-path : user_path visitor ≢ system_path
unfolding user_path dirs_fallback join
visitor-path e = ground arith

service-path : user_path service ≢ user_path visitor
unfolding user_path dirs_fallback join
service-path e = ground arith

cmd_start-shadowed_example :
    foreground_config service (cmd_start visitor args answers fresh).1
    ≡ foreground_config service fresh
cmd_start-shadowed_example =
    cmd_start-shadowed visitor args answers fresh service refl refl visitor-path (inr service-path)
