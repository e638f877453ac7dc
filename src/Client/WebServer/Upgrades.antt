-- ===== src/Client/WebServer/Upgrades.antt =====
-- web_server.rs: the two handlers about upgrades. What the upgrade came to is an argument.
use zo_tunnel.Prelude.{Option, none, some, ◌∷◌, ◌++◌, Result, ok, err, Text, text, decimal}
use zo_tunnel.Protocol.SelfUpdate.{is_newer}
use zo_tunnel.Client.WebServer.{AppState}
use zo_tunnel.Client.WebServer.Api.{Response, message, upgrade, ok_response, err_response}

-- `fetched` is what `fetch_latest_version` returned, `none` where it failed or panicked.
unfoldable pub api_upgrade_check : Text → Option Text → Response
api_upgrade_check version fetched = elim fetched [
  | none ↦ err_response (text "Failed to fetch latest version from GitHub")
  | some latest ↦ ok_response (
      upgrade (record {
        current = b'v' ∷ version;
        latest = latest;
        upgrade_available = is_newer version latest;
      }))
]

-- The command that stops this client and starts it again, which the shell runs half a second after
-- the answer, just before the process ends.
unfoldable pub restart_cmd : Text → AppState → Text
restart_cmd bin app =
    text "nohup sh -c 'sleep 1 && "
    ++ (bin
        ++ (text " stop && sleep 1 && "
            ++ (bin
                ++ (text " start --bind "
                    ++ (app.bind
                        ++ (text " --port "
                            ++ (decimal app.port ++ text "' >/dev/null 2>&1 &")))))))

-- `err` stands for a task that panicked. The command is there where the process will end.
unfoldable pub api_upgrade :
    Text → Result Text (Result Text (Unit {0})) → AppState → Response × Option Text
unfolding restart_cmd
api_upgrade bin (ok (ok _)) app = (
  ok_response (message (text "Upgrade successful. Restarting client...")),
  some (restart_cmd bin app),
)
api_upgrade bin (ok (err e)) app = (err_response (text "Upgrade failed: " ++ e), none)
api_upgrade bin (err e) app = (err_response (text "Task panic: " ++ e), none)
