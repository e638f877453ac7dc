-- ===== src/Client/Process/Uninstall.antt =====
-- main.rs: `cmd_uninstall`.
use zo_tunnel.Prelude.{missing, ℕ, Bool, false, none, some, Result, ok, err, if◌then◌else◌}
use zo_tunnel.Protocol.Uninstall.{client, Installed, Answers, uninstall}
use zo_tunnel.Client.Storage.{Disk}
use zo_tunnel.Client.Process.{
  Os, Machine, sigterm, sigkill, as_target, read_pid, remove_pid, is_our_process, kill, ends_within,
}

-- The program, its running client, and the files under `~/.zo-tunnel/`.
pub record Home : Type 0 where
  pub installed : Installed
  pub machine : Machine
  pub disk : Disk

module _ (os : Os) where
  -- The signals to the running client, with ten pauses between them; one that has ended in a pause
  -- is found to be no client.
  unfoldable pub stop_running : ℕ → Machine → Machine
  stop_running pid m =
      let m' = kill os (as_target pid) sigterm m in
      if ends_within os 10 0 pid
      then remove_pid m'
      else if is_our_process os 10 pid
      then remove_pid (kill os (as_target pid) sigkill m')
      else remove_pid m'

  -- From the end of `uninstall` on; `removes` says whether the directory could be removed, with the
  -- file of the process id in it.
  unfoldable pub clean_up : Bool → Home → Home
  unfolding stop_running
  clean_up removes h =
      let (r, m) = read_pid h.machine in
      let m' : Machine = elim r [
        | err e ↦ m
        | ok none ↦ m
        | ok (some pid) ↦ if is_our_process os 0 pid then stop_running pid m else m
      ] in
      if removes
      then record h {
        machine = remove_pid m';
        disk = record { credentials = missing; tunnels = missing };
      }
      else record h { machine = m' }

  unfoldable pub cmd_uninstall : Bool → Answers → Bool → Home → Result (Unit {0}) (Unit {0}) × Home
  unfolding clean_up
  cmd_uninstall confirmed a removes h =
      let (r, installed) = uninstall client confirmed false a h.installed in
      let h' : Home = record h { installed = installed } in
      elim r [ err e ↦ (err e, h') | ok _ ↦ (ok tt, clean_up removes h') ]
