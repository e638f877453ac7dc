-- ===== src/Client/Tests/Processes.antt =====
-- The theorems about the client's process at concrete systems.
use zo_tunnel.Prelude.{
  missing, holds, ◌-◌, ◌^◌, ◌≡◌, ◌⊎◌, refl, true, false, inr, none, some, List, [], ◌∷◌, ok, text,
  trim, All, arith,
}
use zo_tunnel.Protocol.SelfUpdate.{parse_u32}
use zo_tunnel.Protocol.Files.{done}
use zo_tunnel.Protocol.Uninstall.{Answers}
use zo_tunnel.Client.Process.{
  Os, Machine, Target, process, group, everyone, Signal, sigterm, as_target, read_pid,
  is_process_alive, is_our_process, is_zo_tunnel_binary, remove_pid, cmd_stop, cmd_start,
}
use zo_tunnel.Client.Process.Stop.{
  IsJustified, IsFree, cmd_stop-IsJustified, cmd_stop-group, start-stop,
}
use zo_tunnel.Client.Process.Uninstall.{Home}

-- A client runs under every process id, and does not end.
abbrev running : Os
running = record {
  exists = λ now t. true;
  exe = λ now pid. some (text "/home/u/zo-tunnel-client (deleted)");
  cmdline = λ now pid. none;
  terminates = λ t. true;
}

-- Every signal arrives, but `/proc` holds nothing.
abbrev hidden : Os
hidden = record {
  exists = λ now t. true;
  exe = λ now pid. none;
  cmdline = λ now pid. none;
  terminates = λ t. true;
}

-- The examples of the comment on `is_zo_tunnel_binary`.
binary_installed : is_zo_tunnel_binary (text "/usr/local/bin/zo-tunnel-client (deleted)") ≡ true
unfolding is_zo_tunnel_binary
binary_installed = refl

binary_elsewhere : is_zo_tunnel_binary (text "/home/zo-tunnel-client-dev/nginx") ≡ false
unfolding is_zo_tunnel_binary
binary_elsewhere = refl

abbrev machine : Machine
machine = record { pid_file = holds (text "42\n"); signals = [] }

cmd_stop-IsJustified_example :
    (sent : List (Target × Signal)) × ((cmd_stop running machine).1.signals ≡ sent)
    × All (IsJustified running (process 42) 42) sent
    × ((cmd_stop running machine).1.pid_file ≡ missing)
    × (((is_our_process running 0 42 ≡ false) × (sent ≡ []))
        ⊎ ((is_our_process running 0 42 ≡ true)
            × ((rest : List (Target × Signal)) × (sent ≡ (process 42, sigterm) ∷ rest))))
unfolding read_pid parse_u32 trim
cmd_stop-IsJustified_example = cmd_stop-IsJustified running 42 machine machine refl (omega arith)

abbrev last : Machine
last = record { pid_file = holds (text "4294967295"); signals = [] }

cmd_stop-group_example :
    (rest : List (Target × Signal)) × ((cmd_stop hidden last).1.signals
      ≡ (as_target 4294967295, sigterm) ∷ rest)
    × ((as_target 4294967295 ≡ everyone) ⊎ (as_target 4294967295 ≡ group (2 ^ 32 - 4294967295)))
unfolding parse_u32 trim
cmd_stop-group_example =
    cmd_stop-group hidden (text "4294967295") 4294967295 last refl refl (omega arith) (omega arith)
      refl refl refl

-- The file is left over from a process whose number another program has now.
abbrev stale : Machine
stale = record { pid_file = holds (text "7\n"); signals = [] }

abbrev other_program : Os
other_program = record running { exe = λ now pid. some (text "/usr/bin/nginx") }

stale-IsFree : IsFree other_program stale (record stale { pid_file = missing })
unfolding read_pid parse_u32 trim is_our_process is_process_alive is_zo_tunnel_binary remove_pid
stale-IsFree = inr (7, stale, refl, refl, refl)

start-stop_example :
    let (r, started) = cmd_start other_program none (some 42) stale in
    (r ≡ ok tt)
    × ((rest : List (Target × Signal)) × ((cmd_stop running started).1.signals
          ≡ (process 42, sigterm) ∷ rest)
        × ((cmd_stop running started).1.pid_file ≡ missing))
unfolding is_process_alive is_our_process
start-stop_example =
    start-stop other_program running 42 stale (record stale { pid_file = missing }) stale-IsFree
      (omega arith) refl refl

abbrev home : Home
home = record {
  installed = record {
    service_active = false;
    service_file = none;
    binary = some tt;
    config_dir = none;
  };
  machine = machine;
  disk = record {
    credentials = holds (record {
      server = text "t.io";
      token = text "secret";
      tls = record { enabled = false; server_name = []; skip_verify = false };
    });
    tunnels = missing;
  };
}

abbrev answers : Answers
answers = record {
  input = some (text "n\n");
  stops = true;
  service = (done, none);
  binary = (done, none);
  config = (done, none);
}
