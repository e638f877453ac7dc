-- ===== src/Client/Process.antt =====
-- main.rs: the file of the process id, and `stop`. The system answers at points in time, which the
-- pauses of the program count.
pub mod Numerals
pub mod Stop
pub mod Uninstall
use zo_tunnel.Prelude.{
  File, missing, unreadable, holds, Write, saved_file, ℕ, zero, suc, ◌+◌, ◌-◌, ◌^◌, Bool, true,
  false, not, ◌&&◌, ◌||◌, Option, none, some, List, [], ◌∷◌, ◌++◌, Result, ok, err, is_empty, Text,
  text, text_eq, trim, split, strip_suffix, first_piece, decimal, ltb, ◌==◌, if◌then◌else◌,
}
use zo_tunnel.Protocol.SelfUpdate.{parse_u32}
use zo_tunnel.Protocol.Utf8.{utf8, from_utf8_lossy}

-- Whom `kill` means by its first argument, which is signed.
pub data Target : Type 0 where
  process group : ℕ → Target
  own_group everyone : Target

-- `pid as i32` of a `u32`, as `kill` reads it.
unfoldable pub as_target : ℕ → Target
as_target pid =
    if pid == 0
    then own_group
    else if ltb pid (2 ^ 31)
    then process pid
    else if pid == 2 ^ 32 - 1
    then everyone
    else group (2 ^ 32 - pid)

pub data Signal : Type 0 where
  sigterm sigkill : Signal

-- What the system answers: whether a signal 0 arrives, what `/proc` holds of a process, and whether
-- SIGTERM could be sent.
pub record Os : Type 0 where
  pub exists : ℕ → Target → Bool
  pub exe : ℕ → ℕ → Option Text
  pub cmdline : ℕ → ℕ → Option (List ℕ)
  pub terminates : Target → Bool

-- The file of the process id, and the signals that were sent.
pub record Machine : Type 0 where
  pub pid_file : File Text
  pub signals : List (Target × Signal)

unfoldable pub remove_pid : Machine → Machine
remove_pid m = record m { pid_file = missing }

-- An error stands for the file system's.
unfoldable pub read_pid : Machine → Result (Unit {0}) (Option ℕ) × Machine
unfolding remove_pid
read_pid m = elim m.pid_file [
  | missing ↦ (ok none, m)
  | unreadable ↦ (err tt, m)
  | holds content ↦ elim (parse_u32 (trim content)) [
    | some pid ↦ (ok (some pid), m)
    | none ↦ (ok none, remove_pid m)
  ]
]

-- What starting the client fails with; `failed` is everything but the two that the model tells apart.
pub data StartError : Type 0 where
  another_runs : ℕ → StartError
  not_written failed : StartError

-- `write_pid`, with what the file system makes of it.
unfoldable pub write_pid : Write Text → ℕ → Machine → Result StartError (Unit {0}) × Machine
write_pid w pid m = (
  elim w [ none ↦ ok tt | some left ↦ err not_written ],
  record m { pid_file = saved_file w (decimal pid) },
)

-- `Path::file_name` and `to_str`: the last component that is neither empty nor a dot, unless it leads
-- upwards.
unfoldable pub last_name : List Text → Option Text
last_name [] = none
last_name (c ∷ cs) = elim (last_name cs) [
  | some name ↦ some name
  | none ↦ if is_empty c || text_eq c (text ".") then none else some c
]

unfoldable pub file_name : Text → Option Text
unfolding last_name split text_eq
file_name path = elim (last_name (split b'/' path)) [
  | none ↦ none
  | some name ↦ if text_eq name (text "..") then none else some name
]

unfoldable pub is_zo_tunnel_binary : Text → Bool
unfolding file_name strip_suffix text_eq
is_zo_tunnel_binary path =
    let cleaned : Text = elim (strip_suffix path (text " (deleted)")) [
      | none ↦ path
      | some rest ↦ rest
    ] in
    elim (file_name cleaned) [ none ↦ false | some name ↦ text_eq name (text "zo-tunnel-client") ]

-- `std::str::from_utf8`: what is not valid is not what its repair encodes to.
unfoldable pub from_utf8 : List ℕ → Option Text
from_utf8 b = let t = from_utf8_lossy b in if text_eq (utf8 t) b then some t else none

module _ (os : Os) where
  unfoldable pub is_process_alive : ℕ → ℕ → Bool
  unfolding as_target
  is_process_alive now pid = if pid == 0 then false else os.exists now (as_target pid)

  unfoldable pub is_our_process : ℕ → ℕ → Bool
  unfolding is_process_alive is_zo_tunnel_binary from_utf8
  is_our_process now pid = if not (is_process_alive now pid) then false else elim (os.exe now pid) [
    | some path ↦ is_zo_tunnel_binary path
    | none ↦ elim (os.cmdline now pid) [
      | none ↦ true
      | some cmdline ↦ elim (from_utf8 (first_piece 0 cmdline)) [
        | none ↦ true
        | some arg0 ↦ is_zo_tunnel_binary arg0
      ]
    ]
  ]

  abbrev pub kill : Target → Signal → Machine → Machine
  kill target signal m = record m { signals = m.signals ++ (target, signal) ∷ [] }

  -- The pauses of 100 ms: whether the process ended in one of them.
  unfoldable pub ends_within : ℕ → ℕ → ℕ → Bool
  ends_within zero now pid = false
  ends_within (suc rounds) now pid =
      not (is_process_alive (suc now) pid) || ends_within rounds (suc now) pid

  -- `cmd_stop` from the signal on; the error is that of the system.
  unfoldable pub terminate : ℕ → Machine → Result (Unit {0}) (Unit {0}) × Machine
  unfolding ends_within is_our_process
  terminate pid m =
      let m' = kill (as_target pid) sigterm m in
      if not (os.terminates (as_target pid))
      then (err tt, remove_pid m')
      else if ends_within 20 0 pid
      then (ok tt, remove_pid m')
      else if is_our_process 20 pid
      then (ok tt, remove_pid (kill (as_target pid) sigkill m'))
      else (ok tt, remove_pid m')

  unfoldable pub cmd_stop : Machine → Result (Unit {0}) (Unit {0}) × Machine
  unfolding terminate read_pid
  cmd_stop m =
      let (r, m') = read_pid m in
      elim r [
        | err e ↦ (err e, m')
        | ok none ↦ (ok tt, m')
        | ok (some pid) ↦
            if not (is_our_process 0 pid) then (ok tt, remove_pid m') else terminate pid m'
      ]

  -- Before `cmd_foreground` runs, with the program's own process id: an error is that another client
  -- runs, or that the file could not be written.
  unfoldable pub claim_pid : Write Text → ℕ → Machine → Result StartError (Unit {0}) × Machine
  unfolding write_pid read_pid
  claim_pid w pid m =
      let (r, m') = read_pid m in
      elim r [
        | err e ↦ write_pid w pid m'
        | ok none ↦ write_pid w pid m'
        | ok (some other) ↦
            let claimed = write_pid w pid m' in
            if other == pid
            then (ok tt, m')
            else if is_our_process 0 other
            then (err (another_runs other), m')
            else claimed
      ]

  -- `cmd_foreground`; `ran` is how `run_foreground` ended, which removes the file itself where it
  -- ends without an error.
  unfoldable pub cmd_foreground :
      Write Text
      → ℕ
      → Result (Unit {0}) (Unit {0})
      → Machine
      → Result StartError (Unit {0}) × Machine
  unfolding claim_pid
  cmd_foreground w pid ran m =
      let (r, m') = claim_pid w pid m in
      elim r [
        | err e ↦ (err e, m')
        | ok _ ↦ elim ran [ ok _ ↦ (ok tt, remove_pid m') | err e ↦ (err failed, remove_pid m') ]
      ]

  -- `cmd_start` behind its check: `spawned` is the process that was started, if it could be.
  unfoldable pub launch : Write Text → Option ℕ → Machine → Result StartError (Unit {0}) × Machine
  unfolding write_pid is_process_alive
  launch w spawned m = elim spawned [
    | none ↦ (err failed, m)
    | some pid ↦
        let (r, m') = write_pid w pid m in
        elim r [
          | err e ↦ (err e, m')
          | ok _ ↦ if is_process_alive 3 pid then (ok tt, m') else (err failed, remove_pid m')
        ]
  ]

  unfoldable pub cmd_start :
      Write Text → Option ℕ → Machine → Result StartError (Unit {0}) × Machine
  unfolding launch read_pid
  cmd_start w spawned m =
      let (r, m') = read_pid m in
      elim r [
        | err e ↦ (err failed, m')
        | ok none ↦ launch w spawned m'
        | ok (some pid) ↦
            if is_our_process 0 pid then (ok tt, m') else launch w spawned (remove_pid m')
      ]
