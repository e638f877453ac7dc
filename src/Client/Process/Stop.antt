-- ===== src/Client/Process/Stop.antt =====
-- main.rs: whom `stop` sends signals to.
use zo_tunnel.Prelude.{
  missing, holds, saved_file, ℕ, zero, suc, ◌-◌, ◌^◌, ◌≤◌, ◌<◌, ◌≡◌, ◌≢◌, refl, ap, subst, ◌⊎◌, inl,
  inr, true, false, none, some, List, [], ◌∷◌, ◌++◌, append_assoc, append-nil, ok, All, Text, trim,
  decimal, ◌==◌, Bool-cases, arith,
}
use zo_tunnel.Protocol.SelfUpdate.{parse_u32}
use zo_tunnel.Client.Process.{
  Os, Machine, Target, process, group, everyone, Signal, sigterm, sigkill, as_target, read_pid,
  remove_pid, write_pid, is_process_alive, is_our_process, ends_within, terminate, cmd_stop, launch,
  cmd_start,
}
use zo_tunnel.Client.Process.Numerals.{parse_u32-decimal}

negative :
    (pid : ℕ)
    → 2 ^ 31 ≤ pid
    → pid < 2 ^ 32
    → (as_target pid ≡ everyone) ⊎ (as_target pid ≡ group (2 ^ 32 - pid))
unfolding as_target
negative pid large small = elim (Bool-cases (pid == 2 ^ 32 - 1)) [
  | inl last ↦ inl (ground arith)
  | inr other ↦ inr (ground arith)
]

positive : (pid : ℕ) → pid ≢ 0 → pid < 2 ^ 31 → as_target pid ≡ process pid
unfolding as_target
positive pid ne small = ground arith

module _ (os : Os) where
  -- The process is there after each of the next pauses.
  abbrev pub Lives : ℕ → ℕ → ℕ → Type 0
  Lives zero now pid = Unit
  Lives (suc rounds) now pid =
      (is_process_alive os (suc now) pid ≡ true) × Lives rounds (suc now) pid

  -- Why a signal may be sent for a process id: SIGTERM because the process is a client, SIGKILL
  -- because it is still one after twenty pauses that it has lived through.
  abbrev pub IsJustified : Target → ℕ → Target × Signal → Type 0
  IsJustified to pid (target, sigterm) = (target ≡ to) × (is_our_process os 0 pid ≡ true)
  IsJustified to pid (target, sigkill) =
      (target ≡ to) × (is_our_process os 20 pid ≡ true) × Lives 20 0 pid

  ends-Lives : (rounds now pid : ℕ) → ends_within os rounds now pid ≡ false → Lives rounds now pid
  unfolding ends_within
  ends-Lives zero now pid h = tt
  ends-Lives (suc rounds) now pid h = (ground arith, ends-Lives rounds (suc now) pid (ground arith))

  -- What `terminate` sends: SIGTERM first.
  terminate-sends :
      (pid : ℕ) (m : Machine)
      → is_our_process os 0 pid ≡ true
      → (rest : List (Target × Signal)) × ((terminate os pid m).1.signals
          ≡ m.signals ++ (as_target pid, sigterm) ∷ rest)
        × All (IsJustified (as_target pid) pid) ((as_target pid, sigterm) ∷ rest)
        × ((terminate os pid m).1.pid_file ≡ missing)
  unfolding terminate remove_pid
  terminate-sends pid m ours =
      let target = as_target pid in
      elim (Bool-cases (os.terminates target)) [
        | inr refused ↦ rw (refused, terminate) ([], refl, ((refl, ours), tt), refl)
        | inl sent ↦ elim (Bool-cases (ends_within os 20 0 pid)) [
          | inl ended ↦ rw (sent, terminate) (rw ended ([], refl, ((refl, ours), tt), refl))
          | inr not_ ↦ elim (Bool-cases (is_our_process os 20 pid)) [
            | inr strange ↦
                rw (sent, terminate) (rw not_ (rw strange ([], refl, ((refl, ours), tt), refl)))
            | inl still ↦
                rw (sent, terminate)
                  (rw not_ (
                    rw still (
                      (target, sigkill) ∷ [],
                      append_assoc m.signals ((target, sigterm) ∷ []) ((target, sigkill) ∷ []),
                      ((refl, ours), ((refl, still, ends-Lives 20 0 pid not_), tt)),
                      refl,
                    )))
          ]
        ]
      ]

  ours-nonzero : (pid : ℕ) → is_our_process os 0 pid ≡ true → pid ≢ 0
  unfolding is_our_process is_process_alive
  ours-nonzero pid ours none_ = ground arith

  -- For a file with a process id below 2³¹, `stop` sends signals to the process of that id only:
  -- SIGTERM if it is a client, and SIGKILL only if it is still one after twenty pauses that it has
  -- lived through. Where it is no client, nothing is sent. The file is gone in each case.
  pub cmd_stop-IsJustified :
      (pid : ℕ) (m m' : Machine)
      → read_pid m ≡ (ok (some pid), m')
      → pid < 2 ^ 31
      → (sent : List (Target × Signal)) × ((cmd_stop os m).1.signals ≡ m'.signals ++ sent)
        × All (IsJustified (process pid) pid) sent
        × ((cmd_stop os m).1.pid_file ≡ missing)
        × (((is_our_process os 0 pid ≡ false) × (sent ≡ []))
            ⊎ ((is_our_process os 0 pid ≡ true)
                × ((rest : List (Target × Signal)) × (sent ≡ (process pid, sigterm) ∷ rest))))
  unfolding cmd_stop remove_pid
  cmd_stop-IsJustified pid m m' file small = elim (Bool-cases (is_our_process os 0 pid)) [
    | inl ours ↦
        let target = positive pid (ours-nonzero pid ours) small in
        let (rest, signals, why, gone) = terminate-sends pid m' ours in
        (
          (process pid, sigterm) ∷ rest,
          ground (arith, ap (λ t. m'.signals ++ (t, sigterm) ∷ rest) target),
          subst (λ t. All (IsJustified t pid) ((t, sigterm) ∷ rest)) target why,
          ground arith,
          inr (ours, (rest, refl)),
        )
    | inr strange ↦
        ([], ground (arith, append-nil m'.signals), tt, ground arith, inl (strange, refl))
  ]

  -- A file that holds a number from 2³¹ on, which `kill` takes for a negative one: where nothing in
  -- `/proc` has that number and a signal can be sent, SIGTERM goes to a whole process group, or to
  -- every process.
  pub cmd_stop-group :
      (content : Text) (pid : ℕ) (m : Machine)
      → m.pid_file ≡ holds content
      → parse_u32 (trim content) ≡ some pid
      → 2 ^ 31 ≤ pid
      → pid < 2 ^ 32
      → os.exe 0 pid ≡ none
      → os.cmdline 0 pid ≡ none
      → os.exists 0 (as_target pid) ≡ true
      → (rest : List (Target × Signal)) × ((cmd_stop os m).1.signals
          ≡ m.signals ++ (as_target pid, sigterm) ∷ rest)
        × ((as_target pid ≡ everyone) ⊎ (as_target pid ≡ group (2 ^ 32 - pid)))
  unfolding cmd_stop read_pid is_our_process is_process_alive
  cmd_stop-group content pid m file number large small exe cmdline there =
      let ours : is_our_process os 0 pid ≡ true = ground arith in
      let (rest, signals, why, gone) = terminate-sends pid m ours in
      let target : (as_target pid ≡ everyone) ⊎ (as_target pid ≡ group (2 ^ 32 - pid)) =
        negative pid large small in
      (rest, ground arith, target)

abbrev written : ℕ → Machine → Machine
written pid m = record m { pid_file = holds (decimal pid) }

-- The file names no client that runs: there is none, or it is left over; and the machine behind the
-- check of `start`.
abbrev pub IsFree : Os → Machine → Machine → Type 0
IsFree os m m' =
    (read_pid m ≡ (ok none, m'))
    ⊎ ((old : ℕ) × (m0 : Machine) × (read_pid m ≡ (ok (some old), m0))
        × (is_our_process os 0 old ≡ false)
        × (m' ≡ remove_pid m0))

start-written :
    (os : Os) (pid : ℕ) (m m' : Machine)
    → IsFree os m m'
    → is_process_alive os 3 pid ≡ true
    → cmd_start os none (some pid) m ≡ (ok tt, written pid m')
unfolding cmd_start launch write_pid saved_file remove_pid
start-written os pid m m' (inl file) alive = ground arith
start-written os pid m m' (inr (old, m0, file, strange, same)) alive = ground arith

read-written :
    (pid : ℕ) (m : Machine)
    → pid < 2 ^ 32
    → read_pid (written pid m) ≡ (ok (some pid), written pid m)
unfolding read_pid
read-written pid m small = rw (parse_u32-decimal pid small, read_pid) refl

cmd_stop-ours :
    (os : Os) (pid : ℕ) (m m' : Machine)
    → read_pid m ≡ (ok (some pid), m')
    → is_our_process os 0 pid ≡ true
    → cmd_stop os m ≡ terminate os pid m'
unfolding cmd_stop
cmd_stop-ours os pid m m' file ours = ground arith

-- What `start` has written is what `stop` reads: where the file is missing, holds no process id or
-- that of a process that is no client, the file can be written, and the process that was started
-- lives, with an id below 2³¹, `start` succeeds; `stop` then sends SIGTERM to that process, where it is
-- the client, and the file is gone.
pub start-stop :
    (os later : Os) (pid : ℕ) (m m' : Machine)
    → IsFree os m m'
    → pid < 2 ^ 31
    → is_process_alive os 3 pid ≡ true
    → is_our_process later 0 pid ≡ true
    → let (r, started) = cmd_start os none (some pid) m in
      (r ≡ ok tt)
      × ((rest : List (Target × Signal)) × ((cmd_stop later started).1.signals
            ≡ m'.signals ++ (process pid, sigterm) ∷ rest)
          × ((cmd_stop later started).1.pid_file ≡ missing))
start-stop os later pid m m' file small alive ours =
    let (rest, signals, why, gone) = terminate-sends later pid (written pid m') ours in
    let target = positive pid (ours-nonzero later pid ours) small in
    let first = start-written os pid m m' file alive in
    let back = read-written pid m' (omega arith) in
    let then_ = cmd_stop-ours later pid (written pid m') (written pid m') back ours in
    rw first (refl, (rest, rw then_ (rw (← target) signals), rw then_ gone))
