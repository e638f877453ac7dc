-- ===== src/Protocol/Files.antt =====
-- self_update.rs: copying and removing files, with `sudo` where the permission is missing. What the
-- system makes of each attempt is an argument.
use zo_tunnel.Prelude.{Bool, false, Option, none, some, Result, ok, err, if◌then◌else◌}

-- A call of the file system: done, without permission, or failed otherwise.
pub data Attempt : Type 0 where
  done denied fails : Attempt

-- A command that could not be run, or ran with or without success.
abbrev pub Command : Type 0
Command = Option Bool

abbrev succeeds : Command → Bool
succeeds none = false
succeeds (some b) = b

-- What stands at a path, if anything.
abbrev pub Place : Type 0 → Type 0
Place A = Option A

-- `sudo cp`: it could not be run, ran with success, or without, and leaves what it gives.
pub data Sudo (A : Type 0) : Type 0 where
  not_run ran : Sudo A
  stopped : Place A → Sudo A

-- `fs::copy`: done, without permission, with the command behind it, or broken off with what it leaves,
-- which may be a part of the file.
pub data Copied (A : Type 0) : Type 0 where
  copied : Copied A
  refused : Sudo A → Copied A
  broken : Place A → Copied A

module _ {A : Type 0} where
  -- `remove_with_sudo` and `remove_dir_with_sudo`, at a path where something is.
  unfoldable pub remove_with_sudo :
      Attempt → Command → Place A → Result (Unit {0}) (Unit {0}) × Place A
  remove_with_sudo done sudo p = (ok tt, none)
  remove_with_sudo denied sudo p = if succeeds sudo then (ok tt, none) else (err tt, p)
  remove_with_sudo fails sudo p = (err tt, p)

  -- The old file is taken away before the copy; only a lack of permission leads to `sudo rm -f`, and
  -- no outcome is looked at.
  unfoldable pub clear_old : Attempt → Command → Place A → Place A
  clear_old done sudo none = none
  clear_old done sudo (some a) = none
  clear_old denied sudo none = none
  clear_old denied sudo (some a) = if succeeds sudo then none else some a
  clear_old fails sudo p = p

  -- `copy_with_fallback`: what comes of the old file, and then of the new one.
  unfoldable pub copy_with_fallback :
      Attempt × Command → Copied A → A → Place A → Result (Unit {0}) (Unit {0}) × Place A
  unfolding clear_old
  copy_with_fallback (removal, sudo_rm) copied new dst = (ok tt, some new)
  copy_with_fallback (removal, sudo_rm) (refused ran) new dst = (ok tt, some new)
  copy_with_fallback (removal, sudo_rm) (refused not_run) new dst =
      (err tt, clear_old removal sudo_rm dst)
  copy_with_fallback (removal, sudo_rm) (refused (stopped left)) new dst = (err tt, left)
  copy_with_fallback (removal, sudo_rm) (broken left) new dst = (err tt, left)
