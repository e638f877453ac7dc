-- ===== src/Prelude/Files.antt =====
-- A file of settings as its reader gets it, and what a write makes of it.
use mathlib.Core.Option.{Option, none, some}

-- A file that is not there, that cannot be read or parsed, or that holds a value.
pub data File (A : Type 0) : Type 0 where
  missing unreadable : File A
  holds : A → File A

-- `none` is a write that succeeds; one that fails leaves the file as it is given.
abbrev pub Write : Type 0 → Type 0
Write A = Option (File A)

-- `save` of the configurations.
unfoldable pub saved_file : {A : Type 0} → Write A → A → File A
saved_file none a = holds a
saved_file (some left) a = left
