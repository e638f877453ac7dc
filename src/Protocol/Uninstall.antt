-- ===== src/Protocol/Uninstall.antt =====
-- self_update.rs: `uninstall`. What is printed is left out, and what the system makes of each attempt
-- is an argument; a path is there or not.
use zo_tunnel.Prelude.{
  ◌≡◌, refl, ◌⊎◌, Result-cases, Bool, true, false, not, ◌&&◌, Option, none, some, Result, ok, err,
  Text, text, trim, eq_ignore_ascii_case, inl, inr, arith, if◌then◌else◌,
}
use zo_tunnel.Protocol.Files.{Attempt, Command, Place, remove_with_sudo}

pub data Component : Type 0 where
  server client : Component

-- What the program has on the system: its binary, and for the server the service and its settings.
pub record Installed : Type 0 where
  pub service_active : Bool
  pub service_file : Place (Unit {0})
  pub binary : Place (Unit {0})
  pub config_dir : Place (Unit {0})

-- The answer to the question, where it could be read, and the outcomes of the attempts.
pub record Answers : Type 0 where
  pub input : Option Text
  pub stops : Bool
  pub service : Attempt × Command
  pub binary : Attempt × Command
  pub config : Attempt × Command

-- `if p.exists() { remove(p)?; }`
abbrev cleared :
    Attempt × Command → Place (Unit {0}) → Result (Unit {0}) (Unit {0}) × Place (Unit {0})
cleared a none = (ok tt, none)
cleared (attempt, sudo) (some u) = remove_with_sudo attempt sudo (some u)

abbrev is_server : Component → Bool
is_server server = true
is_server client = false

-- The user's consent: an error is that of reading the answer.
unfoldable pub consents : Bool → Answers → Result (Unit {0}) Bool
consents confirmed a = if confirmed then ok true else elim a.input [
  | none ↦ err tt
  | some input ↦ ok (eq_ignore_ascii_case (trim input) (text "y"))
]

unfoldable pub remove_config :
    Component → Bool → Answers → Installed → Result (Unit {0}) (Unit {0}) × Installed
remove_config component keep_config a s =
    if is_server component && not keep_config
    then (let (r, dir) = cleared a.config s.config_dir in (r, record s { config_dir = dir }))
    else (ok tt, s)

unfoldable pub remove_binary :
    Component → Bool → Answers → Installed → Result (Unit {0}) (Unit {0}) × Installed
unfolding remove_config
remove_binary component keep_config a s =
    let (r, place) = cleared a.binary s.binary in
    let s' : Installed = record s { binary = place } in
    elim r [ err e ↦ (err e, s') | ok _ ↦ remove_config component keep_config a s' ]

unfoldable pub remove_service :
    Component → Bool → Answers → Installed → Result (Unit {0}) (Unit {0}) × Installed
unfolding remove_binary
remove_service component keep_config a s =
    let (r, file) = cleared a.service s.service_file in
    let s' : Installed = record s {
      service_active = s.service_active && not a.stops;
      service_file = file;
    } in
    elim r [ err e ↦ (err e, s') | ok _ ↦ remove_binary component keep_config a s' ]

unfoldable pub uninstall :
    Component → Bool → Bool → Answers → Installed → Result (Unit {0}) (Unit {0}) × Installed
unfolding consents remove_service
uninstall component confirmed keep_config a s = elim (consents confirmed a) [
  | err e ↦ (err e, s)
  | ok false ↦ (ok tt, s)
  | ok true ↦
      if is_server component
      then remove_service component keep_config a s
      else remove_binary component keep_config a s
]

cleared-ok :
    (a : Attempt × Command) (p : Place (Unit {0}))
    → (cleared a p).0 ≡ ok tt
    → (cleared a p).1 ≡ none
unfolding remove_with_sudo
cleared-ok a none h = refl
cleared-ok a (some u) h = ground arith

remove_binary-ok :
    (component : Component) (keep_config : Bool) (a : Answers) (s : Installed)
    → (remove_binary component keep_config a s).0 ≡ ok tt
    → let s' = (remove_binary component keep_config a s).1 in
      (s'.binary ≡ none)
      × (s'.service_file ≡ s.service_file)
      × (s'.config_dir ≡ (if is_server component && not keep_config then none else s.config_dir))
unfolding remove_binary remove_config
remove_binary-ok component keep_config a s h =
    ground (arith, cleared-ok a.binary s.binary, cleared-ok a.config s.config_dir)

-- An uninstall that ends without an error has either been declined, and then nothing has changed, or
-- the binary is gone, and of the server also the service's file and, unless they are to be kept, the
-- settings.
pub uninstall_lem :
    (component : Component) (confirmed keep_config : Bool) (a : Answers) (s : Installed)
    → (uninstall component confirmed keep_config a s).0 ≡ ok tt
    → let s' = (uninstall component confirmed keep_config a s).1 in
      ((consents confirmed a ≡ ok false) × (s' ≡ s))
      ⊎ ((consents confirmed a ≡ ok true)
          × (s'.binary ≡ none)
          × (s'.service_file ≡ (if is_server component then none else s.service_file))
          × (s'.config_dir
              ≡ (if is_server component && not keep_config then none else s.config_dir)))
unfolding uninstall remove_service
uninstall_lem server confirmed keep_config a s h = elim (Result-cases (consents confirmed a)) [
  | inr (e, unread) ↦ absurd (ground arith)
  | inl (false, declined) ↦ inl (declined, ground arith)
  | inl (true, agreed) ↦
      let out = cleared a.service s.service_file in
      let s1 : Installed = record s {
        service_active = s.service_active && not a.stops;
        service_file = out.1;
      } in
      elim (Result-cases out.0) [
        | inr (e, stays) ↦ absurd (ground arith)
        | inl (_, removed) ↦
            let gone = cleared-ok a.service s.service_file removed in
            let (binary, file, dir) = remove_binary-ok server keep_config a s1 (ground arith) in
            inr (agreed, ground arith, ground arith, ground arith)
      ]
]
uninstall_lem client confirmed keep_config a s h = elim (Result-cases (consents confirmed a)) [
  | inr (e, unread) ↦ absurd (ground arith)
  | inl (false, declined) ↦ inl (declined, ground arith)
  | inl (true, agreed) ↦
      let (binary, file, dir) = remove_binary-ok client keep_config a s (ground arith) in
      inr (agreed, ground arith, ground arith, ground arith)
]
