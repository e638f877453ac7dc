-- ===== src/Protocol/Upgrade.antt =====
-- self_update.rs: `fetch_latest_version` and `upgrade`. What curl, tar and the file system do is an
-- argument; a tarball and a binary are of any type.
use zo_tunnel.Prelude.{
  ◌≡◌, refl, ◌⊎◌, inl, inr, Bool, true, false, not, Option, none, some, [], ◌∷◌, ◌++◌, Option-cases,
  Result, ok, err, get_elem?, Text, text, strip_prefix, split, Bool-cases, Result-cases, arith,
  if◌then◌else◌,
}
use zo_tunnel.Protocol.SelfUpdate.{is_newer, TargetError, detect_target}
use zo_tunnel.Protocol.Files.{
  Attempt, Command, Place, Copied, copied, refused, broken, not_run, ran, stopped,
  copy_with_fallback,
}

pub data UpgradeError : Type 0 where
  fetch temp_dir download extract no_binary install_dir copy : UpgradeError
  target : TargetError → UpgradeError

-- The two halves of a split at a text: what stands before its first occurrence, and behind it.
unfoldable pub before : Text → Text → Text
before p [] = []
before p (c ∷ s) =
    let rest = before p s in elim (strip_prefix (c ∷ s) p) [ some r ↦ [] | none ↦ c ∷ rest ]

unfoldable pub after : Text → Text → Option Text
after p [] = none
after p (c ∷ s) =
    let rest = after p s in elim (strip_prefix (c ∷ s) p) [ some r ↦ some r | none ↦ rest ]

-- `split("\"tag_name\"").nth(1)` and then `split('"').nth(1)`
unfoldable pub find_tag : Text → Option Text
unfolding before after
find_tag body = elim (after (text "\"tag_name\"") body) [
  | none ↦ none
  | some s ↦ get_elem? (split b'"' (before (text "\"tag_name\"") s)) 1
]

-- What curl came to: whether it ended with success, and its output.
unfoldable pub fetch_latest_version : Option (Bool × Text) → Result UpgradeError Text
unfolding find_tag
fetch_latest_version none = err fetch
fetch_latest_version (some (false, body)) = err fetch
fetch_latest_version (some (true, body)) = elim (find_tag body) [
  | none ↦ err fetch
  | some tag ↦ ok tag
]

-- What `upgrade` meets: the answer of GitHub, the temporary directory, what curl downloads from an
-- address and tar unpacks under the name of the binary, each `none` where the program could not be run
-- and `some none` where it ran without success, the directory to install to, and the copying.
pub record Environment (T B : Type 0) : Type 0 where
  pub os : Text
  pub arch : Text
  pub curl : Option (Bool × Text)
  pub temp : Bool
  pub downloads : Text → Option (Option T)
  pub extracts : T → Option (Option (Option B))
  pub dir : Bool
  pub old : Attempt × Command
  pub new : Copied B

unfoldable pub release_url : Text → Text → Text → Text
release_url binary_name latest platform =
    text "https://github.com/Zobite/zo-tunnel/releases/download/"
    ++ (latest ++ b'/' ∷ (binary_name ++ b'-' ∷ (latest ++ b'-' ∷ (platform ++ text ".tar.gz"))))

copy-ends :
    {B : Type 0} (old : Attempt × Command) (new : Copied B) (binary : B) (dst : Place B)
    → (copy_with_fallback old new binary dst ≡ (ok tt, some binary))
      ⊎ ((copy_with_fallback old new binary dst).0 ≡ err tt)
unfolding copy_with_fallback
copy-ends (a, c) copied binary dst = inl refl
copy-ends (a, c) (refused ran) binary dst = inl refl
copy-ends (a, c) (refused not_run) binary dst = inr refl
copy-ends (a, c) (refused (stopped left)) binary dst = inr refl
copy-ends (a, c) (broken left) binary dst = inr refl

module _ {T B : Type 0} (env : Environment T B) where
  -- Behind the unpacking: the binary that was found, if any.
  unfoldable pub place_binary : Option B → Place B → Result UpgradeError (Unit {0}) × Place B
  place_binary none dst = (err no_binary, dst)
  place_binary (some binary) dst =
      let (r, dst') = copy_with_fallback env.old env.new binary dst in
      if not env.dir
      then (err install_dir, dst)
      else (elim r [ ok _ ↦ ok tt | err e ↦ err copy ], dst')

  unfoldable pub unpack : Option (Option T) → Place B → Result UpgradeError (Unit {0}) × Place B
  unfolding place_binary
  unpack none dst = (err download, dst)
  unpack (some none) dst = (err download, dst)
  unpack (some (some tarball)) dst = elim (env.extracts tarball) [
    | none ↦ (err extract, dst)
    | some none ↦ (err extract, dst)
    | some (some found) ↦ place_binary found dst
  ]

  -- From the temporary directory on.
  unfoldable pub install : Text → Place B → Result UpgradeError (Unit {0}) × Place B
  unfolding unpack
  install url dst = if not env.temp then (err temp_dir, dst) else unpack (env.downloads url) dst

  unfoldable pub upgrade : Text → Text → Place B → Result UpgradeError (Unit {0}) × Place B
  unfolding install fetch_latest_version release_url
  upgrade binary_name current dst = elim (fetch_latest_version env.curl) [
    | err e ↦ (err e, dst)
    | ok latest ↦
        if not (is_newer current latest)
        then (ok tt, dst)
        else elim (detect_target env.os env.arch) [
          | err e ↦ (err (target e), dst)
          | ok t ↦ install (release_url binary_name latest t) dst
        ]
  ]

  -- An error before the copy leaves the place alone.
  abbrev pub Kept : Result UpgradeError (Unit {0}) × Place B → Place B → Type 0
  Kept (r, dst') dst = (e : UpgradeError) × (r ≡ err e) × ((e ≡ copy) ⊎ (dst' ≡ dst))

  place_binary-ends :
      (binary : B) (dst : Place B)
      → (place_binary (some binary) dst ≡ (ok tt, some binary))
        ⊎ Kept (place_binary (some binary) dst) dst
  unfolding place_binary
  place_binary-ends binary dst = elim (Bool-cases env.dir) [
    | inr missing ↦ inr (install_dir, ground arith, inr (ground arith))
    | inl there ↦ elim (copy-ends env.old env.new binary dst) [
      | inl done_ ↦ inl (ground (arith, done_))
      | inr failed ↦ inr (copy, ground arith, inl refl)
    ]
  ]

  -- What the binary at the place comes from.
  abbrev pub Unpacked : Text → Place B → Type 0
  Unpacked url dst' =
      (tarball : T) × (binary : B) × (env.downloads url ≡ some (some tarball))
      × (env.extracts tarball ≡ some (some (some binary)))
      × (dst' ≡ some binary)

  install-ends :
      (url : Text) (dst : Place B)
      → (((install url dst).0 ≡ ok tt) × Unpacked url (install url dst).1)
        ⊎ Kept (install url dst) dst
  unfolding install unpack
  install-ends url dst = elim (Bool-cases env.temp) [
    | inr missing ↦ inr (temp_dir, ground arith, inr (ground arith))
    | inl there ↦ elim (Option-cases (env.downloads url)) [
      | inl none_ ↦ inr (download, ground arith, inr (ground arith))
      | inr (none, failed) ↦ inr (download, ground arith, inr (ground arith))
      | inr (some tarball, got) ↦ elim (Option-cases (env.extracts tarball)) [
        | inl none_ ↦ inr (extract, ground arith, inr (ground arith))
        | inr (none, failed) ↦ inr (extract, ground arith, inr (ground arith))
        | inr (some none, empty) ↦ inr (no_binary, ground arith, inr (ground arith))
        | inr (some (some binary), found) ↦ elim (place_binary-ends binary dst) [
          | inl placed ↦ inl (ground arith, (tarball, binary, got, found, ground arith))
          | inr (e, failed, inl copying) ↦ inr (e, ground arith, inl copying)
          | inr (e, failed, inr kept) ↦ inr (e, ground arith, inr (ground arith))
        ]
      ]
    ]
  ]

  -- An upgrade that succeeds has asked GitHub for the tag of its latest release. Where that is newer, the
  -- binary is now the one that tar unpacked from what curl downloaded from the address of that release
  -- for this system; where it is not, the binary is as before. An upgrade that fails has left the
  -- binary as it was, unless it failed in the copy.
  pub upgrade_lem :
      (binary_name current : Text) (dst : Place B)
      → let (r, dst') = upgrade binary_name current dst in
        ((latest : Text) × (fetch_latest_version env.curl ≡ ok latest)
          × (r ≡ ok tt)
          × (((is_newer current latest ≡ true)
                × ((t : Text) × (detect_target env.os env.arch ≡ ok t)
                    × Unpacked (release_url binary_name latest t) dst'))
              ⊎ ((is_newer current latest ≡ false) × (dst' ≡ dst))))
        ⊎ Kept (r, dst') dst
  unfolding upgrade
  upgrade_lem binary_name current dst = elim (Result-cases (fetch_latest_version env.curl)) [
    | inr (x, failed) ↦ inr (x, ground arith, inr (ground arith))
    | inl (latest, got) ↦ elim (Bool-cases (is_newer current latest)) [
      | inr same ↦ inl (latest, got, ground arith, inr (same, ground arith))
      | inl newer ↦ elim (Result-cases (detect_target env.os env.arch)) [
        | inr (x, failed) ↦ inr (target x, ground arith, inr (ground arith))
        | inl (t, there) ↦ elim (install-ends (release_url binary_name latest t) dst) [
          | inl (fine, (tarball, binary, down, out, placed)) ↦ inl (
            latest,
            got,
            ground arith,
            inl (newer, (t, there, (tarball, binary, down, out, ground arith))),
          )
          | inr (e, failed, inl copying) ↦ inr (e, ground arith, inl copying)
          | inr (e, failed, inr kept) ↦ inr (e, ground arith, inr (ground arith))
        ]
      ]
    ]
  ]
