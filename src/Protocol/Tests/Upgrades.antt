-- ===== src/Protocol/Tests/Upgrades.antt =====
-- The theorems about self_update.rs at concrete outcomes.
use zo_tunnel.Prelude.{
  ℕ, ◌≡◌, ◌⊎◌, refl, true, false, none, some, ok, Text, text, strip_prefix, split,
}
use zo_tunnel.Protocol.SelfUpdate.{is_newer, detect_target}
use zo_tunnel.Protocol.Files.{done, copied}
use zo_tunnel.Protocol.Upgrade.{
  Environment, Unpacked, Kept, find_tag, fetch_latest_version, release_url, upgrade, upgrade_lem,
}

-- GitHub's answer, with other fields around the tag.
abbrev body : Text
body = text "{\"url\": \"u\", \"tag_name\": \"v0.4.1\", \"name\": \"n\"}"

tag_found : find_tag body ≡ some (text "v0.4.1")
unfolding find_tag strip_prefix split
tag_found = refl

-- A tarball is the address that it came from, and a binary a number.
abbrev env : Environment Text ℕ
env = record {
  os = text "linux";
  arch = text "x86_64";
  curl = some (true, body);
  temp = true;
  downloads = λ url. some (some url);
  extracts = λ tarball. some (some (some 4));
  dir = true;
  old = (done, none);
  new = copied;
}

upgrade_lem_example :
    let (r, dst') = upgrade env (text "zo-tunnel-client") (text "0.3.0") (some 3) in
    ((latest : Text) × (fetch_latest_version env.curl ≡ ok latest)
      × (r ≡ ok tt)
      × (((is_newer (text "0.3.0") latest ≡ true)
            × ((t : Text) × (detect_target env.os env.arch ≡ ok t)
                × Unpacked env (release_url (text "zo-tunnel-client") latest t) dst'))
          ⊎ ((is_newer (text "0.3.0") latest ≡ false) × (dst' ≡ some 3))))
    ⊎ Kept env (r, dst') (some 3)
upgrade_lem_example = upgrade_lem env (text "zo-tunnel-client") (text "0.3.0") (some 3)
