-- ===== src/Protocol/SelfUpdate.antt =====
-- crates/zo-tunnel-protocol/src/self_update.rs: which release is newer, and the name of the target.
use zo_tunnel.Prelude.{
  ℕ, ◌+◌, ◌-◌, ◌*◌, ◌^◌, ◌≡◌, Bool, true, false, ◌&&◌, ◌||◌, Option, none, some, List, [], ◌∷◌,
  ◌++◌, Result, ok, err, is_empty, get_or, ltb, leb, ◌==◌, Text, text, text_eq, strip_prefix, split,
  arith, if◌then◌else◌,
}

-- `p.parse::<u32>()`: digits behind an optional sign, without overflow.
unfoldable pub digits_u32 : ℕ → Text → Option ℕ
digits_u32 n [] = some n
digits_u32 n (c ∷ s) =
    let n' = n * 10 + (c - b'0') in
    let rest = digits_u32 n' s in if leb b'0' c && leb c b'9' && ltb n' (2 ^ 32) then rest else none

unfoldable pub parse_u32 : Text → Option ℕ
unfolding digits_u32
parse_u32 [] = none
parse_u32 (c ∷ s) =
    if c == b'+' then (if is_empty s then none else digits_u32 0 s) else digits_u32 0 (c ∷ s)

-- `filter_map(|p| p.parse().ok())`
unfoldable pub numbers : List Text → List ℕ
unfolding parse_u32
numbers [] = []
numbers (p ∷ ps) = let rest = numbers ps in elim (parse_u32 p) [ none ↦ rest | some n ↦ n ∷ rest ]

abbrev pub Version : Type 0
Version = ℕ × ℕ × ℕ

-- The closure `parse` of `is_newer`.
unfoldable pub parse : Text → Version
unfolding numbers
parse s =
    let s' : Text = elim (strip_prefix s (text "v")) [ none ↦ s | some t ↦ t ] in
    let parts = numbers (split b'.' s') in (get_or parts 0 0, get_or parts 1 0, get_or parts 2 0)

-- `>` on tuples, with its sides swapped.
unfoldable pub version_lt : Version → Version → Bool
version_lt (a, b, c) (x, y, z) = ltb a x || (a == x && (ltb b y || (b == y && ltb c z)))

unfoldable pub is_newer : Text → Text → Bool
unfolding version_lt
is_newer current latest = version_lt (parse current) (parse latest)

version_lt_irrefl : (u : Version) → version_lt u u ≡ false
unfolding version_lt
version_lt_irrefl (a, b, c) = ground arith

version_lt_trans :
    (u v w : Version) → version_lt u v ≡ true → version_lt v w ≡ true → version_lt u w ≡ true
unfolding version_lt
version_lt_trans (a, b, c) (x, y, z) (k, l, m) h h' = ground arith

-- No release is newer than itself, and a release that is newer than a newer one is newer: a chain of
-- upgrades never comes back to a version that it has left.
pub is_newer_order :
    (a b c : Text)
    → is_newer a b ≡ true
    → is_newer b c ≡ true
    → (is_newer a c ≡ true) × (is_newer a a ≡ false) × (is_newer b a ≡ false)
unfolding is_newer
is_newer_order a b c h h' = (
  version_lt_trans (parse a) (parse b) (parse c) h h',
  version_lt_irrefl (parse a),
  ground (arith, version_lt_trans (parse a) (parse b) (parse a) h, version_lt_irrefl (parse a)),
)

pub data TargetError : Type 0 where
  unsupported_os : Text → TargetError
  unsupported_architecture : Text → TargetError

abbrev os_label : Text → Option Text
os_label os =
    if text_eq os (text "linux")
    then some (text "linux")
    else if text_eq os (text "macos")
    then some (text "darwin")
    else none

abbrev arch_label : Text → Option Text
arch_label arch =
    if text_eq arch (text "x86_64")
    then some (text "amd64")
    else if text_eq arch (text "aarch64")
    then some (text "arm64")
    else none

-- The system and the architecture that the compiler knows are arguments.
unfoldable pub detect_target : Text → Text → Result TargetError Text
detect_target os arch = elim (os_label os) [
  | none ↦ err (unsupported_os os)
  | some o ↦ elim (arch_label arch) [
    | none ↦ err (unsupported_architecture arch)
    | some a ↦ ok (o ++ b'-' ∷ a)
  ]
]
