-- ===== src/Prelude/Texts.antt =====
-- Texts as lists of Unicode scalar values, with the methods of `str` that the source calls.
use Prim.Native.Nat.{ℕ, ◌≤◌, ◌<◌}
use Prim.Native.Char.{code}
use Prim.Native.String.{String}
use mathlib.Core.Path.{◌≡◌, refl, sym, ap, subst}
use mathlib.Core.Logic.{◌↔◌, ◌⊎◌, ◌≢◌}
use mathlib.Core.Bool.{Bool, true, false, ◌&&◌, ◌||◌}
use mathlib.Core.Option.{Option, none, some}
use mathlib.Core.Option
use mathlib.Core.List.{List, [], ◌∷◌, ◌++◌, reverse, reverse-cons, reverse-reverse}
use native.Mathlib.Omega.{arith}
use zo_tunnel.Prelude.Tests.{leb, ◌==◌, if◌then◌else◌}
use zo_tunnel.Prelude.Lists.{length, length-append, All, All-append, head_or}

abbrev pub Text : Type 0
Text = List ℕ

-- The text of a literal.
abbrev pub text : String → Text
text String.[] = []
text (String.◌∷◌ c s) = code c ∷ text s

-- What a `char` can be: no surrogates, nothing above 10FFFF.
abbrev pub IsScalar : ℕ → Type 0
IsScalar c = (c < 0xd800) ⊎ ((0xe000 ≤ c) × (c < 0x110000))

unfoldable pub text_eq : Text → Text → Bool
text_eq [] [] = true
text_eq (c ∷ s) (d ∷ t) = c == d && text_eq s t
text_eq _ _ = false

pub text_eq_iff : (s t : Text) → (text_eq s t ≡ true) ↔ (s ≡ t)
unfolding text_eq
text_eq_iff [] [] = ground arith
text_eq_iff [] (d ∷ t) = ground arith
text_eq_iff (c ∷ s) [] = ground arith
text_eq_iff (c ∷ s) (d ∷ t) = ground (arith, text_eq_iff s t)

pub text_eq_refl : (s : Text) → text_eq s s ≡ true
text_eq_refl s = (text_eq_iff s s).1 refl

-- `s.strip_prefix(p)`
unfoldable pub strip_prefix : Text → Text → Option Text
strip_prefix s [] = some s
strip_prefix [] (d ∷ p) = none
strip_prefix (c ∷ s) (d ∷ p) = if c == d then strip_prefix s p else none

pub strip_prefix_iff : (s p r : Text) → (strip_prefix s p ≡ some r) ↔ (s ≡ p ++ r)
unfolding strip_prefix
strip_prefix_iff s [] r = ground arith
strip_prefix_iff [] (d ∷ p) r = ground arith
strip_prefix_iff (c ∷ s) (d ∷ p) r = ground (arith, strip_prefix_iff s p r)

-- `s.strip_suffix(p)`
unfoldable pub strip_suffix : Text → Text → Option Text
strip_suffix [] p = if text_eq [] p then some [] else none
strip_suffix (c ∷ s) p =
    let rest = Option.map (◌∷◌ c) (strip_suffix s p) in if text_eq (c ∷ s) p then some [] else rest

pub strip_suffix_sound : (s p r : Text) → strip_suffix s p ≡ some r → s ≡ r ++ p
unfolding strip_suffix
strip_suffix_sound [] p r h = ground (arith, text_eq_iff [] p)
strip_suffix_sound (c ∷ s) p [] h = ground (arith, text_eq_iff (c ∷ s) p, strip_suffix_sound s p [])
strip_suffix_sound (c ∷ s) p (d ∷ r) h =
    ground (arith, text_eq_iff (c ∷ s) p, strip_suffix_sound s p r)

longer-ne : (c : ℕ) (r p : Text) → (c ∷ r) ++ p ≢ p
longer-ne c r p e = omega (arith, ap length e, length-append r p)

pub strip_suffix-append : (r p : Text) → strip_suffix (r ++ p) p ≡ some r
unfolding strip_suffix
strip_suffix-append [] [] = ground (arith, text_eq_refl [])
strip_suffix-append [] (c ∷ p) = ground (arith, text_eq_refl (c ∷ p))
strip_suffix-append (c ∷ r) p =
    ground (arith, text_eq_iff (c ∷ r ++ p) p, longer-ne c r p, strip_suffix-append r p)

-- `s.split(sep)` at a character: the pieces between the separators, at least one.
abbrev cons_head : ℕ → List Text → List Text
cons_head c [] = (c ∷ []) ∷ []
cons_head c (piece ∷ pieces) = (c ∷ piece) ∷ pieces

unfoldable pub split : ℕ → Text → List Text
split sep [] = [] ∷ []
split sep (c ∷ s) = let pieces = split sep s in if c == sep then [] ∷ pieces else cons_head c pieces

-- `char::is_whitespace`: the code points with the property White_Space.
unfoldable pub is_whitespace : ℕ → Bool
is_whitespace c =
    (leb 9 c && leb c 13)
    || c == 32
    || c == 0x85
    || c == 0xa0
    || c == 0x1680
    || (leb 0x2000 c && leb c 0x200a)
    || c == 0x2028
    || c == 0x2029
    || c == 0x202f
    || c == 0x205f
    || c == 0x3000

unfoldable pub trim_start : Text → Text
trim_start [] = []
trim_start (c ∷ s) = let rest = trim_start s in if is_whitespace c then rest else c ∷ s

unfoldable pub trim : Text → Text
unfolding trim_start is_whitespace
trim s = reverse (trim_start (reverse (trim_start s)))

-- No white space stands in the text.
abbrev pub IsSolid : Text → Type 0
IsSolid s = All (λ c. is_whitespace c ≡ false) s

trim_start-IsSolid : (s : Text) → IsSolid s → trim_start s ≡ s
unfolding trim_start
trim_start-IsSolid [] h = refl
trim_start-IsSolid (c ∷ s) (h, hs) = ground arith

reverse-IsSolid : (s : Text) → IsSolid s → IsSolid (reverse s)
reverse-IsSolid [] h = tt
reverse-IsSolid (c ∷ s) (h, hs) =
    subst IsSolid (sym (reverse-cons c s)) (
      All-append (λ d. is_whitespace d ≡ false) (reverse s) (c ∷ []) (reverse-IsSolid s hs) (h, tt))

pub trim-IsSolid : (s : Text) → IsSolid s → trim s ≡ s
unfolding trim
trim-IsSolid s h =
    rw (trim_start-IsSolid s h)
      (rw (trim_start-IsSolid (reverse s) (reverse-IsSolid s h)) (reverse-reverse s))

unfoldable pub ends_with : Text → Text → Bool
ends_with s p = elim (strip_suffix s p) [ none ↦ false | some r ↦ true ]

-- The piece before the first separator: `s.split(sep).next().unwrap_or(s)`.
unfoldable pub first_piece : ℕ → Text → Text
unfolding split
first_piece sep s = head_or (split sep s) s

-- `sep` does not stand in the text.
abbrev pub Lacks : ℕ → Text → Type 0
Lacks sep s = All (λ c. c ≢ sep) s

split-cons : (sep c : ℕ) (s : Text) → c ≢ sep → split sep (c ∷ s) ≡ cons_head c (split sep s)
unfolding split
split-cons sep c s h = ground arith

pub split-Lacks : (sep : ℕ) (s : Text) → Lacks sep s → split sep s ≡ s ∷ []
unfolding split
split-Lacks sep [] h = refl
split-Lacks sep (c ∷ s) (h, hs) = rw (split-cons sep c s h) (rw (split-Lacks sep s hs))

pub split-append : (sep : ℕ) (s t : Text) → Lacks sep s → split sep (s ++ sep ∷ t) ≡ s ∷ split sep t
unfolding split
split-append sep [] t h = ground arith
split-append sep (c ∷ s) t (h, hs) =
    rw (split-cons sep c (s ++ sep ∷ t) h) (rw (split-append sep s t hs))

pub first_piece-Lacks : (sep : ℕ) (s : Text) → Lacks sep s → first_piece sep s ≡ s
unfolding first_piece
first_piece-Lacks sep s h = rw (split-Lacks sep s h)

pub first_piece-append : (sep : ℕ) (s t : Text) → Lacks sep s → first_piece sep (s ++ sep ∷ t) ≡ s
unfolding first_piece
first_piece-append sep s t h = rw (split-append sep s t h)
