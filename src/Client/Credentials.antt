-- ===== src/Client/Credentials.antt =====
-- config.rs: `SavedCredentials`, what is shown of its token.
use native.Mathlib.Decide.{dec_lt}
use zo_tunnel.Prelude.{
  ℕ, ◌+◌, ◌-◌, ◌≤◌, ◌<◌, ◌≡◌, ◌≢◌, refl, false, Option, none, some, [], ◌∷◌, ◌++◌, length,
  length-append, leb, ltb, ◌==◌, Text, text, arith, if◌then◌else◌,
}
use zo_tunnel.Protocol.Utf8.{utf8, encode_char, encode-length}

-- `&s[..n]` on a `str`; `none` is the panic at an `n` that is no boundary of a character, or beyond
-- the end.
unfoldable pub slice_to : ℕ → Text → Option Text
slice_to n [] = if n == 0 then some [] else none
slice_to n (c ∷ s) =
    let width = length (encode_char c) in
    let rest = slice_to (n - width) s in
    if n == 0
    then some []
    else if leb width n
    then elim rest [ none ↦ none | some t ↦ some (c ∷ t) ]
    else none

-- `SavedCredentials::masked_token`; `none` is a panic.
unfoldable pub masked_token : Text → Option Text
unfolding slice_to
masked_token token =
    if leb (length (utf8 token)) 4
    then some (text "****")
    else elim (slice_to 4 token) [ none ↦ none | some visible ↦ some (visible ++ text "****") ]

narrow : (c : ℕ) → c < 0x80 → length (encode_char c) ≡ 1
unfolding encode_char
narrow c h = ground arith

wide : (c : ℕ) → 0x80 ≤ c → 2 ≤ length (encode_char c)
unfolding encode_char
wide c h = ground arith

utf8_longer : (c : ℕ) (s : Text) → length (utf8 s) + 1 ≤ length (utf8 (c ∷ s))
unfolding utf8
utf8_longer c s = omega (arith, encode-length c, length-append (encode_char c) (utf8 s))

slice_to-zero : (s : Text) → slice_to 0 s ≡ some []
unfolding slice_to
slice_to-zero [] = refl
slice_to-zero (c ∷ s) = refl

slice_to-narrow :
    (n c : ℕ) (s : Text)
    → c < 0x80
    → slice_to (n + 1) (c ∷ s) ≡ elim (slice_to n s) [ none ↦ none | some t ↦ some (c ∷ t) ]
unfolding slice_to
slice_to-narrow n c s h =
    let one = narrow c h in let back : n + 1 - 1 ≡ n = omega arith in ground arith

slice_to-wide : (c : ℕ) (s : Text) → 0x80 ≤ c → slice_to 1 (c ∷ s) ≡ none
unfolding slice_to
slice_to-wide c s h = ground (arith, wide c h)

five_bytes : (a b c d : ℕ) (rest : Text) → rest ≢ [] → 4 < length (utf8 (a ∷ b ∷ c ∷ d ∷ rest))
five_bytes a b c d [] ne = absurd (ne refl)
five_bytes a b c d (e ∷ rest) ne = omega (
  arith,
  utf8_longer e rest,
  utf8_longer d (e ∷ rest),
  utf8_longer c (d ∷ e ∷ rest),
  utf8_longer b (c ∷ d ∷ e ∷ rest),
  utf8_longer a (b ∷ c ∷ d ∷ e ∷ rest),
)

-- Of a token of more than four characters that begins with three ASCII characters, the first four
-- characters are shown, with `****` behind them, if the fourth is ASCII too; else the call panics.
pub masked_token-front :
    (a b c d : ℕ) (rest : Text)
    → a < 0x80
    → b < 0x80
    → c < 0x80
    → rest ≢ []
    → masked_token (a ∷ b ∷ c ∷ d ∷ rest)
      ≡ (if ltb d 0x80 then some (a ∷ b ∷ c ∷ d ∷ text "****") else none)
unfolding masked_token
masked_token-front a b c d rest ha hb hc ne =
    let long : leb (length (utf8 (a ∷ b ∷ c ∷ d ∷ rest))) 4 ≡ false =
      ground (arith, five_bytes a b c d rest ne) in
    let one = slice_to-narrow 3 a (b ∷ c ∷ d ∷ rest) ha in
    let two = slice_to-narrow 2 b (c ∷ d ∷ rest) hb in
    let three = slice_to-narrow 1 c (d ∷ rest) hc in
    rw long (
      rw one (
        rw two (
          rw three (elim (dec_lt d 0x80) [
            | yes lt ↦ rw (slice_to-narrow 0 d rest lt) (rw (slice_to-zero rest) (ground arith))
            | no ge ↦ rw (slice_to-wide d rest (omega arith)) (ground arith)
          ]))))
