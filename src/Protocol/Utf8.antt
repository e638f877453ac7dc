-- ===== src/Protocol/Utf8.antt =====
-- The UTF-8 bytes of a text (`as_bytes`), and `String::from_utf8_lossy`, which puts U+FFFD for each
-- maximal piece that is no UTF-8. The standard library's, as the payload of an error message needs.
use zo_tunnel.Prelude.{
  ℕ, zero, suc, ◌+◌, ◌-◌, ◌*◌, ◌/◌, ◌%◌, ◌≤◌, ◌<◌, ◌≡◌, refl, ap, sym, ◌∙◌, Bool, true, ◌&&◌, ◌||◌,
  List, [], ◌∷◌, ◌++◌, arith, ltb, leb, ◌==◌, length, length-append, drop, get_or, All, Text,
  IsScalar, if◌then◌else◌,
}

unfoldable pub encode_char : ℕ → List ℕ
encode_char c =
    if ltb c 0x80
    then c ∷ []
    else if ltb c 0x800
    then (0xc0 + c / 64) ∷ (0x80 + c % 64) ∷ []
    else if ltb c 0x10000
    then (0xe0 + c / 4096) ∷ (0x80 + c / 64 % 64) ∷ (0x80 + c % 64) ∷ []
    else (0xf0 + c / 262144) ∷ (0x80 + c / 4096 % 64) ∷ (0x80 + c / 64 % 64) ∷ (0x80 + c % 64) ∷ []

unfoldable pub utf8 : Text → List ℕ
utf8 [] = []
utf8 (c ∷ s) = encode_char c ++ utf8 s

abbrev replacement : ℕ
replacement = 0xfffd

is_continuation : ℕ → Bool
is_continuation b = leb 0x80 b && leb b 0xbf

-- The second bytes that a three-byte and a four-byte sequence may have.
second_of_three : ℕ → ℕ → Bool
second_of_three b x =
    (b == 0xe0 && leb 0xa0 x && leb x 0xbf)
    || (leb 0xe1 b && leb b 0xec && leb 0x80 x && leb x 0xbf)
    || (b == 0xed && leb 0x80 x && leb x 0x9f)
    || (leb 0xee b && leb b 0xef && leb 0x80 x && leb x 0xbf)

second_of_four : ℕ → ℕ → Bool
second_of_four b x =
    (b == 0xf0 && leb 0x90 x && leb x 0xbf)
    || (leb 0xf1 b && leb b 0xf3 && leb 0x80 x && leb x 0xbf)
    || (b == 0xf4 && leb 0x80 x && leb x 0x8f)

-- The first character of a nonempty sequence, and the number of bytes that it took. Past the end
-- the decoder reads zeros.
decode_char : ℕ → List ℕ → ℕ × ℕ
decode_char b rest =
    let x = get_or rest 0 0 in
    let y = get_or rest 1 0 in
    let z = get_or rest 2 0 in
    if ltb b 0x80
    then (b, 1)
    else if leb 0xc2 b && leb b 0xdf
    then (if is_continuation x then ((b - 0xc0) * 64 + (x - 0x80), 2) else (replacement, 1))
    else if leb 0xe0 b && leb b 0xef
    then (if second_of_three b x
        then (if is_continuation y
            then ((b - 0xe0) * 4096 + (x - 0x80) * 64 + (y - 0x80), 3)
            else (replacement, 2))
        else (replacement, 1))
    else if leb 0xf0 b && leb b 0xf4
    then (if second_of_four b x
        then (if is_continuation y
            then (if is_continuation z
                then ((b - 0xf0) * 262144 + (x - 0x80) * 4096 + (y - 0x80) * 64 + (z - 0x80), 4)
                else (replacement, 3))
            else (replacement, 2))
        else (replacement, 1))
    else (replacement, 1)

-- Each round takes a byte or more, so the number of bytes is fuel enough.
lossy_from : ℕ → List ℕ → Text
lossy_from zero bytes = []
lossy_from (suc fuel) [] = []
lossy_from (suc fuel) (b ∷ rest) =
    let found = decode_char b rest in found.0 ∷ lossy_from fuel (drop found.1 (b ∷ rest))

unfoldable pub from_utf8_lossy : List ℕ → Text
unfolding lossy_from decode_char is_continuation second_of_three second_of_four
from_utf8_lossy bytes = lossy_from (length bytes) bytes

decode_one : (c : ℕ) (rest : List ℕ) → c < 0x80 → decode_char c rest ≡ (c, 1)
unfolding decode_char
decode_one c rest h = ground arith

decode_two :
    (c : ℕ) (rest : List ℕ)
    → 0x80 ≤ c
    → c < 0x800
    → decode_char (0xc0 + c / 64) ((0x80 + c % 64) ∷ rest) ≡ (c, 2)
unfolding decode_char is_continuation
decode_two c rest lo hi = ground arith

second_three :
    (c : ℕ)
    → 0x800 ≤ c
    → c < 0x10000
    → IsScalar c
    → second_of_three (0xe0 + c / 4096) (0x80 + c / 64 % 64) ≡ true
unfolding second_of_three
second_three c lo hi h = ground arith

decode_three :
    (c : ℕ) (rest : List ℕ)
    → 0x800 ≤ c
    → c < 0x10000
    → IsScalar c
    → decode_char (0xe0 + c / 4096) ((0x80 + c / 64 % 64) ∷ (0x80 + c % 64) ∷ rest) ≡ (c, 3)
unfolding decode_char is_continuation
decode_three c rest lo hi h = ground (arith, second_three c lo hi h)

second_four :
    (c : ℕ)
    → 0x10000 ≤ c
    → c < 0x110000
    → second_of_four (0xf0 + c / 262144) (0x80 + c / 4096 % 64) ≡ true
unfolding second_of_four
second_four c lo hi = ground arith

decode_four :
    (c : ℕ) (rest : List ℕ)
    → 0x10000 ≤ c
    → c < 0x110000
    → decode_char
        (0xf0 + c / 262144)
        ((0x80 + c / 4096 % 64) ∷ (0x80 + c / 64 % 64) ∷ (0x80 + c % 64) ∷ rest)
      ≡ (c, 4)
unfolding decode_char is_continuation
decode_four c rest lo hi = ground (arith, second_four c lo hi)

lossy-step :
    (fuel c : ℕ) (rest : List ℕ)
    → IsScalar c
    → lossy_from (suc fuel) (encode_char c ++ rest) ≡ c ∷ lossy_from fuel rest
unfolding encode_char lossy_from
lossy-step fuel c rest h =
    ground (arith, decode_one c rest, decode_two c rest, decode_three c rest, decode_four c rest)

pub encode-length : (c : ℕ) → 0 < length (encode_char c)
unfolding encode_char
encode-length c = ground arith

lossy_from-utf8 :
    (fuel : ℕ) (s : Text) → length (utf8 s) ≤ fuel → All IsScalar s → lossy_from fuel (utf8 s) ≡ s
unfolding utf8
lossy_from-utf8 zero [] h a = unfold lossy_from in refl
lossy_from-utf8 (suc fuel) [] h a = unfold lossy_from in refl
lossy_from-utf8 zero (c ∷ s) h a =
    absurd (omega (arith, encode-length c, length-append (encode_char c) (utf8 s)))
lossy_from-utf8 (suc fuel) (c ∷ s) h a =
    lossy-step fuel c (utf8 s) a.0
    ∙ ap (◌∷◌ c) (
        lossy_from-utf8 fuel s
          (omega (arith, encode-length c, length-append (encode_char c) (utf8 s))) a.1)

-- Decoding the bytes of a text gives the text back.
pub from_utf8_lossy-utf8 : (s : Text) → All IsScalar s → from_utf8_lossy (utf8 s) ≡ s
unfolding from_utf8_lossy
from_utf8_lossy-utf8 s a = lossy_from-utf8 (length (utf8 s)) s (omega arith) a

-- So two texts with the same bytes are one text.
pub utf8-injective : (s t : Text) → All IsScalar s → All IsScalar t → utf8 s ≡ utf8 t → s ≡ t
utf8-injective s t hs ht e =
    sym (from_utf8_lossy-utf8 s hs) ∙ ap from_utf8_lossy e ∙ from_utf8_lossy-utf8 t ht
