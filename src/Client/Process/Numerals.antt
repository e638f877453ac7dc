-- ===== src/Client/Process/Numerals.antt =====
-- A number that is written in decimal and parsed as a `u32`, as the file of the process id is.
use zo_tunnel.Prelude.{
  ℕ, zero, suc, ◌+◌, ◌-◌, ◌*◌, ◌/◌, ◌%◌, ◌^◌, ◌≤◌, ◌<◌, ◌≡◌, ◌≢◌, refl, ◌⊎◌, inl, inr, some, [],
  ◌∷◌, All, Text, IsSolid, trim, trim-IsSolid, is_whitespace, digits, decimal, ltb, Bool-cases,
  arith,
}
use zo_tunnel.Protocol.SelfUpdate.{digits_u32, parse_u32}

-- So many digits are enough for the number.
abbrev Enough : ℕ → ℕ → Type 0
Enough zero n = ⊥
Enough (suc f) n = (n < 10) ⊎ Enough f (n / 10)

bound : ℕ → ℕ
bound zero = 10
bound (suc k) = 10 * bound k

bound-Enough : (f k n : ℕ) → k < f → n < bound k → Enough f n
unfolding bound
bound-Enough zero k n h b = absurd (omega arith)
bound-Enough (suc f) zero n h b = inl b
bound-Enough (suc f) (suc k) n h b = inr (bound-Enough f k (n / 10) (omega arith) (omega arith))

digits_u32-cons :
    (a n : ℕ) (acc : Text)
    → a * 10 + n % 10 < 2 ^ 32
    → digits_u32 a ((b'0' + n % 10) ∷ acc) ≡ digits_u32 (a * 10 + n % 10) acc
unfolding digits_u32
digits_u32-cons a n acc h =
    let same : a * 10 + (b'0' + n % 10 - b'0') ≡ a * 10 + n % 10 = omega arith in
    let small : n % 10 < 10 = omega arith in ground arith

digits_u32-digits :
    (f n : ℕ) (acc : Text)
    → Enough f n
    → n < 2 ^ 32
    → digits_u32 0 (digits f n acc) ≡ digits_u32 n acc
unfolding digits
digits_u32-digits zero n acc e h = absurd e
digits_u32-digits (suc f) n acc e h =
    let acc' = (b'0' + n % 10) ∷ acc in
    elim (Bool-cases (ltb n 10)) [
      | inl few ↦
          let one : 0 * 10 + n % 10 ≡ n = ground arith in
          let last = digits_u32-cons 0 n acc (omega arith) in rw few (ground arith)
      | inr many ↦
          let more : Enough f (n / 10) = elim e [
            | inl few ↦ absurd (ground arith)
            | inr more ↦ more
          ] in
          let rest = digits_u32-digits f (n / 10) acc' more (omega arith) in
          let same : n / 10 * 10 + n % 10 ≡ n = omega arith in
          let last = digits_u32-cons (n / 10) n acc (omega arith) in rw many (ground arith)
    ]

abbrev IsDigit : ℕ → Type 0
IsDigit c = (b'0' ≤ c) × (c ≤ b'9')

digits-IsDigit : (f n : ℕ) (acc : Text) → All IsDigit acc → All IsDigit (digits f n acc)
unfolding digits
digits-IsDigit zero n acc h = h
digits-IsDigit (suc f) n acc h =
    let digit : IsDigit (b'0' + n % 10) = omega arith in
    elim (Bool-cases (ltb n 10)) [
      | inl few ↦ rw few (digit, h)
      | inr many ↦ rw many (digits-IsDigit f (n / 10) ((b'0' + n % 10) ∷ acc) (digit, h))
    ]

IsDigit-IsSolid : (s : Text) → All IsDigit s → IsSolid s
unfolding is_whitespace
IsDigit-IsSolid [] h = tt
IsDigit-IsSolid (c ∷ s) (d, h) = (ground arith, IsDigit-IsSolid s h)

parse_u32-digits :
    (s : Text) (n : ℕ) → All IsDigit s → digits_u32 0 s ≡ some n → s ≢ [] → parse_u32 s ≡ some n
unfolding parse_u32
parse_u32-digits [] n d h ne = absurd (ne refl)
parse_u32-digits (c ∷ s) n (d, ds) h ne = ground arith

digits-ne-nil : (f n : ℕ) (c : ℕ) (acc : Text) → digits f n (c ∷ acc) ≢ []
unfolding digits
digits-ne-nil zero n c acc e = ground arith
digits-ne-nil (suc f) n c acc e = elim (Bool-cases (ltb n 10)) [
  | inl few ↦ ground arith
  | inr many ↦ ground (arith, digits-ne-nil f (n / 10) (b'0' + n % 10) (c ∷ acc))
]

decimal-ne-nil : (n : ℕ) → decimal n ≢ []
unfolding decimal digits
decimal-ne-nil n e = elim (Bool-cases (ltb n 10)) [
  | inl few ↦ ground arith
  | inr many ↦ ground (arith, digits-ne-nil 19 (n / 10) (b'0' + n % 10) [])
]

-- A `u32` is read back from the text that it is written as, also where that text is trimmed first.
pub parse_u32-decimal : (n : ℕ) → n < 2 ^ 32 → parse_u32 (trim (decimal n)) ≡ some n
unfolding decimal bound digits_u32
parse_u32-decimal n h =
    let enough : Enough 20 n = bound-Enough 20 9 n (omega arith) (omega arith) in
    let digit : All IsDigit (decimal n) = digits-IsDigit 20 n [] tt in
    let same = trim-IsSolid (decimal n) (IsDigit-IsSolid (decimal n) digit) in
    let read : digits_u32 0 (decimal n) ≡ some n = digits_u32-digits 20 n [] enough h in
    rw same (parse_u32-digits (decimal n) n digit read (decimal-ne-nil n))
