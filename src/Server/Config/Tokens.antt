-- ===== src/Server/Config/Tokens.antt =====
-- Which tokens config.rs accepts, and what its random tokens look like.
use zo_tunnel.Prelude.{
  ℕ, ◌*◌, ◌/◌, ◌%◌, ◌≤◌, ◌<◌, ◌≡◌, ◌↔◌, ◌⊎◌, refl, ap, Bool, true, List, [], ◌∷◌, arith, any,
  length, All, Among, Text, IsScalar, text_eq, text_eq_iff,
}
use zo_tunnel.Protocol.Utf8.{utf8, utf8-injective}
use zo_tunnel.Server.Config.{
  ServerConfig, validate_token, validate_dashboard_token, hex_digit, hex_string,
}

any-Among :
    (token : Text) (tokens : List Text)
    → (any (λ t. text_eq t token) tokens ≡ true) ↔ Among token tokens
any-Among token [] = ground arith
any-Among token (t ∷ tokens) = ground (arith, text_eq_iff t token, any-Among token tokens)

-- A client's token is accepted exactly if none is configured or it is one of those configured.
pub validate_token_iff :
    (config : ServerConfig) (token : Text)
    → (validate_token config token ≡ true)
      ↔ ((config.auth.tokens ≡ []) ⊎ Among token config.auth.tokens)
unfolding validate_token
validate_token_iff config token = ground (arith, any-Among token config.auth.tokens)

-- What subtle documents of `ct_eq`: equality of slices of one length.
abbrev pub IsSliceEq : (List ℕ → List ℕ → Bool) → Type 0
IsSliceEq ct_eq = (a b : List ℕ) → length a ≡ length b → (ct_eq a b ≡ true) ↔ (a ≡ b)

utf8-eq : (s t : Text) → s ≡ t → utf8 s ≡ utf8 t
utf8-eq s t e = ap utf8 e

-- For tokens of scalar values, and where `ct_eq` is equality on slices of one length, the
-- dashboard's token is accepted exactly if none is configured or it is the one configured.
pub validate_dashboard_token_iff :
    (ct_eq : List ℕ → List ℕ → Bool) (config : ServerConfig) (token : Text)
    → IsSliceEq ct_eq
    → All IsScalar config.dashboard_auth.token
    → All IsScalar token
    → (validate_dashboard_token ct_eq config token ≡ true)
      ↔ ((config.dashboard_auth.token ≡ []) ⊎ (token ≡ config.dashboard_auth.token))
unfolding validate_dashboard_token
validate_dashboard_token_iff ct_eq config token laws scalar scalar' = ground (
  arith,
  laws (utf8 config.dashboard_auth.token) (utf8 token),
  utf8-injective config.dashboard_auth.token token scalar scalar',
  utf8-eq config.dashboard_auth.token token,
)

abbrev pub IsHexDigit : ℕ → Type 0
IsHexDigit c = ((48 ≤ c) × (c ≤ 57)) ⊎ ((97 ≤ c) × (c ≤ 102))

-- A token of `n` random bytes is `2 * n` digits.
pub hex_string-IsHexDigit :
    (buf : List ℕ)
    → All (λ b. b < 256) buf
    → All IsHexDigit (hex_string buf) × (length (hex_string buf) ≡ 2 * length buf)
unfolding hex_string
hex_string-IsHexDigit [] h = (tt, omega arith)
hex_string-IsHexDigit (b ∷ buf) (h, hs) =
    let (digits, len) = hex_string-IsHexDigit buf hs in
    ((ground arith, (ground arith, digits)), omega arith)

hex_digit-injective : (a b : ℕ) → a < 16 → b < 16 → hex_digit a ≡ hex_digit b → a ≡ b
unfolding hex_digit
hex_digit-injective a b ha hb e = ground arith

-- No two buffers of bytes give one token.
pub hex_string-injective :
    (a b : List ℕ)
    → All (λ x. x < 256) a
    → All (λ x. x < 256) b
    → hex_string a ≡ hex_string b
    → a ≡ b
unfolding hex_string
hex_string-injective [] [] ha hb e = refl
hex_string-injective [] (y ∷ b) ha hb e = cc
hex_string-injective (x ∷ a) [] ha hb e = cc
hex_string-injective (x ∷ a) (y ∷ b) (hx, ha) (hy, hb) e =
    let high : x / 16 ≡ y / 16 =
      hex_digit-injective (x / 16) (y / 16) (omega arith) (omega arith) (ground arith) in
    let low : x % 16 ≡ y % 16 =
      hex_digit-injective (x % 16) (y % 16) (omega arith) (omega arith) (ground arith) in
    let rest : a ≡ b = hex_string-injective a b ha hb (ground arith) in
    let first : x ≡ y = omega arith in cc (first, rest)
