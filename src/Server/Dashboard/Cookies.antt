-- ===== src/Server/Dashboard/Cookies.antt =====
-- The session cookie: what `extract_session_id` finds in a header.
use zo_tunnel.Prelude.{
  ℕ, ◌≡◌, ◌≢◌, ◌⊎◌, refl, ◌∙◌, false, none, some, List, [], ◌∷◌, ◌++◌, Text, text, All-append,
  Lacks, split, split-Lacks, split-append, strip_prefix, strip_prefix_iff, trim, trim_start,
  trim-IsSolid, IsSolid, is_whitespace, arith, inl, inr,
}
use zo_tunnel.Server.Http.{Http, Headers, header_str}
use zo_tunnel.Server.Dashboard.{cookie_name, find_session, extract_session_id}

-- A session identifier as the package uuid prints it: not empty, no white space, no semicolon.
abbrev pub IsIdentifier : Text → Type 0
IsIdentifier id = (id ≢ []) × IsSolid id × Lacks b';' id

-- The cookie of a session, as a client sends it back.
abbrev pub pair : Text → Text
pair id = cookie_name ++ b'=' ∷ id

name-IsSolid : IsSolid cookie_name
unfolding is_whitespace
name-IsSolid = ground arith

equals-solid : is_whitespace b'=' ≡ false
unfolding is_whitespace
equals-solid = refl

name-Lacks : Lacks b';' cookie_name
name-Lacks = ground arith

pair-IsSolid : (id : Text) → IsSolid id → IsSolid (pair id)
pair-IsSolid id h =
    All-append (λ c. is_whitespace c ≡ false) cookie_name (b'=' ∷ id) name-IsSolid (equals-solid, h)

pub pair-Lacks : (id : Text) → Lacks b';' id → Lacks b';' (pair id)
pair-Lacks id h = All-append (λ c. c ≢ b';') cookie_name (b'=' ∷ id) name-Lacks (ground arith, h)

find_session-pair :
    (id part : Text) (parts : List Text)
    → id ≢ []
    → trim part ≡ pair id
    → find_session (part ∷ parts) ≡ some id
unfolding find_session
find_session-pair [] part parts ne e = absurd (ne refl)
find_session-pair (c ∷ r) part parts ne e =
    let hit : strip_prefix (trim part) cookie_name ≡ some (b'=' ∷ c ∷ r) =
      (strip_prefix_iff (trim part) cookie_name (b'=' ∷ c ∷ r)).1 e in
    let value : strip_prefix (b'=' ∷ c ∷ r) (text "=") ≡ some (c ∷ r) =
      (strip_prefix_iff (b'=' ∷ c ∷ r) (text "=") (c ∷ r)).1 refl in
    ground arith

find_session-other :
    (part : Text) (parts : List Text)
    → strip_prefix (trim part) cookie_name ≡ none
    → find_session (part ∷ parts) ≡ find_session parts
unfolding find_session
find_session-other part parts e = ground arith

trim-space : (s : Text) → trim (b' ' ∷ s) ≡ trim s
unfolding trim trim_start is_whitespace
trim-space s = refl

-- The session that a client sends is found, alone or behind a cookie whose text does not begin
-- with the name of the session cookie, if its identifier is not empty and has neither white space
-- nor a semicolon.
pub extract_session_id-pair :
    (http : Http) (headers : Headers) (id other : Text)
    → IsIdentifier id
    → Lacks b';' other
    → strip_prefix (trim other) cookie_name ≡ none
    → (header_str http (text "cookie") headers ≡ some (pair id))
      ⊎ (header_str http (text "cookie") headers ≡ some (other ++ b';' ∷ b' ' ∷ pair id))
    → extract_session_id http headers ≡ some id
unfolding extract_session_id
extract_session_id-pair http headers id other (ne, solid, lacks) h miss (inl e) =
    rw (e, extract_session_id)
      (rw (split-Lacks b';' (pair id) (pair-Lacks id lacks))
        (find_session-pair id (pair id) [] ne (trim-IsSolid (pair id) (pair-IsSolid id solid))))
extract_session_id-pair http headers id other (ne, solid, lacks) h miss (inr e) =
    rw (e, extract_session_id)
      (rw (split-append b';' other (b' ' ∷ pair id) h) (
        find_session-other other (split b';' (b' ' ∷ pair id)) miss
        ∙ rw (split-Lacks b';' (b' ' ∷ pair id) (ground arith, pair-Lacks id lacks)) (
            find_session-pair id (b' ' ∷ pair id) [] ne
              (trim-space (pair id) ∙ trim-IsSolid (pair id) (pair-IsSolid id solid)))))

-- A cookie in front whose name begins with that of the session cookie and goes on with something
-- else than `=`, without white space, hides the session: nothing is found, whatever follows.
pub extract_session_id-shadowed :
    (http : Http) (headers : Headers) (c : ℕ) (r rest : Text)
    → c ≢ b'='
    → IsSolid (c ∷ r)
    → Lacks b';' (c ∷ r)
    → header_str http (text "cookie") headers ≡ some ((cookie_name ++ c ∷ r) ++ b';' ∷ rest)
    → extract_session_id http headers ≡ none
unfolding extract_session_id find_session strip_prefix trim
extract_session_id-shadowed http headers c r rest ne solid lacks e =
    let front = cookie_name ++ c ∷ r in
    let trimmed : trim front ≡ front =
      trim-IsSolid front
        (All-append (λ d. is_whitespace d ≡ false) cookie_name (c ∷ r) name-IsSolid solid) in
    rw (e, extract_session_id)
      (rw
        (split-append b';' front rest
          (All-append (λ d. d ≢ b';') cookie_name (c ∷ r) name-Lacks lacks))
        (rw trimmed (ground arith)))
