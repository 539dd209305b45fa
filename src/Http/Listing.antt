-- ===== src/Http/Listing.antt =====
-- The search term of the user listing in admin-users.ts: the pattern that it builds means the term itself.
use user_service_platform.Prelude.{
  ℕ, Bool, true, false, List, [], ◌∷◌, ◌++◌, map, Option, none, some, ◌==◌, if◌then◌else◌, arith,
  ◌≡◌, refl, ◌∙◌, ap,
}
use user_service_platform.Text.{Text}
use user_service_platform.Http.Router.Admin.{escape_unit, escape_like_literal, pattern_of}

-- What a pattern of `LIKE … ESCAPE '\'` asks for, unit by unit.
pub data Token : Type 0 where
  any_run any_one : Token
  literal : ℕ → Token

abbrev and_then : Token → Option (List Token) → Option (List Token)
and_then token none = none
and_then token (some tokens) = some (token ∷ tokens)

-- Reads a pattern, after a backslash or not; a backslash at the end is an error.
unfoldable pub read_like : Bool → Text → Option (List Token)
read_like false [] = some []
read_like true [] = none
read_like true (c ∷ s) = and_then (literal c) (read_like false s)
read_like false (c ∷ s) =
    let escaped = read_like true s in
    let plain = read_like false s in
    if c == b'\\'
    then escaped
    else and_then (if c == b'%' then any_run else if c == b'_' then any_one else literal c) plain

abbrev literals : Text → Option (List Token) → Option (List Token)
literals [] tokens = tokens
literals (c ∷ s) tokens = and_then (literal c) (literals s tokens)

abbrev escaped_unit : ℕ → Text → Text
escaped_unit c rest =
    if c == b'\\'
    then c ∷ c ∷ rest
    else if c == b'%'
    then b'\\' ∷ c ∷ rest
    else if c == b'_'
    then b'\\' ∷ c ∷ rest
    else c ∷ rest

escape-cons :
    (c : ℕ) (s : Text) → escape_like_literal (c ∷ s) ≡ escaped_unit c (escape_like_literal s)
unfolding escape_like_literal escape_unit
escape-cons c s = ground arith

read-escaped :
    (c : ℕ) (s : Text)
    → read_like false (escaped_unit c s) ≡ and_then (literal c) (read_like false s)
unfolding read_like
read-escaped c s = ground arith

escaped-append : (c : ℕ) (s rest : Text) → escaped_unit c s ++ rest ≡ escaped_unit c (s ++ rest)
escaped-append c s rest = ground arith

abbrev pub to_list : Option Text → List Text
to_list none = []
to_list (some s) = s ∷ []

-- A term, escaped, is read as its units.
read-escape_like_literal :
    (value rest : Text)
    → read_like false (escape_like_literal value ++ rest) ≡ literals value (read_like false rest)
unfolding escape_like_literal escape_unit read_like
read-escape_like_literal [] rest = refl
read-escape_like_literal (c ∷ value) rest =
    ap (λ s. read_like false (s ++ rest)) (escape-cons c value)
    ∙ ap (read_like false) (escaped-append c (escape_like_literal value) rest)
    ∙ read-escaped c (escape_like_literal value ++ rest)
    ∙ ap (and_then (literal c)) (read-escape_like_literal value rest)

literals-some :
    (value : Text) (tokens : List Token)
    → literals value (some tokens) ≡ some (map literal value ++ tokens)
literals-some [] tokens = refl
literals-some (c ∷ value) tokens = ap (and_then (literal c)) (literals-some value tokens)

-- The pattern that the listing builds of a search term is read, with the backslash as the escape
-- character, as the lower-case term itself, unit by unit, between two runs of anything.
pub read-pattern_of :
    (lower : Text → Text) (term : Text)
    → map (read_like false) (to_list (pattern_of lower (some term)))
      ≡ some (any_run ∷ map literal (lower term) ++ any_run ∷ []) ∷ []
unfolding pattern_of read_like
read-pattern_of lower term =
    ap (λ tokens. and_then any_run tokens ∷ [])
      (read-escape_like_literal (lower term) (b'%' ∷ [])
        ∙ literals-some (lower term) (any_run ∷ []))
