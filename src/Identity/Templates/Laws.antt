-- ===== src/Identity/Templates/Laws.antt =====
-- The texts that a template escapes: a reader of HTML gets them back, and they hold no markup.
use user_service_platform.Prelude.{
  ℕ, zero, suc, Option, none, some, sym, ◌≡◌, ◌≢◌, refl, ap, true, false, [], ◌∷◌, ◌++◌, ◌==◌,
  ==_iff, if◌then◌else◌, All, All-append, Bool-cases, inl, inr, arith,
}
use user_service_platform.Text.{Text, codes, starts_with}
use user_service_platform.Identity.Templates.{replace_unit, escape_html}

-- What stands for one code unit.
abbrev entity : ℕ → Text
entity c =
    if c == b'&'
    then codes "&amp;"
    else if c == b'<'
    then codes "&lt;"
    else if c == b'>'
    then codes "&gt;"
    else if c == b'"'
    then codes "&quot;"
    else c ∷ []

escape_cons : (c : ℕ) (s : Text) → escape_html (c ∷ s) ≡ entity c ++ escape_html s
unfolding escape_html replace_unit codes
escape_cons c s = elim (Bool-cases (c == b'&')) [
  | inl e ↦ rw e refl
  | inr n ↦ elim (Bool-cases (c == b'<')) [
    | inl e ↦ rw (n, e) refl
    | inr n2 ↦ elim (Bool-cases (c == b'>')) [
      | inl e ↦ rw (n, n2, e) refl
      | inr n3 ↦ elim (Bool-cases (c == b'"')) [
        | inl e ↦ rw (n, n2, n3, e) refl
        | inr n4 ↦ rw (n, n2, n3, n4) refl
      ]
    ]
  ]
]

-- A character reference behind an ampersand: what it stands for, and its length.
abbrev reference : Text → Option (ℕ × ℕ)
reference s =
    if starts_with s (codes "amp;")
    then some (b'&', 4)
    else if starts_with s (codes "lt;")
    then some (b'<', 3)
    else if starts_with s (codes "gt;")
    then some (b'>', 3)
    else if starts_with s (codes "quot;")
    then some (b'"', 5)
    else none

-- A reader of HTML text that knows these references, at a number of code units to pass over.
unfoldable pub read_from : ℕ → Text → Text
read_from n [] = []
read_from (suc n) (c ∷ s) = read_from n s
read_from zero (c ∷ s) = elim (c == b'&') [
  | false ↦ c ∷ read_from zero s
  | true ↦ elim (reference s) [ none ↦ c ∷ read_from zero s | some (x, n) ↦ x ∷ read_from n s ]
]

abbrev pub read_html : Text → Text
read_html s = read_from 0 s

read_html-entity : (c : ℕ) (s : Text) → read_html (entity c ++ s) ≡ c ∷ read_html s
unfolding read_from codes starts_with
read_html-entity c s =
    let head =
      λ (x : ℕ) (e : (c == x) ≡ true). ap (λ y. y ∷ read_from 0 s) (sym ((==_iff c x).0 e)) in
    elim (Bool-cases (c == b'&')) [
      | inl e ↦ rw e (head b'&' e)
      | inr n ↦ elim (Bool-cases (c == b'<')) [
        | inl e ↦ rw (n, e) (head b'<' e)
        | inr n2 ↦ elim (Bool-cases (c == b'>')) [
          | inl e ↦ rw (n, n2, e) (head b'>' e)
          | inr n3 ↦ elim (Bool-cases (c == b'"')) [
            | inl e ↦ rw (n, n2, n3, e) (head b'"' e)
            | inr n4 ↦ rw (n, n2, n3, n4, read_from) (rw n refl)
          ]
        ]
      ]
    ]

-- Reading the entities of an escaped text gives the text back.
pub read_html-escape_html : (value : Text) → read_html (escape_html value) ≡ value
unfolding read_from
read_html-escape_html [] = unfold escape_html in refl
read_html-escape_html (c ∷ s) =
    rw (escape_cons c s, read_html-entity c (escape_html s), read_html-escape_html s) refl

-- No character of the escaped text opens or closes a tag, or ends an attribute.
abbrev pub IsInert : ℕ → Type 0
IsInert c = (c ≢ b'<') × (c ≢ b'>') × (c ≢ b'"')

entity-IsInert : (c : ℕ) → All IsInert (entity c)
unfolding codes
entity-IsInert c = ground arith

-- Nothing in an escaped text opens a tag or ends an attribute.
pub escape_html-IsInert : (value : Text) → All IsInert (escape_html value)
escape_html-IsInert [] = unfold escape_html in tt
escape_html-IsInert (c ∷ s) =
    rw (escape_cons c s)
      (All-append IsInert (entity c) (escape_html s) (entity-IsInert c) (escape_html-IsInert s))
