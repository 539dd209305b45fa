-- ===== src/Smtp/Encoding.antt =====
-- `toBase64Utf8` of smtp-client.ts: UTF-8 (`TextEncoder`) and base64 (`btoa`).
use user_service_platform.Prelude.{
  ℕ, ◌+◌, ◌-◌, ◌*◌, ◌/◌, ◌%◌, ◌≢◌, Bool, true, false, ◌&&◌, List, [], ◌∷◌, ◌++◌, All, arith, ltb,
  leb, ◌==◌, if◌then◌else◌,
}
use user_service_platform.Text.{Text}

-- The bytes of one code point below 0x110000.
unfoldable pub utf8_point : ℕ → List ℕ
utf8_point c =
    if ltb c 0x80
    then c ∷ []
    else if ltb c 0x800
    then (0xc0 + c / 64) ∷ (0x80 + c % 64) ∷ []
    else if ltb c 0x10000
    then (0xe0 + c / 4096) ∷ (0x80 + c / 64 % 64) ∷ (0x80 + c % 64) ∷ []
    else (0xf0 + c / 262144) ∷ (0x80 + c / 4096 % 64) ∷ (0x80 + c / 64 % 64) ∷ (0x80 + c % 64) ∷ []

abbrev pub is_high : ℕ → Bool
is_high c = leb 0xd800 c && ltb c 0xdc00

abbrev pub is_low : ℕ → Bool
is_low c = leb 0xdc00 c && ltb c 0xe000

-- `new TextEncoder().encode(s)`: surrogate pairs are joined, and a lone surrogate becomes U+FFFD.
unfoldable pub utf8 : Text → List ℕ
unfolding utf8_point
utf8 [] = []
utf8 (c ∷ []) = utf8_point (if leb 0xd800 c && ltb c 0xe000 then 0xfffd else c)
utf8 (c ∷ d ∷ s) = elim (is_high c && is_low d) [
  | true ↦ utf8_point (0x10000 + (c - 0xd800) * 1024 + (d - 0xdc00)) ++ utf8 s
  | false ↦ utf8_point (if leb 0xd800 c && ltb c 0xe000 then 0xfffd else c) ++ utf8 (d ∷ s)
]

-- The base64 alphabet.
unfoldable pub base64_digit : ℕ → ℕ
base64_digit n =
    if ltb n 26
    then 65 + n
    else if ltb n 52
    then 71 + n
    else if ltb n 62
    then n - 4
    else if n == 62
    then b'+'
    else b'/'

-- `btoa`.
unfoldable pub base64 : List ℕ → Text
base64 [] = []
base64 (a ∷ []) = base64_digit (a / 4) ∷ base64_digit (a % 4 * 16) ∷ b'=' ∷ b'=' ∷ []
base64 (a ∷ b ∷ []) =
    base64_digit (a / 4)
    ∷ base64_digit (a % 4 * 16 + b / 16)
    ∷ base64_digit (b % 16 * 4)
    ∷ b'='
    ∷ []
base64 (a ∷ b ∷ c ∷ s) =
    base64_digit (a / 4)
    ∷ base64_digit (a % 4 * 16 + b / 16)
    ∷ base64_digit (b % 16 * 4 + c / 64)
    ∷ base64_digit (c % 64)
    ∷ base64 s

unfoldable pub to_base64_utf8 : Text → Text
unfolding utf8 base64 base64_digit
to_base64_utf8 value = base64 (utf8 value)

-- A code unit that does not break a line.
abbrev pub IsInline : ℕ → Type 0
IsInline c = (c ≢ 13) × (c ≢ 10)

digit-IsInline : (n : ℕ) → IsInline (base64_digit n)
unfolding base64_digit
digit-IsInline n = ground arith

quad-IsInline :
    (a b c d : ℕ) (s : Text)
    → All IsInline s
    → All IsInline (base64_digit a ∷ base64_digit b ∷ base64_digit c ∷ base64_digit d ∷ s)
quad-IsInline a b c d s h =
    (digit-IsInline a, (digit-IsInline b, (digit-IsInline c, (digit-IsInline d, h))))

pad-IsInline : IsInline b'='
pad-IsInline = (ground arith, ground arith)

base64-IsInline : (bytes : List ℕ) → All IsInline (base64 bytes)
unfolding base64
base64-IsInline [] = tt
base64-IsInline (a ∷ []) =
    (digit-IsInline (a / 4), (digit-IsInline (a % 4 * 16), (pad-IsInline, (pad-IsInline, tt))))
base64-IsInline (a ∷ b ∷ []) = (
  digit-IsInline (a / 4),
  (digit-IsInline (a % 4 * 16 + b / 16), (digit-IsInline (b % 16 * 4), (pad-IsInline, tt))),
)
base64-IsInline (a ∷ b ∷ c ∷ s) =
    quad-IsInline (a / 4) (a % 4 * 16 + b / 16) (b % 16 * 4 + c / 64) (c % 64) (base64 s)
      (base64-IsInline s)

-- An encoded credential or subject never breaks a line.
pub to_base64_utf8-IsInline : (value : Text) → All IsInline (to_base64_utf8 value)
unfolding to_base64_utf8
to_base64_utf8-IsInline value = base64-IsInline (utf8 value)
