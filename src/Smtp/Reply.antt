-- ===== src/Smtp/Reply.antt =====
-- `parseCompleteReply` of smtp-client.ts: the code of a complete server reply, or `none` while its
-- final line has not arrived.
pub mod Chunks
use user_service_platform.Prelude.{
  ℕ, ◌+◌, ◌-◌, ◌*◌, Bool, true, false, not, ◌&&◌, List, [], ◌∷◌, Option, none, some, leb, ◌==◌,
  if◌then◌else◌, keep,
}
use user_service_platform.Text.{Text, is_empty, push_head}

unfoldable pub ends_with_crlf : Text → Bool
ends_with_crlf [] = false
ends_with_crlf (c ∷ []) = false
ends_with_crlf (c ∷ d ∷ []) = c == 13 && d == 10
ends_with_crlf (c ∷ d ∷ e ∷ s) = ends_with_crlf (d ∷ e ∷ s)

-- `buffer.split('\r\n')`
unfoldable pub split_crlf : Text → List Text
split_crlf [] = [] ∷ []
split_crlf (c ∷ []) = (c ∷ []) ∷ []
split_crlf (c ∷ d ∷ s) = elim (c == 13 && d == 10) [
  | true ↦ [] ∷ split_crlf s
  | false ↦ push_head c (split_crlf (d ∷ s))
]

unfoldable pub last_or_empty : List Text → Text
last_or_empty [] = []
last_or_empty (line ∷ []) = line
last_or_empty (line ∷ next ∷ lines) = last_or_empty (next ∷ lines)

abbrev pub is_digit : ℕ → Bool
is_digit c = leb b'0' c && leb c b'9'

-- /^(\d{3}) / and `Number(match[1])`
unfoldable pub reply_code_of : Text → Option ℕ
reply_code_of (a ∷ b ∷ c ∷ d ∷ _) =
    if is_digit a && is_digit b && is_digit c && d == b' '
    then some ((a - 48) * 100 + (b - 48) * 10 + (c - 48))
    else none
reply_code_of _ = none

unfoldable pub parse_complete_reply : Text → Option ℕ
unfolding ends_with_crlf split_crlf last_or_empty reply_code_of
parse_complete_reply buffer =
    if not (ends_with_crlf buffer)
    then none
    else reply_code_of (last_or_empty (keep (λ line. not (is_empty line)) (split_crlf buffer)))
