-- ===== src/Smtp/Reply/Chunks.antt =====
-- The replies of the protocol, and their arrival in pieces: `parseCompleteReply` reads the code of a
-- whole reply, and nothing of a part of one.
use user_service_platform.Prelude.{
  ℕ, ◌+◌, ◌-◌, ◌*◌, ◌≡◌, ◌≢◌, refl, sym, ap, ◌∙◌, ◌⊎◌, inl, inr, Bool, true, false, ◌&&◌, List, [],
  ◌∷◌, ◌++◌, none, some, All, ◌==◌, arith,
}
use user_service_platform.Text.{Text, is_empty, push_head}
use user_service_platform.Smtp.Reply.{
  ends_with_crlf, split_crlf, last_or_empty, is_digit, reply_code_of, parse_complete_reply,
}

-- Not a part of a line break.
abbrev pub IsPlain : ℕ → Type 0
IsPlain c = (c ≢ 13) × (c ≢ 10)

-- Three digits, a separator and a text.
pub record IsLine (a b c : ℕ) (text : Text) : Type 0 where
  pub digits : is_digit a && is_digit b && is_digit c ≡ true
  pub plain : All IsPlain (a ∷ b ∷ c ∷ text)

-- RFC 5321, 4.2: continuation lines with a hyphen after the code, and a last line with a space.
pub data IsReplyText (code : ℕ) : Text → Type 0 where
  final :
      (a b c : ℕ) (text : Text)
      → IsLine a b c text
      → code ≡ (a - 48) * 100 + (b - 48) * 10 + (c - 48)
      → IsReplyText code ((a ∷ b ∷ c ∷ b' ' ∷ text) ++ (13 ∷ 10 ∷ []))
  continued :
      (a b c : ℕ) (text rest : Text)
      → IsLine a b c text
      → IsReplyText code rest
      → IsReplyText code ((a ∷ b ∷ c ∷ b'-' ∷ text) ++ (13 ∷ 10 ∷ rest))

differs : (c d : ℕ) → c ≢ d → (c == d) ≡ false
differs c d h = ground arith

split_step :
    (c d : ℕ) (s : Text) → c ≢ 13 → split_crlf (c ∷ d ∷ s) ≡ push_head c (split_crlf (d ∷ s))
unfolding split_crlf
split_step c d s h = rw (split_crlf, differs c 13 h) refl

split_break : (s : Text) → split_crlf (13 ∷ 10 ∷ s) ≡ [] ∷ split_crlf s
unfolding split_crlf
split_break s = refl

split-line :
    (line rest : Text)
    → All IsPlain line
    → split_crlf (line ++ (13 ∷ 10 ∷ rest)) ≡ line ∷ split_crlf rest
split-line [] rest h = split_break rest
split-line (c ∷ []) rest h = split_step c 13 (10 ∷ rest) h.0.0 ∙ ap (push_head c) (split_break rest)
split-line (c ∷ d ∷ line) rest h =
    split_step c d (line ++ (13 ∷ 10 ∷ rest)) h.0.0
    ∙ ap (push_head c) (split-line (d ∷ line) rest h.1)

ends_step : (c d e : ℕ) (s : Text) → ends_with_crlf (c ∷ d ∷ e ∷ s) ≡ ends_with_crlf (d ∷ e ∷ s)
unfolding ends_with_crlf
ends_step c d e s = refl

after_break : (d : ℕ) (rest : Text) → ends_with_crlf (10 ∷ d ∷ rest) ≡ ends_with_crlf (d ∷ rest)
unfolding ends_with_crlf
after_break d [] = refl
after_break d (e ∷ rest) = refl

ends-line :
    (line : Text) (d : ℕ) (rest : Text)
    → ends_with_crlf (line ++ (13 ∷ 10 ∷ d ∷ rest)) ≡ ends_with_crlf (d ∷ rest)
ends-line [] d rest = ends_step 13 10 d rest ∙ after_break d rest
ends-line (c ∷ []) d rest = ends_step c 13 10 (d ∷ rest) ∙ ends-line [] d rest
ends-line (c ∷ e ∷ []) d rest = ends_step c e 13 (10 ∷ d ∷ rest) ∙ ends-line (e ∷ []) d rest
ends-line (c ∷ e ∷ f ∷ line) d rest =
    ends_step c e f (line ++ (13 ∷ 10 ∷ d ∷ rest)) ∙ ends-line (e ∷ f ∷ line) d rest

ends_crlf : (line : Text) → ends_with_crlf (line ++ (13 ∷ 10 ∷ [])) ≡ true
unfolding ends_with_crlf
ends_crlf [] = refl
ends_crlf (c ∷ []) = refl
ends_crlf (c ∷ d ∷ []) = refl
ends_crlf (c ∷ d ∷ e ∷ line) = ends_crlf (d ∷ e ∷ line)

never : (b : Bool) → b && false ≡ false
never true = refl
never false = refl

unended : (part : Text) → All (λ c. c ≢ 10) part → ends_with_crlf part ≡ false
unfolding ends_with_crlf
unended [] h = refl
unended (c ∷ []) h = refl
unended (c ∷ d ∷ []) h = rw (differs d 10 h.1.0) (never (c == 13))
unended (c ∷ d ∷ e ∷ part) h = unended (d ∷ e ∷ part) h.1

cons-eq : (a b : ℕ) (s t : Text) → ◌≡◌ {A = Text} (a ∷ s) (b ∷ t) → (a ≡ b) × (s ≡ t)
cons-eq a b s t h = (cc, cc)

-- A part of a text ends within its first line, or takes the line and its break.
part-cases :
    (line rest part more : Text)
    → All IsPlain line
    → part ++ more ≡ line ++ (13 ∷ 10 ∷ rest)
    → All (λ c. c ≢ 10) part
      ⊎ ((later : Text) × (part ≡ line ++ (13 ∷ 10 ∷ later)) × (later ++ more ≡ rest))
part-cases line rest [] more h e = inl tt
part-cases [] rest (c ∷ []) more h e = inl ((λ k. omega (arith, (cons-eq c 13 _ _ e).0, k)), tt)
part-cases [] rest (c ∷ d ∷ part) more h e =
    let (first, tail) = cons-eq c 13 _ _ e in
    let (second, last) = cons-eq d 10 _ _ tail in inr (part, rw (first, second) refl, last)
part-cases (x ∷ line) rest (c ∷ part) more h e =
    let (first, tail) = cons-eq c x _ _ e in
    elim (part-cases line rest part more h.1 tail) [
      | inl plain ↦ inl ((λ k. h.0.1 (sym first ∙ k)), plain)
      | inr (later, taken, left) ↦ inr (later, rw (first, taken) refl, left)
    ]

last_skip :
    (line : Text) (lines : List Text)
    → reply_code_of line ≡ none
    → reply_code_of (last_or_empty (line ∷ lines)) ≡ reply_code_of (last_or_empty lines)
unfolding last_or_empty reply_code_of
last_skip line [] unread = unread
last_skip line (next ∷ lines) unread = refl

-- A line is the last one that is not empty only where it ends the text.
parse-line :
    (line rest : Text)
    → All IsPlain line
    → is_empty line ≡ false
    → reply_code_of line ≡ none
    → parse_complete_reply (line ++ (13 ∷ 10 ∷ rest)) ≡ parse_complete_reply rest
unfolding parse_complete_reply
parse-line line [] plain filled unread =
    rw (ends_crlf line, split-line line [] plain, filled) unread
parse-line line (d ∷ rest) plain filled unread =
    rw (ends-line line d rest, split-line line (d ∷ rest) plain, filled)
      (rw (last_skip line _ unread) refl)

parse_unended : (part : Text) → All (λ c. c ≢ 10) part → parse_complete_reply part ≡ none
unfolding parse_complete_reply
parse_unended part h = rw (unended part h) refl

continuation : (a b c : ℕ) (text : Text) → reply_code_of (a ∷ b ∷ c ∷ b'-' ∷ text) ≡ none
unfolding reply_code_of
continuation a b c text = rw (never (is_digit a && is_digit b && is_digit c)) refl

last_line :
    (a b c : ℕ) (text : Text)
    → IsLine a b c text
    → reply_code_of (a ∷ b ∷ c ∷ b' ' ∷ text) ≡ some ((a - 48) * 100 + (b - 48) * 10 + (c - 48))
unfolding reply_code_of
last_line a b c text line = rw line.digits refl

separated :
    (a b c d : ℕ) (text : Text) → IsPlain d → IsLine a b c text → All IsPlain (a ∷ b ∷ c ∷ d ∷ text)
separated a b c d text h line =
    (line.plain.0, (line.plain.1.0, (line.plain.1.1.0, (h, line.plain.1.1.1))))

spaced : (a b c : ℕ) (text : Text) → IsLine a b c text → All IsPlain (a ∷ b ∷ c ∷ b' ' ∷ text)
spaced a b c text line =
    separated a b c b' ' text ((λ k. omega (arith, k)), (λ k. omega (arith, k))) line

hyphenated : (a b c : ℕ) (text : Text) → IsLine a b c text → All IsPlain (a ∷ b ∷ c ∷ b'-' ∷ text)
hyphenated a b c text line =
    separated a b c b'-' text ((λ k. omega (arith, k)), (λ k. omega (arith, k))) line

no_rest : (s t : Text) → s ++ t ≡ [] → t ≡ []
no_rest [] t e = e
no_rest (c ∷ s) t e = cc

-- A whole reply is read as its code.
pub whole :
    (code : ℕ) (reply : Text) → IsReplyText code reply → parse_complete_reply reply ≡ some code
unfolding parse_complete_reply
whole code _ (final a b c text line e) =
    rw
      (
        ends_crlf (a ∷ b ∷ c ∷ b' ' ∷ text),
        split-line (a ∷ b ∷ c ∷ b' ' ∷ text) [] (spaced a b c text line),
      )
      (last_line a b c text line ∙ ap some (sym e))
whole code _ (continued a b c text rest line later) =
    parse-line (a ∷ b ∷ c ∷ b'-' ∷ text) rest (hyphenated a b c text line) refl
      (continuation a b c text)
    ∙ whole code rest later

-- Nothing is read of a part of a reply.
pub partial :
    (code : ℕ) {reply : Text} (part more : Text)
    → IsReplyText code reply
    → part ++ more ≡ reply
    → more ≢ []
    → parse_complete_reply part ≡ none
partial code part more (final a b c text line e) joined left =
    elim (part-cases (a ∷ b ∷ c ∷ b' ' ∷ text) [] part more (spaced a b c text line) joined) [
      | inl plain ↦ parse_unended part plain
      | inr (later, _, rest) ↦ absurd (left (no_rest later more rest))
    ]
partial code part more (continued a b c text rest line later) joined left =
    elim (part-cases (a ∷ b ∷ c ∷ b'-' ∷ text) rest part more (hyphenated a b c text line) joined) [
      | inl plain ↦ parse_unended part plain
      | inr (before, taken, others) ↦
          ap parse_complete_reply taken
          ∙ (parse-line (a ∷ b ∷ c ∷ b'-' ∷ text) before (hyphenated a b c text line) refl
                (continuation a b c text)
              ∙ partial code before more later others left)
    ]
