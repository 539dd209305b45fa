-- ===== src/Smtp/Message/Lines.antt =====
-- No header value and no encoded subject holds a line break.
use user_service_platform.Prelude.{
  Bool, true, false, [], ◌∷◌, All, All-append, arith, Bool-cases, inl, inr, leb, all, ◌&&◌,
}
use user_service_platform.Text.{Text, codes}
use user_service_platform.Text.Laws.{All-trim}
use user_service_platform.Smtp.Encoding.{IsInline, to_base64_utf8-IsInline}
use user_service_platform.Smtp.Message.{collapse_breaks, sanitize_header, encode_subject}

collapse_breaks-IsInline : (in_run : Bool) (s : Text) → All IsInline (collapse_breaks in_run s)
unfolding collapse_breaks
collapse_breaks-IsInline in_run [] = tt
collapse_breaks-IsInline in_run (c ∷ s) =
    ground (arith, collapse_breaks-IsInline true s, collapse_breaks-IsInline false s)

-- Whatever a header value holds, what is sent of it stays on one line.
pub sanitize_header-IsInline : (value : Text) → All IsInline (sanitize_header value)
unfolding sanitize_header
sanitize_header-IsInline value =
    All-trim IsInline (collapse_breaks false value) (collapse_breaks-IsInline false value)

encoded_prefix-IsInline : All IsInline (codes "=?UTF-8?B?")
unfolding codes
encoded_prefix-IsInline = omega arith

encoded_suffix-IsInline : All IsInline (codes "?=")
unfolding codes
encoded_suffix-IsInline = omega arith

pub encode_subject-IsInline : (subject : Text) → All IsInline (encode_subject subject)
unfolding encode_subject
encode_subject-IsInline subject =
    elim (Bool-cases (all (λ c. leb 0x20 c && leb c 0x7e) (sanitize_header subject))) [
      | inl plain ↦ rw plain (sanitize_header-IsInline subject)
      | inr other ↦ rw other (
          All-append IsInline _ _ encoded_prefix-IsInline
            (All-append IsInline _ _ (to_base64_utf8-IsInline _) encoded_suffix-IsInline))
    ]
