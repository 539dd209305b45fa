-- ===== src/Smtp/Message/Headers.antt =====
-- The header lines of the message: none breaks, and none begins with a dot.
use user_service_platform.Prelude.{
  ◌≡◌, refl, true, false, Bool, ◌&&◌, not, ◌==◌, [], ◌∷◌, ◌++◌, All, All-append, append-nil, arith,
}
use user_service_platform.Text.{Text, codes}
use user_service_platform.Smtp.{Envelope}
use user_service_platform.Smtp.Encoding.{IsInline}
use user_service_platform.Smtp.Message.{is_break, Stamp, boundary_of, headers_of, sanitize_header}
use user_service_platform.Smtp.Message.Lines.{sanitize_header-IsInline, encode_subject-IsInline}
use user_service_platform.Smtp.Message.Stuffing.{IsLine}

-- The random identifiers and the date hold no line break.
pub record IsStamp (stamp : Stamp) : Type 0 where
  pub boundary_inline : All IsInline stamp.boundary_uuid
  pub message_inline : All IsInline stamp.message_uuid
  pub date_inline : All IsInline stamp.date

unfoldable pub inline_test : Text → Bool
inline_test [] = true
inline_test (c ∷ s) = not (is_break c) && inline_test s

unfoldable pub opens_line : Text → Bool
opens_line [] = false
opens_line (c ∷ s) = not (c == b'.') && inline_test (c ∷ s)

pub inline_test_sound : (s : Text) → inline_test s ≡ true → All IsInline s
unfolding inline_test
inline_test_sound [] h = tt
inline_test_sound (c ∷ s) h = ground (arith, inline_test_sound s)

-- A line that begins with a fixed text.
pub IsLine-append : (p x : Text) → opens_line p ≡ true → All IsInline x → IsLine (p ++ x)
unfolding opens_line
IsLine-append [] x h k = cc
IsLine-append (c ∷ p) x h k =
    (All-append IsInline (c ∷ p) x (inline_test_sound (c ∷ p) (ground arith)) k, ground arith)

pub fixed-IsLine : (p : Text) → opens_line p ≡ true → IsLine p
fixed-IsLine p h = rw (append-nil p) at (IsLine-append p [] h tt)

module _ (stamp : Stamp) (v : IsStamp stamp) where
  pub boundary-IsInline : All IsInline (boundary_of stamp)
  unfolding boundary_of codes inline_test
  boundary-IsInline =
      All-append IsInline (codes "user-service-") stamp.boundary_uuid
        (inline_test_sound (codes "user-service-") refl) v.boundary_inline

  message_id-IsInline :
      (host : Text)
      → All IsInline (stamp.message_uuid ++ (codes "@" ++ (sanitize_header host ++ codes ">")))
  unfolding codes inline_test
  message_id-IsInline host =
      All-append IsInline stamp.message_uuid (codes "@" ++ (sanitize_header host ++ codes ">"))
        v.message_inline
        (All-append IsInline (codes "@") (sanitize_header host ++ codes ">")
          (inline_test_sound (codes "@") refl)
          (All-append IsInline (sanitize_header host) (codes ">") (sanitize_header-IsInline host)
            (inline_test_sound (codes ">") refl)))

  quoted_boundary-IsInline : All IsInline (boundary_of stamp ++ codes "\"")
  unfolding codes inline_test
  quoted_boundary-IsInline =
      All-append IsInline (boundary_of stamp) (codes "\"") boundary-IsInline
        (inline_test_sound (codes "\"") refl)

  pub headers_of-IsLine :
      (envelope : Envelope) (host : Text) → All IsLine (headers_of envelope host stamp)
  unfolding headers_of codes opens_line inline_test
  headers_of-IsLine envelope host =
      let from = IsLine-append (codes "From: ") _ refl (sanitize_header-IsInline envelope.from) in
      let to = IsLine-append (codes "To: ") _ refl (sanitize_header-IsInline envelope.to) in
      let subject =
        IsLine-append (codes "Subject: ") _ refl (encode_subject-IsInline envelope.subject) in
      let date = IsLine-append (codes "Date: ") _ refl v.date_inline in
      let id = IsLine-append (codes "Message-ID: <") _ refl (message_id-IsInline host) in
      let mime = fixed-IsLine (codes "MIME-Version: 1.0") refl in
      let content =
        IsLine-append (codes "Content-Type: multipart/alternative; boundary=\"")
          (boundary_of stamp ++ codes "\"") refl quoted_boundary-IsInline in
      (from, (to, (subject, (date, (id, (mime, (content, tt)))))))
