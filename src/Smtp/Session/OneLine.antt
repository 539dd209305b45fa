-- ===== src/Smtp/Session/OneLine.antt =====
-- Each command is one line: nothing that the configuration or the envelope holds can add one.
use user_service_platform.Prelude.{
  ◌≡◌, ◌⊎◌, inl, inr, refl, Bool, true, false, ◌++◌, Option, All, All-append, Result, ok, err,
  get_or,
}
use user_service_platform.Text.{Text, codes}
use user_service_platform.Smtp.{
  Config, Envelope, Phase, ehlo, starttls, auth, username, password, mail_from, rcpt_to,
  command_data, message, quit, DeliveryError, from_field, to_field,
}
use user_service_platform.Smtp.Encoding.{IsInline, to_base64_utf8, to_base64_utf8-IsInline}
use user_service_platform.Smtp.Address.{extract_envelope_address}
use user_service_platform.Smtp.Address.Laws.{
  sanitize_helo-IsInline, extract_envelope_address-IsInline,
}
use user_service_platform.Smtp.Message.{crlf, Stamp, build_multipart_message}
use user_service_platform.Smtp.Message.Headers.{inline_test, inline_test_sound}
use user_service_platform.Smtp.Session.{Sent, Peer, deliver}
use user_service_platform.Smtp.Session.Follows.{entry}
use user_service_platform.Smtp.Session.Transcript.{upgrade_entries, login_entries, mail_entries}
use user_service_platform.Smtp.Session.Delivery.{log_of, deliver-All}

-- The mail, or a text without line breaks and CRLF behind it.
abbrev pub IsOneLine : Sent → Type 0
IsOneLine e = (e.phase ≡ message) ⊎ ((t : Text) × (e.payload ≡ t ++ crlf) × All IsInline t)

one_line :
    (b : Bool) (phase : Phase) (t : Text) → All IsInline t → IsOneLine (entry b phase (t ++ crlf))
one_line b phase t h = inr (t, refl, h)

fixed :
    (b : Bool) (phase : Phase) (t : Text)
    → inline_test t ≡ true
    → IsOneLine (entry b phase (t ++ crlf))
fixed b phase t h = one_line b phase t (inline_test_sound t h)

ehlo-IsOneLine :
    (b : Bool) (helo : Text)
    → All IsInline helo
    → IsOneLine (entry b ehlo ((codes "EHLO " ++ helo) ++ crlf))
unfolding codes inline_test
ehlo-IsOneLine b helo h =
    one_line b ehlo (codes "EHLO " ++ helo)
      (All-append IsInline (codes "EHLO ") helo (inline_test_sound (codes "EHLO ") refl) h)

upgrade-IsOneLine :
    (b : Bool) (helo : Text) → All IsInline helo → All IsOneLine (upgrade_entries b helo)
unfolding codes inline_test
upgrade-IsOneLine true helo h = tt
upgrade-IsOneLine false helo h =
    (fixed false starttls (codes "STARTTLS") refl, (ehlo-IsOneLine true helo h, tt))

login-IsOneLine : (config : Config) → All IsOneLine (login_entries config)
unfolding codes inline_test
login-IsOneLine config = (
  fixed true auth (codes "AUTH LOGIN") refl,
  (
    one_line true username (to_base64_utf8 config.user) (to_base64_utf8-IsInline config.user),
    (one_line true password (to_base64_utf8 config.pass) (to_base64_utf8-IsInline config.pass), tt),
  ),
)

path-IsInline :
    (prefix address : Text)
    → inline_test prefix ≡ true
    → All IsInline address
    → All IsInline (prefix ++ (address ++ codes ">"))
unfolding codes inline_test
path-IsInline prefix address h k =
    All-append IsInline prefix (address ++ codes ">") (inline_test_sound prefix h)
      (All-append IsInline address (codes ">") k (inline_test_sound (codes ">") refl))

mail-IsOneLine :
    (mail : Text) (from to : Result DeliveryError Text)
    → ((address : Text) → from ≡ ok address → All IsInline address)
    → ((address : Text) → to ≡ ok address → All IsInline address)
    → All IsOneLine (mail_entries mail from to)
unfolding codes inline_test
mail-IsOneLine mail (err e) to h k = tt
mail-IsOneLine mail (ok from) (err e) h k = (
  one_line true mail_from (codes "MAIL FROM:<" ++ (from ++ codes ">"))
      (path-IsInline (codes "MAIL FROM:<") from refl (h from refl)),
  tt,
)
mail-IsOneLine mail (ok from) (ok to) h k = (
  one_line true mail_from (codes "MAIL FROM:<" ++ (from ++ codes ">"))
      (path-IsInline (codes "MAIL FROM:<") from refl (h from refl)),
  (
    one_line true rcpt_to (codes "RCPT TO:<" ++ (to ++ codes ">"))
        (path-IsInline (codes "RCPT TO:<") to refl (k to refl)),
    (
      fixed true command_data (codes "DATA") refl,
      (inl refl, (fixed true quit (codes "QUIT") refl, tt)),
    ),
  ),
)

-- Everything that a delivery writes, except the mail after DATA, is one line: no host name,
-- credential or address can smuggle in an SMTP command.
pub deliver-IsOneLine :
    (config : Config) (envelope : Envelope) (helo_name : Option Text) (stamp : Stamp)
    (peer : Option Peer)
    → All IsOneLine (log_of (deliver config envelope helo_name stamp peer))
deliver-IsOneLine config envelope helo_name stamp =
    deliver-All IsOneLine config envelope helo_name stamp λ helo valid.
      let inline =
        sanitize_helo-IsInline (get_or helo_name (codes "user-service.local")) helo valid in
      (
        ehlo-IsOneLine config.secure helo inline,
        All-append IsOneLine (upgrade_entries config.secure helo) _
            (upgrade-IsOneLine config.secure helo inline)
            (All-append IsOneLine (login_entries config) _ (login-IsOneLine config) (
              mail-IsOneLine (build_multipart_message envelope config.host stamp)
                (extract_envelope_address envelope.from from_field)
                (extract_envelope_address envelope.to to_field)
                (extract_envelope_address-IsInline envelope.from from_field)
                (extract_envelope_address-IsInline envelope.to to_field))),
      )
