-- ===== src/Smtp/Session/Transcript.antt =====
-- The transcript of a delivery: all that `deliverViaWorkersSmtp` may hand to the socket.
use user_service_platform.Prelude.{
  ◌≡◌, refl, sym, Bool, true, false, List, [], ◌∷◌, ◌++◌, Result, ok, err, append-nil,
}
use user_service_platform.Text.{Text, codes}
use user_service_platform.Smtp.{
  Config, Envelope, greeting, ehlo, starttls, auth, username, password, mail_from, rcpt_to,
  command_data, message, quit, from_field, to_field, DeliveryError,
}
use user_service_platform.Smtp.Encoding.{to_base64_utf8}
use user_service_platform.Smtp.Address.{extract_envelope_address}
use user_service_platform.Smtp.Message.{crlf, Stamp, build_multipart_message}
use user_service_platform.Smtp.Session.{
  Sent, Session, Read, Outcome, and_then, after_read, read_loop, write, write_with, close, done,
  thrown, pending, ◌>>◌, quit_with, quit_session, command, upgrade_to_tls, secure_channel, login,
  mail_steps, write_data, read_reply, conversation,
}
use user_service_platform.Smtp.Session.Follows.{
  Follows, Says, Says-bind, entry, read_reply-Says, write-Says, command-Says, upgrade_to_tls-Says,
  fail-Says,
}

-- The upgrade and the second greeting, where the channel starts in the clear.
abbrev pub upgrade_entries : Bool → Text → List Sent
upgrade_entries true helo = []
upgrade_entries false helo =
    entry false starttls (codes "STARTTLS" ++ crlf)
    ∷ entry true ehlo ((codes "EHLO " ++ helo) ++ crlf)
    ∷ []

abbrev pub login_entries : Config → List Sent
login_entries config =
    entry true auth (codes "AUTH LOGIN" ++ crlf)
    ∷ entry true username (to_base64_utf8 config.user ++ crlf)
    ∷ entry true password (to_base64_utf8 config.pass ++ crlf)
    ∷ []

-- The mail is sent only if both addresses can be extracted; the sender's is given before the
-- receiver's is looked at.
abbrev pub mail_entries : Text → Result DeliveryError Text → Result DeliveryError Text → List Sent
mail_entries mail (err e) to = []
mail_entries mail (ok from) (err e) =
    entry true mail_from ((codes "MAIL FROM:<" ++ (from ++ codes ">")) ++ crlf) ∷ []
mail_entries mail (ok from) (ok to) =
    entry true mail_from ((codes "MAIL FROM:<" ++ (from ++ codes ">")) ++ crlf)
    ∷ entry true rcpt_to ((codes "RCPT TO:<" ++ (to ++ codes ">")) ++ crlf)
    ∷ entry true command_data (codes "DATA" ++ crlf)
    ∷ entry true message (mail ++ (b'.' ∷ crlf))
    ∷ entry true quit (codes "QUIT" ++ crlf)
    ∷ []

abbrev pub transcript : Config → Envelope → Text → Stamp → List Sent
transcript config envelope helo stamp =
    (entry config.secure ehlo ((codes "EHLO " ++ helo) ++ crlf) ∷ [])
    ++ (upgrade_entries config.secure helo
        ++ (login_entries config
            ++ mail_entries (build_multipart_message envelope config.host stamp)
                (extract_envelope_address envelope.from from_field)
                (extract_envelope_address envelope.to to_field)))

secure_channel-Says :
    (b : Bool) (helo : Text) → Says (secure_channel b helo) b true (upgrade_entries b helo)
unfolding secure_channel
secure_channel-Says true helo s t = (sym (append-nil s.log), t)
secure_channel-Says false helo s t =
    Says-bind (command starttls (codes "STARTTLS") (220 ∷ [])) _ false false true
      (entry false starttls (codes "STARTTLS" ++ crlf) ∷ [])
      (entry true ehlo ((codes "EHLO " ++ helo) ++ crlf) ∷ [])
      (command-Says starttls (codes "STARTTLS") (220 ∷ []) false)
      (λ _.
        Says-bind upgrade_to_tls _ false true true []
          (entry true ehlo ((codes "EHLO " ++ helo) ++ crlf) ∷ []) (upgrade_to_tls-Says false)
          (λ _. command-Says ehlo (codes "EHLO " ++ helo) (250 ∷ []) true))
      s t

login-Says : (config : Config) → Says (login config) true true (login_entries config)
unfolding login
login-Says config =
    Says-bind (command auth (codes "AUTH LOGIN") (334 ∷ [])) _ true true true
      (entry true auth (codes "AUTH LOGIN" ++ crlf) ∷ []) _
      (command-Says auth (codes "AUTH LOGIN") (334 ∷ []) true)
      (λ _.
        Says-bind (command username (to_base64_utf8 config.user) (334 ∷ [])) _ true true true
          (entry true username (to_base64_utf8 config.user ++ crlf) ∷ []) _
          (command-Says username (to_base64_utf8 config.user) (334 ∷ []) true)
          (λ _. command-Says password (to_base64_utf8 config.pass) (235 ∷ []) true))

quit_with-after_read :
    (before xs : List Sent) (s : Session) (r : Outcome (Unit {0}) × List Read × Text)
    → s.log ≡ before ++ xs
    → s.tls ≡ true
    → Follows before true xs (quit_with (after_read s r))
unfolding close
quit_with-after_read before xs s (done _, rest, buffer) e t = (e, t)
quit_with-after_read before xs s (thrown _, rest, buffer) e t = (e, t)
quit_with-after_read before xs s (pending, rest, buffer) e t = (xs, [], e, append-nil xs)

quit_with-write_with :
    (s : Session) (writes : List Bool)
    → s.tls ≡ true
    → Follows s.log true (entry true quit (codes "QUIT" ++ crlf) ∷ []) (
        quit_with (
          and_then
            (λ _. read_reply quit (221 ∷ []))
            (write_with quit (codes "QUIT" ++ crlf) s writes)))
unfolding read_reply close
quit_with-write_with s [] t =
    ([], entry true quit (codes "QUIT" ++ crlf) ∷ [], sym (append-nil s.log), refl)
quit_with-write_with s (true ∷ writes) t =
    quit_with-after_read s.log (entry true quit (codes "QUIT" ++ crlf) ∷ [])
      (record s { writes = writes; log = s.log ++ (entry s.tls quit (codes "QUIT" ++ crlf) ∷ []) })
      (read_loop quit (221 ∷ []) s.inbox s.buffer) (rw t) t
quit_with-write_with s (false ∷ writes) t = (rw t, t)

quit_session-Says : Says quit_session true true (entry true quit (codes "QUIT" ++ crlf) ∷ [])
unfolding quit_session write
quit_session-Says s t = quit_with-write_with s s.writes t

delivery-Says :
    (mail : Text)
    → Says
        (write_data mail >> (read_reply message (250 ∷ []) >> quit_session))
        true
        true
        (entry true message (mail ++ (b'.' ∷ crlf)) ∷ entry true quit (codes "QUIT" ++ crlf) ∷ [])
unfolding write_data
delivery-Says mail =
    Says-bind (write message (mail ++ (b'.' ∷ crlf))) _ true true true
      (entry true message (mail ++ (b'.' ∷ crlf)) ∷ [])
      (entry true quit (codes "QUIT" ++ crlf) ∷ [])
      (write-Says message (mail ++ (b'.' ∷ crlf)) true)
      (λ _.
        Says-bind (read_reply message (250 ∷ [])) _ true true true [] _
          (read_reply-Says message (250 ∷ []) true) (λ _. quit_session-Says))

mail_steps-Says :
    (mail : Text) (from to : Result DeliveryError Text)
    → Says (mail_steps mail from to) true true (mail_entries mail from to)
unfolding mail_steps
mail_steps-Says mail (err e) to = fail-Says (Unit {0}) e true true []
mail_steps-Says mail (ok from) (err e) =
    Says-bind (command mail_from (codes "MAIL FROM:<" ++ (from ++ codes ">")) (250 ∷ [])) _ true
      true true (mail_entries mail (ok from) (err e)) []
      (command-Says mail_from (codes "MAIL FROM:<" ++ (from ++ codes ">")) (250 ∷ []) true)
      (λ _. fail-Says (Unit {0}) e true true [])
mail_steps-Says mail (ok from) (ok to) =
    Says-bind (command mail_from (codes "MAIL FROM:<" ++ (from ++ codes ">")) (250 ∷ [])) _ true
      true true (entry true mail_from ((codes "MAIL FROM:<" ++ (from ++ codes ">")) ++ crlf) ∷ []) _
      (command-Says mail_from (codes "MAIL FROM:<" ++ (from ++ codes ">")) (250 ∷ []) true)
      (λ _.
        Says-bind (command rcpt_to (codes "RCPT TO:<" ++ (to ++ codes ">")) (250 ∷ 251 ∷ [])) _ true
          true true (entry true rcpt_to ((codes "RCPT TO:<" ++ (to ++ codes ">")) ++ crlf) ∷ []) _
          (command-Says rcpt_to (codes "RCPT TO:<" ++ (to ++ codes ">")) (250 ∷ 251 ∷ []) true)
          (λ _.
            Says-bind (command command_data (codes "DATA") (354 ∷ [])) _ true true true
              (entry true command_data (codes "DATA" ++ crlf) ∷ []) _
              (command-Says command_data (codes "DATA") (354 ∷ []) true) (λ _. delivery-Says mail)))

-- The `try` block follows the transcript, whatever the server and the runtime do.
pub conversation-Says :
    (config : Config) (envelope : Envelope) (helo : Text) (stamp : Stamp)
    → Says
        (conversation config envelope helo stamp)
        config.secure
        true
        (transcript config envelope helo stamp)
unfolding conversation
conversation-Says config envelope helo stamp =
    Says-bind (read_reply greeting (220 ∷ [])) _ config.secure config.secure true [] _
      (read_reply-Says greeting (220 ∷ []) config.secure)
      (λ _.
        Says-bind (command ehlo (codes "EHLO " ++ helo) (250 ∷ [])) _ config.secure config.secure
          true (entry config.secure ehlo ((codes "EHLO " ++ helo) ++ crlf) ∷ []) _
          (command-Says ehlo (codes "EHLO " ++ helo) (250 ∷ []) config.secure)
          (λ _.
            Says-bind (secure_channel config.secure helo) _ config.secure true true
              (upgrade_entries config.secure helo) _ (secure_channel-Says config.secure helo)
              (λ _.
                Says-bind (login config) _ true true true (login_entries config) _
                  (login-Says config)
                  (λ _.
                    mail_steps-Says (build_multipart_message envelope config.host stamp)
                      (extract_envelope_address envelope.from from_field)
                      (extract_envelope_address envelope.to to_field)))))
