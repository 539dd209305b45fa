-- ===== src/Identity/SmtpTransport/Sent.antt =====
-- Whom the SMTP transport writes to, and what its records say.
use user_service_platform.Prelude.{
  ◌≡◌, refl, sym, ap, ◌∙◌, subst, ◌⊎◌, inl, inr, Bool, true, false, not, ◌&&◌, List, [], ◌∷◌, ◌++◌,
  append_assoc, Option, none, some, ok, if◌then◌else◌,
}
use user_service_platform.Text.{Text, codes, trim}
use user_service_platform.Smtp.{ehlo, from_field, to_field}
use user_service_platform.Smtp.Message.{crlf, Stamp, sanitize_header, build_multipart_message}
use user_service_platform.Smtp.Address.{sanitize_helo, extract_envelope_address}
use user_service_platform.Smtp.Session.{Sent, Outcome, done, thrown, pending, Peer}
use user_service_platform.Smtp.Session
use user_service_platform.Smtp.Session.Follows.{entry}
use user_service_platform.Smtp.Session.Transcript.{
  transcript, upgrade_entries, login_entries, mail_entries,
}
use user_service_platform.Smtp.Session.Delivery.{IsPartOf, log_of, deliver-transcript}
use user_service_platform.Smtp.Session.Usable.{AreUsable, deliver-AreUsable}
use user_service_platform.Identity.Resend.{Purpose, is_allowlisted, recipient_domain}
use user_service_platform.Identity.SmtpTransport.{
  SmtpConfig, SmtpRecord, sandbox_skipped, sent, AuthMessage, envelope_of, client_config, logged,
  deliver,
}

-- What the client writes before the mail: the host name, the upgrade and the login.
abbrev pub opening : SmtpConfig → Text → List Sent
opening config helo =
    (entry config.secure ehlo ((codes "EHLO " ++ helo) ++ crlf) ∷ [])
    ++ (upgrade_entries config.secure helo ++ login_entries (client_config config))

-- What the client did for a record that says `sent`: it has found both addresses, and has written
-- the opening, the addresses, the mail itself and QUIT.
abbrev pub SentBy :
    SmtpConfig
    → AuthMessage
    → Stamp
    → Text
    → Option (Outcome (Unit {0}) × Option Session.Session)
    → Type 0
SentBy config message stamp helo none = ⊥
SentBy config message stamp helo (some r) =
    let envelope = envelope_of config message in
    (r.0 ≡ done tt)
    × (sender : Text) × (receiver : Text) × (extract_envelope_address envelope.from from_field
        ≡ ok sender)
    × (extract_envelope_address envelope.to to_field ≡ ok receiver)
    × (log_of r
        ≡ opening config helo
          ++ mail_entries (build_multipart_message envelope config.host stamp) (ok sender)
              (ok receiver))

regrouped :
    (config : SmtpConfig) (message : AuthMessage) (stamp : Stamp) (helo sender receiver : Text)
    → (extract_envelope_address (envelope_of config message).from from_field ≡ ok sender)
    → (extract_envelope_address (envelope_of config message).to to_field ≡ ok receiver)
    → transcript (client_config config) (envelope_of config message) helo stamp
      ≡ opening config helo
        ++ mail_entries
            (build_multipart_message (envelope_of config message) config.host stamp)
            (ok sender)
            (ok receiver)
regrouped config message stamp helo sender receiver from to =
    rw (from, to)
      (ap (λ rest. entry config.secure ehlo ((codes "EHLO " ++ helo) ++ crlf) ∷ rest)
        (sym (
          append_assoc (upgrade_entries config.secure helo) (login_entries (client_config config))
            _)))

sent_case :
    (lower : Text → Text) (config : SmtpConfig) (message : AuthMessage) (stamp : Stamp)
    (helo : Text) (r : Outcome (Unit {0}) × Option Session.Session) (purpose : Purpose)
    (domain : Text)
    → IsPartOf
        (log_of r)
        r.0
        (transcript (client_config config) (envelope_of config message) helo stamp)
    → (r.0 ≡ done tt
        → AreUsable
            (extract_envelope_address (envelope_of config message).from from_field)
            (extract_envelope_address (envelope_of config message).to to_field))
    → (logged lower message r).0 ≡ some (sent purpose domain)
    → SentBy config message stamp helo (some r)
sent_case lower config message stamp helo (done tt, s) purpose domain part usable e =
    let (sender, receiver, from, to) = usable refl in
    (
      refl,
      sender,
      receiver,
      from,
      to,
      part ∙ regrouped config message stamp helo sender receiver from to,
    )
sent_case lower config message stamp helo (thrown error, s) purpose domain part usable e = cc
sent_case lower config message stamp helo (pending, s) purpose domain part usable e = cc

abbrev choice :
    Bool
    → SmtpRecord
    → Option SmtpRecord × Option (Outcome (Unit {0}) × Option Session.Session)
    → Option SmtpRecord × Option (Outcome (Unit {0}) × Option Session.Session)
choice skips skipped given = if skips then (some skipped, none) else given

skip-sent :
    (skips : Bool) (p q : Purpose) (d e : Text)
    (given : Option SmtpRecord × Option (Outcome (Unit {0}) × Option Session.Session))
    → (choice skips (sandbox_skipped p d) given).0 ≡ some (sent q e)
    → (choice skips (sandbox_skipped p d) given ≡ given) × (given.0 ≡ some (sent q e))
skip-sent true p q d e given h = cc
skip-sent false p q d e given h = (refl, h)

helo_default : sanitize_helo (codes "user-service.local") ≡ ok (codes "user-service.local")
unfolding sanitize_helo codes sanitize_header trim
helo_default = refl

-- Where a delivery logs that the mail was sent, both addresses are usable, the client has
-- returned, and it has written the opening, the two addresses, the whole mail and QUIT, in that
-- order and nothing else.
pub deliver-SentBy :
    (lower : Text → Text) (config : SmtpConfig) (message : AuthMessage) (stamp : Stamp)
    (peer : Option Peer) (purpose : Purpose) (domain : Text)
    → (deliver lower config message stamp peer).0 ≡ some (sent purpose domain)
    → SentBy config message stamp
        (codes "user-service.local")
        (deliver lower config message stamp peer).1
unfolding deliver
deliver-SentBy lower config message stamp peer purpose domain h =
    let r = Session.deliver (client_config config) (envelope_of config message) none stamp peer in
    let given =
      skip-sent (config.sandbox_guard && not (is_allowlisted lower message.to config.allowlist))
        message.purpose purpose (recipient_domain lower message.to) domain (logged lower message r)
        h in
    subst (λ x. SentBy config message stamp (codes "user-service.local") x.1) (sym given.0)
      (sent_case lower config message stamp (codes "user-service.local") r purpose domain
        (deliver-transcript (client_config config) (envelope_of config message) none stamp peer
          (codes "user-service.local") helo_default)
        (deliver-AreUsable (client_config config) (envelope_of config message) none stamp peer)
        given.1)

reached :
    (guarded listed : Bool) (skipped : SmtpRecord)
    (given : Option SmtpRecord × Option (Outcome (Unit {0}) × Option Session.Session))
    (r : Outcome (Unit {0}) × Option Session.Session)
    → (choice (guarded && not listed) skipped given).1 ≡ some r
    → (guarded ≡ false) ⊎ (listed ≡ true)
reached true true skipped given r h = inr refl
reached true false skipped given r h = cc
reached false listed skipped given r h = inl refl

-- The client is called only for a recipient that the guard lets through.
pub deliver-IsAllowed :
    (lower : Text → Text) (config : SmtpConfig) (message : AuthMessage) (stamp : Stamp)
    (peer : Option Peer) (r : Outcome (Unit {0}) × Option Session.Session)
    → (deliver lower config message stamp peer).1 ≡ some r
    → (config.sandbox_guard ≡ false) ⊎ (is_allowlisted lower message.to config.allowlist ≡ true)
unfolding deliver
deliver-IsAllowed lower config message stamp peer r h =
    reached config.sandbox_guard (is_allowlisted lower message.to config.allowlist) _ _ r h
