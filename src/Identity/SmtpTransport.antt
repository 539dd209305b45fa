-- ===== src/Identity/SmtpTransport.antt =====
-- smtp-transport.ts: the settings of the SMTP transport, and a delivery over the client of
-- smtp-client.ts. `lower` is `toLowerCase`.
pub mod Laws
pub mod Sent
use user_service_platform.Prelude.{
  ℕ, ◌+◌, ◌-◌, ◌*◌, Bool, true, false, not, ◌&&◌, ◌||◌, List, [], ◌∷◌, ◌++◌, Option, none, some,
  Result, ok, err, ◌>>=◌, ◌>>◌, guard, get_or, if◌then◌else◌, leb, ltb, ◌==◌, length, all,
}
use user_service_platform.Text.{Text, codes, text_eq, is_empty, trim}
use user_service_platform.Smtp.{Config, Envelope, Phase, DeliveryError}
use user_service_platform.Smtp.Address.{matches_host}
use user_service_platform.Smtp.Message.{Stamp}
use user_service_platform.Smtp.Session.{Outcome, done, thrown, pending, Session, Peer}
use user_service_platform.Smtp.Session
use user_service_platform.Identity.Tokens.{is_digit, digits_from}
use user_service_platform.Identity.Templates.{
  Template, render_verification_email, render_password_reset_email,
}
use user_service_platform.Identity.Resend.{
  Purpose, email_verification, password_reset, trimmed, app_name_of, is_none_listed,
  parse_allowlist, is_allowlisted, recipient_domain,
}

-- `SmtpEnv`.
pub record SmtpEnv : Type 0 where
  pub environment : Option Text
  pub smtp_host : Option Text
  pub smtp_port : Option Text
  pub smtp_secure : Option Text
  pub smtp_user : Option Text
  pub smtp_password : Option Text
  pub auth_mail_from : Option Text
  pub auth_app_name : Option Text
  pub auth_mail_allowlist : Option Text

-- `SmtpTransportConfig`.
pub record SmtpConfig : Type 0 where
  pub host : Text
  pub port : ℕ
  pub secure : Bool
  pub user : Text
  pub pass : Text
  pub from : Text
  pub app_name : Text
  pub sandbox_guard : Bool
  pub allowlist : List Text

-- The errors that the code throws, without the environment that two of the messages name.
pub data SmtpError : Type 0 where
  malformed_host malformed_port unsupported_port malformed_secure : SmtpError
  user_required password_required from_required allowlist_required : SmtpError

-- `SmtpMailLogRecord`, by its event and the fields that it has.
pub data SmtpRecord : Type 0 where
  sandbox_skipped : Purpose → Text → SmtpRecord
  send_failed : Purpose → Text → Phase → Option ℕ → SmtpRecord
  sent : Purpose → Text → SmtpRecord

-- The message of a purpose, for a recipient, with the action URL.
pub record AuthMessage : Type 0 where
  pub purpose : Purpose
  pub to : Text
  pub url : Text

abbrev pub port_of : Text → Result SmtpError ℕ
port_of raw =
    guard (not (is_empty raw) && leb (length raw) 5 && all is_digit raw) malformed_port
    >> (let port = digits_from 0 raw in
        guard (leb 1 port && leb port 65535) malformed_port
        >> (guard (not (port == 25)) unsupported_port >> ok port))

unfoldable pub parse_port : Option Text → Result SmtpError ℕ
parse_port value = port_of (trimmed value)

abbrev pub secure_of : Text → Result SmtpError Bool
secure_of normalized =
    if text_eq normalized (codes "true")
    then ok true
    else if text_eq normalized (codes "false")
    then ok false
    else err malformed_secure

-- The template of the purpose.
abbrev pub template_of : Purpose → Text → Text → Template
template_of email_verification app_name url = render_verification_email app_name url
template_of password_reset app_name url = render_password_reset_email app_name url

-- What `deliver` passes on to the client.
abbrev pub envelope_of : SmtpConfig → AuthMessage → Envelope
envelope_of config message =
    let template = template_of message.purpose config.app_name message.url in
    record {
      from = config.from;
      to = message.to;
      subject = template.subject;
      text = template.text;
      html = template.html;
    }

-- `createWorkersSmtpSend`.
abbrev pub client_config : SmtpConfig → Config
client_config config = record {
  host = config.host;
  port = config.port;
  secure = config.secure;
  user = config.user;
  pass = config.pass;
}

module _ (lower : Text → Text) where
  unfoldable pub parse_secure : Option Text → Result SmtpError Bool
  parse_secure value = secure_of (lower (trimmed value))

  unfoldable pub resolve_smtp_config : SmtpEnv → Result SmtpError SmtpConfig
  unfolding parse_port parse_secure
  resolve_smtp_config env =
      let environment = get_or env.environment (codes "local") in
      let sandbox_guard = not (text_eq environment (codes "production")) in
      let host = trimmed env.smtp_host in
      let allowlist = parse_allowlist lower env.auth_mail_allowlist in
      guard (matches_host 251 host) malformed_host
      >> (parse_port env.smtp_port >>= λ port. parse_secure env.smtp_secure >>= λ secure.
          guard (not (is_empty (trimmed env.smtp_user))) user_required
          >> (guard (not (is_empty (get_or env.smtp_password []))) password_required
              >> (guard (not (is_empty (trimmed env.auth_mail_from))) from_required
                  >> (guard (not (sandbox_guard && is_none_listed allowlist)) allowlist_required
                      >> ok (record {
                        host = host;
                        port = port;
                        secure = secure;
                        user = trimmed env.smtp_user;
                        pass = get_or env.smtp_password [];
                        from = trimmed env.auth_mail_from;
                        app_name = app_name_of (trimmed env.auth_app_name);
                        sandbox_guard = sandbox_guard;
                        allowlist = allowlist;
                      })))))

  -- `toSmtpFailure`, in the record of a send that ended; a send that never settles logs nothing.
  abbrev pub record_of : AuthMessage → Outcome (Unit {0}) → Option SmtpRecord
  record_of message (done _) = some (sent message.purpose (recipient_domain lower message.to))
  record_of message (thrown error) =
      some (
        send_failed message.purpose (recipient_domain lower message.to) error.phase
          error.reply_code)
  record_of message pending = none

  -- The record, with what the client did.
  abbrev pub logged :
      AuthMessage
      → Outcome (Unit {0}) × Option Session
      → Option SmtpRecord × Option (Outcome (Unit {0}) × Option Session)
  logged message r = (record_of message r.0, some r)

  -- `deliver` with the client of smtp-client.ts: the record that it logs, and what the client did, if
  -- it was called at all.
  unfoldable pub deliver :
      SmtpConfig
      → AuthMessage
      → Stamp
      → Option Peer
      → Option SmtpRecord × Option (Outcome (Unit {0}) × Option Session)
  deliver config message stamp peer =
      if config.sandbox_guard && not (is_allowlisted lower message.to config.allowlist)
      then (some (sandbox_skipped message.purpose (recipient_domain lower message.to)), none)
      else logged message
          (Session.deliver (client_config config) (envelope_of config message) none stamp peer)
