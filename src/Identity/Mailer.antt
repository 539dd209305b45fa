-- ===== src/Identity/Mailer.antt =====
-- mailer.ts: which transport sends the mail of a deployment. `lower` is `toLowerCase`; a mailer that
-- the caller provides is a parameter.
pub mod Laws
use user_service_platform.Prelude.{
  Bool, true, false, ◌||◌, List, [], ◌∷◌, ◌++◌, Option, none, some, Result, ok, err, get_or,
  if◌then◌else◌,
}
use user_service_platform.Text.{Text, codes, text_eq, is_empty, trim, split_on}
use user_service_platform.Identity.Resend.{
  ResendEnv, ResendConfig, ResendError, Purpose, resolve_resend_config, second_part,
}
use user_service_platform.Identity.SmtpTransport.{
  SmtpEnv, SmtpConfig, SmtpError, AuthMessage, resolve_smtp_config,
}

-- The slots of the environment that the resolver reads.
pub record MailerEnv : Type 0 where
  pub environment : Option Text
  pub auth_mail_transport : Option Text
  pub resend_api_key : Option Text
  pub smtp_host : Option Text
  pub smtp_port : Option Text
  pub smtp_secure : Option Text
  pub smtp_user : Option Text
  pub smtp_password : Option Text
  pub auth_mail_from : Option Text
  pub auth_app_name : Option Text
  pub auth_mail_allowlist : Option Text

abbrev pub resend_env : MailerEnv → ResendEnv
resend_env env = record {
  environment = env.environment;
  resend_api_key = env.resend_api_key;
  auth_mail_from = env.auth_mail_from;
  auth_app_name = env.auth_app_name;
  auth_mail_allowlist = env.auth_mail_allowlist;
}

abbrev pub smtp_env : MailerEnv → SmtpEnv
smtp_env env = record {
  environment = env.environment;
  smtp_host = env.smtp_host;
  smtp_port = env.smtp_port;
  smtp_secure = env.smtp_secure;
  smtp_user = env.smtp_user;
  smtp_password = env.smtp_password;
  auth_mail_from = env.auth_mail_from;
  auth_app_name = env.auth_app_name;
  auth_mail_allowlist = env.auth_mail_allowlist;
}

-- The mailers, and one that the caller provides.
pub data Mailer (Provided : Type 0) : Type 0 where
  provided : Provided → Mailer Provided
  in_memory development : Mailer Provided
  resend : ResendConfig → Mailer Provided
  smtp : SmtpConfig → Mailer Provided

pub data MailerError : Type 0 where
  resend_error : ResendError → MailerError
  smtp_error : SmtpError → MailerError
  unknown_transport : Text → MailerError

-- `InMemoryAuthMailer`: the captured messages of each purpose, in order.
pub record Captured : Type 0 where
  pub messages : List AuthMessage
  pub reset_messages : List AuthMessage

-- The record that `DevelopmentAuthMailer` logs, with the recipient's domain.
unfoldable pub development_domain : Text → Text
development_domain to = get_or (second_part (split_on b'@' to)) (codes "invalid")

-- The environments that never fall back on the development mailer.
abbrev pub is_deployed : Text → Bool
is_deployed environment =
    text_eq environment (codes "staging")
    || text_eq environment (codes "sandbox")
    || text_eq environment (codes "production")

module _ (lower : Text → Text) (Provided : Type 0) where
  abbrev pub with_resend : Result ResendError ResendConfig → Result MailerError (Mailer Provided)
  with_resend (ok config) = ok (resend config)
  with_resend (err e) = err (resend_error e)

  abbrev pub with_smtp : Result SmtpError SmtpConfig → Result MailerError (Mailer Provided)
  with_smtp (ok config) = ok (smtp config)
  with_smtp (err e) = err (smtp_error e)

  abbrev pub default_mailer : MailerEnv → Result MailerError (Mailer Provided)
  default_mailer env =
      if is_deployed (get_or env.environment (codes "local"))
      then with_resend (resolve_resend_config lower (resend_env env))
      else ok development

  abbrev pub selected : MailerEnv → Text → Result MailerError (Mailer Provided)
  selected env selection =
      if text_eq selection (codes "inmemory")
      then ok in_memory
      else if text_eq selection (codes "resend")
      then with_resend (resolve_resend_config lower (resend_env env))
      else if text_eq selection (codes "smtp")
      then with_smtp (resolve_smtp_config lower (smtp_env env))
      else if is_empty selection
      then default_mailer env
      else err (unknown_transport selection)

  abbrev pub selected_by : MailerEnv → Option Text → Result MailerError (Mailer Provided)
  selected_by env none = default_mailer env
  selected_by env (some value) = selected env (lower (trim value))

  unfoldable pub resolve_auth_mailer :
      MailerEnv → Option Provided → Result MailerError (Mailer Provided)
  resolve_auth_mailer env (some override) = ok (provided override)
  resolve_auth_mailer env none = selected_by env env.auth_mail_transport

  abbrev pub kept : Result MailerError (Mailer Provided) → Option (Mailer Provided)
  kept (ok mailer) = some mailer
  kept (err _) = none

  -- `deferredAuthMailer`: what it holds at first, and its `current`, with what it holds then.
  abbrev pub deferred : Option Provided → Option (Mailer Provided)
  deferred none = none
  deferred (some override) = some (provided override)

  unfoldable pub current :
      MailerEnv
      → Option (Mailer Provided)
      → Result MailerError (Mailer Provided) × Option (Mailer Provided)
  unfolding resolve_auth_mailer
  current env (some mailer) = (ok mailer, some mailer)
  current env none = let result = resolve_auth_mailer env none in (result, kept result)

-- `sendVerificationEmail` and `sendPasswordResetEmail` of the in-memory mailer, and `clear`.
unfoldable pub capture : AuthMessage → Captured → Captured
capture message s = elim message.purpose [
  | Purpose.email_verification ↦ record s { messages = s.messages ++ (message ∷ []) }
  | Purpose.password_reset ↦ record s { reset_messages = s.reset_messages ++ (message ∷ []) }
]

abbrev pub clear : Captured → Captured
clear s = record { messages = []; reset_messages = [] }
