-- ===== src/Smtp.antt =====
-- The Workers-native SMTP submission client, src/features/identity/smtp-client.ts: its
-- configuration, its envelope and its redacted errors. The children model the message that is
-- built, the parser of replies and the protocol session.
pub mod Encoding
pub mod Message
pub mod Address
pub mod Reply
pub mod Session
mod Tests
use user_service_platform.Prelude.{ℕ, Bool, Option, none, some, get_or}
use user_service_platform.Text.{Text}

pub record Config : Type 0 where
  pub host : Text
  pub port : ℕ
  pub secure : Bool
  pub user : Text
  pub pass : Text

pub record Envelope : Type 0 where
  pub from : Text
  pub to : Text
  pub subject : Text
  pub text : Text
  pub html : Text

-- `SmtpFailurePhase`.
pub data Phase : Type 0 where
  connect greeting ehlo starttls auth username password mail_from rcpt_to command_data message :
      Phase
  quit envelope transport : Phase

-- `SmtpFailureCause`.
pub data Cause : Type 0 where
  transport_error connection_closed invalid_hostname invalid_address : Cause

pub data Field : Type 0 where
  from_field to_field : Field

pub record Options : Type 0 where
  pub reply_code : Option ℕ
  pub cause : Option Cause
  pub field : Option Field

abbrev pub no_options : Options
no_options = record { reply_code = none; cause = none; field = none }

abbrev pub with_code : ℕ → Options
with_code n = record { reply_code = some n; cause = none; field = none }

abbrev pub with_cause : Cause → Options
with_cause c = record { reply_code = none; cause = some c; field = none }

-- One constructor for each message template of `redactedMessage`.
pub data Redacted : Type 0 where
  reply_code_received : Phase → ℕ → Redacted
  closed_unexpectedly : Phase → Redacted
  invalid_client_hostname : Phase → Redacted
  invalid_field_address : Phase → Field → Redacted
  transport_failed : Redacted
  transport_failed_during : Phase → Redacted

unfoldable pub redacted_by_phase : Phase → Redacted
redacted_by_phase transport = transport_failed
redacted_by_phase phase = transport_failed_during phase

unfoldable pub redacted_by_cause : Phase → Option Field → Option Cause → Redacted
unfolding redacted_by_phase
redacted_by_cause phase field (some connection_closed) = closed_unexpectedly phase
redacted_by_cause phase field (some invalid_hostname) = invalid_client_hostname phase
redacted_by_cause phase field (some invalid_address) =
    invalid_field_address phase (get_or field from_field)
redacted_by_cause phase field (some transport_error) = redacted_by_phase phase
redacted_by_cause phase field none = redacted_by_phase phase

unfoldable pub redacted_message : Phase → Options → Redacted
unfolding redacted_by_cause
redacted_message phase options = elim options.reply_code [
  | some n ↦ reply_code_received phase n
  | none ↦ redacted_by_cause phase options.field options.cause
]

-- `SmtpDeliveryError`.
pub record DeliveryError : Type 0 where
  pub phase : Phase
  pub reply_code : Option ℕ
  pub redacted : Redacted

unfoldable pub delivery_error : Phase → Options → DeliveryError
unfolding redacted_message
delivery_error phase options = record {
  phase = phase;
  reply_code = options.reply_code;
  redacted = redacted_message phase options;
}
