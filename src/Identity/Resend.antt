-- ===== src/Identity/Resend.antt =====
-- resend-transport.ts: the settings of the Resend transport, the recipient allowlist and a delivery.
-- `lower` is `toLowerCase`. A delivery takes what `fetch` will answer; rendering the templates is left
-- out, so that it starts from the rendered message.
pub mod Laws
use user_service_platform.Prelude.{
  ℕ, Bool, true, false, not, ◌&&◌, List, [], ◌∷◌, ◌++◌, map, Option, none, some, Result, ok, err,
  ◌>>=◌, ◌>>◌, guard, get_or, if◌then◌else◌, leb, ◌==◌, any, keep,
}
use user_service_platform.Text.{Text, codes, text_eq, is_empty, includes, trim, split_on}
use user_service_platform.Json.{Json, get, as_text, bind_record}

-- `ResendEnv`.
pub record ResendEnv : Type 0 where
  pub environment : Option Text
  pub resend_api_key : Option Text
  pub auth_mail_from : Option Text
  pub auth_app_name : Option Text
  pub auth_mail_allowlist : Option Text

-- `ResendTransportConfig`.
pub record ResendConfig : Type 0 where
  pub api_key : Text
  pub from : Text
  pub app_name : Text
  pub sandbox_guard : Bool
  pub allowlist : List Text

-- The errors that the code throws, with the environment that their messages name.
pub data ResendError : Type 0 where
  api_key_required from_required allowlist_required : Text → ResendError

pub data Purpose : Type 0 where
  email_verification password_reset : Purpose

-- `AuthMailLogRecord`, by its event and the fields that it has.
pub data LogRecord : Type 0 where
  sandbox_skipped : Purpose → Text → LogRecord
  failed_network : Purpose → Text → LogRecord
  failed_status : Purpose → Text → ℕ → LogRecord
  sent : Purpose → Text → Option Text → LogRecord

pub record Mail : Type 0 where
  pub purpose : Purpose
  pub to : Text
  pub subject : Text
  pub html : Text
  pub text : Text

-- The request to the provider.
pub record Post : Type 0 where
  pub authorization : Text
  pub from : Text
  pub to : Text
  pub subject : Text
  pub html : Text
  pub text : Text

-- `fetch` rejects, or else responds with a status and, where it parses, a body.
pub data Response : Type 0 where
  unreachable : Response
  responded : ℕ → Option Json → Response

-- `s.lastIndexOf('@')`: what stands before and behind it.
unfoldable pub split_last_at : Text → Option (Text × Text)
split_last_at [] = none
split_last_at (c ∷ s) = elim (split_last_at s) [
  | none ↦ if c == b'@' then some ([], s) else none
  | some (local, domain) ↦ some (c ∷ local, domain)
]

abbrev pub matches_entry : Text → Text → Text → Bool
matches_entry normalized domain [] = text_eq domain []
matches_entry normalized domain (c ∷ entry) =
    if c == b'@'
    then text_eq domain entry
    else if includes b'@' (c ∷ entry)
    then text_eq normalized (c ∷ entry)
    else text_eq domain (c ∷ entry)

abbrev pub matches_allowlist : Text → List Text → Option (Text × Text) → Bool
matches_allowlist normalized allowlist none = false
matches_allowlist normalized allowlist (some ([], domain)) = false
matches_allowlist normalized allowlist (some (c ∷ local, [])) = false
matches_allowlist normalized allowlist (some (c ∷ local, d ∷ domain)) =
    any (matches_entry normalized (d ∷ domain)) allowlist

-- `value?.trim() ?? ''`
abbrev pub trimmed : Option Text → Text
trimmed none = []
trimmed (some value) = trim value

abbrev pub app_name_of : Text → Text
app_name_of [] = codes "User Service"
app_name_of (c ∷ s) = c ∷ s

abbrev pub is_none_listed : List Text → Bool
is_none_listed [] = true
is_none_listed (_ ∷ _) = false

abbrev pub second_part : List Text → Option Text
second_part (first ∷ second ∷ _) = some second
second_part _ = none

module _ (lower : Text → Text) where
  unfoldable pub parse_allowlist : Option Text → List Text
  parse_allowlist none = []
  parse_allowlist (some value) =
      keep (λ entry. not (is_empty entry)) (map (λ entry. lower (trim entry)) (split_on b',' value))

  unfoldable pub is_allowlisted : Text → List Text → Bool
  unfolding split_last_at
  is_allowlisted email allowlist =
      let normalized = lower (trim email) in
      matches_allowlist normalized allowlist (split_last_at normalized)

  unfoldable pub resolve_resend_config : ResendEnv → Result ResendError ResendConfig
  unfolding parse_allowlist
  resolve_resend_config env =
      let environment = get_or env.environment (codes "local") in
      let sandbox_guard = not (text_eq environment (codes "production")) in
      let allowlist = parse_allowlist env.auth_mail_allowlist in
      guard (not (is_empty (trimmed env.resend_api_key))) (api_key_required environment)
      >> (guard (not (is_empty (trimmed env.auth_mail_from))) (from_required environment)
          >> (guard (not (sandbox_guard && is_none_listed allowlist))
                (allowlist_required environment)
              >> ok (record {
                api_key = trimmed env.resend_api_key;
                from = trimmed env.auth_mail_from;
                app_name = app_name_of (trimmed env.auth_app_name);
                sandbox_guard = sandbox_guard;
                allowlist = allowlist;
              })))

  unfoldable pub recipient_domain : Text → Text
  recipient_domain to = elim (second_part (split_on b'@' to)) [
    | none ↦ codes "invalid"
    | some domain ↦ lower domain
  ]

  abbrev pub post_of : ResendConfig → Mail → Post
  post_of config mail = record {
    authorization = codes "Bearer " ++ config.api_key;
    from = config.from;
    to = mail.to;
    subject = mail.subject;
    html = mail.html;
    text = mail.text;
  }

  abbrev pub message_id_of : Option Json → Option Text
  message_id_of body = elim (bind_record body) [
    | none ↦ none
    | some fields ↦ as_text (get (codes "id") fields)
  ]

  abbrev pub record_of : Mail → Response → LogRecord
  record_of mail unreachable = failed_network mail.purpose (recipient_domain mail.to)
  record_of mail (responded status body) =
      if leb 200 status && leb status 299
      then sent mail.purpose (recipient_domain mail.to) (message_id_of body)
      else failed_status mail.purpose (recipient_domain mail.to) status

  -- `deliver`: what is posted, if anything is, and the record that is logged.
  unfoldable pub deliver : ResendConfig → Mail → Response → Option Post × LogRecord
  unfolding is_allowlisted recipient_domain
  deliver config mail response =
      if config.sandbox_guard && not (is_allowlisted mail.to config.allowlist)
      then (none, sandbox_skipped mail.purpose (recipient_domain mail.to))
      else (some (post_of config mail), record_of mail response)
