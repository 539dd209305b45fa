-- ===== src/Identity/ActionUrls.antt =====
-- action-urls.ts: the link of one message, from the configured page or the service's own. What the
-- code calls of `URL` is an interface.
pub mod Laws
use user_service_platform.Prelude.{
  Bool, not, ◌&&◌, ◌||◌, List, [], ◌∷◌, Option, none, some, Result, ok, err, ◌>>=◌, ◌>>◌, guard,
  get_or,
}
use user_service_platform.Text.{Text, codes, is_empty, trim}
use user_service_platform.Url.{Url, is_http}
use user_service_platform.Config.Profiles.{
  Profile, auth_verify_email_action_url, auth_reset_password_action_url,
}

-- `new URL(value)`, `new URL(path, base)` for an absolute path, and `toString` after
-- `searchParams.set`.
pub record UrlApi : Type 0 where
  pub parse : Text → Option Url
  pub join : Text → Url → Url
  pub with_param : Text → Text → Url → Text

-- The two errors that the code throws; each names the variable of the slot.
pub data ActionUrlError : Type 0 where
  token_required malformed_action_url : Text → ActionUrlError

-- `BuildAuthActionUrlInput`.
pub record ActionUrlInput : Type 0 where
  pub var_name : Text
  pub configured : Option Text
  pub request_origin : Text
  pub fallback_path : Text
  pub token : Text

abbrev pub verify_email_action_path : Text
verify_email_action_path = codes "/auth-actions/verify-email"

abbrev pub reset_password_action_path : Text
reset_password_action_path = codes "/auth-actions/reset-password"

-- The input that a mail callback of auth.ts makes of a slot of the configuration.
abbrev pub slot_input : Text → Text → Text → Text → Text → ActionUrlInput
slot_input name value request_origin fallback_path token = record {
  var_name = name;
  configured = some value;
  request_origin = request_origin;
  fallback_path = fallback_path;
  token = token;
}

abbrev pub verify_input : Profile → Text → Text → ActionUrlInput
verify_input config request_origin token =
    slot_input (codes "AUTH_VERIFY_EMAIL_ACTION_URL") (config auth_verify_email_action_url)
      request_origin verify_email_action_path token

abbrev pub reset_input : Profile → Text → Text → ActionUrlInput
reset_input config request_origin token =
    slot_input (codes "AUTH_RESET_PASSWORD_ACTION_URL") (config auth_reset_password_action_url)
      request_origin reset_password_action_path token

abbrev pub or_malformed : Text → Option Url → Result ActionUrlError Url
or_malformed name none = err (malformed_action_url name)
or_malformed name (some url) = ok url

module _ (api : UrlApi) where
  abbrev pub build_from : ActionUrlInput → Text → Result ActionUrlError Text
  build_from input [] = or_malformed input.var_name (api.parse input.request_origin) >>= λ origin.
      ok (api.with_param (codes "token") input.token (api.join input.fallback_path origin))
  build_from input (c ∷ s) = or_malformed input.var_name (api.parse (c ∷ s)) >>= λ target.
      guard (is_http target) (malformed_action_url input.var_name)
      >> (guard (is_empty target.username && is_empty target.password)
            (malformed_action_url input.var_name)
          >> (guard (is_empty target.hash) (malformed_action_url input.var_name)
              >> ok (api.with_param (codes "token") input.token target)))

  unfoldable pub build_auth_action_url : ActionUrlInput → Result ActionUrlError Text
  build_auth_action_url input =
      guard (not (is_empty input.token)) (token_required input.var_name)
      >> build_from input (trim (get_or input.configured []))
