-- ===== src/Config/Tests.antt =====
-- The configuration of concrete runtimes.
use user_service_platform.Prelude.{[], Option, none, some, ok, ◌≡◌, refl, if◌then◌else◌}
use user_service_platform.Text.{Text, codes, text_eq, trim, ascii_lower}
use user_service_platform.Json.{str, as_text}
use user_service_platform.Url.{Url}
use user_service_platform.Config.Profiles.{profile_of, sandbox, auth_verify_email_action_url}
use user_service_platform.Config.{Runtime, EffectiveConfig, overlay, resolve_effective_config}
use user_service_platform.Config.Public.{Agree, resolve_effective_config-Agree}

abbrev page : Url
page = record {
  protocol = codes "https:";
  username = [];
  password = [];
  hostname = codes "app.example.com";
  pathname = codes "/verify";
  search = [];
  hash = [];
  origin = codes "https://app.example.com";
}

abbrev parse_url : Text → Option Url
parse_url value = some page

abbrev runtime : Runtime
runtime name =
    if text_eq name (codes "AUTH_VERIFY_EMAIL_ACTION_URL")
    then some (str (codes "https://app.example.com/verify"))
    else none

-- The same, with a secret.
abbrev with_secret : Runtime
with_secret name =
    if text_eq name (codes "BETTER_AUTH_SECRET") then some (str (codes "s")) else runtime name

abbrev effective : EffectiveConfig
effective = record { environment = sandbox; config = overlay (profile_of sandbox) runtime }

effective_test :
    resolve_effective_config ascii_lower parse_url (some (codes " Sandbox")) runtime ≡ ok effective
unfolding resolve_effective_config codes text_eq trim ascii_lower as_text profile_of
effective_test = refl

page_test : effective.config auth_verify_email_action_url ≡ codes "https://app.example.com/verify"
unfolding overlay codes text_eq as_text
page_test = refl

agree : Agree with_secret runtime
unfolding codes text_eq
agree = (
  refl,
  (
    refl,
    (
      refl,
      (
        refl,
        (
          refl,
          (
            refl,
            (
              refl,
              (refl, (refl, (refl, (refl, (refl, (refl, (refl, (refl, (refl, (refl, tt)))))))))),
            ),
          ),
        ),
      ),
    ),
  ),
)

resolve_effective_config-Agree_example :
    resolve_effective_config ascii_lower parse_url (some (codes " Sandbox")) with_secret
    ≡ resolve_effective_config ascii_lower parse_url (some (codes " Sandbox")) runtime
resolve_effective_config-Agree_example =
    resolve_effective_config-Agree ascii_lower parse_url (some (codes " Sandbox")) with_secret
      runtime agree
