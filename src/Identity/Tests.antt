-- ===== src/Identity/Tests.antt =====
-- Settings of the service and requests to it, and the theorems at these inputs.
use user_service_platform.Prelude.{
  ◌≡◌, refl, ◌↔◌, ◌⊎◌, true, false, [], ◌∷◌, Option, none, some, ok, All, get_or,
}
use user_service_platform.Url.{Url}
use user_service_platform.Text.{Text, codes, text_eq, trim, includes, split_on, ascii_lower}
use user_service_platform.Identity.Policy.{
  AuthPolicy, PolicyEnv, resolve_auth_policy, resolve_auth_secret, needs_secret,
}
use user_service_platform.Identity.Policy.Laws.{IsOff, resolve_auth_policy-IsOff}
use user_service_platform.Identity.Tokens.{ConfigInput, TokenConfig, resolve_consumer_token_config}
use user_service_platform.Identity.Tokens.Laws.{
  IsResolved, resolve_consumer_token_config-IsResolved,
}
use user_service_platform.Identity.Origins.{
  OriginInput, presented, resolve_gateway_origins, evaluate_cookie_mutation_origin,
}
use user_service_platform.Identity.Origins.Laws.{
  IsAcceptable, IsExactOrigin, evaluate_cookie_mutation_origin_iff, resolve_gateway_origins-IsExact,
}
use user_service_platform.Identity.Resend.{
  ResendEnv, ResendConfig, Mail, email_verification, Post, responded, resolve_resend_config,
  post_of, deliver,
}
use user_service_platform.Identity.Resend.Laws.{MayReceive, deliver-MayReceive}

abbrev env : PolicyEnv
env = record {
  auth_registration_enabled = some (codes " FALSE ");
  auth_email_password_enabled = none;
  auth_require_email_verification = some (codes "True");
}

abbrev policy : AuthPolicy
policy = record {
  registration_enabled = false;
  email_password_enabled = true;
  require_email_verification = true;
}

policy_test : resolve_auth_policy ascii_lower env ≡ ok policy
unfolding resolve_auth_policy codes text_eq trim ascii_lower
policy_test = refl

resolve_auth_policy-IsOff_example :
    ((policy.require_email_verification ≡ true)
      ⊎ IsOff ascii_lower env.auth_require_email_verification)
    × ((policy.registration_enabled ≡ true) ⊎ IsOff ascii_lower env.auth_registration_enabled)
    × ((policy.email_password_enabled ≡ true) ⊎ IsOff ascii_lower env.auth_email_password_enabled)
resolve_auth_policy-IsOff_example = resolve_auth_policy-IsOff ascii_lower env policy policy_test

secret_test : resolve_auth_secret (some (codes "s")) (some (codes "production")) ≡ ok (codes "s")
unfolding resolve_auth_secret codes
secret_test = refl

production_test : needs_secret (get_or (some (codes "production")) (codes "local")) ≡ true
unfolding codes text_eq
production_test = refl

abbrev token_input : ConfigInput
token_input = record {
  environment = some (codes "Production");
  issuer = some (codes " https://id ");
  audience = some (codes "app");
  ttl_seconds = some (codes "300");
}

abbrev token_config : TokenConfig
token_config = record { issuer = codes "https://id"; audience = codes "app"; ttl_seconds = 300 }

tokens_test : resolve_consumer_token_config ascii_lower token_input ≡ ok token_config
unfolding resolve_consumer_token_config codes text_eq trim ascii_lower
tokens_test = refl

resolve_consumer_token_config-IsResolved_example : IsResolved ascii_lower token_input token_config
resolve_consumer_token_config-IsResolved_example =
    resolve_consumer_token_config-IsResolved ascii_lower token_input token_config tokens_test

-- A parser that knows one origin.
abbrev parse_url : Text → Option Url
parse_url value = some (record {
  protocol = codes "https:";
  username = [];
  password = [];
  hostname = codes "g";
  pathname = codes "/";
  search = [];
  hash = [];
  origin = codes "https://g";
})

gateways_test :
    resolve_gateway_origins parse_url (some (codes " https://g, ")) ≡ ok (codes "https://g" ∷ [])
unfolding resolve_gateway_origins codes text_eq trim includes split_on
gateways_test = refl

resolve_gateway_origins-IsExact_example : All (IsExactOrigin parse_url) (codes "https://g" ∷ [])
resolve_gateway_origins-IsExact_example =
    resolve_gateway_origins-IsExact parse_url (some (codes " https://g, ")) (codes "https://g" ∷ [])
      gateways_test

abbrev request : OriginInput
request = record {
  request_origin = codes "https://s";
  origin = some (codes "https://g");
  sec_fetch_site = some (codes "Cross-Site");
  gateway_origins = codes "https://g" ∷ [];
}

gateway_request : evaluate_cookie_mutation_origin ascii_lower request ≡ true
unfolding evaluate_cookie_mutation_origin codes text_eq trim ascii_lower
gateway_request = refl

evaluate_cookie_mutation_origin_iff_example :
    (evaluate_cookie_mutation_origin ascii_lower request ≡ true)
    ↔ IsAcceptable ascii_lower request.request_origin request.gateway_origins
        (presented request.origin)
        (presented request.sec_fetch_site)
evaluate_cookie_mutation_origin_iff_example =
    evaluate_cookie_mutation_origin_iff ascii_lower request

abbrev resend_env : ResendEnv
resend_env = record {
  environment = some (codes "sandbox");
  resend_api_key = some (codes "key");
  auth_mail_from = some (codes "a@b.co");
  auth_app_name = none;
  auth_mail_allowlist = some (codes "@Example.org, x@y.z");
}

abbrev resend_config : ResendConfig
resend_config = record {
  api_key = codes "key";
  from = codes "a@b.co";
  app_name = codes "User Service";
  sandbox_guard = true;
  allowlist = codes "@example.org" ∷ codes "x@y.z" ∷ [];
}

resend_test : resolve_resend_config ascii_lower resend_env ≡ ok resend_config
unfolding resolve_resend_config codes text_eq trim ascii_lower split_on
resend_test = refl

abbrev mail : Mail
mail = record {
  purpose = email_verification;
  to = codes "Me@example.org";
  subject = codes "s";
  html = codes "h";
  text = codes "t";
}

abbrev post : Post
post = post_of ascii_lower resend_config mail

posted_test : (deliver ascii_lower resend_config mail (responded 200 none)).0 ≡ some post
unfolding deliver codes text_eq trim ascii_lower includes
posted_test = refl

deliver-MayReceive_example : MayReceive ascii_lower resend_env (codes "Me@example.org")
deliver-MayReceive_example =
    deliver-MayReceive ascii_lower resend_env resend_config mail (responded 200 none) post
      resend_test posted_test
