-- ===== src/Deploy/Tests.antt =====
-- A deployment of one company's site.
use user_service_platform.Prelude.{
  List, Option, none, if◌then◌else◌, ◌≤◌, true, false, [], ◌∷◌, length, All, some, ok, err, ◌≡◌,
  refl,
}
use user_service_platform.Text.{Text, codes, text_eq, trim, ascii_lower}
use user_service_platform.Json.{
  Json, non_integer, str, arr, obj, nil, cons, end, member, as_text, get,
}
use user_service_platform.Url.{Url}
use user_service_platform.Config.Profiles.{profile_of, sandbox_profile}
use user_service_platform.Config.{Runtime, resolve_effective_config}
use user_service_platform.Deploy.Secrets.{
  required_worker_secrets, check_worker_secrets, all_listed, check_secret_text_bindings,
  bindings_of,
}
use user_service_platform.Deploy.Secrets.Laws.{IsGated, check_worker_secrets-IsGated}
use user_service_platform.Deploy.Naming.{
  DeploymentIdentity, production, is_label, ends_label, deployment_key,
}
use user_service_platform.Deploy.Naming.Laws.{target_key, deployment_key-Separates}
use user_service_platform.Deploy.Orchestrate.{
  DeployRequest, DeployIo, cleaned, unconfirmed, plan_deployment_steps, commands_of, run_steps,
  run_deployment,
}
use user_service_platform.Deploy.Orchestrate.Laws.{
  IsCleared, HasRun, run_deployment-IsCleared, run_deployment-HasRun,
}

abbrev identity : DeploymentIdentity
identity = record {
  company = codes "acme";
  site = codes "main-shop";
  service = codes "users";
  environment = production;
}

abbrev key : Text
key = codes "acme-main-shop-users-production"

key_test : deployment_key identity ≡ ok key
unfolding deployment_key is_label ends_label codes
key_test = refl

deployment_key-Separates_example :
    (target_key identity ≡ target_key identity)
    × (identity.environment ≡ identity.environment)
    × (length key ≤ 63)
    × (is_label key ≡ true)
deployment_key-Separates_example =
    deployment_key-Separates identity identity key refl key_test key_test

abbrev request : DeployRequest
request = record {
  environment = production;
  worker_name = key;
  confirm = some key;
  dry_run = false;
}

abbrev io : DeployIo
io = record {
  materialize = some (codes "/tmp/w.json");
  preflight_passes = true;
  run = λ command. some 0;
}

unconfirmed_test :
    run_deployment (record request { confirm = some (codes "yes") }) io
    ≡ (cleaned (codes "/tmp/w.json") ∷ [], err unconfirmed)
unfolding run_deployment text_eq codes
unconfirmed_test = refl

run_deployment-IsCleared_example : All (IsCleared request io) (run_deployment request io).0
run_deployment-IsCleared_example = run_deployment-IsCleared request io

deployed_test : (run_deployment request io).1 ≡ ok (plan_deployment_steps production)
unfolding run_deployment run_steps commands_of plan_deployment_steps text_eq codes
deployed_test = refl

run_deployment-HasRun_example : HasRun request io (plan_deployment_steps production)
run_deployment-HasRun_example =
    run_deployment-HasRun request io (plan_deployment_steps production) refl deployed_test

abbrev page : Url
page = record {
  protocol = codes "https:";
  username = [];
  password = [];
  hostname = codes "app.example.com";
  pathname = codes "/verify";
  search = [];
  hash = [];
  origin = codes "https://app.example.com";
}

abbrev parse_url : Text → Option Url
parse_url value = some page

abbrev vars : Runtime
vars name =
    if text_eq name (codes "AUTH_VERIFY_EMAIL_ACTION_URL")
    then some (str (codes "https://app.example.com/verify"))
    else none

abbrev entry : Text → Json
entry name =
    obj (member (codes "name") (str name) (member (codes "type") (str (codes "secret_text")) end))

-- The listing has the secrets of a sandbox, a number, and a secret that nothing needs.
abbrev listing : Option Json
listing = some (
    arr (
      cons (entry (codes "BETTER_AUTH_SECRET")) (
        cons non_integer
          (cons (entry (codes "OTHER")) (cons (entry (codes "RESEND_API_KEY")) nil)))))

required_test :
    required_worker_secrets ascii_lower parse_url (codes "sandbox") vars
    ≡ ok (codes "BETTER_AUTH_SECRET" ∷ codes "RESEND_API_KEY" ∷ [])
unfolding required_worker_secrets resolve_effective_config codes text_eq trim ascii_lower as_text
    profile_of sandbox_profile
required_test = refl

gate_test : check_worker_secrets ascii_lower parse_url (codes "sandbox") vars 0 listing ≡ ok true
unfolding check_worker_secrets all_listed check_secret_text_bindings bindings_of
    required_worker_secrets resolve_effective_config codes text_eq trim ascii_lower as_text
    profile_of sandbox_profile get
gate_test = refl

refused_test :
    check_worker_secrets ascii_lower parse_url (codes "sandbox") vars 0 (some (arr nil)) ≡ ok false
unfolding check_worker_secrets all_listed check_secret_text_bindings bindings_of
    required_worker_secrets resolve_effective_config codes text_eq trim ascii_lower as_text
    profile_of sandbox_profile get
refused_test = refl

check_worker_secrets-IsGated_example :
    (required : List Text) × (required_worker_secrets ascii_lower parse_url (codes "sandbox") vars
      ≡ ok required)
    × IsGated required 0 listing
check_worker_secrets-IsGated_example =
    check_worker_secrets-IsGated ascii_lower parse_url (codes "sandbox") vars 0 listing gate_test
