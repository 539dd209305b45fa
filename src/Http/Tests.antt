-- ===== src/Http/Tests.antt =====
-- Runs of the handlers on concrete requests.
use user_service_platform.Prelude.{
  List, ℕ, true, false, [], ◌∷◌, ◌++◌, map, length, if◌then◌else◌, Option, none, some, ok, ◌≡◌,
  refl, ◌≤◌,
}
use user_service_platform.Text.{Text, codes, ascii_lower}
use user_service_platform.Json.{Json, null, bool, str, obj, end, member}
use user_service_platform.Url.{Url}
use user_service_platform.Http.{
  Run, Call, select_users, count_users, get_session, user_has_permission, select_user, select_admin,
  create_user, sign_in_email, request_password_reset_for, returned, raised, Response,
}
use user_service_platform.Http.Scope.{Request, Platform, Base}
use user_service_platform.Http.Router.{Operation, admin_users, admin_bootstrap, login, current_user}
use user_service_platform.Text.{text_eq, trim, split_on}
use user_service_platform.Json.{get, as_text, as_bool}
use user_service_platform.Config.Profiles.{profile_of}
use user_service_platform.Config.{resolve_effective_config}
use user_service_platform.Identity.Policy.{resolve_auth_policy, resolve_auth_secret}
use user_service_platform.Identity.Session.{to_session_context}
use user_service_platform.Identity.Mailer.{resolve_auth_mailer}
use user_service_platform.Identity.Origins.{
  resolve_gateway_origins, evaluate_cookie_mutation_origin,
}
use user_service_platform.Http.Router.{handle}
use user_service_platform.Http.Router.Accounts
use user_service_platform.Http.Router.Tokens
use user_service_platform.Http.Router.{consumer_token}
use user_service_platform.Identity.Tokens.{resolve_consumer_token_config}
use user_service_platform.Http.Scope.{scoped_token_auth}
use user_service_platform.Http.Router.Admin
use user_service_platform.Http.Scope.{
  resolve_session_context, scoped_auth, guard_cookie_mutation, session_of,
}
use user_service_platform.Text.{starts_with}
use user_service_platform.Config.Profiles.{production}
use user_service_platform.Config.{overlay, normalize_environment_name}
use user_service_platform.Identity.Policy.{needs_secret, dev_auth_secret}
use user_service_platform.Identity.Session.{AuthenticatedUser, to_authenticated_user}
use user_service_platform.Http.{user_body, status_ok}
use user_service_platform.Http.Scope.{scoped_base}
use user_service_platform.Http.Router.Accounts.{json}
use user_service_platform.Http.Router.Admin.{pattern_of, engine_duplicate_email}
use user_service_platform.Http.Responses.{IsConformant}
use user_service_platform.Http.Responses.Laws.{handle-IsConformant}
use user_service_platform.Http.Responding.{IsAnswered, IsConfigured}
use user_service_platform.Http.Reached.{served-IsConfigured}
use user_service_platform.Http.Boundary.{
  World, IsOf, IsServed, served, on_error, served-IsConformant,
}
use user_service_platform.Http.Guarded.{HasOrigin, sign_in, handle-HasOrigin}
use user_service_platform.Http.Enumeration.{password_reset, handle-SameAnswer}
use user_service_platform.Http.Listing.{any_run, literal, read_like, to_list, read-pattern_of}
use user_service_platform.Http.Secret.{scoped_base-fallback}
use user_service_platform.Http.Assets.{Asset, streamed, asset_path, slice, serve_admin_asset}
use user_service_platform.Http.Monitor.{Steps, Event, stop, next}
use user_service_platform.Http.Permissions.{
  MayRead, IsUnclaimed, one_user, creation, handle-IsPermitted, handle-IsUnclaimed,
}

abbrev no_url : Text → Option Url
no_url _ = none

abbrev platform : Platform
platform = record {
  lower = ascii_lower;
  parse_url = no_url;
  Provided = Unit;
  override = none;
  decoder = record {
    atob = λ s. some s;
    parse_json = λ s. none;
    imports = λ key. false;
    authentic = λ key bytes s. false;
  };
}

abbrev local : Request
local = record {
  env = λ name. none;
  origin_of_url = codes "http://localhost:8787";
  pathname = codes "/v1/admin/users";
  origin = none;
  sec_fetch_site = none;
  engine_builds = true;
}

abbrev ada_user : AuthenticatedUser
ada_user = record { id = codes "u1"; email = codes "ada@example.com"; email_verified = true }

abbrev ada : Json
ada = obj (
    member (codes "user")
      (obj (
        member (codes "id") (str (codes "u1")) (
          member (codes "email") (str (codes "ada@example.com"))
            (member (codes "emailVerified") (bool true) end))))
      end)

abbrev granted : Json
granted = obj (member (codes "success") (bool true) end)

abbrev session_event : Event
session_event = record { call = get_session; reply = returned ada }

abbrev permission_event : Event
permission_event = record { call = user_has_permission (codes "u1"); reply = returned granted }

handle-IsPermitted_example :
    MayRead
      (admin_users 10 0 none)
      (session_event ∷ permission_event ∷ [])
      (select_user (codes "u1"))
unfolding handle Admin.admin_users Admin.as_admin resolve_session_context resolve_effective_config
    text_eq ascii_lower trim as_text codes profile_of resolve_auth_policy resolve_auth_secret
    session_of to_session_context get as_bool scoped_auth Admin.resolve_admin_identity
    Admin.is_granted resolve_auth_mailer
handle-IsPermitted_example =
    handle-IsPermitted platform local (admin_users 10 0 none)
      (session_event ∷ permission_event ∷ []) (select_user (codes "u1")) _
      (next get_session _ (returned ada)
        (next (user_has_permission (codes "u1")) _ (returned granted) (stop _)))
      (one_user (codes "u1"))

handle-IsUnclaimed_example : IsUnclaimed (record { call = select_admin; reply = returned [] } ∷ [])
unfolding handle Admin.admin_bootstrap Admin.bootstrap_admin_user scoped_auth
    resolve_effective_config text_eq ascii_lower trim as_text codes profile_of resolve_auth_policy
    resolve_auth_secret resolve_auth_mailer
handle-IsUnclaimed_example =
    handle-IsUnclaimed platform local
      (admin_bootstrap (codes "Ada") (codes "a@b.c") (codes "secret12")) _
      (create_user (codes "Ada") (codes "a@b.c") (codes "secret12")) _
      (next select_admin _ (returned []) (stop _))
      (creation (codes "Ada") (codes "a@b.c") (codes "secret12"))

abbrev logged_in : Response
logged_in = record {
  status = 200;
  body = user_body ada_user;
  cache_control = none;
  cookies = codes "session=1" ∷ [];
}

-- A request of a page of the service itself.
abbrev browser : Request
browser = record local {
  origin = some (codes "http://localhost:8787");
  sec_fetch_site = some (codes "same-origin");
}

abbrev sign_in_event : Event
sign_in_event = record {
  call = sign_in_email (codes "ada@example.com") (codes "secret12");
  reply = returned (record { status = 200; body = some ada; cookies = codes "session=1" ∷ [] });
}

handle-IsConformant_example :
    IsConformant browser (login (codes "ada@example.com") (codes "secret12")) logged_in
unfolding handle Accounts.login guard_cookie_mutation resolve_gateway_origins
    evaluate_cookie_mutation_origin split_on scoped_auth resolve_effective_config text_eq
    ascii_lower trim as_text codes profile_of resolve_auth_policy resolve_auth_secret
    resolve_auth_mailer to_authenticated_user get as_bool
handle-IsConformant_example =
    handle-IsConformant platform browser (login (codes "ada@example.com") (codes "secret12"))
      (sign_in_event ∷ []) logged_in (next _ _ _ (stop _))

handle-HasOrigin_example : HasOrigin platform browser
unfolding handle Accounts.login guard_cookie_mutation resolve_gateway_origins
    evaluate_cookie_mutation_origin split_on scoped_auth resolve_effective_config text_eq
    ascii_lower trim as_text codes profile_of resolve_auth_policy resolve_auth_secret
    resolve_auth_mailer
handle-HasOrigin_example =
    handle-HasOrigin platform browser (sign_in (codes "ada@example.com") (codes "secret12")) []
      (sign_in_email (codes "ada@example.com") (codes "secret12")) _ (stop _)

-- Every call fails.
abbrev outage : World
outage past call = raised (record { status_code = none; code = none })

served-IsConformant_example :
    (events : List Event) × (last : Run) × (Steps
      (handle platform browser current_user)
      events
      last)
    × IsOf outage [] events
    × (length events ≤ 5)
    × IsServed browser current_user (served outage [] (handle platform browser current_user)) last
served-IsConformant_example = served-IsConformant platform browser current_user outage

-- Nobody is signed in, another bootstrap makes the administrator first, and every other call of the
-- engine fails.
abbrev racing : World
racing past get_session = returned null
racing past (user_has_permission user_id) = returned null
racing past (select_user user_id) = returned []
racing past (select_users limit offset pattern) = returned []
racing past (count_users pattern) = returned []
racing [] select_admin = returned []
racing (event ∷ events) select_admin = returned (codes "u1" ∷ [])
racing past (create_user name email password) =
    raised (record { status_code = none; code = some engine_duplicate_email })
racing past call = raised (record { status_code = none; code = none })

racing-IsAnswered : (past : List Event) (call : Call) → IsAnswered call (racing past call)
unfolding text_eq codes
racing-IsAnswered [] select_admin = tt
racing-IsAnswered (event ∷ events) select_admin = tt
racing-IsAnswered past (create_user name email password) = refl
racing-IsAnswered past call = tt

local-IsConfigured : IsConfigured platform browser
unfolding scoped_auth resolve_effective_config text_eq ascii_lower trim as_text codes profile_of
    resolve_auth_policy resolve_auth_secret resolve_auth_mailer
local-IsConfigured = record {
  base = _;
  lazy_base = _;
  secret = _;
  resolves = refl;
  resolves_lazily = refl;
  has_secret = refl;
  builds = refl;
}

abbrev first_admin : Operation
first_admin = admin_bootstrap (codes "Ada") (codes "a@b.c") (codes "secret12")

served-IsConfigured_example :
    IsConformant browser first_admin (served racing [] (handle platform browser first_admin))
served-IsConfigured_example =
    served-IsConfigured platform browser first_admin racing local-IsConfigured racing-IsAnswered

-- The second reading finds the administrator that the first did not.
racing_test :
    served racing [] (handle platform browser first_admin)
    ≡ Admin.bootstrap_response browser Admin.already_bootstrapped
unfolding served handle Admin.admin_bootstrap Admin.bootstrap_admin_user scoped_auth
    resolve_effective_config text_eq ascii_lower trim as_text codes profile_of resolve_auth_policy
    resolve_auth_secret resolve_auth_mailer
racing_test = refl

outage_test : served outage [] (handle platform browser current_user) ≡ on_error
unfolding served handle Accounts.current_user resolve_session_context resolve_effective_config
    text_eq ascii_lower trim as_text codes profile_of resolve_auth_policy resolve_auth_secret
outage_test = refl

-- The error boundary answers an issuance without the cache control of its route.
issuance_outage_test : served outage [] (handle platform browser consumer_token) ≡ on_error
unfolding served handle Tokens.consumer_token guard_cookie_mutation resolve_gateway_origins
    evaluate_cookie_mutation_origin split_on scoped_token_auth resolve_consumer_token_config
    resolve_session_context resolve_effective_config text_eq ascii_lower trim as_text codes
    profile_of resolve_auth_policy resolve_auth_secret resolve_auth_mailer
issuance_outage_test = refl

abbrev reset_event : Text → ℕ → Event
reset_event email status = record {
  call = request_password_reset_for email;
  reply = returned (record { status = status; body = none; cookies = [] });
}

-- A known address, and one that the engine does not find.
handle-SameAnswer_example : json 202 status_ok ≡ json 202 status_ok
unfolding handle Accounts.request_password_reset scoped_auth resolve_effective_config text_eq
    ascii_lower trim as_text codes profile_of resolve_auth_policy resolve_auth_secret
    resolve_auth_mailer
handle-SameAnswer_example =
    handle-SameAnswer platform browser password_reset (codes "ada@example.com")
      (codes "bob@example.com") (reset_event (codes "ada@example.com") 200 ∷ [])
      (reset_event (codes "bob@example.com") 404 ∷ []) (json 202 status_ok) (json 202 status_ok)
      (next _ _ _ (stop _)) (next _ _ _ (stop _)) (refl, tt) (refl, tt)

read-pattern_of_example :
    map (read_like false) (to_list (pattern_of ascii_lower (some (codes "A_b%"))))
    ≡ some (any_run ∷ map literal (ascii_lower (codes "A_b%")) ++ any_run ∷ []) ∷ []
read-pattern_of_example = read-pattern_of ascii_lower (codes "A_b%")

pattern_test : pattern_of ascii_lower (some (codes "A_b%")) ≡ some (codes "%a\\_b\\%%")
unfolding pattern_of Admin.escape_like_literal Admin.escape_unit ascii_lower codes
pattern_test = refl

-- The environment is production, as the configuration reads it, and no secret is set.
abbrev careless : Request
careless = record local {
  env = λ name.
      if text_eq name (codes "ENVIRONMENT") then some (str (codes " Production ")) else none;
}

abbrev careless_base : Base platform
careless_base = record {
  effective = record {
    environment = production;
    config = overlay (profile_of production) careless.env;
  };
  policy = record {
    registration_enabled = true;
    email_password_enabled = true;
    require_email_verification = true;
  };
  secret = dev_auth_secret;
}

scoped_test : scoped_base platform false careless ≡ ok careless_base
unfolding scoped_base resolve_effective_config overlay text_eq ascii_lower trim as_text codes
    profile_of resolve_auth_policy resolve_auth_secret
scoped_test = refl

name_test : as_text (careless.env (codes "ENVIRONMENT")) ≡ some (codes " Production ")
unfolding as_text text_eq codes
name_test = refl

secret_test : as_text (careless.env (codes "BETTER_AUTH_SECRET")) ≡ none
unfolding as_text text_eq codes
secret_test = refl

unneeded_test : needs_secret (codes " Production ") ≡ false
unfolding text_eq codes
unneeded_test = refl

scoped_base-fallback_example :
    (dev_auth_secret ≡ dev_auth_secret)
    × (normalize_environment_name ascii_lower (some (codes " Production ")) ≡ ok production)
scoped_base-fallback_example =
    scoped_base-fallback platform false careless careless_base (codes " Production ") scoped_test
      name_test secret_test unneeded_test

abbrev binding : Text → Asset
binding path =
    if text_eq path (codes "/index.html")
    then record { status = 200; content = codes "<html>" }
    else record { status = 404; content = [] }

entry_test :
    serve_admin_asset (some binding) (codes "/admin/sign-in") (codes "/admin/sign-in")
    ≡ streamed (record { status = 200; content = codes "<html>" })
unfolding serve_admin_asset asset_path slice text_eq codes starts_with
entry_test = refl
