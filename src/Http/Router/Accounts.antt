-- ===== src/Http/Router/Accounts.antt =====
-- The account routes of router.ts: registration, sign-in, e-mail verification, password reset, the
-- current user and sign-out.
use user_service_platform.Prelude.{
  ℕ, Bool, true, false, ◌&&◌, List, [], Option, none, some, get_or, leb, ◌==◌, if◌then◌else◌,
}
use user_service_platform.Text.{Text, codes, text_eq}
use user_service_platform.Json.{Json, null}
use user_service_platform.Identity.Policy.{AuthPolicy}
use user_service_platform.Identity.Session.{
  AuthenticatedUser, SessionContext, to_authenticated_user,
}
use user_service_platform.Http.{
  bad_request, email_password_disabled, registration_disabled, email_verification_required,
  invalid_credentials, verification_invalid, reset_invalid, unauthenticated, Body, user_body,
  status_ok, email_verified_body, Response, EngineResponse, is_ok, sign_up_email, sign_in_email,
  reset_password_with, verify_email_with, send_verification_email, request_password_reset_for,
  sign_out_session, Reply, Run, responds, awaits,
}
use user_service_platform.Http.Scope.{
  Request, Platform, Outcome, responded, failed, outcome_of, code_of_body, problem, internal,
  scoped_auth, guard_cookie_mutation, unless_rejected, with_scope, resolve_session_context,
}

-- `c.json(body, status)`.
abbrev pub json : ℕ → Body → Response
json status body = record { status = status; body = body; cache_control = none; cookies = [] }

-- `forwardSessionCookies` before the response is made.
abbrev pub forwarding : List Text → Response → Response
forwarding cookies response = record response { cookies = cookies }

abbrev pub malformed : Request → Response
malformed c = problem c 400 bad_request (codes "Bad Request") none none

abbrev pub unauthenticated_problem : Request → Option Text → Response
unauthenticated_problem c cache_control =
    problem c 401 unauthenticated (codes "Unauthenticated") none cache_control

abbrev pub password_disabled : Request → Response
password_disabled c =
    problem c 403 email_password_disabled (codes "Email authentication is disabled") none none

-- `await outcome.json().catch(() => null)`.
abbrev pub json_of : EngineResponse → Json
json_of outcome = get_or outcome.body null

abbrev pub user_or_internal :
    Request → (AuthenticatedUser → Response) → Option AuthenticatedUser → Response
user_or_internal c f none = internal c none
user_or_internal c f (some user) = f user

abbrev pub registered : Request → Outcome → Response
registered c (failed status code) = internal c none
registered c (responded outcome) =
    if is_ok outcome
    then user_or_internal c (λ user. json 201 (user_body user))
        (to_authenticated_user (json_of outcome))
    else malformed c

abbrev pub is_unverified : EngineResponse → Bool
is_unverified outcome = outcome.status == 403 && elim (code_of_body outcome.body) [
  | none ↦ false
  | some code ↦ text_eq code (codes "EMAIL_NOT_VERIFIED")
]

abbrev pub logged_in : Request → Outcome → Response
logged_in c (failed status code) = internal c none
logged_in c (responded outcome) =
    if is_ok outcome
    then user_or_internal c (λ user. forwarding outcome.cookies (json 200 (user_body user)))
        (to_authenticated_user (json_of outcome))
    else if is_unverified outcome
    then problem c 403 email_verification_required (codes "Email verification required")
        (some (codes "Verify the email address before signing in.")) none
    else if outcome.status == 401
    then problem c 401 invalid_credentials (codes "Invalid credentials") none none
    else malformed c

abbrev pub verified : Request → Outcome → Response
verified c (failed status code) = internal c none
verified c (responded outcome) =
    if is_ok outcome
    then json 200 email_verified_body
    else problem c 400 verification_invalid (codes "Invalid or expired verification")
        (some (codes "The verification action is invalid or has expired.")) none

abbrev pub is_mismatch : EngineResponse → Bool
is_mismatch outcome = elim (code_of_body outcome.body) [
  | none ↦ false
  | some code ↦ text_eq code (codes "EMAIL_MISMATCH")
]

abbrev pub verification_requested : Request → Outcome → Response
verification_requested c (failed status code) = internal c none
verification_requested c (responded outcome) =
    if is_ok outcome
    then json 202 status_ok
    else if is_mismatch outcome
    then malformed c
    else if leb 500 outcome.status
    then internal c none
    else json 202 status_ok

abbrev pub reset_requested : Request → Outcome → Response
reset_requested c (failed status code) = internal c none
reset_requested c (responded outcome) =
    if is_ok outcome
    then json 202 status_ok
    else if leb 500 outcome.status
    then internal c none
    else json 202 status_ok

abbrev pub password_reset : Request → Outcome → Response
password_reset c (failed status code) = internal c none
password_reset c (responded outcome) =
    if is_ok outcome
    then json 200 status_ok
    else if leb 500 outcome.status
    then internal c none
    else problem c 400 reset_invalid (codes "Invalid or expired password reset")
        (some (codes "The password-reset action is invalid or has expired.")) none

abbrev pub signed_out : Request → Outcome → Response
signed_out c (failed status code) = if leb 500 status then internal c none else json 200 status_ok
signed_out c (responded outcome) = forwarding outcome.cookies (
    if is_ok outcome
    then json 200 status_ok
    else if leb 500 outcome.status
    then internal c none
    else json 200 status_ok)

abbrev pub me_of : Request → Option SessionContext → Run
me_of c none = responds (unauthenticated_problem c none)
me_of c (some session) = responds (json 200 (user_body session.user))

-- `callEngine`, whose outcome decides the response.
abbrev pub call_engine : (Outcome → Response) → Reply EngineResponse → Run
call_engine f reply = responds (f (outcome_of reply))

-- `if (!policy.emailPasswordEnabled)`.
abbrev pub if_enabled : Request → AuthPolicy → Run → Run
if_enabled c policy run =
    if policy.email_password_enabled then run else responds (password_disabled c)

module _ (p : Platform) (c : Request) where
  unfoldable pub register : Text → Text → Text → Run
  register name email password = unless_rejected (guard_cookie_mutation p c none) (
      with_scope (scoped_auth p true c) (λ base. if_enabled c base.policy (
        if base.policy.registration_enabled
        then awaits (sign_up_email name email password) (call_engine (registered c))
        else responds
            (problem c 403 registration_disabled (codes "Registration is disabled") none none))))

  unfoldable pub login : Text → Text → Run
  login email password = unless_rejected (guard_cookie_mutation p c none) (
      with_scope (scoped_auth p true c) (λ base.
        if_enabled c base.policy
          (awaits (sign_in_email email password) (call_engine (logged_in c)))))

  unfoldable pub verify_email : Text → Run
  verify_email token =
      with_scope (scoped_auth p true c)
        (λ base. awaits (verify_email_with token) (call_engine (verified c)))

  unfoldable pub request_verification : Text → Run
  request_verification email = with_scope (scoped_auth p true c) (λ base.
      if_enabled c base.policy
        (awaits (send_verification_email email) (call_engine (verification_requested c))))

  unfoldable pub request_password_reset : Text → Run
  request_password_reset email = with_scope (scoped_auth p true c) (λ base.
      if_enabled c base.policy
        (awaits (request_password_reset_for email) (call_engine (reset_requested c))))

  unfoldable pub reset_password : Text → Text → Run
  reset_password new_password token = with_scope (scoped_auth p true c) (λ base.
      if_enabled c base.policy
        (awaits (reset_password_with new_password token) (call_engine (password_reset c))))

  unfoldable pub current_user : Run
  current_user = resolve_session_context p c (me_of c)

  unfoldable pub sign_out : Run
  sign_out = unless_rejected (guard_cookie_mutation p c none) (
      with_scope (scoped_auth p true c)
        (λ base. awaits sign_out_session (call_engine (signed_out c))))
