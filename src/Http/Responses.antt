-- ===== src/Http/Responses.antt =====
-- What each operation of the Identity router responds, against the contract of route.ts: the success
-- status and body, the problem details, the cache control and the cookies.
pub mod Accounts
pub mod Tokens
pub mod Laws
use mathlib.Core.Option.{some-injective, none-ne-some}
use user_service_platform.Prelude.{
  ℕ, Bool, true, false, List, [], ◌++◌, Option, none, some, Result, ok, err, leb, if◌then◌else◌,
  ◌≡◌, refl, subst,
}
use user_service_platform.Text.{Text, codes}
use user_service_platform.Identity.Session.{AuthenticatedUser}
use user_service_platform.Identity.Origins.{evaluate_cookie_mutation_origin}
use user_service_platform.Http.{
  forbidden, code_name, Problem, Body, problem_body, user_body, status_ok, email_verified_body,
  token_body, keys_body, admin_body, users_body, Response,
}
use user_service_platform.Http.Scope.{
  Request, Platform, ScopeError, problem, internal, gateway_origins_of, origin_input, guard_with,
  forbidden_origin, guard_cookie_mutation,
}
use user_service_platform.Http.Router.{
  Operation, register, login, reset_password, verify_email, request_verification,
  request_password_reset, current_user, sign_out, consumer_token, consumer_jwks, admin_me,
  admin_users, admin_user_detail, admin_bootstrap,
}
use user_service_platform.Http.Router.Accounts.{user_or_internal}
use user_service_platform.Http.Router.Tokens.{private_no_store, no_store, public_max_age}

-- The status and the body that route.ts declares for the success of each operation.
abbrev pub IsSuccess : Operation → ℕ → Body → Type 0
IsSuccess (register _ _ _) status (user_body _) = status ≡ 201
IsSuccess (login _ _) status (user_body _) = status ≡ 200
IsSuccess (reset_password _ _) status status_ok = status ≡ 200
IsSuccess (verify_email _) status email_verified_body = status ≡ 200
IsSuccess (request_verification _) status status_ok = status ≡ 202
IsSuccess (request_password_reset _) status status_ok = status ≡ 202
IsSuccess current_user status (user_body _) = status ≡ 200
IsSuccess sign_out status status_ok = status ≡ 200
IsSuccess consumer_token status (token_body _ _) = status ≡ 200
IsSuccess consumer_jwks status (keys_body _) = status ≡ 200
IsSuccess admin_me status (admin_body _) = status ≡ 200
IsSuccess (admin_users _ _ _) status (users_body _ _) = status ≡ 200
IsSuccess (admin_user_detail _) status (admin_body _) = status ≡ 200
IsSuccess (admin_bootstrap _ _ _) status (admin_body _) = status ≡ 201
IsSuccess _ status _ = ⊥

-- Problem details that agree with the response that carries them and with the request.
abbrev pub IsProblemOf : Request → ℕ → Problem → Type 0
IsProblemOf c status details =
    (details.status ≡ status)
    × (leb 400 status ≡ true)
    × (details.kind ≡ codes "urn:problem:" ++ code_name details.code)
    × (details.instance_path ≡ some c.pathname)

abbrev pub IsDeclared : Request → Operation → ℕ → Body → Type 0
IsDeclared c op status (problem_body details) = IsProblemOf c status details
IsDeclared c op status body = IsSuccess op status body

-- Tokens are never stored by a cache, keys only where the response carries them.
abbrev pub IsCached : Operation → Body → Option Text → Type 0
IsCached consumer_token body cache_control = cache_control ≡ some private_no_store
IsCached consumer_jwks (keys_body _) cache_control = cache_control ≡ some public_max_age
IsCached consumer_jwks _ cache_control = cache_control ≡ some no_store
IsCached _ body cache_control = cache_control ≡ none

-- Only the success of a sign-in and a sign-out pass the cookies of the engine on.
abbrev pub HasCookies : Operation → Body → List Text → Type 0
HasCookies (login _ _) (user_body _) cookies = Unit
HasCookies sign_out body cookies = Unit
HasCookies _ _ cookies = cookies ≡ []

abbrev pub IsConformant : Request → Operation → Response → Type 0
IsConformant c op response =
    IsDeclared c op response.status response.body
    × IsCached op response.body response.cache_control
    × HasCookies op response.body response.cookies

module _ (P : Response → Type 0) where
  pub either_way :
      (b : Bool) (one other : Response) → P one → P other → P (if b then one else other)
  either_way true one other h k = h
  either_way false one other h k = k

  pub found_or_not :
      (c : Request) (f : AuthenticatedUser → Response) (user : Option AuthenticatedUser)
      → P (internal c none)
      → ((found : AuthenticatedUser) → P (f found))
      → P (user_or_internal c f user)
  found_or_not c f none h k = h
  found_or_not c f (some user) h k = k user

  rejected_unless :
      (b : Bool) (one response : Response)
      → (if b then none else some one) ≡ some response
      → P one
      → P response
  rejected_unless true one response e h = absurd (none-ne-some response e)
  rejected_unless false one response e h = subst P (some-injective one response e) h

  rejected_with :
      (p : Platform) (c : Request) (cache_control : Option Text)
      (gateways : Result ScopeError (List Text))
      → P (internal c cache_control)
      → P (forbidden_origin c cache_control)
      → (response : Response) → guard_with p c cache_control gateways ≡ some response
      → P response
  rejected_with p c cache_control (err thrown) h k response e =
      subst P (some-injective _ response e) h
  rejected_with p c cache_control (ok gateways) h k response e =
      rejected_unless (evaluate_cookie_mutation_origin p.lower (origin_input p c gateways)) _
        response e k

  -- A rejection of the origin guard is one of two problems.
  pub rejected_by :
      (p : Platform) (c : Request) (cache_control : Option Text)
      → P (internal c cache_control)
      → P (forbidden_origin c cache_control)
      → (response : Response) → guard_cookie_mutation p c cache_control ≡ some response
      → P response
  unfolding guard_cookie_mutation
  rejected_by p c cache_control = rejected_with p c cache_control (gateway_origins_of p c)
