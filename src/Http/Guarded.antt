-- ===== src/Http/Guarded.antt =====
-- The operations of router.ts that change what the session cookie stands for, behind the origin guard.
use mathlib.Core.Option.{none-ne-some}
use user_service_platform.Prelude.{
  Bool, true, false, List, [], Option, none, some, Result, ok, err, if◌then◌else◌, ◌≡◌, refl, sym,
}
use user_service_platform.Text.{Text}
use user_service_platform.Identity.Origins.{presented, evaluate_cookie_mutation_origin}
use user_service_platform.Identity.Origins.Laws.{IsAcceptable, evaluate_cookie_mutation_origin_iff}
use user_service_platform.Http.{Response, Call, Answer, Reply, Run, awaits}
use user_service_platform.Http.Scope.{
  Request, Platform, ScopeError, gateway_origins_of, origin_input, forbidden_origin, guard_with,
  guard_cookie_mutation, scoped_auth,
}
use user_service_platform.Http.Router.{Operation, register, login, sign_out, consumer_token, handle}
use user_service_platform.Http.Router.Accounts
use user_service_platform.Http.Router.Tokens.{private_no_store}
use user_service_platform.Http.Monitor
use user_service_platform.Http.Monitor.Handlers

pub data IsCookieMutation : Operation → Type 0 where
  registration : (name email password : Text) → IsCookieMutation (register name email password)
  sign_in : (email password : Text) → IsCookieMutation (login email password)
  ending : IsCookieMutation sign_out
  issuance : IsCookieMutation consumer_token

module _ (p : Platform) (c : Request) where
  -- The gateway setting resolves, and the headers of the request are acceptable with it.
  abbrev pub HasOrigin : Type 0
  HasOrigin =
      (gateways : List Text) × (gateway_origins_of p c ≡ ok gateways)
      × IsAcceptable p.lower c.origin_of_url gateways (presented c.origin)
          (presented c.sec_fetch_site)

  unless_forbidden :
      (cache_control : Option Text) (b : Bool)
      → (if b then none else some (forbidden_origin c cache_control)) ≡ none
      → b ≡ true
  unless_forbidden cache_control true e = refl
  unless_forbidden cache_control false e = absurd (none-ne-some _ (sym e))

  accepted :
      (cache_control : Option Text) (found : Result ScopeError (List Text))
      → guard_with p c cache_control found ≡ none
      → (gateways : List Text) × (found ≡ ok gateways)
        × (evaluate_cookie_mutation_origin p.lower (origin_input p c gateways) ≡ true)
  accepted cache_control (err e) h = absurd (none-ne-some _ (sym h))
  accepted cache_control (ok gateways) h = (gateways, refl, unless_forbidden cache_control _ h)

  guard-HasOrigin :
      (cache_control : Option Text) → guard_cookie_mutation p c cache_control ≡ none → HasOrigin
  unfolding guard_cookie_mutation
  guard-HasOrigin cache_control h =
      let (gateways, e, allowed) = accepted cache_control (gateway_origins_of p c) h in
      (
        gateways,
        e,
        (evaluate_cookie_mutation_origin_iff p.lower (origin_input p c gateways)).0 allowed,
      )

  abbrev Allowing : List Monitor.Event → Call → Type 0
  Allowing _ _ = HasOrigin

  abbrev Accepting : List Monitor.Event → Response → Type 0
  Accepting _ _ = Unit

  abbrev monitor : Monitor.Monitor
  monitor = Monitor.history Allowing Accepting

  Safe-handle : {op : Operation} → IsCookieMutation op → Monitor.Safe monitor [] (handle p c op)
  unfolding handle Accounts.register Accounts.login Accounts.sign_out
  Safe-handle (registration name email password) =
      Monitor.Safe-guarded monitor p c [] none _ (λ _ _. tt)
        (λ free. Monitor.Safe-enabled monitor p c [] _ tt (λ base _ _.
          Monitor.Safe-if monitor [] base.policy.registration_enabled _ _
            (λ _. (guard-HasOrigin none free, λ _. tt)) (λ _. tt)))
  Safe-handle (sign_in email password) =
      Monitor.Safe-guarded monitor p c [] none _ (λ _ _. tt)
        (λ free.
          Monitor.Safe-enabled monitor p c [] _ tt (λ _ _ _. (guard-HasOrigin none free, λ _. tt)))
  Safe-handle ending =
      Monitor.Safe-guarded monitor p c [] none _ (λ _ _. tt)
        (λ free.
          Monitor.Safe-with_scope monitor [] (scoped_auth p true c) _
            (λ _ _. (guard-HasOrigin none free, λ _. tt)))
  Safe-handle issuance =
      Handlers.Safe-consumer_token monitor p c [] (λ _ _. tt) tt
        (λ free. guard-HasOrigin (some private_no_store) free) (λ _. tt)
        (λ _ free. guard-HasOrigin (some private_no_store) free) (λ _ _. tt)

-- A registration, a sign-in, a sign-out or an issuance of a token makes a call only if the gateway
-- setting resolves and the request's origin and fetch site are acceptable with it.
pub handle-HasOrigin :
    (p : Platform) (c : Request) {op : Operation} (mutation : IsCookieMutation op)
    (events : List Monitor.Event) (call : Call) (rest : Reply (Answer call) → Run)
    → Monitor.Steps (handle p c op) events (awaits call rest)
    → HasOrigin p c
handle-HasOrigin p c mutation events call rest steps =
    (Monitor.Safe-history (Allowing p c) (Accepting p c) steps (Safe-handle p c mutation)).0
