-- ===== src/Http/Responses/Laws.antt =====
-- Every run of every handler responds as its contract says.
use user_service_platform.Prelude.{true, List, [], none, some, refl}
use user_service_platform.Http.{create_problem, Response, Call, Run, responds}
use user_service_platform.Http.Scope.{
  Request, Platform, outcome_of, problem, scoped_auth, scoped_token_auth,
}
use user_service_platform.Http.Router.{
  Operation, register, login, reset_password, verify_email, request_verification,
  request_password_reset, current_user, sign_out, consumer_token, consumer_jwks, admin_me,
  admin_users, admin_user_detail, admin_bootstrap, handle,
}
use user_service_platform.Http.Router.Accounts
use user_service_platform.Http.Router.Accounts.{me_of}
use user_service_platform.Http.Router.Tokens
use user_service_platform.Http.Router.Tokens.{private_no_store}
use user_service_platform.Http.Router.Admin
use user_service_platform.Http.Router.Admin.{
  Bootstrap, created, already_bootstrapped, email_conflict, first_user, to_admin_user, is_granted,
  if_admin, for_session, as_admin, detail_of, bootstrap_response, resolve_admin_identity,
  list_admin_users, get_admin_user_by_id,
}
use user_service_platform.Http.Monitor
use user_service_platform.Http.Monitor.Handlers
use user_service_platform.Http.Responses.{IsConformant, rejected_by}
use user_service_platform.Http.Responses.Accounts.{
  registered-IsConformant, logged_in-IsConformant, verified-IsConformant,
  verification_requested-IsConformant, reset_requested-IsConformant, password_reset-IsConformant,
  signed_out-IsConformant,
}
use user_service_platform.Http.Responses.Tokens.{issued-IsConformant, published-IsConformant}

module _ (c : Request) (op : Operation) where
  abbrev Allowing : List Monitor.Event → Call → Type 0
  Allowing _ _ = Unit

  abbrev Accepting : List Monitor.Event → Response → Type 0
  Accepting _ response = IsConformant c op response

  abbrev monitor : Monitor.Monitor
  monitor = Monitor.history Allowing Accepting

  abbrev Good : List Monitor.Event → Run → Type 0
  Good events run = Monitor.Safe monitor events run

-- Every handler.
Good-handle : (p : Platform) (c : Request) (op : Operation) → Good c op [] (handle p c op)
unfolding handle Accounts.register Accounts.login Accounts.reset_password Accounts.verify_email
    Accounts.request_verification Accounts.request_password_reset Accounts.current_user
    Accounts.sign_out Tokens.consumer_jwks Admin.admin_me Admin.admin_users Admin.admin_user_detail
    Admin.admin_bootstrap problem create_problem
Good-handle p c (register name email password) =
    let m = monitor c (register name email password) in
    Monitor.Safe-guarded m p c [] none _
      (rejected_by (IsConformant c (register name email password)) p c none
        ((refl, refl, refl, refl), refl, refl) ((refl, refl, refl, refl), refl, refl))
      (λ _.
        Monitor.Safe-enabled m p c [] _ ((refl, refl, refl, refl), refl, refl)
          (λ base _ _.
            Monitor.Safe-if m [] base.policy.registration_enabled _ _
              (λ _. (tt, λ reply. registered-IsConformant c name email password (outcome_of reply)))
              (λ _. ((refl, refl, refl, refl), refl, refl))))
Good-handle p c (login email password) =
    let m = monitor c (login email password) in
    Monitor.Safe-guarded m p c [] none _
      (rejected_by (IsConformant c (login email password)) p c none
        ((refl, refl, refl, refl), refl, refl) ((refl, refl, refl, refl), refl, refl))
      (λ _.
        Monitor.Safe-enabled m p c [] _ ((refl, refl, refl, refl), refl, refl)
          (λ _ _ _. (tt, λ reply. logged_in-IsConformant c email password (outcome_of reply))))
Good-handle p c (reset_password new_password token) =
    Monitor.Safe-enabled (monitor c (reset_password new_password token)) p c [] _
      ((refl, refl, refl, refl), refl, refl)
      (λ _ _ _. (tt, λ reply. password_reset-IsConformant c new_password token (outcome_of reply)))
Good-handle p c (verify_email token) =
    Monitor.Safe-with_scope (monitor c (verify_email token)) [] (scoped_auth p true c) _
      (λ _ _. (tt, λ reply. verified-IsConformant c token (outcome_of reply)))
Good-handle p c (request_verification email) =
    Monitor.Safe-enabled (monitor c (request_verification email)) p c [] _
      ((refl, refl, refl, refl), refl, refl)
      (λ _ _ _. (tt, λ reply. verification_requested-IsConformant c email (outcome_of reply)))
Good-handle p c (request_password_reset email) =
    Monitor.Safe-enabled (monitor c (request_password_reset email)) p c [] _
      ((refl, refl, refl, refl), refl, refl)
      (λ _ _ _. (tt, λ reply. reset_requested-IsConformant c email (outcome_of reply)))
Good-handle p c current_user =
    Monitor.Safe-resolve_session_context (monitor c current_user) p c [] (me_of c) tt
      (λ _. ((refl, refl, refl, refl), refl, refl)) (λ _ _ _. (refl, refl, refl))
Good-handle p c sign_out =
    Monitor.Safe-guarded (monitor c sign_out) p c [] none _
      (rejected_by (IsConformant c sign_out) p c none ((refl, refl, refl, refl), refl, tt)
        ((refl, refl, refl, refl), refl, tt))
      (λ _.
        Monitor.Safe-with_scope (monitor c sign_out) [] (scoped_auth p true c) _
          (λ _ _. (tt, λ reply. signed_out-IsConformant c (outcome_of reply))))
Good-handle p c consumer_token =
    Handlers.Safe-consumer_token (monitor c consumer_token) p c []
      (rejected_by (IsConformant c consumer_token) p c (some private_no_store)
        ((refl, refl, refl, refl), refl, refl) ((refl, refl, refl, refl), refl, refl))
      ((refl, refl, refl, refl), refl, refl) (λ _. tt) (λ _. ((refl, refl, refl, refl), refl, refl))
      (λ _ _. tt) (λ _ outcome. issued-IsConformant p c outcome)
Good-handle p c consumer_jwks =
    Handlers.Safe-with_token_auth (monitor c consumer_jwks) [] _ (scoped_token_auth p c) _
      ((refl, refl, refl, refl), refl, refl)
      (tt, λ reply. published-IsConformant p c (outcome_of reply))
Good-handle p c admin_me =
    Handlers.Safe-as_admin (monitor c admin_me) p c [] _ tt
      (λ _. ((refl, refl, refl, refl), refl, refl)) (λ _. ((refl, refl, refl, refl), refl, refl))
      (λ _ _. tt) (λ _ _ _ _ _. (tt, λ _ _. (refl, refl, refl)))
Good-handle p c (admin_users limit offset email) =
    let m = monitor c (admin_users limit offset email) in
    Handlers.Safe-as_admin m p c [] _ tt (λ _. ((refl, refl, refl, refl), refl, refl))
      (λ _. ((refl, refl, refl, refl), refl, refl)) (λ _ _. tt)
      (λ _ _ _ _ _. (
        tt,
        λ _ _.
            Handlers.Safe-list_admin_users m p limit offset email _ _ tt (λ _. tt)
              (λ _ _ _. (refl, refl, refl)),
      ))
Good-handle p c (admin_user_detail user_id) =
    let m = monitor c (admin_user_detail user_id) in
    Handlers.Safe-as_admin m p c [] _ tt (λ _. ((refl, refl, refl, refl), refl, refl))
      (λ _. ((refl, refl, refl, refl), refl, refl)) (λ _ _. tt)
      (λ _ _ _ _ _. (
        tt,
        λ _ _. Handlers.Safe-get_admin_user_by_id m c user_id _ tt (λ l found.
            elim found as (λ o. Good c (admin_user_detail user_id) l (detail_of c o)) [
              | none ↦ ((refl, refl, refl, refl), refl, refl)
              | some user ↦ (refl, refl, refl)
            ]),
      ))
Good-handle p c (admin_bootstrap name email password) =
    let m = monitor c (admin_bootstrap name email password) in
    Monitor.Safe-enabled m p c [] _ ((refl, refl, refl, refl), refl, refl)
      (λ _ _ _.
        Handlers.Safe-bootstrap_admin_user m [] name email password _ tt tt (λ _ _. tt)
          (λ _ outcome.
            elim outcome
              as (λ o.
                IsConformant c (admin_bootstrap name email password) (bootstrap_response c o)) [
                  | created admin ↦ (refl, refl, refl)
                  | already_bootstrapped ↦ ((refl, refl, refl, refl), refl, refl)
                  | email_conflict ↦ ((refl, refl, refl, refl), refl, refl)
                ]))

-- Every response that a handler gives has the status and the body that its route declares for a
-- success, or problem details that agree with its status, its code and the path; responses about
-- tokens are never stored by a cache, keys are cached only where they are given, and only a sign-
-- in that succeeds and a sign-out pass cookies on.
pub handle-IsConformant :
    (p : Platform) (c : Request) (op : Operation) (events : List Monitor.Event)
    (response : Response)
    → Monitor.Steps (handle p c op) events (responds response)
    → IsConformant c op response
handle-IsConformant p c op events response steps =
    Monitor.Safe-history (Allowing c op) (Accepting c op) steps (Good-handle p c op)
