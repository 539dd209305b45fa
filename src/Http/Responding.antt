-- ===== src/Http/Responding.antt =====
-- The runs of handlers that end with a response, whatever replies they are given of those that no
-- handler gives up on.
use user_service_platform.Prelude.{
  Bool, true, false, List, [], ◌∷◌, Option, none, some, Result, ok, err, ◌≡◌, if◌then◌else◌,
}
use user_service_platform.Text.{Text}
use user_service_platform.Json.{Json}
use user_service_platform.Identity.Session.{SessionContext}
use user_service_platform.Http.{
  AdminUser, Response, Call, get_session, user_has_permission, select_user, select_users,
  count_users, select_admin, create_user, Answer, Reply, returned, raised, Run, responds, throws,
  awaits,
}
use user_service_platform.Http.Scope.{
  Request, Platform, Base, scoped_auth, scoped_token_auth, session_scope, session_of, or_throws,
  unless_rejected, with_scope, on_session, resolve_session_context, guard_cookie_mutation,
}
use user_service_platform.Http.Router.{
  Operation, register, login, reset_password, verify_email, request_verification,
  request_password_reset, current_user, sign_out, consumer_token, consumer_jwks, admin_me,
  admin_users, admin_user_detail, admin_bootstrap, handle,
}
use user_service_platform.Http.Router.Accounts
use user_service_platform.Http.Router.Tokens
use user_service_platform.Http.Router.Admin
use user_service_platform.Http.Router.Accounts.{me_of, if_enabled}
use user_service_platform.Http.Router.Tokens.{token_for, with_token_auth}
use user_service_platform.Http.Router.Admin.{
  first_user, is_granted, list_admin_users, get_admin_user_by_id, resolve_admin_identity, if_admin,
  for_session, as_admin, detail_of, Bootstrap, already_bootstrapped, email_conflict, created,
  bootstrapped, from_created, after_creation, created_of, to_bootstrapped_admin, is_duplicate,
  has_bootstrapped_admin, bootstrap_admin_user,
}

abbrev pub IsReturned : {A : Type 0} → Reply A → Type 0
IsReturned (returned _) = Unit
IsReturned (raised _) = ⊥

-- The user that the engine made can be read, or it refused the address as taken.
abbrev pub IsCreation : Reply Json → Type 0
IsCreation (returned result) =
    (payload : Json) × (admin : AdminUser) × (created_of result ≡ some payload)
    × (to_bootstrapped_admin payload ≡ some admin)
IsCreation (raised error) = is_duplicate error ≡ true

-- The replies that no handler gives up on: the session, the permission and the queries are
-- returned, the creation can be read, and any other call of the engine may return or raise anything.
abbrev pub IsAnswered : (call : Call) → Reply (Answer call) → Type 0
IsAnswered get_session reply = IsReturned reply
IsAnswered (user_has_permission _) reply = IsReturned reply
IsAnswered (select_user _) reply = IsReturned reply
IsAnswered (select_users _ _ _) reply = IsReturned reply
IsAnswered (count_users _) reply = IsReturned reply
IsAnswered select_admin reply = IsReturned reply
IsAnswered (create_user _ _ _) reply = IsCreation reply
IsAnswered _ reply = Unit

-- The run ends with a response, whatever of these replies it is given.
abbrev pub Responds : Run → Type 0
Responds (responds _) = Unit
Responds (throws _) = ⊥
Responds (awaits call rest) =
    (reply : Reply (Answer call)) → IsAnswered call reply → Responds (rest reply)

-- The configuration of the request resolves, and the engine can be built.
pub record IsConfigured (p : Platform) (c : Request) : Type 0 where
  pub base : Base p
  pub lazy_base : Base p
  pub secret : Text
  pub resolves : scoped_auth p true c ≡ ok base
  pub resolves_lazily : scoped_auth p false c ≡ ok lazy_base
  pub has_secret : session_scope p c ≡ ok secret
  pub builds : c.engine_builds ≡ true

Responds-or_throws :
    {A : Type 0} (k : A → Run)
    → ((a : A) → Responds (k a))
    → (reply : Reply A) → IsReturned reply
    → Responds (or_throws k reply)
Responds-or_throws k h (returned a) _ = h a
Responds-or_throws k h (raised error) never = absurd never

Responds-unless_rejected :
    (rejected : Option Response) (run : Run)
    → Responds run
    → Responds (unless_rejected rejected run)
Responds-unless_rejected none run h = h
Responds-unless_rejected (some response) run h = tt

Responds-if :
    (b : Bool) (run other : Run)
    → Responds run
    → Responds other
    → Responds (if b then run else other)
Responds-if true run other h k = h
Responds-if false run other h k = k

Responds-on_session :
    (k : Option SessionContext → Run)
    → ((session : Option SessionContext) → Responds (k session))
    → (reply : Reply Json) → IsReturned reply
    → Responds (on_session k reply)
Responds-on_session k h (returned payload) _ = h (session_of payload)
Responds-on_session k h (raised error) never = absurd never

Responds-with_token_auth :
    {E A : Type 0} (failure : Response) (scope : Result E A) (run : Run)
    → Responds run
    → Responds (with_token_auth failure scope run)
Responds-with_token_auth failure (err e) run h = tt
Responds-with_token_auth failure (ok a) run h = h

module _ (p : Platform) (c : Request) (v : IsConfigured p c) where
  Responds-scoped :
      (k : Base p → Run)
      → ((base : Base p) → Responds (k base))
      → Responds (with_scope (scoped_auth p true c) k)
  Responds-scoped k h = rw v.resolves (h v.base)

  Responds-enabled :
      (k : Base p → Run)
      → ((base : Base p) → Responds (k base))
      → Responds (with_scope (scoped_auth p true c) (λ base. if_enabled c base.policy (k base)))
  Responds-enabled k h =
      Responds-scoped _
        (λ base. Responds-if base.policy.email_password_enabled (k base) _ (h base) tt)

  Responds-session :
      (k : Option SessionContext → Run)
      → ((session : Option SessionContext) → Responds (k session))
      → Responds (resolve_session_context p c k)
  unfolding resolve_session_context
  Responds-session k h = rw (v.has_secret, v.builds) (Responds-on_session k h)

  Responds-first_user :
      (k : Option AdminUser → Run)
      → ((found : Option AdminUser) → Responds (k found))
      → (rows : _) → Responds (first_user k rows)
  Responds-first_user k h [] = h none
  Responds-first_user k h (row ∷ rows) = h _

  Responds-identity :
      (user_id : Text) (k : Option AdminUser → Run)
      → ((found : Option AdminUser) → Responds (k found))
      → Responds (resolve_admin_identity user_id k)
  unfolding resolve_admin_identity
  Responds-identity user_id k h = Responds-or_throws _ (λ outcome.
      Responds-if (is_granted outcome) _ _ (Responds-or_throws _ (Responds-first_user k h))
        (h none))

  Responds-for_session :
      (k : AdminUser → Run)
      → ((admin : AdminUser) → Responds (k admin))
      → (session : Option SessionContext) → Responds (for_session p c k session)
  Responds-for_session k h none = tt
  Responds-for_session k h (some session) =
      rw v.resolves_lazily (Responds-identity session.user.id (if_admin c k) decided)
    where
      decided : (found : Option AdminUser) → Responds (if_admin c k found)
      decided none = tt
      decided (some admin) = h admin

  Responds-as_admin :
      (k : AdminUser → Run) → ((admin : AdminUser) → Responds (k admin)) → Responds (as_admin p c k)
  unfolding as_admin
  Responds-as_admin k h = Responds-session (for_session p c k) (Responds-for_session k h)

Responds-has_bootstrapped_admin :
    (k : Bool → Run)
    → ((exists : Bool) → Responds (k exists))
    → (reply : Reply (List Text)) → IsReturned reply
    → Responds (has_bootstrapped_admin k reply)
Responds-has_bootstrapped_admin k h (returned []) _ = h false
Responds-has_bootstrapped_admin k h (returned (id ∷ ids)) _ = h true
Responds-has_bootstrapped_admin k h (raised error) never = absurd never

module _ (k : Bootstrap → Run) (h : (outcome : Bootstrap) → Responds (k outcome)) where
  Responds-after_creation :
      (reply : Reply Json) → IsCreation reply → Responds (after_creation k reply)
  Responds-after_creation (returned result) (payload, admin, e, f) = rw (e, f) (h (created admin))
  Responds-after_creation (raised error) taken = rw taken (
      Responds-has_bootstrapped_admin
        (λ exists. if exists then k already_bootstrapped else k email_conflict)
        (λ exists. Responds-if exists _ _ (h already_bootstrapped) (h email_conflict)))

  Responds-bootstrap :
      (name email password : Text) → Responds (bootstrap_admin_user name email password k)
  unfolding bootstrap_admin_user
  Responds-bootstrap name email password = Responds-has_bootstrapped_admin _ (λ exists.
      Responds-if exists (k already_bootstrapped)
        (awaits (create_user name email password) (after_creation k)) (h already_bootstrapped)
        Responds-after_creation)

Responds-detail : (c : Request) (found : Option AdminUser) → Responds (detail_of c found)
Responds-detail c none = tt
Responds-detail c (some user) = tt

Responds-me : (c : Request) (session : Option SessionContext) → Responds (me_of c session)
Responds-me c none = tt
Responds-me c (some session) = tt

Responds-token :
    (p : Platform) (c : Request) (session : Option SessionContext)
    → Responds (token_for p c session)
Responds-token p c none = tt
Responds-token p c (some session) = λ reply _. tt

-- Every handler.
pub Responds-handle :
    (p : Platform) (c : Request) (op : Operation) → IsConfigured p c → Responds (handle p c op)
unfolding handle Accounts.register Accounts.login Accounts.reset_password Accounts.verify_email
    Accounts.request_verification Accounts.request_password_reset Accounts.current_user
    Accounts.sign_out Tokens.consumer_token Tokens.consumer_jwks Admin.admin_me Admin.admin_users
    Admin.admin_user_detail Admin.admin_bootstrap get_admin_user_by_id list_admin_users
Responds-handle p c (register name email password) v =
    Responds-unless_rejected (guard_cookie_mutation p c none) _ (
      Responds-enabled p c v _
        (λ base. Responds-if base.policy.registration_enabled _ _ (λ _ _. tt) tt))
Responds-handle p c (login email password) v =
    Responds-unless_rejected (guard_cookie_mutation p c none) _
      (Responds-enabled p c v _ (λ base _ _. tt))
Responds-handle p c (reset_password new_password token) v =
    Responds-enabled p c v _ (λ base _ _. tt)
Responds-handle p c (verify_email token) v = Responds-scoped p c v _ (λ base _ _. tt)
Responds-handle p c (request_verification email) v = Responds-enabled p c v _ (λ base _ _. tt)
Responds-handle p c (request_password_reset email) v = Responds-enabled p c v _ (λ base _ _. tt)
Responds-handle p c current_user v = Responds-session p c v (me_of c) (Responds-me c)
Responds-handle p c sign_out v =
    Responds-unless_rejected (guard_cookie_mutation p c none) _
      (Responds-scoped p c v _ (λ base _ _. tt))
Responds-handle p c consumer_token v =
    Responds-unless_rejected (guard_cookie_mutation p c (some Tokens.private_no_store)) _ (
      Responds-with_token_auth _ (scoped_token_auth p c) _
        (Responds-session p c v (token_for p c) (Responds-token p c)))
Responds-handle p c consumer_jwks v =
    Responds-with_token_auth _ (scoped_token_auth p c) _ (λ _ _. tt)
Responds-handle p c admin_me v = Responds-as_admin p c v _ (λ admin. tt)
Responds-handle p c (admin_users limit offset email) v =
    Responds-as_admin p c v _
      (λ admin. Responds-or_throws _ (λ rows. Responds-or_throws _ (λ totals. tt)))
Responds-handle p c (admin_user_detail user_id) v =
    Responds-as_admin p c v _
      (λ admin. Responds-or_throws _ (Responds-first_user p c v (detail_of c) (Responds-detail c)))
Responds-handle p c (admin_bootstrap name email password) v =
    Responds-enabled p c v _ (λ base. Responds-bootstrap _ (λ outcome. tt) name email password)
