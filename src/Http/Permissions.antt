-- ===== src/Http/Permissions.antt =====
-- Who may read the user table, and create its first administrator: the administration routes of router.ts and `resolveAdminIdentity`.
use user_service_platform.Prelude.{
  ℕ, true, List, [], ◌∷◌, ◌++◌, length, length-append, ◌≤◌, arith, Option, none, some, ◌≡◌, refl,
  ap, ◌⊎◌, inl, inr,
}
use user_service_platform.Text.{Text}
use user_service_platform.Json.{Json}
use user_service_platform.Identity.Session.{SessionContext}
use user_service_platform.Http.{
  AdminUser, Call, get_session, user_has_permission, select_user, select_users, count_users,
  select_admin, create_user, Answer, Reply, returned, raised, Raised, Run, awaits,
}
use user_service_platform.Http.Scope.{Request, Platform, scoped_auth, scoped_token_auth, session_of}
use user_service_platform.Http.Router.{
  Operation, register, login, reset_password, verify_email, request_verification,
  request_password_reset, current_user, sign_out, consumer_token, consumer_jwks, admin_me,
  admin_users, admin_user_detail, admin_bootstrap, handle,
}
use user_service_platform.Http.Router.Accounts
use user_service_platform.Http.Router.Tokens
use user_service_platform.Http.Router.Admin
use user_service_platform.Http.Router.Accounts.{me_of, if_enabled, call_engine}
use user_service_platform.Http.Router.Admin.{
  first_user, to_admin_user, is_granted, list_admin_users, get_admin_user_by_id,
  resolve_admin_identity, if_admin, for_session, as_admin, detail_of, Bootstrap,
  bootstrap_admin_user, is_duplicate,
}
use user_service_platform.Http.Monitor
use user_service_platform.Http.Monitor.Handlers

-- A query of the user table: a user, a page of users, their number, or the administrators' ids.
pub data IsUserRead : Call → Type 0 where
  one_user : (id : Text) → IsUserRead (select_user id)
  page_of_users :
      (limit offset : ℕ) (pattern : Option Text) → IsUserRead (select_users limit offset pattern)
  number_of_users : (pattern : Option Text) → IsUserRead (count_users pattern)
  administrators : IsUserRead select_admin

-- The events begin with a live session and the permission that the engine grants its holder.
abbrev pub IsPermitted : List Monitor.Event → Type 0
IsPermitted events =
    (payload : Json) × (session : SessionContext) × (outcome : Json) × (later : List Monitor.Event)
    × (session_of payload ≡ some session)
    × (is_granted outcome ≡ true)
    × (events
        ≡ record { call = get_session; reply = returned payload }
          ∷ record { call = user_has_permission session.user.id; reply = returned outcome }
          ∷ later)

-- The bootstrap asks whether there is an administrator: before anything else, and again after it has
-- found none and the engine has refused the creation since the address is taken.
abbrev pub IsBootstrapping : Operation → List Monitor.Event → Type 0
IsBootstrapping (admin_bootstrap name email password) events =
    (events ≡ [])
    ⊎ ((error : Raised) × (is_duplicate error ≡ true)
        × (events
            ≡ record { call = select_admin; reply = returned [] }
              ∷ record { call = create_user name email password; reply = raised error }
              ∷ []))
IsBootstrapping _ events = ⊥

-- What comes before a query of the user table.
abbrev pub MayRead : Operation → List Monitor.Event → Call → Type 0
MayRead op events call = IsPermitted events ⊎ ((call ≡ select_admin) × IsBootstrapping op events)

-- The table of users has just shown no administrator.
abbrev pub IsUnclaimed : List Monitor.Event → Type 0
IsUnclaimed events = events ≡ record { call = select_admin; reply = returned [] } ∷ []

pub data IsCreation : Call → Type 0 where
  creation : (name email password : Text) → IsCreation (create_user name email password)

abbrev Needs : Operation → List Monitor.Event → Call → Type 0
Needs op events (select_user _) = IsPermitted events
Needs op events (select_users _ _ _) = IsPermitted events
Needs op events (count_users _) = IsPermitted events
Needs op events select_admin = IsBootstrapping op events
Needs op events (create_user _ _ _) = IsUnclaimed events
Needs op events _ = Unit

-- A handler makes five calls at most.
abbrev pub IsAllowed : Operation → List Monitor.Event → Call → Type 0
IsAllowed op events call = (length events ≤ 4) × Needs op events call

read-Needs :
    {call : Call} (op : Operation) (events : List Monitor.Event)
    → IsUserRead call
    → Needs op events call
    → MayRead op events call
read-Needs op events (one_user id) h = inl h
read-Needs op events (page_of_users limit offset pattern) h = inl h
read-Needs op events (number_of_users pattern) h = inl h
read-Needs op events administrators h = inr (refl, h)

creation-Needs :
    {call : Call} (op : Operation) (events : List Monitor.Event)
    → IsCreation call
    → Needs op events call
    → IsUnclaimed events
creation-Needs op events (creation name email password) h = h

abbrev pub monitor : Operation → Monitor.Monitor
monitor op = Monitor.history (IsAllowed op) (λ _ _. Unit)

IsPermitted-append :
    (events more : List Monitor.Event) → IsPermitted events → IsPermitted (events ++ more)
IsPermitted-append events more (payload, session, outcome, later, e, g, h) =
    (payload, session, outcome, later ++ more, e, g, ap (λ l. l ++ more) h)

-- The calls of `as_admin`, after which the rest of the handler runs with the permission.
Safe-as_admin :
    (p : Platform) (c : Request) (op : Operation) (k : AdminUser → Run)
    → ((later : List Monitor.Event)
        → IsPermitted later
        → length later ≡ 3
        → (admin : AdminUser) → Monitor.Safe (monitor op) later (k admin))
    → Monitor.Safe (monitor op) [] (as_admin p c k)
Safe-as_admin p c op k h =
    Handlers.Safe-as_admin (monitor op) p c [] k (omega arith, tt) (λ _. tt) (λ _. tt)
      (λ _ _. (omega arith, tt))
      (λ payload session outcome e g. (
        (omega arith, (payload, session, outcome, [], e, g, refl)),
        λ rows. h _ (payload, session, outcome, _, e, g, refl) refl,
      ))

-- Every handler.
pub Safe-handle :
    (p : Platform) (c : Request) (op : Operation) → Monitor.Safe (monitor op) [] (handle p c op)
unfolding handle Accounts.register Accounts.login Accounts.reset_password Accounts.verify_email
    Accounts.request_verification Accounts.request_password_reset Accounts.current_user
    Accounts.sign_out Tokens.consumer_token Tokens.consumer_jwks Admin.admin_me Admin.admin_users
    Admin.admin_user_detail Admin.admin_bootstrap get_admin_user_by_id
Safe-handle p c (register name email password) =
    Monitor.Safe-guarded (monitor (register name email password)) p c [] none _ (λ _ _. tt)
      (λ _. Monitor.Safe-enabled (monitor (register name email password)) p c [] _ tt (λ base _ _.
        Monitor.Safe-if (monitor (register name email password)) [] base.policy.registration_enabled
          _ _ (λ _. ((omega arith, tt), λ _. tt)) (λ _. tt)))
Safe-handle p c (login email password) =
    Monitor.Safe-guarded (monitor (login email password)) p c [] none _ (λ _ _. tt)
      (λ _.
        Monitor.Safe-enabled (monitor (login email password)) p c [] _ tt
          (λ _ _ _. ((omega arith, tt), λ _. tt)))
Safe-handle p c (reset_password new_password token) =
    Monitor.Safe-enabled (monitor (reset_password new_password token)) p c [] _ tt
      (λ _ _ _. ((omega arith, tt), λ _. tt))
Safe-handle p c (verify_email token) =
    Monitor.Safe-with_scope (monitor (verify_email token)) [] (scoped_auth p true c) _
      (λ _ _. ((omega arith, tt), λ _. tt))
Safe-handle p c (request_verification email) =
    Monitor.Safe-enabled (monitor (request_verification email)) p c [] _ tt
      (λ _ _ _. ((omega arith, tt), λ _. tt))
Safe-handle p c (request_password_reset email) =
    Monitor.Safe-enabled (monitor (request_password_reset email)) p c [] _ tt
      (λ _ _ _. ((omega arith, tt), λ _. tt))
Safe-handle p c current_user =
    Monitor.Safe-resolve_session_context (monitor current_user) p c [] (me_of c) (omega arith, tt)
      (λ _. tt) (λ _ _ _. tt)
Safe-handle p c sign_out =
    Monitor.Safe-guarded (monitor sign_out) p c [] none _ (λ _ _. tt)
      (λ _.
        Monitor.Safe-with_scope (monitor sign_out) [] (scoped_auth p true c) _
          (λ _ _. ((omega arith, tt), λ _. tt)))
Safe-handle p c consumer_token =
    Handlers.Safe-consumer_token (monitor consumer_token) p c [] (λ _ _. tt) tt
      (λ _. (omega arith, tt)) (λ _. tt) (λ _ _. (omega arith, tt)) (λ _ _. tt)
Safe-handle p c consumer_jwks =
    Handlers.Safe-with_token_auth (monitor consumer_jwks) [] _ (scoped_token_auth p c) _ tt
      ((omega arith, tt), λ _. tt)
Safe-handle p c admin_me = Safe-as_admin p c admin_me _ (λ _ _ _ _. tt)
Safe-handle p c (admin_users limit offset email) =
    Safe-as_admin p c (admin_users limit offset email) _ (λ later permitted three admin.
      Handlers.Safe-list_admin_users (monitor (admin_users limit offset email)) p limit offset email
        _ later (omega (arith, three), permitted)
        (λ rows. (
          omega (arith, three, length-append later (_ ∷ [])),
          IsPermitted-append later _ permitted,
        ))
        (λ _ _ _. tt))
Safe-handle p c (admin_user_detail user_id) =
    Safe-as_admin p c (admin_user_detail user_id) _ (λ later permitted three admin.
      Handlers.Safe-get_admin_user_by_id (monitor (admin_user_detail user_id)) c user_id later
        (omega (arith, three), permitted)
        (λ l found.
          elim found
            as (λ o. Monitor.Safe (monitor (admin_user_detail user_id)) l (detail_of c o)) [
              | none ↦ tt
              | some user ↦ tt
            ]))
Safe-handle p c (admin_bootstrap name email password) =
    Monitor.Safe-enabled (monitor (admin_bootstrap name email password)) p c [] _ tt (λ _ _ _.
      Handlers.Safe-bootstrap_admin_user (monitor (admin_bootstrap name email password)) [] name
        email password _ (omega arith, inl refl) (omega arith, refl)
        (λ error taken. (omega arith, inr (error, taken, refl))) (λ _ _. tt))

-- Whatever the engine and the database answer, a handler queries the user table only after the
-- engine has returned a session with a user and has then granted that user the permission; but the
-- bootstrap asks for administrators, before anything else, and again after it has found none and
-- the engine has refused the creation since the address is taken.
pub handle-IsPermitted :
    (p : Platform) (c : Request) (op : Operation) (events : List Monitor.Event) (call : Call)
    (rest : Reply (Answer call) → Run)
    → Monitor.Steps (handle p c op) events (awaits call rest)
    → IsUserRead call
    → MayRead op events call
handle-IsPermitted p c op events call rest steps i =
    read-Needs op events i
      (Monitor.Safe-history (IsAllowed op) (λ _ _. Unit) steps (Safe-handle p c op)).0.1

-- A handler asks the engine to create the administrator only right after the table of users has
-- shown that there is none.
pub handle-IsUnclaimed :
    (p : Platform) (c : Request) (op : Operation) (events : List Monitor.Event) (call : Call)
    (rest : Reply (Answer call) → Run)
    → Monitor.Steps (handle p c op) events (awaits call rest)
    → IsCreation call
    → IsUnclaimed events
handle-IsUnclaimed p c op events call rest steps i =
    creation-Needs op events i
      (Monitor.Safe-history (IsAllowed op) (λ _ _. Unit) steps (Safe-handle p c op)).0.1
