-- ===== src/Http/Monitor/Handlers.antt =====
-- The control flow of the bootstrap, the token route and the administration, for any monitor.
use user_service_platform.Prelude.{
  ℕ, Bool, true, false, List, [], ◌∷◌, Option, none, some, Result, ok, err, if◌then◌else◌, ◌≡◌,
}
use user_service_platform.Text.{Text}
use user_service_platform.Json.{Json}
use user_service_platform.Identity.Session.{SessionContext}
use user_service_platform.Http.{
  AdminUser, Row, Response, user_has_permission, select_user, select_users, count_users, Raised,
  select_admin, create_user, get_session, get_token, Reply, returned, raised, Run, awaits,
}
use user_service_platform.Http.Scope.{
  session_of, or_throws, scoped_auth, Request, Platform, Outcome, outcome_of, scoped_token_auth,
  guard_cookie_mutation,
}
use user_service_platform.Http.Router.Accounts.{unauthenticated_problem}
use user_service_platform.Http.Router.Tokens.{
  token_failure, token_denied, issued, token_for, with_token_auth, private_no_store, consumer_token,
}
use user_service_platform.Http.Router.Admin.{
  Bootstrap, created, already_bootstrapped, email_conflict, created_of, to_bootstrapped_admin,
  first_user, to_admin_user, is_granted, administrator_required, if_admin, for_session, as_admin,
  resolve_admin_identity, pattern_of, list_admin_users, detail_of, get_admin_user_by_id,
  is_duplicate, has_bootstrapped_admin, bootstrapped, from_created, after_creation,
  bootstrap_admin_user,
}
use user_service_platform.Http.Monitor
use user_service_platform.Http.Monitor.{Monitor, Safe}

module _ (m : Monitor) where
  Safe-has_bootstrapped_admin :
      (s : Reply (List Text) → m.State) (k : Bool → Run)
      → Safe m (s (returned [])) (k false)
      → ((reply : Reply (List Text)) → Safe m (s reply) (k true))
      → (reply : Reply (List Text)) → Safe m (s reply) (has_bootstrapped_admin k reply)
  Safe-has_bootstrapped_admin s k h h' (raised error) = tt
  Safe-has_bootstrapped_admin s k h h' (returned []) = h
  Safe-has_bootstrapped_admin s k h h' (returned (id ∷ ids)) = h' (returned (id ∷ ids))

  Safe-bootstrapped :
      (s : m.State) (k : Bootstrap → Run) (admin : Option AdminUser)
      → ((outcome : Bootstrap) → Safe m s (k outcome))
      → Safe m s (bootstrapped k admin)
  Safe-bootstrapped s k none h = tt
  Safe-bootstrapped s k (some admin) h = h (created admin)

  Safe-from_created :
      (s : m.State) (k : Bootstrap → Run) (payload : Option Json)
      → ((outcome : Bootstrap) → Safe m s (k outcome))
      → Safe m s (from_created k payload)
  Safe-from_created s k none h = tt
  Safe-from_created s k (some payload) h = Safe-bootstrapped s k (to_bootstrapped_admin payload) h

  Safe-after_creation :
      (s : Reply Json → m.State) (k : Bootstrap → Run)
      → ((error : Raised) → is_duplicate error ≡ true → m.Allows (s (raised error)) select_admin)
      → ((later : m.State) (outcome : Bootstrap) → Safe m later (k outcome))
      → (reply : Reply Json) → Safe m (s reply) (after_creation k reply)
  Safe-after_creation s k a h (returned result) =
      Safe-from_created (s (returned result)) k (created_of result) (h (s (returned result)))
  Safe-after_creation s k a h (raised error) =
      Monitor.Safe-if m (s (raised error)) (is_duplicate error) _ _
        (λ e. (
          a error e,
          Safe-has_bootstrapped_admin (λ reply. m.advance (s (raised error)) select_admin reply)
              (λ exists. if exists then k already_bootstrapped else k email_conflict)
              (h (m.advance (s (raised error)) select_admin (returned [])) email_conflict)
              (λ reply. h (m.advance (s (raised error)) select_admin reply) already_bootstrapped),
        ))
        (λ _. tt)

  -- The user is created only after the table has shown no administrator.
  pub Safe-bootstrap_admin_user :
      (s : m.State) (name email password : Text) (k : Bootstrap → Run)
      → m.Allows s select_admin
      → m.Allows (m.advance s select_admin (returned [])) (create_user name email password)
      → ((error : Raised)
          → is_duplicate error ≡ true
          → m.Allows
              (m.advance
                (m.advance s select_admin (returned []))
                (create_user name email password)
                (raised error))
              select_admin)
      → ((later : m.State) (outcome : Bootstrap) → Safe m later (k outcome))
      → Safe m s (bootstrap_admin_user name email password k)
  unfolding bootstrap_admin_user
  Safe-bootstrap_admin_user s name email password k a create again h =
      let unlocked = m.advance s select_admin (returned []) in
      (
        a,
        Safe-has_bootstrapped_admin (λ reply. m.advance s select_admin reply)
            (λ exists.
              if exists
              then k already_bootstrapped
              else awaits (create_user name email password) (after_creation k))
            (
              create,
              Safe-after_creation
                  (λ reply. m.advance unlocked (create_user name email password) reply) k again h,
            )
            (λ reply. h (m.advance s select_admin reply) already_bootstrapped),
      )

  pub Safe-with_token_auth :
      {E A : Type 0} (s : m.State) (failure : Response) (scope : Result E A) (run : Run)
      → m.Accepts s failure
      → Safe m s run
      → Safe m s (with_token_auth failure scope run)
  Safe-with_token_auth s failure (err e) run a h = a
  Safe-with_token_auth s failure (ok x) run a h = h

  -- The token route makes at most two calls.
  pub Safe-consumer_token :
      (p : Platform) (c : Request) (s : m.State)
      → ((response : Response)
          → guard_cookie_mutation p c (some private_no_store) ≡ some response
          → m.Accepts s response)
      → m.Accepts s (token_failure c)
      → (guard_cookie_mutation p c (some private_no_store) ≡ none → m.Allows s get_session)
      → ((reply : Reply Json) → m.Accepts (m.advance s get_session reply) (token_denied c))
      → ((payload : Json)
          → guard_cookie_mutation p c (some private_no_store) ≡ none
          → m.Allows (m.advance s get_session (returned payload)) get_token)
      → ((later : m.State) (outcome : Outcome) → m.Accepts later (issued p c outcome))
      → Safe m s (consumer_token p c)
  unfolding consumer_token
  Safe-consumer_token p c s rejected failure session denied token answer =
      Monitor.Safe-guarded m p c s (some private_no_store) _ rejected (λ e.
        Safe-with_token_auth s (token_failure c) (scoped_token_auth p c) _ failure (
          Monitor.Safe-resolve_session_context m p c s (token_for p c) (session e) denied
            (λ payload user _. (token payload e, λ reply. answer _ (outcome_of reply)))))

  Safe-first_user :
      (s : m.State) (k : Option AdminUser → Run) (rows : List Row)
      → ((found : Option AdminUser) → Safe m s (k found))
      → Safe m s (first_user k rows)
  Safe-first_user s k [] h = h none
  Safe-first_user s k (row ∷ rows) h = h (some (to_admin_user row))

  pub Safe-select_user :
      (s : m.State) (id : Text) (k : Option AdminUser → Run)
      → m.Allows s (select_user id)
      → ((rows : List Row) (found : Option AdminUser)
          → Safe m (m.advance s (select_user id) (returned rows)) (k found))
      → Safe m s (awaits (select_user id) (or_throws (first_user k)))
  Safe-select_user s id k a h = (
    a,
    Monitor.Safe-or_throws m (λ reply. m.advance s (select_user id) reply) (first_user k)
        (λ rows. Safe-first_user (m.advance s (select_user id) (returned rows)) k rows (h rows)),
  )

  Safe-if_admin :
      (s : m.State) (c : Request) (k : AdminUser → Run) (found : Option AdminUser)
      → m.Accepts s (administrator_required c)
      → ((admin : AdminUser) → Safe m s (k admin))
      → Safe m s (if_admin c k found)
  Safe-if_admin s c k none a h = a
  Safe-if_admin s c k (some admin) a h = h admin

  -- The state after the session, and after the answer on the permission of its holder.
  abbrev pub with_session : m.State → Json → m.State
  with_session s payload = m.advance s get_session (returned payload)

  abbrev pub with_permission : m.State → Json → SessionContext → Json → m.State
  with_permission s payload session outcome =
      m.advance (with_session s payload) (user_has_permission session.user.id) (returned outcome)

  -- The three administration routes begin alike.
  pub Safe-as_admin :
      (p : Platform) (c : Request) (s : m.State) (k : AdminUser → Run)
      → m.Allows s get_session
      → ((later : m.State) → m.Accepts later (unauthenticated_problem c none))
      → ((later : m.State) → m.Accepts later (administrator_required c))
      → ((payload : Json) (session : SessionContext)
          → m.Allows (with_session s payload) (user_has_permission session.user.id))
      → ((payload : Json) (session : SessionContext) (outcome : Json)
          → session_of payload ≡ some session
          → is_granted outcome ≡ true
          → m.Allows (with_permission s payload session outcome) (select_user session.user.id)
            × ((rows : List Row) (admin : AdminUser)
                → Safe m
                    (m.advance
                      (with_permission s payload session outcome)
                      (select_user session.user.id)
                      (returned rows))
                    (k admin)))
      → Safe m s (as_admin p c k)
  unfolding as_admin resolve_admin_identity
  Safe-as_admin p c s k a unauthenticated required permission granted =
      Monitor.Safe-resolve_session_context m p c s (for_session p c k) a
        (λ reply. unauthenticated _)
        (λ payload session e.
          Monitor.Safe-with_scope m (with_session s payload) (scoped_auth p false c) _ (λ base _. (
            permission payload session,
            Monitor.Safe-or_throws m _ _ (λ outcome.
                Monitor.Safe-if m (with_permission s payload session outcome) (is_granted outcome) _
                  _
                  (λ g.
                    let (first, rest) = granted payload session outcome e g in
                    Safe-select_user (with_permission s payload session outcome) session.user.id
                      (if_admin c k) first
                      (λ rows found. Safe-if_admin _ c k found (required _) (rest rows)))
                  (λ _. required _)),
          )))

  pub Safe-list_admin_users :
      (p : Platform) (limit offset : ℕ) (email : Option Text) (k : List AdminUser → ℕ → Run)
      (s : m.State)
      → m.Allows s (select_users limit offset (pattern_of p.lower email))
      → ((rows : List Row)
          → m.Allows
              (m.advance s (select_users limit offset (pattern_of p.lower email)) (returned rows))
              (count_users (pattern_of p.lower email)))
      → ((later : m.State) (items : List AdminUser) (total : ℕ) → Safe m later (k items total))
      → Safe m s (list_admin_users p.lower limit offset email k)
  unfolding list_admin_users
  Safe-list_admin_users p limit offset email k s a b h = (
    a,
    Monitor.Safe-or_throws m _ _
        (λ rows. (b rows, Monitor.Safe-or_throws m _ _ (λ totals. h _ _ _))),
  )

  pub Safe-get_admin_user_by_id :
      (c : Request) (id : Text) (s : m.State)
      → m.Allows s (select_user id)
      → ((later : m.State) (found : Option AdminUser) → Safe m later (detail_of c found))
      → Safe m s (get_admin_user_by_id id (detail_of c))
  unfolding get_admin_user_by_id
  Safe-get_admin_user_by_id c id s a h =
      Safe-select_user s id (detail_of c) a (λ rows found. h _ found)
