-- ===== src/Http/Router/Admin.antt =====
-- The administration routes of router.ts, with authorization.ts, admin-users.ts and admin.ts: who
-- is an administrator, the listing of users, one user, and the bootstrap of the first administrator.
use user_service_platform.Prelude.{
  ℕ, Bool, true, false, List, [], ◌∷◌, ◌++◌, map, Option, none, some, get_or, ◌==◌, if◌then◌else◌,
}
use user_service_platform.Text.{Text, codes, text_eq}
use user_service_platform.Json.{Json, null, get, as_record, as_text, as_bool, bool}
use user_service_platform.Identity.Session.{SessionContext}
use user_service_platform.Http.{
  forbidden, not_found, admin_already_bootstrapped, admin_email_conflict, AdminUser, Row,
  admin_body, users_body, Response, Raised, user_has_permission, select_user, select_users,
  count_users, select_admin, create_user, Reply, returned, raised, Run, responds, throws, awaits,
}
use user_service_platform.Http.Scope.{
  Request, Platform, problem, scoped_auth, or_throws, with_scope, resolve_session_context,
}
use user_service_platform.Http.Router.Accounts.{json, unauthenticated_problem, if_enabled}

-- `toAdminUser`.
unfoldable pub to_admin_user : Row → AdminUser
to_admin_user row = record {
  id = row.id;
  email = row.email;
  email_verified = row.email_verified;
  role = get_or row.role (codes "user");
}

-- `value.replace(/c/g, '\\c')`.
unfoldable pub escape_unit : ℕ → Text → Text
escape_unit u [] = []
escape_unit u (c ∷ s) = let rest = escape_unit u s in if c == u then b'\\' ∷ c ∷ rest else c ∷ rest

unfoldable pub escape_like_literal : Text → Text
unfolding escape_unit
escape_like_literal value = escape_unit b'_' (escape_unit b'%' (escape_unit b'\\' value))

unfoldable pub pattern_of : (Text → Text) → Option Text → Option Text
pattern_of lower none = none
pattern_of lower (some email) = some (b'%' ∷ escape_like_literal (lower email) ++ b'%' ∷ [])

-- `rows[0]`.
abbrev pub first : {A : Type 0} → List A → Option A
first [] = none
first (a ∷ _) = some a

abbrev pub is_true : Option Json → Bool
is_true (some (bool b)) = b
is_true (some _) = false
is_true none = false

-- `asRecord(outcome)?.success === true`.
unfoldable pub is_granted : Json → Bool
is_granted outcome = elim (as_record outcome) [
  | none ↦ false
  | some fields ↦ is_true (get (codes "success") fields)
]

-- `rows[0]`, mapped.
abbrev pub first_user : (Option AdminUser → Run) → List Row → Run
first_user k [] = k none
first_user k (row ∷ _) = k (some (to_admin_user row))

-- `resolveAdminIdentity`.
unfoldable pub resolve_admin_identity : Text → (Option AdminUser → Run) → Run
resolve_admin_identity user_id k = awaits (user_has_permission user_id) (
    or_throws (λ outcome.
      if is_granted outcome
      then awaits (select_user user_id) (or_throws (first_user k))
      else k none))

-- `totals[0]?.total ?? 0`.
abbrev pub total_of : List ℕ → ℕ
total_of totals = get_or (first totals) 0

-- `listAdminUsers`; of the two queries, which run at once, the rows are awaited first.
unfoldable pub list_admin_users :
    (Text → Text) → ℕ → ℕ → Option Text → (List AdminUser → ℕ → Run) → Run
unfolding pattern_of
list_admin_users lower limit offset email k =
    awaits (select_users limit offset (pattern_of lower email)) (
      or_throws (λ rows.
        awaits (count_users (pattern_of lower email))
          (or_throws (λ totals. k (map to_admin_user rows) (total_of totals)))))

-- `getAdminUserById`.
unfoldable pub get_admin_user_by_id : Text → (Option AdminUser → Run) → Run
get_admin_user_by_id user_id k = awaits (select_user user_id) (or_throws (first_user k))

-- `BootstrapAdminOutcome`.
pub data Bootstrap : Type 0 where
  created : AdminUser → Bootstrap
  already_bootstrapped email_conflict : Bootstrap

infixl 5 ◌>>=◌
abbrev ◌>>=◌ : {A B : Type 0} → Option A → (A → Option B) → Option B
none >>= f = none
some a >>= f = f a

abbrev only_if : Bool → Option (Unit {0})
only_if true = some tt
only_if false = none

unfoldable pub to_bootstrapped_admin : Json → Option AdminUser
to_bootstrapped_admin payload = do
  fields ← as_record payload
  id ← as_text (get (codes "id") fields)
  email ← as_text (get (codes "email") fields)
  role ← as_text (get (codes "role") fields)
  ignored ← only_if (text_eq role (codes "admin"))
  email_verified ← as_bool (get (codes "emailVerified") fields)
  some (record { id = id; email = email; email_verified = email_verified; role = role })

-- `(result as { user?: unknown }).user ?? result`; `none` where `result` is null, which throws.
abbrev pub unwrapped : Json → Option Json → Json
unwrapped result none = result
unwrapped result (some null) = result
unwrapped result (some user) = user

abbrev pub created_of : Json → Option Json
created_of null = none
created_of result = some (
    unwrapped result
      (elim (as_record result) [ none ↦ none | some fields ↦ get (codes "user") fields ]))

abbrev pub engine_duplicate_email : Text
engine_duplicate_email = codes "USER_ALREADY_EXISTS_USE_ANOTHER_EMAIL"

abbrev pub is_duplicate : Raised → Bool
is_duplicate error = elim error.code [
  | none ↦ false
  | some code ↦ text_eq code engine_duplicate_email
]

-- `hasBootstrappedAdmin`.
abbrev pub has_bootstrapped_admin : (Bool → Run) → Reply (List Text) → Run
has_bootstrapped_admin k (raised error) = throws none
has_bootstrapped_admin k (returned []) = k false
has_bootstrapped_admin k (returned (_ ∷ _)) = k true

abbrev pub bootstrapped : (Bootstrap → Run) → Option AdminUser → Run
bootstrapped k none = throws none
bootstrapped k (some admin) = k (created admin)

abbrev pub from_created : (Bootstrap → Run) → Option Json → Run
from_created k none = throws none
from_created k (some payload) = bootstrapped k (to_bootstrapped_admin payload)

abbrev pub after_creation : (Bootstrap → Run) → Reply Json → Run
after_creation k (returned result) = from_created k (created_of result)
after_creation k (raised error) =
    if is_duplicate error
    then awaits select_admin (
        has_bootstrapped_admin
          (λ exists. if exists then k already_bootstrapped else k email_conflict))
    else throws none

unfoldable pub bootstrap_admin_user : Text → Text → Text → (Bootstrap → Run) → Run
unfolding to_bootstrapped_admin
bootstrap_admin_user name email password k = awaits select_admin (
    has_bootstrapped_admin (λ exists.
      if exists
      then k already_bootstrapped
      else awaits (create_user name email password) (after_creation k)))

abbrev pub administrator_required : Request → Response
administrator_required c =
    problem c 403 forbidden (codes "Forbidden") (some (codes "Administrator access is required."))
      none

abbrev pub if_admin : Request → (AdminUser → Run) → Option AdminUser → Run
if_admin c k none = responds (administrator_required c)
if_admin c k (some admin) = k admin

abbrev pub for_session : Platform → Request → (AdminUser → Run) → Option SessionContext → Run
for_session p c k none = responds (unauthenticated_problem c none)
for_session p c k (some session) =
    with_scope (scoped_auth p false c)
      (λ base. resolve_admin_identity session.user.id (if_admin c k))

-- What the three administration routes begin with: the session, then the permission.
unfoldable pub as_admin : Platform → Request → (AdminUser → Run) → Run
as_admin p c k = resolve_session_context p c (for_session p c k)

unfoldable pub admin_me : Platform → Request → Run
admin_me p c = as_admin p c (λ admin. responds (json 200 (admin_body admin)))

unfoldable pub admin_users : Platform → Request → ℕ → ℕ → Option Text → Run
admin_users p c limit offset email = as_admin p c (λ admin.
    list_admin_users p.lower limit offset email
      (λ items total. responds (json 200 (users_body items total))))

abbrev pub detail_of : Request → Option AdminUser → Run
detail_of c none =
    responds (problem c 404 not_found (codes "Not Found") (some (codes "No such User.")) none)
detail_of c (some user) = responds (json 200 (admin_body user))

unfoldable pub admin_user_detail : Platform → Request → Text → Run
admin_user_detail p c user_id = as_admin p c (λ admin. get_admin_user_by_id user_id (detail_of c))

abbrev pub bootstrap_response : Request → Bootstrap → Response
bootstrap_response c (created admin) = json 201 (admin_body admin)
bootstrap_response c already_bootstrapped =
    problem c 409 admin_already_bootstrapped (codes "Administrator already bootstrapped")
      (some (codes "An administrative User already exists; bootstrap cannot create another.")) none
bootstrap_response c email_conflict =
    problem c 409 admin_email_conflict (codes "Administrator email conflict")
      (some (codes "The email address is already registered; bootstrap cannot duplicate it.")) none

unfoldable pub admin_bootstrap : Platform → Request → Text → Text → Text → Run
admin_bootstrap p c name email password = with_scope (scoped_auth p true c) (λ base.
    if_enabled c base.policy (
      bootstrap_admin_user name email password
        (λ outcome. responds (bootstrap_response c outcome))))
