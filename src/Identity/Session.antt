-- ===== src/Identity/Session.antt =====
-- The mapping of session payloads in session.ts: what the engine returns becomes a user of the
-- application, or nobody.
use user_service_platform.Prelude.{Bool, Option, none, some}
use user_service_platform.Text.{Text, codes}
use user_service_platform.Json.{Json, get, as_record, as_text, as_bool, bind_record}

-- `AuthenticatedUser`.
pub record AuthenticatedUser : Type 0 where
  pub id : Text
  pub email : Text
  pub email_verified : Bool

-- `SessionContext`.
pub record SessionContext : Type 0 where
  pub user : AuthenticatedUser

infixl 5 ◌>>=◌
abbrev ◌>>=◌ : {A B : Type 0} → Option A → (A → Option B) → Option B
none >>= f = none
some a >>= f = f a

unfoldable pub to_authenticated_user : Json → Option AuthenticatedUser
to_authenticated_user payload = do
  fields ← as_record payload
  user ← bind_record (get (codes "user") fields)
  id ← as_text (get (codes "id") user)
  email ← as_text (get (codes "email") user)
  email_verified ← as_bool (get (codes "emailVerified") user)
  some (record { id = id; email = email; email_verified = email_verified })

unfoldable pub to_session_context : Json → Option SessionContext
unfolding to_authenticated_user
to_session_context payload = do user ← to_authenticated_user payload; some (record { user = user })
