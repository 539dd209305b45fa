-- ===== src/Http/Router.antt =====
-- `createIdentityRouter` of router.ts: the operations of the contract, each with its validated
-- input, and the handler of each.
pub mod Accounts
pub mod Tokens
pub mod Admin
use user_service_platform.Prelude.{ℕ, Option}
use user_service_platform.Text.{Text}
use user_service_platform.Http.{Run}
use user_service_platform.Http.Scope.{Request, Platform}
use user_service_platform.Http.Router.Accounts
use user_service_platform.Http.Router.Tokens
use user_service_platform.Http.Router.Admin

pub data Operation : Type 0 where
  register : Text → Text → Text → Operation
  login reset_password : Text → Text → Operation
  verify_email request_verification request_password_reset : Text → Operation
  current_user sign_out consumer_token consumer_jwks admin_me : Operation
  admin_users : ℕ → ℕ → Option Text → Operation
  admin_user_detail : Text → Operation
  admin_bootstrap : Text → Text → Text → Operation

unfoldable pub handle : Platform → Request → Operation → Run
handle p c (register name email password) = Accounts.register p c name email password
handle p c (login email password) = Accounts.login p c email password
handle p c (reset_password new_password token) = Accounts.reset_password p c new_password token
handle p c (verify_email token) = Accounts.verify_email p c token
handle p c (request_verification email) = Accounts.request_verification p c email
handle p c (request_password_reset email) = Accounts.request_password_reset p c email
handle p c current_user = Accounts.current_user p c
handle p c sign_out = Accounts.sign_out p c
handle p c consumer_token = Tokens.consumer_token p c
handle p c consumer_jwks = Tokens.consumer_jwks p c
handle p c admin_me = Admin.admin_me p c
handle p c (admin_users limit offset email) = Admin.admin_users p c limit offset email
handle p c (admin_user_detail user_id) = Admin.admin_user_detail p c user_id
handle p c (admin_bootstrap name email password) = Admin.admin_bootstrap p c name email password
