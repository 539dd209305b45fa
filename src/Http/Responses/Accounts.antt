-- ===== src/Http/Responses/Accounts.antt =====
-- The responses of the account routes against their contract.
use user_service_platform.Prelude.{leb, ◌==◌, refl}
use user_service_platform.Text.{Text}
use user_service_platform.Identity.Session.{to_authenticated_user}
use user_service_platform.Http.{create_problem, Response, is_ok}
use user_service_platform.Http.Scope.{Request, Outcome, responded, failed, problem}
use user_service_platform.Http.Router.{
  register, login, reset_password, verify_email, request_verification, request_password_reset,
  sign_out,
}
use user_service_platform.Http.Router.Accounts.{
  json_of, forwarding, registered, is_unverified, logged_in, verified, is_mismatch,
  verification_requested, reset_requested, password_reset, signed_out,
}
use user_service_platform.Http.Responses.{IsConformant, either_way, found_or_not}

module _ (c : Request) where
  pub registered-IsConformant :
      (name email password : Text) (outcome : Outcome)
      → IsConformant c (register name email password) (registered c outcome)
  unfolding problem create_problem
  registered-IsConformant name email password (failed status code) =
      ((refl, refl, refl, refl), refl, refl)
  registered-IsConformant name email password (responded outcome) =
      let good = IsConformant c (register name email password) in
      either_way good (is_ok outcome) _ _
        (found_or_not good c _ (to_authenticated_user (json_of outcome))
          ((refl, refl, refl, refl), refl, refl) (λ user. (refl, refl, refl)))
        ((refl, refl, refl, refl), refl, refl)

  pub logged_in-IsConformant :
      (email password : Text) (outcome : Outcome)
      → IsConformant c (login email password) (logged_in c outcome)
  unfolding problem create_problem
  logged_in-IsConformant email password (failed status code) =
      ((refl, refl, refl, refl), refl, refl)
  logged_in-IsConformant email password (responded outcome) =
      let good = IsConformant c (login email password) in
      either_way good (is_ok outcome) _ _
        (found_or_not good c _ (to_authenticated_user (json_of outcome))
          ((refl, refl, refl, refl), refl, refl) (λ user. (refl, refl, tt)))
        (either_way good (is_unverified outcome) _ _ ((refl, refl, refl, refl), refl, refl)
          (either_way good (outcome.status == 401) _ _ ((refl, refl, refl, refl), refl, refl)
            ((refl, refl, refl, refl), refl, refl)))

  pub verified-IsConformant :
      (token : Text) (outcome : Outcome) → IsConformant c (verify_email token) (verified c outcome)
  unfolding problem create_problem
  verified-IsConformant token (failed status code) = ((refl, refl, refl, refl), refl, refl)
  verified-IsConformant token (responded outcome) =
      either_way (IsConformant c (verify_email token)) (is_ok outcome) _ _ (refl, refl, refl)
        ((refl, refl, refl, refl), refl, refl)

  pub verification_requested-IsConformant :
      (email : Text) (outcome : Outcome)
      → IsConformant c (request_verification email) (verification_requested c outcome)
  unfolding problem create_problem
  verification_requested-IsConformant email (failed status code) =
      ((refl, refl, refl, refl), refl, refl)
  verification_requested-IsConformant email (responded outcome) =
      let good = IsConformant c (request_verification email) in
      either_way good (is_ok outcome) _ _ (refl, refl, refl)
        (either_way good (is_mismatch outcome) _ _ ((refl, refl, refl, refl), refl, refl)
          (either_way good (leb 500 outcome.status) _ _ ((refl, refl, refl, refl), refl, refl)
            (refl, refl, refl)))

  pub reset_requested-IsConformant :
      (email : Text) (outcome : Outcome)
      → IsConformant c (request_password_reset email) (reset_requested c outcome)
  unfolding problem create_problem
  reset_requested-IsConformant email (failed status code) = ((refl, refl, refl, refl), refl, refl)
  reset_requested-IsConformant email (responded outcome) =
      let good = IsConformant c (request_password_reset email) in
      either_way good (is_ok outcome) _ _ (refl, refl, refl)
        (either_way good (leb 500 outcome.status) _ _ ((refl, refl, refl, refl), refl, refl)
          (refl, refl, refl))

  pub password_reset-IsConformant :
      (new_password token : Text) (outcome : Outcome)
      → IsConformant c (reset_password new_password token) (password_reset c outcome)
  unfolding problem create_problem
  password_reset-IsConformant new_password token (failed status code) =
      ((refl, refl, refl, refl), refl, refl)
  password_reset-IsConformant new_password token (responded outcome) =
      let good = IsConformant c (reset_password new_password token) in
      either_way good (is_ok outcome) _ _ (refl, refl, refl)
        (either_way good (leb 500 outcome.status) _ _ ((refl, refl, refl, refl), refl, refl)
          ((refl, refl, refl, refl), refl, refl))

  pub signed_out-IsConformant : (outcome : Outcome) → IsConformant c sign_out (signed_out c outcome)
  unfolding problem create_problem
  signed_out-IsConformant (failed status code) =
      either_way (IsConformant c sign_out) (leb 500 status) _ _ ((refl, refl, refl, refl), refl, tt)
        (refl, refl, tt)
  signed_out-IsConformant (responded outcome) =
      let good =
        λ (response : Response). IsConformant c sign_out (forwarding outcome.cookies response) in
      either_way good (is_ok outcome) _ _ (refl, refl, tt)
        (either_way good (leb 500 outcome.status) _ _ ((refl, refl, refl, refl), refl, tt)
          (refl, refl, tt))
