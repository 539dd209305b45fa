-- ===== src/Http/Responses/Tokens.antt =====
-- The responses of the token routes against their contract.
use user_service_platform.Prelude.{List, Option, none, some, Result, ok, err, leb, refl}
use user_service_platform.Prelude.Int.{ℤ}
use user_service_platform.Text.{Text, codes}
use user_service_platform.Json.{Json, null, bool, int, non_integer, str, arr, obj, as_filled_text}
use user_service_platform.Consumer.Verifier.{Jwk}
use user_service_platform.Identity.Tokens.{extract_token_expiry}
use user_service_platform.Http.{create_problem, is_ok}
use user_service_platform.Http.Scope.{Request, Platform, Outcome, responded, failed, problem}
use user_service_platform.Http.Router.{consumer_token, consumer_jwks}
use user_service_platform.Http.Router.Tokens.{
  token_with, token_response, property_of, issued, project_keys, keys_response, keys_of, published,
}
use user_service_platform.Http.Responses.{IsConformant, either_way}

module _ (p : Platform) (c : Request) where
  token_with-IsConformant :
      (token : Text) (expires_at : Option ℤ)
      → IsConformant c consumer_token (token_with c token expires_at)
  unfolding problem create_problem
  token_with-IsConformant token none = ((refl, refl, refl, refl), refl, refl)
  token_with-IsConformant token (some expires_at) = (refl, refl, refl)

  token_response-IsConformant :
      (token : Option Text) → IsConformant c consumer_token (token_response p c token)
  unfolding problem create_problem
  token_response-IsConformant none = ((refl, refl, refl, refl), refl, refl)
  token_response-IsConformant (some token) =
      token_with-IsConformant token (extract_token_expiry p.decoder token)

  pub issued-IsConformant : (outcome : Outcome) → IsConformant c consumer_token (issued p c outcome)
  unfolding problem create_problem
  issued-IsConformant (failed status code) =
      either_way (IsConformant c consumer_token) (leb 500 status) _ _
        ((refl, refl, refl, refl), refl, refl) ((refl, refl, refl, refl), refl, refl)
  issued-IsConformant (responded outcome) =
      let good = IsConformant c consumer_token in
      either_way good (is_ok outcome) _ _
        (token_response-IsConformant (as_filled_text (property_of (codes "token") outcome)))
        (either_way good (leb 500 outcome.status) _ _ ((refl, refl, refl, refl), refl, refl)
          ((refl, refl, refl, refl), refl, refl))

  keys_response-IsConformant :
      (keys : Result (Unit {0}) (List Jwk)) → IsConformant c consumer_jwks (keys_response c keys)
  unfolding problem create_problem
  keys_response-IsConformant (err _) = ((refl, refl, refl, refl), refl, refl)
  keys_response-IsConformant (ok keys) = (refl, refl, refl)

  keys_of-IsConformant : (value : Option Json) → IsConformant c consumer_jwks (keys_of c value)
  unfolding problem create_problem
  keys_of-IsConformant none = ((refl, refl, refl, refl), refl, refl)
  keys_of-IsConformant (some (arr entries)) = keys_response-IsConformant (project_keys entries)
  keys_of-IsConformant (some null) = ((refl, refl, refl, refl), refl, refl)
  keys_of-IsConformant (some (bool b)) = ((refl, refl, refl, refl), refl, refl)
  keys_of-IsConformant (some (int n)) = ((refl, refl, refl, refl), refl, refl)
  keys_of-IsConformant (some non_integer) = ((refl, refl, refl, refl), refl, refl)
  keys_of-IsConformant (some (str s)) = ((refl, refl, refl, refl), refl, refl)
  keys_of-IsConformant (some (obj fields)) = ((refl, refl, refl, refl), refl, refl)

  pub published-IsConformant :
      (outcome : Outcome) → IsConformant c consumer_jwks (published c outcome)
  unfolding problem create_problem
  published-IsConformant (failed status code) = ((refl, refl, refl, refl), refl, refl)
  published-IsConformant (responded outcome) =
      either_way (IsConformant c consumer_jwks) (is_ok outcome) _ _
        (keys_of-IsConformant (property_of (codes "keys") outcome))
        ((refl, refl, refl, refl), refl, refl)
