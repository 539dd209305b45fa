-- ===== src/Deploy/Naming.antt =====
-- naming.ts: the deployment key of a company, a site, a service and an environment, and the names
-- of resources. `lower` is `toLowerCase`.
pub mod Laws
use user_service_platform.Prelude.{
  ℕ, Bool, true, false, not, ◌&&◌, ◌||◌, List, [], ◌∷◌, ◌++◌, Option, none, some, Result, ok, err,
  ◌>>=◌, ◌>>◌, guard, if◌then◌else◌, leb, ◌==◌, length, all,
}
use user_service_platform.Text.{Text, codes, text_eq, trim}

pub data DeployableEnvironment : Type 0 where
  sandbox production : DeployableEnvironment

abbrev pub environment_name : DeployableEnvironment → Text
environment_name sandbox = codes "sandbox"
environment_name production = codes "production"

pub record DeploymentIdentity : Type 0 where
  pub company : Text
  pub site : Text
  pub service : Text
  pub environment : DeployableEnvironment

abbrev pub max_worker_name_length : ℕ
max_worker_name_length = 63

pub data NamingError : Type 0 where
  invalid_company invalid_site invalid_service : NamingError
  name_too_long malformed_name : NamingError
  staging_environment unknown_environment unknown_suffix : NamingError

-- `[a-z0-9]`
abbrev pub is_alphanumeric : ℕ → Bool
is_alphanumeric c = (leb b'a' c && leb c b'z') || (leb b'0' c && leb c b'9')

-- The rest of a label: `[a-z0-9-]*[a-z0-9]`.
unfoldable pub ends_label : Text → Bool
ends_label [] = false
ends_label (c ∷ []) = is_alphanumeric c
ends_label (c ∷ d ∷ s) = (is_alphanumeric c || c == b'-') && ends_label (d ∷ s)

-- `SLUG_PATTERN` and `WORKER_NAME_PATTERN`, which are the same.
unfoldable pub is_label : Text → Bool
is_label [] = false
is_label (c ∷ []) = is_alphanumeric c
is_label (c ∷ d ∷ s) = is_alphanumeric c && ends_label (d ∷ s)

abbrev pub assert_slug : NamingError → Text → Result NamingError (Unit {0})
assert_slug kind value = guard (is_label value) kind

abbrev pub assert_worker_name : Text → Result NamingError (Unit {0})
assert_worker_name name =
    guard (leb (length name) max_worker_name_length) name_too_long
    >> guard (is_label name) malformed_name

abbrev pub joined_key : DeploymentIdentity → Text
joined_key identity =
    identity.company
    ++ (codes "-"
        ++ (identity.site
            ++ (codes "-"
                ++ (identity.service ++ (codes "-" ++ environment_name identity.environment)))))

-- `deploymentKey` and `workerName`.
unfoldable pub deployment_key : DeploymentIdentity → Result NamingError Text
deployment_key identity =
    assert_slug invalid_company identity.company
    >> (assert_slug invalid_site identity.site
        >> (assert_slug invalid_service identity.service
            >> (assert_worker_name (joined_key identity) >> ok (joined_key identity))))

unfoldable pub database_name : DeploymentIdentity → Result NamingError Text
unfolding deployment_key
database_name identity = deployment_key identity >>= λ key. ok (key ++ codes "-db")

unfoldable pub resource_name : Text → Text → Result NamingError Text
resource_name key suffix =
    guard
      (text_eq suffix (codes "db")
        || text_eq suffix (codes "session")
        || text_eq suffix (codes "files"))
      unknown_suffix
    >> ok (key ++ (codes "-" ++ suffix))

abbrev pub environment_of : Text → Result NamingError DeployableEnvironment
environment_of normalized =
    if text_eq normalized (codes "sandbox")
    then ok sandbox
    else if text_eq normalized (codes "production")
    then ok production
    else if text_eq normalized (codes "staging")
    then err staging_environment
    else err unknown_environment

-- `parseDeployEnvironment`; a value that is no text reads as the empty one.
unfoldable pub parse_deploy_environment :
    (Text → Text) → Option Text → Result NamingError DeployableEnvironment
parse_deploy_environment lower none = environment_of []
parse_deploy_environment lower (some value) = environment_of (lower (trim value))
