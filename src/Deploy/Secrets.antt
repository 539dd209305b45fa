-- ===== src/Deploy/Secrets.antt =====
-- secrets.ts and secret-bindings.ts, and the gate of preflight.ts over them: the secrets that a
-- deployment needs, and what the provider's listing says of them. `JSON.parse` is the caller's.
pub mod Laws
use user_service_platform.Prelude.{
  ℕ, Bool, true, false, not, ◌&&◌, List, [], ◌∷◌, ◌++◌, map, any, find, Option, none, some, Result,
  ok, err, ◌>>=◌, if◌then◌else◌, ◌==◌,
}
use user_service_platform.Text.{Text, codes, text_eq, trim}
use user_service_platform.Json.{
  Json, null, bool, int, non_integer, str, arr, obj, Items, nil, cons, Members, get, as_text,
}
use user_service_platform.Url.{Url}
use user_service_platform.Config.Profiles.{
  Environment, local, sandbox, production, test, auth_mail_transport,
}
use user_service_platform.Config.{Runtime, ConfigError, EffectiveConfig, resolve_effective_config}

abbrev pub auth_secrets : Environment → List Text
auth_secrets local = []
auth_secrets sandbox = codes "BETTER_AUTH_SECRET" ∷ []
auth_secrets production = codes "BETTER_AUTH_SECRET" ∷ []
auth_secrets test = []

abbrev pub transport_secrets : Text → List Text
transport_secrets transport =
    if text_eq transport (codes "smtp")
    then codes "SMTP_USER" ∷ codes "SMTP_PASSWORD" ∷ []
    else if text_eq transport (codes "resend")
    then codes "RESEND_API_KEY" ∷ []
    else []

unfoldable pub required_worker_secrets :
    (Text → Text) → (Text → Option Url) → Text → Runtime → Result ConfigError (List Text)
required_worker_secrets lower parse_url environment vars =
    resolve_effective_config lower parse_url (some environment) vars >>= λ effective. ok (
      auth_secrets effective.environment
      ++ transport_secrets (lower (trim (effective.config auth_mail_transport))))

-- `RemoteSecretBinding`.
pub record Binding : Type 0 where
  pub name : Text
  pub kind : Text

abbrev pub secret_text_type : Text
secret_text_type = codes "secret_text"

-- An entry of the listing, if it has a name and a type.
abbrev pub named : Option Text → Option Text → List Binding → List Binding
named (some name) (some kind) rest = record { name = name; kind = kind } ∷ rest
named none kind rest = rest
named (some name) none rest = rest

abbrev pub binding_of : Json → List Binding → List Binding
binding_of (obj fields) rest =
    named (as_text (get (codes "name") fields)) (as_text (get (codes "type") fields)) rest
binding_of _ rest = rest

unfoldable pub bindings_of : Items → List Binding
bindings_of nil = []
bindings_of (cons entry entries) = binding_of entry (bindings_of entries)

-- `parseSecretListOutput`, of the parsed output; `none` where it throws.
abbrev pub parse_secret_list_output : Option Json → Option (List Binding)
parse_secret_list_output (some (arr entries)) = some (bindings_of entries)
parse_secret_list_output (some _) = none
parse_secret_list_output none = none

pub data BindingStatus : Type 0 where
  present missing wrong_type : BindingStatus

abbrev pub status_of : Option Binding → BindingStatus
status_of none = missing
status_of (some binding) = if text_eq binding.kind secret_text_type then present else wrong_type

unfoldable pub check_secret_text_bindings : List Text → List Binding → List (Text × BindingStatus)
check_secret_text_bindings required remote =
    map (λ name. (name, status_of (find (λ entry. text_eq entry.name name) remote))) required

abbrev pub is_bad : Text × BindingStatus → Bool
is_bad result = elim result.1 [ present ↦ false | missing ↦ true | wrong_type ↦ true ]

abbrev pub secret_bindings_failed : List (Text × BindingStatus) → Bool
secret_bindings_failed results = any is_bad results

abbrev pub listed_ok : List Text → Option (List Binding) → Bool
listed_ok required none = false
listed_ok required (some remote) =
    not (secret_bindings_failed (check_secret_text_bindings required remote))

-- The gate of `checkWorkerSecrets` past the names, of the exit code and the output of the listing.
unfoldable pub all_listed : List Text → ℕ → Option Json → Bool
unfolding check_secret_text_bindings bindings_of
all_listed [] exit_code output = true
all_listed (name ∷ names) exit_code output =
    if exit_code == 0 then listed_ok (name ∷ names) (parse_secret_list_output output) else false

-- `checkWorkerSecrets`, whether its check is ok.
unfoldable pub check_worker_secrets :
    (Text → Text) → (Text → Option Url) → Text → Runtime → ℕ → Option Json → Result ConfigError Bool
check_worker_secrets lower parse_url environment vars exit_code output =
    required_worker_secrets lower parse_url environment vars >>= λ required.
    ok (all_listed required exit_code output)
