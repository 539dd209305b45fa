-- ===== src/Deploy/Secrets/Laws.antt =====
-- A deployment that passes the gate has every secret that it needs, as a secret.
use user_service_platform.Prelude.{
  ℕ, Bool, true, false, not, ◌||◌, List, [], ◌∷◌, All, find, Option, none, some, ok, >>=-eq-ok,
  ok-injective, if◌then◌else◌, ◌==◌, ◌≡◌, ◌⊎◌, refl, sym, inl, inr, arith,
}
use user_service_platform.Text.{Text, text_eq}
use user_service_platform.Text.Laws.{text_eq_iff}
use user_service_platform.Json.{Json}
use user_service_platform.Url.{Url}
use user_service_platform.Config.{Runtime}
use user_service_platform.Deploy.Secrets.{
  Binding, secret_text_type, parse_secret_list_output, present, wrong_type, status_of,
  check_secret_text_bindings, is_bad, secret_bindings_failed, all_listed, required_worker_secrets,
  listed_ok, check_worker_secrets,
}

-- The first entry of the listing with this name is a secret.
abbrev pub IsSecret : List Binding → Text → Type 0
IsSecret remote name =
    (binding : Binding) × (find (λ entry. text_eq entry.name name) remote ≡ some binding)
    × (binding.kind ≡ secret_text_type)

not_wrong :
    (b : Bool) (name : Text) → is_bad (name, (if b then present else wrong_type)) ≡ false → b ≡ true
not_wrong true name h = refl
not_wrong false name h = ground arith

found_secret :
    (remote : List Binding) (name : Text) (found : Option Binding)
    → find (λ entry. text_eq entry.name name) remote ≡ found
    → is_bad (name, status_of found) ≡ false
    → IsSecret remote name
found_secret remote name none e h = ground arith
found_secret remote name (some binding) e h =
    (binding, e, (text_eq_iff binding.kind secret_text_type).0 (not_wrong _ name h))

neither : (a b : Bool) → a || b ≡ false → (a ≡ false) × (b ≡ false)
neither true b h = ground arith
neither false b h = (refl, h)

unnegated : (b : Bool) → not b ≡ true → b ≡ false
unnegated true h = sym h
unnegated false h = refl

checked :
    (remote : List Binding) (required : List Text)
    → secret_bindings_failed (check_secret_text_bindings required remote) ≡ false
    → All (IsSecret remote) required
unfolding check_secret_text_bindings
checked remote [] h = tt
checked remote (name ∷ names) h =
    let both = neither _ _ h in
    (found_secret remote name _ refl both.0, checked remote names both.1)

-- A listing in which each of these names is a secret.
abbrev pub IsListed : Option Json → List Text → Type 0
IsListed output required =
    (remote : List Binding) × (parse_secret_list_output output ≡ some remote)
    × All (IsSecret remote) required

listed :
    (required : List Text) (output : Option Json) (found : Option (List Binding))
    → parse_secret_list_output output ≡ found
    → listed_ok required found ≡ true
    → IsListed output required
listed required output none e h = ground arith
listed required output (some remote) e h = (remote, e, checked remote required (unnegated _ h))

-- What the gate asks of the names that a deployment needs.
abbrev pub IsGated : List Text → ℕ → Option Json → Type 0
IsGated required exit_code output = (required ≡ []) ⊎ ((exit_code ≡ 0) × IsListed output required)

both_hold : (a b : Bool) → (if a then b else false) ≡ true → (a ≡ true) × (b ≡ true)
both_hold true b h = (refl, h)
both_hold false b h = ground arith

is_zero : (n : ℕ) → n == 0 ≡ true → n ≡ 0
is_zero n h = ground arith

all_listed-IsGated :
    (required : List Text) (exit_code : ℕ) (output : Option Json)
    → all_listed required exit_code output ≡ true
    → IsGated required exit_code output
unfolding all_listed
all_listed-IsGated [] exit_code output h = inl refl
all_listed-IsGated (name ∷ names) exit_code output h =
    let both = both_hold _ _ h in
    inr (is_zero exit_code both.0, listed (name ∷ names) output _ refl both.1)

-- A deployment whose secrets pass the gate needs none, or the listing succeeded and parses, and
-- the first entry of it with the name of each secret that the deployment needs is a binding of the
-- type secret_text.
pub check_worker_secrets-IsGated :
    (lower : Text → Text) (parse_url : Text → Option Url) (environment : Text) (vars : Runtime)
    (exit_code : ℕ) (output : Option Json)
    → check_worker_secrets lower parse_url environment vars exit_code output ≡ ok true
    → (required : List Text) × (required_worker_secrets lower parse_url environment vars
        ≡ ok required)
      × IsGated required exit_code output
unfolding check_worker_secrets
check_worker_secrets-IsGated lower parse_url environment vars exit_code output h =
    let names = >>=-eq-ok (required_worker_secrets lower parse_url environment vars) _ h in
    (names.0, names.1, all_listed-IsGated names.0 exit_code output (ok-injective _ true names.2))
