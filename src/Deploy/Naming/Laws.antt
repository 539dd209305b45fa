-- ===== src/Deploy/Naming/Laws.antt =====
-- What a deployment key is, and which identities share one.
use mathlib.Core.List.{append_cancel_right}
use user_service_platform.Prelude.{
  ℕ, ◌≤◌, Bool, true, false, [], ◌∷◌, ◌++◌, append_assoc, Result, ok, >>=-eq-ok, guard, leb, length,
  arith, ◌≡◌, refl, sym, ◌∙◌, ap, subst,
}
use user_service_platform.Text.{Text, codes}
use user_service_platform.Deploy.Naming.{
  environment_name, DeployableEnvironment, sandbox, production, DeploymentIdentity, NamingError,
  invalid_company, invalid_site, invalid_service, name_too_long, malformed_name, is_label,
  assert_slug, assert_worker_name, joined_key, deployment_key, max_worker_name_length,
}

-- The last unit of a text, or what stands before it.
abbrev last_or : ℕ → Text → ℕ
last_or d [] = d
last_or d (c ∷ s) = last_or c s

last_or-append : (d : ℕ) (s t : Text) → last_or d (s ++ t) ≡ last_or (last_or d s) t
last_or-append d [] t = refl
last_or-append d (c ∷ s) t = last_or-append c s t

guard-eq-ok : (b : Bool) (e : NamingError) (u : Unit {0}) → guard b e ≡ ok u → b ≡ true
guard-eq-ok true e u h = refl
guard-eq-ok false e u h = cc

ok-injective : (a b : Text) → ◌≡◌ {A = Result NamingError Text} (ok a) (ok b) → a ≡ b
ok-injective a b h = cc

leb-le : (a b : ℕ) → leb a b ≡ true → a ≤ b
leb-le a b h = ground arith

accepted :
    (identity : DeploymentIdentity) (key : Text)
    → deployment_key identity ≡ ok key
    → (joined_key identity ≡ key)
      × (length (joined_key identity) ≤ 63)
      × (is_label (joined_key identity) ≡ true)
unfolding deployment_key
accepted identity key h =
    let a = >>=-eq-ok (assert_slug invalid_company identity.company) _ h in
    let b = >>=-eq-ok (assert_slug invalid_site identity.site) _ a.2 in
    let c = >>=-eq-ok (assert_slug invalid_service identity.service) _ b.2 in
    let d = >>=-eq-ok (assert_worker_name (joined_key identity)) _ c.2 in
    let e =
      >>=-eq-ok (guard (leb (length (joined_key identity)) max_worker_name_length) name_too_long) _
        d.1 in
    (
      ok-injective (joined_key identity) key d.2,
      leb-le (length (joined_key identity)) 63 (guard-eq-ok _ name_too_long e.0 e.1),
      guard-eq-ok (is_label (joined_key identity)) malformed_name d.0 e.2,
    )

-- The key of a target, `<company>-<site>`.
abbrev pub target_key : DeploymentIdentity → Text
target_key identity = identity.company ++ (b'-' ∷ identity.site)

-- What a key adds to that of its target.
abbrev tail_of : Text → DeployableEnvironment → Text
tail_of service environment = b'-' ∷ (service ++ (b'-' ∷ environment_name environment))

joined_key-target :
    (identity : DeploymentIdentity)
    → joined_key identity ≡ target_key identity ++ tail_of identity.service identity.environment
unfolding codes
joined_key-target identity = sym (
    append_assoc identity.company (b'-' ∷ identity.site)
      (tail_of identity.service identity.environment))

last_of_name :
    (d : ℕ) (environment : DeployableEnvironment)
    → last_or d (environment_name environment) ≡ last_or 0 (environment_name environment)
unfolding codes
last_of_name d sandbox = refl
last_of_name d production = refl

-- The last unit of a key tells its environment.
last_of_key :
    (identity : DeploymentIdentity)
    → last_or 0 (joined_key identity) ≡ last_or 0 (environment_name identity.environment)
unfolding codes
last_of_key identity =
    last_or-append 0 identity.company
      (b'-' ∷ (identity.site ++ tail_of identity.service identity.environment))
    ∙ last_or-append b'-' identity.site (tail_of identity.service identity.environment)
    ∙ last_or-append b'-' identity.service (b'-' ∷ environment_name identity.environment)
    ∙ last_of_name b'-' identity.environment

same_environment :
    (a b : DeployableEnvironment)
    → last_or 0 (environment_name a) ≡ last_or 0 (environment_name b)
    → a ≡ b
unfolding codes
same_environment sandbox sandbox h = refl
same_environment sandbox production h = absurd (omega (arith, h))
same_environment production sandbox h = absurd (omega (arith, h))
same_environment production production h = refl

-- Two deployments of one service with the same key have the same target key and the same
-- environment, and the key is a label of 63 units at most.
pub deployment_key-Separates :
    (one other : DeploymentIdentity) (key : Text)
    → one.service ≡ other.service
    → deployment_key one ≡ ok key
    → deployment_key other ≡ ok key
    → (target_key one ≡ target_key other)
      × (one.environment ≡ other.environment)
      × (length key ≤ 63)
      × (is_label key ≡ true)
deployment_key-Separates one other key service h k =
    let first = accepted one key h in
    let second = accepted other key k in
    let same = first.0 ∙ sym second.0 in
    let environment =
      same_environment one.environment other.environment
        (sym (last_of_key one) ∙ ap (last_or 0) same ∙ last_of_key other) in
    let tails =
      ap (λ s. tail_of s one.environment) service ∙ ap (tail_of other.service) environment in
    (
      append_cancel_right (target_key one) (target_key other)
          (tail_of other.service other.environment)
          (ap (λ t. target_key one ++ t) (sym tails)
            ∙ sym (joined_key-target one)
            ∙ same
            ∙ joined_key-target other),
      environment,
      subst (λ t. length t ≤ 63) first.0 first.1,
      ap is_label (sym first.0) ∙ first.2,
    )
