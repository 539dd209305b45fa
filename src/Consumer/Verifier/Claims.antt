-- ===== src/Consumer/Verifier/Claims.antt =====
-- The claims that `verifyConsumerToken` accepts.
use mathlib.Core.Bool.{false≢true}
use user_service_platform.Prelude.{
  ℕ, ◌+◌, ◌≤◌, ◌<◌, ◌≡◌, ◌≢◌, refl, ap, subst, Bool, true, false, not, List, [], ◌∷◌, Option, none,
  some, Option-cases, inl, inr, Result, ok, ◌>>=◌, ◌>>◌, guard, All, any, arith,
}
use user_service_platform.Prelude.Int.{ℤ, pos_part, neg_part, ◌<ℤ◌, le_shifted}
use user_service_platform.Text.{Text, codes}
use user_service_platform.Text.Laws.{text_eq_iff, text_eq_refl}
use user_service_platform.Json.{
  Json, int, str, arr, nil, cons, Members, get, as_filled_text, as_integer, is_text, is_empty_array,
}
use user_service_platform.Consumer.Verifier.{
  Snapshot, ErrorCode, from_option, forbidden_claims, is_some, snapshot_of, has_forbidden_claim,
  invalid_issuer, invalid_audience, token_expired, invalid_issued_at, invalid_subject,
  forbidden_claim, invalid_entitlements, unexpired, issued_by, check_claims,
}

pub guard_inv :
    {A : Type 0} (b : Bool) (e : ErrorCode) (k : Result ErrorCode A) (a : A)
    → (guard b e >> k) ≡ ok a
    → (b ≡ true) × (k ≡ ok a)
guard_inv true e k a h = (refl, h)
guard_inv false e k a h = cc

pub from_option_inv :
    {A B : Type 0} (o : Option A) (e : ErrorCode) (f : A → Result ErrorCode B) (b : B)
    → (from_option o e >>= f) ≡ ok b
    → (a : A) × (o ≡ some a) × (f a ≡ ok b)
from_option_inv none e f b h = cc
from_option_inv (some a) e f b h = (a, refl, h)

pub is_text_inv : (o : Option Json) (t : Text) → is_text o t ≡ true → o ≡ some (str t)
unfolding is_text
is_text_inv none t h = cc
is_text_inv (some (str s)) t h = ap (λ r. some (str r)) ((text_eq_iff s t).0 h)
is_text_inv (some _) t h = cc

as_integer_inv : (o : Option Json) (n : ℤ) → as_integer o ≡ some n → o ≡ some (int n)
unfolding as_integer
as_integer_inv none n h = cc
as_integer_inv (some (int m)) n h = cc
as_integer_inv (some _) n h = cc

pub as_filled_text_inv :
    (o : Option Json) (t : Text) → as_filled_text o ≡ some t → (o ≡ some (str t)) × (t ≢ [])
unfolding as_filled_text
as_filled_text_inv none t h = cc
as_filled_text_inv (some (str [])) t h = cc
as_filled_text_inv (some (str (c ∷ s))) t h = ground arith
as_filled_text_inv (some _) t h = cc

is_empty_array_inv : (o : Option Json) → is_empty_array o ≡ true → o ≡ some (arr nil)
unfolding is_empty_array
is_empty_array_inv none h = cc
is_empty_array_inv (some (arr nil)) h = refl
is_empty_array_inv (some (arr (cons _ _))) h = cc
is_empty_array_inv (some _) h = cc

absent_inv :
    (payload : Members) (claims : List Text)
    → not (any (λ claim. is_some (get claim payload)) claims) ≡ true
    → All (λ claim. get claim payload ≡ none) claims
absent_inv payload [] h = tt
absent_inv payload (claim ∷ claims) h = elim (Option-cases (get claim payload)) [
  | inl missing ↦ (missing, absent_inv payload claims (rw missing at h))
  | inr (v, found) ↦ absurd (false≢true (rw found at h))
]

-- The claims of an acceptable token at a time, within a tolerance.
pub record ClaimsHold (issuer audience : Text) (now tolerance : ℕ) (payload : Members)
    (snapshot : Snapshot) : Type 0 where
  pub issuer_claim : get (codes "iss") payload ≡ some (str issuer)
  pub audience_claim : get (codes "aud") payload ≡ some (str audience)
  pub expiry_claim : get (codes "exp") payload ≡ some (int snapshot.expires_at)
  pub unexpired_yet : now + neg_part snapshot.expires_at < pos_part snapshot.expires_at + tolerance
  pub issue_claim : get (codes "iat") payload ≡ some (int snapshot.issued_at)
  pub issued_before : pos_part snapshot.issued_at ≤ now + tolerance + neg_part snapshot.issued_at
  pub lifetime : snapshot.issued_at <ℤ snapshot.expires_at
  pub subject_claim : get (codes "sub") payload ≡ some (str snapshot.subject)
  pub subject_filled : snapshot.subject ≢ []
  pub nothing_forbidden : All (λ claim. get claim payload ≡ none) forbidden_claims
  pub no_rights : get (codes "entitlements") payload ≡ some (arr nil)
  pub issuer_kept : snapshot.issuer ≡ issuer
  pub audience_kept : snapshot.audience ≡ audience

unexpired_inv :
    (exp : ℤ) (now tolerance : ℕ)
    → unexpired exp now tolerance ≡ true
    → now + neg_part exp < pos_part exp + tolerance
unexpired_inv exp now tolerance h = ground arith

issued_by_inv :
    (iat : ℤ) (now tolerance : ℕ)
    → issued_by iat now tolerance ≡ true
    → pos_part iat ≤ now + tolerance + neg_part iat
issued_by_inv iat now tolerance h = ground arith

lifetime_inv : (exp iat : ℤ) → not (le_shifted exp 0 iat 0) ≡ true → iat <ℤ exp
lifetime_inv exp iat h = ground arith

pub is_text_intro : (o : Option Json) (t : Text) → o ≡ some (str t) → is_text o t ≡ true
unfolding is_text
is_text_intro o t e = rw e (text_eq_refl t)

as_integer_intro : (o : Option Json) (n : ℤ) → o ≡ some (int n) → as_integer o ≡ some n
unfolding as_integer
as_integer_intro o n e = rw e refl

pub as_filled_text_intro :
    (o : Option Json) (t : Text) → o ≡ some (str t) → t ≢ [] → as_filled_text o ≡ some t
unfolding as_filled_text
as_filled_text_intro o [] e h = absurd (h refl)
as_filled_text_intro o (c ∷ s) e h = rw e refl

is_empty_array_intro : (o : Option Json) → o ≡ some (arr nil) → is_empty_array o ≡ true
unfolding is_empty_array
is_empty_array_intro o e = rw e refl

unexpired_intro :
    (exp : ℤ) (now tolerance : ℕ)
    → now + neg_part exp < pos_part exp + tolerance
    → unexpired exp now tolerance ≡ true
unexpired_intro exp now tolerance h = ground arith

issued_by_intro :
    (iat : ℤ) (now tolerance : ℕ)
    → pos_part iat ≤ now + tolerance + neg_part iat
    → issued_by iat now tolerance ≡ true
issued_by_intro iat now tolerance h = ground arith

lifetime_intro : (exp iat : ℤ) → iat <ℤ exp → not (le_shifted exp 0 iat 0) ≡ true
lifetime_intro exp iat h = ground arith

abbrev check_result : Snapshot → Result ErrorCode Snapshot
check_result snapshot = ok snapshot

module _ (issuer audience : Text) (now tolerance : ℕ) (payload : Members) where
  claims_hold :
      (exp iat : ℤ) (sub : Text) (snapshot : Snapshot)
      → is_text (get (codes "iss") payload) issuer ≡ true
      → is_text (get (codes "aud") payload) audience ≡ true
      → as_integer (get (codes "exp") payload) ≡ some exp
      → unexpired exp now tolerance ≡ true
      → as_integer (get (codes "iat") payload) ≡ some iat
      → issued_by iat now tolerance ≡ true
      → not (le_shifted exp 0 iat 0) ≡ true
      → as_filled_text (get (codes "sub") payload) ≡ some sub
      → not (has_forbidden_claim payload) ≡ true
      → is_empty_array (get (codes "entitlements") payload) ≡ true
      → check_result (snapshot_of issuer audience exp iat sub) ≡ ok snapshot
      → ClaimsHold issuer audience now tolerance payload snapshot
  claims_hold exp iat sub snapshot iss aud exp_is fresh iat_is issued lived sub_is clean empty
        same =
      let same' : snapshot_of issuer audience exp iat sub ≡ snapshot = ground arith in
      let (sub_claim, filled) = as_filled_text_inv (get (codes "sub") payload) sub sub_is in
      let expiry = as_integer_inv (get (codes "exp") payload) exp exp_is in
      let issue = as_integer_inv (get (codes "iat") payload) iat iat_is in
      subst (ClaimsHold issuer audience now tolerance payload) same' (record {
        issuer_claim = is_text_inv (get (codes "iss") payload) issuer iss;
        audience_claim = is_text_inv (get (codes "aud") payload) audience aud;
        expiry_claim = expiry;
        unexpired_yet = unexpired_inv exp now tolerance fresh;
        issue_claim = issue;
        issued_before = issued_by_inv iat now tolerance issued;
        lifetime = lifetime_inv exp iat lived;
        subject_claim = sub_claim;
        subject_filled = filled;
        nothing_forbidden = unfold has_forbidden_claim in absent_inv payload forbidden_claims clean;
        no_rights = is_empty_array_inv (get (codes "entitlements") payload) empty;
        issuer_kept = refl;
        audience_kept = refl;
      })

  pub check_claims_sound :
      (snapshot : Snapshot)
      → check_claims issuer audience now tolerance payload ≡ ok snapshot
      → ClaimsHold issuer audience now tolerance payload snapshot
  unfolding check_claims
  check_claims_sound snapshot h =
      let (iss, h1) =
        guard_inv (is_text (get (codes "iss") payload) issuer) invalid_issuer _ snapshot h in
      let (aud, h2) =
        guard_inv (is_text (get (codes "aud") payload) audience) invalid_audience _ snapshot h1 in
      let (exp, exp_is, h3) =
        from_option_inv (as_integer (get (codes "exp") payload)) token_expired _ snapshot h2 in
      let (fresh, h4) = guard_inv (unexpired exp now tolerance) token_expired _ snapshot h3 in
      let (iat, iat_is, h5) =
        from_option_inv (as_integer (get (codes "iat") payload)) invalid_issued_at _ snapshot h4 in
      let (issued, h6) = guard_inv (issued_by iat now tolerance) invalid_issued_at _ snapshot h5 in
      let (lived, h7) = guard_inv (not (le_shifted exp 0 iat 0)) token_expired _ snapshot h6 in
      let (sub, sub_is, h8) =
        from_option_inv (as_filled_text (get (codes "sub") payload)) invalid_subject _ snapshot
          h7 in
      let (clean, h9) =
        guard_inv (not (has_forbidden_claim payload)) forbidden_claim _ snapshot h8 in
      let (empty, h10) =
        guard_inv (is_empty_array (get (codes "entitlements") payload)) invalid_entitlements _
          snapshot h9 in
      claims_hold exp iat sub snapshot iss aud exp_is fresh iat_is issued lived sub_is clean empty
        h10

  absent_test :
      (claims : List Text)
      → All (λ claim. get claim payload ≡ none) claims
      → any (λ claim. is_some (get claim payload)) claims ≡ false
  absent_test [] h = refl
  absent_test (claim ∷ claims) (e, h) = rw e (absent_test claims h)

  forbidden_intro :
      All (λ claim. get claim payload ≡ none) forbidden_claims → has_forbidden_claim payload ≡ false
  unfolding has_forbidden_claim
  forbidden_intro h = absent_test forbidden_claims h

  pub check_claims_complete :
      (snapshot : Snapshot)
      → ClaimsHold issuer audience now tolerance payload snapshot
      → check_claims issuer audience now tolerance payload ≡ ok snapshot
  unfolding check_claims
  check_claims_complete snapshot v =
      let iss = is_text_intro _ issuer v.issuer_claim in
      let aud = is_text_intro _ audience v.audience_claim in
      let exp = as_integer_intro _ snapshot.expires_at v.expiry_claim in
      let fresh = unexpired_intro snapshot.expires_at now tolerance v.unexpired_yet in
      let iat = as_integer_intro _ snapshot.issued_at v.issue_claim in
      let issued = issued_by_intro snapshot.issued_at now tolerance v.issued_before in
      let lived = lifetime_intro snapshot.expires_at snapshot.issued_at v.lifetime in
      let sub = as_filled_text_intro _ snapshot.subject v.subject_claim v.subject_filled in
      let clean = forbidden_intro v.nothing_forbidden in
      let empty = is_empty_array_intro _ v.no_rights in
      rw (iss, aud, exp, fresh, iat, issued, lived, sub, clean, empty) (ground arith)
