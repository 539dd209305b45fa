-- ===== src/Consumer/Client/Verified.antt =====
-- What stands behind an identity that the operations of client.ts return.
use user_service_platform.Prelude.{
  ℕ, ◌≡◌, refl, ap, ◌∙◌, Bool, true, false, ◌⊎◌, inl, inr, List, Option, none, some, ◌==◌,
  if◌then◌else◌,
}
use user_service_platform.Prelude.Int.{ℤ}
use user_service_platform.Text.{Text, text_eq}
use user_service_platform.Text.Laws.{text_eq_iff}
use user_service_platform.Consumer.Verifier.{Jwk, read_token_kid}
use user_service_platform.Consumer.Storage.{User}
use user_service_platform.Consumer.Client.{
  Setup, State, Identity, ClientError, Reply, answered, refused, unreachable, Lookup,
  keys_unavailable, no_key, cached, Answer, Step, returns, throws, awaits, Checked, valid, invalid,
  session_of, identity_of, discard, save, check, resume, look_up, verify_kid, verify_stored,
}
use user_service_platform.Consumer.Client.Session.{failed, login_checked, login}

-- However a tree of steps returns, whatever was answered, the state and the result satisfy P.
unfoldable pub Ends : {A : Type 0} → (State → A → Type 0) → Step A → Type 0
Ends P (returns s a) = P s a
Ends P (throws s e) = Unit
Ends P (awaits s r k) = (answer : Answer r) (s' : State) → Ends P (k answer s')

-- A checked token for the user: it authenticates the identity, and the store holds it with that
-- identity.
pub record IsProven (setup : Setup) (s : State) (identity : Identity) : Type 0 where
  pub token : Text
  pub at : ℕ
  pub keys : List Jwk
  pub before : State
  pub checks : check setup token at keys ≡ valid identity.id identity.expires_at
  pub user : User
  pub shown : identity ≡ identity_of user identity.expires_at
  pub saves : s ≡ save setup (session_of token user identity.expires_at) before

-- The outcome of a check against some keys.
abbrev IsCheck : Setup → Text → ℕ → Checked → Type 0
IsCheck setup token at checked =
    (checked ≡ invalid) ⊎ ((keys : List Jwk) × (check setup token at keys ≡ checked))

module _ (setup : Setup) (A : Type 0) (P : State → A → Type 0) where
  if-Ends :
      (b : Bool) (x y : Step A) → (b ≡ true → Ends P x) → Ends P y → Ends P (if b then x else y)
  if-Ends true x y h k = h refl
  if-Ends false x y h k = k

  module _ (token : Text) (at : ℕ) (k : Checked → State → Step A)
      (h : (checked : Checked) (s : State)
        → IsCheck setup token at checked
        → Ends P (k checked s)) where
    look_up-Ends : (found : Lookup) (s : State) → Ends P (look_up setup token at k found s)
    unfolding Ends look_up resume
    look_up-Ends keys_unavailable s = tt
    look_up-Ends no_key s = λ _ s'. h invalid s' (inl refl)
    look_up-Ends (cached keys) s = λ _ s1 _ s2. h (check setup token at keys) s2 (inr (keys, refl))

    verify_kid-Ends : (kid : Option Text) (s : State) → Ends P (verify_kid setup token at k kid s)
    unfolding Ends verify_kid resume
    verify_kid-Ends none s = λ _ s'. h invalid s' (inl refl)
    verify_kid-Ends (some kid) s = λ found s'. look_up-Ends found s'

    verify_stored-Ends : (s : State) → Ends P (verify_stored setup token at k s)
    unfolding verify_stored
    verify_stored-Ends s = verify_kid-Ends (read_token_kid setup.platform token) s

  failed-Ends :
      (B : Type 0) (k : B → State → Step A)
      → ((b : B) (s : State) → Ends P (k b s))
      → (reply : Reply B) (s : State) → Ends P (failed k reply s)
  unfolding Ends failed
  failed-Ends B k h (answered b) s = h b s
  failed-Ends B k h (refused status code) s = tt
  failed-Ends B k h unreachable s = tt

  throws-Ends : (s : State) (e : ClientError) → Ends P (throws s e)
  unfolding Ends
  throws-Ends s e = tt

valid-or-invalid : (subject : Text) (expires_at : ℤ) → valid subject expires_at ≡ invalid → ⊥
valid-or-invalid subject expires_at h = cc

-- The write at the end of a successful attempt.
IsProven-Ends :
    (setup : Setup) (token : Text) (at : ℕ) (keys : List Jwk) (subject : Text) (expires_at : ℤ)
    (user : User) (s : State)
    → check setup token at keys ≡ valid subject expires_at
    → text_eq subject user.id ≡ true
    → Ends
        (IsProven setup)
        (returns (save setup (session_of token user expires_at) s) (identity_of user expires_at))
unfolding Ends
IsProven-Ends setup token at keys subject expires_at user s h same = record {
  token = token;
  at = at;
  keys = keys;
  before = s;
  checks = h ∙ ap (λ text. valid text expires_at) ((text_eq_iff subject user.id).0 same);
  user = user;
  shown = refl;
  saves = refl;
}

login_checked-Ends :
    (setup : Setup) (attempt : ℕ) (user : User) (token : Text) (at : ℕ) (checked : Checked)
    (s : State)
    → IsCheck setup token at checked
    → Ends (IsProven setup) (login_checked setup attempt user token checked s)
unfolding login_checked
login_checked-Ends setup attempt user token at (valid subject expires_at) s (inl h) =
    absurd (valid-or-invalid subject expires_at h)
login_checked-Ends setup attempt user token at (valid subject expires_at) s (inr (keys, h)) =
    if-Ends setup Identity (IsProven setup) (attempt == s.generation) _ _
      (λ _.
        if-Ends setup Identity (IsProven setup) (text_eq subject user.id) _ _
          (λ same. IsProven-Ends setup token at keys subject expires_at user s h same)
          (throws-Ends setup Identity (IsProven setup) _ _))
      (throws-Ends setup Identity (IsProven setup) _ _)
login_checked-Ends setup attempt user token at invalid s h =
    if-Ends setup Identity (IsProven setup) (attempt == s.generation) _ _
      (λ _. throws-Ends setup Identity (IsProven setup) _ _)
      (throws-Ends setup Identity (IsProven setup) _ _)

-- Whatever the service and the other tasks do, a login that returns an identity has checked a
-- token whose subject is that user, and returns in the state that holds the token under that
-- identity.
pub login-Ends :
    (setup : Setup) (email password : Text) (s : State)
    → Ends (IsProven setup) (login setup email password s)
unfolding login Ends
login-Ends setup email password s = λ reply s1.
    failed-Ends setup Identity (IsProven setup) User _
      (λ user s2 reply' s3.
        failed-Ends setup Identity (IsProven setup) Text _
          (λ token s4.
            verify_stored-Ends setup Identity (IsProven setup) token s4.now
              (login_checked setup (discard setup s).generation user token)
              (λ checked s5 h.
                login_checked-Ends setup (discard setup s).generation user token s4.now checked s5
                  h)
              s4)
          reply' s3)
      reply s1
