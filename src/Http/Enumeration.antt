-- ===== src/Http/Enumeration.antt =====
-- Requests that name an e-mail address answer the same whoever the address belongs to.
use user_service_platform.Prelude.{
  Bool, true, false, List, [], ◌∷◌, All, Result, ok, err, leb, if◌then◌else◌, ◌≡◌, refl, sym, ◌∙◌,
}
use user_service_platform.Text.{Text}
use user_service_platform.Http.{
  status_ok, Response, EngineResponse, is_ok, Call, send_verification_email,
  request_password_reset_for, Answer, Reply, returned, raised, Run, responds, awaits,
}
use user_service_platform.Http.Scope.{
  Request, Platform, ScopeError, Base, scoped_auth, with_scope, responded,
}
use user_service_platform.Http.Router.{
  Operation, request_verification, request_password_reset, handle,
}
use user_service_platform.Http.Router.Accounts
use user_service_platform.Http.Router.Accounts.{
  json, password_disabled, is_mismatch, verification_requested, reset_requested, call_engine,
  if_enabled,
}
use user_service_platform.Http.Monitor

-- The operations that take an address from anybody, each for any address.
pub data IsOpen : (Text → Operation) → Type 0 where
  verification : IsOpen request_verification
  password_reset : IsOpen request_password_reset

-- An answer of the engine that is no failure of its own, and does not say that the address is
-- another than the session's.
abbrev pub Quiet : (call : Call) → Reply (Answer call) → Type 0
Quiet (send_verification_email _) (returned r) =
    (leb 500 r.status ≡ false) × (is_mismatch r ≡ false)
Quiet (request_password_reset_for _) (returned r) = leb 500 r.status ≡ false
Quiet _ _ = ⊥

abbrev pub IsQuiet : Monitor.Event → Type 0
IsQuiet event = Quiet event.call event.reply

-- A last test that decides nothing.
if-same : (b : Bool) (response : Response) → (if b then response else response) ≡ response
if-same true response = refl
if-same false response = refl

quiet_reset :
    (c : Request) (r : EngineResponse)
    → leb 500 r.status ≡ false
    → reset_requested c (responded r) ≡ json 202 status_ok
quiet_reset c r h = rw h (if-same (is_ok r) (json 202 status_ok))

quiet_verification :
    (c : Request) (r : EngineResponse)
    → leb 500 r.status ≡ false
    → is_mismatch r ≡ false
    → verification_requested c (responded r) ≡ json 202 status_ok
quiet_verification c r h k = rw k (rw h (if-same (is_ok r) (json 202 status_ok)))

module _ (p : Platform) (c : Request) where
  -- The response that no address changes.
  abbrev generic : Result ScopeError (Base p) → Response
  generic (ok base) =
      if base.policy.email_password_enabled then json 202 status_ok else password_disabled c
  generic (err e) = json 202 status_ok

  abbrev Accepting : List Monitor.Event → Response → Type 0
  Accepting events response = All IsQuiet events → response ≡ generic (scoped_auth p true c)

  abbrev monitor : Monitor.Monitor
  monitor = Monitor.history (λ _ _. Unit) Accepting

  enabled_generic :
      (b : Bool) (scope : Result ScopeError (Base p)) (base : Base p)
      → scope ≡ ok base
      → base.policy.email_password_enabled ≡ b
      → (if b then json 202 status_ok else password_disabled c) ≡ generic scope
  enabled_generic b scope base e h = rw e (rw h refl)

  Safe-asking :
      (call : Call) (rest : Reply (Answer call) → Run)
      → ((reply : Reply (Answer call)) (base : Base p)
          → scoped_auth p true c ≡ ok base
          → base.policy.email_password_enabled ≡ true
          → Monitor.Safe monitor (record { call = call; reply = reply } ∷ []) (rest reply))
      → Monitor.Safe monitor []
          (with_scope (scoped_auth p true c) (λ base. if_enabled c base.policy (awaits call rest)))
  Safe-asking call rest h = Monitor.Safe-with_scope monitor [] (scoped_auth p true c) _ (λ base e.
      Monitor.Safe-if monitor [] base.policy.email_password_enabled _ _
        (λ on. (tt, λ reply. h reply base e on))
        (λ off _. enabled_generic false (scoped_auth p true c) base e off))

  quiet_reply :
      {op : Text → Operation}
      → IsOpen op
      → (email : Text) → Monitor.Safe monitor [] (handle p c (op email))
  unfolding handle Accounts.request_verification Accounts.request_password_reset
  quiet_reply verification email =
      Safe-asking (send_verification_email email) (call_engine (verification_requested c))
        (λ reply base e on.
          elim reply
            as (λ answer.
              Monitor.Safe monitor
                (record { call = send_verification_email email; reply = answer } ∷ [])
                (call_engine (verification_requested c) answer)) [
                  | returned r ↦ λ quiet.
                      quiet_verification c r quiet.0.0 quiet.0.1
                      ∙ enabled_generic true (scoped_auth p true c) base e on
                  | raised error ↦ λ quiet. absurd quiet.0
                ])
  quiet_reply password_reset email =
      Safe-asking (request_password_reset_for email) (call_engine (reset_requested c))
        (λ reply base e on.
          elim reply
            as (λ answer.
              Monitor.Safe monitor
                (record { call = request_password_reset_for email; reply = answer } ∷ [])
                (call_engine (reset_requested c) answer)) [
                  | returned r ↦ λ quiet.
                      quiet_reset c r quiet.0
                      ∙ enabled_generic true (scoped_auth p true c) base e on
                  | raised error ↦ λ quiet. absurd quiet.0
                ])

-- Two requests for a password reset, or for a verification, which differ in the address only get
-- the same response, whatever two answers below 500 the engine gives, unless it says that the
-- address is another than the session's.
pub handle-SameAnswer :
    (p : Platform) (c : Request) {op : Text → Operation} (public : IsOpen op) (email other : Text)
    (events later : List Monitor.Event) (response answer : Response)
    → Monitor.Steps (handle p c (op email)) events (responds response)
    → Monitor.Steps (handle p c (op other)) later (responds answer)
    → All IsQuiet events
    → All IsQuiet later
    → response ≡ answer
handle-SameAnswer p c public email other events later response answer steps others quiet still =
    Monitor.Safe-history (λ _ _. Unit) (Accepting p c) steps (quiet_reply p c public email) quiet
    ∙ sym (
        Monitor.Safe-history (λ _ _. Unit) (Accepting p c) others (quiet_reply p c public other)
          still)
