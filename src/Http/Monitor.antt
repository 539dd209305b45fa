-- ===== src/Http/Monitor.antt =====
-- Monitors of runs: an automaton that reads the calls a handler makes and what they answer, and says
-- which call and which response it admits. The lemmas follow the control flow of the handlers.
pub mod Handlers
use user_service_platform.Prelude.{
  ℕ, suc, ◌+◌, ◌≤◌, arith, length, length-append, Bool, true, false, List, [], ◌∷◌, Option, none,
  some, Result, ok, err, ◌>>=◌, if◌then◌else◌, ◌≡◌, refl, sym, ◌∙◌, subst, ◌++◌, append_assoc,
  append-nil,
}
use user_service_platform.Text.{Text}
use user_service_platform.Json.{Json}
use user_service_platform.Identity.Session.{SessionContext}
use user_service_platform.Http.{
  Response, Raised, Call, get_session, Answer, Reply, returned, raised, Run, responds, throws,
  awaits,
}
use user_service_platform.Http.Scope.{
  Request, Platform, ScopeError, or_throws, unless_rejected, with_scope, session_of, on_session,
  session_scope, session_from, resolve_session_context, guard_cookie_mutation, scoped_auth, Base,
}
use user_service_platform.Http.Router.Accounts.{password_disabled, if_enabled}

-- A call with what it returned or raised.
pub record Event : Type 0 where
  pub call : Call
  pub reply : Reply (Answer call)

-- The runs that a run goes on to, with the events on the way.
pub data Steps : Run → List Event → Run → Type 0 where
  stop : (run : Run) → Steps run [] run
  next :
      (call : Call) (rest : Reply (Answer call) → Run) (reply : Reply (Answer call))
      {events : List Event} {last : Run}
      → Steps (rest reply) events last
      → Steps (awaits call rest) (record { call = call; reply = reply } ∷ events) last

pub record Monitor : Type 1 where
  pub State : Type 0
  pub advance : State → (call : Call) → Reply (Answer call) → State
  pub Allows : State → Call → Type 0
  pub Accepts : State → Response → Type 0

module _ (m : Monitor) where
  abbrev pub Safe : m.State → Run → Type 0
  Safe s (responds response) = m.Accepts s response
  Safe s (throws _) = Unit
  Safe s (awaits call rest) =
      m.Allows s call × ((reply : Reply (Answer call)) → Safe (m.advance s call reply) (rest reply))

  -- The state of the monitor after the events.
  abbrev pub after : m.State → List Event → m.State
  after s [] = s
  after s (event ∷ events) = after (m.advance s event.call event.reply) events

  pub Safe-Steps :
      {run last : Run} {events : List Event} (s : m.State)
      → Steps run events last
      → Safe s run
      → Safe (after s events) last
  Safe-Steps s (stop _) h = h
  Safe-Steps s (next call rest reply steps) h =
      Safe-Steps (m.advance s call reply) steps (h.1 reply)

  pub Safe-unless_rejected :
      (s : m.State) (rejected : Option Response) (run : Run)
      → ((response : Response) → rejected ≡ some response → m.Accepts s response)
      → (rejected ≡ none → Safe s run)
      → Safe s (unless_rejected rejected run)
  Safe-unless_rejected s none run h k = k refl
  Safe-unless_rejected s (some response) run h k = h response refl

  pub Safe-with_scope :
      {A : Type 0} (s : m.State) (scope : Result ScopeError A) (k : A → Run)
      → ((a : A) → scope ≡ ok a → Safe s (k a))
      → Safe s (with_scope scope k)
  Safe-with_scope s (ok a) k h = h a refl
  Safe-with_scope s (err e) k h = tt

  pub Safe-if :
      (s : m.State) (b : Bool) (run other : Run)
      → (b ≡ true → Safe s run)
      → (b ≡ false → Safe s other)
      → Safe s (if b then run else other)
  Safe-if s true run other h k = h refl
  Safe-if s false run other h k = k refl

  pub Safe-or_throws :
      {A : Type 0} (s : Reply A → m.State) (k : A → Run)
      → ((a : A) → Safe (s (returned a)) (k a))
      → (reply : Reply A) → Safe (s reply) (or_throws k reply)
  Safe-or_throws s k h (returned a) = h a
  Safe-or_throws s k h (raised error) = tt

  pub Safe-Option :
      {A : Type 0} (s : m.State) (k : Option A → Run) (o : Option A)
      → Safe s (k none)
      → ((a : A) → o ≡ some a → Safe s (k (some a)))
      → Safe s (k o)
  Safe-Option s k none h h' = h
  Safe-Option s k (some a) h h' = h' a refl

  pub Safe-on_session :
      (s : Reply Json → m.State) (k : Option SessionContext → Run)
      → ((reply : Reply Json) → Safe (s reply) (k none))
      → ((payload : Json) (session : SessionContext)
          → session_of payload ≡ some session
          → Safe (s (returned payload)) (k (some session)))
      → (reply : Reply Json) → Safe (s reply) (on_session k reply)
  Safe-on_session s k h h' (raised error) = tt
  Safe-on_session s k h h' (returned payload) =
      Safe-Option (s (returned payload)) k (session_of payload) (h (returned payload))
        (λ session e. h' payload session e)

  Safe-session_from :
      (p : Platform) (c : Request) (s : m.State) (k : Option SessionContext → Run)
      (scope : Result ScopeError Text)
      → Safe s (awaits get_session (on_session k))
      → Safe s (session_from p c k scope)
  Safe-session_from p c s k (err e) h = tt
  Safe-session_from p c s k (ok secret) h = Safe-if s c.engine_builds _ _ (λ _. h) (λ _. tt)

  pub Safe-resolve_session_context :
      (p : Platform) (c : Request) (s : m.State) (k : Option SessionContext → Run)
      → m.Allows s get_session
      → ((reply : Reply Json) → Safe (m.advance s get_session reply) (k none))
      → ((payload : Json) (session : SessionContext)
          → session_of payload ≡ some session
          → Safe (m.advance s get_session (returned payload)) (k (some session)))
      → Safe s (resolve_session_context p c k)
  unfolding resolve_session_context
  Safe-resolve_session_context p c s k a h h' =
      Safe-session_from p c s k (session_scope p c)
        (a, Safe-on_session (λ reply. m.advance s get_session reply) k h h')

module _ (m : Monitor) (p : Platform) (c : Request) (s : m.State) where
  -- The routes that begin with the origin guard.
  pub Safe-guarded :
      (cache_control : Option Text) (run : Run)
      → ((response : Response)
          → guard_cookie_mutation p c cache_control ≡ some response
          → m.Accepts s response)
      → (guard_cookie_mutation p c cache_control ≡ none → Safe m s run)
      → Safe m s (unless_rejected (guard_cookie_mutation p c cache_control) run)
  Safe-guarded cache_control run =
      Safe-unless_rejected m s (guard_cookie_mutation p c cache_control) run

  -- The routes that stop where e-mail authentication is disabled.
  pub Safe-enabled :
      (run : Base p → Run)
      → m.Accepts s (password_disabled c)
      → ((base : Base p)
          → scoped_auth p true c ≡ ok base
          → base.policy.email_password_enabled ≡ true
          → Safe m s (run base))
      → Safe m s (with_scope (scoped_auth p true c) (λ base. if_enabled c base.policy (run base)))
  Safe-enabled run a h =
      Safe-with_scope m s (scoped_auth p true c) _
        (λ base e. Safe-if m s base.policy.email_password_enabled (run base) _ (h base e) (λ _. a))

-- Monitors whose state is the events so far.
abbrev pub history : (List Event → Call → Type 0) → (List Event → Response → Type 0) → Monitor
history allows accepts = record {
  State = List Event;
  advance = λ events call reply. events ++ (record { call = call; reply = reply } ∷ []);
  Allows = allows;
  Accepts = accepts;
}

module _ (allows : List Event → Call → Type 0) (accepts : List Event → Response → Type 0) where
  after-history :
      (past events : List Event) → after (history allows accepts) past events ≡ past ++ events
  after-history past [] = sym (append-nil past)
  after-history past (event ∷ events) =
      after-history (past ++ (event ∷ [])) events ∙ append_assoc past (event ∷ []) events

  -- What a run that is safe may call, or respond, after the events.
  pub Safe-history :
      {run last : Run} {events : List Event}
      → Steps run events last
      → Safe (history allows accepts) [] run
      → Safe (history allows accepts) events last
  Safe-history {run} {last} {events} steps h =
      subst (λ past. Safe (history allows accepts) past last) (after-history [] events)
        (Safe-Steps (history allows accepts) [] steps h)

  -- A bound on the events before each call bounds the length of every run.
  pub length-Steps :
      {run last : Run} {events : List Event} (most : ℕ) (past : List Event)
      → ((before : List Event) (call : Call) → allows before call → length before ≤ most)
      → length past ≤ suc most
      → Steps run events last
      → Safe (history allows accepts) past run
      → length past + length events ≤ suc most
  length-Steps most past bound h (stop _) safe = omega (arith, h)
  length-Steps most past bound h (next call rest reply {events} {last} steps) safe =
      let now = bound past call safe.0 in
      let longer = length-append past (record { call = call; reply = reply } ∷ []) in
      omega (
        arith,
        longer,
        length-Steps most (past ++ (record { call = call; reply = reply } ∷ [])) bound
            (omega (arith, now, longer)) steps (safe.1 reply),
      )
