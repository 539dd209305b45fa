-- ===== src/Http/Boundary.antt =====
-- app.ts around the handlers: the run of a request to its end, and `onError`, which answers what a
-- handler throws.
use user_service_platform.Prelude.{
  ◌≤◌, arith, List, [], ◌∷◌, ◌++◌, length, Option, none, ◌≡◌, refl, ◌⊎◌, inl, inr,
}
use user_service_platform.Text.{codes}
use user_service_platform.Http.{
  internal_error, create_problem, problem_body, Response, Call, Answer, Reply, Phase, Run, responds,
  throws, awaits,
}
use user_service_platform.Http.Scope.{Request, Platform}
use user_service_platform.Http.Router.{Operation, handle}
use user_service_platform.Http.Monitor
use user_service_platform.Http.Monitor.{Event, Steps, stop, next}
use user_service_platform.Http.Permissions
use user_service_platform.Http.Responses.{IsConformant}
use user_service_platform.Http.Responses.Laws.{handle-IsConformant}

-- What every call returns or raises, which may depend on all that has happened in the run.
abbrev pub World : Type 0
World = List Event → (call : Call) → Reply (Answer call)

-- The response of `app.onError`: no message, and no path.
abbrev pub on_error : Response
on_error = record {
  status = 500;
  body = problem_body (create_problem 500 internal_error (codes "Internal Server Error") none none);
  cache_control = none;
  cookies = [];
}

-- The events with a call that has been answered.
abbrev pub then_event : World → List Event → Call → List Event
then_event world past call = past ++ (record { call = call; reply = world past call } ∷ [])

-- The service's answer after the events: the handler's, or that of `onError` where the handler
-- throws.
unfoldable pub served : World → List Event → Run → Response
served world past (responds response) = response
served world past (throws phase) = on_error
served world past (awaits call rest) =
    served world (then_event world past call) (rest (world past call))

-- Each of the events has the reply that the world gives after those before it.
abbrev pub IsOf : World → List Event → List Event → Type 0
IsOf world past [] = Unit
IsOf world past (event ∷ events) =
    (event.reply ≡ world past event.call) × IsOf world (past ++ (event ∷ [])) events

-- How a run ends: with the response that is served, or with an error that `onError` answers.
pub data Ends (served_response : Response) : Run → Type 0 where
  answered : Ends served_response (responds served_response)
  failed : (phase : Option Phase) → served_response ≡ on_error → Ends served_response (throws phase)

-- The end of a run in a world, and the events up to it.
pub record Completion (world : World) (past : List Event) (run : Run) : Type 0 where
  pub events : List Event
  pub last : Run
  pub steps : Steps run events last
  pub over : Ends (served world past run) last
  pub replies : IsOf world past events

complete : (world : World) (past : List Event) (run : Run) → Completion world past run
unfolding served
complete world past (responds response) = record {
  events = [];
  last = responds response;
  steps = stop _;
  over = answered;
  replies = tt;
}
complete world past (throws phase) = record {
  events = [];
  last = throws phase;
  steps = stop _;
  over = failed phase refl;
  replies = tt;
}
complete world past (awaits call rest) =
    let later = complete world (then_event world past call) (rest (world past call)) in
    record {
      events = record { call = call; reply = world past call } ∷ later.events;
      last = later.last;
      steps = next call rest (world past call) later.steps;
      over = later.over;
      replies = (refl, later.replies);
    }

-- Whatever every call returns or raises, given all that has happened before it, a handler comes to
-- its end, a response that is served or an error that the error boundary answers, after five calls
-- at most.
pub handle-Completion :
    (p : Platform) (c : Request) (op : Operation) (world : World)
    → (done : Completion world [] (handle p c op)) × (length done.events ≤ 5)
handle-Completion p c op world =
    let done = complete world [] (handle p c op) in
    let short =
      Monitor.length-Steps (Permissions.IsAllowed op) (λ _ _. Unit) 4 [] (λ _ _ allowed. allowed.0)
        (omega arith) done.steps (Permissions.Safe-handle p c op) in
    (done, omega (arith, short))

-- What is answered: a response of the contract where the handler ends with one, and else the
-- problem of the error boundary.
abbrev pub IsServed : Request → Operation → Response → Run → Type 0
IsServed c op response last =
    ((last ≡ responds response) × IsConformant c op response)
    ⊎ ((phase : Option Phase) × (last ≡ throws phase) × (response ≡ on_error))

Ends-IsServed :
    (p : Platform) (c : Request) (op : Operation) (response : Response) (events : List Event)
    {last : Run}
    → Steps (handle p c op) events last
    → Ends response last
    → IsServed c op response last
Ends-IsServed p c op response events steps answered =
    inl (refl, handle-IsConformant p c op events _ steps)
Ends-IsServed p c op response events steps (failed phase e) = inr (phase, refl, e)

-- Whatever every call returns or raises, given all that has happened before it, a handler comes to
-- its end after five calls at most, and the service answers with the response that it ends with,
-- which conforms to the contract of the operation, or, where the handler throws, with the problem
-- with status 500 that the error boundary gives.
pub served-IsConformant :
    (p : Platform) (c : Request) (op : Operation) (world : World)
    → (events : List Event) × (last : Run) × (Steps (handle p c op) events last)
      × IsOf world [] events
      × (length events ≤ 5)
      × IsServed c op (served world [] (handle p c op)) last
served-IsConformant p c op world =
    let (done, short) = handle-Completion p c op world in
    (
      done.events,
      done.last,
      done.steps,
      done.replies,
      short,
      Ends-IsServed p c op _ done.events done.steps done.over,
    )
