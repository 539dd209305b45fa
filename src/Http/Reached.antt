-- ===== src/Http/Reached.antt =====
-- What reaches the error boundary of app.ts: the answers of the service in a world that gives the
-- replies that no handler gives up on.
use user_service_platform.Prelude.{List, [], sym, subst, inl, inr}
use user_service_platform.Http.{Call, Response, Run}
use user_service_platform.Http.Scope.{Request, Platform}
use user_service_platform.Http.Router.{Operation, handle}
use user_service_platform.Http.Monitor.{Event, Steps, stop, next}
use user_service_platform.Http.Responses.{IsConformant}
use user_service_platform.Http.Boundary.{World, IsOf, IsServed, served, served-IsConformant}
use user_service_platform.Http.Responding.{IsAnswered, Responds, IsConfigured, Responds-handle}

-- A run that responds to these replies responds in a world that gives them.
Responds-last :
    (world : World) (run : Run) (past : List Event)
    → ((before : List Event) (call : Call) → IsAnswered call (world before call))
    → Responds run
    → {events : List Event} {last : Run} → Steps run events last
    → IsOf world past events
    → Responds last
Responds-last world run past answered h (stop _) replies = h
Responds-last world run past answered h (next call rest reply steps) (given, replies) =
    Responds-last world (rest reply) _ answered
      (h reply (subst (IsAnswered call) (sym given) (answered past call))) steps replies

served-Responds :
    (c : Request) (op : Operation) {response : Response} {last : Run}
    → IsServed c op response last
    → Responds last
    → IsConformant c op response
served-Responds c op (inl (_, conformant)) h = conformant
served-Responds c op (inr (phase, thrown, _)) h = absurd (subst Responds thrown h)

-- Where the configuration of the request resolves and the engine can be built, the session, the
-- permission and the queries are answered, and a user that the engine makes can be read, or its
-- address is taken, no handler throws: whatever else the engine returns or raises, the service
-- answers with a response of the contract of the operation.
pub served-IsConfigured :
    (p : Platform) (c : Request) (op : Operation) (world : World)
    → IsConfigured p c
    → ((before : List Event) (call : Call) → IsAnswered call (world before call))
    → IsConformant c op (served world [] (handle p c op))
served-IsConfigured p c op world v answered =
    let (events, last, steps, replies, short, ending) = served-IsConformant p c op world in
    served-Responds c op ending
      (Responds-last world (handle p c op) [] answered (Responds-handle p c op v) steps replies)
