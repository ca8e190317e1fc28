-- ===== src/Engine/Serve.antt =====
-- src/sir/engine.py: `_serve` and `_observe_duration`, turn by turn. What the backend's stream does
-- next is an argument of the turn.
use Prim.Native.String.{◌++◌ as str_append}
use stupid_inference_router.Prelude.{
  ℕ, String, Bool, true, false, Option, none, some, List, [], ◌∷◌, ◌++◌, str_eq, if◌then◌else◌,
}
use stupid_inference_router.Prelude.Dict.{Dict, get, put}
use stupid_inference_router.Float.{Float, add, sub, mul, max, lit}
use stupid_inference_router.Types.Request.{
  Chunk, StreamEnd, StreamEvent, chunk, ended, errored, QueuedRequest, RequestState, model,
}
use stupid_inference_router.Types.Scheduling.{EventKind}
use stupid_inference_router.Queues.Defs.{write}
use stupid_inference_router.Engine.Defs.{Engine, emit}

-- What `async for` meets next: a chunk, the backend's own ending, the end of the stream, an
-- exception of the backend or another one, with its `str` and its `repr`, or the task's cancellation.
pub data Turn : Type 0 where
  yields : Chunk → Turn
  ends : StreamEnd → Turn
  exhausted : Turn
  backend_error : String → Turn
  other_error : String → String → Turn
  stopped : Turn

abbrev pub or_stop : Option StreamEnd → StreamEnd
or_stop none = record { finish_reason = "stop"; usage = none }
or_stop (some e) = e

-- `set.add`.
abbrev add_once : String → List String → List String
add_once x [] = x ∷ []
add_once x (y ∷ ys) = if str_eq y x then y ∷ ys else y ∷ add_once x ys

abbrev pub get_or : {A : Type 0} → Option A → A → A
get_or none a = a
get_or (some b) a = b

module _ {F : Type 0} where
  abbrev pub request_of : Engine F → ℕ → QueuedRequest F
  request_of e ref = e.heap ref

  abbrev set_request : Engine F → ℕ → QueuedRequest F → Engine F
  set_request e ref q = record e { heap = write e.heap ref q }

  -- The state changes, and an event goes to the client.
  abbrev tell : QueuedRequest F → RequestState → StreamEvent → QueuedRequest F
  tell q state event = record q { state = state; events = q.events ++ event ∷ [] }

  -- The loop is over: the client has left, or it gets the terminator.
  unfoldable pub conclude : Engine F → F → ℕ → Option StreamEnd → Engine F
  unfolding emit
  conclude e now ref ending =
      let q = e.heap ref in
      if q.cancelled
      then set_request e ref (record q { state = RequestState.cancelled })
      else emit (set_request e ref (tell q RequestState.done (ended (or_stop ending)))) now
          EventKind.complete (model q) q.id none

  -- The body of `_serve` up to its `finally`; the flag says that the task is over.
  unfoldable pub serve_body : Engine F → F → ℕ → Turn → Engine F × Bool
  unfolding conclude
  serve_body e now ref (yields c) =
      let q = e.heap ref in
      if q.cancelled
      then (conclude e now ref none, true)
      else (set_request e ref (record q { events = q.events ++ chunk c ∷ [] }), false)
  serve_body e now ref (ends ending) = (conclude e now ref (some ending), true)
  serve_body e now ref exhausted = (conclude e now ref none, true)
  serve_body e now ref stopped =
      let q = e.heap ref in
      (
        emit (set_request e ref (record q { state = RequestState.cancelled })) now
            EventKind.cancelled (model q) q.id none,
        true,
      )
  serve_body e now ref (backend_error message) =
      let q = e.heap ref in
      (
        emit
            (record (set_request e ref (
              tell q RequestState.failed
                (errored (record { message = message; status_code = 503 })))) {
                  failed = add_once (model q) e.failed;
                })
            now EventKind.failed (model q) message none,
        true,
      )
  serve_body e now ref (other_error message shown) =
      let q = e.heap ref in
      (
        emit
            (set_request e ref (
              tell q RequestState.failed (
                errored
                  (record { message = str_append "internal error: " message; status_code = 500 }))))
            now EventKind.failed (model q) shown none,
        true,
      )

module _ {F : Type 0} ⦃fl : Float F⦄ where
  -- The running average takes in what was observed.
  abbrev pub folded : F → F → F
  folded observed previous = add (mul (lit 2 1) observed) (mul (sub (lit 1 0) (lit 2 1)) previous)

  observe_done : Engine F → String → RequestState → Option F → Option F → Dict F
  observe_done e name RequestState.done (some started) (some finished) =
      let observed = max (lit 0 0) (sub finished started) in
      put name (folded observed (get_or (get name e.mean_seconds) observed)) e.mean_seconds
  observe_done e name _ _ _ = e.mean_seconds

  unfoldable pub observe_duration : Engine F → ℕ → Engine F
  unfolding observe_done
  observe_duration e ref =
      let q = e.heap ref in
      record e { mean_seconds = observe_done e (model q) q.state q.started_at q.finished_at }

  -- `finally`.
  unfoldable pub finish : Engine F → F → ℕ → Engine F
  unfolding observe_duration
  finish e now ref =
      observe_duration (set_request e ref (record (e.heap ref) { finished_at = some now })) ref

  -- Once the body has ended.
  abbrev pub closed : Engine F × Bool → F → ℕ → Engine F × Bool
  closed (e, over) now ref = if over then (finish e now ref, true) else (e, false)

  unfoldable pub serve_turn : Engine F → F → ℕ → Turn → Engine F × Bool
  unfolding serve_body
  serve_turn e now ref turn = closed (serve_body e now ref turn) now ref

  -- A task that is waited for runs through the turns of its stream, and then the stream is exhausted.
  unfoldable pub serve_all : Engine F → F → ℕ → List Turn → Engine F
  serve_all e now ref [] = (serve_turn e now ref exhausted).0
  serve_all e now ref (turn ∷ turns) =
      let (e', over) = serve_turn e now ref turn in
      let rest = serve_all e' now ref turns in if over then e' else rest
