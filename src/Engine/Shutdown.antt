-- ===== src/Engine/Shutdown.antt =====
-- src/sir/engine.py: `start` and `stop`. The loop's task is `none` before `start`; after it, it is the
-- await that the loop is at. `_wakeup` is left out, and no request arrives while `stop` waits.
use mathlib.Core.Option
use stupid_inference_router.Prelude.{
  ℕ, String, true, false, Option, none, some, List, [], ◌∷◌, ◌++◌,
}
use stupid_inference_router.Float.{Float, sub}
use stupid_inference_router.Types.Request.{QueuedRequest, RequestState, StreamEvent, errored}
use stupid_inference_router.Types.Scheduling.{EventKind}
use stupid_inference_router.Queues.Defs.{Heap, ModelQueues, model_names, drain, write}
use stupid_inference_router.Engine.Defs.{Engine, Flight, emit}
use stupid_inference_router.Engine.Loop.{stop_flights, gather, unload}
use stupid_inference_router.Engine.Switch.{or_dash}
use stupid_inference_router.Engine.Control.{
  Phase, looping, containing, stopping, draining, unloading, loading, cleaning,
}

abbrev all_over : List Flight → List Flight
all_over [] = []
all_over (f ∷ fs) = record f { finished = true } ∷ all_over fs

abbrev pub shutting_down : StreamEvent
shutting_down = errored (record { message = "router shutting down"; status_code = 503 })

module _ {F : Type 0} where
  -- `start`.
  unfoldable start : Option (Phase F) → Option (Phase F)
  start none = some looping
  start (some p) = some p

  -- A queued request is turned away.
  abbrev pub turned_away : QueuedRequest F → QueuedRequest F
  turned_away q = record q {
    state = RequestState.cancelled;
    events = q.events ++ shutting_down ∷ [];
  }

  unfoldable pub turn_away : Heap F → List ℕ → Heap F
  turn_away heap [] = heap
  turn_away heap (ref ∷ refs) = turn_away (write heap ref (turned_away (heap ref))) refs

  unfoldable pub drain_all : Heap F → ModelQueues → List String → Option (Heap F × ModelQueues)
  drain_all heap queues [] = some (heap, queues)
  drain_all heap queues (name ∷ rest) =
      Option.bind (drain queues name) λ drained. drain_all (turn_away heap drained.1) drained.0 rest

  abbrev pub drained_into : Engine F → Heap F × ModelQueues → Engine F
  drained_into e (heap, queues) = record e { heap = heap; queues = queues }

module _ {F : Type 0} ⦃fl : Float F⦄ where
  -- Every task is told to stop, and has ended.
  abbrev pub halted : Engine F → F → Engine F
  halted e now =
      let told = record e { in_flight = stop_flights (λ f. true) e.in_flight } in
      gather told now (λ ref. []) told.in_flight

  -- What the cancellation of the loop's task does where the loop is. A gather that is cancelled cancels
  -- the tasks it waits for, and the `finally` of a drain and of a switch reset their flags.
  unfoldable pub interrupted : Engine F → F → Option (Phase F) → Engine F
  unfolding emit
  interrupted e now none = e
  interrupted e now (some looping) = e
  interrupted e now (some (containing name rest)) =
      let ended = halted e now in record ended { in_flight = all_over ended.in_flight }
  interrupted e now (some (stopping name rest)) = e
  interrupted e now (some (draining since target)) =
      let ended = halted e now in
      emit (record ended { in_flight = all_over ended.in_flight; draining = false }) now
        EventKind.drain_end (or_dash ended.resident) "" (some (sub now since))
  interrupted e now (some (unloading previous target)) = record e { switching = false }
  interrupted e now (some (loading since target)) = record e { switching = false }
  interrupted e now (some (cleaning target)) = record e { switching = false }

  unfoldable pub release : Engine F → Option String → Engine F
  release e none = e
  release e (some name) = record (unload e name) { resident = none; resident_since = none }

  -- `stop`. `none` would be the KeyError of a queue that is not there.
  unfoldable pub stop : Engine F → F → Option (Phase F) → Option (Engine F)
  unfolding interrupted drain_all release
  stop e now task =
      let ended = halted (interrupted e now task) now in
      let idle = record ended { in_flight = [] } in
      Option.map (λ d. release (drained_into idle d) idle.resident)
        (drain_all idle.heap idle.queues (model_names idle.queues))
