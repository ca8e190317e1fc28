-- ===== src/Engine/Loop.antt =====
-- src/sir/engine.py: the control loop's operations. Where the code awaits, what happens meanwhile is an
-- argument: the turns that tasks take, the outcome of a load, and the clock when the await returns.
use stupid_inference_router.Prelude.{
  ℕ, ◌-◌, String, Bool, true, false, not, ◌&&◌, ◌||◌, Option, none, some, List, [], ◌∷◌, ◌++◌, ltb,
  leb, names, length, filter, str_eq, if◌then◌else◌,
}
use mathlib.Core.Option
use stupid_inference_router.Prelude.Dict.{put}
use stupid_inference_router.Float.{Float, add}
use stupid_inference_router.Types.Request.{model, wait_time}
use stupid_inference_router.Types.Scheduling.{EventKind}
use stupid_inference_router.Queues.Defs.{take_while, depth}
use stupid_inference_router.Engine.Defs.{Engine, Flight, emit}
use stupid_inference_router.Engine.Serve.{Turn, stopped, serve_turn, serve_all}

abbrev pub new_flight : ℕ → Flight
new_flight ref = record { ref = ref; finished = false; stopping = false }

-- `task.cancel()` for every flight that meets the test and is not done.
unfoldable pub stop_flights : (Flight → Bool) → List Flight → List Flight
stop_flights test [] = []
stop_flights test (f ∷ fs) =
    (if test f && not f.finished then record f { stopping = true } else f) ∷ stop_flights test fs

module _ {F : Type 0} ⦃fl : Float F⦄ where
  abbrev pub launched : Engine F → F → ℕ → Engine F
  launched e now ref =
      let q = e.heap ref in
      let logged = emit e now EventKind.dispatch (model q) q.id (some (wait_time q now)) in
      record logged { in_flight = logged.in_flight ++ new_flight ref ∷ [] }

  -- The loop of `_dispatch` over the batch.
  unfoldable pub launch : Engine F → F → List ℕ → Engine F
  launch e now [] = e
  launch e now (ref ∷ refs) = launch (launched e now ref) now refs

  -- `_dispatch` to a resident model; `none` is KeyError.
  unfoldable pub dispatch_to : Engine F → F → String → Option (Engine F)
  unfolding launch
  dispatch_to e now name =
      let limit = e.config.scheduler.max_concurrent_requests in
      if leb limit (length e.in_flight)
      then some e
      else Option.map
          (λ taken.
            let (heap, queues, refs) = taken in
            launch (record e { heap = heap; queues = queues }) now refs)
          (take_while e.heap e.queues name now (limit - length e.in_flight))

  unfoldable pub dispatch_resident : Engine F → F → Option String → Option (Engine F)
  unfolding dispatch_to
  dispatch_resident e now none = some e
  dispatch_resident e now (some name) = dispatch_to e now name

  unfoldable pub dispatch : Engine F → F → Option (Engine F)
  unfolding dispatch_resident
  dispatch e now = dispatch_resident e now e.resident

  unfoldable pub cancel_disconnected : Engine F → Engine F
  cancel_disconnected e = record e {
    in_flight = stop_flights (λ f. (e.heap f.ref).cancelled) e.in_flight;
  }

  unfoldable pub reap_finished : Engine F → Engine F
  reap_finished e = record e { in_flight = filter (λ f. not f.finished) e.in_flight }

  abbrev idle_mark : Option F → F → Option F
  idle_mark none now = some now
  idle_mark (some t) now = some t

  -- The resident model has work, or since when it has none.
  abbrev pub idle_of : Engine F → F → ℕ → Option F
  idle_of e now queued =
      if ltb 0 queued || ltb 0 (length e.in_flight) then none else idle_mark e.idle_since now

  unfoldable pub track_resident : Engine F → F → Option String → Option (Engine F)
  track_resident e now none = some (record e { idle_since = none })
  track_resident e now (some name) =
      Option.map (λ queued. record e { idle_since = idle_of e now queued })
        (depth e.heap e.queues name)

  unfoldable pub track_idleness : Engine F → F → Option (Engine F)
  unfolding track_resident
  track_idleness e now = track_resident e now e.resident

  -- `asyncio.gather`: every flight that is not done runs to its end, a stopped one by its cancellation.
  abbrev pub await_flight : Engine F → F → (ℕ → List Turn) → Flight → Engine F
  await_flight e now turns f =
      if f.finished
      then e
      else if f.stopping
      then (serve_turn e now f.ref stopped).0
      else serve_all e now f.ref (turns f.ref)

  unfoldable pub gather : Engine F → F → (ℕ → List Turn) → List Flight → Engine F
  gather e now turns [] = e
  gather e now turns (f ∷ fs) = gather (await_flight e now turns f) now turns fs

  unfoldable pub mark_unavailable : Engine F → F → String → Engine F
  mark_unavailable e now name = record e {
    unavailable_until =
        put name (add now e.config.scheduler.backend_retry_seconds) e.unavailable_until;
  }

  abbrev pub unload : Engine F → String → Engine F
  unload e name = record e { loaded = filter (λ n. not (str_eq n name)) e.loaded }

  -- The flights of a crashed backend are told to stop.
  abbrev pub doom : Engine F → String → Engine F
  doom e name = record e {
    in_flight = stop_flights (λ f. str_eq (model (e.heap f.ref)) name) e.in_flight;
  }

  -- They have ended: nothing is resident.
  abbrev pub cleared : Engine F → Engine F
  cleared e = record e { in_flight = []; resident = none; resident_since = none }

  -- The crashed backend has stopped.
  abbrev pub unload_crashed : Engine F → F → String → Engine F
  unload_crashed e now name = emit (unload e name) now EventKind.unload name "after crash" none

  -- The resident backend crashed: its flights are stopped and awaited, and it is unloaded.
  unfoldable pub contain : Engine F → F → F → (ℕ → List Turn) → String → Engine F
  unfolding stop_flights gather
  contain e now later turns name =
      let doomed = doom e name in
      unload_crashed (cleared (gather doomed now turns doomed.in_flight)) later name

  -- One failed model: its backend may not be started for a while.
  abbrev pub crash_marked : Engine F → F → String → Engine F
  crash_marked e now name =
      emit (mark_unavailable e now name) now EventKind.crash name "backend marked unavailable" none

  unfoldable pub handle_failed : Engine F → F → F → (ℕ → List Turn) → List String → Engine F
  unfolding contain mark_unavailable
  handle_failed e now later turns [] = e
  handle_failed e now later turns (name ∷ rest) =
      let marked =
        emit (mark_unavailable e now name) now EventKind.crash name "backend marked unavailable"
          none in
      let next =
        if names marked.resident name then contain marked now later turns name else marked in
      handle_failed next now later turns rest

  unfoldable pub handle_failures : Engine F → F → F → (ℕ → List Turn) → Engine F
  unfolding handle_failed
  handle_failures e now later turns =
      handle_failed (record e { failed = [] }) now later turns e.failed
