-- ===== src/Engine/Control.antt =====
-- src/sir/engine.py: `_run` from one await to the next. asyncio changes tasks only at an await, so
-- a stretch between two awaits is one function here, and a phase says which await the loop is at.
use mathlib.Core.Option
use stupid_inference_router.Prelude.{
  ℕ, String, true, false, Option, none, some, List, [], ◌∷◌, length, names, str_eq, ◌==◌,
  if◌then◌else◌,
}
use stupid_inference_router.Float.{Float}
use stupid_inference_router.Types.Scheduling.{Decision, DecisionKind, EventKind}
use stupid_inference_router.Policy.Defs.{decide}
use stupid_inference_router.Queues.Defs.{contains, purge_cancelled}
use stupid_inference_router.Engine.Defs.{Engine, emit, snapshot, push_history}
use stupid_inference_router.Engine.Loop.{
  dispatch, cancel_disconnected, reap_finished, track_idleness, doom, cleared, unload_crashed,
  crash_marked,
}
use stupid_inference_router.Engine.Switch.{
  Load, started, refused, begin_drain, end_drain, give_up, swapped_out, load_failed, cleaned_up,
  load_done,
}

-- Where the loop waits: for the next tick or request, or, if it has just switched, not at all; for the
-- flights of a crashed model, or for its backend to stop, with the failed models that are left; for
-- the flights of a drain, for the previous backend to stop, for the target to load, or, after a
-- failed load, for the target to stop. A drain and a load know when they began.
pub data Phase (F : Type 0) : Type 0 where
  looping : Phase F
  containing : String → List String → Phase F
  stopping : String → List String → Phase F
  draining : F → String → Phase F
  unloading : String → String → Phase F
  loading : F → String → Phase F
  cleaning : String → Phase F

module _ {F : Type 0} where
  -- The log callback is left out.
  abbrev pub record_decision : Engine F → Decision F → Engine F
  record_decision e d = record e { decisions = push_history e.decisions d }

module _ {F : Type 0} ⦃fl : Float F⦄ where
  -- `none` is the KeyError of a target without a backend.
  unfoldable pub start_load : Engine F → F → String → Option (Engine F × Phase F)
  unfolding emit
  start_load e now target =
      if contains e.queues target
      then some (emit e now EventKind.load_start target "" none, loading now target)
      else none

  unfoldable pub leave_resident :
      Engine F → F → String → Option String → Option (Engine F × Phase F)
  unfolding start_load
  leave_resident e now target none = start_load e now target
  leave_resident e now target (some previous) = some (give_up e, unloading previous target)

  -- `_switch` after its drain.
  abbrev pub start_switch : Engine F → F → String → Option (Engine F × Phase F)
  start_switch e now target = leave_resident (record e { switching = true }) now target e.resident

  unfoldable pub switch_from : Engine F → F → (ℕ → String) → String → Option (Engine F × Phase F)
  unfolding leave_resident
  switch_from e now count target =
      if length e.in_flight == 0
      then start_switch e now target
      else some (begin_drain e now count, draining now target)

  -- What the iteration does with the decision. A switch without a target waits.
  unfoldable pub carry_out :
      Engine F → F → (ℕ → String) → DecisionKind → Option String → Option (Engine F × Phase F)
  unfolding switch_from
  carry_out e now count DecisionKind.switch (some target) =
      if str_eq target "" then some (e, looping) else switch_from e now count target
  carry_out e now count DecisionKind.switch none = some (e, looping)
  carry_out e now count DecisionKind.serve target =
      Option.map (λ e'. (e', looping)) (dispatch e now)
  carry_out e now count DecisionKind.hold target = Option.map (λ e'. (e', looping)) (dispatch e now)
  carry_out e now count DecisionKind.idle target = some (e, looping)

  -- The housekeeping before the decision.
  unfoldable pub swept : Engine F → Engine F
  swept e =
      let (heap, queues, removed) = purge_cancelled e.heap e.queues in
      reap_finished (cancel_disconnected (record e { heap = heap; queues = queues }))

  -- The decision for the state, recorded and carried out.
  unfoldable pub decided : Engine F → F → (ℕ → String) → Option (Engine F × Phase F)
  unfolding carry_out
  decided e now count = Option.bind (snapshot e) λ s.
      let d = decide s now e.config.scheduler in
      carry_out (record_decision e d) now count d.kind d.target

  -- The iteration after `_handle_failures`.
  unfoldable pub settle : Engine F → F → (ℕ → String) → Option (Engine F × Phase F)
  unfolding decided swept
  settle e now count =
      Option.bind (track_idleness (swept e) now) λ tracked. decided tracked now count

  -- A crash of the resident model: its flights are awaited if there are any.
  unfoldable pub crashed : Engine F → String → List String → Option (Engine F × Phase F)
  crashed e name rest =
      if length e.in_flight == 0
      then some (cleared e, stopping name rest)
      else some (doom e name, containing name rest)

  -- `_handle_failures` from a list of failed models on.
  unfoldable pub face : Engine F → F → (ℕ → String) → List String → Option (Engine F × Phase F)
  unfolding settle crashed
  face e now count [] = settle e now count
  face e now count (name ∷ rest) =
      let marked = crash_marked e now name in
      let others = face marked now count rest in
      if names marked.resident name then crashed marked name rest else others

  -- The loop's next stretch, given how a load ended, if one was awaited.
  unfoldable pub resume : Engine F → Phase F → F → (ℕ → String) → Load → Option (Engine F × Phase F)
  unfolding face leave_resident start_load
  resume e looping now count load = face (record e { failed = [] }) now count e.failed
  resume e (containing name rest) now count load = some (cleared e, stopping name rest)
  resume e (stopping name rest) now count load = face (unload_crashed e now name) now count rest
  resume e (draining since target) now count load = start_switch (end_drain e since now) now target
  resume e (unloading previous target) now count load =
      start_load (swapped_out e now previous) now target
  resume e (loading since target) now count started =
      some (record (load_done e since now target) { switching = false }, looping)
  resume e (loading since target) now count (refused message) =
      some (load_failed e since now target message, cleaning target)
  resume e (cleaning target) now count load =
      some (record (cleaned_up e now target) { switching = false }, looping)
