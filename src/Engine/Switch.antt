-- ===== src/Engine/Switch.antt =====
-- src/sir/engine.py: `_drain` and `_switch`.
use stupid_inference_router.Prelude.{
  ℕ, ◌+◌, String, true, false, Option, none, some, List, [], ◌∷◌, length, str_eq, ◌==◌,
  if◌then◌else◌,
}
use stupid_inference_router.Prelude.Dict.{pop}
use stupid_inference_router.Float.{Float, add, sub}
use stupid_inference_router.Types.Scheduling.{EventKind}
use stupid_inference_router.Queues.Defs.{contains}
use stupid_inference_router.Engine.Defs.{Engine, emit}
use stupid_inference_router.Engine.Serve.{Turn}
use stupid_inference_router.Engine.Loop.{cancel_disconnected, gather, mark_unavailable, unload}

-- The clock at the points of a switch: on entry, when the flights have ended, when the old backend is
-- unloaded, when the load has ended, and when a failed backend is stopped.
pub record Times (F : Type 0) : Type 0 where
  pub entered : F
  pub drained : F
  pub unloaded : F
  pub loaded : F
  pub cleaned : F

-- `backend.start()`: it returns, or raises BackendError.
pub data Load : Type 0 where
  started : Load
  refused : String → Load

-- `self._resident or "-"`.
abbrev pub or_dash : Option String → String
or_dash none = "-"
or_dash (some name) = if str_eq name "" then "-" else name

module _ {F : Type 0} ⦃fl : Float F⦄ where
  -- `count` renders the number of flights for the log.
  abbrev pub begin_drain : Engine F → F → (ℕ → String) → Engine F
  begin_drain e now count = cancel_disconnected (
      emit (record e { draining = true }) now EventKind.drain_start (or_dash e.resident)
        (count (length e.in_flight)) none)

  -- The flights have ended; the drain began at `since`.
  abbrev pub end_drain : Engine F → F → F → Engine F
  end_drain e since now =
      emit (record e { in_flight = []; draining = false }) now EventKind.drain_end
        (or_dash e.resident) "" (some (sub now since))

  unfoldable pub drain : Engine F → F → F → (ℕ → String) → (ℕ → List Turn) → Engine F
  drain e now later count turns =
      let begun = begin_drain e now count in
      let settled = gather begun now turns begun.in_flight in
      if length e.in_flight == 0 then e else end_drain settled now later

  -- The resident model gives up the GPU.
  abbrev pub give_up : Engine F → Engine F
  give_up e = record e { resident = none; resident_since = none }

  -- Its backend has stopped.
  abbrev pub swapped_out : Engine F → F → String → Engine F
  swapped_out e now previous =
      let logged = emit (unload e previous) now EventKind.unload previous "" none in
      record logged { swaps = logged.swaps + 1 }

  unfoldable pub unload_previous : Engine F → F → Option String → Engine F
  unload_previous e now none = e
  unload_previous e now (some previous) = swapped_out (give_up e) now previous

  -- `start()` raised: its backend is to be stopped. The load began at `since`.
  abbrev pub load_failed : Engine F → F → F → String → String → Engine F
  load_failed e since now target message =
      emit (record e { time_loading = add e.time_loading (sub now since) }) now
        EventKind.load_failed target message (some (sub now since))

  -- That backend has stopped.
  abbrev pub cleaned_up : Engine F → F → String → Engine F
  cleaned_up e now target = mark_unavailable (unload e target) now target

  abbrev pub load_done : Engine F → F → F → String → Engine F
  load_done e since now target =
      emit
        (record e {
          loaded = target ∷ e.loaded;
          loads = e.loads + 1;
          time_loading = add e.time_loading (sub now since);
          resident = some target;
          resident_since = some now;
          idle_since = none;
          unavailable_until = pop target e.unavailable_until;
        })
        now EventKind.load_end target "" (some (sub now since))

  unfoldable pub load_result : Engine F → Times F → String → Load → Engine F
  load_result e t target (refused message) =
      cleaned_up (load_failed e t.unloaded t.loaded target message) t.cleaned target
  load_result e t target started = load_done e t.unloaded t.loaded target

  -- What follows the drain, up to `finally`.
  unfoldable pub change_over : Engine F → Times F → String → Load → Engine F
  unfolding unload_previous load_result mark_unavailable emit
  change_over e t target load =
      let free = unload_previous (record e { switching = true }) t.unloaded e.resident in
      let loading = emit free t.unloaded EventKind.load_start target "" none in
      record (load_result loading t target load) { switching = false }

  -- `none` is the KeyError of an unknown target.
  unfoldable pub switch_to :
      Engine F → Times F → (ℕ → String) → (ℕ → List Turn) → String → Load → Option (Engine F)
  unfolding drain change_over
  switch_to e t count turns target load =
      let drained = drain e t.entered t.drained count turns in
      if contains e.queues target then some (change_over drained t target load) else none
