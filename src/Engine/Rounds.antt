-- ===== src/Engine/Rounds.antt =====
-- src/sir/engine.py: the stretches of `_run`, and what they leave behind.
use mathlib.Core.Option
use stupid_inference_router.Prelude.{
  ℕ, ◌≤◌, String, true, not, ◌≡◌, refl, sym, ap, subst, ◌∙◌, Option, none, some, List, [], ◌∷◌,
  arith, length, filter, names, str_eq, ◌==◌, if_cases, length-filter-le,
}
use stupid_inference_router.Float.{Float}
use stupid_inference_router.Types.Request.{model}
use stupid_inference_router.Types.Scheduling.{DecisionKind, SchedulerSnapshot}
use stupid_inference_router.Policy.Defs.{decide}
use stupid_inference_router.Queues.Defs.{purge_cancelled, depth}
use stupid_inference_router.Engine.Defs.{Engine, Flight, emit, snapshot}
use stupid_inference_router.Engine.Loop.{
  stop_flights, dispatch, cancel_disconnected, reap_finished, track_idleness, track_resident,
  idle_of, unload_crashed, crash_marked, mark_unavailable,
}
use stupid_inference_router.Engine.Switch.{Load, started, refused, end_drain, swapped_out}
use stupid_inference_router.Engine.Residency.{loaded_by}
use stupid_inference_router.Engine.Control.{
  Phase, looping, containing, stopping, draining, unloading, loading, cleaning, resume, carry_out,
  swept, decided, settle, crashed, face, record_decision,
}
use stupid_inference_router.Engine.Coherence.{
  stance, Coherent, Leads, length-stop_flights, names-resident, unloaded, nothing, start_load-Leads,
  leave_resident-Leads, switch_from-Leads,
}
use stupid_inference_router.Engine.Batches.{dispatch-Leads}

module _ {F : Type 0} ⦃fl : Float F⦄ where
  swept-Settled :
      (e : Engine F)
      → Coherent {F = F} looping (stance e)
      → Coherent {F = F} looping (stance (swept e))
  unfolding swept reap_finished cancel_disconnected
  swept-Settled e ((loaded, within, still), quiet) = ((loaded, fewer, still), quiet)
    where
      marked : List Flight
      marked = stop_flights (λ f. ((purge_cancelled e.heap e.queues).0 f.ref).cancelled) e.in_flight

      fewer :
          length (filter (λ f. not f.finished) marked) ≤ e.config.scheduler.max_concurrent_requests
      fewer = omega (
        arith,
        within,
        length-filter-le (λ f. not f.finished) marked,
        length-stop_flights (λ f. ((purge_cancelled e.heap e.queues).0 f.ref).cancelled)
            e.in_flight,
      )

  -- Idleness does not matter.
  track-stance :
      (e : Engine F) (now : F) (o : Option String) (e' : Engine F)
      → track_resident e now o ≡ some e'
      → stance e' ≡ stance e
  unfolding track_resident
  track-stance e now none e' h =
      let same : record e { idle_since = none } ≡ e' = cc in ap stance (sym same)
  track-stance e now (some name) e' h = go (depth e.heap e.queues name) h
    where
      go :
          (o : Option ℕ)
          → Option.map (λ queued. record e { idle_since = idle_of e now queued }) o ≡ some e'
          → stance e' ≡ stance e
      go none h = cc
      go (some queued) h =
          let same : record e { idle_since = idle_of e now queued } ≡ e' = cc in
          ap stance (sym same)

  carry_out-Leads :
      (e : Engine F) (now : F) (count : ℕ → String) (kind : DecisionKind) (target : Option String)
      → Coherent {F = F} looping (stance e)
      → Leads (carry_out e now count kind target)
  unfolding carry_out dispatch
  carry_out-Leads e now count DecisionKind.switch (some target) coherent =
      if_cases {A = Option (Engine F × Phase F)} Leads (str_eq target "") (λ nameless. coherent)
        (λ named. switch_from-Leads e now count target coherent)
  carry_out-Leads e now count DecisionKind.switch none coherent = coherent
  carry_out-Leads e now count DecisionKind.serve target coherent =
      dispatch-Leads e now e.resident coherent
  carry_out-Leads e now count DecisionKind.hold target coherent =
      dispatch-Leads e now e.resident coherent
  carry_out-Leads e now count DecisionKind.idle target coherent = coherent

  decided-Leads :
      (e : Engine F) (now : F) (count : ℕ → String)
      → Coherent {F = F} looping (stance e)
      → Leads (decided e now count)
  unfolding decided Option.bind
  decided-Leads e now count coherent = go (snapshot e)
    where
      go :
          (o : Option (SchedulerSnapshot F))
          → Leads (
              Option.bind o λ s.
                let d = decide s now e.config.scheduler in
                carry_out (record_decision e d) now count d.kind d.target)
      go none = tt
      go (some s) =
          let d = decide s now e.config.scheduler in
          carry_out-Leads (record_decision e d) now count d.kind d.target coherent

  settle-Leads :
      (e : Engine F) (now : F) (count : ℕ → String)
      → Coherent {F = F} looping (stance e)
      → Leads (settle e now count)
  unfolding settle track_idleness Option.bind
  settle-Leads e now count coherent =
      go (track_resident (swept e) now (swept e).resident)
        (track-stance (swept e) now (swept e).resident)
    where
      go :
          (o : Option (Engine F))
          → ((e' : Engine F) → o ≡ some e' → stance e' ≡ stance (swept e))
          → Leads (Option.bind o λ tracked. decided tracked now count)
      go none same = tt
      go (some tracked) same =
          decided-Leads tracked now count
            (subst (Coherent {F = F} looping) (sym (same tracked refl)) (swept-Settled e coherent))

  crashed-Leads :
      (e : Engine F) (name : String) (rest : List String)
      → Coherent {F = F} looping (stance e)
      → e.resident ≡ some name
      → Leads (crashed e name rest)
  unfolding crashed
  crashed-Leads e name rest ((loaded, within, still), quiet) here =
      if_cases {A = Option (Engine F × Phase F)} Leads (length e.in_flight == 0)
        (λ idle. ((loaded ∙ ap loaded_by here, refl, refl, still), quiet))
        (λ busy. (
          (
            loaded,
            omega (
              arith,
              within,
              length-stop_flights (λ f. str_eq (model (e.heap f.ref)) name) e.in_flight,
            ),
            still,
          ),
          quiet,
          here,
        ))

  face-Leads :
      (e : Engine F) (now : F) (count : ℕ → String) (failed : List String)
      → Coherent {F = F} looping (stance e)
      → Leads (face e now count failed)
  unfolding face mark_unavailable emit
  face-Leads e now count [] coherent = settle-Leads e now count coherent
  face-Leads e now count (name ∷ rest) coherent =
      if_cases {A = Option (Engine F × Phase F)} Leads (names e.resident name)
        (λ here.
          crashed-Leads (crash_marked e now name) name rest coherent
            (names-resident e.resident name here))
        (λ elsewhere. face-Leads (crash_marked e now name) now count rest coherent)

  -- A stretch of the control loop leads from a coherent state to a coherent one.
  pub resume-Leads :
      (e : Engine F) (p : Phase F) (now : F) (count : ℕ → String) (load : Load)
      → Coherent p (stance e)
      → Leads (resume e p now count load)
  unfolding resume mark_unavailable emit
  resume-Leads e looping now count load coherent =
      face-Leads (record e { failed = [] }) now count e.failed coherent
  resume-Leads e (containing name rest) now count load ((loaded, within, still), quiet, here) =
      ((loaded ∙ ap loaded_by here, refl, refl, still), quiet)
  resume-Leads e (stopping name rest) now count load ((loaded, free, idle, still), quiet) =
      face-Leads (unload_crashed e now name) now count rest (
        (unloaded name e.loaded loaded ∙ ap loaded_by (sym free), omega (arith, idle), still),
        quiet,
      )
  resume-Leads e (draining since target) now count load ((loaded, within, still), quiet) =
      leave_resident-Leads (record (end_drain e since now) { switching = true }) now target
        e.resident refl loaded refl refl refl
  resume-Leads e (unloading previous target) now count load ((loaded, free, idle, moving), quiet) =
      start_load-Leads (swapped_out e now previous) now target
        (unloaded previous e.loaded loaded, free, idle, moving) quiet
  resume-Leads e (loading since target) now count started ((loaded, free, idle, moving), quiet) =
      ((ap (λ xs. target ∷ xs) loaded, omega (arith, idle), refl), quiet)
  resume-Leads e (loading since target) now count (refused message) coherent = coherent
  resume-Leads e (cleaning target) now count load ((loaded, free, idle, moving), quiet) = (
    (
      ap (filter (λ n. not (str_eq n target))) loaded ∙ nothing target ∙ ap loaded_by (sym free),
      omega (arith, idle),
      refl,
    ),
    quiet,
  )
