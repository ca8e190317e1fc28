-- ===== src/Engine/Progress.antt =====
-- src/sir/engine.py: the lookups in one iteration of the control loop.
use mathlib.Core.Option
use stupid_inference_router.Prelude.{
  ℕ, String, true, ◌≡◌, refl, sym, ap, subst, ◌∙◌, inl, inr, Option, none, some, List, [], ◌∷◌, In,
  length, str_eq, is_some, leb, ◌-◌, ◌==◌, if◌then◌else◌, if_cases,
}
use stupid_inference_router.Prelude.Dict.{get, put}
use stupid_inference_router.Float.{Float}
use stupid_inference_router.Config.Scheduler.{SchedulerConfig}
use stupid_inference_router.Types.Scheduling.{
  DecisionKind, EventKind, ModelState, SchedulerSnapshot,
}
use stupid_inference_router.Policy.Defs.{decide}
use stupid_inference_router.Policy.Targets.{decide-IsSound}
use stupid_inference_router.Queues.Defs.{ModelQueues, contains, take_live, take_while}
use stupid_inference_router.Queues.Fresh.{contains-put}
use stupid_inference_router.Queues.Purge.{purge_cancelled_lem}
use stupid_inference_router.Engine.Defs.{Engine, emit, snapshot}
use stupid_inference_router.Engine.Loop.{
  launch, launched, dispatch, dispatch_to, dispatch_resident, cancel_disconnected, reap_finished,
  track_idleness, track_resident, idle_of,
}
use stupid_inference_router.Engine.Staffing.{
  Staffed, Returns, restaffed, vacated, contains-live_queues, depth-known, model_states-known,
}
use stupid_inference_router.Engine.Control.{
  Phase, looping, loading, start_load, leave_resident, switch_from, carry_out, swept, decided,
  settle, record_decision,
}

module _ {F : Type 0} ⦃fl : Float F⦄ where
  pub start_load-Returns :
      (e : Engine F) (now : F) (target : String)
      → Staffed e
      → contains e.queues target ≡ true
      → Returns (start_load e now target)
  unfolding start_load emit
  start_load-Returns e now target staffed known =
      subst
        (λ b. Returns (
          if b
          then some (emit e now EventKind.load_start target "" none, loading now target)
          else none))
        (sym known) (staffed, known)

  pub leave_resident-Returns :
      (e : Engine F) (now : F) (target : String) (o : Option String)
      → Staffed e
      → contains e.queues target ≡ true
      → Returns (leave_resident e now target o)
  unfolding leave_resident
  leave_resident-Returns e now target none staffed known =
      start_load-Returns e now target staffed known
  leave_resident-Returns e now target (some previous) staffed known = (vacated staffed, known)

  switch_from-Returns :
      (e : Engine F) (now : F) (count : ℕ → String) (target : String)
      → Staffed e
      → contains e.queues target ≡ true
      → Returns (switch_from e now count target)
  unfolding switch_from cancel_disconnected emit
  switch_from-Returns e now count target staffed known =
      if_cases {A = Option (Engine F × Phase F)} Returns (length e.in_flight == 0)
        (λ idle.
          leave_resident-Returns (record e { switching = true }) now target e.resident staffed
            known)
        (λ busy. (staffed, known))

  launch-Staffed :
      (e : Engine F) (now : F) (refs : List ℕ) → Staffed e → Staffed (launch e now refs)
  unfolding launch emit
  launch-Staffed e now [] staffed = staffed
  launch-Staffed e now (ref ∷ refs) staffed = launch-Staffed (launched e now ref) now refs staffed

  dispatch_to-Returns :
      (e : Engine F) (now : F) (name : String)
      → Staffed e
      → contains e.queues name ≡ true
      → Returns (Option.map {B = Engine F × Phase F} (λ e'. (e', looping)) (dispatch_to e now name))
  unfolding dispatch_to take_while
  dispatch_to-Returns e now name staffed known =
      if_cases {A = Option (Engine F)}
        (λ r. Returns (Option.map {B = Engine F × Phase F} (λ e'. (e', looping)) r))
        (leb e.config.scheduler.max_concurrent_requests (length e.in_flight))
        (λ full. (staffed, tt)) (λ space. go (get name e.queues) known)
    where
      go :
          (o : Option (List ℕ))
          → is_some o ≡ true
          → Returns (
              Option.map {B = Engine F × Phase F}
                (λ e'. (e', looping))
                (Option.map
                  (λ taken.
                    let (heap, queues, refs) = taken in
                    launch (record e { heap = heap; queues = queues }) now refs)
                  (Option.map
                    (λ queue.
                      let (heap, rest, refs) =
                        take_live
                          (e.config.scheduler.max_concurrent_requests - length e.in_flight)
                          e.heap
                          now
                          queue in
                      (heap, put name rest e.queues, refs))
                    o)))
      go none h = cc
      go (some queue) h =
          let (heap, rest, refs) =
            take_live (e.config.scheduler.max_concurrent_requests - length e.in_flight) e.heap now
              queue in
          (
            launch-Staffed (record e { heap = heap; queues = put name rest e.queues }) now refs
                (restaffed (λ other known. contains-put e.queues name other rest (inr known))
                  staffed),
            tt,
          )

  dispatch-Returns :
      (e : Engine F) (now : F) (o : Option String)
      → e.resident ≡ o
      → Staffed e
      → Returns
          (Option.map {B = Engine F × Phase F} (λ e'. (e', looping)) (dispatch_resident e now o))
  unfolding dispatch_resident
  dispatch-Returns e now none here staffed = (staffed, tt)
  dispatch-Returns e now (some name) here staffed =
      dispatch_to-Returns e now name staffed (staffed.hosted name here)

  carry_out-Returns :
      (e : Engine F) (now : F) (count : ℕ → String) (kind : DecisionKind) (target : Option String)
      → Staffed e
      → ((name : String) → target ≡ some name → contains e.queues name ≡ true)
      → Returns (carry_out e now count kind target)
  unfolding carry_out dispatch
  carry_out-Returns e now count DecisionKind.switch (some target) staffed known =
      if_cases {A = Option (Engine F × Phase F)} Returns (str_eq target "")
        (λ nameless. (staffed, tt))
        (λ named. switch_from-Returns e now count target staffed (known target refl))
  carry_out-Returns e now count DecisionKind.switch none staffed known = (staffed, tt)
  carry_out-Returns e now count DecisionKind.serve target staffed known =
      dispatch-Returns e now e.resident refl staffed
  carry_out-Returns e now count DecisionKind.hold target staffed known =
      dispatch-Returns e now e.resident refl staffed
  carry_out-Returns e now count DecisionKind.idle target staffed known = (staffed, tt)

  -- A decision's target is a model of the snapshot.
  target-known :
      (s : SchedulerSnapshot F) (now : F) (config : SchedulerConfig F) (queues : ModelQueues)
      → ((m : ModelState F) → In m s.models → contains queues m.name ≡ true)
      → (name : String) → (decide s now config).target ≡ some name
      → contains queues name ≡ true
  target-known s now config queues known name aimed = elim (decide-IsSound s now config) [
    | inl (moves, (m, target, (listed, pending, available))) ↦
        let same : m.name ≡ name = cc in subst (λ n. contains queues n ≡ true) same (known m listed)
    | inr (stays, target) ↦ cc
  ]

  decided-Returns :
      (e : Engine F) (now : F) (count : ℕ → String) → Staffed e → Returns (decided e now count)
  unfolding decided snapshot Option.bind
  decided-Returns e now count staffed =
      let (states, eq, known) = model_states-known e e.config.models staffed.configured in
      let seen : SchedulerSnapshot F = record {
        models = states;
        resident = e.resident;
        draining = e.draining;
        switching = e.switching;
      } in
      let d = decide seen now e.config.scheduler in
      subst
        (λ o. Returns (
          Option.bind
            (Option.map
              (λ states. record {
                models = states;
                resident = e.resident;
                draining = e.draining;
                switching = e.switching;
              })
              o)
            λ s.
              let d = decide s now e.config.scheduler in
              carry_out (record_decision e d) now count d.kind d.target))
        (sym eq)
        (carry_out-Returns (record_decision e d) now count d.kind d.target staffed
          (target-known seen now e.config.scheduler e.queues known))

  swept-Staffed : (e : Engine F) → Staffed e → Staffed (swept e)
  unfolding swept reap_finished cancel_disconnected
  swept-Staffed e = restaffed (λ name known.
      ap (λ queues. contains queues name) (purge_cancelled_lem e.heap e.queues).0
      ∙ contains-live_queues e.heap e.queues name
      ∙ known)

  tracked-Returns :
      (e : Engine F) (now : F) (count : ℕ → String) (o : Option String)
      → e.resident ≡ o
      → Staffed e
      → Returns (Option.bind (track_resident e now o) λ e'. decided e' now count)
  unfolding track_resident Option.bind
  tracked-Returns e now count none here staffed =
      decided-Returns (record e { idle_since = none }) now count staffed
  tracked-Returns e now count (some name) here staffed =
      let (queued, at) = depth-known e.heap e.queues name (staffed.hosted name here) in
      subst
        (λ o. Returns (
          Option.bind (Option.map (λ queued. record e { idle_since = idle_of e now queued }) o)
            λ e'. decided e' now count))
        (sym at)
        (decided-Returns (record e { idle_since = idle_of e now queued }) now count staffed)

  pub settle-Returns :
      (e : Engine F) (now : F) (count : ℕ → String) → Staffed e → Returns (settle e now count)
  unfolding settle track_idleness Option.bind
  settle-Returns e now count staffed =
      tracked-Returns (swept e) now count (swept e).resident refl (swept-Staffed e staffed)
