-- ===== src/Engine/Batches.antt =====
-- src/sir/engine.py: `_dispatch` as a stretch of the control loop.
use mathlib.Core.Option
use stupid_inference_router.Prelude.{
  ℕ, ◌+◌, String, ◌≡◌, refl, sym, ap, ◌∙◌, Option, none, some, List, [], ◌∷◌, arith, length, leb,
  ◌-◌, if_cases, length-take,
}
use stupid_inference_router.Float.{Float}
use stupid_inference_router.Queues.Defs.{take_live, take_while}
use stupid_inference_router.Queues.View.{take_live-Takes, live}
use stupid_inference_router.Prelude.Dict.{put, get}
use stupid_inference_router.Engine.Defs.{Engine, emit}
use stupid_inference_router.Engine.Loop.{launch, launched, dispatch_to, dispatch_resident}
use stupid_inference_router.Engine.Residency.{loaded_by}
use stupid_inference_router.Engine.Capacity.{served, launch_lem, length-served, length-append}
use stupid_inference_router.Engine.Control.{Phase, looping}
use stupid_inference_router.Engine.Coherence.{stance, Coherent, Leads}

module _ {F : Type 0} ⦃fl : Float F⦄ where
  -- Starting a batch changes the number of flights only.
  launch-stance :
      (e : Engine F) (now : F) (refs : List ℕ)
      → record (stance (launch e now refs)) { flights = 0 } ≡ record (stance e) { flights = 0 }
  unfolding launch emit
  launch-stance e now [] = refl
  launch-stance e now (ref ∷ refs) = launch-stance (launched e now ref) now refs

  launch-flights :
      (e : Engine F) (now : F) (refs : List ℕ)
      → length (launch e now refs).in_flight ≡ length e.in_flight + length refs
  launch-flights e now refs =
      let started = (launch_lem e now refs).0 in
      omega (
        arith,
        ap length started,
        length-served e.in_flight,
        length-served (launch e now refs).in_flight,
        length-append (served e.in_flight) refs,
      )

  -- Whatever a dispatch is asked for, it leaves the engine settled.
  taken-Leads :
      (e : Engine F) (now : F) (name : String) (o : Option (List ℕ))
      → Coherent {F = F} looping (stance e)
      → Leads (
          Option.map {B = Engine F × Phase F}
            (λ e'. (e', looping))
            (Option.map
              (λ taken.
                let (heap, queues, refs) = taken in
                launch (record e { heap = heap; queues = queues }) now refs)
              (Option.map
                (λ queue.
                  let (heap, rest, refs) =
                    take_live
                      (e.config.scheduler.max_concurrent_requests - length e.in_flight)
                      e.heap
                      now
                      queue in
                  (heap, put name rest e.queues, refs))
                o)))
  taken-Leads e now name none coherent = tt
  taken-Leads e now name (some queue) ((loaded, within, still), quiet) =
      let free = e.config.scheduler.max_concurrent_requests - length e.in_flight in
      let (heap, rest, refs) = take_live free e.heap now queue in
      let e1 = record e { heap = heap; queues = put name rest e.queues } in
      let few = ap length (take_live-Takes free e.heap now queue).0 in
      let rest_same = launch-stance e1 now refs in
      (
        (
          ap (λ s. s.loaded) rest_same ∙ loaded ∙ ap (λ s. loaded_by s.resident) (sym rest_same),
          omega (
            arith,
            within,
            few,
            launch-flights e1 now refs,
            ap (λ s. s.limit) rest_same,
            (length-take free (live e.heap queue)).0,
          ),
          ap (λ s. s.switching) rest_same ∙ still,
        ),
        ap (λ s. s.draining) rest_same ∙ quiet,
      )

  dispatch_to-Leads :
      (e : Engine F) (now : F) (name : String)
      → Coherent {F = F} looping (stance e)
      → Leads (Option.map {B = Engine F × Phase F} (λ e'. (e', looping)) (dispatch_to e now name))
  unfolding dispatch_to take_while
  dispatch_to-Leads e now name coherent =
      if_cases {A = Option (Engine F)}
        (λ r. Leads (Option.map {B = Engine F × Phase F} (λ e'. (e', looping)) r))
        (leb e.config.scheduler.max_concurrent_requests (length e.in_flight)) (λ full. coherent)
        (λ space. taken-Leads e now name (get name e.queues) coherent)

  pub dispatch-Leads :
      (e : Engine F) (now : F) (o : Option String)
      → Coherent {F = F} looping (stance e)
      → Leads
          (Option.map {B = Engine F × Phase F} (λ e'. (e', looping)) (dispatch_resident e now o))
  unfolding dispatch_resident
  dispatch-Leads e now none coherent = coherent
  dispatch-Leads e now (some name) coherent = dispatch_to-Leads e now name coherent
