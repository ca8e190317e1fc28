-- ===== src/Engine/Resume.antt =====
-- src/sir/engine.py: the lookups of `_run` and `_handle_failures`, from one await to the next.
use mathlib.Core.Option
use stupid_inference_router.Prelude.{
  ℕ, String, Bool, true, false, not, ◌≡◌, refl, sym, subst, Option, none, some, List, [], ◌∷◌,
  length, names, ◌==◌, if◌then◌else◌, if_cases,
}
use stupid_inference_router.Float.{Float}
use stupid_inference_router.Config.App.{AppConfig}
use stupid_inference_router.Types.Request.{GenerationRequest}
use stupid_inference_router.Queues.Defs.{ModelQueues, contains, enqueue}
use stupid_inference_router.Queues.Fresh.{enqueue-contains, contains-new_queues, In-map}
use stupid_inference_router.Engine.Defs.{Engine, emit, submit, new_engine}
use stupid_inference_router.Engine.Loop.{unload_crashed, crash_marked, mark_unavailable}
use stupid_inference_router.Engine.Switch.{Load, started, refused, swapped_out}
use stupid_inference_router.Engine.Serve.{Turn, serve_turn}
use stupid_inference_router.Engine.Keeps.{Keeps, serve_turn-Keeps}
use stupid_inference_router.Engine.Staffing.{
  IsStaffed, Staffed, Returns, HasTarget, restaffed, vacated, installed,
}
use stupid_inference_router.Engine.Progress.{
  settle-Returns, start_load-Returns, leave_resident-Returns,
}
use stupid_inference_router.Engine.Control.{
  Phase, looping, containing, stopping, draining, unloading, loading, cleaning, resume, crashed,
  face,
}
use stupid_inference_router.Engine.Steps.{
  Step, arrives, leaves, serves, resumes, Reach, starts, next, take_turn, mark_over,
}

module _ {F : Type 0} ⦃fl : Float F⦄ where
  crashed-Returns :
      (e : Engine F) (name : String) (rest : List String)
      → Staffed e
      → Returns (crashed e name rest)
  unfolding crashed
  crashed-Returns e name rest staffed =
      if_cases {A = Option (Engine F × Phase F)} Returns (length e.in_flight == 0)
        (λ idle. (vacated staffed, tt)) (λ busy. (staffed, tt))

  face-Returns :
      (e : Engine F) (now : F) (count : ℕ → String) (failed : List String)
      → Staffed e
      → Returns (face e now count failed)
  unfolding face emit mark_unavailable
  face-Returns e now count [] staffed = settle-Returns e now count staffed
  face-Returns e now count (name ∷ rest) staffed =
      if_cases {A = Option (Engine F × Phase F)} Returns (names e.resident name)
        (λ here. crashed-Returns (crash_marked e now name) name rest staffed)
        (λ elsewhere. face-Returns (crash_marked e now name) now count rest staffed)

  pub resume-Returns :
      (e : Engine F) (p : Phase F) (now : F) (count : ℕ → String) (load : Load)
      → Staffed e
      → HasTarget p e.queues
      → Returns (resume e p now count load)
  unfolding resume emit mark_unavailable
  resume-Returns e looping now count load staffed known =
      face-Returns (record e { failed = [] }) now count e.failed staffed
  resume-Returns e (containing name rest) now count load staffed known = (vacated staffed, tt)
  resume-Returns e (stopping name rest) now count load staffed known =
      face-Returns (unload_crashed e now name) now count rest staffed
  resume-Returns e (draining since target) now count load staffed known =
      leave_resident-Returns _ now target _ staffed known
  resume-Returns e (unloading previous target) now count load staffed known =
      start_load-Returns (swapped_out e now previous) now target staffed known
  resume-Returns e (loading since target) now count started staffed known =
      (installed target known staffed, tt)
  resume-Returns e (loading since target) now count (refused message) staffed known = (staffed, tt)
  resume-Returns e (cleaning target) now count load staffed known = (staffed, tt)

  -- The loop can be resumed at the phase.
  abbrev Fit : Phase F → Engine F → Type 0
  Fit p e = Staffed e × HasTarget p e.queues

  target_stays :
      (p : Phase F) (queues queues' : ModelQueues)
      → ((name : String) → contains queues name ≡ true → contains queues' name ≡ true)
      → HasTarget p queues
      → HasTarget p queues'
  target_stays looping q q' stays known = tt
  target_stays (containing name rest) q q' stays known = tt
  target_stays (stopping name rest) q q' stays known = tt
  target_stays (draining since target) q q' stays known = stays target known
  target_stays (unloading previous target) q q' stays known = stays target known
  target_stays (loading since target) q q' stays known = stays target known
  target_stays (cleaning target) q q' stays known = tt

  abbrev Arrived : Phase F → Option (Engine F × ℕ) → Type 0
  Arrived p none = Unit
  Arrived p (some (e, ref)) = Fit p e

  map-Arrived :
      (p : Phase F) (f : ModelQueues → Engine F × ℕ) (o : Option ModelQueues)
      → ((queues : ModelQueues) → o ≡ some queues → Fit p (f queues).0)
      → Arrived p (Option.map f o)
  map-Arrived p f none fits = tt
  map-Arrived p f (some queues) fits = fits queues refl

  submit-Arrived :
      (e : Engine F) (p : Phase F) (now : F) (request : GenerationRequest F) (id : String)
      → Fit p e
      → Arrived p (submit e now request id)
  unfolding submit emit
  submit-Arrived e p now request id (staffed, known) =
      if_cases {A = Option (Engine F × ℕ)} (Arrived p) (not (contains e.queues request.model))
        (λ unknown. tt)
        (λ listed. map-Arrived p _ (enqueue _ e.queues e.next_ref) λ queues taken.
          let stays = λ (name : String). enqueue-contains _ e.queues queues e.next_ref name taken in
          (restaffed stays staffed, target_stays p e.queues queues stays known))

  take_turn-Fit :
      (e : Engine F) (p : Phase F) (now : F) (ref : ℕ) (turn : Turn)
      → Fit p e
      → Fit p (take_turn e now ref turn)
  unfolding take_turn
  take_turn-Fit e p now ref turn fit =
      go (serve_turn e now ref turn) (serve_turn-Keeps e now ref turn)
    where
      kept : (e' : Engine F) → Keeps e e' → Fit p e'
      kept e' keeps =
          subst (λ f. IsStaffed f.config.models f.resident f.queues × HasTarget p f.queues)
            (sym keeps) fit

      go :
          (r : Engine F × Bool)
          → Keeps e r.0
          → Fit p (if r.1 then record r.0 { in_flight = mark_over ref r.0.in_flight } else r.0)
      go (e', true) keeps = kept e' keeps
      go (e', false) keeps = kept e' keeps

  Step-Fit : {e e' : Engine F} {p p' : Phase F} → Step e p e' p' → Fit p e → Fit p' e'
  Step-Fit {e} {e'} {p} {p'} (arrives now request id ref done same) fit =
      subst (λ x. Fit x e') (sym same)
        (subst (Arrived p) done (submit-Arrived e p now request id fit))
  Step-Fit {e} {e'} {p} {p'} (leaves ref done same) fit =
      subst (λ x. Fit x e') (sym same) (subst (Fit p) (sym done) fit)
  Step-Fit {e} {e'} {p} {p'} (serves now f turn flying open_yet done same) fit =
      subst (λ x. Fit x e') (sym same)
        (subst (Fit p) (sym done) (take_turn-Fit e p now f.ref turn fit))
  Step-Fit {e} {e'} {p} {p'} (resumes now count load ready done) fit =
      subst Returns done (resume-Returns e p now count load fit.0 fit.1)

  Reach-Fit : {config : AppConfig F} {e : Engine F} {p : Phase F} → Reach config e p → Fit p e
  unfolding new_engine
  Reach-Fit {config} (starts heap) = (
    record {
      configured =
          λ m listed. contains-new_queues _ m.name (In-map (λ m. m.name) config.models m listed);
      hosted = λ name here. cc;
    },
    tt,
  )
  Reach-Fit (next reached step) = Step-Fit step (Reach-Fit reached)

  returned : (o : Option (Engine F × Phase F)) → Returns o → (r : Engine F × Phase F) × (o ≡ some r)
  returned none h = absurd h
  returned (some r) h = (r, refl)

  -- The control loop never meets a KeyError: whatever happened before, and whatever the time, the
  -- numbers in the log and the way a load ended, the stretch from the await that the loop is at to
  -- the next await returns, with an engine and the next await.
  pub Reach-Returns :
      {config : AppConfig F} {e : Engine F} {p : Phase F} (now : F) (count : ℕ → String)
      (load : Load)
      → Reach config e p
      → (r : Engine F × Phase F) × (resume e p now count load ≡ some r)
  Reach-Returns {config} {e} {p} now count load reached =
      let (staffed, known) = Reach-Fit reached in
      returned (resume e p now count load) (resume-Returns e p now count load staffed known)
