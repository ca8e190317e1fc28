-- ===== src/Engine/Invariant.antt =====
-- src/sir/engine.py: what holds of an engine whatever happens to it, in whatever order.
use mathlib.Core.Option
use stupid_inference_router.Prelude.{
  ℕ, suc, ◌≤◌, String, Bool, true, false, not, ◌≡◌, refl, sym, ap, subst, ◌∙◌, Option, none, some,
  List, [], ◌∷◌, arith, length, if◌then◌else◌, if_cases,
}
use stupid_inference_router.Float.{Float}
use stupid_inference_router.Config.App.{AppConfig}
use stupid_inference_router.Types.Request.{GenerationRequest}
use stupid_inference_router.Queues.Defs.{ModelQueues, contains}
use stupid_inference_router.Engine.Defs.{Engine, Flight, new_engine, submit, emit}
use stupid_inference_router.Engine.Serve.{Turn, serve_turn}
use stupid_inference_router.Engine.Keeps.{Keeps, serve_turn-Keeps}
use stupid_inference_router.Engine.Control.{
  Phase, looping, containing, stopping, draining, unloading, loading, cleaning,
}
use stupid_inference_router.Engine.Residency.{loaded_by}
use stupid_inference_router.Engine.Coherence.{stance, Coherent, Settled, Vacant, Leads}
use stupid_inference_router.Engine.Rounds.{resume-Leads}
use stupid_inference_router.Engine.Steps.{
  Step, arrives, leaves, serves, resumes, Reach, starts, next, take_turn, mark_over,
}

length-mark_over : (ref : ℕ) (fs : List Flight) → length (mark_over ref fs) ≡ length fs
unfolding mark_over
length-mark_over ref [] = refl
length-mark_over ref (f ∷ fs) = ap suc (length-mark_over ref fs)

loaded_by-one : (o : Option String) → length (loaded_by o) ≤ 1
loaded_by-one none = omega arith
loaded_by-one (some name) = omega arith

no_flights : (fs : List Flight) → length fs ≡ 0 → fs ≡ []
no_flights [] idle = refl
no_flights (f ∷ fs) idle = ground arith

module _ {F : Type 0} where
  map-stance :
      (e e' : Engine F) (ref : ℕ) (f : ModelQueues → Engine F × ℕ)
      → ((q : ModelQueues) → stance (f q).0 ≡ stance e)
      → (o : Option ModelQueues) → Option.map f o ≡ some (e', ref)
      → stance e' ≡ stance e
  map-stance e e' ref f keeps none h = cc
  map-stance e e' ref f keeps (some q) h =
      let same : f q ≡ (e', ref) = cc in ap (λ p. stance p.0) (sym same) ∙ keeps q

  submit-stance :
      (e : Engine F) (now : F) (request : GenerationRequest F) (id : String) (e' : Engine F)
      (ref : ℕ)
      → submit e now request id ≡ some (e', ref)
      → stance e' ≡ stance e
  unfolding submit emit
  submit-stance e now request id e' ref =
      if_cases {A = Option (Engine F × ℕ)} (λ o. o ≡ some (e', ref) → stance e' ≡ stance e)
        (not (contains e.queues request.model)) (λ unknown h. cc)
        (λ known. map-stance e e' ref _ (λ q. refl) _)

module _ {F : Type 0} ⦃fl : Float F⦄ where
  take_turn-stance :
      (e : Engine F) (now : F) (ref : ℕ) (turn : Turn)
      → stance (take_turn e now ref turn) ≡ stance e
  unfolding take_turn
  take_turn-stance e now ref turn = go (serve_turn e now ref turn) (serve_turn-Keeps e now ref turn)
    where
      of_keeps : (e' : Engine F) → Keeps e e' → stance e' ≡ stance e
      of_keeps e' keeps =
          ap
            (λ f. record {
              limit = f.config.scheduler.max_concurrent_requests;
              loaded = f.loaded;
              resident = f.resident;
              flights = length f.in_flight;
              draining = f.draining;
              switching = f.switching;
            })
            keeps

      go :
          (r : Engine F × Bool)
          → Keeps e r.0
          → stance (if r.1 then record r.0 { in_flight = mark_over ref r.0.in_flight } else r.0)
            ≡ stance e
      go (e', true) keeps =
          ap (λ n. record (stance e') { flights = n }) (length-mark_over ref e'.in_flight)
          ∙ of_keeps e' keeps
      go (e', false) keeps = of_keeps e' keeps

  Step-Coherent :
      {e e' : Engine F} {p p' : Phase F}
      → Step e p e' p'
      → Coherent p (stance e)
      → Coherent p' (stance e')
  Step-Coherent {e} {e'} {p} {p'} (arrives now request id ref done same) coherent =
      subst (λ x. Coherent x (stance e')) (sym same)
        (subst (Coherent p) (sym (submit-stance e now request id e' ref done)) coherent)
  Step-Coherent {e} {e'} {p} {p'} (leaves ref done same) coherent =
      subst (λ x. Coherent x (stance e')) (sym same)
        (subst (λ x. Coherent p (stance x)) (sym done) coherent)
  Step-Coherent {e} {e'} {p} {p'} (serves now f turn flying open_yet done same) coherent =
      subst (λ x. Coherent x (stance e')) (sym same)
        (subst (λ x. Coherent p (stance x)) (sym done)
          (subst (Coherent p) (sym (take_turn-stance e now f.ref turn)) coherent))
  Step-Coherent {e} {e'} {p} {p'} (resumes now count load ready done) coherent =
      subst Leads done (resume-Leads e p now count load coherent)

  pub Reach-Coherent :
      {config : AppConfig F} {e : Engine F} {p : Phase F} → Reach config e p → Coherent p (stance e)
  unfolding new_engine
  Reach-Coherent (starts heap) = ((refl, omega arith, refl), refl)
  Reach-Coherent (next reached step) = Step-Coherent step (Reach-Coherent reached)

  -- What holds at every moment.
  pub record IsSafe (e : Engine F) : Type 0 where
    pub one_loaded : length e.loaded ≤ 1
    pub resident_loaded : (name : String) → e.resident ≡ some name → e.loaded ≡ name ∷ []
    pub bounded : length e.in_flight ≤ e.config.scheduler.max_concurrent_requests
    pub quiet_switch :
        e.switching ≡ true → (e.in_flight ≡ []) × (e.resident ≡ none) × (e.draining ≡ false)

  settled : (e : Engine F) → Settled (stance e) → IsSafe e
  settled e (loaded, within, still) = record {
    one_loaded = omega (arith, ap length loaded, loaded_by-one e.resident);
    resident_loaded = λ name here. loaded ∙ ap loaded_by here;
    bounded = within;
    quiet_switch = λ moving. cc;
  }

  vacant :
      (e : Engine F) (names : List String) (moving : Bool)
      → length names ≤ 1
      → Vacant names moving (stance e)
      → e.draining ≡ false
      → IsSafe e
  vacant e names moving few (loaded, free, idle, flag) quiet = record {
    one_loaded = omega (arith, ap length loaded, few);
    resident_loaded = λ name here. cc;
    bounded = omega (arith, idle);
    quiet_switch = λ on. (no_flights e.in_flight idle, free, quiet);
  }

  safe : (p : Phase F) (e : Engine F) → Coherent p (stance e) → IsSafe e
  safe looping e (s, quiet) = settled e s
  safe (containing name rest) e (s, quiet, here) = settled e s
  safe (stopping name rest) e (s, quiet) = vacant e (name ∷ []) false (omega arith) s quiet
  safe (draining since target) e (s, quiet) = settled e s
  safe (unloading previous target) e (s, quiet) =
      vacant e (previous ∷ []) true (omega arith) s quiet
  safe (loading since target) e (s, quiet) = vacant e [] true (omega arith) s quiet
  safe (cleaning target) e (s, quiet) = vacant e [] true (omega arith) s quiet

  -- Whatever arrives, leaves, is served and crashes, and in whatever order it falls between the awaits
  -- of the control loop: at most one backend is loaded at any moment; a resident model is the one that
  -- is loaded; no more requests are served at once than the limit; and while the engine switches,
  -- after the drain, no request is being served, no model is resident and no drain is under way.
  pub Reach-IsSafe :
      {config : AppConfig F} {e : Engine F} {p : Phase F} → Reach config e p → IsSafe e
  Reach-IsSafe {config} {e} {p} reached = safe p e (Reach-Coherent reached)
