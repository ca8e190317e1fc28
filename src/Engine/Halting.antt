-- ===== src/Engine/Halting.antt =====
-- src/sir/engine.py: the tasks that `stop` ends, and the interruption of the control loop.
use stupid_inference_router.Prelude.{true, false, ◌≡◌, refl, ap, ◌∙◌, some, []}
use stupid_inference_router.Float.{Float}
use stupid_inference_router.Engine.Defs.{Engine, emit}
use stupid_inference_router.Engine.Loop.{stop_flights}
use stupid_inference_router.Engine.Keeps.{frame, gather-Keeps}
use stupid_inference_router.Engine.Control.{
  Phase, looping, containing, stopping, draining, unloading, loading, cleaning,
}
use stupid_inference_router.Engine.Coherence.{stance, Coherent}
use stupid_inference_router.Engine.Shutdown.{halted, interrupted}

-- What stays as it is while the tasks end.
pub record IsStill {F : Type 0} (e e' : Engine F) : Type 0 where
  pub queues : e'.queues ≡ e.queues
  pub resident : e'.resident ≡ e.resident
  pub loaded : e'.loaded ≡ e.loaded

module _ {F : Type 0} ⦃fl : Float F⦄ where
  halted-frame :
      (e : Engine F) (now : F)
      → frame (halted e now) ≡ record (frame e) { in_flight = stop_flights (λ f. true) e.in_flight }
  halted-frame e now = gather-Keeps _ now (λ ref. []) _

  pub halted-IsStill : (e e' : Engine F) (now : F) → IsStill e e' → IsStill e (halted e' now)
  halted-IsStill e e' now s =
      let same = halted-frame e' now in
      record {
        queues = ap (λ f. f.queues) same ∙ s.queues;
        resident = ap (λ f. f.resident) same ∙ s.resident;
        loaded = ap (λ f. f.loaded) same ∙ s.loaded;
      }

  itself : (e : Engine F) → IsStill e e
  itself e = record { queues = refl; resident = refl; loaded = refl }

  pub interrupted-IsStill :
      (e : Engine F) (p : Phase F) (now : F) → IsStill e (interrupted e now (some p))
  unfolding interrupted emit
  interrupted-IsStill e looping now = itself e
  interrupted-IsStill e (containing name rest) now =
      let s = halted-IsStill e e now (itself e) in
      record { queues = s.queues; resident = s.resident; loaded = s.loaded }
  interrupted-IsStill e (stopping name rest) now = itself e
  interrupted-IsStill e (draining since target) now =
      let s = halted-IsStill e e now (itself e) in
      record { queues = s.queues; resident = s.resident; loaded = s.loaded }
  interrupted-IsStill e (unloading previous target) now = record {
    queues = refl;
    resident = refl;
    loaded = refl;
  }
  interrupted-IsStill e (loading since target) now = record {
    queues = refl;
    resident = refl;
    loaded = refl;
  }
  interrupted-IsStill e (cleaning target) now = record {
    queues = refl;
    resident = refl;
    loaded = refl;
  }

  -- The flags are down.
  abbrev pub IsQuiet : Engine F → Type 0
  IsQuiet e = (e.draining ≡ false) × (e.switching ≡ false)

  pub interrupted-IsQuiet :
      (e : Engine F) (p : Phase F) (now : F)
      → Coherent p (stance e)
      → IsQuiet (interrupted e now (some p))
  unfolding interrupted emit
  interrupted-IsQuiet e looping now ((loaded, within, still), quiet) = (quiet, still)
  interrupted-IsQuiet e (containing name rest) now ((loaded, within, still), quiet, here) =
      let same = halted-frame e now in
      (ap (λ f. f.draining) same ∙ quiet, ap (λ f. f.switching) same ∙ still)
  interrupted-IsQuiet e (stopping name rest) now ((loaded, free, idle, still), quiet) =
      (quiet, still)
  interrupted-IsQuiet e (draining since target) now ((loaded, within, still), quiet) =
      (refl, ap (λ f. f.switching) (halted-frame e now) ∙ still)
  interrupted-IsQuiet e (unloading previous target) now ((loaded, free, idle, moving), quiet) =
      (quiet, refl)
  interrupted-IsQuiet e (loading since target) now ((loaded, free, idle, moving), quiet) =
      (quiet, refl)
  interrupted-IsQuiet e (cleaning target) now ((loaded, free, idle, moving), quiet) = (quiet, refl)

  pub halted-IsQuiet : (e : Engine F) (now : F) → IsQuiet e → IsQuiet (halted e now)
  halted-IsQuiet e now (quiet, still) =
      let same = halted-frame e now in
      (ap (λ f. f.draining) same ∙ quiet, ap (λ f. f.switching) same ∙ still)
