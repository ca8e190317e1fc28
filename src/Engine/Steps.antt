-- ===== src/Engine/Steps.antt =====
-- src/sir/engine.py: what can happen to an engine, in any order. The control loop runs from one await
-- to the next; in between, requests arrive, clients leave, and the served requests take turns.
use stupid_inference_router.Prelude.{
  ℕ, ◌==◌, String, true, false, ◌≡◌, some, List, [], ◌∷◌, All, In, if◌then◌else◌,
}
use stupid_inference_router.Float.{Float}
use stupid_inference_router.Config.App.{AppConfig}
use stupid_inference_router.Types.Request.{GenerationRequest, cancel}
use stupid_inference_router.Queues.Defs.{Heap, write}
use stupid_inference_router.Engine.Defs.{Engine, Flight, new_engine, submit}
use stupid_inference_router.Engine.Serve.{Turn, serve_turn}
use stupid_inference_router.Engine.Switch.{Load}
use stupid_inference_router.Engine.Control.{Phase, looping, containing, draining, resume}

-- The task of a request is over.
unfoldable pub mark_over : ℕ → List Flight → List Flight
mark_over ref [] = []
mark_over ref (f ∷ fs) =
    (if f.ref == ref then record f { finished = true } else f) ∷ mark_over ref fs

-- The await that the loop is at can return.
abbrev pub IsReady : {F : Type 0} → Phase F → List Flight → Type 0
IsReady (containing name rest) fs = All (λ f. f.finished ≡ true) fs
IsReady (draining since target) fs = All (λ f. f.finished ≡ true) fs
IsReady _ fs = Unit

module _ {F : Type 0} ⦃fl : Float F⦄ where
  -- One turn of a served request.
  unfoldable pub take_turn : Engine F → F → ℕ → Turn → Engine F
  take_turn e now ref turn =
      let (e', over) = serve_turn e now ref turn in
      if over then record e' { in_flight = mark_over ref e'.in_flight } else e'

  pub data Step (e : Engine F) (p : Phase F) (e' : Engine F) (p' : Phase F) : Type 0 where
    arrives :
        (now : F) (request : GenerationRequest F) (id : String) (ref : ℕ)
        → submit e now request id ≡ some (e', ref)
        → p' ≡ p
        → Step e p e' p'
    leaves :
        (ref : ℕ)
        → e' ≡ record e { heap = write e.heap ref (cancel (e.heap ref)) }
        → p' ≡ p
        → Step e p e' p'
    serves :
        (now : F) (f : Flight) (turn : Turn)
        → In f e.in_flight
        → f.finished ≡ false
        → e' ≡ take_turn e now f.ref turn
        → p' ≡ p
        → Step e p e' p'
    resumes :
        (now : F) (count : ℕ → String) (load : Load)
        → IsReady p e.in_flight
        → resume e p now count load ≡ some (e', p')
        → Step e p e' p'

  pub data Reach (config : AppConfig F) : Engine F → Phase F → Type 0 where
    starts : (heap : Heap F) → Reach config (new_engine config heap) looping
    next :
        {e e' : Engine F} {p p' : Phase F} → Reach config e p → Step e p e' p' → Reach config e' p'
