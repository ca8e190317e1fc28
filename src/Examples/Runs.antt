-- ===== src/Examples/Runs.antt =====
-- Witnesses and tests of the engine's runs.
use stupid_inference_router.Prelude.{ℕ, String, Option, ◌≡◌, refl, none, some}
use stupid_inference_router.Prelude.Int.{ℤ, pos}
use stupid_inference_router.Prelude.Dict.{get, put}
use stupid_inference_router.Float.Fixed.{fixed}
use stupid_inference_router.Queues.Defs.{new_queues, add_queues, enqueue}
use stupid_inference_router.Engine.Defs.{Engine, new_engine, submit}
use stupid_inference_router.Engine.Switch.{started}
use stupid_inference_router.Engine.Control.{Phase, looping, resume}
use stupid_inference_router.Engine.Steps.{arrives, resumes, Reach, starts, next}
use stupid_inference_router.Engine.Invariant.{IsSafe, Reach-IsSafe}
use stupid_inference_router.Engine.Shutdown.{stop}
use stupid_inference_router.Engine.Down.{IsDown, stop-IsDown}
use stupid_inference_router.Engine.Resume.{Reach-Returns}
use stupid_inference_router.Examples.Data.{an_app, a_request, waiting_request}

abbrev fresh : Engine ℤ
fresh = new_engine an_app (λ ref. waiting_request)

abbrev taken_in : Option (Engine ℤ × ℕ)
taken_in = submit fresh (pos 1000) a_request "one"

-- The engine with the request in its queue.
abbrev waiting : Engine ℤ
waiting = elim taken_in [ none ↦ fresh | some r ↦ r.0 ]

abbrev numbers : ℕ → String
numbers n = ""

taken : submit fresh (pos 1000) a_request "one" ≡ some (waiting, 0)
unfolding new_engine submit new_queues add_queues enqueue get put
taken = refl

reached_waiting : Reach an_app waiting looping
reached_waiting =
    next (starts (λ ref. waiting_request)) (arrives (pos 1000) a_request "one" 0 taken refl)

moved : (r : Engine ℤ × Phase ℤ) × (resume waiting looping (pos 2000) numbers started ≡ some r)
moved = Reach-Returns (pos 2000) numbers started reached_waiting

Reach-Returns_example :
    (r : Engine ℤ × Phase ℤ) × (resume waiting looping (pos 2000) numbers started ≡ some r)
Reach-Returns_example = Reach-Returns (pos 2000) numbers started reached_waiting

Reach-IsSafe_example : IsSafe moved.0.0
Reach-IsSafe_example =
    Reach-IsSafe (next reached_waiting (resumes (pos 2000) numbers started tt moved.1))

stop-IsDown_example :
    (e' : Engine ℤ) × (stop waiting (pos 2000) (some looping) ≡ some e') × IsDown waiting looping e'
stop-IsDown_example = stop-IsDown (pos 2000) reached_waiting
