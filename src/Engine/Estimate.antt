-- ===== src/Engine/Estimate.antt =====
-- src/sir/engine.py: `estimate_wait`, the projection of the policy for one queued request.
use stupid_inference_router.Prelude.{ℕ, Option, none, some}
use stupid_inference_router.Prelude.Dict.{get}
use stupid_inference_router.Float.{Float, lit}
use stupid_inference_router.Types.Request.{model}
use stupid_inference_router.Types.Scheduling.{SchedulerSnapshot, WaitEstimate}
use stupid_inference_router.Policy.Estimate.{Estimated, estimate, raised, estimate_wait}
use stupid_inference_router.Queues.Defs.{position_of}
use stupid_inference_router.Engine.Defs.{Engine, snapshot}
use stupid_inference_router.Engine.Serve.{get_or}

-- The request is no longer queued, or waits this long, or an exception was raised.
pub data Projection (F : Type 0) : Type 0 where
  not_queued : Projection F
  waits : WaitEstimate F → Projection F
  no_projection : Projection F

module _ {F : Type 0} ⦃fl : Float F⦄ where
  abbrev of_estimated : Estimated F → Projection F
  of_estimated (estimate w) = waits w
  of_estimated (raised error) = no_projection

  abbrev project_in : Engine F → ℕ → F → ℕ → Option (SchedulerSnapshot F) → Projection F
  project_in e ref now position none = no_projection
  project_in e ref now position (some s) =
      let name = model (e.heap ref) in
      of_estimated (
        estimate_wait s name position now e.config.scheduler
          (get_or (get name e.mean_seconds) (lit 0 0)))

  abbrev project_at : Engine F → ℕ → F → Option ℕ → Projection F
  project_at e ref now none = not_queued
  project_at e ref now (some position) = project_in e ref now position (snapshot e)

  unfoldable pub project : Engine F → ℕ → F → Projection F
  project e ref now = project_at e ref now (position_of e.heap e.queues ref)

  abbrev pub running_poll_seconds : F
  running_poll_seconds = lit 1 0
