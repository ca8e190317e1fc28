-- ===== src/Api/Document.antt =====
-- src/sir/api.py: `_document`, without the rendered completion and error.
use stupid_inference_router.Prelude.{String, Option, none, some, if◌then◌else◌}
use stupid_inference_router.Float.{Float, div, lit, min, truthy}
use stupid_inference_router.Types.Request.{RequestState}
use stupid_inference_router.Types.Scheduling.{WaitEstimate}
use stupid_inference_router.Config.Scheduler.{JobsConfig}
use stupid_inference_router.Jobs.Defs.{Job, job_id, job_state, is_terminal}
use stupid_inference_router.Engine.Defs.{Engine}
use stupid_inference_router.Engine.Estimate.{
  Projection, not_queued, waits, no_projection, project, running_poll_seconds,
}

pub record Document (F : Type 0) : Type 0 where
  pub id : String
  pub status : RequestState
  pub model : String
  pub wait : Option (WaitEstimate F)
  pub retry_after : F

module _ {F : Type 0} ⦃fl : Float F⦄ where
  -- Never a cadence that would cost the client its lease.
  abbrev pub within_lease : JobsConfig F → F → F
  within_lease config retry_after =
      if truthy config.lease_seconds
      then min retry_after (div config.lease_seconds (lit 2 0))
      else retry_after

  abbrev pub render : Engine F → JobsConfig F → Job F → Option (WaitEstimate F) → F → Document F
  render e config job wait retry_after = record {
    id = job_id e.heap job;
    status = job_state e.heap job;
    model = job.body.model;
    wait = wait;
    retry_after = within_lease config retry_after;
  }

  abbrev pub render_projected : Engine F → JobsConfig F → Job F → Projection F → Option (Document F)
  render_projected e config job not_queued = some (render e config job none running_poll_seconds)
  render_projected e config job (waits w) = some (render e config job (some w) w.retry_after)
  render_projected e config job no_projection = none

  -- `none` is an exception of the estimate.
  unfoldable pub document : Engine F → JobsConfig F → Job F → F → Option (Document F)
  document e config job now =
      if is_terminal e.heap job
      then some (render e config job none (lit 0 0))
      else render_projected e config job (project e job.queued now)
