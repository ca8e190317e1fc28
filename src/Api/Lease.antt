-- ===== src/Api/Lease.antt =====
-- src/sir/api.py: the cadence that `_document` advises, against the lease of src/sir/jobs.py.
use stupid_inference_router.Prelude.{
  String, true, false, ◌≡◌, sym, subst, Option, none, some, inl, inr, arith, if_cases,
}
use stupid_inference_router.Prelude.Dict.{get}
use stupid_inference_router.Float.{Float, Laws, le, lit, sub, div, truthy}
use stupid_inference_router.Types.Scheduling.{WaitEstimate}
use stupid_inference_router.Config.Scheduler.{JobsConfig}
use stupid_inference_router.Queues.Defs.{Heap}
use stupid_inference_router.Jobs.Defs.{Job, JobStore, is_terminal}
use stupid_inference_router.Jobs.Life.{get_job, sweep_once}
use stupid_inference_router.Jobs.Invariant.{IsKeyed}
use stupid_inference_router.Jobs.Lease.{get_job-noted, sweep_once-young}
use stupid_inference_router.Engine.Defs.{Engine}
use stupid_inference_router.Engine.Estimate.{Projection, not_queued, waits, no_projection, project}
use stupid_inference_router.Api.Document.{
  Document, document, render, render_projected, within_lease,
}
use stupid_inference_router.Api.Flow.{App, shown, shown_reply, read_job, show}

module _ {F : Type 0} ⦃fl : Float F⦄ (l : Laws fl) where
  within_lease_lem :
      (config : JobsConfig F) (retry_after : F)
      → truthy config.lease_seconds ≡ true
      → le (within_lease config retry_after) (div config.lease_seconds (lit 2 0)) ≡ true
  within_lease_lem config retry_after lease =
      elim (l.total retry_after (div config.lease_seconds (lit 2 0))) [
        | inl a ↦ ground arith
        | inr a ↦ ground (
          arith,
          l.total (div config.lease_seconds (lit 2 0)) (div config.lease_seconds (lit 2 0)),
        )
      ]

  rendered-within :
      (e : Engine F) (config : JobsConfig F) (job : Job F) (w : Option (WaitEstimate F))
      (advice : F) (d : Document F)
      → truthy config.lease_seconds ≡ true
      → some (render e config job w advice) ≡ some d
      → le d.retry_after (div config.lease_seconds (lit 2 0)) ≡ true
  rendered-within e config job w advice d lease eq =
      let same : render e config job w advice ≡ d = cc in
      subst (λ x. le x.retry_after (div config.lease_seconds (lit 2 0)) ≡ true) same
        (within_lease_lem config advice lease)

  projected-within :
      (e : Engine F) (config : JobsConfig F) (job : Job F) (p : Projection F) (d : Document F)
      → truthy config.lease_seconds ≡ true
      → render_projected e config job p ≡ some d
      → le d.retry_after (div config.lease_seconds (lit 2 0)) ≡ true
  projected-within e config job not_queued d lease eq =
      rendered-within e config job none _ d lease eq
  projected-within e config job (waits w) d lease eq =
      rendered-within e config job (some w) _ d lease eq
  projected-within e config job no_projection d lease eq = cc

  document-within :
      (e : Engine F) (config : JobsConfig F) (job : Job F) (now : F) (d : Document F)
      → truthy config.lease_seconds ≡ true
      → document e config job now ≡ some d
      → le d.retry_after (div config.lease_seconds (lit 2 0)) ≡ true
  unfolding document
  document-within e config job now d lease =
      if_cases {A = Option (Document F)}
        (λ o. o ≡ some d → le d.retry_after (div config.lease_seconds (lit 2 0)) ≡ true)
        (is_terminal e.heap job) (λ over eq. rendered-within e config job none _ d lease eq)
        (λ busy eq. projected-within e config job (project e job.queued now) d lease eq)

  shown-within :
      (app : App F) (now : F) (o : Option (Job F)) (d : Document F)
      → truthy app.engine.config.jobs.lease_seconds ≡ true
      → show app now o ≡ shown d
      → le d.retry_after (div app.engine.config.jobs.lease_seconds (lit 2 0)) ≡ true
  shown-within app now none d lease eq = cc
  shown-within app now (some job) d lease eq =
      document-within app.engine app.engine.config.jobs job now d lease
        (reply (document app.engine app.engine.config.jobs job now) eq)
    where
      reply : (o : Option (Document F)) → shown_reply o ≡ shown d → o ≡ some d
      reply none e = cc
      reply (some x) e = cc

  -- Given the laws of floats: an unfinished job is polled at `now`, the answer advises when to come
  -- back, and the poll is noted in the job. Then whatever happens until a sweep no later than that:
  -- if the job is still filed under its id at the sweep, with that poll, and is still unfinished, the
  -- sweep keeps it under its id and does not touch its request. The lease is on and not negative,
  -- it is the job store's at the sweep too, and jobs are filed under their ids. A job that has
  -- finished by then is not meant.
  pub read_job-kept :
      (app : App F) (now later : F) (id : String) (job job' : Job F) (d : Document F)
      (heap : Heap F) (store : JobStore F)
      → truthy app.engine.config.jobs.lease_seconds ≡ true
      → le (lit 0 0) app.engine.config.jobs.lease_seconds ≡ true
      → get id app.store.jobs ≡ some job
      → is_terminal app.engine.heap job ≡ false
      → (read_job app now id).1 ≡ shown d
      → store.config ≡ app.engine.config.jobs
      → IsKeyed heap store.jobs
      → get id store.jobs ≡ some job'
      → job'.last_polled_at ≡ now
      → is_terminal heap job' ≡ false
      → le (sub later now) d.retry_after ≡ true
      → (get id (read_job app now id).0.store.jobs ≡ some (record job { last_polled_at = now }))
        × (get id (sweep_once heap store later).1.jobs ≡ some job')
        × ((sweep_once heap store later).0 job'.queued ≡ heap job'.queued)
  unfolding read_job
  read_job-kept app now later id job job' d heap store lease positive here busy reply same keyed
        here' noted busy' soon =
      let young : le (sub later now) store.config.lease_seconds ≡ true =
        subst (λ c. le (sub later now) c.lease_seconds ≡ true) (sym same)
          (l.trans _ _ _ soon (
            l.trans _ _ _
              (shown-within (record app { store = (get_job app.engine.heap app.store id now).0 })
                now (get_job app.engine.heap app.store id now).1 d lease reply)
              (l.div_le _ (lit 2 0) positive (l.lit_mono 1 0 2 0 (omega arith))))) in
      let (kept, alone) =
        sweep_once-young heap store id job' keyed here' later busy'
          (subst (λ t. le (sub later t) store.config.lease_seconds ≡ true) (sym noted) young) in
      (get_job-noted app.engine.heap app.store id job here now busy, kept, alone)
