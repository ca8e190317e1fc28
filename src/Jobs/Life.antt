-- ===== src/Jobs/Life.antt =====
-- src/sir/jobs.py: what happens to a job after `create`: polls, its pump, cancellation, the sweep.
use stupid_inference_router.Prelude.{
  String, Bool, false, not, ◌&&◌, Option, none, some, List, [], ◌∷◌, ◌++◌, is_some, if◌then◌else◌,
}
use stupid_inference_router.Prelude.Dict.{get, values}
use stupid_inference_router.Config.Scheduler.{JobsConfig}
use stupid_inference_router.Float.{Float, le, lt, add, sub, truthy}
use stupid_inference_router.Types.Request.{StreamEvent, chunk, ended, errored, cancel}
use stupid_inference_router.Queues.Defs.{Heap, write}
use stupid_inference_router.Jobs.Defs.{
  Job, JobStore, Pump, pumping, stopping, over, Terminal, job_id, is_terminal, update, forget,
}

-- `pump.cancel()`, unless there is no pump or it is done.
abbrev stop_pump : Option Pump → Option Pump
stop_pump none = none
stop_pump (some over) = some over
stop_pump (some p) = some stopping

module _ {F : Type 0} where
  -- A poll: the lease is renewed, and the first read of a finished job is noted.
  unfoldable pub polled : Heap F → F → Job F → Job F
  polled heap now job =
      if is_terminal heap job && not (is_some job.first_read_at)
      then record job { last_polled_at = now; first_read_at = some now }
      else record job { last_polled_at = now }

  unfoldable pub poll_found :
      Heap F → JobStore F → String → F → Option (Job F) → JobStore F × Option (Job F)
  unfolding polled
  poll_found heap store id now none = (store, none)
  poll_found heap store id now (some job) =
      (update store id (polled heap now job), some (polled heap now job))

  unfoldable pub get_job : Heap F → JobStore F → String → F → JobStore F × Option (Job F)
  unfolding poll_found
  get_job heap store id now = poll_found heap store id now (get id store.jobs)

  abbrev or_set : Option F → F → Option F
  or_set none now = some now
  or_set (some t) now = some t

  abbrev pub abandoned : Job F → F → Job F
  abandoned job now = record job {
    pump = stop_pump job.pump;
    finished_at = or_set job.finished_at now;
  }

  -- The job's request is cancelled, and the job no longer pumped.
  unfoldable pub abandon : Heap F → JobStore F → Job F → F → Heap F × JobStore F
  abandon heap store job now = (
    write heap job.queued (cancel (heap job.queued)),
    update store (job_id heap job) (abandoned job now),
  )

  cancel_found : Heap F → JobStore F → F → Option (Job F) → Heap F × JobStore F × Option (Job F)
  unfolding abandon
  cancel_found heap store now none = (heap, store, none)
  cancel_found heap store now (some job) =
      let (heap', store') = abandon heap store job now in (heap', store', some (abandoned job now))

  unfoldable pub cancel_job :
      Heap F → JobStore F → String → F → Heap F × JobStore F × Option (Job F)
  unfolding cancel_found
  cancel_job heap store id now = cancel_found heap store now (get id store.jobs)

  -- One event of `_drain`'s loop; a terminal one ends it, and `finally` stamps the time.
  abbrev buffered : Job F → StreamEvent → F → Job F
  buffered job (chunk c) now = record job { chunks = job.chunks ++ c ∷ [] }
  buffered job (ended e) now = record job {
    terminal = some (Terminal.end e);
    finished_at = some now;
    pump = some over;
  }
  buffered job (errored e) now = record job {
    terminal = some (Terminal.error e);
    finished_at = some now;
    pump = some over;
  }

  -- A turn of the pump: it takes the oldest event, or ends if it was told to stop, or waits.
  drain_from : Heap F → Job F → F → Option Pump → List StreamEvent → Heap F × Job F
  drain_from heap job now (some pumping) (event ∷ rest) =
      (write heap job.queued (record (heap job.queued) { events = rest }), buffered job event now)
  drain_from heap job now (some stopping) events =
      (heap, record job { finished_at = some now; pump = some over })
  drain_from heap job now _ _ = (heap, job)

  unfoldable pub drain_turn : Heap F → Job F → F → Heap F × Job F
  unfolding drain_from
  drain_turn heap job now = drain_from heap job now job.pump (heap job.queued).events

module _ {F : Type 0} ⦃fl : Float F⦄ where
  abbrev pub expires_at : JobsConfig F → F → Option F → F
  expires_at config finished none = add finished config.result_ttl_seconds
  expires_at config finished (some read) = add read config.read_ttl_seconds

  -- Is the job's result past its time?
  abbrev pub is_expired : JobsConfig F → Job F → Option F → F → Bool
  is_expired config job none now = false
  is_expired config job (some finished) now = le (expires_at config finished job.first_read_at) now

  -- Has nobody polled the unfinished job for longer than the lease?
  abbrev pub is_lapsed : Heap F → JobStore F → Job F → F → Bool
  is_lapsed heap store job now =
      truthy store.config.lease_seconds
      && not (is_terminal heap job)
      && lt store.config.lease_seconds (sub now job.last_polled_at)

  -- The sweep's loop body.
  unfoldable pub sweep_job : Heap F → JobStore F → F → Job F → Heap F × JobStore F
  sweep_job heap store now job =
      if is_lapsed heap store job now
      then abandon heap store job now
      else if is_terminal heap job && is_expired store.config job job.finished_at now
      then (heap, forget heap store job)
      else (heap, store)

  unfoldable pub sweep_jobs : Heap F → JobStore F → F → List (Job F) → Heap F × JobStore F
  sweep_jobs heap store now [] = (heap, store)
  sweep_jobs heap store now (job ∷ rest) =
      let (heap', store') = sweep_job heap store now job in sweep_jobs heap' store' now rest

  unfoldable pub sweep_once : Heap F → JobStore F → F → Heap F × JobStore F
  sweep_once heap store now = sweep_jobs heap store now (values store.jobs)

-- `stop`: the pumps end, and everything is forgotten.
unfoldable pub stop : {F : Type 0} → JobStore F → JobStore F
stop store = record store { jobs = []; by_key = []; running = false }
