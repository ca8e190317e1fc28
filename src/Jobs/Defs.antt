-- ===== src/Jobs/Defs.antt =====
-- src/sir/jobs.py: `Job` and `JobStore`. A job refers to its request, which lives in the heap of the
-- queues; its pump is an asyncio task, of which the store sees whether it is done.
use stupid_inference_router.Prelude.{
  ℕ, String, Bool, true, false, Option, none, some, List, [], ◌∷◌, map, ltb, filter, length, str_eq,
  if◌then◌else◌,
}
use stupid_inference_router.Prelude.Int.{ℤ}
use stupid_inference_router.Prelude.Dict.{Dict, get, put, pop, values}
use stupid_inference_router.Float.{Float, le, truthy}
use stupid_inference_router.Config.Scheduler.{JobsConfig}
use stupid_inference_router.Schemas.{ChatCompletionRequest}
use stupid_inference_router.Types.Request.{RequestState, Chunk, StreamEnd, StreamError}
use stupid_inference_router.Queues.Defs.{Heap}

pub data Terminal : Type 0 where
  end : StreamEnd → Terminal
  error : StreamError → Terminal

-- The task that drains a request's events: waiting for one, told to stop, or over.
pub data Pump : Type 0 where
  pumping stopping over : Pump

pub record Job (F : Type 0) : Type 0 where
  pub queued : ℕ
  pub body : ChatCompletionRequest F
  pub created_at : F
  pub last_polled_at : F
  pub idempotency_key : Option String
  pub chunks : List Chunk
  pub terminal : Option Terminal
  pub finished_at : Option F
  pub first_read_at : Option F
  pub pump : Option Pump

pub record JobStore (F : Type 0) : Type 0 where
  pub config : JobsConfig F
  pub jobs : Dict (Job F)
  pub by_key : Dict String
  pub running : Bool

unfoldable pub new_store : {F : Type 0} → JobsConfig F → JobStore F
new_store config = record { config = config; jobs = []; by_key = []; running = false }

-- Derived, never stored.
abbrev pub state_of : Option Terminal → Bool → RequestState → RequestState
state_of (some (error e)) cancelled state = RequestState.failed
state_of (some (end e)) cancelled state = RequestState.done
state_of none cancelled state = if cancelled then RequestState.cancelled else state

abbrev pub is_final : RequestState → Bool
is_final RequestState.done = true
is_final RequestState.failed = true
is_final RequestState.cancelled = true
is_final _ = false

module _ {F : Type 0} (heap : Heap F) where
  abbrev pub job_id : Job F → String
  job_id job = (heap job.queued).id

  abbrev pub job_state : Job F → RequestState
  job_state job = state_of job.terminal (heap job.queued).cancelled (heap job.queued).state

  abbrev pub is_terminal : Job F → Bool
  is_terminal job = is_final (job_state job)

abbrev pub texts : {F : Type 0} → Job F → List String
texts job = map (λ chunk. chunk.text) job.chunks

abbrev reason_of : Option Terminal → String
reason_of (some (end e)) = e.finish_reason
reason_of (some (error e)) = "stop"
reason_of none = "stop"

abbrev pub finish_reason : {F : Type 0} → Job F → String
finish_reason job = reason_of job.terminal

abbrev usage_of : Option Terminal → Option (Dict ℤ)
usage_of (some (end e)) = e.usage
usage_of (some (error e)) = none
usage_of none = none

abbrev pub usage : {F : Type 0} → Job F → Option (Dict ℤ)
usage job = usage_of job.terminal

-- An assignment to a job's attributes, seen through the store.
abbrev pub update : {F : Type 0} → JobStore F → String → Job F → JobStore F
update store id job = record store { jobs = put id job store.jobs }

abbrev pub drop_key : Option String → Dict String → Dict String
drop_key none by_key = by_key
drop_key (some key) by_key = pop key by_key

abbrev pub add_key : Option String → String → Dict String → Dict String
add_key none id by_key = by_key
add_key (some key) id by_key = put key id by_key

module _ {F : Type 0} ⦃fl : Float F⦄ where
  -- `a or b`: 0.0 is false too.
  abbrev or_else : Option F → F → F
  or_else none b = b
  or_else (some a) b = if truthy a then a else b

  abbrev pub age_key : Job F → F
  age_key job = or_else job.finished_at job.created_at

  -- The first entry of the list sorted by `age_key`: sorting is stable.
  unfoldable pub oldest_of : Job F → List (Job F) → Job F
  oldest_of best [] = best
  oldest_of best (job ∷ rest) =
      oldest_of (if le (age_key best) (age_key job) then best else job) rest

  unfoldable pub forget : Heap F → JobStore F → Job F → JobStore F
  forget heap store job = record store {
    jobs = pop (job_id heap job) store.jobs;
    by_key = drop_key job.idempotency_key store.by_key;
  }

  -- `none` is JobStoreFull.
  unfoldable pub evict : Heap F → JobStore F → List (Job F) → Option (JobStore F)
  unfolding forget oldest_of
  evict heap store [] = none
  evict heap store (job ∷ rest) = some (forget heap store (oldest_of job rest))

  unfoldable pub make_room : Heap F → JobStore F → Option (JobStore F)
  unfolding evict
  make_room heap store =
      if ltb (length store.jobs) store.config.max_jobs
      then some store
      else evict heap store (filter (is_terminal heap) (values store.jobs))

  abbrev pub new_job : ℕ → ChatCompletionRequest F → F → Option String → Job F
  new_job ref body now key = record {
    queued = ref;
    body = body;
    created_at = now;
    last_polled_at = now;
    idempotency_key = key;
    chunks = [];
    terminal = none;
    finished_at = none;
    first_read_at = none;
    pump = some pumping;
  }

  abbrev pub insert_job : Heap F → Job F → JobStore F → JobStore F
  insert_job heap job store = record store {
    jobs = put (job_id heap job) job store.jobs;
    by_key = add_key job.idempotency_key (job_id heap job) store.by_key;
  }

  unfoldable pub inserted : Heap F → Job F → Option (JobStore F) → Option (JobStore F × Job F)
  inserted heap job none = none
  inserted heap job (some store) = some (insert_job heap job store, job)

  unfoldable pub create :
      Heap F
      → JobStore F
      → F
      → ℕ
      → ChatCompletionRequest F
      → Option String
      → Option (JobStore F × Job F)
  unfolding inserted
  create heap store now ref body key =
      inserted heap (new_job ref body now key) (make_room heap store)

-- An empty id is false to Python's test.
unfoldable pub job_of_id : {F : Type 0} → JobStore F → Option String → Option (Job F)
job_of_id store none = none
job_of_id store (some id) = if str_eq id "" then none else get id store.jobs

unfoldable pub find_by_key : {F : Type 0} → JobStore F → String → Option (Job F)
unfolding job_of_id
find_by_key store key = job_of_id store (get key store.by_key)
