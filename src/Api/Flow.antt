-- ===== src/Api/Flow.antt =====
-- src/sir/api.py: `chat_completions` and the job endpoints. What the code reads of the HTTP request is
-- an argument: whether `respond-async` is preferred, and the idempotency key.
use stupid_inference_router.Prelude.{
  ℕ, String, Bool, false, not, ◌&&◌, Option, none, some, str_eq, if◌then◌else◌,
}
use stupid_inference_router.Float.{Float}
use stupid_inference_router.Config.App.{model_by_served_name}
use stupid_inference_router.Config.Models.{ModelConfig, served_as}
use stupid_inference_router.Schemas.{ChatCompletionRequest, to_generation_request}
use stupid_inference_router.Types.Request.{cancel}
use stupid_inference_router.Queues.Defs.{write}
use stupid_inference_router.Jobs.Defs.{Job, JobStore, create, find_by_key}
use stupid_inference_router.Jobs.Life.{get_job, cancel_job}
use stupid_inference_router.Engine.Defs.{Engine, submit}
use stupid_inference_router.Api.Document.{Document, document}

-- The engine and the jobs of an app; requests live in the engine's heap.
pub record App (F : Type 0) : Type 0 where
  pub engine : Engine F
  pub store : JobStore F

-- What a handler answers: 404, 400, 503, 202 with a job's document, 200 with it, the stream or the
-- collected completion of a request, or 500 after an exception.
pub data Reply (F : Type 0) : Type 0 where
  model_not_found exclusive jobs_full job_lost internal_error : Reply F
  accepted : Document F → Reply F
  shown : Document F → Reply F
  streams : ℕ → Reply F
  collects : ℕ → Reply F

-- A key that is given and not empty.
abbrev pub has_key : Option String → Bool
has_key none = false
has_key (some key) = not (str_eq key "")

module _ {F : Type 0} where
  abbrev pub accepted_reply : Option (Document F) → Reply F
  accepted_reply none = internal_error
  accepted_reply (some d) = accepted d

  abbrev pub shown_reply : Option (Document F) → Reply F
  shown_reply none = internal_error
  shown_reply (some d) = shown d

  abbrev pub find_existing : JobStore F → Bool → Option String → Option (Job F)
  find_existing store wants none = none
  find_existing store wants (some key) =
      if wants && has_key (some key) then find_by_key store key else none

module _ {F : Type 0} ⦃fl : Float F⦄ where
  abbrev pub accept : App F → Job F → F → Reply F
  accept app job now = accepted_reply (document app.engine app.engine.config.jobs job now)

  -- After `create`; `none` is JobStoreFull.
  unfoldable pub filed : App F → F → ℕ → Option (JobStore F × Job F) → App F × Reply F
  filed app now ref none =
      let heap = app.engine.heap in
      (
        record app { engine = record app.engine { heap = write heap ref (cancel (heap ref)) } },
        jobs_full,
      )
  filed app now ref (some (store', job)) =
      let app' = record app { store = store' } in (app', accept app' job now)

  -- After `submit`.
  unfoldable pub submitted :
      App F
      → F
      → Bool
      → Option String
      → ChatCompletionRequest F
      → Option (Engine F × ℕ)
      → App F × Reply F
  unfolding filed
  submitted app now wants key body none = (app, internal_error)
  submitted app now wants key body (some (e', ref)) =
      let app' = record app { engine = e' } in
      if wants
      then filed app' now ref (create e'.heap app.store now ref body key)
      else if body.stream
      then (app', streams ref)
      else (app', collects ref)

  unfoldable pub enter :
      App F
      → F
      → String
      → Bool
      → Option String
      → ChatCompletionRequest F
      → String
      → Option String
      → App F × Reply F
  unfolding submitted
  enter app now id wants key body name none = (app, internal_error)
  enter app now id wants key body name (some tag) =
      submitted app now wants key body
        (submit app.engine now (to_generation_request body name tag "") id)

  -- After the lookup of the idempotency key.
  unfoldable pub unless_known :
      App F
      → F
      → String
      → Bool
      → Option String
      → ChatCompletionRequest F
      → ModelConfig F
      → Option (Job F)
      → App F × Reply F
  unfolding enter
  unless_known app now id wants key body target (some existing) = (app, accept app existing now)
  unless_known app now id wants key body target none =
      enter app now id wants key body target.name (served_as target)

  -- After the lookup of the model.
  unfoldable pub routed :
      App F
      → F
      → String
      → Bool
      → Option String
      → ChatCompletionRequest F
      → Option (ModelConfig F)
      → App F × Reply F
  unfolding unless_known
  routed app now id prefers key body none = (app, model_not_found)
  routed app now id prefers key body (some target) =
      let wants = app.engine.config.jobs.enabled && prefers in
      if wants && body.stream
      then (app, exclusive)
      else unless_known app now id wants key body target (find_existing app.store wants key)

  -- `id` is the id that a new request would get.
  unfoldable pub chat_completions :
      App F → F → String → Bool → Option String → ChatCompletionRequest F → App F × Reply F
  unfolding routed
  chat_completions app now id prefers key body =
      routed app now id prefers key body (model_by_served_name app.engine.config.models body.model)

  abbrev pub show : App F → F → Option (Job F) → Reply F
  show app now none = job_lost
  show app now (some job) = shown_reply (document app.engine app.engine.config.jobs job now)

  -- GET /v1/jobs/{id}
  unfoldable pub read_job : App F → F → String → App F × Reply F
  read_job app now id =
      let (store', found) = get_job app.engine.heap app.store id now in
      let app' = record app { store = store' } in (app', show app' now found)

  -- DELETE /v1/jobs/{id}
  unfoldable pub delete_job : App F → F → String → App F × Reply F
  delete_job app now id =
      let (heap', store', found) = cancel_job app.engine.heap app.store id now in
      let app' = record app { engine = record app.engine { heap = heap' }; store = store' } in
      (app', show app' now found)
