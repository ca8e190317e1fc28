-- ===== src/Api/Resubmission.antt =====
-- src/sir/api.py: `chat_completions` for asynchronous submissions with an idempotency key.
use mathlib.Core.Option
use stupid_inference_router.Prelude.{
  ℕ, String, true, false, not, ◌&&◌, ◌≡◌, refl, sym, ap, subst, ◌∙◌, ◌⊎◌, inl, inr, Option, none,
  some, str_eq, arith, if◌then◌else◌, if_cases,
}
use stupid_inference_router.Prelude.Dict.{get}
use stupid_inference_router.Float.{Float}
use stupid_inference_router.Config.App.{model_by_served_name}
use stupid_inference_router.Config.Models.{ModelConfig, served_as}
use stupid_inference_router.Schemas.{ChatCompletionRequest, to_generation_request}
use stupid_inference_router.Queues.Defs.{Heap, ModelQueues, contains}
use stupid_inference_router.Types.Request.{GenerationRequest}
use stupid_inference_router.Jobs.Defs.{
  Job, JobStore, create, find_by_key, new_job, make_room, inserted,
}
use stupid_inference_router.Jobs.Create.{IsOrdered, IsFiled, create-IsFiled}
use stupid_inference_router.Engine.Defs.{Engine, submit, emit}
use stupid_inference_router.Api.Flow.{
  App, Reply, jobs_full, exclusive, chat_completions, routed, unless_known, enter, submitted, filed,
  find_existing, accept,
}

module _ {F : Type 0} ⦃fl : Float F⦄ where
  -- A repeated submission, with jobs enabled: an asynchronous request for a served model, not
  -- streaming, whose key is not empty and finds a job, leaves the engine and the jobs as they are
  -- and answers with that job.
  chat_completions-repeated :
      (app : App F) (now : F) (id key : String) (body : ChatCompletionRequest F)
      (target : ModelConfig F) (job : Job F)
      → app.engine.config.jobs.enabled ≡ true
      → model_by_served_name app.engine.config.models body.model ≡ some target
      → body.stream ≡ false
      → str_eq key "" ≡ false
      → find_by_key app.store key ≡ some job
      → chat_completions app now id true (some key) body ≡ (app, accept app job now)
  unfolding chat_completions routed unless_known
  chat_completions-repeated app now id key body target job enabled known single named found =
      ap (routed app now id true (some key) body) known ∙ rw (enabled, single, named, found) refl

  map-config :
      (e e' : Engine F) (ref : ℕ) (f : ModelQueues → Engine F × ℕ)
      → ((q : ModelQueues) → (f q).0.config ≡ e.config)
      → (o : Option ModelQueues) → Option.map f o ≡ some (e', ref)
      → e'.config ≡ e.config
  map-config e e' ref f keeps none h = cc
  map-config e e' ref f keeps (some q) h =
      let same : f q ≡ (e', ref) = cc in ap (λ p. p.0.config) (sym same) ∙ keeps q

  submit-config :
      (e : Engine F) (now : F) (request : GenerationRequest F) (id : String) (e' : Engine F)
      (ref : ℕ)
      → submit e now request id ≡ some (e', ref)
      → e'.config ≡ e.config
  unfolding submit emit
  submit-config e now request id e' ref =
      if_cases {A = Option (Engine F × ℕ)} (λ o. o ≡ some (e', ref) → e'.config ≡ e.config)
        (not (contains e.queues request.model)) (λ unknown h. cc)
        (λ known. map-config e e' ref _ (λ q. refl) _)

  create-new_job :
      (heap : Heap F) (store store' : JobStore F) (now : F) (ref : ℕ)
      (body : ChatCompletionRequest F) (key : Option String) (job : Job F)
      → create heap store now ref body key ≡ some (store', job)
      → job ≡ new_job ref body now key
  unfolding create inserted
  create-new_job heap store store' now ref body key job = go (make_room heap store)
    where
      go :
          (o : Option (JobStore F))
          → inserted heap (new_job ref body now key) o ≡ some (store', job)
          → job ≡ new_job ref body now key
      go none e = cc
      go (some s) e = cc

  -- What the first submission under a key comes to: 503 with its request cancelled and the jobs as
  -- before, or 202 with a job for the request, which a repetition that comes next then gets.
  abbrev pub Settles : App F → F → ℕ → String → ChatCompletionRequest F → App F × Reply F → Type 0
  Settles app now ref key body (app', reply) =
      ((reply ≡ jobs_full) × (app'.store ≡ app.store) × ((app'.engine.heap ref).cancelled ≡ true))
      ⊎ ((job : Job F) × (reply ≡ accept app' job now)
          × (job.queued ≡ ref)
          × (find_by_key app'.store key ≡ some job)
          × ((later : F) (id : String)
              → chat_completions app' later id true (some key) body
                ≡ (app', accept app' job later)))

  -- With jobs enabled and in order, an asynchronous submission for a served model, not streaming,
  -- that is accepted by the queues, under a key that is not empty and finds no job and with a fresh
  -- id that is not empty, either is refused for want of room, and then its request is cancelled and
  -- the jobs are as before; or it is answered with a job for that request, and a repetition of it that
  -- comes next, with whatever id and at whatever time but before anything else has changed the state
  -- (a sweep or an eviction that forgets the job, say), changes nothing and is answered with the
  -- same job, and so is any number of such repetitions.
  pub chat_completions-Settles :
      (app : App F) (now : F) (id key tag : String) (body : ChatCompletionRequest F)
      (target : ModelConfig F) (e' : Engine F) (ref : ℕ)
      → app.engine.config.jobs.enabled ≡ true
      → model_by_served_name app.engine.config.models body.model ≡ some target
      → served_as target ≡ some tag
      → body.stream ≡ false
      → str_eq key "" ≡ false
      → find_by_key app.store key ≡ none
      → submit app.engine now (to_generation_request body target.name tag "") id ≡ some (e', ref)
      → IsOrdered e'.heap app.store
      → str_eq (e'.heap ref).id "" ≡ false
      → get (e'.heap ref).id app.store.jobs ≡ none
      → Settles app now ref key body (chat_completions app now id true (some key) body)
  unfolding chat_completions routed unless_known enter submitted filed
  chat_completions-Settles app now id key tag body target e' ref enabled known tagged single named
        new sub ordered real fresh =
      subst (Settles app now ref key body) (sym reached) (
        go (create e'.heap app.store now ref body (some key)) refl
          (create-IsFiled e'.heap app.store now ref body (some key) ordered real fresh unfiled))
    where
      unfiled : (k : String) → some key ≡ some k → find_by_key app.store k ≡ none
      unfiled k eq = let same : key ≡ k = cc in subst (λ x. find_by_key app.store x ≡ none) same new

      reached :
          chat_completions app now id true (some key) body
          ≡ filed
              (record app { engine = e' })
              now
              ref
              (create e'.heap app.store now ref body (some key))
      reached =
          ap (routed app now id true (some key) body) known
          ∙ ap
              (λ b.
                if (b && true) && body.stream
                then (app, exclusive)
                else unless_known app now id (b && true) (some key) body target
                    (find_existing app.store (b && true) (some key)))
              enabled
          ∙ ap
              (λ b.
                if b
                then (app, exclusive)
                else unless_known app now id true (some key) body target
                    (find_existing app.store true (some key)))
              single
          ∙ ap
              (λ b.
                unless_known app now id true (some key) body target
                  (if not b then find_by_key app.store key else none))
              named
          ∙ ap (unless_known app now id true (some key) body target) new
          ∙ ap (enter app now id true (some key) body target.name) tagged
          ∙ ap (submitted app now true (some key) body) sub

      go :
          (o : Option (JobStore F × Job F))
          → create e'.heap app.store now ref body (some key) ≡ o
          → IsFiled e'.heap app.store o
          → Settles app now ref key body (filed (record app { engine = e' }) now ref o)
      go none eq done = inl (refl, refl, ground arith)
      go (some (store', job)) eq (ordered', at_id, at_key, kept) =
          let made : job ≡ new_job ref body now (some key) =
            create-new_job e'.heap app.store store' now ref body (some key) job eq in
          let config = submit-config app.engine now _ id e' ref sub in
          let found = at_key key (ap (λ j. j.idempotency_key) made) in
          inr (
            job,
            refl,
            ap (λ j. j.queued) made,
            found,
            λ later id'.
                chat_completions-repeated (record app { engine = e'; store = store' }) later id' key
                  body target job (ap (λ c. c.jobs.enabled) config ∙ enabled)
                  (ap (λ c. model_by_served_name c.models body.model) config ∙ known) single named
                  found,
          )
