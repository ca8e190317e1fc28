-- ===== src/Engine/Defs.antt =====
-- src/sir/engine.py: the engine's state, its log, submission and the snapshot for the policy.
use mathlib.Core.Option
use stupid_inference_router.Prelude.{
  ℕ, ◌+◌, String, Bool, false, not, Option, none, some, List, [], ◌∷◌, ◌++◌, ltb, names, length,
  if◌then◌else◌,
}
use stupid_inference_router.Prelude.Dict.{Dict, get, put}
use stupid_inference_router.Float.{Float, lit}
use stupid_inference_router.Config.App.{AppConfig, model_names}
use stupid_inference_router.Config.Models.{
  ModelConfig, estimated_load_seconds, estimated_request_seconds,
}
use stupid_inference_router.Types.Request.{GenerationRequest, QueuedRequest, RequestState, model}
use stupid_inference_router.Types.Scheduling.{
  Decision, EngineEvent, EventKind, ModelState, SchedulerSnapshot,
}
use stupid_inference_router.Queues.Defs.{
  Heap, ModelQueues, write, new_queues, contains, enqueue, depth, oldest_enqueued_at,
}

-- A request that is being served: its object, whether its task is done, and whether it was told to stop.
pub record Flight : Type 0 where
  pub ref : ℕ
  pub finished : Bool
  pub stopping : Bool

-- `loaded` lists the backends that were started and not stopped since; `next_ref` is the next object.
pub record Engine (F : Type 0) : Type 0 where
  pub config : AppConfig F
  pub heap : Heap F
  pub next_ref : ℕ
  pub queues : ModelQueues
  pub loaded : List String
  pub resident : Option String
  pub resident_since : Option F
  pub idle_since : Option F
  pub unavailable_until : Dict F
  pub in_flight : List Flight
  pub failed : List String
  pub draining : Bool
  pub switching : Bool
  pub mean_seconds : Dict F
  pub decisions : List (Decision F)
  pub events : List (EngineEvent F)
  pub swaps : ℕ
  pub loads : ℕ
  pub time_loading : F

abbrev pub history_limit : ℕ
history_limit = 200

-- `append` on a deque with a maximal length: the oldest entry makes room.
abbrev drop_oldest {ℓ} : {A : Type ℓ} → List A → List A
drop_oldest [] = []
drop_oldest (x ∷ xs) = xs

unfoldable pub push_history {ℓ} : {A : Type ℓ} → List A → A → List A
push_history xs x = if ltb (length xs) history_limit then xs ++ x ∷ [] else drop_oldest xs ++ x ∷ []

module _ {F : Type 0} where
  unfoldable pub emit : Engine F → F → EventKind → String → String → Option F → Engine F
  emit e now kind model detail duration = record e {
    events =
        push_history e.events
          (record { at = now; kind = kind; model = model; detail = detail; duration = duration });
  }

  abbrev pub new_request : GenerationRequest F → F → String → QueuedRequest F
  new_request request now id = record {
    request = request;
    enqueued_at = now;
    events = [];
    cancelled = false;
    id = id;
    state = RequestState.queued;
    started_at = none;
    finished_at = none;
  }

  -- `submit`, given the fresh id; `none` is KeyError. The result is the new request's reference.
  unfoldable pub submit : Engine F → F → GenerationRequest F → String → Option (Engine F × ℕ)
  unfolding emit
  submit e now request id =
      let ref = e.next_ref in
      let allocated = record e {
        heap = write e.heap ref (new_request request now id);
        next_ref = ref + 1;
      } in
      if not (contains e.queues request.model)
      then none
      else Option.map
          (λ queues. (
            emit (record allocated { queues = queues }) now EventKind.enqueue request.model id none,
            ref,
          ))
          (enqueue allocated.heap e.queues ref)

module _ {F : Type 0} ⦃fl : Float F⦄ where
  abbrev pub model_state : Engine F → ModelConfig F → ℕ → Option F → ModelState F
  model_state e m queued oldest =
      let here = names e.resident m.name in
      record {
        name = m.name;
        priority = m.priority;
        depth = queued;
        oldest_enqueued_at = oldest;
        estimated_load_seconds = estimated_load_seconds m;
        resident = here;
        resident_since = if here then e.resident_since else none;
        in_flight = if here then length e.in_flight else 0;
        idle_since = if here then e.idle_since else none;
        unavailable_until = get m.name e.unavailable_until;
      }

  -- The states of the configured models; `none` is the KeyError of a model without a queue.
  unfoldable pub model_states : Engine F → List (ModelConfig F) → Option (List (ModelState F))
  model_states e [] = some []
  model_states e (m ∷ models) = Option.bind (depth e.heap e.queues m.name) λ queued.
      Option.bind (oldest_enqueued_at e.heap e.queues m.name)
        λ oldest. Option.map (λ rest. model_state e m queued oldest ∷ rest) (model_states e models)

  unfoldable pub snapshot : Engine F → Option (SchedulerSnapshot F)
  snapshot e =
      Option.map
        (λ states. record {
          models = states;
          resident = e.resident;
          draining = e.draining;
          switching = e.switching;
        })
        (model_states e e.config.models)

  -- The opening guesses at a request's duration.
  unfoldable pub seeded : List (ModelConfig F) → Dict F → Dict F
  seeded [] means = means
  seeded (m ∷ models) means = seeded models (put m.name (estimated_request_seconds m) means)

  unfoldable pub new_engine : AppConfig F → Heap F → Engine F
  unfolding seeded
  new_engine config heap = record {
    config = config;
    heap = heap;
    next_ref = 0;
    queues = new_queues (model_names config.models);
    loaded = [];
    resident = none;
    resident_since = none;
    idle_since = none;
    unavailable_until = [];
    in_flight = [];
    failed = [];
    draining = false;
    switching = false;
    mean_seconds = seeded config.models [];
    decisions = [];
    events = [];
    swaps = 0;
    loads = 0;
    time_loading = lit 0 0;
  }
