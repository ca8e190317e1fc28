-- ===== src/Examples/Apis.antt =====
-- Witnesses and tests of the endpoints.
use stupid_inference_router.Prelude.{true, false, ◌≡◌, refl, Option, none, some, List, [], ◌∷◌}
use stupid_inference_router.Prelude.Int.{ℤ, pos}
use stupid_inference_router.Prelude.Dict.{get, put}
use stupid_inference_router.Float.Fixed.{fixed, fixed-Laws}
use stupid_inference_router.Types.Request.{RequestState, StreamEvent, chunk, ended}
use stupid_inference_router.Types.Scheduling.{EventKind}
use stupid_inference_router.Config.App.{model_by_served_name, member_of}
use stupid_inference_router.Schemas.{ChatCompletionRequest, to_generation_request}
use stupid_inference_router.Queues.Defs.{write, enqueue, position_of, position_from, queue_or_empty}
use stupid_inference_router.Jobs.Defs.{JobStore, is_terminal, Job, new_job, find_by_key, job_of_id}
use stupid_inference_router.Jobs.Life.{sweep_once, get_job, poll_found, polled}
use stupid_inference_router.Jobs.Create.{IsOrdered}
use stupid_inference_router.Jobs.Invariant.{IsKeyed}
use stupid_inference_router.Engine.Defs.{Engine, new_engine, submit, emit, new_request}
use stupid_inference_router.Engine.Estimate.{project}
use stupid_inference_router.Api.Document.{Document, document}
use stupid_inference_router.Api.Flow.{App, shown, chat_completions, read_job}
use stupid_inference_router.Api.Lease.{read_job-kept}
use stupid_inference_router.Prelude.Text.{join, join_all}
use stupid_inference_router.Json.{end}
use stupid_inference_router.Api.Sse.{sse}
use stupid_inference_router.Api.Collect.{
  collect, collect_events, completed, build_response, render_prompt,
}
use stupid_inference_router.Api.Renderings.{Agree, collect-Agree}
use stupid_inference_router.Api.Resubmission.{Settles, chat_completions-Settles}
use stupid_inference_router.Examples.Data.{chat_config}
use stupid_inference_router.Examples.Engines.{an_engine}
use stupid_inference_router.Examples.Jobs.{a_body, full_store}

abbrev an_api : App ℤ
an_api = record { engine = an_engine; store = full_store }

abbrev the_request : ℤ → Engine ℤ
the_request now = record an_engine {
  heap =
      write an_engine.heap 4
        (new_request (to_generation_request a_body "chat" "org/chat" "") now "r9");
  next_ref = 5;
  queues = ("chat", 1 ∷ 2 ∷ 3 ∷ 4 ∷ []) ∷ ("code", []) ∷ [];
}

abbrev entered : Engine ℤ
entered = emit (the_request (pos 7000)) (pos 7000) EventKind.enqueue "chat" "r9" none

routes : model_by_served_name an_engine.config.models "org/chat" ≡ some chat_config
unfolding model_by_served_name member_of new_engine
routes = refl

enters :
    submit an_engine (pos 7000) (to_generation_request a_body "chat" "org/chat" "") "r9"
    ≡ some (entered, 4)
unfolding submit emit enqueue get put to_generation_request new_engine
enters = refl

unused : find_by_key full_store "k" ≡ none
unfolding find_by_key job_of_id get
unused = refl

entered-IsOrdered : IsOrdered entered.heap full_store
unfolding get emit new_engine
entered-IsOrdered = record { keyed = (refl, refl, tt); resolved = λ key id e. cc }

unknown_id : get (entered.heap 4).id full_store.jobs ≡ none
unfolding get emit new_engine
unknown_id = refl

chat_completions-Settles_example :
    Settles an_api
      (pos 7000)
      4
      "k"
      a_body
      (chat_completions an_api (pos 7000) "r9" true (some "k") a_body)
unfolding new_engine emit
chat_completions-Settles_example =
    chat_completions-Settles an_api (pos 7000) "r9" "k" "org/chat" a_body chat_config entered 4 refl
      routes refl refl refl unused enters entered-IsOrdered refl unknown_id

-- A job that is being served.
abbrev served_job : Job ℤ
served_job = new_job 9 a_body (pos 1000) (some "k")

abbrev polled_api : App ℤ
polled_api = record an_api {
  store = record full_store { jobs = ("r1", served_job) ∷ []; by_key = ("k", "r1") ∷ [] };
}

served-IsKeyed : IsKeyed polled_api.engine.heap polled_api.store.jobs
unfolding get new_engine
served-IsKeyed = (refl, refl, tt)

served_here : get "r1" polled_api.store.jobs ≡ some served_job
unfolding get
served_here = refl

abbrev a_document : Document ℤ
a_document = record {
  id = "r1";
  status = RequestState.queued;
  model = "org/chat";
  wait = none;
  retry_after = pos 1000;
}

shows : (read_job polled_api (pos 7000) "r1").1 ≡ shown a_document
unfolding read_job get_job poll_found polled document project position_of position_from
    queue_or_empty get put new_engine
shows = refl

-- Meanwhile another client has submitted a request, and a job was filed for it.
abbrev noted_job : Job ℤ
noted_job = record served_job { last_polled_at = pos 7000 }

abbrev later_store : JobStore ℤ
later_store = record polled_api.store {
  jobs = ("r1", noted_job) ∷ ("r9", new_job 4 a_body (pos 7500) none) ∷ [];
}

later-IsKeyed : IsKeyed entered.heap later_store.jobs
unfolding get emit new_engine
later-IsKeyed = (refl, refl, (refl, refl, tt))

noted_here : get "r1" later_store.jobs ≡ some noted_job
unfolding get
noted_here = refl

still_busy : is_terminal entered.heap noted_job ≡ false
unfolding emit new_engine
still_busy = refl

read_job-kept_example :
    (get "r1" (read_job polled_api (pos 7000) "r1").0.store.jobs ≡ some noted_job)
    × (get "r1" (sweep_once entered.heap later_store (pos 8000)).1.jobs ≡ some noted_job)
    × ((sweep_once entered.heap later_store (pos 8000)).0 9 ≡ entered.heap 9)
unfolding new_engine
read_job-kept_example =
    read_job-kept fixed-Laws polled_api (pos 7000) (pos 8000) "r1" served_job noted_job a_document
      entered.heap later_store refl refl served_here refl shows refl later-IsKeyed noted_here refl
      still_busy refl

abbrev greeting : List (Option StreamEvent)
greeting =
    some (chunk (record { text = "Hel"; index = 0 }))
    ∷ some (chunk (record { text = "lo"; index = 1 }))
    ∷ some (ended (record { finish_reason = "stop"; usage = none }))
    ∷ []

abbrev asking : ChatCompletionRequest ℤ
asking = record {
  model = "org/chat";
  messages = record { role = "user"; content = some "Say hello" } ∷ [];
  stream = false;
  sent = end;
}

-- Three words of the prompt and two parts are counted.
greeted :
    collect asking "c" greeting
    ≡ completed (record {
      id = "c";
      model = "org/chat";
      content = "Hello";
      finish_reason = "stop";
      usage = record { prompt_tokens = pos 3; completion_tokens = pos 2; total_tokens = pos 5 };
    })
unfolding collect_events build_response render_prompt join join_all get
greeted = refl

collect-Agree_example :
    Agree {F = ℤ} [] "c" "org/chat"
      (collect asking "c" greeting)
      (sse "c" "org/chat" (λ n. pos n) greeting)
collect-Agree_example = collect-Agree asking "c" (λ n. pos n) greeting
