-- ===== src/Examples/Jobs.antt =====
-- Witnesses and tests of the job store.
use stupid_inference_router.Prelude.{true, false, ◌≡◌, refl, none, some, [], ◌∷◌, arith}
use stupid_inference_router.Prelude.Int.{ℤ, pos}
use stupid_inference_router.Prelude.Dict.{get}
use stupid_inference_router.Schemas.{ChatCompletionRequest}
use stupid_inference_router.Types.Request.{RequestState}
use stupid_inference_router.Queues.Defs.{Heap, write}
use stupid_inference_router.Jobs.Defs.{Job, JobStore, Terminal, over, new_job, create, is_terminal}
use stupid_inference_router.Jobs.Life.{get_job, sweep_once}
use stupid_inference_router.Jobs.Invariant.{IsKeyed}
use stupid_inference_router.Jobs.Create.{
  IsOrdered, WithinCeiling, IsFiled, create-WithinCeiling, create-IsFiled,
}
use stupid_inference_router.Jobs.Sweep.{Fate, sweep_once-Fate}
use stupid_inference_router.Jobs.Lease.{sweep_once-polled, sweep_once-stranded}
use stupid_inference_router.Float.Fixed.{fixed}
use stupid_inference_router.Examples.Data.{a_jobs_config, waiting_request, nothing_sent}

abbrev pub a_body : ChatCompletionRequest ℤ
a_body = record { model = "org/chat"; messages = []; stream = false; sent = nothing_sent }

-- Object 1 has the id "r1" and waits; object 2 has the id "r2"; object 3 was cancelled by the engine.
abbrev job_heap : Heap ℤ
job_heap =
    write (write (λ ref. waiting_request) 2 (record waiting_request { id = "r2" })) 3
      (record waiting_request { id = "r3"; state = RequestState.cancelled })

abbrev pub waiting_job : Job ℤ
waiting_job = new_job 1 a_body (pos 1000) none

abbrev done_job : Job ℤ
done_job = record waiting_job {
  terminal = some (Terminal.end (record { finish_reason = "stop"; usage = none }));
  finished_at = some (pos 5000);
  pump = some over;
}

abbrev pub full_store : JobStore ℤ
full_store = record {
  config = a_jobs_config;
  jobs = ("r1", done_job) ∷ [];
  by_key = [];
  running = true;
}

abbrev busy_store : JobStore ℤ
busy_store = record full_store { jobs = ("r1", waiting_job) ∷ [] }

abbrev stranded_job : Job ℤ
stranded_job = new_job 3 a_body (pos 1000) none

abbrev stranded_store : JobStore ℤ
stranded_store = record full_store { jobs = ("r3", stranded_job) ∷ [] }

full_store-IsOrdered : IsOrdered job_heap full_store
unfolding get
full_store-IsOrdered = record { keyed = (refl, refl, tt); resolved = λ key id e. cc }

fresh : get "r2" full_store.jobs ≡ none
unfolding get
fresh = refl

create-WithinCeiling_example :
    WithinCeiling job_heap full_store (create job_heap full_store (pos 9000) 2 a_body none)
create-WithinCeiling_example =
    create-WithinCeiling job_heap full_store (pos 9000) 2 a_body none full_store-IsOrdered
      (omega arith) (omega arith)

create-IsFiled_example :
    IsFiled job_heap full_store (create job_heap full_store (pos 9000) 2 a_body none)
create-IsFiled_example =
    create-IsFiled job_heap full_store (pos 9000) 2 a_body none full_store-IsOrdered refl fresh
      (λ k e. cc)

waiting-IsKeyed : IsKeyed job_heap busy_store.jobs
unfolding get
waiting-IsKeyed = (refl, refl, tt)

waiting_here : get "r1" busy_store.jobs ≡ some waiting_job
unfolding get
waiting_here = refl

sweep_once-Fate_example :
    Fate
      (pos 90_000)
      job_heap
      busy_store
      waiting_job
      "r1"
      (sweep_once job_heap busy_store (pos 90_000))
sweep_once-Fate_example =
    sweep_once-Fate (pos 90_000) job_heap busy_store "r1" waiting_job waiting-IsKeyed waiting_here

sweep_once-polled_example :
    (get "r1"
        (sweep_once job_heap (get_job job_heap busy_store "r1" (pos 80_000)).0 (pos 90_000)).1.jobs
      ≡ some (record waiting_job { last_polled_at = pos 80_000 }))
    × ((sweep_once job_heap (get_job job_heap busy_store "r1" (pos 80_000)).0 (pos 90_000)).0 1
        ≡ job_heap 1)
sweep_once-polled_example =
    sweep_once-polled job_heap busy_store "r1" waiting_job waiting-IsKeyed waiting_here (pos 80_000)
      (pos 90_000) refl refl

stranded-IsKeyed : IsKeyed job_heap stranded_store.jobs
unfolding get
stranded-IsKeyed = (refl, refl, tt)

stranded_here : get "r3" stranded_store.jobs ≡ some stranded_job
unfolding get
stranded_here = refl

sweep_once-stranded_example :
    (is_terminal job_heap stranded_job ≡ true)
    × (get "r3" (sweep_once job_heap stranded_store (pos 9_000_000)).1.jobs ≡ some stranded_job)
sweep_once-stranded_example =
    sweep_once-stranded job_heap stranded_store "r3" stranded_job stranded-IsKeyed stranded_here
      (pos 9_000_000) refl refl refl refl
