-- ===== src/Examples/Engines.antt =====
-- Witnesses and tests of the engine.
use stupid_inference_router.Prelude.{
  ◌≤◌, ℕ, ◌<◌, ◌++◌, String, Option, List, All, str_eq, subst, if◌then◌else◌, if_cases, ◌-◌, true,
  false, ◌≡◌, refl, none, some, [], ◌∷◌, arith, length, filter,
}
use stupid_inference_router.Prelude.Int.{ℤ, pos}
use stupid_inference_router.Prelude.Dict.{get}
use stupid_inference_router.Float.Fixed.{fixed}
use stupid_inference_router.Queues.Defs.{contains}
use stupid_inference_router.Queues.Fifo.{view}
use stupid_inference_router.Engine.Defs.{Engine, new_engine, submit}
use stupid_inference_router.Engine.Serve.{exhausted, serve_turn}
use stupid_inference_router.Engine.Loop.{dispatch, contain, new_flight}
use stupid_inference_router.Engine.Switch.{Times, started, switch_to}
use stupid_inference_router.Engine.Terminators.{Serves, serve_turn-Serves}
use stupid_inference_router.Engine.Intake.{IsAllocated, submit-view}
use stupid_inference_router.Engine.Capacity.{Admits, dispatch-Admits}
use stupid_inference_router.Engine.Residency.{IsSingle, after_load, switch_to-Single}
use stupid_inference_router.Engine.Crash.{Silenced, contain-silent}
use stupid_inference_router.Examples.Data.{an_app, a_request, waiting_request}

abbrev pub an_engine : Engine ℤ
an_engine = record (new_engine an_app (λ ref. waiting_request)) {
  queues = ("chat", 1 ∷ 2 ∷ 3 ∷ []) ∷ ("code", []) ∷ [];
  next_ref = 4;
  loaded = "chat" ∷ [];
  resident = some "chat";
  resident_since = some (pos 0);
}

abbrev serving : Engine ℤ
serving = record an_engine { in_flight = new_flight 0 ∷ [] }

serve_turn-Serves_example :
    Serves exhausted
      (serving.heap 0)
      ((serve_turn serving (pos 3000) 0 exhausted).0.heap 0)
      (serve_turn serving (pos 3000) 0 exhausted).1
    × ((serve_turn serving (pos 3000) 0 exhausted).1 ≡ true
        → ((serve_turn serving (pos 3000) 0 exhausted).0.heap 0).finished_at ≡ some (pos 3000))
serve_turn-Serves_example = serve_turn-Serves serving (pos 3000) 0 exhausted

chat_waits : view serving.heap serving.queues "chat" ≡ some (1 ∷ 2 ∷ 3 ∷ [])
unfolding get filter new_engine
chat_waits = refl

dispatch-Admits_example :
    (e' : Engine ℤ) × (dispatch serving (pos 3000) ≡ some e')
    × Admits serving "chat" (1 ∷ 2 ∷ 3 ∷ []) (2 - 1) e'
    × (length e'.in_flight ≤ 2)
unfolding new_engine
dispatch-Admits_example =
    dispatch-Admits serving (pos 3000) "chat" (1 ∷ 2 ∷ 3 ∷ []) refl chat_waits (omega arith)

abbrev some_times : Times ℤ
some_times = record {
  entered = pos 3000;
  drained = pos 4000;
  unloaded = pos 5000;
  loaded = pos 7000;
  cleaned = pos 8000;
}

knows_code : contains serving.queues "code" ≡ true
unfolding get
knows_code = refl

switch_to-Single_example :
    (e' : Engine ℤ) × (switch_to serving some_times
        (λ n. "1")
        (λ ref. exhausted ∷ [])
        "code"
        started
      ≡ some e')
    × IsSingle e'
    × (e'.resident ≡ after_load "code" started)
    × (e'.in_flight ≡ [])
    × (e'.switching ≡ false)
unfolding new_engine
switch_to-Single_example =
    switch_to-Single serving some_times (λ n. "1") (λ ref. exhausted ∷ []) "code" started knows_code
      refl

-- The task of the request that failed is over, and another one is being served.
abbrev crashing : Engine ℤ
crashing = record an_engine {
  in_flight = record (new_flight 1) { finished = true } ∷ new_flight 0 ∷ [];
}

contain-silent_example :
    Silenced (crashing.heap 0) ((contain crashing (pos 3000) (pos 4000) (λ ref. []) "chat").heap 0)
    × ((contain crashing (pos 3000) (pos 4000) (λ ref. []) "chat").in_flight ≡ [])
    × ((contain crashing (pos 3000) (pos 4000) (λ ref. []) "chat").resident ≡ none)
unfolding new_engine
contain-silent_example =
    contain-silent crashing (pos 3000) (pos 4000) (λ ref. []) "chat"
      (record (new_flight 1) { finished = true } ∷ []) [] (new_flight 0) refl refl refl (refl, tt)
      tt

an_engine-IsAllocated : IsAllocated an_engine
unfolding get new_engine
an_engine-IsAllocated name queue =
    if_cases {A = Option (List ℕ)} (λ o. o ≡ some queue → All (λ ref. ref < 4) queue)
      (str_eq "chat" name)
      (λ yes h.
        let same : 1 ∷ 2 ∷ 3 ∷ [] ≡ queue = cc in
        subst (All (λ ref. ref < 4)) same (omega arith, (omega arith, (omega arith, tt))))
      (λ no.
        if_cases {A = Option (List ℕ)} (λ o. o ≡ some queue → All (λ ref. ref < 4) queue)
          (str_eq "code" name)
          (λ yes h. let same : [] ≡ queue = cc in subst (All (λ ref. ref < 4)) same tt)
          (λ none_left h. cc))

chat_waits_alone : view an_engine.heap an_engine.queues a_request.model ≡ some (1 ∷ 2 ∷ 3 ∷ [])
unfolding get filter new_engine
chat_waits_alone = refl

submit-view_example :
    (e' : Engine ℤ) × (submit an_engine (pos 3000) a_request "r9" ≡ some (e', 4))
    × ((other : String)
        → view e'.heap e'.queues other ≡ (
            if str_eq "chat" other
            then some ((1 ∷ 2 ∷ 3 ∷ []) ++ 4 ∷ [])
            else view an_engine.heap an_engine.queues other))
    × (e'.resident ≡ an_engine.resident)
    × (e'.in_flight ≡ an_engine.in_flight)
submit-view_example =
    submit-view an_engine (pos 3000) a_request "r9" (1 ∷ 2 ∷ 3 ∷ []) an_engine-IsAllocated
      chat_waits_alone
