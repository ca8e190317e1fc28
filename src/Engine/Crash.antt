-- ===== src/Engine/Crash.antt =====
-- src/sir/engine.py: `_handle_failures` and the requests that the crashed backend was serving.
use stupid_inference_router.Prelude.{
  ℕ, String, Bool, true, false, not, ◌&&◌, ◌≡◌, refl, ap, sym, subst, ◌∙◌, none, List, [], ◌∷◌,
  ◌++◌, str_eq, str_eq_refl, if◌then◌else◌, if_cases, ◌==◌, arith, All,
}
use stupid_inference_router.Float.{Float}
use stupid_inference_router.Types.Request.{RequestState, QueuedRequest, model}
use stupid_inference_router.Engine.Defs.{Engine, Flight, emit}
use stupid_inference_router.Engine.Serve.{
  Turn, yields, ends, exhausted, backend_error, other_error, stopped, serve_turn, serve_body,
  conclude, serve_all, finish, observe_duration,
}
use stupid_inference_router.Engine.Terminators.{wrote}
use stupid_inference_router.Engine.Loop.{contain, stop_flights, gather, await_flight}

told-ref :
    (test : Flight → Bool) (g : Flight)
    → (if test g && not g.finished then record g { stopping = true } else g).ref ≡ g.ref
told-ref test g = ground arith

module _ {F : Type 0} ⦃fl : Float F⦄ where
  -- What is left of a request whose task was stopped.
  abbrev pub Silenced : QueuedRequest F → QueuedRequest F → Type 0
  Silenced before after =
      (after.state ≡ RequestState.cancelled)
      × (after.events ≡ before.events)
      × (after.cancelled ≡ before.cancelled)

  stopped-Silenced :
      (e : Engine F) (now : F) (ref : ℕ)
      → Silenced (e.heap ref) ((serve_turn e now ref stopped).0.heap ref)
  unfolding serve_turn serve_body finish observe_duration emit
  stopped-Silenced e now ref =
      wrote P (serve_body e now ref stopped).0.heap ref _ (wrote P e.heap ref _ (refl, refl, refl))
    where
      P : QueuedRequest F → Type 0
      P q = Silenced (e.heap ref) q

  -- Another request's turn, or its whole task, leaves this request as it is.
  serve_turn-other :
      (e : Engine F) (now : F) (ref i : ℕ) (turn : Turn)
      → (i == ref) ≡ false
      → (serve_turn e now ref turn).0.heap i ≡ e.heap i
  unfolding serve_turn serve_body conclude finish observe_duration emit
  serve_turn-other e now ref i (yields c) other = ground arith
  serve_turn-other e now ref i (ends ending) other = ground arith
  serve_turn-other e now ref i exhausted other = ground arith
  serve_turn-other e now ref i stopped other = ground arith
  serve_turn-other e now ref i (backend_error message) other = ground arith
  serve_turn-other e now ref i (other_error message shown) other = ground arith

  serve_all-other :
      (e : Engine F) (now : F) (ref i : ℕ) (turns : List Turn)
      → (i == ref) ≡ false
      → (serve_all e now ref turns).heap i ≡ e.heap i
  unfolding serve_all
  serve_all-other e now ref i [] other = serve_turn-other e now ref i exhausted other
  serve_all-other e now ref i (turn ∷ turns) other =
      let (e', over) = serve_turn e now ref turn in
      let first = serve_turn-other e now ref i turn other in
      if_cases (λ (r : Engine F). r.heap i ≡ e.heap i) over (λ done. first)
        (λ more. serve_all-other e' now ref i turns other ∙ first)

  await_flight-other :
      (e : Engine F) (now : F) (turns : ℕ → List Turn) (g : Flight) (i : ℕ)
      → (i == g.ref) ≡ false
      → (await_flight e now turns g).heap i ≡ e.heap i
  await_flight-other e now turns g i other =
      if_cases (λ (r : Engine F). r.heap i ≡ e.heap i) g.finished (λ done. refl)
        (λ runs.
          if_cases (λ (r : Engine F). r.heap i ≡ e.heap i) g.stopping
            (λ told. serve_turn-other e now g.ref i stopped other)
            (λ free. serve_all-other e now g.ref i (turns g.ref) other))

  -- The tasks of other requests, stopped or not, leave this request as it is.
  gather-other :
      (e : Engine F) (now : F) (turns : ℕ → List Turn) (test : Flight → Bool) (gs : List Flight)
      (i : ℕ)
      → All (λ g. (i == g.ref) ≡ false) gs
      → (gather e now turns (stop_flights test gs)).heap i ≡ e.heap i
  unfolding gather stop_flights
  gather-other e now turns test [] i others = refl
  gather-other e now turns test (g ∷ gs) i (other, others) =
      gather-other
        (await_flight e now turns
          (if test g && not g.finished then record g { stopping = true } else g))
        now turns test gs i others
      ∙ await_flight-other e now turns _ i (ap (λ r. i == r) (told-ref test g) ∙ other)

  -- The task that is told to stop ends as `Silenced` says, whatever the tasks before it and behind it do.
  gather-Silenced :
      (e : Engine F) (now : F) (turns : ℕ → List Turn) (test : Flight → Bool) (gs hs : List Flight)
      (f : Flight)
      → test f ≡ true
      → f.finished ≡ false
      → All (λ g. (f.ref == g.ref) ≡ false) gs
      → All (λ g. (f.ref == g.ref) ≡ false) hs
      → Silenced (e.heap f.ref) ((gather e now turns (stop_flights test (gs ++ f ∷ hs))).heap f.ref)
  unfolding gather stop_flights
  gather-Silenced e now turns test [] hs f meets running before behind =
      subst (Silenced (e.heap f.ref)) (sym (gather-other _ now turns test hs f.ref behind))
        (rw (meets, running) (stopped-Silenced e now f.ref))
  gather-Silenced e now turns test (g ∷ gs) hs f meets running (other, before) behind =
      let g' = if test g && not g.finished then record g { stopping = true } else g in
      let e' = await_flight e now turns g' in
      subst (λ q. Silenced q ((gather e' now turns (stop_flights test (gs ++ f ∷ hs))).heap f.ref))
        (await_flight-other e now turns g' f.ref (ap (λ r. f.ref == r) (told-ref test g) ∙ other))
        (gather-Silenced e' now turns test gs hs f meets running before behind)

  -- The resident backend crashed while it had a further request: its task is not over, and no other
  -- task in flight is for the same request. Then that request is cancelled without any further
  -- event on its channel, its flag that the client has left is as before, and nothing is in flight or
  -- resident. It does not matter which tasks are in flight besides, such as that of the request
  -- that failed, or what their streams do.
  pub contain-silent :
      (e : Engine F) (now later : F) (turns : ℕ → List Turn) (name : String) (gs hs : List Flight)
      (f : Flight)
      → e.in_flight ≡ gs ++ f ∷ hs
      → f.finished ≡ false
      → model (e.heap f.ref) ≡ name
      → All (λ g. (f.ref == g.ref) ≡ false) gs
      → All (λ g. (f.ref == g.ref) ≡ false) hs
      → Silenced (e.heap f.ref) ((contain e now later turns name).heap f.ref)
        × ((contain e now later turns name).in_flight ≡ [])
        × ((contain e now later turns name).resident ≡ none)
  unfolding contain emit
  contain-silent e now later turns name gs hs f flights running its before behind = (
    subst
        (λ fs.
          Silenced (e.heap f.ref) ((gather (record e { in_flight = fs }) now turns fs).heap f.ref))
        (sym (ap (stop_flights test) flights))
        (gather-Silenced (record e { in_flight = stop_flights test (gs ++ f ∷ hs) }) now turns test
          gs hs f (ap (λ n. str_eq n name) its ∙ str_eq_refl name) running before behind),
    refl,
    refl,
  )
    where
      test : Flight → Bool
      test g = str_eq (model (e.heap g.ref)) name
