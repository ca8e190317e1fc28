-- ===== src/Engine/Intake.antt =====
-- src/sir/engine.py: `submit` against the queues' lists of live requests.
use mathlib.Core.Option
use stupid_inference_router.Prelude.{
  ℕ, ◌+◌, ◌<◌, String, true, not, ◌≡◌, refl, sym, ap, ◌∙◌, inl, inr, Option, none, some, List, [],
  ◌∷◌, ◌++◌, arith, All, str_eq, filter, if◌then◌else◌, is_some,
}
use stupid_inference_router.Prelude.Dict.{get}
use stupid_inference_router.Types.Request.{GenerationRequest, QueuedRequest, model}
use stupid_inference_router.Types.Scheduling.{EventKind}
use stupid_inference_router.Queues.Defs.{Heap, ModelQueues, write, enqueue}
use stupid_inference_router.Queues.View.{live}
use stupid_inference_router.Queues.Fifo.{view, enqueue-view}
use stupid_inference_router.Engine.Defs.{Engine, submit, emit, new_request}

module _ {F : Type 0} where
  -- Every queued request was allocated before.
  abbrev pub IsAllocated : Engine F → Type 0
  IsAllocated e =
      (name : String) (queue : List ℕ)
      → get name e.queues ≡ some queue
      → All (λ ref. ref < e.next_ref) queue

  live_fresh :
      (heap : Heap F) (ref : ℕ) (q : QueuedRequest F) (queue : List ℕ)
      → All (λ r. r < ref) queue
      → live (write heap ref q) queue ≡ live heap queue
  unfolding filter
  live_fresh heap ref q [] a = refl
  live_fresh heap ref q (x ∷ queue) (below, a) = ground (arith, live_fresh heap ref q queue a)

  view_fresh :
      (e : Engine F) (q : QueuedRequest F) (name : String)
      → IsAllocated e
      → view (write e.heap e.next_ref q) e.queues name ≡ view e.heap e.queues name
  view_fresh e q name a = go (get name e.queues) (a name)
    where
      go :
          (o : Option (List ℕ))
          → ((queue : List ℕ) → o ≡ some queue → All (λ ref. ref < e.next_ref) queue)
          → Option.map (live (write e.heap e.next_ref q)) o ≡ Option.map (live e.heap) o
      go none a = refl
      go (some queue) a = ap some (live_fresh e.heap e.next_ref q queue (a queue refl))

  -- If every queued request was allocated before, then a submission for a model with a queue is
  -- accepted at once, whatever is loaded: its new request waits last in the queue of its model, and
  -- the live requests of the other queues, the loaded model and what is in flight are as before.
  pub submit-view :
      (e : Engine F) (now : F) (request : GenerationRequest F) (id : String) (waiting : List ℕ)
      → IsAllocated e
      → view e.heap e.queues request.model ≡ some waiting
      → (e' : Engine F) × (submit e now request id ≡ some (e', e.next_ref))
        × ((other : String)
            → view e'.heap e'.queues other ≡ (
                if str_eq request.model other
                then some (waiting ++ e.next_ref ∷ [])
                else view e.heap e.queues other))
        × (e'.resident ≡ e.resident)
        × (e'.in_flight ≡ e.in_flight)
  unfolding submit emit
  submit-view e now request id waiting a here =
      let q = new_request request now id in
      let heap = write e.heap e.next_ref q in
      let same : heap e.next_ref ≡ q = ground arith in
      let named : model (heap e.next_ref) ≡ request.model = ap model same in
      elim (enqueue-view heap e.queues e.next_ref (ap (λ r. not r.cancelled) same)) [
        | inl (missing, refused) ↦
            let gone : get request.model e.queues ≡ none =
              ap (λ n. get n e.queues) (sym named) ∙ missing in
            let contradiction : none ≡ some waiting =
              ap (Option.map (live e.heap)) (sym gone) ∙ here in
            cc
        | inr (waiting', queues', before, done, after) ↦
            let all : some waiting' ≡ some waiting =
              sym before ∙ ap (view heap e.queues) named ∙ view_fresh e q request.model a ∙ here in
            let waits : waiting' ≡ waiting = cc in
            let entered : ModelQueues → Engine F × ℕ = λ qs. (
              emit (record e { heap = heap; next_ref = e.next_ref + 1; queues = qs }) now
                  EventKind.enqueue request.model id none,
              e.next_ref,
            ) in
            (
              (entered queues').0,
              ap
                    (λ b.
                      if not b then none else Option.map entered (enqueue heap e.queues e.next_ref))
                    (known (get request.model e.queues) here)
                  ∙ ap (Option.map entered) done,
              λ other.
                  after other
                  ∙ ap
                      (λ n.
                        if str_eq n other
                        then some (waiting' ++ e.next_ref ∷ [])
                        else view heap e.queues other)
                      named
                  ∙ ap
                      (λ w.
                        if str_eq request.model other
                        then some (w ++ e.next_ref ∷ [])
                        else view heap e.queues other)
                      waits
                  ∙ ap
                      (λ v.
                        if str_eq request.model other then some (waiting ++ e.next_ref ∷ []) else v)
                      (view_fresh e q other a),
              refl,
              refl,
            )
      ]
    where
      known : (o : Option (List ℕ)) → Option.map (live e.heap) o ≡ some waiting → is_some o ≡ true
      known none h = cc
      known (some queue) h = refl
