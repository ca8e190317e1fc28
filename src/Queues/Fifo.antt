-- ===== src/Queues/Fifo.antt =====
-- src/sir/queues.py: the queues as one FIFO of live requests per model.
use mathlib.Core.Option
use stupid_inference_router.Prelude.{
  ℕ, String, Bool, true, false, ◌≡◌, refl, ap, ◌∙◌, ◌⊎◌, Option, none, some, List, [], ◌∷◌, ◌++◌,
  filter, length, take, drop, first, str_eq, if◌then◌else◌, filter-keep, filter-append, inl, inr,
  In, subst, str_eq_refl,
}
use stupid_inference_router.Prelude.Dict.{get, put, get-put}
use stupid_inference_router.Types.Request.{RequestState, model}
use stupid_inference_router.Queues.Defs.{
  Heap, ModelQueues, is_live, enqueue, depth, oldest_enqueued_at, live_count, oldest_live, pop_live,
  next_for, take_live, take_while,
}
use stupid_inference_router.Queues.Popping.{Popped, Passed, pop_live-Popped, pop_live-Passed}
use stupid_inference_router.Queues.View.{
  live, live_same, SameFlags, pop_live-Pops, take_live-Takes, live_count-live, oldest_live-live,
}

-- The request waits in the queue of the model.
abbrev pub IsQueued : ModelQueues → String → ℕ → Type 0
IsQueued queues name i = (queue : List ℕ) × (get name queues ≡ some queue) × In i queue

module _ {F : Type 0} where
  -- The live requests waiting for a model, oldest first; `none` for an unknown model.
  abbrev pub view : Heap F → ModelQueues → String → Option (List ℕ)
  view heap queues name = Option.map (live heap) (get name queues)

  -- The depth and the oldest enqueue time are those of the view.
  pub reads-view :
      (heap : Heap F) (queues : ModelQueues) (name : String)
      → (depth heap queues name ≡ Option.map length (view heap queues name))
        × (oldest_enqueued_at heap queues name
            ≡ Option.map
                (λ refs. Option.map (λ ref. (heap ref).enqueued_at) (first refs))
                (view heap queues name))
  unfolding depth oldest_enqueued_at
  reads-view heap queues name = go (get name queues)
    where
      go :
          (o : Option (List ℕ))
          → (Option.map (live_count heap) o ≡ Option.map length (Option.map (live heap) o))
            × (Option.map (oldest_live heap) o
                ≡ Option.map
                    (λ refs. Option.map (λ ref. (heap ref).enqueued_at) (first refs))
                    (Option.map (live heap) o))
      go none = (refl, refl)
      go (some queue) =
          (ap some (live_count-live heap queue), ap some (oldest_live-live heap queue))

  -- After a write to one queue the views of the others are as they were.
  view-put :
      (heap heap' : Heap F) (queues : ModelQueues) (name other : String) (rest : List ℕ)
      → SameFlags heap' heap
      → view heap' (put name rest queues) other
        ≡ (if str_eq name other then some (live heap' rest) else view heap queues other)
  view-put heap heap' queues name other rest same =
      rw (get-put other name rest queues) (go (str_eq name other) (get other queues))
    where
      go :
          (b : Bool) (o : Option (List ℕ))
          → Option.map (live heap') (if b then some rest else o)
            ≡ (if b then some (live heap' rest) else Option.map (live heap) o)
      go true o = refl
      go false none = refl
      go false (some queue) = ap some (live_same heap' heap same queue)

  -- For a configured model, a batch is the longest waiting live requests of the model, in order and
  -- up to the limit; they leave its queue, and the queues of the other models keep their live
  -- requests.
  pub take_while-view :
      (heap : Heap F) (queues : ModelQueues) (name : String) (now : F) (limit : ℕ)
      (waiting : List ℕ)
      → view heap queues name ≡ some waiting
      → (r : Heap F × ModelQueues × List ℕ) × (take_while heap queues name now limit ≡ some r)
        × (r.2 ≡ take limit waiting)
        × ((other : String)
            → view r.0 r.1 other
              ≡ (if str_eq name other then some (drop limit waiting) else view heap queues other))
  unfolding take_while
  take_while-view heap queues name now limit waiting e = go (get name queues) e
    where
      go :
          (o : Option (List ℕ))
          → Option.map (live heap) o ≡ some waiting
          → (r : Heap F × ModelQueues × List ℕ) × (Option.map
                (λ queue.
                  let (heap', rest, taken) = take_live limit heap now queue in
                  (heap', put name rest queues, taken))
                o
              ≡ some r)
            × (r.2 ≡ take limit waiting)
            × ((other : String)
                → view r.0 r.1 other ≡ (
                    if str_eq name other
                    then some (drop limit waiting)
                    else view heap queues other))
      go none e = cc
      go (some queue) e =
          let (heap', rest, taken) = take_live limit heap now queue in
          let (batch, left, same) = take_live-Takes limit heap now queue in
          let waits : live heap queue ≡ waiting = cc in
          (
            (heap', put name rest queues, taken),
            refl,
            batch ∙ ap (take limit) waits,
            λ other.
                view-put heap heap' queues name other rest same
                ∙ ap (λ (x : List ℕ). if str_eq name other then some x else view heap queues other)
                    (left ∙ ap (drop limit) waits),
          )

  -- `enqueue` puts a live request last in its own model's queue and changes no other queue; a request
  -- for an unknown model is refused.
  pub enqueue-view :
      (heap : Heap F) (queues : ModelQueues) (ref : ℕ)
      → is_live heap ref ≡ true
      → ((get (model (heap ref)) queues ≡ none) × (enqueue heap queues ref ≡ none))
        ⊎ ((waiting : List ℕ) × (queues' : ModelQueues) × (view heap queues (model (heap ref))
              ≡ some waiting)
            × (enqueue heap queues ref ≡ some queues')
            × ((other : String)
                → view heap queues' other ≡ (
                    if str_eq (model (heap ref)) other
                    then some (waiting ++ ref ∷ [])
                    else view heap queues other)))
  unfolding enqueue filter
  enqueue-view heap queues ref on = go (get (model (heap ref)) queues) refl
    where
      go :
          (o : Option (List ℕ))
          → get (model (heap ref)) queues ≡ o
          → ((o ≡ none)
              × (Option.map (λ queue. put (model (heap ref)) (queue ++ ref ∷ []) queues) o ≡ none))
            ⊎ ((waiting : List ℕ) × (queues' : ModelQueues) × (Option.map (live heap) o
                  ≡ some waiting)
                × (Option.map (λ queue. put (model (heap ref)) (queue ++ ref ∷ []) queues) o
                    ≡ some queues')
                × ((other : String)
                    → view heap queues' other ≡ (
                        if str_eq (model (heap ref)) other
                        then some (waiting ++ ref ∷ [])
                        else view heap queues other)))
      go none e = inl (refl, refl)
      go (some queue) e = inr (
        live heap queue,
        put (model (heap ref)) (queue ++ ref ∷ []) queues,
        refl,
        refl,
        λ other.
            view-put heap heap queues (model (heap ref)) other (queue ++ ref ∷ []) (λ _. refl)
            ∙ ap
                (λ (x : List ℕ).
                  if str_eq (model (heap ref)) other then some x else view heap queues other)
                (filter-append (is_live heap) queue (ref ∷ [])
                  ∙ ap (◌++◌ (live heap queue)) (filter-keep (is_live heap) ref [] on)),
      )

  -- For a configured model, `next_for` returns the longest waiting live request, `None` exactly
  -- when there is none, and takes it out of its queue and out of no other. The request that is
  -- returned starts running now; of the others only cancelled ones are touched, which become
  -- marked as cancelled; and whatever else has left the queue of the model is so marked.
  pub next_for-view :
      (heap : Heap F) (queues : ModelQueues) (name : String) (now : F) (waiting : List ℕ)
      → view heap queues name ≡ some waiting
      → (r : Heap F × ModelQueues × Option ℕ) × (next_for heap queues name now ≡ some r)
        × (r.2 ≡ first waiting)
        × ((other : String)
            → view r.0 r.1 other
              ≡ (if str_eq name other then some (drop 1 waiting) else view heap queues other))
        × ((i : ℕ) → Popped heap now r.2 r.0 i)
        × ((i : ℕ)
            → IsQueued queues name i
            → IsQueued r.1 name i ⊎ (r.2 ≡ some i) ⊎ ((r.0 i).state ≡ RequestState.cancelled))
  unfolding next_for
  next_for-view heap queues name now waiting e = go (get name queues) refl
    where
      kept :
          (queue : List ℕ) (heap' : Heap F) (rest : List ℕ) (found : Option ℕ) (i : ℕ)
          → get name queues ≡ some queue
          → (In i queue → Passed heap' rest found i)
          → IsQueued queues name i
          → IsQueued (put name rest queues) name i
            ⊎ (found ≡ some i)
            ⊎ ((heap' i).state ≡ RequestState.cancelled)
      kept queue heap' rest found i here passed (queue', here', isin) =
          let same : queue' ≡ queue = cc in
          elim (passed (subst (In i) same isin)) [
            | inl stays ↦ inl (
              rest,
              get-put name name rest queues
                  ∙ ap (λ b. if b then some rest else get name queues) (str_eq_refl name),
              stays,
            )
            | inr gone ↦ inr gone
          ]

      go :
          (o : Option (List ℕ))
          → get name queues ≡ o
          → (r : Heap F × ModelQueues × Option ℕ) × (Option.map
                (λ queue.
                  let (heap', rest, found) = pop_live heap now queue in
                  (heap', put name rest queues, found))
                o
              ≡ some r)
            × (r.2 ≡ first waiting)
            × ((other : String)
                → view r.0 r.1 other
                  ≡ (if str_eq name other then some (drop 1 waiting) else view heap queues other))
            × ((i : ℕ) → Popped heap now r.2 r.0 i)
            × ((i : ℕ)
                → IsQueued queues name i
                → IsQueued r.1 name i ⊎ (r.2 ≡ some i) ⊎ ((r.0 i).state ≡ RequestState.cancelled))
      go none here = cc
      go (some queue) here =
          let (heap', rest, found) = pop_live heap now queue in
          let (oldest, left, same) = pop_live-Pops heap now queue in
          let waits : live heap queue ≡ waiting = cc in
          (
            (heap', put name rest queues, found),
            refl,
            oldest ∙ ap first waits,
            λ other.
                view-put heap heap' queues name other rest same
                ∙ ap (λ (x : List ℕ). if str_eq name other then some x else view heap queues other)
                    (left ∙ ap (drop 1) waits),
            pop_live-Popped heap now queue,
            λ i. kept queue heap' rest found i here (pop_live-Passed heap now queue i),
          )
