-- ===== src/Queues/Defs.antt =====
-- src/sir/queues.py: `ModelQueues`. A missing model is Python's KeyError, `none`.
use mathlib.Core.Option
use stupid_inference_router.Prelude.{
  ℕ, zero, suc, ◌+◌, String, Bool, false, not, ◌||◌, Option, none, some, List, [], ◌∷◌, ◌++◌, ◌==◌,
  ltb, is_some, if◌then◌else◌,
}
use stupid_inference_router.Prelude.Dict.{Dict, get, put, keys}
use stupid_inference_router.Types.Request.{QueuedRequest, RequestState, model}

-- Where each request object lives.
abbrev pub Heap : Type 0 → Type 0
Heap F = ℕ → QueuedRequest F

abbrev pub ModelQueues : Type 0
ModelQueues = Dict (List ℕ)

module _ {F : Type 0} where
  -- An assignment to a request's attributes, seen through every reference to it.
  abbrev pub write : Heap F → ℕ → QueuedRequest F → Heap F
  write heap ref request i = if i == ref then request else heap i

  abbrev pub is_live : Heap F → ℕ → Bool
  is_live heap ref = not (heap ref).cancelled

-- `{name: deque() for name in model_names}`.
unfoldable pub add_queues : ModelQueues → List String → ModelQueues
add_queues queues [] = queues
add_queues queues (name ∷ rest) = add_queues (put name [] queues) rest

unfoldable pub new_queues : List String → ModelQueues
unfolding add_queues
new_queues = add_queues []

abbrev pub contains : ModelQueues → String → Bool
contains queues name = is_some (get name queues)

abbrev pub model_names : ModelQueues → List String
model_names queues = keys queues

module _ {F : Type 0} (heap : Heap F) where
  unfoldable pub enqueue : ModelQueues → ℕ → Option ModelQueues
  enqueue queues ref =
      Option.map (λ queue. put (model (heap ref)) (queue ++ ref ∷ []) queues)
        (get (model (heap ref)) queues)

  -- How many entries are not cancelled.
  unfoldable pub live_count : List ℕ → ℕ
  live_count [] = 0
  live_count (ref ∷ queue) = (if is_live heap ref then 1 else 0) + live_count queue

  unfoldable pub depth : ModelQueues → String → Option ℕ
  depth queues name = Option.map live_count (get name queues)

  unfoldable pub oldest_live : List ℕ → Option F
  oldest_live [] = none
  oldest_live (ref ∷ queue) =
      if is_live heap ref then some (heap ref).enqueued_at else oldest_live queue

  unfoldable pub oldest_enqueued_at : ModelQueues → String → Option (Option F)
  oldest_enqueued_at queues name = Option.map oldest_live (get name queues)

  -- The loop of `position_of`, with the live entries met so far.
  unfoldable pub position_from : ℕ → ℕ → List ℕ → Option ℕ
  position_from position ref [] = none
  position_from position ref (queued ∷ queue) =
      if queued == ref
      then some position
      else position_from (if is_live heap queued then position + 1 else position) ref queue

  unfoldable pub queue_or_empty : Option (List ℕ) → List ℕ
  queue_or_empty none = []
  queue_or_empty (some queue) = queue

  -- A model without a queue has no entries here.
  unfoldable pub position_of : ModelQueues → ℕ → Option ℕ
  unfolding queue_or_empty
  position_of queues ref = position_from 0 ref (queue_or_empty (get (model (heap ref)) queues))

  unfoldable pub total_pending : ModelQueues → ℕ
  total_pending [] = 0
  total_pending ((name, queue) ∷ queues) = live_count queue + total_pending queues

  unfoldable pub models_with_work : ModelQueues → List String
  models_with_work [] = []
  models_with_work ((name, queue) ∷ queues) =
      if ltb 0 (live_count queue) then name ∷ models_with_work queues else models_with_work queues

  unfoldable pub snapshot_depths : ModelQueues → Dict ℕ
  snapshot_depths [] = []
  snapshot_depths ((name, queue) ∷ queues) = (name, live_count queue) ∷ snapshot_depths queues

module _ {F : Type 0} where
  abbrev pub mark_cancelled : Heap F → ℕ → Heap F
  mark_cancelled heap ref = write heap ref (record (heap ref) { state = RequestState.cancelled })

  abbrev pub mark_running : Heap F → ℕ → F → Heap F
  mark_running heap ref now =
      write heap ref (record (heap ref) { state = RequestState.running; started_at = some now })

  -- The loop of `next_for`: cancelled entries are dropped on the way to the first live one.
  unfoldable pub pop_live : Heap F → F → List ℕ → Heap F × List ℕ × Option ℕ
  pop_live heap now [] = (heap, [], none)
  pop_live heap now (ref ∷ queue) =
      let dropped = pop_live (mark_cancelled heap ref) now queue in
      if is_live heap ref then (mark_running heap ref now, queue, some ref) else dropped

  unfoldable pub next_for :
      Heap F → ModelQueues → String → F → Option (Heap F × ModelQueues × Option ℕ)
  next_for heap queues name now =
      Option.map
        (λ queue.
          let (heap', rest, found) = pop_live heap now queue in
          (heap', put name rest queues, found))
        (get name queues)

  -- The loop of `take_while` over one queue.
  unfoldable pub take_live : ℕ → Heap F → F → List ℕ → Heap F × List ℕ × List ℕ
  take_live zero heap now queue = (heap, queue, [])
  take_live (suc limit) heap now queue =
      let (heap', rest, found) = pop_live heap now queue in
      elim found [
        | none ↦ (heap', rest, [])
        | some ref ↦
            let (heap'', rest', taken) = take_live limit heap' now rest in
            (heap'', rest', ref ∷ taken)
      ]

  unfoldable pub take_while :
      Heap F → ModelQueues → String → F → ℕ → Option (Heap F × ModelQueues × List ℕ)
  take_while heap queues name now limit =
      Option.map
        (λ queue.
          let (heap', rest, taken) = take_live limit heap now queue in
          (heap', put name rest queues, taken))
        (get name queues)

  unfoldable pub any_cancelled : Heap F → List ℕ → Bool
  any_cancelled heap [] = false
  any_cancelled heap (ref ∷ queue) = (heap ref).cancelled || any_cancelled heap queue

  -- The inner loop of `purge_cancelled`: what stays, and what was removed.
  unfoldable pub purge_queue : Heap F → List ℕ → Heap F × List ℕ × List ℕ
  purge_queue heap [] = (heap, [], [])
  purge_queue heap (ref ∷ queue) =
      if (heap ref).cancelled
      then (let (heap', live, removed) = purge_queue (mark_cancelled heap ref) queue in
          (heap', live, ref ∷ removed))
      else (let (heap', live, removed) = purge_queue heap queue in (heap', ref ∷ live, removed))

  unfoldable pub purge_one : Heap F → List ℕ → Heap F × List ℕ × List ℕ
  purge_one heap queue =
      if not (any_cancelled heap queue) then (heap, queue, []) else purge_queue heap queue

  unfoldable pub purge_cancelled : Heap F → ModelQueues → Heap F × ModelQueues × List ℕ
  purge_cancelled heap [] = (heap, [], [])
  purge_cancelled heap ((name, queue) ∷ queues) =
      let (heap', live, removed) = purge_one heap queue in
      let (heap'', queues', more) = purge_cancelled heap' queues in
      (heap'', (name, live) ∷ queues', removed ++ more)

-- Everything queued for a model, which is left empty.
unfoldable pub drain : ModelQueues → String → Option (ModelQueues × List ℕ)
drain queues name = Option.map (λ queue. (put name [] queues, queue)) (get name queues)
