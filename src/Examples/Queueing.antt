-- ===== src/Examples/Queueing.antt =====
-- Witnesses and tests of the queues.
use mathlib.Core.Option
use stupid_inference_router.Prelude.{
  ℕ, String, ◌≡◌, ◌⊎◌, refl, Option, none, some, List, [], ◌∷◌, ◌++◌, first, take, drop, str_eq,
  if◌then◌else◌, filter,
}
use stupid_inference_router.Prelude.Int.{ℤ, pos}
use stupid_inference_router.Prelude.Dict.{get}
use stupid_inference_router.Types.Request.{RequestState, cancel, model}
use stupid_inference_router.Queues.Defs.{
  Heap, ModelQueues, write, enqueue, position_of, next_for, take_while, purge_cancelled,
}
use stupid_inference_router.Queues.View.{live}
use stupid_inference_router.Queues.Fifo.{
  view, enqueue-view, next_for-view, take_while-view, IsQueued,
}
use stupid_inference_router.Queues.Popping.{Popped}
use stupid_inference_router.Queues.Position.{index_of, position_of-index_of}
use stupid_inference_router.Queues.Purge.{live_queues, cancelled_entries, purge_cancelled_lem}
use stupid_inference_router.Examples.Data.{waiting_request}

-- Every object is the waiting request, and object 1 is cancelled.
abbrev a_heap : Heap ℤ
a_heap = write (λ ref. waiting_request) 1 (cancel waiting_request)

abbrev some_queues : ModelQueues
some_queues = ("chat", 1 ∷ 2 ∷ 3 ∷ []) ∷ ("code", []) ∷ []

chat_view : view a_heap some_queues "chat" ≡ some (2 ∷ 3 ∷ [])
unfolding get filter
chat_view = refl

enqueue-view_example :
    ((get (model (a_heap 4)) some_queues ≡ none) × (enqueue a_heap some_queues 4 ≡ none))
    ⊎ ((waiting : List ℕ) × (queues' : ModelQueues) × (view a_heap some_queues (model (a_heap 4))
          ≡ some waiting)
        × (enqueue a_heap some_queues 4 ≡ some queues')
        × ((other : String)
            → view a_heap queues' other ≡ (
                if str_eq (model (a_heap 4)) other
                then some (waiting ++ 4 ∷ [])
                else view a_heap some_queues other)))
enqueue-view_example = enqueue-view a_heap some_queues 4 refl

next_for-view_example :
    (r : Heap ℤ × ModelQueues × Option ℕ) × (next_for a_heap some_queues "chat" (pos 2000) ≡ some r)
    × (r.2 ≡ first (2 ∷ 3 ∷ []))
    × ((other : String)
        → view r.0 r.1 other ≡ (
            if str_eq "chat" other
            then some (drop 1 (2 ∷ 3 ∷ []))
            else view a_heap some_queues other))
    × ((i : ℕ) → Popped a_heap (pos 2000) r.2 r.0 i)
    × ((i : ℕ)
        → IsQueued some_queues "chat" i
        → IsQueued r.1 "chat" i ⊎ (r.2 ≡ some i) ⊎ ((r.0 i).state ≡ RequestState.cancelled))
next_for-view_example = next_for-view a_heap some_queues "chat" (pos 2000) (2 ∷ 3 ∷ []) chat_view

take_while-view_example :
    (r : Heap ℤ × ModelQueues × List ℕ) × (take_while a_heap some_queues "chat" (pos 2000) 1
      ≡ some r)
    × (r.2 ≡ take 1 (2 ∷ 3 ∷ []))
    × ((other : String)
        → view r.0 r.1 other ≡ (
            if str_eq "chat" other
            then some (drop 1 (2 ∷ 3 ∷ []))
            else view a_heap some_queues other))
take_while-view_example =
    take_while-view a_heap some_queues "chat" (pos 2000) 1 (2 ∷ 3 ∷ []) chat_view

position_of-index_of_example :
    position_of a_heap some_queues 3
    ≡ Option.bind (Option.map (live a_heap) (get (model (a_heap 3)) some_queues)) (index_of 3)
position_of-index_of_example = position_of-index_of a_heap some_queues 3 refl

purge_cancelled_lem_example :
    ((purge_cancelled a_heap some_queues).1 ≡ live_queues a_heap some_queues)
    × ((purge_cancelled a_heap some_queues).2 ≡ cancelled_entries a_heap some_queues)
    × ((ref : ℕ) → ((purge_cancelled a_heap some_queues).0 ref).cancelled ≡ (a_heap ref).cancelled)
purge_cancelled_lem_example = purge_cancelled_lem a_heap some_queues
