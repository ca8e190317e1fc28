-- ===== src/Queues/Position.antt =====
-- src/sir/queues.py: `position_of` and cancellation against the live entries.
use mathlib.Core.Option
use stupid_inference_router.Prelude.{
  ℕ, ◌+◌, true, not, ◌≡◌, refl, ap, ◌∙◌, Option, none, some, List, [], ◌∷◌, ◌==◌, arith, filter,
  if◌then◌else◌,
}
use stupid_inference_router.Types.Request.{cancel, model}
use stupid_inference_router.Queues.Defs.{
  Heap, ModelQueues, is_live, write, position_from, position_of, queue_or_empty,
}
use stupid_inference_router.Prelude.Dict.{get}
use stupid_inference_router.Queues.View.{live}

-- The first index at which a reference stands.
unfoldable pub index_of : ℕ → List ℕ → Option ℕ
index_of ref [] = none
index_of ref (x ∷ xs) = if x == ref then some 0 else Option.map (λ n. n + 1) (index_of ref xs)

module _ {F : Type 0} (heap : Heap F) where
  position_from-index_of :
      (base ref : ℕ) (queue : List ℕ)
      → is_live heap ref ≡ true
      → position_from heap base ref queue
        ≡ Option.map (λ n. base + n) (index_of ref (live heap queue))
  unfolding position_from index_of filter
  position_from-index_of base ref [] on = refl
  position_from-index_of base ref (x ∷ queue) on =
      ground
        (arith, position_from-index_of base ref queue, position_from-index_of (base + 1) ref queue)

  position_known :
      (ref : ℕ) (o : Option (List ℕ))
      → is_live heap ref ≡ true
      → position_from heap 0 ref (queue_or_empty heap o)
        ≡ Option.bind (Option.map (live heap) o) (index_of ref)
  unfolding queue_or_empty position_from Option.bind
  position_known ref none on = refl
  position_known ref (some queue) on =
      position_from-index_of 0 ref queue on ∙ shift (index_of ref (live heap queue))
    where
      shift : (o : Option ℕ) → Option.map (λ n. 0 + n) o ≡ o
      shift none = refl
      shift (some n) = ap some (omega arith)

  -- The position that a live request is told is its index among the live requests of its model, and
  -- `None` if it does not wait there.
  pub position_of-index_of :
      (queues : ModelQueues) (ref : ℕ)
      → is_live heap ref ≡ true
      → position_of heap queues ref
        ≡ Option.bind (Option.map (live heap) (get (model (heap ref)) queues)) (index_of ref)
  unfolding position_of
  position_of-index_of queues ref on = position_known ref (get (model (heap ref)) queues) on

-- The other entries, in order.
abbrev pub without : ℕ → List ℕ → List ℕ
without ref xs = filter (λ x. not (x == ref)) xs

-- A cancelled request is as good as absent: at once the live requests of every queue are the others.
pub live-cancel :
    {F : Type 0} (heap : Heap F) (ref : ℕ) (queue : List ℕ)
    → live (write heap ref (cancel (heap ref))) queue ≡ without ref (live heap queue)
unfolding filter
live-cancel heap ref [] = refl
live-cancel heap ref (x ∷ queue) = ground (arith, live-cancel heap ref queue)
