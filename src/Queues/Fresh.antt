-- ===== src/Queues/Fresh.antt =====
-- src/sir/queues.py: the queues that `ModelQueues.__init__` makes.
use mathlib.Core.Option
use stupid_inference_router.Prelude.{
  ℕ, String, true, ◌≡◌, sym, ap, subst, ◌∙◌, ◌⊎◌, inl, inr, Option, none, some, List, [], ◌∷◌, ◌++◌,
  In, map, arith, eq_iff, is_some,
}
use stupid_inference_router.Prelude.Dict.{get, put, get-put}
use stupid_inference_router.Queues.Defs.{
  ModelQueues, Heap, contains, new_queues, add_queues, enqueue,
}
use stupid_inference_router.Types.Request.{model}

pub contains-put :
    (queues : ModelQueues) (name other : String) (queue : List ℕ)
    → (name ≡ other) ⊎ (contains queues other ≡ true)
    → contains (put name queue queues) other ≡ true
contains-put queues name other queue known =
    ap is_some (get-put other name queue queues) ∙ ground (arith, eq_iff name other)

contains-add_queues :
    (queues : ModelQueues) (listed : List String) (name : String)
    → In name listed ⊎ (contains queues name ≡ true)
    → contains (add_queues queues listed) name ≡ true
unfolding add_queues
contains-add_queues queues [] name (inl here) = absurd here
contains-add_queues queues [] name (inr known) = known
contains-add_queues queues (first ∷ rest) name (inl (inl same)) =
    contains-add_queues (put first [] queues) rest name
      (inr (contains-put queues first name [] (inl (sym same))))
contains-add_queues queues (first ∷ rest) name (inl (inr later)) =
    contains-add_queues (put first [] queues) rest name (inl later)
contains-add_queues queues (first ∷ rest) name (inr known) =
    contains-add_queues (put first [] queues) rest name
      (inr (contains-put queues first name [] (inr known)))

-- Every listed model has a queue.
pub contains-new_queues :
    (listed : List String) (name : String)
    → In name listed
    → contains (new_queues listed) name ≡ true
unfolding new_queues
contains-new_queues listed name here = contains-add_queues [] listed name (inl here)

pub In-map : {A : Type 0} (f : A → String) (xs : List A) (x : A) → In x xs → In (f x) (map f xs)
In-map f [] x here = absurd here
In-map f (y ∷ ys) x (inl same) = inl (ap f same)
In-map f (y ∷ ys) x (inr later) = inr (In-map f ys x later)

module _ {F : Type 0} where
  -- A request that is taken in leaves every queue in place.
  pub enqueue-contains :
      (heap : Heap F) (queues queues' : ModelQueues) (ref : ℕ) (name : String)
      → enqueue heap queues ref ≡ some queues'
      → contains queues name ≡ true
      → contains queues' name ≡ true
  unfolding enqueue
  enqueue-contains heap queues queues' ref name taken known =
      go (get (model (heap ref)) queues) taken
    where
      go :
          (o : Option (List ℕ))
          → Option.map (λ queue. put (model (heap ref)) (queue ++ ref ∷ []) queues) o ≡ some queues'
          → contains queues' name ≡ true
      go none h = cc
      go (some queue) h =
          let same : put (model (heap ref)) (queue ++ ref ∷ []) queues ≡ queues' = cc in
          subst (λ q. contains q name ≡ true) same
            (contains-put queues (model (heap ref)) name (queue ++ ref ∷ []) (inr known))
