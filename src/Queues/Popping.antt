-- ===== src/Queues/Popping.antt =====
-- src/sir/queues.py: what `next_for` does to each request on its way to the first live entry.
use stupid_inference_router.Prelude.{
  ℕ, true, false, ◌≡◌, refl, ap, sym, ◌∙◌, ◌⊎◌, inl, inr, Option, some, List, [], ◌∷◌, arith, In,
  Bool-cases, ◌==◌, if_cases, subst,
}
use stupid_inference_router.Types.Request.{RequestState}
use stupid_inference_router.Queues.Defs.{Heap, is_live, mark_cancelled, pop_live}

some_ref : (i j : ℕ) → some i ≡ some j → i ≡ j
some_ref i j e = cc

module _ {F : Type 0} where
  -- What one request becomes when an entry is popped at `now`: the one that is found starts running,
  -- and of the others only cancelled ones are touched.
  abbrev pub Popped : Heap F → F → Option ℕ → Heap F → ℕ → Type 0
  Popped heap now found heap' i =
      ((found ≡ some i)
        × ((heap i).cancelled ≡ false)
        × (heap' i ≡ record (heap i) { state = RequestState.running; started_at = some now }))
      ⊎ ((¬ (found ≡ some i))
          × ((heap' i ≡ heap i)
              ⊎ (((heap i).cancelled ≡ true)
                  × (heap' i ≡ record (heap i) { state = RequestState.cancelled }))))

  pub pop_live-Popped :
      (heap : Heap F) (now : F) (queue : List ℕ) (i : ℕ)
      → Popped heap now (pop_live heap now queue).2 (pop_live heap now queue).0 i
  unfolding pop_live
  pop_live-Popped heap now [] i = inr ((λ e. cc), inl refl)
  pop_live-Popped heap now (ref ∷ queue) i =
      if_cases {A = Heap F × List ℕ × Option ℕ} (λ r. Popped heap now r.2 r.0 i) (is_live heap ref)
        (λ on. elim (Bool-cases (i == ref)) [
          | inl same ↦ inl (ap some (ground arith), ground arith, ground arith)
          | inr other ↦ inr ((λ e. let eq = some_ref ref i e in ground arith), inl (ground arith))
        ])
        (λ off. ground (arith, pop_live-Popped (mark_cancelled heap ref) now queue i))

  -- An entry that is no longer queued is the one that was found, or it is marked as cancelled.
  abbrev pub Passed : Heap F → List ℕ → Option ℕ → ℕ → Type 0
  Passed heap' rest found i =
      In i rest ⊎ (found ≡ some i) ⊎ ((heap' i).state ≡ RequestState.cancelled)

  dropped-marked :
      (heap : Heap F) (now : F) (ref : ℕ) (r : Heap F × List ℕ × Option ℕ)
      → Popped (mark_cancelled heap ref) now r.2 r.0 ref
      → Passed r.0 r.1 r.2 ref
  dropped-marked heap now ref r (inl (found, on, starts)) = inr (inl found)
  dropped-marked heap now ref r (inr (other, inl same)) =
      inr (inr (ap (λ q. q.state) same ∙ ground arith))
  dropped-marked heap now ref r (inr (other, inr (off, marked))) =
      inr (inr (ap (λ q. q.state) marked))

  pub pop_live-Passed :
      (heap : Heap F) (now : F) (queue : List ℕ) (i : ℕ)
      → In i queue
      → Passed (pop_live heap now queue).0 (pop_live heap now queue).1 (pop_live heap now queue).2 i
  unfolding pop_live
  pop_live-Passed heap now [] i isin = absurd isin
  pop_live-Passed heap now (ref ∷ queue) i (inl same) =
      if_cases {A = Heap F × List ℕ × Option ℕ} (λ r. Passed r.0 r.1 r.2 i) (is_live heap ref)
        (λ on. inr (inl (ap some (sym same))))
        (λ off.
          subst
            (λ j.
              Passed (pop_live (mark_cancelled heap ref) now queue).0
                (pop_live (mark_cancelled heap ref) now queue).1
                (pop_live (mark_cancelled heap ref) now queue).2 j)
            (sym same)
            (dropped-marked heap now ref (pop_live (mark_cancelled heap ref) now queue)
              (pop_live-Popped (mark_cancelled heap ref) now queue ref)))
  pop_live-Passed heap now (ref ∷ queue) i (inr later) =
      if_cases {A = Heap F × List ℕ × Option ℕ} (λ r. Passed r.0 r.1 r.2 i) (is_live heap ref)
        (λ on. inl later) (λ off. pop_live-Passed (mark_cancelled heap ref) now queue i later)
