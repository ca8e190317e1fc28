-- ===== src/Queues/Purge.antt =====
-- src/sir/queues.py: `purge_cancelled` against the live entries.
use stupid_inference_router.Prelude.{
  ℕ, false, not, ◌≡◌, refl, ap, ◌∙◌, List, [], ◌∷◌, ◌++◌, arith, filter, if_cases, inl, inr,
  filter-keep, filter-skip, Bool-cases,
}
use stupid_inference_router.Queues.Defs.{
  Heap, ModelQueues, is_live, mark_cancelled, any_cancelled, purge_queue, purge_one,
  purge_cancelled,
}
use stupid_inference_router.Queues.View.{live, live_same, SameFlags, mark_cancelled-SameFlags}

module _ {F : Type 0} where
  abbrev cancelled_in : Heap F → List ℕ → List ℕ
  cancelled_in heap queue = filter (λ ref. (heap ref).cancelled) queue

  -- One queue keeps its live entries, and its cancelled ones are reported.
  abbrev pub Purges : Heap F → List ℕ → Heap F × List ℕ × List ℕ → Type 0
  Purges heap queue r =
      (r.1 ≡ live heap queue)
      × (r.2 ≡ filter (λ ref. (heap ref).cancelled) queue)
      × SameFlags r.0 heap

  cancelled_same :
      (a b : Heap F)
      → SameFlags a b
      → (queue : List ℕ) → cancelled_in a queue ≡ cancelled_in b queue
  unfolding filter
  cancelled_same a b s [] = refl
  cancelled_same a b s (ref ∷ queue) = ground (arith, s ref, cancelled_same a b s queue)

  purge_queue-Purges : (heap : Heap F) (queue : List ℕ) → Purges heap queue (purge_queue heap queue)
  unfolding purge_queue
  purge_queue-Purges heap [] = unfold filter in (refl, refl, λ _. refl)
  purge_queue-Purges heap (ref ∷ queue) =
      if_cases (Purges heap (ref ∷ queue)) (heap ref).cancelled
        (λ on.
          let (kept, gone, same) = purge_queue-Purges (mark_cancelled heap ref) queue in
          let marked = mark_cancelled-SameFlags heap ref in
          rw
            (
              filter-skip (is_live heap) ref queue (ap not on),
              filter-keep (λ i. (heap i).cancelled) ref queue on,
            )
            (
              kept ∙ live_same (mark_cancelled heap ref) heap marked queue,
              ap (◌∷◌ ref) (gone ∙ cancelled_same (mark_cancelled heap ref) heap marked queue),
              λ i. same i ∙ marked i,
            ))
        λ off.
          let (kept, gone, same) = purge_queue-Purges heap queue in
          rw
            (
              filter-keep (is_live heap) ref queue (ap not off),
              filter-skip (λ i. (heap i).cancelled) ref queue off,
            )
            (ap (◌∷◌ ref) kept, gone, same)

  none_cancelled :
      (heap : Heap F) (queue : List ℕ)
      → any_cancelled heap queue ≡ false
      → (queue ≡ live heap queue) × ([] ≡ cancelled_in heap queue)
  unfolding any_cancelled filter
  none_cancelled heap [] e = (refl, refl)
  none_cancelled heap (ref ∷ queue) e = ground (arith, none_cancelled heap queue)

  purge_one-Purges : (heap : Heap F) (queue : List ℕ) → Purges heap queue (purge_one heap queue)
  unfolding purge_one
  purge_one-Purges heap queue = elim (Bool-cases (any_cancelled heap queue)) [
    | inl e ↦ rw e (purge_queue-Purges heap queue)
    | inr e ↦ let (kept, gone) = none_cancelled heap queue e in rw e (kept, gone, λ _. refl)
  ]

  -- Every queue cut down to its live entries.
  unfoldable pub live_queues : Heap F → ModelQueues → ModelQueues
  live_queues heap [] = []
  live_queues heap ((name, queue) ∷ queues) = (name, live heap queue) ∷ live_queues heap queues

  -- The cancelled entries of all queues, in order.
  unfoldable pub cancelled_entries : Heap F → ModelQueues → List ℕ
  cancelled_entries heap [] = []
  cancelled_entries heap ((name, queue) ∷ queues) =
      filter (λ ref. (heap ref).cancelled) queue ++ cancelled_entries heap queues

  live_queues_same :
      (a b : Heap F)
      → SameFlags a b
      → (queues : ModelQueues) → live_queues a queues ≡ live_queues b queues
  unfolding live_queues
  live_queues_same a b s [] = refl
  live_queues_same a b s ((name, queue) ∷ queues) =
      cc (live_same a b s queue, live_queues_same a b s queues)

  cancelled_entries_same :
      (a b : Heap F)
      → SameFlags a b
      → (queues : ModelQueues) → cancelled_entries a queues ≡ cancelled_entries b queues
  unfolding cancelled_entries
  cancelled_entries_same a b s [] = refl
  cancelled_entries_same a b s ((name, queue) ∷ queues) =
      cc (cancelled_same a b s queue, cancelled_entries_same a b s queues)

  -- Purging leaves every queue with its live entries in order, reports exactly the cancelled ones,
  -- and cancels or revives nobody.
  pub purge_cancelled_lem :
      (heap : Heap F) (queues : ModelQueues)
      → ((purge_cancelled heap queues).1 ≡ live_queues heap queues)
        × ((purge_cancelled heap queues).2 ≡ cancelled_entries heap queues)
        × ((ref : ℕ) → ((purge_cancelled heap queues).0 ref).cancelled ≡ (heap ref).cancelled)
  unfolding purge_cancelled live_queues cancelled_entries
  purge_cancelled_lem heap [] = (refl, refl, λ _. refl)
  purge_cancelled_lem heap ((name, queue) ∷ queues) =
      let heap' = (purge_one heap queue).0 in
      let (kept, gone, same) = purge_one-Purges heap queue in
      let (kept', gone', same') = purge_cancelled_lem heap' queues in
      (
        cc (live_queues_same heap' heap same queues),
        cc (cancelled_entries_same heap' heap same queues),
        λ i. same' i ∙ same i,
      )
