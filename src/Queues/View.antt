-- ===== src/Queues/View.antt =====
-- src/sir/queues.py: the list of live entries as the abstract view of a queue.
use stupid_inference_router.Prelude.{
  ℕ, zero, suc, ◌≡◌, refl, ap, ◌∙◌, Option, none, some, List, [], ◌∷◌, arith, filter, length, take,
  drop, first, take-first, take-none, drop-none, drop-drop, if_cases, sym, filter-keep, filter-skip,
}
use mathlib.Core.Option
use stupid_inference_router.Queues.Defs.{
  Heap, is_live, mark_cancelled, mark_running, live_count, oldest_live, pop_live, take_live,
}

module _ {F : Type 0} where
  abbrev pub live : Heap F → List ℕ → List ℕ
  live heap queue = filter (is_live heap) queue

  -- The same requests are cancelled in both heaps.
  abbrev pub SameFlags : Heap F → Heap F → Type 0
  SameFlags a b = (ref : ℕ) → (a ref).cancelled ≡ (b ref).cancelled

  pub mark_cancelled-SameFlags :
      (heap : Heap F) (ref : ℕ) → SameFlags (mark_cancelled heap ref) heap
  mark_cancelled-SameFlags heap ref i = ground arith

  pub mark_running-SameFlags :
      (heap : Heap F) (ref : ℕ) (now : F) → SameFlags (mark_running heap ref now) heap
  mark_running-SameFlags heap ref now i = ground arith

  pub live_same : (a b : Heap F) → SameFlags a b → (queue : List ℕ) → live a queue ≡ live b queue
  unfolding filter
  live_same a b s [] = refl
  live_same a b s (ref ∷ queue) = ground (arith, s ref, live_same a b s queue)

  -- The depth is the number of live entries.
  pub live_count-live :
      (heap : Heap F) (queue : List ℕ) → live_count heap queue ≡ length (live heap queue)
  unfolding live_count filter
  live_count-live heap [] = refl
  live_count-live heap (ref ∷ queue) = ground (arith, live_count-live heap queue)

  pub oldest_live-live :
      (heap : Heap F) (queue : List ℕ)
      → oldest_live heap queue
        ≡ Option.map (λ ref. (heap ref).enqueued_at) (first (live heap queue))
  unfolding oldest_live filter
  oldest_live-live heap [] = refl
  oldest_live-live heap (ref ∷ queue) = ground (arith, oldest_live-live heap queue)

  -- The result of a pop on the abstract view.
  abbrev pub Pops : Heap F → List ℕ → Heap F × List ℕ × Option ℕ → Type 0
  Pops heap queue r =
      (r.2 ≡ first (live heap queue))
      × (live r.0 r.1 ≡ drop 1 (live heap queue))
      × SameFlags r.0 heap

  pub pop_live-Pops :
      (heap : Heap F) (now : F) (queue : List ℕ) → Pops heap queue (pop_live heap now queue)
  unfolding pop_live
  pop_live-Pops heap now [] = unfold filter in (refl, refl, λ _. refl)
  pop_live-Pops heap now (ref ∷ queue) =
      if_cases (Pops heap (ref ∷ queue)) (is_live heap ref)
        (λ on. rw (filter-keep (is_live heap) ref queue on) (
          refl,
          live_same (mark_running heap ref now) heap (mark_running-SameFlags heap ref now) queue,
          mark_running-SameFlags heap ref now,
        ))
        λ off.
          let (found, rest, same) = pop_live-Pops (mark_cancelled heap ref) now queue in
          let marked = mark_cancelled-SameFlags heap ref in
          let view = live_same (mark_cancelled heap ref) heap marked queue in
          rw (filter-skip (is_live heap) ref queue off)
            (found ∙ ap first view, rest ∙ ap (drop 1) view, λ i. same i ∙ marked i)

  -- The result of taking a batch, on the abstract view.
  abbrev pub Takes : ℕ → Heap F → List ℕ → Heap F × List ℕ × List ℕ → Type 0
  Takes limit heap queue r =
      (r.2 ≡ take limit (live heap queue))
      × (live r.0 r.1 ≡ drop limit (live heap queue))
      × SameFlags r.0 heap

  pub take_live-Takes :
      (limit : ℕ) (heap : Heap F) (now : F) (queue : List ℕ)
      → Takes limit heap queue (take_live limit heap now queue)
  unfolding take_live
  take_live-Takes zero heap now queue = (refl, refl, λ _. refl)
  take_live-Takes (suc limit) heap now queue =
      go (take_live-Takes limit) (pop_live heap now queue) (pop_live-Pops heap now queue)
    where
      go :
          ((h : Heap F) (t : F) (q : List ℕ) → Takes limit h q (take_live limit h t q))
          → (r : Heap F × List ℕ × Option ℕ) → Pops heap queue r
          → Takes (suc limit) heap queue (elim r.2 [
            | none ↦ (r.0, r.1, [])
            | some ref ↦
                let (heap'', rest', taken) = take_live limit r.0 now r.1 in
                (heap'', rest', ref ∷ taken)
          ])
      go more (heap', rest, none) (found, left, same) = (
        sym (take-none (suc limit) (live heap queue) found),
        left
            ∙ drop-none 1 (live heap queue) found
            ∙ sym (drop-none (suc limit) (live heap queue) found),
        same,
      )
      go more (heap', rest, some ref) (found, left, same) =
          let (taken, left', same') = more heap' now rest in
          (
            ap (◌∷◌ ref) (taken ∙ ap (take limit) left)
                ∙ sym (take-first limit (live heap queue) ref found),
            left' ∙ ap (drop limit) left ∙ drop-drop limit (live heap queue),
            λ i. same' i ∙ same i,
          )
