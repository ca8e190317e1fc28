-- ===== src/Policy/Lemmas.antt =====
-- src/sir/policy.py: the lists that `decide` builds.
use stupid_inference_router.Prelude.{true, false, ◌≡◌, names, arith, In, In-filter, filter-In}
use stupid_inference_router.Float.{Float, le}
use stupid_inference_router.Config.Scheduler.{SchedulerConfig}
use stupid_inference_router.Types.Scheduling.{
  ModelState, SchedulerSnapshot, has_pending, is_available, oldest_wait,
}
use stupid_inference_router.Policy.Defs.{with_work, servable, overdue, is_overdue}

-- The model is known, has queued work, and its backend may be started.
abbrev pub IsServable :
    {F : Type 0} ⦃fl : Float F⦄ → SchedulerSnapshot F → F → ModelState F → Type 0
IsServable snapshot now m =
    In m snapshot.models × (has_pending m ≡ true) × (is_available m now ≡ true)

-- A servable model, not resident, at or past the starvation ceiling.
abbrev pub IsStarving :
    {F : Type 0} ⦃fl : Float F⦄
    → SchedulerSnapshot F
    → F
    → SchedulerConfig F
    → ModelState F
    → Type 0
IsStarving snapshot now config m =
    IsServable snapshot now m
    × (names snapshot.resident m.name ≡ false)
    × (le config.max_wait_seconds (oldest_wait m now) ≡ true)

module _ {F : Type 0} ⦃fl : Float F⦄ (snapshot : SchedulerSnapshot F) (now : F)
    (config : SchedulerConfig F) where
  pub servable-IsServable :
      (m : ModelState F) → In m (servable snapshot now config) → IsServable snapshot now m
  unfolding servable with_work
  servable-IsServable m h =
      let (work, available) =
        In-filter (λ s. is_available s now) m (with_work snapshot now config) h in
      let (known, pending) = In-filter has_pending m snapshot.models work in
      (known, pending, available)

  pub IsServable-servable :
      (m : ModelState F) → IsServable snapshot now m → In m (servable snapshot now config)
  unfolding servable with_work
  IsServable-servable m (known, pending, available) =
      filter-In (λ s. is_available s now) m (with_work snapshot now config)
        (filter-In has_pending m snapshot.models known pending) available

  pub overdue-IsStarving :
      (m : ModelState F) → In m (overdue snapshot now config) → IsStarving snapshot now config m
  unfolding overdue
  overdue-IsStarving m h =
      let (s, late) =
        In-filter (is_overdue snapshot now config) m (servable snapshot now config) h in
      (servable-IsServable m s, ground arith, ground arith)

  pub IsStarving-overdue :
      (m : ModelState F) → IsStarving snapshot now config m → In m (overdue snapshot now config)
  unfolding overdue
  IsStarving-overdue m (s, other, late) =
      filter-In (is_overdue snapshot now config) m (servable snapshot now config)
        (IsServable-servable m s) (ground arith)
