-- ===== src/Policy/Estimate/Bounds.antt =====
-- src/sir/policy.py: bounds on what `estimate_wait` answers.

use stupid_inference_router.Prelude.{
  ℕ, ◌/◌, ◌≤◌, true, false, ◌≡◌, refl, subst, Option, none, some, arith,
}
use stupid_inference_router.Float.{
  Float, Laws, le, add, sub, lit, of_int, min, le_refl, min-le_right, le-max_left, max-le, max_mono,
  min_mono,
}
use stupid_inference_router.Config.Scheduler.{SchedulerConfig}
use stupid_inference_router.Types.Scheduling.{
  ModelState, SchedulerSnapshot, WaitEstimate, is_available, resident_state, since, reached,
}
use stupid_inference_router.Policy.Estimate.{
  estimate_for, ceiling_left, hold_left, gpu_wait, ahead, backoff, projected, min_retry_after,
  max_retry_after,
}

div_le_div : (a b k : ℕ) → a ≤ b → a / k ≤ b / k
div_le_div a b k h = grind arith

module _ {F : Type 0} ⦃fl : Float F⦄ (l : Laws fl) (snapshot : SchedulerSnapshot F)
    (state : ModelState F) (now : F) (config : SchedulerConfig F) (mean : F) where
  abbrev at_position : ℕ → WaitEstimate F
  at_position position = estimate_for snapshot state position now config mean

  projected_mono :
      (wait : F) (a b : ℕ)
      → le (lit 0 0) mean ≡ true
      → a ≤ b
      → le (projected wait a mean) (projected wait b mean) ≡ true
  projected_mono wait a b m h =
      l.add_mono _ _ _ _
        (l.add_mono _ _ _ _ (le_refl l wait) (
          rw (l.mul_comm (of_int a) mean, l.mul_comm (of_int b) mean)
            (l.mul_mono (of_int a) (of_int b) mean m (l.lit_mono a 0 b 0 (omega arith)))))
        (le_refl l mean)

  -- Given the laws of floats: with a mean duration that is not negative, a request further back is
  -- never told a shorter wait, nor to poll sooner.
  pub estimate_mono :
      (p q : ℕ)
      → le (lit 0 0) mean ≡ true
      → p ≤ q
      → (le (at_position p).estimated_seconds (at_position q).estimated_seconds ≡ true)
        × (le (at_position p).retry_after (at_position q).retry_after ≡ true)
  unfolding estimate_for
  estimate_mono p q m h =
      let longer = projected_mono (gpu_wait snapshot state now config) _ _ m (
        div_le_div (ahead state p) (ahead state q) config.max_concurrent_requests (ground arith)) in
      (
        longer,
        min_mono l _ _ _ _ (le_refl l max_retry_after) (
            max_mono l _ _ _ _ (le_refl l min_retry_after)
              (l.div_mono _ _ (lit 4 0) (l.lit_pos 4 (omega arith)) longer)),
      )

  since-nonneg : (o : Option F) → le (lit 0 0) (since o now) ≡ true
  since-nonneg none = le_refl l (lit 0 0)
  since-nonneg (some t) = le-max_left l (lit 0 0) (sub now t)

  -- The model's remaining ceiling lies between 0 and the configured one.
  ceiling_left_bounds :
      le (lit 0 0) config.max_wait_seconds ≡ true
      → (le (lit 0 0) (ceiling_left state now config) ≡ true)
        × (le (ceiling_left state now config) config.max_wait_seconds ≡ true)
  ceiling_left_bounds p = (
    le-max_left l (lit 0 0) _,
    max-le l (lit 0 0) _ config.max_wait_seconds p (
        rw (l.sub_zero config.max_wait_seconds) at (
          l.sub_mono _ _ _ _ (le_refl l config.max_wait_seconds)
            (since-nonneg state.oldest_enqueued_at))),
  )

  gpu_wait_le :
      state.resident ≡ false
      → is_available state now ≡ true
      → le
          (gpu_wait snapshot state now config)
          (add (ceiling_left state now config) state.estimated_load_seconds)
        ≡ true
  gpu_wait_le r a = rw r (bounded state.unavailable_until a)
    where
      bounded :
          (o : Option F)
          → reached o now ≡ true
          → le
              (backoff state o now (
                add
                  (min
                    (hold_left (resident_state snapshot) now config)
                    (ceiling_left state now config))
                  state.estimated_load_seconds))
              (add (ceiling_left state now config) state.estimated_load_seconds)
            ≡ true
      bounded none h = l.add_mono _ _ _ _ (min-le_right l _ _) (le_refl l _)
      bounded (some t) h = rw a (l.add_mono _ _ _ _ (min-le_right l _ _) (le_refl l _))

  ahead_waiting : state.resident ≡ false → (position : ℕ) → ahead state position ≡ position
  ahead_waiting r position = ground arith

  -- Given the laws of floats: with a ceiling that is not negative, for a model that is not resident
  -- and whose backend may be started, the promised dispatch lies within the starvation ceiling, and
  -- the projection never exceeds that promise, the load, the batches ahead and one request.
  pub estimate_within_ceiling :
      (position : ℕ)
      → le (lit 0 0) config.max_wait_seconds ≡ true
      → state.resident ≡ false
      → is_available state now ≡ true
      → (promise : F) × ((estimate_for snapshot state position now config
            mean).dispatch_within_seconds
          ≡ some promise)
        × (le (lit 0 0) promise ≡ true)
        × (le promise config.max_wait_seconds ≡ true)
        × (le (estimate_for snapshot state position now config mean).estimated_seconds (
              projected
                (add promise state.estimated_load_seconds)
                (position / config.max_concurrent_requests)
                mean)
            ≡ true)
  unfolding estimate_for
  estimate_within_ceiling position p r a =
      let (low, high) = ceiling_left_bounds p in
      (
        ceiling_left state now config,
        rw r refl,
        low,
        high,
        subst
            (λ k.
              le
                (projected (gpu_wait snapshot state now config)
                  (ahead state position / config.max_concurrent_requests) mean)
                (projected (add (ceiling_left state now config) state.estimated_load_seconds)
                  (k / config.max_concurrent_requests) mean)
              ≡ true)
            (ahead_waiting r position)
            (l.add_mono _ _ _ _ (l.add_mono _ _ _ _ (gpu_wait_le r a) (le_refl l _))
              (le_refl l mean)),
      )
