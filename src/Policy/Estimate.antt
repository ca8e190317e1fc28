-- ===== src/Policy/Estimate.antt =====
-- src/sir/policy.py: `estimate_wait`, what a queued request is told of its wait.
pub mod Bounds
use stupid_inference_router.Prelude.{
  ℕ, ◌+◌, ◌/◌, String, Bool, true, false, not, ◌&&◌, Option, none, some, ◌==◌, if◌then◌else◌,
}
use stupid_inference_router.Float.{Float, add, sub, mul, div, lit, of_int, max, min}
use stupid_inference_router.Config.Scheduler.{SchedulerConfig}
use stupid_inference_router.Types.Scheduling.{
  ModelState, SchedulerSnapshot, WaitEstimate, oldest_wait, is_available, by_name, resident_state,
}

-- The exceptions of `estimate_wait`: an unknown model, and `//` by zero.
pub data EstimateError : Type 0 where
  unknown_model zero_division : EstimateError

pub data Estimated (F : Type 0) : Type 0 where
  estimate : WaitEstimate F → Estimated F
  raised : EstimateError → Estimated F

module _ {F : Type 0} ⦃fl : Float F⦄ where
  abbrev pub min_retry_after : F
  min_retry_after = lit 5 1

  abbrev pub max_retry_after : F
  max_retry_after = lit 10 0

  -- What is left of the starvation ceiling for this model.
  abbrev pub ceiling_left : ModelState F → F → SchedulerConfig F → F
  ceiling_left state now config =
      max (lit 0 0) (sub config.max_wait_seconds (oldest_wait state now))

  -- What is left of a minimum residency that began at the mark.
  abbrev residency_left : Option F → F → SchedulerConfig F → F
  residency_left none now config = lit 0 0
  residency_left (some loaded) now config =
      max (lit 0 0) (sub config.min_residency_seconds (sub now loaded))

  abbrev pub hold_left : Option (ModelState F) → F → SchedulerConfig F → F
  hold_left none now config = lit 0 0
  hold_left (some incumbent) now config = residency_left incumbent.resident_since now config

  -- A backend in its retry backoff cannot be loaded before that ends.
  abbrev pub backoff : ModelState F → Option F → F → F → F
  backoff state none now wait = wait
  backoff state (some until) now wait =
      if not (is_available state now)
      then max wait (add (sub until now) state.estimated_load_seconds)
      else wait

  abbrev pub gpu_wait : SchedulerSnapshot F → ModelState F → F → SchedulerConfig F → F
  gpu_wait snapshot state now config =
      if state.resident
      then lit 0 0
      else backoff state state.unavailable_until now (
          add (min (hold_left (resident_state snapshot) now config) (ceiling_left state now config))
            state.estimated_load_seconds)

  -- Requests that take a slot before this one.
  abbrev pub ahead : ModelState F → ℕ → ℕ
  ahead state position = if state.resident then position + state.in_flight else position

  -- The queue drains in batches, so the wait steps with the batch.
  abbrev pub projected : F → ℕ → F → F
  projected wait batches mean = add (add wait (mul (of_int batches) mean)) mean

  unfoldable pub estimate_for :
      SchedulerSnapshot F → ModelState F → ℕ → F → SchedulerConfig F → F → WaitEstimate F
  estimate_for snapshot state position now config mean =
      let batches = ahead state position / config.max_concurrent_requests in
      let estimated = projected (gpu_wait snapshot state now config) batches mean in
      record {
        position = position;
        resident = state.resident;
        needs_swap = not state.resident;
        load_seconds = if state.resident then lit 0 0 else state.estimated_load_seconds;
        dispatch_within_seconds =
            if state.resident then none else some (ceiling_left state now config);
        estimated_seconds = estimated;
        retry_after = min max_retry_after (max min_retry_after (div estimated (lit 4 0)));
      }

  estimate_known :
      SchedulerSnapshot F → Option (ModelState F) → ℕ → F → SchedulerConfig F → F → Estimated F
  unfolding estimate_for
  estimate_known snapshot none position now config mean = raised unknown_model
  estimate_known snapshot (some state) position now config mean =
      if config.max_concurrent_requests == 0
      then raised zero_division
      else estimate (estimate_for snapshot state position now config mean)

  unfoldable pub estimate_wait :
      SchedulerSnapshot F → String → ℕ → F → SchedulerConfig F → F → Estimated F
  unfolding estimate_known
  estimate_wait snapshot model position now config mean =
      estimate_known snapshot (by_name snapshot model) position now config mean
