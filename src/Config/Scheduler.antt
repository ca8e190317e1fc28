-- ===== src/Config/Scheduler.antt =====
-- src/sir/config.py: SchedulerConfig and JobsConfig with their validators. A field's `ge=0` and
-- `gt=0` are tested before the class's own validator, as pydantic documents.
use stupid_inference_router.Prelude.{ℕ, Bool, true, false, not, ◌&&◌, ltb}
use stupid_inference_router.Float.{Float, le, lt, lit, truthy}

pub record SchedulerConfig (F : Type 0) : Type 0 where
  pub min_residency_seconds : F
  pub max_wait_seconds : F
  pub age_weight : F
  pub depth_weight : F
  pub switch_cost_weight : F
  pub max_concurrent_requests : ℕ
  pub tick_interval_seconds : F
  pub backend_retry_seconds : F

pub record JobsConfig (F : Type 0) : Type 0 where
  pub enabled : Bool
  pub lease_seconds : F
  pub result_ttl_seconds : F
  pub read_ttl_seconds : F
  pub sweep_interval_seconds : F
  pub max_jobs : ℕ

pub data ConfigError : Type 0 where
  out_of_range ceiling_below_hysteresis lease_below_sweep owning_needs_container empty_served_name
        no_models duplicate_name duplicate_tag :
      ConfigError

pub data Checked {ℓ} (A : Type ℓ) : Type ℓ where
  ok : A → Checked A
  refused : ConfigError → Checked A

-- One test of a validator; the first that fails refuses the value.
abbrev pub require {ℓ} : {A : Type ℓ} → Bool → ConfigError → Checked A → Checked A
require true e rest = rest
require false e rest = refused e

module _ {F : Type 0} ⦃fl : Float F⦄ where
  abbrev pub ge_zero : F → Bool
  ge_zero a = le (lit 0 0) a

  abbrev pub gt_zero : F → Bool
  gt_zero a = lt (lit 0 0) a

  unfoldable pub validate_scheduler : SchedulerConfig F → Checked (SchedulerConfig F)
  validate_scheduler c =
      require
        (ge_zero c.min_residency_seconds
          && gt_zero c.max_wait_seconds
          && ge_zero c.age_weight
          && ge_zero c.depth_weight
          && ge_zero c.switch_cost_weight
          && ltb 0 c.max_concurrent_requests
          && gt_zero c.tick_interval_seconds
          && ge_zero c.backend_retry_seconds)
        out_of_range
        (require (lt c.min_residency_seconds c.max_wait_seconds) ceiling_below_hysteresis (ok c))

  unfoldable pub validate_jobs : JobsConfig F → Checked (JobsConfig F)
  validate_jobs c =
      require
        (ge_zero c.lease_seconds
          && gt_zero c.result_ttl_seconds
          && gt_zero c.read_ttl_seconds
          && gt_zero c.sweep_interval_seconds
          && ltb 0 c.max_jobs)
        out_of_range
        (require (not (truthy c.lease_seconds && le c.lease_seconds c.sweep_interval_seconds))
          lease_below_sweep (ok c))
