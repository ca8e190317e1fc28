-- ===== src/Config/App.antt =====
-- src/sir/config.py: AppConfig, its uniqueness validator, and the lookups by name and by tag.
use stupid_inference_router.Prelude.{
  ℕ, String, Bool, true, false, not, ◌&&◌, ◌||◌, Option, none, some, List, [], ◌∷◌, ◌++◌, map, ltb,
  leb, is_some, str_eq, if◌then◌else◌,
}
use stupid_inference_router.Config.Scheduler.{
  SchedulerConfig, JobsConfig, Checked, ok, out_of_range, no_models, duplicate_name, duplicate_tag,
  require,
}
use stupid_inference_router.Config.Models.{ModelConfig, served_names}

pub record ServerConfig : Type 0 where
  pub host : String
  pub port : ℕ
  pub log_level : String

pub record AppConfig (F : Type 0) : Type 0 where
  pub server : ServerConfig
  pub scheduler : SchedulerConfig F
  pub jobs : JobsConfig F
  pub models : List (ModelConfig F)

-- `x in xs`.
unfoldable pub member_of : String → List String → Bool
member_of x [] = false
member_of x (y ∷ ys) = str_eq y x || member_of x ys

-- The loop over names, or over one model's tags: refused at the first that was seen.
unfoldable pub add_new : List String → List String → Option (List String)
add_new seen [] = some seen
add_new seen (x ∷ xs) = let rest = add_new (x ∷ seen) xs in if member_of x seen then none else rest

module _ {F : Type 0} where
  abbrev pub model_names : List (ModelConfig F) → List String
  model_names models = map (λ m. m.name) models

  -- Every tag that a client may address, in config order.
  unfoldable pub served_model_names : List (ModelConfig F) → List String
  served_model_names [] = []
  served_model_names (m ∷ models) = served_names m ++ served_model_names models

  abbrev is_nil : List (ModelConfig F) → Bool
  is_nil [] = true
  is_nil (m ∷ models) = false

  unfoldable pub validate_app : AppConfig F → Checked (AppConfig F)
  unfolding add_new
  validate_app c = require (not (is_nil c.models)) no_models (
      require (ltb 0 c.server.port && leb c.server.port 65535) out_of_range (
        require (is_some (add_new [] (model_names c.models))) duplicate_name
          (require (is_some (add_new [] (served_model_names c.models))) duplicate_tag (ok c))))

  unfoldable pub model_by_name : List (ModelConfig F) → String → Option (ModelConfig F)
  model_by_name [] name = none
  model_by_name (m ∷ models) name = if str_eq m.name name then some m else model_by_name models name

  -- The only lookup of what a client asked for.
  unfoldable pub model_by_served_name : List (ModelConfig F) → String → Option (ModelConfig F)
  unfolding member_of
  model_by_served_name [] tag = none
  model_by_served_name (m ∷ models) tag =
      if member_of tag (served_names m) then some m else model_by_served_name models tag
