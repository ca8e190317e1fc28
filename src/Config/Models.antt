-- ===== src/Config/Models.antt =====
-- src/sir/config.py: VllmParams, MockParams and ModelConfig with their validators.
use Prim.Native.Char.{code}
use Prim.Native.String.{String}
use stupid_inference_router.Prelude.{
  ℕ, Bool, true, false, not, ◌&&◌, ◌||◌, Option, none, some, List, [], ◌∷◌, ltb, str_eq,
}
use stupid_inference_router.Prelude.Text.{is_space}
use stupid_inference_router.Float.{Float, add, div, of_int}
use stupid_inference_router.Config.Scheduler.{
  Checked, ok, out_of_range, owning_needs_container, empty_served_name, require, ge_zero, gt_zero,
}

pub record VllmParams (F : Type 0) : Type 0 where
  pub base_url : String
  pub health_path : String
  pub manage_lifecycle : Bool
  pub container_name : Option String
  pub docker_socket : String
  pub start_timeout_seconds : F
  pub ready_poll_seconds : F
  pub stop_timeout_seconds : F
  pub connect_timeout_seconds : F
  pub stream_stall_seconds : F
  pub estimated_load_seconds : F
  pub estimated_request_seconds : F

pub record MockParams (F : Type 0) : Type 0 where
  pub load_seconds : F
  pub unload_seconds : F
  pub tokens_per_second : F
  pub first_token_seconds : F
  pub default_max_tokens : ℕ
  pub fail_on_load_every_n : ℕ
  pub crash_after_n_requests : ℕ

pub data BackendKind : Type 0 where
  mock vllm : BackendKind

-- `str | list[str] | None`.
pub data ServedName : Type 0 where
  unset : ServedName
  one : String → ServedName
  many : List String → ServedName

pub record ModelConfig (F : Type 0) : Type 0 where
  pub name : String
  pub served_model_name : ServedName
  pub backend : BackendKind
  pub priority : F
  pub mock : MockParams F
  pub vllm : VllmParams F

-- `not name.strip()`.
unfoldable pub is_blank : String → Bool
is_blank String.[] = true
is_blank (String.◌∷◌ c rest) = is_space (code c) && is_blank rest

unfoldable pub any_blank : List String → Bool
unfolding is_blank
any_blank [] = false
any_blank (name ∷ rest) = is_blank name || any_blank rest

abbrev named_by : String → ServedName → List String
named_by name unset = name ∷ []
named_by name (one tag) = tag ∷ []
named_by name (many tags) = tags

abbrev pub served_names : {F : Type 0} → ModelConfig F → List String
served_names m = named_by m.name m.served_model_name

abbrev first_tag : List String → Option String
first_tag [] = none
first_tag (tag ∷ rest) = some tag

-- `served_names[0]`; `none` is IndexError.
abbrev pub served_as : {F : Type 0} → ModelConfig F → Option String
served_as m = first_tag (served_names m)

abbrev is_nil : List String → Bool
is_nil [] = true
is_nil (tag ∷ rest) = false

-- A set text that is not empty.
abbrev is_text : Option String → Bool
is_text none = false
is_text (some s) = not (str_eq s "")

module _ {F : Type 0} ⦃fl : Float F⦄ where
  unfoldable pub validate_vllm : VllmParams F → Checked (VllmParams F)
  validate_vllm p =
      require
        (gt_zero p.start_timeout_seconds
          && gt_zero p.ready_poll_seconds
          && gt_zero p.stop_timeout_seconds
          && gt_zero p.connect_timeout_seconds
          && gt_zero p.stream_stall_seconds
          && ge_zero p.estimated_load_seconds
          && gt_zero p.estimated_request_seconds)
        out_of_range
        (require (not (p.manage_lifecycle && not (is_text p.container_name))) owning_needs_container
          (ok p))

  unfoldable pub mock_in_range : MockParams F → Bool
  mock_in_range p =
      ge_zero p.load_seconds
      && ge_zero p.unload_seconds
      && gt_zero p.tokens_per_second
      && ge_zero p.first_token_seconds
      && ltb 0 p.default_max_tokens

  -- The parts are validated already.
  unfoldable pub validate_model : ModelConfig F → Checked (ModelConfig F)
  unfolding any_blank
  validate_model m = require (not (str_eq m.name "") && gt_zero m.priority) out_of_range (
      require (not (is_nil (served_names m) || any_blank (served_names m))) empty_served_name
        (ok m))

  abbrev load_of : BackendKind → ModelConfig F → F
  load_of vllm m = m.vllm.estimated_load_seconds
  load_of mock m = m.mock.load_seconds

  abbrev pub estimated_load_seconds : ModelConfig F → F
  estimated_load_seconds m = load_of m.backend m

  abbrev request_of : BackendKind → ModelConfig F → F
  request_of vllm m = m.vllm.estimated_request_seconds
  request_of mock m =
      add m.mock.first_token_seconds
        (div (of_int m.mock.default_max_tokens) m.mock.tokens_per_second)

  abbrev pub estimated_request_seconds : ModelConfig F → F
  estimated_request_seconds m = request_of m.backend m
