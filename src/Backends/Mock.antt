-- ===== src/Backends/Mock.antt =====
-- src/sir/backends/mock.py: the simulated backend. Its sleeps are left out, so the state changes of a call
-- happen at once. The wording of its errors is an argument, and so is `int` on a JSON value, `none` where it raises.
use mathlib.Core.Option
use Prim.Native.Nat.{◌%◌}
use stupid_inference_router.Prelude.{
  ℕ, zero, suc, ◌+◌, ◌-◌, String, Bool, true, false, not, ◌&&◌, Option, none, some, List, [], ◌∷◌,
  ◌==◌, ltb, leb, length, if◌then◌else◌,
}
use stupid_inference_router.Prelude.Text.{join}
use stupid_inference_router.Prelude.Int.{ℤ, pos, negsuc}
use stupid_inference_router.Json.{Json, null, member}
use stupid_inference_router.Types.Request.{GenerationRequest}
use stupid_inference_router.Engine.Serve.{Turn, yields, exhausted, backend_error, other_error}
use stupid_inference_router.Config.Models.{MockParams}

pub record MockBackend (F : Type 0) : Type 0 where
  pub model_name : String
  pub params : MockParams F
  pub loaded : Bool
  pub crashed : Bool
  pub load_attempts : ℕ
  pub requests_started : ℕ
  pub requests_completed : ℕ

-- The BackendErrors.
pub data MockError : Type 0 where
  load_failed : ℕ → MockError
  has_crashed : MockError
  not_loaded : MockError
  died : ℕ → MockError

abbrev vocabulary : List String
vocabulary =
    "the" ∷ "quick" ∷ "brown" ∷ "fox" ∷ "jumps" ∷ "over" ∷ "the" ∷ "lazy" ∷ "dog" ∷ "while" ∷ "the"
    ∷ "router" ∷ "decides" ∷ "which" ∷ "model" ∷ "deserves" ∷ "the" ∷ "gpu" ∷ "right" ∷ "now" ∷ []

abbrev word_at : ℕ → List String → String
word_at n [] = ""
word_at zero (word ∷ words) = word
word_at (suc n) (word ∷ words) = word_at n words

-- `_token`.
unfoldable pub token : String → ℕ → String
unfolding join
token model index =
    if index == 0
    then join "[" (join model "]")
    else join " " (word_at ((index - 1) % length vocabulary) vocabulary)

-- Whether this attempt is to fail: `every and attempts % every == 0`.
abbrev fails_now : ℕ → ℕ → Bool
fails_now every attempts = not (every == 0) && attempts % every == 0

-- `range(request.max_tokens or default)`: its length.
abbrev pub budget_of : Option ℤ → ℕ → ℕ
budget_of none default = default
budget_of (some (pos n)) default = if n == 0 then default else n
budget_of (some (negsuc n)) default = 0

module _ {F : Type 0} where
  unfoldable pub start : MockBackend F → MockBackend F × Option MockError
  start b =
      let tried = record b { load_attempts = b.load_attempts + 1 } in
      if fails_now b.params.fail_on_load_every_n tried.load_attempts
      then (tried, some (load_failed tried.load_attempts))
      else (record tried { loaded = true; crashed = false; requests_started = 0 }, none)

  unfoldable pub stop : MockBackend F → MockBackend F
  stop b = record b { loaded = false; crashed = false }

  abbrev pub health : MockBackend F → Bool
  health b = b.loaded && not b.crashed

  -- `GenerationRequest.max_tokens`; the outer `none` is an exception.
  abbrev as_budget : (Json F → Option ℤ) → Option (Json F) → Option (Option ℤ)
  as_budget to_int none = some none
  as_budget to_int (some null) = some none
  as_budget to_int (some v) = Option.map some (to_int v)

  abbrev first_set : Option (Json F) → Option (Json F) → Option (Json F)
  first_set none other = other
  first_set (some null) other = other
  first_set (some v) other = some v

  unfoldable pub max_tokens : (Json F → Option ℤ) → GenerationRequest F → Option (Option ℤ)
  unfolding member
  max_tokens to_int request = as_budget to_int (
      first_set (member "max_completion_tokens" request.payload)
        (member "max_tokens" request.payload))

  -- So many tokens are left; the flag says that the backend is to die.
  unfoldable pub generate :
      (MockError → String) → MockBackend F → String → Bool → ℕ → ℕ → MockBackend F × List Turn
  unfolding token
  generate say b tag doomed zero index =
      (record b { requests_completed = b.requests_completed + 1 }, exhausted ∷ [])
  generate say b tag doomed (suc left) index =
      let (after, turns) = generate say b tag doomed left (index + 1) in
      if doomed && leb 2 index
      then (
        record b { crashed = true; loaded = false },
        backend_error (say (died b.params.crash_after_n_requests)) ∷ [],
      )
      else (after, yields (record { text = token tag index; index = index }) ∷ turns)

  -- `stream` of a backend that is loaded, for the tag that the request was routed to.
  abbrev pub serve :
      (MockError → String)
      → String × String
      → MockBackend F
      → String
      → Option (Option ℤ)
      → MockBackend F × List Turn
  serve say bad b tag none = (b, other_error bad.0 bad.1 ∷ [])
  serve say bad b tag (some asked) =
      generate say b tag
        (not (b.params.crash_after_n_requests == 0)
          && ltb b.params.crash_after_n_requests b.requests_started)
        (budget_of asked b.params.default_max_tokens) 0

  unfoldable pub stream :
      (MockError → String)
      → String × String
      → (Json F → Option ℤ)
      → MockBackend F
      → String
      → GenerationRequest F
      → MockBackend F × List Turn
  unfolding generate max_tokens
  stream say bad to_int b tag request =
      if b.crashed
      then (b, backend_error (say has_crashed) ∷ [])
      else if not b.loaded
      then (b, backend_error (say not_loaded) ∷ [])
      else serve say bad (record b { requests_started = b.requests_started + 1 }) tag
          (max_tokens to_int request)
