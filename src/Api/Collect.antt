-- ===== src/Api/Collect.antt =====
-- src/sir/api.py: `_collect`, with `build_response` of src/sir/schemas.py. What `_next_event` returns is an
-- argument, `none` for a client that left first. The completion's time of creation is left out.
use stupid_inference_router.Prelude.{
  ℕ, ◌+◌, String, Option, none, some, List, [], ◌∷◌, ◌++◌, length,
}
use stupid_inference_router.Prelude.Int.{ℤ, pos}
use stupid_inference_router.Prelude.Dict.{Dict, get}
use stupid_inference_router.Prelude.Text.{join, join_all, word_count}
use stupid_inference_router.Schemas.{ChatMessage, ChatCompletionRequest}
use stupid_inference_router.Types.Request.{StreamEvent, chunk, ended, errored}

pub record Usage : Type 0 where
  pub prompt_tokens : ℤ
  pub completion_tokens : ℤ
  pub total_tokens : ℤ

-- A `ChatCompletionResponse`: its one choice is a message of the assistant's with this content.
pub record Completion : Type 0 where
  pub id : String
  pub model : String
  pub content : String
  pub finish_reason : String
  pub usage : Usage

abbrev content_or_empty : Option String → String
content_or_empty none = ""
content_or_empty (some s) = s

abbrev prompt_line : ChatMessage → String
prompt_line m = join m.role (join ": " (content_or_empty m.content))

abbrev more_lines : String → List ChatMessage → String
more_lines first [] = first
more_lines first (m ∷ messages) = join first (join "\n" (more_lines (prompt_line m) messages))

unfoldable pub render_prompt : List ChatMessage → String
unfolding join
render_prompt [] = ""
render_prompt (m ∷ messages) = more_lines (prompt_line m) messages

abbrev or_nothing : Option ℤ → ℤ
or_nothing none = pos 0
or_nothing (some n) = n

-- `Usage(**usage)`.
abbrev given_usage : Dict ℤ → Usage
given_usage d = record {
  prompt_tokens = or_nothing (get "prompt_tokens" d);
  completion_tokens = or_nothing (get "completion_tokens" d);
  total_tokens = or_nothing (get "total_tokens" d);
}

abbrev counted_usage : ℕ → ℕ → Usage
counted_usage prompt parts = record {
  prompt_tokens = pos prompt;
  completion_tokens = pos parts;
  total_tokens = pos (prompt + parts);
}

abbrev usage_or : Option (Dict ℤ) → ℕ → ℕ → Usage
usage_or none prompt parts = counted_usage prompt parts
usage_or (some d) prompt parts = given_usage d

unfoldable pub build_response :
    {F : Type 0}
    → ChatCompletionRequest F
    → List String
    → String
    → String
    → Option (Dict ℤ)
    → Completion
unfolding get render_prompt join_all
build_response body parts finish_reason id usage = record {
  id = id;
  model = body.model;
  content = join_all parts;
  finish_reason = finish_reason;
  usage = usage_or usage (word_count (render_prompt body.messages)) (length parts);
}

-- The reply: none yet, 499 to a client that left, whose request is cancelled, the stream's error with its
-- status, or the completion.
pub data Collected : Type 0 where
  waiting : Collected
  client_closed : Collected
  failed : String → ℕ → Collected
  completed : Completion → Collected

-- The loop, with the parts so far.
unfoldable pub collect_events :
    {F : Type 0}
    → ChatCompletionRequest F
    → String
    → List String
    → List (Option StreamEvent)
    → Collected
unfolding build_response
collect_events body id parts [] = waiting
collect_events body id parts (none ∷ events) = client_closed
collect_events body id parts (some (chunk c) ∷ events) =
    collect_events body id (parts ++ c.text ∷ []) events
collect_events body id parts (some (errored e) ∷ events) = failed e.message e.status_code
collect_events body id parts (some (ended e) ∷ events) =
    completed (build_response body parts e.finish_reason id e.usage)

abbrev pub collect :
    {F : Type 0} → ChatCompletionRequest F → String → List (Option StreamEvent) → Collected
collect body id events = collect_events body id [] events
