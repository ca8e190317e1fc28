-- ===== src/Backends/Sse.antt =====
-- src/sir/backends/vllm.py: `_parse_sse` and `_usage`. `json.loads` is an argument: `none` is its JSONDecodeError.
use stupid_inference_router.Prelude.{
  String, false, ◌≡◌, refl, ap, ◌∙◌, Option, none, some, [], ◌∷◌, ◌++◌, str_eq, if◌then◌else◌,
}
use stupid_inference_router.Prelude.Int.{ℤ, pos}
use stupid_inference_router.Prelude.Dict.{Dict}
use stupid_inference_router.Prelude.Text.{
  lstrip, rstrip, strip, after, join, IsTrimmed, rstrip-join,
}
use stupid_inference_router.Json.{Json, Fields, boolean, int, obj, member}

-- Nothing, `_DONE`, or an event.
pub data Event (F : Type 0) : Type 0 where
  noise : Event F
  done : Event F
  event : Fields F → Event F

abbrev done_text : String
done_text = "[DONE]"

abbrev or_none : Dict ℤ → Option (Dict ℤ)
or_none [] = none
or_none (entry ∷ entries) = some (entry ∷ entries)

-- A line with data, as a server writes it.
abbrev pub data_line : String → String
data_line payload = join "data: " payload

module _ {F : Type 0} where
  -- `parsed if isinstance(parsed, dict) else None`, and `None` for what is malformed.
  abbrev of_parsed : Option (Json F) → Event F
  of_parsed (some (obj fields)) = event fields
  of_parsed _ = noise

  abbrev of_data : (String → Option (Json F)) → Option String → Event F
  of_data loads none = noise
  of_data loads (some rest) =
      let data_text = strip rest in
      if str_eq data_text done_text then done else of_parsed (loads data_text)

  -- An empty line and a comment do not start with "data:" either.
  unfoldable pub parse_sse : (String → Option (Json F)) → String → Event F
  parse_sse loads line = of_data loads (after "data:" (strip line))

  -- `int(raw[key])` where it is an `int`; a `bool` is one.
  abbrev as_int : Option (Json F) → Option ℤ
  as_int (some (int n)) = some n
  as_int (some (boolean b)) = some (if b then pos 1 else pos 0)
  as_int _ = none

  abbrev kept_count : Fields F → String → Dict ℤ
  kept_count fields key = elim (as_int (member key fields)) [ none ↦ [] | some n ↦ (key, n) ∷ [] ]

  unfoldable pub usage_of : Json F → Option (Dict ℤ)
  unfolding member
  usage_of (obj fields) = or_none (
      kept_count fields "prompt_tokens"
      ++ kept_count fields "completion_tokens"
      ++ kept_count fields "total_tokens")
  usage_of _ = none

stripped_line :
    (payload : String)
    → IsTrimmed payload
    → after "data:" (strip (data_line payload)) ≡ some (join " " payload)
unfolding lstrip after join
stripped_line payload t = ap (after "data:") (rstrip-join "data: " payload t.filled t.right)

stripped_data : (payload : String) → IsTrimmed payload → strip (join " " payload) ≡ payload
unfolding lstrip join
stripped_data payload t = ap rstrip t.left ∙ t.right

module _ {F : Type 0} where
  -- What is read is what was written, unless it is the end marker.
  pub parse_sse-data_line :
      (loads : String → Option (Json F)) (payload : String) (document : Fields F)
      → IsTrimmed payload
      → str_eq payload "[DONE]" ≡ false
      → loads payload ≡ some (obj document)
      → parse_sse loads (data_line payload) ≡ event document
  unfolding parse_sse
  parse_sse-data_line loads payload document t other read =
      ap (of_data loads) (stripped_line payload t)
      ∙ ap (λ d. if str_eq d done_text then done else of_parsed (loads d)) (stripped_data payload t)
      ∙ rw (other, read) refl

  pub parse_sse-blank : (loads : String → Option (Json F)) → parse_sse loads "" ≡ noise
  unfolding parse_sse lstrip rstrip after
  parse_sse-blank loads = refl

  pub parse_sse-done :
      (loads : String → Option (Json F)) → parse_sse loads (data_line "[DONE]") ≡ done
  unfolding parse_sse lstrip rstrip after join
  parse_sse-done loads = refl
