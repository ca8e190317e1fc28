-- ===== src/Backends/Stream.antt =====
-- src/sir/backends/vllm.py: `stream` and `_upstream_payload`. What httpx hands over is an argument: an
-- error, or the response with its status and lines, which may break off with an error. vLLM's
-- contents are texts or null; another one would fail where the texts are joined, here it fails at once.
use mathlib.Core.Option
use stupid_inference_router.Prelude.{
  ℕ, ◌+◌, String, Bool, true, false, not, Option, none, some, List, [], ◌∷◌, ◌==◌, if◌then◌else◌,
}
use stupid_inference_router.Prelude.Int.{ℤ, pos, negsuc}
use stupid_inference_router.Prelude.Dict.{Dict}
use stupid_inference_router.Prelude.Text.{is_empty}
use stupid_inference_router.Float.{Float, truthy as nonzero}
use stupid_inference_router.Json.{
  Json, Fields, null, boolean, int, real, str, arr, obj, nil, cons, end, field, member,
}
use stupid_inference_router.Schemas.{set_field}
use stupid_inference_router.Types.Request.{Chunk, GenerationRequest}
use stupid_inference_router.Engine.Serve.{Turn, yields, ends, backend_error, other_error}
use stupid_inference_router.Backends.Sse.{Event, noise, done, event, parse_sse, usage_of}

-- Python's renderings of other values and of exceptions: `str` of a value, the BackendErrors of a
-- refusal and of an httpx error, and the `str` and `repr` of the exception that an event without the
-- expected shape raises.
pub record Wording (F : Type 0) : Type 0 where
  pub shown : Json F → String
  pub refusal : ℕ → String → String
  pub failure : String → String
  pub malformed : String
  pub malformed_repr : String

pub data Answer : Type 0 where
  fails : String → Answer
  responds : ℕ → String → List String → Option String → Answer

-- The variables of the loop.
pub record Heard : Type 0 where
  pub index : ℕ
  pub finish_reason : String
  pub usage : Option (Dict ℤ)

-- An attribute that is not there raises.
pub data Choice (F : Type 0) : Type 0 where
  no_choice : Choice F
  raises : Choice F
  choice : Fields F → Choice F

pub data Content : Type 0 where
  silent : Content
  odd : Content
  says : String → Content

abbrev pub ending : Heard → Turn
ending h = ends (record { finish_reason = h.finish_reason; usage = h.usage })

abbrev pub all_yields : List Chunk → List Turn → List Turn
all_yields [] turns = turns
all_yields (c ∷ cs) turns = yields c ∷ all_yields cs turns

abbrev pub unheard : Heard
unheard = record { index = 0; finish_reason = "stop"; usage = none }

module _ {F : Type 0} ⦃fl : Float F⦄ where
  -- `bool(v)`.
  abbrev is_true : Json F → Bool
  is_true null = false
  is_true (boolean b) = b
  is_true (int (pos n)) = not (n == 0)
  is_true (int (negsuc n)) = true
  is_true (real x) = nonzero x
  is_true (str s) = not (is_empty s)
  is_true (arr nil) = false
  is_true (arr (cons v vs)) = true
  is_true (obj end) = false
  is_true (obj (field k v rest)) = true

  abbrev is_set : Option (Json F) → Bool
  is_set none = false
  is_set (some v) = is_true v

  -- `choices[0]`.
  abbrev first_choice : Option (Json F) → Choice F
  first_choice (some (arr (cons (obj fields) rest))) = choice fields
  first_choice o = if is_set o then raises else no_choice

  abbrev content_of : Option (Json F) → Content
  content_of (some (str s)) = if is_empty s then silent else says s
  content_of o = if is_set o then odd else silent

  -- `(choice.get("delta") or {}).get("content")`.
  abbrev delta_content : Option (Json F) → Content
  delta_content (some (obj fields)) = content_of (member "content" fields)
  delta_content o = if is_set o then odd else silent

  abbrev text_of : Wording F → Json F → String
  text_of w (str s) = s
  text_of w v = w.shown v

  abbrev new_reason : Wording F → Option (Json F) → String → String
  new_reason w none reason = reason
  new_reason w (some v) reason = if is_true v then text_of w v else reason

  abbrev new_usage : Option (Json F) → Option (Dict ℤ) → Option (Dict ℤ)
  new_usage none usage = usage
  new_usage (some v) usage = if is_true v then usage_of v else usage

  abbrev heard_choice : Wording F → Heard → Fields F → Content → Option (List Chunk × Heard)
  heard_choice w h fields odd = none
  heard_choice w h fields silent = some (
    [],
    record h { finish_reason = new_reason w (member "finish_reason" fields) h.finish_reason },
  )
  heard_choice w h fields (says text) = some (
    record { text = text; index = h.index } ∷ [],
    record h {
      index = h.index + 1;
      finish_reason = new_reason w (member "finish_reason" fields) h.finish_reason;
    },
  )

  abbrev heard_choices : Wording F → Heard → Choice F → Option (List Chunk × Heard)
  heard_choices w h no_choice = some ([], h)
  heard_choices w h raises = none
  heard_choices w h (choice fields) =
      heard_choice w h fields (delta_content (member "delta" fields))

  -- One event: the chunk it yields, if any, and the variables after it. `none` is an exception.
  unfoldable pub hear : Wording F → Heard → Fields F → Option (List Chunk × Heard)
  unfolding member
  hear w h e =
      Option.map (λ r. (r.0, record r.1 { usage = new_usage (member "usage" e) r.1.usage }))
        (heard_choices w h (first_choice (member "choices" e)))

  -- After the last line: the connection was closed, or broke.
  abbrev closing : Wording F → Heard → Option String → List Turn
  closing w h none = ending h ∷ []
  closing w h (some error) = backend_error (w.failure error) ∷ []

  abbrev pub heard_on : Wording F → Option (List Chunk × Heard) → (Heard → List Turn) → List Turn
  heard_on w none rest = other_error w.malformed w.malformed_repr ∷ []
  heard_on w (some (chunks, h)) rest = all_yields chunks (rest h)

  abbrev pub on_event : Wording F → Event F → Heard → (Heard → List Turn) → List Turn
  on_event w noise h rest = rest h
  on_event w done h rest = ending h ∷ []
  on_event w (event e) h rest = heard_on w (hear w h e) rest

  -- `async for line in response.aiter_lines()`, and what follows it.
  unfoldable pub listen :
      (String → Option (Json F)) → Wording F → Heard → List String → Option String → List Turn
  unfolding hear
  listen loads w h [] cut = closing w h cut
  listen loads w h (line ∷ lines) cut =
      on_event w (parse_sse loads line) h (λ h'. listen loads w h' lines cut)

  -- `payload.get("stream_options") or {}`, as a dict; `none` for a value that `dict` does not take.
  abbrev options_of : Option (Json F) → Option (Fields F)
  options_of (some (obj fields)) = some fields
  options_of o = if is_set o then none else some end

  unfoldable pub upstream_payload : Fields F → Option (Fields F)
  unfolding set_field member
  upstream_payload payload =
      let streaming = set_field "stream" (boolean true) payload in
      Option.map
        (λ options.
          set_field "stream_options" (obj (set_field "include_usage" (boolean true) options))
            streaming)
        (options_of (member "stream_options" streaming))

  -- `stream` once the request is sent.
  unfoldable pub received : (String → Option (Json F)) → Wording F → Answer → List Turn
  unfolding listen
  received loads w (fails error) = backend_error (w.failure error) ∷ []
  received loads w (responds status body lines cut) =
      if status == 200
      then listen loads w unheard lines cut
      else backend_error (w.refusal status body) ∷ []

  -- `ask` is the server, given the body that is sent to it.
  abbrev pub asked :
      (String → Option (Json F)) → Wording F → (Fields F → Answer) → Option (Fields F) → List Turn
  asked loads w ask none = other_error w.malformed w.malformed_repr ∷ []
  asked loads w ask (some payload) = received loads w (ask payload)

  unfoldable pub stream :
      (String → Option (Json F)) → Wording F → (Fields F → Answer) → GenerationRequest F → List Turn
  unfolding received upstream_payload
  stream loads w ask request = asked loads w ask (upstream_payload request.payload)
