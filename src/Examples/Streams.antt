-- ===== src/Examples/Streams.antt =====
-- Witnesses and tests of the vLLM backend.
use stupid_inference_router.Prelude.{
  ℕ, ◌*◌, String, true, ◌≡◌, refl, Option, none, some, [], ◌∷◌, All, ◌==◌, str_eq, if◌then◌else◌,
  false,
}
use stupid_inference_router.Prelude.Int.{ℤ, pos}
use stupid_inference_router.Prelude.Text.{lstrip, rstrip, splitlines, has_break}
use stupid_inference_router.Float.{le, add}
use stupid_inference_router.Float.Fixed.{fixed}
use stupid_inference_router.Json.{Json, Fields, boolean, field, end, str, arr, obj, cons, member}
use stupid_inference_router.Types.Request.{GenerationRequest, Chunk, StreamEvent, ended}
use stupid_inference_router.Engine.Serve.{yields, ends}
use stupid_inference_router.Config.Models.{VllmParams}
use stupid_inference_router.Api.Sse.{sse, sse_events, sse_text, chat_chunk, chat_delta}
use stupid_inference_router.Backends.Stream.{Wording, Answer, responds, stream, upstream_payload}
use stupid_inference_router.Backends.Frames.{IsReadBack}
use stupid_inference_router.Backends.Relay.{relayed, ends_by, events_of, stream-sse}
use stupid_inference_router.Backends.Vllm.{World, no_answer, status, answers, Outcome, start}
use stupid_inference_router.Backends.Startup.{IsStarted, start-IsStarted}
use stupid_inference_router.Examples.Data.{chat_config}

-- A `json` for the three documents of one response.
abbrev clock : ℕ → ℤ
clock n = pos n

abbrev opening : Fields ℤ
opening = chat_chunk "c" "org/chat" (clock 0) (chat_delta (some "assistant") none) none

abbrev said : Fields ℤ
said = chat_chunk "c" "org/chat" (clock 1) (chat_delta none (some "Hi")) none

abbrev closing : Fields ℤ
closing = chat_chunk "c" "org/chat" (clock 2) (chat_delta none none) (some "length")

abbrev by_content : Option (Json ℤ) → String
by_content (some (str s)) = "{1}"
by_content _ = "{0}"

abbrev by_delta : Option (Json ℤ) → String
by_delta (some (obj delta)) = by_content (member "content" delta)
by_delta _ = "{0}"

abbrev by_reason : Fields ℤ → Option (Json ℤ) → String
by_reason choice (some (str s)) = "{2}"
by_reason choice _ = by_delta (member "delta" choice)

abbrev by_choice : Option (Json ℤ) → String
by_choice (some (arr (cons (obj choice) rest))) = by_reason choice (member "finish_reason" choice)
by_choice _ = "{0}"

abbrev dumps : Fields ℤ → String
dumps d = by_choice (member "choices" d)

abbrev loads : String → Option (Json ℤ)
loads s =
    if str_eq s "{0}"
    then some (obj opening)
    else if str_eq s "{1}"
    then some (obj said)
    else if str_eq s "{2}"
    then some (obj closing)
    else none

abbrev wording : Wording ℤ
wording = record {
  shown = λ v. "";
  refusal = λ code body. body;
  failure = λ error. error;
  malformed = "malformed";
  malformed_repr = "malformed";
}

abbrev hi : Chunk
hi = record { text = "Hi"; index = 0 }

abbrev last : StreamEvent
last = ended (record { finish_reason = "length"; usage = none })

read_back :
    All (IsReadBack dumps loads) (sse "c" "org/chat" clock (events_of (hi ∷ []) last)).documents
unfolding sse sse_events member lstrip rstrip has_break
read_back = (
  record {
    trimmed = record { filled = refl; left = refl; right = refl };
    distinct = refl;
    one_line = refl;
    read = refl;
  },
  (
    record {
      trimmed = record { filled = refl; left = refl; right = refl };
      distinct = refl;
      one_line = refl;
      read = refl;
    },
    (
      record {
        trimmed = record { filled = refl; left = refl; right = refl };
        distinct = refl;
        one_line = refl;
        read = refl;
      },
      tt,
    ),
  ),
)

abbrev streamed : GenerationRequest ℤ
streamed = record {
  model = "chat";
  served_model = "org/chat";
  payload = field "stream" (boolean false) end;
  request_id = "r";
}

abbrev sent : Fields ℤ
sent =
    field "stream" (boolean true)
      (field "stream_options" (obj (field "include_usage" (boolean true) end)) end)

abbrev answer : Fields ℤ → Answer
answer payload =
    responds 200 ""
      (splitlines (sse_text dumps (sse "c" "org/chat" clock (events_of (hi ∷ []) last)))) none

is_sent : upstream_payload streamed.payload ≡ some sent
unfolding upstream_payload
is_sent = refl

stream-sse_example : stream loads wording answer streamed ≡ relayed 0 (hi ∷ []) (ends_by last)
stream-sse_example =
    stream-sse dumps loads wording streamed sent answer splitlines "c" "org/chat" clock "" (hi ∷ [])
      last (λ text. refl) is_sent refl tt read_back

-- What that comes to.
heard_hi :
    relayed 0 (hi ∷ []) (ends_by last)
    ≡ yields hi ∷ ends (record { finish_reason = "length"; usage = none }) ∷ []
unfolding relayed
heard_hi = refl

-- An owned container that answers at the third poll, one second after the second.
abbrev owned : VllmParams ℤ
owned = record chat_config.vllm {
  manage_lifecycle = true;
  container_name = some "gpu";
  start_timeout_seconds = pos 5000;
}

abbrev warming : World ℤ
warming = record {
  docker = answers 204 "";
  entered = pos 1000;
  probes = λ n. if n == 0 then no_answer else if n == 1 then status 503 else status 200;
  clock = λ n. pos (n * 2000);
}

late : le (add warming.entered owned.start_timeout_seconds) (warming.clock 3) ≡ true
late = refl

start-IsStarted_example :
    (outcome : Outcome) × (start owned warming 4 ≡ some outcome) × IsStarted owned warming 3 outcome
start-IsStarted_example = start-IsStarted owned warming 3 late
