-- ===== src/Api/Sse.antt =====
-- src/sir/api.py: `_sse`, with the documents of schemas.py that it sends and the text of its frames. What `_next_event` returns is an argument, `none` for a client
-- that left first; so are the time at which each document is made, and `json`.
use stupid_inference_router.Prelude.{
  ℕ, ◌+◌, String, Bool, true, false, not, ◌||◌, Option, none, some, List, [], ◌∷◌, if◌then◌else◌,
  is_some,
}
use stupid_inference_router.Prelude.Int.{ℤ, pos}
use stupid_inference_router.Prelude.Text.{join}
use stupid_inference_router.Json.{Json, Fields, null, int, str, arr, obj, nil, cons, end, field}
use stupid_inference_router.Types.Request.{StreamEvent, chunk, ended, errored}

-- What is sent: the documents, whether the end marker follows, and whether the client left.
pub record Sent (F : Type 0) : Type 0 where
  pub documents : List (Fields F)
  pub finished : Bool
  pub left : Bool

module _ {F : Type 0} where
  abbrev or_null : Option String → Json F
  or_null none = null
  or_null (some s) = str s

  abbrev pub chat_delta : Option String → Option String → Fields F
  chat_delta role content = field "role" (or_null role) (field "content" (or_null content) end)

  -- One of the documents: its delta, and the reason to finish, if it does.
  abbrev pub chat_chunk : String → String → ℤ → Fields F → Option String → Fields F
  chat_chunk id model created delta finish_reason = field "id" (str id) (
      field "object" (str "chat.completion.chunk") (
        field "created" (int created) (
          field "model" (str model) (
            field "choices"
              (arr (
                cons
                  (obj (
                    field "index" (int (pos 0)) (
                      field "delta" (obj delta)
                        (field "finish_reason" (or_null finish_reason) end))))
                  nil))
              end))))

  abbrev pub error_body : String → String → Option String → Fields F
  error_body message kind code =
      field "error"
        (obj (
          field "message" (str message)
            (field "type" (str kind) (field "param" null (field "code" (or_null code) end)))))
        end

  -- A document more, in front.
  abbrev pub sends : Fields F → Sent F → Sent F
  sends d s = record s { documents = d ∷ s.documents }

  abbrev pub closes : Sent F
  closes = record { documents = []; finished = true; left = false }

  -- The loop; as long as no event comes, it waits.
  unfoldable pub sse_events : String → String → (ℕ → ℤ) → ℕ → List (Option StreamEvent) → Sent F
  sse_events id model now n [] = record { documents = []; finished = false; left = false }
  sse_events id model now n (none ∷ events) = record {
    documents = [];
    finished = false;
    left = true;
  }
  sse_events id model now n (some (chunk c) ∷ events) =
      sends (chat_chunk id model (now n) (chat_delta none (some c.text)) none)
        (sse_events id model now (n + 1) events)
  sse_events id model now n (some (errored e) ∷ events) =
      sends (error_body e.message "server_error" none) closes
  sse_events id model now n (some (ended e) ∷ events) =
      sends (chat_chunk id model (now n) (chat_delta none none) (some e.finish_reason)) closes

  unfoldable pub sse : String → String → (ℕ → ℤ) → List (Option StreamEvent) → Sent F
  unfolding sse_events
  sse id model now events =
      sends (chat_chunk id model (now 0) (chat_delta (some "assistant") none) none)
        (sse_events id model now 1 events)

  -- Whether the request is cancelled when the response is over.
  abbrev sse_cancels : Sent F → Option F → Bool
  sse_cancels s finished_at = s.left || not (is_some finished_at)

-- A frame, and the text behind it.
abbrev pub frame : String → String → String
frame payload rest = join "data: " (join payload (join "\n\n" rest))

module _ {F : Type 0} where
  abbrev pub frames : (Fields F → String) → List (Fields F) → String → String
  frames dumps [] rest = rest
  frames dumps (d ∷ documents) rest = frame (dumps d) (frames dumps documents rest)

  -- The text of the response, where `dumps` is `model_dump_json`, or `json.dumps` for an error.
  abbrev pub sse_text : (Fields F → String) → Sent F → String
  sse_text dumps s = frames dumps s.documents (if s.finished then frame "[DONE]" "" else "")
