-- ===== src/Backends/Relay.antt =====
-- src/sir/backends/vllm.py: `stream` on a response that `_sse` of src/sir/api.py wrote.
use stupid_inference_router.Prelude.{
  ℕ, ◌+◌, String, Bool, true, false, ◌≡◌, refl, ap, ◌∙◌, Option, none, some, List, [], ◌∷◌, All,
  if◌then◌else◌,
}
use stupid_inference_router.Prelude.Int.{ℤ}
use stupid_inference_router.Prelude.Text.{is_empty, splitlines}
use stupid_inference_router.Float.{Float}
use stupid_inference_router.Json.{Json, Fields, member}
use stupid_inference_router.Types.Request.{
  GenerationRequest, Chunk, StreamEvent, chunk, ended, errored,
}
use stupid_inference_router.Engine.Serve.{Turn, yields, ends}
use stupid_inference_router.Api.Sse.{chat_chunk, chat_delta, error_body, sse_events, sse, sse_text}
use stupid_inference_router.Backends.Sse.{parse_sse-data_line, parse_sse-blank, parse_sse-done}
use stupid_inference_router.Backends.Stream.{
  Wording, Heard, responds, hear, heard_on, on_event, listen, ending, unheard, Answer, asked,
  received, stream, upstream_payload, all_yields,
}
use stupid_inference_router.Backends.Frames.{
  IsReadBack, frame_lines, sse_lines, splitlines-sse_text,
}

-- The chunks that have text, numbered from `n`, and then the end.
unfoldable pub relayed : ℕ → List Chunk → Turn → List Turn
relayed n [] end = end ∷ []
relayed n (c ∷ cs) end =
    let later = relayed (n + 1) cs end in
    let same = relayed n cs end in
    if is_empty c.text then same else yields (record { text = c.text; index = n }) ∷ later

-- The reason to finish that arrives: an empty one is not set, and an error is no reason.
abbrev heard_reason : StreamEvent → String
heard_reason (ended e) = if is_empty e.finish_reason then "stop" else e.finish_reason
heard_reason _ = "stop"

abbrev pub ends_by : StreamEvent → Turn
ends_by last = ends (record { finish_reason = heard_reason last; usage = none })

-- The events of a request: chunks and then the terminator.
abbrev pub events_of : List Chunk → StreamEvent → List (Option StreamEvent)
events_of [] last = some last ∷ []
events_of (c ∷ cs) last = some (chunk c) ∷ events_of cs last

abbrev pub IsTerminator : StreamEvent → Type 0
IsTerminator (chunk c) = ⊥
IsTerminator _ = Unit

module _ {F : Type 0} ⦃fl : Float F⦄ (dumps : Fields F → String) (loads : String → Option (Json F))
    (w : Wording F) where
  listen-blank :
      (h : Heard) (lines : List String) (cut : Option String)
      → listen loads w h ("" ∷ lines) cut ≡ listen loads w h lines cut
  unfolding listen
  listen-blank h lines cut =
      ap (λ e. on_event w e h (λ h'. listen loads w h' lines cut)) (parse_sse-blank loads)

  heard_on-blank :
      (o : Option (List Chunk × Heard)) (lines : List String) (cut : Option String)
      → heard_on w o (λ h. listen loads w h ("" ∷ lines) cut)
        ≡ heard_on w o (λ h. listen loads w h lines cut)
  heard_on-blank none lines cut = refl
  heard_on-blank (some (chunks, h)) lines cut = ap (all_yields chunks) (listen-blank h lines cut)

  listen-frame :
      (h : Heard) (d : Fields F) (lines : List String) (cut : Option String)
      → IsReadBack dumps loads d
      → listen loads w h (frame_lines (dumps d) lines) cut
        ≡ heard_on w (hear w h d) (λ h'. listen loads w h' lines cut)
  unfolding listen
  listen-frame h d lines cut back =
      ap (λ e. on_event w e h (λ h'. listen loads w h' ("" ∷ lines) cut))
        (parse_sse-data_line loads (dumps d) d back.trimmed back.distinct back.read)
      ∙ heard_on-blank (hear w h d) lines cut

  listen-done :
      (h : Heard) (cut : Option String)
      → listen loads w h (frame_lines "[DONE]" []) cut ≡ ending h ∷ []
  unfolding listen
  listen-done h cut =
      ap (λ e. on_event w e h (λ h'. listen loads w h' ("" ∷ []) cut)) (parse_sse-done loads)

  -- What the documents tell.
  hear-delta :
      (h : Heard) (id model : String) (created : ℤ) (role : Option String) (text : String)
      → hear w h (chat_chunk id model created (chat_delta role (some text)) none) ≡ (
          if is_empty text
          then some ([], h)
          else some
              (record { text = text; index = h.index } ∷ [], record h { index = h.index + 1 }))
  unfolding hear member
  hear-delta h id model created role String.[] = refl
  hear-delta h id model created role (String.◌∷◌ c text) = refl

  hear-role :
      (h : Heard) (id model : String) (created : ℤ) (role : Option String)
      → hear w h (chat_chunk id model created (chat_delta role none) none) ≡ some ([], h)
  unfolding hear member
  hear-role h id model created role = refl

  hear-reason :
      (h : Heard) (id model : String) (created : ℤ) (reason : String)
      → hear w h (chat_chunk id model created (chat_delta none none) (some reason))
        ≡ some
            ([], record h { finish_reason = if is_empty reason then h.finish_reason else reason })
  unfolding hear member
  hear-reason h id model created String.[] = refl
  hear-reason h id model created (String.◌∷◌ c reason) = refl

  hear-error :
      (h : Heard) (message kind : String) (code : Option String)
      → hear w h (error_body message kind code) ≡ some ([], h)
  unfolding hear member
  hear-error h message kind code = refl

  abbrev after_chunks : ℕ → Heard
  after_chunks i = record { index = i; finish_reason = "stop"; usage = none }

  either :
      (b : Bool) (x y : Option (List Chunk × Heard)) (rest : Heard → List Turn) (u v : List Turn)
      → heard_on w x rest ≡ u
      → heard_on w y rest ≡ v
      → heard_on w (if b then x else y) rest ≡ (if b then u else v)
  either true x y rest u v p q = p
  either false x y rest u v p q = q

  sent-relayed :
      (id model : String) (now : ℕ → ℤ) (n i : ℕ) (cs : List Chunk) (last : StreamEvent)
      → IsTerminator last
      → All (IsReadBack dumps loads) (sse_events id model now n (events_of cs last)).documents
      → listen loads w
          (after_chunks i)
          (sse_lines dumps (sse_events id model now n (events_of cs last)))
          none
        ≡ relayed i cs (ends_by last)
  unfolding sse_events relayed
  sent-relayed id model now n i [] (ended e) is (back, rest) =
      listen-frame (after_chunks i) _ (frame_lines "[DONE]" []) none back
      ∙ ap (λ o. heard_on w o (λ h'. listen loads w h' (frame_lines "[DONE]" []) none))
          (hear-reason (after_chunks i) id model (now n) e.finish_reason)
      ∙ listen-done _ none
  sent-relayed id model now n i [] (errored e) is (back, rest) =
      listen-frame (after_chunks i) _ (frame_lines "[DONE]" []) none back
      ∙ ap (λ o. heard_on w o (λ h'. listen loads w h' (frame_lines "[DONE]" []) none))
          (hear-error (after_chunks i) e.message "server_error" none)
      ∙ listen-done _ none
  sent-relayed id model now n i [] (chunk c) is back = absurd is
  sent-relayed id model now n i (c ∷ cs) last is (back, rest) =
      let lines = sse_lines dumps (sse_events id model now (n + 1) (events_of cs last)) in
      let on = λ (h : Heard). listen loads w h lines none in
      let later = λ (j : ℕ). sent-relayed id model now (n + 1) j cs last is rest in
      listen-frame (after_chunks i) _ lines none back
      ∙ ap (λ o. heard_on w o on) (hear-delta (after_chunks i) id model (now n) none c.text)
      ∙ either (is_empty c.text) _ _ on _ _ (later i)
          (ap (λ turns. yields (record { text = c.text; index = i }) ∷ turns) (later (i + 1)))

  received-sse :
      (id model : String) (now : ℕ → ℤ) (body : String) (cs : List Chunk) (last : StreamEvent)
      → IsTerminator last
      → All (IsReadBack dumps loads) (sse id model now (events_of cs last)).documents
      → received loads w
          (responds 200 body (sse_lines dumps (sse id model now (events_of cs last))) none)
        ≡ relayed 0 cs (ends_by last)
  unfolding received sse
  received-sse id model now body cs last is (back, rest) =
      listen-frame unheard _ (sse_lines dumps (sse_events id model now 1 (events_of cs last))) none
        back
      ∙ ap
          (λ o. heard_on w o (λ h.
            listen loads w h (sse_lines dumps (sse_events id model now 1 (events_of cs last)))
              none))
          (hear-role unheard id model (now 0) (some "assistant"))
      ∙ sent-relayed id model now 1 0 cs last is rest

  -- A router behind a router. A request is sent to a server which answers with the response that
  -- `_sse` writes for a request whose events are some chunks and then a terminator. `aiter_lines`
  -- splits its text as `str.splitlines` does, and the text of each document, as `json` writes it, has
  -- no blank at its ends and no character at which a line is split, is not the end marker, and is read
  -- back as it was. Then the backend's stream is the chunks that have text, as they came and numbered
  -- from 0, and after them one ending with the terminator's reason to finish, without the token
  -- counts; an empty reason, and an error, both arrive as the ending "stop".
  pub stream-sse :
      (request : GenerationRequest F) (payload : Fields F) (ask : Fields F → Answer)
      (aiter_lines : String → List String) (id model : String) (now : ℕ → ℤ) (body : String)
      (cs : List Chunk) (last : StreamEvent)
      → ((text : String) → aiter_lines text ≡ splitlines text)
      → upstream_payload request.payload ≡ some payload
      → ask payload
        ≡ responds 200 body
            (aiter_lines (sse_text dumps (sse id model now (events_of cs last))))
            none
      → IsTerminator last
      → All (IsReadBack dumps loads) (sse id model now (events_of cs last)).documents
      → stream loads w ask request ≡ relayed 0 cs (ends_by last)
  unfolding stream
  stream-sse request payload ask aiter_lines id model now body cs last splits sent answer is back =
      ap (asked loads w ask) sent
      ∙ ap (received loads w) answer
      ∙ ap (λ lines. received loads w (responds 200 body lines none))
          (splits _ ∙ splitlines-sse_text dumps loads (sse id model now (events_of cs last)) back)
      ∙ received-sse id model now body cs last is back
