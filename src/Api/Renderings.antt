-- ===== src/Api/Renderings.antt =====
-- src/sir/api.py: `_collect` and `_sse`, two renderings of one stream.
use stupid_inference_router.Prelude.{
  ℕ, ◌+◌, String, true, false, ◌≡◌, refl, sym, ap, ◌∙◌, Option, none, some, List, [], ◌∷◌, ◌++◌,
}
use stupid_inference_router.Prelude.Int.{ℤ}
use stupid_inference_router.Prelude.Text.{join_all}
use stupid_inference_router.Json.{Json, Fields, str, arr, obj, cons, member}
use stupid_inference_router.Schemas.{ChatCompletionRequest}
use stupid_inference_router.Types.Request.{StreamEvent, chunk, ended, errored}
use stupid_inference_router.Api.Sse.{Sent, chat_chunk, chat_delta, error_body, sse_events, sse}
use stupid_inference_router.Api.Collect.{
  Collected, Completion, waiting, client_closed, failed, completed, collect_events, collect,
  build_response,
}

append-one :
    (xs : List String) (x : String) (ys : List String) → (xs ++ x ∷ []) ++ ys ≡ xs ++ x ∷ ys
append-one [] x ys = refl
append-one (z ∷ xs) x ys = ap (λ zs. z ∷ zs) (append-one xs x ys)

append-nil : (xs : List String) → xs ++ [] ≡ xs
append-nil [] = refl
append-nil (x ∷ xs) = ap (λ zs. x ∷ zs) (append-nil xs)

module _ {F : Type 0} where
  -- What a client reads of a document: the text and the reason of its first choice.
  abbrev text_in : Option (Json F) → List String → List String
  text_in (some (str s)) rest = s ∷ rest
  text_in _ rest = rest

  abbrev content_in : Option (Json F) → List String → List String
  content_in (some (obj delta)) rest = text_in (member "content" delta) rest
  content_in _ rest = rest

  abbrev choice_in : Option (Json F) → Option (Fields F)
  choice_in (some (arr (cons (obj choice) others))) = some choice
  choice_in _ = none

  abbrev delta_in : Option (Fields F) → List String → List String
  delta_in none rest = rest
  delta_in (some choice) rest = content_in (member "delta" choice) rest

  pub texts : List (Fields F) → List String
  unfolding member
  texts [] = []
  texts (d ∷ documents) = delta_in (choice_in (member "choices" d)) (texts documents)

  abbrev pub final : List (Fields F) → Option (Fields F)
  final [] = none
  final (d ∷ []) = some d
  final (d ∷ e ∷ documents) = final (e ∷ documents)

  -- The two replies to the same events.
  pub data Agree (parts : List String) (id model : String) : Collected → Sent F → Type 0 where
    both_wait : (s : Sent F) → s.finished ≡ false → s.left ≡ false → Agree parts id model waiting s
    both_gone :
        (s : Sent F) → s.finished ≡ false → s.left ≡ true → Agree parts id model client_closed s
    both_fail :
        (s : Sent F) (message : String) (status : ℕ)
        → s.finished ≡ true
        → final s.documents ≡ some (error_body message "server_error" none)
        → Agree parts id model (failed message status) s
    both_end :
        (s : Sent F) (c : Completion) (created : ℤ)
        → s.finished ≡ true
        → c.content ≡ join_all (parts ++ texts s.documents)
        → final s.documents
          ≡ some (chat_chunk id model created (chat_delta none none) (some c.finish_reason))
        → Agree parts id model (completed c) s

  final-more :
      (d x : Fields F) (documents : List (Fields F))
      → final documents ≡ some x
      → final (d ∷ documents) ≡ some x
  final-more d x [] h = cc
  final-more d x (e ∷ documents) h = h

  -- A document in front, whose text, if any, is counted among the parts.
  front-Agree :
      (parts parts' : List String) (id model : String) (d : Fields F) (c : Collected) (s : Sent F)
      → ((rest : List (Fields F)) → parts' ++ texts rest ≡ parts ++ texts (d ∷ rest))
      → Agree parts' id model c s
      → Agree parts id model c (record s { documents = d ∷ s.documents })
  front-Agree parts parts' id model d c s counted (both_wait same open_yet here) =
      both_wait _ open_yet here
  front-Agree parts parts' id model d c s counted (both_gone same open_yet gone) =
      both_gone _ open_yet gone
  front-Agree parts parts' id model d c s counted (both_fail same message status over last) =
      both_fail _ message status over (final-more d _ s.documents last)
  front-Agree parts parts' id model d c s counted (both_end same completion at over content last) =
      both_end _ completion at over (content ∙ ap join_all (counted s.documents))
        (final-more d _ s.documents last)

  events-Agree :
      (body : ChatCompletionRequest F) (id : String) (now : ℕ → ℤ) (n : ℕ) (parts : List String)
      (events : List (Option StreamEvent))
      → Agree parts id body.model
          (collect_events body id parts events)
          (sse_events id body.model now n events)
  unfolding collect_events sse_events build_response texts member
  events-Agree body id now n parts [] = both_wait _ refl refl
  events-Agree body id now n parts (none ∷ events) = both_gone _ refl refl
  events-Agree body id now n parts (some (errored e) ∷ events) =
      both_fail _ e.message e.status_code refl refl
  events-Agree body id now n parts (some (ended e) ∷ events) =
      both_end _ _ (now n) refl (ap join_all (sym (append-nil parts))) refl
  events-Agree body id now n parts (some (chunk c) ∷ events) =
      front-Agree parts (parts ++ c.text ∷ []) id body.model _ _ _
        (λ rest. append-one parts c.text (texts rest))
        (events-Agree body id now (n + 1) (parts ++ c.text ∷ []) events)

  -- One dispatch path, two renderings. For the same events, the reply that `_collect` gives and the documents
  -- that `_sse` sends agree: both wait, or both stop for a client that has left, or both end. If the
  -- stream fails, the error of the reply is the last document; if it ends, the content of the reply
  -- is the texts of the documents put together, and its reason to finish is that of the last one.
  pub collect-Agree :
      (body : ChatCompletionRequest F) (id : String) (now : ℕ → ℤ)
      (events : List (Option StreamEvent))
      → Agree [] id body.model (collect body id events) (sse id body.model now events)
  unfolding sse texts member
  collect-Agree body id now events =
      front-Agree [] [] id body.model _ _ _ (λ rest. refl) (events-Agree body id now 1 [] events)
