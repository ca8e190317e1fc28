-- ===== src/Backends/Frames.antt =====
-- src/sir/api.py: the text of the response that `_sse` writes, line by line.
use stupid_inference_router.Prelude.{
  String, Bool, true, false, ◌≡◌, refl, ap, ◌∙◌, Option, some, List, [], ◌∷◌, All, str_eq,
  if◌then◌else◌,
}
use stupid_inference_router.Prelude.Text.{
  IsTrimmed, join, splitlines, has_break, splitlines-join, has_break-join,
}
use stupid_inference_router.Json.{Json, Fields, obj}
use stupid_inference_router.Api.Sse.{Sent, frame, frames, sse_text}
use stupid_inference_router.Backends.Sse.{data_line}

-- What `json` does to a document: its text has no blank at an end, no character that ends a line, is
-- not the end marker, and is read back as the document.
pub record IsReadBack {F : Type 0} (dumps : Fields F → String) (loads : String → Option (Json F))
    (document : Fields F) : Type 0 where
  pub trimmed : IsTrimmed (dumps document)
  pub distinct : str_eq (dumps document) "[DONE]" ≡ false
  pub one_line : has_break (dumps document) ≡ false
  pub read : loads (dumps document) ≡ some (obj document)

-- The lines of a frame, and those behind it.
abbrev pub frame_lines : String → List String → List String
frame_lines payload rest = data_line payload ∷ "" ∷ rest

splitlines-frame :
    (payload rest : String)
    → has_break payload ≡ false
    → splitlines (frame payload rest) ≡ frame_lines payload (splitlines rest)
unfolding join has_break
splitlines-frame payload rest whole =
    splitlines-join (data_line payload) (join "\n" rest)
      (has_break-join "data: " payload refl whole)
    ∙ ap (◌∷◌ (data_line payload)) (splitlines-join "" rest refl)

module _ {F : Type 0} (dumps : Fields F → String) where
  abbrev pub all_lines : List (Fields F) → List String → List String
  all_lines [] rest = rest
  all_lines (d ∷ documents) rest = frame_lines (dumps d) (all_lines documents rest)

  abbrev pub sse_lines : Sent F → List String
  sse_lines s = all_lines s.documents (if s.finished then frame_lines "[DONE]" [] else [])

  splitlines-frames :
      (loads : String → Option (Json F)) (documents : List (Fields F)) (rest : String)
      → All (IsReadBack dumps loads) documents
      → splitlines (frames dumps documents rest) ≡ all_lines documents (splitlines rest)
  splitlines-frames loads [] rest back = refl
  splitlines-frames loads (d ∷ documents) rest (back, more) =
      splitlines-frame (dumps d) (frames dumps documents rest) back.one_line
      ∙ ap (frame_lines (dumps d)) (splitlines-frames loads documents rest more)

  splitlines-end :
      (finished : Bool)
      → splitlines (if finished then frame "[DONE]" "" else "")
        ≡ (if finished then frame_lines "[DONE]" [] else [])
  unfolding splitlines has_break
  splitlines-end true = splitlines-frame "[DONE]" "" refl
  splitlines-end false = refl

  -- The response, split into lines.
  pub splitlines-sse_text :
      (loads : String → Option (Json F)) (s : Sent F)
      → All (IsReadBack dumps loads) s.documents
      → splitlines (sse_text dumps s) ≡ sse_lines s
  splitlines-sse_text loads s back =
      splitlines-frames loads s.documents _ back
      ∙ ap (all_lines s.documents) (splitlines-end s.finished)
