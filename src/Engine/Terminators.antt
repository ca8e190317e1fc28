-- ===== src/Engine/Terminators.antt =====
-- src/sir/engine.py: what a turn of `_serve` puts on the channel of the client.
use Prim.Native.String.{◌++◌ as str_append}
use stupid_inference_router.Prelude.{
  ℕ, Bool, true, false, ◌≡◌, refl, ◌⊎◌, inl, inr, Option, none, some, [], ◌∷◌, ◌++◌, arith, sym,
  subst, if_cases,
}
use stupid_inference_router.Float.{Float}
use stupid_inference_router.Types.Request.{
  Chunk, StreamEnd, StreamError, chunk, ended, errored, QueuedRequest, RequestState,
}
use stupid_inference_router.Queues.Defs.{Heap, write}
use stupid_inference_router.Engine.Defs.{Engine, emit}
use stupid_inference_router.Engine.Serve.{
  Turn, yields, ends, exhausted, backend_error, other_error, stopped, closed, or_stop, serve_turn,
  serve_body, finish, conclude, observe_duration,
}

-- The stream goes on or ends by itself.
abbrev pub IsCalm : Turn → Type 0
IsCalm (yields c) = Unit
IsCalm (ends e) = Unit
IsCalm exhausted = Unit
IsCalm _ = ⊥

-- The stream is over, and this is its ending: the backend's own, or "stop" without token counts.
abbrev pub Ends : Turn → StreamEnd → Type 0
Ends (ends own) e = e ≡ own
Ends exhausted e = e ≡ record { finish_reason = "stop"; usage = none }
Ends _ e = ⊥

-- The stream raised, and this is the error to tell: a backend's with status 503, any other with 500.
abbrev pub Raises : Turn → StreamError → Type 0
Raises (backend_error message) e = e ≡ record { message = message; status_code = 503 }
Raises (other_error message shown) e =
    e ≡ record { message = str_append "internal error: " message; status_code = 500 }
Raises _ e = ⊥

-- What a turn did to its request, before and after, with the flag that the task is over.
abbrev pub Serves : {F : Type 0} → Turn → QueuedRequest F → QueuedRequest F → Bool → Type 0
Serves turn before after over =
    ((over ≡ false)
      × (before.cancelled ≡ false)
      × ((c : Chunk) × (turn ≡ yields c)
          × (after ≡ record before { events = before.events ++ chunk c ∷ [] })))
    ⊎ ((over ≡ true)
        × ((turn ≡ stopped) ⊎ ((before.cancelled ≡ true) × IsCalm turn))
        × (after.state ≡ RequestState.cancelled)
        × (after.events ≡ before.events))
    ⊎ ((over ≡ true)
        × (before.cancelled ≡ false)
        × ((e : StreamEnd) × Ends turn e × (after.events ≡ before.events ++ ended e ∷ []))
        × (after.state ≡ RequestState.done))
    ⊎ ((over ≡ true)
        × ((e : StreamError) × Raises turn e × (after.events ≡ before.events ++ errored e ∷ []))
        × (after.state ≡ RequestState.failed))

module _ {F : Type 0} where
  pub wrote :
      (P : QueuedRequest F → Type 0) (heap : Heap F) (ref : ℕ) (q : QueuedRequest F)
      → P q
      → P (write heap ref q ref)
  wrote P heap ref q holds = subst P (sym same) holds
    where
      same : write heap ref q ref ≡ q
      same = ground arith

module _ {F : Type 0} ⦃fl : Float F⦄ where
  -- `finally` changes neither the state nor the events.
  finish-Serves :
      (e : Engine F) (now : F) (ref : ℕ) (turn : Turn) (before : QueuedRequest F)
      → Serves turn before (e.heap ref) true
      → Serves turn before ((finish e now ref).heap ref) true
  unfolding finish observe_duration
  finish-Serves e now ref turn before (inl (more, stays, told)) = cc
  finish-Serves e now ref turn before (inr over) =
      wrote (λ q. Serves turn before q true) e.heap ref
        (record (e.heap ref) { finished_at = some now }) (inr over)

  -- The client has left while the stream was calm.
  conclude-left :
      (e : Engine F) (now : F) (ref : ℕ) (ending : Option StreamEnd) (turn : Turn)
      → IsCalm turn
      → (e.heap ref).cancelled ≡ true
      → Serves turn (e.heap ref) ((conclude e now ref ending).heap ref) true
  unfolding conclude emit
  conclude-left e now ref ending turn calm left =
      if_cases {A = Engine F} (λ r. Serves turn (e.heap ref) (r.heap ref) true)
        (e.heap ref).cancelled
        (λ left'.
          wrote (λ q. Serves turn (e.heap ref) q true) e.heap ref _
            (inr (inl (refl, inr (left, calm), refl, refl))))
        (λ stays. cc)

  conclude-Serves :
      (e : Engine F) (now : F) (ref : ℕ) (ending : Option StreamEnd) (turn : Turn)
      → IsCalm turn
      → Ends turn (or_stop ending)
      → Serves turn (e.heap ref) ((conclude e now ref ending).heap ref) true
  unfolding conclude emit
  conclude-Serves e now ref ending turn calm its =
      if_cases {A = Engine F} (λ r. Serves turn (e.heap ref) (r.heap ref) true)
        (e.heap ref).cancelled
        (λ left.
          wrote (λ q. Serves turn (e.heap ref) q true) e.heap ref _
            (inr (inl (refl, inr (left, calm), refl, refl))))
        (λ stays.
          wrote (λ q. Serves turn (e.heap ref) q true) e.heap ref _
            (inr (inr (inl (refl, stays, (or_stop ending, its, refl), refl)))))

  serve_body-Serves :
      (e : Engine F) (now : F) (ref : ℕ) (turn : Turn)
      → Serves turn
          (e.heap ref)
          ((serve_body e now ref turn).0.heap ref)
          (serve_body e now ref turn).1
  unfolding serve_body emit
  serve_body-Serves e now ref (yields c) =
      if_cases {A = Engine F × Bool} (λ r. Serves (yields c) (e.heap ref) (r.0.heap ref) r.1)
        (e.heap ref).cancelled (λ left. conclude-left e now ref none (yields c) tt left)
        (λ stays.
          wrote (λ q. Serves (yields c) (e.heap ref) q false) e.heap ref _
            (inl (refl, stays, (c, refl, refl))))
  serve_body-Serves e now ref (ends ending) =
      conclude-Serves e now ref (some ending) (ends ending) tt refl
  serve_body-Serves e now ref exhausted = conclude-Serves e now ref none exhausted tt refl
  serve_body-Serves e now ref stopped =
      wrote (λ q. Serves stopped (e.heap ref) q true) e.heap ref _
        (inr (inl (refl, inl refl, refl, refl)))
  serve_body-Serves e now ref (backend_error message) =
      wrote (λ q. Serves (backend_error message) (e.heap ref) q true) e.heap ref _
        (inr (inr (inr (refl, (_, refl, refl), refl))))
  serve_body-Serves e now ref (other_error message shown) =
      wrote (λ q. Serves (other_error message shown) (e.heap ref) q true) e.heap ref _
        (inr (inr (inr (refl, (_, refl, refl), refl))))

  finish-at :
      (e : Engine F) (now : F) (ref : ℕ) → ((finish e now ref).heap ref).finished_at ≡ some now
  unfolding finish observe_duration
  finish-at e now ref = wrote (λ q. q.finished_at ≡ some now) e.heap ref _ refl

  -- A turn of `_serve`. A chunk goes to a client that has not left, and the task goes on. Otherwise the
  -- task is over, and the time of it is noted. If it was stopped, or if the client has left and the stream
  -- did not raise, the client gets nothing more and the request is cancelled. If the stream of a
  -- client that stays has ended, the client gets the backend's ending, or "stop", and the request
  -- is done. If the stream raised, the client gets the error, even if it has left, with status 503
  -- for a BackendError and 500 for any other, and the request has failed.
  pub serve_turn-Serves :
      (e : Engine F) (now : F) (ref : ℕ) (turn : Turn)
      → Serves turn
          (e.heap ref)
          ((serve_turn e now ref turn).0.heap ref)
          (serve_turn e now ref turn).1
        × ((serve_turn e now ref turn).1 ≡ true
            → ((serve_turn e now ref turn).0.heap ref).finished_at ≡ some now)
  unfolding serve_turn
  serve_turn-Serves e now ref turn =
      go (serve_body e now ref turn) (serve_body-Serves e now ref turn)
    where
      go :
          (r : Engine F × Bool)
          → Serves turn (e.heap ref) (r.0.heap ref) r.1
          → Serves turn (e.heap ref) ((closed r now ref).0.heap ref) (closed r now ref).1
            × ((closed r now ref).1 ≡ true → ((closed r now ref).0.heap ref).finished_at ≡ some now)
      go (e', true) serves =
          (finish-Serves e' now ref turn (e.heap ref) serves, λ over. finish-at e' now ref)
      go (e', false) serves = (serves, λ over. cc)
