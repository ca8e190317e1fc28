-- ===== src/Types/Request.antt =====
-- src/sir/types.py, the generation half: requests, stream events and the state of a request.
use stupid_inference_router.Prelude.{ℕ, String, Bool, true, Option, none, some, List}
use stupid_inference_router.Prelude.Int.{ℤ}
use stupid_inference_router.Prelude.Dict.{Dict}
use stupid_inference_router.Float.{Float, sub}
use stupid_inference_router.Json.{Fields}

pub record GenerationRequest (F : Type 0) : Type 0 where
  pub model : String
  pub served_model : String
  pub payload : Fields F
  pub request_id : String

pub record Chunk : Type 0 where
  pub text : String
  pub index : ℕ

pub record StreamEnd : Type 0 where
  pub finish_reason : String
  pub usage : Option (Dict ℤ)

pub record StreamError : Type 0 where
  pub message : String
  pub status_code : ℕ

pub data StreamEvent : Type 0 where
  chunk : Chunk → StreamEvent
  ended : StreamEnd → StreamEvent
  errored : StreamError → StreamEvent

pub data RequestState : Type 0 where
  queued running done failed cancelled : RequestState

-- `events` holds what was put on the channel and is not yet read; `cancelled` is the event's flag.
pub record QueuedRequest (F : Type 0) : Type 0 where
  pub request : GenerationRequest F
  pub enqueued_at : F
  pub events : List StreamEvent
  pub cancelled : Bool
  pub id : String
  pub state : RequestState
  pub started_at : Option F
  pub finished_at : Option F

module _ {F : Type 0} where
  abbrev pub model : QueuedRequest F → String
  model q = q.request.model

  abbrev pub cancel : QueuedRequest F → QueuedRequest F
  cancel q = record q { cancelled = true }

or_now : {F : Type 0} → Option F → F → F
or_now none now = now
or_now (some t) now = t

-- How long the client has been waiting to be dispatched.
unfoldable pub wait_time : {F : Type 0} ⦃fl : Float F⦄ → QueuedRequest F → F → F
unfolding or_now
wait_time q now = sub (or_now q.started_at now) q.enqueued_at
