-- ===== src/Client/Polling.antt =====
-- src/clients/python/src/sir_client/client.py: `_delay`, `_fetch`, `_cancel` and `_await_job`. What the server answers, the readings of the clock, and the moment at which the caller gives
-- up are arguments. A body that is not of the expected shape is the error `key_error`.
use mathlib.Core.Option
use stupid_inference_router.Prelude.{
  ℕ, suc, String, Bool, true, false, not, ◌||◌, Option, none, some, List, [], ◌∷◌, ◌==◌, str_eq,
  if◌then◌else◌,
}
use stupid_inference_router.Prelude.Int.{pos, negsuc}
use stupid_inference_router.Float.{Float, add, sub, le, lit, of_int, min, max, truthy}
use stupid_inference_router.Json.{Json, Fields, boolean, int, real, str, obj, member}

-- A response: its status and its JSON.
pub record Response (F : Type 0) : Type 0 where
  pub status_code : ℕ
  pub body : Json F

-- How a call ends that does not return a completion.
pub data ClientError (F : Type 0) : Type 0 where
  model_not_routed : ClientError F
  transport_error : ℕ → Json F → ClientError F
  job_lost : String → ClientError F
  job_failed : String → Option (Json F) → ClientError F
  job_cancelled : String → ClientError F
  request_timeout : String → F → ClientError F
  key_error : ClientError F
  caller_gone : ClientError F
  unreachable : ClientError F

pub data Result (F : Type 0) (A : Type 0) : Type 0 where
  returns : A → Result F A
  throws : ClientError F → Result F A

-- A `Job` without its client.
pub record Job (F : Type 0) : Type 0 where
  pub id : String
  pub model : String
  pub base_url : String
  pub document : Fields F
  pub completion : Option (Json F)

-- What the wait meets next: the clock is read, and after the sleep there is an answer, or the
-- task has been cancelled.
pub data Meets (F : Type 0) : Type 0 where
  polls : F → Response F → Meets F
  given_up : F → Meets F

-- The end of a wait, and whether the job was cancelled on the way out.
pub record Waited (F : Type 0) : Type 0 where
  pub result : Result F (Json F)
  pub cancels : Bool

pub data JobStatus : Type 0 where
  is_done is_failed is_cancelled is_open : JobStatus

-- `Job.status`, as far as the loop tells statuses apart.
abbrev of_status : String → JobStatus
of_status s =
    if str_eq s "done"
    then is_done
    else if str_eq s "failed"
    then is_failed
    else if str_eq s "cancelled"
    then is_cancelled
    else is_open

module _ {F : Type 0} ⦃fl : Float F⦄ where
  -- `float(v)` of an `int`, a `bool` among them, or a `float`.
  abbrev as_float : Option (Json F) → F
  as_float (some (int (pos n))) = of_int n
  as_float (some (int (negsuc n))) = sub (lit 0 0) (of_int (suc n))
  as_float (some (real x)) = x
  as_float (some (boolean b)) = if b then lit 1 0 else lit 0 0
  as_float _ = lit 1 0

  abbrev pub min_poll_seconds : F
  min_poll_seconds = lit 5 2

  abbrev pub within : F → Option F → F
  within delay none = delay
  within delay (some remaining) = min delay (max min_poll_seconds remaining)

  unfoldable pub delay : F → Fields F → Option F → F
  unfolding member
  delay max_poll_seconds document remaining =
      within
        (min max_poll_seconds (max min_poll_seconds (as_float (member "retry_after" document))))
        remaining

  -- `response.json()` as a document.
  abbrev pub fields_of : Json F → Result F (Fields F)
  fields_of (obj fields) = returns fields
  fields_of _ = throws key_error

  unfoldable pub fetched : String → Response F → Result F (Fields F)
  fetched id r =
      if r.status_code == 404
      then throws (job_lost id)
      else if not (r.status_code == 200)
      then throws (transport_error r.status_code r.body)
      else fields_of r.body

  -- The answer to a DELETE.
  unfoldable cancel : Response F → Result F Unit
  cancel r =
      if r.status_code == 200 || r.status_code == 404
      then returns tt
      else throws (transport_error r.status_code r.body)

  abbrev status_in : Option (Json F) → JobStatus
  status_in (some (str s)) = of_status s
  status_in _ = is_open

  abbrev pub status_of : Fields F → JobStatus
  status_of document = status_in (member "status" document)

  abbrev pub response_in : Option (Json F) → Result F (Json F)
  response_in none = throws key_error
  response_in (some v) = returns v

  -- What a status that is terminal ends the wait with.
  unfoldable pub settled : String → Fields F → JobStatus → Option (Result F (Json F))
  unfolding member
  settled id document is_done = some (response_in (member "response" document))
  settled id document is_failed = some (throws (job_failed id (member "error" document)))
  settled id document is_cancelled = some (throws (job_cancelled id))
  settled id document is_open = none

  abbrev pub or_zero : Option F → F
  or_zero none = lit 0 0
  or_zero (some t) = if truthy t then t else lit 0 0

  -- The deadline is reached.
  abbrev pub is_over : Option F → F → Bool
  is_over none now = false
  is_over (some deadline) now = le (sub deadline now) (lit 0 0)

  abbrev pub plainly : Result F (Json F) → Waited F
  plainly result = record { result = result; cancels = false }

  abbrev pub abandoned : ClientError F → Waited F
  abandoned error = record { result = throws error; cancels = true }

  abbrev pub on_fetched : Result F (Fields F) → (Fields F → Option (Waited F)) → Option (Waited F)
  on_fetched (returns document) rest = rest document
  on_fetched (throws error) rest = some (plainly (throws error))

  abbrev pub on_settled : Option (Result F (Json F)) → Option (Waited F) → Option (Waited F)
  on_settled (some result) rest = some (plainly result)
  on_settled none rest = rest

  -- The loop; `none` is a wait that goes on.
  unfoldable pub poll : String → Option F → Option F → Fields F → List (Meets F) → Option (Waited F)
  unfolding settled fetched
  poll id timeout deadline document [] = on_settled (settled id document (status_of document)) none
  poll id timeout deadline document (given_up now ∷ script) =
      on_settled (settled id document (status_of document)) (
        if is_over deadline now
        then some (abandoned (request_timeout id (or_zero timeout)))
        else some (abandoned caller_gone))
  poll id timeout deadline document (polls now answer ∷ script) =
      on_settled (settled id document (status_of document)) (
        if is_over deadline now
        then some (abandoned (request_timeout id (or_zero timeout)))
        else on_fetched (fetched id answer) (λ d. poll id timeout deadline d script))

  abbrev or_else : Option F → Option F → Option F
  or_else none b = b
  or_else (some a) b = some a

  -- `deadline`, or one from the timeout of the call or of the client.
  abbrev until : Option F → Option F → Option F → F → Option F
  until (some deadline) timeout own now = some deadline
  until none timeout own now = Option.map (λ t. add now t) (or_else timeout own)

  unfoldable pub await_job :
      Job F → Option F → Option F → Option F → F → List (Meets F) → Option (Waited F)
  unfolding poll
  await_job job timeout deadline own now script = elim job.completion [
    | some completion ↦ some (plainly (returns completion))
    | none ↦ poll job.id timeout (until deadline timeout own now) job.document script
  ]
