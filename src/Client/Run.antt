-- ===== src/Client/Run.antt =====
-- src/clients/python/src/sir_client/client.py: `submit` and `run`. The id of a job is a text.
use mathlib.Core.Option
use stupid_inference_router.Prelude.{
  ℕ, zero, suc, ◌+◌, String, Bool, true, false, not, ◌&&◌, Option, none, some, List, [], ◌∷◌, ◌==◌,
  if◌then◌else◌,
}
use stupid_inference_router.Prelude.Dict.{Dict}
use stupid_inference_router.Prelude.Text.{is_empty, join}
use stupid_inference_router.Float.{Float, add}
use stupid_inference_router.Json.{Json, Fields, str, obj, end, member}
use stupid_inference_router.Schemas.{set_field}
use stupid_inference_router.Client.Registry.{Registry, resolve}
use stupid_inference_router.Client.Polling.{
  Response, model_not_routed, transport_error, job_lost, key_error, unreachable, Result, returns,
  throws, Job, Meets, Waited, await_job,
}

-- What is sent.
pub record Post (F : Type 0) : Type 0 where
  pub url : String
  pub json : Fields F
  pub headers : Dict String

-- What one attempt meets: the server's answer to its POST, the clock, and the polls.
pub record Attempt (F : Type 0) : Type 0 where
  pub ask : Post F → Response F
  pub now : F
  pub script : List (Meets F)

-- The end of a run, and how often it has submitted.
pub record Ran (F : Type 0) : Type 0 where
  pub result : Result F (Json F)
  pub submissions : ℕ

abbrev pub has_key : Option String → Bool
has_key none = false
has_key (some key) = not (is_empty key)

-- `_MAX_ATTEMPTS` is 2.
abbrev pub attempts : Bool → Option String → ℕ
attempts resubmit_on_loss idempotency_key =
    if resubmit_on_loss && has_key idempotency_key then 2 else 1

abbrev key_header : Option String → Dict String
key_header none = []
key_header (some key) = if is_empty key then [] else ("idempotency-key", key) ∷ []

module _ {F : Type 0} where
  unfoldable pub post_of : String → String → Fields F → Option String → Post F
  unfolding set_field
  post_of base_url model body idempotency_key = record {
    url = join base_url "/v1/chat/completions";
    json = set_field "model" (str model) body;
    headers = ("prefer", "respond-async") ∷ key_header idempotency_key;
  }

  -- `document["id"]`.
  abbrev job_of : String → String → Fields F → Option (Json F) → Result F (Job F)
  job_of base_url model document (some (str id)) = returns (record {
    id = id;
    model = model;
    base_url = base_url;
    document = document;
    completion = none;
  })
  job_of base_url model document _ = throws key_error

  abbrev accepted : String → String → Json F → Result F (Job F)
  accepted base_url model (obj document) = job_of base_url model document (member "id" document)
  accepted base_url model _ = throws key_error

  abbrev answered : String → String → Response F → Result F (Job F)
  answered base_url model r =
      if r.status_code == 200
      then returns (record {
        id = "";
        model = model;
        base_url = base_url;
        document = end;
        completion = some r.body;
      })
      else if not (r.status_code == 202)
      then throws (transport_error r.status_code r.body)
      else accepted base_url model r.body

  abbrev submit_to :
      Option String → String → Fields F → Option String → (Post F → Response F) → Result F (Job F)
  submit_to none model body key ask = throws model_not_routed
  submit_to (some base_url) model body key ask =
      answered base_url model (ask (post_of base_url model body key))

  -- `submit`; `ask` is the server that the POST goes to.
  unfoldable pub submit :
      Registry → String → Fields F → Option String → (Post F → Response F) → Result F (Job F)
  unfolding resolve member post_of
  submit registry model body key ask = submit_to (resolve registry model) model body key ask

  abbrev pub is_lost : Result F (Json F) → Bool
  is_lost (throws (job_lost id)) = true
  is_lost _ = false

  abbrev pub counted : Option (Ran F) → Option (Ran F)
  counted o = Option.map {A = Ran F} (λ r. record r { submissions = r.submissions + 1 }) o

module _ {F : Type 0} ⦃fl : Float F⦄ where
  abbrev pub once : Result F (Json F) → Option (Ran F)
  once result = some (record { result = result; submissions = 1 })

  -- The end of one attempt: a lost job is tried again if attempts are left.
  abbrev pub after_wait : Option (Waited F) → Bool → Option (Ran F) → Option (Ran F)
  after_wait none more rest = none
  after_wait (some w) more rest = if is_lost w.result && more then counted rest else once w.result

  abbrev pub after_submit : Result F (Job F) → (Job F → Option (Ran F)) → Option (Ran F)
  after_submit (returns job) rest = rest job
  after_submit (throws error) rest = once (throws error)

  -- With so many attempts left; `none` is a call that goes on.
  unfoldable pub attempt :
      Registry
      → String
      → Fields F
      → Option String
      → Option F
      → Option F
      → Option F
      → ℕ
      → List (Attempt F)
      → Option (Ran F)
  unfolding submit await_job
  attempt registry model body key timeout deadline own zero tries =
      some (record { result = throws unreachable; submissions = 0 })
  attempt registry model body key timeout deadline own (suc left) [] = none
  attempt registry model body key timeout deadline own (suc left) (a ∷ tries) =
      let rest = attempt registry model body key timeout deadline own left tries in
      after_submit (submit registry model body key a.ask) (λ job.
        after_wait (await_job job timeout deadline own a.now a.script) (not (left == 0)) rest)

  -- `run`, called at the time `now` by a client with the timeout `own`.
  unfoldable pub run :
      Registry
      → Option F
      → String
      → Fields F
      → Option F
      → Option String
      → Bool
      → F
      → List (Attempt F)
      → Option (Ran F)
  unfolding attempt
  run registry own model body timeout key resubmit_on_loss now tries =
      attempt registry model body key timeout (Option.map (λ t. add now t) timeout) own
        (attempts resubmit_on_loss key) tries
