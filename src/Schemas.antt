-- ===== src/Schemas.antt =====
-- src/sir/schemas.py: the request body as far as the router reads it, and its translation for the backend.
-- What pydantic dumps of a body without unset fields is the body as the client sent it.
use stupid_inference_router.Prelude.{String, Bool, Option, List, str_eq, if◌then◌else◌}
use stupid_inference_router.Json.{Json, str, Fields, field, end}
use stupid_inference_router.Types.Request.{GenerationRequest}

pub record ChatMessage : Type 0 where
  pub role : String
  pub content : Option String

pub record ChatCompletionRequest (F : Type 0) : Type 0 where
  pub model : String
  pub messages : List ChatMessage
  pub stream : Bool
  pub sent : Fields F

-- `payload[k] = v`.
unfoldable pub set_field : {F : Type 0} → String → Json F → Fields F → Fields F
set_field k v end = field k v end
set_field k v (field j w rest) =
    if str_eq j k then field j v rest else field j w (set_field k v rest)

unfoldable pub to_generation_request :
    {F : Type 0} → ChatCompletionRequest F → String → String → String → GenerationRequest F
to_generation_request body internal_name backend_tag request_id = record {
  model = internal_name;
  served_model = body.model;
  payload = set_field "model" (str backend_tag) body.sent;
  request_id = request_id;
}
