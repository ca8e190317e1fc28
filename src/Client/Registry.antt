-- ===== src/Client/Registry.antt =====
-- src/clients/python/src/sir_client/registry.py: `Registry`. What a host answers to `discover` is an
-- argument: its status and text, and the `id` of each card, if it has one. Messages are left out.
use mathlib.Core.Option
use stupid_inference_router.Prelude.{
  ℕ, String, Bool, false, not, ◌||◌, Option, none, some, List, [], ◌∷◌, ◌==◌, str_eq, if◌then◌else◌,
}
use stupid_inference_router.Prelude.Dict.{Dict, get, put}
use stupid_inference_router.Prelude.Text.{is_empty, strip, rstrip_code, split_code, partition_code}

pub record Registry : Type 0 where
  pub endpoints : Dict String
  pub fallback : Option String

-- `url.rstrip("/")`.
abbrev pub bare : String → String
bare url = rstrip_code 47 url

-- `{model: url.rstrip("/") for model, url in endpoints.items()}`.
unfoldable bared : Dict String → Dict String
bared [] = []
bared ((model, url) ∷ rest) = (model, bare url) ∷ bared rest

abbrev bare_default : Option String → Option String
bare_default none = none
bare_default (some url) = if is_empty url then none else some (bare url)

unfoldable pub new_registry : Dict String → Option String → Registry
unfolding bared
new_registry endpoints fallback = record {
  endpoints = bared endpoints;
  fallback = bare_default fallback;
}

-- The pairs of `SIR_ENDPOINTS`; `none` is the ValueError of a malformed one.
unfoldable pub read_pairs : Dict String → List String → Option (Dict String)
read_pairs endpoints [] = some endpoints
read_pairs endpoints (raw ∷ rest) =
    let pair = strip raw in
    let (model, url) = partition_code 61 pair in
    let skipped = read_pairs endpoints rest in
    let taken = read_pairs (put (strip model) (strip url) endpoints) rest in
    if is_empty pair
    then skipped
    else if is_empty (strip model) || is_empty (strip url)
    then none
    else taken

abbrev or_empty : Option String → String
or_empty none = ""
or_empty (some s) = s

-- `from_env`, given the two variables.
unfoldable pub from_env : Option String → Option String → Option Registry
unfolding read_pairs new_registry
from_env endpoints base_url =
    Option.map (λ pairs. new_registry pairs base_url)
      (read_pairs [] (split_code 44 (or_empty endpoints)))

unfoldable pub register : Registry → String → String → Registry
register r model base_url = record r { endpoints = put model (bare base_url) r.endpoints }

abbrev or_default : Option String → Option String → Option String
or_default none fallback = fallback
or_default (some url) fallback = if is_empty url then fallback else some url

-- `none` is ModelNotRouted.
unfoldable pub resolve : Registry → String → Option String
resolve r model = or_default (get model r.endpoints) r.fallback

pub record Host : Type 0 where
  pub base_url : String
  pub status : ℕ
  pub cards : List (Option String)

pub data Refusal : Type 0 where
  transport : ℕ → Refusal
  conflict : String → String → String → Refusal

abbrev pub Claimed : Type 0
Claimed = Registry × Option Refusal

-- The tag is somebody else's.
abbrev pub is_other : Option String → String → Bool
is_other none base = false
is_other (some claimed) base = not (str_eq claimed base)

abbrev claimed_by : Option String → String
claimed_by none = ""
claimed_by (some claimed) = claimed

-- The cards of one host. What was claimed before an error stays.
unfoldable pub claim_all : Registry → String → List (Option String) → Claimed
claim_all r base [] = (r, none)
claim_all r base (none ∷ cards) = claim_all r base cards
claim_all r base (some tag ∷ cards) =
    let skipped = claim_all r base cards in
    let taken = claim_all (record r { endpoints = put tag base r.endpoints }) base cards in
    if is_empty tag
    then skipped
    else if is_other (get tag r.endpoints) base
    then (r, some (conflict tag (claimed_by (get tag r.endpoints)) base))
    else taken

abbrev pub go_on : Claimed → (Registry → Claimed) → Claimed
go_on (r, none) rest = rest r
go_on (r, some refusal) rest = (r, some refusal)

unfoldable pub discover : Registry → List Host → Claimed
unfolding claim_all
discover r [] = (r, none)
discover r (host ∷ hosts) =
    if not (host.status == 200)
    then (r, some (transport host.status))
    else go_on (claim_all r (bare host.base_url) host.cards) (λ r'. discover r' hosts)
