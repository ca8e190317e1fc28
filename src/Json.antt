-- ===== src/Json.antt =====
-- JSON values as the `json` module hands them over, and Python's readings of them that the program
-- makes: truth, membership. A member is looked up as in a Python dict.
use stupid_inference_router.Prelude.{String, Bool, Option, none, some, str_eq, if◌then◌else◌}
use stupid_inference_router.Prelude.Int.{ℤ}

mutual
  pub data Json (F : Type 0) : Type 0 where
    null : Json F
    boolean : Bool → Json F
    int : ℤ → Json F
    real : F → Json F
    str : String → Json F
    arr : Items F → Json F
    obj : Fields F → Json F

  pub data Items (F : Type 0) : Type 0 where
    nil : Items F
    cons : Json F → Items F → Items F

  pub data Fields (F : Type 0) : Type 0 where
    end : Fields F
    field : String → Json F → Fields F → Fields F

-- `d.get(k)`, `None` for a missing key.
unfoldable pub member : {F : Type 0} → String → Fields F → Option (Json F)
member k end = none
member k (field j v d) = if str_eq j k then some v else member k d
