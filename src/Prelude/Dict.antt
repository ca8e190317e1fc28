-- ===== src/Prelude/Dict.antt =====
-- A Python dict with text keys: an association list in insertion order, one entry to a key.

use mathlib.Core.List.{List, [], ◌∷◌}
use mathlib.Core.Option.{Option, none, some}
use mathlib.Core.Path.{◌≡◌, refl}
use native.Mathlib.Omega.{arith}
use text.Mathlib.TextEquality.{eq_iff}
use Prim.Native.Nat.{◌+◌, ◌≤◌}
use Prim.Native.String.{String}
use stupid_inference_router.Prelude.Tests.{str_eq, if◌then◌else◌}
use stupid_inference_router.Prelude.Lists.{length}

abbrev pub Dict {ℓ} : Type ℓ → Type ℓ
Dict V = List (String × V)

module _ {ℓ} {V : Type ℓ} where
  -- `d.get(k)`.
  unfoldable pub get : String → Dict V → Option V
  get k [] = none
  get k ((j, v) ∷ d) = if str_eq j k then some v else get k d

  -- `d[k] = v`: a new key goes to the end, a known one keeps its place.
  unfoldable pub put : String → V → Dict V → Dict V
  put k v [] = (k, v) ∷ []
  put k v ((j, w) ∷ d) = if str_eq j k then (j, v) ∷ d else (j, w) ∷ put k v d

  -- `d.pop(k, None)`. A dict holds a key once; here every entry under the key goes.
  unfoldable pub pop : String → Dict V → Dict V
  pop k [] = []
  pop k ((j, w) ∷ d) = if str_eq j k then pop k d else (j, w) ∷ pop k d

  -- `d.values()` and `list(d)`.
  unfoldable pub values : Dict V → List V
  values [] = []
  values ((j, v) ∷ d) = v ∷ values d

  unfoldable pub keys : Dict V → List String
  keys [] = []
  keys ((j, v) ∷ d) = j ∷ keys d

  pub get-put :
      (j k : String) (v : V) (d : Dict V)
      → get j (put k v d) ≡ (if str_eq k j then some v else get j d)
  unfolding get put
  get-put j k v [] = refl
  get-put j k v ((i, w) ∷ d) = ground (arith, eq_iff k j, eq_iff i k, eq_iff i j, get-put j k v d)

  pub get-pop :
      (j k : String) (d : Dict V) → get j (pop k d) ≡ (if str_eq k j then none else get j d)
  unfolding get pop
  get-pop j k [] = ground arith
  get-pop j k ((i, w) ∷ d) = ground (arith, eq_iff k j, eq_iff i k, eq_iff i j, get-pop j k d)

  pub length-pop_le : (k : String) (d : Dict V) → length (pop k d) ≤ length d
  unfolding pop
  length-pop_le k [] = omega arith
  length-pop_le k ((i, w) ∷ d) = ground (arith, length-pop_le k d)

  pub length-put_le : (k : String) (v : V) (d : Dict V) → length (put k v d) ≤ length d + 1
  unfolding put
  length-put_le k v [] = omega arith
  length-put_le k v ((i, w) ∷ d) = ground (arith, length-put_le k v d)

  -- Taking out a key that is there makes room.
  pub length-pop_lt :
      (k : String) (v : V) (d : Dict V) → get k d ≡ some v → length (pop k d) + 1 ≤ length d
  unfolding pop get
  length-pop_lt k v [] e = cc
  length-pop_lt k v ((i, w) ∷ d) e = ground (arith, length-pop_lt k v d, length-pop_le k d)
