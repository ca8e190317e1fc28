-- ===== src/Prelude/Text.antt =====
-- Python's text methods that the program calls, character by character.
use Prim.Native.Char.{Char, code}
use mathlib.Core.List.{List, [], ◌∷◌}
use Prim.Native.String.{String}
use mathlib.Core.Path.{◌≡◌, refl}
use mathlib.Core.Bool.{Bool, true, false, ◌&&◌, ◌||◌}
use mathlib.Core.Option.{Option, none, some}
use native.Mathlib.Omega.{arith}
use Prim.Native.Nat.{ℕ, suc}
use stupid_inference_router.Prelude.Tests.{leb, ◌==◌, if◌then◌else◌}

-- `str.isspace` for one code point.
abbrev pub is_space : ℕ → Bool
is_space c =
    (leb 9 c && leb c 13)
    || (leb 28 c && leb c 32)
    || c == 133
    || c == 160
    || c == 5760
    || (leb 8192 c && leb c 8202)
    || c == 8232
    || c == 8233
    || c == 8239
    || c == 8287
    || c == 12288

abbrev pub is_empty : String → Bool
is_empty String.[] = true
is_empty (String.◌∷◌ c rest) = false

unfoldable pub lstrip : String → String
lstrip String.[] = String.[]
lstrip (String.◌∷◌ c rest) =
    let shorter = lstrip rest in if is_space (code c) then shorter else String.◌∷◌ c rest

unfoldable pub rstrip : String → String
rstrip String.[] = String.[]
rstrip (String.◌∷◌ c rest) =
    let shorter = rstrip rest in
    if is_space (code c) && is_empty shorter then String.[] else String.◌∷◌ c shorter

abbrev pub strip : String → String
strip s = rstrip (lstrip s)

-- `s[len(prefix):]` if `s.startswith(prefix)`.
unfoldable pub after : String → String → Option String
after String.[] s = some s
after (String.◌∷◌ c prefix) String.[] = none
after (String.◌∷◌ c prefix) (String.◌∷◌ d s) =
    let rest = after prefix s in if code c == code d then rest else none

-- `p + s`.
unfoldable pub join : String → String → String
join String.[] s = s
join (String.◌∷◌ c p) s = String.◌∷◌ c (join p s)

-- There is something between its ends, and no blank at them.
pub record IsTrimmed (s : String) : Type 0 where
  pub filled : is_empty s ≡ false
  pub left : lstrip s ≡ s
  pub right : rstrip s ≡ s

is_empty-join : (p s : String) → is_empty s ≡ false → is_empty (join p s) ≡ false
unfolding join
is_empty-join String.[] s filled = filled
is_empty-join (String.◌∷◌ c p) s filled = refl

solid :
    (c : ℕ) (s x y : String) → is_empty s ≡ false → (if is_space c && is_empty s then x else y) ≡ y
solid c s x y filled = ground (arith, filled)

-- What stands before a text with no blank at its end does not matter to that end.
pub rstrip-join : (p s : String) → is_empty s ≡ false → rstrip s ≡ s → rstrip (join p s) ≡ join p s
unfolding rstrip join
rstrip-join String.[] s filled right = right
rstrip-join (String.◌∷◌ c p) s filled right =
    rw (rstrip-join p s filled right) (solid (code c) (join p s) _ _ (is_empty-join p s filled))

-- `s.rstrip(c)` for one character, by its code.
unfoldable pub rstrip_code : ℕ → String → String
rstrip_code c String.[] = String.[]
rstrip_code c (String.◌∷◌ d rest) =
    let shorter = rstrip_code c rest in
    if code d == c && is_empty shorter then String.[] else String.◌∷◌ d shorter

abbrev onto_first : Char → List String → List String
onto_first d [] = String.◌∷◌ d String.[] ∷ []
onto_first d (part ∷ parts) = String.◌∷◌ d part ∷ parts

-- A character at which `str.splitlines` ends a line.
abbrev pub is_break : ℕ → Bool
is_break c = (leb 10 c && leb c 13) || (leb 28 c && leb c 30) || c == 133 || c == 8232 || c == 8233

abbrev starts_with_newline : String → Bool
starts_with_newline String.[] = false
starts_with_newline (String.◌∷◌ c s) = code c == 10

-- `s.splitlines()`: a carriage return with its newline ends one line.
unfoldable pub splitlines : String → List String
splitlines String.[] = []
splitlines (String.◌∷◌ c s) =
    let rest = splitlines s in
    if code c == 13 && starts_with_newline s
    then rest
    else if is_break (code c)
    then String.[] ∷ rest
    else onto_first c rest

unfoldable pub has_break : String → Bool
has_break String.[] = false
has_break (String.◌∷◌ c s) = let later = has_break s in is_break (code c) || later

no_return : (c : ℕ) → is_break c ≡ false → (c == 13) ≡ false
no_return c off = ground (arith, off)

-- A text without a break is one line, ended by a newline behind it.
pub splitlines-join :
    (line rest : String)
    → has_break line ≡ false
    → splitlines (join line (join "\n" rest)) ≡ line ∷ splitlines rest
unfolding splitlines join has_break
splitlines-join String.[] rest whole = refl
splitlines-join (String.◌∷◌ c line) rest whole =
    let here : is_break (code c) ≡ false = ground (arith, whole) in
    let later : has_break line ≡ false = ground (arith, whole) in
    rw (no_return (code c) here, here, splitlines-join line rest later) refl

pub has_break-join :
    (p s : String) → has_break p ≡ false → has_break s ≡ false → has_break (join p s) ≡ false
unfolding join has_break
has_break-join String.[] s left right = right
has_break-join (String.◌∷◌ c p) s left right = ground (arith, left, right, has_break-join p s)

-- `s.split(c)`.
unfoldable pub split_code : ℕ → String → List String
split_code c String.[] = String.[] ∷ []
split_code c (String.◌∷◌ d rest) =
    let parts = split_code c rest in if code d == c then String.[] ∷ parts else onto_first d parts

-- `s.partition(c)`, without the separator.
unfoldable pub partition_code : ℕ → String → String × String
partition_code c String.[] = (String.[], String.[])
partition_code c (String.◌∷◌ d rest) =
    let (before, behind) = partition_code c rest in
    if code d == c then (String.[], rest) else (String.◌∷◌ d before, behind)

-- `"".join(parts)`.
unfoldable pub join_all : List String → String
join_all [] = String.[]
join_all (part ∷ parts) = join part (join_all parts)

-- How many words a text has in and after this place, where it may stand in one already.
abbrev pub words_from : Bool → String → ℕ
words_from inside String.[] = 0
words_from inside (String.◌∷◌ c rest) =
    let blank = words_from false rest in
    let letter = words_from true rest in
    if is_space (code c) then blank else if inside then letter else suc letter

-- `len(s.split())`.
abbrev pub word_count : String → ℕ
word_count s = words_from false s
