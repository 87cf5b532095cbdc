-- ===== src/Prelude/Patterns.antt =====
-- `str` functions with a text for their pattern, and the decimal text of a number.
use Prim.Native.Nat.{ℕ, zero, suc, ◌/◌, ◌%◌}
use Prim.Native.Char.{code}
use Prim.Native.String.{String, count}
use mathlib.Core.Option.{Option, none, some}
use mundusx.Prelude.Tests.{◌==◌, ltb, if◌then◌else◌}
use mundusx.Prelude.Text.{push_str}

-- `s.strip_prefix(pattern)`
unfoldable pub strip_prefix : (pattern s : String) → Option String
strip_prefix String.[] s = some s
strip_prefix (String.◌∷◌ p pattern) String.[] = none
strip_prefix (String.◌∷◌ p pattern) (String.◌∷◌ c s) =
    let rest = strip_prefix pattern s in if code p == code c then rest else none

-- `s.trim_start_matches(pattern)`: one round for each occurrence, of which there are no more than
-- characters when the pattern is not empty.
unfoldable pub strip_all : ℕ → String → String → String
strip_all zero pattern s = s
strip_all (suc fuel) pattern s = elim (strip_prefix pattern s) [
  | none ↦ s
  | some rest ↦ strip_all fuel pattern rest
]

unfoldable pub trim_start_text : (pattern s : String) → String
unfolding strip_all strip_prefix
trim_start_text pattern s = strip_all (count s) pattern s

unfoldable pub reverse_onto : String → String → String
reverse_onto String.[] acc = acc
reverse_onto (String.◌∷◌ c s) acc = reverse_onto s (String.◌∷◌ c acc)

abbrev backwards : String → String
backwards s = reverse_onto s String.[]

-- `s.trim_end_matches(pattern)`
unfoldable pub trim_end_text : (pattern s : String) → String
unfolding trim_start_text reverse_onto
trim_end_text pattern s = backwards (trim_start_text (backwards pattern) (backwards s))

abbrev digit : ℕ → String
digit n =
    if n == 0
    then "0"
    else if n == 1
    then "1"
    else if n == 2
    then "2"
    else if n == 3
    then "3"
    else if n == 4
    then "4"
    else if n == 5
    then "5"
    else if n == 6
    then "6"
    else if n == 7
    then "7"
    else if n == 8
    then "8"
    else "9"

-- The digits of `n` before `acc`.
unfoldable pub digits_onto : ℕ → ℕ → String → String
digits_onto zero n acc = acc
digits_onto (suc fuel) n acc =
    let acc' = push_str (digit (n % 10)) acc in
    let rest = digits_onto fuel (n / 10) acc' in if ltb n 10 then acc' else rest

-- `n.to_string()` of a `u32` or `u64`, which has at most twenty digits.
unfoldable pub decimal : ℕ → String
unfolding digits_onto
decimal n = digits_onto 20 n String.[]
