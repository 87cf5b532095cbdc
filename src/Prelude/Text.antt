-- ===== src/Prelude/Text.antt =====
-- The functions of Rust's `str` and `char` that the sources call, over the native texts.

use Prim.Native.Char.{Char, code}
use Prim.Native.String.{String}
use mathlib.Core.Bool.{Bool, true, false, ◌&&◌, ◌||◌}
pub use text.Mathlib.Text.{◌==◌ as str_eq}
pub use Prim.Native.String.{◌++◌ as push_str}
use mundusx.Prelude.Tests.{leb, ◌==◌, if◌then◌else◌}

-- `char::is_whitespace`: the code points with the property White_Space.
pub is_whitespace : Char → Bool
is_whitespace c =
    let n = code c in
    leb 9 n && leb n 13
    || n == 32
    || n == 0x85
    || n == 0xa0
    || n == 0x1680
    || leb 0x2000 n && leb n 0x200a
    || n == 0x2028
    || n == 0x2029
    || n == 0x202f
    || n == 0x205f
    || n == 0x3000

-- `value.chars().all(p)`
unfoldable pub all_chars : (Char → Bool) → String → Bool
all_chars p String.[] = true
all_chars p (String.◌∷◌ c s) = p c && all_chars p s

abbrev pub is_empty : String → Bool
is_empty String.[] = true
is_empty (String.◌∷◌ c s) = false

-- `value.trim_start_matches(p)` for a predicate on characters.
unfoldable pub trim_start_matches : (Char → Bool) → String → String
trim_start_matches p String.[] = String.[]
trim_start_matches p (String.◌∷◌ c s) =
    let rest = trim_start_matches p s in if p c then rest else String.◌∷◌ c s

-- Puts a character before a trimmed tail, and drops it if the tail is empty and it matches.
abbrev pub keep_before : Bool → Char → String → String
keep_before matches c String.[] = if matches then String.[] else String.◌∷◌ c String.[]
keep_before matches c (String.◌∷◌ d s) = String.◌∷◌ c (String.◌∷◌ d s)

-- `value.trim_end_matches(p)`
unfoldable pub trim_end_matches : (Char → Bool) → String → String
trim_end_matches p String.[] = String.[]
trim_end_matches p (String.◌∷◌ c s) = keep_before (p c) c (trim_end_matches p s)

-- `value.trim()`
unfoldable pub trim : String → String
unfolding trim_start_matches trim_end_matches is_whitespace
trim s = trim_end_matches is_whitespace (trim_start_matches is_whitespace s)

-- `value.trim().is_empty()`
unfoldable pub is_blank : String → Bool
unfolding trim
is_blank s = is_empty (trim s)
