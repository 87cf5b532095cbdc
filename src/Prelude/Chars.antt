-- ===== src/Prelude/Chars.antt =====
-- `str` functions that look at the characters of a text: searching, splitting and replacing.
use Prim.Native.Nat.{◌-◌}
use Prim.Native.Char.{Char, code}
use Prim.Native.String.{String, char_at}
use mathlib.Core.Bool.{Bool, false, not, ◌&&◌}
use mathlib.Core.List.{List, [], ◌∷◌}
use text.Mathlib.Text.{find?}
use mundusx.Prelude.Tests.{leb, ◌==◌, if◌then◌else◌, is_some}
use mundusx.Prelude.Text.{all_chars}

-- `value.contains(pattern)` for a text and for a character of this code.
abbrev pub contains_text : String → String → Bool
contains_text value pattern = is_some (find? value pattern)

unfoldable pub contains_char : String → Char → Bool
unfolding all_chars
contains_char value c = not (all_chars (λ d. not (code d == code c)) value)

-- `value.ends_with(c)` for a character.
unfoldable pub ends_with_char : String → Char → Bool
ends_with_char String.[] c = false
ends_with_char (String.◌∷◌ d String.[]) c = code d == code c
ends_with_char (String.◌∷◌ d (String.◌∷◌ e s)) c = ends_with_char (String.◌∷◌ e s) c

unfoldable pub map_chars : (Char → Char) → String → String
map_chars f String.[] = String.[]
map_chars f (String.◌∷◌ c s) = String.◌∷◌ (f c) (map_chars f s)

-- `char::to_ascii_lowercase`
abbrev pub to_lower : Char → Char
to_lower c =
    if leb 65 (code c) && leb (code c) 90
    then char_at "abcdefghijklmnopqrstuvwxyz" (code c - 65)
    else c

-- `value.to_ascii_lowercase()`
unfoldable pub to_ascii_lowercase : String → String
unfolding map_chars
to_ascii_lowercase = map_chars to_lower

-- `value.replace(old, new)` of a character by a character.
unfoldable pub replace_char : Char → Char → String → String
unfolding map_chars
replace_char old new = map_chars (λ c. if code c == code old then new else c)

abbrev onto_first : Char → List String → List String
onto_first c [] = []
onto_first c (part ∷ parts) = String.◌∷◌ c part ∷ parts

-- `value.split(c)`
unfoldable pub split_char : Char → String → List String
split_char c String.[] = String.[] ∷ []
split_char c (String.◌∷◌ d s) =
    let rest = split_char c s in if code d == code c then String.[] ∷ rest else onto_first d rest
