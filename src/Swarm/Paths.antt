-- ===== src/Swarm/Paths.antt =====
-- The checks on the texts of a plan, apps/cli/src/project_swarm.rs: commands, ids and owned paths.
use Prim.Native.Char.{Char, code}
use mundusx.Prelude.{
  String, List, [], ◌∷◌, Bool, not, ◌&&◌, ◌||◌, Result, ok, err, is_empty, trim, push_str, str_eq,
  starts_with, any, all_chars, leb, ◌==◌, if◌then◌else◌, contains_char, ends_with_char,
  to_ascii_lowercase, replace_char, split_char, trim_start_text, trim_end_matches,
}

abbrev slash : Char
slash = Char.char 47 tt

abbrev backslash : Char
backslash = Char.char 92 tt

abbrev dash : Char
dash = Char.char 45 tt

abbrev is_shell_operator : Char → Bool
is_shell_operator c =
    code c == 38 || code c == 124 || code c == 59 || code c == 62 || code c == 60 || code c == 96

abbrev verification_prefixes : List String
verification_prefixes =
    "npm test" ∷ "npm run test" ∷ "npm run lint" ∷ "npm run check" ∷ "npm run build" ∷ "pnpm test"
    ∷ "pnpm run test" ∷ "pnpm lint" ∷ "pnpm build" ∷ "yarn test" ∷ "yarn lint" ∷ "yarn build"
    ∷ "cargo test" ∷ "cargo check" ∷ "cargo build" ∷ "python -m pytest" ∷ "python3 -m pytest"
    ∷ "pytest" ∷ "go test" ∷ "dotnet test" ∷ "mvn test" ∷ "gradle test" ∷ "./gradlew test"
    ∷ ".\\gradlew test" ∷ []

unfoldable pub safe_verification_command : String → Bool
safe_verification_command command =
    let value = to_ascii_lowercase (trim command) in
    not (is_empty value || not (all_chars (λ c. not (is_shell_operator c)) value))
    && any (λ prefix. str_eq value prefix || starts_with value (push_str prefix " "))
        verification_prefixes

abbrev is_id_char : Char → Bool
is_id_char c =
    leb 97 (code c) && leb (code c) 122 || leb 48 (code c) && leb (code c) 57 || code c == 45

unfoldable pub valid_id : String → Bool
valid_id value =
    not (is_empty value)
    && not (starts_with value "-")
    && not (ends_with_char value dash)
    && all_chars is_id_char value

abbrev is_unsafe_part : String → Bool
is_unsafe_part part =
    str_eq part ""
    || str_eq part "."
    || str_eq part ".."
    || str_eq part ".git"
    || str_eq part ".hermes"

abbrev colon : Char
colon = Char.char 58 tt

abbrev trim_end_slashes : String → String
trim_end_slashes = trim_end_matches (λ c. code c == 47)

unfoldable pub normalize_owned_path : String → Result String String
normalize_owned_path path =
    let value =
      trim_end_slashes (trim_start_text "./" (replace_char backslash slash (trim path))) in
    if is_empty value
      || starts_with value "/"
      || contains_char value colon
      || any is_unsafe_part (split_char slash value)
    then err (push_str "unsafe Project Swarm owned path `" (push_str value "`"))
    else ok value

unfoldable pub path_is_owned : String → String → Bool
path_is_owned path owned =
    let path' = replace_char backslash slash path in
    let owned' = trim_end_slashes (replace_char backslash slash owned) in
    str_eq path' owned' || starts_with path' (push_str owned' "/")
