-- ===== src/TestSwarm.antt =====
-- The test lanes of the command line program: tasks, the manifest and the plan of a run,
-- apps/cli/src/swarm.rs. The JSON parser, the file system and the processes are parameters.
pub mod Names
pub mod Lanes
pub mod Plans
pub mod Planned
pub mod Run
pub mod Tests
use mundusx.Prelude.{
  ℕ, zero, suc, ◌+◌, String, push_str, Option, none, some, List, [], ◌∷◌, Bool, true, false, ◌&&◌,
  ◌||◌, not, Result, ok, err, ◌>>=◌, length, ltb, leb, ◌==◌, clamp, if◌then◌else◌, str_eq, is_empty,
  trim, contains_char, contains_text, decimal, Char, code, map_chars, trim_start_matches,
  trim_end_matches,
}

abbrev pub max_workers : ℕ
max_workers = 8

-- The workspace and the output format are left out.
pub record TestOptions : Type 0 where
  pub tasks : List String
  pub workers : ℕ
  pub fail_fast : Bool
  pub fallback : Option String

pub record ManifestTask : Type 0 where
  pub name : String
  pub command : String

pub record TestManifest : Type 0 where
  pub enabled : Bool
  pub workers : ℕ
  pub fail_fast : Bool
  pub fallback : Option String
  pub tasks : List ManifestTask

pub record SwarmManifest : Type 0 where
  pub version : ℕ
  pub test : TestManifest

pub record TestTask : Type 0 where
  pub name : String
  pub command : String

pub record TestResult : Type 0 where
  pub name : String
  pub command : String
  pub success : Bool
  pub exit_code : Option ℕ  -- an i32, as its 32 bits
  pub duration_ms : ℕ
  pub log : String
  pub error : Option String

abbrev before_and : Char → Option (String × String) → Option (String × String)
before_and c none = none
before_and c (some (a, b)) = some (String.◌∷◌ c a, b)

-- `value.split_once(separator)`
unfoldable pub split_once : Char → String → Option (String × String)
split_once separator String.[] = none
split_once separator (String.◌∷◌ c s) =
    let rest = split_once separator s in
    if code c == code separator then some (String.[], s) else before_and c rest

abbrev pub task_of_parts : String → String → String → Result String TestTask
task_of_parts value name command =
    if is_empty name || is_empty command
    then err (push_str "invalid task `" (push_str value "`; name and command are required"))
    else if contains_char name "/" || contains_char name "\\" || str_eq name "." || str_eq name ".."
    then err (push_str "invalid task name `" (push_str name "`"))
    else ok (record { name = name; command = command })

abbrev pub task_of_split : String → Option (String × String) → Result String TestTask
task_of_split value none =
    err (push_str "invalid task `" (push_str value "`; expected NAME=COMMAND"))
task_of_split value (some (name, command)) = task_of_parts value (trim name) (trim command)

unfoldable pub parse_task : String → Result String TestTask
parse_task value = task_of_split value (split_once "=" value)

-- `.map(parse_task).collect::<Result<Vec<_>, _>>()`
unfoldable pub parse_tasks : List String → Result String (List TestTask)
parse_tasks [] = ok []
parse_tasks (value ∷ values) =
    parse_task value >>= λ task. parse_tasks values >>= λ tasks. ok (task ∷ tasks)

-- The file, where there is one, as the JSON parser read it.
unfoldable pub read_manifest :
    Option (Result String SwarmManifest) → Result String (Option SwarmManifest)
read_manifest none = ok none
read_manifest (some (err e)) = err e
read_manifest (some (ok manifest)) =
    if manifest.version == 1
    then ok (some manifest)
    else err (
        push_str "unsupported swarm manifest version "
          (push_str (decimal manifest.version) "; expected 1"))

abbrev pub is_safe_char : Char → Bool
is_safe_char c =
    (leb 48 (code c) && leb (code c) 57)
    || (leb 65 (code c) && leb (code c) 90)
    || (leb 97 (code c) && leb (code c) 122)
    || code c == 45
    || code c == 95

-- `chars().take(n)`
unfoldable pub take_chars : ℕ → String → String
take_chars zero s = String.[]
take_chars (suc n) String.[] = String.[]
take_chars (suc n) (String.◌∷◌ c s) = String.◌∷◌ c (take_chars n s)

abbrev pub is_dash : Char → Bool
is_dash c = code c == 45

unfoldable pub safe_name : String → String
safe_name name = take_chars 80 (
    trim_end_matches is_dash
      (trim_start_matches is_dash (map_chars (λ c. if is_safe_char c then c else "-") name)))
