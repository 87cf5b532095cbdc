-- ===== src/Swarm/Tests.antt =====
-- Evaluations of apps/cli/src/project_swarm.rs and the theorems at concrete inputs.
use mundusx.Prelude.{
  filter, ◌≡◌, ◌↔◌, refl, String, List, [], ◌∷◌, some, true, false, Result, ok, err, is_blank, any,
  all, all_chars, contains, distinct, trim, trim_start_matches, trim_end_matches, trim_start_text,
  strip_prefix, strip_all, to_ascii_lowercase, map_chars, replace_char, contains_char,
  ends_with_char, split_char,
}
use mundusx.Swarm.Paths.{safe_verification_command, valid_id, normalize_owned_path, path_is_owned}
use mundusx.Swarm.Requests.{requested, should_coordinate, requires_browser_acceptance}
use mundusx.Swarm.Plan.{
  CodingPlan, CodingTask, validate_plan, check_tasks, check_task, claim_paths, check_overlap,
  passes, pass,
}
use mundusx.Swarm.Plan.Guarantees.{IsSafe, validate_plan-ok_iff}

abbrev api : List String → CodingTask
api depends_on = record {
  id = "api";
  objective = "Build API";
  depends_on = depends_on;
  owned_paths = "src/api" ∷ [];
}

abbrev ui : List String → CodingTask
ui owned_paths = record {
  id = "ui";
  objective = "Build UI";
  depends_on = "api" ∷ [];
  owned_paths = owned_paths;
}

abbrev plan : List CodingTask → CodingPlan
plan tasks = record { summary = "work"; tasks = tasks; verification_command = "npm test" }

accepts_independent_paths :
    validate_plan (plan (api [] ∷ ui ("./src/ui/" ∷ []) ∷ [])) ≡ some (ok tt)
unfolding validate_plan is_blank safe_verification_command distinct contains check_tasks check_task
    valid_id normalize_owned_path path_is_owned claim_paths check_overlap passes pass all
    to_ascii_lowercase map_chars trim trim_start_matches trim_end_matches all_chars any
    trim_start_text strip_all strip_prefix replace_char contains_char split_char ends_with_char
accepts_independent_paths = refl

rejects_overlapping_paths :
    validate_plan (plan (api [] ∷ ui ("src/api/users" ∷ []) ∷ []))
    ≡ some (err "Project Swarm tasks `api` and `ui` overlap at `src/api/users`")
unfolding validate_plan is_blank safe_verification_command distinct contains check_tasks check_task
    valid_id normalize_owned_path path_is_owned claim_paths check_overlap passes pass all
    to_ascii_lowercase map_chars trim trim_start_matches trim_end_matches all_chars any
    trim_start_text strip_all strip_prefix replace_char contains_char split_char ends_with_char
rejects_overlapping_paths = refl

rejects_cycles :
    validate_plan (plan (api ("ui" ∷ []) ∷ ui ("src/ui" ∷ []) ∷ []))
    ≡ some (err "Project Swarm plan contains a dependency cycle")
unfolding validate_plan is_blank safe_verification_command distinct contains check_tasks check_task
    valid_id normalize_owned_path path_is_owned claim_paths check_overlap passes pass all
    to_ascii_lowercase map_chars trim trim_start_matches trim_end_matches all_chars any
    trim_start_text strip_all strip_prefix replace_char contains_char split_char ends_with_char
rejects_cycles = refl

-- A safe path that the plan writes with a `./` does not own the files below it as git names them.
dotted_path :
    (normalize_owned_path "./src/api/" ≡ ok "src/api")
    × (path_is_owned "src/api/users.rs" "src/api" ≡ true)
    × (path_is_owned "src/api/users.rs" "./src/api/" ≡ false)
unfolding normalize_owned_path path_is_owned to_ascii_lowercase map_chars trim trim_start_matches
    trim_end_matches all_chars any trim_start_text strip_all strip_prefix replace_char contains_char
    split_char ends_with_char
dotted_path = (refl, refl, refl)

-- A command with a second line, or with a command substitution.
second_command :
    (safe_verification_command "npm test \nrm -rf ." ≡ true)
    × (safe_verification_command "npm test $(rm -rf .)" ≡ true)
    × (safe_verification_command "npm test; rm -rf ." ≡ false)
unfolding safe_verification_command to_ascii_lowercase map_chars trim trim_start_matches
    trim_end_matches all_chars any trim_start_text strip_all strip_prefix replace_char contains_char
    split_char ends_with_char
second_command = (refl, refl, refl)

validate_plan-ok_iff_example :
    ((verdict : Result String (Unit {0})) × (validate_plan (plan (api [] ∷ ui ("src/ui" ∷ []) ∷ []))
        ≡ some verdict))
    × ((validate_plan (plan (api [] ∷ ui ("src/ui" ∷ []) ∷ [])) ≡ some (ok tt))
        ↔ IsSafe (plan (api [] ∷ ui ("src/ui" ∷ []) ∷ [])))
validate_plan-ok_iff_example = validate_plan-ok_iff (plan (api [] ∷ ui ("src/ui" ∷ []) ∷ []))

coordinates_substantial_work :
    (should_coordinate "Create a complete CRUD API for bus ticketing" ≡ true)
    × (should_coordinate "Implement authentication, database, and API tests" ≡ true)
    × (should_coordinate "Rename the login button" ≡ false)
    × (should_coordinate "Create a CRUD API with a single worker" ≡ false)
    × (requires_browser_acceptance "Create a superb React UI UX for the taxi app" ≡ true)
unfolding should_coordinate requested requires_browser_acceptance to_ascii_lowercase map_chars any
    filter
coordinates_substantial_work = (refl, refl, refl, refl, refl)
