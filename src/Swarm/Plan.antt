-- ===== src/Swarm/Plan.antt =====
-- The plan of Project Swarm and its validation, apps/cli/src/project_swarm.rs.
pub mod Order
pub mod Owners
pub mod Tasks
pub mod Search
pub mod Guarantees
use mundusx.Prelude.{
  ℕ, zero, suc, String, List, [], ◌∷◌, ◌++◌, map, Option, none, some, Bool, not, ◌&&◌, ◌||◌, Result,
  ok, err, is_blank, is_nil, push_str, str_eq, any, all, length, distinct, contains, ltb, ◌==◌,
  if◌then◌else◌,
}
use mundusx.Swarm.Paths.{safe_verification_command, valid_id, normalize_owned_path, path_is_owned}

pub record CodingTask : Type 0 where
  pub id : String
  pub objective : String
  pub depends_on : List String
  pub owned_paths : List String

pub record CodingPlan : Type 0 where
  pub summary : String
  pub tasks : List CodingTask
  pub verification_command : String

abbrev pub max_tasks : ℕ
max_tasks = 4

abbrev pub ids_of : List CodingTask → List String
ids_of tasks = map (λ task. task.id) tasks

-- An owner: the id of a task and a normalized path of it.
abbrev pub Owner : Type 0
Owner = String × String

abbrev pub overlap : String → String → Bool
overlap a b = path_is_owned a b || path_is_owned b a

unfoldable pub check_overlap : String → String → String → List Owner → Result String (Unit {0})
check_overlap task_id path normalized [] = ok tt
check_overlap task_id path normalized ((owner, existing) ∷ owners) =
    let rest = check_overlap task_id path normalized owners in
    if overlap normalized existing
    then err (
        push_str "Project Swarm tasks `" (
          push_str owner (
            push_str "` and `" (push_str task_id (push_str "` overlap at `" (push_str path "`"))))))
    else rest

-- The owners after a path whose normal form is `normalized` and of which `checked` is the check.
abbrev add_owner :
    String → String → List Owner → Result String (Unit {0}) → Result String (List Owner)
add_owner task_id normalized owners (err e) = err e
add_owner task_id normalized owners (ok u) = ok (owners ++ (task_id, normalized) ∷ [])

abbrev claim_normalized :
    String → String → List Owner → Result String String → Result String (List Owner)
claim_normalized task_id path owners (err e) = err e
claim_normalized task_id path owners (ok normalized) =
    add_owner task_id normalized owners (check_overlap task_id path normalized owners)

abbrev claim_path : String → String → List Owner → Result String (List Owner)
claim_path task_id path owners = claim_normalized task_id path owners (normalize_owned_path path)

abbrev and_then :
    Result String (List Owner)
    → (List Owner → Result String (List Owner))
    → Result String (List Owner)
and_then (ok owners) f = f owners
and_then (err e) f = err e

unfoldable pub claim_paths : String → List String → List Owner → Result String (List Owner)
claim_paths task_id [] owners = ok owners
claim_paths task_id (path ∷ paths) owners =
    and_then (claim_path task_id path owners) (claim_paths task_id paths)

abbrev pub is_incomplete : CodingTask → Bool
is_incomplete task = not (valid_id task.id) || is_blank task.objective || is_nil task.owned_paths

abbrev pub is_bad_dependency : List String → String → String → Bool
is_bad_dependency ids task_id dependency =
    str_eq dependency task_id || not (contains ids dependency)

unfoldable pub check_task : List String → CodingTask → List Owner → Result String (List Owner)
check_task ids task owners =
    if is_incomplete task
    then err (push_str "Project Swarm task `" (push_str task.id "` is incomplete"))
    else if any (is_bad_dependency ids task.id) task.depends_on
    then err (push_str "Project Swarm task `" (push_str task.id "` has an invalid dependency"))
    else claim_paths task.id task.owned_paths owners

unfoldable pub check_tasks : List String → List CodingTask → List Owner → Result String (List Owner)
check_tasks ids [] owners = ok owners
check_tasks ids (task ∷ tasks) owners =
    and_then (check_task ids task owners) (check_tasks ids tasks)

-- `completed.insert(id)`
abbrev pub complete : String → List String → List String
complete id completed = if contains completed id then completed else id ∷ completed

-- One pass over the tasks of the loop that looks for a dependency cycle.
unfoldable pub pass : List CodingTask → List String → List String
pass [] completed = completed
pass (task ∷ tasks) completed =
    pass tasks
      (if all (contains completed) task.depends_on then complete task.id completed else completed)

-- The loop, on fuel: `none` means that the fuel ran out.
unfoldable pub passes : ℕ → List CodingTask → List String → Option (Result String (Unit {0}))
passes zero tasks completed = none
passes (suc fuel) tasks completed =
    let after = pass tasks completed in
    let rest = passes fuel tasks after in
    if ltb (length completed) (length tasks)
    then if length after == length completed
      then some (err "Project Swarm plan contains a dependency cycle")
      else rest
    else some (ok tt)

abbrev scheduled : List CodingTask → Result String (List Owner) → Option (Result String (Unit {0}))
scheduled tasks (err e) = some (err e)
scheduled tasks (ok owners) = passes (suc (length tasks)) tasks []

unfoldable pub validate_plan : CodingPlan → Option (Result String (Unit {0}))
validate_plan plan =
    if ltb (length plan.tasks) 2 || ltb max_tasks (length plan.tasks)
    then some (err "Project Swarm requires 2 to 4 safe coding tasks")
    else if is_blank plan.verification_command
    then some (err "Project Swarm plan is missing its integration verification command")
    else if not (safe_verification_command plan.verification_command)
    then some (err "Project Swarm planner selected an unsafe verification command")
    else if not (length (distinct (ids_of plan.tasks)) == length plan.tasks)
    then some (err "Project Swarm plan contains duplicate task ids")
    else scheduled plan.tasks (check_tasks (distinct (ids_of plan.tasks)) plan.tasks [])
