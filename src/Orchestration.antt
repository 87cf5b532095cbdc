-- ===== src/Orchestration.antt =====
-- The task orchestrator, packages/agent-orchestration/src/lib.rs.
--
-- The executor is a function, with `none` for a worker that panics and so never sends. The workers'
-- messages come in any order: `arrive` is the order that the channel delivers them in.
pub mod Maps
pub mod Receive
pub mod Rounds
pub mod Invariant
pub mod Steps
pub mod Loop
pub mod Outcomes
pub mod Faults
pub mod Cycles
pub mod Graph
pub mod Collect
pub mod Guarantees
pub mod Tests
use mundusx.Prelude.{
  ℕ, zero, suc, String, push_str, Option, none, some, List, [], ◌∷◌, map, Bool, true, false, not,
  ◌||◌, Result, ok, err, is_some, is_nil, any, all, take, filter, length, distinct, contains, ◌==◌,
  clamp, if◌then◌else◌,
}
use mundusx.Prelude.Maps.{Map, get, insert, remove, values}

pub record AgentTask : Type 0 where
  pub id : String
  pub prompt : String
  pub dependencies : List String

pub record TaskResult : Type 0 where
  pub task_id : String
  pub output : String

pub data OrchestrationError : Type 0 where
  invalid_graph : (message : String) → OrchestrationError
  task_failed : (task_id message : String) → OrchestrationError

-- `Orchestrator::new`
unfoldable pub max_parallel : ℕ → ℕ
max_parallel requested = clamp requested 1 32

abbrev pub ids_of : List AgentTask → List String
ids_of tasks = map (λ task. task.id) tasks

unfoldable pub check_dependencies :
    List String → List AgentTask → Result OrchestrationError (Unit {0})
check_dependencies ids [] = ok tt
check_dependencies ids (task ∷ tasks) =
    let rest = check_dependencies ids tasks in
    if any (λ id. not (contains ids id)) task.dependencies
    then err (invalid_graph (push_str "task " (push_str task.id " has an unknown dependency")))
    else rest

unfoldable pub validate_graph : List AgentTask → Result OrchestrationError (Unit {0})
validate_graph tasks =
    let ids = distinct (ids_of tasks) in
    if is_nil tasks
    then err (invalid_graph "at least one task is required")
    else if not (length ids == length tasks) || contains ids ""
    then err (invalid_graph "task ids must be unique and non-empty")
    else check_dependencies ids tasks

unfoldable pub pending_of : List AgentTask → Map AgentTask → Map AgentTask
pending_of [] m = m
pending_of (task ∷ tasks) m = pending_of tasks (insert m task.id task)

abbrev pub is_ready : Map TaskResult → AgentTask → Bool
is_ready completed task = all (λ id. is_some (get completed id)) task.dependencies

unfoldable pub ready_tasks : ℕ → Map AgentTask → Map TaskResult → List AgentTask
ready_tasks limit pending completed = take limit (filter (is_ready completed) (values pending))

abbrev cons_some {ℓ} : {A : Type ℓ} → Option A → List A → List A
cons_some none rest = rest
cons_some (some x) rest = x ∷ rest

-- The inputs of a task: the results of its dependencies, in their order.
unfoldable pub inputs_of : Map TaskResult → List String → List TaskResult
inputs_of completed [] = []
inputs_of completed (id ∷ ids) = cons_some (get completed id) (inputs_of completed ids)

unfoldable pub remove_all : Map AgentTask → List AgentTask → Map AgentTask
remove_all pending [] = pending
remove_all pending (task ∷ ready) = remove_all (remove pending task.id) ready

abbrev pub Message : Type 0
Message = String × Result String String

-- What comes through the channel: one message for each receive, or the error of a closed channel.
unfoldable pub receive :
    ℕ → List Message → Map TaskResult → Result OrchestrationError (Map TaskResult)
receive zero messages completed = ok completed
receive (suc n) [] completed =
    err (invalid_graph "worker channel closed: receiving on a closed channel")
receive (suc n) ((task_id, ok output) ∷ messages) completed =
    receive n messages (insert completed task_id (record { task_id = task_id; output = output }))
receive (suc n) ((task_id, err message) ∷ messages) completed = err (task_failed task_id message)

-- The results in the order of the tasks.
unfoldable pub collect : List String → Map TaskResult → List TaskResult
collect [] completed = []
collect (id ∷ ids) completed = cons_some (get completed id) (collect ids (remove completed id))

abbrev sent_by : String → Option (Result String String) → List Message → List Message
sent_by id none rest = rest
sent_by id (some result) rest = (id, result) ∷ rest

module _ (execute : AgentTask → List TaskResult → Option (Result String String)) where
  unfoldable pub sent : Map TaskResult → List AgentTask → List Message
  sent completed [] = []
  sent completed (task ∷ ready) =
      sent_by task.id (execute task (inputs_of completed task.dependencies)) (sent completed ready)

module _ (execute : AgentTask → List TaskResult → Option (Result String String))
    (arrive : List Message → List Message) where
  -- The `while` loop on fuel: `none` means that the fuel ran out.
  abbrev next_round :
      (Map AgentTask → Map TaskResult → Option (Result OrchestrationError (Map TaskResult)))
      → Map AgentTask
      → Result OrchestrationError (Map TaskResult)
      → Option (Result OrchestrationError (Map TaskResult))
  next_round rest pending (ok completed) = rest pending completed
  next_round rest pending (err e) = some (err e)

  unfoldable pub round :
      ℕ → Map AgentTask → Map TaskResult → Result OrchestrationError (Map TaskResult)
  round limit pending completed =
      let ready = ready_tasks limit pending completed in
      if is_nil ready
      then err (invalid_graph "task graph contains a dependency cycle")
      else receive (length ready) (arrive (sent execute completed ready)) completed

  unfoldable pub rounds :
      ℕ → ℕ → Map AgentTask → Map TaskResult → Option (Result OrchestrationError (Map TaskResult))
  rounds fuel limit [] completed = some (ok completed)
  rounds zero limit (e ∷ pending) completed = none
  rounds (suc fuel) limit (e ∷ pending) completed =
      next_round (rounds fuel limit)
        (remove_all (e ∷ pending) (ready_tasks limit (e ∷ pending) completed))
        (round limit (e ∷ pending) completed)

  abbrev collected :
      List AgentTask
      → Option (Result OrchestrationError (Map TaskResult))
      → Option (Result OrchestrationError (List TaskResult))
  collected tasks none = none
  collected tasks (some (err e)) = some (err e)
  collected tasks (some (ok completed)) = some (ok (collect (ids_of tasks) completed))

  abbrev validated :
      ℕ
      → List AgentTask
      → Result OrchestrationError (Unit {0})
      → Option (Result OrchestrationError (List TaskResult))
  validated limit tasks (err e) = some (err e)
  validated limit tasks (ok u) =
      let pending = pending_of tasks [] in
      collected tasks (rounds (length pending) limit pending [])

  unfoldable pub run : ℕ → List AgentTask → Option (Result OrchestrationError (List TaskResult))
  run requested tasks = validated (max_parallel requested) tasks (validate_graph tasks)
