-- ===== src/Orchestration/Outcomes.antt =====
-- What a run of the task orchestrator, packages/agent-orchestration/src/lib.rs, promises, without its
-- maps, rounds and channels.
use mundusx.Prelude.{
  ◌≡◌, String, Option, none, some, List, map, true, false, Result, ok, err, All, In, is_nil, any,
  contains,
}
use mundusx.Orchestration.{AgentTask, TaskResult, OrchestrationError, ids_of, validate_graph}

abbrev pub closed_channel : OrchestrationError
closed_channel =
    OrchestrationError.invalid_graph "worker channel closed: receiving on a closed channel"

abbrev pub dependency_cycle : OrchestrationError
dependency_cycle = OrchestrationError.invalid_graph "task graph contains a dependency cycle"

abbrev pub Given : AgentTask → List TaskResult → Type 0
Given task inputs = map (λ (r : TaskResult). r.task_id) inputs ≡ task.dependencies

-- A group of tasks of which each depends on another of the group.
pub record Stuck (tasks stuck : List AgentTask) : Type 0 where
  pub some_stuck : is_nil stuck ≡ false
  pub of_tasks : All (λ task. In task tasks) stuck
  pub depend : All (λ task. any (contains (ids_of stuck)) task.dependencies ≡ true) stuck

module _ (execute : AgentTask → List TaskResult → Option (Result String String))
    (tasks : List AgentTask) where
  -- A call of the executor: a task with the results of its dependencies, in their order.
  pub record Call (answer : Option (Result String String)) : Type 0 where
    pub task : AgentTask
    pub of_tasks : In task tasks
    pub inputs : List TaskResult
    pub given : Given task inputs
    pub executed : execute task inputs ≡ answer

  -- A result is the executor's output for its task on results that are returned as well.
  pub record Explained (results : List TaskResult) (r : TaskResult) : Type 0 where
    pub call : Call (some (ok r.output))
    pub same_id : call.task.id ≡ r.task_id
    pub inputs_returned : All (λ x. In x results) call.inputs

  pub data Fault : OrchestrationError → Type 0 where
    refused : (e : OrchestrationError) → validate_graph tasks ≡ err e → Fault e
    cyclic : (stuck : List AgentTask) → Stuck tasks stuck → Fault dependency_cycle
    panicked : Call none → Fault closed_channel
    failed :
        (message : String) (call : Call (some (err message)))
        → Fault (OrchestrationError.task_failed call.task.id message)

  -- The run returns, with the error of a fault or with one explained result for each task, in the
  -- order of the tasks.
  abbrev pub Ended : Option (Result OrchestrationError (List TaskResult)) → Type 0
  Ended none = ⊥
  Ended (some (err e)) = Fault e
  Ended (some (ok results)) =
      (map (λ (r : TaskResult). r.task_id) results ≡ ids_of tasks) × All (Explained results) results
