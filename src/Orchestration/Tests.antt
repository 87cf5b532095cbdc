-- ===== src/Orchestration/Tests.antt =====
-- Evaluations of packages/agent-orchestration/src/lib.rs and the theorems at concrete inputs.
use mundusx.Prelude.{
  ◌≡◌, ◌↔◌, refl, String, Option, none, some, List, [], ◌∷◌, Result, ok, err, push_str, length, All,
  distinct, contains, any, take, filter, all,
}
use mundusx.Prelude.Maps.{insert, values, get, remove}
use mundusx.Orchestration.{
  AgentTask, TaskResult, Message, run, validate_graph, max_parallel, check_dependencies, rounds,
  pending_of, round, ready_tasks, receive, sent, collect, inputs_of, remove_all,
}
use mundusx.Orchestration.Rounds.{Delivers}
use mundusx.Orchestration.Outcomes.{Ended, dependency_cycle, closed_channel}
use mundusx.Orchestration.Graph.{IsGraph, validate_graph-ok_iff}
use mundusx.Orchestration.Guarantees.{run-Ended}

abbrev review_tasks : List AgentTask
review_tasks =
    record { id = "inspect"; prompt = "inspect"; dependencies = [] }
    ∷ record { id = "test"; prompt = "test"; dependencies = [] }
    ∷ record { id = "review"; prompt = "review"; dependencies = "inspect" ∷ "test" ∷ [] }
    ∷ []

abbrev cycle : List AgentTask
cycle =
    record { id = "a"; prompt = ""; dependencies = "b" ∷ [] }
    ∷ record { id = "b"; prompt = ""; dependencies = "a" ∷ [] }
    ∷ []

abbrev outputs : List TaskResult → String
outputs [] = ""
outputs (r ∷ rs) = push_str ":" (push_str r.output (outputs rs))

abbrev answer : AgentTask → List TaskResult → Option (Result String String)
answer task inputs = some (ok (push_str task.prompt (outputs inputs)))

abbrev panic : AgentTask → List TaskResult → Option (Result String String)
panic task inputs = none

-- The second worker is quicker than the first.
abbrev overtaken : List Message → List Message
overtaken [] = []
overtaken (a ∷ []) = a ∷ []
overtaken (a ∷ b ∷ ms) = b ∷ a ∷ ms

overtaken-length : (ms : List Message) → length (overtaken ms) ≡ length ms
overtaken-length [] = refl
overtaken-length (a ∷ []) = refl
overtaken-length (a ∷ b ∷ ms) = refl

overtaken-All : (P : Message → Type 0) (ms : List Message) → All P ms → All P (overtaken ms)
overtaken-All P [] p = p
overtaken-All P (a ∷ []) p = p
overtaken-All P (a ∷ b ∷ ms) p = (p.1.0, (p.0, p.1.1))

overtaken_back : (P : Message → Type 0) (ms : List Message) → All P (overtaken ms) → All P ms
overtaken_back P [] p = p
overtaken_back P (a ∷ []) p = p
overtaken_back P (a ∷ b ∷ ms) p = (p.1.0, (p.0, p.1.1))

abbrev delivers : Delivers overtaken
delivers = record {
  same_length = overtaken-length;
  keeps = overtaken-All;
  keeps_back = overtaken_back;
}

executes_dependency_graph_and_preserves_declared_order :
    run answer overtaken 2 review_tasks
    ≡ some (
        ok (
          record { task_id = "inspect"; output = "inspect" }
          ∷ record { task_id = "test"; output = "test" }
          ∷ record { task_id = "review"; output = "review:inspect:test" }
          ∷ []))
unfolding run max_parallel validate_graph distinct contains check_dependencies any rounds pending_of
    insert round ready_tasks take filter values all receive sent collect inputs_of remove_all get
    remove
executes_dependency_graph_and_preserves_declared_order = refl

rejects_cycles : run answer overtaken 2 cycle ≡ some (err dependency_cycle)
unfolding run max_parallel validate_graph distinct contains check_dependencies any rounds pending_of
    insert round ready_tasks take filter values all receive sent collect inputs_of remove_all get
    remove
rejects_cycles = refl

reports_a_panic : run panic overtaken 2 review_tasks ≡ some (err closed_channel)
unfolding run max_parallel validate_graph distinct contains check_dependencies any rounds pending_of
    insert round ready_tasks take filter values all receive sent collect inputs_of remove_all get
    remove
reports_a_panic = refl

run-Ended_example : Ended answer review_tasks (run answer overtaken 2 review_tasks)
run-Ended_example = run-Ended answer overtaken 2 review_tasks delivers

validate_graph-ok_iff_example : (validate_graph review_tasks ≡ ok tt) ↔ IsGraph review_tasks
validate_graph-ok_iff_example = validate_graph-ok_iff review_tasks
