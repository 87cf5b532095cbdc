-- ===== src/Orchestration/Guarantees.antt =====
-- What `Orchestrator::run`, packages/agent-orchestration/src/lib.rs, guarantees of every run.
use mundusx.Prelude.{
  All-within, ℕ, ◌≤◌, ◌≡◌, refl, ap, subst, inl, inr, String, Option, none, some, List, [], ◌∷◌,
  arith, Result, ok, err, length, All, All-map, In, Option-cases, Result-cases,
}
use mundusx.Prelude.Maps.{Map, get}
use mundusx.Orchestration.{
  AgentTask, TaskResult, OrchestrationError, Message, inputs_of, ids_of, collect, collected,
  validate_graph, pending_of, max_parallel, run,
}
use mundusx.Orchestration.Rounds.{Delivers}
use mundusx.Orchestration.Invariant.{Inv}
use mundusx.Orchestration.Outcomes.{Explained, Fault, Ended}
use mundusx.Orchestration.Faults.{inputs_of-ids}
use mundusx.Orchestration.Graph.{IsGraph, validate_graph-ok_iff}
use mundusx.Orchestration.Collect.{collected-ids, collected-In}
use mundusx.Orchestration.Loop.{Done, rounds-Done, first-Inv}

-- The lists of the ids of tasks.
ids_of-All :
    (P : String → Type 0) (ts : List AgentTask)
    → All (λ (t : AgentTask). P t.id) ts
    → All P (ids_of ts)
ids_of-All P [] a = tt
ids_of-All P (t ∷ ts) a = (a.0, ids_of-All P ts a.1)

ids_of-In : (ts : List AgentTask) (t : AgentTask) → In t ts → In t.id (ids_of ts)
ids_of-In [] t i = i
ids_of-In (u ∷ ts) t (inl p) = inl (ap (λ x. x.id) p)
ids_of-In (u ∷ ts) t (inr i) = inr (ids_of-In ts t i)

-- Each input is found under the id of its task.
inputs_of-All :
    (P : TaskResult → Type 0) (completed : Map TaskResult) (ids : List String)
    → ((id : String) (r : TaskResult) → get completed id ≡ some r → P r)
    → All P (inputs_of completed ids)
unfolding inputs_of
inputs_of-All P completed [] f = tt
inputs_of-All P completed (id ∷ ids) f = elim (Option-cases (get completed id)) [
  | inl p ↦ rw p (inputs_of-All P completed ids f)
  | inr (r, p) ↦ rw p (f id r p, inputs_of-All P completed ids f)
]

module _ (execute : AgentTask → List TaskResult → Option (Result String String))
    (tasks : List AgentTask) (g : IsGraph tasks) (final : Map TaskResult)
    (i : Inv execute tasks [] final) where
  named : (id : String) (r : TaskResult) → get final id ≡ some r → r.task_id ≡ id
  named id r h = (i.justified id r h).0

  returned :
      (id : String) (r : TaskResult) → get final id ≡ some r → In r (collect (ids_of tasks) final)
  returned id r h =
      let w = (i.justified id r h).1 in
      collected-In final named (ids_of tasks) final id r g.unique
        (All-map _ _ (ids_of tasks) (λ k u. refl) (All-within (ids_of tasks)))
        (subst (λ k. In k (ids_of tasks)) w.same_id (ids_of-In tasks w.task w.of_tasks)) h

  explained :
      (r : TaskResult)
      → get final r.task_id ≡ some r
      → Explained execute tasks (collect (ids_of tasks) final) r
  explained r h =
      let w = (i.justified r.task_id r h).1 in
      record {
        call = record {
          task = w.task;
          of_tasks = w.of_tasks;
          inputs = inputs_of final w.task.dependencies;
          given = inputs_of-ids final w.task.dependencies named w.ready;
          executed = w.executed;
        };
        same_id = w.same_id;
        inputs_returned = inputs_of-All _ final w.task.dependencies returned;
      }

  collect-Ended : Ended execute tasks (some (ok (collect (ids_of tasks) final)))
  unfolding get
  collect-Ended =
      let c =
        collected-ids final named (ids_of tasks) final g.unique
          (All-map _ _ (ids_of tasks) (λ k u. refl) (All-within (ids_of tasks)))
          (ids_of-All _ tasks (All-map _ _ tasks (λ t h. h) i.covered)) in
      (c.0, All-map _ _ (collect (ids_of tasks) final) explained c.1)

max_parallel-positive : (requested : ℕ) → 1 ≤ max_parallel requested
unfolding max_parallel
max_parallel-positive requested = ground arith

module _ (execute : AgentTask → List TaskResult → Option (Result String String))
    (arrive : List Message → List Message) where
  collected-Ended :
      (tasks : List AgentTask) (o : Option (Result OrchestrationError (Map TaskResult)))
      → IsGraph tasks
      → Done execute arrive tasks o
      → Ended execute tasks (collected execute arrive tasks o)
  collected-Ended tasks none g d = d
  collected-Ended tasks (some (err e)) g d = d
  collected-Ended tasks (some (ok final)) g d = collect-Ended execute tasks g final d

  -- Whatever the executor answers and in whatever order the channel delivers the messages, a run
  -- returns. It returns one result for each task, in the order of the tasks, each of them the
  -- executor's output for the task of that id on results that are returned as well, with the
  -- dependencies of the task as their ids; or an error: that of the validation, that of a cycle, for
  -- tasks of which each depends on another of them, that of a closed channel, after a panic of the
  -- executor on a task with the results of its dependencies, or the executor's failure on such a call.
  pub run-Ended :
      (requested : ℕ) (tasks : List AgentTask)
      → Delivers arrive
      → Ended execute tasks (run execute arrive requested tasks)
  unfolding run
  run-Ended requested tasks delivers = elim (Result-cases (validate_graph tasks)) [
    | inl (e, p) ↦ rw p (Fault.refused e p)
    | inr (u, p) ↦ rw p (
        let g = (validate_graph-ok_iff tasks).0 p in
        collected-Ended tasks _ g (
          rounds-Done execute arrive tasks delivers g.known (max_parallel requested)
            (max_parallel-positive requested) (length (pending_of tasks [])) (pending_of tasks [])
            [] (first-Inv execute tasks) (omega arith)))
  ]
