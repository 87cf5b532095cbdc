-- ===== src/Orchestration/Invariant.antt =====
-- The invariant of the `while` loop of `Orchestrator::run`, packages/agent-orchestration/src/lib.rs:
-- what holds of the pending tasks and of the completed results between two rounds.
use mundusx.Prelude.{
  all-map, ℕ, ◌≡◌, refl, ap, subst, inl, inr, String, Option, none, some, List, [], ◌∷◌, true, ◌||◌,
  arith, Result, All, All-map, All-both, All-take, All-filter, In, Bool-cases, Option-cases,
  is_some, str_eq, eq_iff, any, all,
}
use mundusx.Prelude.Maps.{Map, get, values}
use mundusx.Orchestration.{AgentTask, TaskResult, is_ready, ready_tasks, inputs_of}
use mundusx.Orchestration.Maps.{All-values, entries_found}
use mundusx.Orchestration.Receive.{Answers, Justified, Extends}

pub any-All :
    (P : String → Type 0) (ready : List AgentTask) (k : String)
    → any (λ t. str_eq t.id k) ready ≡ true
    → All (λ t. P t.id) ready
    → P k
unfolding any
any-All P [] k h a = cc
any-All P (t ∷ ready) k h a = elim (Bool-cases (str_eq t.id k)) [
  | inl hit ↦ subst P ((eq_iff t.id k).0 hit) a.0
  | inr miss ↦ any-All P ready k (ground arith) a.1
]

module _ (execute : AgentTask → List TaskResult → Option (Result String String))
    (tasks : List AgentTask) where
  module _ (completed final : Map TaskResult) (e : Extends execute tasks completed final) where
    pub found-kept :
        (id : String) → is_some (get completed id) ≡ true → is_some (get final id) ≡ true
    found-kept id h = elim (Option-cases (get completed id)) [
      | inl p ↦ cc
      | inr (r, p) ↦ rw (e.kept id r p) refl
    ]

    inputs_of-kept :
        (ids : List String)
        → all (λ id. is_some (get completed id)) ids ≡ true
        → inputs_of completed ids ≡ inputs_of final ids
    unfolding all inputs_of
    inputs_of-kept [] h = refl
    inputs_of-kept (id ∷ ids) h = elim (Option-cases (get completed id)) [
      | inl p ↦ cc
      | inr (r, p) ↦
          rw (p, e.kept id r p) (ap (λ rest. r ∷ rest) (inputs_of-kept ids (ground arith)))
    ]

    pub Answers-kept :
        (id : String) (answer : Result String String)
        → Answers execute tasks completed id answer
        → Answers execute tasks final id answer
    Answers-kept id answer a = record {
      task = a.task;
      of_tasks = a.of_tasks;
      same_id = a.same_id;
      ready = all-map _ _ a.task.dependencies found-kept a.ready;
      executed =
          subst (λ inputs. execute a.task inputs ≡ some answer)
            (inputs_of-kept a.task.dependencies a.ready) a.executed;
    }

  pub record Inv (pending : Map AgentTask) (completed : Map TaskResult) : Type 0 where
    pub waiting :
        All
          (λ (e : String × AgentTask). (e.0 ≡ e.1.id) × In e.1 tasks × (get completed e.0 ≡ none))
          pending
    pub justified :
        (id : String) (r : TaskResult)
        → get completed id ≡ some r
        → Justified execute tasks completed id r
    pub covered :
        All (λ t. (is_some (get pending t.id) || is_some (get completed t.id)) ≡ true) tasks

  abbrev pub Ready : Map AgentTask → Map TaskResult → AgentTask → Type 0
  Ready pending completed t =
      (In t tasks × (get completed t.id ≡ none) × (is_some (get pending t.id) ≡ true))
      × (is_ready completed t ≡ true)

  pub ready_tasks-Ready :
      (limit : ℕ) (pending : Map AgentTask) (completed : Map TaskResult)
      → Inv pending completed
      → All (Ready pending completed) (ready_tasks limit pending completed)
  unfolding ready_tasks
  ready_tasks-Ready limit pending completed i = All-take _ limit _ (
      All-filter _ (is_ready completed) (values pending) (
        All-values _ pending (
          All-map _ _ pending
            (λ e p. (
              p.0.1,
              subst (λ k. get completed k ≡ none) p.0.0 p.0.2,
              subst (λ k. is_some (get pending k) ≡ true) p.0.0 p.1,
            ))
            (All-both _ _ pending i.waiting (entries_found pending)))))
