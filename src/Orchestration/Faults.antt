-- ===== src/Orchestration/Faults.antt =====
-- The errors of a round of `Orchestrator::run`, packages/agent-orchestration/src/lib.rs: where they come
-- from.
use mundusx.Prelude.{
  ℕ, zero, suc, ◌<◌, ◌≡◌, refl, sym, ap, subst, ◌∙◌, ◌⊎◌, inl, inr, String, Option, none, some,
  List, [], ◌∷◌, map, true, arith, Result, ok, err, length, All, In, Option-cases, is_some, all,
}
use mundusx.Prelude.Maps.{Map, get}
use mundusx.Orchestration.{
  AgentTask, TaskResult, OrchestrationError, Message, is_ready, inputs_of, receive, sent, sent_by,
}
use mundusx.Orchestration.Receive.{Sound}
use mundusx.Orchestration.Rounds.{Delivers}
use mundusx.Orchestration.Invariant.{Inv, Ready}
use mundusx.Orchestration.Outcomes.{Call, Fault, closed_channel}

-- The receives fail on the message of a failure, or on a channel with too few messages.
receive-err :
    (P : Message → Type 0) (n : ℕ) (ms : List Message) (later : Map TaskResult)
    (e : OrchestrationError)
    → All P ms
    → receive n ms later ≡ err e
    → ((id : String) × (message : String) × P (id, err message)
        × (e ≡ OrchestrationError.task_failed id message))
      ⊎ ((length ms < n) × (e ≡ closed_channel))
unfolding receive
receive-err P zero ms later e a h = cc
receive-err P (suc n) [] later e a h = inr (omega arith, cc)
receive-err P (suc n) ((k, ok output) ∷ ms) later e a h = elim (receive-err P n ms _ e a.1 h) [
  | inl failure ↦ inl failure
  | inr (few, p) ↦ inr (omega arith, p)
]
receive-err P (suc n) ((k, err message) ∷ ms) later e a h = inl (k, message, a.0, cc)

sent_lost :
    (execute : AgentTask → List TaskResult → Option (Result String String))
    (completed : Map TaskResult) (Q : AgentTask → Type 0) (ready : List AgentTask)
    → All Q ready
    → length (sent execute completed ready) < length ready
    → (t : AgentTask) × Q t × (execute t (inputs_of completed t.dependencies) ≡ none)
unfolding sent
sent_lost execute completed Q [] a lt = absurd (omega arith)
sent_lost execute completed Q (t ∷ ready) a lt =
    elim (Option-cases (execute t (inputs_of completed t.dependencies))) [
      | inl p ↦ (t, a.0, p)
      | inr (r, p) ↦ sent_lost execute completed Q ready a.1 (omega (arith, more r p))
    ]
  where
    more :
        (r : Result String String)
        → execute t (inputs_of completed t.dependencies) ≡ some r
        → length (sent execute completed ready) < length ready
    more r p =
        let l : length (sent_by t.id (some r) (sent execute completed ready)) < suc (length ready) =
          subst (λ x. length (sent_by t.id x (sent execute completed ready)) < suc (length ready)) p
            lt in
        omega arith

pub inputs_of-ids :
    (completed : Map TaskResult) (ids : List String)
    → ((id : String) (r : TaskResult) → get completed id ≡ some r → r.task_id ≡ id)
    → all (λ id. is_some (get completed id)) ids ≡ true
    → map (λ (r : TaskResult). r.task_id) (inputs_of completed ids) ≡ ids
unfolding inputs_of all
inputs_of-ids completed [] named h = refl
inputs_of-ids completed (id ∷ ids) named h = elim (Option-cases (get completed id)) [
  | inl p ↦ cc
  | inr (r, p) ↦ rw (p, named id r p, inputs_of-ids completed ids named (ground arith)) refl
]

module _ (execute : AgentTask → List TaskResult → Option (Result String String))
    (arrive : List Message → List Message) (tasks : List AgentTask) (pending : Map AgentTask)
    (completed : Map TaskResult) (i : Inv execute tasks pending completed) where
  named : (id : String) (r : TaskResult) → get completed id ≡ some r → r.task_id ≡ id
  named id r h = (i.justified id r h).0

  abbrev call_of :
      (t : AgentTask) (answer : Option (Result String String))
      → In t tasks
      → is_ready completed t ≡ true
      → execute t (inputs_of completed t.dependencies) ≡ answer
      → Call execute tasks answer
  call_of t answer within ready executed = record {
    task = t;
    of_tasks = within;
    inputs = inputs_of completed t.dependencies;
    given = inputs_of-ids completed t.dependencies named ready;
    executed = executed;
  }

  module _ (delivers : Delivers arrive) where
    pub receive-Fault :
        (ready : List AgentTask) (e : OrchestrationError)
        → All (Ready execute tasks pending completed) ready
        → All (Sound execute tasks completed) (arrive (sent execute completed ready))
        → receive (length ready) (arrive (sent execute completed ready)) completed ≡ err e
        → Fault execute tasks e
    receive-Fault ready e a s h =
        elim (receive-err (Sound execute tasks completed) (length ready) _ completed e s h) [
          | inl (id, message, sound, p) ↦
              let w = sound.1 in
              subst (Fault execute tasks)
                (ap (λ k. OrchestrationError.task_failed k message) w.same_id ∙ sym p)
                (Fault.failed message
                  (call_of w.task (some (err message)) w.of_tasks w.ready w.executed))
          | inr (few, p) ↦
              let lost =
                sent_lost execute completed _ ready a
                  (omega (arith, delivers.same_length (sent execute completed ready))) in
              subst (Fault execute tasks) (sym p)
                (Fault.panicked (call_of lost.0 none lost.1.0.0 lost.1.1 lost.2))
        ]
