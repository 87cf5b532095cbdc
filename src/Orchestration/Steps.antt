-- ===== src/Orchestration/Steps.antt =====
-- One round of `Orchestrator::run`, packages/agent-orchestration/src/lib.rs, keeps the invariant, and
-- the loop ends.
use mundusx.Prelude.{
  ◌≡◌, refl, inl, inr, String, Option, none, List, true, false, ◌||◌, arith, Result, ok, length,
  All, All-map, In, is_some, str_eq,
}
use mundusx.Prelude.Maps.{Map, get}
use mundusx.Orchestration.{AgentTask, TaskResult, Message, remove_all, receive, sent}
use mundusx.Orchestration.Maps.{str_eq-false_sym, All-remove_all, get-remove_all}
use mundusx.Orchestration.Receive.{
  Extends, Sound, receive-Extends, receive-other, receive_complete, receive-length,
}
use mundusx.Orchestration.Rounds.{Delivers, sent-length-le, sent_back, sent-All}
use mundusx.Orchestration.Invariant.{found-kept, Answers-kept, any-All, Inv, Ready}

module _ (execute : AgentTask → List TaskResult → Option (Result String String))
    (arrive : List Message → List Message) (tasks : List AgentTask) where
  module _ (delivers : Delivers arrive) (pending : Map AgentTask) (completed : Map TaskResult)
      (ready : List AgentTask) (all_ready : All (Ready execute tasks pending completed) ready) where
    pub messages-Sound : All (Sound execute tasks completed) (arrive (sent execute completed ready))
    messages-Sound = delivers.keeps _ _ (
        sent-All execute completed (Ready execute tasks pending completed) _ ready
          (λ t r q e. (
            q.0.1,
            record { task = t; of_tasks = q.0.0; same_id = refl; ready = q.1; executed = e },
          ))
          all_ready)

  module _ (delivers : Delivers arrive) (pending : Map AgentTask) (completed final : Map TaskResult)
      (ready : List AgentTask) (i : Inv execute tasks pending completed)
      (all_ready : All (Ready execute tasks pending completed) ready)
      (received : receive (length ready) (arrive (sent execute completed ready)) completed
        ≡ ok final) where
    round-Extends : Extends execute tasks completed final
    round-Extends =
        receive-Extends execute tasks (length ready) _ completed completed final
          (messages-Sound delivers pending completed ready all_ready)
          (record { kept = λ id r h. h; added = λ id r h. inl h }) received

    waiting_after :
        All
          (λ (e : String × AgentTask). (e.0 ≡ e.1.id) × In e.1 tasks × (get final e.0 ≡ none))
          (remove_all pending ready)
    waiting_after =
        All-map _ _ (remove_all pending ready)
          (λ e p. (
            p.0.0,
            p.0.1,
            receive-other (length ready) _ completed final e.0
                (delivers.keeps _ _ (
                  sent-All execute completed (λ t. str_eq e.0 t.id ≡ false) _ ready
                    (λ t r q x. str_eq-false_sym e.0 t.id q) p.1))
                received p.0.2,
          ))
          (All-remove_all _ pending ready i.waiting)

    ready_done : All (λ t. is_some (get final t.id) ≡ true) ready
    ready_done =
        sent_back execute completed (λ k. is_some (get final k) ≡ true) ready
          (omega (
            arith,
            receive-length (length ready) _ completed final received,
            delivers.same_length (sent execute completed ready),
          ))
          (delivers.keeps_back _ _ (
            receive_complete (length ready) _ completed final received (
              omega (
                arith,
                delivers.same_length (sent execute completed ready),
                sent-length-le execute completed ready,
              ))))

    covered_after :
        (t : AgentTask)
        → (is_some (get pending t.id) || is_some (get completed t.id)) ≡ true
        → (is_some (get (remove_all pending ready) t.id) || is_some (get final t.id)) ≡ true
    covered_after t h = elim (get-remove_all pending ready t.id) [
      | inl hit ↦
          ground (arith, any-All (λ k. is_some (get final k) ≡ true) ready t.id hit ready_done)
      | inr same ↦
          rw same (ground (arith, found-kept execute tasks completed final round-Extends t.id))
    ]

    pub received-Inv : Inv execute tasks (remove_all pending ready) final
    received-Inv = record {
      waiting = waiting_after;
      justified = λ id r h. elim (round-Extends.added id r h) [
        | inl old ↦
            let j = i.justified id r old in
            (j.0, Answers-kept execute tasks completed final round-Extends id (ok r.output) j.1)
        | inr j ↦
            (j.0, Answers-kept execute tasks completed final round-Extends id (ok r.output) j.1)
      ];
      covered = All-map _ _ tasks covered_after i.covered;
    }
