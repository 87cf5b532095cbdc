-- ===== src/Orchestration/Rounds.antt =====
-- The rounds of `Orchestrator::run` of packages/agent-orchestration/src/lib.rs: the invariant of the
-- pending tasks and the completed results, and the end of the loop.
use mundusx.Prelude.{
  suc, ◌≤◌, ◌≡◌, refl, String, Option, none, some, List, [], ◌∷◌, arith, Result, length, All,
}
use mundusx.Prelude.Maps.{Map}
use mundusx.Orchestration.{AgentTask, TaskResult, Message, inputs_of, sent, sent_by}

-- The channel delivers the messages that were sent, each once, in some order.
pub record Delivers (arrive : List Message → List Message) : Type 1 where
  pub same_length : (xs : List Message) → length (arrive xs) ≡ length xs
  pub keeps : (P : Message → Type 0) (xs : List Message) → All P xs → All P (arrive xs)
  pub keeps_back : (P : Message → Type 0) (xs : List Message) → All P (arrive xs) → All P xs

module _ (execute : AgentTask → List TaskResult → Option (Result String String))
    (completed : Map TaskResult) where
  sent_by-length-le :
      (id : String) (x : Option (Result String String)) (rest : List Message)
      → length (sent_by id x rest) ≤ suc (length rest)
  sent_by-length-le id none rest = omega arith
  sent_by-length-le id (some r) rest = omega arith

  pub sent-length-le :
      (ready : List AgentTask) → length (sent execute completed ready) ≤ length ready
  unfolding sent
  sent-length-le [] = omega arith
  sent-length-le (t ∷ ready) = omega (
    arith,
    sent-length-le ready,
    sent_by-length-le t.id (execute t (inputs_of completed t.dependencies))
        (sent execute completed ready),
  )

  -- With no panic there is a message of each ready task.
  pub sent_back :
      (P : String → Type 0) (ready : List AgentTask)
      → length ready ≤ length (sent execute completed ready)
      → All (λ (m : Message). P m.0) (sent execute completed ready)
      → All (λ t. P t.id) ready
  unfolding sent
  sent_back P [] le a = tt
  sent_back P (t ∷ ready) le a =
      go (execute t (inputs_of completed t.dependencies)) le a (sent_back P ready)
    where
      go :
          (x : Option (Result String String))
          → suc (length ready) ≤ length (sent_by t.id x (sent execute completed ready))
          → All (λ (m : Message). P m.0) (sent_by t.id x (sent execute completed ready))
          → (length ready ≤ length (sent execute completed ready)
              → All (λ (m : Message). P m.0) (sent execute completed ready)
              → All (λ u. P u.id) ready)
          → P t.id × All (λ u. P u.id) ready
      go none le' a' rest = absurd (omega (arith, sent-length-le ready))
      go (some r) le' a' rest = (a'.0, rest (omega arith) a'.1)

  -- Every message answers for a task of which `Q` holds.
  pub sent-All :
      (Q : AgentTask → Type 0) (R : Message → Type 0) (ready : List AgentTask)
      → ((t : AgentTask) (r : Result String String)
          → Q t
          → execute t (inputs_of completed t.dependencies) ≡ some r
          → R (t.id, r))
      → All Q ready
      → All R (sent execute completed ready)
  unfolding sent
  sent-All Q R [] f a = tt
  sent-All Q R (t ∷ ready) f a =
      go (execute t (inputs_of completed t.dependencies)) (λ r e. f t r a.0 e)
        (sent-All Q R ready f a.1)
    where
      go :
          (x : Option (Result String String))
          → ((r : Result String String) → x ≡ some r → R (t.id, r))
          → All R (sent execute completed ready)
          → All R (sent_by t.id x (sent execute completed ready))
      go none g rest = rest
      go (some r) g rest = (g r refl, rest)
