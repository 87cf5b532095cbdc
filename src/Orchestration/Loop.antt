-- ===== src/Orchestration/Loop.antt =====
-- The `while` loop of `Orchestrator::run`, packages/agent-orchestration/src/lib.rs, from its first
-- state to its end.
use mundusx.Prelude.{
  All-within, ℕ, zero, suc, ◌≤◌, ◌<◌, ◌≡◌, refl, inl, inr, String, Option, none, some, List, [],
  ◌∷◌, true, false, ◌||◌, arith, Result, ok, err, length, All, All-map, is_some, is_nil,
  if◌then◌else◌, Result-cases,
}
use Prim.Native.Nat.{Ordering}
use Prim.Native.String.{compare}
use text.Mathlib.TextPositions.{eq_refl}
use mundusx.Prelude.Maps.{Map, get, insert, place, remove, get-insert}
use mundusx.Orchestration.{
  AgentTask, TaskResult, OrchestrationError, Message, remove_all, ready_tasks, receive, sent, round,
  rounds, next_round, pending_of,
}
use mundusx.Orchestration.Maps.{length-remove-lt, length-remove_all-le}
use mundusx.Orchestration.Rounds.{Delivers}
use mundusx.Orchestration.Invariant.{Inv, Ready, ready_tasks-Ready}
use mundusx.Orchestration.Steps.{messages-Sound, received-Inv}
use mundusx.Orchestration.Outcomes.{Fault, dependency_cycle}
use mundusx.Orchestration.Faults.{receive-Fault}
use mundusx.Orchestration.Cycles.{Known, none_ready-Stuck}

module _ (execute : AgentTask → List TaskResult → Option (Result String String))
    (arrive : List Message → List Message) (tasks : List AgentTask) where
  -- What is known when the loop has ended.
  abbrev pub Done : Option (Result OrchestrationError (Map TaskResult)) → Type 0
  Done none = ⊥
  Done (some (err e)) = Fault execute tasks e
  Done (some (ok final)) = Inv execute tasks [] final

  shrinks :
      (pending : Map AgentTask) (completed : Map TaskResult) (ready : List AgentTask)
      → All (Ready execute tasks pending completed) ready
      → is_nil ready ≡ false
      → length (remove_all pending ready) < length pending
  unfolding remove_all
  shrinks pending completed [] a h = cc
  shrinks pending completed (t ∷ ready) a h = omega (
    arith,
    length-remove-lt pending t.id a.0.0.2,
    length-remove_all-le (remove pending t.id) ready,
  )

  module _ (delivers : Delivers arrive) (known : Known tasks) (limit : ℕ)
      (positive : 1 ≤ limit) where
    round_next :
        (rest : Map AgentTask
          → Map TaskResult
          → Option (Result OrchestrationError (Map TaskResult)))
        (fuel : ℕ) (pending : Map AgentTask) (completed : Map TaskResult) (ready : List AgentTask)
        → Inv execute tasks pending completed
        → All (Ready execute tasks pending completed) ready
        → (is_nil ready ≡ true → Fault execute tasks dependency_cycle)
        → length pending ≤ suc fuel
        → ((left : Map AgentTask) (final : Map TaskResult)
            → Inv execute tasks left final
            → length left ≤ fuel
            → Done (rest left final))
        → Done (
            next_round execute arrive rest (remove_all pending ready) (
              if is_nil ready
              then err dependency_cycle
              else receive (length ready) (arrive (sent execute completed ready)) completed))
    round_next rest fuel pending completed [] i a stuck le f = stuck refl
    round_next rest fuel pending completed (t ∷ ready) i a stuck le f =
        elim (Result-cases
          (receive (length (t ∷ ready)) (arrive (sent execute completed (t ∷ ready))) completed)) [
            | inl (e, p) ↦ rw p (
                receive-Fault execute arrive tasks pending completed i delivers (t ∷ ready) e a
                  (messages-Sound execute arrive tasks delivers pending completed (t ∷ ready) a) p)
            | inr (final, p) ↦ rw p (
                f (remove_all pending (t ∷ ready)) final
                  (received-Inv execute arrive tasks delivers pending completed final (t ∷ ready) i
                    a p)
                  (omega (arith, shrinks pending completed (t ∷ ready) a refl)))
          ]

    -- The loop ends when its fuel is at least the number of the pending tasks.
    pub rounds-Done :
        (fuel : ℕ) (pending : Map AgentTask) (completed : Map TaskResult)
        → Inv execute tasks pending completed
        → length pending ≤ fuel
        → Done (rounds execute arrive fuel limit pending completed)
    unfolding rounds round
    rounds-Done fuel [] completed i le = i
    rounds-Done zero (e ∷ pending) completed i le = absurd (omega arith)
    rounds-Done (suc fuel) (e ∷ pending) completed i le =
        round_next (rounds execute arrive fuel limit) fuel (e ∷ pending) completed
          (ready_tasks limit (e ∷ pending) completed) i
          (ready_tasks-Ready execute tasks limit (e ∷ pending) completed i)
          (λ h.
            Fault.cyclic _ (
              none_ready-Stuck execute tasks known limit (e ∷ pending) completed i positive refl h))
          le (λ left final j l. rounds-Done fuel left final j l)

-- The first state.
All-insert :
    {A : Type 0} (P : String × A → Type 0) (m : Map A) (k : String) (a : A)
    → P (k, a)
    → All P m
    → All P (insert m k a)
unfolding insert
All-insert P [] k a p q = (p, tt)
All-insert P (e ∷ m) k a p q = go (compare k e.0) (All-insert P m k a p q.1)
  where
    go : (o : Ordering) → All P (insert m k a) → All P (place o k a e m (insert m k a))
    go Ordering.lt rest = (p, q)
    go Ordering.eq rest = (p, q.1)
    go Ordering.gt rest = (q.0, rest)

pending_of-All :
    (P : String × AgentTask → Type 0) (ts : List AgentTask) (m : Map AgentTask)
    → All (λ (t : AgentTask). P (t.id, t)) ts
    → All P m
    → All P (pending_of ts m)
unfolding pending_of
pending_of-All P [] m a b = b
pending_of-All P (t ∷ ts) m a b = pending_of-All P ts _ a.1 (All-insert P m t.id t a.0 b)

pending_of-keeps :
    (ts : List AgentTask) (m : Map AgentTask) (k : String)
    → is_some (get m k) ≡ true
    → is_some (get (pending_of ts m) k) ≡ true
unfolding pending_of
pending_of-keeps [] m k h = h
pending_of-keeps (t ∷ ts) m k h =
    pending_of-keeps ts (insert m t.id t) k (ground (arith, get-insert m t.id k t))

pending_of-covers :
    (ts : List AgentTask) (m : Map AgentTask)
    → All (λ (t : AgentTask). is_some (get (pending_of ts m) t.id) || false ≡ true) ts
unfolding pending_of
pending_of-covers [] m = tt
pending_of-covers (t ∷ ts) m = (
  let kept =
        pending_of-keeps ts (insert m t.id t) t.id
          (ground (arith, get-insert m t.id t.id t, eq_refl t.id)) in
      ground arith,
  pending_of-covers ts (insert m t.id t),
)

pub first-Inv :
    (execute : AgentTask → List TaskResult → Option (Result String String)) (tasks : List AgentTask)
    → Inv execute tasks (pending_of tasks []) []
unfolding get
first-Inv execute tasks = record {
  waiting =
      pending_of-All _ tasks [] (All-map _ _ tasks (λ t i. (refl, i, refl)) (All-within tasks)) tt;
  justified = λ id r h. cc;
  covered = pending_of-covers tasks [];
}
