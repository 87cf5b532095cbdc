-- ===== src/Orchestration/Receive.antt =====
-- The receives of a round of packages/agent-orchestration/src/lib.rs: what they do to the completed
-- results.
use text.Mathlib.TextPositions.{eq_refl}
use mundusx.Prelude.{
  ℕ, zero, suc, ◌≤◌, ◌≡◌, refl, subst, ◌⊎◌, inl, inr, String, Option, none, some, List, [], ◌∷◌,
  true, false, arith, Result, ok, err, length, All, In, Bool-cases, is_some, str_eq, eq_iff,
}
use mundusx.Prelude.Maps.{Map, get, insert, get-insert}
use mundusx.Orchestration.{AgentTask, TaskResult, Message, is_ready, inputs_of, receive}

-- A task of another id is as it was.
pub receive-other :
    (n : ℕ) (ms : List Message) (later final : Map TaskResult) (id : String)
    → All (λ (m : Message). str_eq m.0 id ≡ false) ms
    → receive n ms later ≡ ok final
    → get later id ≡ none
    → get final id ≡ none
unfolding receive
receive-other zero ms later final id a h g = ground arith
receive-other (suc n) [] later final id a h g = cc
receive-other (suc n) ((k, ok output) ∷ ms) later final id a h g =
    receive-other n ms _ final id a.1 h
      (ground (arith, get-insert later k id (record { task_id = k; output = output }), a.0))
receive-other (suc n) ((k, err message) ∷ ms) later final id a h g = cc

pub receive-keeps :
    (n : ℕ) (ms : List Message) (later final : Map TaskResult) (id : String)
    → receive n ms later ≡ ok final
    → is_some (get later id) ≡ true
    → is_some (get final id) ≡ true
unfolding receive
receive-keeps zero ms later final id h g = ground arith
receive-keeps (suc n) [] later final id h g = cc
receive-keeps (suc n) ((k, ok output) ∷ ms) later final id h g =
    receive-keeps n ms _ final id h
      (ground (arith, get-insert later k id (record { task_id = k; output = output })))
receive-keeps (suc n) ((k, err message) ∷ ms) later final id h g = cc

-- As many receives as there are messages at least complete the task of each message.
pub receive_complete :
    (n : ℕ) (ms : List Message) (later final : Map TaskResult)
    → receive n ms later ≡ ok final
    → length ms ≤ n
    → All (λ (m : Message). is_some (get final m.0) ≡ true) ms
unfolding receive
receive_complete n [] later final h le = tt
receive_complete zero (m ∷ ms) later final h le = absurd (omega arith)
receive_complete (suc n) ((k, ok output) ∷ ms) later final h le = (
  receive-keeps n ms _ final k h
      (ground (arith, get-insert later k k (record { task_id = k; output = output }), eq_refl k)),
  receive_complete n ms _ final h (omega arith),
)
receive_complete (suc n) ((k, err message) ∷ ms) later final h le = cc

pub receive-length :
    (n : ℕ) (ms : List Message) (later final : Map TaskResult)
    → receive n ms later ≡ ok final
    → n ≤ length ms
unfolding receive
receive-length zero ms later final h = omega arith
receive-length (suc n) [] later final h = cc
receive-length (suc n) ((k, ok output) ∷ ms) later final h =
    omega (arith, receive-length n ms _ final h)
receive-length (suc n) ((k, err message) ∷ ms) later final h = cc

module _ (execute : AgentTask → List TaskResult → Option (Result String String))
    (tasks : List AgentTask) where
  -- The result `output` under `id` is what the executor answered for the task of that id, on the
  -- results of its dependencies, which are all there.
  pub record Answers (completed : Map TaskResult) (id : String) (answer : Result String String)
      : Type 0 where
    pub task : AgentTask
    pub of_tasks : In task tasks
    pub same_id : task.id ≡ id
    pub ready : is_ready completed task ≡ true
    pub executed : execute task (inputs_of completed task.dependencies) ≡ some answer

  abbrev pub Justified : Map TaskResult → String → TaskResult → Type 0
  Justified completed id r = (r.task_id ≡ id) × Answers completed id (ok r.output)

  -- `later` has the results of `completed`, and others that were justified by those.
  pub record Extends (completed later : Map TaskResult) : Type 0 where
    pub kept : (id : String) (r : TaskResult) → get completed id ≡ some r → get later id ≡ some r
    pub added :
        (id : String) (r : TaskResult)
        → get later id ≡ some r
        → (get completed id ≡ some r) ⊎ Justified completed id r

  abbrev pub Sound : Map TaskResult → Message → Type 0
  Sound completed m = (get completed m.0 ≡ none) × Answers completed m.0 m.1

  new_result :
      (completed later : Map TaskResult) (id j output : String) (r : TaskResult)
      → Sound completed (id, ok output)
      → str_eq id j ≡ true
      → get (insert later id (record { task_id = id; output = output })) j ≡ some r
      → Justified completed j r
  new_result completed later id j output r s hit h =
      let result : TaskResult = record { task_id = id; output = output } in
      let same : result ≡ r = ground (arith, get-insert later id j result) in
      subst (Justified completed j) same
        (subst (λ k. Justified completed k result) ((eq_iff id j).0 hit) (refl, s.1))

  insert-Extends :
      (completed later : Map TaskResult) (id output : String)
      → Sound completed (id, ok output)
      → Extends completed later
      → Extends completed (insert later id (record { task_id = id; output = output }))
  insert-Extends completed later id output s e = record {
    kept = λ j r h. ground (
      arith,
      get-insert later id j (record { task_id = id; output = output }),
      e.kept j r h,
      eq_iff id j,
      s.0,
    );
    added = λ j r h. elim (Bool-cases (str_eq id j)) [
      | inl hit ↦ inr (new_result completed later id j output r s hit h)
      | inr miss ↦
          e.added j r
            (ground (arith, get-insert later id j (record { task_id = id; output = output })))
    ];
  }

  pub receive-Extends :
      (n : ℕ) (ms : List Message) (completed later final : Map TaskResult)
      → All (Sound completed) ms
      → Extends completed later
      → receive n ms later ≡ ok final
      → Extends completed final
  unfolding receive
  receive-Extends zero ms completed later final a e h =
      let same : later ≡ final = cc in subst (Extends completed) same e
  receive-Extends (suc n) [] completed later final a e h = cc
  receive-Extends (suc n) ((id, ok output) ∷ ms) completed later final a e h =
      receive-Extends n ms completed _ final a.1 (insert-Extends completed later id output a.0 e) h
  receive-Extends (suc n) ((id, err message) ∷ ms) completed later final a e h = cc
