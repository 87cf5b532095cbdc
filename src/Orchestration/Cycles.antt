-- ===== src/Orchestration/Cycles.antt =====
-- The rounds of `Orchestrator::run`, packages/agent-orchestration/src/lib.rs, that find no ready task.
use mundusx.Prelude.{
  All-In, ℕ, zero, suc, ◌≤◌, ◌≡◌, refl, subst, inl, inr, String, Option, List, [], ◌∷◌, Bool, true,
  false, ◌||◌, arith, Result, All, All-map, All-both, Bool-cases, is_some, is_nil, str_eq, eq_iff,
  filter, take, any, all, contains, if◌then◌else◌,
}
use mundusx.Prelude.Maps.{Map, get, values}
use mundusx.Orchestration.{AgentTask, TaskResult, is_ready, ready_tasks, ids_of}
use mundusx.Orchestration.Maps.{All-values}
use mundusx.Orchestration.Invariant.{Inv}
use mundusx.Orchestration.Outcomes.{Stuck}

-- A round with no ready task.
filter_nil :
    {A : Type 0} (p : A → Bool) (n : ℕ) (xs : List A)
    → is_nil (take (suc n) (filter p xs)) ≡ true
    → All (λ x. p x ≡ false) xs
unfolding filter take
filter_nil p n [] h = tt
filter_nil p n (x ∷ xs) h = elim (Bool-cases (p x)) [
  | inl t ↦
      cc
        (subst (λ b. is_nil (take (suc n) (if b then x ∷ filter p xs else filter p xs)) ≡ true) t h)
  | inr f ↦ (
    f,
    filter_nil p n xs (
        subst (λ b. is_nil (take (suc n) (if b then x ∷ filter p xs else filter p xs)) ≡ true) f h),
  )
]

contains-values :
    (pending : Map AgentTask) (id : String)
    → All (λ (e : String × AgentTask). e.0 ≡ e.1.id) pending
    → is_some (get pending id) ≡ true
    → contains (ids_of (values pending)) id ≡ true
unfolding get values contains
contains-values [] id a h = cc
contains-values ((k, t) ∷ pending) id a h =
    subst (λ j. str_eq j id || contains (ids_of (values pending)) id ≡ true) a.0
      (ground (arith, contains-values pending id a.1))

is_nil-values : {A : Type 0} (m : Map A) → is_nil m ≡ false → is_nil (values m) ≡ false
unfolding values
is_nil-values [] h = cc
is_nil-values (e ∷ m) h = refl

-- Something that is not completed is pending.
not_all :
    (p q known : String → Bool) (ids : List String)
    → ((id : String) → known id ≡ true → p id ≡ false → q id ≡ true)
    → all known ids ≡ true
    → all p ids ≡ false
    → any q ids ≡ true
unfolding all any
not_all p q known [] f k h = cc
not_all p q known (id ∷ ids) f k h = ground (arith, f id, not_all p q known ids f)

contains-All :
    (P : String → Type 0) (tasks : List AgentTask) (id : String)
    → All (λ (t : AgentTask). P t.id) tasks
    → contains (ids_of tasks) id ≡ true
    → P id
unfolding contains
contains-All P [] id a h = cc
contains-All P (t ∷ tasks) id a h = elim (Bool-cases (str_eq t.id id)) [
  | inl hit ↦ subst P ((eq_iff t.id id).0 hit) a.0
  | inr miss ↦ contains-All P tasks id a.1 (ground arith)
]

-- Each dependency is the id of a task.
abbrev pub Known : List AgentTask → Type 0
Known tasks = All (λ t. all (contains (ids_of tasks)) t.dependencies ≡ true) tasks

module _ (execute : AgentTask → List TaskResult → Option (Result String String))
    (tasks : List AgentTask) (known : Known tasks) where
  pub none_ready-Stuck :
      (limit : ℕ) (pending : Map AgentTask) (completed : Map TaskResult)
      → Inv execute tasks pending completed
      → 1 ≤ limit
      → is_nil pending ≡ false
      → is_nil (ready_tasks limit pending completed) ≡ true
      → Stuck tasks (values pending)
  unfolding ready_tasks
  none_ready-Stuck zero pending completed i le some_left h = absurd (omega arith)
  none_ready-Stuck (suc n) pending completed i le some_left h = record {
    some_stuck = is_nil-values pending some_left;
    of_tasks = All-values _ pending (All-map _ _ pending (λ e p. p.1) i.waiting);
    depend =
        All-map _ _ (values pending)
          (λ t p.
            not_all _ _ (contains (ids_of tasks)) t.dependencies
              (λ id k u.
                contains-values pending id (All-map _ _ pending (λ e q. q.0) i.waiting)
                  (still_pending id k u))
              (All-In _ tasks t known p.0) p.1)
          (All-both _ _ (values pending)
            (All-values _ pending (All-map _ _ pending (λ e p. p.1) i.waiting))
            (filter_nil (is_ready completed) n (values pending) h));
  }
    where
      still_pending :
          (id : String)
          → contains (ids_of tasks) id ≡ true
          → is_some (get completed id) ≡ false
          → is_some (get pending id) ≡ true
      still_pending id k u =
          let c =
            contains-All (λ j. is_some (get pending j) || is_some (get completed j) ≡ true) tasks id
              i.covered k in
          ground arith
