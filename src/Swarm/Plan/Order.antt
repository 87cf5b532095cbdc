-- ===== src/Swarm/Plan/Order.antt =====
-- The search for a dependency cycle of `validate_plan`, apps/cli/src/project_swarm.rs: it ends, and
-- what it completes is an order of the tasks.
use mundusx.Prelude.{
  ℕ, zero, suc, ◌+◌, ◌≤◌, ◌<◌, ◌≡◌, refl, inl, inr, String, List, [], ◌∷◌, Option, none, some, true,
  false, arith, Result, ok, err, All, In, length, contains, all, Bool-cases, ltb, ◌==◌,
  if◌then◌else◌,
}
use text.Mathlib.TextPositions.{eq_refl}
use mundusx.Swarm.Plan.{CodingTask, complete, pass, passes}

-- The ids of tasks, the last first, each after all the dependencies of its task.
abbrev pub IsOrder : List CodingTask → List String → Type 0
IsOrder tasks [] = Unit
IsOrder tasks (id ∷ earlier) =
    ((task : CodingTask) × In task tasks
      × (task.id ≡ id)
      × (all (contains earlier) task.depends_on ≡ true))
    × IsOrder tasks earlier

-- How many tasks are completed.
unfoldable pub completed_tasks : List CodingTask → List String → ℕ
completed_tasks [] completed = 0
completed_tasks (t ∷ tasks) completed =
    let rest = completed_tasks tasks completed in if contains completed t.id then suc rest else rest

pub completed_tasks-le :
    (tasks : List CodingTask) (completed : List String)
    → completed_tasks tasks completed ≤ length tasks
unfolding completed_tasks
completed_tasks-le [] completed = omega arith
completed_tasks-le (t ∷ tasks) completed = ground (arith, completed_tasks-le tasks completed)

completed_tasks-add :
    (tasks : List CodingTask) (completed : List String) (id : String)
    → completed_tasks tasks completed ≤ completed_tasks tasks (id ∷ completed)
unfolding completed_tasks contains
completed_tasks-add [] completed id = omega arith
completed_tasks-add (t ∷ tasks) completed id =
    ground (arith, completed_tasks-add tasks completed id)

completed_tasks-new :
    (tasks : List CodingTask) (completed : List String) (task : CodingTask)
    → In task tasks
    → contains completed task.id ≡ false
    → completed_tasks tasks completed < completed_tasks tasks (task.id ∷ completed)
unfolding completed_tasks contains
completed_tasks-new [] completed task i h = absurd i
completed_tasks-new (t ∷ tasks) completed task (inl p) h =
    rw p (ground (arith, completed_tasks-add tasks completed t.id, eq_refl t.id))
completed_tasks-new (t ∷ tasks) completed task (inr i) h =
    ground (arith, completed_tasks-new tasks completed task i h)

-- When as many are completed as there are tasks, all are.
completed_tasks-All :
    (tasks : List CodingTask) (completed : List String)
    → length tasks ≤ completed_tasks tasks completed
    → All (λ t. contains completed t.id ≡ true) tasks
unfolding completed_tasks
completed_tasks-All [] completed le = tt
completed_tasks-All (t ∷ tasks) completed le = elim (Bool-cases (contains completed t.id)) [
  | inl hit ↦ (hit, completed_tasks-All tasks completed (ground arith))
  | inr miss ↦ absurd (ground (arith, completed_tasks-le tasks completed))
]

-- What holds of the completed ids between two passes.
pub record Progress (tasks : List CodingTask) (completed : List String) : Type 0 where
  pub ordered : IsOrder tasks completed
  pub counted : length completed ≤ completed_tasks tasks completed

module _ (tasks : List CodingTask) where
  complete-Progress :
      (task : CodingTask) (completed : List String)
      → In task tasks
      → all (contains completed) task.depends_on ≡ true
      → Progress tasks completed
      → Progress tasks (complete task.id completed)
  complete-Progress task completed i ready p = elim (Bool-cases (contains completed task.id)) [
    | inl hit ↦ rw hit p
    | inr miss ↦ rw miss (record {
      ordered = ((task, i, refl, ready), p.ordered);
      counted =
          let new = completed_tasks-new tasks completed task i miss in
          let c = p.counted in omega arith;
    })
  ]

  pub pass-Progress :
      (ts : List CodingTask) (completed : List String)
      → All (λ t. In t tasks) ts
      → Progress tasks completed
      → Progress tasks (pass ts completed)
  unfolding pass
  pass-Progress [] completed a p = p
  pass-Progress (t ∷ ts) completed a p = elim (Bool-cases (all (contains completed) t.depends_on)) [
    | inl ready ↦ rw ready (pass-Progress ts _ a.1 (complete-Progress t completed a.0 ready p))
    | inr waiting ↦ rw waiting (pass-Progress ts completed a.1 p)
  ]

pub complete-length-le :
    (id : String) (completed : List String) → length completed ≤ length (complete id completed)
complete-length-le id completed = ground arith

pub pass-length-le :
    (ts : List CodingTask) (completed : List String) → length completed ≤ length (pass ts completed)
unfolding pass
pass-length-le [] completed = omega arith
pass-length-le (t ∷ ts) completed = ground (
  arith,
  pass-length-le ts (complete t.id completed),
  pass-length-le ts completed,
  complete-length-le t.id completed,
)

-- What the search tells: an order of all the tasks.
pub record Scheduled (tasks : List CodingTask) : Type 0 where
  pub order : List String
  pub ordered : IsOrder tasks order
  pub all_in : All (λ t. contains order t.id ≡ true) tasks

abbrev pub Searched : List CodingTask → Option (Result String (Unit {0})) → Type 0
Searched tasks none = ⊥
Searched tasks (some (err e)) = Unit
Searched tasks (some (ok u)) = Scheduled tasks

pub passes-Searched :
    (fuel : ℕ) (tasks : List CodingTask) (completed : List String)
    → All (λ t. In t tasks) tasks
    → Progress tasks completed
    → length tasks < fuel + length completed
    → Searched tasks (passes fuel tasks completed)
unfolding passes
passes-Searched zero tasks completed a p lt =
    absurd (omega (arith, completed_tasks-le tasks completed, p.counted))
passes-Searched (suc fuel) tasks completed a p lt =
    elim (Bool-cases (ltb (length completed) (length tasks))) [
      | inr done ↦ rw done (record {
        order = completed;
        ordered = p.ordered;
        all_in = completed_tasks-All tasks completed (let c = p.counted in ground arith);
      })
      | inl more ↦ elim (Bool-cases (length (pass tasks completed) == length completed)) [
        | inl stuck ↦ rw (more, stuck) tt
        | inr grown ↦
            rw (more, grown)
              (passes-Searched fuel tasks (pass tasks completed) a
                (pass-Progress tasks tasks completed a p)
                (let le = pass-length-le tasks completed in ground arith))
      ]
    ]
