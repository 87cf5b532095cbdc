-- ===== src/Swarm/Plan/Search.antt =====
-- The search for a dependency cycle of `validate_plan`, apps/cli/src/project_swarm.rs: it succeeds
-- when the tasks have an order.
use mundusx.Prelude.{
  Unique, all-map, All-In, contained, ℕ, zero, suc, ◌+◌, ◌≤◌, ◌<◌, ◌≡◌, refl, inl, inr, String,
  List, [], ◌∷◌, some, true, false, arith, ok, All, All-map, length, contains, all, str_eq, eq_iff,
  Bool-cases, ltb, ◌==◌, subst, sym,
}
use mundusx.Swarm.Plan.{CodingTask, pass, passes, ids_of}
use mundusx.Swarm.Plan.Order.{IsOrder, completed_tasks, pass-length-le, Scheduled}

completed_tasks-none : (tasks : List CodingTask) → completed_tasks tasks [] ≡ 0
unfolding completed_tasks contains
completed_tasks-none [] = refl
completed_tasks-none (t ∷ tasks) = completed_tasks-none tasks

completed_tasks-absent :
    (tasks : List CodingTask) (completed : List String) (id : String)
    → contains (ids_of tasks) id ≡ false
    → completed_tasks tasks (id ∷ completed) ≡ completed_tasks tasks completed
unfolding completed_tasks contains
completed_tasks-absent [] completed id h = refl
completed_tasks-absent (t ∷ tasks) completed id h =
    ground (arith, completed_tasks-absent tasks completed id, eq_iff t.id id, eq_iff id t.id)

completed_tasks-one_more :
    (tasks : List CodingTask) (completed : List String) (id : String)
    → Unique (ids_of tasks)
    → completed_tasks tasks (id ∷ completed) ≤ suc (completed_tasks tasks completed)
unfolding completed_tasks contains
completed_tasks-one_more [] completed id u = omega arith
completed_tasks-one_more (t ∷ tasks) completed id u = elim (Bool-cases (str_eq id t.id)) [
  | inl hit ↦
      let same = completed_tasks-absent tasks completed t.id u.0 in
      subst
        (λ k.
          completed_tasks (t ∷ tasks) (k ∷ completed) ≤ suc (completed_tasks (t ∷ tasks) completed))
        (sym ((eq_iff id t.id).0 hit)) (ground arith)
  | inr miss ↦ ground (arith, completed_tasks-one_more tasks completed id u.1)
]

completed_tasks-length :
    (tasks : List CodingTask) (completed : List String)
    → Unique (ids_of tasks)
    → completed_tasks tasks completed ≤ length completed
completed_tasks-length tasks [] u = omega (arith, completed_tasks-none tasks)
completed_tasks-length tasks (id ∷ completed) u =
    omega (
      arith,
      completed_tasks-one_more tasks completed id u,
      completed_tasks-length tasks completed u,
    )

-- A pass that completes nothing has found no task that waits and is ready.
pass-stuck :
    (ts : List CodingTask) (completed : List String)
    → length (pass ts completed) ≤ length completed
    → All (λ t. all (contains completed) t.depends_on ≡ true → contains completed t.id ≡ true) ts
unfolding pass
pass-stuck [] completed le = tt
pass-stuck (t ∷ ts) completed le = elim (Bool-cases (all (contains completed) t.depends_on)) [
  | inl ready ↦ elim (Bool-cases (contains completed t.id)) [
    | inl hit ↦ ((λ r. hit), pass-stuck ts completed (ground arith))
    | inr miss ↦ absurd (ground (arith, pass-length-le ts (t.id ∷ completed)))
  ]
  | inr waiting ↦ ((λ r. cc), pass-stuck ts completed (ground arith))
]

completed_tasks-full :
    (tasks : List CodingTask) (completed : List String)
    → All (λ t. contains completed t.id ≡ true) tasks
    → length tasks ≤ completed_tasks tasks completed
unfolding completed_tasks
completed_tasks-full [] completed a = omega arith
completed_tasks-full (t ∷ tasks) completed a =
    rw a.0 (omega (arith, completed_tasks-full tasks completed a.1))

module _ (tasks : List CodingTask) (completed : List String)
    (closed : All
      (λ t. all (contains completed) t.depends_on ≡ true → contains completed t.id ≡ true)
      tasks) where
  order-covered :
      (order : List String) → IsOrder tasks order → All (λ id. contains completed id ≡ true) order
  order-covered [] o = tt
  order-covered (id ∷ earlier) ((task, within, same_id, ready), o) =
      let a = order-covered earlier o in
      (
        subst (λ k. contains completed k ≡ true) same_id
            (All-In
              (λ t. all (contains completed) t.depends_on ≡ true → contains completed t.id ≡ true)
              tasks task closed within
              (all-map (contains earlier) (contains completed) task.depends_on
                (λ d h. contained (λ k. contains completed k ≡ true) earlier d a h) ready)),
        a,
      )

  stuck-Done : Scheduled tasks → length tasks ≤ completed_tasks tasks completed
  stuck-Done s = completed_tasks-full tasks completed (
      All-map _ _ tasks
        (λ t h.
          contained (λ k. contains completed k ≡ true) s.order t.id
            (order-covered s.order s.ordered) h)
        s.all_in)

pub passes-accepts :
    (fuel : ℕ) (tasks : List CodingTask) (completed : List String)
    → Scheduled tasks
    → Unique (ids_of tasks)
    → length tasks < fuel + length completed
    → 1 ≤ fuel
    → passes fuel tasks completed ≡ some (ok tt)
unfolding passes
passes-accepts zero tasks completed s u lt one = absurd (omega arith)
passes-accepts (suc fuel) tasks completed s u lt one =
    elim (Bool-cases (ltb (length completed) (length tasks))) [
      | inr done ↦ rw done refl
      | inl more ↦ elim (Bool-cases (length (pass tasks completed) == length completed)) [
        | inl stuck ↦ absurd (
            ground (
              arith,
              stuck-Done tasks completed (pass-stuck tasks completed (ground arith)) s,
              completed_tasks-length tasks completed u,
            ))
        | inr grown ↦
            rw (more, grown)
              (passes-accepts fuel tasks (pass tasks completed) s u
                (let le = pass-length-le tasks completed in ground arith) (ground arith))
      ]
    ]
