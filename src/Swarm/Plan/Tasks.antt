-- ===== src/Swarm/Plan/Tasks.antt =====
-- The checks of `validate_plan` on each task, apps/cli/src/project_swarm.rs: what they accept.
use mundusx.Prelude.{
  true, ◌↔◌, false, All, contains, distinct, contains-distinct, is_blank, is_nil, str_eq, ◌≡◌, refl,
  sym, ap, subst, ◌∙◌, inl, inr, String, List, [], ◌∷◌, ◌++◌, false, arith, ok, Result-cases, any,
  Bool-cases,
}
use mathlib.Core.List.{append_assoc, append-nil}
use mundusx.Swarm.Paths.{valid_id}
use mundusx.Swarm.Plan.{
  CodingTask, Owner, claim_paths, and_then, check_task, check_tasks, is_incomplete,
  is_bad_dependency,
}
use mundusx.Swarm.Plan.Owners.{
  Disjoint, Disjoint-start, Owns, Adds, claim_paths-ok, claim_paths-accepts,
}

-- A task with a valid id, an objective and paths, which depends on other tasks only.
pub record IsComplete (ids : List String) (t : CodingTask) : Type 0 where
  pub id_valid : valid_id t.id ≡ true
  pub has_objective : is_blank t.objective ≡ false
  pub has_paths : is_nil t.owned_paths ≡ false
  pub dependencies : All (λ d. (str_eq d t.id ≡ false) × (contains ids d ≡ true)) t.depends_on

dependencies_iff :
    (ids : List String) (id : String) (ds : List String)
    → (any (is_bad_dependency (distinct ids) id) ds ≡ false)
      ↔ All (λ d. (str_eq d id ≡ false) × (contains ids d ≡ true)) ds
unfolding any
dependencies_iff ids id [] = ((λ h. tt), (λ a. refl))
dependencies_iff ids id (d ∷ ds) = (
  (λ h. (
    (ground arith, ground (arith, contains-distinct ids d)),
    (dependencies_iff ids id ds).0 (ground arith),
  )),
  (λ a.
      let p = a.0.0 in
      let q = a.0.1 in
      let r = (dependencies_iff ids id ds).1 a.1 in ground (arith, contains-distinct ids d)),
)

-- The owners of all tasks, in order.
abbrev pub TasksOwn : List String → List CodingTask → List Owner → Type 0
TasksOwn ids [] os = os ≡ []
TasksOwn ids (t ∷ tasks) os =
    (mine : List Owner) × (later : List Owner) × (os ≡ mine ++ later)
    × IsComplete ids t
    × Owns t.id t.owned_paths mine
    × TasksOwn ids tasks later

check_task-ok :
    (ids : List String) (t : CodingTask) (before after : List Owner)
    → check_task (distinct ids) t before ≡ ok after
    → IsComplete ids t × (claim_paths t.id t.owned_paths before ≡ ok after)
unfolding check_task
check_task-ok ids t before after h = elim (Bool-cases (is_incomplete t)) [
  | inl bad ↦ ground arith
  | inr good ↦ elim (Bool-cases (any (is_bad_dependency (distinct ids) t.id) t.depends_on)) [
    | inl bad ↦ ground arith
    | inr deps ↦ (
      record {
        id_valid = ground arith;
        has_objective = ground arith;
        has_paths = ground arith;
        dependencies = (dependencies_iff ids t.id t.depends_on).0 deps;
      },
      ground arith,
    )
  ]
]

check_task-accepts :
    (ids : List String) (t : CodingTask) (before os : List Owner)
    → IsComplete ids t
    → Owns t.id t.owned_paths os
    → Disjoint (before ++ os)
    → check_task (distinct ids) t before ≡ ok (before ++ os)
unfolding check_task
check_task-accepts ids t before os c o d =
    rw
      (
        c.id_valid,
        c.has_objective,
        c.has_paths,
        (dependencies_iff ids t.id t.depends_on).1 c.dependencies,
      )
      (claim_paths-accepts t.id t.owned_paths before os o d)

pub check_tasks-ok :
    (ids : List String) (tasks : List CodingTask) (before after : List Owner)
    → Disjoint before
    → check_tasks (distinct ids) tasks before ≡ ok after
    → Adds (TasksOwn ids tasks) before after
unfolding check_tasks
check_tasks-ok ids [] before after d h =
    let same : before ≡ after = cc in
    ([], sym same ∙ sym (append-nil before), refl, subst Disjoint same d)
check_tasks-ok ids (t ∷ tasks) before after d h =
    elim (Result-cases (check_task (distinct ids) t before)) [
      | inl (e, p) ↦ cc
      | inr (mid, p) ↦
          let c = check_task-ok ids t before mid p in
          let one = claim_paths-ok t.id t.owned_paths before mid d c.1 in
          let more =
            check_tasks-ok ids tasks mid after one.3
              (subst (λ r. and_then r (check_tasks (distinct ids) tasks) ≡ ok after) p h) in
          (
            one.0 ++ more.0,
            more.1 ∙ ap (λ l. l ++ more.0) one.1 ∙ append_assoc before one.0 more.0,
            (one.0, more.0, refl, c.0, one.2, more.2),
            more.3,
          )
    ]

pub check_tasks-accepts :
    (ids : List String) (tasks : List CodingTask) (before os : List Owner)
    → TasksOwn ids tasks os
    → Disjoint (before ++ os)
    → check_tasks (distinct ids) tasks before ≡ ok (before ++ os)
unfolding check_tasks
check_tasks-accepts ids [] before os o d =
    ap ok (sym (append-nil before) ∙ ap (λ l. before ++ l) (sym o))
check_tasks-accepts ids (t ∷ tasks) before os (mine, later, split, c, o, more) d =
    rw (check_task-accepts ids t before mine c o (Disjoint-start (before ++ mine) later d'))
      (check_tasks-accepts ids tasks (before ++ mine) later more d' ∙ ap ok (sym same))
  where
    same : before ++ os ≡ (before ++ mine) ++ later
    same = ap (λ l. before ++ l) split ∙ sym (append_assoc before mine later)

    d' : Disjoint ((before ++ mine) ++ later)
    d' = subst Disjoint same d
