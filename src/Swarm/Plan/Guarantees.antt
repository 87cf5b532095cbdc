-- ===== src/Swarm/Plan/Guarantees.antt =====
-- What `validate_plan`, apps/cli/src/project_swarm.rs, accepts.
use mundusx.Prelude.{
  All-within, suc, ◌≤◌, ◌≡◌, ◌↔◌, refl, ap, subst, inl, inr, String, List, [], ◌∷◌, Option, none,
  some, Bool, true, false, not, ◌||◌, arith, Result, ok, err, Result-cases, length, distinct,
  is_blank, ltb, ◌==◌, if◌then◌else◌, Unique, length-Unique, length-distinct-Unique,
}
use mundusx.Swarm.Paths.{safe_verification_command}
use mundusx.Swarm.Plan.{
  CodingPlan, CodingTask, Owner, ids_of, check_tasks, passes, scheduled, validate_plan,
}
use mundusx.Swarm.Plan.Order.{Scheduled, Searched, passes-Searched}
use mundusx.Swarm.Plan.Owners.{Disjoint}
use mundusx.Swarm.Plan.Tasks.{TasksOwn, check_tasks-ok, check_tasks-accepts}
use mundusx.Swarm.Plan.Search.{passes-accepts}

-- The plans that may run.
pub record IsSafe (plan : CodingPlan) : Type 0 where
  pub two_tasks : 2 ≤ length plan.tasks
  pub four_tasks : length plan.tasks ≤ 4
  pub command : is_blank plan.verification_command ≡ false
  pub safe_command : safe_verification_command plan.verification_command ≡ true
  pub unique : Unique (ids_of plan.tasks)
  pub owners : List Owner
  pub owned : TasksOwn (ids_of plan.tasks) plan.tasks owners
  pub disjoint : Disjoint owners
  pub schedule : Scheduled plan.tasks

length-ids : (ts : List CodingTask) → length (ids_of ts) ≡ length ts
length-ids [] = refl
length-ids (t ∷ ts) = omega (arith, length-ids ts)

search-Searched : (tasks : List CodingTask) → Searched tasks (passes (suc (length tasks)) tasks [])
search-Searched tasks =
    passes-Searched (suc (length tasks)) tasks [] (All-within tasks)
      (record { ordered = tt; counted = omega arith }) (omega arith)

-- The four tests before the tasks.
abbrev PassesTests : CodingPlan → Type 0
PassesTests plan =
    (ltb (length plan.tasks) 2 || ltb 4 (length plan.tasks) ≡ false)
    × (is_blank plan.verification_command ≡ false)
    × (not (safe_verification_command plan.verification_command) ≡ false)
    × (not (length (distinct (ids_of plan.tasks)) == length plan.tasks) ≡ false)

IsSafe-tests : (plan : CodingPlan) → IsSafe plan → PassesTests plan
IsSafe-tests plan s = (
  let a = s.two_tasks in let b = s.four_tasks in ground arith,
  s.command,
  ap not s.safe_command,
  ground (arith, length-Unique (ids_of plan.tasks) s.unique, length-ids plan.tasks),
)

abbrev Verdict : CodingPlan → Option (Result String (Unit {0})) → Type 0
Verdict plan none = ⊥
Verdict plan (some (err e)) = IsSafe plan → ⊥
Verdict plan (some (ok u)) = IsSafe plan

-- A test that a safe plan passes.
tested :
    (plan : CodingPlan) (refused : Bool) (message : String)
    (rest : Option (Result String (Unit {0})))
    → (IsSafe plan → refused ≡ false)
    → (refused ≡ false → Verdict plan rest)
    → Verdict plan (if refused then some (err message) else rest)
tested plan true message rest f g = λ s. cc (f s)
tested plan false message rest f g = g refl

module _ (plan : CodingPlan) where
  abbrev ids : List String
  ids = distinct (ids_of plan.tasks)

  search_Verdict :
      (o : Option (Result String (Unit {0})))
      → passes (suc (length plan.tasks)) plan.tasks [] ≡ o
      → Searched plan.tasks o
      → (Scheduled plan.tasks → IsSafe plan)
      → Verdict plan o
  search_Verdict none p d f = d
  search_Verdict (some (ok u)) p d f = f d
  search_Verdict (some (err e)) p d f = λ s.
      let accepted =
        passes-accepts (suc (length plan.tasks)) plan.tasks [] s.schedule s.unique (omega arith)
          (omega arith) in
      cc

  scheduled-Verdict :
      PassesTests plan → Verdict plan (scheduled plan.tasks (check_tasks ids plan.tasks []))
  scheduled-Verdict t = elim (Result-cases (check_tasks ids plan.tasks [])) [
    | inl (e, p) ↦ rw p (λ s.
        let accepted =
          check_tasks-accepts (ids_of plan.tasks) plan.tasks [] s.owners s.owned s.disjoint in
        cc)
    | inr (after, p) ↦
        let adds = check_tasks-ok (ids_of plan.tasks) plan.tasks [] after tt p in
        rw p (
          search_Verdict _ refl (search-Searched plan.tasks) (λ schedule. record {
            two_tasks = ground arith;
            four_tasks = ground arith;
            command = t.1;
            safe_command = ground arith;
            unique =
                length-distinct-Unique (ids_of plan.tasks) (ground (arith, length-ids plan.tasks));
            owners = adds.0;
            owned = adds.2;
            disjoint = subst Disjoint adds.1 adds.3;
            schedule = schedule;
          }))
  ]

  validate_plan-Verdict : Verdict plan (validate_plan plan)
  unfolding validate_plan
  validate_plan-Verdict =
      tested plan _ _ _ (λ s. (IsSafe-tests plan s).0)
        (λ a.
          tested plan _ _ _ (λ s. (IsSafe-tests plan s).1)
            (λ b.
              tested plan _ _ _ (λ s. (IsSafe-tests plan s).2)
                (λ c.
                  tested plan _ _ _ (λ s. (IsSafe-tests plan s).3)
                    (λ d. scheduled-Verdict (a, b, c, d)))))

-- The search for a cycle always ends, and `validate_plan` accepts exactly the plans of two to four
-- complete tasks with unique ids and a safe verification command, whose dependencies are other tasks
-- of the plan and have an order, and whose paths are safe and do not own each other.
pub validate_plan-ok_iff :
    (plan : CodingPlan)
    → ((verdict : Result String (Unit {0})) × (validate_plan plan ≡ some verdict))
      × ((validate_plan plan ≡ some (ok tt)) ↔ IsSafe plan)
validate_plan-ok_iff plan = go (validate_plan plan) (validate_plan-Verdict plan)
  where
    go :
        (o : Option (Result String (Unit {0})))
        → Verdict plan o
        → ((verdict : Result String (Unit {0})) × (o ≡ some verdict))
          × ((o ≡ some (ok tt)) ↔ IsSafe plan)
    go none v = absurd v
    go (some (err e)) v = ((err e, refl), ((λ h. cc), (λ s. absurd (v s))))
    go (some (ok u)) v = ((ok u, refl), ((λ h. v), (λ s. refl)))
