-- ===== src/TestSwarm/Planned.antt =====
-- What a planned run looks like, apps/cli/src/swarm.rs.
use mundusx.Prelude.{
  ℕ, ◌≤◌, ◌≡◌, String, Option, none, some, List, [], ◌∷◌, Bool, true, ◌||◌, ◌&&◌, Result, ok, err,
  ◌>>=◌, length, ltb, leb, ◌==◌, clamp, map, All, arith, Bool-cases, if_holds, inl, inr, is_nil,
}
use mundusx.TestSwarm.{
  max_workers, TestOptions, SwarmManifest, TestTask, parse_task, parse_tasks, read_manifest,
}
use mundusx.TestSwarm.Names.{is_valid, Checked, parse_task-Checked}
use mundusx.TestSwarm.Plans.{
  Plan, sequential, parallel, first_option, first_command, sequential_or, plan_tasks, assignment_of,
  disabled_plan, plan_manifest, plan_tests,
}

-- What a success has; an error has nothing to have.
abbrev pub Holds : {A : Type 0} → (A → Type 0) → Result String A → Type 0
Holds P (ok a) = P a
Holds P (err e) = Unit

abbrev Valid : TestTask → Type 0
Valid task = is_valid task ≡ true

abbrev pub Planned : Plan → Type 0
Planned (sequential command) = Unit
Planned (parallel workers fail_fast fallback tasks) =
    (2 ≤ workers) × (workers ≤ 8) × (2 ≤ length tasks) × All (λ task. is_valid task ≡ true) tasks

module _ {A B : Type 0} (P : A → Type 0) (Q : B → Type 0) where
  Holds-bind :
      (r : Result String A) (f : A → Result String B)
      → Holds P r
      → ((a : A) → P a → Holds Q (f a))
      → Holds Q (r >>= f)
  Holds-bind (ok a) f h g = g a h
  Holds-bind (err e) f h g = tt

module _ {A : Type 0} where
  always : (r : Result String A) → Holds (λ a. Unit {0}) r
  always (ok a) = tt
  always (err e) = tt

Checked-Holds : (r : Result String TestTask) → Checked r → Holds Valid r
Checked-Holds (ok task) c = c
Checked-Holds (err e) c = tt

parse_tasks-Valid : (values : List String) → Holds (All Valid) (parse_tasks values)
unfolding parse_tasks
parse_tasks-Valid [] = tt
parse_tasks-Valid (value ∷ values) =
    Holds-bind Valid (All Valid) (parse_task value) _
      (Checked-Holds (parse_task value) (parse_task-Checked value))
      (λ task c.
        Holds-bind (All Valid) (All Valid) (parse_tasks values) _ (parse_tasks-Valid values)
          (λ tasks cs. (c, cs)))

sequential_or-Planned :
    (error : String) (command : Option String) → Holds Planned (sequential_or error command)
sequential_or-Planned error none = tt
sequential_or-Planned error (some command) = tt

plan_tasks-Planned :
    (prepared : Result String String) (workers : ℕ) (fail_fast : Bool) (fallback : Option String)
    (tasks : List TestTask)
    → 1 ≤ workers
    → workers ≤ 8
    → All Valid tasks
    → Holds Planned (plan_tasks prepared workers fail_fast fallback tasks)
plan_tasks-Planned (err e) workers fail_fast fallback tasks lo hi v = tt
plan_tasks-Planned (ok run_dir) workers fail_fast fallback tasks lo hi v =
    elim (Bool-cases (ltb (length tasks) 2 || workers == 1)) [
      | inl few ↦ rw few (sequential_or-Planned _ (first_option fallback (first_command tasks)))
      | inr many ↦ rw many (ground (arith, many), hi, ground (arith, many), v)
    ]

disabled_plan-Planned :
    (prepared : Result String String) (fallback : Option String)
    → Holds Planned (disabled_plan prepared fallback)
disabled_plan-Planned prepared none = tt
disabled_plan-Planned (ok run_dir) (some command) = tt
disabled_plan-Planned (err e) (some command) = tt

plan_parsed-Planned :
    (values : List String) (prepared : Result String String) (workers : ℕ) (fail_fast : Bool)
    (fallback : Option String)
    → Holds Planned (
        parse_tasks values >>= plan_tasks prepared (clamp workers 1 max_workers) fail_fast fallback)
plan_parsed-Planned values prepared workers fail_fast fallback =
    Holds-bind (All Valid) Planned (parse_tasks values) _ (parse_tasks-Valid values) (λ tasks v.
      plan_tasks-Planned prepared (clamp workers 1 max_workers) fail_fast fallback tasks
        (omega arith) (omega arith) v)

plan_manifest-Planned :
    (prepared : Result String String) (options : TestOptions) (manifest : Option SwarmManifest)
    → Holds Planned (plan_manifest prepared options manifest)
plan_manifest-Planned prepared options none = tt
plan_manifest-Planned prepared options (some manifest) = elim (Bool-cases manifest.test.enabled) [
  | inl on ↦ rw on (
      plan_parsed-Planned (map assignment_of manifest.test.tasks) prepared manifest.test.workers _
        _)
  | inr off ↦ rw off (disabled_plan-Planned prepared _)
]

-- A run with lanes has two to eight workers and at least two tasks, each with a name and a command
-- that `parse_task` accepts, whether they come from the options or from the manifest.
pub plan_tests-Planned :
    (opened : Result String (String × Bool)) (manifest_file : Option (Result String SwarmManifest))
    (prepared : Result String String) (options : TestOptions)
    → Holds Planned (plan_tests opened manifest_file prepared options)
unfolding plan_tests
plan_tests-Planned opened manifest_file prepared options =
    elim (Bool-cases (leb 1 options.workers && leb options.workers max_workers)) [
      | inr bad ↦ rw bad tt
      | inl fine ↦ rw fine (
          Holds-bind (λ a. Unit {0}) Planned opened _ (always opened)
            (λ workspace u.
              if_holds (Holds Planned) workspace.1 _ _
                (if_holds (Holds Planned) (is_nil options.tasks) _ _
                  (Holds-bind (λ a. Unit {0}) Planned (read_manifest manifest_file) _
                    (always (read_manifest manifest_file))
                    (λ manifest v. plan_manifest-Planned prepared options manifest))
                  (plan_parsed-Planned options.tasks prepared options.workers options.fail_fast
                    options.fallback))
                tt))
    ]
