-- ===== src/TestSwarm/Tests.antt =====
-- Runs of test lanes at concrete inputs, apps/cli/src/swarm.rs.
use Prim.Native.String.{count}
use mundusx.Prelude.{
  all_chars, ℕ, ◌+◌, ◌*◌, ◌≤◌, ◌≡◌, refl, String, Option, none, some, List, [], ◌∷◌, Bool, true,
  false, ok, length, min, all, any, is_some, ◌⊎◌, inr, trim, contains_char, map_chars,
  trim_start_matches, trim_end_matches, arith, str_eq,
}
use mundusx.Prelude.Sorting.{insert_by_key, sort_by_key}
use mundusx.TestSwarm.{
  TestTask, SwarmManifest, read_manifest, split_once, parse_task, parse_tasks, take_chars,
  is_safe_char, safe_name,
}
use mundusx.TestSwarm.Plans.{sequential, parallel, assignment_of, plan_tests}
use mundusx.TestSwarm.Planned.{Holds, Planned, plan_tests-Planned}
use mundusx.TestSwarm.Names.{
  safe_name-IsSafe, Checked, parse_task-Checked, parse_task-assignment_of,
}
use mundusx.TestSwarm.Lanes.{
  Execution, ran, not_started, run_one, finished, move, move_at, run_lanes, start_board,
  start_lanes,
}
use mundusx.TestSwarm.Lanes.Counts.{waiting, reported, in_lanes, total, run_lanes_conserve}
use mundusx.TestSwarm.Lanes.Finish.{run_lanes_finished}
use mundusx.TestSwarm.Lanes.Moves.{work, work_le}
use mundusx.TestSwarm.Run.{is_lost, finish, collect, run_plan, run_plan_complete}

abbrev unit_task : TestTask
unit_task = record { name = "unit"; command = "make unit" }

abbrev api_task : TestTask
api_task = record { name = "api"; command = "make api" }

abbrev two_tasks : List TestTask
two_tasks = unit_task ∷ api_task ∷ []

abbrev passed : Option Execution
passed = some (ran true (some 0) 5 none)

-- The second lane starts first and runs the first task.
abbrev moves : List (ℕ × Option Execution)
moves =
    (1, none)
    ∷ (1, none)
    ∷ (0, none)
    ∷ (0, none)
    ∷ (1, passed)
    ∷ (0, passed)
    ∷ (1, none)
    ∷ (0, none)
    ∷ (0, none)
    ∷ (1, none)
    ∷ (0, none)
    ∷ (1, none)
    ∷ []

parse_task_test :
    parse_task "unit=python -c \"assert 1 == 1\""
    ≡ ok (record { name = "unit"; command = "python -c \"assert 1 == 1\"" })
unfolding parse_task split_once trim contains_char
parse_task_test = refl

safe_name_test : safe_name "api tests (fast)" ≡ "api-tests--fast"
unfolding safe_name take_chars trim_end_matches trim_start_matches map_chars
safe_name_test = refl

-- A manifest's task whose name has an "=" comes back as another one.
split_name_test :
    parse_task (assignment_of (record { name = "a=b"; command = "c" }))
    ≡ ok (record { name = "a"; command = "b=c" })
unfolding parse_task split_once trim contains_char
split_name_test = refl

run_lanes_test :
    (run_lanes false "run" moves (start_board two_tasks) (start_lanes 4 two_tasks)).1
    ≡ finished ∷ finished ∷ []
unfolding run_lanes move_at start_lanes move start_board run_one
run_lanes_test = refl

run_plan_test :
    run_plan "run" (not_started 0 "no shell") moves (parallel 4 false none two_tasks) ≡ some (ok tt)
unfolding run_plan collect all run_lanes move_at start_lanes move start_board run_one any finish
    sort_by_key insert_by_key
run_plan_test = refl

one_task : TestTask → Bool
one_task task = str_eq task.name "api"

run_lanes_conserve_example :
    total one_task
      (run_lanes true "run" moves (start_board two_tasks) (start_lanes 2 two_tasks)).0
      (in_lanes one_task
        (run_lanes true "run" moves (start_board two_tasks) (start_lanes 2 two_tasks)).1)
    ≡ waiting one_task two_tasks
run_lanes_conserve_example = run_lanes_conserve one_task true "run" 2 two_tasks moves

run_lanes_finished_example :
    reported one_task
      (run_lanes true "run" moves (start_board two_tasks) (start_lanes 4 two_tasks)).0.results
    ≡ waiting one_task two_tasks
unfolding run_lanes move_at start_lanes move start_board run_one all
run_lanes_finished_example =
    run_lanes_finished true "run" 4 two_tasks moves one_task (omega arith) (omega arith) refl
      (inr refl)

work_le_example :
    work true "run" moves (start_board two_tasks) (start_lanes 4 two_tasks)
    ≤ 5 * length two_tasks + 2 * min 4 (length two_tasks)
work_le_example = work_le true "run" 4 two_tasks moves

run_plan_complete_example :
    ((any is_lost (run_lanes false "run" moves (start_board two_tasks) (start_lanes 4 two_tasks)).1
        ≡ true)
      × (is_some {A = String} none ≡ true))
    ⊎ ((all
            (λ r. r.success)
            (run_lanes false "run" moves
              (start_board two_tasks)
              (start_lanes 4 two_tasks)).0.results
          ≡ true)
        × ((p : TestTask → Bool)
            → reported p
                (run_lanes false "run" moves
                  (start_board two_tasks)
                  (start_lanes 4 two_tasks)).0.results
              ≡ waiting p two_tasks))
run_plan_complete_example =
    run_plan_complete "run" (not_started 0 "no shell") moves 4 false none two_tasks (omega arith)
      (omega arith) run_plan_test

parse_task-Checked_example : Checked (parse_task "api=make api")
parse_task-Checked_example = parse_task-Checked "api=make api"

parse_task-assignment_of_example :
    parse_task (assignment_of (record { name = "api"; command = "make api" })) ≡ ok api_task
unfolding trim contains_char
parse_task-assignment_of_example = parse_task-assignment_of api_task refl refl refl refl

plan_tests-Planned_example : Holds Planned (
    plan_tests (ok ("/project", true)) none (ok "run") (record {
      tasks = "unit=make unit" ∷ "api=make api" ∷ [];
      workers = 4;
      fail_fast = false;
      fallback = none;
    }))
plan_tests-Planned_example = plan_tests-Planned (ok ("/project", true)) none (ok "run") (record {
  tasks = "unit=make unit" ∷ "api=make api" ∷ [];
  workers = 4;
  fail_fast = false;
  fallback = none;
})

-- With one worker the second task is never run: two tasks of the options, and two of a manifest.
one_worker_options :
    plan_tests (ok ("/project", true)) none (ok "run") (record {
      tasks = "unit=make unit" ∷ "api=make api" ∷ [];
      workers = 1;
      fail_fast = false;
      fallback = none;
    })
    ≡ ok (sequential "make unit")
unfolding plan_tests parse_tasks parse_task split_once trim contains_char
one_worker_options = refl

abbrev one_worker_manifest : SwarmManifest
one_worker_manifest = record {
  version = 1;
  test = record {
    enabled = true;
    workers = 1;
    fail_fast = false;
    fallback = none;
    tasks =
        record { name = "unit"; command = "make unit" }
        ∷ record { name = "api"; command = "make api" }
        ∷ [];
  };
}

one_worker_of_manifest :
    plan_tests
      (ok ("/project", true))
      (some (ok one_worker_manifest))
      (ok "run")
      (record { tasks = []; workers = 4; fail_fast = false; fallback = none })
    ≡ ok (sequential "make unit")
unfolding plan_tests read_manifest parse_tasks parse_task split_once trim contains_char
one_worker_of_manifest = refl

safe_name-IsSafe_example :
    (all_chars is_safe_char (safe_name "../api tests") ≡ true)
    × (count (safe_name "../api tests") ≤ 80)
safe_name-IsSafe_example = safe_name-IsSafe "../api tests"
