-- ===== src/TestSwarm/Plans.antt =====
-- What a run of the test lanes does with its options and the manifest, apps/cli/src/swarm.rs.
use mundusx.Prelude.{
  ℕ, String, push_str, Option, none, some, List, [], ◌∷◌, Bool, ◌||◌, ◌&&◌, Result, ok, err, ◌>>=◌,
  length, ltb, leb, ◌==◌, clamp, if◌then◌else◌, map, decimal, is_nil,
}
use mundusx.TestSwarm.{
  max_workers, TestOptions, ManifestTask, SwarmManifest, TestTask, parse_tasks, read_manifest,
}

-- One command after the other run's way, or lanes.
pub data Plan : Type 0 where
  sequential : (command : String) → Plan
  parallel :
      (workers : ℕ)
      → (fail_fast : Bool) → (fallback : Option String) → (tasks : List TestTask) → Plan

abbrev pub first_option : Option String → Option String → Option String
first_option none b = b
first_option (some a) b = some a

abbrev pub first_command : List TestTask → Option String
first_command [] = none
first_command (task ∷ tasks) = some task.command

abbrev pub sequential_or : String → Option String → Result String Plan
sequential_or error none = err error
sequential_or error (some command) = ok (sequential command)

-- The tasks are known; `prepared` is what `prepare_run_dir` returns.
abbrev pub plan_tasks :
    Result String String → ℕ → Bool → Option String → List TestTask → Result String Plan
plan_tasks prepared workers fail_fast fallback tasks = prepared >>= λ run_dir.
    if ltb (length tasks) 2 || workers == 1
    then sequential_or "parallel test execution requires at least two independent lanes"
        (first_option fallback (first_command tasks))
    else ok (parallel workers fail_fast fallback tasks)

abbrev pub assignment_of : ManifestTask → String
assignment_of task = push_str task.name (push_str "=" task.command)

abbrev pub disabled_plan : Result String String → Option String → Result String Plan
disabled_plan prepared none = err "project swarm is disabled in .mundusx/swarm.json"
disabled_plan prepared (some command) = prepared >>= λ run_dir. ok (sequential command)

abbrev pub plan_manifest :
    Result String String → TestOptions → Option SwarmManifest → Result String Plan
plan_manifest prepared options none =
    err "no test lanes supplied; pass --task NAME=COMMAND or add .mundusx/swarm.json"
plan_manifest prepared options (some manifest) =
    let test = manifest.test in
    let fallback = first_option options.fallback test.fallback in
    if test.enabled
    then (parse_tasks (map assignment_of test.tasks) >>= λ tasks.
        plan_tasks prepared (clamp test.workers 1 max_workers) (options.fail_fast || test.fail_fast)
          fallback tasks)
    else disabled_plan prepared fallback

-- `run_tests` up to the lanes: `opened` is what opening the workspace returns, with the path and
-- whether it is a directory.
unfoldable pub plan_tests :
    Result String (String × Bool)
    → Option (Result String SwarmManifest)
    → Result String String
    → TestOptions
    → Result String Plan
plan_tests opened manifest_file prepared options =
    if leb 1 options.workers && leb options.workers max_workers
    then (opened >>= λ workspace.
        if workspace.1
        then (if is_nil options.tasks
            then (read_manifest manifest_file >>= plan_manifest prepared options)
            else (parse_tasks options.tasks
                >>= plan_tasks prepared (clamp options.workers 1 max_workers) options.fail_fast
                    options.fallback))
        else err (push_str "workspace is not a directory: " workspace.0))
    else err (push_str "--workers must be between 1 and " (decimal max_workers))
