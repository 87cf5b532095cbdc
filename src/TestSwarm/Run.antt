-- ===== src/TestSwarm/Run.antt =====
-- The end of a run of the test lanes: the results are collected and judged, apps/cli/src/swarm.rs.
use mundusx.Prelude.{
  some-injective, none_not-some, ℕ, ◌≤◌, ◌≡◌, refl, sym, subst, is_some, ◌∙◌, ◌⊎◌, inl, inr, String,
  push_str, Option, none, some, List, [], ◌∷◌, ◌++◌, Bool, true, false, ◌&&◌, ◌||◌, not, Result, ok,
  err, length, all, any, is_nil, if◌then◌else◌, arith,
}
use mundusx.Prelude.Sorting.{sort_by_key, all-sort_by_key}
use mundusx.TestSwarm.{TestTask, TestResult}
use mundusx.TestSwarm.Plans.{Plan, sequential, parallel}
use mundusx.TestSwarm.Lanes.{
  Execution, run_one, Board, Pc, looping, popping, finished, running, lost, storing, pushing,
  run_lanes, start_board, start_lanes,
}
use mundusx.TestSwarm.Lanes.Counts.{waiting, reported}
use mundusx.TestSwarm.Lanes.Finish.{is_finished, run_lanes_finished}

abbrev pub is_lost : Pc → Bool
is_lost (lost task) = true
is_lost finished = false
is_lost looping = false
is_lost popping = false
is_lost (running task) = false
is_lost (storing result) = false
is_lost (pushing result) = false

-- Without what it prints.
unfoldable pub finish : String → List TestResult → Result String Unit
finish run_dir results =
    if not (is_nil results) && all (λ r. r.success) results
    then ok tt
    else err (push_str "one or more test lanes failed; logs: " run_dir)

-- `execution` is what the command does.
unfoldable pub run_sequential_fallback : String → String → Execution → TestResult
run_sequential_fallback run_dir command execution =
    run_one run_dir 0 (record { name = "sequential-fallback"; command = command }) execution

abbrev pub fall_back : String → Execution → List TestResult → Option String → Result String Unit
fall_back run_dir execution results none =
    err (push_str "a swarm worker stopped unexpectedly; logs: " run_dir)
fall_back run_dir execution results (some command) =
    finish run_dir (results ++ run_sequential_fallback run_dir command execution ∷ [])

-- The joins and what follows them; `none` if a join still waits.
unfoldable pub collect :
    String → Execution → Option String → Board × List Pc → Option (Result String Unit)
collect run_dir execution fallback (board, pcs) =
    let results = sort_by_key (λ r. r.name) board.results in
    if all (λ pc. is_finished pc || is_lost pc) pcs
    then if any is_lost pcs
      then some (fall_back run_dir execution results fallback)
      else some (finish run_dir results)
    else none

-- The rest of `run_tests` after its plan: the lanes by the schedule `moves`; `execution` is what
-- the sequential command does.
unfoldable pub run_plan :
    String → Execution → List (ℕ × Option Execution) → Plan → Option (Result String Unit)
run_plan run_dir execution moves (sequential command) =
    some (finish run_dir (run_sequential_fallback run_dir command execution ∷ []))
run_plan run_dir execution moves (parallel workers fail_fast fallback tasks) =
    collect run_dir execution fallback
      (run_lanes fail_fast run_dir moves (start_board tasks) (start_lanes workers tasks))

IsErr : {A : Type 0} → Result String A → Type 0
IsErr (ok a) = ⊥
IsErr (err e) = Unit

chosen-ok : (b : Bool) (e : String) → (if b then ok tt else err e) ≡ ok tt → b ≡ true
unfolding IsErr
chosen-ok true e h = refl
chosen-ok false e h = absurd (subst IsErr h tt)

finish-ok :
    (run_dir : String) (results : List TestResult)
    → finish run_dir results ≡ ok tt
    → all (λ r. r.success) results ≡ true
unfolding finish
finish-ok run_dir results e =
    let good = chosen-ok (not (is_nil results) && all (λ r. r.success) results) _ e in
    ground (arith, good)

fall_back-ok :
    (run_dir : String) (execution : Execution) (results : List TestResult)
    (fallback : Option String)
    → fall_back run_dir execution results fallback ≡ ok tt
    → is_some fallback ≡ true
unfolding IsErr
fall_back-ok run_dir execution results none e = absurd (subst IsErr e tt)
fall_back-ok run_dir execution results (some command) e = refl

collected :
    (over missing : Bool) (a b : Result String Unit)
    → (if over then if missing then some a else some b else none) ≡ some (ok tt)
    → ((missing ≡ true) × (a ≡ ok tt)) ⊎ ((over ≡ true) × (missing ≡ false) × (b ≡ ok tt))
collected true true a b e = inl (refl, some-injective a (ok tt) e)
collected true false a b e = inr (refl, refl, some-injective b (ok tt) e)
collected false missing a b e = absurd (none_not-some (ok tt) e)

none_lost :
    (pcs : List Pc)
    → all (λ pc. is_finished pc || is_lost pc) pcs ≡ true
    → any is_lost pcs ≡ false
    → all is_finished pcs ≡ true
unfolding all any
none_lost [] o l = refl
none_lost (pc ∷ pcs) o l = ground (arith, none_lost pcs)

-- When a run with lanes succeeds, then a lane was lost and there is a fallback; or all the results
-- are successes, and for every kind of tasks there are as many results of the kind as tasks: every
-- task ran exactly once and succeeded.
pub run_plan_complete :
    (run_dir : String) (execution : Execution) (moves : List (ℕ × Option Execution)) (workers : ℕ)
    (fail_fast : Bool) (fallback : Option String) (tasks : List TestTask)
    → 1 ≤ workers
    → 1 ≤ length tasks
    → run_plan run_dir execution moves (parallel workers fail_fast fallback tasks) ≡ some (ok tt)
    → ((any is_lost
            (run_lanes fail_fast run_dir moves (start_board tasks) (start_lanes workers tasks)).1
          ≡ true)
        × (is_some fallback ≡ true))
      ⊎ ((all
              (λ r. r.success)
              (run_lanes fail_fast run_dir moves
                (start_board tasks)
                (start_lanes workers tasks)).0.results
            ≡ true)
          × ((p : TestTask → Bool)
              → reported p
                  (run_lanes fail_fast run_dir moves
                    (start_board tasks)
                    (start_lanes workers tasks)).0.results
                ≡ waiting p tasks))
unfolding run_plan collect
run_plan_complete run_dir execution moves workers fail_fast fallback tasks w t e =
    let final = run_lanes fail_fast run_dir moves (start_board tasks) (start_lanes workers tasks) in
    let results = sort_by_key (λ r. r.name) final.0.results in
    elim (collected (all (λ pc. is_finished pc || is_lost pc) final.1) (any is_lost final.1)
      (fall_back run_dir execution results fallback) (finish run_dir results) e) [
        | inl (missing, fell) ↦ inl (missing, fall_back-ok run_dir execution results fallback fell)
        | inr (over, present, done) ↦
            let good =
              sym (all-sort_by_key (λ r. r.success) (λ r. r.name) final.0.results)
              ∙ finish-ok run_dir results done in
            inr (
              good,
              λ p.
                  run_lanes_finished fail_fast run_dir workers tasks moves p w t
                    (none_lost final.1 over present) (inr good),
            )
      ]
