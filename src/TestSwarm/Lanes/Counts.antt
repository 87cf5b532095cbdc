-- ===== src/TestSwarm/Lanes/Counts.antt =====
-- What every schedule of the lanes keeps: the tasks, and what a finished lane and a failed run
-- mean, apps/cli/src/swarm.rs.
use mundusx.Prelude.{
  ℕ, zero, suc, ◌+◌, ◌≡◌, refl, ap, ◌∙◌, String, Option, none, some, List, [], ◌∷◌, ◌++◌, Bool,
  true, false, ◌&&◌, not, length, min, arith, if_holds,
}
use mundusx.TestSwarm.{TestTask, TestResult}
use mundusx.TestSwarm.Lanes.{
  Execution, ran, not_started, run_one, Board, Pc, looping, popping, finished, running, lost,
  storing, pushing, pop, move, move_at, run_lanes, start_board, loops, start_lanes,
}

abbrev pub task_of : TestResult → TestTask
task_of result = record { name = result.name; command = result.command }

run_one-task_of :
    (run_dir : String) (lane : ℕ) (task : TestTask) (execution : Execution)
    → task_of (run_one run_dir lane task execution) ≡ task
unfolding run_one
run_one-task_of run_dir lane task (ran success exit_code duration_ms write_error) = refl
run_one-task_of run_dir lane task (not_started duration_ms error) = refl

abbrev one_if : Bool → ℕ
one_if true = 1
one_if false = 0

module _ (p : TestTask → Bool) where
  -- How many tasks of the kind `p` wait, have a result, and are in the hands of a lane.
  unfoldable pub waiting : List TestTask → ℕ
  waiting [] = 0
  waiting (task ∷ tasks) = one_if (p task) + waiting tasks

  unfoldable pub reported : List TestResult → ℕ
  reported [] = 0
  reported (result ∷ results) = one_if (p (task_of result)) + reported results

  abbrev pub in_lane : Pc → ℕ
  in_lane looping = 0
  in_lane popping = 0
  in_lane finished = 0
  in_lane (running task) = one_if (p task)
  in_lane (lost task) = one_if (p task)
  in_lane (storing result) = one_if (p (task_of result))
  in_lane (pushing result) = one_if (p (task_of result))

  unfoldable pub in_lanes : List Pc → ℕ
  in_lanes [] = 0
  in_lanes (pc ∷ pcs) = in_lane pc + in_lanes pcs

  reported-append : (xs ys : List TestResult) → reported (xs ++ ys) ≡ reported xs + reported ys
  unfolding reported
  reported-append [] ys = omega arith
  reported-append (x ∷ xs) ys = omega (arith, reported-append xs ys)

  -- All the tasks, wherever they are.
  abbrev pub total : Board → ℕ → ℕ
  total board held = waiting board.queue + held + reported board.results

  pop-total :
      (failed : Bool) (results : List TestResult) (queue : List TestTask)
      → total (pop failed results queue).0 (in_lane (pop failed results queue).1)
        ≡ waiting queue + 0 + reported results
  unfolding waiting
  pop-total failed results [] = refl
  pop-total failed results (task ∷ queue) = omega arith

  module _ (fail_fast : Bool) (run_dir : String) where
    move-total :
        (lane : ℕ) (execution : Option Execution) (board : Board) (pc : Pc)
        → total
            (move fail_fast run_dir lane execution board pc).0
            (in_lane (move fail_fast run_dir lane execution board pc).1)
          ≡ total board (in_lane pc)
    unfolding move reported
    move-total lane execution board looping =
        if_holds (λ (r : Board × Pc). total r.0 (in_lane r.1) ≡ total board 0)
          (fail_fast && board.failed) (board, finished) (board, popping) refl refl
    move-total lane execution board popping = pop-total board.failed board.results board.queue
    move-total lane none board (running task) = refl
    move-total lane (some execution) board (running task) =
        let result = run_one run_dir lane task execution in
        let same =
          ap (λ t. total board (one_if (p t))) (run_one-task_of run_dir lane task execution) in
        if_holds (λ (r : Board × Pc). total r.0 (in_lane r.1) ≡ total board (one_if (p task)))
          (not result.success) (board, storing result) (board, pushing result) same same
    move-total lane execution board (storing result) = refl
    move-total lane execution board (pushing result) =
        omega (arith, reported-append board.results (result ∷ []))
    move-total lane execution board finished = refl
    move-total lane execution board (lost task) = refl

    move_at-total :
        (lane i : ℕ) (execution : Option Execution) (board : Board) (pcs : List Pc)
        → total
            (move_at fail_fast run_dir lane i execution board pcs).0
            (in_lanes (move_at fail_fast run_dir lane i execution board pcs).1)
          ≡ total board (in_lanes pcs)
    unfolding move_at in_lanes
    move_at-total lane i execution board [] = refl
    move_at-total lane zero execution board (pc ∷ pcs) =
        omega (arith, move-total lane execution board pc)
    move_at-total lane (suc i) execution board (pc ∷ pcs) =
        omega (arith, move_at-total (lane + 1) i execution board pcs)

    run_lanes-total :
        (moves : List (ℕ × Option Execution)) (board : Board) (pcs : List Pc)
        → total
            (run_lanes fail_fast run_dir moves board pcs).0
            (in_lanes (run_lanes fail_fast run_dir moves board pcs).1)
          ≡ total board (in_lanes pcs)
    unfolding run_lanes
    run_lanes-total [] board pcs = refl
    run_lanes-total ((i, execution) ∷ moves) board pcs =
        let after = move_at fail_fast run_dir 0 i execution board pcs in
        run_lanes-total moves after.0 after.1 ∙ move_at-total 0 i execution board pcs

  in_lanes-loops : (n : ℕ) → in_lanes (loops n) ≡ 0
  unfolding in_lanes
  in_lanes-loops zero = refl
  in_lanes-loops (suc n) = omega (arith, in_lanes-loops n)

  -- However the lanes interleave, whatever the commands do, and with any lanes lost, every task of
  -- the run is at each time once in the queue, in the hands of one lane (a lost one for ever), or
  -- among the results: of the tasks of every kind, the three numbers add up to those that were given.
  pub run_lanes_conserve :
      (fail_fast : Bool) (run_dir : String) (workers : ℕ) (tasks : List TestTask)
      (moves : List (ℕ × Option Execution))
      → total
          (run_lanes fail_fast run_dir moves (start_board tasks) (start_lanes workers tasks)).0
          (in_lanes
            (run_lanes fail_fast run_dir moves (start_board tasks) (start_lanes workers tasks)).1)
        ≡ waiting tasks
  unfolding start_board start_lanes reported
  run_lanes_conserve fail_fast run_dir workers tasks moves =
      run_lanes-total fail_fast run_dir moves _ _
      ∙ omega (arith, in_lanes-loops (min workers (length tasks)))
