-- ===== src/TestSwarm/Lanes/Moves.antt =====
-- How many moves the lanes can make, apps/cli/src/swarm.rs.
use mundusx.Prelude.{
  ℕ, zero, suc, ◌+◌, ◌*◌, ◌≤◌, ◌≡◌, refl, String, Option, none, some, List, [], ◌∷◌, Bool, ◌&&◌,
  not, length, min, arith, if_holds,
}
use mundusx.TestSwarm.{TestTask, TestResult}
use mundusx.TestSwarm.Lanes.{
  Execution, run_one, Board, Pc, looping, popping, finished, running, lost, storing, pushing, pop,
  move, move_at, start_board, loops, start_lanes,
}

-- 1 for a lane that is still in its loop.
abbrev goes_on : Pc → ℕ
goes_on looping = 1
goes_on popping = 1
goes_on (running task) = 1
goes_on (storing result) = 1
goes_on (pushing result) = 1
goes_on finished = 0
goes_on (lost task) = 0

abbrev goes_on_at : ℕ → List Pc → ℕ
goes_on_at i [] = 0
goes_on_at zero (pc ∷ pcs) = goes_on pc
goes_on_at (suc i) (pc ∷ pcs) = goes_on_at i pcs

module _ (fail_fast : Bool) (run_dir : String) where
  -- The moves of the schedule that a lane makes which is still in its loop.
  unfoldable pub work : List (ℕ × Option Execution) → Board → List Pc → ℕ
  work [] board pcs = 0
  work ((i, execution) ∷ moves) board pcs =
      let after = move_at fail_fast run_dir 0 i execution board pcs in
      goes_on_at i pcs + work moves after.0 after.1

-- The moves that a lane can make at most before it takes another task.
weight : Pc → ℕ
weight looping = 2
weight popping = 1
weight (running task) = 5
weight (storing result) = 4
weight (pushing result) = 3
weight finished = 0
weight (lost task) = 0

weights : List Pc → ℕ
weights [] = 0
weights (pc ∷ pcs) = weight pc + weights pcs

pop-weight :
    (failed : Bool) (results : List TestResult) (queue : List TestTask)
    → 5 * length (pop failed results queue).0.queue + weight (pop failed results queue).1 + 1
      ≤ 5 * length queue + 1
unfolding weight
pop-weight failed results [] = omega arith
pop-weight failed results (task ∷ queue) = omega arith

module _ (fail_fast : Bool) (run_dir : String) where
  move-weight :
      (lane : ℕ) (execution : Option Execution) (board : Board) (pc : Pc)
      → 5 * length (move fail_fast run_dir lane execution board pc).0.queue
          + weight (move fail_fast run_dir lane execution board pc).1
          + goes_on pc
        ≤ 5 * length board.queue + weight pc
  unfolding move weight
  move-weight lane execution board looping =
      if_holds
        (λ (r : Board × Pc). 5 * length r.0.queue + weight r.1 + 1 ≤ 5 * length board.queue + 2)
        (fail_fast && board.failed) (board, finished) (board, popping) (omega arith) (omega arith)
  move-weight lane execution board popping = pop-weight board.failed board.results board.queue
  move-weight lane none board (running task) = omega arith
  move-weight lane (some execution) board (running task) =
      let result = run_one run_dir lane task execution in
      if_holds
        (λ (r : Board × Pc). 5 * length r.0.queue + weight r.1 + 1 ≤ 5 * length board.queue + 5)
        (not result.success) (board, storing result) (board, pushing result) (omega arith)
        (omega arith)
  move-weight lane execution board (storing result) = omega arith
  move-weight lane execution board (pushing result) = omega arith
  move-weight lane execution board finished = omega arith
  move-weight lane execution board (lost task) = omega arith

  move_at-weights :
      (lane i : ℕ) (execution : Option Execution) (board : Board) (pcs : List Pc)
      → 5 * length (move_at fail_fast run_dir lane i execution board pcs).0.queue
          + weights (move_at fail_fast run_dir lane i execution board pcs).1
          + goes_on_at i pcs
        ≤ 5 * length board.queue + weights pcs
  unfolding move_at weights
  move_at-weights lane i execution board [] = omega arith
  move_at-weights lane zero execution board (pc ∷ pcs) =
      omega (arith, move-weight lane execution board pc)
  move_at-weights lane (suc i) execution board (pc ∷ pcs) =
      omega (arith, move_at-weights (lane + 1) i execution board pcs)

  work-weights :
      (moves : List (ℕ × Option Execution)) (board : Board) (pcs : List Pc)
      → work fail_fast run_dir moves board pcs ≤ 5 * length board.queue + weights pcs
  unfolding work
  work-weights [] board pcs = omega arith
  work-weights ((i, execution) ∷ moves) board pcs =
      let after = move_at fail_fast run_dir 0 i execution board pcs in
      omega (arith, work-weights moves after.0 after.1, move_at-weights 0 i execution board pcs)

weights-loops : (n : ℕ) → weights (loops n) ≡ 2 * n
unfolding weights weight
weights-loops zero = refl
weights-loops (suc n) = omega (arith, weights-loops n)

-- The lanes come to an end: in every schedule, those that are still in their loops make at most
-- five moves for each task and two for each lane altogether.
pub work_le :
    (fail_fast : Bool) (run_dir : String) (workers : ℕ) (tasks : List TestTask)
    (moves : List (ℕ × Option Execution))
    → work fail_fast run_dir moves (start_board tasks) (start_lanes workers tasks)
      ≤ 5 * length tasks + 2 * min workers (length tasks)
unfolding start_board start_lanes
work_le fail_fast run_dir workers tasks moves = omega (
  arith,
  work-weights fail_fast run_dir moves (start_board tasks) (start_lanes workers tasks),
  weights-loops (min workers (length tasks)),
)
