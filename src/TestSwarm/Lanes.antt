-- ===== src/TestSwarm/Lanes.antt =====
-- The lanes of a run: the threads of `run_tests` with `run_one`, apps/cli/src/swarm.rs.
--
-- A lane moves one access to the shared queue, flag or results at a time, in any order with the
-- others: a schedule names the lane of each move, and what a command does if the move runs one.
pub mod Counts
pub mod Ends
pub mod Finish
pub mod Moves
use mundusx.Prelude.{
  ℕ, zero, suc, ◌+◌, String, push_str, Option, none, some, List, [], ◌∷◌, ◌++◌, Bool, true, false,
  ◌&&◌, not, length, ltb, min, if◌then◌else◌, decimal,
}
use mundusx.TestSwarm.{TestTask, TestResult, safe_name}

-- What the shell does with a task's command, and what the log file does.
pub data Execution : Type 0 where
  ran :
      (success : Bool)
      → (exit_code : Option ℕ) → (duration_ms : ℕ) → (write_error : Option String) → Execution
  not_started : (duration_ms : ℕ) → (error : String) → Execution

-- `{:02}`
abbrev pub two_digits : ℕ → String
two_digits n = if ltb n 10 then push_str "0" (decimal n) else decimal n

unfoldable pub log_path : String → ℕ → TestTask → String
log_path run_dir lane task = push_str run_dir (
    push_str "/"
      (push_str (two_digits (lane + 1)) (push_str "-" (push_str (safe_name task.name) ".log"))))

abbrev is_none : Option String → Bool
is_none none = true
is_none (some e) = false

unfoldable pub run_one : String → ℕ → TestTask → Execution → TestResult
run_one run_dir lane task (ran success exit_code duration_ms write_error) = record {
  name = task.name;
  command = task.command;
  success = success && is_none write_error;
  exit_code = exit_code;
  duration_ms = duration_ms;
  log = log_path run_dir lane task;
  error = write_error;
}
run_one run_dir lane task (not_started duration_ms error) = record {
  name = task.name;
  command = task.command;
  success = false;
  exit_code = none;
  duration_ms = duration_ms;
  log = log_path run_dir lane task;
  error = some (push_str "could not start test lane: " error);
}

-- What the lanes share.
pub record Board : Type 0 where
  pub queue : List TestTask
  pub failed : Bool
  pub results : List TestResult

-- Where a lane stands in its loop; `lost` is a thread that panicked while it ran the task.
pub data Pc : Type 0 where
  looping popping finished : Pc
  running lost : (task : TestTask) → Pc
  storing pushing : (result : TestResult) → Pc

-- `queue.pop_front()`
abbrev pub pop : Bool → List TestResult → List TestTask → Board × Pc
pop failed results [] = (record { queue = []; failed = failed; results = results }, finished)
pop failed results (task ∷ queue) =
    (record { queue = queue; failed = failed; results = results }, running task)

module _ (fail_fast : Bool) (run_dir : String) where
  -- `none` is a panic.
  unfoldable pub move : ℕ → Option Execution → Board → Pc → Board × Pc
  move lane execution board looping =
      if fail_fast && board.failed then (board, finished) else (board, popping)
  move lane execution board popping = pop board.failed board.results board.queue
  move lane none board (running task) = (board, lost task)
  move lane (some execution) board (running task) =
      let result = run_one run_dir lane task execution in
      if not result.success then (board, storing result) else (board, pushing result)
  move lane execution board (storing result) =
      (record { queue = board.queue; failed = true; results = board.results }, pushing result)
  move lane execution board (pushing result) = (
    record { queue = board.queue; failed = board.failed; results = board.results ++ result ∷ [] },
    looping,
  )
  move lane execution board finished = (board, finished)
  move lane execution board (lost task) = (board, lost task)

  -- A move of the lane `i` further on, where the first lane here is `lane`.
  unfoldable pub move_at : ℕ → ℕ → Option Execution → Board → List Pc → Board × List Pc
  move_at lane i execution board [] = (board, [])
  move_at lane zero execution board (pc ∷ pcs) =
      let after = move lane execution board pc in (after.0, after.1 ∷ pcs)
  move_at lane (suc i) execution board (pc ∷ pcs) =
      let after = move_at (lane + 1) i execution board pcs in (after.0, pc ∷ after.1)

  unfoldable pub run_lanes : List (ℕ × Option Execution) → Board → List Pc → Board × List Pc
  run_lanes [] board pcs = (board, pcs)
  run_lanes ((i, execution) ∷ moves) board pcs =
      let after = move_at 0 i execution board pcs in run_lanes moves after.0 after.1

unfoldable pub start_board : List TestTask → Board
start_board tasks = record { queue = tasks; failed = false; results = [] }

abbrev loops : ℕ → List Pc
loops zero = []
loops (suc n) = looping ∷ loops n

-- `worker_count` lanes, at the beginning of their loops.
unfoldable pub start_lanes : ℕ → List TestTask → List Pc
start_lanes workers tasks = loops (min workers (length tasks))
