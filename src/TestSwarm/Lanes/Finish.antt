-- ===== src/TestSwarm/Lanes/Finish.antt =====
-- What ran when all the lanes finished, apps/cli/src/swarm.rs.
use mundusx.Prelude.{
  ℕ, zero, suc, ◌+◌, ◌≤◌, ◌≡◌, refl, ap, ◌∙◌, subst, ◌⊎◌, inl, inr, String, Option, List, [], ◌∷◌,
  Bool, true, false, ◌&&◌, length, min, arith, any, all, is_nil, All,
}
use mundusx.TestSwarm.{TestTask, TestResult}
use mundusx.TestSwarm.Lanes.{
  Execution, Board, Pc, looping, popping, finished, running, lost, storing, pushing, move_at,
  run_lanes, start_board, loops, start_lanes,
}
use mundusx.TestSwarm.Lanes.Counts.{waiting, reported, in_lane, in_lanes, run_lanes_conserve}
use mundusx.TestSwarm.Lanes.Ends.{
  bad, bad_lane, quiet, Settled, run_lanes-Invariant, start-Invariant,
}

abbrev pub is_finished : Pc → Bool
is_finished finished = true
is_finished looping = false
is_finished popping = false
is_finished (running task) = false
is_finished (lost task) = false
is_finished (storing result) = false
is_finished (pushing result) = false

is_finished-eq : (pc : Pc) → is_finished pc ≡ true → pc ≡ finished
is_finished-eq finished e = refl
is_finished-eq looping e = absurd (ground (arith, e))
is_finished-eq popping e = absurd (ground (arith, e))
is_finished-eq (running task) e = absurd (ground (arith, e))
is_finished-eq (lost task) e = absurd (ground (arith, e))
is_finished-eq (storing result) e = absurd (ground (arith, e))
is_finished-eq (pushing result) e = absurd (ground (arith, e))

and_both : (a b : Bool) → (a && b) ≡ true → (a ≡ true) × (b ≡ true)
and_both a b e = (ground (arith, e), ground (arith, e))

-- Finished lanes hold nothing.
finished-in_lanes :
    (p : TestTask → Bool) (pcs : List Pc) → all is_finished pcs ≡ true → in_lanes p pcs ≡ 0
unfolding all in_lanes
finished-in_lanes p [] e = refl
finished-in_lanes p (pc ∷ pcs) e =
    let both = and_both (is_finished pc) (all is_finished pcs) e in
    omega (arith, ap (in_lane p) (is_finished-eq pc both.0), finished-in_lanes p pcs both.1)

finished-bad_lane : (pcs : List Pc) → all is_finished pcs ≡ true → any bad_lane pcs ≡ false
unfolding all any
finished-bad_lane [] e = refl
finished-bad_lane (pc ∷ pcs) e =
    let both = and_both (is_finished pc) (all is_finished pcs) e in
    ground (arith, ap bad_lane (is_finished-eq pc both.0), finished-bad_lane pcs both.1)

finished-quiet :
    (fail_fast : Bool) (board : Board) (pcs : List Pc)
    → 1 ≤ length pcs
    → all is_finished pcs ≡ true
    → All (Settled fail_fast board) pcs
    → quiet fail_fast board ≡ true
unfolding all
finished-quiet fail_fast board [] n e s = absurd (omega (arith, n))
finished-quiet fail_fast board (pc ∷ pcs) n e s =
    let both = and_both (is_finished pc) (all is_finished pcs) e in
    subst (Settled fail_fast board) (is_finished-eq pc both.0) s.0

all_good :
    (results : List TestResult) → all (λ r. r.success) results ≡ true → any bad results ≡ false
unfolding all any
all_good [] e = refl
all_good (result ∷ results) e = ground (arith, all_good results)

nil-waiting :
    (p : TestTask → Bool) (queue : List TestTask) → is_nil queue ≡ true → waiting p queue ≡ 0
unfolding waiting
nil-waiting p [] e = refl
nil-waiting p (task ∷ queue) e = absurd (ground (arith, e))

length-loops : (n : ℕ) → length (loops n) ≡ n
length-loops zero = refl
length-loops (suc n) = omega (arith, length-loops n)

length-move_at :
    (fail_fast : Bool) (run_dir : String) (lane i : ℕ) (execution : Option Execution)
    (board : Board) (pcs : List Pc)
    → length (move_at fail_fast run_dir lane i execution board pcs).1 ≡ length pcs
unfolding move_at
length-move_at fail_fast run_dir lane i execution board [] = refl
length-move_at fail_fast run_dir lane zero execution board (pc ∷ pcs) = refl
length-move_at fail_fast run_dir lane (suc i) execution board (pc ∷ pcs) =
    ap suc (length-move_at fail_fast run_dir (lane + 1) i execution board pcs)

length-run_lanes :
    (fail_fast : Bool) (run_dir : String) (moves : List (ℕ × Option Execution)) (board : Board)
    (pcs : List Pc)
    → length (run_lanes fail_fast run_dir moves board pcs).1 ≡ length pcs
unfolding run_lanes
length-run_lanes fail_fast run_dir [] board pcs = refl
length-run_lanes fail_fast run_dir ((i, execution) ∷ moves) board pcs =
    let after = move_at fail_fast run_dir 0 i execution board pcs in
    length-run_lanes fail_fast run_dir moves after.0 after.1
    ∙ length-move_at fail_fast run_dir 0 i execution board pcs

-- Let every lane of a run finish, so that none panicked. If the run is not `fail_fast`, or if all
-- its results are successes, then every task has its results: for every kind of tasks, there are
-- as many results of the kind as there are tasks. No task is left out, and none runs twice.
pub run_lanes_finished :
    (fail_fast : Bool) (run_dir : String) (workers : ℕ) (tasks : List TestTask)
    (moves : List (ℕ × Option Execution)) (p : TestTask → Bool)
    → 1 ≤ workers
    → 1 ≤ length tasks
    → all is_finished
        (run_lanes fail_fast run_dir moves (start_board tasks) (start_lanes workers tasks)).1
      ≡ true
    → (fail_fast ≡ false)
      ⊎ (all
            (λ r. r.success)
            (run_lanes fail_fast run_dir moves
              (start_board tasks)
              (start_lanes workers tasks)).0.results
          ≡ true)
    → reported p
        (run_lanes fail_fast run_dir moves
          (start_board tasks)
          (start_lanes workers tasks)).0.results
      ≡ waiting p tasks
unfolding start_lanes
run_lanes_finished fail_fast run_dir workers tasks moves p w t ends good =
    let final = run_lanes fail_fast run_dir moves (start_board tasks) (start_lanes workers tasks) in
    let v =
      run_lanes-Invariant fail_fast run_dir moves (start_board tasks) (start_lanes workers tasks)
        (start-Invariant fail_fast run_dir workers tasks) in
    let count =
      length-run_lanes fail_fast run_dir moves (start_board tasks) (start_lanes workers tasks)
      ∙ length-loops (min workers (length tasks)) in
    let calm =
      finished-quiet fail_fast final.0 final.1 (omega (arith, count, w, t)) ends v.settled in
    let held = finished-bad_lane final.1 ends in
    let empty : is_nil final.0.queue ≡ true = elim good [
      | inl slow ↦ ground (arith, slow, calm)
      | inr fine ↦ ground (arith, calm, held, v.blamed, all_good final.0.results fine)
    ] in
    omega (
      arith,
      run_lanes_conserve p fail_fast run_dir workers tasks moves,
      finished-in_lanes p final.1 ends,
      nil-waiting p final.0.queue empty,
    )
