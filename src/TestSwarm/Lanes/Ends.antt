-- ===== src/TestSwarm/Lanes/Ends.antt =====
-- What every schedule of the lanes keeps: a finished lane had a reason to finish, and the flag of a
-- failed run has a failed result behind it, apps/cli/src/swarm.rs.
use mundusx.Prelude.{
  ℕ, zero, suc, ◌+◌, ◌≡◌, refl, sym, subst, inl, inr, String, Option, none, some, List, [], ◌∷◌,
  ◌++◌, Bool, true, false, ◌&&◌, ◌||◌, not, length, min, arith, Bool-cases, any, is_nil, All,
  All-map,
}
use mundusx.TestSwarm.{TestTask, TestResult}
use mundusx.TestSwarm.Lanes.{
  Execution, run_one, Board, Pc, looping, popping, finished, running, lost, storing, pushing, pop,
  move, move_at, run_lanes, start_board, loops, start_lanes,
}

abbrev pub bad : TestResult → Bool
bad result = not result.success

abbrev pub bad_lane : Pc → Bool
bad_lane looping = false
bad_lane popping = false
bad_lane finished = false
bad_lane (running task) = false
bad_lane (lost task) = false
bad_lane (storing result) = false
bad_lane (pushing result) = bad result

-- If the flag is set, a result failed, which was reported or is about to be.
abbrev pub Blamed : Board → Bool → Type 0
Blamed board held = (not board.failed || (any bad board.results || held)) ≡ true

any-append : (xs ys : List TestResult) → any bad (xs ++ ys) ≡ (any bad xs || any bad ys)
unfolding any
any-append [] ys = refl
any-append (x ∷ xs) ys = ground (arith, any-append xs ys)

or_swap : (a b c : Bool) → (a || (b || c)) ≡ (b || (a || c))
or_swap a b c = ground arith

or_assoc : (a b c : Bool) → ((a || b) || c) ≡ (a || (b || c))
or_assoc a b c = ground arith

module _ (fail_fast : Bool) where
  -- No lane has a reason to go on.
  abbrev pub quiet : Board → Bool
  quiet board = is_nil board.queue || (fail_fast && board.failed)

  abbrev pub Settled : Board → Pc → Type 0
  Settled board looping = Unit
  Settled board popping = Unit
  Settled board finished = quiet board ≡ true
  Settled board (running task) = Unit
  Settled board (lost task) = Unit
  Settled board (storing result) = bad result ≡ true
  Settled board (pushing result) = Unit

  -- What a move makes of the board and its lane, with the other lanes' `held`.
  record Kept (board : Board) (held : Bool) (pc : Pc) (after : Board × Pc) : Type 0 where
    stays_quiet : quiet board ≡ true → quiet after.0 ≡ true
    settled : Settled after.0 after.1
    blamed : Blamed board (bad_lane pc || held) → Blamed after.0 (bad_lane after.1 || held)

  pop-Kept :
      (failed : Bool) (results : List TestResult) (held : Bool) (queue : List TestTask)
      → Kept
          (record { queue = queue; failed = failed; results = results })
          held
          popping
          (pop failed results queue)
  pop-Kept failed results held [] = record {
    stays_quiet = λ q. refl;
    settled = refl;
    blamed = λ b. b;
  }
  pop-Kept failed results held (task ∷ queue) = record {
    stays_quiet = λ q. ground (arith, q);
    settled = tt;
    blamed = λ b. b;
  }

  module _ (run_dir : String) where
    move-Kept :
        (lane : ℕ) (execution : Option Execution) (board : Board) (held : Bool) (pc : Pc)
        → Settled board pc
        → Kept board held pc (move fail_fast run_dir lane execution board pc)
    unfolding move any
    move-Kept lane execution board held looping s = elim (Bool-cases (fail_fast && board.failed)) [
      | inl stop ↦
          rw stop (record { stays_quiet = λ q. q; settled = ground (arith, stop); blamed = λ b. b })
      | inr more ↦ rw more (record { stays_quiet = λ q. q; settled = tt; blamed = λ b. b })
    ]
    move-Kept lane execution board held popping s =
        pop-Kept board.failed board.results held board.queue
    move-Kept lane none board held (running task) s = record {
      stays_quiet = λ q. q;
      settled = tt;
      blamed = λ b. b;
    }
    move-Kept lane (some execution) board held (running task) s =
        elim (Bool-cases (not (run_one run_dir lane task execution).success)) [
          | inl fails ↦ rw fails (record { stays_quiet = λ q. q; settled = fails; blamed = λ b. b })
          | inr passes ↦ rw passes (record {
            stays_quiet = λ q. q;
            settled = tt;
            blamed = λ b. ground (arith, passes, b);
          })
        ]
    move-Kept lane execution board held (storing result) s = record {
      stays_quiet = λ q. ground (arith, q);
      settled = tt;
      blamed = λ b. ground (arith, s);
    }
    move-Kept lane execution board held (pushing result) s = record {
      stays_quiet = λ q. q;
      settled = tt;
      blamed = λ b. ground (arith, any-append board.results (result ∷ []), b);
    }
    move-Kept lane execution board held finished s = record {
      stays_quiet = λ q. q;
      settled = s;
      blamed = λ b. b;
    }
    move-Kept lane execution board held (lost task) s = record {
      stays_quiet = λ q. q;
      settled = tt;
      blamed = λ b. b;
    }

    -- The other lanes stay settled.
    Settled-later :
        (board after : Board) (pc : Pc)
        → (quiet board ≡ true → quiet after ≡ true)
        → Settled board pc
        → Settled after pc
    Settled-later board after looping f s = tt
    Settled-later board after popping f s = tt
    Settled-later board after finished f s = f s
    Settled-later board after (running task) f s = tt
    Settled-later board after (lost task) f s = tt
    Settled-later board after (storing result) f s = s
    Settled-later board after (pushing result) f s = tt

    pub record Invariant (board : Board) (others : Bool) (pcs : List Pc) : Type 0 where
      pub settled : All (Settled board) pcs
      pub blamed : Blamed board (others || any bad_lane pcs)

    -- With the lanes before these, whose failed results are `others`.
    move_at-Invariant :
        (lane i : ℕ) (execution : Option Execution) (board : Board) (others : Bool) (pcs : List Pc)
        → Invariant board others pcs
        → (quiet board ≡ true
            → quiet (move_at fail_fast run_dir lane i execution board pcs).0 ≡ true)
          × Invariant
              (move_at fail_fast run_dir lane i execution board pcs).0
              others
              (move_at fail_fast run_dir lane i execution board pcs).1
    unfolding move_at any
    move_at-Invariant lane i execution board others [] v = (λ q. q, v)
    move_at-Invariant lane zero execution board others (pc ∷ pcs) v =
        let held = others || any bad_lane pcs in
        let kept = move-Kept lane execution board held pc v.settled.0 in
        let after = move fail_fast run_dir lane execution board pc in
        (
          kept.stays_quiet,
          record {
            settled = (
              kept.settled,
              All-map (Settled board) (Settled after.0) pcs
                  (λ q. Settled-later board after.0 q kept.stays_quiet) v.settled.1,
            );
            blamed =
                subst (λ b. Blamed after.0 b) (or_swap (bad_lane after.1) others (any bad_lane pcs))
                  (kept.blamed (
                    subst (λ b. Blamed board b) (or_swap others (bad_lane pc) (any bad_lane pcs))
                      v.blamed));
          },
        )
    move_at-Invariant lane (suc i) execution board others (pc ∷ pcs) v =
        let after = move_at fail_fast run_dir (lane + 1) i execution board pcs in
        let rest =
          move_at-Invariant (lane + 1) i execution board (others || bad_lane pc) pcs (record {
            settled = v.settled.1;
            blamed =
                subst (λ b. Blamed board b) (sym (or_assoc others (bad_lane pc) (any bad_lane pcs)))
                  v.blamed;
          }) in
        (
          rest.0,
          record {
            settled = (Settled-later board after.0 pc rest.0 v.settled.0, rest.1.settled);
            blamed =
                subst (λ b. Blamed after.0 b) (or_assoc others (bad_lane pc) (any bad_lane after.1))
                  rest.1.blamed;
          },
        )

    pub run_lanes-Invariant :
        (moves : List (ℕ × Option Execution)) (board : Board) (pcs : List Pc)
        → Invariant board false pcs
        → Invariant
            (run_lanes fail_fast run_dir moves board pcs).0
            false
            (run_lanes fail_fast run_dir moves board pcs).1
    unfolding run_lanes
    run_lanes-Invariant [] board pcs v = v
    run_lanes-Invariant ((i, execution) ∷ moves) board pcs v =
        let after = move_at fail_fast run_dir 0 i execution board pcs in
        run_lanes-Invariant moves after.0 after.1
          (move_at-Invariant 0 i execution board false pcs v).1

    loops-Settled : (board : Board) (n : ℕ) → All (Settled board) (loops n)
    loops-Settled board zero = tt
    loops-Settled board (suc n) = (tt, loops-Settled board n)

    pub start-Invariant :
        (workers : ℕ) (tasks : List TestTask)
        → Invariant (start_board tasks) false (start_lanes workers tasks)
    unfolding start_board start_lanes
    start-Invariant workers tasks = record {
      settled = loops-Settled (start_board tasks) (min workers (length tasks));
      blamed = refl;
    }
