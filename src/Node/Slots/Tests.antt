-- ===== src/Node/Slots/Tests.antt =====
-- Evaluations of `SlotPool` of agents/node/src/local_api.rs and the theorems at concrete inputs.
use mundusx.Prelude.{◌≡◌, refl, ◌+◌, [], ◌∷◌, ◌++◌, max, false, arith, leb, if◌then◌else◌, length}
use mundusx.Node.Slots.{new_pool, available, outside, holding, move, move_at, Schedule, run_threads}
use mundusx.Node.Slots.Safety.{
  Counts, held, threads, alone, refused, run_threads-safe, run_threads-alone,
}

-- Both threads read the counter before either adds to it: one of them has to read it again.
abbrev racing : Schedule
racing = (0, false) ∷ (1, false) ∷ (0, false) ∷ (1, false) ∷ (1, false) ∷ []

one_of_two :
    run_threads racing (new_pool 1) (threads 2)
    ≡ (record { capacity = 1; active = 1 }, holding ∷ outside ∷ [])
unfolding run_threads move_at move
one_of_two = refl

permits_come_back :
    run_threads ((0, false) ∷ []) (record { capacity = 1; active = 1 }) (holding ∷ [])
    ≡ (record { capacity = 1; active = 0 }, outside ∷ [])
unfolding run_threads move_at move
permits_come_back = refl

run_threads-safe_example :
    Counts
      (max 1 1)
      (run_threads racing (new_pool 1) (threads 2)).0
      (held (run_threads racing (new_pool 1) (threads 2)).1)
run_threads-safe_example = run_threads-safe 1 2 racing (omega arith)

-- One spurious failure.
run_threads-alone_example :
    run_threads
      (alone (length (holding ∷ [])) false 1)
      (record { capacity = 2; active = 1 })
      ((holding ∷ []) ++ outside ∷ [])
    ≡ (if leb 1 (available (record { capacity = 2; active = 1 }))
        then (record { capacity = 2; active = 1 + 1 }, (holding ∷ []) ++ holding ∷ [])
        else (record { capacity = 2; active = 1 }, (holding ∷ []) ++ refused 1 1 ∷ []))
unfolding held
run_threads-alone_example =
    run_threads-alone (holding ∷ []) [] (record { capacity = 2; active = 1 }) false 1
      (record { same_capacity = refl; counted = refl; bounded = omega arith }) (omega arith)
