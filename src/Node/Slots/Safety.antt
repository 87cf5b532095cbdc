-- ===== src/Node/Slots/Safety.antt =====
-- No schedule of the threads gives out more permits than the pool of agents/node/src/local_api.rs has.
use mundusx.Prelude.{
  ℕ, zero, suc, ◌+◌, ◌-◌, ◌^◌, ◌≤◌, ◌<◌, ◌≡◌, ◌∙◌, refl, max, List, [], ◌∷◌, Bool, true, false, not,
  ◌&&◌, arith, leb, ◌==◌, if◌then◌else◌, inl, inr, Bool-cases, subst, length, ◌++◌,
}
use mundusx.Node.Slots.{
  SlotPool, new_pool, available, Pc, outside, looked, holding, move, move_at, Schedule, run_threads,
}

abbrev pub permits : Pc → ℕ
permits outside = 0
permits (looked active) = 0
permits holding = 1

-- The permits that are held.
unfoldable pub held : List Pc → ℕ
held [] = 0
held (pc ∷ pcs) = permits pc + held pcs

-- The counter is the number of permits that are held, and there are no more than slots.
pub record Counts (capacity : ℕ) (pool : SlotPool) (held : ℕ) : Type 0 where
  pub same_capacity : pool.capacity ≡ capacity
  pub counted : pool.active ≡ held
  pub bounded : held ≤ capacity

Counts-eq :
    (capacity h h' : ℕ) (pool : SlotPool)
    → h ≡ h'
    → Counts capacity pool h
    → Counts capacity pool h'
Counts-eq capacity h h' pool p = subst (Counts capacity pool) p

module _ (capacity : ℕ) (small : capacity < 2 ^ 64) where
  -- With `others` permits held elsewhere.
  move-Counts :
      (spurious : Bool) (pool : SlotPool) (pc : Pc) (others : ℕ)
      → Counts capacity pool (others + permits pc)
      → Counts capacity (move spurious pool pc).0 (others + permits (move spurious pool pc).1)
  unfolding move
  move-Counts spurious pool outside others c = c
  move-Counts spurious pool (looked active) others c =
      let s = c.same_capacity in
      let n = c.counted in
      let b = c.bounded in
      elim (Bool-cases (leb pool.capacity active)) [
        | inl full ↦ rw full c
        | inr free ↦ elim (Bool-cases (not spurious && pool.active == active)) [
          | inl won ↦
              rw (free, won)
                (record { same_capacity = s; counted = ground arith; bounded = ground arith })
          | inr lost ↦ rw (free, lost) c
        ]
      ]
  move-Counts spurious pool holding others c =
      let s = c.same_capacity in
      let n = c.counted in
      let b = c.bounded in
      record { same_capacity = s; counted = ground arith; bounded = ground arith }

  move_at-Counts :
      (i : ℕ) (spurious : Bool) (pool : SlotPool) (pcs : List Pc) (others : ℕ)
      → Counts capacity pool (others + held pcs)
      → Counts capacity
          (move_at i spurious pool pcs).0
          (others + held (move_at i spurious pool pcs).1)
  unfolding move_at held
  move_at-Counts i spurious pool [] others c = c
  move_at-Counts zero spurious pool (pc ∷ pcs) others c = Counts-eq capacity _ _ _ (omega arith) (
      move-Counts spurious pool pc (others + held pcs)
        (Counts-eq capacity _ _ pool (omega arith) c))
  move_at-Counts (suc i) spurious pool (pc ∷ pcs) others c =
      Counts-eq capacity _ _ _ (omega arith) (
        move_at-Counts i spurious pool pcs (others + permits pc)
          (Counts-eq capacity _ _ pool (omega arith) c))

  run_threads-Counts :
      (moves : Schedule) (pool : SlotPool) (pcs : List Pc)
      → Counts capacity pool (held pcs)
      → Counts capacity (run_threads moves pool pcs).0 (held (run_threads moves pool pcs).1)
  unfolding run_threads
  run_threads-Counts [] pool pcs c = c
  run_threads-Counts ((i, spurious) ∷ moves) pool pcs c = run_threads-Counts moves _ _ (
      Counts-eq capacity _ _ _ (omega arith)
        (move_at-Counts i spurious pool pcs 0 (Counts-eq capacity _ _ pool (omega arith) c)))

-- `n` threads that hold nothing.
abbrev pub threads : ℕ → List Pc
threads zero = []
threads (suc n) = outside ∷ threads n

held-threads : (n : ℕ) → held (threads n) ≡ 0
unfolding held
held-threads zero = refl
held-threads (suc n) = omega (arith, held-threads n)

-- From a new pool of a capacity that fits the machine word, whatever the schedule of the threads: the
-- capacity stays, the counter is the number of permits that are held, and never more are held than
-- the capacity, which is at least one.
pub run_threads-safe :
    (capacity n : ℕ) (moves : Schedule)
    → capacity < 2 ^ 64
    → let after = run_threads moves (new_pool capacity) (threads n) in
      Counts (max capacity 1) after.0 (held after.1)
run_threads-safe capacity n moves small =
    run_threads-Counts (max capacity 1) (omega arith) moves (new_pool capacity) (threads n)
      (record {
        same_capacity = refl;
        counted = omega (arith, held-threads n);
        bounded = omega (arith, held-threads n);
      })

move_at-append :
    (before after : List Pc) (pc : Pc) (spurious : Bool) (pool : SlotPool)
    → move_at (length before) spurious pool (before ++ pc ∷ after)
      ≡ ((move spurious pool pc).0, before ++ (move spurious pool pc).1 ∷ after)
unfolding move_at
move_at-append [] after pc spurious pool = refl
move_at-append (p ∷ before) after pc spurious pool =
    rw (move_at-append before after pc spurious pool) refl

-- The moves of one thread alone: its load, `failures` of its compare-exchange without a cause, and
-- a compare-exchange that does not fail so.
abbrev pub failing : ℕ → ℕ → Schedule
failing i zero = (i, false) ∷ []
failing i (suc failures) = (i, true) ∷ failing i failures

abbrev pub alone : ℕ → Bool → ℕ → Schedule
alone i spurious failures = (i, spurious) ∷ failing i failures

-- Where a thread stands when no slot is available: it is refused, and it looks again.
abbrev pub refused : ℕ → ℕ → Pc
refused active zero = outside
refused active (suc zero) = looked active
refused active (suc (suc moves)) = refused active moves

module _ (before after : List Pc) (pool : SlotPool) where
  moved :
      (pc : Pc) (spurious : Bool) (moves : Schedule)
      → run_threads ((length before, spurious) ∷ moves) pool (before ++ pc ∷ after)
        ≡ run_threads moves (move spurious pool pc).0 (before ++ (move spurious pool pc).1 ∷ after)
  unfolding run_threads
  moved pc spurious moves = rw (move_at-append before after pc spurious pool) refl

  failing-full :
      (failures : ℕ)
      → leb pool.capacity pool.active ≡ true
      → (run_threads (failing (length before) failures) pool (before ++ looked pool.active ∷ after)
          ≡ (pool, before ++ refused pool.active failures ∷ after))
        × (run_threads (failing (length before) failures) pool (before ++ outside ∷ after)
            ≡ (pool, before ++ refused pool.active (suc failures) ∷ after))
  unfolding run_threads move
  failing-full zero full =
      (moved (looked pool.active) false [] ∙ rw full refl, moved outside false [])
  failing-full (suc failures) full =
      let rest = failing-full failures full in
      (
        moved (looked pool.active) true (failing (length before) failures) ∙ rw full rest.1,
        moved outside true (failing (length before) failures) ∙ rest.0,
      )

  failing-free :
      (failures : ℕ)
      → leb pool.capacity pool.active ≡ false
      → pool.active + 1 < 2 ^ 64
      → run_threads (failing (length before) failures) pool (before ++ looked pool.active ∷ after)
        ≡ (record { capacity = pool.capacity; active = pool.active + 1 }, before ++ holding ∷ after)
  unfolding run_threads move
  failing-free zero free small = moved (looked pool.active) false [] ∙ rw free (ground arith)
  failing-free (suc failures) free small =
      moved (looked pool.active) true (failing (length before) failures)
      ∙ rw free (failing-free failures free small)

-- A thread tries to get a permit while no other moves: its compare-exchange fails without a cause any
-- number of times, and then does not. If a slot was available, it has a permit and the counter is one
-- more; if none was, the pool and the other threads are as they were and it has none. The counter is
-- the number of the permits that are held, and the capacity fits the machine word.
pub run_threads-alone :
    (before after : List Pc) (pool : SlotPool) (spurious : Bool) (failures : ℕ)
    → Counts pool.capacity pool (held (before ++ outside ∷ after))
    → pool.capacity < 2 ^ 64
    → run_threads (alone (length before) spurious failures) pool (before ++ outside ∷ after) ≡ (
        if leb 1 (available pool)
        then (
          record { capacity = pool.capacity; active = pool.active + 1 },
          before ++ holding ∷ after,
        )
        else (pool, before ++ refused pool.active failures ∷ after))
unfolding available move
run_threads-alone before after pool spurious failures c small =
    let n = c.counted in
    let b = c.bounded in
    moved before after pool outside spurious (failing (length before) failures)
    ∙ elim (Bool-cases (leb pool.capacity pool.active)) [
      | inl full ↦
          let none_left : leb 1 (pool.capacity - pool.active) ≡ false = ground (arith, full) in
          rw none_left ((failing-full before after pool failures full).0)
      | inr free ↦
          let left : leb 1 (pool.capacity - pool.active) ≡ true = ground (arith, free) in
          rw left (failing-free before after pool failures free (ground (arith, free)))
    ]
