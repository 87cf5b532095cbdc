-- ===== src/Node/Slots.antt =====
-- The pool of job slots, `SlotPool` of agents/node/src/local_api.rs.
--
-- A thread moves one atomic access at a time, in any order with the others: a schedule names the
-- thread of each move, and whether a weak compare-exchange fails without a cause.
pub mod Safety
pub mod Tests
use mundusx.Prelude.{
  ℕ, zero, suc, ◌+◌, ◌-◌, ◌%◌, ◌^◌, max, List, [], ◌∷◌, Bool, not, ◌&&◌, leb, ◌==◌, if◌then◌else◌,
}

pub record SlotPool : Type 0 where
  pub capacity : ℕ
  pub active : ℕ  -- AtomicUsize

-- `SlotPool::new`
abbrev pub new_pool : ℕ → SlotPool
new_pool capacity = record { capacity = max capacity 1; active = 0 }

unfoldable pub available : SlotPool → ℕ
available pool = pool.capacity - pool.active

-- Where a thread stands, with the value that it read last.
pub data Pc : Type 0 where
  outside : Pc
  looked : (active : ℕ) → Pc
  holding : Pc

abbrev pub usize : ℕ → ℕ
usize n = n % 2 ^ 64

-- One access: the load of `try_acquire`, a round of its loop, or the drop of a permit.
unfoldable pub move : Bool → SlotPool → Pc → SlotPool × Pc
move spurious pool outside = (pool, looked pool.active)
move spurious pool (looked active) =
    if leb pool.capacity active
    then (pool, outside)
    else if not spurious && pool.active == active
    then (record { capacity = pool.capacity; active = usize (active + 1) }, holding)
    else (pool, looked pool.active)
move spurious pool holding =
    (record { capacity = pool.capacity; active = usize (pool.active + 2 ^ 64 - 1) }, outside)

-- A move of the thread of this index, if there is one.
unfoldable pub move_at : ℕ → Bool → SlotPool → List Pc → SlotPool × List Pc
move_at i spurious pool [] = (pool, [])
move_at zero spurious pool (pc ∷ pcs) =
    let after = move spurious pool pc in (after.0, after.1 ∷ pcs)
move_at (suc i) spurious pool (pc ∷ pcs) =
    let after = move_at i spurious pool pcs in (after.0, pc ∷ after.1)

abbrev pub Schedule : Type 0
Schedule = List (ℕ × Bool)

unfoldable pub run_threads : Schedule → SlotPool → List Pc → SlotPool × List Pc
run_threads [] pool pcs = (pool, pcs)
run_threads ((i, spurious) ∷ moves) pool pcs =
    let after = move_at i spurious pool pcs in run_threads moves after.0 after.1
