-- ===== src/Node/Capacity/Bounds.antt =====
-- Bounds of the numbers that a node advertises, agents/node/src/main.rs and agents/node/src/worker.rs.
use Prim.Native.Nat.{◌/◌}
use native.Mathlib.Nat.{mul-le-mul_left, mul-le-mul_right}
use mundusx.Prelude.{
  ℕ, ◌*◌, ◌≤◌, ◌<◌, ◌↔◌, ◌⊎◌, inl, inr, arith, String, Option, none, some, leb, Bool-cases,
  to_ascii_lowercase,
}
use mundusx.Node.Capacity.{
  Backend, auto, m, cuda, vulkan, vllm, saturating_mul, saturating_add, contributed_cluster_slots,
  recommended_parallel_slots, memory_slots, slots_for_model, slots_of_memory, capacity_memory_mb,
  name_or_empty,
}

one_or_more :
    {H B : Type 0} (slots : ℕ)
    → (H → 1 < slots → B)
    → (slots ≤ 1 → H)
    → (B → H)
    → H ↔ ((slots ≤ 1) ⊎ B)
one_or_more slots many one within = (
  (λ h. elim (Bool-cases (leb slots 1)) [
    | inl few ↦ inl (ground (arith, few))
    | inr more ↦ inr (many h (ground (arith, more)))
  ]),
  (λ x. elim x [ inl a ↦ one a | inr b ↦ within b ]),
)

-- Whether the cluster allows a number of slots: what it says of itself allows them, and without a
-- configured number of sequences no more than 16 are believed, or one when it says nothing.
abbrev pub Allows : Option ℕ → Option ℕ → ℕ → Type 0
Allows none none slots = slots ≤ 1
Allows none (some concurrency) slots = (slots ≤ concurrency) × (slots ≤ 16)
Allows (some sequences) none slots = slots ≤ sequences
Allows (some sequences) (some concurrency) slots = (slots ≤ sequences) × (slots ≤ concurrency)

-- The slots of a contributed cluster are the most that the cluster allows and a u8 counts, and one
-- where it allows none: a number of slots is within them exactly when it is at most one, or at most
-- 255 and allowed.
pub contributed_cluster_slots-le_iff :
    (max_num_seqs max_concurrency : Option ℕ) (slots : ℕ)
    → (slots ≤ contributed_cluster_slots max_num_seqs max_concurrency)
      ↔ ((slots ≤ 1) ⊎ ((slots ≤ 255) × Allows max_num_seqs max_concurrency slots))
unfolding contributed_cluster_slots
contributed_cluster_slots-le_iff none none slots =
    one_or_more slots (λ h m. omega arith) (λ a. omega arith) (λ b. omega arith)
contributed_cluster_slots-le_iff none (some concurrency) slots =
    one_or_more slots (λ h m. (omega arith, (omega arith, omega arith))) (λ a. omega arith)
      (λ b. omega arith)
contributed_cluster_slots-le_iff (some sequences) none slots =
    one_or_more slots (λ h m. (omega arith, omega arith)) (λ a. omega arith) (λ b. omega arith)
contributed_cluster_slots-le_iff (some sequences) (some concurrency) slots =
    one_or_more slots (λ h m. (omega arith, (omega arith, omega arith))) (λ a. omega arith)
      (λ b. omega arith)

memory_slots-le : (backend : Backend) (usable : ℕ) → memory_slots backend usable ≤ 4
memory_slots-le auto usable = omega arith
memory_slots-le vulkan usable = omega arith
memory_slots-le cuda usable = ground arith
memory_slots-le m usable = ground arith
memory_slots-le vllm usable = ground arith

memory_slots_mono :
    (backend : Backend) (usable more : ℕ)
    → usable ≤ more
    → memory_slots backend usable ≤ memory_slots backend more
memory_slots_mono auto usable more le = omega arith
memory_slots_mono vulkan usable more le = omega arith
memory_slots_mono cuda usable more le = ground arith
memory_slots_mono m usable more le = ground arith
memory_slots_mono vllm usable more le = ground arith

slots_for_model_mono :
    (model : String) (slots more : ℕ)
    → slots ≤ more
    → slots_for_model model slots ≤ slots_for_model model more
slots_for_model_mono model slots more le = ground arith

slots_for_model-le : (model : String) (slots : ℕ) → slots ≤ 4 → slots_for_model model slots ≤ 4
slots_for_model-le model slots le = ground arith

usable_mono :
    (memory more percent higher : ℕ)
    → memory ≤ more
    → percent ≤ higher
    → saturating_add (saturating_mul memory percent) 99 / 100
      ≤ saturating_add (saturating_mul more higher) 99 / 100
usable_mono memory more percent higher a b =
    let p : memory * percent ≤ memory * higher = mul-le-mul_left memory b in
    let q : memory * higher ≤ more * higher = mul-le-mul_right higher a in omega arith

-- The memory of a machine, or none.
abbrev pub AtMost : Option ℕ → Option ℕ → Type 0
AtMost none none = Unit
AtMost none (some n) = ⊥
AtMost (some n) none = ⊥
AtMost (some n) (some k) = n ≤ k

slots_of_memory_mono :
    (backend : Backend) (memory more : Option ℕ) (percent higher : ℕ) (model : Option String)
    → AtMost memory more
    → percent ≤ higher
    → slots_of_memory backend memory percent model ≤ slots_of_memory backend more higher model
slots_of_memory_mono backend none none percent higher model a b = omega arith
slots_of_memory_mono backend none (some k) percent higher model a b = absurd a
slots_of_memory_mono backend (some n) none percent higher model a b = absurd a
slots_of_memory_mono backend (some n) (some k) percent higher model a b = omega (
  arith,
  slots_for_model_mono (to_ascii_lowercase (name_or_empty model)) _ _
      (memory_slots_mono backend _ _ (usable_mono n k percent higher a b)),
)

slots_of_memory-bounds :
    (backend : Backend) (memory : Option ℕ) (percent : ℕ) (model : Option String)
    → (1 ≤ slots_of_memory backend memory percent model)
      × (slots_of_memory backend memory percent model ≤ 4)
slots_of_memory-bounds backend none percent model = (omega arith, omega arith)
slots_of_memory-bounds backend (some n) percent model = (
  omega arith,
  omega (
    arith,
    slots_for_model-le (to_ascii_lowercase (name_or_empty model)) _ (memory_slots-le backend _),
  ),
)

-- The recommended number of slots is from one to four, and for the same backend and model it does not
-- fall when the memory or the contribution grows.
pub recommended_parallel_slots-grow :
    (backend : Backend) (vram vram' unified unified' : Option ℕ) (percent higher : ℕ)
    (model : Option String)
    → AtMost vram vram'
    → AtMost unified unified'
    → percent ≤ higher
    → (1 ≤ recommended_parallel_slots backend vram unified percent model)
      × (recommended_parallel_slots backend vram unified percent model
          ≤ recommended_parallel_slots backend vram' unified' higher model)
      × (recommended_parallel_slots backend vram' unified' higher model ≤ 4)
unfolding recommended_parallel_slots
recommended_parallel_slots-grow backend vram vram' unified unified' percent higher model v u p = (
  (slots_of_memory-bounds backend (capacity_memory_mb backend vram unified) percent model).0,
  slots_of_memory_mono backend _ _ percent higher model (picked backend) p,
  (slots_of_memory-bounds backend (capacity_memory_mb backend vram' unified') higher model).1,
)
  where
    picked :
        (b : Backend)
        → AtMost (capacity_memory_mb b vram unified) (capacity_memory_mb b vram' unified')
    picked auto = tt
    picked vulkan = tt
    picked cuda = v
    picked m = u
    picked vllm = u
