-- ===== src/Node/Capacity.antt =====
-- What a node contributes: memory, slots and capacity class, agents/node/src/main.rs and
-- agents/node/src/worker.rs. The numbers are u32 and u8 values; where the code saturates, so does the model.
pub mod Bounds
pub mod Classes
pub mod Tests
use Prim.Native.Nat.{◌/◌}
use Prim.Native.String.{count}
use mundusx.Prelude.{
  ℕ, ◌+◌, ◌*◌, ◌-◌, ◌%◌, ◌^◌, min, max, String, Option, none, some, map, List, [], ◌∷◌, Bool, true,
  false, ◌&&◌, ◌||◌, any, contains_text, to_ascii_lowercase, trim, str_eq, leb, u32_max, clamp,
  if◌then◌else◌,
}

-- `Backend` of agents/node/src/contracts.rs
pub data Backend : Type 0 where
  auto m cuda vulkan vllm : Backend

-- `a.saturating_mul(b)` and `a.saturating_add(b)` on u32
abbrev pub saturating_mul : ℕ → ℕ → ℕ
saturating_mul a b = min (a * b) u32_max

abbrev pub saturating_add : ℕ → ℕ → ℕ
saturating_add a b = min (a + b) u32_max

unfoldable pub cap_applied_memory_mb : ℕ → ℕ → ℕ
cap_applied_memory_mb physical_memory_mb contribution_percent =
    saturating_add (saturating_mul physical_memory_mb contribution_percent) 99 / 100

unfoldable pub cap_applied_vram_mb : Option ℕ → ℕ → Option ℕ
cap_applied_vram_mb none contribution_percent = none
cap_applied_vram_mb (some vram) contribution_percent =
    some (saturating_add (saturating_mul vram contribution_percent) 99 / 100)

abbrev pub max_unverified_cluster_slots : ℕ
max_unverified_cluster_slots = 16

abbrev pub value_or : Option ℕ → ℕ → ℕ
value_or none d = d
value_or (some n) d = n

abbrev reported_slots : Option ℕ → Option ℕ → ℕ
reported_slots (some configured) max_concurrency =
    min configured (value_or max_concurrency configured)
reported_slots none max_concurrency = min (value_or max_concurrency 1) max_unverified_cluster_slots

-- From the cluster's `max_num_seqs` and `max_concurrency`.
unfoldable pub contributed_cluster_slots : Option ℕ → Option ℕ → ℕ
contributed_cluster_slots max_num_seqs max_concurrency =
    min (max (reported_slots max_num_seqs max_concurrency) 1) 255

unfoldable pub capacity_rank : String → ℕ
capacity_rank class =
    let name = to_ascii_lowercase (trim class) in
    if str_eq name "server"
    then 6
    else if str_eq name "synthesis"
    then 5
    else if str_eq name "heavy"
    then 4
    else if str_eq name "performance"
    then 3
    else if str_eq name "standard"
    then 2
    else if str_eq name "micro"
    then 1
    else 0

abbrev pub is_vllm : Backend → Bool
is_vllm vllm = true
is_vllm auto = false
is_vllm m = false
is_vllm cuda = false
is_vllm vulkan = false

unfoldable pub classify_capacity : Backend → ℕ → Option ℕ → String
classify_capacity backend usable_memory_mb usable_vram_mb =
    let vram = value_or usable_vram_mb 0 in
    if is_vllm backend
    then "server"
    else if leb 65536 usable_memory_mb || leb 49152 vram
    then "synthesis"
    else if leb 32768 usable_memory_mb || leb 24576 vram
    then "heavy"
    else if leb 16384 usable_memory_mb || leb 12288 vram
    then "performance"
    else if leb 8192 usable_memory_mb || leb 6144 vram
    then "standard"
    else "micro"

abbrev pub capacity_memory_mb : Backend → Option ℕ → Option ℕ → Option ℕ
capacity_memory_mb cuda physical_vram_mb unified_memory_mb = physical_vram_mb
capacity_memory_mb m physical_vram_mb unified_memory_mb = unified_memory_mb
capacity_memory_mb vllm physical_vram_mb unified_memory_mb = unified_memory_mb
capacity_memory_mb auto physical_vram_mb unified_memory_mb = none
capacity_memory_mb vulkan physical_vram_mb unified_memory_mb = none

abbrev pub cuda_slots : ℕ → ℕ
cuda_slots usable =
    if leb usable 8192 then 1 else if leb usable 16384 then 2 else if leb usable 24575 then 3 else 4

abbrev pub unified_slots : ℕ → ℕ
unified_slots usable =
    if leb usable 16384
    then 1
    else if leb usable 32768
    then 2
    else if leb usable 65536
    then 3
    else 4

abbrev pub memory_slots : Backend → ℕ → ℕ
memory_slots cuda usable = cuda_slots usable
memory_slots m usable = unified_slots usable
memory_slots vllm usable = unified_slots usable
memory_slots auto usable = 1
memory_slots vulkan usable = 1

abbrev pub name_or_empty : Option String → String
name_or_empty none = ""
name_or_empty (some name) = name

-- The slots that the size of the model leaves.
abbrev pub slots_for_model : String → ℕ → ℕ
slots_for_model model slots =
    if any (contains_text model) ("32b" ∷ "34b" ∷ "65b" ∷ "70b" ∷ "72b" ∷ [])
    then 1
    else if any (contains_text model) ("13b" ∷ "14b" ∷ [])
    then min slots 2
    else if any (contains_text model) ("7b" ∷ "8b" ∷ [])
    then min slots 3
    else slots

abbrev pub slots_of_memory : Backend → Option ℕ → ℕ → Option String → ℕ
slots_of_memory backend none contribution_percent model_name = 1
slots_of_memory backend (some capacity) contribution_percent model_name =
    let usable = saturating_add (saturating_mul capacity contribution_percent) 99 / 100 in
    max
      (slots_for_model (to_ascii_lowercase (name_or_empty model_name))
        (memory_slots backend usable))
      1

unfoldable pub recommended_parallel_slots : Backend → Option ℕ → Option ℕ → ℕ → Option String → ℕ
recommended_parallel_slots backend physical_vram_mb unified_memory_mb contribution_percent
      model_name =
    slots_of_memory backend (capacity_memory_mb backend physical_vram_mb unified_memory_mb)
      contribution_percent model_name

-- `prompt.chars().count() as u32` wraps.
unfoldable pub context_size_for : String → ℕ → ℕ
context_size_for prompt max_tokens =
    let prompt_token_estimate = max (count prompt % 2 ^ 32 / 3) 32 in
    clamp (saturating_add (saturating_add prompt_token_estimate max_tokens) 256) 1024 4096
