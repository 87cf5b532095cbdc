-- ===== src/Node/Capacity/Tests.antt =====
-- Evaluations of agents/node/src/main.rs and agents/node/src/worker.rs and the theorems at concrete inputs.
use mundusx.Prelude.{
  ◌≤◌, ◌≡◌, refl, arith, ◌↔◌, ◌⊎◌, some, none, any, to_ascii_lowercase, map_chars,
}
use mundusx.Node.Capacity.{
  Backend, contributed_cluster_slots, capacity_rank, classify_capacity, recommended_parallel_slots,
  context_size_for,
}
use mundusx.Node.Capacity.Bounds.{
  contributed_cluster_slots-le_iff, Allows, recommended_parallel_slots-grow,
}
use mundusx.Node.Capacity.Classes.{classify_capacity-grow}

rtx_5090_advertises_four_small_model_slots :
    recommended_parallel_slots Backend.cuda (some 32607) none 80 (some "llama3.2:3b") ≡ 4
unfolding recommended_parallel_slots any to_ascii_lowercase map_chars
rtx_5090_advertises_four_small_model_slots = refl

mlx_large_models_reduce_parallel_slots :
    recommended_parallel_slots Backend.m none (some 131072) 100 (some "Qwen2.5-14B") ≡ 2
unfolding recommended_parallel_slots any to_ascii_lowercase map_chars
mlx_large_models_reduce_parallel_slots = refl

unverified_clusters_are_capped : contributed_cluster_slots none (some 900) ≡ 16
unfolding contributed_cluster_slots
unverified_clusters_are_capped = refl

context_size_has_a_floor_for_short_prompts : context_size_for "hi" 16 ≡ 1024
unfolding context_size_for
context_size_has_a_floor_for_short_prompts = refl

contributed_cluster_slots-le_iff_example :
    (16 ≤ contributed_cluster_slots none (some 900))
    ↔ ((16 ≤ 1) ⊎ ((16 ≤ 255) × Allows none (some 900) 16))
contributed_cluster_slots-le_iff_example = contributed_cluster_slots-le_iff none (some 900) 16

recommended_parallel_slots-grow_example :
    (1 ≤ recommended_parallel_slots Backend.m none (some 16384) 50 (some "llama3.1:8b"))
    × (recommended_parallel_slots Backend.m none (some 16384) 50 (some "llama3.1:8b")
        ≤ recommended_parallel_slots Backend.m none (some 65536) 80 (some "llama3.1:8b"))
    × (recommended_parallel_slots Backend.m none (some 65536) 80 (some "llama3.1:8b") ≤ 4)
recommended_parallel_slots-grow_example =
    recommended_parallel_slots-grow Backend.m none none (some 16384) (some 65536) 50 80
      (some "llama3.1:8b") tt (omega arith) (omega arith)

classify_capacity-grow_example :
    (1 ≤ capacity_rank (classify_capacity Backend.cuda 8192 (some 6144)))
    × (capacity_rank (classify_capacity Backend.cuda 8192 (some 6144))
        ≤ capacity_rank (classify_capacity Backend.cuda 16384 (some 24576)))
    × (capacity_rank (classify_capacity Backend.cuda 16384 (some 24576)) ≤ 6)
classify_capacity-grow_example =
    classify_capacity-grow Backend.cuda 8192 16384 (some 6144) (some 24576) (omega arith)
      (omega arith)
