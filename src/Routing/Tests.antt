-- ===== src/Routing/Tests.antt =====
-- Evaluations of apps/cli/src/routing.rs and the theorems at concrete inputs.
use Prim.Native.Nat.{◌/◌}
use mundusx.Prelude.{
  ℕ, ◌+◌, ◌-◌, ◌≡◌, refl, arith, none, some, [], ◌∷◌, true, false, ltb, leb, min, any, decimal,
}
use mundusx.Routing.{
  Floats, NodeStatus, JobRequest, Backend, NodeState, select_best_node, best_of, score_node,
}
use mundusx.Routing.Best.{Ordered, Decided, select_best_node-Decided}

-- Whole numbers from minus one on, two less than their representation, for the floats.
abbrev whole : Floats ℕ
whole = record {
  of_int = λ n. n + 2;
  minus_one = 1;
  neg_infinity = 0;
  plus = λ a b. a + b - 2;
  over = λ a b. (a - 2) / (b - 2) + 2;
  least = min;
  gt = λ a b. ltb b a;
  ge = λ a b. leb b a;
  two_digits = λ a. decimal (a - 2);
}

gt_trans : (a b c : ℕ) → ltb b a ≡ true → ltb c b ≡ true → ltb c a ≡ true
gt_trans a b c p q = ground arith

gt_irreflexive : (a : ℕ) → ltb a a ≡ false
gt_irreflexive a = ground arith

ge_of_not_gt : (a b c : ℕ) → ltb b a ≡ false → leb c a ≡ true → leb c b ≡ true
ge_of_not_gt a b c p q = ground arith

abbrev ordered : Ordered whole
ordered = record {
  gt_trans = gt_trans;
  gt_irreflexive = gt_irreflexive;
  ge_of_not_gt = ge_of_not_gt;
  minus_one_negative = refl;
  neg_infinity_negative = refl;
}

abbrev offline_node : NodeStatus
offline_node = record {
  node_id = "offline";
  backend = Backend.m;
  state = NodeState.offline;
  available_memory_mb = 65536;
  available_gpu_percent = 100;
  label = "offline";
  region = none;
  policy_allowed = none;
  worker_healthy = none;
  models = [];
}

abbrev live_node : NodeStatus
live_node = record {
  node_id = "live";
  backend = Backend.m;
  state = NodeState.online;
  available_memory_mb = 32768;
  available_gpu_percent = 60;
  label = "live";
  region = none;
  policy_allowed = none;
  worker_healthy = some true;
  models = "llama3.1:8b" ∷ [];
}

abbrev request : JobRequest
request = record {
  request_id = "req-2";
  preferred_backend = Backend.auto;
  model = some "llama3.1:8b";
}

skips_offline_nodes :
    (select_best_node whole (offline_node ∷ live_node ∷ []) request).selected_node_id ≡ some "live"
unfolding select_best_node best_of score_node any
skips_offline_nodes = refl

select_best_node-Decided_example :
    Decided whole request
      (offline_node ∷ live_node ∷ [])
      (select_best_node whole (offline_node ∷ live_node ∷ []) request)
select_best_node-Decided_example =
    select_best_node-Decided whole request ordered (offline_node ∷ live_node ∷ [])
