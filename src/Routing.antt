-- ===== src/Routing.antt =====
-- The choice of a node for a job, apps/cli/src/routing.rs, with the types of apps/cli/src/types.rs.
--
-- A score is a double: its arithmetic, its order and its text are the parameter `Floats`.
pub mod Best
pub mod Tests
use mundusx.Prelude.{
  ℕ, String, Option, none, some, List, [], ◌∷◌, Bool, true, false, not, ◌&&◌, is_nil, any, push_str,
  str_eq, if◌then◌else◌,
}

pub data Backend : Type 0 where
  auto m cuda vulkan vllm : Backend

pub data NodeState : Type 0 where
  online busy idle offline : NodeState

pub record NodeStatus : Type 0 where
  pub node_id : String
  pub backend : Backend
  pub state : NodeState
  pub available_memory_mb : ℕ
  pub available_gpu_percent : ℕ
  pub label : String
  pub region : Option String
  pub policy_allowed : Option Bool
  pub worker_healthy : Option Bool
  pub models : List String

-- The fields of a request that the choice reads.
pub record JobRequest : Type 0 where
  pub request_id : String
  pub preferred_backend : Backend
  pub model : Option String

pub record RoutingDecision : Type 0 where
  pub request_id : String
  pub selected_node_id : Option String
  pub selected_backend : Option Backend
  pub reason : String

-- What the code uses of `f64`.
pub record Floats (F : Type 0) : Type 0 where
  pub of_int : ℕ → F
  pub minus_one : F
  pub neg_infinity : F
  pub plus : F → F → F
  pub over : F → F → F
  pub least : F → F → F
  pub gt : F → F → Bool
  pub ge : F → F → Bool
  pub two_digits : F → String

abbrev pub is_auto : Backend → Bool
is_auto auto = true
is_auto m = false
is_auto cuda = false
is_auto vulkan = false
is_auto vllm = false

abbrev pub is_offline : NodeState → Bool
is_offline offline = true
is_offline online = false
is_offline busy = false
is_offline idle = false

abbrev pub is_false : Option Bool → Bool
is_false none = false
is_false (some b) = not b

-- The model is one that the node advertises, or the node advertises none, or none is required.
abbrev pub serves : Option String → NodeStatus → Bool
serves none node = true
serves (some required) node =
    not (not (is_nil node.models) && not (any (λ model. str_eq model required) node.models))

-- `==` on backends
abbrev pub same_backend : Backend → Backend → Bool
same_backend auto b = is_auto b
same_backend m m = true
same_backend m auto = false
same_backend m cuda = false
same_backend m vulkan = false
same_backend m vllm = false
same_backend cuda cuda = true
same_backend cuda auto = false
same_backend cuda m = false
same_backend cuda vulkan = false
same_backend cuda vllm = false
same_backend vulkan vulkan = true
same_backend vulkan auto = false
same_backend vulkan m = false
same_backend vulkan cuda = false
same_backend vulkan vllm = false
same_backend vllm vllm = true
same_backend vllm auto = false
same_backend vllm m = false
same_backend vllm cuda = false
same_backend vllm vulkan = false

module _ {F : Type 0} (floats : Floats F) where
  abbrev state_score : NodeState → F
  state_score idle = floats.of_int 12
  state_score online = floats.of_int 8
  state_score busy = floats.of_int 3
  state_score offline = floats.minus_one

  abbrev backend_score : Backend → F
  backend_score m = floats.of_int 8
  backend_score cuda = floats.of_int 0
  backend_score vulkan = floats.of_int 0
  backend_score vllm = floats.of_int 0
  backend_score auto = floats.of_int 0

  abbrev pub live_score : NodeStatus → F
  live_score node =
      floats.plus
        (floats.plus
          (floats.plus (state_score node.state) (
            floats.least (floats.over (floats.of_int node.available_memory_mb) (floats.of_int 1024))
              (floats.of_int 32)))
          (floats.over (floats.of_int node.available_gpu_percent) (floats.of_int 10)))
        (backend_score node.backend)

  unfoldable pub score_node : NodeStatus → Backend → F
  score_node node preferred =
      if is_offline node.state
      then floats.minus_one
      else if is_false node.policy_allowed
      then floats.minus_one
      else if is_false node.worker_healthy
      then floats.minus_one
      else if not (is_auto preferred) && not (same_backend node.backend preferred)
      then floats.minus_one
      else live_score node

  -- The best node so far, with its score.
  pub record Leader : Type 0 where
    pub best_node : Option NodeStatus
    pub best_score : F

  abbrev pub consider : JobRequest → Leader → NodeStatus → Leader
  consider request best node =
      if not (serves request.model node)
      then best
      else if floats.gt (score_node node request.preferred_backend) best.best_score
      then record { best_node = some node; best_score = score_node node request.preferred_backend }
      else best

  unfoldable pub best_of : JobRequest → List NodeStatus → Leader → Leader
  best_of request [] best = best
  best_of request (node ∷ nodes) best = best_of request nodes (consider request best node)

  abbrev pub nobody : JobRequest → RoutingDecision
  nobody request = record {
    request_id = request.request_id;
    selected_node_id = none;
    selected_backend = none;
    reason = "no live node matched the request";
  }

  abbrev pub decision : JobRequest → Option NodeStatus → F → RoutingDecision
  decision request none score = nobody request
  decision request (some node) score =
      if floats.ge score (floats.of_int 0)
      then record {
        request_id = request.request_id;
        selected_node_id = some node.node_id;
        selected_backend = some node.backend;
        reason =
            push_str "selected "
              (push_str node.label (push_str " with score " (floats.two_digits score)));
      }
      else nobody request

  abbrev pub no_best : Leader
  no_best = record { best_node = none; best_score = floats.neg_infinity }

  unfoldable pub select_best_node : List NodeStatus → JobRequest → RoutingDecision
  select_best_node nodes request =
      let best = best_of request nodes no_best in decision request best.best_node best.best_score
