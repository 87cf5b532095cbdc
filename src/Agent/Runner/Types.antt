-- ===== src/Agent/Runner/Types.antt =====
-- The data of packages/agent-core/src/runtime.rs and model.rs. `V` is `serde_json::Value`, `F` is
-- `f32`, `C` is `ToolContext` and `W` is the world that the trait objects act on.
use mundusx.Prelude.{ℕ, String, Option, List, Bool, Result}
use mundusx.Agent.Event.{AgentEvent, StoreError}
use mundusx.Agent.Tool.{ToolDefinition, ApprovalRequest, ApprovalDecision}

pub record ModelRequest (F : Type 0) : Type 0 where
  pub system_prompt : String
  pub transcript : String
  pub max_tokens : Option ℕ
  pub temperature : Option F

pub data ModelAction (V : Type 0) : Type 0 where
  tool_call : (call_id tool : String) → (arguments : V) → ModelAction V
  final : (content : String) → ModelAction V

pub record AgentRunOutcome : Type 0 where
  pub content : String
  pub turns : ℕ
  pub tool_calls : ℕ
  pub next_sequence : ℕ

pub data AgentRunError : Type 0 where
  model protocol : (message : String) → AgentRunError
  store : StoreError → AgentRunError
  turn_limit : (limit : ℕ) → AgentRunError
  cancelled : AgentRunError

-- `serde_json`, as the runtime calls it: each function may fail with the text of its error.
pub record Json (V : Type 0) : Type 0 where
  pub action_from_str : String → Result String (ModelAction V)
  pub to_string : V → Result String String
  pub definitions_to_string_pretty : List (ToolDefinition V) → Result String String
  -- `json!({"error": message})`
  pub error_object : String → V

-- The trait objects `ModelProvider`, `ApprovalProvider` and `AgentEventStore`, the closure for the
-- cancellation, and what `AgentEvent::new` reads: a fresh UUID and the clock.
pub record Host (V F W : Type 0) : Type 0 where
  pub provider_name : String
  pub model_name : String
  pub complete : ModelRequest F → W → Result String String × W
  pub append : AgentEvent V → W → Result StoreError (Unit {0}) × W
  pub approval : Option (ApprovalRequest V → W → ApprovalDecision × W)
  pub cancellation : Option (W → Bool × W)
  pub new_id : W → String × W
  pub unix_time_ms : W → ℕ × W

-- The settings of `AgentRunner`.
pub record AgentRunner (F : Type 0) : Type 0 where
  pub max_turns : ℕ
  pub max_tokens : ℕ
  pub temperature : F
  pub max_tool_calls : ℕ
  pub max_context_chars : ℕ
  pub additional_instructions : List String

-- The local variables of `run` that change.
pub record RunState : Type 0 where
  pub sequence : ℕ
  pub transcript : String
  pub tool_calls : ℕ

-- How a turn ends: by the `return` of an outcome, or by going on.
pub data Flow : Type 0 where
  done : AgentRunOutcome → Flow
  more : RunState → Flow
