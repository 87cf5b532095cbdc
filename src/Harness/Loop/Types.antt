-- ===== src/Harness/Loop/Types.antt =====
-- The data of agents/node/src/harness_loop.rs. `V` is `serde_json::Value`, which the loop only
-- passes on. The traits `HarnessModel`, `HarnessTools` and `HarnessLoopObserver`, the closure
-- `cancelled` and the clock are the record `Harness`, over a world `W` that each call may change.
use mundusx.Prelude.{ℕ, String, Option, none, Bool, Result}

pub record LoopBudgets : Type 0 where
  pub max_wall_time_ms : ℕ
  pub max_model_turns : ℕ
  pub max_tool_calls : ℕ
  pub max_repair_attempts : ℕ
  pub max_output_bytes : ℕ

pub record ToolRequest (V : Type 0) : Type 0 where
  pub tool_call_id : String
  pub operation : String
  pub idempotency_key : Option String
  pub input : V

pub data ModelAction (V : Type 0) : Type 0 where
  tool : ToolRequest V → ModelAction V
  finish : String → ModelAction V

pub record ToolResult (V : Type 0) : Type 0 where
  pub tool_call_id : String
  pub operation : String
  pub status : String
  pub code : Option String
  pub output : V
  pub output_bytes : ℕ
  pub progress_sha256 : String

pub record LoopContext (V : Type 0) : Type 0 where
  pub turn : ℕ
  pub repair_attempts : ℕ
  pub remaining_tool_calls : ℕ
  pub remaining_output_bytes : ℕ
  pub last_result : Option (ToolResult V)

pub record LoopOutcome (V : Type 0) : Type 0 where
  pub status : String
  pub code : Option String
  pub summary : Option String
  pub model_turns : ℕ
  pub tool_calls : ℕ
  pub repair_attempts : ℕ
  pub output_bytes : ℕ
  pub last_result : Option (ToolResult V)

pub record LoopFailure : Type 0 where
  pub code : String
  pub message : String

-- The `&mut` values that the loop is given. `elapsed_ms` reads `started.elapsed()`.
pub record Harness (V W : Type 0) : Type 0 where
  pub cancelled : W → Bool × W
  pub elapsed_ms : W → ℕ × W
  pub next_action : LoopContext V → W → Result LoopFailure (ModelAction V) × W
  pub model_turn : ModelAction V → W → Result LoopFailure (Unit {0}) × W
  pub execute : ToolRequest V → W → Result LoopFailure (ToolResult V) × W
  pub tool_call : ToolRequest V → ToolResult V → W → Result LoopFailure (Unit {0}) × W

-- The local variables of the loop.
pub record LoopState (V : Type 0) : Type 0 where
  pub outcome : LoopOutcome V
  pub last_progress : Option String
  pub repeated_progress : ℕ

-- How one round of the loop ends: by a `return`, or by going round again.
pub data Next (V : Type 0) : Type 0 where
  stop : LoopOutcome V → Next V
  again : LoopState V → Next V

-- `LoopOutcome` and locals before the first round.
abbrev pub initial : {V : Type 0} → LoopState V
initial = record {
  outcome = record {
    status = "running";
    code = none;
    summary = none;
    model_turns = 0;
    tool_calls = 0;
    repair_attempts = 0;
    output_bytes = 0;
    last_result = none;
  };
  last_progress = none;
  repeated_progress = 0;
}
