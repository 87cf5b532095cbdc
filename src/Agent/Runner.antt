-- ===== src/Agent/Runner.antt =====
-- The agent's loop of turns, packages/agent-core/src/runtime.rs: `turn` is one pass of the `for`
-- loop, in parts that stand in the source's order, and `run` is `AgentRunner::run`.
mod Types
pub mod Protocol
mod States
pub mod Conformance
pub mod Turns
mod Tests
mod Texts
pub use Types.*
unfoldable pub use Texts.*
use mundusx.Prelude.{
  ℕ, zero, suc, ◌+◌, String, len, push_str, Option, none, some, List, [], ◌∷◌, Bool, true, false,
  Result, ok, err, is_nil, is_empty, starts_with, trim, trim_start_text, trim_end_text, decimal,
  if◌then◌else◌, ltb, add_u32, add_u64, clamp, max,
}
use mundusx.Agent.Effect.{M, pure, throw, map_err, ◌>>=◌}
use mundusx.Agent.Event.{
  AgentEvent, AgentEventKind, StoreError, model_requested, model_responded, tool_proposed,
  approval_requested, approval_resolved, tool_started, tool_completed, context_compacted,
  session_cancelled, final_response_produced, user_message_received, checkpoint_saved,
}
use mundusx.Agent.Tool.{
  ToolRegistry, ToolDefinition, ApprovalRequest, ApprovalDecision, static_decide, definitions,
  definition, execute, mutating,
}
use mundusx.Agent.Context.{ContextWindow, compact_transcript}

-- `AgentRunner::new` and its builder methods.
module _ {F : Type 0} where
  abbrev pub new_runner : F → AgentRunner F
  new_runner temperature = record {
    max_turns = 12;
    max_tokens = 1024;
    temperature = temperature;
    max_tool_calls = 32;
    max_context_chars = 65536;
    additional_instructions = [];
  }

  abbrev pub with_max_turns : AgentRunner F → ℕ → AgentRunner F
  with_max_turns r n = record r { max_turns = max n 1 }

  abbrev pub with_max_tool_calls : AgentRunner F → ℕ → AgentRunner F
  with_max_tool_calls r n = record r { max_tool_calls = max n 1 }

  abbrev pub with_context_limit : AgentRunner F → ℕ → AgentRunner F
  with_context_limit r n = record r { max_context_chars = max n 1024 }

  abbrev pub with_instructions : AgentRunner F → List String → AgentRunner F
  with_instructions r instructions = record r { additional_instructions = instructions }

module _ {V F C W : Type 0} (json : Json V) (host : Host V F W) (tools : ToolRegistry V C W)
    (runner : AgentRunner F) (context : C) (session_id : String) where
  -- `AgentEvent::new`
  new_event : ℕ → AgentEventKind V → W → AgentEvent V × W
  new_event sequence kind w =
      let (id, w1) = host.new_id w in
      let (now, w2) = host.unix_time_ms w1 in
      (
        record {
          id = id;
          session_id = session_id;
          sequence = sequence;
          recorded_at_ms = now;
          kind = kind;
        },
        w2,
      )

  -- `store.append(&AgentEvent::new(…))?; sequence += 1;`
  pub log : RunState → AgentEventKind V → M W AgentRunError RunState
  unfolding new_event
  log s kind w =
      let (event, w') = new_event s.sequence kind w in
      (do
        _ ← (λ w. map_err store (host.append event w))
        pure (record s { sequence = add_u64 s.sequence 1 }))
        w'

  pub stop_if : RunState → Bool → M W AgentRunError RunState
  stop_if s true = do _ ← log s session_cancelled; throw cancelled
  stop_if s false = pure s

  pub poll : RunState → Option (W → Bool × W) → M W AgentRunError RunState
  poll s none w = (ok s, w)
  poll s (some check) w = let (stop, w') = check w in stop_if s stop w'

  pub compact : RunState → M W AgentRunError RunState
  compact s =
      let window = compact_transcript s.transcript runner.max_context_chars in
      if window.compacted
      then (do
        s' ← log s (context_compacted window.original_chars (len window.text))
        pure (record s' { transcript = window.text }))
      else pure s

  -- The model's reply, with the events before and after it.
  pub ask_model : String → RunState → M W AgentRunError (RunState × String)
  ask_model prompt s = do
    s1 ← log s (model_requested host.provider_name host.model_name)
    raw ← (λ w. map_err model (
        host.complete
          (record {
            system_prompt = prompt;
            transcript = s1.transcript;
            max_tokens = some runner.max_tokens;
            temperature = some runner.temperature;
          })
          w))
    s2 ← log s1 (model_responded (some raw))
    pure (s2, raw)

  -- `ToolCompleted`, and the result's place in the transcript.
  complete_tool : RunState → String → String → V → Bool → M W AgentRunError Flow
  complete_tool s raw call_id payload is_error = do
    s1 ← log s (tool_completed call_id payload is_error)
    text ← (λ w. (protocol_error (json.to_string payload), w))
    pure (more (record s1 { transcript = with_result s1.transcript raw call_id text }))

  abbrev outcome_of : Result String V → V × Bool
  outcome_of (ok value) = (value, false)
  outcome_of (err e) = (json.error_object e, true)

  run_tool : RunState → String → String → String → V → M W AgentRunError Flow
  run_tool s raw call_id tool arguments = do
    s1 ← log s (tool_started call_id)
    (payload, is_error) ←
        (λ w. let (r, w') = execute tools tool arguments context w in (ok (outcome_of r), w'))
    complete_tool s1 raw call_id payload is_error

  -- `self.approval`, or the provider that refuses every mutation.
  decide :
      Option (ApprovalRequest V → W → ApprovalDecision × W)
      → ApprovalRequest V
      → M W AgentRunError ApprovalDecision
  decide none request w = (ok (static_decide false request), w)
  decide (some provider) request w = let (decision, w') = provider request w in (ok decision, w')

  abbrev approval_reason : String → String
  approval_reason tool = push_str tool " can change local state or execute a process"

  -- After the decision: the event, and on a refusal the call's error result.
  resolve : RunState → String → String → String → V → Bool → String → M W AgentRunError Flow
  resolve s raw call_id tool arguments approved reason = do
    s1 ← log s (approval_resolved call_id approved)
    (if approved
        then run_tool s1 raw call_id tool arguments
        else complete_tool s1 raw call_id (json.error_object reason) true)

  ask_approval : RunState → String → String → String → V → M W AgentRunError Flow
  unfolding decide resolve
  ask_approval s raw call_id tool arguments = do
    s1 ← log s (approval_requested call_id (approval_reason tool))
    decision ← decide host.approval (record {
      call_id = call_id;
      tool = tool;
      arguments = arguments;
      reason = approval_reason tool;
    })
    resolve s1 raw call_id tool arguments decision.approved decision.reason

  -- The arm `ModelAction::ToolCall`.
  pub propose : RunState → String → String → String → V → M W AgentRunError Flow
  propose s raw call_id tool arguments = do
    s1 ← log s (tool_proposed call_id tool arguments)
    (if mutating (definition tools tool)
        then ask_approval s1 raw call_id tool arguments
        else run_tool s1 raw call_id tool arguments)

  limit_message : String
  limit_message =
      push_str "agent exceeded its " (push_str (decimal runner.max_tool_calls) " tool-call limit")

  pub act : ℕ → String → RunState → ModelAction V → M W AgentRunError Flow
  unfolding limit_message propose
  act turn raw s (final content) = do
    s1 ← log s (final_response_produced content)
    pure (
        done (record {
          content = content;
          turns = turn;
          tool_calls = s.tool_calls;
          next_sequence = s1.sequence;
        }))
  act turn raw s (tool_call call_id tool arguments) =
      let counted = record s { tool_calls = add_u32 s.tool_calls 1 } in
      if ltb runner.max_tool_calls counted.tool_calls
      then throw (protocol limit_message)
      else propose counted raw call_id tool arguments

  -- One pass of the `for` loop.
  pub turn : String → ℕ → RunState → M W AgentRunError Flow
  unfolding poll stop_if compact ask_model act
  turn prompt n s = do
    s1 ← poll s host.cancellation
    s2 ← compact s1
    (s3, raw) ← ask_model prompt s2
    action ← (λ w. (parse_action json raw, w))
    act n raw s3 action

  after_turn :
      (RunState → M W AgentRunError AgentRunOutcome) → Flow → M W AgentRunError AgentRunOutcome
  after_turn rest (done outcome) = pure outcome
  after_turn rest (more s) = rest s

  -- `for turn in 1..=max_turns`, with the turns left and the number of the next.
  pub run_turns : String → ℕ → ℕ → RunState → M W AgentRunError AgentRunOutcome
  unfolding after_turn
  run_turns prompt zero n s = throw (turn_limit runner.max_turns)
  run_turns prompt (suc left) n s = do
    flow ← turn prompt n s
    after_turn (run_turns prompt left (n + 1)) flow

  pub run : ℕ → String → String → M W AgentRunError AgentRunOutcome
  unfolding run_turns
  run sequence user_input prior_transcript = do
    tool_text ← (λ w. (protocol_error (json.definitions_to_string_pretty (definitions tools)), w))
    run_turns (system_prompt tool_text runner.additional_instructions) runner.max_turns 1 (record {
      sequence = sequence;
      transcript = first_transcript prior_transcript user_input;
      tool_calls = 0;
    })
