-- ===== src/Harness/Loop.antt =====
-- The bounded model and tool loop, agents/node/src/harness_loop.rs: one function for each part of
-- a round, `iteration` for the round, and `run_loop` for the `loop` on fuel.
mod Types
pub mod Invariant
pub mod Rounds
pub mod Guarantees
pub mod Calls
pub mod Repeats
pub mod Progress
mod Fixtures
mod Tests
pub use Types.*
use mundusx.Prelude.{
  ℕ, zero, suc, ◌-◌, ◌+◌, String, len, str_eq, code, Char, Bool, true, false, not, ◌&&◌, ◌||◌,
  Option, none, some, List, Result, ok, err, leb, ltb, ◌==◌, if◌then◌else◌, contains, all_chars,
  is_blank, add_u32, add_u64, saturating_add_u64,
}

abbrev exhausted : String
exhausted = "HARNESS_BUDGET_EXHAUSTED"

unfoldable pub terminal : {V : Type 0} → LoopOutcome V → String → String → LoopOutcome V
terminal outcome status code = record outcome { status = status; code = some code }

unfoldable pub side_effecting : String → Bool
side_effecting operation =
    str_eq operation "patch.apply"
    || str_eq operation "validation.run"
    || str_eq operation "artifact.publish"

-- A non-ASCII character has no byte that is a hexadecimal digit.
is_ascii_hexdigit : Char → Bool
is_ascii_hexdigit c =
    let n = code c in
    leb b'0' n && leb n b'9' || leb b'a' n && leb n b'f' || leb b'A' n && leb n b'F'

unfoldable pub is_sha256 : String → Bool
unfolding is_ascii_hexdigit
is_sha256 value = len value == 64 && all_chars is_ascii_hexdigit value

-- The test on `idempotency_key` by `is_none_or`.
unfoldable pub key_rejected : Option String → Bool
key_rejected none = true
key_rejected (some value) = is_blank value || ltb 160 (len value)

abbrev same_progress : Option String → String → Bool
same_progress none digest = false
same_progress (some last) digest = str_eq last digest

module _ {V : Type 0} where
  -- The bookkeeping on `last_progress` and `repeated_progress`.
  unfoldable pub note_progress : LoopState V → ToolResult V → LoopState V
  note_progress s result =
      if same_progress s.last_progress result.progress_sha256
      then record s { repeated_progress = add_u32 s.repeated_progress 1 }
      else record s { last_progress = some result.progress_sha256; repeated_progress = 0 }

  unfoldable pub validation_failed : ToolRequest V → ToolResult V → Bool
  validation_failed request result =
      str_eq request.operation "validation.run" && not (str_eq result.status "succeeded")

module _ {V : Type 0} (budgets : LoopBudgets) where
  unfoldable pub loop_context : LoopOutcome V → LoopContext V
  loop_context outcome = record {
    turn = outcome.model_turns;
    repair_attempts = outcome.repair_attempts;
    remaining_tool_calls = budgets.max_tool_calls - outcome.tool_calls;
    remaining_output_bytes = budgets.max_output_bytes - outcome.output_bytes;
    last_result = outcome.last_result;
  }

  unfoldable pub summary_refused : LoopOutcome V → String → Bool
  summary_refused outcome summary =
      is_blank summary
      || ltb budgets.max_output_bytes (saturating_add_u64 outcome.output_bytes (len summary))

  -- The arm `ModelAction::Finish`.
  unfoldable pub finish_with : LoopOutcome V → String → LoopOutcome V
  unfolding terminal
  finish_with outcome summary =
      if summary_refused outcome summary
      then terminal outcome "partial" exhausted
      else record outcome {
        output_bytes = add_u64 outcome.output_bytes (len summary);
        summary = some summary;
        status = "completed";
      }

  -- The guards of the arm `ModelAction::Tool` before the call: the status and code of a refusal.
  unfoldable pub refusal : List String → LoopOutcome V → ToolRequest V → Option (String × String)
  refusal allowed_operations outcome request =
      if leb budgets.max_tool_calls outcome.tool_calls
      then some ("partial", exhausted)
      else if not (contains allowed_operations request.operation)
      then some ("failed", "HARNESS_OPERATION_UNSUPPORTED")
      else if side_effecting request.operation && key_rejected request.idempotency_key
      then some ("failed", "HARNESS_IDEMPOTENCY_REQUIRED")
      else none

  -- The test for a result that does not answer the request or leaves the budget.
  unfoldable pub result_invalid : LoopOutcome V → ToolRequest V → ToolResult V → Bool
  result_invalid outcome request result =
      not (str_eq result.tool_call_id request.tool_call_id)
      || not (str_eq result.operation request.operation)
      || not (is_sha256 result.progress_sha256)
      || ltb budgets.max_output_bytes (saturating_add_u64 outcome.output_bytes result.output_bytes)

  -- The end of the arm: the repair budget, and `last_result`.
  unfoldable pub count_repair : LoopState V → ToolRequest V → ToolResult V → Next V
  unfolding terminal
  count_repair s request result =
      let kept = record (s.outcome) { last_result = some result } in
      let repaired = record kept { repair_attempts = add_u32 kept.repair_attempts 1 } in
      if validation_failed request result
      then (if ltb budgets.max_repair_attempts repaired.repair_attempts
          then stop (terminal repaired "partial" "HARNESS_RETRY_EXHAUSTED")
          else again (record s { outcome = repaired }))
      else again (record s { outcome = kept })

  -- What follows a successful `tools.execute` and `observer.tool_call`.
  unfoldable pub accept_result : LoopState V → ToolRequest V → ToolResult V → Next V
  unfolding terminal
  accept_result s request result =
      let noted = note_progress s result in
      let bytes = add_u64 s.outcome.output_bytes result.output_bytes in
      let outcome = record (s.outcome) { output_bytes = bytes } in
      if result_invalid s.outcome request result
      then stop (terminal s.outcome "failed" "HARNESS_TOOL_RESULT_INVALID")
      else if leb 3 noted.repeated_progress
      then stop
          (terminal (record outcome { last_result = some result }) "partial" "HARNESS_NO_PROGRESS")
      else count_repair (record noted { outcome = outcome }) request result

module _ {V W : Type 0} (harness : Harness V W) (budgets : LoopBudgets) where
  observe_result :
      LoopState V → ToolRequest V → ToolResult V → Result LoopFailure (Unit {0}) × W → Next V × W
  unfolding terminal
  observe_result s request result (ok u, w) = (accept_result budgets s request result, w)
  observe_result s request result (err e, w) = (stop (terminal s.outcome "failed" e.code), w)

  executed : LoopState V → ToolRequest V → Result LoopFailure (ToolResult V) × W → Next V × W
  unfolding terminal observe_result
  executed s request (ok result, w) =
      observe_result s request result (harness.tool_call request result w)
  executed s request (err e, w) = (stop (terminal s.outcome "failed" e.code), w)

  run_tool : LoopState V → ToolRequest V → Option (String × String) → W → Next V × W
  unfolding terminal executed
  run_tool s request (some (status, code)) w = (stop (terminal s.outcome status code), w)
  run_tool s request none w =
      let counted = record (s.outcome) { tool_calls = add_u32 s.outcome.tool_calls 1 } in
      executed (record s { outcome = counted }) request (harness.execute request w)

  module _ (allowed_operations : List String) where
    dispatch : LoopState V → ModelAction V → W → Next V × W
    dispatch s (finish summary) w = (stop (finish_with budgets s.outcome summary), w)
    dispatch s (tool request) w =
        run_tool s request (refusal budgets allowed_operations s.outcome request) w

    observed : LoopState V → ModelAction V → Result LoopFailure (Unit {0}) × W → Next V × W
    unfolding terminal dispatch
    observed s action (ok u, w) = dispatch s action w
    observed s action (err e, w) = (stop (terminal s.outcome "failed" e.code), w)

    answered : LoopState V → Result LoopFailure (ModelAction V) × W → Next V × W
    unfolding terminal observed
    answered s (ok action, w) = observed s action (harness.model_turn action w)
    answered s (err e, w) = (stop (terminal s.outcome "failed" e.code), w)

    take_turn : LoopState V → W → Next V × W
    unfolding answered
    take_turn s w =
        let turned = record (s.outcome) { model_turns = add_u32 s.outcome.model_turns 1 } in
        answered (record s { outcome = turned })
          (harness.next_action (loop_context budgets turned) w)

    timed : LoopState V → ℕ × W → Next V × W
    unfolding terminal
    timed s (elapsed, w) =
        if leb budgets.max_wall_time_ms elapsed || leb budgets.max_model_turns s.outcome.model_turns
        then (stop (terminal s.outcome "partial" exhausted), w)
        else take_turn s w

    polled : LoopState V → Bool × W → Next V × W
    unfolding terminal timed
    polled s (true, w) = (stop (terminal s.outcome "cancelled" "HARNESS_CANCELLED"), w)
    polled s (false, w) = timed s (harness.elapsed_ms w)

    -- One round of the loop.
    pub iteration : LoopState V → W → Next V × W
    unfolding polled
    iteration s w = polled s (harness.cancelled w)

    continue_loop :
        (LoopState V → W → Option (LoopOutcome V × W)) → Next V × W → Option (LoopOutcome V × W)
    continue_loop rest (stop outcome, w) = some (outcome, w)
    continue_loop rest (again s, w) = rest s w

    -- `loop` on fuel: `none` means that the fuel ran out.
    pub run_loop : ℕ → LoopState V → W → Option (LoopOutcome V × W)
    unfolding continue_loop
    run_loop zero s w = none
    run_loop (suc fuel) s w = continue_loop (run_loop fuel) (iteration s w)

    pub run_bounded_loop_observed : W → Option (LoopOutcome V × W)
    unfolding run_loop
    run_bounded_loop_observed w = run_loop (suc budgets.max_model_turns) initial w

-- `NoopObserver`
abbrev pub without_observer : {V W : Type 0} → Harness V W → Harness V W
without_observer harness = record harness {
  model_turn = λ action w. (ok tt, w);
  tool_call = λ request result w. (ok tt, w);
}

pub run_bounded_loop :
    {V W : Type 0} → Harness V W → LoopBudgets → List String → W → Option (LoopOutcome V × W)
unfolding run_bounded_loop_observed
run_bounded_loop harness budgets allowed_operations w =
    run_bounded_loop_observed (without_observer harness) budgets allowed_operations w
