-- ===== src/Harness/Loop/Tests.antt =====
-- The unit tests of harness_loop.rs as evaluations, and the theorems at concrete inputs.
use mundusx.Prelude.{
  ℕ, zero, suc, ◌≡◌, refl, String, Option, none, some, List, [], ◌∷◌, true, false, contains, all,
  all_chars, is_blank, arith,
}
use mundusx.Harness.Loop.{
  LoopOutcome, LoopState, initial, ToolRequest, ToolResult, ModelAction, Next, stop, again,
  side_effecting, key_rejected, is_sha256, summary_refused, finish_with, refusal, result_invalid,
  note_progress, validation_failed, count_repair, accept_result, executed, run_tool, dispatch,
  take_turn, iteration, loop_context, run_bounded_loop, run_bounded_loop_observed,
}
use mundusx.Harness.Loop.Fixtures.{
  Fixture, next, run, fixture, result, budgets, allowed, repair, call, stalled,
}
use mundusx.Harness.Loop.Invariant.{InRange, IsFinal}
use mundusx.Harness.Loop.Rounds.{Respects}
use mundusx.Harness.Loop.Guarantees.{loop-IsFinal, loop-Respects}
use mundusx.Harness.Loop.Repeats.{Counted}
use mundusx.Harness.Loop.Progress.{
  Reached, begun, went_on, Reached-Counted, loop-FourAlike, FourAlike,
}

abbrev view :
    Option (LoopOutcome (Unit {0}) × Fixture) → Option (String × ℕ × ℕ × ℕ × Option String)
view none = none
view (some (o, f)) = some (o.status, o.model_turns, o.tool_calls, o.repair_attempts, o.code)

inspect_patch_fail_repair_validate_and_finish :
    view (run_bounded_loop fixture budgets allowed repair) ≡ some ("completed", 6, 5, 1, none)
unfolding run_bounded_loop iteration take_turn loop_context dispatch run_tool finish_with
    summary_refused is_blank refusal contains side_effecting key_rejected executed accept_result
    result_invalid is_sha256 all_chars note_progress count_repair validation_failed
inspect_patch_fail_repair_validate_and_finish = refl

no_progress :
    view (run_bounded_loop fixture budgets allowed stalled)
    ≡ some ("partial", 4, 4, 0, some "HARNESS_NO_PROGRESS")
unfolding run_bounded_loop iteration take_turn loop_context dispatch run_tool refusal contains
    side_effecting key_rejected executed accept_result result_invalid is_sha256 all_chars
    note_progress count_repair validation_failed
no_progress = refl

unsupported :
    view (
      run_bounded_loop fixture budgets allowed
        (record repair { actions = call "x" "shell.exec" ∷ [] }))
    ≡ some ("failed", 1, 0, 0, some "HARNESS_OPERATION_UNSUPPORTED")
unfolding run_bounded_loop iteration take_turn loop_context dispatch run_tool refusal contains
unsupported = refl

budgets-InRange : InRange budgets
budgets-InRange = omega arith

loop-IsFinal_example :
    (o : LoopOutcome (Unit {0})) × (w' : Fixture) × (run_bounded_loop_observed fixture budgets
        allowed repair
      ≡ some (o, w'))
    × IsFinal budgets o
loop-IsFinal_example = loop-IsFinal fixture budgets allowed budgets-InRange repair

-- Every operation in the log is an allowed one.
abbrev LogAllowed : Fixture → Type 0
LogAllowed f = all (contains allowed) f.log ≡ true

run-LogAllowed :
    (r : ToolRequest (Unit {0})) (f : Fixture) (ts : List (ToolResult (Unit {0})))
    → contains allowed r.operation ≡ true
    → LogAllowed f
    → LogAllowed (run r f ts).1
unfolding all
run-LogAllowed r f [] listed p = p
run-LogAllowed r f (t ∷ ts) listed p = rw listed p

next-LogAllowed :
    (f : Fixture) (actions : List (ModelAction (Unit {0})))
    → LogAllowed f
    → LogAllowed (next f actions).1
next-LogAllowed f [] p = p
next-LogAllowed f (a ∷ rest) p = p

fixture-Respects : Respects fixture allowed LogAllowed
fixture-Respects = record {
  cancelled_keeps = λ f p. p;
  elapsed_keeps = λ f p. p;
  next_action_keeps = λ c f p. next-LogAllowed f f.actions p;
  model_turn_keeps = λ a f p. p;
  execute_keeps = λ r f auth p. run-LogAllowed r f f.results auth.listed p;
  tool_call_keeps = λ r t f p. p;
}

loop-Respects_example :
    (o : LoopOutcome (Unit {0})) × (w' : Fixture) × (run_bounded_loop_observed fixture budgets
        allowed repair
      ≡ some (o, w'))
    × LogAllowed w'
unfolding all
loop-Respects_example =
    loop-Respects fixture budgets allowed budgets-InRange LogAllowed fixture-Respects repair refl

-- The result of each call of `stalled`, and the state and the world after so many of its rounds.
abbrev same_result : ToolResult (Unit {0})
same_result = record (result "succeeded" "a") { tool_call_id = "read"; operation = "file.read" }

abbrev state_of : Next (Unit {0}) × Fixture → LoopState (Unit {0}) × Fixture
state_of (again s, w) = (s, w)
state_of (stop o, w) = (initial, w)

abbrev rounds : ℕ → LoopState (Unit {0}) × Fixture
rounds zero = (initial, stalled)
rounds (suc n) =
    let before = rounds n in state_of (iteration fixture budgets allowed before.0 before.1)

three_rounds :
    Reached fixture budgets allowed stalled
      (same_result ∷ same_result ∷ same_result ∷ [])
      (rounds 3).0
      (rounds 3).1
unfolding iteration take_turn loop_context dispatch run_tool refusal contains side_effecting
    key_rejected executed accept_result result_invalid is_sha256 all_chars note_progress
    count_repair validation_failed
three_rounds = went_on (went_on (went_on begun refl refl) refl refl) refl refl

Reached-Counted_example :
    Counted budgets (same_result ∷ same_result ∷ same_result ∷ []) (rounds 3).0
Reached-Counted_example = Reached-Counted fixture budgets allowed stalled (omega arith) three_rounds

abbrev stopped : LoopOutcome (Unit {0})
stopped = record {
  status = "partial";
  code = some "HARNESS_NO_PROGRESS";
  summary = none;
  model_turns = 4;
  tool_calls = 4;
  repair_attempts = 0;
  output_bytes = 64;
  last_result = some same_result;
}

abbrev spent : Fixture
spent = record {
  actions = [];
  results = [];
  log = "file.read" ∷ "file.read" ∷ "file.read" ∷ "file.read" ∷ [];
  stop = false;
  clock = 0;
}

stalled_run : run_bounded_loop_observed fixture budgets allowed stalled ≡ some (stopped, spent)
unfolding run_bounded_loop_observed iteration take_turn loop_context dispatch run_tool refusal
    contains side_effecting key_rejected executed accept_result result_invalid is_sha256 all_chars
    note_progress count_repair validation_failed
stalled_run = refl

loop-FourAlike_example : FourAlike fixture budgets allowed stalled stopped spent
loop-FourAlike_example =
    loop-FourAlike fixture budgets allowed stalled (omega arith) stopped spent stalled_run refl refl
