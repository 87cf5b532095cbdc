-- ===== src/Harness/Loop/Fixtures.antt =====
-- The fixtures of the unit tests of harness_loop.rs.
use mundusx.Prelude.{ℕ, String, push_str, none, some, List, [], ◌∷◌, Result, ok, err, Bool, false}
use mundusx.Harness.Loop.{
  LoopBudgets, Harness, LoopFailure, ToolRequest, ToolResult, ModelAction, tool, finish,
}

-- `FixtureModel` and `FixtureTools`, with the operations that were executed.
pub record Fixture : Type 0 where
  pub actions : List (ModelAction (Unit {0}))
  pub results : List (ToolResult (Unit {0}))
  pub log : List String
  pub stop : Bool
  pub clock : ℕ

abbrev pub next :
    Fixture → List (ModelAction (Unit {0})) → Result LoopFailure (ModelAction (Unit {0})) × Fixture
next f [] =
    (err (record { code = "HARNESS_MODEL_OUTPUT_INVALID"; message = "fixture exhausted" }), f)
next f (a ∷ rest) = (ok a, record f { actions = rest })

abbrev pub run :
    ToolRequest (Unit {0})
    → Fixture
    → List (ToolResult (Unit {0}))
    → Result LoopFailure (ToolResult (Unit {0})) × Fixture
run r f [] =
    (err (record { code = "HARNESS_TOOL_RESULT_INVALID"; message = "fixture exhausted" }), f)
run r f (t ∷ rest) = (
  ok (record t { tool_call_id = r.tool_call_id; operation = r.operation }),
  record f { results = rest; log = r.operation ∷ f.log },
)

abbrev pub fixture : Harness (Unit {0}) Fixture
fixture = record {
  cancelled = λ f. (f.stop, f);
  elapsed_ms = λ f. (f.clock, f);
  next_action = λ c f. next f f.actions;
  model_turn = λ a f. (ok tt, f);
  execute = λ r f. run r f f.results;
  tool_call = λ r t f. (ok tt, f);
}

abbrev pub call : String → String → ModelAction (Unit {0})
call id operation =
    tool (record {
      tool_call_id = id;
      operation = operation;
      idempotency_key = some "key";
      input = tt;
    })

abbrev pub result : String → String → ToolResult (Unit {0})
result status progress = record {
  tool_call_id = "";
  operation = "";
  status = status;
  code = none;
  output = tt;
  output_bytes = 16;
  progress_sha256 =
      let p8 = push_str progress (
        push_str progress (
          push_str progress (
            push_str progress
              (push_str progress (push_str progress (push_str progress progress)))))) in
      push_str p8
        (push_str p8 (push_str p8 (push_str p8 (push_str p8 (push_str p8 (push_str p8 p8))))));
}

abbrev pub budgets : LoopBudgets
budgets = record {
  max_wall_time_ms = 5000;
  max_model_turns = 12;
  max_tool_calls = 10;
  max_repair_attempts = 2;
  max_output_bytes = 4096;
}

abbrev pub allowed : List String
allowed = "file.read" ∷ "patch.apply" ∷ "validation.run" ∷ []

abbrev pub repair : Fixture
repair = record {
  actions =
      call "read" "file.read"
      ∷ call "patch-1" "patch.apply"
      ∷ call "test-1" "validation.run"
      ∷ call "patch-2" "patch.apply"
      ∷ call "test-2" "validation.run"
      ∷ finish "fixed and verified"
      ∷ [];
  results =
      result "succeeded" "1"
      ∷ result "succeeded" "2"
      ∷ result "failed" "3"
      ∷ result "succeeded" "4"
      ∷ result "succeeded" "5"
      ∷ [];
  log = [];
  stop = false;
  clock = 0;
}

abbrev pub stalled : Fixture
stalled = record repair {
  actions = let read = call "read" "file.read" in read ∷ read ∷ read ∷ read ∷ [];
  results = let same = result "succeeded" "a" in same ∷ same ∷ same ∷ same ∷ [];
}
