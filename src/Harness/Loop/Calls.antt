-- ===== src/Harness/Loop/Calls.antt =====
-- A round of harness_loop.rs that goes on, or that stops for want of progress, has accepted the result
-- of one tool call.
use mundusx.Prelude.{
  ◌<◌, ◌≡◌, refl, inl, inr, ℕ, String, some, str_eq, eq_iff, some-injective, List, Result, ok, err,
  Bool, true, false, ◌||◌, leb, Bool-cases, Option-cases, add_u32,
}
use mundusx.Harness.Loop.{
  LoopBudgets, Harness, LoopState, LoopOutcome, ToolRequest, ToolResult, ModelAction, LoopFailure,
  Next, stop, again, tool, finish, terminal, exhausted, summary_refused, finish_with, refusal,
  accept_result, observe_result, executed, run_tool, dispatch, observed, answered, take_turn, timed,
  polled, iteration,
}
use mundusx.Harness.Loop.Rounds.{refusal-some, refusal-calls}

-- A round's state when it has counted its turn, and its tool call.
abbrev pub turned : {V : Type 0} → LoopState V → LoopState V
turned s = record s {
  outcome = record (s.outcome) { model_turns = add_u32 s.outcome.model_turns 1 };
}

abbrev pub counted : {V : Type 0} → LoopState V → LoopState V
counted s = record s {
  outcome = record (s.outcome) {
    model_turns = add_u32 s.outcome.model_turns 1;
    tool_calls = add_u32 s.outcome.tool_calls 1;
  };
}

abbrev pub Stalled : {V : Type 0} → LoopOutcome V → Type 0
Stalled o = (o.status ≡ "partial") × (o.code ≡ some "HARNESS_NO_PROGRESS")

differ : (x y : String) → str_eq x y ≡ false → x ≡ y → ⊥
differ x y other same = let equal = (eq_iff x y).1 same in cc

pub failed-Stalled :
    {V : Type 0} (o : LoopOutcome V) (code : String) → Stalled (terminal o "failed" code) → ⊥
unfolding terminal
failed-Stalled o code stalled = differ "failed" "partial" refl stalled.0

pub code-Stalled :
    {V : Type 0} (o : LoopOutcome V) (code : String)
    → str_eq code "HARNESS_NO_PROGRESS" ≡ false
    → Stalled (terminal o "partial" code)
    → ⊥
unfolding terminal
code-Stalled o code other stalled =
    differ code "HARNESS_NO_PROGRESS" other (some-injective code "HARNESS_NO_PROGRESS" stalled.1)

exhausted-Stalled : {V : Type 0} (o : LoopOutcome V) → Stalled (terminal o "partial" exhausted) → ⊥
exhausted-Stalled o = code-Stalled o exhausted refl

finish_with-Stalled :
    {V : Type 0} (b : LoopBudgets) (o : LoopOutcome V) (summary : String)
    → Stalled (finish_with b o summary)
    → ⊥
unfolding finish_with
finish_with-Stalled b o summary = elim (Bool-cases (summary_refused b o summary)) [
  | inl refused ↦ rw refused (exhausted-Stalled o)
  | inr kept ↦ rw kept (λ q. differ "completed" "partial" refl q.0)
]

module _ {V : Type 0} (b : LoopBudgets) (s : LoopState V) where
  -- The result that the round, which began in the state `s`, accepted.
  abbrev pub Accepted : Next V → Type 0
  Accepted x =
      (r : ToolRequest V) × (t : ToolResult V) × (accept_result b (counted s) r t ≡ x)
      × (s.outcome.tool_calls < b.max_tool_calls)

  abbrev pub Explained : Next V → Type 0
  Explained (again s') = Accepted (again s')
  Explained (stop o) = Stalled o → Accepted (stop o)

  other : (o : LoopOutcome V) → (Stalled o → ⊥) → Explained (stop o)
  other o never stalled = absurd (never stalled)

  accepted : (x : Next V) → Accepted x → Explained x
  accepted (again s') a = a
  accepted (stop o) a = λ stalled. a

module _ {V W : Type 0} (h : Harness V W) (b : LoopBudgets) (s : LoopState V) where
  observe_result-Explained :
      (r : ToolRequest V) (t : ToolResult V) (x : Result LoopFailure (Unit {0}) × W)
      → s.outcome.tool_calls < b.max_tool_calls
      → Explained b s (observe_result h b (counted s) r t x).0
  unfolding observe_result
  observe_result-Explained r t (ok u, w) lt = accepted b s _ (r, t, refl, lt)
  observe_result-Explained r t (err e, w) lt =
      other b s _ (failed-Stalled (counted s).outcome e.code)

  executed-Explained :
      (r : ToolRequest V) (x : Result LoopFailure (ToolResult V) × W)
      → s.outcome.tool_calls < b.max_tool_calls
      → Explained b s (executed h b (counted s) r x).0
  unfolding executed
  executed-Explained r (ok t, w) lt = observe_result-Explained r t (h.tool_call r t w) lt
  executed-Explained r (err e, w) lt = other b s _ (failed-Stalled (counted s).outcome e.code)

  module _ (allowed : List String) where
    run_tool-Explained :
        (r : ToolRequest V) (w : W)
        → Explained b s (run_tool h b (turned s) r (refusal b allowed (turned s).outcome r) w).0
    unfolding run_tool
    run_tool-Explained r w = elim (Option-cases (refusal b allowed (turned s).outcome r)) [
      | inl free ↦
          rw free (
            executed-Explained r (h.execute r w)
              (refusal-calls b allowed (turned s).outcome r free))
      | inr ((status, code), stuck) ↦
          rw stuck (elim (refusal-some b allowed (turned s).outcome r (status, code) stuck) [
            | inl (partial, spent) ↦
                rw (partial, spent) (other b s _ (exhausted-Stalled (turned s).outcome))
            | inr failed ↦ rw failed (other b s _ (failed-Stalled (turned s).outcome code))
          ])
    ]

    dispatch-Explained :
        (a : ModelAction V) (w : W) → Explained b s (dispatch h b allowed (turned s) a w).0
    unfolding dispatch
    dispatch-Explained (finish summary) w = other b s _ (finish_with-Stalled b _ summary)
    dispatch-Explained (tool r) w = run_tool-Explained r w

    observed-Explained :
        (a : ModelAction V) (x : Result LoopFailure (Unit {0}) × W)
        → Explained b s (observed h b allowed (turned s) a x).0
    unfolding observed
    observed-Explained a (ok u, w) = dispatch-Explained a w
    observed-Explained a (err e, w) = other b s _ (failed-Stalled (turned s).outcome e.code)

    answered-Explained :
        (x : Result LoopFailure (ModelAction V) × W)
        → Explained b s (answered h b allowed (turned s) x).0
    unfolding answered
    answered-Explained (ok a, w) = observed-Explained a (h.model_turn a w)
    answered-Explained (err e, w) = other b s _ (failed-Stalled (turned s).outcome e.code)

    timed-Explained : (x : ℕ × W) → Explained b s (timed h b allowed s x).0
    unfolding timed take_turn
    timed-Explained (elapsed, w) =
        elim (Bool-cases
          (leb b.max_wall_time_ms elapsed || leb b.max_model_turns s.outcome.model_turns)) [
            | inl late ↦ rw late (other b s _ (exhausted-Stalled s.outcome))
            | inr early ↦ rw early (answered-Explained (h.next_action _ w))
          ]

    polled-Explained : (x : Bool × W) → Explained b s (polled h b allowed s x).0
    unfolding polled terminal
    polled-Explained (true, w) = other b s _ (λ q. differ "cancelled" "partial" refl q.0)
    polled-Explained (false, w) = timed-Explained (h.elapsed_ms w)

    pub iteration-Explained : (w : W) → Explained b s (iteration h b allowed s w).0
    unfolding iteration
    iteration-Explained w = polled-Explained (h.cancelled w)
