-- ===== src/Harness/Loop/Invariant.antt =====
-- What the rounds of the loop of harness_loop.rs keep and what a returned outcome satisfies: the
-- predicates, and one lemma for each part of a round. The predicate `P` on the world is kept by
-- every call that the loop makes, where a tool call is an authorised one.
use mundusx.Prelude.{
  ℕ, ◌+◌, ◌≤◌, ◌≡◌, refl, ◌⊎◌, inl, inr, String, len, none, some, List, true, false, arith, u32_max,
  u64_max, contains, is_blank, Bool-cases, ltb, leb, add_u32, add_u64,
}
use mundusx.Harness.Loop.{
  LoopBudgets, LoopState, LoopOutcome, ToolRequest, ToolResult, Next, stop, again, terminal,
  exhausted, side_effecting, result_invalid, summary_refused, finish_with, note_progress,
  validation_failed, count_repair, accept_result,
}

-- The budgets are values of their Rust types.
pub record InRange (b : LoopBudgets) : Type 0 where
  pub turns_u32 : b.max_model_turns ≤ u32_max
  pub calls_u32 : b.max_tool_calls ≤ u32_max
  pub repairs_u32 : b.max_repair_attempts ≤ u32_max
  pub bytes_u64 : b.max_output_bytes ≤ u64_max

-- What a request needs for its tool to be run.
pub record Authorised {V : Type 0} (allowed : List String) (r : ToolRequest V) : Type 0 where
  pub listed : contains allowed r.operation ≡ true
  pub keyed :
      (side_effecting r.operation ≡ false)
      ⊎ ((key : String) × (r.idempotency_key ≡ some key) × (is_blank key ≡ false) × (len key ≤ 160))

module _ {V : Type 0} (b : LoopBudgets) where
  -- The counters of an outcome, with `d` repairs and `e` tool calls still to come this round.
  pub record IsBounded (d e : ℕ) (o : LoopOutcome V) : Type 0 where
    pub turns_le : o.model_turns ≤ b.max_model_turns
    pub calls_le : o.tool_calls ≤ b.max_tool_calls
    pub repairs_le : o.repair_attempts ≤ b.max_repair_attempts
    pub bytes_le : o.output_bytes ≤ b.max_output_bytes
    pub repairs_le_calls : o.repair_attempts + d ≤ o.tool_calls
    pub calls_le_turns : o.tool_calls + e ≤ o.model_turns

  -- The fields that only a `return` writes.
  pub record IsRunning (o : LoopOutcome V) : Type 0 where
    pub status_running : o.status ≡ "running"
    pub code_none : o.code ≡ none
    pub summary_none : o.summary ≡ none

  pub record Inv (d e : ℕ) (s : LoopState V) : Type 0 where
    pub counters : IsBounded d e s.outcome
    pub running : IsRunning s.outcome

  -- The counters of a returned outcome: one repair more than the budget is what ends the loop.
  pub record IsWithin (o : LoopOutcome V) : Type 0 where
    pub turns_le : o.model_turns ≤ b.max_model_turns
    pub calls_le : o.tool_calls ≤ b.max_tool_calls
    pub repairs_le : o.repair_attempts ≤ b.max_repair_attempts + 1
    pub bytes_le : o.output_bytes ≤ b.max_output_bytes
    pub repairs_le_calls : o.repair_attempts ≤ o.tool_calls
    pub calls_le_turns : o.tool_calls ≤ o.model_turns

  abbrev pub Completed : LoopOutcome V → Type 0
  Completed o =
      (o.status ≡ "completed")
      × (o.code ≡ none)
      × (o.repair_attempts ≤ b.max_repair_attempts)
      × (s : String) × (o.summary ≡ some s)
      × (is_blank s ≡ false)

  abbrev pub Cancelled : LoopOutcome V → Type 0
  Cancelled o = (o.status ≡ "cancelled") × (o.code ≡ some "HARNESS_CANCELLED")

  abbrev pub Partial : LoopOutcome V → Type 0
  Partial o =
      (o.status ≡ "partial")
      × ((o.code ≡ some "HARNESS_BUDGET_EXHAUSTED")
          ⊎ ((o.code ≡ some "HARNESS_NO_PROGRESS") ⊎ (o.code ≡ some "HARNESS_RETRY_EXHAUSTED")))

  abbrev pub Failed : LoopOutcome V → Type 0
  Failed o = (o.status ≡ "failed") × (c : String) × (o.code ≡ some c)

  -- The statuses, each with the codes that go with it.
  abbrev pub Verdict : LoopOutcome V → Type 0
  Verdict o = Completed o ⊎ ((o.summary ≡ none) × (Cancelled o ⊎ (Partial o ⊎ Failed o)))

  pub record IsFinal (o : LoopOutcome V) : Type 0 where
    pub within : IsWithin o
    pub verdict : Verdict o

  abbrev pub Post : Next V → Type 0
  Post (stop o) = IsFinal o
  Post (again s) = Inv 0 0 s

  -- A round that goes on has counted `n` turns.
  abbrev pub AtTurn : ℕ → Next V → Type 0
  AtTurn n (stop o) = Unit {0}
  AtTurn n (again s) = s.outcome.model_turns ≡ n

  module _ {d e : ℕ} (s : LoopState V) (v : Inv d e s) where
    terminal-IsWithin : (status code : String) → IsWithin (terminal s.outcome status code)
    unfolding terminal
    terminal-IsWithin status code = ground arith

    pub cancelled-IsFinal : IsFinal (terminal s.outcome "cancelled" "HARNESS_CANCELLED")
    unfolding terminal
    cancelled-IsFinal = record {
      within = terminal-IsWithin _ _;
      verdict = inr (v.running.summary_none, inl (refl, refl));
    }

    pub exhausted-IsFinal : IsFinal (terminal s.outcome "partial" exhausted)
    unfolding terminal
    exhausted-IsFinal = record {
      within = terminal-IsWithin _ _;
      verdict = inr (v.running.summary_none, inr (inl (refl, inl refl)));
    }

    pub failed-IsFinal : (code : String) → IsFinal (terminal s.outcome "failed" code)
    unfolding terminal
    failed-IsFinal code = record {
      within = terminal-IsWithin _ _;
      verdict = inr (v.running.summary_none, inr (inr (refl, code, refl)));
    }

    pub finish_with-IsFinal :
        InRange b → (summary : String) → IsFinal (finish_with b s.outcome summary)
    unfolding finish_with
    finish_with-IsFinal range summary = elim (Bool-cases (summary_refused b s.outcome summary)) [
      | inl refused ↦ rw refused exhausted-IsFinal
      | inr kept ↦ rw kept (record {
        within = unfold summary_refused in ground arith;
        verdict = inl (
          refl,
          v.running.code_none,
          v.counters.repairs_le,
          summary,
          refl,
          unfold summary_refused in ground arith,
        );
      })
    ]

  module _ (range : InRange b) (s : LoopState V) (request : ToolRequest V)
      (result : ToolResult V) where
    count_repair-Post : Inv 1 0 s → Post (count_repair b s request result)
    unfolding count_repair terminal
    count_repair-Post v = elim (Bool-cases (validation_failed request result)) [
      | inl failed ↦
          rw failed
            (elim (Bool-cases (ltb b.max_repair_attempts (add_u32 s.outcome.repair_attempts 1))) [
              | inl over ↦ rw over (record {
                within = ground arith;
                verdict = inr (v.running.summary_none, inr (inl (refl, inr (inr refl))));
              })
              | inr left ↦ rw left (ground arith)
            ])
      | inr passed ↦ rw passed (ground arith)
    ]

  module _ (range : InRange b) (s : LoopState V) (request : ToolRequest V)
      (result : ToolResult V) where
    valid-bytes :
        result_invalid b s.outcome request result ≡ false
        → add_u64 s.outcome.output_bytes result.output_bytes ≤ b.max_output_bytes
    unfolding result_invalid
    valid-bytes valid = ground arith

    pub accept_result-Post : Inv 1 0 s → Post (accept_result b s request result)
    unfolding accept_result terminal
    accept_result-Post v = elim (Bool-cases (result_invalid b s.outcome request result)) [
      | inl invalid ↦ rw invalid (failed-IsFinal s v _)
      | inr valid ↦ rw valid (elim (Bool-cases (leb 3 (note_progress s result).repeated_progress)) [
        | inl stalled ↦ rw stalled (record {
          within = ground (arith, valid-bytes valid);
          verdict = inr (v.running.summary_none, inr (inl (refl, inr (inl refl))));
        })
        | inr moving ↦ rw moving (
            count_repair-Post range _ request result
              (record { counters = ground (arith, valid-bytes valid); running = ground arith }))
      ])
    ]

  pub accept_result-AtTurn :
      (s : LoopState V) (request : ToolRequest V) (result : ToolResult V)
      → AtTurn s.outcome.model_turns (accept_result b s request result)
  unfolding accept_result note_progress count_repair
  accept_result-AtTurn s request result = ground arith
