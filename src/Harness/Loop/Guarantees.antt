-- ===== src/Harness/Loop/Guarantees.antt =====
-- What run_bounded_loop_observed of harness_loop.rs guarantees to its caller.
use mundusx.Prelude.{◌≡◌, refl, Option, none, some, String, List}
use mundusx.Harness.Loop.{LoopBudgets, Harness, LoopOutcome, run_bounded_loop_observed}
use mundusx.Harness.Loop.Invariant.{InRange, IsFinal}
use mundusx.Harness.Loop.Rounds.{Respects, Returns, run_bounded_loop_observed-Returns}

module _ {V W : Type 0} (b : LoopBudgets) (P : W → Type 0) where
  returned :
      (x : Option (LoopOutcome V × W))
      → Returns {V = V} b P x
      → (o : LoopOutcome V) × (w' : W) × (x ≡ some (o, w')) × IsFinal b o × P w'
  returned none r = absurd r
  returned (some (o, w')) r = (o, w', refl, r.0, r.1)

module _ {V W : Type 0} (h : Harness V W) (b : LoopBudgets) (allowed : List String) where
  -- For budgets within their Rust types and any model, tools, observer, cancellation and clock, the
  -- loop returns: fuel for one round more than `max_model_turns` is enough. The outcome's turns,
  -- tool calls and output bytes are within the budgets, its repairs exceed theirs by one at most,
  -- with no more repairs than calls and no more calls than turns. It is completed, with no code, a
  -- summary that is not blank and the repairs in their budget; or it has no summary and is
  -- cancelled, partial or failed, each with a code of that status.
  pub loop-IsFinal :
      InRange b
      → (w : W)
      → (o : LoopOutcome V) × (w' : W) × (run_bounded_loop_observed h b allowed w ≡ some (o, w'))
        × IsFinal b o
  loop-IsFinal range w =
      let trivial : Respects h allowed (λ _. Unit {0}) = record {
        cancelled_keeps = λ _ _. tt;
        elapsed_keeps = λ _ _. tt;
        next_action_keeps = λ _ _ _. tt;
        model_turn_keeps = λ _ _ _. tt;
        execute_keeps = λ _ _ _ _. tt;
        tool_call_keeps = λ _ _ _ _. tt;
      } in
      let (o, w', e, f, _) =
        returned b (λ _. Unit {0}) _
          (run_bounded_loop_observed-Returns h b allowed range (λ _. Unit {0}) trivial w tt) in
      (o, w', e, f)

  -- A predicate on the world that holds at the start, and that every call of the loop keeps, holds
  -- when the loop returns, and it does return. A tool call needs to keep it only for a request that
  -- is authorised: its operation is allowed, and a side-effecting one has an idempotency key that is
  -- not blank and has at most 160 bytes. The budgets are within their Rust types.
  pub loop-Respects :
      InRange b
      → (P : W → Type 0) → Respects h allowed P
      → (w : W) → P w
      → (o : LoopOutcome V) × (w' : W) × (run_bounded_loop_observed h b allowed w ≡ some (o, w'))
        × P w'
  loop-Respects range P keeps w p =
      let (o, w', e, _, p') =
        returned b P _ (run_bounded_loop_observed-Returns h b allowed range P keeps w p) in
      (o, w', e, p')
