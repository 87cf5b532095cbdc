-- ===== src/Harness/Loop/Rounds.antt =====
-- The rounds of harness_loop.rs with the calls that they make, and the whole loop. The predicate
-- `P` on the world is kept by every call, where a tool call is an authorised one.
use mundusx.Prelude.{
  ℕ, zero, suc, ◌+◌, ◌≤◌, ◌<◌, ◌≡◌, refl, ◌⊎◌, inl, inr, String, Option, none, some, List, Result,
  ok, err, Bool, true, false, arith, ◌&&◌, ◌||◌, Bool-cases, Option-cases, len, is_blank, leb,
  add_u32,
}
use mundusx.Harness.Loop.{
  LoopBudgets, Harness, LoopState, LoopOutcome, ToolRequest, ToolResult, ModelAction, LoopFailure,
  LoopContext, Next, stop, again, tool, finish, initial, terminal, exhausted, side_effecting,
  key_rejected, observe_result, executed, run_tool, refusal, dispatch, observed, answered,
  take_turn, timed, polled, iteration, continue_loop, run_loop, run_bounded_loop_observed,
}
use mundusx.Harness.Loop.Invariant.{
  InRange, Authorised, Inv, IsFinal, Post, AtTurn, accept_result-AtTurn, cancelled-IsFinal,
  exhausted-IsFinal, failed-IsFinal, finish_with-IsFinal, accept_result-Post,
}

-- `P` survives each call that the loop may make.
pub record Respects {V W : Type 0} (h : Harness V W) (allowed : List String) (P : W → Type 0)
    : Type 0 where
  pub cancelled_keeps : (w : W) → P w → P (h.cancelled w).1
  pub elapsed_keeps : (w : W) → P w → P (h.elapsed_ms w).1
  pub next_action_keeps : (c : LoopContext V) (w : W) → P w → P (h.next_action c w).1
  pub model_turn_keeps : (a : ModelAction V) (w : W) → P w → P (h.model_turn a w).1
  pub execute_keeps : (r : ToolRequest V) (w : W) → Authorised allowed r → P w → P (h.execute r w).1
  pub tool_call_keeps :
      (r : ToolRequest V) (t : ToolResult V) (w : W) → P w → P (h.tool_call r t w).1

key_accepted :
    (k : Option String)
    → key_rejected k ≡ false
    → (key : String) × (k ≡ some key) × (is_blank key ≡ false) × (len key ≤ 160)
unfolding key_rejected
key_accepted none h = cc
key_accepted (some key) h = (key, refl, ground arith, ground arith)

-- The two statuses that a refusal has.
pub refusal-some :
    {V : Type 0} (b : LoopBudgets) (allowed : List String) (o : LoopOutcome V) (r : ToolRequest V)
    (x : String × String)
    → refusal b allowed o r ≡ some x
    → ((x.0 ≡ "partial") × (x.1 ≡ exhausted)) ⊎ (x.0 ≡ "failed")
unfolding refusal
refusal-some b allowed o r x h = ground arith

-- A request that is not refused is authorised, and there is a tool call left for it.
module _ {V : Type 0} (b : LoopBudgets) (allowed : List String) (o : LoopOutcome V)
    (r : ToolRequest V) (h : refusal b allowed o r ≡ none) where
  refusal-key : (side_effecting r.operation && key_rejected r.idempotency_key) ≡ false
  unfolding refusal
  refusal-key = ground arith

  pub refusal-calls : o.tool_calls < b.max_tool_calls
  unfolding refusal
  refusal-calls = ground arith

  refusal-Authorised : Authorised allowed r
  unfolding refusal
  refusal-Authorised = record {
    listed = ground arith;
    keyed = elim (Bool-cases (side_effecting r.operation)) [
      | inl effect ↦ inr (key_accepted r.idempotency_key (ground (arith, refusal-key)))
      | inr pure ↦ inl pure
    ];
  }

module _ {V W : Type 0} (b : LoopBudgets) (P : W → Type 0) where
  -- The loop returned, with a final outcome and `P` kept.
  abbrev pub Returns : Option (LoopOutcome V × W) → Type 0
  Returns none = ⊥
  Returns (some (o, w)) = IsFinal b o × P w

module _ {V W : Type 0} (h : Harness V W) (b : LoopBudgets) (allowed : List String)
    (range : InRange b) (P : W → Type 0) (keeps : Respects h allowed P) where
  -- A round ends as `Post` says, with `n` turns counted and `P` kept.
  abbrev Round : ℕ → Next V × W → Type 0
  Round n (x, w) = Post b x × AtTurn b n x × P w

  observe_result-Round :
      (s : LoopState V) (r : ToolRequest V) (t : ToolResult V)
      (x : Result LoopFailure (Unit {0}) × W)
      → Inv b 1 0 s
      → P x.1
      → Round s.outcome.model_turns (observe_result h b s r t x)
  unfolding observe_result
  observe_result-Round s r t (ok u, w) v p =
      (accept_result-Post b range s r t v, accept_result-AtTurn b s r t, p)
  observe_result-Round s r t (err e, w) v p = (failed-IsFinal b s v e.code, tt, p)

  executed-Round :
      (s : LoopState V) (r : ToolRequest V) (x : Result LoopFailure (ToolResult V) × W)
      → Inv b 1 0 s
      → P x.1
      → Round s.outcome.model_turns (executed h b s r x)
  unfolding executed
  executed-Round s r (ok t, w) v p =
      observe_result-Round s r t (h.tool_call r t w) v (keeps.tool_call_keeps r t w p)
  executed-Round s r (err e, w) v p = (failed-IsFinal b s v e.code, tt, p)

  refused-IsFinal :
      (s : LoopState V) (r : ToolRequest V) (x : String × String)
      → refusal b allowed s.outcome r ≡ some x
      → Inv b 0 1 s
      → IsFinal b (terminal s.outcome x.0 x.1)
  refused-IsFinal s r x stuck v = elim (refusal-some b allowed s.outcome r x stuck) [
    | inl (partial, code) ↦ rw (partial, code) (exhausted-IsFinal b s v)
    | inr failed ↦ rw failed (failed-IsFinal b s v x.1)
  ]

  run_tool-Round :
      (s : LoopState V) (r : ToolRequest V) (w : W)
      → Inv b 0 1 s
      → P w
      → Round s.outcome.model_turns (run_tool h b s r (refusal b allowed s.outcome r) w)
  unfolding run_tool
  run_tool-Round s r w v p = elim (Option-cases (refusal b allowed s.outcome r)) [
    | inl free ↦ rw free (
        executed-Round _ r (h.execute r w)
          (record {
            counters = ground (arith, refusal-calls b allowed s.outcome r free);
            running = ground arith;
          })
          (keeps.execute_keeps r w (refusal-Authorised b allowed s.outcome r free) p))
    | inr (x, stuck) ↦ rw stuck (refused-IsFinal s r x stuck v, tt, p)
  ]

  dispatch-Round :
      (s : LoopState V) (a : ModelAction V) (w : W)
      → Inv b 0 1 s
      → P w
      → Round s.outcome.model_turns (dispatch h b allowed s a w)
  unfolding dispatch
  dispatch-Round s (finish summary) w v p = (finish_with-IsFinal b s v range summary, tt, p)
  dispatch-Round s (tool r) w v p = run_tool-Round s r w v p

  observed-Round :
      (s : LoopState V) (a : ModelAction V) (x : Result LoopFailure (Unit {0}) × W)
      → Inv b 0 1 s
      → P x.1
      → Round s.outcome.model_turns (observed h b allowed s a x)
  unfolding observed
  observed-Round s a (ok u, w) v p = dispatch-Round s a w v p
  observed-Round s a (err e, w) v p = (failed-IsFinal b s v e.code, tt, p)

  answered-Round :
      (s : LoopState V) (x : Result LoopFailure (ModelAction V) × W)
      → Inv b 0 1 s
      → P x.1
      → Round s.outcome.model_turns (answered h b allowed s x)
  unfolding answered
  answered-Round s (ok a, w) v p =
      observed-Round s a (h.model_turn a w) v (keeps.model_turn_keeps a w p)
  answered-Round s (err e, w) v p = (failed-IsFinal b s v e.code, tt, p)

  take_turn-Round :
      (s : LoopState V) (w : W)
      → Inv b 0 0 s
      → s.outcome.model_turns < b.max_model_turns
      → P w
      → Round (suc s.outcome.model_turns) (take_turn h b allowed s w)
  unfolding take_turn
  take_turn-Round s w v lt p =
      let e : add_u32 s.outcome.model_turns 1 ≡ suc s.outcome.model_turns = omega arith in
      rw (← e) (
        answered-Round _ (h.next_action _ w)
          (record { counters = ground arith; running = ground arith })
          (keeps.next_action_keeps _ w p))

  timed-Round :
      (s : LoopState V) (x : ℕ × W)
      → Inv b 0 0 s
      → P x.1
      → Round (suc s.outcome.model_turns) (timed h b allowed s x)
  unfolding timed
  timed-Round s (elapsed, w) v p =
      elim (Bool-cases
        (leb b.max_wall_time_ms elapsed || leb b.max_model_turns s.outcome.model_turns)) [
          | inl late ↦ rw late (exhausted-IsFinal b s v, tt, p)
          | inr early ↦ rw early (take_turn-Round s w v (ground arith) p)
        ]

  iteration-Round :
      (s : LoopState V) (w : W)
      → Inv b 0 0 s
      → P w
      → Round (suc s.outcome.model_turns) (iteration h b allowed s w)
  unfolding iteration
  iteration-Round s w v p = go (h.cancelled w) (keeps.cancelled_keeps w p)
    where
      go : (x : Bool × W) → P x.1 → Round (suc s.outcome.model_turns) (polled h b allowed s x)
      go (true, w') p' = (cancelled-IsFinal b s v, tt, p')
      go (false, w') p' = timed-Round s (h.elapsed_ms w') v (keeps.elapsed_keeps w' p')

  run_loop-Returns :
      (fuel : ℕ) (s : LoopState V) (w : W)
      → b.max_model_turns < fuel + s.outcome.model_turns
      → Inv b 0 0 s
      → P w
      → Returns b P (run_loop h b allowed fuel s w)
  unfolding run_loop
  run_loop-Returns zero s w enough v p = absurd (omega arith)
  run_loop-Returns (suc fuel) s w enough v p =
      go (iteration h b allowed s w) (iteration-Round s w v p)
        (λ s' w' at v' p'. run_loop-Returns fuel s' w' (omega arith) v' p')
    where
      go :
          (x : Next V × W)
          → Round (suc s.outcome.model_turns) x
          → ((s' : LoopState V) (w' : W)
              → s'.outcome.model_turns ≡ suc s.outcome.model_turns
              → Inv b 0 0 s'
              → P w'
              → Returns b P (run_loop h b allowed fuel s' w'))
          → Returns b P (continue_loop h b allowed (run_loop h b allowed fuel) x)
      go (stop o, w') (f, _, p') rest = (f, p')
      go (again s', w') (v', at, p') rest = rest s' w' at v' p'

  pub run_bounded_loop_observed-Returns :
      (w : W) → P w → Returns b P (run_bounded_loop_observed h b allowed w)
  unfolding run_bounded_loop_observed
  run_bounded_loop_observed-Returns w p =
      run_loop-Returns (suc b.max_model_turns) initial w (omega arith)
        (record { counters = omega arith; running = ground arith }) p
