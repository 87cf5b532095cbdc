-- ===== src/Agent/Runner/Turns.antt =====
-- The turns of `AgentRunner::run` of packages/agent-core/src/runtime.rs and the run as a whole: the
-- theorem that it keeps to the event protocol and ends within its limits.
use mundusx.Prelude.{
  ℕ, zero, suc, ◌+◌, ◌≤◌, ◌≡◌, refl, String, add_u32, ltb, arith, Bool-cases, inl, inr,
}
use mundusx.Agent.Effect.{M, Ends, returns, stops, and_then}
use mundusx.Agent.Tool.{ToolRegistry, definition, mutating}
use mundusx.Agent.Runner.{
  Json, Host, AgentRunner, AgentRunOutcome, AgentRunError, ModelAction, RunState, Flow, done, more,
  tool_call, final, parse_action, act, turn, after_turn, run_turns, run,
}
use mundusx.Agent.Runner.Protocol.{Phase, idle, responded, closed, finishes, Monitors}
use mundusx.Agent.Runner.States.{Stops, At, FlowAt, Finished}
use mundusx.Agent.Runner.Conformance.{
  log-At, poll-At, compact-At, ask_model-At, propose-At, parsed, converted,
}

module _ {V F C W : Type 0} (json : Json V) (host : Host V F W) (tools : ToolRegistry V C W)
    (runner : AgentRunner F) (context : C) (session_id : String) (P : Phase → ℕ → W → Type 0)
    (mon : Monitors host tools context session_id (λ t. mutating (definition tools t)) P) where
  act-At :
      (n : ℕ) (raw : String) (s : RunState) (action : ModelAction V) (w : W)
      → At runner P responded n s w
      → Ends
          (Stops runner P)
          (FlowAt runner P n)
          (act json host tools runner context session_id n raw s action w)
  unfolding act
  act-At n raw s (final content) w a =
      and_then
        (log-At json host tools runner context session_id P mon responded closed n s _ w
          (finishes content) a)
        λ s1 w1 a1. returns (a1.0, refl, a.1, a.2)
  act-At n raw s (tool_call c t v) w a =
      elim (Bool-cases (ltb runner.max_tool_calls (add_u32 s.tool_calls 1))) [
        | inl over ↦ rw over (stops (responded, s.sequence, a.0, tt))
        | inr within ↦ rw within (
            propose-At json host tools runner context session_id P mon n _ raw c t v w
              (a.0, omega (arith, a.1), ground arith))
      ]

  turn-At :
      (prompt : String) (n : ℕ) (s : RunState) (w : W)
      → At runner P idle n s w
      → Ends
          (Stops runner P)
          (FlowAt runner P n)
          (turn json host tools runner context session_id prompt n s w)
  unfolding turn parse_action
  turn-At prompt n s w a =
      and_then
        (poll-At json host tools runner context session_id P mon n s host.cancellation w
          mon.check_keeps a)
        λ s1 w1 a1.
          and_then (compact-At json host tools runner context session_id P mon n s1 w1 a1)
            λ s2 w2 a2.
              and_then
                (ask_model-At json host tools runner context session_id P mon prompt n s2 w2 a2)
                λ (s3, raw) w3 a3.
                  and_then
                    (parsed json host tools runner context session_id P mon responded s3.sequence _
                      _ w3 a3.0)
                    λ action w4 h4. act-At n raw s3 action w4 (h4, a3.1, a3.2)

  after_turn-At :
      (rest : RunState → M W AgentRunError AgentRunOutcome) (n : ℕ) (flow : Flow) (w : W)
      → 1 ≤ n
      → n ≤ runner.max_turns
      → FlowAt runner P n flow w
      → ((s : RunState)
          → At runner P idle (suc n) s w
          → Ends (Stops runner P) (Finished runner P) (rest s w))
      → Ends
          (Stops runner P)
          (Finished runner P)
          (after_turn json host tools runner context session_id rest flow w)
  unfolding after_turn
  after_turn-At rest n (done o) w low high a k =
      returns (a.0, omega (arith, a.1), omega (arith, a.1), omega (arith, a.1, a.2), a.3)
  after_turn-At rest n (more s) w low high a k = k s a

  run_turns-At :
      (prompt : String) (left n : ℕ) (s : RunState) (w : W)
      → 1 ≤ n
      → n + left ≡ suc runner.max_turns
      → At runner P idle n s w
      → Ends
          (Stops runner P)
          (Finished runner P)
          (run_turns json host tools runner context session_id prompt left n s w)
  unfolding run_turns
  run_turns-At prompt zero n s w low e a = stops (idle, s.sequence, a.0, (refl, refl))
  run_turns-At prompt (suc left) n s w low e a = and_then (turn-At prompt n s w a) λ flow w1 a1.
      after_turn-At _ n flow w1 low (omega arith) a1 λ s' a'.
        let next : n + 1 ≡ suc n = omega arith in
        run_turns-At prompt left (n + 1) s' w1 (omega arith) (omega arith) (rw next a')

  -- Let `P` monitor the session: it holds of a phase, a sequence number and a world, moves on with each
  -- stored event as the protocol allows, with the approval provider's answer for the call that was
  -- asked about, and it lets a tool run only in the phase in which its call has started, which a
  -- mutating tool reaches by a granted approval only. Then from an idle session, `run` ends with an
  -- outcome for which the session is closed at `next_sequence`, after one turn at least and
  -- `max_turns` at most, with fewer tool calls than turns and no more than `max_tool_calls`; or with an
  -- error that leaves the session in some phase: closed if the run was cancelled, and idle if the turns
  -- ran out.
  pub run-Ends :
      (sequence : ℕ) (user_input prior_transcript : String) (w : W)
      → P idle sequence w
      → Ends
          (Stops runner P)
          (Finished runner P)
          (run json host tools runner context session_id sequence user_input prior_transcript w)
  unfolding run
  run-Ends sequence user_input prior_transcript w h =
      and_then (converted json host tools runner context session_id P mon idle sequence _ w h)
        λ text w1 h1.
          run_turns-At _ runner.max_turns 1 _ w1 (omega arith) (omega arith)
            (h1, omega arith, omega arith)
