-- ===== src/Agent/Runner/States.antt =====
-- Where a run of packages/agent-core/src/runtime.rs stands between its parts: the session's phase, the
-- next sequence number and the counted tool calls, and how a turn and a run end.
use mundusx.Prelude.{ℕ, suc, ◌≤◌, ◌<◌, ◌≡◌}
use mundusx.Agent.Runner.{
  AgentRunner, AgentRunOutcome, AgentRunError, RunState, Flow, done, more, turn_limit, cancelled,
}
use mundusx.Agent.Runner.Protocol.{Phase, idle, closed}

module _ {F W : Type 0} (runner : AgentRunner F) (P : Phase → ℕ → W → Type 0) where
  -- The phase in which an error leaves the session.
  abbrev pub Reason : AgentRunError → Phase → Type 0
  Reason cancelled p = p ≡ closed
  Reason (turn_limit k) p = (p ≡ idle) × (k ≡ runner.max_turns)
  Reason _ p = Unit {0}

  abbrev pub Stops : AgentRunError → W → Type 0
  Stops e w = (p : Phase) × (n : ℕ) × P p n w × Reason e p

  -- The session is in phase `p`, with fewer than `c` calls counted and no more than allowed.
  abbrev pub At : Phase → ℕ → RunState → W → Type 0
  At p c s w = P p s.sequence w × (s.tool_calls < c) × (s.tool_calls ≤ runner.max_tool_calls)

  -- How turn `n` ends.
  abbrev pub FlowAt : ℕ → Flow → W → Type 0
  FlowAt n (done o) w =
      P closed o.next_sequence w
      × (o.turns ≡ n)
      × (o.tool_calls < n)
      × (o.tool_calls ≤ runner.max_tool_calls)
  FlowAt n (more s) w = At idle (suc n) s w

  -- A run that answered: the session is closed at the outcome's next number, after one turn at least
  -- and no more than allowed, with fewer tool calls than turns and no more than allowed.
  abbrev pub Finished : AgentRunOutcome → W → Type 0
  Finished o w =
      P closed o.next_sequence w
      × (1 ≤ o.turns)
      × (o.turns ≤ runner.max_turns)
      × (o.tool_calls < o.turns)
      × (o.tool_calls ≤ runner.max_tool_calls)
