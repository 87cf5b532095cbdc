-- ===== src/Agent/Runner/Protocol.antt =====
-- The event protocol of an agent run: the order in which `AgentRunner::run` of
-- packages/agent-core/src/runtime.rs may append its events, stated apart from the code. A session is
-- monitored by a predicate on the world, in a phase and at the next sequence number.
use mundusx.Prelude.{
  ℕ, ◌≡◌, String, Option, none, some, Bool, true, false, Result, ok, err, add_u64,
}
use mundusx.Agent.Event.{
  AgentEvent, AgentEventKind, StoreError, model_requested, model_responded, tool_proposed,
  approval_requested, approval_resolved, tool_started, tool_completed, context_compacted,
  session_cancelled, final_response_produced,
}
use mundusx.Agent.Tool.{ToolRegistry, ApprovalRequest, ApprovalDecision, execute}
use mundusx.Agent.Runner.{Host, ModelRequest}

pub data Phase : Type 0 where
  -- Between turns, after the model was asked, and after it replied.
  idle requested responded : Phase
  -- A tool call was proposed, its approval was asked for, and the provider has answered.
  proposed asked : (call_id tool : String) → Phase
  decided : (call_id tool : String) → (approved : Bool) → Phase
  -- The answer was recorded.
  granted : (call_id tool : String) → Phase
  denied : (call_id : String) → Phase
  started : (call_id tool : String) → Phase
  -- The session has its final response, or was cancelled.
  closed : Phase

-- The events that may follow in a phase. `mutates` says which tools need an approval.
pub data Follows {V : Type 0} (mutates : String → Bool)
    : Phase → AgentEventKind V → Phase → Type 0 where
  compacts : (a b : ℕ) → Follows mutates idle (context_compacted a b) idle
  cancels : Follows mutates idle session_cancelled closed
  requests : (p m : String) → Follows mutates idle (model_requested p m) requested
  responds : (c : Option String) → Follows mutates requested (model_responded c) responded
  finishes : (c : String) → Follows mutates responded (final_response_produced c) closed
  proposes : (c t : String) (a : V) → Follows mutates responded (tool_proposed c t a) (proposed c t)
  asks :
      (c t r : String)
      → mutates t ≡ true
      → Follows mutates (proposed c t) (approval_requested c r) (asked c t)
  grants :
      (c t : String) → Follows mutates (decided c t true) (approval_resolved c true) (granted c t)
  denies :
      (c t : String) → Follows mutates (decided c t false) (approval_resolved c false) (denied c)
  starts_free :
      (c t : String)
      → mutates t ≡ false
      → Follows mutates (proposed c t) (tool_started c) (started c t)
  starts_granted : (c t : String) → Follows mutates (granted c t) (tool_started c) (started c t)
  refuses : (c : String) (v : V) → Follows mutates (denied c) (tool_completed c v true) idle
  completes :
      (c t : String) (v : V) (e : Bool) → Follows mutates (started c t) (tool_completed c v e) idle

module _ {W : Type 0} (P : Phase → ℕ → W → Type 0) where
  -- An append moves on if it succeeds, and leaves the phase and the number if it fails.
  abbrev pub Appended : Phase → Phase → ℕ → Result StoreError (Unit {0}) × W → Type 0
  Appended p q n (ok u, w) = P q (add_u64 n 1) w
  Appended p q n (err e, w) = P p n w

  -- A check for cancellation is made between turns.
  abbrev pub CheckKeeps : Option (W → Bool × W) → Type 0
  CheckKeeps none = Unit
  CheckKeeps (some check) = (n : ℕ) (w : W) → P idle n w → P idle n (check w).1

  -- A provider is asked about the call whose approval was requested, and its answer is the decision;
  -- without a provider the call is refused.
  abbrev pub DecideKeeps :
      {V : Type 0} → Option (ApprovalRequest V → W → ApprovalDecision × W) → Type 0
  DecideKeeps none = (c t : String) (n : ℕ) (w : W) → P (asked c t) n w → P (decided c t false) n w
  DecideKeeps {V} (some provider) =
      (r : ApprovalRequest V) (n : ℕ) (w : W)
      → P (asked r.call_id r.tool) n w
      → P (decided r.call_id r.tool (provider r w).0.approved) n (provider r w).1

-- `P` monitors the session: the store, the provider and the tools treat it as the protocol allows.
-- A tool is run only in the phase in which its call was started.
pub record Monitors {V F C W : Type 0} (host : Host V F W) (tools : ToolRegistry V C W)
    (context : C) (session_id : String) (mutates : String → Bool) (P : Phase → ℕ → W → Type 0)
    : Type 0 where
  pub new_id_keeps : (p : Phase) (n : ℕ) (w : W) → P p n w → P p n (host.new_id w).1
  pub clock_keeps : (p : Phase) (n : ℕ) (w : W) → P p n w → P p n (host.unix_time_ms w).1
  pub check_keeps : CheckKeeps P host.cancellation
  pub decide_keeps : DecideKeeps P host.approval
  pub complete_keeps :
      (r : ModelRequest F) (n : ℕ) (w : W) → P requested n w → P requested n (host.complete r w).1
  pub append_moves :
      (p q : Phase) (event : AgentEvent V) (w : W)
      → P p event.sequence w
      → event.session_id ≡ session_id
      → Follows mutates p event.kind q
      → Appended P p q event.sequence (host.append event w)
  pub execute_keeps :
      (c t : String) (arguments : V) (n : ℕ) (w : W)
      → P (started c t) n w
      → P (started c t) n (execute tools t arguments context w).1
