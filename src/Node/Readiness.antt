-- ===== src/Node/Readiness.antt =====
-- Whether a node takes jobs, and what it says of that, agents/node/src/main.rs.
--
-- Of the configuration, the worker's report and the advertisement, the fields are modelled that the
-- decision uses.
pub mod Reasons
pub mod Tests
use mundusx.Prelude.{
  ℕ, String, Option, none, some, Bool, true, false, not, ◌&&◌, ◌||◌, is_some, if◌then◌else◌, str_eq,
}

pub data AgentState : Type 0 where
  starting ready busy paused stopped : AgentState

unfoldable pub resolved_state : Bool → Bool → AgentState
resolved_state connected is_paused =
    if not connected then stopped else if is_paused then paused else ready

unfoldable pub should_agent_run : Bool → Bool → Bool
should_agent_run connected is_paused = connected && not is_paused

pub record NodeAdmissionStatus : Type 0 where
  pub policy_allowed : Bool
  pub policy_reason : Option String
  pub computed_policy_reason : Option String

-- The active model's `compatibility` and `compatibility_reason`.
pub record Compatibility : Type 0 where
  pub compatibility : Option String
  pub compatibility_reason : Option String

-- `ready_for_jobs` and `readiness_reason`
pub record Readiness : Type 0 where
  pub ready_for_jobs : Bool
  pub readiness_reason : Option String

abbrev pub reason_or : Option String → String → Option String
reason_or none d = some d
reason_or (some reason) d = some reason

abbrev pub is_rejected : Option String → Bool
is_rejected none = false
is_rejected (some compatibility) = str_eq compatibility "rejected"

-- The match on the active model.
abbrev pub model_readiness : Bool → Bool → Option Compatibility → Readiness
model_readiness allowed in_cluster none = record {
  ready_for_jobs = false;
  readiness_reason = some (
      if in_cluster
      then "contributed cluster advertises no model"
      else "no active model is configured");
}
model_readiness allowed in_cluster (some model) =
    if is_rejected model.compatibility
    then record {
      ready_for_jobs = false;
      readiness_reason =
          reason_or model.compatibility_reason "active model is not compatible with this node";
    }
    else record { ready_for_jobs = allowed; readiness_reason = none }

-- The part of `build_capabilities` that decides on jobs.
unfoldable pub readiness : Bool → Bool → Bool → Option Compatibility → Readiness
readiness policy_allowed healthy in_cluster active_model =
    let model = model_readiness (policy_allowed && healthy) in_cluster active_model in
    if not policy_allowed && not (is_some model.readiness_reason)
    then record {
      ready_for_jobs = model.ready_for_jobs;
      readiness_reason = some "worker policy does not allow jobs";
    }
    else if not healthy && not (is_some model.readiness_reason)
    then record {
      ready_for_jobs = model.ready_for_jobs;
      readiness_reason = some "worker health is degraded";
    }
    else model

abbrev pub allowed_or : Option NodeAdmissionStatus → Bool
allowed_or none = true
allowed_or (some status) = status.policy_allowed

unfoldable pub effective_ready_for_jobs : Readiness → Option NodeAdmissionStatus → Bool
effective_ready_for_jobs capabilities status = capabilities.ready_for_jobs && allowed_or status

abbrev pub blocked_reason : NodeAdmissionStatus → Option String
blocked_reason status =
    if is_some status.policy_reason
    then status.policy_reason
    else reason_or status.computed_policy_reason "control-plane admission policy blocked this node"

unfoldable pub effective_readiness_reason : Readiness → Option NodeAdmissionStatus → Option String
effective_readiness_reason capabilities none = capabilities.readiness_reason
effective_readiness_reason capabilities (some status) =
    if not status.policy_allowed then blocked_reason status else capabilities.readiness_reason

unfoldable pub control_plane_blocks_jobs : Option NodeAdmissionStatus → Option String
control_plane_blocks_jobs none = none
control_plane_blocks_jobs (some status) =
    if status.policy_allowed then none else blocked_reason status

-- The state that a heartbeat reports.
unfoldable pub heartbeat_state : AgentState → Readiness → AgentState
heartbeat_state ready capabilities = if not capabilities.ready_for_jobs then paused else ready
heartbeat_state starting capabilities = starting
heartbeat_state busy capabilities = busy
heartbeat_state paused capabilities = paused
heartbeat_state stopped capabilities = stopped
