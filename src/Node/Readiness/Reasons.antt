-- ===== src/Node/Readiness/Reasons.antt =====
-- A node gives a reason exactly when it takes no jobs, agents/node/src/main.rs.
use mundusx.Prelude.{
  ◌≡◌, refl, String, Option, none, some, Bool, true, false, not, ◌&&◌, is_some, arith, Bool-cases,
  inl, inr,
}
use mundusx.Node.Readiness.{
  AgentState, starting, ready, busy, paused, stopped, resolved_state, should_agent_run,
  NodeAdmissionStatus, Compatibility, Readiness, reason_or, readiness, allowed_or,
  effective_ready_for_jobs, blocked_reason, effective_readiness_reason, control_plane_blocks_jobs,
  heartbeat_state,
}

abbrev pub is_ready : AgentState → Bool
is_ready ready = true
is_ready starting = false
is_ready busy = false
is_ready paused = false
is_ready stopped = false

some-reason_or : (reason : Option String) (d : String) → is_some (reason_or reason d) ≡ true
some-reason_or none d = refl
some-reason_or (some reason) d = refl

some-blocked_reason : (status : NodeAdmissionStatus) → is_some (blocked_reason status) ≡ true
some-blocked_reason status = elim (Bool-cases (is_some status.policy_reason)) [
  | inl given ↦ rw given given
  | inr silent ↦ rw silent (some-reason_or status.computed_policy_reason _)
]

readiness-model :
    (policy_allowed healthy in_cluster : Bool) (active_model : Option Compatibility)
    → (readiness policy_allowed healthy in_cluster active_model).ready_for_jobs
      ≡ not (is_some (readiness policy_allowed healthy in_cluster active_model).readiness_reason)
unfolding readiness
readiness-model policy_allowed healthy in_cluster none = ground arith
readiness-model policy_allowed healthy in_cluster (some model) = ground (
  arith,
  some-reason_or model.compatibility_reason "active model is not compatible with this node",
)

some-control_plane_blocks_jobs :
    (status : Option NodeAdmissionStatus)
    → is_some (control_plane_blocks_jobs status) ≡ not (allowed_or status)
unfolding control_plane_blocks_jobs
some-control_plane_blocks_jobs none = refl
some-control_plane_blocks_jobs (some status) = elim (Bool-cases status.policy_allowed) [
  | inl allowed ↦ rw allowed refl
  | inr denied ↦ rw denied (some-blocked_reason status)
]

effective-reason :
    (r : Readiness) (status : Option NodeAdmissionStatus)
    → r.ready_for_jobs ≡ not (is_some r.readiness_reason)
    → effective_ready_for_jobs r status ≡ not (is_some (effective_readiness_reason r status))
unfolding effective_ready_for_jobs effective_readiness_reason
effective-reason r none e = ground (arith, e)
effective-reason r (some status) e = elim (Bool-cases status.policy_allowed) [
  | inl allowed ↦ rw allowed (ground (arith, e))
  | inr denied ↦ rw denied (ground (arith, some-blocked_reason status))
]

is_ready-heartbeat_state :
    (connected is_paused : Bool) (r : Readiness)
    → is_ready (heartbeat_state (resolved_state connected is_paused) r)
      ≡ (should_agent_run connected is_paused && r.ready_for_jobs)
unfolding heartbeat_state resolved_state should_agent_run
is_ready-heartbeat_state false is_paused r = refl
is_ready-heartbeat_state true true r = refl
is_ready-heartbeat_state true false r = elim (Bool-cases r.ready_for_jobs) [
  | inl able ↦ rw able refl
  | inr unable ↦ rw unable refl
]

-- For every health, policy, model and word of the control plane: a node gives a reason exactly when it
-- is not ready for jobs; the control plane blocks it exactly when its policy does not allow the
-- node; and a heartbeat says "ready" exactly when the agent is to run and the node takes jobs.
pub readiness_agree :
    (policy_allowed healthy in_cluster connected is_paused : Bool)
    (active_model : Option Compatibility) (status : Option NodeAdmissionStatus)
    → (effective_ready_for_jobs (readiness policy_allowed healthy in_cluster active_model) status
        ≡ not (
            is_some (
              effective_readiness_reason
                (readiness policy_allowed healthy in_cluster active_model)
                status)))
      × (is_some (control_plane_blocks_jobs status) ≡ not (allowed_or status))
      × (is_ready (
            heartbeat_state
              (resolved_state connected is_paused)
              (readiness policy_allowed healthy in_cluster active_model))
          ≡ (should_agent_run connected is_paused
              && (readiness policy_allowed healthy in_cluster active_model).ready_for_jobs))
readiness_agree policy_allowed healthy in_cluster connected is_paused active_model status =
    let r = readiness policy_allowed healthy in_cluster active_model in
    (
      effective-reason r status (readiness-model policy_allowed healthy in_cluster active_model),
      some-control_plane_blocks_jobs status,
      is_ready-heartbeat_state connected is_paused r,
    )
