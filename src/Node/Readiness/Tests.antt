-- ===== src/Node/Readiness/Tests.antt =====
-- The readiness of concrete nodes, agents/node/src/main.rs.
use mundusx.Prelude.{◌≡◌, refl, Option, none, some, true, false, not, ◌&&◌, is_some}
use mundusx.Node.Readiness.{
  NodeAdmissionStatus, Compatibility, allowed_or, readiness, effective_ready_for_jobs,
  effective_readiness_reason, control_plane_blocks_jobs, resolved_state, should_agent_run,
  heartbeat_state,
}
use mundusx.Node.Readiness.Reasons.{is_ready, readiness_agree}

abbrev model : Option Compatibility
model = some (record { compatibility = some "rejected"; compatibility_reason = some "too large" })

abbrev status : Option NodeAdmissionStatus
status = some (record {
  policy_allowed = false;
  policy_reason = none;
  computed_policy_reason = some "on battery";
})

rejected_test :
    readiness true true false model
    ≡ record { ready_for_jobs = false; readiness_reason = some "too large" }
unfolding readiness
rejected_test = refl

blocked_test : control_plane_blocks_jobs status ≡ some "on battery"
unfolding control_plane_blocks_jobs
blocked_test = refl

readiness_agree_example :
    (effective_ready_for_jobs (readiness true true false model) status
      ≡ not (is_some (effective_readiness_reason (readiness true true false model) status)))
    × (is_some (control_plane_blocks_jobs status) ≡ not (allowed_or status))
    × (is_ready (heartbeat_state (resolved_state true false) (readiness true true false model))
        ≡ (should_agent_run true false && (readiness true true false model).ready_for_jobs))
readiness_agree_example = readiness_agree true true false true false model status
