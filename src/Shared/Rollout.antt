-- ===== src/Shared/Rollout.antt =====
-- src/shared/capability-rollout.ts: which surface of capabilities a bridge may run. Rates are numbers
-- of millionths, latencies of milliseconds; the telemetry that measures them is a parameter.
pub mod Surface
use aicoo_local_agent.Common.{
  ℕ, List, [], ◌∷◌, ◌++◌, Bool, true, false, not, ◌&&◌, ◌||◌, Option, none, some, ltb, leb,
  if◌then◌else◌,
}
use aicoo_local_agent.Common.Attempts.{Attempt, returned, thrown}

pub record CapabilityRolloutThresholds : Type 0 where
  pub minimum_eligible_tasks : ℕ
  pub maximum_rebuild_rate : ℕ
  pub maximum_rebuild_failure_rate : ℕ
  pub maximum_rebuild_p95_ms : ℕ

abbrev pub default_thresholds : CapabilityRolloutThresholds
default_thresholds = record {
  minimum_eligible_tasks = 20;
  maximum_rebuild_rate = 100000;
  maximum_rebuild_failure_rate = 10000;
  maximum_rebuild_p95_ms = 3000;
}

-- The fields of `BoundaryMetricsSnapshot` that this file reads.
pub record BoundaryMetrics : Type 0 where
  pub eligible_tasks : ℕ
  pub rebuild_rate : ℕ
  pub rebuild_failure_rate : ℕ
  pub rebuild_latency_p95_ms : Option ℕ

pub data CapabilityRolloutBlocker : Type 0 where
  rebuild_rate_too_high rebuild_failure_rate_too_high rebuild_latency_too_high :
      CapabilityRolloutBlocker

pub data CapabilitySurface : Type 0 where
  restricted full_agent : CapabilitySurface

pub data CapabilitySecurityBlocker : Type 0 where
  kernel_boundary_unavailable owner_approval_unavailable interactive_approval_unavailable :
      CapabilitySecurityBlocker
  command_hardening_unavailable execution_timeout_unavailable : CapabilitySecurityBlocker
  credential_isolation_unavailable output_redaction_unavailable : CapabilitySecurityBlocker

pub data Runtime : Type 0 where
  fake claude_code codex : Runtime

pub record CapabilitySecurityContext : Type 0 where
  pub runtime : Runtime
  pub owner_approval_gateway : Bool
  pub codex_app_server : Option Bool

pub record CapabilityRolloutDecision : Type 0 where
  pub eligible : Bool
  pub reasons : List CapabilityRolloutBlocker

pub record CapabilityControls : Type 0 where
  pub kernel_boundary : Bool
  pub owner_approval : Bool
  pub interactive_approval : Bool
  pub command_hardening : Bool
  pub execution_timeout : Bool
  pub credential_isolation : Bool
  pub output_redaction : Bool

pub record CapabilitySecurityDecision : Type 0 where
  pub eligible : Bool
  pub reasons : List CapabilitySecurityBlocker
  pub controls : CapabilityControls

pub record CapabilitySurfaceActivation : Type 0 where
  pub requested : CapabilitySurface
  pub active : CapabilitySurface
  pub rollout : CapabilityRolloutDecision
  pub security : CapabilitySecurityDecision

-- `if (test) reasons.push(reason)` on the reasons that follow.
abbrev pub push_if {ℓ} : {A : Type ℓ} → Bool → A → List A → List A
push_if true a rest = a ∷ rest
push_if false a rest = rest

-- `reasons.length === 0`
abbrev pub is_empty {ℓ} : {A : Type ℓ} → List A → Bool
is_empty [] = true
is_empty (x ∷ xs) = false

abbrev pub exceeds : Option ℕ → ℕ → Bool
exceeds none limit = false
exceeds (some value) limit = ltb limit value

unfoldable pub rollout_reasons :
    BoundaryMetrics → CapabilityRolloutThresholds → List CapabilityRolloutBlocker
rollout_reasons metrics thresholds =
    if leb thresholds.minimum_eligible_tasks metrics.eligible_tasks
    then (push_if (ltb thresholds.maximum_rebuild_rate metrics.rebuild_rate)
        CapabilityRolloutBlocker.rebuild_rate_too_high
        (push_if (ltb thresholds.maximum_rebuild_failure_rate metrics.rebuild_failure_rate)
          CapabilityRolloutBlocker.rebuild_failure_rate_too_high
          (push_if (exceeds metrics.rebuild_latency_p95_ms thresholds.maximum_rebuild_p95_ms)
            CapabilityRolloutBlocker.rebuild_latency_too_high [])))
    else []

unfoldable pub evaluate_capability_rollout :
    BoundaryMetrics → CapabilityRolloutThresholds → CapabilityRolloutDecision
unfolding rollout_reasons
evaluate_capability_rollout metrics thresholds = record {
  eligible = is_empty (rollout_reasons metrics thresholds);
  reasons = rollout_reasons metrics thresholds;
}

abbrev pub is_fake : Runtime → Bool
is_fake Runtime.fake = true
is_fake _ = false

abbrev pub is_codex : Runtime → Bool
is_codex Runtime.codex = true
is_codex _ = false

-- `flag === true`
abbrev pub is_true : Option Bool → Bool
is_true none = false
is_true (some b) = b

unfoldable pub security_controls : CapabilitySecurityContext → CapabilityControls
security_controls context = record {
  kernel_boundary = not (is_fake context.runtime);
  owner_approval = context.owner_approval_gateway;
  interactive_approval = not (is_codex context.runtime) || is_true context.codex_app_server;
  command_hardening = not (is_fake context.runtime);
  execution_timeout = not (is_fake context.runtime);
  credential_isolation = not (is_fake context.runtime);
  output_redaction = not (is_fake context.runtime);
}

unfoldable pub security_reasons : CapabilityControls → List CapabilitySecurityBlocker
security_reasons controls =
    push_if (not controls.kernel_boundary) CapabilitySecurityBlocker.kernel_boundary_unavailable (
      push_if (not controls.owner_approval) CapabilitySecurityBlocker.owner_approval_unavailable (
        push_if (not controls.interactive_approval)
          CapabilitySecurityBlocker.interactive_approval_unavailable
          (push_if (not controls.command_hardening)
            CapabilitySecurityBlocker.command_hardening_unavailable
            (push_if (not controls.execution_timeout)
              CapabilitySecurityBlocker.execution_timeout_unavailable
              (push_if (not controls.credential_isolation)
                CapabilitySecurityBlocker.credential_isolation_unavailable
                (push_if (not controls.output_redaction)
                  CapabilitySecurityBlocker.output_redaction_unavailable []))))))

unfoldable pub evaluate_capability_security : CapabilitySecurityContext → CapabilitySecurityDecision
unfolding security_controls security_reasons
evaluate_capability_security context = record {
  eligible = is_empty (security_reasons (security_controls context));
  reasons = security_reasons (security_controls context);
  controls = security_controls context;
}

unfoldable pub resolve_capability_surface :
    CapabilitySurface
    → BoundaryMetrics
    → CapabilitySecurityContext
    → CapabilityRolloutThresholds
    → Attempt (List CapabilitySecurityBlocker) CapabilitySurfaceActivation
unfolding evaluate_capability_rollout evaluate_capability_security
resolve_capability_surface CapabilitySurface.restricted metrics context thresholds =
    returned record {
      requested = CapabilitySurface.restricted;
      active = CapabilitySurface.restricted;
      rollout = evaluate_capability_rollout metrics thresholds;
      security = evaluate_capability_security context;
    }
resolve_capability_surface CapabilitySurface.full_agent metrics context thresholds =
    let rollout = evaluate_capability_rollout metrics thresholds in
    let security = evaluate_capability_security context in
    if not security.eligible
    then thrown security.reasons
    else returned record {
      requested = CapabilitySurface.full_agent;
      active =
          if rollout.eligible then CapabilitySurface.full_agent else CapabilitySurface.restricted;
      rollout = rollout;
      security = security;
    }
