-- ===== src/Shared/Rollout/Surface.antt =====
-- `resolveCapabilitySurface` in src/shared/capability-rollout.ts: exactly when the full surface runs.
use aicoo_local_agent.Common.{
  ℕ, ◌≤◌, ◌<◌, ◌≡◌, ◌≢◌, ◌↔◌, ◌⊎◌, inl, inr, refl, ap, ◌∙◌, arith, Bool-cases, List, Bool, true,
  false, Option, none, some, leb, if◌then◌else◌,
}
use aicoo_local_agent.Common.Attempts.{Attempt, returned}
use aicoo_local_agent.Shared.Rollout.{
  CapabilityRolloutThresholds, BoundaryMetrics, CapabilitySurface, CapabilitySecurityBlocker,
  Runtime, CapabilitySecurityContext, CapabilitySurfaceActivation, rollout_reasons,
  evaluate_capability_rollout, security_controls, security_reasons, evaluate_capability_security,
  resolve_capability_surface,
}

-- What the full surface needs of a machine: an owner to approve, a real runtime, and for Codex the
-- app server that can be interrupted.
abbrev pub IsOperable : CapabilitySecurityContext → Type 0
IsOperable context =
    (context.runtime ≢ Runtime.fake)
    × (context.owner_approval_gateway ≡ true)
    × (context.runtime ≡ Runtime.codex → context.codex_app_server ≡ some true)

-- Too few tasks to judge by, or every measure within its limit.
abbrev pub IsWithinLimits : BoundaryMetrics → CapabilityRolloutThresholds → Type 0
IsWithinLimits metrics thresholds =
    (metrics.eligible_tasks < thresholds.minimum_eligible_tasks)
    ⊎ ((metrics.rebuild_rate ≤ thresholds.maximum_rebuild_rate)
        × (metrics.rebuild_failure_rate ≤ thresholds.maximum_rebuild_failure_rate)
        × ((latency : ℕ)
            → metrics.rebuild_latency_p95_ms ≡ some latency
            → latency ≤ thresholds.maximum_rebuild_p95_ms))

IsOperable-cases :
    (r : Runtime) (g : Bool) (a : Option Bool)
    → ((evaluate_capability_security
          (record { runtime = r; owner_approval_gateway = g; codex_app_server = a })).eligible
        ≡ true)
      ↔ IsOperable (record { runtime = r; owner_approval_gateway = g; codex_app_server = a })
unfolding evaluate_capability_security security_controls security_reasons
IsOperable-cases Runtime.fake g a = (λ h. cc, λ k. absurd (k.0 refl))
IsOperable-cases Runtime.claude_code true a = (λ h. (λ e. cc, refl, λ e. cc), λ k. refl)
IsOperable-cases Runtime.claude_code false a =
    (λ h. cc, λ k. absurd (let off : ◌≡◌ {A = Bool} false true = k.1 in cc))
IsOperable-cases Runtime.codex true none = (λ h. cc, λ k. absurd (let off = k.2 refl in cc))
IsOperable-cases Runtime.codex true (some true) = (λ h. (λ e. cc, refl, λ e. refl), λ k. refl)
IsOperable-cases Runtime.codex true (some false) = (λ h. cc, λ k. absurd (let off = k.2 refl in cc))
IsOperable-cases Runtime.codex false a =
    (λ h. cc, λ k. absurd (let off : ◌≡◌ {A = Bool} false true = k.1 in cc))

limits_cases :
    (tasks rate failures : ℕ) (latency : Option ℕ) (t : CapabilityRolloutThresholds)
    → let m : BoundaryMetrics = record {
      eligible_tasks = tasks;
      rebuild_rate = rate;
      rebuild_failure_rate = failures;
      rebuild_latency_p95_ms = latency;
    } in
      ((evaluate_capability_rollout m t).eligible ≡ true) ↔ IsWithinLimits m t
unfolding evaluate_capability_rollout rollout_reasons
limits_cases tasks rate failures none t = (
  λ h. elim (Bool-cases (leb t.minimum_eligible_tasks tasks)) [
    | inl many ↦ inr (ground arith, ground arith, λ l e. cc)
    | inr few ↦ inl (ground arith)
  ],
  λ k. elim k [ inl few ↦ ground arith | inr (r, f, _) ↦ ground arith ],
)
limits_cases tasks rate failures (some v) t = (
  λ h. elim (Bool-cases (leb t.minimum_eligible_tasks tasks)) [
    | inl many ↦
        inr (ground arith, ground arith, λ l e. ground (arith, ap (λ (o : Option ℕ). value o) e))
    | inr few ↦ inl (ground arith)
  ],
  λ k. elim k [ inl few ↦ ground arith | inr (r, f, l) ↦ ground (arith, l v refl) ],
)
  where
    value : Option ℕ → ℕ
    value none = 0
    value (some n) = n

-- A bridge that is asked for the full surface: it refuses to start exactly when the machine cannot
-- operate that surface (no owner to approve, the fake runtime, or Codex without its app server). Where
-- it starts it reports the full surface as the requested one, and the full surface is active exactly when the machine can
-- operate it and has too few tasks to be judged by or every measure within its limit.
pub full_surface_iff :
    (metrics : BoundaryMetrics) (context : CapabilitySecurityContext)
    (thresholds : CapabilityRolloutThresholds)
    → let resolved =
        resolve_capability_surface CapabilitySurface.full_agent metrics context thresholds in
      (IsOperable context ↔ ((act : CapabilitySurfaceActivation) × (resolved ≡ returned act)))
      × ((act : CapabilitySurfaceActivation)
          → resolved ≡ returned act
          → (act.requested ≡ CapabilitySurface.full_agent)
            × ((act.active ≡ CapabilitySurface.full_agent) ↔ IsWithinLimits metrics thresholds))
unfolding resolve_capability_surface
full_surface_iff metrics context thresholds = (
  (
    λ k. (surface, rw (op.1 k) refl),
    λ (act, e). elim (Bool-cases (evaluate_capability_security context).eligible) [
      | inl on ↦ op.0 on
      | inr off ↦ cc (rw off at e)
    ],
  ),
  λ act e. elim (Bool-cases (evaluate_capability_security context).eligible) [
    | inl on ↦
        let same = active_of act (rw on at e) in
        (
          requested_of act (rw on at e),
          (
            λ k. elim (Bool-cases (evaluate_capability_rollout metrics thresholds).eligible) [
              | inl fine ↦ lim.0 fine
              | inr bad ↦ cc (rw bad at same, k)
            ],
            λ k. same ∙ rw (lim.1 k) refl,
          ),
        )
    | inr off ↦ cc (rw off at e)
  ],
)
  where
    surface : CapabilitySurfaceActivation
    surface = record {
      requested = CapabilitySurface.full_agent;
      active =
          if (evaluate_capability_rollout metrics thresholds).eligible
          then CapabilitySurface.full_agent
          else CapabilitySurface.restricted;
      rollout = evaluate_capability_rollout metrics thresholds;
      security = evaluate_capability_security context;
    }

    op : ((evaluate_capability_security context).eligible ≡ true) ↔ IsOperable context
    op = IsOperable-cases context.runtime context.owner_approval_gateway context.codex_app_server

    lim :
        ((evaluate_capability_rollout metrics thresholds).eligible ≡ true)
        ↔ IsWithinLimits metrics thresholds
    lim =
        limits_cases metrics.eligible_tasks metrics.rebuild_rate metrics.rebuild_failure_rate
          metrics.rebuild_latency_p95_ms thresholds

    requested_of :
        {a : CapabilitySurfaceActivation} (b : CapabilitySurfaceActivation)
        → ◌≡◌ {A = Attempt (List CapabilitySecurityBlocker) CapabilitySurfaceActivation}
            (returned a)
            (returned b)
        → b.requested ≡ a.requested
    requested_of b k = cc

    active_of :
        {a : CapabilitySurfaceActivation} (b : CapabilitySurfaceActivation)
        → ◌≡◌ {A = Attempt (List CapabilitySecurityBlocker) CapabilitySurfaceActivation}
            (returned a)
            (returned b)
        → b.active ≡ a.active
    active_of b k = cc
