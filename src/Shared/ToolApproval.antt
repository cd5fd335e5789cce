-- ===== src/Shared/ToolApproval.antt =====
-- src/shared/tool-approval.ts: the wait for the owner's decision on one tool call. The gateway,
-- the clock and the timer are parameters: what the k-th poll gives when it is made at a time (nothing
-- where it throws), the k-th `now()`, and the time at which a sleep ends that begins at a time.
pub mod Waiting
use aicoo_local_agent.Common.{
  ℕ, zero, suc, ◌+◌, Bool, true, false, not, ◌&&◌, Option, none, some, ltb, is_some, if◌then◌else◌,
}
use aicoo_local_agent.Shared.Continuations.{Texts, fits}
use aicoo_local_agent.Security.Presets.{FileAccessPreset}

pub data ToolApprovalScope : Type 0 where
  once session : ToolApprovalScope

pub data ApprovalStatus : Type 0 where
  pending auto_allow : ApprovalStatus
  ended : ℕ → ApprovalStatus

pub data ApprovalDecision : Type 0 where
  allow deny : ApprovalDecision

-- An activation as it comes: a field that has not its type is missing, and so is a grant revision
-- that is not a safe integer of at least 0.
pub record BoundaryActivation : Type 0 where
  pub grant_id : Option ℕ
  pub grant_revision : Option ℕ
  pub canonical_folder : Option ℕ
  pub access_preset : Option FileAccessPreset
  pub expected_boundary_manifest_hash : Option ℕ

pub record ToolApprovalState : Type 0 where
  pub status : ApprovalStatus
  pub decision : Option ApprovalDecision
  pub scope : Option ToolApprovalScope
  pub activation : Option BoundaryActivation

pub data DenyReason : Type 0 where
  could_not_ask declined no_activation not_in_time : DenyReason
  ended_as : ApprovalStatus → DenyReason

pub data ToolApprovalOutcome : Type 0 where
  allowed : ToolApprovalScope → Option BoundaryActivation → ToolApprovalOutcome
  denied : DenyReason → ToolApprovalOutcome

module _ (texts : Texts) where
  abbrev pub text_fits : Option ℕ → ℕ → Bool
  text_fits none limit = false
  text_fits (some text) limit = fits texts text limit

  unfoldable pub valid_activation : BoundaryActivation → Bool
  valid_activation value =
      text_fits value.grant_id 512
      && is_some value.grant_revision
      && text_fits value.canonical_folder 4096
      && is_some value.access_preset
      && text_fits value.expected_boundary_manifest_hash 512

  unfoldable pub verified_activation : Option BoundaryActivation → Option BoundaryActivation
  unfolding valid_activation
  verified_activation none = none
  verified_activation (some value) = if valid_activation value then some value else none

  abbrev pub scope_of : Option ToolApprovalScope → ToolApprovalScope
  scope_of (some ToolApprovalScope.session) = ToolApprovalScope.session
  scope_of _ = ToolApprovalScope.once

  -- The function `allowed`.
  unfoldable pub allow_with :
      Option ToolApprovalScope → Option BoundaryActivation → Bool → ToolApprovalOutcome
  unfolding verified_activation
  allow_with scope activation requires =
      if requires && not (is_some (verified_activation activation))
      then ToolApprovalOutcome.denied DenyReason.no_activation
      else ToolApprovalOutcome.allowed (scope_of scope) (verified_activation activation)

  unfoldable pub decide_status :
      ApprovalStatus → ToolApprovalState → Bool → Option ToolApprovalOutcome
  unfolding allow_with
  decide_status ApprovalStatus.pending state requires = none
  decide_status ApprovalStatus.auto_allow state requires =
      some (allow_with state.scope state.activation requires)
  decide_status status state requires =
      some (ToolApprovalOutcome.denied (DenyReason.ended_as status))

  unfoldable pub decide_by :
      Option ApprovalDecision → ToolApprovalState → Bool → Option ToolApprovalOutcome
  unfolding allow_with decide_status
  decide_by (some ApprovalDecision.allow) state requires =
      some (allow_with state.scope state.activation requires)
  decide_by (some ApprovalDecision.deny) state requires =
      some (ToolApprovalOutcome.denied DenyReason.declined)
  decide_by none state requires = decide_status state.status state requires

  unfoldable pub decide : ToolApprovalState → Bool → Option ToolApprovalOutcome
  unfolding decide_by
  decide state requires = decide_by state.decision state requires

  -- What a poll decides: one that throws decides nothing.
  unfoldable pub polled : Bool → Option ToolApprovalState → Option ToolApprovalOutcome
  unfolding decide
  polled requires none = none
  polled requires (some state) = decide state requires

  module _ (requires : Bool) (answers : ℕ → ℕ → Option ToolApprovalState) (clock : ℕ → ℕ)
      (sleep : ℕ → ℕ → ℕ) (poll_ms : ℕ) (deadline : ℕ) where
    -- The loop from its k-th round on: it reads the clock, sleeps, and polls when it wakes.
    unfoldable pub wait_loop : ℕ → ℕ → Option ToolApprovalOutcome
    unfolding polled
    wait_loop zero k = none
    wait_loop (suc fuel) k =
        let rest = wait_loop fuel (k + 1) in
        if ltb (clock k) deadline
        then elim (polled requires (answers k (sleep (clock k) poll_ms))) [
          | none ↦ rest
          | some outcome ↦ some outcome
        ]
        else some (ToolApprovalOutcome.denied DenyReason.not_in_time)

  module _ (requires : Bool) (answers : ℕ → ℕ → Option ToolApprovalState) (clock : ℕ → ℕ)
      (sleep : ℕ → ℕ → ℕ) (poll_ms : ℕ) (timeout : ℕ) where
    -- After the request: the deadline is that of the first reading of the clock.
    unfoldable pub after_request : ℕ → Option ToolApprovalOutcome → Option ToolApprovalOutcome
    unfolding wait_loop
    after_request fuel (some initial) = some initial
    after_request fuel none =
        wait_loop requires answers clock sleep poll_ms (clock 0 + timeout) fuel 1

    -- The request gives nothing where it throws, or `onApprovalCreated` does.
    unfoldable pub await_tool_approval : ℕ → Option ToolApprovalState → Option ToolApprovalOutcome
    unfolding after_request decide
    await_tool_approval fuel none = some (ToolApprovalOutcome.denied DenyReason.could_not_ask)
    await_tool_approval fuel (some requested) = after_request fuel (decide requested requires)
