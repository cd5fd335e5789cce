-- ===== src/Bridge/Recovery/Deciding.antt =====
-- `recoverAwaitingDecisions` in src/bridge/continuation-recovery.ts: what becomes of a continuation.
use aicoo_local_agent.Common.{
  ℕ, ◌≡◌, ◌≢◌, refl, ap, ◌∙◌, List, true, false, Option, none, some, Option-cases, inl, inr,
  select_first,
}
use aicoo_local_agent.Shared.Continuations.{
  ContinuationState, same_state, ContinuationCheckpoint, ContinuationRow, Store, Texts,
  ContinuationApproval, from_row, find, has_continuation_id, require_state, set_state, set_approved,
  approve_from, mark_approved, transition, transition_from, mark_denied, mark_approval_expired,
  mark_approval_delivery_failed,
}
use aicoo_local_agent.Shared.Continuations.Rebuild.Writing.{
  at_found, select_first-updated, write_lem,
}
use aicoo_local_agent.Shared.ToolApproval.{ApprovalStatus, ApprovalDecision, ToolApprovalState}
use aicoo_local_agent.Bridge.Recovery.{
  table_after, approval_for, approve_or_fail, decide_by_status, decide_by_owner, recover_decision,
}
use aicoo_local_agent.Bridge.Recovery.Approving.{
  IsUsable, approval_for-IsUsable, IsUsable-approval_for,
}

-- A row that carries an approval.
abbrev pub HasApproval : ContinuationRow → ContinuationApproval → Type 0
HasApproval row approval =
    (row.state ≡ ContinuationState.approved_pending_activation)
    × (row.grant_id ≡ some approval.grant_id)
    × (row.grant_revision ≡ some approval.grant_revision)
    × (row.approved_canonical_folder ≡ some approval.approved_canonical_folder)
    × (row.approved_access_preset ≡ some approval.approved_access_preset)
    × (row.expected_boundary_manifest_hash ≡ some approval.expected_boundary_manifest_hash)

-- The row that an answer of the gateway calls for, where a continuation asks for a resource.
pub data IsAnswered (texts : Texts) (relative : ℕ → ℕ → List ℕ) (resource : ℕ)
    : Option ToolApprovalState → ContinuationRow → Type 0 where
  unheard :
      {row : ContinuationRow}
      → row.state ≡ ContinuationState.awaiting_approval
      → IsAnswered texts relative resource none row
  declined :
      {answer : ToolApprovalState} {row : ContinuationRow}
      → answer.decision ≡ some ApprovalDecision.deny
      → row.state ≡ ContinuationState.denied
      → IsAnswered texts relative resource (some answer) row
  approved :
      {answer : ToolApprovalState} {row : ContinuationRow} (approval : ContinuationApproval)
      → answer.decision ≡ some ApprovalDecision.allow
      → IsUsable texts relative resource answer.activation approval
      → HasApproval row approval
      → IsAnswered texts relative resource (some answer) row
  undeliverable :
      {answer : ToolApprovalState} {row : ContinuationRow}
      → answer.decision ≡ some ApprovalDecision.allow
      → ((approval : ContinuationApproval)
          → ¬ IsUsable texts relative resource answer.activation approval)
      → row.state ≡ ContinuationState.approval_delivery_failed
      → IsAnswered texts relative resource (some answer) row
  still_open :
      {answer : ToolApprovalState} {row : ContinuationRow}
      → answer.decision ≡ none
      → answer.status ≡ ApprovalStatus.pending
      → row.state ≡ ContinuationState.awaiting_approval
      → IsAnswered texts relative resource (some answer) row
  expired :
      {answer : ToolApprovalState} {row : ContinuationRow}
      → answer.decision ≡ none
      → answer.status ≢ ApprovalStatus.pending
      → row.state ≡ ContinuationState.approval_expired
      → IsAnswered texts relative resource (some answer) row

abbrev RowIs : ℕ → (ContinuationRow → Type 0) → Store → Type 0
RowIs id P t =
    (row : ContinuationRow) × (select_first (has_continuation_id id) t ≡ some row) × P row

module _ (now id : ℕ) (s : Store) (a : ContinuationRow)
    (found : select_first (has_continuation_id id) s ≡ some a)
    (waits : a.state ≡ ContinuationState.awaiting_approval) where
  transition-RowIs :
      (to : ContinuationState)
      → same_state ContinuationState.awaiting_approval to ≡ false
      → RowIs id
          (λ row. row.state ≡ to)
          (table_after (transition now id ContinuationState.awaiting_approval to s) s)
  unfolding transition transition_from require_state from_row set_state table_after
  transition-RowIs to other =
      let early : same_state a.state to ≡ false = ap (λ x. same_state x to) waits ∙ other in
      let ready : same_state a.state ContinuationState.awaiting_approval ≡ true =
        ap (λ x. same_state x ContinuationState.awaiting_approval) waits in
      rw
        (
          at_found id s a found,
          transition_from,
          early,
          ready,
          write_lem id (set_state now to) s a (λ r. refl) found,
        )
        (set_state now to a, select_first-updated id (set_state now to) s a (λ r. refl) found, refl)

  approve-RowIs :
      (approval : ContinuationApproval)
      → RowIs id (λ row. HasApproval row approval) (table_after (mark_approved now id approval s) s)
  unfolding mark_approved approve_from require_state from_row set_approved table_after
  approve-RowIs approval =
      let early : same_state a.state ContinuationState.approved_pending_activation ≡ false =
        ap (λ x. same_state x ContinuationState.approved_pending_activation) waits in
      let ready : same_state a.state ContinuationState.awaiting_approval ≡ true =
        ap (λ x. same_state x ContinuationState.awaiting_approval) waits in
      rw
        (
          at_found id s a found,
          approve_from,
          early,
          ready,
          write_lem id (set_approved now approval) s a (λ r. refl) found,
        )
        (
          set_approved now approval a,
          select_first-updated id (set_approved now approval) s a (λ r. refl) found,
          (refl, refl, refl, refl, refl, refl),
        )

  module _ (texts : Texts) (relative : ℕ → ℕ → List ℕ) (resource : ℕ)
      (answer : ToolApprovalState) where
    abbrev Answered : Store → Type 0
    Answered = RowIs id (IsAnswered texts relative resource (some answer))

    status-Answered :
        (status : ApprovalStatus)
        → answer.status ≡ status
        → answer.decision ≡ none
        → Answered (decide_by_status texts relative now id status s)
    unfolding decide_by_status mark_approval_expired
    status-Answered ApprovalStatus.pending e undecided =
        (a, found, IsAnswered.still_open undecided e waits)
    status-Answered ApprovalStatus.auto_allow e undecided =
        let (row, f, k) = transition-RowIs ContinuationState.approval_expired refl in
        (row, f, IsAnswered.expired undecided (λ p. cc) k)
    status-Answered (ApprovalStatus.ended x) e undecided =
        let (row, f, k) = transition-RowIs ContinuationState.approval_expired refl in
        (row, f, IsAnswered.expired undecided (λ p. cc) k)

    approval-Answered :
        answer.decision ≡ some ApprovalDecision.allow
        → (o : Option ContinuationApproval)
        → approval_for texts relative resource answer.activation ≡ o
        → Answered (approve_or_fail texts relative now id o s)
    unfolding approve_or_fail mark_approval_delivery_failed
    approval-Answered allows none e =
        let (row, f, k) = transition-RowIs ContinuationState.approval_delivery_failed refl in
        (
          row,
          f,
          IsAnswered.undeliverable allows
              (λ approval usable.
                let given =
                  IsUsable-approval_for texts relative resource answer.activation approval usable in
                cc)
              k,
        )
    approval-Answered allows (some approval) e =
        let (row, f, k) = approve-RowIs approval in
        (
          row,
          f,
          IsAnswered.approved approval allows
              (approval_for-IsUsable texts relative resource answer.activation approval e) k,
        )

    decision-Answered :
        (decision : Option ApprovalDecision)
        → answer.decision ≡ decision
        → Answered (decide_by_owner texts relative now id resource decision answer s)
    unfolding decide_by_owner mark_denied
    decision-Answered (some ApprovalDecision.deny) e =
        let (row, f, k) = transition-RowIs ContinuationState.denied refl in
        (row, f, IsAnswered.declined e k)
    decision-Answered (some ApprovalDecision.allow) e =
        approval-Answered e (approval_for texts relative resource answer.activation) refl
    decision-Answered none e = status-Answered answer.status refl e

-- A continuation that awaits approval is, after its recovery, as the gateway's answer calls for: denied
-- where the owner declined; where the owner allowed it, approved with the fields of the activation if
-- that has all of them, none of its texts blank, and the relative path from its folder to the resource
-- neither is nor goes through the parent and is not absolute, and undeliverable if it has not; without
-- a decision it still awaits where the status is pending, and is expired where the status is any other,
-- automatic allowance included. Where the gateway throws it still awaits.
pub recover_decision-IsAnswered :
    (texts : Texts) (relative : ℕ → ℕ → List ℕ) (now : ℕ) (s : Store) (c : ContinuationCheckpoint)
    (answer : Option ToolApprovalState)
    → find c.continuation_id s ≡ some c
    → c.state ≡ ContinuationState.awaiting_approval
    → (row : ContinuationRow) × (select_first
          (has_continuation_id c.continuation_id)
          (recover_decision texts relative now c answer s)
        ≡ some row)
      × IsAnswered texts relative c.requested_capability.canonical_resource answer row
unfolding recover_decision find
recover_decision-IsAnswered texts relative now s c answer known waits =
    elim (Option-cases (select_first (has_continuation_id c.continuation_id) s)) [
      | inl missing ↦ cc (rw (missing, find) at known)
      | inr (a, found) ↦
          let same : some (from_row a) ≡ some c = rw (found, find) at known in
          decided answer a found (ap state_in same ∙ waits)
    ]
  where
    state_in : Option ContinuationCheckpoint → ContinuationState
    state_in none = ContinuationState.denied
    state_in (some d) = d.state

    decided :
        (o : Option ToolApprovalState) (a : ContinuationRow)
        → select_first (has_continuation_id c.continuation_id) s ≡ some a
        → a.state ≡ ContinuationState.awaiting_approval
        → (row : ContinuationRow) × (select_first
              (has_continuation_id c.continuation_id)
              (recover_decision texts relative now c o s)
            ≡ some row)
          × IsAnswered texts relative c.requested_capability.canonical_resource o row
    decided none a found e = (a, found, IsAnswered.unheard e)
    decided (some state) a found e =
        decision-Answered now c.continuation_id s a found e texts relative
          c.requested_capability.canonical_resource state state.decision refl
