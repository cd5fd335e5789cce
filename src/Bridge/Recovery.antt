-- ===== src/Bridge/Recovery.antt =====
-- src/bridge/continuation-recovery.ts: the bridge's work on stored continuations. The gateway's
-- answers, the runtime's operations and `relative(resolve(a), resolve(b))` of node:path are
-- parameters; work that runs at once is in the order in which it is done.
pub mod Approving
pub mod Deciding
pub mod Once
use aicoo_local_agent.Common.{
  ℕ, List, [], ◌∷◌, Bool, true, false, not, ◌&&◌, ◌||◌, Option, none, some, ◌==◌, is_some, truthy,
  if◌then◌else◌, has_row, select,
}
use aicoo_local_agent.Common.Attempts.{Attempt, returned, thrown}
use aicoo_local_agent.Security.ToolPolicies.{same_text}
use aicoo_local_agent.Security.Paths.{codes, slash, starts_with, is_absolute}
use aicoo_local_agent.Shared.Continuations.{
  ContinuationState, same_state, ContinuationCheckpoint, Store, Call, Texts, ContinuationApproval,
  ContinuationError, find_resuming, list_awaiting_decisions, list_recoverable, mark_approved,
  mark_denied, mark_approval_expired, mark_approval_delivery_failed, mark_resume_failed,
}
use aicoo_local_agent.Shared.Continuations.Rebuild.{
  SessionRebuildOperations, Ran, execute, complete,
}
use aicoo_local_agent.Shared.ToolApproval.{
  ApprovalStatus, ApprovalDecision, ToolApprovalState, BoundaryActivation,
}

-- What a call leaves, whether it returns or throws.
unfoldable pub table_after : Call → Store → Store
table_after (returned (c, t)) s = t
table_after (thrown e) s = s

-- `contains` on the relative path.
unfoldable pub is_below : List ℕ → Bool
unfolding starts_with is_absolute
is_below path =
    same_text path []
    || (not (same_text path (codes ".."))
        && not (starts_with (codes "../") path)
        && not (is_absolute path))

module _ (texts : Texts) (relative : ℕ → ℕ → List ℕ) where
  -- The approval of an activation with every field there, its texts not blank.
  unfoldable pub approval_of : BoundaryActivation → Option ContinuationApproval
  approval_of a = elim a.grant_id [
    | none ↦ none
    | some grant ↦ elim a.grant_revision [
      | none ↦ none
      | some revision ↦ elim a.canonical_folder [
        | none ↦ none
        | some folder ↦ elim a.access_preset [
          | none ↦ none
          | some preset ↦ elim a.expected_boundary_manifest_hash [
            | none ↦ none
            | some hash ↦
                if texts.is_blank grant || texts.is_blank folder || texts.is_blank hash
                then none
                else some record {
                  grant_id = grant;
                  grant_revision = revision;
                  approved_canonical_folder = folder;
                  approved_access_preset = preset;
                  expected_boundary_manifest_hash = hash;
                }
          ]
        ]
      ]
    ]
  ]

  -- `validActivation`, and `contains` for the resource that the continuation asks for.
  unfoldable pub approval_for : ℕ → Option BoundaryActivation → Option ContinuationApproval
  unfolding approval_of is_below
  approval_for resource none = none
  approval_for resource (some activation) = elim (approval_of activation) [
    | none ↦ none
    | some approval ↦
        if is_below (relative approval.approved_canonical_folder resource)
        then some approval
        else none
  ]

  unfoldable pub approve_or_fail : ℕ → ℕ → Option ContinuationApproval → Store → Store
  unfolding table_after mark_approval_delivery_failed mark_approved
  approve_or_fail now id none s = table_after (mark_approval_delivery_failed now id s) s
  approve_or_fail now id (some approval) s = table_after (mark_approved now id approval s) s

  unfoldable pub decide_by_status : ℕ → ℕ → ApprovalStatus → Store → Store
  unfolding table_after mark_approval_expired
  decide_by_status now id ApprovalStatus.pending s = s
  decide_by_status now id status s = table_after (mark_approval_expired now id s) s

  unfoldable pub decide_by_owner :
      ℕ → ℕ → ℕ → Option ApprovalDecision → ToolApprovalState → Store → Store
  unfolding table_after mark_denied approve_or_fail approval_for decide_by_status
  decide_by_owner now id resource (some ApprovalDecision.deny) state s =
      table_after (mark_denied now id s) s
  decide_by_owner now id resource (some ApprovalDecision.allow) state s =
      approve_or_fail now id (approval_for resource state.activation) s
  decide_by_owner now id resource none state s = decide_by_status now id state.status s

  -- `recoverAwaitingDecisions` of one continuation: the answer is missing where the gateway throws.
  unfoldable pub recover_decision :
      ℕ → ContinuationCheckpoint → Option ToolApprovalState → Store → Store
  unfolding decide_by_owner
  recover_decision now c none s = s
  recover_decision now c (some state) s =
      decide_by_owner now c.continuation_id c.requested_capability.canonical_resource state.decision
        state s

-- The table, and `#resumedThisProcess`.
pub record RecoveryState : Type 0 where
  pub store : Store
  pub resumed_this_process : List ℕ

abbrev pub is_resuming : Attempt ContinuationError ContinuationCheckpoint → Bool
is_resuming (thrown e) = false
is_resuming (returned c) = same_state c.state ContinuationState.resuming

unfoldable pub after_execute : ℕ → Ran → List ℕ → RecoveryState
after_execute id r resumed = record {
  store = r.1;
  resumed_this_process = if is_resuming r.0 then id ∷ resumed else resumed;
}

module _ (texts : Texts) (ops : SessionRebuildOperations) where
  -- `recover` of one continuation that may be activated.
  unfoldable pub recover_one : ℕ → Bool → ContinuationCheckpoint → RecoveryState → RecoveryState
  unfolding execute after_execute
  recover_one now can_activate c s =
      if has_row (λ id. id == c.continuation_id) s.resumed_this_process || not can_activate
      then s
      else after_execute c.continuation_id (execute texts ops now c.continuation_id s.store)
          s.resumed_this_process

pub data RuntimeEventKind : Type 0 where
  turn_started reply turn_failed session_closed : RuntimeEventKind

pub record ContinuationRuntimeEvent : Type 0 where
  pub kind : RuntimeEventKind
  pub in_reply_to : Option ℕ
  pub correlation_id : Option ℕ

-- The code of 'runtime_turn_failed'.
abbrev pub runtime_turn_failed : ℕ
runtime_turn_failed = 5

abbrev pub text_or_none : Option ℕ → Option ℕ
text_or_none o = if truthy o then o else none

-- The end of `handleRuntimeEvent`; it may throw, after the removal from the set.
unfoldable pub finish : Texts → ℕ → RuntimeEventKind → ℕ → Store → Store
unfolding table_after complete mark_resume_failed
finish texts now RuntimeEventKind.reply id s = table_after (complete now id s) s
finish texts now _ id s = table_after (mark_resume_failed texts now id runtime_turn_failed s) s

abbrev pub ends_turn : RuntimeEventKind → Bool
ends_turn RuntimeEventKind.reply = true
ends_turn RuntimeEventKind.turn_failed = true
ends_turn _ = false

unfoldable pub handle_found :
    Texts → ℕ → RuntimeEventKind → Option ContinuationCheckpoint → RecoveryState → RecoveryState
unfolding finish
handle_found texts now kind none s = s
handle_found texts now kind (some c) s = record {
  store = finish texts now kind c.continuation_id s.store;
  resumed_this_process = select (λ id. not (id == c.continuation_id)) s.resumed_this_process;
}

unfoldable pub handle_runtime_event :
    Texts → ℕ → ℕ → ContinuationRuntimeEvent → RecoveryState → RecoveryState
unfolding handle_found find_resuming
handle_runtime_event texts now session event s = elim event.in_reply_to [
  | none ↦ s
  | some message ↦
      if ends_turn event.kind && not (message == 0)
      then handle_found texts now event.kind
          (find_resuming session message (text_or_none event.correlation_id) s.store) s
      else s
]
