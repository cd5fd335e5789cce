-- ===== src/Shared/Continuations.antt =====
-- src/shared/continuation-store.ts: the table c2c_continuations, a row for each C2C tool call that
-- waits for approval. Texts are codes with 0 for the empty one, in the order of the texts, and
-- instants are numbers; the table's statements are those of Common/Tables.
pub mod Schema
pub mod Reading
pub mod Rows
unfoldable pub use Schema.*
unfoldable pub use Reading.*
unfoldable pub use Rows.*
pub mod Graph
pub mod Invariants
pub mod Permanence
pub mod Rebuild
pub mod Runs
pub mod Steps
use aicoo_local_agent.Common.{
  ℕ, List, [], ◌∷◌, ◌++◌, Bool, true, false, not, ◌&&◌, ◌||◌, Option, none, some, map, ◌==◌, ltb,
  leb, column_is, truthy, if◌then◌else◌, is_some, select_first, select, update_first, order_by,
}
use aicoo_local_agent.Common.Attempts.{Attempt, returned, thrown, ◌>>=◌, ◌>>◌, ensure}
use aicoo_local_agent.Security.Presets.{FileAccessPreset, same_preset, preset_of}

unfoldable pub require_state :
    ContinuationCheckpoint → ContinuationState → Attempt ContinuationError (Unit {0})
require_state current expected =
    ensure (same_state current.state expected)
      (ContinuationError.invalid_transition current.state expected)

-- UPDATE ... WHERE continuation_id = ?, the primary key, and `return this.require(continuationId)`.
unfoldable pub write : ℕ → (ContinuationRow → ContinuationRow) → Store → Call
unfolding require_continuation
write id f s = do
  current ← require_continuation id (update_first (has_continuation_id id) f s)
  returned (current, update_first (has_continuation_id id) f s)

-- `states.includes(state)`
abbrev pub one_of : List ContinuationState → ContinuationState → Bool
one_of [] s = false
one_of (a ∷ as') s = same_state a s || one_of as' s

module _ (texts : Texts) where
  abbrev pub fits : ℕ → ℕ → Bool
  fits text limit = not (texts.is_blank text) && leb (texts.size text) limit

  unfoldable pub validate_input : CreateContinuationInput → Attempt ContinuationError (Unit {0})
  validate_input input = do
    ensure
        (fits input.idempotency_key 512
          && fits input.correlation_id 512
          && fits input.communication_session_id 512
          && fits input.message_id 512
          && fits input.session_handle 512
          && fits input.runtime_turn_id 512
          && fits input.requested_capability.tool_name 128
          && fits input.requested_capability.canonical_resource 4096
          && fits input.requested_capability.summary 2048)
        ContinuationError.invalid_field
    ensure (leb (texts.size input.original_message) 65536) ContinuationError.message_too_large

  -- `create` after its validation.
  unfoldable pub create_row :
      ℕ → ℕ → ℕ → CreateContinuationInput → Option ContinuationRow → Store → Call
  unfolding from_row require_continuation new_continuation
  create_row now id hash input (some row) s =
      if row.request_hash == hash
      then returned (from_row row, s)
      else thrown ContinuationError.idempotency_conflict
  create_row now id hash input none s = do
    current ← require_continuation id (s ++ new_continuation now id hash input ∷ [])
    returned (current, s ++ new_continuation now id hash input ∷ [])

  -- `hash` is `stableHash`, `id` the identifier that is drawn, taken to be one that no row has.
  unfoldable pub create :
      (CreateContinuationInput → ℕ) → ℕ → ℕ → CreateContinuationInput → Store → Call
  unfolding validate_input create_row row_for_idempotency_key
  create hash now id input s = do
    validate_input input
    create_row now id (hash input) input (row_for_idempotency_key input.idempotency_key s) s

  -- `attachApproval` at a row that waits.
  unfoldable pub attach_to : ℕ → ℕ → ℕ → ContinuationCheckpoint → Store → Call
  unfolding write set_approval
  attach_to now id approval current s =
      if column_is current.approval_id approval
      then returned (current, s)
      else if truthy current.approval_id
      then thrown ContinuationError.approval_conflict
      else write id (set_approval now approval) s

  unfoldable pub attach_approval : ℕ → ℕ → ℕ → Store → Call
  unfolding require_continuation require_state attach_to
  attach_approval now id approval s = do
    ensure (fits approval 512) ContinuationError.invalid_approval_id
    current ← require_continuation id s
    require_state current ContinuationState.awaiting_approval
    attach_to now id approval current s

  unfoldable pub fail_from :
      ℕ → ℕ → List ContinuationState → ContinuationState → ℕ → ContinuationCheckpoint → Store → Call
  unfolding write set_failed
  fail_from now id from to error current s =
      if same_state current.state to && column_is current.error_code error
      then returned (current, s)
      else if not (one_of from current.state)
      then thrown (ContinuationError.invalid_transition current.state to)
      else write id (set_failed now to error) s

  unfoldable pub fail_transition :
      ℕ → ℕ → List ContinuationState → ContinuationState → ℕ → Store → Call
  unfolding require_continuation fail_from
  fail_transition now id from to error s = do
    ensure (fits error 256) ContinuationError.invalid_error_code
    current ← require_continuation id s
    fail_from now id from to error current s

  unfoldable pub mark_activation_failed : ℕ → ℕ → ℕ → Store → Call
  unfolding fail_transition
  mark_activation_failed now id error s =
      fail_transition now id
        (ContinuationState.approved_pending_activation ∷ ContinuationState.rebuilding_session ∷ [])
        ContinuationState.activation_failed error s

  unfoldable pub mark_resume_failed : ℕ → ℕ → ℕ → Store → Call
  unfolding fail_transition
  mark_resume_failed now id error s =
      fail_transition now id (ContinuationState.resuming ∷ []) ContinuationState.resume_failed error
        s

abbrev pub column_is_preset : Option FileAccessPreset → FileAccessPreset → Bool
column_is_preset none p = false
column_is_preset (some q) p = same_preset (preset_of q) (preset_of p)

abbrev pub same_approval : ContinuationCheckpoint → ContinuationApproval → Bool
same_approval current approval =
    column_is current.grant_id approval.grant_id
    && column_is current.grant_revision approval.grant_revision
    && column_is current.approved_canonical_folder approval.approved_canonical_folder
    && column_is_preset current.approved_access_preset approval.approved_access_preset
    && column_is current.expected_boundary_manifest_hash approval.expected_boundary_manifest_hash

unfoldable pub approve_from : ℕ → ℕ → ContinuationApproval → ContinuationCheckpoint → Store → Call
unfolding require_state write set_approved
approve_from now id approval current s =
    if same_state current.state ContinuationState.approved_pending_activation
    then (if same_approval current approval
        then returned (current, s)
        else thrown ContinuationError.approval_conflict)
    else (require_state current ContinuationState.awaiting_approval
        >> write id (set_approved now approval) s)

unfoldable pub mark_approved : ℕ → ℕ → ContinuationApproval → Store → Call
unfolding require_continuation approve_from
mark_approved now id approval s =
    require_continuation id s >>= λ current. approve_from now id approval current s

unfoldable pub transition_from :
    ℕ → ℕ → ContinuationState → ContinuationState → ContinuationCheckpoint → Store → Call
unfolding require_state write set_state
transition_from now id from to current s =
    if same_state current.state to
    then returned (current, s)
    else (require_state current from >> write id (set_state now to) s)

unfoldable pub transition : ℕ → ℕ → ContinuationState → ContinuationState → Store → Call
unfolding require_continuation transition_from
transition now id from to s =
    require_continuation id s >>= λ current. transition_from now id from to current s

unfoldable pub mark_rebuilding : ℕ → ℕ → Store → Call
unfolding transition
mark_rebuilding now id s =
    transition now id ContinuationState.approved_pending_activation
      ContinuationState.rebuilding_session s

unfoldable pub mark_completed : ℕ → ℕ → Store → Call
unfolding transition
mark_completed now id s = transition now id ContinuationState.resuming ContinuationState.completed s

unfoldable pub mark_approval_expired : ℕ → ℕ → Store → Call
unfolding transition
mark_approval_expired now id s =
    transition now id ContinuationState.awaiting_approval ContinuationState.approval_expired s

unfoldable pub mark_denied : ℕ → ℕ → Store → Call
unfolding transition
mark_denied now id s =
    transition now id ContinuationState.awaiting_approval ContinuationState.denied s

unfoldable pub mark_approval_delivery_failed : ℕ → ℕ → Store → Call
unfolding transition
mark_approval_delivery_failed now id s =
    transition now id ContinuationState.awaiting_approval ContinuationState.approval_delivery_failed
      s

-- `!expected || expected !== hash`
abbrev pub is_mismatch : Option ℕ → ℕ → Bool
is_mismatch expected hash = not (truthy expected) || not (column_is expected hash)

unfoldable pub attest_from : ℕ → ℕ → ℕ → ContinuationCheckpoint → Store → Call
unfolding require_state write set_mismatched set_attested
attest_from now id hash current s =
    if same_state current.state ContinuationState.resuming
      && column_is current.boundary_manifest_hash hash
    then returned (current, s)
    else (require_state current ContinuationState.rebuilding_session
        >> write id
            (if is_mismatch current.expected_boundary_manifest_hash hash
              then set_mismatched now hash
              else set_attested now hash)
            s)

unfoldable pub mark_attested : ℕ → ℕ → ℕ → Store → Call
unfolding require_continuation attest_from
mark_attested now id hash s =
    require_continuation id s >>= λ current. attest_from now id hash current s

unfoldable pub mark_resuming : ℕ → Store → Call
unfolding require_continuation
mark_resuming id s = require_continuation id s >>= λ current.
    if same_state current.state ContinuationState.resuming
    then returned (current, s)
    else thrown (ContinuationError.invalid_transition current.state ContinuationState.resuming)
