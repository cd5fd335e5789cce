-- ===== src/Shared/Continuations/Schema.antt =====
-- The types of src/shared/continuation-store.ts: the states, the columns of c2c_continuations and the
-- checkpoints that are read from them.
use aicoo_local_agent.Common.{ℕ, List, Bool, true, false, Option, none, ◌==◌, truthy, if◌then◌else◌}
use aicoo_local_agent.Common.Attempts.{Attempt}
use aicoo_local_agent.Security.Presets.{FileAccessPreset}

pub data ContinuationState : Type 0 where
  awaiting_approval approved_pending_activation rebuilding_session resuming completed denied :
      ContinuationState
  approval_expired approval_delivery_failed activation_failed resume_failed : ContinuationState

abbrev pub state_code : ContinuationState → ℕ
state_code ContinuationState.awaiting_approval = 0
state_code ContinuationState.approved_pending_activation = 1
state_code ContinuationState.rebuilding_session = 2
state_code ContinuationState.resuming = 3
state_code ContinuationState.completed = 4
state_code ContinuationState.denied = 5
state_code ContinuationState.approval_expired = 6
state_code ContinuationState.approval_delivery_failed = 7
state_code ContinuationState.activation_failed = 8
state_code ContinuationState.resume_failed = 9

-- `a === b` on states
abbrev pub same_state : ContinuationState → ContinuationState → Bool
same_state a b = state_code a == state_code b

-- `isTerminal` of src/shared/session-rebuild.ts
abbrev pub is_terminal : ContinuationState → Bool
is_terminal ContinuationState.awaiting_approval = false
is_terminal ContinuationState.approved_pending_activation = false
is_terminal ContinuationState.rebuilding_session = false
is_terminal ContinuationState.resuming = false
is_terminal _ = true

pub record RequestedCapability : Type 0 where
  pub tool_name : ℕ
  pub canonical_resource : ℕ
  pub summary : ℕ

pub record ContinuationCheckpoint : Type 0 where
  pub continuation_id : ℕ
  pub approval_id : Option ℕ
  pub idempotency_key : ℕ
  pub correlation_id : ℕ
  pub communication_session_id : ℕ
  pub message_id : ℕ
  pub session_handle : ℕ
  pub runtime_turn_id : ℕ
  pub original_message : ℕ
  pub requested_capability : RequestedCapability
  pub state : ContinuationState
  pub grant_id : Option ℕ
  pub grant_revision : Option ℕ
  pub approved_canonical_folder : Option ℕ
  pub approved_access_preset : Option FileAccessPreset
  pub expected_boundary_manifest_hash : Option ℕ
  pub boundary_manifest_hash : Option ℕ
  pub error_code : Option ℕ

pub record CreateContinuationInput : Type 0 where
  pub idempotency_key : ℕ
  pub correlation_id : ℕ
  pub communication_session_id : ℕ
  pub message_id : ℕ
  pub session_handle : ℕ
  pub runtime_turn_id : ℕ
  pub original_message : ℕ
  pub requested_capability : RequestedCapability

pub record ContinuationRow : Type 0 where
  pub continuation_id : ℕ
  pub approval_id : Option ℕ
  pub idempotency_key : ℕ
  pub request_hash : ℕ
  pub correlation_id : ℕ
  pub communication_session_id : ℕ
  pub message_id : ℕ
  pub session_handle : ℕ
  pub runtime_turn_id : ℕ
  pub original_message_json : ℕ
  pub requested_capability : RequestedCapability
  pub state : ContinuationState
  pub grant_id : Option ℕ
  pub grant_revision : Option ℕ
  pub approved_canonical_folder : Option ℕ
  pub approved_access_preset : Option FileAccessPreset
  pub expected_boundary_manifest_hash : Option ℕ
  pub boundary_manifest_hash : Option ℕ
  pub error_code : Option ℕ
  pub created_at : ℕ
  pub updated_at : ℕ

abbrev pub Store : Type 0
Store = List ContinuationRow

pub data ContinuationError : Type 0 where
  invalid_field message_too_large idempotency_conflict invalid_approval_id : ContinuationError
  approval_conflict invalid_error_code unknown_continuation : ContinuationError
  invalid_transition : ContinuationState → ContinuationState → ContinuationError

-- A call that returns a checkpoint and leaves the table, or throws before it writes.
abbrev pub Call : Type 0
Call = Attempt ContinuationError (ContinuationCheckpoint × Store)

-- What JavaScript says of a text: is `text.trim()` empty, and its `length`.
pub record Texts : Type 0 where
  pub is_blank : ℕ → Bool
  pub size : ℕ → ℕ

-- A column that holds a text, absent from the checkpoint where it is empty.
abbrev pub text_column : Option ℕ → Option ℕ
text_column c = if truthy c then c else none

unfoldable pub from_row : ContinuationRow → ContinuationCheckpoint
from_row row = record {
  continuation_id = row.continuation_id;
  approval_id = text_column row.approval_id;
  idempotency_key = row.idempotency_key;
  correlation_id = row.correlation_id;
  communication_session_id = row.communication_session_id;
  message_id = row.message_id;
  session_handle = row.session_handle;
  runtime_turn_id = row.runtime_turn_id;
  original_message = row.original_message_json;
  requested_capability = row.requested_capability;
  state = row.state;
  grant_id = text_column row.grant_id;
  grant_revision = row.grant_revision;
  approved_canonical_folder = text_column row.approved_canonical_folder;
  approved_access_preset = row.approved_access_preset;
  expected_boundary_manifest_hash = text_column row.expected_boundary_manifest_hash;
  boundary_manifest_hash = text_column row.boundary_manifest_hash;
  error_code = text_column row.error_code;
}
