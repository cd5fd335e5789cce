-- ===== src/Shared/Continuations/Rows.antt =====
-- The rows that the statements of src/shared/continuation-store.ts write.
use aicoo_local_agent.Common.{ℕ, none, some}
use aicoo_local_agent.Security.Presets.{FileAccessPreset}
use aicoo_local_agent.Shared.Continuations.Schema.{
  ContinuationState, CreateContinuationInput, ContinuationRow,
}

unfoldable pub set_state : ℕ → ContinuationState → ContinuationRow → ContinuationRow
set_state now to row = record row { state = to; updated_at = now }

unfoldable pub set_failed : ℕ → ContinuationState → ℕ → ContinuationRow → ContinuationRow
set_failed now to error row = record row { state = to; error_code = some error; updated_at = now }

unfoldable pub set_approval : ℕ → ℕ → ContinuationRow → ContinuationRow
set_approval now approval row = record row { approval_id = some approval; updated_at = now }

pub record ContinuationApproval : Type 0 where
  pub grant_id : ℕ
  pub grant_revision : ℕ
  pub approved_canonical_folder : ℕ
  pub approved_access_preset : FileAccessPreset
  pub expected_boundary_manifest_hash : ℕ

unfoldable pub set_approved : ℕ → ContinuationApproval → ContinuationRow → ContinuationRow
set_approved now approval row = record row {
  state = ContinuationState.approved_pending_activation;
  grant_id = some approval.grant_id;
  grant_revision = some approval.grant_revision;
  approved_canonical_folder = some approval.approved_canonical_folder;
  approved_access_preset = some approval.approved_access_preset;
  expected_boundary_manifest_hash = some approval.expected_boundary_manifest_hash;
  updated_at = now;
}

-- The code of 'boundary_attestation_mismatch'.
abbrev pub attestation_mismatch : ℕ
attestation_mismatch = 1

unfoldable pub set_mismatched : ℕ → ℕ → ContinuationRow → ContinuationRow
set_mismatched now hash row = record row {
  state = ContinuationState.activation_failed;
  boundary_manifest_hash = some hash;
  error_code = some attestation_mismatch;
  updated_at = now;
}

unfoldable pub set_attested : ℕ → ℕ → ContinuationRow → ContinuationRow
set_attested now hash row = record row {
  state = ContinuationState.resuming;
  boundary_manifest_hash = some hash;
  error_code = none;
  updated_at = now;
}

unfoldable pub new_continuation : ℕ → ℕ → ℕ → CreateContinuationInput → ContinuationRow
new_continuation now id hash input = record {
  continuation_id = id;
  approval_id = none;
  idempotency_key = input.idempotency_key;
  request_hash = hash;
  correlation_id = input.correlation_id;
  communication_session_id = input.communication_session_id;
  message_id = input.message_id;
  session_handle = input.session_handle;
  runtime_turn_id = input.runtime_turn_id;
  original_message_json = input.original_message;
  requested_capability = input.requested_capability;
  state = ContinuationState.awaiting_approval;
  grant_id = none;
  grant_revision = none;
  approved_canonical_folder = none;
  approved_access_preset = none;
  expected_boundary_manifest_hash = none;
  boundary_manifest_hash = none;
  error_code = none;
  created_at = now;
  updated_at = now;
}
