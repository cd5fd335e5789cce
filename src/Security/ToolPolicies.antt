-- ===== src/Security/ToolPolicies.antt =====
-- src/security/trusted-tool-policy.ts: the grants of folders to a peer's device, in one file. Each
-- function reads the whole document and, where it changes something, writes it back.
pub mod Calls
pub mod Regranting
pub mod Schema
unfoldable pub use Schema.*
use aicoo_local_agent.Common.{
  ℕ, zero, suc, ◌+◌, map, List, [], ◌∷◌, ◌++◌, Bool, true, false, not, ◌&&◌, ◌||◌, Option, none,
  some, ◌==◌, ltb, leb, column_is, truthy, if◌then◌else◌, or_else, is_some, length, select_first,
  select, has_row, update_first,
}
use aicoo_local_agent.Common.Attempts.{Attempt, returned, thrown, ◌>>=◌, ◌>>◌, ensure}
use aicoo_local_agent.Security.Presets.{FileAccessPreset}

-- What `realpathSync` makes of the folder, and whether that is a root.
pub data Resolved : Type 0 where
  missing root : Resolved
  folder_at : List ℕ → Resolved

unfoldable pub canonicalize_policy_folder : Resolved → Attempt PolicyError (List ℕ)
canonicalize_policy_folder Resolved.missing = thrown PolicyError.unreadable_folder
canonicalize_policy_folder Resolved.root = thrown PolicyError.root_folder
canonicalize_policy_folder (Resolved.folder_at path) = returned path

unfoldable pub is_exact : UpsertInput → List ℕ → TrustedToolPolicy → Bool
is_exact input folder p =
    is_active p.status
    && p.owner_principal_id == input.owner_principal_id
    && p.owner_device_id == input.owner_device_id
    && p.requester_principal_id == input.requester_principal_id
    && p.requester_device_id == input.requester_device_id
    && same_text p.canonical_folder folder
    && same_file_preset p.access_preset input.access_preset
    && same_scope p.scope input.scope
    && (not (truthy input.policy_id) || p.policy_id == or_else input.policy_id 0)
    && (not (is_bridge_run input.scope)
        || same_option p.bridge_instance_id input.bridge_instance_id)

unfoldable pub new_policy : ℕ → UpsertInput → List ℕ → TrustedToolPolicy
new_policy fresh input folder = record {
  policy_id = or_else input.policy_id fresh;
  owner_principal_id = input.owner_principal_id;
  owner_device_id = input.owner_device_id;
  requester_principal_id = input.requester_principal_id;
  requester_device_id = input.requester_device_id;
  canonical_folder = folder;
  access_preset = input.access_preset;
  scope = input.scope;
  bridge_instance_id = if is_bridge_run input.scope then input.bridge_instance_id else none;
  status = PolicyStatus.active;
  created_from = input.created_from;
  created_at = input.created_at;
  created_by = input.created_by;
  last_used_at = none;
  use_count = 0;
  pending_uses = [];
  revoked_at = none;
  revoked_by = none;
  invalidated_reason = none;
}

-- The write at the end of `upsertTrustedToolPolicy`.
unfoldable pub add_policy : ℕ → UpsertInput → List ℕ → PolicyDocument → PolicyDocument
unfolding new_policy
add_policy fresh input folder d = record {
  revision = d.revision + 1;
  server_revisions =
      if truthy input.policy_id
      then put_revision (or_else input.policy_id 0) (or_else input.server_revision 0)
          d.server_revisions
      else d.server_revisions;
  policies = d.policies ++ new_policy fresh input folder ∷ [];
}

unfoldable pub grant_folder :
    ℕ → UpsertInput → List ℕ → PolicyDocument → TrustedToolPolicy × PolicyDocument
unfolding add_policy
grant_folder fresh input folder d = elim (select_first (is_exact input folder) d.policies) [
  | some exact ↦ (exact, d)
  | none ↦ (new_policy fresh input folder, add_policy fresh input folder d)
]

-- `latestServerRevision === serverRevision && input.policyId`
abbrev pub is_same_revision : UpsertInput → PolicyDocument → Bool
unfolding server_revision
is_same_revision input d =
    column_is (server_revision (or_else input.policy_id 0) d) (or_else input.server_revision 0)
    && truthy input.policy_id

abbrev pub is_newer : Option ℕ → ℕ → Bool
is_newer none value = false
is_newer (some latest) value = ltb value latest

-- The grant at the revision that the file has already.
unfoldable pub granted_before :
    Option TrustedToolPolicy
    → PolicyDocument
    → Attempt PolicyError (TrustedToolPolicy × PolicyDocument)
granted_before none d = thrown PolicyError.already_revoked
granted_before (some same) d = returned (same, d)

unfoldable pub grant_at_revision :
    ℕ
    → UpsertInput
    → List ℕ
    → PolicyDocument
    → Attempt PolicyError (TrustedToolPolicy × PolicyDocument)
unfolding granted_before
grant_at_revision fresh input folder d =
    if is_same_revision input d
    then granted_before
        (select_first (λ p. p.policy_id == or_else input.policy_id 0 && is_active p.status)
          d.policies)
        d
    else returned (grant_folder fresh input folder d)

unfoldable pub upsert_trusted_tool_policy :
    ℕ
    → UpsertInput
    → Resolved
    → PolicyDocument
    → Attempt PolicyError (TrustedToolPolicy × PolicyDocument)
unfolding server_revision
upsert_trusted_tool_policy fresh input resolved d = do
  ensure (not (is_bridge_run input.scope && not (truthy input.bridge_instance_id)))
      PolicyError.bridge_instance_required
  folder ← canonicalize_policy_folder resolved
  ensure
      (not (
        is_newer (server_revision (or_else input.policy_id 0) d) (or_else input.server_revision 0)))
      PolicyError.stale_revision
  grant_at_revision fresh input folder d

abbrev pub has_id : ℕ → TrustedToolPolicy → Bool
has_id id p = p.policy_id == id

-- `input.serverRevision ?? latestServerRevision ?? 0`
unfoldable pub revision_of : ℕ → Option ℕ → PolicyDocument → ℕ
unfolding server_revision
revision_of id given d = or_else given (or_else (server_revision id d) 0)

unfoldable pub revoke_row : ℕ → ℕ → TrustedToolPolicy → TrustedToolPolicy
revoke_row now by p = record p {
  status = PolicyStatus.revoked;
  revoked_at = some now;
  revoked_by = some by;
}

-- What `revokeTrustedToolPolicy` does with the first policy of that id.
unfoldable pub revoke_found :
    ℕ
    → ℕ
    → ℕ
    → ℕ
    → Option TrustedToolPolicy
    → PolicyDocument
    → Option TrustedToolPolicy × PolicyDocument
unfolding revoke_row
revoke_found now id by value none d = (
  none,
  record d {
    revision = d.revision + 1;
    server_revisions = put_revision id value d.server_revisions;
  },
)
revoke_found now id by value (some current) d =
    if not (is_active current.status) then (some current, d) else (
      some (revoke_row now by current),
      record {
        revision = d.revision + 1;
        server_revisions = put_revision id value d.server_revisions;
        policies = update_first (has_id id) (revoke_row now by) d.policies;
      },
    )

unfoldable pub revoke_trusted_tool_policy :
    ℕ → ℕ → ℕ → Option ℕ → PolicyDocument → Option TrustedToolPolicy × PolicyDocument
unfolding revision_of revoke_found
revoke_trusted_tool_policy now id by given d =
    if is_newer (server_revision id d) (revision_of id given d)
    then (none, d)
    else revoke_found now id by (revision_of id given d) (select_first (has_id id) d.policies) d

unfoldable pub use_row : ℕ → TrustedToolPolicy → TrustedToolPolicy
use_row now p = record p {
  last_used_at = some now;
  use_count = p.use_count + 1;
  pending_uses = p.pending_uses ++ record { sequence = p.use_count + 1; used_at = now } ∷ [];
}

unfoldable pub mark_used : ℕ → ℕ → PolicyDocument → PolicyDocument
unfolding use_row
mark_used now id d =
    if has_row (λ p. p.policy_id == id && is_active p.status) d.policies
    then record d {
      revision = d.revision + 1;
      policies =
          update_first (λ p. p.policy_id == id && is_active p.status) (use_row now) d.policies;
    }
    else d

unfoldable pub report_row : ℕ → TrustedToolPolicy → TrustedToolPolicy
report_row accepted p = record p {
  pending_uses = select (λ u. ltb accepted u.sequence) p.pending_uses;
}

unfoldable pub report_found : ℕ → ℕ → Option TrustedToolPolicy → PolicyDocument → PolicyDocument
unfolding report_row
report_found id accepted none d = d
report_found id accepted (some current) d =
    if length (report_row accepted current).pending_uses == length current.pending_uses
    then d
    else record d {
      revision = d.revision + 1;
      policies = update_first (has_id id) (report_row accepted) d.policies;
    }

unfoldable pub mark_uses_reported : ℕ → ℕ → PolicyDocument → PolicyDocument
unfolding report_found
mark_uses_reported id accepted d = report_found id accepted (select_first (has_id id) d.policies) d

unfoldable pub invalidate_row : ℕ → TrustedToolPolicy → TrustedToolPolicy
invalidate_row reason p = record p {
  status = PolicyStatus.invalid;
  pending_uses = [];
  invalidated_reason = some reason;
}

unfoldable pub invalidate : ℕ → ℕ → PolicyDocument → PolicyDocument
unfolding invalidate_row
invalidate id reason d =
    if has_row (has_id id) d.policies
    then record d {
      revision = d.revision + 1;
      policies = update_first (has_id id) (invalidate_row reason) d.policies;
    }
    else d

unfoldable pub policy_matches_owner : TrustedToolPolicy → PolicyIdentity → Bool
policy_matches_owner p identity =
    is_active p.status
    && p.owner_principal_id == identity.owner_principal_id
    && p.owner_device_id == identity.owner_device_id
    && (not (is_bridge_run p.scope) || column_is p.bridge_instance_id identity.bridge_instance_id)

pub record PendingUses : Type 0 where
  pub policy : TrustedToolPolicy
  pub server_revision : ℕ
  pub uses : List PolicyUse

-- `uses.slice(0, limit)`
unfoldable pub take : ℕ → List PolicyUse → List PolicyUse
take zero us = []
take (suc n) [] = []
take (suc n) (u ∷ us) = u ∷ take n us

-- The uses that are to be reported to the server, for the policies of a device that it knows.
unfoldable pub pending_uses_of : ℕ → ℕ → ℕ → PolicyDocument → List PendingUses
unfolding server_revision take
pending_uses_of owner device limit d =
    map
      (λ p. record {
        policy = p;
        server_revision = or_else (server_revision p.policy_id d) 0;
        uses = take limit p.pending_uses;
      })
      (select
        (λ p.
          p.owner_principal_id == owner
          && p.owner_device_id == device
          && is_some (server_revision p.policy_id d)
          && ltb 0 (length p.pending_uses))
        d.policies)
