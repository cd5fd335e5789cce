-- ===== src/Tests/SecurityRuns.antt =====
-- The theorems on the security policies, on a concrete file of grants and a concrete relationship.
use aicoo_local_agent.Common.{
  ℕ, ◌≡◌, refl, arith, List, [], ◌∷◌, ◌++◌, true, false, none, some, Memᴰ, select_first, select,
  update_first, has_row, truthy,
}
use aicoo_local_agent.Common.Attempts.{returned}
use aicoo_local_agent.Security.Presets.{FileAccessPreset, includes, access_preset_allows_tool}
use aicoo_local_agent.Security.ToolPolicies.{
  Scope, PolicyStatus, CreatedFrom, TrustedToolPolicy, PolicyDocument, UpsertInput, Resolved,
  has_id, is_active, is_newer, is_exact, server_revision, revision_of, put_revision,
  canonicalize_policy_folder, grant_at_revision, grant_folder, add_policy, new_policy,
  upsert_trusted_tool_policy, revoke_trusted_tool_policy, revoke_found, revoke_row, same_text,
}
use aicoo_local_agent.Security.ToolPolicies.Regranting.{
  AtMostOne, revoke_ends_grant, regrant_not_revoked,
}
use aicoo_local_agent.Security.Paths.{
  codes, slash, FileSystem, RealPath, is_within, segments_of, canonical_path, to_literal_absolute,
  is_absolute, starts_with, ends_with, split_slash, parts_at, has_parts, dangerous_path_decision,
  is_execution_on_next_use_path, resolve_relationship_path, check_candidate, check_paths,
}
use aicoo_local_agent.Security.Paths.Segments.{
  render, AreSegments, no_slash, is_segment_prefix, is_within_lem,
}
use aicoo_local_agent.Security.RelationshipPolicy.{
  RelationshipPolicy, InboundMessage, ToolAction, Permission, supported_tools, distinct, has_text,
  folders_of, policy_folders, relationships_for, trusted_policies_for, is_selected_relationship,
  is_selected_policy, preset_for_tools, access_of, access_of_available, access_for, permit,
  tool_policies, allowed_folders, authorize_selected, authorize_access, authorize,
  search_pattern_escapes_boundary, matched_policy,
}
use aicoo_local_agent.Security.RelationshipPolicy.Authority.{IsAuthorized, authorize-IsAuthorized}

abbrev work : List ℕ
work = codes "/work/a"

abbrev policy : PolicyStatus → TrustedToolPolicy
policy status = record {
  policy_id = 7;
  owner_principal_id = 1;
  owner_device_id = 11;
  requester_principal_id = 2;
  requester_device_id = 12;
  canonical_folder = work;
  access_preset = FileAccessPreset.read_project;
  scope = Scope.persistent;
  bridge_instance_id = none;
  status = status;
  created_from = CreatedFrom.settings;
  created_at = 100;
  created_by = 1;
  last_used_at = none;
  use_count = 0;
  pending_uses = [];
  revoked_at = none;
  revoked_by = none;
  invalidated_reason = none;
}

abbrev file_of : ℕ → List TrustedToolPolicy → PolicyDocument
file_of revision policies = record {
  revision = revision;
  server_revisions = record { id = 7; value = revision } ∷ [];
  policies = policies;
}

abbrev grant_again : UpsertInput
grant_again = record {
  policy_id = some 7;
  owner_principal_id = 1;
  owner_device_id = 11;
  requester_principal_id = 2;
  requester_device_id = 12;
  access_preset = FileAccessPreset.read_project;
  scope = Scope.persistent;
  bridge_instance_id = none;
  created_from = CreatedFrom.settings;
  created_by = 1;
  created_at = 100;
  server_revision = some 3;
}

abbrev revoked_file : PolicyDocument
revoked_file = file_of 2 (policy PolicyStatus.revoked ∷ [])

abbrev granted_file : PolicyDocument
granted_file = file_of 3 (policy PolicyStatus.revoked ∷ policy PolicyStatus.active ∷ [])

granted_again :
    upsert_trusted_tool_policy 9 grant_again (Resolved.folder_at work) revoked_file
    ≡ returned (policy PolicyStatus.active, granted_file)
unfolding upsert_trusted_tool_policy server_revision canonicalize_policy_folder grant_at_revision
    grant_folder add_policy new_policy put_revision is_exact select_first
granted_again = refl

old_first : select_first (has_id 7) revoked_file.policies ≡ some (policy PolicyStatus.revoked)
unfolding select_first
old_first = refl

regrant_not_revoked_example :
    ((revoke_trusted_tool_policy 60 7 1 (some 4) granted_file).1 ≡ granted_file)
    × Memᴰ (policy PolicyStatus.active) granted_file.policies
    × ((policy PolicyStatus.active).policy_id ≡ 7)
    × (is_active (policy PolicyStatus.active).status ≡ true)
regrant_not_revoked_example =
    regrant_not_revoked 9 grant_again (Resolved.folder_at work) revoked_file granted_file 7
      (policy PolicyStatus.revoked) (policy PolicyStatus.active) 60 1 (some 4) refl (omega arith)
      old_first refl granted_again

abbrev active_file : PolicyDocument
active_file = file_of 1 (policy PolicyStatus.active ∷ [])

one_policy : AtMostOne 7 active_file.policies
unfolding select
one_policy = ground arith

not_older : is_newer (server_revision 7 active_file) (revision_of 7 (some 2) active_file) ≡ false
unfolding server_revision revision_of select_first
not_older = refl

ended : TrustedToolPolicy
ended = record (policy PolicyStatus.active) {
  status = PolicyStatus.revoked;
  revoked_at = some 60;
  revoked_by = some 1;
}

ended_there : Memᴰ ended (revoke_trusted_tool_policy 60 7 1 (some 2) active_file).1.policies
unfolding revoke_trusted_tool_policy revoke_found revoke_row update_first select_first
    server_revision revision_of ended
ended_there = Memᴰ.head refl

ended_id : ended.policy_id ≡ 7
unfolding ended
ended_id = refl

revoke_ends_grant_example : is_active ended.status ≡ false
revoke_ends_grant_example =
    revoke_ends_grant 60 7 1 (some 2) active_file ended one_policy not_older ended_there ended_id

abbrev in_project : List (List ℕ)
in_project = codes "work" ∷ codes "a" ∷ codes "b.ts" ∷ []

project_segments : AreSegments (codes "work" ∷ codes "a" ∷ [])
unfolding no_slash
project_segments = (refl, refl, (refl, refl, tt))

in_project_segments : AreSegments in_project
unfolding no_slash
in_project_segments = (refl, refl, (refl, refl, (refl, refl, tt)))

is_within_lem_example :
    is_within (render (codes "work" ∷ codes "a" ∷ [])) (render in_project)
    ≡ is_segment_prefix (codes "work" ∷ codes "a" ∷ []) in_project
is_within_lem_example =
    is_within_lem (codes "work") (codes "a" ∷ []) in_project project_segments in_project_segments

-- A file system without links, where every path exists.
abbrev plain_files : FileSystem
plain_files = record {
  realpath = RealPath.found;
  dirname = λ path. path;
  basename = λ path. codes "b.ts";
  join = λ parent name. parent ++ slash ∷ name;
}

abbrev one_relationship : RelationshipPolicy
one_relationship = record {
  relationships =
      record { principal_id = 2; device_id = 12; tools = "Read" ∷ []; folders = work ∷ [] } ∷ [];
  cwd = codes "/home";
  policy_file = codes "/etc/relationships.json";
  has_trusted_file = false;
  trusted_policies = [];
}

abbrev from_peer : InboundMessage
from_peer = record { sender_principal_id = 2; sender_device_id = some 12 }

abbrev read_file : ToolAction
read_file = record { tool_name = "Read"; path = some (codes "/work/a/b.ts"); pattern = none }

abbrev read_permission : Permission
read_permission = record { paths = codes "/work/a/b.ts" ∷ []; used_policy = none }

read_allowed :
    authorize plain_files 4 one_relationship true read_file (some from_peer) []
    ≡ returned read_permission
unfolding authorize access_for relationships_for trusted_policies_for distinct has_text folders_of
    policy_folders access_of_available access_of is_selected_relationship is_selected_policy
    preset_for_tools authorize_access authorize_selected tool_policies allowed_folders permit
    search_pattern_escapes_boundary check_paths check_candidate dangerous_path_decision
    is_execution_on_next_use_path resolve_relationship_path canonical_path to_literal_absolute
    is_absolute starts_with ends_with split_slash segments_of parts_at has_parts is_within same_text
    includes access_preset_allows_tool select select_first has_row matched_policy
read_allowed = refl

authorize-IsAuthorized_example :
    (message : InboundMessage) × (some from_peer ≡ some message)
    × (truthy message.sender_device_id ≡ true)
    × (includes supported_tools read_file.tool_name ≡ true)
    × IsAuthorized plain_files 4 one_relationship message read_file read_permission.paths
authorize-IsAuthorized_example =
    authorize-IsAuthorized plain_files 4 one_relationship read_file (some from_peer) []
      read_permission read_allowed
