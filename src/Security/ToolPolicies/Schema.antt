-- ===== src/Security/ToolPolicies/Schema.antt =====
-- The types of src/security/trusted-tool-policy.ts, the comparisons of their values, and the revisions
-- that the server gave.
use aicoo_local_agent.Common.{
  ℕ, List, [], ◌∷◌, Bool, true, false, ◌&&◌, Option, none, some, ◌==◌, if◌then◌else◌, select_first,
}
use aicoo_local_agent.Security.Presets.{FileAccessPreset}

pub data Scope : Type 0 where
  bridge_run persistent : Scope

pub data PolicyStatus : Type 0 where
  active revoked invalid : PolicyStatus

pub data CreatedFrom : Type 0 where
  cli settings approval_prompt : CreatedFrom

pub record PolicyUse : Type 0 where
  pub sequence : ℕ
  pub used_at : ℕ

pub record TrustedToolPolicy : Type 0 where
  pub policy_id : ℕ
  pub owner_principal_id : ℕ
  pub owner_device_id : ℕ
  pub requester_principal_id : ℕ
  pub requester_device_id : ℕ
  pub canonical_folder : List ℕ
  pub access_preset : FileAccessPreset
  pub scope : Scope
  pub bridge_instance_id : Option ℕ
  pub status : PolicyStatus
  pub created_from : CreatedFrom
  pub created_at : ℕ
  pub created_by : ℕ
  pub last_used_at : Option ℕ
  pub use_count : ℕ
  pub pending_uses : List PolicyUse
  pub revoked_at : Option ℕ
  pub revoked_by : Option ℕ
  pub invalidated_reason : Option ℕ

pub record ServerRevision : Type 0 where
  pub id : ℕ
  pub value : ℕ

pub record PolicyDocument : Type 0 where
  pub revision : ℕ
  pub server_revisions : List ServerRevision
  pub policies : List TrustedToolPolicy

-- The document of a file that does not exist.
abbrev pub no_policies : PolicyDocument
no_policies = record { revision = 0; server_revisions = []; policies = [] }

pub record PolicyIdentity : Type 0 where
  pub owner_principal_id : ℕ
  pub owner_device_id : ℕ
  pub bridge_instance_id : ℕ

pub data PolicyError : Type 0 where
  bridge_instance_required root_folder unreadable_folder stale_revision already_revoked :
      PolicyError

abbrev pub is_active : PolicyStatus → Bool
is_active PolicyStatus.active = true
is_active _ = false

abbrev pub is_bridge_run : Scope → Bool
is_bridge_run Scope.bridge_run = true
is_bridge_run Scope.persistent = false

abbrev pub same_scope : Scope → Scope → Bool
same_scope Scope.bridge_run Scope.bridge_run = true
same_scope Scope.persistent Scope.persistent = true
same_scope _ _ = false

abbrev pub same_file_preset : FileAccessPreset → FileAccessPreset → Bool
same_file_preset FileAccessPreset.read_project FileAccessPreset.read_project = true
same_file_preset FileAccessPreset.edit_project FileAccessPreset.edit_project = true
same_file_preset _ _ = false

-- Two texts of characters.
unfoldable pub same_text : List ℕ → List ℕ → Bool
same_text [] [] = true
same_text (a ∷ as') (b ∷ bs) = a == b && same_text as' bs
same_text _ _ = false

-- `===` on two texts that may be missing.
abbrev pub same_option : Option ℕ → Option ℕ → Bool
same_option none none = true
same_option (some a) (some b) = a == b
same_option _ _ = false

-- `serverRevisions[id]`
unfoldable pub server_revision : ℕ → PolicyDocument → Option ℕ
server_revision id d = elim (select_first (λ r. r.id == id) d.server_revisions) [
  | none ↦ none
  | some r ↦ some r.value
]

-- `{ ...serverRevisions, [id]: value }`
unfoldable pub put_revision : ℕ → ℕ → List ServerRevision → List ServerRevision
put_revision id value [] = record { id = id; value = value } ∷ []
put_revision id value (r ∷ rs) =
    let rest = r ∷ put_revision id value rs in
    if r.id == id then record { id = id; value = value } ∷ rs else rest

pub record UpsertInput : Type 0 where
  pub policy_id : Option ℕ
  pub owner_principal_id : ℕ
  pub owner_device_id : ℕ
  pub requester_principal_id : ℕ
  pub requester_device_id : ℕ
  pub access_preset : FileAccessPreset
  pub scope : Scope
  pub bridge_instance_id : Option ℕ
  pub created_from : CreatedFrom
  pub created_by : ℕ
  pub created_at : ℕ
  pub server_revision : Option ℕ
