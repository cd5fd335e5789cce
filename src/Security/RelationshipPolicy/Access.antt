-- ===== src/Security/RelationshipPolicy/Access.antt =====
-- `accessFor` of src/security/relationship-policy.ts: the folders that a message selects, and how far
-- it may go in them. The projects that the message asks for are an argument.
use Prim.Native.String.{String}
use aicoo_local_agent.Common.{
  ℕ, List, [], ◌∷◌, ◌++◌, Bool, true, false, not, ◌&&◌, ◌||◌, Option, none, some, map, ◌==◌, truthy,
  is_some, column_is, if◌then◌else◌, select, has_row,
}
use aicoo_local_agent.Common.Attempts.{Attempt, returned, thrown}
use aicoo_local_agent.Security.Presets.{
  RelationshipAccessPreset, preset_of, is_edit, includes, strongest_access_preset,
}
use aicoo_local_agent.Security.ToolPolicies.{TrustedToolPolicy, same_text}
use aicoo_local_agent.Security.Paths.{is_absolute, canonical_path, FileSystem}

pub record CompiledRelationship : Type 0 where
  pub principal_id : ℕ
  pub device_id : ℕ
  pub tools : List String
  pub folders : List (List ℕ)

pub record RelationshipPolicy : Type 0 where
  pub relationships : List CompiledRelationship
  pub cwd : List ℕ
  pub policy_file : List ℕ
  pub has_trusted_file : Bool
  pub trusted_policies : List TrustedToolPolicy

pub record InboundMessage : Type 0 where
  pub sender_principal_id : ℕ
  pub sender_device_id : Option ℕ

-- A requested project: the code of its text, and the text.
pub record RequestedProject : Type 0 where
  pub id : ℕ
  pub text : List ℕ

pub data ProjectAccessStatus : Type 0 where
  no_access selected selection_required not_found : ProjectAccessStatus

pub record ProjectAccess : Type 0 where
  pub status : ProjectAccessStatus
  pub preset : RelationshipAccessPreset
  pub folders : List (List ℕ)
  pub writable_folders : List (List ℕ)
  pub selected_policy_ids : List ℕ
  pub selected_folder_paths : List (List ℕ)

abbrev pub without_access : ProjectAccessStatus → ProjectAccess
without_access status = record {
  status = status;
  preset = RelationshipAccessPreset.chat_only;
  folders = [];
  writable_folders = [];
  selected_policy_ids = [];
  selected_folder_paths = [];
}

unfoldable pub has_text : List ℕ → List (List ℕ) → Bool
has_text text texts = has_row (same_text text) texts

unfoldable pub has_number : ℕ → List ℕ → Bool
has_number n ns = has_row (λ m. m == n) ns

-- `[...new Set(texts)]`: the order of the texts does not matter to what follows.
unfoldable pub distinct : List (List ℕ) → List (List ℕ)
unfolding has_text
distinct [] = []
distinct (t ∷ ts) = let rest = distinct ts in if has_text t rest then rest else t ∷ rest

unfoldable pub folders_of : List CompiledRelationship → List (List ℕ)
folders_of [] = []
folders_of (r ∷ rs) = r.folders ++ folders_of rs

unfoldable pub policy_folders : List TrustedToolPolicy → List (List ℕ)
policy_folders ps = map (λ (p : TrustedToolPolicy). p.canonical_folder) ps

unfoldable pub relationships_for : InboundMessage → RelationshipPolicy → List CompiledRelationship
relationships_for message policy =
    if not (truthy message.sender_device_id)
    then []
    else select
        (λ r.
          r.principal_id == message.sender_principal_id
          && column_is message.sender_device_id r.device_id)
        policy.relationships

unfoldable pub trusted_policies_for : InboundMessage → RelationshipPolicy → List TrustedToolPolicy
trusted_policies_for message policy =
    if not (truthy message.sender_device_id)
    then []
    else select
        (λ p.
          p.requester_principal_id == message.sender_principal_id
          && column_is message.sender_device_id p.requester_device_id)
        policy.trusted_policies

abbrev pub has_any_tool : List String → List String → Bool
has_any_tool names tools = has_row (λ name. includes tools name) names

unfoldable pub preset_for_tools : List String → RelationshipAccessPreset
unfolding includes
preset_for_tools tools =
    if has_any_tool ("Write" ∷ "Edit" ∷ "GitAdd" ∷ "GitCommit" ∷ []) tools
    then RelationshipAccessPreset.edit_project
    else if has_any_tool ("Read" ∷ "GitStatus" ∷ "GitDiff" ∷ "GitLog" ∷ []) tools
    then RelationshipAccessPreset.read_project
    else RelationshipAccessPreset.chat_only

-- What the requested projects select.
pub record Selection : Type 0 where
  pub policy_ids : List ℕ
  pub folder_paths : List (List ℕ)
  pub folders : List (List ℕ)

module _ (fs : FileSystem) (fuel : ℕ) where
  abbrev pub canonical_or_text : Attempt (Unit {0}) (List ℕ) → List ℕ → List ℕ
  canonical_or_text (returned path) text = path
  canonical_or_text (thrown _) text = text

  -- The folder that a requested absolute path names, if it is available.
  unfoldable pub requested_folder : RequestedProject → List (List ℕ) → Option (List ℕ)
  unfolding is_absolute canonical_path has_text
  requested_folder requested available =
      let folder = canonical_or_text (canonical_path fs fuel requested.text) requested.text in
      if is_absolute requested.text && has_text folder available then some folder else none

  abbrev pub add_folder : Option (List ℕ) → List (List ℕ) → List (List ℕ)
  add_folder none folders = folders
  add_folder (some folder) folders = folder ∷ folders

  unfoldable pub select_one :
      RequestedProject → List TrustedToolPolicy → List (List ℕ) → Selection → Option Selection
  unfolding requested_folder policy_folders
  select_one requested trusted available s =
      let named = select (λ (p : TrustedToolPolicy). p.policy_id == requested.id) trusted in
      let folder = requested_folder requested available in
      if not (is_some folder)
        && not (has_row (λ (p : TrustedToolPolicy). p.policy_id == requested.id) trusted)
      then none
      else some record {
        policy_ids = map (λ (p : TrustedToolPolicy). p.policy_id) named ++ s.policy_ids;
        folder_paths = add_folder folder s.folder_paths;
        folders = add_folder folder (policy_folders named ++ s.folders);
      }

  -- The loop over the requested projects.
  unfoldable pub select_requested :
      List RequestedProject → List TrustedToolPolicy → List (List ℕ) → Selection → Option Selection
  unfolding select_one
  select_requested [] trusted available s = some s
  select_requested (r ∷ rs) trusted available s = elim (select_one r trusted available s) [
    | none ↦ none
    | some next ↦ select_requested rs trusted available next
  ]

  abbrev pub nothing_selected : Selection
  nothing_selected = record { policy_ids = []; folder_paths = []; folders = [] }

  abbrev pub is_nonempty : List (List ℕ) → Bool
  is_nonempty [] = false
  is_nonempty (f ∷ fs') = true

  abbrev pub is_several : List (List ℕ) → Bool
  is_several (f ∷ g ∷ fs') = true
  is_several _ = false

  -- `candidate.folders.some(...)` of a relationship, and the test of a trusted policy.
  unfoldable pub is_selected_relationship : Bool → Selection → CompiledRelationship → Bool
  unfolding has_text
  is_selected_relationship explicit s r =
      has_row
        (λ folder. has_text folder s.folders && (not explicit || has_text folder s.folder_paths))
        r.folders

  unfoldable pub is_selected_policy : Bool → Selection → TrustedToolPolicy → Bool
  unfolding has_text has_number
  is_selected_policy explicit s p =
      has_text p.canonical_folder s.folders
      && (not explicit
          || has_number p.policy_id s.policy_ids
          || has_text p.canonical_folder s.folder_paths)

  -- The access of a selection of folders.
  unfoldable pub access_of :
      Bool → Selection → List CompiledRelationship → List TrustedToolPolicy → ProjectAccess
  unfolding is_selected_relationship is_selected_policy preset_for_tools distinct folders_of
      policy_folders
  access_of explicit s relationships trusted =
      let rs = select (is_selected_relationship explicit s) relationships in
      let ps = select (is_selected_policy explicit s) trusted in
      record {
        status = ProjectAccessStatus.selected;
        preset = strongest_access_preset (
            map (λ (r : CompiledRelationship). preset_for_tools r.tools) rs
            ++ map (λ (p : TrustedToolPolicy). preset_of p.access_preset) ps);
        folders = distinct s.folders;
        writable_folders =
            select (λ folder. has_text folder s.folders)
              (distinct (
                folders_of (select (λ r. has_any_tool ("Write" ∷ "Edit" ∷ []) r.tools) rs)
                ++ policy_folders (select (λ p. is_edit (preset_of p.access_preset)) ps)));
        selected_policy_ids = s.policy_ids;
        selected_folder_paths = s.folder_paths;
      }

  unfoldable pub access_of_requested :
      Option Selection → List CompiledRelationship → List TrustedToolPolicy → ProjectAccess
  unfolding access_of
  access_of_requested none relationships trusted = without_access ProjectAccessStatus.not_found
  access_of_requested (some s) relationships trusted =
      if is_nonempty s.folders
      then access_of true s relationships trusted
      else without_access ProjectAccessStatus.not_found

  unfoldable pub access_of_available :
      List (List ℕ) → List CompiledRelationship → List TrustedToolPolicy → ProjectAccess
  unfolding access_of
  access_of_available available relationships trusted =
      if is_several available
      then without_access ProjectAccessStatus.selection_required
      else if not (is_nonempty available)
      then without_access ProjectAccessStatus.no_access
      else access_of false (record { policy_ids = []; folder_paths = []; folders = available })
          relationships trusted

  unfoldable pub access_for :
      InboundMessage → List RequestedProject → RelationshipPolicy → ProjectAccess
  unfolding relationships_for trusted_policies_for folders_of policy_folders distinct
      select_requested access_of_requested access_of_available
  access_for message requested policy =
      let relationships = relationships_for message policy in
      let trusted = trusted_policies_for message policy in
      let available = distinct (folders_of relationships ++ policy_folders trusted) in
      if not (truthy message.sender_device_id)
      then without_access ProjectAccessStatus.no_access
      else elim requested [
        | [] ↦ access_of_available available relationships trusted
        | r ∷ rs ↦
            access_of_requested (select_requested (r ∷ rs) trusted available nothing_selected)
              relationships trusted
      ]
