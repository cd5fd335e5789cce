-- ===== src/Security/RelationshipPolicy.antt =====
-- `RelationshipPolicy` of src/security/relationship-policy.ts: what a peer's device may do. The
-- projects that a message asks for are an argument; identifiers are codes, folders paths of
-- Security/Paths.
pub mod Access
unfoldable pub use Access.*
pub mod Authority
pub mod Grants
use Prim.Native.String.{String}
use aicoo_local_agent.Common.{
  ℕ, List, [], ◌∷◌, ◌++◌, Bool, true, false, not, ◌&&◌, ◌||◌, Option, none, some, map, ◌==◌, ltb,
  truthy, is_some, or_else, column_is, if◌then◌else◌, select, select_first, has_row,
}
use aicoo_local_agent.Common.Attempts.{Attempt, returned, thrown}
use aicoo_local_agent.Security.Presets.{
  RelationshipAccessPreset, FileAccessPreset, preset_of, is_edit, includes,
  access_preset_allows_tool, strongest_access_preset,
}
use aicoo_local_agent.Security.ToolPolicies.{TrustedToolPolicy, CreatedFrom, same_text}
use aicoo_local_agent.Security.Paths.{
  codes, slash, starts_with, split_slash, is_within, is_absolute, canonical_path, FileSystem,
  PathRefusal, check_paths,
}

abbrev pub supported_tools : List String
supported_tools =
    "Read" ∷ "Glob" ∷ "Grep" ∷ "Write" ∷ "Edit" ∷ "NotebookEdit" ∷ "GitStatus" ∷ "GitDiff"
    ∷ "GitLog" ∷ "GitAdd" ∷ "GitCommit" ∷ []

-- An action: its tool, the text at the tool's path key where it is a text and not blank, and the
-- search pattern of Glob and Grep.
pub record ToolAction : Type 0 where
  pub tool_name : String
  pub path : Option (List ℕ)
  pub pattern : Option (List ℕ)

abbrev pub with_slash : ℕ → ℕ
with_slash c = if c == 92 then slash else c

abbrev pub is_letter : ℕ → Bool
is_letter c = (ltb 64 c && ltb c 91) || (ltb 96 c && ltb c 123)

-- `/^[a-z]:\//iu`
abbrev pub has_drive : List ℕ → Bool
has_drive (a ∷ b ∷ c ∷ rest) = is_letter a && b == 58 && c == slash
has_drive _ = false

unfoldable pub pattern_escapes : List ℕ → Bool
unfolding starts_with split_slash has_text
pattern_escapes pattern =
    let portable = map with_slash pattern in
    starts_with (slash ∷ []) portable
    || has_drive portable
    || has_text (codes "..") (split_slash portable)

unfoldable pub search_pattern_escapes_boundary : ToolAction → Bool
unfolding pattern_escapes includes
search_pattern_escapes_boundary action =
    includes ("Glob" ∷ "Grep" ∷ []) action.tool_name
    && elim action.pattern [ none ↦ false | some pattern ↦ pattern_escapes pattern ]

pub data Denial : Type 0 where
  no_message no_device select_project project_not_allowed no_policy unsupported_tool : Denial
  tool_not_allowed no_folder pattern_outside no_path : Denial
  path_refused : PathRefusal → Denial

-- The canonical paths of the updated input, and the trusted policy whose use is recorded.
pub record Permission : Type 0 where
  pub paths : List (List ℕ)
  pub used_policy : Option ℕ

abbrev pub is_cli : CreatedFrom → Bool
is_cli CreatedFrom.cli = true
is_cli _ = false

abbrev pub covers : List (List ℕ) → TrustedToolPolicy → Bool
covers paths p = not (has_row (λ path. not (is_within p.canonical_folder path)) paths)

-- `find(not from the CLI) ?? find(any)`
unfoldable pub matched_policy : List (List ℕ) → List TrustedToolPolicy → Option TrustedToolPolicy
matched_policy paths policies =
    elim (select_first (λ p. not (is_cli p.created_from) && covers paths p) policies) [
      | some p ↦ some p
      | none ↦ select_first (covers paths) policies
    ]

abbrev pub id_of : Option TrustedToolPolicy → Option ℕ
id_of none = none
id_of (some p) = some p.policy_id

-- The test of a sender in `relationshipsFor` and `#authorize`.
abbrev pub is_peer : InboundMessage → CompiledRelationship → Bool
is_peer message r =
    r.principal_id == message.sender_principal_id && column_is message.sender_device_id r.device_id

module _ (fs : FileSystem) (fuel : ℕ) (policy : RelationshipPolicy) where
  -- The end of `#authorize`, for the folders that are allowed.
  unfoldable pub permit :
      Bool → List TrustedToolPolicy → List (List ℕ) → ToolAction → Attempt Denial Permission
  unfolding search_pattern_escapes_boundary check_paths matched_policy includes
  permit requires trusted_tools allowed action =
      if not (is_nonempty fs fuel allowed)
      then thrown Denial.no_folder
      else if search_pattern_escapes_boundary action
      then thrown Denial.pattern_outside
      else elim action.path [
        | none ↦ thrown Denial.no_path
        | some path ↦
            elim (check_paths fs fuel policy.cwd policy.policy_file allowed
              (includes ("Write" ∷ "Edit" ∷ "NotebookEdit" ∷ []) action.tool_name) (path ∷ [])) [
                | thrown refusal ↦ thrown (Denial.path_refused refusal)
                | returned paths ↦ returned record {
                  paths = paths;
                  used_policy =
                      if requires && policy.has_trusted_file
                      then id_of (matched_policy paths trusted_tools)
                      else none;
                }
              ]
      ]

  unfoldable pub tool_policies : ToolAction → List TrustedToolPolicy → List TrustedToolPolicy
  unfolding access_preset_allows_tool
  tool_policies action trusted =
      select (λ p. access_preset_allows_tool (preset_of p.access_preset) action.tool_name) trusted

  abbrev pub allows_tool : ToolAction → List CompiledRelationship → Bool
  allows_tool action relationships = has_row (λ r. includes r.tools action.tool_name) relationships

  unfoldable pub allowed_folders :
      Bool
      → ToolAction
      → ProjectAccess
      → List CompiledRelationship
      → List TrustedToolPolicy
      → List (List ℕ)
  unfolding distinct folders_of policy_folders has_text tool_policies includes
  allowed_folders requires action access relationships trusted = distinct (
      (if requires && not (allows_tool action relationships)
        then []
        else select (λ folder. has_text folder access.folders) (folders_of relationships))
      ++ policy_folders (if requires then tool_policies action trusted else trusted))

  abbrev pub has_policy : List TrustedToolPolicy → Bool
  has_policy [] = false
  has_policy (p ∷ ps) = true

  abbrev pub has_relationship : List CompiledRelationship → Bool
  has_relationship [] = false
  has_relationship (r ∷ rs) = true

  -- With no grant of the tool: what the boundary alone says.
  abbrev pub refuse_tool : Attempt Denial Permission → Attempt Denial Permission
  refuse_tool (returned p) = thrown Denial.tool_not_allowed
  refuse_tool (thrown d) = thrown d

  unfoldable pub authorize_selected :
      Bool
      → ToolAction
      → ProjectAccess
      → List CompiledRelationship
      → List TrustedToolPolicy
      → Attempt Denial Permission
  unfolding permit tool_policies allowed_folders includes starts_with
  authorize_selected requires action access relationships trusted =
      if not (has_relationship relationships) && not (has_policy trusted)
      then thrown Denial.no_policy
      else if not (includes supported_tools action.tool_name)
          || starts_with (codes "mcp__") (codes action.tool_name)
      then thrown Denial.unsupported_tool
      else if requires
          && not (allows_tool action relationships)
          && not (has_policy (tool_policies action trusted))
      then refuse_tool (
          permit false (tool_policies action trusted)
            (allowed_folders false action access relationships trusted) action)
      else permit requires (tool_policies action trusted)
          (allowed_folders requires action access relationships trusted) action

  abbrev pub selection_of : ProjectAccess → Selection
  selection_of access = record {
    policy_ids = access.selected_policy_ids;
    folder_paths = access.selected_folder_paths;
    folders = access.folders;
  }

  abbrev pub is_explicit : List RequestedProject → Bool
  is_explicit [] = false
  is_explicit (r ∷ rs) = true

  unfoldable pub authorize_access :
      Bool
      → ToolAction
      → InboundMessage
      → List RequestedProject
      → ProjectAccess
      → Attempt Denial Permission
  unfolding authorize_selected is_selected_relationship is_selected_policy trusted_policies_for
  authorize_access requires action message requested access =
      let chosen =
        authorize_selected requires action access
          (select
            (λ r.
              is_peer message r
              && is_selected_relationship fs fuel (is_explicit requested) (selection_of access) r)
            policy.relationships)
          (select (is_selected_policy fs fuel (is_explicit requested) (selection_of access))
            (trusted_policies_for message policy)) in
      elim access.status [
        | ProjectAccessStatus.selection_required ↦ thrown Denial.select_project
        | ProjectAccessStatus.not_found ↦ thrown Denial.project_not_allowed
        | _ ↦ chosen
      ]

  -- `#authorize`: `authorize` with true, `authorizeBoundary` with false.
  unfoldable pub authorize :
      Bool → ToolAction → Option InboundMessage → List RequestedProject → Attempt Denial Permission
  unfolding authorize_access access_for
  authorize requires action none requested = thrown Denial.no_message
  authorize requires action (some message) requested =
      if not (truthy message.sender_device_id)
      then thrown Denial.no_device
      else authorize_access requires action message requested
          (access_for fs fuel message requested policy)
