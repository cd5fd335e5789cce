-- ===== src/Security/Presets.antt =====
-- src/security/relationship-access.ts: what a peer may do with a project folder.
use Prim.Native.String.{String}
use text.Mathlib.Text.{◌==◌}
use aicoo_local_agent.Common.{
  List, [], ◌∷◌, Bool, true, false, Option, none, some, ◌||◌, if◌then◌else◌, has_row,
}

pub data RelationshipAccessPreset : Type 0 where
  chat_only read_project edit_project : RelationshipAccessPreset

-- `FileAccessPreset`, a preset other than chat-only.
pub data FileAccessPreset : Type 0 where
  read_project edit_project : FileAccessPreset

abbrev pub preset_of : FileAccessPreset → RelationshipAccessPreset
preset_of FileAccessPreset.read_project = RelationshipAccessPreset.read_project
preset_of FileAccessPreset.edit_project = RelationshipAccessPreset.edit_project

abbrev pub preset_tools : RelationshipAccessPreset → List String
preset_tools RelationshipAccessPreset.chat_only = []
preset_tools RelationshipAccessPreset.read_project =
    "Read" ∷ "Glob" ∷ "Grep" ∷ "GitStatus" ∷ "GitDiff" ∷ "GitLog" ∷ []
preset_tools RelationshipAccessPreset.edit_project =
    "Read" ∷ "Glob" ∷ "Grep" ∷ "Write" ∷ "Edit" ∷ "NotebookEdit" ∷ "GitStatus" ∷ "GitDiff"
    ∷ "GitLog" ∷ "GitAdd" ∷ "GitCommit" ∷ []

unfoldable pub includes : List String → String → Bool
includes names name = has_row (λ n. n == name) names

abbrev pub is_edit : RelationshipAccessPreset → Bool
is_edit RelationshipAccessPreset.edit_project = true
is_edit _ = false

abbrev pub is_read : RelationshipAccessPreset → Bool
is_read RelationshipAccessPreset.read_project = true
is_read _ = false

abbrev pub same_preset : RelationshipAccessPreset → RelationshipAccessPreset → Bool
same_preset RelationshipAccessPreset.chat_only RelationshipAccessPreset.chat_only = true
same_preset RelationshipAccessPreset.read_project RelationshipAccessPreset.read_project = true
same_preset RelationshipAccessPreset.edit_project RelationshipAccessPreset.edit_project = true
same_preset _ _ = false

-- approved, required
unfoldable pub access_preset_satisfies : RelationshipAccessPreset → RelationshipAccessPreset → Bool
access_preset_satisfies approved RelationshipAccessPreset.chat_only = true
access_preset_satisfies approved required = is_edit approved || same_preset approved required

unfoldable pub access_preset_allows_tool : RelationshipAccessPreset → String → Bool
unfolding includes
access_preset_allows_tool preset tool = includes (preset_tools preset) tool

unfoldable pub access_preset_for_tool : String → Option FileAccessPreset
unfolding includes
access_preset_for_tool tool =
    if includes ("Write" ∷ "Edit" ∷ "NotebookEdit" ∷ "GitAdd" ∷ "GitCommit" ∷ []) tool
    then some FileAccessPreset.edit_project
    else if includes ("Read" ∷ "Glob" ∷ "Grep" ∷ "GitStatus" ∷ "GitDiff" ∷ "GitLog" ∷ []) tool
    then some FileAccessPreset.read_project
    else none

unfoldable pub strongest_access_preset : List RelationshipAccessPreset → RelationshipAccessPreset
strongest_access_preset presets =
    if has_row is_edit presets
    then RelationshipAccessPreset.edit_project
    else if has_row is_read presets
    then RelationshipAccessPreset.read_project
    else RelationshipAccessPreset.chat_only
