-- ===== src/Security/Paths.antt =====
-- The paths of src/security/relationship-policy.ts, on a POSIX system: lists of character codes with
-- the separator 47. `realpathSync.native`, `dirname`, `basename` and `join` are parameters.
pub mod Segments
pub mod Canonical
pub mod Checks
use Prim.Native.Char.{code}
use Prim.Native.String.{String}
use aicoo_local_agent.Common.{
  ℕ, zero, suc, List, [], ◌∷◌, ◌++◌, Bool, true, false, not, ◌&&◌, ◌||◌, Option, none, some, ◌==◌,
  if◌then◌else◌, has_row, select, map,
}
use aicoo_local_agent.Common.Attempts.{Attempt, returned, thrown, ◌>>=◌}
use aicoo_local_agent.Security.ToolPolicies.{same_text}

-- The codes of a text.
abbrev pub codes : String → List ℕ
codes String.[] = []
codes (String.◌∷◌ c s) = code c ∷ codes s

abbrev pub slash : ℕ
slash = 47

-- `text.startsWith(prefix)`
unfoldable pub starts_with : List ℕ → List ℕ → Bool
starts_with [] text = true
starts_with (a ∷ as') [] = false
starts_with (a ∷ as') (b ∷ bs) = a == b && starts_with as' bs

-- `text.endsWith(suffix)`
unfoldable pub ends_with : List ℕ → List ℕ → Bool
ends_with suffix [] = same_text suffix []
ends_with suffix (a ∷ as') = same_text suffix (a ∷ as') || ends_with suffix as'

abbrev pub push_front : ℕ → List (List ℕ) → List (List ℕ)
push_front c [] = (c ∷ []) ∷ []
push_front c (s ∷ ss) = (c ∷ s) ∷ ss

-- `text.split("/")`
unfoldable pub split_slash : List ℕ → List (List ℕ)
split_slash [] = [] ∷ []
split_slash (c ∷ cs) =
    let rest = split_slash cs in if c == slash then [] ∷ rest else push_front c rest

abbrev pub is_text : List ℕ → Bool
is_text [] = false
is_text (c ∷ cs) = true

-- `path.split(sep).filter(Boolean)`
unfoldable pub segments_of : List ℕ → List (List ℕ)
unfolding split_slash
segments_of path = select is_text (split_slash path)

unfoldable pub is_within : List ℕ → List ℕ → Bool
unfolding starts_with
is_within folder candidate =
    if same_text folder (slash ∷ [])
    then starts_with folder candidate
    else same_text candidate folder || starts_with (folder ++ slash ∷ []) candidate

unfoldable pub is_absolute : List ℕ → Bool
unfolding starts_with
is_absolute path = starts_with (slash ∷ []) path

unfoldable pub to_literal_absolute : List ℕ → List ℕ → List ℕ
unfolding is_absolute
to_literal_absolute cwd input = if is_absolute input then input else cwd ++ slash ∷ input

-- What `realpathSync.native` comes to: a path, ENOENT, or another error.
pub data RealPath : Type 0 where
  found : List ℕ → RealPath
  missing refused : RealPath

pub record FileSystem : Type 0 where
  pub realpath : List ℕ → RealPath
  pub dirname : List ℕ → List ℕ
  pub basename : List ℕ → List ℕ
  pub join : List ℕ → List ℕ → List ℕ

-- The paths and parts that are never given to a peer.
abbrev pub credential_parts : List (List (List ℕ))
credential_parts =
    (codes ".aws" ∷ [])
    ∷ (codes ".azure" ∷ [])
    ∷ (codes ".config" ∷ codes "gcloud" ∷ [])
    ∷ (codes ".docker" ∷ [])
    ∷ (codes ".gnupg" ∷ [])
    ∷ (codes ".kube" ∷ [])
    ∷ (codes ".ssh" ∷ [])
    ∷ []

abbrev pub credential_file_names : List (List ℕ)
credential_file_names =
    codes ".env"
    ∷ codes ".env.local"
    ∷ codes ".env.production"
    ∷ codes ".npmrc"
    ∷ codes ".netrc"
    ∷ codes "credentials"
    ∷ []

abbrev pub execution_on_next_use_paths : List (List ℕ)
execution_on_next_use_paths =
    codes ".gitattributes"
    ∷ codes ".git/config"
    ∷ codes ".git/hooks"
    ∷ codes ".vscode/tasks.json"
    ∷ codes "Makefile"
    ∷ codes "package.json"
    ∷ []

-- `parts.every((part, offset) => segments[index + offset] === part)` at the front of the segments.
unfoldable pub parts_at : List (List ℕ) → List (List ℕ) → Bool
parts_at [] segments = true
parts_at (p ∷ ps) [] = false
parts_at (p ∷ ps) (s ∷ ss) = same_text p s && parts_at ps ss

-- Over every index.
unfoldable pub has_parts : List (List ℕ) → List (List ℕ) → Bool
unfolding parts_at
has_parts parts [] = parts_at parts []
has_parts parts (s ∷ ss) = parts_at parts (s ∷ ss) || has_parts parts ss

pub data DangerousPath : Type 0 where
  credential_path credential_file execution_on_next_use : DangerousPath

unfoldable pub is_execution_on_next_use_path : List ℕ → Bool
unfolding ends_with
is_execution_on_next_use_path path =
    has_row (λ dangerous. ends_with (slash ∷ dangerous) path || same_text path dangerous)
      execution_on_next_use_paths

-- `writes` says that the tool is Write, Edit or NotebookEdit. The code's second loop, which compares
-- the last segments with a whole credential path, finds none that the first has not found.
unfoldable pub dangerous_path_decision : FileSystem → Bool → List ℕ → Option DangerousPath
unfolding segments_of has_parts starts_with is_execution_on_next_use_path
dangerous_path_decision fs writes candidate =
    if has_row (λ parts. has_parts parts (segments_of candidate)) credential_parts
    then some DangerousPath.credential_path
    else if has_row (same_text (fs.basename candidate)) credential_file_names
        || starts_with (codes ".env.") (fs.basename candidate)
    then some DangerousPath.credential_file
    else if writes && is_execution_on_next_use_path candidate
    then some DangerousPath.execution_on_next_use
    else none

module _ (fs : FileSystem) where
  -- `canonicalPath`, with fuel for the parents of a path that does not exist.
  unfoldable pub canonical_path : ℕ → List ℕ → Attempt (Unit {0}) (List ℕ)
  canonical_path zero input = thrown tt
  canonical_path (suc fuel) input =
      let above = canonical_path fuel (fs.dirname input) in
      elim (fs.realpath input) [
        | RealPath.found path ↦ returned path
        | RealPath.refused ↦ thrown tt
        | RealPath.missing ↦
            if same_text (fs.dirname input) input
            then thrown tt
            else (above >>= λ parent. returned (fs.join parent (fs.basename input)))
      ]

  -- The loop of `resolveRelationshipPath` over the folders.
  unfoldable pub resolve_in : ℕ → List ℕ → List ℕ → List (List ℕ) → Attempt (Unit {0}) (List ℕ)
  unfolding canonical_path to_literal_absolute is_within
  resolve_in fuel input fallback [] = returned fallback
  resolve_in fuel input fallback (folder ∷ folders) =
      let rest = resolve_in fuel input fallback folders in
      canonical_path fuel (to_literal_absolute folder input) >>= λ candidate.
      if is_within folder candidate then returned candidate else rest

  unfoldable pub resolve_relationship_path :
      ℕ → List ℕ → List (List ℕ) → List ℕ → Attempt (Unit {0}) (List ℕ)
  unfolding canonical_path to_literal_absolute is_within is_absolute resolve_in
  resolve_relationship_path fuel cwd folders input =
      canonical_path fuel (to_literal_absolute cwd input) >>= λ candidate.
      if has_row (λ folder. is_within folder candidate) folders || is_absolute input
      then returned candidate
      else resolve_in fuel input candidate folders

pub data PathRefusal : Type 0 where
  unsafe_path policy_file outside_folders : PathRefusal
  dangerous : DangerousPath → PathRefusal

module _ (fs : FileSystem) (fuel : ℕ) (cwd policy : List ℕ) (folders : List (List ℕ))
    (writes : Bool) where
  -- The tests of one candidate in the loop of `#authorize`.
  unfoldable pub check_candidate : List ℕ → Option PathRefusal
  unfolding dangerous_path_decision is_within
  check_candidate candidate =
      if same_text candidate policy
      then some PathRefusal.policy_file
      else elim (dangerous_path_decision fs writes candidate) [
        | some danger ↦ some (PathRefusal.dangerous danger)
        | none ↦
            if has_row (λ folder. is_within folder candidate) folders
            then none
            else some PathRefusal.outside_folders
      ]

  abbrev pub accept_candidate : Option PathRefusal → List ℕ → Attempt PathRefusal (List ℕ)
  accept_candidate none candidate = returned candidate
  accept_candidate (some refusal) candidate = thrown refusal

  abbrev pub resolved_or : Attempt (Unit {0}) (List ℕ) → Attempt PathRefusal (List ℕ)
  resolved_or (returned path) = returned path
  resolved_or (thrown _) = thrown PathRefusal.unsafe_path

  -- The loop of `#authorize` over an action's paths: the canonical paths of the updated input.
  unfoldable pub check_paths : List (List ℕ) → Attempt PathRefusal (List (List ℕ))
  unfolding resolve_relationship_path check_candidate
  check_paths [] = returned []
  check_paths (path ∷ paths) =
      let rest = check_paths paths in
      resolved_or (resolve_relationship_path fs fuel cwd folders path) >>= λ candidate.
      accept_candidate (check_candidate candidate) candidate >>= λ accepted.
      rest >>= λ others. returned (accepted ∷ others)
