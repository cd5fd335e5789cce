-- ===== src/Security/RelationshipPolicy/Authority.antt =====
-- `RelationshipPolicy.authorize` in src/security/relationship-policy.ts: what an allowance rests on.
use aicoo_local_agent.Common.{
  ℕ, ◌≡◌, refl, ap, ◌⊎◌, inl, inr, List, [], ◌∷◌, Bool, true, false, not, ◌&&◌, ◌||◌, Option, none,
  some, truthy, if◌then◌else◌, select, mem-select, Bool-cases, Option-cases, arith,
}
use aicoo_local_agent.Common.Attempts.{Attempt, returned, thrown}
use aicoo_local_agent.Security.Presets.{includes}
use aicoo_local_agent.Security.ToolPolicies.{TrustedToolPolicy, same_text}
use aicoo_local_agent.Security.Paths.{
  FileSystem, is_within, dangerous_path_decision, check_paths, codes, starts_with, PathRefusal,
  to_literal_absolute,
}
use aicoo_local_agent.Security.Paths.Canonical.{
  IsCanonical, IsResolved, resolve_relationship_path-IsResolved,
}
use aicoo_local_agent.Security.Paths.Checks.{AreSafe, check_paths-AreSafe}
use aicoo_local_agent.Security.RelationshipPolicy.{
  CompiledRelationship, RelationshipPolicy, InboundMessage, RequestedProject, ProjectAccess,
  ProjectAccessStatus, trusted_policies_for, access_for, supported_tools, ToolAction,
  search_pattern_escapes_boundary, Denial, Permission, matched_policy, id_of, is_peer, permit,
  tool_policies, allows_tool, allowed_folders, has_policy, has_relationship, refuse_tool,
  authorize_selected, selection_of, is_explicit, authorize_access, authorize, is_nonempty,
  is_selected_relationship, is_selected_policy,
}
use aicoo_local_agent.Security.RelationshipPolicy.Grants.{
  IsGranted, is_requester, AreOfSender, allowed_folders-IsGranted,
}

module _ (fs : FileSystem) (fuel : ℕ) (policy : RelationshipPolicy) (message : InboundMessage)
    (action : ToolAction) where
  permit_lem :
      (tools : List TrustedToolPolicy) (allowed : List (List ℕ)) (p : Permission)
      → permit fs fuel policy true tools allowed action ≡ returned p
      → (path : List ℕ) × (action.path ≡ some path)
        × (check_paths fs fuel policy.cwd policy.policy_file allowed
              (includes ("Write" ∷ "Edit" ∷ "NotebookEdit" ∷ []) action.tool_name)
              (path ∷ [])
            ≡ returned p.paths)
  unfolding permit
  permit_lem tools allowed p h = elim (Bool-cases (is_nonempty fs fuel allowed)) [
    | inr empty ↦ cc (rw (empty, permit) at h)
    | inl some_folder ↦ elim (Bool-cases (search_pattern_escapes_boundary action)) [
      | inl outside ↦ cc (rw (some_folder, outside, permit) at h)
      | inr inside ↦ elim (Option-cases action.path) [
        | inl missing ↦ cc (rw (some_folder, inside, missing, permit) at h)
        | inr (path, e) ↦ (path, e, checked path _ refl (rw (some_folder, inside, e, permit) at h))
      ]
    ]
  ]
    where
      paths_of : Attempt Denial Permission → Attempt PathRefusal (List (List ℕ))
      paths_of (thrown d) = returned []
      paths_of (returned q) = returned q.paths

      checked :
          (path : List ℕ) (o : Attempt PathRefusal (List (List ℕ)))
          → check_paths fs fuel policy.cwd policy.policy_file allowed
              (includes ("Write" ∷ "Edit" ∷ "NotebookEdit" ∷ []) action.tool_name)
              (path ∷ [])
            ≡ o
          → ◌≡◌ {A = Attempt Denial Permission}
              (elim o [
                | thrown refusal ↦ thrown (Denial.path_refused refusal)
                | returned paths ↦ returned (record {
                  paths = paths;
                  used_policy =
                      if true && policy.has_trusted_file
                      then id_of (matched_policy paths tools)
                      else none;
                })
              ])
              (returned p)
          → o ≡ returned p.paths
      checked path (thrown r) e k = cc
      checked path (returned paths) e k = ap (λ (x : Attempt Denial Permission). paths_of x) k

  selected_lem :
      (access : ProjectAccess) (rs : List CompiledRelationship) (ps : List TrustedToolPolicy)
      (p : Permission)
      → authorize_selected fs fuel policy true action access rs ps ≡ returned p
      → (includes supported_tools action.tool_name ≡ true)
        × (permit fs fuel policy true
              (tool_policies fs fuel policy action ps)
              (allowed_folders fs fuel policy true action access rs ps)
              action
            ≡ returned p)
  unfolding authorize_selected
  selected_lem access rs ps p h =
      elim (Bool-cases
        (not (has_relationship fs fuel policy rs) && not (has_policy fs fuel policy ps))) [
          | inl nobody ↦ cc (rw (nobody, authorize_selected) at h)
          | inr somebody ↦
              elim (Bool-cases (
                not (includes supported_tools action.tool_name)
                || starts_with (codes "mcp__") (codes action.tool_name))) [
                  | inl unknown ↦ cc (rw (somebody, unknown, authorize_selected) at h)
                  | inr known ↦
                      elim (Bool-cases (
                        true
                        && not (allows_tool fs fuel policy action rs)
                        && not
                            (has_policy fs fuel policy (tool_policies fs fuel policy action ps)))) [
                              | inl ungranted ↦
                                  refused _
                                    (rw (somebody, known, ungranted, authorize_selected) at h)
                              | inr granted ↦ (
                                ground (arith, known),
                                rw (somebody, known, granted, authorize_selected) at h,
                              )
                            ]
                ]
        ]
    where
      refused :
          (o : Attempt Denial Permission)
          → refuse_tool fs fuel policy o ≡ returned p
          → (includes supported_tools action.tool_name ≡ true)
            × (permit fs fuel policy true
                  (tool_policies fs fuel policy action ps)
                  (allowed_folders fs fuel policy true action access rs ps)
                  action
                ≡ returned p)
      refused (returned q) k = cc
      refused (thrown d) k = cc

-- What an allowance of an action gives: its path, and the file system's path for it, read from the
-- working folder or from a granted one.
abbrev pub IsAuthorized :
    FileSystem → ℕ → RelationshipPolicy → InboundMessage → ToolAction → List (List ℕ) → Type 0
IsAuthorized fs fuel policy message action paths =
    (path : List ℕ) × (action.path ≡ some path)
    × ((candidate : List ℕ) × (paths ≡ candidate ∷ [])
        × ((base : List ℕ) × ((base ≡ policy.cwd) ⊎ IsGranted policy message action.tool_name base)
            × IsCanonical fs (to_literal_absolute base path) candidate)
        × (same_text candidate policy.policy_file ≡ false)
        × (dangerous_path_decision fs
              (includes ("Write" ∷ "Edit" ∷ "NotebookEdit" ∷ []) action.tool_name) candidate
            ≡ none)
        × ((folder : List ℕ) × IsGranted policy message action.tool_name folder
            × (is_within folder candidate ≡ true)))

module _ (fs : FileSystem) (fuel : ℕ) (policy : RelationshipPolicy) (message : InboundMessage)
    (action : ToolAction) where
  selected-IsAuthorized :
      (access : ProjectAccess) (rs : List CompiledRelationship) (ps : List TrustedToolPolicy)
      (p : Permission)
      → AreOfSender fs fuel policy message action rs ps
      → authorize_selected fs fuel policy true action access rs ps ≡ returned p
      → (includes supported_tools action.tool_name ≡ true)
        × IsAuthorized fs fuel policy message action p.paths
  selected-IsAuthorized access rs ps p ours h =
      let (supported, permitted) = selected_lem fs fuel policy message action access rs ps p h in
      let (path, e, checked) =
        permit_lem fs fuel policy message action (tool_policies fs fuel policy action ps)
          (allowed_folders fs fuel policy true action access rs ps) p permitted in
      (
        supported,
        (
          path,
          e,
          one path p.paths (
              check_paths-AreSafe fs policy.cwd policy.policy_file
                (allowed_folders fs fuel policy true action access rs ps)
                (includes ("Write" ∷ "Edit" ∷ "NotebookEdit" ∷ []) action.tool_name) fuel
                (path ∷ []) p.paths checked),
        ),
      )
    where
      based :
          (path c : List ℕ)
          → IsResolved fs policy.cwd
              (allowed_folders fs fuel policy true action access rs ps)
              path
              c
          → (base : List ℕ) × ((base ≡ policy.cwd) ⊎ IsGranted policy message action.tool_name base)
            × IsCanonical fs (to_literal_absolute base path) c
      based path c (base, inl own, known) = (base, inl own, known)
      based path c (base, inr m, known) = (
        base,
        inr (allowed_folders-IsGranted fs fuel policy message action access rs ps ours base m),
        known,
      )

      one :
          (path : List ℕ) (paths : List (List ℕ))
          → AreSafe fs policy.cwd policy.policy_file
              (allowed_folders fs fuel policy true action access rs ps)
              (includes ("Write" ∷ "Edit" ∷ "NotebookEdit" ∷ []) action.tool_name)
              fuel
              (path ∷ [])
              paths
          → (candidate : List ℕ) × (paths ≡ candidate ∷ [])
            × ((base : List ℕ) × ((base ≡ policy.cwd)
                  ⊎ IsGranted policy message action.tool_name base)
                × IsCanonical fs (to_literal_absolute base path) candidate)
            × (same_text candidate policy.policy_file ≡ false)
            × (dangerous_path_decision fs
                  (includes ("Write" ∷ "Edit" ∷ "NotebookEdit" ∷ []) action.tool_name)
                  candidate
                ≡ none)
            × ((folder : List ℕ) × IsGranted policy message action.tool_name folder
                × (is_within folder candidate ≡ true))
      one path [] safe = absurd safe
      one path (c ∷ d ∷ cs) (_, _, more) = absurd more
      one path (c ∷ []) (resolved, (other, harmless, (folder, m, inside)), _) = (
        c,
        refl,
        based path c (
            resolve_relationship_path-IsResolved fs fuel policy.cwd
              (allowed_folders fs fuel policy true action access rs ps) path c resolved),
        other,
        harmless,
        (
          folder,
          allowed_folders-IsGranted fs fuel policy message action access rs ps ours folder m,
          inside,
        ),
      )

  access-IsAuthorized :
      (requested : List RequestedProject) (access : ProjectAccess) (p : Permission)
      → truthy message.sender_device_id ≡ true
      → authorize_access fs fuel policy true action message requested access ≡ returned p
      → (includes supported_tools action.tool_name ≡ true)
        × IsAuthorized fs fuel policy message action p.paths
  unfolding authorize_access trusted_policies_for
  access-IsAuthorized requested access p device h = by_status access.status refl
    where
      both : (a b : Bool) → (a && b) ≡ true → a ≡ true
      both a b k = ground arith

      rs : List CompiledRelationship
      rs =
          select
            (λ r.
              is_peer message r
              && is_selected_relationship fs fuel (is_explicit fs fuel policy requested)
                  (selection_of fs fuel policy access) r)
            policy.relationships

      ps : List TrustedToolPolicy
      ps =
          select
            (is_selected_policy fs fuel (is_explicit fs fuel policy requested)
              (selection_of fs fuel policy access))
            (trusted_policies_for message policy)

      ours : AreOfSender fs fuel policy message action rs ps
      ours = (
        λ r m.
            let (known, test) =
              mem-select
                (λ r.
                  is_peer message r
                  && is_selected_relationship fs fuel (is_explicit fs fuel policy requested)
                      (selection_of fs fuel policy access) r)
                policy.relationships m in
            (known, both (is_peer message r) _ test),
        λ q m.
            let (chosen, _) =
              mem-select
                (is_selected_policy fs fuel (is_explicit fs fuel policy requested)
                  (selection_of fs fuel policy access))
                (trusted_policies_for message policy) m in
            mem-select (is_requester message) policy.trusted_policies
              (rw (device, trusted_policies_for) at chosen),
      )

      by_status :
          (s : ProjectAccessStatus)
          → access.status ≡ s
          → (includes supported_tools action.tool_name ≡ true)
            × IsAuthorized fs fuel policy message action p.paths
      by_status ProjectAccessStatus.selection_required e = cc (rw (e, authorize_access) at h)
      by_status ProjectAccessStatus.not_found e = cc (rw (e, authorize_access) at h)
      by_status ProjectAccessStatus.no_access e =
          selected-IsAuthorized access rs ps p ours (rw (e, authorize_access) at h)
      by_status ProjectAccessStatus.selected e =
          selected-IsAuthorized access rs ps p ours (rw (e, authorize_access) at h)

-- If `authorize` allows an action, then there is an active message from a known device, the tool is
-- one of the supported ones, the action names a path, and the updated input is the path that the file
-- system has for it, read from the working folder or from a granted one: symbolic links followed, and
-- for a name under which nothing exists its last parts below the real path of the nearest folder that
-- does. That path is not the policy file, not a credential or (for a tool that writes) a file that is
-- executed on its next use, and lies within a granted folder. A folder is granted by a relationship of
-- the sender's device, where that or another relationship of the device has the tool, or by a trusted
-- policy for the device whose preset has the tool.
pub authorize-IsAuthorized :
    (fs : FileSystem) (fuel : ℕ) (policy : RelationshipPolicy) (action : ToolAction)
    (active : Option InboundMessage) (requested : List RequestedProject) (p : Permission)
    → authorize fs fuel policy true action active requested ≡ returned p
    → (message : InboundMessage) × (active ≡ some message)
      × (truthy message.sender_device_id ≡ true)
      × (includes supported_tools action.tool_name ≡ true)
      × IsAuthorized fs fuel policy message action p.paths
unfolding authorize
authorize-IsAuthorized fs fuel policy action none requested p h = cc
authorize-IsAuthorized fs fuel policy action (some message) requested p h =
    let (device, supported, authorized) =
      from_device (truthy message.sender_device_id) refl
        (access_for fs fuel message requested policy) h in
    (message, refl, device, supported, authorized)
  where
    from_device :
        (known : Bool)
        → truthy message.sender_device_id ≡ known
        → (access : ProjectAccess)
        → ◌≡◌ {A = Attempt Denial Permission}
            (if not known
              then thrown Denial.no_device
              else authorize_access fs fuel policy true action message requested access)
            (returned p)
        → (truthy message.sender_device_id ≡ true)
          × (includes supported_tools action.tool_name ≡ true)
          × IsAuthorized fs fuel policy message action p.paths
    from_device true e access k =
        let (supported, authorized) =
          access-IsAuthorized fs fuel policy message action requested access p e k in
        (e, supported, authorized)
    from_device false e access k = cc
