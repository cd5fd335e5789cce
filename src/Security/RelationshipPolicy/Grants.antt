-- ===== src/Security/RelationshipPolicy/Grants.antt =====
-- The folders of `#authorize` in src/security/relationship-policy.ts: each is granted to the sender.
use Prim.Native.String.{String}
use aicoo_local_agent.Common.{
  ℕ, ◌≡◌, refl, ◌⊎◌, inl, inr, List, [], ◌∷◌, Bool, true, not, ◌&&◌, Memᴰ, ◌==◌, column_is, select,
  has_row_lem, mem-append, mem-select, mem-cons, mem-if, arith,
}
use aicoo_local_agent.Security.Presets.{includes, preset_of, access_preset_allows_tool}
use aicoo_local_agent.Security.ToolPolicies.{TrustedToolPolicy}
use aicoo_local_agent.Security.Paths.{FileSystem}
use aicoo_local_agent.Security.RelationshipPolicy.{
  CompiledRelationship, RelationshipPolicy, InboundMessage, ProjectAccess, distinct, has_text,
  folders_of, policy_folders, ToolAction, is_peer, tool_policies, allows_tool, allowed_folders,
}

mem-distinct : (ts : List (List ℕ)) {t : List ℕ} → Memᴰ t (distinct ts) → Memᴰ t ts
unfolding distinct
mem-distinct [] m = elim m [ ]
mem-distinct (x ∷ xs) m =
    elim (mem-if (has_text x (distinct xs)) (distinct xs) (x ∷ distinct xs) m) [
      | inl (_, n) ↦ Memᴰ.tail (mem-distinct xs n)
      | inr (_, n) ↦ elim (mem-cons x (distinct xs) n) [
        | inl e ↦ Memᴰ.head e
        | inr k ↦ Memᴰ.tail (mem-distinct xs k)
      ]
    ]

mem-folders_of :
    (rs : List CompiledRelationship) {f : List ℕ}
    → Memᴰ f (folders_of rs)
    → (r : CompiledRelationship) × Memᴰ r rs × Memᴰ f r.folders
unfolding folders_of
mem-folders_of [] m = elim m [ ]
mem-folders_of (r ∷ rs) m = elim (mem-append r.folders (folders_of rs) m) [
  | inl n ↦ (r, Memᴰ.head refl, n)
  | inr n ↦ let (q, k, g) = mem-folders_of rs n in (q, Memᴰ.tail k, g)
]

mem-policy_folders :
    (ps : List TrustedToolPolicy) {f : List ℕ}
    → Memᴰ f (policy_folders ps)
    → (p : TrustedToolPolicy) × Memᴰ p ps × (f ≡ p.canonical_folder)
unfolding policy_folders
mem-policy_folders [] m = elim m [ ]
mem-policy_folders (p ∷ ps) (Memᴰ.head e) = (p, Memᴰ.head refl, e)
mem-policy_folders (p ∷ ps) (Memᴰ.tail m) =
    let (q, k, g) = mem-policy_folders ps m in (q, Memᴰ.tail k, g)

-- The sender's test on a trusted policy.
abbrev pub is_requester : InboundMessage → TrustedToolPolicy → Bool
is_requester message p =
    p.requester_principal_id == message.sender_principal_id
    && column_is message.sender_device_id p.requester_device_id

-- A folder granted to the sender for the tool: by a relationship of the sender's device, where that
-- or another relationship of the device has the tool, or by a trusted policy for that device whose preset has the tool.
abbrev pub IsGranted : RelationshipPolicy → InboundMessage → String → List ℕ → Type 0
IsGranted policy message tool folder =
    ((r : CompiledRelationship) × Memᴰ r policy.relationships
      × (is_peer message r ≡ true)
      × Memᴰ folder r.folders
      × ((q : CompiledRelationship) × Memᴰ q policy.relationships
          × (is_peer message q ≡ true)
          × (includes q.tools tool ≡ true)))
    ⊎ ((p : TrustedToolPolicy) × Memᴰ p policy.trusted_policies
        × (is_requester message p ≡ true)
        × (folder ≡ p.canonical_folder)
        × (access_preset_allows_tool (preset_of p.access_preset) tool ≡ true))

module _ (fs : FileSystem) (fuel : ℕ) (policy : RelationshipPolicy) (message : InboundMessage)
    (action : ToolAction) where
  -- The lists that `#authorize` works with hold the sender's relationships and policies.
  abbrev pub AreOfSender : List CompiledRelationship → List TrustedToolPolicy → Type 0
  AreOfSender rs ps =
      ((r : CompiledRelationship)
        → Memᴰ r rs
        → Memᴰ r policy.relationships × (is_peer message r ≡ true))
      × ((p : TrustedToolPolicy)
          → Memᴰ p ps
          → Memᴰ p policy.trusted_policies × (is_requester message p ≡ true))

  pub allowed_folders-IsGranted :
      (access : ProjectAccess) (rs : List CompiledRelationship) (ps : List TrustedToolPolicy)
      → AreOfSender rs ps
      → (f : List ℕ) → Memᴰ f (allowed_folders fs fuel policy true action access rs ps)
      → IsGranted policy message action.tool_name f
  unfolding allowed_folders tool_policies
  allowed_folders-IsGranted access rs ps (ours, theirs) f m =
      elim (mem-append _ _ (mem-distinct _ m)) [
        | inl n ↦
            elim (mem-if (true && not (allows_tool fs fuel policy action rs)) []
              (select (λ folder. has_text folder access.folders) (folders_of rs)) n) [
                | inl (_, k) ↦ elim k [ ]
                | inr (some_tool, k) ↦
                    let (in_folders, _) =
                      mem-select (λ folder. has_text folder access.folders) (folders_of rs) k in
                    let (r, g, h) = mem-folders_of rs in_folders in
                    let (known, peer) = ours r g in
                    let (q, j, tool) =
                      has_row_lem (λ (r : CompiledRelationship). includes r.tools action.tool_name)
                        rs (ground (arith, some_tool)) in
                    let (known2, peer2) = ours q j in
                    inl (r, known, peer, h, (q, known2, peer2, tool))
              ]
        | inr n ↦
            let (p, k, e) = mem-policy_folders (tool_policies fs fuel policy action ps) n in
            let (j, tool) =
              mem-select
                (λ (p : TrustedToolPolicy).
                  access_preset_allows_tool (preset_of p.access_preset) action.tool_name)
                ps k in
            let (known, requester) = theirs p j in inr (p, known, requester, e, tool)
      ]
