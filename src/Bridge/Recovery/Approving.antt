-- ===== src/Bridge/Recovery/Approving.antt =====
-- `validActivation` and `contains` in src/bridge/continuation-recovery.ts against what they stand for:
-- the fields of an activation, and the relative path of the resource as a text.
use aicoo_local_agent.Common.{
  ℕ, ◌≡◌, ◌≢◌, refl, ap, ◌∙◌, ◌⊎◌, inl, inr, List, [], ◌∷◌, ◌++◌, true, false, ◌||◌, Option, none,
  some, Bool-cases, Option-cases, arith,
}
use aicoo_local_agent.Security.Presets.{FileAccessPreset}
use aicoo_local_agent.Security.ToolPolicies.{same_text}
use aicoo_local_agent.Security.Paths.{codes, slash, starts_with, is_absolute}
use aicoo_local_agent.Shared.Continuations.{Texts, ContinuationApproval}
use aicoo_local_agent.Shared.ToolApproval.{BoundaryActivation}
use aicoo_local_agent.Bridge.Recovery.{is_below, approval_of, approval_for}

same_text_lem : (a b : List ℕ) → same_text a b ≡ true → a ≡ b
unfolding same_text
same_text_lem [] [] h = refl
same_text_lem [] (b ∷ bs) h = cc
same_text_lem (a ∷ as') [] h = cc
same_text_lem (a ∷ as') (b ∷ bs) h =
    let heads : a ≡ b = ground arith in
    let tails : as' ≡ bs = same_text_lem as' bs (ground arith) in cc

same_text_refl : (a : List ℕ) → same_text a a ≡ true
unfolding same_text
same_text_refl [] = refl
same_text_refl (a ∷ as') = ground (arith, same_text_refl as')

starts_with_rest :
    (p text : List ℕ) → starts_with p text ≡ true → (rest : List ℕ) × (text ≡ p ++ rest)
unfolding starts_with
starts_with_rest [] text h = (text, refl)
starts_with_rest (a ∷ as') [] h = cc
starts_with_rest (a ∷ as') (b ∷ bs) h =
    let heads : a ≡ b = ground arith in
    let (rest, e) = starts_with_rest as' bs (ground arith) in (rest, cc)

starts_with-append : (p rest : List ℕ) → starts_with p (p ++ rest) ≡ true
unfolding starts_with
starts_with-append [] rest = refl
starts_with-append (a ∷ as') rest = ground (arith, starts_with-append as' rest)

-- A relative path that stays below: it is empty, or it is not the parent, does not go through the
-- parent, and is not absolute (which `relative` gives across drives).
abbrev pub IsBelow : List ℕ → Type 0
IsBelow path =
    (path ≡ [])
    ⊎ ((path ≢ codes "..")
        × ((rest : List ℕ) → path ≢ codes "../" ++ rest)
        × ((rest : List ℕ) → path ≢ slash ∷ rest))

other_text : (a b : List ℕ) → same_text a b ≡ false → a ≢ b
other_text a b h e =
    let hit : same_text a b ≡ true = ap (λ t. same_text t b) e ∙ same_text_refl b in cc

other_start : (p text : List ℕ) → starts_with p text ≡ false → (rest : List ℕ) → text ≢ p ++ rest
other_start p text h rest e =
    let hit : starts_with p text ≡ true = ap (starts_with p) e ∙ starts_with-append p rest in cc

is_below-IsBelow : (path : List ℕ) → is_below path ≡ true → IsBelow path
unfolding is_below is_absolute
is_below-IsBelow path h = elim (Bool-cases (same_text path [])) [
  | inl same ↦ inl (same_text_lem path [] same)
  | inr more ↦ inr (
    other_text path (codes "..") (ground arith),
    other_start (codes "../") path (ground arith),
    other_start (slash ∷ []) path (ground arith),
  )
]

IsBelow-is_below : (path : List ℕ) → IsBelow path → is_below path ≡ true
unfolding is_below is_absolute
IsBelow-is_below path (inl e) =
    let empty : same_text path [] ≡ true = ap (λ t. same_text t []) e ∙ same_text_refl [] in
    ground arith
IsBelow-is_below path (inr (no_parent, not_through, not_root)) =
    let a : same_text path (codes "..") ≡ false = elim (Bool-cases (same_text path (codes ".."))) [
      | inl hit ↦ absurd (no_parent (same_text_lem path (codes "..") hit))
      | inr miss ↦ miss
    ] in
    let b : starts_with (codes "../") path ≡ false =
      elim (Bool-cases (starts_with (codes "../") path)) [
        | inl hit ↦
            let (rest, e) = starts_with_rest (codes "../") path hit in absurd (not_through rest e)
        | inr miss ↦ miss
      ] in
    let c : starts_with (slash ∷ []) path ≡ false =
      elim (Bool-cases (starts_with (slash ∷ []) path)) [
        | inl hit ↦
            let (rest, e) = starts_with_rest (slash ∷ []) path hit in absurd (not_root rest e)
        | inr miss ↦ miss
      ] in
    ground arith

module _ (texts : Texts) (relative : ℕ → ℕ → List ℕ) where
  -- Every field of the activation is there, its texts are not blank, and the approval has them.
  abbrev pub IsWhole : BoundaryActivation → ContinuationApproval → Type 0
  IsWhole a approval =
      (a.grant_id ≡ some approval.grant_id)
      × (a.grant_revision ≡ some approval.grant_revision)
      × (a.canonical_folder ≡ some approval.approved_canonical_folder)
      × (a.access_preset ≡ some approval.approved_access_preset)
      × (a.expected_boundary_manifest_hash ≡ some approval.expected_boundary_manifest_hash)
      × (texts.is_blank approval.grant_id ≡ false)
      × (texts.is_blank approval.approved_canonical_folder ≡ false)
      × (texts.is_blank approval.expected_boundary_manifest_hash ≡ false)

  -- An activation that gives the approval for a resource: whole, and the resource is in its folder.
  abbrev pub IsUsable : ℕ → Option BoundaryActivation → ContinuationApproval → Type 0
  IsUsable resource activation approval =
      ((a : BoundaryActivation) × (activation ≡ some a) × IsWhole a approval)
      × IsBelow (relative approval.approved_canonical_folder resource)

  approval_of_fields :
      (g r f : Option ℕ) (p : Option FileAccessPreset) (h : Option ℕ)
      (approval : ContinuationApproval)
      → let a : BoundaryActivation = record {
        grant_id = g;
        grant_revision = r;
        canonical_folder = f;
        access_preset = p;
        expected_boundary_manifest_hash = h;
      } in
        approval_of texts relative a ≡ some approval → IsWhole a approval
  unfolding approval_of
  approval_of_fields none r f p h approval e = cc
  approval_of_fields (some g) none f p h approval e = cc
  approval_of_fields (some g) (some r) none p h approval e = cc
  approval_of_fields (some g) (some r) (some f) none h approval e = cc
  approval_of_fields (some g) (some r) (some f) (some p) none approval e = cc
  approval_of_fields (some g) (some r) (some f) (some p) (some h) approval e =
      elim (Bool-cases (texts.is_blank g || texts.is_blank f || texts.is_blank h)) [
        | inl blank ↦ cc (rw blank at e)
        | inr written ↦
            let given : ContinuationApproval = record {
              grant_id = g;
              grant_revision = r;
              approved_canonical_folder = f;
              approved_access_preset = p;
              expected_boundary_manifest_hash = h;
            } in
            let same : given ≡ approval = inner (rw written at e) in
            rw (← same) (
              refl,
              refl,
              refl,
              refl,
              refl,
              ground (arith, written),
              ground (arith, written),
              ground (arith, written),
            )
      ]
    where
      inner : {a b : ContinuationApproval} → some a ≡ some b → a ≡ b
      inner k = cc

  IsWhole-approval_of :
      (a : BoundaryActivation) (approval : ContinuationApproval)
      → IsWhole a approval
      → approval_of texts relative a ≡ some approval
  unfolding approval_of
  IsWhole-approval_of a approval (g, r, f, p, h, x, y, z) = rw (g, r, f, p, h, x, y, z) refl

  -- `approval_for` gives an approval exactly where the activation gives it for the resource.
  pub approval_for-IsUsable :
      (resource : ℕ) (activation : Option BoundaryActivation) (approval : ContinuationApproval)
      → approval_for texts relative resource activation ≡ some approval
      → IsUsable resource activation approval
  unfolding approval_for
  approval_for-IsUsable resource none approval h = cc
  approval_for-IsUsable resource (some a) approval h =
      elim (Option-cases (approval_of texts relative a)) [
        | inl broken ↦ cc (rw (broken, approval_for) at h)
        | inr (b, e) ↦
            elim (Bool-cases (is_below (relative b.approved_canonical_folder resource))) [
              | inl inside ↦
                  let same : some b ≡ some approval = rw (e, inside, approval_for) at h in
                  let first : b ≡ approval = inner same in
                  (
                    (
                      a,
                      refl,
                      approval_of_fields a.grant_id a.grant_revision a.canonical_folder
                          a.access_preset a.expected_boundary_manifest_hash approval (e ∙ same),
                    ),
                    rw (← first) (is_below-IsBelow _ inside),
                  )
              | inr outside ↦ cc (rw (e, outside, approval_for) at h)
            ]
      ]
    where
      inner : {a b : ContinuationApproval} → some a ≡ some b → a ≡ b
      inner k = cc

  pub IsUsable-approval_for :
      (resource : ℕ) (activation : Option BoundaryActivation) (approval : ContinuationApproval)
      → IsUsable resource activation approval
      → approval_for texts relative resource activation ≡ some approval
  unfolding approval_for
  IsUsable-approval_for resource activation approval ((a, e, whole), below) =
      rw (e, approval_for, IsWhole-approval_of a approval whole, IsBelow-is_below _ below) refl
