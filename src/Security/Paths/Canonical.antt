-- ===== src/Security/Paths/Canonical.antt =====
-- `canonicalPath` and `resolveRelationshipPath` in src/security/relationship-policy.ts: what they give
-- is a real path of the file system.
use aicoo_local_agent.Common.{
  ℕ, zero, suc, ◌≡◌, refl, subst, ap, ◌∙◌, ◌⊎◌, inl, inr, List, [], ◌∷◌, ◌||◌, if◌then◌else◌, Memᴰ,
  has_row, Bool-cases,
}
use aicoo_local_agent.Common.Attempts.{Attempt, returned, >>=-eq-returned}
use aicoo_local_agent.Security.ToolPolicies.{same_text}
use aicoo_local_agent.Security.Paths.{
  RealPath, FileSystem, is_within, is_absolute, to_literal_absolute, canonical_path, resolve_in,
  resolve_relationship_path,
}

-- The path that the file system has for a name: its real path, or, where nothing exists under the
-- name, the name's last part below the path that its folder has.
pub data IsCanonical (fs : FileSystem) : List ℕ → List ℕ → Type 0 where
  real : {p c : List ℕ} → fs.realpath p ≡ RealPath.found c → IsCanonical fs p c
  below :
      {p d : List ℕ}
      → fs.realpath p ≡ RealPath.missing
      → IsCanonical fs (fs.dirname p) d
      → IsCanonical fs p (fs.join d (fs.basename p))

same_path : {a b : List ℕ} → ◌≡◌ {A = Attempt (Unit {0}) (List ℕ)} (returned a) (returned b) → a ≡ b
same_path k = cc

module _ (fs : FileSystem) where
  pub canonical_path-IsCanonical :
      (fuel : ℕ) (p c : List ℕ) → canonical_path fs fuel p ≡ returned c → IsCanonical fs p c
  unfolding canonical_path
  canonical_path-IsCanonical zero p c h = cc
  canonical_path-IsCanonical (suc fuel) p c h =
      by_real (canonical_path-IsCanonical fuel (fs.dirname p)) (fs.realpath p) refl
    where
      by_real :
          ((d : List ℕ)
            → canonical_path fs fuel (fs.dirname p) ≡ returned d
            → IsCanonical fs (fs.dirname p) d)
          → (r : RealPath) → fs.realpath p ≡ r
          → IsCanonical fs p c
      by_real above (RealPath.found d) e =
          IsCanonical.real (e ∙ ap RealPath.found (same_path (rw (e, canonical_path) at h)))
      by_real above RealPath.refused e = cc (rw (e, canonical_path) at h)
      by_real above RealPath.missing e = elim (Bool-cases (same_text (fs.dirname p) p)) [
        | inl top ↦ cc (rw (e, top, canonical_path) at h)
        | inr lower ↦
            let (d, found, k) =
              >>=-eq-returned (canonical_path fs fuel (fs.dirname p))
                (λ parent. returned (fs.join parent (fs.basename p))) {b = c}
                (rw (e, lower, canonical_path) at h) in
            subst (IsCanonical fs p) (same_path k) (IsCanonical.below e (above d found))
      ]

  -- The name that a path was resolved as: from the working folder or from an allowed one.
  abbrev pub IsResolved : List ℕ → List (List ℕ) → List ℕ → List ℕ → Type 0
  IsResolved cwd folders path candidate =
      (base : List ℕ) × ((base ≡ cwd) ⊎ Memᴰ base folders)
      × IsCanonical fs (to_literal_absolute base path) candidate

  widen :
      {cwd folder : List ℕ} {folders : List (List ℕ)} (path : List ℕ) {c : List ℕ}
      → IsResolved cwd folders path c
      → IsResolved cwd (folder ∷ folders) path c
  widen path (base, inl own, known) = (base, inl own, known)
  widen path (base, inr m, known) = (base, inr (Memᴰ.tail m), known)

  resolve_in-IsResolved :
      (fuel : ℕ) (cwd path fallback : List ℕ) (folders : List (List ℕ)) (c : List ℕ)
      → IsCanonical fs (to_literal_absolute cwd path) fallback
      → resolve_in fs fuel path fallback folders ≡ returned c
      → IsResolved cwd folders path c
  unfolding resolve_in
  resolve_in-IsResolved fuel cwd path fallback [] c known h =
      (cwd, inl refl, subst (IsCanonical fs (to_literal_absolute cwd path)) (same_path h) known)
  resolve_in-IsResolved fuel cwd path fallback (folder ∷ folders) c known h =
      let (d, found, k) =
        >>=-eq-returned (canonical_path fs fuel (to_literal_absolute folder path)) tested {b = c}
          h in
      elim (Bool-cases (is_within folder d)) [
        | inl inside ↦ (
          folder,
          inr (Memᴰ.head refl),
          subst (IsCanonical fs (to_literal_absolute folder path)) (same_path (rw inside at k))
              (canonical_path-IsCanonical fuel _ d found),
        )
        | inr outside ↦
            widen path
              (resolve_in-IsResolved fuel cwd path fallback folders c known (rw outside at k))
      ]
    where
      tested : List ℕ → Attempt (Unit {0}) (List ℕ)
      tested d = if is_within folder d then returned d else resolve_in fs fuel path fallback folders

  -- A path that `resolveRelationshipPath` gives is the file system's path for the name that it was
  -- asked for, taken from the working folder or from one of the allowed folders.
  pub resolve_relationship_path-IsResolved :
      (fuel : ℕ) (cwd : List ℕ) (folders : List (List ℕ)) (path c : List ℕ)
      → resolve_relationship_path fs fuel cwd folders path ≡ returned c
      → IsResolved cwd folders path c
  unfolding resolve_relationship_path
  resolve_relationship_path-IsResolved fuel cwd folders path c h =
      let (d, found, k) =
        >>=-eq-returned (canonical_path fs fuel (to_literal_absolute cwd path)) tested {b = c} h in
      elim (Bool-cases (has_row (λ folder. is_within folder d) folders || is_absolute path)) [
        | inl settled ↦ (
          cwd,
          inl refl,
          subst (IsCanonical fs (to_literal_absolute cwd path)) (same_path (rw settled at k))
              (canonical_path-IsCanonical fuel _ d found),
        )
        | inr open_still ↦
            resolve_in-IsResolved fuel cwd path d folders c
              (canonical_path-IsCanonical fuel _ d found) (rw open_still at k)
      ]
    where
      tested : List ℕ → Attempt (Unit {0}) (List ℕ)
      tested d =
          if has_row (λ folder. is_within folder d) folders || is_absolute path
          then returned d
          else resolve_in fs fuel path d folders
