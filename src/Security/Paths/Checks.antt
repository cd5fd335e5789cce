-- ===== src/Security/Paths/Checks.antt =====
-- The loop of `#authorize` in src/security/relationship-policy.ts over the paths of an action.
use aicoo_local_agent.Common.{
  ℕ, ◌≡◌, refl, subst, ap, List, [], ◌∷◌, Bool, true, false, Option, none, some, Memᴰ, has_row,
  has_row_lem, Bool-cases, Option-cases, inl, inr,
}
use aicoo_local_agent.Common.Attempts.{Attempt, returned, thrown, ◌>>=◌, >>=-eq-returned}
use aicoo_local_agent.Security.ToolPolicies.{same_text}
use aicoo_local_agent.Security.Paths.{
  FileSystem, is_within, dangerous_path_decision, resolve_relationship_path, PathRefusal,
  check_candidate, accept_candidate, resolved_or, check_paths,
}

module _ (fs : FileSystem) (cwd policy : List ℕ) (folders : List (List ℕ)) (writes : Bool) where
  -- What a tool may be given: a canonical path that is not the policy file, not dangerous, and within
  -- an allowed folder.
  abbrev pub IsSafe : List ℕ → Type 0
  IsSafe candidate =
      (same_text candidate policy ≡ false)
      × (dangerous_path_decision fs writes candidate ≡ none)
      × ((folder : List ℕ) × Memᴰ folder folders × (is_within folder candidate ≡ true))

  module _ (fuel : ℕ) where
    -- One safe canonical path for each path of the action, which it was resolved from.
    abbrev pub AreSafe : List (List ℕ) → List (List ℕ) → Type 0
    AreSafe [] [] = Unit {0}
    AreSafe (p ∷ ps) (c ∷ cs) =
        (resolve_relationship_path fs fuel cwd folders p ≡ returned c) × IsSafe c × AreSafe ps cs
    AreSafe _ _ = ⊥

    check_candidate_lem :
        (c : List ℕ) → check_candidate fs fuel cwd policy folders writes c ≡ none → IsSafe c
    unfolding check_candidate
    check_candidate_lem c h = elim (Bool-cases (same_text c policy)) [
      | inl own ↦ cc (rw (own, check_candidate) at h)
      | inr other ↦ elim (Option-cases (dangerous_path_decision fs writes c)) [
        | inr (d, e) ↦ cc (rw (other, e, check_candidate) at h)
        | inl fine ↦ elim (Bool-cases (has_row (λ folder. is_within folder c) folders)) [
          | inl inside ↦ (other, fine, has_row_lem (λ folder. is_within folder c) folders inside)
          | inr outside ↦ cc (rw (other, fine, outside, check_candidate) at h)
        ]
      ]
    ]

    resolved_lem :
        (m : Attempt (Unit {0}) (List ℕ)) {c : List ℕ}
        → resolved_or fs fuel cwd policy folders writes m ≡ returned c
        → m ≡ returned c
    resolved_lem (returned d) h = let same = inner h in ap returned same
      where
        inner :
            {a b : List ℕ}
            → ◌≡◌ {A = Attempt PathRefusal (List ℕ)} (returned a) (returned b)
            → a ≡ b
        inner k = cc
    resolved_lem (thrown x) h = cc

    accepted_lem :
        (o : Option PathRefusal) (c : List ℕ) {d : List ℕ}
        → accept_candidate fs fuel cwd policy folders writes o c ≡ returned d
        → (o ≡ none) × (c ≡ d)
    accepted_lem none c h = (refl, cc)
    accepted_lem (some r) c h = cc

    -- If the loop over an action's paths does not refuse, then it gives one path for each path of the
    -- action, that which the path was resolved to, and each is not the policy file, is not dangerous
    -- for the tool, and lies within one of the allowed folders.
    pub check_paths-AreSafe :
        (paths accepted : List (List ℕ))
        → check_paths fs fuel cwd policy folders writes paths ≡ returned accepted
        → AreSafe paths accepted
    unfolding check_paths
    check_paths-AreSafe [] [] h = tt
    check_paths-AreSafe [] (c ∷ cs) h = cc
    check_paths-AreSafe (p ∷ ps) accepted h =
        let (c, e1, h1) =
          >>=-eq-returned
            (resolved_or fs fuel cwd policy folders writes
              (resolve_relationship_path fs fuel cwd folders p))
            tested {b = accepted} h in
        let (d, e2, h2) =
          >>=-eq-returned
            (accept_candidate fs fuel cwd policy folders writes
              (check_candidate fs fuel cwd policy folders writes c) c)
            collected {b = accepted} h1 in
        let (cs, e3, h3) =
          >>=-eq-returned (check_paths fs fuel cwd policy folders writes ps)
            (λ others. returned (d ∷ others)) {b = accepted} h2 in
        let (free, same) =
          accepted_lem (check_candidate fs fuel cwd policy folders writes c) c e2 in
        let row : AreSafe (p ∷ ps) (d ∷ cs) =
          rw (← same)
            (resolved_lem _ e1, check_candidate_lem c free, check_paths-AreSafe ps cs e3) in
        subst (AreSafe (p ∷ ps)) (same_list h3) row
      where
        collected : List ℕ → Attempt PathRefusal (List (List ℕ))
        collected d =
            check_paths fs fuel cwd policy folders writes ps >>= λ others. returned (d ∷ others)

        tested : List ℕ → Attempt PathRefusal (List (List ℕ))
        tested c =
            accept_candidate fs fuel cwd policy folders writes
              (check_candidate fs fuel cwd policy folders writes c) c
            >>= collected

        same_list :
            {a b : List (List ℕ)}
            → ◌≡◌ {A = Attempt PathRefusal (List (List ℕ))} (returned a) (returned b)
            → a ≡ b
        same_list k = cc
