-- ===== src/Security/Paths/Segments.antt =====
-- `isWithin` of src/security/relationship-policy.ts compares texts; here it is compared with the
-- segments of the paths.
use aicoo_local_agent.Common.{
  ℕ, ◌≡◌, refl, ap, ◌∙◌, List, [], ◌∷◌, ◌++◌, Bool, true, false, not, ◌&&◌, ◌||◌, ◌==◌, arith,
}
use aicoo_local_agent.Security.ToolPolicies.{same_text}
use aicoo_local_agent.Security.Paths.{starts_with, slash, is_text, is_within}

-- An absolute path of its segments.
unfoldable pub render : List (List ℕ) → List ℕ
render [] = []
render (s ∷ ss) = slash ∷ (s ++ render ss)

unfoldable pub no_slash : List ℕ → Bool
no_slash [] = true
no_slash (c ∷ cs) = not (c == slash) && no_slash cs

-- Segments are not empty and hold no separator.
abbrev pub AreSegments : List (List ℕ) → Type 0
AreSegments [] = Unit {0}
AreSegments (s ∷ ss) = (is_text s ≡ true) × (no_slash s ≡ true) × AreSegments ss

-- Are the first segments of the second path those of the first?
unfoldable pub is_segment_prefix : List (List ℕ) → List (List ℕ) → Bool
is_segment_prefix [] others = true
is_segment_prefix (s ∷ ss) [] = false
is_segment_prefix (s ∷ ss) (t ∷ ts) = same_text s t && is_segment_prefix ss ts

-- The two texts are one, or the second goes on with a separator where the first ends.
abbrev reaches : List ℕ → List ℕ → Bool
reaches folder candidate =
    same_text candidate folder || starts_with (folder ++ slash ∷ []) candidate

reaches-segment :
    (s t : List ℕ) (ss ts : List (List ℕ))
    → no_slash s ≡ true
    → no_slash t ≡ true
    → reaches (s ++ render ss) (t ++ render ts) ≡ (same_text s t && reaches (render ss) (render ts))
unfolding no_slash same_text starts_with render
reaches-segment [] [] ss ts h k = refl
reaches-segment [] (c ∷ t) [] ts h k = ground arith
reaches-segment [] (c ∷ t) (x ∷ ss) ts h k = ground arith
reaches-segment (a ∷ s) [] ss [] h k = refl
reaches-segment (a ∷ s) [] ss (x ∷ ts) h k = ground arith
reaches-segment (a ∷ s) (c ∷ t) ss ts h k = ground (arith, reaches-segment s t ss ts)

reaches-is_segment_prefix :
    (ss ts : List (List ℕ))
    → AreSegments ss
    → AreSegments ts
    → reaches (render ss) (render ts) ≡ is_segment_prefix ss ts
unfolding is_segment_prefix render same_text starts_with
reaches-is_segment_prefix [] [] h k = refl
reaches-is_segment_prefix [] (t ∷ ts) h k = refl
reaches-is_segment_prefix (s ∷ ss) [] h k = refl
reaches-is_segment_prefix (s ∷ ss) (t ∷ ts) (_, h, hs) (_, k, ks) =
    reaches-segment s t ss ts h k
    ∙ ap (λ b. same_text s t && b) (reaches-is_segment_prefix ss ts hs ks)

-- For absolute paths written with segments, at least one in the folder's, `isWithin` says that the
-- folder's segments are the first ones of the candidate: /work/a holds /work/a/b, not /work/ab.
pub is_within_lem :
    (s : List ℕ) (ss ts : List (List ℕ))
    → AreSegments (s ∷ ss)
    → AreSegments ts
    → is_within (render (s ∷ ss)) (render ts) ≡ is_segment_prefix (s ∷ ss) ts
unfolding is_within render same_text
is_within_lem [] ss ts h k = let empty = h.0 in cc
is_within_lem (c ∷ s) ss ts h k = reaches-is_segment_prefix ((c ∷ s) ∷ ss) ts h k
