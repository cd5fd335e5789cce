-- ===== src/Security/ToolPolicies/Regranting.antt =====
-- `revokeTrustedToolPolicy` in src/security/trusted-tool-policy.ts: when it ends a grant, and when not.
use aicoo_local_agent.Common.{
  ℕ, ◌≤◌, ◌≡◌, ◌≢◌, refl, subst, ap, inl, inr, List, [], ◌∷◌, true, false, not, ◌&&◌, Option, none,
  some, Memᴰ, arith, Bool-cases, Option-cases, length, select, mem-cons, select-mem,
  mem-append_last, select_first-append_some, ◌==◌, or_else, select_first, select_first_sound,
  select_first-none, update_first,
}
use aicoo_local_agent.Common.Attempts.{
  Attempt, returned, ◌>>=◌, ◌>>◌, ensure, >>=-eq-returned, ensure-eq-returned,
}
use aicoo_local_agent.Security.ToolPolicies.{
  TrustedToolPolicy, PolicyDocument, PolicyError, UpsertInput, Resolved, is_active, has_id,
  is_newer, revoke_row, revoke_found, revoke_trusted_tool_policy, server_revision, revision_of,
  upsert_trusted_tool_policy, new_policy, grant_folder, grant_at_revision, granted_before,
  add_policy, is_exact, is_same_revision, canonicalize_policy_folder,
}

-- The policies of one id, at most one.
abbrev pub AtMostOne : ℕ → List TrustedToolPolicy → Type 0
AtMostOne id policies = length (select (has_id id) policies) ≤ 1

no-member :
    (id : ℕ) (xs : List TrustedToolPolicy) (b : TrustedToolPolicy)
    → length (select (has_id id) xs) ≡ 0
    → Memᴰ b xs
    → has_id id b ≡ false
no-member id xs b h m = elim (Bool-cases (has_id id b)) [
  | inl hit ↦ absurd (some_row (select (has_id id) xs) h (select-mem (has_id id) xs m hit))
  | inr miss ↦ miss
]
  where
    some_row : (ys : List TrustedToolPolicy) → length ys ≡ 0 → Memᴰ b ys → ⊥
    some_row [] e n = elim n [ ]
    some_row (y ∷ ys) e n = absurd (omega (arith, e))

revoked_rows :
    (id now by : ℕ) (xs : List TrustedToolPolicy) (b : TrustedToolPolicy)
    → AtMostOne id xs
    → Memᴰ b (update_first (has_id id) (revoke_row now by) xs)
    → has_id id b ≡ true
    → is_active b.status ≡ false
unfolding update_first select revoke_row
revoked_rows id now by [] b one m h = elim m [ ]
revoked_rows id now by (x ∷ xs) b one m h = elim (Bool-cases (has_id id x)) [
  | inl hit ↦ elim (mem-cons (revoke_row now by x) xs (rw hit at m)) [
    | inl e ↦ ap (λ (r : TrustedToolPolicy). is_active r.status) e
    | inr n ↦
        let none_left : length (select (has_id id) xs) ≡ 0 = ground (arith, hit) in
        absurd (ground (arith, no-member id xs b none_left n))
  ]
  | inr miss ↦ elim (mem-cons x (update_first (has_id id) (revoke_row now by) xs) (rw miss at m)) [
    | inl e ↦ absurd (ground (arith, ap (has_id id) e))
    | inr n ↦ revoked_rows id now by xs b (rw miss at one) n h
  ]
]

none-active :
    (id : ℕ) (xs : List TrustedToolPolicy) (b : TrustedToolPolicy)
    → select_first (has_id id) xs ≡ none
    → Memᴰ b xs
    → has_id id b ≡ false
none-active id xs b h m = select_first-none (has_id id) xs {a = b} h m

first_off :
    (id : ℕ) (xs : List TrustedToolPolicy) (a b : TrustedToolPolicy)
    → AtMostOne id xs
    → select_first (has_id id) xs ≡ some a
    → is_active a.status ≡ false
    → Memᴰ b xs
    → has_id id b ≡ true
    → is_active b.status ≡ false
unfolding select_first select
first_off id [] a b one found off m h = elim m [ ]
first_off id (x ∷ xs) a b one found off m h = elim (Bool-cases (has_id id x)) [
  | inl hit ↦ elim (mem-cons x xs m) [
    | inl e ↦
        let same : some x ≡ some a = rw hit at found in
        ground (arith, ap (λ (r : TrustedToolPolicy). is_active r.status) e)
    | inr n ↦
        let none_left : length (select (has_id id) xs) ≡ 0 = ground (arith, hit) in
        absurd (ground (arith, no-member id xs b none_left n))
  ]
  | inr miss ↦ elim (mem-cons x xs m) [
    | inl e ↦ absurd (ground (arith, ap (has_id id) e))
    | inr n ↦ first_off id xs a b (rw miss at one) (rw miss at found) off n h
  ]
]

-- If a file holds at most one policy of an id, then after a revocation of that id which is not older
-- than the file's revision for it no policy of that id is active.
pub revoke_ends_grant :
    (now id by : ℕ) (given : Option ℕ) (d : PolicyDocument) (p : TrustedToolPolicy)
    → AtMostOne id d.policies
    → is_newer (server_revision id d) (revision_of id given d) ≡ false
    → Memᴰ p (revoke_trusted_tool_policy now id by given d).1.policies
    → p.policy_id ≡ id
    → is_active p.status ≡ false
unfolding revoke_trusted_tool_policy revoke_found
revoke_ends_grant now id by given d p one current m same =
    found (select_first (has_id id) d.policies) refl
      (subst (λ (e : PolicyDocument). Memᴰ p e.policies) read m)
  where
    matches : has_id id p ≡ true
    matches = ground arith

    value : ℕ
    value = revision_of id given d

    read :
        (revoke_trusted_tool_policy now id by given d).1
        ≡ (revoke_found now id by value (select_first (has_id id) d.policies) d).1
    read = rw (revoke_trusted_tool_policy, current) refl

    found :
        (o : Option TrustedToolPolicy)
        → select_first (has_id id) d.policies ≡ o
        → Memᴰ p (revoke_found now id by value o d).1.policies
        → is_active p.status ≡ false
    found none e n = cc (none-active id d.policies p e n, matches)
    found (some a) e n = elim (Bool-cases (is_active a.status)) [
      | inl on ↦ revoked_rows id now by d.policies p one (rw on at n) matches
      | inr off ↦ first_off id d.policies a p one e off (rw off at n) matches
    ]

-- A revocation finds the first policy of its id. If that one is not active, then the file stays as it
-- is, whatever other policies of that id it holds.
pub revoke-off :
    (now id by : ℕ) (given : Option ℕ) (d : PolicyDocument) (a : TrustedToolPolicy)
    → select_first (has_id id) d.policies ≡ some a
    → is_active a.status ≡ false
    → (revoke_trusted_tool_policy now id by given d).1 ≡ d
unfolding revoke_trusted_tool_policy revoke_found
revoke-off now id by given d a found off =
    elim (Bool-cases (is_newer (server_revision id d) (revision_of id given d))) [
      | inl old ↦ rw (revoke_trusted_tool_policy, old) refl
      | inr new ↦ rw (revoke_trusted_tool_policy, new, found, revoke_found, off) refl
    ]

-- What a grant of id leaves: the row that id finds is the old one, and the granted one is in the file.
abbrev Granted : ℕ → TrustedToolPolicy → TrustedToolPolicy × PolicyDocument → Type 0
Granted id old r =
    (select_first (has_id id) r.1.policies ≡ some old)
    × Memᴰ r.0 r.1.policies
    × (r.0.policy_id ≡ id)
    × (is_active r.0.status ≡ true)

exact-id :
    (input : UpsertInput) (folder : List ℕ) (id : ℕ) (p : TrustedToolPolicy)
    → input.policy_id ≡ some id
    → id ≢ 0
    → is_exact input folder p ≡ true
    → (p.policy_id ≡ id) × (is_active p.status ≡ true)
unfolding is_exact
exact-id input folder id p named real h = (ground arith, ground arith)

module _ (fresh : ℕ) (input : UpsertInput) (folder : List ℕ) (d : PolicyDocument) (id : ℕ)
    (old : TrustedToolPolicy) (named : input.policy_id ≡ some id) (real : id ≢ 0)
    (found : select_first (has_id id) d.policies ≡ some old) where
  grant_folder-Granted : Granted id old (grant_folder fresh input folder d)
  unfolding grant_folder add_policy new_policy
  grant_folder-Granted = elim (Option-cases (select_first (is_exact input folder) d.policies)) [
    | inl none_yet ↦
        rw (none_yet, grant_folder)
          (
            select_first-append_some (has_id id) d.policies _ found,
            mem-append_last d.policies _,
            rw named refl,
            refl,
          )
    | inr (p, e) ↦
        let (m, same) = select_first_sound (is_exact input folder) d.policies {a = p} e in
        let (i, on) = exact-id input folder id p named real same in
        rw (e, grant_folder) (found, m, i, on)
  ]

  granted_before-Granted :
      (o : Option TrustedToolPolicy) (r : TrustedToolPolicy × PolicyDocument)
      → select_first
          (λ p. p.policy_id == or_else input.policy_id 0 && is_active p.status)
          d.policies
        ≡ o
      → granted_before o d ≡ returned r
      → Granted id old r
  unfolding granted_before
  granted_before-Granted none r e h = cc
  granted_before-Granted (some p) (q, d') e h =
      let (m, same) =
        select_first_sound
          (λ (p : TrustedToolPolicy).
            p.policy_id == or_else input.policy_id 0 && is_active p.status)
          d.policies {a = p} e in
      let i : p.policy_id ≡ id = ground arith in
      let on : is_active p.status ≡ true = ground arith in
      subst (Granted id old) (second h) (found, m, i, on)
    where
      second :
          {a b : TrustedToolPolicy × PolicyDocument}
          → ◌≡◌ {A = Attempt PolicyError _} (returned a) (returned b)
          → a ≡ b
      second k = cc

  grant_at_revision-Granted :
      (r : TrustedToolPolicy × PolicyDocument)
      → grant_at_revision fresh input folder d ≡ returned r
      → Granted id old r
  unfolding grant_at_revision
  grant_at_revision-Granted r h = elim (Bool-cases (is_same_revision input d)) [
    | inl same ↦ granted_before-Granted _ r refl (rw same at h)
    | inr other ↦ subst (Granted id old) (second (rw other at h)) grant_folder-Granted
  ]
    where
      second :
          {a b : TrustedToolPolicy × PolicyDocument}
          → ◌≡◌ {A = Attempt PolicyError _} (returned a) (returned b)
          → a ≡ b
      second k = cc

-- If the first policy of an id in the file is not active (revoked, say) and a grant of that id
-- succeeds, then the granted policy is in the file, active and of that id, and a revocation of the id
-- afterwards, whatever revision it names, leaves the file as it is.
pub regrant_not_revoked :
    (fresh : ℕ) (input : UpsertInput) (resolved : Resolved) (d after : PolicyDocument) (id : ℕ)
    (old p : TrustedToolPolicy) (now by : ℕ) (given : Option ℕ)
    → input.policy_id ≡ some id
    → id ≢ 0
    → select_first (has_id id) d.policies ≡ some old
    → is_active old.status ≡ false
    → upsert_trusted_tool_policy fresh input resolved d ≡ returned (p, after)
    → ((revoke_trusted_tool_policy now id by given after).1 ≡ after)
      × Memᴰ p after.policies
      × (p.policy_id ≡ id)
      × (is_active p.status ≡ true)
unfolding upsert_trusted_tool_policy
regrant_not_revoked fresh input resolved d after id old p now by given named real found off h =
    let (_, rest) = ensure-eq-returned _ _ (remaining resolved) {b = (p, after)} h in
    let (folder, _, h2) =
      >>=-eq-returned (canonicalize_policy_folder resolved) granting {b = (p, after)} rest in
    let (_, h3) =
      ensure-eq-returned _ _ (grant_at_revision fresh input folder d) {b = (p, after)} h2 in
    let (first, m, i, on) =
      grant_at_revision-Granted fresh input folder d id old named real found (p, after) h3 in
    (revoke-off now id by given after old first off, m, i, on)
  where
    granting : List ℕ → Attempt PolicyError (TrustedToolPolicy × PolicyDocument)
    granting folder =
        ensure
          (not (
            is_newer (server_revision (or_else input.policy_id 0) d)
              (or_else input.server_revision 0)))
          PolicyError.stale_revision
        >> grant_at_revision fresh input folder d

    remaining : Resolved → Attempt PolicyError (TrustedToolPolicy × PolicyDocument)
    remaining r = canonicalize_policy_folder r >>= granting
