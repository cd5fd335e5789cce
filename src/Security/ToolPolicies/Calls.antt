-- ===== src/Security/ToolPolicies/Calls.antt =====
-- Runs of src/security/trusted-tool-policy.ts: the calls that write the file, one after another, and
-- what they keep of a policy's uses and of the file's revision.
use aicoo_local_agent.Common.{
  ℕ, ◌+◌, ◌≤◌, ◌<◌, ◌≡◌, refl, subst, ◌⊎◌, inl, inr, List, [], ◌∷◌, ◌++◌, Bool, Option, none, some,
  arith, Bool-cases, Option-cases, length, select, select_first, has_row, Every, Every-append,
  Every-update_first, not, or_else, ◌==◌, ◌&&◌,
}
use aicoo_local_agent.Common.Attempts.{
  Attempt, returned, ◌>>=◌, ◌>>◌, ensure, >>=-eq-returned, ensure-eq-returned,
}
use aicoo_local_agent.Security.ToolPolicies.{
  TrustedToolPolicy, PolicyUse, PolicyDocument, PolicyError, UpsertInput, Resolved, no_policies,
  is_active, has_id, is_newer, revoke_row, revoke_found, revoke_trusted_tool_policy,
  server_revision, revision_of, upsert_trusted_tool_policy, new_policy, grant_folder,
  grant_at_revision, granted_before, add_policy, is_exact, is_same_revision,
  canonicalize_policy_folder, mark_used, use_row, mark_uses_reported, report_row, report_found,
  invalidate, invalidate_row,
}

-- Sequence numbers that increase, above lo and at most hi.
abbrev pub Between : ℕ → ℕ → List PolicyUse → Type 0
Between lo hi [] = lo ≤ hi
Between lo hi (u ∷ us) = (lo < u.sequence) × Between u.sequence hi us

-- The pending uses of a policy are numbered upwards, none above its use count.
abbrev pub UsesInOrder : TrustedToolPolicy → Type 0
UsesInOrder p = Between 0 p.use_count p.pending_uses

Between-weaken : (a b hi : ℕ) (us : List PolicyUse) → a ≤ b → Between b hi us → Between a hi us
Between-weaken a b hi [] le h = omega arith
Between-weaken a b hi (u ∷ us) le (g, h) = (omega arith, h)

Between-append :
    (lo hi at_time : ℕ) (us : List PolicyUse)
    → Between lo hi us
    → Between lo (hi + 1) (us ++ record { sequence = hi + 1; used_at = at_time } ∷ [])
Between-append lo hi at_time [] h = (omega arith, omega arith)
Between-append lo hi at_time (u ∷ us) (g, h) = (g, Between-append u.sequence hi at_time us h)

Between-select :
    (lo hi : ℕ) (p : PolicyUse → Bool) (us : List PolicyUse)
    → Between lo hi us
    → Between lo hi (select p us)
unfolding select
Between-select lo hi p [] h = h
Between-select lo hi p (u ∷ us) (g, h) = elim (Bool-cases (p u)) [
  | inl hit ↦ rw hit (g, Between-select u.sequence hi p us h)
  | inr miss ↦ rw miss (
      Between-weaken lo u.sequence hi (select p us) (omega arith)
        (Between-select u.sequence hi p us h))
]

-- One call that reads the file d and leaves d'.
pub data Call (d d' : PolicyDocument) : Type 0 where
  grant :
      (fresh : ℕ) (input : UpsertInput) (resolved : Resolved) (p : TrustedToolPolicy)
      → upsert_trusted_tool_policy fresh input resolved d ≡ returned (p, d')
      → Call d d'
  revoke :
      (now id by : ℕ) (given : Option ℕ)
      → d' ≡ (revoke_trusted_tool_policy now id by given d).1
      → Call d d'
  use_policy : (now id : ℕ) → d' ≡ mark_used now id d → Call d d'
  report : (id accepted : ℕ) → d' ≡ mark_uses_reported id accepted d → Call d d'
  end_policy : (id reason : ℕ) → d' ≡ invalidate id reason d → Call d d'

pub data Calls : PolicyDocument → PolicyDocument → Type 0 where
  nothing : (d : PolicyDocument) → Calls d d
  then_call : {d e f : PolicyDocument} → Calls d e → Call e f → Calls d f

-- A call leaves the file, or writes it at the next revision.
abbrev pub Written : PolicyDocument → PolicyDocument → Type 0
Written d e = (e ≡ d) ⊎ (e.revision ≡ d.revision + 1)

abbrev pub Fine : PolicyDocument → PolicyDocument → Type 0
Fine d e = (Every UsesInOrder d.policies → Every UsesInOrder e.policies) × Written d e

grant_folder-Fine :
    (fresh : ℕ) (input : UpsertInput) (folder : List ℕ) (d : PolicyDocument)
    → Fine d (grant_folder fresh input folder d).1
unfolding grant_folder add_policy new_policy
grant_folder-Fine fresh input folder d =
    elim (Option-cases (select_first (is_exact input folder) d.policies)) [
      | inl none_yet ↦
          rw (none_yet, grant_folder)
            (λ h. Every-append UsesInOrder d.policies _ h (omega arith), inr refl)
      | inr (p, e) ↦ rw (e, grant_folder) (λ h. h, inl refl)
    ]

granted_before-Fine :
    (o : Option TrustedToolPolicy) (p : TrustedToolPolicy) (d e : PolicyDocument)
    → granted_before o d ≡ returned (p, e)
    → Fine d e
unfolding granted_before
granted_before-Fine none p d e h = cc
granted_before-Fine (some q) p d e h = subst (Fine d) (same h) (λ k. k, inl refl)
  where
    same :
        {a b : TrustedToolPolicy} {x y : PolicyDocument}
        → ◌≡◌ {A = Attempt PolicyError (TrustedToolPolicy × PolicyDocument)}
            (returned (a, x))
            (returned (b, y))
        → x ≡ y
    same k = cc

grant_at_revision-Fine :
    (fresh : ℕ) (input : UpsertInput) (folder : List ℕ) (p : TrustedToolPolicy)
    (d e : PolicyDocument)
    → grant_at_revision fresh input folder d ≡ returned (p, e)
    → Fine d e
unfolding grant_at_revision
grant_at_revision-Fine fresh input folder p d e h = elim (Bool-cases (is_same_revision input d)) [
  | inl same ↦ granted_before-Fine _ p d e (rw same at h)
  | inr other ↦ subst (Fine d) (second (rw other at h)) (grant_folder-Fine fresh input folder d)
]
  where
    second :
        {a : TrustedToolPolicy × PolicyDocument} {b : TrustedToolPolicy} {y : PolicyDocument}
        → ◌≡◌ {A = Attempt PolicyError (TrustedToolPolicy × PolicyDocument)}
            (returned a)
            (returned (b, y))
        → a.1 ≡ y
    second k = cc

upsert-Fine :
    (fresh : ℕ) (input : UpsertInput) (resolved : Resolved) (p : TrustedToolPolicy)
    (d e : PolicyDocument)
    → upsert_trusted_tool_policy fresh input resolved d ≡ returned (p, e)
    → Fine d e
unfolding upsert_trusted_tool_policy
upsert-Fine fresh input resolved p d e h =
    let (_, rest) = ensure-eq-returned _ _ (remaining resolved) {b = (p, e)} h in
    let (folder, _, h2) =
      >>=-eq-returned (canonicalize_policy_folder resolved) granting {b = (p, e)} rest in
    let (_, h3) = ensure-eq-returned _ _ (grant_at_revision fresh input folder d) {b = (p, e)} h2 in
    grant_at_revision-Fine fresh input folder p d e h3
  where
    granting : List ℕ → Attempt PolicyError (TrustedToolPolicy × PolicyDocument)
    granting folder =
        ensure
          (not (
            is_newer (server_revision (or_else input.policy_id 0) d)
              (or_else input.server_revision 0)))
          PolicyError.stale_revision
        >> grant_at_revision fresh input folder d

    remaining : Resolved → Attempt PolicyError (TrustedToolPolicy × PolicyDocument)
    remaining r = canonicalize_policy_folder r >>= granting

revoke_found-Fine :
    (now id by value : ℕ) (o : Option TrustedToolPolicy) (d : PolicyDocument)
    → Fine d (revoke_found now id by value o d).1
unfolding revoke_found revoke_row
revoke_found-Fine now id by value none d = (λ h. h, inr refl)
revoke_found-Fine now id by value (some a) d = elim (Bool-cases (is_active a.status)) [
  | inl on ↦ rw on (
    Every-update_first UsesInOrder (has_id id) (revoke_row now by) d.policies (λ p _ h. h),
    inr refl,
  )
  | inr off ↦ rw off (λ h. h, inl refl)
]

revoke-Fine :
    (now id by : ℕ) (given : Option ℕ) (d : PolicyDocument)
    → Fine d (revoke_trusted_tool_policy now id by given d).1
unfolding revoke_trusted_tool_policy
revoke-Fine now id by given d =
    elim (Bool-cases (is_newer (server_revision id d) (revision_of id given d))) [
      | inl old ↦ rw (revoke_trusted_tool_policy, old) (λ h. h, inl refl)
      | inr new ↦
          rw (revoke_trusted_tool_policy, new)
            (revoke_found-Fine now id by (revision_of id given d)
              (select_first (has_id id) d.policies) d)
    ]

mark_used-Fine : (now id : ℕ) (d : PolicyDocument) → Fine d (mark_used now id d)
unfolding mark_used use_row
mark_used-Fine now id d =
    elim (Bool-cases
      (has_row (λ (p : TrustedToolPolicy). p.policy_id == id && is_active p.status) d.policies)) [
        | inl hit ↦
            rw (hit, mark_used)
              (
                Every-update_first UsesInOrder _ (use_row now) d.policies
                    (λ p _ h. Between-append 0 p.use_count now p.pending_uses h),
                inr refl,
              )
        | inr miss ↦ rw (miss, mark_used) (λ h. h, inl refl)
      ]

report_found-Fine :
    (id accepted : ℕ) (o : Option TrustedToolPolicy) (d : PolicyDocument)
    → Fine d (report_found id accepted o d)
unfolding report_found report_row
report_found-Fine id accepted none d = (λ h. h, inl refl)
report_found-Fine id accepted (some a) d =
    elim (Bool-cases (length (report_row accepted a).pending_uses == length a.pending_uses)) [
      | inl same ↦ rw (same) (λ h. h, inl refl)
      | inr fewer ↦ rw (fewer) (
        Every-update_first UsesInOrder _ (report_row accepted) d.policies
            (λ p _ h. Between-select 0 p.use_count _ p.pending_uses h),
        inr refl,
      )
    ]

invalidate-Fine : (id reason : ℕ) (d : PolicyDocument) → Fine d (invalidate id reason d)
unfolding invalidate invalidate_row
invalidate-Fine id reason d = elim (Bool-cases (has_row (has_id id) d.policies)) [
  | inl hit ↦
      rw (hit, invalidate)
        (
          Every-update_first UsesInOrder _ (invalidate_row reason) d.policies
              (λ p _ h. omega arith),
          inr refl,
        )
  | inr miss ↦ rw (miss, invalidate) (λ h. h, inl refl)
]

Call-Fine : (d e : PolicyDocument) → Call d e → Fine d e
unfolding mark_uses_reported
Call-Fine d e (grant fresh input resolved p h) = upsert-Fine fresh input resolved p d e h
Call-Fine d e (revoke now id by given h) = rw h (revoke-Fine now id by given d)
Call-Fine d e (use_policy now id h) = rw h (mark_used-Fine now id d)
Call-Fine d e (report id accepted h) =
    rw h (report_found-Fine id accepted (select_first (has_id id) d.policies) d)
Call-Fine d e (end_policy id reason h) = rw h (invalidate-Fine id reason d)

-- A call leaves the policy file as it is or writes it at the next revision.
pub call-Written : (d e : PolicyDocument) → Call d e → Written d e
call-Written d e call = (Call-Fine d e call).1

-- In a file that calls made from an empty one, the pending uses of every policy have increasing
-- sequence numbers, none of them 0 or above the policy's use count.
pub use_order_kept : (d : PolicyDocument) → Calls no_policies d → Every UsesInOrder d.policies
use_order_kept d calls = along no_policies d calls tt
  where
    along :
        (b e : PolicyDocument)
        → Calls b e
        → Every UsesInOrder b.policies
        → Every UsesInOrder e.policies
    along b e (nothing d) h = h
    along b e (then_call {e = f} before call) h = (Call-Fine f e call).0 (along b f before h)
