-- ===== src/Shared/Continuations/Invariants.antt =====
-- src/shared/continuation-store.ts: what holds of every table that the store's methods made.
use aicoo_local_agent.Common.{
  ℕ, ◌≡◌, ◌≢◌, refl, sym, subst, ap, [], true, Option, none, some, is_some, or_else, select_first,
  Every, Every-append, Every-update_first,
}
use aicoo_local_agent.Shared.Continuations.{
  ContinuationState, CreateContinuationInput, ContinuationRow, Store, Texts, has_continuation_id,
  set_state, set_failed, set_approval, set_approved, set_mismatched, set_attested, new_continuation,
}
use aicoo_local_agent.Shared.Continuations.Graph.{
  Edge, rebuild, complete, expire, deny, not_delivered, Failure, before_rebuild, in_rebuild,
  in_resume, Move, advance, fail, attach, approve, attest, refuse, Step, kept, added, moved,
}
use aicoo_local_agent.Shared.Continuations.Runs.{Run, start, after, perform-Step}

-- What holds of the columns of a row in each state.
abbrev pub StateColumns : ContinuationState → Option ℕ → Option ℕ → Option ℕ → Type 0
StateColumns ContinuationState.awaiting_approval grant expected boundary =
    (grant ≡ none) × (expected ≡ none)
StateColumns ContinuationState.denied grant expected boundary = (grant ≡ none) × (expected ≡ none)
StateColumns ContinuationState.approval_expired grant expected boundary =
    (grant ≡ none) × (expected ≡ none)
StateColumns ContinuationState.approval_delivery_failed grant expected boundary =
    (grant ≡ none) × (expected ≡ none)
StateColumns ContinuationState.approved_pending_activation grant expected boundary =
    is_some grant ≡ true
StateColumns ContinuationState.rebuilding_session grant expected boundary = is_some grant ≡ true
StateColumns ContinuationState.activation_failed grant expected boundary = is_some grant ≡ true
StateColumns _ grant expected boundary =
    (is_some grant ≡ true) × (expected ≡ boundary) × (boundary ≢ none) × (boundary ≢ some 0)

abbrev pub IsAttested : ContinuationRow → Type 0
IsAttested row =
    StateColumns row.state row.grant_id row.expected_boundary_manifest_hash
      row.boundary_manifest_hash

Edge-StateColumns :
    {from to : ContinuationState}
    → Edge from to
    → (g e b : Option ℕ) → StateColumns from g e b
    → StateColumns to g e b
Edge-StateColumns rebuild g e b h = h
Edge-StateColumns complete g e b h = h
Edge-StateColumns expire g e b h = h
Edge-StateColumns deny g e b h = h
Edge-StateColumns not_delivered g e b h = h

Failure-StateColumns :
    {from to : ContinuationState}
    → Failure from to
    → (g e b : Option ℕ) → StateColumns from g e b
    → StateColumns to g e b
Failure-StateColumns before_rebuild g e b h = h
Failure-StateColumns in_rebuild g e b h = h
Failure-StateColumns in_resume g e b h = h

Move-IsAttested : (a b : ContinuationRow) → Move a b → IsAttested a → IsAttested b
unfolding set_state set_failed set_approval set_approved set_mismatched set_attested
Move-IsAttested a b (advance now to edge e) h = rw e (Edge-StateColumns edge _ _ _ h)
Move-IsAttested a b (fail now error to failure e) h = rw e (Failure-StateColumns failure _ _ _ h)
Move-IsAttested a b (attach now approval state free e) h = rw e h
Move-IsAttested a b (approve now approval state e) h = rw e refl
Move-IsAttested a b (attest now hash state expected real e) h =
    rw e (granted, expected, λ k. cc, λ k. real (only hash k))
  where
    granted : is_some a.grant_id ≡ true
    granted =
        subst
          (λ x.
            StateColumns x a.grant_id a.expected_boundary_manifest_hash a.boundary_manifest_hash)
          state h

    only : (v : ℕ) → some v ≡ some 0 → v ≡ 0
    only v k = ap (λ o. or_else o 0) k
Move-IsAttested a b (refuse now hash state bad e) h = rw e (
    subst
      (λ x. StateColumns x a.grant_id a.expected_boundary_manifest_hash a.boundary_manifest_hash)
      state h)

pub Step-IsAttested : (s t : Store) → Step s t → Every IsAttested s → Every IsAttested t
unfolding new_continuation
Step-IsAttested s t (kept e) h = rw e h
Step-IsAttested s t (added now id hash input fresh e) h =
    rw e (Every-append IsAttested s _ h (refl, refl))
Step-IsAttested s t (moved id a f found move e) h =
    rw e (Every-update_first IsAttested (has_continuation_id id) f s keep h)
  where
    keep :
        (x : ContinuationRow)
        → select_first (has_continuation_id id) s ≡ some x
        → IsAttested x
        → IsAttested (f x)
    keep x k g =
        let same : a ≡ x = cc (found, k) in
        subst (λ y. IsAttested (f y)) same
          (Move-IsAttested a (f a) move (subst IsAttested (sym same) g))

-- In a table that calls of the methods made from an empty one, every continuation that is resuming,
-- completed or failed to resume has a grant and the attested manifest hash that it expected, not
-- empty; one that awaits approval, or ended without it, has neither a grant nor an expected hash;
-- every other one has a grant.
pub run-IsAttested :
    (texts : Texts) (hash : CreateContinuationInput → ℕ) (t : Store)
    → Run texts hash [] t
    → Every IsAttested t
run-IsAttested texts hash t run = along [] t run tt
  where
    along : (r s : Store) → Run texts hash r s → Every IsAttested r → Every IsAttested s
    along r s (start _) h = h
    along r s (after {s = q} now m c _ before e) h =
        Step-IsAttested q s (perform-Step texts hash now m q c s e) (along r q before h)
