-- ===== src/Shared/Continuations/Rebuild/Writing.antt =====
-- What the writes of src/shared/continuation-store.ts give where the row is there, as the protocol of
-- src/shared/session-rebuild.ts meets them.
use aicoo_local_agent.Common.{
  ℕ, ◌≡◌, refl, ap, inl, inr, List, [], ◌∷◌, Bool, true, false, ◌==◌, Option, none, some,
  Bool-cases, if◌then◌else◌, select_first, update_first,
}
use aicoo_local_agent.Common.Attempts.{returned}
use aicoo_local_agent.Shared.Continuations.{
  ContinuationState, same_state, ContinuationCheckpoint, ContinuationRow, Store, Call, Texts,
  from_row, find, has_continuation_id, require_continuation, require_state, mark_rebuilding,
  transition, transition_from, set_state, mark_attested, attest_from, write, is_mismatch,
  set_mismatched, set_attested, set_failed, fail_transition, fail_from, one_of, fits,
  mark_activation_failed, mark_resume_failed, mark_resuming,
}
use aicoo_local_agent.Shared.Continuations.Rebuild.{
  Ran, settle, session_quiesce_failed, session_launch_failed, continuation_injection_failed,
}

-- Where the rebuild protocol stops.
abbrev pub is_settled : ContinuationState → Bool
is_settled ContinuationState.resuming = true
is_settled ContinuationState.activation_failed = true
is_settled ContinuationState.resume_failed = true
is_settled _ = false

-- The promise is fulfilled, with the continuation as the table then has it, settled.
abbrev pub Settled : ℕ → Ran → Type 0
Settled id r =
    (d : ContinuationCheckpoint) × (r.0 ≡ returned d)
    × (find id r.1 ≡ some d)
    × (is_settled d.state ≡ true)

-- The codes of the protocol's three errors are accepted as error codes.
abbrev pub CodesFit : Texts → Type 0
CodesFit texts =
    (fits texts session_quiesce_failed 256 ≡ true)
    × (fits texts session_launch_failed 256 ≡ true)
    × (fits texts continuation_injection_failed 256 ≡ true)

pub select_first-updated :
    (id : ℕ) (f : ContinuationRow → ContinuationRow) (s : Store) (a : ContinuationRow)
    → ((r : ContinuationRow) → (f r).continuation_id ≡ r.continuation_id)
    → select_first (has_continuation_id id) s ≡ some a
    → select_first (has_continuation_id id) (update_first (has_continuation_id id) f s) ≡ some (f a)
unfolding select_first update_first
select_first-updated id f [] a keep h = cc
select_first-updated id f (x ∷ xs) a keep h = elim (Bool-cases (x.continuation_id == id)) [
  | inl hit ↦
      let same : some x ≡ some a = rw hit at h in
      let still : ((f x).continuation_id == id) ≡ true = rw (keep x) hit in
      rw (hit, still)
        (ap (λ (o : Option ContinuationRow). elim o [ none ↦ none | some r ↦ some (f r) ]) same)
  | inr miss ↦ rw (miss, miss) (select_first-updated id f xs a keep (rw miss at h))
]

module _ (id : ℕ) (f : ContinuationRow → ContinuationRow) (s : Store) (a : ContinuationRow)
    (keep : (r : ContinuationRow) → (f r).continuation_id ≡ r.continuation_id)
    (found : select_first (has_continuation_id id) s ≡ some a) where
  pub find-written : find id (update_first (has_continuation_id id) f s) ≡ some (from_row (f a))
  unfolding find
  find-written = rw (select_first-updated id f s a keep found, find) refl

  pub write_lem :
      write id f s ≡ returned (from_row (f a), update_first (has_continuation_id id) f s)
  unfolding write require_continuation
  write_lem = rw (find-written, write, require_continuation) refl

pub at_found :
    (id : ℕ) (s : Store) (a : ContinuationRow)
    → select_first (has_continuation_id id) s ≡ some a
    → require_continuation id s ≡ returned (from_row a)
unfolding require_continuation find
at_found id s a found = rw (found, require_continuation, find) refl

pub written-Settled :
    (id : ℕ) (f : ContinuationRow → ContinuationRow) (s : Store) (a : ContinuationRow) (k : Call)
    → ((r : ContinuationRow) → (f r).continuation_id ≡ r.continuation_id)
    → select_first (has_continuation_id id) s ≡ some a
    → is_settled (f a).state ≡ true
    → k ≡ write id f s
    → Settled id (settle k s)
unfolding settle from_row
written-Settled id f s a k keep found good e =
    rw (e, write_lem id f s a keep found)
      (from_row (f a), refl, find-written id f s a keep found, good)

module _ (texts : Texts) (now id : ℕ) (s : Store) (a : ContinuationRow)
    (found : select_first (has_continuation_id id) s ≡ some a) where
  pub failed-Settled :
      (from : List ContinuationState) (to : ContinuationState) (error : ℕ)
      → fits texts error 256 ≡ true
      → same_state a.state to ≡ false
      → one_of from a.state ≡ true
      → is_settled to ≡ true
      → Settled id (settle (fail_transition texts now id from to error s) s)
  unfolding fail_transition fail_from set_failed from_row
  failed-Settled from to error fit other allowed good =
      written-Settled id (set_failed now to error) s a _ (λ r. refl) found good
        (rw (fit, at_found id s a found, fail_from, other, allowed) refl)

  pub activation-Settled :
      (error : ℕ)
      → fits texts error 256 ≡ true
      → a.state ≡ ContinuationState.rebuilding_session
      → Settled id (settle (mark_activation_failed texts now id error s) s)
  unfolding mark_activation_failed
  activation-Settled error fit state =
      failed-Settled
        (ContinuationState.approved_pending_activation ∷ ContinuationState.rebuilding_session ∷ [])
        ContinuationState.activation_failed error fit (rw state refl) (rw state refl) refl

  pub resumption-Settled :
      (error : ℕ)
      → fits texts error 256 ≡ true
      → a.state ≡ ContinuationState.resuming
      → Settled id (settle (mark_resume_failed texts now id error s) s)
  unfolding mark_resume_failed
  resumption-Settled error fit state =
      failed-Settled (ContinuationState.resuming ∷ []) ContinuationState.resume_failed error fit
        (rw state refl) (rw state refl) refl

  pub mark_resuming_lem :
      a.state ≡ ContinuationState.resuming → mark_resuming id s ≡ returned (from_row a, s)
  unfolding mark_resuming from_row
  mark_resuming_lem state = rw (at_found id s a found, state) refl

  pub mark_attested_lem :
      (hash : ℕ)
      → a.state ≡ ContinuationState.rebuilding_session
      → mark_attested now id hash s
        ≡ write id
            (if is_mismatch (from_row a).expected_boundary_manifest_hash hash
              then set_mismatched now hash
              else set_attested now hash)
            s
  unfolding mark_attested attest_from require_state
  mark_attested_lem hash state =
      let early : same_state a.state ContinuationState.resuming ≡ false =
        ap (λ x. same_state x ContinuationState.resuming) state in
      let ready : same_state a.state ContinuationState.rebuilding_session ≡ true =
        ap (λ x. same_state x ContinuationState.rebuilding_session) state in
      rw (at_found id s a found, attest_from, early, ready) refl

pub mark_rebuilding_lem :
    (now id : ℕ) (s : Store) (a : ContinuationRow)
    → select_first (has_continuation_id id) s ≡ some a
    → a.state ≡ ContinuationState.approved_pending_activation
    → mark_rebuilding now id s ≡ write id (set_state now ContinuationState.rebuilding_session) s
unfolding mark_rebuilding transition transition_from require_state from_row
mark_rebuilding_lem now id s a found state =
    let early : same_state a.state ContinuationState.rebuilding_session ≡ false =
      ap (λ x. same_state x ContinuationState.rebuilding_session) state in
    let ready : same_state a.state ContinuationState.approved_pending_activation ≡ true =
      ap (λ x. same_state x ContinuationState.approved_pending_activation) state in
    rw (at_found id s a found, transition_from, early, ready) refl
