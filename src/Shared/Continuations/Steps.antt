-- ===== src/Shared/Continuations/Steps.antt =====
-- src/shared/continuation-store.ts: each method that writes makes a step of the state graph.
use aicoo_local_agent.Common.{
  ℕ, ◌≡◌, ◌≢◌, refl, sym, subst, ap, inl, inr, List, [], ◌∷◌, ◌++◌, true, false, ◌&&◌, Option, none,
  some, arith, Bool-cases, ◌==◌, column_is, truthy, or_else,
}
use aicoo_local_agent.Common.Attempts.{returned, ◌>>◌, >>=-eq-returned, ensure-eq-returned}
use aicoo_local_agent.Shared.Continuations.{
  ContinuationState, same_state, ContinuationCheckpoint, CreateContinuationInput, ContinuationRow,
  Store, Texts, from_row, require_continuation, row_for_idempotency_key, require_state, set_state,
  set_failed, set_approval, set_approved, set_mismatched, set_attested, ContinuationApproval,
  new_continuation, validate_input, create_row, create, attach_to, attach_approval, fits, one_of,
  fail_from, fail_transition, mark_activation_failed, mark_resume_failed, same_approval,
  approve_from, mark_approved, transition_from, transition, is_mismatch, attest_from, mark_attested,
  mark_resuming, text_column,
}
use aicoo_local_agent.Shared.Continuations.Graph.{
  Edge, Failure, Move, Step, second, write-Step, at_row, in_state,
}

attested_lem :
    (e : Option ℕ) (hash : ℕ)
    → is_mismatch (text_column e) hash ≡ false
    → (e ≡ some hash) × (hash ≢ 0)
attested_lem none hash h = (ground arith, ground arith)
attested_lem (some v) hash h = (ground arith, ground arith)

refused_lem :
    (e : Option ℕ) (hash : ℕ)
    → is_mismatch (text_column e) hash ≡ true
    → ¬ ((e ≡ some hash) × (hash ≢ 0))
refused_lem none hash h (k, n) = cc
refused_lem (some v) hash h (k, n) =
    let same : v ≡ hash = ap (λ o. or_else o 0) k in ground (arith, n)

module _ (now id : ℕ) (s : Store) (c : ContinuationCheckpoint) (t : Store) where
  pub transition-Step :
      (from to : ContinuationState)
      → Edge from to
      → transition now id from to s ≡ returned (c, t)
      → Step s t
  unfolding transition transition_from
  transition-Step from to edge h =
      let (a, found, e) =
        at_row id s (λ current. transition_from now id from to current s) {r = (c, t)} h in
      elim (Bool-cases (same_state a.state to)) [
        | inl same ↦ Step.kept (second (rw (same, transition_from) at e))
        | inr other ↦
            let (state, e2) = in_state a from _ {r = (c, t)} (rw (other, transition_from) at e) in
            write-Step id (set_state now to) s a c t found
              (Move.advance now to (subst (λ x. Edge x to) (sym state) edge) refl) e2
      ]

  pub mark_approved-Step :
      (approval : ContinuationApproval)
      → mark_approved now id approval s ≡ returned (c, t)
      → Step s t
  unfolding mark_approved approve_from
  mark_approved-Step approval h =
      let (a, found, e) =
        at_row id s (λ current. approve_from now id approval current s) {r = (c, t)} h in
      elim (Bool-cases (same_state a.state ContinuationState.approved_pending_activation)) [
        | inl before ↦ elim (Bool-cases (same_approval (from_row a) approval)) [
          | inl same ↦ Step.kept (second (rw (before, same, approve_from) at e))
          | inr other ↦ cc (rw (before, other, approve_from) at e)
        ]
        | inr other ↦
            let (state, e2) =
              in_state a ContinuationState.awaiting_approval _ {r = (c, t)}
                (rw (other, approve_from) at e) in
            write-Step id (set_approved now approval) s a c t found
              (Move.approve now approval state refl) e2
      ]

  pub mark_attested-Step : (hash : ℕ) → mark_attested now id hash s ≡ returned (c, t) → Step s t
  unfolding mark_attested attest_from
  mark_attested-Step hash h =
      let (a, found, e) =
        at_row id s (λ current. attest_from now id hash current s) {r = (c, t)} h in
      elim (Bool-cases (
        same_state a.state ContinuationState.resuming
        && column_is (from_row a).boundary_manifest_hash hash)) [
          | inl before ↦ Step.kept (second (rw (before, attest_from) at e))
          | inr other ↦
              let (state, e2) =
                in_state a ContinuationState.rebuilding_session _ {r = (c, t)}
                  (rw (other, attest_from) at e) in
              elim (Bool-cases (is_mismatch (from_row a).expected_boundary_manifest_hash hash)) [
                | inl bad ↦
                    write-Step id (set_mismatched now hash) s a c t found
                      (Move.refuse now hash state
                        (refused_lem a.expected_boundary_manifest_hash hash bad) refl)
                      (rw bad at e2)
                | inr good ↦
                    write-Step id (set_attested now hash) s a c t found
                      (Move.attest now hash state
                        (attested_lem a.expected_boundary_manifest_hash hash good).0
                        (attested_lem a.expected_boundary_manifest_hash hash good).1 refl)
                      (rw good at e2)
              ]
        ]

  pub mark_resuming-Step : mark_resuming id s ≡ returned (c, t) → Step s t
  unfolding mark_resuming
  mark_resuming-Step h =
      let (a, found, e) = at_row id s _ {r = (c, t)} h in
      elim (Bool-cases (same_state a.state ContinuationState.resuming)) [
        | inl same ↦ Step.kept (second (rw same at e))
        | inr other ↦ cc (rw other at e)
      ]

module _ (texts : Texts) (now id : ℕ) (s : Store) (c : ContinuationCheckpoint) (t : Store) where
  fail_transition-Step :
      (from : List ContinuationState) (to : ContinuationState) (error : ℕ)
      → ((a : ContinuationState) → one_of from a ≡ true → Failure a to)
      → fail_transition texts now id from to error s ≡ returned (c, t)
      → Step s t
  unfolding fail_transition fail_from
  fail_transition-Step from to error fails h =
      let (_, h1) = ensure-eq-returned (fits texts error 256) _ _ {b = (c, t)} h in
      let (a, found, e) =
        at_row id s (λ current. fail_from texts now id from to error current s) {r = (c, t)} h1 in
      elim (Bool-cases (same_state a.state to && column_is (from_row a).error_code error)) [
        | inl before ↦ Step.kept (second (rw (before, fail_from) at e))
        | inr other ↦ elim (Bool-cases (one_of from a.state)) [
          | inl allowed ↦
              write-Step id (set_failed now to error) s a c t found
                (Move.fail now error to (fails a.state allowed) refl)
                (rw (other, allowed, fail_from) at e)
          | inr barred ↦ cc (rw (other, barred, fail_from) at e)
        ]
      ]

  pub mark_activation_failed-Step :
      (error : ℕ) → mark_activation_failed texts now id error s ≡ returned (c, t) → Step s t
  unfolding mark_activation_failed
  mark_activation_failed-Step error h =
      fail_transition-Step
        (ContinuationState.approved_pending_activation ∷ ContinuationState.rebuilding_session ∷ [])
        _ error fails h
    where
      fails :
          (a : ContinuationState)
          → one_of
              (ContinuationState.approved_pending_activation ∷ ContinuationState.rebuilding_session
                ∷ [])
              a
            ≡ true
          → Failure a ContinuationState.activation_failed
      fails ContinuationState.approved_pending_activation _ = Failure.before_rebuild
      fails ContinuationState.rebuilding_session _ = Failure.in_rebuild
      fails ContinuationState.awaiting_approval k = cc
      fails ContinuationState.resuming k = cc
      fails ContinuationState.completed k = cc
      fails ContinuationState.denied k = cc
      fails ContinuationState.approval_expired k = cc
      fails ContinuationState.approval_delivery_failed k = cc
      fails ContinuationState.activation_failed k = cc
      fails ContinuationState.resume_failed k = cc

  pub mark_resume_failed-Step :
      (error : ℕ) → mark_resume_failed texts now id error s ≡ returned (c, t) → Step s t
  unfolding mark_resume_failed
  mark_resume_failed-Step error h =
      fail_transition-Step (ContinuationState.resuming ∷ []) _ error fails h
    where
      fails :
          (a : ContinuationState)
          → one_of (ContinuationState.resuming ∷ []) a ≡ true
          → Failure a ContinuationState.resume_failed
      fails ContinuationState.resuming _ = Failure.in_resume
      fails ContinuationState.approved_pending_activation k = cc
      fails ContinuationState.rebuilding_session k = cc
      fails ContinuationState.awaiting_approval k = cc
      fails ContinuationState.completed k = cc
      fails ContinuationState.denied k = cc
      fails ContinuationState.approval_expired k = cc
      fails ContinuationState.approval_delivery_failed k = cc
      fails ContinuationState.activation_failed k = cc
      fails ContinuationState.resume_failed k = cc

  pub attach_approval-Step :
      (approval : ℕ) → attach_approval texts now id approval s ≡ returned (c, t) → Step s t
  unfolding attach_approval attach_to
  attach_approval-Step approval h =
      let (_, h1) = ensure-eq-returned (fits texts approval 512) _ _ {b = (c, t)} h in
      let (a, found, e) =
        at_row id s
          (λ current.
            require_state current ContinuationState.awaiting_approval
            >> attach_to texts now id approval current s)
          {r = (c, t)} h1 in
      let (state, e2) = in_state a ContinuationState.awaiting_approval _ {r = (c, t)} e in
      elim (Bool-cases (column_is (from_row a).approval_id approval)) [
        | inl before ↦ Step.kept (second (rw (before, attach_to) at e2))
        | inr other ↦ elim (Bool-cases (truthy (from_row a).approval_id)) [
          | inl taken ↦ cc (rw (other, taken, attach_to) at e2)
          | inr free ↦
              write-Step id (set_approval now approval) s a c t found
                (Move.attach now approval state (untruthy a.approval_id free) refl)
                (rw (other, free, attach_to) at e2)
        ]
      ]
    where
      untruthy : (o : Option ℕ) → truthy (text_column o) ≡ false → truthy o ≡ false
      untruthy o k = elim (Bool-cases (truthy o)) [ inl y ↦ cc (rw y at k) | inr n ↦ n ]

  pub create-Step :
      (hash : CreateContinuationInput → ℕ) (input : CreateContinuationInput)
      → create texts hash now id input s ≡ returned (c, t)
      → Step s t
  unfolding create create_row
  create-Step hash input h =
      let (_, _, e) =
        >>=-eq-returned (validate_input texts input)
          (λ _.
            create_row texts now id (hash input) input
              (row_for_idempotency_key input.idempotency_key s) s)
          {b = (c, t)} h in
      inserted (row_for_idempotency_key input.idempotency_key s) refl e
    where
      inserted :
          (o : Option ContinuationRow)
          → row_for_idempotency_key input.idempotency_key s ≡ o
          → create_row texts now id (hash input) input o s ≡ returned (c, t)
          → Step s t
      inserted (some row) e k = elim (Bool-cases (row.request_hash == hash input)) [
        | inl same ↦ Step.kept (second (rw (same, create_row) at k))
        | inr other ↦ cc (rw (other, create_row) at k)
      ]
      inserted none e k =
          let table = s ++ new_continuation now id (hash input) input ∷ [] in
          let (_, _, same) =
            >>=-eq-returned (require_continuation id table) (λ current. returned (current, table))
              {b = (c, t)} k in
          Step.added now id (hash input) input e (second same)
