-- ===== src/Shared/Continuations/Rebuild/Progress.antt =====
-- `execute` in src/shared/session-rebuild.ts, where nothing else writes the table: what it ends in.
use aicoo_local_agent.Common.{
  ℕ, ◌≡◌, refl, ap, ◌∙◌, inl, inr, Bool, true, false, Option, none, some, Bool-cases, Option-cases,
  select_first, update_first,
}
use aicoo_local_agent.Shared.Continuations.{
  ContinuationState, same_state, ContinuationCheckpoint, ContinuationRow, Store, Texts, is_terminal,
  is_recoverable, from_row, find, has_continuation_id, mark_rebuilding, set_state, mark_attested,
  write, is_mismatch, set_mismatched, set_attested,
}
use aicoo_local_agent.Shared.Continuations.Rebuild.{
  SessionRebuildOperations, settle, settle_or, session_quiesce_failed, session_launch_failed,
  continuation_injection_failed, resumed, resume_stage, attested, rebuilt, quiesced, run_stages,
  rebuilding, execute_from, execute_at, execute,
}
use aicoo_local_agent.Shared.Continuations.Rebuild.Writing.{
  Settled, CodesFit, select_first-updated, at_found, mark_rebuilding_lem, find-written, write_lem,
  activation-Settled, resumption-Settled, mark_resuming_lem, mark_attested_lem,
}

-- Nothing else writes the table while an operation is awaited.
pub record LeavesTable (ops : SessionRebuildOperations) : Type 0 where
  pub in_quiesce : (c : ContinuationCheckpoint) (s : Store) → (ops.quiesce c s).1 ≡ s
  pub in_rebuild_and_attest :
      (c : ContinuationCheckpoint) (s : Store) → (ops.rebuild_and_attest c s).1 ≡ s
  pub in_resume : (c : ContinuationCheckpoint) (s : Store) → (ops.resume c s).1 ≡ s

module _ (texts : Texts) (ops : SessionRebuildOperations) (quiet : LeavesTable ops)
    (codes : CodesFit texts) (now id : ℕ) where
  resumed-Settled :
      (q : Bool × Store) (a : ContinuationRow)
      → select_first (has_continuation_id id) q.1 ≡ some a
      → a.state ≡ ContinuationState.resuming
      → Settled id (resumed texts ops now id q)
  unfolding resumed settle_or settle from_row find
  resumed-Settled (true, s) a found state =
      rw (mark_resuming_lem texts now id s a found state, settle_or)
        (from_row a, refl, rw (found, find) refl, rw state refl)
  resumed-Settled (false, s) a found state =
      resumption-Settled texts now id s a found continuation_injection_failed codes.2 state

  resume_stage-Settled :
      (s : Store) (a : ContinuationRow)
      → select_first (has_continuation_id id) s ≡ some a
      → a.state ≡ ContinuationState.resuming
      → Settled id (resume_stage texts ops now id (from_row a) s)
  unfolding resume_stage
  resume_stage-Settled s a found state =
      resumed-Settled (ops.resume (from_row a) s) a (rw (quiet.in_resume (from_row a) s) found)
        state

  attested-Settled :
      (hash : ℕ) (s : Store) (a : ContinuationRow)
      → select_first (has_continuation_id id) s ≡ some a
      → a.state ≡ ContinuationState.rebuilding_session
      → Settled id (attested texts ops now id (mark_attested now id hash s) s)
  unfolding attested set_mismatched set_attested from_row
  attested-Settled hash s a found state =
      elim (Bool-cases (is_mismatch (from_row a).expected_boundary_manifest_hash hash)) [
        | inl bad ↦
            rw
              (
                mark_attested_lem texts now id s a found hash state,
                bad,
                write_lem id (set_mismatched now hash) s a (λ r. refl) found,
                attested,
              )
              (
                from_row (set_mismatched now hash a),
                refl,
                find-written id (set_mismatched now hash) s a (λ r. refl) found,
                refl,
              )
        | inr good ↦
            rw
              (
                mark_attested_lem texts now id s a found hash state,
                good,
                write_lem id (set_attested now hash) s a (λ r. refl) found,
                attested,
              )
              (resume_stage-Settled
                (update_first (has_continuation_id id) (set_attested now hash) s)
                (set_attested now hash a)
                (select_first-updated id (set_attested now hash) s a (λ r. refl) found) refl)
      ]

  rebuilt-Settled :
      (q : Option ℕ × Store) (a : ContinuationRow)
      → select_first (has_continuation_id id) q.1 ≡ some a
      → a.state ≡ ContinuationState.rebuilding_session
      → Settled id (rebuilt texts ops now id q)
  unfolding rebuilt
  rebuilt-Settled (none, s) a found state =
      activation-Settled texts now id s a found session_launch_failed codes.1 state
  rebuilt-Settled (some hash, s) a found state = attested-Settled hash s a found state

  quiesced-Settled :
      (c : ContinuationCheckpoint) (q : Bool × Store) (a : ContinuationRow)
      → select_first (has_continuation_id id) q.1 ≡ some a
      → a.state ≡ ContinuationState.rebuilding_session
      → Settled id (quiesced texts ops now id c q)
  unfolding quiesced
  quiesced-Settled c (false, s) a found state =
      activation-Settled texts now id s a found session_quiesce_failed codes.0 state
  quiesced-Settled c (true, s) a found state =
      rebuilt-Settled (ops.rebuild_and_attest c s) a (rw (quiet.in_rebuild_and_attest c s) found)
        state

  stages-Settled :
      (s : Store) (a : ContinuationRow)
      → select_first (has_continuation_id id) s ≡ some a
      → a.state ≡ ContinuationState.rebuilding_session
      → Settled id (run_stages texts ops now id (from_row a) s)
  unfolding run_stages from_row
  stages-Settled s a found state =
      let same : same_state a.state ContinuationState.rebuilding_session ≡ true =
        ap (λ x. same_state x ContinuationState.rebuilding_session) state in
      rw (same) (
        quiesced-Settled (from_row a) (ops.quiesce (from_row a) s) a
          (rw (quiet.in_quiesce (from_row a) s) found) state)

  resuming-Settled :
      (s : Store) (a : ContinuationRow)
      → select_first (has_continuation_id id) s ≡ some a
      → a.state ≡ ContinuationState.resuming
      → Settled id (run_stages texts ops now id (from_row a) s)
  unfolding run_stages from_row
  resuming-Settled s a found state =
      let later : same_state a.state ContinuationState.rebuilding_session ≡ false =
        ap (λ x. same_state x ContinuationState.rebuilding_session) state in
      let same : same_state a.state ContinuationState.resuming ≡ true =
        ap (λ x. same_state x ContinuationState.resuming) state in
      rw (later, same) (resume_stage-Settled s a found state)

  -- `markRebuilding` of an approved continuation, and the stages after it.
  approved-Settled :
      (s : Store) (a : ContinuationRow)
      → select_first (has_continuation_id id) s ≡ some a
      → a.state ≡ ContinuationState.approved_pending_activation
      → Settled id (rebuilding texts ops now id (mark_rebuilding now id s) s)
  unfolding rebuilding set_state
  approved-Settled s a found state =
      rw
        (
          marked,
          write_lem id (set_state now ContinuationState.rebuilding_session) s a (λ r. refl) found,
          rebuilding,
        )
        (stages-Settled
          (update_first (has_continuation_id id)
            (set_state now ContinuationState.rebuilding_session) s)
          (set_state now ContinuationState.rebuilding_session a)
          (select_first-updated id (set_state now ContinuationState.rebuilding_session) s a
            (λ r. refl) found)
          refl)
    where
      marked :
          mark_rebuilding now id s ≡ write id (set_state now ContinuationState.rebuilding_session) s
      marked = mark_rebuilding_lem now id s a found state

  execute_from-Settled :
      (s : Store) (a : ContinuationRow) (state : ContinuationState)
      → select_first (has_continuation_id id) s ≡ some a
      → a.state ≡ state
      → is_recoverable state ≡ true
      → Settled id (execute_from texts ops now id (from_row a) s)
  unfolding execute_from from_row
  execute_from-Settled s a ContinuationState.approved_pending_activation found e live =
      rw (ap is_terminal e, ap (λ x. same_state x ContinuationState.approved_pending_activation) e)
        (approved-Settled s a found e)
  execute_from-Settled s a ContinuationState.rebuilding_session found e live =
      rw (ap is_terminal e, ap (λ x. same_state x ContinuationState.approved_pending_activation) e)
        (stages-Settled s a found e)
  execute_from-Settled s a ContinuationState.resuming found e live =
      rw (ap is_terminal e, ap (λ x. same_state x ContinuationState.approved_pending_activation) e)
        (resuming-Settled s a found e)
  execute_from-Settled s a ContinuationState.awaiting_approval found e live = cc
  execute_from-Settled s a ContinuationState.completed found e live = cc
  execute_from-Settled s a ContinuationState.denied found e live = cc
  execute_from-Settled s a ContinuationState.approval_expired found e live = cc
  execute_from-Settled s a ContinuationState.approval_delivery_failed found e live = cc
  execute_from-Settled s a ContinuationState.activation_failed found e live = cc
  execute_from-Settled s a ContinuationState.resume_failed found e live = cc

-- If nothing else writes the table while an operation is awaited, and the protocol's error codes are
-- acceptable, then `execute` of a continuation that is approved, rebuilding or resuming returns, with
-- the continuation as the table then has it, and that is resuming, or failed to activate or to resume.
pub execute-Settled :
    (texts : Texts) (ops : SessionRebuildOperations)
    → LeavesTable ops
    → CodesFit texts
    → (now id : ℕ) (s : Store) (c : ContinuationCheckpoint) → find id s ≡ some c
    → is_recoverable c.state ≡ true
    → Settled id (execute texts ops now id s)
unfolding execute execute_at execute_from find
execute-Settled texts ops quiet codes now id s c found live =
    elim (Option-cases (select_first (has_continuation_id id) s)) [
      | inl missing ↦ cc (rw (missing, find) at found)
      | inr (a, e) ↦
          let same : some (from_row a) ≡ some c = rw (e, find) at found in
          let live_row : is_recoverable a.state ≡ true =
            ap (λ (o : Option ContinuationCheckpoint). live_in o) same ∙ live in
          rw (at_found id s a e, execute, execute_at)
            (execute_from-Settled texts ops quiet codes now id s a a.state e refl live_row)
    ]
  where
    live_in : Option ContinuationCheckpoint → Bool
    live_in none = false
    live_in (some d) = is_recoverable d.state
