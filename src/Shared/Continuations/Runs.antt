-- ===== src/Shared/Continuations/Runs.antt =====
-- src/shared/continuation-store.ts: the calls of a store's methods one after another, and what they
-- keep of a continuation.
use aicoo_local_agent.Common.{ℕ, ◌≡◌}
use aicoo_local_agent.Common.Attempts.{returned}
use aicoo_local_agent.Shared.Continuations.{
  ContinuationCheckpoint, CreateContinuationInput, Store, Call, Texts, ContinuationApproval, create,
  attach_approval, mark_activation_failed, mark_resume_failed, mark_approved, mark_rebuilding,
  mark_completed, mark_approval_expired, mark_denied, mark_approval_delivery_failed, mark_attested,
  mark_resuming,
}
use aicoo_local_agent.Shared.Continuations.Steps.{
  transition-Step, mark_approved-Step, mark_attested-Step, mark_resuming-Step,
  mark_activation_failed-Step, mark_resume_failed-Step, attach_approval-Step, create-Step,
}
use aicoo_local_agent.Shared.Continuations.Graph.{Edge, Step}

-- The methods of the store that write, with their arguments.
pub data Method : Type 0 where
  create_one : (id : ℕ) → CreateContinuationInput → Method
  attach_one : (id approval : ℕ) → Method
  approve_one : (id : ℕ) → ContinuationApproval → Method
  rebuild_one complete_one expire_one deny_one undeliverable_one resume_one : ℕ → Method
  attest_one fail_activation fail_resume : (id value : ℕ) → Method

module _ (texts : Texts) (hash : CreateContinuationInput → ℕ) where
  unfoldable pub perform : ℕ → Method → Store → Call
  unfolding create attach_approval mark_approved mark_rebuilding mark_completed
      mark_approval_expired mark_denied mark_approval_delivery_failed mark_resuming mark_attested
      mark_activation_failed mark_resume_failed
  perform now (Method.create_one id input) s = create texts hash now id input s
  perform now (Method.attach_one id approval) s = attach_approval texts now id approval s
  perform now (Method.approve_one id approval) s = mark_approved now id approval s
  perform now (Method.rebuild_one id) s = mark_rebuilding now id s
  perform now (Method.complete_one id) s = mark_completed now id s
  perform now (Method.expire_one id) s = mark_approval_expired now id s
  perform now (Method.deny_one id) s = mark_denied now id s
  perform now (Method.undeliverable_one id) s = mark_approval_delivery_failed now id s
  perform now (Method.resume_one id) s = mark_resuming id s
  perform now (Method.attest_one id value) s = mark_attested now id value s
  perform now (Method.fail_activation id error) s = mark_activation_failed texts now id error s
  perform now (Method.fail_resume id error) s = mark_resume_failed texts now id error s

  -- A method that returns has made a step of the state graph: it left the table as it was, added a
  -- continuation that awaits approval under an idempotency key that no row had, or moved the row of
  -- its identifier along an edge. A row comes to resuming only from rebuilding, with the attested
  -- manifest hash equal to the expected one and not empty.
  pub perform-Step :
      (now : ℕ) (m : Method) (s : Store) (c : ContinuationCheckpoint) (t : Store)
      → perform now m s ≡ returned (c, t)
      → Step s t
  unfolding perform mark_rebuilding mark_completed mark_approval_expired mark_denied
      mark_approval_delivery_failed
  perform-Step now (create_one id input) s c t h = create-Step texts now id s c t hash input h
  perform-Step now (attach_one id approval) s c t h =
      attach_approval-Step texts now id s c t approval h
  perform-Step now (approve_one id approval) s c t h = mark_approved-Step now id s c t approval h
  perform-Step now (rebuild_one id) s c t h = transition-Step now id s c t _ _ Edge.rebuild h
  perform-Step now (complete_one id) s c t h = transition-Step now id s c t _ _ Edge.complete h
  perform-Step now (expire_one id) s c t h = transition-Step now id s c t _ _ Edge.expire h
  perform-Step now (deny_one id) s c t h = transition-Step now id s c t _ _ Edge.deny h
  perform-Step now (undeliverable_one id) s c t h =
      transition-Step now id s c t _ _ Edge.not_delivered h
  perform-Step now (resume_one id) s c t h = mark_resuming-Step now id s c t h
  perform-Step now (attest_one id value) s c t h = mark_attested-Step now id s c t value h
  perform-Step now (fail_activation id error) s c t h =
      mark_activation_failed-Step texts now id s c t error h
  perform-Step now (fail_resume id error) s c t h =
      mark_resume_failed-Step texts now id s c t error h

  -- Calls that returned, one after another; a call that throws leaves the table.
  pub data Run : Store → Store → Type 0 where
    start : (s : Store) → Run s s
    after :
        {r s : Store} (now : ℕ) (m : Method) (c : ContinuationCheckpoint) (t : Store)
        → Run r s
        → perform now m s ≡ returned (c, t)
        → Run r t
