-- ===== src/Shared/Continuations/Rebuild.antt =====
-- src/shared/session-rebuild.ts: the protocol that takes an approved continuation to a resumed one.
-- The runtime's operations are parameters; while one is awaited, other calls may change the table,
-- so each of them takes the table and gives it back.
pub mod Attestation
pub mod Writing
pub mod Progress
use aicoo_local_agent.Common.{ℕ, Bool, true, false, Option, none, some, if◌then◌else◌}
use aicoo_local_agent.Common.Attempts.{Attempt, returned, thrown}
use aicoo_local_agent.Shared.Continuations.{
  ContinuationState, same_state, ContinuationCheckpoint, Store, ContinuationError, Call, Texts,
  is_terminal, require_continuation, mark_rebuilding, mark_attested, mark_resuming, mark_completed,
  mark_activation_failed, mark_resume_failed,
}

-- What the runtime does: true, or a manifest, where the promise is fulfilled.
pub record SessionRebuildOperations : Type 0 where
  pub quiesce : ContinuationCheckpoint → Store → Bool × Store
  pub rebuild_and_attest : ContinuationCheckpoint → Store → Option ℕ × Store
  pub resume : ContinuationCheckpoint → Store → Bool × Store

-- What a promise of a checkpoint comes to, and the table then.
abbrev pub Ran : Type 0
Ran = Attempt ContinuationError ContinuationCheckpoint × Store

-- A call at a table, which it leaves where it throws.
unfoldable pub settle : Call → Store → Ran
settle (returned (c, t)) s = (returned c, t)
settle (thrown e) s = (thrown e, s)

-- `try { return first } catch { return other }`
unfoldable pub settle_or : Call → Call → Store → Ran
unfolding settle
settle_or (returned (c, t)) other s = (returned c, t)
settle_or (thrown e) other s = settle other s

-- The codes of 'session_quiesce_failed', 'session_launch_failed' and 'continuation_injection_failed'.
abbrev pub session_quiesce_failed : ℕ
session_quiesce_failed = 2

abbrev pub session_launch_failed : ℕ
session_launch_failed = 3

abbrev pub continuation_injection_failed : ℕ
continuation_injection_failed = 4

module _ (texts : Texts) (operations : SessionRebuildOperations) (now id : ℕ) where
  unfoldable pub resumed : Bool × Store → Ran
  unfolding settle settle_or mark_resuming mark_resume_failed
  resumed (true, s) =
      settle_or (mark_resuming id s)
        (mark_resume_failed texts now id continuation_injection_failed s) s
  resumed (false, s) = settle (mark_resume_failed texts now id continuation_injection_failed s) s

  -- `checkpoint.state === "resuming"`
  unfoldable pub resume_stage : ContinuationCheckpoint → Store → Ran
  unfolding resumed
  resume_stage c s = resumed (operations.resume c s)

  unfoldable pub attested : Call → Store → Ran
  unfolding settle resume_stage mark_activation_failed
  attested (thrown e) s = settle (mark_activation_failed texts now id session_launch_failed s) s
  attested (returned (c, t)) s =
      if same_state c.state ContinuationState.resuming then resume_stage c t else (returned c, t)

  unfoldable pub rebuilt : Option ℕ × Store → Ran
  unfolding settle attested mark_attested mark_activation_failed
  rebuilt (none, s) = settle (mark_activation_failed texts now id session_launch_failed s) s
  rebuilt (some manifest, s) = attested (mark_attested now id manifest s) s

  unfoldable pub quiesced : ContinuationCheckpoint → Bool × Store → Ran
  unfolding settle rebuilt mark_activation_failed
  quiesced c (false, s) = settle (mark_activation_failed texts now id session_quiesce_failed s) s
  quiesced c (true, s) = rebuilt (operations.rebuild_and_attest c s)

  unfoldable pub run_stages : ContinuationCheckpoint → Store → Ran
  unfolding quiesced resume_stage
  run_stages c s =
      if same_state c.state ContinuationState.rebuilding_session
      then quiesced c (operations.quiesce c s)
      else if same_state c.state ContinuationState.resuming
      then resume_stage c s
      else (returned c, s)

  unfoldable pub rebuilding : Call → Store → Ran
  unfolding run_stages
  rebuilding (thrown e) s = (thrown e, s)
  rebuilding (returned (c, t)) s = run_stages c t

  unfoldable pub execute_from : ContinuationCheckpoint → Store → Ran
  unfolding rebuilding run_stages mark_rebuilding
  execute_from c s =
      if is_terminal c.state
      then (returned c, s)
      else if same_state c.state ContinuationState.approved_pending_activation
      then rebuilding (mark_rebuilding now id s) s
      else run_stages c s

  unfoldable pub execute_at : Attempt ContinuationError ContinuationCheckpoint → Store → Ran
  unfolding execute_from
  execute_at (thrown e) s = (thrown e, s)
  execute_at (returned c) s = execute_from c s

  unfoldable pub execute : Store → Ran
  unfolding execute_at require_continuation
  execute s = execute_at (require_continuation id s) s

unfoldable pub complete : ℕ → ℕ → Store → Call
unfolding mark_completed
complete now id s = mark_completed now id s
