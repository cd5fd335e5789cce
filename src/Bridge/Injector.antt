-- ===== src/Bridge/Injector.antt =====
-- src/bridge/injector.ts: one round of the injector. What the control plane and the runtime answer
-- is an argument, and a call that throws is `none` or `false`; nothing else runs during a round.
pub mod Acceptance
use aicoo_local_agent.Common.{
  ℕ, List, [], ◌∷◌, Bool, true, false, not, ◌||◌, Option, none, some, leb, ltb, length,
  if◌then◌else◌,
}
use aicoo_local_agent.Bridge.Spool.{
  SpoolStatus, ReportPhase, SpoolMessage, AttemptRow, Spool, get_message, mark_device_acked,
  mark_injecting, mark_result, list_injectable, list_received, record_attempt,
  mark_attempt_reported, list_pending_reports,
}

abbrev pub max_injection_attempts : ℕ
max_injection_attempts = 5

-- The codes that the injector writes itself.
pub record Codes : Type 0 where
  pub max_injection_attempts_exceeded : ℕ
  pub control_plane_unavailable : ℕ
  pub session_not_found : ℕ
  pub runtime_unavailable : ℕ
  pub queued_busy : ℕ
  pub expired_before_ack : ℕ

-- The answer of `validateInjection`.
pub data Validation : Type 0 where
  valid : Validation
  invalid : (reason : ℕ) → Validation

-- The answer of the runtime adapter's `deliverToSession`.
pub data Delivered : Type 0 where
  runtime_acked : (runtime_ack_id : Option ℕ) → Delivered
  queued_busy : Delivered
  runtime_unavailable : Delivered
  refused : (status : ℕ) → Delivered

-- What the bridge's surroundings answer in one round.
pub record Peers : Type 0 where
  pub now : ℕ
  pub codes : Codes
  pub native_handle : ℕ → Option ℕ
  pub attempt_id : ℕ → ℕ
  pub validate : SpoolMessage → Option Validation
  pub device_ack : SpoolMessage → Bool
  pub report : AttemptRow → Bool
  pub deliver : ℕ → SpoolMessage → Option Delivered

module _ (peers : Peers) where
  -- The loop of `ackReceived`.
  unfoldable pub ack_received : List SpoolMessage → Spool → Spool
  ack_received [] s = s
  ack_received (m ∷ ms) s = ack_received ms (
      if leb m.envelope.expires_at peers.now
      then mark_result m.message_id SpoolStatus.blocked (some peers.codes.expired_before_ack) none s
      else if peers.device_ack m
      then mark_device_acked m.message_id s
      else s)

  abbrev is_blocked : SpoolStatus → Bool
  is_blocked SpoolStatus.blocked = true
  is_blocked _ = false

  abbrev is_runtime_ack : ReportPhase → Bool
  is_runtime_ack ReportPhase.runtime_ack = true
  is_runtime_ack _ = false

  -- One round of `flushPendingReports`; `none` is its early `return`.
  unfoldable pub report_valid : AttemptRow → Option Validation → Spool → Option Spool
  report_valid r none s = none
  report_valid r (some (invalid reason)) s = some (
      mark_attempt_reported r.attempt_id
        (mark_result r.message_id SpoolStatus.blocked (some reason) none s))
  report_valid r (some valid) s =
      if peers.report r
      then some (
          if is_runtime_ack r.phase
          then mark_result r.message_id SpoolStatus.injected none r.runtime_ack_id
              (mark_attempt_reported r.attempt_id s)
          else mark_attempt_reported r.attempt_id s)
      else none

  unfoldable pub flush_report : AttemptRow → Option SpoolMessage → Spool → Option Spool
  unfolding report_valid
  flush_report r none s = some (mark_attempt_reported r.attempt_id s)
  flush_report r (some m) s =
      if is_blocked m.status
      then some (mark_attempt_reported r.attempt_id s)
      else report_valid r (peers.validate m) s

  -- The loop of `flushPendingReports`.
  unfoldable pub flush_pending_reports : List AttemptRow → Spool → Spool
  unfolding flush_report
  flush_pending_reports [] s = s
  flush_pending_reports (r ∷ rs) s = elim (flush_report r (get_message r.message_id s) s) [
    | none ↦ s
    | some next ↦ flush_pending_reports rs next
  ]

  unfoldable pub attempt : SpoolMessage → ReportPhase → Option ℕ → Bool → Option ℕ → AttemptRow
  attempt m phase code retryable ack = record {
    attempt_id = peers.attempt_id m.message_id;
    message_id = m.message_id;
    phase = phase;
    result_code = code;
    retryable = retryable;
    runtime_ack_id = ack;
    reported = false;
    created_at = peers.now;
  }

  unfoldable pub report_failure : SpoolMessage → ℕ → Bool → Spool → Spool
  unfolding attempt
  report_failure m code retryable s =
      let row =
        attempt m (if retryable then ReportPhase.runtime_pending else ReportPhase.runtime_failed)
          (some code) retryable none in
      let marked =
        mark_result m.message_id
          (if retryable then SpoolStatus.runtime_pending else SpoolStatus.failed) (some code) none
          (record_attempt row s) in
      if peers.report row
      then mark_attempt_reported row.attempt_id marked
      else if retryable
      then mark_result m.message_id SpoolStatus.blocked_offline
          (some peers.codes.control_plane_unavailable) none marked
      else marked

  -- What `inject` makes of the runtime's answer.
  unfoldable pub settle : SpoolMessage → Option Delivered → Spool → Spool
  unfolding attempt report_failure
  settle m none s = report_failure m peers.codes.runtime_unavailable true s
  settle m (some (runtime_acked ack)) s =
      let row = attempt m ReportPhase.runtime_ack none false ack in
      let marked =
        mark_result m.message_id SpoolStatus.injected_unreported none ack (record_attempt row s) in
      if peers.report row
      then mark_result m.message_id SpoolStatus.injected none ack
          (mark_attempt_reported row.attempt_id marked)
      else marked
  settle m (some queued_busy) s =
      let row = attempt m ReportPhase.runtime_pending (some peers.codes.queued_busy) true none in
      let marked =
        mark_result m.message_id SpoolStatus.runtime_pending (some peers.codes.queued_busy) none
          (record_attempt row s) in
      if peers.report row then mark_attempt_reported row.attempt_id marked else marked
  settle m (some runtime_unavailable) s = report_failure m peers.codes.runtime_unavailable true s
  settle m (some (refused status)) s = report_failure m status false s

  unfoldable pub hand_over : SpoolMessage → Option ℕ → Spool → Spool
  unfolding settle
  hand_over m none s = report_failure m peers.codes.session_not_found false s
  hand_over m (some native) s = settle m (peers.deliver native m) (mark_injecting m.message_id s)

  unfoldable pub inject_validated : SpoolMessage → Option Validation → Spool → Spool
  unfolding hand_over
  inject_validated m none s =
      mark_result m.message_id SpoolStatus.blocked_offline
        (some peers.codes.control_plane_unavailable) none s
  inject_validated m (some (invalid reason)) s = report_failure m reason false s
  inject_validated m (some valid) s = hand_over m (peers.native_handle m.session_handle) s

  unfoldable pub inject : SpoolMessage → Spool → Spool
  unfolding inject_validated
  inject m s =
      if leb max_injection_attempts m.attempt_count
      then report_failure m peers.codes.max_injection_attempts_exceeded false s
      else inject_validated m (peers.validate m) s

  unfoldable pub inject_all : List SpoolMessage → Spool → Spool
  inject_all [] s = s
  inject_all (m ∷ ms) s = inject_all ms (inject m s)

  -- `runOnce`, and whether there was anything to do; the lists are read before anything runs.
  unfoldable pub run_once : Spool → Bool × Spool
  unfolding ack_received flush_pending_reports inject_all
  run_once s =
      let reports = list_pending_reports s in
      let received = list_received s in
      let injectable = list_injectable s in
      (
        ltb 0 (length reports) || ltb 0 (length received) || ltb 0 (length injectable),
        inject_all injectable (ack_received received (flush_pending_reports reports s)),
      )
