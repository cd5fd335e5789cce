-- ===== src/Bridge/Injector/Acceptance.antt =====
-- `inject` and `reportFailure` in src/bridge/injector.ts: how an attempt leaves its message.
use aicoo_local_agent.Common.{
  ℕ, ◌≡◌, ◌<◌, ap, ◌∙◌, inl, inr, Bool, true, false, Option, none, some, Memᴰ, arith, Bool-cases,
  ◌==◌, leb, if◌then◌else◌, mem-update_where,
}
use aicoo_local_agent.Bridge.Spool.{
  SpoolMessage, SpoolStatus, Spool, mark_result, mark_attempt_reported,
}
use aicoo_local_agent.Bridge.Injector.{
  Peers, Validation, valid, invalid, Delivered, runtime_acked, queued_busy, runtime_unavailable,
  refused, report_failure, settle, hand_over, inject_validated, inject, max_injection_attempts,
}

-- Every row of the message has a status with p.
abbrev pub HasStatus : (SpoolStatus → Bool) → ℕ → Spool → Type 0
HasStatus p message s =
    (b : SpoolMessage) → Memᴰ b s.messages → b.message_id ≡ message → p b.status ≡ true

mark_result-HasStatus :
    (p : SpoolStatus → Bool) (message : ℕ) (status : SpoolStatus) (code ack : Option ℕ) (s : Spool)
    → p status ≡ true
    → HasStatus p message (mark_result message status code ack s)
unfolding mark_result
mark_result-HasStatus p message status code ack s h b m e =
    let (a, n, f) = mem-update_where (λ r. r.message_id == message) _ s.messages m in
    elim (Bool-cases (a.message_id == message)) [
      | inl hit ↦ let is : b.status ≡ status = ground arith in ap p is ∙ h
      | inr miss ↦ absurd (ground arith)
    ]

-- The statuses in which an attempt may leave a message.
abbrev pub is_settled : SpoolStatus → Bool
is_settled SpoolStatus.received = false
is_settled SpoolStatus.device_acked = false
is_settled SpoolStatus.injecting = false
is_settled SpoolStatus.blocked = false
is_settled _ = true

abbrev pub is_delivered : SpoolStatus → Bool
is_delivered SpoolStatus.injected = true
is_delivered SpoolStatus.injected_unreported = true
is_delivered _ = false

module _ (p : SpoolStatus → Bool) (message : ℕ) where
  reported-HasStatus :
      (a : ℕ) (s : Spool) → HasStatus p message s → HasStatus p message (mark_attempt_reported a s)
  unfolding mark_attempt_reported
  reported-HasStatus a s h = h

  if-HasStatus :
      (c : Bool) (s t : Spool)
      → HasStatus p message s
      → HasStatus p message t
      → HasStatus p message (if c then s else t)
  if-HasStatus true s t h k = h
  if-HasStatus false s t h k = k

ruleset status_rules = (mark_result-HasStatus, reported-HasStatus, if-HasStatus)

module _ (peers : Peers) where
  report_failure-is_settled :
      (m : SpoolMessage) (code : ℕ) (again : Bool) (s : Spool)
      → HasStatus is_settled m.message_id (report_failure peers m code again s)
  unfolding report_failure
  report_failure-is_settled m code true s = search status_rules depth 8
  report_failure-is_settled m code false s = search status_rules depth 8

  settle-is_settled :
      (m : SpoolMessage) (answer : Option Delivered) (s : Spool)
      → HasStatus is_settled m.message_id (settle peers m answer s)
  unfolding settle
  settle-is_settled m none s = report_failure-is_settled m _ true s
  settle-is_settled m (some (runtime_acked ack)) s = search status_rules depth 8
  settle-is_settled m (some queued_busy) s = search status_rules depth 8
  settle-is_settled m (some runtime_unavailable) s = report_failure-is_settled m _ true s
  settle-is_settled m (some (refused status)) s = report_failure-is_settled m _ false s

  inject_validated-is_settled :
      (m : SpoolMessage) (answer : Option Validation) (s : Spool)
      → HasStatus is_settled m.message_id (inject_validated peers m answer s)
  unfolding inject_validated hand_over
  inject_validated-is_settled m none s = search status_rules depth 8
  inject_validated-is_settled m (some (invalid reason)) s =
      report_failure-is_settled m reason false s
  inject_validated-is_settled m (some valid) s = handed (peers.native_handle m.session_handle)
    where
      handed : (native : Option ℕ) → HasStatus is_settled m.message_id (hand_over peers m native s)
      handed none = report_failure-is_settled m _ false s
      handed (some native) = settle-is_settled m _ _

  -- Whatever the control plane and the runtime answer, an attempt leaves every row of its message
  -- injected, injected but not reported, failed, pending or blocked offline, and never injecting.
  pub inject-is_settled :
      (m : SpoolMessage) (s : Spool) → HasStatus is_settled m.message_id (inject peers m s)
  unfolding inject
  inject-is_settled m s =
      if-HasStatus is_settled m.message_id (leb max_injection_attempts m.attempt_count) _ _
        (report_failure-is_settled m _ false s) (inject_validated-is_settled m (peers.validate m) s)

  settle-delivered :
      (m : SpoolMessage) (ack : Option ℕ) (s : Spool)
      → HasStatus is_delivered m.message_id (settle peers m (some (runtime_acked ack)) s)
  unfolding settle
  settle-delivered m ack s = search status_rules depth 8

  -- A message with fewer than five attempts that is valid and that its runtime session took is injected or waits for its report,
  -- whether or not the control plane takes the report.
  pub inject_delivered :
      (m : SpoolMessage) (s : Spool) (native : ℕ) (ack : Option ℕ)
      → m.attempt_count < 5
      → peers.validate m ≡ some valid
      → peers.native_handle m.session_handle ≡ some native
      → peers.deliver native m ≡ some (runtime_acked ack)
      → HasStatus is_delivered m.message_id (inject peers m s)
  unfolding inject inject_validated hand_over
  inject_delivered m s native ack few ok known taken =
      rw (early, ok, known, taken) (settle-delivered m ack _)
    where
      early : leb max_injection_attempts m.attempt_count ≡ false
      early = ground arith
