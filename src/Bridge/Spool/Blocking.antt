-- ===== src/Bridge/Spool/Blocking.antt =====
-- `blockCommunicationSession` in src/bridge/spool.ts: a blocked session is silent.
use aicoo_local_agent.Common.{
  mem-select, ℕ, ◌≡◌, ◌≢◌, refl, true, false, not, ◌&&◌, Memᴰ, arith, some, ◌==◌, has_row-mem,
  order_by, select, All-update_where,
}
use aicoo_local_agent.Bridge.Spool.{
  SpoolMessage, SpoolStatus, AttemptRow, Spool, is_injectable, is_done, is_received, is_report_of,
  block_communication_session, set_grant, list_injectable, list_received, list_pending_reports,
}
use aicoo_local_agent.Bridge.Spool.Ordering.{mem-order_by, list_injectable_in_order}

block-is_done :
    (comm reason grant : ℕ) (s : Spool) (m : SpoolMessage)
    → Memᴰ m (block_communication_session comm reason grant s).messages
    → m.comm_session_id ≡ comm
    → is_done m.status ≡ true
unfolding block_communication_session set_grant
block-is_done comm reason grant s m stored same =
    let off =
      All-update_where (λ r. r.comm_session_id == comm && not (is_done r.status))
        (λ r. record r { status = SpoolStatus.blocked; last_result_code = some reason }) s.messages
        stored (λ a a_in hit. ground arith) in
    ground arith

-- What the lists of a spool hold of a session.
pub record IsSilent (comm : ℕ) (s : Spool) : Type 0 where
  pub no_injection : (m : SpoolMessage) → Memᴰ m (list_injectable s) → m.comm_session_id ≢ comm
  pub no_device_ack : (m : SpoolMessage) → Memᴰ m (list_received s) → m.comm_session_id ≢ comm
  pub no_report :
      (a : AttemptRow)
      → Memᴰ a (list_pending_reports s)
      → (m : SpoolMessage) → Memᴰ m s.messages
      → m.message_id ≡ a.message_id
      → m.comm_session_id ≢ comm

block-is_report_of :
    (comm reason grant : ℕ) (s : Spool) (a : AttemptRow)
    → Memᴰ a (block_communication_session comm reason grant s).attempts
    → is_report_of comm (block_communication_session comm reason grant s).messages a ≡ false
unfolding block_communication_session set_grant
block-is_report_of comm reason grant s a stored =
    All-update_where (is_report_of comm _) (λ r. record r { reported = true }) s.attempts stored
      (λ b b_in hit. unfold is_report_of in refl)

injectable_not_done : (st : SpoolStatus) → is_injectable st ≡ true → is_done st ≢ true
injectable_not_done st h k = ground arith

received_not_done : (st : SpoolStatus) → is_received st ≡ true → is_done st ≢ true
received_not_done st h k = ground arith

-- After a session is blocked, none of its messages is in the list to inject or in the list to
-- acknowledge, and none of the reports to send is of one of its messages.
pub block_communication_session-IsSilent :
    (comm reason grant : ℕ) (s : Spool)
    → IsSilent comm (block_communication_session comm reason grant s)
unfolding list_received list_pending_reports is_report_of
block_communication_session-IsSilent comm reason grant s = record {
  no_injection = λ m listed same.
      let next = list_injectable_in_order blocked m listed in
      injectable_not_done m.status next.injectable
        (block-is_done comm reason grant s m next.stored same);
  no_device_ack = λ m listed same.
      let (stored, received) =
        mem-select (λ r. is_received r.status) blocked.messages
          (mem-order_by (λ r. r.sequence) (select (λ r. is_received r.status) blocked.messages)
            listed) in
      received_not_done m.status received (block-is_done comm reason grant s m stored same);
  no_report = λ a listed m stored one same.
      let (kept, unreported) =
        mem-select (λ r. not r.reported) blocked.attempts
          (mem-order_by (λ r. r.attempt_id) (select (λ r. not r.reported) blocked.attempts)
            (mem-order_by (λ r. r.created_at)
              (order_by (λ r. r.attempt_id) (select (λ r. not r.reported) blocked.attempts))
              listed)) in
      let off = block-is_report_of comm reason grant s a kept in
      let there =
        has_row-mem (λ r. r.message_id == a.message_id && r.comm_session_id == comm)
          blocked.messages stored (ground arith) in
      ground arith;
}
  where
    blocked : Spool
    blocked = block_communication_session comm reason grant s
