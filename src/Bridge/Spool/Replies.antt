-- ===== src/Bridge/Spool/Replies.antt =====
-- src/bridge/spool.ts: the replies that wait to be sent.
use aicoo_local_agent.Common.{
  ℕ, ◌+◌, [], ◌∷◌, ◌++◌, Bool, none, some, ◌==◌, if◌then◌else◌, has_row, update_where,
}
use aicoo_local_agent.Bridge.Spool.{ReplyStatus, OutboundReply, Spool}

unfoldable pub store_outbound_reply : OutboundReply → Spool → Spool
store_outbound_reply row s = record s {
  replies =
      if has_row (λ r. r.event_id == row.event_id) s.replies
      then s.replies
      else s.replies
        ++ record row { status = ReplyStatus.pending; attempt_count = 0; last_error = none } ∷ [];
}

unfoldable pub mark_outbound_sent : ℕ → Spool → Spool
mark_outbound_sent event s = record s {
  replies =
      update_where (λ r. r.event_id == event)
        (λ r. record r {
          status = ReplyStatus.sent;
          attempt_count = r.attempt_count + 1;
          last_error = none;
        })
        s.replies;
}

unfoldable pub mark_outbound_attempt : ℕ → ℕ → Bool → Spool → Spool
mark_outbound_attempt event error terminal s = record s {
  replies =
      update_where (λ r. r.event_id == event)
        (λ r. record r {
          status = if terminal then ReplyStatus.failed else ReplyStatus.pending;
          attempt_count = r.attempt_count + 1;
          last_error = some error;
        })
        s.replies;
}
