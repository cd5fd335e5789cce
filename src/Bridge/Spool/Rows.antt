-- ===== src/Bridge/Spool/Rows.antt =====
-- src/bridge/spool.ts: the rows of the bridge's tables, and the statuses that its statements test. An
-- envelope keeps the fields that the bridge reads, and its other content as one opaque value.
use aicoo_local_agent.Common.Int.{ℤ}
use aicoo_local_agent.Common.{ℕ, List, Bool, true, false, Option}

pub data SpoolStatus : Type 0 where
  received device_acked runtime_pending injecting injected_unreported : SpoolStatus
  injected failed blocked blocked_offline : SpoolStatus

pub data ReportPhase : Type 0 where
  runtime_pending runtime_ack runtime_failed : ReportPhase

pub data ReplyStatus : Type 0 where
  pending sent failed : ReplyStatus

pub record Envelope : Type 0 where
  pub id : ℕ
  pub communication_session_id : Option ℕ
  pub session_handle : Option ℕ
  pub collaboration_id : Option ℕ
  pub correlation_id : Option ℕ
  pub reply_to : Option ℕ
  pub sequence : ℕ
  pub expires_at : ℕ
  pub content : ℕ

pub record SpoolMessage : Type 0 where
  pub message_id : ℕ
  pub delivery_id : ℕ
  pub comm_session_id : ℕ
  pub session_handle : ℕ
  pub sequence : ℕ
  pub envelope : Envelope
  pub status : SpoolStatus
  pub attempt_count : ℕ
  pub last_result_code : Option ℕ
  pub runtime_ack_id : Option ℕ

pub record AttemptRow : Type 0 where
  pub attempt_id : ℕ
  pub message_id : ℕ
  pub phase : ReportPhase
  pub result_code : Option ℕ
  pub retryable : Bool
  pub runtime_ack_id : Option ℕ
  pub reported : Bool
  pub created_at : ℕ

pub record OutboundReply : Type 0 where
  pub event_id : ℕ
  pub comm_session_id : ℕ
  pub client_message_id : ℕ
  pub payload : ℕ
  pub reply_to : ℕ
  pub correlation_id : ℕ
  pub collaboration_turn : Option ℕ
  pub status : ReplyStatus
  pub attempt_count : ℕ
  pub last_error : Option ℕ

pub record GrantRow : Type 0 where
  pub comm_session_id : ℕ
  pub status : ℕ
  pub grant_expires_at : Option ℕ

pub record CursorRow : Type 0 where
  pub key : ℕ
  pub last_seq : ℤ

pub record Mapping : Type 0 where
  pub native_handle : ℕ
  pub server_handle : ℕ
  pub label : ℕ

pub record Spool : Type 0 where
  pub cursors : List CursorRow
  pub adapter_cursors : List CursorRow
  pub mappings : List Mapping
  pub messages : List SpoolMessage
  pub grants : List GrantRow
  pub attempts : List AttemptRow
  pub replies : List OutboundReply

-- status IN ('device_acked', 'runtime_pending', 'blocked_offline')
abbrev pub is_injectable : SpoolStatus → Bool
is_injectable SpoolStatus.device_acked = true
is_injectable SpoolStatus.runtime_pending = true
is_injectable SpoolStatus.blocked_offline = true
is_injectable _ = false

-- status IN ('injected', 'failed', 'blocked')
abbrev pub is_done : SpoolStatus → Bool
is_done SpoolStatus.injected = true
is_done SpoolStatus.failed = true
is_done SpoolStatus.blocked = true
is_done _ = false

abbrev pub is_received : SpoolStatus → Bool
is_received SpoolStatus.received = true
is_received _ = false

abbrev pub is_pending_reply : ReplyStatus → Bool
is_pending_reply ReplyStatus.pending = true
is_pending_reply _ = false
