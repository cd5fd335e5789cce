-- ===== src/Bridge/Spool.antt =====
-- src/bridge/spool.ts: the bridge's durable tables and the statements on them. Delegations that
-- wait and the schema are left out. `Rows` holds the rows, `Replies` the statements on replies.
mod Rows
pub mod Replies
pub mod Ordering
pub mod Progress
pub mod Blocking
pub mod Cursor
pub use Rows.*
use aicoo_local_agent.Common.Int.{ℤ, pos, max_ℤ}
use aicoo_local_agent.Common.{
  ℕ, ◌+◌, List, [], ◌∷◌, ◌++◌, Bool, true, false, not, ◌&&◌, ◌||◌, Option, none, some, ◌==◌, ltb,
  column_is, if◌then◌else◌, or_else, truthy, select_first, select, has_row, update_where, order_by,
  map,
}

-- `cursor` and `adapterCursor`.
unfoldable pub cursor_of : ℕ → List CursorRow → ℤ
cursor_of key rows = elim (select_first (λ c. c.key == key) rows) [
  | none ↦ pos 0
  | some c ↦ c.last_seq
]

-- INSERT … ON CONFLICT DO UPDATE SET last_seq = MAX(last_seq, excluded.last_seq)
unfoldable pub put_cursor : ℕ → ℤ → List CursorRow → List CursorRow
unfolding max_ℤ
put_cursor key seq rows =
    if has_row (λ c. c.key == key) rows
    then update_where (λ c. c.key == key) (λ c. record c { last_seq = max_ℤ c.last_seq seq }) rows
    else rows ++ record { key = key; last_seq = seq } ∷ []

-- What is stored for what `Number.parseInt` makes of a text, which is `none` where it is not finite.
abbrev pub parsed_or_zero : Option ℤ → ℤ
parsed_or_zero none = pos 0
parsed_or_zero (some sequence) = sequence

-- `saveCursor` and `saveAdapterCursor`.
unfoldable pub save_cursor : ℕ → Option ℤ → Spool → Spool
save_cursor key parsed s = record s { cursors = put_cursor key (parsed_or_zero parsed) s.cursors }

unfoldable pub save_adapter_cursor : ℕ → Option ℤ → Spool → Spool
save_adapter_cursor key parsed s = record s {
  adapter_cursors = put_cursor key (parsed_or_zero parsed) s.adapter_cursors;
}

unfoldable pub save_session_mapping : ℕ → ℕ → ℕ → Spool → Spool
save_session_mapping native server label s = record s {
  mappings =
      if has_row (λ m. m.native_handle == native) s.mappings
      then update_where (λ m. m.native_handle == native)
          (λ m. record m { server_handle = server; label = label }) s.mappings
      else s.mappings
        ++ record { native_handle = native; server_handle = server; label = label } ∷ [];
}

unfoldable pub delete_session_mapping : ℕ → Spool → Spool
delete_session_mapping native s = record s {
  mappings = select (λ m. not (m.native_handle == native)) s.mappings;
}

unfoldable pub get_message : ℕ → Spool → Option SpoolMessage
get_message message s = select_first (λ m. m.message_id == message) s.messages

-- `storeDispatch`, whose other answer is `get_message` of the new spool; `none` is the error that it throws on an event without its fields.
unfoldable pub is_dispatch : Envelope → Option ℕ → Bool
is_dispatch e delivery =
    truthy e.communication_session_id && truthy e.session_handle && truthy delivery

unfoldable pub dispatch_row : Envelope → Option ℕ → SpoolMessage
dispatch_row e delivery = record {
  message_id = e.id;
  delivery_id = or_else delivery 0;
  comm_session_id = or_else e.communication_session_id 0;
  session_handle = or_else e.session_handle 0;
  sequence = e.sequence;
  envelope = e;
  status = SpoolStatus.received;
  attempt_count = 0;
  last_result_code = none;
  runtime_ack_id = none;
}

unfoldable pub store_dispatch : Envelope → Option ℕ → Spool → Option (Bool × Spool)
unfolding is_dispatch dispatch_row
store_dispatch e delivery s =
    if not (is_dispatch e delivery)
    then none
    else if has_row (λ m. m.message_id == e.id) s.messages
    then some (false, s)
    else some (true, record s { messages = s.messages ++ dispatch_row e delivery ∷ [] })

unfoldable pub mark_device_acked : ℕ → Spool → Spool
mark_device_acked message s = record s {
  messages =
      update_where (λ m. m.message_id == message && is_received m.status)
        (λ m. record m { status = SpoolStatus.device_acked }) s.messages;
}

unfoldable pub mark_injecting : ℕ → Spool → Spool
mark_injecting message s = record s {
  messages =
      update_where (λ m. m.message_id == message && is_injectable m.status)
        (λ m. record m { status = SpoolStatus.injecting; attempt_count = m.attempt_count + 1 })
        s.messages;
}

unfoldable pub mark_result : ℕ → SpoolStatus → Option ℕ → Option ℕ → Spool → Spool
mark_result message status code ack s = record s {
  messages =
      update_where (λ m. m.message_id == message)
        (λ m. record m { status = status; last_result_code = code; runtime_ack_id = ack })
        s.messages;
}

-- No earlier message of the session is unfinished.
unfoldable pub is_blocked_by : SpoolMessage → SpoolMessage → Bool
is_blocked_by m earlier =
    earlier.comm_session_id == m.comm_session_id
    && ltb earlier.sequence m.sequence
    && not (is_done earlier.status)

unfoldable pub is_next : List SpoolMessage → SpoolMessage → Bool
unfolding is_blocked_by
is_next messages m = is_injectable m.status && not (has_row (is_blocked_by m) messages)

-- The loop with its set `seen`: the first row of each session.
unfoldable pub first_of_each : List ℕ → List SpoolMessage → List SpoolMessage
first_of_each seen [] = []
first_of_each seen (m ∷ ms) =
    let rest = first_of_each seen ms in
    let fresh = m ∷ first_of_each (m.comm_session_id ∷ seen) ms in
    if has_row (λ c. c == m.comm_session_id) seen then rest else fresh

unfoldable pub list_injectable : Spool → List SpoolMessage
unfolding is_next
list_injectable s = first_of_each [] (
    order_by (λ m. m.comm_session_id)
      (order_by (λ m. m.sequence) (select (is_next s.messages) s.messages)))

unfoldable pub list_received : Spool → List SpoolMessage
list_received s = order_by (λ m. m.sequence) (select (λ m. is_received m.status) s.messages)

unfoldable pub set_grant : ℕ → ℕ → Option ℕ → Spool → Spool
set_grant comm status expires_at s = record s {
  grants =
      if has_row (λ g. g.comm_session_id == comm) s.grants
      then update_where (λ g. g.comm_session_id == comm)
          (λ g. record g { status = status; grant_expires_at = expires_at }) s.grants
      else s.grants
        ++ record { comm_session_id = comm; status = status; grant_expires_at = expires_at } ∷ [];
}

-- message_id IN (SELECT message_id FROM spool_messages WHERE comm_session_id = ?)
unfoldable pub is_report_of : ℕ → List SpoolMessage → AttemptRow → Bool
is_report_of comm messages a =
    not a.reported
    && has_row (λ m. m.message_id == a.message_id && m.comm_session_id == comm) messages

unfoldable pub block_communication_session : ℕ → ℕ → ℕ → Spool → Spool
unfolding is_report_of set_grant
block_communication_session comm reason grant_status s =
    let stopped =
      update_where (λ m. m.comm_session_id == comm && not (is_done m.status))
        (λ m. record m { status = SpoolStatus.blocked; last_result_code = some reason })
        s.messages in
    set_grant comm grant_status none (record s {
      messages = stopped;
      attempts =
          update_where (is_report_of comm stopped) (λ a. record a { reported = true }) s.attempts;
    })

-- The loop of `blockCollaboration` over its sessions; 'revoked' is the default status of the grant.
unfoldable pub block_each : List ℕ → ℕ → ℕ → Spool → Spool
block_each [] reason revoked s = s
block_each (comm ∷ comms) reason revoked s =
    let stopped = block_communication_session comm reason revoked s in
    block_each comms reason revoked (record stopped {
      replies =
          update_where (λ r. r.comm_session_id == comm && is_pending_reply r.status)
            (λ r. record r { status = ReplyStatus.failed; last_error = some reason })
            stopped.replies;
    })

-- SELECT DISTINCT comm_session_id
unfoldable pub distinct : List ℕ → List ℕ
distinct [] = []
distinct (x ∷ xs) = let rest = distinct xs in x ∷ select (λ y. not (y == x)) rest

unfoldable pub block_collaboration : ℕ → ℕ → ℕ → Spool → List ℕ × Spool
block_collaboration collaboration reason revoked s =
    let comms = distinct (
      map (λ (m : SpoolMessage). m.comm_session_id)
        (select (λ m. column_is m.envelope.collaboration_id collaboration) s.messages)) in
    (comms, block_each comms reason revoked s)

unfoldable pub record_attempt : AttemptRow → Spool → Spool
record_attempt row s = record s {
  attempts =
      if has_row (λ a. a.attempt_id == row.attempt_id) s.attempts
      then s.attempts
      else s.attempts ++ record row { reported = false } ∷ [];
}

unfoldable pub mark_attempt_reported : ℕ → Spool → Spool
mark_attempt_reported attempt s = record s {
  attempts =
      update_where (λ a. a.attempt_id == attempt) (λ a. record a { reported = true }) s.attempts;
}

unfoldable pub list_pending_reports : Spool → List AttemptRow
list_pending_reports s =
    order_by (λ a. a.created_at)
      (order_by (λ a. a.attempt_id) (select (λ a. not a.reported) s.attempts))
