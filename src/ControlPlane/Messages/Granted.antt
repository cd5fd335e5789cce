-- ===== src/ControlPlane/Messages/Granted.antt =====
-- `sendGrantScoped` in src/control-plane/services/messages.ts.
use aicoo_local_agent.Common.{
  ℕ, ◌+◌, Bool, true, false, ◌&&◌, ◌||◌, Option, none, some, ◌==◌, column_is, truthy, if◌then◌else◌,
  or_else, has_row, max_of,
}
use aicoo_local_agent.ControlPlane.Schema.{
  ReasonCode, TargetKind, DeliveryStatus, CommRow, MessageRow, MessageEnvelope, EventBody, Actor,
  Action, Db, AuthContext,
}
use aicoo_local_agent.ControlPlane.Outcome.{
  Result, ok, threw, Service, require, lift, read, modify, ◌>>=◌, ◌>>◌,
}
use aicoo_local_agent.ControlPlane.Events.{append, audit}
use aicoo_local_agent.ControlPlane.CommSessions.{require_active}
use aicoo_local_agent.ControlPlane.Messages.Storing.{
  SendMessageInput, Fresh, MessageReceipt, receipt_for, insert_message, new_delivery,
}

-- `if (input.replyTo)`: the message that is answered belongs to the session.
unfoldable pub check_reply : Option ℕ → ℕ → Db → Bool
check_reply reply comm db =
    if truthy reply
    then has_row (λ m. m.message_id == or_else reply 0 && column_is m.comm_session_id comm)
        db.messages
    else true

pub record Target : Type 0 where
  pub kind : TargetKind
  pub principal_id : ℕ
  pub endpoint_id : Option ℕ
  pub session_handle : Option ℕ

-- A message of the requester goes to the frozen route, one of the recipient to the reply route.
unfoldable pub target_of : AuthContext → CommRow → Target
target_of auth comm =
    if auth.principal_id == comm.requester_principal_id
    then record {
      kind = comm.target_kind;
      principal_id = comm.recipient_principal_id;
      endpoint_id = comm.frozen_endpoint_id;
      session_handle = comm.frozen_session_handle;
    }
    else record {
      kind = TargetKind.runtime_session;
      principal_id = comm.requester_principal_id;
      endpoint_id = some comm.requester_reply_endpoint_id;
      session_handle = some comm.requester_reply_session_handle;
    }

-- `...(x ? { x } : {})`
unfoldable pub present : Option ℕ → Option ℕ
present x = if truthy x then x else none

unfoldable pub next_sequence : ℕ → Db → ℕ
next_sequence comm db =
    max_of (λ m. m.sequence) (λ m. column_is m.comm_session_id comm) db.messages + 1

unfoldable pub grant_row :
    ℕ → Fresh → AuthContext → SendMessageInput → ℕ → ℕ → Target → ℕ → ℕ → MessageRow
grant_row now ids auth input hash comm target sequence expires_at = record {
  message_id = ids.message_id;
  client_message_id = input.client_message_id;
  request_hash = hash;
  comm_session_id = some comm;
  sender_principal_id = auth.principal_id;
  sender_device_id = some auth.device_id;
  target_kind = target.kind;
  target_principal_id = target.principal_id;
  target_endpoint_id = target.endpoint_id;
  target_session_handle = target.session_handle;
  kind = input.kind;
  payload_json = input.payload;
  reply_to = input.reply_to;
  correlation_id = input.correlation_id;
  sequence = sequence;
  created_at = now;
  expires_at = expires_at;
}

-- `envelope`, and `envelopeFor` of a stored row.
unfoldable pub envelope_for : MessageRow → MessageEnvelope
unfolding present
envelope_for m = record {
  id = m.message_id;
  client_message_id = m.client_message_id;
  communication_session_id = present m.comm_session_id;
  sender_principal_id = m.sender_principal_id;
  sender_device_id = present m.sender_device_id;
  target_kind = m.target_kind;
  target_principal_id = m.target_principal_id;
  target_endpoint_id = present m.target_endpoint_id;
  target_session_handle = present m.target_session_handle;
  kind = m.kind;
  payload = m.payload_json;
  reply_to = present m.reply_to;
  correlation_id = present m.correlation_id;
  sequence = m.sequence;
  created_at = m.created_at;
  expires_at = m.expires_at;
}

unfoldable pub dispatch_event : ℕ → ℕ → MessageRow → ℕ → Db → Db
dispatch_event now endpoint row delivery db = record db {
  events = append now endpoint (EventBody.message_dispatch (envelope_for row) delivery) db.events;
}

-- A grant with no expiry cannot be bound to the NOT NULL column.
unfoldable pub grant_expiry : CommRow → Result ℕ
grant_expiry comm = elim comm.grant_expires_at [ none ↦ threw | some t ↦ ok t ]

-- The transaction of `sendGrantScoped` behind the INSERTs, and the answer.
unfoldable pub announce : ℕ → Fresh → AuthContext → MessageRow → Service MessageReceipt
announce now ids auth row = do
  modify (dispatch_event now (or_else row.target_endpoint_id 0) row ids.delivery_id)
  modify (audit now (Actor.principal auth.principal_id) Action.message_queued ids.message_id)
  receipt_for ids.message_id false

unfoldable pub store_and_dispatch : ℕ → Fresh → AuthContext → MessageRow → Service MessageReceipt
store_and_dispatch now ids auth row = do
  insert_message row (new_delivery ids row.target_endpoint_id DeliveryStatus.queued now)
  announce now ids auth row

-- What `sendGrantScoped` does once it has the active session.
unfoldable pub send_on :
    ℕ → Fresh → AuthContext → SendMessageInput → ℕ → CommRow → Service MessageReceipt
send_on now ids auth input hash comm = do
  answered ← read (check_reply input.reply_to comm.comm_session_id)
  require answered ReasonCode.wrong_target 409
  require
      (auth.principal_id == comm.requester_principal_id
        || auth.principal_id == comm.recipient_principal_id)
      ReasonCode.wrong_participant 403
  let target : Target = target_of auth comm
  require (truthy target.endpoint_id && truthy target.session_handle) ReasonCode.wrong_target 409
  sequence ← read (next_sequence comm.comm_session_id)
  expires_at ← lift (grant_expiry comm)
  store_and_dispatch now ids auth
      (grant_row now ids auth input hash comm.comm_session_id target sequence expires_at)

unfoldable pub send_grant_scoped :
    ℕ → Fresh → AuthContext → SendMessageInput → ℕ → ℕ → Service MessageReceipt
send_grant_scoped now ids auth input session_id hash = do
  comm ← require_active now auth.principal_id session_id
  send_on now ids auth input hash comm
