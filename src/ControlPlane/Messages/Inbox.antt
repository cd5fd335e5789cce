-- ===== src/ControlPlane/Messages/Inbox.antt =====
-- `sendInbox` in src/control-plane/services/messages.ts.
use aicoo_local_agent.Common.{
  ℕ, [], ◌∷◌, ◌++◌, Bool, true, false, ◌||◌, none, some, ◌==◌, if◌then◌else◌, has_row,
}
use aicoo_local_agent.ControlPlane.Schema.{
  ReasonCode, TargetKind, DeliveryStatus, MessageRow, DeliveryRow, InboxRow, Actor, Action,
  AuthContext,
}
use aicoo_local_agent.ControlPlane.Outcome.{threw, Service, require, read, modify, ◌>>=◌, ◌>>◌}
use aicoo_local_agent.ControlPlane.Events.{audit}
use aicoo_local_agent.ControlPlane.Messages.Storing.{
  SendMessageInput, Fresh, MessageReceipt, receipt_for, insert_message, new_delivery,
}

abbrev pub is_inbox_kind : TargetKind → Bool
is_inbox_kind TargetKind.human_inbox = true
is_inbox_kind _ = false

-- "9999-12-31T23:59:59.999Z"
abbrev pub end_of_time : ℕ
end_of_time = 253402300799999

-- The second INSERT of `sendInbox`, whose failure undoes the first.
unfoldable pub insert_inbox : InboxRow → MessageRow → DeliveryRow → Service (Unit {0})
insert_inbox item row delivery db =
    if has_row (λ i. i.inbox_item_id == item.inbox_item_id || i.message_id == item.message_id)
      db.inbox
    then (threw, db)
    else (insert_message row delivery >> modify (λ d. record d { inbox = d.inbox ++ item ∷ [] })) db

unfoldable pub inbox_row : ℕ → Fresh → AuthContext → SendMessageInput → ℕ → ℕ → MessageRow
inbox_row now ids auth input principal hash = record {
  message_id = ids.message_id;
  client_message_id = input.client_message_id;
  request_hash = hash;
  comm_session_id = none;
  sender_principal_id = auth.principal_id;
  sender_device_id = some auth.device_id;
  target_kind = TargetKind.human_inbox;
  target_principal_id = principal;
  target_endpoint_id = none;
  target_session_handle = none;
  kind = input.kind;
  payload_json = input.payload;
  reply_to = input.reply_to;
  correlation_id = input.correlation_id;
  sequence = 1;
  created_at = now;
  expires_at = end_of_time;
}

unfoldable pub inbox_item : ℕ → Fresh → ℕ → InboxRow
inbox_item now ids principal = record {
  inbox_item_id = ids.inbox_item_id;
  principal_id = principal;
  message_id = ids.message_id;
  created_at = now;
}

-- The transaction of `sendInbox`, and its answer.
unfoldable pub store_inbox :
    ℕ → Fresh → AuthContext → InboxRow → MessageRow → Service MessageReceipt
store_inbox now ids auth item row = do
  insert_inbox item row (new_delivery ids none DeliveryStatus.inbox_persisted now)
  modify
      (audit now (Actor.principal auth.principal_id) Action.message_inbox_persisted ids.message_id)
  receipt_for ids.message_id false

unfoldable pub send_inbox :
    ℕ → Fresh → AuthContext → SendMessageInput → TargetKind → ℕ → ℕ → Service MessageReceipt
send_inbox now ids auth input kind principal hash = do
  require (is_inbox_kind kind) ReasonCode.invalid_target_kind 400
  known ← read λ db. has_row (λ p. p == principal) db.principals
  require known ReasonCode.not_found 404
  store_inbox now ids auth (inbox_item now ids principal)
      (inbox_row now ids auth input principal hash)
