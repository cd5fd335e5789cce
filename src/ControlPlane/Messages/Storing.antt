-- ===== src/ControlPlane/Messages/Storing.antt =====
-- src/control-plane/services/messages.ts: what a call of `send` is given, and the statements that it runs on
-- messages and deliveries.
use aicoo_local_agent.Common.{
  ℕ, [], ◌∷◌, ◌++◌, Bool, ◌&&◌, ◌||◌, Option, none, some, ◌==◌, if◌then◌else◌, select_first,
  has_row,
}
use aicoo_local_agent.ControlPlane.Schema.{
  TargetKind, MessageKind, DeliveryStatus, MessageRow, DeliveryRow, Db,
}
use aicoo_local_agent.ControlPlane.Outcome.{Result, ok, threw, Service}

pub data Destination : Type 0 where
  inbox_of : (kind : TargetKind) (principal_id : ℕ) → Destination
  session : (communication_session_id : ℕ) → Destination

pub record SendMessageInput : Type 0 where
  pub destination : Destination
  pub client_message_id : ℕ
  pub kind : MessageKind
  pub payload : ℕ
  pub reply_to : Option ℕ
  pub correlation_id : Option ℕ

-- What the code takes from Node.js: the SHA-256 of a value's JSON, and the size of a payload's.
pub record Node : Type 0 where
  pub stable_hash : SendMessageInput → ℕ
  pub payload_bytes : ℕ → ℕ

-- The identifiers that one call of `send` draws.
pub record Fresh : Type 0 where
  pub message_id : ℕ
  pub delivery_id : ℕ
  pub inbox_item_id : ℕ

pub record MessageReceipt : Type 0 where
  pub message_id : ℕ
  pub delivery_id : ℕ
  pub status : DeliveryStatus
  pub duplicate : Bool
  pub queued_at : ℕ

unfoldable pub find_delivery : ℕ → Db → Option DeliveryRow
find_delivery message db = select_first (λ d. d.message_id == message) db.deliveries

unfoldable pub receipt_of : ℕ → Bool → Option DeliveryRow → Result MessageReceipt
receipt_of message duplicate none = threw
receipt_of message duplicate (some d) = ok (record {
  message_id = message;
  delivery_id = d.delivery_id;
  status = d.status;
  duplicate = duplicate;
  queued_at = d.queued_at;
})

unfoldable pub receipt_for : ℕ → Bool → Service MessageReceipt
unfolding find_delivery receipt_of
receipt_for message duplicate db = (receipt_of message duplicate (find_delivery message db), db)

unfoldable pub find_duplicate : ℕ → ℕ → Db → Option MessageRow
find_duplicate principal client db =
    select_first (λ m. m.sender_principal_id == principal && m.client_message_id == client)
      db.messages

-- The keys of the table `messages`: its primary key, and UNIQUE(sender, client_message_id).
unfoldable pub clashes : MessageRow → MessageRow → Bool
clashes row m =
    m.message_id == row.message_id
    || (m.sender_principal_id == row.sender_principal_id
        && m.client_message_id == row.client_message_id)

-- INSERT INTO messages and INSERT INTO deliveries, in one transaction.
unfoldable pub insert_message : MessageRow → DeliveryRow → Service (Unit {0})
unfolding clashes
insert_message row delivery db =
    if has_row (clashes row) db.messages
      || has_row (λ d. d.delivery_id == delivery.delivery_id || d.message_id == delivery.message_id)
          db.deliveries
    then (threw, db)
    else (
      ok tt,
      record db { messages = db.messages ++ row ∷ []; deliveries = db.deliveries ++ delivery ∷ [] },
    )

unfoldable pub new_delivery : Fresh → Option ℕ → DeliveryStatus → ℕ → DeliveryRow
new_delivery ids endpoint status now = record {
  delivery_id = ids.delivery_id;
  message_id = ids.message_id;
  endpoint_id = endpoint;
  status = status;
  queued_at = now;
  dispatched_at = none;
  device_ack_received_at = none;
  runtime_pending_at = none;
  runtime_ack_received_at = none;
  terminal_at = none;
  result_code = none;
  runtime_ack_id = none;
  adapter_label = none;
}
