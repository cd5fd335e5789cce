-- ===== src/ControlPlane/Messages.antt =====
-- src/control-plane/services/messages.ts: sending, and the state of a delivery. `Injection` holds
-- the check that a bridge asks for before it hands a message to a runtime.
mod Storing
mod Inbox
mod Granted
pub mod Acknowledge
pub mod Injection
pub mod Keeping
pub mod Passing
pub mod Soundness
pub mod Sending
pub mod Boxing
unfoldable pub use Storing.*
unfoldable pub use Inbox.*
unfoldable pub use Granted.*
use aicoo_local_agent.Common.{
  ℕ, ◌+◌, ◌*◌, List, [], ◌∷◌, ◌++◌, Bool, true, false, not, ◌&&◌, ◌||◌, Option, none, some, ◌==◌,
  ltb, column_is, truthy, if◌then◌else◌, or_else, select_first, select, has_row, update_where,
  max_of, order_by,
}
use aicoo_local_agent.ControlPlane.Schema.{
  ReasonCode, ResultCode, TargetKind, MessageKind, DeliveryStatus, AckPhase, CommRow, MessageRow,
  DeliveryRow, AttemptRow, EndpointRow, InboxRow, MessageEnvelope, EventBody, Actor, Action, Db,
  AuthContext, is_open, is_terminal,
}
use aicoo_local_agent.ControlPlane.Outcome.{
  Result, ok, fail, threw, Service, pure, failure, require, lift, read, modify, ◌>>=◌, ◌>>◌,
}
use aicoo_local_agent.ControlPlane.Events.{append, audit}
use aicoo_local_agent.ControlPlane.CommSessions.{require_active}

-- `if ("target" in input)`
unfoldable pub send_to :
    ℕ → Fresh → AuthContext → SendMessageInput → ℕ → Destination → Service MessageReceipt
send_to now ids auth input hash (inbox_of kind principal) =
    send_inbox now ids auth input kind principal hash
send_to now ids auth input hash (session comm) = send_grant_scoped now ids auth input comm hash

module _ (node : Node) where
  unfoldable pub send_new : ℕ → Fresh → AuthContext → SendMessageInput → Service MessageReceipt
  unfolding send_to
  send_new now ids auth input = do
    require (not (ltb (32 * 1024) (node.payload_bytes input.payload))) ReasonCode.payload_too_large
        400
    send_to now ids auth input (node.stable_hash input) input.destination

  unfoldable pub send_found :
      ℕ → Fresh → AuthContext → SendMessageInput → Option MessageRow → Service MessageReceipt
  send_found now ids auth input none = send_new now ids auth input
  send_found now ids auth input (some m) =
      if m.request_hash == node.stable_hash input
      then receipt_for m.message_id true
      else failure ReasonCode.client_message_id_conflict 409

  unfoldable pub send : ℕ → Fresh → AuthContext → SendMessageInput → Service MessageReceipt
  unfolding find_duplicate send_found
  send now ids auth input db =
      send_found now ids auth input (find_duplicate auth.principal_id input.client_message_id db) db

-- `markDispatched`
abbrev pub is_queued : DeliveryStatus → Bool
is_queued DeliveryStatus.queued = true
is_queued _ = false

unfoldable pub is_dispatchable : ℕ → DeliveryRow → Bool
is_dispatchable message d = d.message_id == message && is_queued d.status

unfoldable pub mark_dispatched : ℕ → ℕ → Db → Db
unfolding is_dispatchable
mark_dispatched now message db =
    if has_row (is_dispatchable message) db.deliveries
    then audit now Actor.system Action.delivery_dispatched message (record db {
      deliveries =
          update_where (is_dispatchable message)
            (λ d. record d { status = DeliveryStatus.dispatched; dispatched_at = some now })
            db.deliveries;
    })
    else db

-- `getStatus`: the delivery and its attempts, for the sender alone.
unfoldable pub get_status : ℕ → ℕ → Db → Result (DeliveryRow × List AttemptRow)
unfolding find_delivery
get_status principal message db =
    if has_row (λ m. m.message_id == message && m.sender_principal_id == principal) db.messages
    then elim (find_delivery message db) [
      | none ↦ threw
      | some d ↦ ok (
        d,
        order_by (λ a. a.created_at)
            (order_by (λ a. a.attempt_id)
              (select (λ a. a.delivery_id == d.delivery_id) db.attempts)),
      )
    ]
    else fail ReasonCode.not_found 404
