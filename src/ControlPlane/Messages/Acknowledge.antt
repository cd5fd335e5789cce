-- ===== src/ControlPlane/Messages/Acknowledge.antt =====
-- src/control-plane/services/messages.ts: `acknowledge`, the state machine of a delivery.
use Prim.Native.String.{String}
use text.Mathlib.Text.{starts_with}
use aicoo_local_agent.Common.{
  ℕ, [], ◌∷◌, ◌++◌, Bool, true, false, not, ◌&&◌, Option, none, some, ◌==◌, column_is, truthy,
  if◌then◌else◌, or_else, select_first, has_row, update_where,
}
use aicoo_local_agent.ControlPlane.Schema.{
  ReasonCode, ResultCode, DeliveryStatus, AckPhase, DeliveryRow, EndpointRow, Actor, Action, Db,
  AuthContext, is_open, is_terminal,
}
use aicoo_local_agent.ControlPlane.Outcome.{
  Result, ok, fail, Service, pure, lift, read, modify, ◌>>=◌, ◌>>◌,
}
use aicoo_local_agent.ControlPlane.Events.{audit}

pub record DeliveryAckInput : Type 0 where
  pub phase : AckPhase
  pub attempt_id : ℕ
  pub result_code : Option ResultCode
  pub retryable : Bool
  pub runtime_ack_id : Option ℕ

pub data Recorded : Type 0 where
  state audit_only : Recorded

-- status IN ('queued', 'dispatched')
abbrev pub is_unacked : DeliveryStatus → Bool
is_unacked DeliveryStatus.queued = true
is_unacked DeliveryStatus.dispatched = true
is_unacked _ = false

-- status IN ('device_acked', 'runtime_pending')
abbrev pub is_on_device : DeliveryStatus → Bool
is_on_device DeliveryStatus.device_acked = true
is_on_device DeliveryStatus.runtime_pending = true
is_on_device _ = false

unfoldable pub adapter_label : String → Option String
adapter_label version =
    if starts_with version "fake-" then some "[MOCK: FakeRuntimeAdapter]" else none

-- The UPDATE of each phase, for one row.
unfoldable pub advance : ℕ → DeliveryAckInput → String → AckPhase → DeliveryRow → DeliveryRow
advance now input version AckPhase.device_ack d =
    if is_unacked d.status
    then record d { status = DeliveryStatus.device_acked; device_ack_received_at = some now }
    else d
advance now input version AckPhase.runtime_pending d =
    if is_on_device d.status
    then record d {
      status = DeliveryStatus.runtime_pending;
      runtime_pending_at = some now;
      result_code = some (or_else input.result_code (ResultCode.reason ReasonCode.queued_busy));
    }
    else d
advance now input version AckPhase.runtime_ack d =
    if is_on_device d.status
    then record d {
      status = DeliveryStatus.runtime_acked;
      runtime_ack_received_at = some now;
      runtime_ack_id = input.runtime_ack_id;
      result_code = none;
      adapter_label = adapter_label version;
    }
    else d
advance now input version AckPhase.runtime_failed d =
    if is_open d.status
    then record d {
      status = DeliveryStatus.failed;
      terminal_at = some now;
      result_code =
          some (or_else input.result_code (ResultCode.reason ReasonCode.runtime_unavailable));
    }
    else d

-- INSERT OR IGNORE INTO delivery_attempts
unfoldable pub record_attempt : ℕ → ℕ → DeliveryAckInput → Db → Db
record_attempt now delivery input db = record db {
  attempts =
      if has_row (λ a. a.attempt_id == input.attempt_id) db.attempts
      then db.attempts
      else db.attempts
        ++ record {
          attempt_id = input.attempt_id;
          delivery_id = delivery;
          phase = input.phase;
          result_code = input.result_code;
          retryable = input.retryable;
          runtime_ack_id = input.runtime_ack_id;
          created_at = now;
        }
          ∷ [];
}

unfoldable pub advance_delivery : ℕ → DeliveryAckInput → DeliveryRow → String → Db → Db
unfolding advance
advance_delivery now input row version db = if is_terminal row.status then db else record db {
  deliveries =
      update_where (λ d. d.delivery_id == row.delivery_id) (advance now input version input.phase)
        db.deliveries;
}

-- The row of the SELECT: the delivery, whose message must exist.
unfoldable pub find_ack_row : ℕ → Db → Option DeliveryRow
find_ack_row message db =
    if has_row (λ m. m.message_id == message) db.messages
    then select_first (λ d. d.message_id == message) db.deliveries
    else none

-- Its endpoint, by the LEFT JOIN.
unfoldable pub find_ack_endpoint : DeliveryRow → Db → Option EndpointRow
find_ack_endpoint d db = select_first (λ e. column_is d.endpoint_id e.endpoint_id) db.endpoints

-- The guards of `acknowledge`: the row and the adapter version of its endpoint.
unfoldable pub check_ack :
    AuthContext
    → Option DeliveryRow
    → (DeliveryRow → Option EndpointRow)
    → Result (DeliveryRow × String)
check_ack auth none endpoint_of = fail ReasonCode.not_found 404
check_ack auth (some d) endpoint_of =
    if not (truthy d.endpoint_id)
    then fail ReasonCode.ack_not_applicable 409
    else elim (endpoint_of d) [
      | none ↦ fail ReasonCode.endpoint_not_owned 403
      | some e ↦
          if e.principal_id == auth.principal_id && e.device_id == auth.device_id
          then ok (d, e.adapter_version)
          else fail ReasonCode.endpoint_not_owned 403
    ]

unfoldable pub acknowledge : ℕ → AuthContext → ℕ → DeliveryAckInput → Service Recorded
acknowledge now auth message input = do
  found ← read (find_ack_row message)
  endpoint_of ← read (λ db d. find_ack_endpoint d db)
  row ← lift (check_ack auth found endpoint_of)
  modify (record_attempt now row.0.delivery_id input)
  modify (advance_delivery now input row.0 row.1)
  modify (
      audit now (Actor.principal auth.principal_id)
        (if is_terminal row.0.status
          then Action.delivery_late_ack
          else Action.delivery_phase input.phase)
        message)
  pure (if is_terminal row.0.status then Recorded.audit_only else Recorded.state)
