-- ===== src/ControlPlane/Schema.antt =====
-- src/shared/contracts.ts, src/shared/reason-codes.ts and the tables of src/control-plane/db.ts.
-- Identifiers and opaque texts are numbers, compared for equality; times are milliseconds.
use Prim.Native.String.{String}
use aicoo_local_agent.Common.{ℕ, Bool, true, false, Option, List}

pub data RuntimeKind : Type 0 where
  claude_code codex : RuntimeKind

pub data TargetKind : Type 0 where
  human_inbox person_default_runtime runtime_session : TargetKind

pub data MessageKind : Type 0 where
  text task_invite resource_request control : MessageKind

pub data CommunicationStatus : Type 0 where
  pending active declined revoked expired : CommunicationStatus

pub data DeliveryStatus : Type 0 where
  queued dispatched device_acked runtime_pending runtime_acked handled : DeliveryStatus
  replied inbox_persisted rejected failed expired revoked : DeliveryStatus

pub data Presence : Type 0 where
  online draining offline : Presence

pub data SessionState : Type 0 where
  idle busy closed : SessionState

pub data AckPhase : Type 0 where
  device_ack runtime_pending runtime_ack runtime_failed : AckPhase

pub data ReasonCode : Type 0 where
  unauthorized forbidden not_found invalid_request invalid_target_kind : ReasonCode
  invalid_message_kind payload_too_large endpoint_not_owned session_not_owned : ReasonCode
  session_not_found session_closed inbound_disabled no_default_route offer_not_found : ReasonCode
  offer_expired offer_revoked offer_audience_mismatch : ReasonCode
  communication_session_not_active communication_session_expired : ReasonCode
  communication_session_revoked communication_session_declined request_expired : ReasonCode
  wrong_participant wrong_target message_expired delivery_terminal : ReasonCode
  client_message_id_conflict ack_not_applicable queued_busy runtime_unavailable : ReasonCode
  runtime_session_already_granted unsupported permission_required steer_not_allowed : ReasonCode
  control_plane_unavailable : ReasonCode

-- A result code is a reason code or another text.
pub data ResultCode : Type 0 where
  reason : ReasonCode → ResultCode
  text : ℕ → ResultCode

pub record EndpointRow : Type 0 where
  pub endpoint_id : ℕ
  pub principal_id : ℕ
  pub device_id : ℕ
  pub runtime : RuntimeKind
  pub bridge_version : String
  pub adapter_version : String
  pub capabilities_json : ℕ
  pub presence : Presence
  pub last_seen_at : ℕ
  pub created_at : ℕ

pub record SessionRow : Type 0 where
  pub session_handle : ℕ
  pub endpoint_id : ℕ
  pub principal_id : ℕ
  pub label : ℕ
  pub state : SessionState
  pub capabilities_json : ℕ
  pub allow_inbound : Bool
  pub allow_mid_turn_steer : Bool
  pub created_at : ℕ
  pub last_active_at : ℕ

pub record RouteRow : Type 0 where
  pub principal_id : ℕ
  pub endpoint_id : ℕ
  pub session_handle : ℕ
  pub updated_at : ℕ

pub record OfferRow : Type 0 where
  pub offer_id : ℕ
  pub owner_principal_id : ℕ
  pub audience_principal_id : ℕ
  pub endpoint_id : ℕ
  pub session_handle : ℕ
  pub label : ℕ
  pub expires_at : ℕ
  pub revoked_at : Option ℕ
  pub created_at : ℕ

pub record CommRow : Type 0 where
  pub comm_session_id : ℕ
  pub requester_principal_id : ℕ
  pub requester_device_id : Option ℕ
  pub requester_reply_endpoint_id : ℕ
  pub requester_reply_session_handle : ℕ
  pub recipient_principal_id : ℕ
  pub target_kind : TargetKind
  pub target_offer_id : Option ℕ
  pub frozen_endpoint_id : Option ℕ
  pub frozen_session_handle : Option ℕ
  pub requested_ttl_minutes : ℕ
  pub status : CommunicationStatus
  pub requested_at : ℕ
  pub request_expires_at : ℕ
  pub activated_at : Option ℕ
  pub grant_expires_at : Option ℕ
  pub revoked_at : Option ℕ

pub record MessageRow : Type 0 where
  pub message_id : ℕ
  pub client_message_id : ℕ
  pub request_hash : ℕ
  pub comm_session_id : Option ℕ
  pub sender_principal_id : ℕ
  pub sender_device_id : Option ℕ
  pub target_kind : TargetKind
  pub target_principal_id : ℕ
  pub target_endpoint_id : Option ℕ
  pub target_session_handle : Option ℕ
  pub kind : MessageKind
  pub payload_json : ℕ
  pub reply_to : Option ℕ
  pub correlation_id : Option ℕ
  pub sequence : ℕ
  pub created_at : ℕ
  pub expires_at : ℕ

pub record DeliveryRow : Type 0 where
  pub delivery_id : ℕ
  pub message_id : ℕ
  pub endpoint_id : Option ℕ
  pub status : DeliveryStatus
  pub queued_at : ℕ
  pub dispatched_at : Option ℕ
  pub device_ack_received_at : Option ℕ
  pub runtime_pending_at : Option ℕ
  pub runtime_ack_received_at : Option ℕ
  pub terminal_at : Option ℕ
  pub result_code : Option ResultCode
  pub runtime_ack_id : Option ℕ
  pub adapter_label : Option String

pub record AttemptRow : Type 0 where
  pub attempt_id : ℕ
  pub delivery_id : ℕ
  pub phase : AckPhase
  pub result_code : Option ResultCode
  pub retryable : Bool
  pub runtime_ack_id : Option ℕ
  pub created_at : ℕ

pub record InboxRow : Type 0 where
  pub inbox_item_id : ℕ
  pub principal_id : ℕ
  pub message_id : ℕ
  pub created_at : ℕ

-- The envelope that a `message.dispatch` event carries.
pub record MessageEnvelope : Type 0 where
  pub id : ℕ
  pub client_message_id : ℕ
  pub communication_session_id : Option ℕ
  pub sender_principal_id : ℕ
  pub sender_device_id : Option ℕ
  pub target_kind : TargetKind
  pub target_principal_id : ℕ
  pub target_endpoint_id : Option ℕ
  pub target_session_handle : Option ℕ
  pub kind : MessageKind
  pub payload : ℕ
  pub reply_to : Option ℕ
  pub correlation_id : Option ℕ
  pub sequence : ℕ
  pub created_at : ℕ
  pub expires_at : ℕ

-- `RuntimeEvent`: its type and data.
pub data EventBody : Type 0 where
  message_dispatch : (envelope : MessageEnvelope) (delivery_id : ℕ) → EventBody
  comm_request :
      (comm requester device : ℕ) (kind : TargetKind) (requested_at request_expires_at : ℕ)
      → EventBody
  comm_activated : (comm endpoint handle activated_at grant_expires_at : ℕ) → EventBody
  comm_declined : (comm : ℕ) → EventBody
  comm_revoked : (comm : ℕ) (endpoint handle : Option ℕ) (revoked_at : ℕ) → EventBody
  comm_expired : (comm : ℕ) (endpoint handle : Option ℕ) (expired_at : ℕ) → EventBody

pub record EventRow : Type 0 where
  pub endpoint_id : ℕ
  pub seq : ℕ
  pub body : EventBody
  pub created_at : ℕ

pub data Actor : Type 0 where
  system : Actor
  principal : ℕ → Actor

pub data Action : Type 0 where
  comm_requested comm_activated comm_declined comm_revoked comm_expired : Action
  message_inbox_persisted message_queued delivery_dispatched delivery_late_ack : Action
  delivery_phase : AckPhase → Action
  injection_validated injection_rejected : Action
  endpoint_registered endpoint_reregistered : Action
  runtime_session_registered runtime_session_updated : Action
  default_route_set default_route_cleared target_offer_created target_offer_revoked : Action

-- An audit row, without its free-form metadata.
pub record AuditRow : Type 0 where
  pub actor : Actor
  pub action : Action
  pub entity_id : ℕ
  pub created_at : ℕ

pub record Db : Type 0 where
  pub principals : List ℕ
  pub endpoints : List EndpointRow
  pub sessions : List SessionRow
  pub routes : List RouteRow
  pub offers : List OfferRow
  pub comms : List CommRow
  pub messages : List MessageRow
  pub deliveries : List DeliveryRow
  pub attempts : List AttemptRow
  pub inbox : List InboxRow
  pub events : List EventRow
  pub audits : List AuditRow

-- `AuthContext` of src/control-plane/auth.ts, without the token.
pub record AuthContext : Type 0 where
  pub principal_id : ℕ
  pub device_id : ℕ

-- status IN ('queued', 'dispatched', 'device_acked', 'runtime_pending')
abbrev pub is_open : DeliveryStatus → Bool
is_open DeliveryStatus.queued = true
is_open DeliveryStatus.dispatched = true
is_open DeliveryStatus.device_acked = true
is_open DeliveryStatus.runtime_pending = true
is_open _ = false

-- ["expired", "revoked", "rejected", "failed"].includes(status)
abbrev pub is_terminal : DeliveryStatus → Bool
is_terminal DeliveryStatus.expired = true
is_terminal DeliveryStatus.revoked = true
is_terminal DeliveryStatus.rejected = true
is_terminal DeliveryStatus.failed = true
is_terminal _ = false

abbrev pub is_pending : CommunicationStatus → Bool
is_pending CommunicationStatus.pending = true
is_pending _ = false

abbrev pub is_active : CommunicationStatus → Bool
is_active CommunicationStatus.active = true
is_active _ = false

abbrev pub is_closed : SessionState → Bool
is_closed SessionState.closed = true
is_closed _ = false
