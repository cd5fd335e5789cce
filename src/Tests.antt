-- ===== src/Tests.antt =====
-- A small control plane with two people, each with one endpoint and one runtime session, and a
-- spool with one message; and runs of the theorems on them.
mod ControlPlaneRuns
mod BridgeRuns
mod SecurityRuns
mod SharedRuns
use aicoo_local_agent.Common.Int.{negsuc}
use aicoo_local_agent.Common.{ℕ, List, [], ◌∷◌, true, false, none, some}
use aicoo_local_agent.ControlPlane.Schema.{
  RuntimeKind, TargetKind, MessageKind, CommunicationStatus, DeliveryStatus, Presence, SessionState,
  EndpointRow, SessionRow, RouteRow, CommRow, MessageRow, DeliveryRow, Db, AuthContext,
}
use aicoo_local_agent.ControlPlane.Messages.{Destination, SendMessageInput, Node, Fresh}
use aicoo_local_agent.Bridge.Spool.{
  SpoolStatus, ReportPhase, Envelope, SpoolMessage, AttemptRow, CursorRow, Spool,
}
use aicoo_local_agent.Bridge.Injector.{Peers, Codes, Validation, Delivered}

abbrev pub requester : AuthContext
requester = record { principal_id = 1; device_id = 11 }

abbrev pub recipient : AuthContext
recipient = record { principal_id = 2; device_id = 12 }

abbrev pub endpoint : ℕ → AuthContext → EndpointRow
endpoint id auth = record {
  endpoint_id = id;
  principal_id = auth.principal_id;
  device_id = auth.device_id;
  runtime = RuntimeKind.codex;
  bridge_version = "0.1.0";
  adapter_version = "codex-1";
  capabilities_json = 5;
  presence = Presence.online;
  last_seen_at = 900;
  created_at = 100;
}

abbrev pub session : ℕ → ℕ → AuthContext → SessionRow
session handle id auth = record {
  session_handle = handle;
  endpoint_id = id;
  principal_id = auth.principal_id;
  label = 7;
  state = SessionState.idle;
  capabilities_json = 5;
  allow_inbound = true;
  allow_mid_turn_steer = false;
  created_at = 200;
  last_active_at = 200;
}

abbrev pub waiting : CommRow
waiting = record {
  comm_session_id = 301;
  requester_principal_id = 1;
  requester_device_id = some 11;
  requester_reply_endpoint_id = 101;
  requester_reply_session_handle = 201;
  recipient_principal_id = 2;
  target_kind = TargetKind.person_default_runtime;
  target_offer_id = none;
  frozen_endpoint_id = none;
  frozen_session_handle = none;
  requested_ttl_minutes = 30;
  status = CommunicationStatus.pending;
  requested_at = 1000;
  request_expires_at = 601000;
  activated_at = none;
  grant_expires_at = none;
  revoked_at = none;
}

abbrev pub granted : CommRow
granted = record waiting {
  frozen_endpoint_id = some 102;
  frozen_session_handle = some 202;
  status = CommunicationStatus.active;
  activated_at = some 2000;
  grant_expires_at = some 1802000;
}

abbrev pub sent : MessageRow
sent = record {
  message_id = 401;
  client_message_id = 402;
  request_hash = 77;
  comm_session_id = some 301;
  sender_principal_id = 1;
  sender_device_id = some 11;
  target_kind = TargetKind.person_default_runtime;
  target_principal_id = 2;
  target_endpoint_id = some 102;
  target_session_handle = some 202;
  kind = MessageKind.text;
  payload_json = 9;
  reply_to = none;
  correlation_id = none;
  sequence = 1;
  created_at = 3000;
  expires_at = 1802000;
}

abbrev pub queued : DeliveryRow
queued = record {
  delivery_id = 501;
  message_id = 401;
  endpoint_id = some 102;
  status = DeliveryStatus.queued;
  queued_at = 3000;
  dispatched_at = none;
  device_ack_received_at = none;
  runtime_pending_at = none;
  runtime_ack_received_at = none;
  terminal_at = none;
  result_code = none;
  runtime_ack_id = none;
  adapter_label = none;
}

abbrev pub db_of : List CommRow → List MessageRow → List DeliveryRow → Db
db_of comms messages deliveries = record {
  principals = 1 ∷ 2 ∷ [];
  endpoints = endpoint 101 requester ∷ endpoint 102 recipient ∷ [];
  sessions = session 201 101 requester ∷ session 202 102 recipient ∷ [];
  routes =
      record { principal_id = 2; endpoint_id = 102; session_handle = 202; updated_at = 300 } ∷ [];
  offers = [];
  comms = comms;
  messages = messages;
  deliveries = deliveries;
  attempts = [];
  inbox = [];
  events = [];
  audits = [];
}

abbrev pub waiting_db : Db
waiting_db = db_of (waiting ∷ []) [] []

abbrev pub granted_db : Db
granted_db = db_of (granted ∷ []) [] []

abbrev pub sent_db : Db
sent_db = db_of (granted ∷ []) (sent ∷ []) (queued ∷ [])

abbrev pub greeting : SendMessageInput
greeting = record {
  destination = Destination.session 301;
  client_message_id = 402;
  kind = MessageKind.text;
  payload = 9;
  reply_to = none;
  correlation_id = none;
}

abbrev pub node : Node
node = record { stable_hash = λ input. input.payload; payload_bytes = λ payload. payload }

abbrev pub ids : Fresh
ids = record { message_id = 401; delivery_id = 501; inbox_item_id = 601 }

abbrev pub envelope : Envelope
envelope = record {
  id = 401;
  communication_session_id = some 301;
  session_handle = some 202;
  collaboration_id = none;
  correlation_id = none;
  reply_to = none;
  sequence = 1;
  expires_at = 1802000;
  content = 9;
}

abbrev pub spooled : ℕ → SpoolStatus → SpoolMessage
spooled attempts status = record {
  message_id = 401;
  delivery_id = 501;
  comm_session_id = 301;
  session_handle = 202;
  sequence = 1;
  envelope = envelope;
  status = status;
  attempt_count = attempts;
  last_result_code = none;
  runtime_ack_id = none;
}

abbrev pub report : AttemptRow
report = record {
  attempt_id = 801;
  message_id = 401;
  phase = ReportPhase.runtime_pending;
  result_code = none;
  retryable = true;
  runtime_ack_id = none;
  reported = false;
  created_at = 3500;
}

abbrev pub spool_of : List SpoolMessage → Spool
spool_of messages = record {
  cursors = record { key = 102; last_seq = negsuc 3 } ∷ [];
  adapter_cursors = [];
  mappings = [];
  messages = messages;
  grants = [];
  attempts = report ∷ [];
  replies = [];
}

abbrev pub peers : Peers
peers = record {
  now = 4000;
  codes = record {
    max_injection_attempts_exceeded = 1;
    control_plane_unavailable = 2;
    session_not_found = 3;
    runtime_unavailable = 4;
    queued_busy = 5;
    expired_before_ack = 6;
  };
  native_handle = λ handle. some 902;
  attempt_id = λ message. 802;
  validate = λ m. some Validation.valid;
  device_ack = λ m. true;
  report = λ row. false;
  deliver = λ native m. some (Delivered.runtime_acked (some 903));
}
