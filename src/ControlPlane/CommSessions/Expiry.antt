-- ===== src/ControlPlane/CommSessions/Expiry.antt =====
-- src/control-plane/services/comm-sessions.ts: what ends a session whose time has passed, and
-- `getVisible`, through which every other operation looks at a session.
use aicoo_local_agent.Common.{
  ℕ, List, [], ◌∷◌, Bool, true, false, not, ◌&&◌, ◌||◌, Option, none, some, ◌==◌, leb, column_is,
  if◌then◌else◌, select_first, select, has_row, update_where,
}
use aicoo_local_agent.ControlPlane.Schema.{
  ReasonCode, ResultCode, CommunicationStatus, DeliveryStatus, CommRow, DeliveryRow, MessageRow,
  EventBody, Actor, Action, Db, is_open, is_pending, is_active,
}
use aicoo_local_agent.ControlPlane.Outcome.{Result, ok, fail, Service}
use aicoo_local_agent.ControlPlane.Events.{audit, broadcast}

unfoldable pub find_comm : ℕ → List CommRow → Option CommRow
find_comm comm comms = select_first (λ r. r.comm_session_id == comm) comms

-- message_id IN (SELECT message_id FROM messages WHERE comm_session_id = ?) AND status IN (…)
unfoldable pub ends_with : ℕ → List MessageRow → DeliveryRow → Bool
ends_with comm messages d =
    has_row (λ m. m.message_id == d.message_id && column_is m.comm_session_id comm) messages
    && is_open d.status

unfoldable pub end_deliveries : ℕ → ℕ → DeliveryStatus → ReasonCode → Db → Db
unfolding ends_with
end_deliveries now comm status code db = record db {
  deliveries =
      update_where (ends_with comm db.messages)
        (λ d. record d {
          status = status;
          terminal_at = some now;
          result_code = some (ResultCode.reason code);
        })
        db.deliveries;
}

unfoldable pub same_status : CommunicationStatus → CommunicationStatus → Bool
same_status CommunicationStatus.pending CommunicationStatus.pending = true
same_status CommunicationStatus.active CommunicationStatus.active = true
same_status CommunicationStatus.declined CommunicationStatus.declined = true
same_status CommunicationStatus.revoked CommunicationStatus.revoked = true
same_status CommunicationStatus.expired CommunicationStatus.expired = true
same_status _ _ = false

abbrev pub is_past : ℕ → Option ℕ → Bool
is_past now none = false
is_past now (some t) = leb t now

unfoldable pub is_overdue : ℕ → CommRow → Bool
is_overdue now r =
    (is_pending r.status && leb r.request_expires_at now)
    || (is_active r.status && is_past now r.grant_expires_at)

-- The transaction that expires one session.
unfoldable pub expire_row : ℕ → CommRow → Option ℕ → Option ℕ → Db → Db
unfolding same_status
expire_row now row endpoint handle db =
    if has_row (λ r. r.comm_session_id == row.comm_session_id && same_status r.status row.status)
      db.comms
    then audit now Actor.system Action.comm_expired row.comm_session_id (
        broadcast now (EventBody.comm_expired row.comm_session_id endpoint handle now)
          (row.requester_principal_id ∷ row.recipient_principal_id ∷ [])
          (end_deliveries now row.comm_session_id DeliveryStatus.expired
            ReasonCode.communication_session_expired
            (record db {
              comms =
                  update_where
                    (λ r.
                      r.comm_session_id == row.comm_session_id && same_status r.status row.status)
                    (λ r. record r { status = CommunicationStatus.expired }) db.comms;
            })))
    else db

unfoldable pub expire_found : ℕ → Option CommRow → Db → Db
unfolding is_overdue
expire_found now none db = db
expire_found now (some row) db =
    if is_overdue now row
    then expire_row now row row.frozen_endpoint_id row.frozen_session_handle db
    else db

unfoldable pub expire_if_needed : ℕ → ℕ → Db → Db
unfolding find_comm expire_found
expire_if_needed now comm db = expire_found now (find_comm comm db.comms) db

unfoldable pub visible_to : ℕ → Option CommRow → Result CommRow
visible_to principal none = fail ReasonCode.not_found 404
visible_to principal (some row) =
    if not (row.requester_principal_id == principal)
      && not (row.recipient_principal_id == principal)
    then fail ReasonCode.not_found 404
    else ok row

unfoldable pub get_visible : ℕ → ℕ → ℕ → Service CommRow
unfolding find_comm visible_to
get_visible now principal comm db =
    let seen = expire_if_needed now comm db in
    (visible_to principal (find_comm comm seen.comms), seen)

unfoldable pub status_reason : CommunicationStatus → ReasonCode
status_reason CommunicationStatus.expired = ReasonCode.communication_session_expired
status_reason CommunicationStatus.revoked = ReasonCode.communication_session_revoked
status_reason CommunicationStatus.declined = ReasonCode.communication_session_declined
status_reason _ = ReasonCode.communication_session_not_active

unfoldable pub is_run_out : ℕ → ℕ → ℕ → ℕ → CommRow → Bool
is_run_out now principal endpoint handle r =
    r.recipient_principal_id == principal
    && column_is r.frozen_endpoint_id endpoint
    && column_is r.frozen_session_handle handle
    && is_active r.status
    && is_past now r.grant_expires_at

-- The loop of `expireActiveGrantsForRoute` over the rows that its SELECT found.
unfoldable pub expire_rows : ℕ → ℕ → ℕ → List CommRow → Db → Db
expire_rows now endpoint handle [] db = db
expire_rows now endpoint handle (r ∷ rs) db =
    expire_rows now endpoint handle rs (expire_row now r (some endpoint) (some handle) db)

unfoldable pub expire_active_grants_for_route : ℕ → ℕ → ℕ → ℕ → Db → Db
unfolding is_run_out
expire_active_grants_for_route now principal endpoint handle db =
    expire_rows now endpoint handle (select (is_run_out now principal endpoint handle) db.comms) db
