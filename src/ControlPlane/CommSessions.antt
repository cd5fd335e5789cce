-- ===== src/ControlPlane/CommSessions.antt =====
-- src/control-plane/services/comm-sessions.ts: communication sessions, from the request to the
-- grant and its end. `Expiry` holds the part that runs whenever a session is looked at.
pub mod Expiry
pub mod Ending
pub mod Keeping
pub mod Activity
pub mod Accepting
pub mod Exclusive
pub mod Granting
use aicoo_local_agent.Common.{
  ℕ, ◌+◌, ◌*◌, min, List, [], ◌∷◌, ◌++◌, Bool, true, false, not, ◌&&◌, ◌||◌, Option, none, some,
  ◌==◌, column_is, truthy, if◌then◌else◌, or_else, select_first, select, has_row, update_where,
  order_by,
}
use aicoo_local_agent.ControlPlane.Schema.{
  ReasonCode, TargetKind, CommunicationStatus, DeliveryStatus, CommRow, SessionRow, EventBody,
  Actor, Action, Db, AuthContext, is_closed, is_pending, is_active,
}
use aicoo_local_agent.ControlPlane.Outcome.{
  Result, ok, fail, threw, Service, pure, failure, require, lift, read, modify, ◌>>=◌, ◌>>◌,
}
use aicoo_local_agent.ControlPlane.Events.{audit, broadcast}
use aicoo_local_agent.ControlPlane.Endpoints.{get_session_owned, get_session, get_default_route}
use aicoo_local_agent.ControlPlane.Offers.{resolve}
use Expiry.{
  is_past, end_deliveries, find_comm, expire_if_needed, get_visible, status_reason,
  expire_active_grants_for_route,
}

pub record RequestInput : Type 0 where
  pub target_kind : TargetKind
  pub target_principal_id : ℕ
  pub target_offer_id : Option ℕ
  pub reply_endpoint_id : ℕ
  pub reply_session_handle : ℕ
  pub requested_ttl_minutes : Option ℕ

-- The offer behind a request for one runtime session.
unfoldable pub check_target : ℕ → AuthContext → TargetKind → ℕ → Option ℕ → Service (Unit {0})
check_target now auth TargetKind.runtime_session owner offer = do
  require (truthy offer) ReasonCode.invalid_request 400
  offered ← resolve now (or_else offer 0) owner auth.principal_id
  pure tt
check_target now auth _ owner offer = pure tt

unfoldable pub insert_comm : CommRow → Service (Unit {0})
insert_comm row db =
    if has_row (λ r. r.comm_session_id == row.comm_session_id) db.comms
    then (threw, db)
    else (ok tt, record db { comms = db.comms ++ row ∷ [] })

unfoldable pub pending_row : ℕ → ℕ → AuthContext → RequestInput → CommRow
pending_row now fresh auth input = record {
  comm_session_id = fresh;
  requester_principal_id = auth.principal_id;
  requester_device_id = some auth.device_id;
  requester_reply_endpoint_id = input.reply_endpoint_id;
  requester_reply_session_handle = input.reply_session_handle;
  recipient_principal_id = input.target_principal_id;
  target_kind = input.target_kind;
  target_offer_id = input.target_offer_id;
  frozen_endpoint_id = none;
  frozen_session_handle = none;
  requested_ttl_minutes = min (or_else input.requested_ttl_minutes 30) 30;
  status = CommunicationStatus.pending;
  requested_at = now;
  request_expires_at = now + 10 * 60 * 1000;
  activated_at = none;
  grant_expires_at = none;
  revoked_at = none;
}

unfoldable pub request : ℕ → ℕ → AuthContext → RequestInput → Service CommRow
request now fresh auth input = do
  reply ← get_session_owned auth input.reply_endpoint_id input.reply_session_handle
  require (not (is_closed reply.state)) ReasonCode.session_closed 409
  known ← read λ db. has_row (λ p. p == input.target_principal_id) db.principals
  require known ReasonCode.not_found 404
  check_target now auth input.target_kind input.target_principal_id input.target_offer_id
  insert_comm (pending_row now fresh auth input)
  modify (
      broadcast now
        (EventBody.comm_request fresh auth.principal_id auth.device_id input.target_kind now
          (now + 10 * 60 * 1000))
        (input.target_principal_id ∷ []))
  modify (audit now (Actor.principal auth.principal_id) Action.comm_requested fresh)
  get_visible now auth.principal_id fresh

-- The route that `accept` freezes: the recipient's default one, or the one of the offer.
unfoldable pub accept_route : ℕ → AuthContext → TargetKind → CommRow → Service (ℕ × ℕ)
accept_route now auth TargetKind.person_default_runtime current db =
    elim (get_default_route auth.principal_id db) [
      | none ↦ (fail ReasonCode.no_default_route 409, db)
      | some route ↦ (ok (route.endpoint_id, route.session_handle), db)
    ]
accept_route now auth TargetKind.runtime_session current db =
    if truthy current.target_offer_id
    then resolve now (or_else current.target_offer_id 0) auth.principal_id
        current.requester_principal_id db
    else (fail ReasonCode.offer_not_found 409, db)
accept_route now auth TargetKind.human_inbox current db =
    (fail ReasonCode.invalid_target_kind 400, db)

-- The session at the end of the route must exist, be the recipient's own, be open and take
-- inbound messages.
unfoldable pub check_session : AuthContext → ℕ → Option SessionRow → Result (Unit {0})
check_session auth endpoint none = fail ReasonCode.session_not_found 409
check_session auth endpoint (some s) =
    if not (s.endpoint_id == endpoint) || not (s.principal_id == auth.principal_id)
    then fail ReasonCode.session_not_found 409
    else if is_closed s.state
    then fail ReasonCode.session_closed 409
    else if not s.allow_inbound
    then fail ReasonCode.inbound_disabled 409
    else ok tt

-- The SELECT for another live grant on the route.
unfoldable pub blocks_route : ℕ → ℕ → ℕ → ℕ → ℕ → CommRow → Bool
blocks_route now principal endpoint handle comm r =
    r.recipient_principal_id == principal
    && column_is r.frozen_endpoint_id endpoint
    && column_is r.frozen_session_handle handle
    && is_active r.status
    && not (is_past now r.grant_expires_at)
    && not (r.comm_session_id == comm)

unfoldable pub row_for : ℕ → Service CommRow
unfolding find_comm
row_for comm db = elim (find_comm comm db.comms) [ none ↦ (threw, db) | some r ↦ (ok r, db) ]

unfoldable pub is_waiting : ℕ → CommRow → Bool
is_waiting comm r = r.comm_session_id == comm && is_pending r.status

-- The SET of `accept`: the grant with its frozen route.
unfoldable pub grant_to : ℕ → ℕ → ℕ → ℕ → CommRow → CommRow
grant_to now endpoint handle grant_expires_at r = record r {
  status = CommunicationStatus.active;
  frozen_endpoint_id = some endpoint;
  frozen_session_handle = some handle;
  activated_at = some now;
  grant_expires_at = some grant_expires_at;
}

-- The transaction of `accept`.
unfoldable pub activate : ℕ → AuthContext → CommRow → ℕ → ℕ → ℕ → Service (Unit {0})
activate now auth current endpoint handle grant_expires_at db =
    if has_row (is_waiting current.comm_session_id) db.comms
    then (
      ok tt,
      audit now (Actor.principal auth.principal_id) Action.comm_activated current.comm_session_id (
          broadcast now
            (EventBody.comm_activated current.comm_session_id endpoint handle now grant_expires_at)
            (current.requester_principal_id ∷ current.recipient_principal_id ∷ [])
            (record db {
              comms =
                  update_where (is_waiting current.comm_session_id)
                    (grant_to now endpoint handle grant_expires_at) db.comms;
            })),
    )
    else (fail ReasonCode.communication_session_not_active 409, db)

-- `if (status !== "pending") return failure(statusReason(status), 409)`
unfoldable pub require_pending : CommunicationStatus → Service (Unit {0})
require_pending s = require (is_pending s) (status_reason s) 409

-- The end of `accept`: the grant lasts half an hour at most.
unfoldable pub grant : ℕ → AuthContext → ℕ → CommRow → ℕ → ℕ → Service CommRow
grant now auth comm current endpoint handle = do
  row ← row_for comm
  activate now auth current endpoint handle (now + min row.requested_ttl_minutes 30 * 60 * 1000)
  get_visible now auth.principal_id comm

-- What `accept` does once it knows the route.
unfoldable pub accept_on : ℕ → AuthContext → ℕ → CommRow → ℕ → ℕ → Service CommRow
accept_on now auth comm current endpoint handle = do
  session ← read (get_session handle)
  lift (check_session auth endpoint session)
  modify (expire_active_grants_for_route now auth.principal_id endpoint handle)
  taken ← read λ db. has_row (blocks_route now auth.principal_id endpoint handle comm) db.comms
  require (not taken) ReasonCode.runtime_session_already_granted 409
  grant now auth comm current endpoint handle

unfoldable pub accept : ℕ → AuthContext → ℕ → Service CommRow
accept now auth comm = do
  current ← get_visible now auth.principal_id comm
  require (current.recipient_principal_id == auth.principal_id) ReasonCode.wrong_participant 403
  require_pending current.status
  route ← accept_route now auth current.target_kind current
  accept_on now auth comm current route.0 route.1

-- The transaction of `decline`.
unfoldable pub close_declined : ℕ → AuthContext → CommRow → Db → Db
unfolding is_waiting
close_declined now auth current db =
    audit now (Actor.principal auth.principal_id) Action.comm_declined current.comm_session_id (
      broadcast now (EventBody.comm_declined current.comm_session_id)
        (current.requester_principal_id ∷ [])
        (record db {
          comms =
              update_where (is_waiting current.comm_session_id)
                (λ r. record r { status = CommunicationStatus.declined }) db.comms;
        }))

unfoldable pub decline : ℕ → AuthContext → ℕ → Service (Unit {0})
decline now auth comm = do
  current ← get_visible now auth.principal_id comm
  require (current.recipient_principal_id == auth.principal_id) ReasonCode.wrong_participant 403
  require_pending current.status
  modify (close_declined now auth current)
  pure tt

unfoldable pub is_granted : ℕ → CommRow → Bool
is_granted comm r = r.comm_session_id == comm && is_active r.status

-- The transaction of `revoke`.
unfoldable pub close_revoked : ℕ → AuthContext → CommRow → Db → Db
unfolding is_granted
close_revoked now auth current db =
    audit now (Actor.principal auth.principal_id) Action.comm_revoked current.comm_session_id (
      broadcast now
        (EventBody.comm_revoked current.comm_session_id current.frozen_endpoint_id
          current.frozen_session_handle now)
        (current.requester_principal_id ∷ current.recipient_principal_id ∷ [])
        (end_deliveries now current.comm_session_id DeliveryStatus.revoked
          ReasonCode.communication_session_revoked
          (record db {
            comms =
                update_where (is_granted current.comm_session_id)
                  (λ r. record r { status = CommunicationStatus.revoked; revoked_at = some now })
                  db.comms;
          })))

unfoldable pub revoke : ℕ → AuthContext → ℕ → Service (Unit {0})
revoke now auth comm = do
  current ← get_visible now auth.principal_id comm
  require
      (current.requester_principal_id == auth.principal_id
        || current.recipient_principal_id == auth.principal_id)
      ReasonCode.wrong_participant 403
  require (is_active current.status) (status_reason current.status) 409
  modify (close_revoked now auth current)
  pure tt

unfoldable pub require_active : ℕ → ℕ → ℕ → Service CommRow
require_active now principal comm = do
  current ← get_visible now principal comm
  require (is_active current.status) (status_reason current.status) 403
  pure current

-- The loop of `list` over the rows that its SELECT found.
unfoldable pub visible_all : ℕ → ℕ → List CommRow → Db → List CommRow × Db
visible_all now principal [] db = ([], db)
visible_all now principal (r ∷ rs) db =
    let seen = get_visible now principal r.comm_session_id db in
    let rest = visible_all now principal rs seen.1 in
    elim seen.0 [ ok c ↦ (c ∷ rest.0, rest.1) | fail c s ↦ rest | threw ↦ rest ]

unfoldable pub list : ℕ → ℕ → Db → List CommRow × Db
list now principal db =
    visible_all now principal
      (order_by (λ r. r.requested_at)
        (select
          (λ r. r.requester_principal_id == principal || r.recipient_principal_id == principal)
          db.comms))
      db
