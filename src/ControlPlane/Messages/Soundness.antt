-- ===== src/ControlPlane/Messages/Soundness.antt =====
-- What `validateInjection` has established when it lets a message through.
use aicoo_local_agent.Common.{
  ℕ, ◌<◌, ◌≡◌, true, false, some, arith, Option-cases, inl, inr, ◌==◌, select_first_sound, Memᴰ,
}
use aicoo_local_agent.ControlPlane.Schema.{
  EndpointRow, CommRow, SessionRow, DeliveryRow, MessageRow, Db, AuthContext, is_terminal,
  is_closed,
}
use aicoo_local_agent.ControlPlane.Outcome.{ok}
use aicoo_local_agent.ControlPlane.Endpoints.{get_owned, owns_endpoint, get_session}
use aicoo_local_agent.ControlPlane.CommSessions.Activity.{IsCurrent, require_active_sound}
use aicoo_local_agent.ControlPlane.CommSessions.Expiry.{find_comm}
use aicoo_local_agent.ControlPlane.Messages.Injection.{
  InjectionInput, valid, find_message, check_message, validate_injection,
}
use aicoo_local_agent.ControlPlane.Messages.Passing.{Passed, validate_injection-Passed}

-- What a bridge may rely on: the message and its delivery, the endpoint and its owner, the live
-- grant, and the runtime session that the message is for.
pub record IsInjectable (now : ℕ) (auth : AuthContext) (input : InjectionInput) (db : Db)
    : Type 0 where
  pub message : MessageRow
  pub message_listed : Memᴰ message db.messages
  pub message_id : message.message_id ≡ input.message_id
  pub of_session : message.comm_session_id ≡ some input.communication_session_id
  pub message_unexpired : now < message.expires_at
  pub delivery : DeliveryRow
  pub delivery_listed : Memᴰ delivery db.deliveries
  pub delivery_of : delivery.message_id ≡ input.message_id
  pub to_endpoint : delivery.endpoint_id ≡ some input.endpoint_id
  pub not_terminal : is_terminal delivery.status ≡ false
  pub endpoint : EndpointRow
  pub endpoint_listed : Memᴰ endpoint db.endpoints
  pub endpoint_id : endpoint.endpoint_id ≡ input.endpoint_id
  pub owner : endpoint.principal_id ≡ auth.principal_id
  pub device : endpoint.device_id ≡ auth.device_id
  pub comm : CommRow
  pub comm_found : find_comm input.communication_session_id db.comms ≡ some comm
  pub current : IsCurrent now auth.principal_id comm
  pub session : SessionRow
  pub session_listed : Memᴰ session db.sessions
  pub session_requested : input.session_handle ≡ some session.session_handle
  pub session_addressed : message.target_session_handle ≡ some session.session_handle
  pub session_of : session.endpoint_id ≡ input.endpoint_id
  pub session_open : is_closed session.state ≡ false
  pub inbound : session.allow_inbound ≡ true

find_message_lem :
    (message : ℕ) (db : Db) (m : MessageRow) (d : DeliveryRow)
    → find_message message db ≡ some (m, d)
    → Memᴰ m db.messages
      × (m.message_id ≡ message)
      × Memᴰ d db.deliveries
      × (d.message_id ≡ message)
unfolding find_message
find_message_lem message db m d h =
    let (p, q) =
      select_first_sound (λ x. x.message_id == message) db.messages {a = m} (ground arith) in
    let (r, s) =
      select_first_sound (λ x. x.message_id == message) db.deliveries {a = d} (ground arith) in
    (p, ground arith, r, ground arith)

get_owned_lem :
    (auth : AuthContext) (endpoint : ℕ) (db : Db) (e : EndpointRow)
    → (get_owned auth endpoint db).0 ≡ ok e
    → Memᴰ e db.endpoints
      × (e.endpoint_id ≡ endpoint)
      × (e.principal_id ≡ auth.principal_id)
      × (e.device_id ≡ auth.device_id)
unfolding get_owned
get_owned_lem auth endpoint db e h =
    let (m, p) =
      select_first_sound (owns_endpoint auth endpoint) db.endpoints {a = e} (ground arith) in
    (m, ground arith, ground arith, ground arith)

-- The tests on the message and on the session's row.
check_message_lem :
    (now : ℕ) (input : InjectionInput) (m : MessageRow) (d : DeliveryRow) (db : Db)
    → check_message now input m d db ≡ valid
    → (s : SessionRow) × (h : ℕ) × (input.session_handle ≡ some h)
      × (get_session h db ≡ some s)
      × (is_terminal d.status ≡ false)
      × (now < m.expires_at)
      × (m.target_session_handle ≡ some h)
      × (s.endpoint_id ≡ input.endpoint_id)
      × (is_closed s.state ≡ false)
      × (s.allow_inbound ≡ true)
unfolding check_message
check_message_lem now input m d db h = elim (Option-cases input.session_handle) [
  | inl absent ↦ absurd (ground arith)
  | inr (handle, given) ↦ elim (Option-cases (get_session handle db)) [
    | inl missing ↦ absurd (ground arith)
    | inr (s, found) ↦ (
      s,
      handle,
      given,
      found,
      ground arith,
      ground arith,
      ground arith,
      ground arith,
      ground arith,
      ground arith,
    )
  ]
]

get_session_lem :
    (handle : ℕ) (db : Db) (s : SessionRow)
    → get_session handle db ≡ some s
    → Memᴰ s db.sessions × (s.session_handle ≡ handle)
unfolding get_session
get_session_lem handle db s h =
    let (m, p) = select_first_sound (λ x. x.session_handle == handle) db.sessions {a = s} h in
    (m, ground arith)

-- If a bridge's request to inject a message is answered `valid`, then in the database before the
-- call: the message is stored, is of the session and has not expired; its delivery is not expired,
-- revoked, rejected or failed and is for the endpoint, which the caller's device owns; the
-- communication session is active and unexpired and the caller takes part in it; and the runtime
-- session is the message's target, is at the endpoint, is open and takes inbound messages.
pub validate_injection_sound :
    (now : ℕ) (auth : AuthContext) (input : InjectionInput) (db : Db)
    → (validate_injection now auth input db).0 ≡ valid
    → IsInjectable now auth input db
validate_injection_sound now auth input db h =
    let p : Passed now auth input db = validate_injection-Passed now auth input db h in
    let (m_listed, m_id, d_listed, d_of) =
      find_message_lem input.message_id db p.message p.delivery p.found in
    let (e_listed, e_id, e_owner, e_device) =
      get_owned_lem auth input.endpoint_id db p.endpoint p.owned in
    let (current, standing, same) =
      require_active_sound now auth.principal_id input.communication_session_id db p.comm
        p.active in
    let checked : check_message now input p.message p.delivery db ≡ valid = rw same at p.checked in
    let (s, handle, given, found, live, unexpired, addressed, at_endpoint, still_open, inbound) =
      check_message_lem now input p.message p.delivery db checked in
    let (s_listed, s_handle) = get_session_lem handle db s found in
    record {
      message = p.message;
      message_listed = m_listed;
      message_id = m_id;
      of_session = p.of_session;
      message_unexpired = unexpired;
      delivery = p.delivery;
      delivery_listed = d_listed;
      delivery_of = d_of;
      to_endpoint = p.to_endpoint;
      not_terminal = live;
      endpoint = p.endpoint;
      endpoint_listed = e_listed;
      endpoint_id = e_id;
      owner = e_owner;
      device = e_device;
      comm = p.comm;
      comm_found = standing;
      current = current;
      session = s;
      session_listed = s_listed;
      session_requested = rw s_handle given;
      session_addressed = rw s_handle addressed;
      session_of = at_endpoint;
      session_open = still_open;
      inbound = inbound;
    }
