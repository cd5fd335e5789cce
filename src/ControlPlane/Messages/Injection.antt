-- ===== src/ControlPlane/Messages/Injection.antt =====
-- src/control-plane/services/messages.ts: `validateInjection`, asked for before every injection.
use aicoo_local_agent.Common.{
  ℕ, not, ◌||◌, Option, none, some, ◌==◌, leb, column_is, truthy, if◌then◌else◌, or_else,
  select_first,
}
use aicoo_local_agent.ControlPlane.Schema.{
  ReasonCode, MessageRow, DeliveryRow, SessionRow, CommRow, EndpointRow, Actor, Action, Db,
  AuthContext, is_terminal, is_closed,
}
use aicoo_local_agent.ControlPlane.Outcome.{Result, ok, fail, threw}
use aicoo_local_agent.ControlPlane.Events.{audit}
use aicoo_local_agent.ControlPlane.Endpoints.{get_owned, get_session}
use aicoo_local_agent.ControlPlane.CommSessions.{require_active}

pub record InjectionInput : Type 0 where
  pub message_id : ℕ
  pub communication_session_id : ℕ
  pub endpoint_id : ℕ
  pub session_handle : Option ℕ

pub data Verdict : Type 0 where
  valid : Verdict
  invalid : ReasonCode → Verdict

-- The row of the SELECT: a message joined with its delivery.
unfoldable pub find_message : ℕ → Db → Option (MessageRow × DeliveryRow)
find_message message db = elim (select_first (λ m. m.message_id == message) db.messages) [
  | none ↦ none
  | some m ↦ elim (select_first (λ d. d.message_id == message) db.deliveries) [
    | none ↦ none
    | some d ↦ some (m, d)
  ]
]

unfoldable pub check_session : InjectionInput → Option SessionRow → Verdict
check_session input none = invalid ReasonCode.session_not_found
check_session input (some s) =
    if not (s.endpoint_id == input.endpoint_id)
    then invalid ReasonCode.session_not_found
    else if is_closed s.state
    then invalid ReasonCode.session_closed
    else if not s.allow_inbound
    then invalid ReasonCode.inbound_disabled
    else valid

-- The tests below `requireActive`.
unfoldable pub check_message : ℕ → InjectionInput → MessageRow → DeliveryRow → Db → Verdict
unfolding check_session
check_message now input m d db =
    if is_terminal d.status
    then invalid ReasonCode.delivery_terminal
    else if leb m.expires_at now
    then invalid ReasonCode.message_expired
    else if not (truthy input.session_handle)
        || not (column_is m.target_session_handle (or_else input.session_handle 0))
    then invalid ReasonCode.wrong_target
    else check_session input (get_session (or_else input.session_handle 0) db)

unfoldable pub check_active :
    ℕ → InjectionInput → MessageRow → DeliveryRow → Result CommRow × Db → Verdict × Db
unfolding check_message
check_active now input m d (ok comm, db) = (check_message now input m d db, db)
check_active now input m d (fail code s, db) = (invalid code, db)
check_active now input m d (threw, db) = (invalid ReasonCode.not_found, db)

unfoldable pub check_endpoint :
    ℕ
    → AuthContext
    → InjectionInput
    → MessageRow
    → DeliveryRow
    → Result EndpointRow
    → Db
    → Verdict × Db
unfolding check_active
check_endpoint now auth input m d (ok e) db =
    if column_is d.endpoint_id input.endpoint_id
    then check_active now input m d
        (require_active now auth.principal_id input.communication_session_id db)
    else (invalid ReasonCode.endpoint_not_owned, db)
check_endpoint now auth input m d _ db = (invalid ReasonCode.endpoint_not_owned, db)

unfoldable pub judge :
    ℕ → AuthContext → InjectionInput → Option (MessageRow × DeliveryRow) → Db → Verdict × Db
unfolding check_endpoint
judge now auth input none db = (invalid ReasonCode.wrong_target, db)
judge now auth input (some (m, d)) db =
    if column_is m.comm_session_id input.communication_session_id
    then check_endpoint now auth input m d (get_owned auth input.endpoint_id db).0 db
    else (invalid ReasonCode.wrong_target, db)

abbrev pub verdict_action : Verdict → Action
verdict_action valid = Action.injection_validated
verdict_action (invalid code) = Action.injection_rejected

unfoldable pub validate_injection : ℕ → AuthContext → InjectionInput → Db → Verdict × Db
unfolding judge find_message
validate_injection now auth input db =
    let judged = judge now auth input (find_message input.message_id db) db in
    (
      judged.0,
      audit now (Actor.principal auth.principal_id) (verdict_action judged.0) input.message_id
          judged.1,
    )
