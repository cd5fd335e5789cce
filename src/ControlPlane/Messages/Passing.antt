-- ===== src/ControlPlane/Messages/Passing.antt =====
-- `validateInjection` in src/control-plane/services/messages.ts: the way to a positive verdict.
use aicoo_local_agent.Common.{
  ℕ, ◌≡◌, refl, Option, none, some, arith, Bool-cases, inl, inr, column_is, column_is_lem,
}
use aicoo_local_agent.ControlPlane.Schema.{
  EndpointRow, CommRow, DeliveryRow, MessageRow, Db, AuthContext,
}
use aicoo_local_agent.ControlPlane.Outcome.{Result, ok, fail, threw}
use aicoo_local_agent.ControlPlane.Endpoints.{get_owned}
use aicoo_local_agent.ControlPlane.CommSessions.{require_active}
use aicoo_local_agent.ControlPlane.Messages.Injection.{
  InjectionInput, valid, find_message, check_message, check_active, check_endpoint, judge,
  validate_injection,
}

module _ (now : ℕ) (auth : AuthContext) (input : InjectionInput) (db : Db) where
  -- The calls on the way to a positive verdict, with their results.
  pub record Passed : Type 0 where
    pub message : MessageRow
    pub delivery : DeliveryRow
    pub endpoint : EndpointRow
    pub comm : CommRow
    pub found : find_message input.message_id db ≡ some (message, delivery)
    pub of_session : message.comm_session_id ≡ some input.communication_session_id
    pub to_endpoint : delivery.endpoint_id ≡ some input.endpoint_id
    pub owned : (get_owned auth input.endpoint_id db).0 ≡ ok endpoint
    pub active :
        (require_active now auth.principal_id input.communication_session_id db).0 ≡ ok comm
    pub checked :
        check_message now input message delivery
          (require_active now auth.principal_id input.communication_session_id db).1
        ≡ valid

  check_active-valid :
      (m : MessageRow) (d : DeliveryRow) (p : Result CommRow × Db)
      → (check_active now input m d p).0 ≡ valid
      → (c : CommRow) × (p.0 ≡ ok c) × (check_message now input m d p.1 ≡ valid)
  unfolding check_active
  check_active-valid m d (ok c, w) h = (c, refl, h)
  check_active-valid m d (fail code s, w) h = absurd (ground arith)
  check_active-valid m d (threw, w) h = absurd (ground arith)

  check_endpoint-valid :
      (m : MessageRow) (d : DeliveryRow) (r : Result EndpointRow)
      → (check_endpoint now auth input m d r db).0 ≡ valid
      → (e : EndpointRow) × (r ≡ ok e)
        × (d.endpoint_id ≡ some input.endpoint_id)
        × ((check_active now input m d
              (require_active now auth.principal_id input.communication_session_id db)).0
            ≡ valid)
  unfolding check_endpoint
  check_endpoint-valid m d (ok e) h =
      elim (Bool-cases (column_is d.endpoint_id input.endpoint_id)) [
        | inl same ↦ (
          e,
          refl,
          column_is_lem d.endpoint_id input.endpoint_id same,
          rw (same, check_endpoint) at h,
        )
        | inr other ↦ absurd (cc (rw (other, check_endpoint) at h))
      ]
  check_endpoint-valid m d (fail code s) h = absurd (ground arith)
  check_endpoint-valid m d threw h = absurd (ground arith)

  judge-valid :
      (found : Option (MessageRow × DeliveryRow))
      → (judge now auth input found db).0 ≡ valid
      → (m : MessageRow) × (d : DeliveryRow) × (found ≡ some (m, d))
        × (m.comm_session_id ≡ some input.communication_session_id)
        × ((check_endpoint now auth input m d (get_owned auth input.endpoint_id db).0 db).0 ≡ valid)
  unfolding judge
  judge-valid none h = absurd (ground arith)
  judge-valid (some (m, d)) h =
      elim (Bool-cases (column_is m.comm_session_id input.communication_session_id)) [
        | inl same ↦ (m, d, refl, column_is_lem m.comm_session_id _ same, rw (same, judge) at h)
        | inr other ↦ absurd (cc (rw (other, judge) at h))
      ]

  pub validate_injection-Passed : (validate_injection now auth input db).0 ≡ valid → Passed
  unfolding validate_injection
  validate_injection-Passed h =
      let (m, d, found, of_session, h₁) = judge-valid (find_message input.message_id db) h in
      let (e, owned, to_endpoint, h₂) = check_endpoint-valid m d _ h₁ in
      let (c, active, checked) =
        check_active-valid m d
          (require_active now auth.principal_id input.communication_session_id db) h₂ in
      record {
        message = m;
        delivery = d;
        endpoint = e;
        comm = c;
        found = found;
        of_session = of_session;
        to_endpoint = to_endpoint;
        owned = owned;
        active = active;
        checked = checked;
      }
