-- ===== src/ControlPlane/History/Revocation.antt =====
-- Revocation is final: no later history lets a bridge inject a message of a revoked session.
use aicoo_local_agent.Common.{
  ℕ, ◌≤◌, ◌≡◌, refl, sym, subst, has_row-mem, column_is, ◌∙◌, ap, ◌≢◌, List, false, Option, some,
  arith, ◌==◌, ◌&&◌, select_first-update_where, Memᴰ, All-update_where,
}
use aicoo_local_agent.ControlPlane.Schema.{
  CommunicationStatus, CommRow, DeliveryRow, MessageRow, Db, AuthContext, is_open,
}
use aicoo_local_agent.ControlPlane.Outcome.{ok, >>=-eq-ok, require, modify, ◌>>=◌, ◌>>◌}
use aicoo_local_agent.ControlPlane.Evolution.{comm_rank}
use aicoo_local_agent.ControlPlane.Events.{audit, broadcast}
use aicoo_local_agent.ControlPlane.CommSessions
use aicoo_local_agent.ControlPlane.CommSessions.{close_revoked, is_granted, require_active}
use aicoo_local_agent.ControlPlane.CommSessions.Expiry.{
  find_comm, get_visible, expire_if_needed, expire_found, is_overdue, end_deliveries, ends_with,
}
use aicoo_local_agent.ControlPlane.CommSessions.Activity.{find_comm-id, get_visible-ok}
use aicoo_local_agent.ControlPlane.Messages.{Node}
use aicoo_local_agent.ControlPlane.Messages.Soundness.{IsInjectable, validate_injection_sound}
use aicoo_local_agent.ControlPlane.Messages.Injection.{InjectionInput, valid, validate_injection}
use aicoo_local_agent.ControlPlane.History.{Call, run, find_comm-run}

expire_found_closed :
    (now : ℕ) (row : CommRow) (db : Db)
    → 2 ≤ comm_rank row.status
    → expire_found now (some row) db ≡ db
unfolding expire_found is_overdue
expire_found_closed now row db closed = ground arith

module _ (now comm : ℕ) (db : Db) (row : CommRow) (found : find_comm comm db.comms ≡ some row)
    (closed : 2 ≤ comm_rank row.status) where
  -- A closed session is looked at without a change.
  pub expire_closed : expire_if_needed now comm db ≡ db
  unfolding expire_if_needed
  expire_closed =
      ap (λ (o : Option CommRow). expire_found now o db) found
      ∙ expire_found_closed now row db closed

  -- No message of a closed session may be injected.
  pub closed_not_valid :
      (auth : AuthContext) (input : InjectionInput)
      → input.communication_session_id ≡ comm
      → (validate_injection now auth input db).0 ≢ valid
  closed_not_valid auth input same h =
      let v : IsInjectable now auth input db = validate_injection_sound now auth input db h in
      let standing : find_comm comm db.comms ≡ some v.comm =
        subst (λ k. find_comm k db.comms ≡ some v.comm) same v.comm_found in
      still_active row v.comm (sym found ∙ standing) closed v.current.active
    where
      still_active :
          (a b : CommRow)
          → some a ≡ some b
          → 2 ≤ comm_rank a.status
          → b.status ≡ CommunicationStatus.active
          → ⊥
      still_active a b e k act = ground arith

-- What `revoke` has done when it succeeds.
revoke-ok :
    (now : ℕ) (auth : AuthContext) (comm : ℕ) (db after : Db)
    → CommSessions.revoke now auth comm db ≡ (ok tt, after)
    → (c : CommRow) × (mid : Db) × (find_comm comm mid.comms ≡ some c)
      × (c.status ≡ CommunicationStatus.active)
      × (close_revoked now auth c mid ≡ after)
unfolding CommSessions.revoke require modify ◌>>◌ ◌>>=◌
revoke-ok now auth comm db after h =
    let (c, mid, seen, rest) = >>=-eq-ok (get_visible now auth.principal_id comm) _ db after h in
    (
      c,
      mid,
      (get_visible-ok now auth.principal_id comm db mid c seen).0,
      ground arith,
      ground arith,
    )

module _ (now : ℕ) (auth : AuthContext) (comm : ℕ) (c : CommRow) (mid : Db)
    (found : find_comm comm mid.comms ≡ some c) where
  find_comm-close_revoked :
      c.status ≡ CommunicationStatus.active
      → find_comm comm (close_revoked now auth c mid).comms
        ≡ some (record c { status = CommunicationStatus.revoked; revoked_at = some now })
  unfolding close_revoked audit broadcast end_deliveries find_comm
  find_comm-close_revoked act =
      select_first-update_where (λ r. r.comm_session_id == comm) (is_granted c.comm_session_id) _
        (λ a. refl) mid.comms c found
      ∙ ground (arith, act)

  closed_deliveries :
      (d : DeliveryRow) (m : MessageRow)
      → Memᴰ d (close_revoked now auth c mid).deliveries
      → Memᴰ m (close_revoked now auth c mid).messages
      → m.message_id ≡ d.message_id
      → m.comm_session_id ≡ some comm
      → is_open d.status ≡ false
  unfolding close_revoked audit broadcast end_deliveries
  closed_deliveries d m d_in m_in same of_session =
      let left =
        All-update_where (ends_with c.comm_session_id mid.messages) _ mid.deliveries d_in
          (λ a n p. ground arith) in
      let own = find_comm-id comm mid.comms c found in
      let there =
        has_row-mem
          (λ (x : MessageRow).
            x.message_id == d.message_id && column_is x.comm_session_id c.comm_session_id)
          mid.messages m_in (ground (arith, own, of_session)) in
      ground (arith, left, there)

-- A revocation that succeeds leaves the session revoked.
find_comm-revoke :
    (now : ℕ) (auth : AuthContext) (comm : ℕ) (db after : Db)
    → CommSessions.revoke now auth comm db ≡ (ok tt, after)
    → (row : CommRow) × (find_comm comm after.comms ≡ some row)
      × (row.status ≡ CommunicationStatus.revoked)
find_comm-revoke now auth comm db after h =
    let (c, mid, found, act, e) = revoke-ok now auth comm db after h in
    let gone : CommRow = record c { status = CommunicationStatus.revoked; revoked_at = some now } in
    (
      gone,
      subst (λ (d : Db). find_comm comm d.comms ≡ some gone) e
          (find_comm-close_revoked now auth comm c mid found act),
      refl,
    )

-- When `revoke` succeeds, no delivery of a message of the session is left open: none is queued,
-- dispatched, device_acked or runtime_pending.
pub revoke_closes_deliveries :
    (now : ℕ) (auth : AuthContext) (comm : ℕ) (db after : Db) (d : DeliveryRow) (m : MessageRow)
    → CommSessions.revoke now auth comm db ≡ (ok tt, after)
    → Memᴰ d after.deliveries
    → Memᴰ m after.messages
    → m.message_id ≡ d.message_id
    → m.comm_session_id ≡ some comm
    → is_open d.status ≡ false
revoke_closes_deliveries now auth comm db after d m h d_in m_in same of_session =
    let (c, mid, found, act, e) = revoke-ok now auth comm db after h in
    closed_deliveries now auth comm c mid found d m
      (subst (λ (x : Db). Memᴰ d x.deliveries) (sym e) d_in)
      (subst (λ (x : Db). Memᴰ m x.messages) (sym e) m_in) same of_session

-- When `revoke` succeeds, then after any later calls, at any times and in any order, no caller's
-- request to inject a message of the session is valid.
pub revoked_never_valid :
    (node : Node) (now : ℕ) (auth : AuthContext) (comm : ℕ) (db after : Db)
    (calls : List (ℕ × Call)) (later : ℕ) (caller : AuthContext) (input : InjectionInput)
    → CommSessions.revoke now auth comm db ≡ (ok tt, after)
    → input.communication_session_id ≡ comm
    → (validate_injection later caller input (run node after calls)).0 ≢ valid
revoked_never_valid node now auth comm db after calls later caller input h same =
    let (row, found, revoked) = find_comm-revoke now auth comm db after h in
    let closed : 2 ≤ comm_rank row.status = ground (arith, revoked) in
    closed_not_valid later comm (run node after calls) row
      (find_comm-run node after calls comm row found closed) closed caller input same
