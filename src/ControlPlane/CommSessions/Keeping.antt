-- ===== src/ControlPlane/CommSessions/Keeping.antt =====
-- The operations on communication sessions move the database along.
use aicoo_local_agent.Common.{
  ℕ, refl, inl, inr, List, [], ◌∷◌, Option, arith, Bool-cases, Option-cases, truthy, ◌==◌,
  Evolves-refl, Evolves-append, has_row,
}
use aicoo_local_agent.ControlPlane.Schema.{
  CommunicationStatus, DeliveryStatus, TargetKind, CommRow, Db, AuthContext,
}
use aicoo_local_agent.ControlPlane.Evolution.{
  CommMoves, CommMoves-refl, DeliveryMoves, DeliveryMoves-refl, Unchanged, Evolution,
  Evolution-refl, Evolution-trans, Keeps, Keeps-pure, keeps_rules,
}
use aicoo_local_agent.ControlPlane.Endpoints.{get_session_owned, get_default_route}
use aicoo_local_agent.ControlPlane.Offers.{resolve}
use aicoo_local_agent.ControlPlane.CommSessions.Ending.{
  audit-Evolution, broadcast-Evolution, end_deliveries-Evolution, get_visible-Keeps,
  expire_route_step, broadcast_step, audit_step, comms_only,
}
use aicoo_local_agent.ControlPlane.CommSessions.Expiry.{get_visible, find_comm}
use aicoo_local_agent.ControlPlane.CommSessions.{
  RequestInput, check_target, insert_comm, request, accept_route, row_for, activate,
  require_pending, accept, grant, accept_on, close_declined, decline, close_revoked, revoke,
  require_active, is_waiting, is_granted, grant_to, visible_all, list,
}

pub require_active-Keeps : (now principal comm : ℕ) → Keeps (require_active now principal comm)
unfolding require_active
require_active-Keeps now principal comm = search (keeps_rules, get_visible-Keeps)

get_session_owned-Keeps :
    (auth : AuthContext) (endpoint handle : ℕ) → Keeps (get_session_owned auth endpoint handle)
unfolding get_session_owned
get_session_owned-Keeps auth endpoint handle = record { at = Evolution-refl }

resolve-Keeps : (now offer owner audience : ℕ) → Keeps (resolve now offer owner audience)
unfolding resolve
resolve-Keeps now offer owner audience = record { at = Evolution-refl }

check_target-Keeps :
    (now : ℕ) (auth : AuthContext) (kind : TargetKind) (owner : ℕ) (offer : Option ℕ)
    → Keeps (check_target now auth kind owner offer)
unfolding check_target
check_target-Keeps now auth TargetKind.runtime_session owner offer =
    search (keeps_rules, resolve-Keeps)
check_target-Keeps now auth _ owner offer = Keeps-pure tt

insert_comm-Keeps : (row : CommRow) → Keeps (insert_comm row)
unfolding insert_comm
insert_comm-Keeps row = record {
  at = λ db. elim (Bool-cases (has_row (λ r. r.comm_session_id == row.comm_session_id) db.comms)) [
    | inl old ↦ rw (old, insert_comm) (Evolution-refl db)
    | inr new ↦
        rw (new, insert_comm)
          (record {
            comms = Evolves-append CommMoves CommMoves-refl db.comms (row ∷ []);
            deliveries = Evolves-refl DeliveryMoves DeliveryMoves-refl db.deliveries;
            messages = Evolves-refl Unchanged (λ a. refl) db.messages;
          })
  ];
}

pub request-Keeps :
    (now fresh : ℕ) (auth : AuthContext) (input : RequestInput)
    → Keeps (request now fresh auth input)
unfolding request
request-Keeps now fresh auth input =
    search
      (
        keeps_rules, get_session_owned-Keeps, check_target-Keeps, insert_comm-Keeps, broadcast_step,
        audit_step, get_visible-Keeps,
      )
      depth 14

accept_route-Keeps :
    (now : ℕ) (auth : AuthContext) (kind : TargetKind) (row : CommRow)
    → Keeps (accept_route now auth kind row)
unfolding accept_route
accept_route-Keeps now auth TargetKind.person_default_runtime row = record {
  at = λ db. elim (Option-cases (get_default_route auth.principal_id db)) [
    | inl e ↦ rw (e, accept_route) (Evolution-refl db)
    | inr (r, e) ↦ rw (e, accept_route) (Evolution-refl db)
  ];
}
accept_route-Keeps now auth TargetKind.runtime_session row = record {
  at = λ db. elim (Bool-cases (truthy row.target_offer_id)) [
    | inl e ↦
        rw (e, accept_route)
          ((resolve-Keeps now _ auth.principal_id row.requester_principal_id).at db)
    | inr e ↦ rw (e, accept_route) (Evolution-refl db)
  ];
}
accept_route-Keeps now auth TargetKind.human_inbox row = record { at = Evolution-refl }

row_for-Keeps : (comm : ℕ) → Keeps (row_for comm)
unfolding row_for
row_for-Keeps comm = record {
  at = λ db. elim (Option-cases (find_comm comm db.comms)) [
    | inl e ↦ rw (e, row_for) (Evolution-refl db)
    | inr (r, e) ↦ rw (e, row_for) (Evolution-refl db)
  ];
}

activate-Keeps :
    (now : ℕ) (auth : AuthContext) (row : CommRow) (endpoint handle expires : ℕ)
    → Keeps (activate now auth row endpoint handle expires)
unfolding activate
activate-Keeps now auth row endpoint handle expires = record {
  at = λ db. elim (Bool-cases (has_row (is_waiting row.comm_session_id) db.comms)) [
    | inl e ↦
        rw (e, activate)
          (audit-Evolution _ _ _ _ db _ (
            broadcast-Evolution _ _ _ db _ (
              comms_only db (is_waiting row.comm_session_id) (grant_to now endpoint handle expires)
                (λ a p. unfold is_waiting grant_to in ground arith))))
    | inr e ↦ rw (e, activate) (Evolution-refl db)
  ];
}

require_pending-Keeps : (s : CommunicationStatus) → Keeps (require_pending s)
unfolding require_pending
require_pending-Keeps s = search keeps_rules

grant-Keeps :
    (now : ℕ) (auth : AuthContext) (comm : ℕ) (row : CommRow) (endpoint handle : ℕ)
    → Keeps (grant now auth comm row endpoint handle)
unfolding grant
grant-Keeps now auth comm row endpoint handle =
    search (keeps_rules, get_visible-Keeps, row_for-Keeps, activate-Keeps)

accept_on-Keeps :
    (now : ℕ) (auth : AuthContext) (comm : ℕ) (row : CommRow) (endpoint handle : ℕ)
    → Keeps (accept_on now auth comm row endpoint handle)
unfolding accept_on
accept_on-Keeps now auth comm row endpoint handle =
    search (keeps_rules, expire_route_step, grant-Keeps) depth 10

pub accept-Keeps : (now : ℕ) (auth : AuthContext) (comm : ℕ) → Keeps (accept now auth comm)
unfolding accept
accept-Keeps now auth comm =
    search
      (keeps_rules, get_visible-Keeps, require_pending-Keeps, accept_route-Keeps, accept_on-Keeps)
      depth 10

close_declined_step :
    (now : ℕ) (auth : AuthContext) (row : CommRow) (db : Db)
    → Evolution db (close_declined now auth row db)
unfolding close_declined
close_declined_step now auth row db = audit-Evolution _ _ _ _ db _ (
    broadcast-Evolution _ _ _ db _
      (comms_only db (is_waiting row.comm_session_id) _ (λ a p. ground arith)))

pub decline-Keeps : (now : ℕ) (auth : AuthContext) (comm : ℕ) → Keeps (decline now auth comm)
unfolding decline
decline-Keeps now auth comm =
    search (keeps_rules, get_visible-Keeps, require_pending-Keeps, close_declined_step) depth 10

close_revoked_step :
    (now : ℕ) (auth : AuthContext) (row : CommRow) (db : Db)
    → Evolution db (close_revoked now auth row db)
unfolding close_revoked
close_revoked_step now auth row db = audit-Evolution _ _ _ _ db _ (
    broadcast-Evolution _ _ _ db _ (
      end_deliveries-Evolution now _ DeliveryStatus.revoked _ db _ refl
        (comms_only db (is_granted row.comm_session_id) _ (λ a p. ground arith))))

pub revoke-Keeps : (now : ℕ) (auth : AuthContext) (comm : ℕ) → Keeps (revoke now auth comm)
unfolding revoke
revoke-Keeps now auth comm = search (keeps_rules, get_visible-Keeps, close_revoked_step) depth 10

visible_all-Evolution :
    (now principal : ℕ) (rs : List CommRow) (db : Db)
    → Evolution db (visible_all now principal rs db).1
unfolding visible_all
visible_all-Evolution now principal [] db = Evolution-refl db
visible_all-Evolution now principal (r ∷ rs) db = ground (
  arith,
  Evolution-trans ((get_visible-Keeps now principal r.comm_session_id).at db)
      (visible_all-Evolution now principal rs (get_visible now principal r.comm_session_id db).1),
)

pub list-Evolution : (now principal : ℕ) (db : Db) → Evolution db (list now principal db).1
unfolding list
list-Evolution now principal db = visible_all-Evolution now principal _ db
