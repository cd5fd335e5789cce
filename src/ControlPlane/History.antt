-- ===== src/ControlPlane/History.antt =====
-- Histories of the control plane: the calls of its services, in any order, each at its time, and
-- what holds after all of them.
pub mod Revocation
pub mod Retry
use aicoo_local_agent.Common.{
  ℕ, ◌≤◌, ◌≡◌, ap, List, [], ◌∷◌, some, ◌==◌, Option, select_first, Memᴰ, Evolves-select_first,
}
use aicoo_local_agent.ControlPlane.Schema.{Db, AuthContext, CommRow, DeliveryRow, MessageRow}
use aicoo_local_agent.ControlPlane.Evolution.{
  comm_rank, delivery_rank, CommMoves, DeliveryMoves, Unchanged, Evolution, Evolution-refl,
  Evolution-trans,
}
use aicoo_local_agent.ControlPlane.Endpoints
use aicoo_local_agent.ControlPlane.Endpoints.{
  RegisterEndpointInput, RegisterRuntimeSessionInput, SessionUpdate,
}
use aicoo_local_agent.ControlPlane.Offers
use aicoo_local_agent.ControlPlane.Offers.{CreateOfferInput}
use aicoo_local_agent.ControlPlane.CommSessions
use aicoo_local_agent.ControlPlane.CommSessions.Expiry.{find_comm, get_visible}
use aicoo_local_agent.ControlPlane.CommSessions.{RequestInput}
use aicoo_local_agent.ControlPlane.CommSessions.Ending.{get_visible-Keeps}
use aicoo_local_agent.ControlPlane.CommSessions.Keeping.{
  request-Keeps, accept-Keeps, decline-Keeps, revoke-Keeps, list-Evolution,
}
use aicoo_local_agent.ControlPlane.Messages.{
  SendMessageInput, Node, Fresh, send, mark_dispatched, find_delivery,
}
use aicoo_local_agent.ControlPlane.Messages.Acknowledge.{DeliveryAckInput, acknowledge}
use aicoo_local_agent.ControlPlane.Messages.Injection.{InjectionInput, validate_injection}
use aicoo_local_agent.ControlPlane.Messages.Keeping.{
  send-Keeps, acknowledge-Keeps, mark_dispatched-Evolution, validate_injection-Evolution,
}
use aicoo_local_agent.ControlPlane.Endpoints.Keeping as EndpointLaws

pub data Call : Type 0 where
  register : (fresh : ℕ) (auth : AuthContext) (input : RegisterEndpointInput) → Call
  heartbeat : (auth : AuthContext) (endpoint : ℕ) → Call
  list_endpoints : (principal : ℕ) → Call
  register_session :
      (fresh : ℕ) (auth : AuthContext) (endpoint : ℕ) (input : RegisterRuntimeSessionInput) → Call
  update_session : (auth : AuthContext) (endpoint handle : ℕ) (input : SessionUpdate) → Call
  close_session : (auth : AuthContext) (endpoint handle : ℕ) → Call
  set_default_route : (auth : AuthContext) (endpoint handle : ℕ) → Call
  clear_default_route : (auth : AuthContext) → Call
  create_offer : (fresh : ℕ) (auth : AuthContext) (input : CreateOfferInput) → Call
  revoke_offer : (auth : AuthContext) (offer : ℕ) → Call
  request : (fresh : ℕ) (auth : AuthContext) (input : RequestInput) → Call
  accept : (auth : AuthContext) (comm : ℕ) → Call
  decline : (auth : AuthContext) (comm : ℕ) → Call
  revoke : (auth : AuthContext) (comm : ℕ) → Call
  show_session : (principal comm : ℕ) → Call
  list_sessions : (principal : ℕ) → Call
  send_message : (ids : Fresh) (auth : AuthContext) (input : SendMessageInput) → Call
  acknowledge_delivery : (auth : AuthContext) (message : ℕ) (input : DeliveryAckInput) → Call
  validate : (auth : AuthContext) (input : InjectionInput) → Call
  dispatch : (message : ℕ) → Call

module _ (node : Node) where
  -- The database after one call, whatever it answered.
  pub handle : Db → ℕ → Call → Db
  handle db now (register fresh auth input) = (Endpoints.register now fresh auth input db).1
  handle db now (heartbeat auth endpoint) = (Endpoints.heartbeat now auth endpoint db).1
  handle db now (list_endpoints principal) = (Endpoints.list_for_principal now principal db).1
  handle db now (register_session fresh auth endpoint input) =
      (Endpoints.register_session now fresh auth endpoint input db).1
  handle db now (update_session auth endpoint h input) =
      (Endpoints.update_session now auth endpoint h input db).1
  handle db now (close_session auth endpoint h) = (Endpoints.close_session now auth endpoint h db).1
  handle db now (set_default_route auth endpoint h) =
      (Endpoints.set_default_route now auth endpoint h db).1
  handle db now (clear_default_route auth) = (Endpoints.clear_default_route now auth db).1
  handle db now (create_offer fresh auth input) = (Offers.create now fresh auth input db).1
  handle db now (revoke_offer auth offer) = (Offers.revoke now auth offer db).1
  handle db now (request fresh auth input) = (CommSessions.request now fresh auth input db).1
  handle db now (accept auth comm) = (CommSessions.accept now auth comm db).1
  handle db now (decline auth comm) = (CommSessions.decline now auth comm db).1
  handle db now (revoke auth comm) = (CommSessions.revoke now auth comm db).1
  handle db now (show_session principal comm) = (get_visible now principal comm db).1
  handle db now (list_sessions principal) = (CommSessions.list now principal db).1
  handle db now (send_message ids auth input) = (send node now ids auth input db).1
  handle db now (acknowledge_delivery auth message input) =
      (acknowledge now auth message input db).1
  handle db now (validate auth input) = (validate_injection now auth input db).1
  handle db now (dispatch message) = mark_dispatched now message db

  pub run : Db → List (ℕ × Call) → Db
  run db [] = db
  run db ((now, call) ∷ calls) = run (handle db now call) calls

  pub handle-Evolution : (db : Db) (now : ℕ) (call : Call) → Evolution db (handle db now call)
  unfolding handle
  handle-Evolution db now (register fresh auth input) =
      (EndpointLaws.register-Keeps now fresh auth input).at db
  handle-Evolution db now (heartbeat auth endpoint) =
      (EndpointLaws.heartbeat-Keeps now auth endpoint).at db
  handle-Evolution db now (list_endpoints principal) =
      (EndpointLaws.list_for_principal-Keeps now principal).at db
  handle-Evolution db now (register_session fresh auth endpoint input) =
      (EndpointLaws.register_session-Keeps now fresh auth endpoint input).at db
  handle-Evolution db now (update_session auth endpoint h input) =
      (EndpointLaws.update_session-Keeps now auth endpoint h input).at db
  handle-Evolution db now (close_session auth endpoint h) =
      (EndpointLaws.close_session-Keeps now auth endpoint h).at db
  handle-Evolution db now (set_default_route auth endpoint h) =
      (EndpointLaws.set_default_route-Keeps now auth endpoint h).at db
  handle-Evolution db now (clear_default_route auth) =
      (EndpointLaws.clear_default_route-Keeps now auth).at db
  handle-Evolution db now (create_offer fresh auth input) =
      (EndpointLaws.create-Keeps now fresh auth input).at db
  handle-Evolution db now (revoke_offer auth offer) =
      (EndpointLaws.revoke-Keeps now auth offer).at db
  handle-Evolution db now (request fresh auth input) = (request-Keeps now fresh auth input).at db
  handle-Evolution db now (accept auth comm) = (accept-Keeps now auth comm).at db
  handle-Evolution db now (decline auth comm) = (decline-Keeps now auth comm).at db
  handle-Evolution db now (revoke auth comm) = (revoke-Keeps now auth comm).at db
  handle-Evolution db now (show_session principal comm) =
      (get_visible-Keeps now principal comm).at db
  handle-Evolution db now (list_sessions principal) = list-Evolution now principal db
  handle-Evolution db now (send_message ids auth input) = (send-Keeps node now ids auth input).at db
  handle-Evolution db now (acknowledge_delivery auth message input) =
      (acknowledge-Keeps now auth message input).at db
  handle-Evolution db now (validate auth input) = validate_injection-Evolution now auth input db
  handle-Evolution db now (dispatch message) = mark_dispatched-Evolution now message db

  -- Any calls, at any times, in any order, only move the database along: no session or delivery
  -- falls back to an earlier status, one that is closed (a session declined, revoked or expired; a
  -- delivery beyond runtime_pending) never changes again, a granted session keeps its frozen route,
  -- its activation and its expiry, and a stored message is never edited or removed.
  pub run-Evolution : (db : Db) (calls : List (ℕ × Call)) → Evolution db (run db calls)
  unfolding run
  run-Evolution db [] = Evolution-refl db
  run-Evolution db ((now, call) ∷ calls) =
      Evolution-trans (handle-Evolution db now call) (run-Evolution (handle db now call) calls)

  -- A session that is closed is found, unchanged, after any calls.
  pub find_comm-run :
      (db : Db) (calls : List (ℕ × Call)) (comm : ℕ) (row : CommRow)
      → find_comm comm db.comms ≡ some row
      → 2 ≤ comm_rank row.status
      → find_comm comm (run db calls).comms ≡ some row
  unfolding find_comm
  find_comm-run db calls comm row found closed =
      let (b, e, moves) =
        Evolves-select_first CommMoves (λ r. r.comm_session_id) (λ x y m. m.id) comm db.comms
          (run db calls).comms row (run-Evolution db calls).comms found in
      rw e (ap some (moves.closed closed))

  -- A delivery that is closed is found, unchanged, after any calls.
  pub find_delivery-run :
      (db : Db) (calls : List (ℕ × Call)) (message : ℕ) (row : DeliveryRow)
      → find_delivery message db ≡ some row
      → 4 ≤ delivery_rank row.status
      → find_delivery message (run db calls) ≡ some row
  unfolding find_delivery
  find_delivery-run db calls message row found closed =
      let (b, e, moves) =
        Evolves-select_first DeliveryMoves (λ r. r.message_id) (λ x y m. m.message) message
          db.deliveries (run db calls).deliveries row (run-Evolution db calls).deliveries found in
      rw e (ap some (moves.closed closed))
