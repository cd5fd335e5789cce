-- ===== src/ControlPlane/CommSessions/Ending.antt =====
-- The statements that end a session or announce a change move the database along: the shared steps
-- of src/control-plane/services/comm-sessions.ts.
use aicoo_local_agent.Common.{
  ℕ, ◌<◌, ◌≡◌, refl, inl, inr, List, [], ◌∷◌, Bool, true, Option, none, some, arith, Bool-cases,
  ◌==◌, ◌&&◌, Evolves-refl, Evolves-update_where, has_row, select, update_where,
}
use aicoo_local_agent.ControlPlane.Schema.{
  ReasonCode, ResultCode, CommunicationStatus, DeliveryStatus, CommRow, DeliveryRow, EventBody, Db,
  Actor, Action,
}
use aicoo_local_agent.ControlPlane.Evolution.{
  comm_rank, delivery_rank, CommMoves, CommMoves-refl, DeliveryMoves, DeliveryMoves-refl, Unchanged,
  Evolution, Evolution-refl, Evolution-trans, Keeps,
}
use aicoo_local_agent.ControlPlane.Events.{audit, broadcast}
use aicoo_local_agent.ControlPlane.CommSessions.Expiry.{
  end_deliveries, same_status, expire_row, expire_found, expire_if_needed, get_visible, is_overdue,
  is_run_out, expire_rows, expire_active_grants_for_route, ends_with,
}

-- Feeds, endpoints and the audit do not concern these tables.
pub audit-Evolution :
    (now : ℕ) (actor : Actor) (action : Action) (entity : ℕ) (old db : Db)
    → Evolution old db
    → Evolution old (audit now actor action entity db)
unfolding audit
audit-Evolution now actor action entity old db e = record {
  comms = e.comms;
  deliveries = e.deliveries;
  messages = e.messages;
}

pub broadcast-Evolution :
    (now : ℕ) (body : EventBody) (principals : List ℕ) (old db : Db)
    → Evolution old db
    → Evolution old (broadcast now body principals db)
unfolding broadcast
broadcast-Evolution now body principals old db e = record {
  comms = e.comms;
  deliveries = e.deliveries;
  messages = e.messages;
}

-- The end of a session closes its deliveries that were still open.
pub end_deliveries-Evolution :
    (now comm : ℕ) (status : DeliveryStatus) (code : ReasonCode) (old db : Db)
    → delivery_rank status ≡ 4
    → Evolution old db
    → Evolution old (end_deliveries now comm status code db)
unfolding end_deliveries
end_deliveries-Evolution now comm status code old db h e = Evolution-trans e (record {
  comms = Evolves-refl CommMoves CommMoves-refl db.comms;
  deliveries =
      Evolves-update_where DeliveryMoves DeliveryMoves-refl (ends_with comm db.messages) _
        (λ d p. ended d p) db.deliveries;
  messages = Evolves-refl Unchanged (λ a. refl) db.messages;
})
  where
    ended :
        (d : DeliveryRow)
        → ends_with comm db.messages d ≡ true
        → DeliveryMoves d (record d {
          status = status;
          terminal_at = some now;
          result_code = some (ResultCode.reason code);
        })
    ended d p = ground arith

expire_comms :
    (row a : CommRow)
    → comm_rank row.status < 2
    → same_status a.status row.status ≡ true
    → CommMoves a (record a { status = CommunicationStatus.expired })
unfolding same_status
expire_comms row a h p = ground arith

expire_row-Evolution :
    (now : ℕ) (row : CommRow) (endpoint handle : Option ℕ) (db : Db)
    → comm_rank row.status < 2
    → Evolution db (expire_row now row endpoint handle db)
unfolding expire_row
expire_row-Evolution now row endpoint handle db h = elim (Bool-cases (has_row matches db.comms)) [
  | inl hit ↦
      rw (hit, expire_row)
        (audit-Evolution _ _ _ _ db _ (
          broadcast-Evolution _ _ _ db _ (
            end_deliveries-Evolution now _ DeliveryStatus.expired _ db _ refl (record {
              comms =
                  Evolves-update_where CommMoves CommMoves-refl matches _
                    (λ a p. expire_comms row a h (ground arith)) db.comms;
              deliveries = Evolves-refl DeliveryMoves DeliveryMoves-refl db.deliveries;
              messages = Evolves-refl Unchanged (λ a. refl) db.messages;
            }))))
  | inr miss ↦ rw (miss, expire_row) (Evolution-refl db)
]
  where
    matches : CommRow → Bool
    matches r = r.comm_session_id == row.comm_session_id && same_status r.status row.status

expire_found-Evolution :
    (now : ℕ) (found : Option CommRow) (db : Db) → Evolution db (expire_found now found db)
unfolding expire_found
expire_found-Evolution now none db = Evolution-refl db
expire_found-Evolution now (some row) db = elim (Bool-cases (is_overdue now row)) [
  | inl late ↦
      rw (late, expire_found)
        (expire_row-Evolution now row row.frozen_endpoint_id row.frozen_session_handle db
          (unfold is_overdue in ground arith))
  | inr fresh ↦ rw (fresh, expire_found) (Evolution-refl db)
]

pub get_visible-Keeps : (now principal comm : ℕ) → Keeps (get_visible now principal comm)
unfolding get_visible expire_if_needed
get_visible-Keeps now principal comm = record { at = λ db. expire_found-Evolution now _ db }

expire_rows-Evolution :
    (now principal endpoint handle : ℕ) (table : List CommRow) (db : Db)
    → Evolution db (
        expire_rows now endpoint handle
          (select (is_run_out now principal endpoint handle) table)
          db)
unfolding expire_rows select
expire_rows-Evolution now principal endpoint handle [] db = Evolution-refl db
expire_rows-Evolution now principal endpoint handle (r ∷ rs) db =
    elim (Bool-cases (is_run_out now principal endpoint handle r)) [
      | inl late ↦
          rw (late, select)
            (Evolution-trans
              (expire_row-Evolution now r (some endpoint) (some handle) db
                (unfold is_run_out in ground arith))
              (expire_rows-Evolution now principal endpoint handle rs _))
      | inr fresh ↦ rw (fresh, select) (expire_rows-Evolution now principal endpoint handle rs db)
    ]

pub expire_route_step :
    (now principal endpoint handle : ℕ) (db : Db)
    → Evolution db (expire_active_grants_for_route now principal endpoint handle db)
unfolding expire_active_grants_for_route
expire_route_step now principal endpoint handle db =
    expire_rows-Evolution now principal endpoint handle db.comms db

pub broadcast_step :
    (now : ℕ) (body : EventBody) (ps : List ℕ) (db : Db) → Evolution db (broadcast now body ps db)
broadcast_step now body ps db = broadcast-Evolution now body ps db db (Evolution-refl db)

pub audit_step :
    (now : ℕ) (actor : Actor) (action : Action) (entity : ℕ) (db : Db)
    → Evolution db (audit now actor action entity db)
audit_step now actor action entity db =
    audit-Evolution now actor action entity db db (Evolution-refl db)

-- A table in which only the sessions have moved.
pub comms_only :
    (db : Db) (p : CommRow → Bool) (f : CommRow → CommRow)
    → ((a : CommRow) → p a ≡ true → CommMoves a (f a))
    → Evolution db (record db { comms = update_where p f db.comms })
comms_only db p f h = record {
  comms = Evolves-update_where CommMoves CommMoves-refl p f h db.comms;
  deliveries = Evolves-refl DeliveryMoves DeliveryMoves-refl db.deliveries;
  messages = Evolves-refl Unchanged (λ a. refl) db.messages;
}
