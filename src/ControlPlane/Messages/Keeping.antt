-- ===== src/ControlPlane/Messages/Keeping.antt =====
-- The operations on messages move the database along.
use Prim.Native.String.{String}
use aicoo_local_agent.Common.{
  ℕ, ◌≡◌, refl, inl, inr, [], ◌∷◌, Bool, true, Option, none, some, arith, Bool-cases, ◌++◌, ◌==◌,
  ◌||◌, Evolves-refl, Evolves-append, Evolves-update_where, has_row, update_where,
}
use aicoo_local_agent.ControlPlane.Schema.{
  TargetKind, CommRow, DeliveryRow, MessageRow, InboxRow, Db, AuthContext, is_terminal,
}
use aicoo_local_agent.ControlPlane.Outcome.{modify, ◌>>◌}
use aicoo_local_agent.ControlPlane.Evolution.{
  CommMoves, CommMoves-refl, DeliveryMoves, DeliveryMoves-refl, Unchanged, Evolution,
  Evolution-refl, Keeps, keeps_rules,
}
use aicoo_local_agent.ControlPlane.CommSessions.Ending.{audit-Evolution, audit_step}
use aicoo_local_agent.ControlPlane.CommSessions.Keeping.{require_active-Keeps}
use aicoo_local_agent.ControlPlane.Messages.{
  Destination, inbox_of, session, SendMessageInput, Node, Fresh, receipt_for, clashes,
  insert_message, insert_inbox, send_inbox, store_inbox, send_grant_scoped, store_and_dispatch,
  announce, send_on, dispatch_event, send_to, send_new, send_found, send, is_dispatchable,
  mark_dispatched,
}
use aicoo_local_agent.ControlPlane.Messages.Acknowledge.{
  DeliveryAckInput, record_attempt, advance, advance_delivery, acknowledge,
}
use aicoo_local_agent.ControlPlane.Messages.Injection.{
  InjectionInput, find_message, judge, check_endpoint, check_active, validate_injection,
}

-- A table in which only the deliveries have moved.
deliveries_only :
    (db : Db) (p : DeliveryRow → Bool) (f : DeliveryRow → DeliveryRow)
    → ((a : DeliveryRow) → p a ≡ true → DeliveryMoves a (f a))
    → Evolution db (record db { deliveries = update_where p f db.deliveries })
deliveries_only db p f h = record {
  comms = Evolves-refl CommMoves CommMoves-refl db.comms;
  deliveries = Evolves-update_where DeliveryMoves DeliveryMoves-refl p f h db.deliveries;
  messages = Evolves-refl Unchanged (λ a. refl) db.messages;
}

receipt_for-Keeps : (message : ℕ) (duplicate : Bool) → Keeps (receipt_for message duplicate)
unfolding receipt_for
receipt_for-Keeps message duplicate = record { at = Evolution-refl }

insert_message-Keeps : (row : MessageRow) (d : DeliveryRow) → Keeps (insert_message row d)
unfolding insert_message
insert_message-Keeps row d = record {
  at = λ db. elim (Bool-cases (taken db)) [
    | inl old ↦ rw (old, insert_message) (Evolution-refl db)
    | inr new ↦
        rw (new, insert_message)
          (record {
            comms = Evolves-refl CommMoves CommMoves-refl db.comms;
            deliveries = Evolves-append DeliveryMoves DeliveryMoves-refl db.deliveries (d ∷ []);
            messages = Evolves-append Unchanged (λ a. refl) db.messages (row ∷ []);
          })
  ];
}
  where
    taken : Db → Bool
    taken db =
        has_row (clashes row) db.messages
        || has_row (λ e. e.delivery_id == d.delivery_id || e.message_id == d.message_id)
            db.deliveries

inbox_step :
    (item : InboxRow) (db : Db) → Evolution db (record db { inbox = db.inbox ++ item ∷ [] })
inbox_step item db =
    let e = Evolution-refl db in
    record { comms = e.comms; deliveries = e.deliveries; messages = e.messages }

insert_inbox-Keeps :
    (item : InboxRow) (row : MessageRow) (d : DeliveryRow) → Keeps (insert_inbox item row d)
unfolding insert_inbox
insert_inbox-Keeps item row d = record {
  at = λ db. elim (Bool-cases (taken db)) [
    | inl old ↦ rw (old, insert_inbox) (Evolution-refl db)
    | inr new ↦ rw (new, insert_inbox) (both.at db)
  ];
}
  where
    taken : Db → Bool
    taken db =
        has_row (λ i. i.inbox_item_id == item.inbox_item_id || i.message_id == item.message_id)
          db.inbox

    both : Keeps (insert_message row d >> modify (λ e. record e { inbox = e.inbox ++ item ∷ [] }))
    both = search (keeps_rules, insert_message-Keeps, inbox_step)

send_inbox-Keeps :
    (now : ℕ) (ids : Fresh) (auth : AuthContext) (input : SendMessageInput) (kind : TargetKind)
    (principal hash : ℕ)
    → Keeps (send_inbox now ids auth input kind principal hash)
unfolding send_inbox store_inbox
send_inbox-Keeps now ids auth input kind principal hash =
    search (keeps_rules, insert_inbox-Keeps, audit_step, receipt_for-Keeps) depth 12

dispatch_step :
    (now endpoint : ℕ) (row : MessageRow) (delivery : ℕ) (db : Db)
    → Evolution db (dispatch_event now endpoint row delivery db)
unfolding dispatch_event
dispatch_step now endpoint row delivery db =
    let e = Evolution-refl db in
    record { comms = e.comms; deliveries = e.deliveries; messages = e.messages }

store_and_dispatch-Keeps :
    (now : ℕ) (ids : Fresh) (auth : AuthContext) (row : MessageRow)
    → Keeps (store_and_dispatch now ids auth row)
unfolding store_and_dispatch announce
store_and_dispatch-Keeps now ids auth row =
    search (keeps_rules, insert_message-Keeps, dispatch_step, audit_step, receipt_for-Keeps) depth 8

send_on-Keeps :
    (now : ℕ) (ids : Fresh) (auth : AuthContext) (input : SendMessageInput) (hash : ℕ)
    (comm : CommRow)
    → Keeps (send_on now ids auth input hash comm)
unfolding send_on
send_on-Keeps now ids auth input hash comm = search (keeps_rules, store_and_dispatch-Keeps) depth 12

send_grant_scoped-Keeps :
    (now : ℕ) (ids : Fresh) (auth : AuthContext) (input : SendMessageInput) (comm hash : ℕ)
    → Keeps (send_grant_scoped now ids auth input comm hash)
unfolding send_grant_scoped
send_grant_scoped-Keeps now ids auth input comm hash =
    search (keeps_rules, require_active-Keeps, send_on-Keeps)

send_to-Keeps :
    (now : ℕ) (ids : Fresh) (auth : AuthContext) (input : SendMessageInput) (hash : ℕ)
    (to : Destination)
    → Keeps (send_to now ids auth input hash to)
unfolding send_to
send_to-Keeps now ids auth input hash (inbox_of kind principal) =
    send_inbox-Keeps now ids auth input kind principal hash
send_to-Keeps now ids auth input hash (session comm) =
    send_grant_scoped-Keeps now ids auth input comm hash

module _ (node : Node) where
  send_found-Keeps :
      (now : ℕ) (ids : Fresh) (auth : AuthContext) (input : SendMessageInput)
      (found : Option MessageRow)
      → Keeps (send_found node now ids auth input found)
  unfolding send_found send_new
  send_found-Keeps now ids auth input none = search (keeps_rules, send_to-Keeps)
  send_found-Keeps now ids auth input (some m) =
      elim (Bool-cases (m.request_hash == node.stable_hash input)) [
        | inl same ↦ rw same (receipt_for-Keeps m.message_id true)
        | inr other ↦ rw other (record { at = Evolution-refl })
      ]

  pub send-Keeps :
      (now : ℕ) (ids : Fresh) (auth : AuthContext) (input : SendMessageInput)
      → Keeps (send node now ids auth input)
  unfolding send
  send-Keeps now ids auth input = record {
    at = λ db. (send_found-Keeps now ids auth input _).at db;
  }

attempt_step :
    (now delivery : ℕ) (input : DeliveryAckInput) (db : Db)
    → Evolution db (record_attempt now delivery input db)
unfolding record_attempt
attempt_step now delivery input db =
    let e = Evolution-refl db in
    record { comms = e.comms; deliveries = e.deliveries; messages = e.messages }

advance-DeliveryMoves :
    (now : ℕ) (input : DeliveryAckInput) (version : String) (phase : _) (d : DeliveryRow)
    → DeliveryMoves d (advance now input version phase d)
unfolding advance
advance-DeliveryMoves now input version phase d = ground arith

advance_step :
    (now : ℕ) (input : DeliveryAckInput) (row : DeliveryRow) (version : String) (db : Db)
    → Evolution db (advance_delivery now input row version db)
unfolding advance_delivery
advance_step now input row version db = elim (Bool-cases (is_terminal row.status)) [
  | inl over ↦ rw (over, advance_delivery) (Evolution-refl db)
  | inr live ↦
      rw (live, advance_delivery)
        (deliveries_only db _ _ (λ a p. advance-DeliveryMoves now input version input.phase a))
]

pub acknowledge-Keeps :
    (now : ℕ) (auth : AuthContext) (message : ℕ) (input : DeliveryAckInput)
    → Keeps (acknowledge now auth message input)
unfolding acknowledge
acknowledge-Keeps now auth message input =
    search (keeps_rules, attempt_step, advance_step, audit_step) depth 10

pub mark_dispatched-Evolution :
    (now message : ℕ) (db : Db) → Evolution db (mark_dispatched now message db)
unfolding mark_dispatched
mark_dispatched-Evolution now message db =
    elim (Bool-cases (has_row (is_dispatchable message) db.deliveries)) [
      | inl e ↦
          rw (e, mark_dispatched)
            (audit-Evolution _ _ _ _ db _ (
              deliveries_only db (is_dispatchable message) _
                (λ a p. unfold is_dispatchable in ground arith)))
      | inr e ↦ rw (e, mark_dispatched) (Evolution-refl db)
    ]

judge-Evolution :
    (now : ℕ) (auth : AuthContext) (input : InjectionInput)
    (found : Option (MessageRow × DeliveryRow)) (db : Db)
    → Evolution db (judge now auth input found db).1
unfolding judge check_endpoint check_active
judge-Evolution now auth input none db = Evolution-refl db
judge-Evolution now auth input (some (m, d)) db = ground (
  arith,
  Evolution-refl db,
  (require_active-Keeps now auth.principal_id input.communication_session_id).at db,
)

pub validate_injection-Evolution :
    (now : ℕ) (auth : AuthContext) (input : InjectionInput) (db : Db)
    → Evolution db (validate_injection now auth input db).1
unfolding validate_injection
validate_injection-Evolution now auth input db =
    audit-Evolution _ _ _ _ db _
      (judge-Evolution now auth input (find_message input.message_id db) db)
