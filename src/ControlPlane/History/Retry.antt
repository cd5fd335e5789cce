-- ===== src/ControlPlane/History/Retry.antt =====
-- Sending is idempotent: a client may repeat a call of `send` whose answer it has lost.
use aicoo_local_agent.Common.{
  ℕ, ◌≡◌, refl, sym, subst, ◌∙◌, ap, List, [], ◌∷◌, ◌++◌, Bool, true, false, ◌&&◌, Option, none,
  some, arith, Bool-cases, Option-cases, inl, inr, ◌==◌, select_first, Evolves,
  Evolves-select_first,
}
use aicoo_local_agent.ControlPlane.Schema.{MessageRow, DeliveryRow, Db, AuthContext}
use aicoo_local_agent.ControlPlane.Outcome.{Result, ok, require-eq-ok, require, read, ◌>>=◌, ◌>>◌}
use aicoo_local_agent.ControlPlane.Evolution.{DeliveryMoves, Unchanged}
use aicoo_local_agent.ControlPlane.Messages.{
  Destination, inbox_of, session, SendMessageInput, Node, Fresh, MessageReceipt, receipt_for,
  receipt_of, find_delivery, find_duplicate, inbox_row, inbox_item, store_inbox, send_inbox,
  send_to, send_new, send_found, send,
}
use aicoo_local_agent.ControlPlane.Messages.Sending.{IsDispatched, send_grant_scoped-IsDispatched}
use aicoo_local_agent.ControlPlane.History.{Call, run, run-Evolution}
use aicoo_local_agent.ControlPlane.Messages.Boxing.{store_inbox-ok}

-- The row that an INSERT appends is found if no row was.
select_first-append :
    (p : MessageRow → Bool) (xs : List MessageRow) (y : MessageRow)
    → select_first p xs ≡ none
    → p y ≡ true
    → select_first p (xs ++ y ∷ []) ≡ some y
unfolding select_first
select_first-append p [] y h k = rw k
select_first-append p (x ∷ xs) y h k =
    ground (arith, λ (m : select_first p xs ≡ none). select_first-append p xs y m k)

-- A message that was found is found later, by the same test.
select_first-Unchanged :
    (p : MessageRow → Bool) (xs ys : List MessageRow) (a : MessageRow)
    → Evolves Unchanged xs ys
    → select_first p xs ≡ some a
    → select_first p ys ≡ some a
unfolding select_first
select_first-Unchanged p [] ys a (Evolves.done _) h = cc
select_first-Unchanged p (x ∷ xs) [] a f h = elim f [ ]
select_first-Unchanged p (x ∷ xs) (y ∷ ys) a (Evolves.step e f) h =
    ground
      (arith, e, ap p e, λ (m : select_first p xs ≡ some a). select_first-Unchanged p xs ys a f m)

-- A message under the sender's key, with its delivery.
record IsKept (node : Node) (auth : AuthContext) (input : SendMessageInput) (r : MessageReceipt)
    (db : Db) : Type 0 where
  row : MessageRow
  found : find_duplicate auth.principal_id input.client_message_id db ≡ some row
  hashed : row.request_hash ≡ node.stable_hash input
  id : row.message_id ≡ r.message_id
  delivery : DeliveryRow
  delivered : find_delivery r.message_id db ≡ some delivery
  delivery_id : delivery.delivery_id ≡ r.delivery_id

receipt_of_lem :
    (message : ℕ) (duplicate : Bool) (o : Option DeliveryRow) (r : MessageReceipt)
    → receipt_of message duplicate o ≡ ok r
    → (d : DeliveryRow) × (o ≡ some d) × (r.message_id ≡ message) × (d.delivery_id ≡ r.delivery_id)
unfolding receipt_of
receipt_of_lem message duplicate none r h = absurd (ground arith)
receipt_of_lem message duplicate (some d) r h = (d, refl, ground arith, ground arith)

module _ (node : Node) (auth : AuthContext) (input : SendMessageInput) where
  -- Whatever happens in between, the repeated call finds the message.
  IsKept-run :
      (r : MessageReceipt) (db : Db) (calls : List (ℕ × Call))
      → IsKept node auth input r db
      → IsKept node auth input r (run node db calls)
  unfolding find_duplicate find_delivery
  IsKept-run r db calls k =
      let e = run-Evolution node db calls in
      let (d, found, moves) =
        Evolves-select_first DeliveryMoves (λ x. x.message_id) (λ x y m. m.message) r.message_id
          db.deliveries (run node db calls).deliveries k.delivery e.deliveries k.delivered in
      record {
        row = k.row;
        found =
            select_first-Unchanged _ db.messages (run node db calls).messages k.row e.messages
              k.found;
        hashed = k.hashed;
        id = k.id;
        delivery = d;
        delivered = found;
        delivery_id = moves.id ∙ k.delivery_id;
      }

  -- And answers with its receipt, marked as a duplicate, and changes nothing.
  send_kept :
      (now : ℕ) (ids : Fresh) (r : MessageReceipt) (db : Db)
      → IsKept node auth input r db
      → (r' : MessageReceipt) × (send node now ids auth input db ≡ (ok r', db))
        × (r'.message_id ≡ r.message_id)
        × (r'.delivery_id ≡ r.delivery_id)
        × (r'.duplicate ≡ true)
  unfolding send
  send_kept now ids r db k = (
    answer,
    ap (λ (o : Option MessageRow). send_found node now ids auth input o db) k.found
        ∙ found k.row k.delivery k.hashed
            (subst (λ x. find_delivery x db ≡ some k.delivery) (sym k.id) k.delivered),
    k.id,
    k.delivery_id,
    refl,
  )
    where
      answer_of : MessageRow → DeliveryRow → MessageReceipt
      answer_of row d = record {
        message_id = row.message_id;
        delivery_id = d.delivery_id;
        status = d.status;
        duplicate = true;
        queued_at = d.queued_at;
      }

      answer : MessageReceipt
      answer = answer_of k.row k.delivery

      found :
          (row : MessageRow) (d : DeliveryRow)
          → row.request_hash ≡ node.stable_hash input
          → find_delivery row.message_id db ≡ some d
          → send_found node now ids auth input (some row) db ≡ (ok (answer_of row d), db)
      found row d same delivered =
          unfold send_found receipt_for receipt_of in ground (arith, same, delivered)

  found-IsKept :
      (now : ℕ) (ids : Fresh) (row : MessageRow) (db after : Db) (r : MessageReceipt)
      → find_duplicate auth.principal_id input.client_message_id db ≡ some row
      → send_found node now ids auth input (some row) db ≡ (ok r, after)
      → IsKept node auth input r after
  unfolding send_found receipt_for
  found-IsKept now ids row db after r found h =
      elim (Bool-cases (row.request_hash == node.stable_hash input)) [
        | inr other ↦ absurd (ground (arith, ap (λ (p : Result MessageReceipt × Db). p.0) h))
        | inl same ↦
            let (d, delivered, id, d_id) =
              receipt_of_lem row.message_id true (find_delivery row.message_id db) r
                (ground (arith, ap (λ (p : Result MessageReceipt × Db). p.0) h)) in
            subst (IsKept node auth input r)
              (ground (arith, ap (λ (p : Result MessageReceipt × Db). p.1) h))
              (record {
                row = row;
                found = found;
                hashed = ground arith;
                id = sym id;
                delivery = d;
                delivered = subst (λ x. find_delivery x db ≡ some d) (sym id) delivered;
                delivery_id = d_id;
              })
      ]

  -- A message that has just been stored under the sender's key.
  stored-IsKept :
      (ids : Fresh) (row : MessageRow) (db after : Db) (r : MessageReceipt)
      → find_duplicate auth.principal_id input.client_message_id db ≡ none
      → after.messages ≡ db.messages ++ row ∷ []
      → receipt_of ids.message_id false (find_delivery ids.message_id after) ≡ ok r
      → row.message_id ≡ ids.message_id
      → row.sender_principal_id ≡ auth.principal_id
      → row.client_message_id ≡ input.client_message_id
      → row.request_hash ≡ node.stable_hash input
      → IsKept node auth input r after
  unfolding find_duplicate
  stored-IsKept ids row db after r new messages answered id sender client hashed =
      let (d, delivered, r_id, d_id) = receipt_of_lem ids.message_id false _ r answered in
      record {
        row = row;
        found =
            ap
              (select_first (λ m.
                m.sender_principal_id == auth.principal_id
                && m.client_message_id == input.client_message_id))
              messages
            ∙ select_first-append _ db.messages row new (ground arith);
        hashed = hashed;
        id = id ∙ sym r_id;
        delivery = d;
        delivered = subst (λ x. find_delivery x after ≡ some d) (sym r_id) delivered;
        delivery_id = d_id;
      }

module _ (node : Node) (auth : AuthContext) (input : SendMessageInput) where
  send_to-IsKept :
      (now : ℕ) (ids : Fresh) (db after : Db) (r : MessageReceipt) (to : Destination)
      → find_duplicate auth.principal_id input.client_message_id db ≡ none
      → send_to now ids auth input (node.stable_hash input) to db ≡ (ok r, after)
      → IsKept node auth input r after
  unfolding send_to
  send_to-IsKept now ids db after r (session comm) new h =
      let s : IsDispatched now ids auth input (node.stable_hash input) comm db after r =
        send_grant_scoped-IsDispatched now ids auth input comm (node.stable_hash input) db after r
          h in
      stored-IsKept node auth input ids s.row db after r new s.stored.messages s.answered s.id
        s.sender s.client s.hashed
  send_to-IsKept now ids db after r (inbox_of kind principal) new h =
      let row : MessageRow = inbox_row now ids auth input principal (node.stable_hash input) in
      let (messages, answered) =
        store_inbox-ok now ids auth (inbox_item now ids principal) row db after r (stored h) in
      stored-IsKept node auth input ids row db after r new messages answered
        (unfold inbox_row in refl) (unfold inbox_row in refl) (unfold inbox_row in refl)
        (unfold inbox_row in refl)
    where
      stored :
          send_inbox now ids auth input kind principal (node.stable_hash input) db ≡ (ok r, after)
          → store_inbox now ids auth
              (inbox_item now ids principal)
              (inbox_row now ids auth input principal (node.stable_hash input))
              db
            ≡ (ok r, after)
      stored e = unfold send_inbox require read ◌>>◌ ◌>>=◌ in ground arith

  send-IsKept :
      (now : ℕ) (ids : Fresh) (db after : Db) (r : MessageReceipt)
      → send node now ids auth input db ≡ (ok r, after)
      → IsKept node auth input r after
  unfolding send
  send-IsKept now ids db after r h =
      elim (Option-cases (find_duplicate auth.principal_id input.client_message_id db)) [
        | inr (row, found) ↦ found-IsKept node auth input now ids row db after r found (
            sym (ap (λ (o : Option MessageRow). send_found node now ids auth input o db) found) ∙ h)
        | inl none_yet ↦ send_to-IsKept now ids db after r input.destination none_yet (
            sent (
              sym (ap (λ (o : Option MessageRow). send_found node now ids auth input o db) none_yet)
              ∙ h))
      ]
    where
      sent :
          send_found node now ids auth input none db ≡ (ok r, after)
          → send_to now ids auth input (node.stable_hash input) input.destination db ≡ (ok r, after)
      sent e = unfold send_found send_new in (require-eq-ok _ _ _ _ db after e).1

  -- A call of `send` that succeeded may be repeated: after any later calls, at any later time and
  -- with whatever fresh identifiers, it succeeds again with the same message and delivery, marked as
  -- a duplicate, and changes nothing at all.
  pub send_again :
      (now : ℕ) (ids : Fresh) (db after : Db) (r : MessageReceipt) (calls : List (ℕ × Call))
      (later : ℕ) (ids' : Fresh)
      → send node now ids auth input db ≡ (ok r, after)
      → (r' : MessageReceipt) × (send node later ids' auth input (run node after calls)
          ≡ (ok r', run node after calls))
        × (r'.message_id ≡ r.message_id)
        × (r'.delivery_id ≡ r.delivery_id)
        × (r'.duplicate ≡ true)
  send_again now ids db after r calls later ids' h =
      send_kept node auth input later ids' r (run node after calls)
        (IsKept-run node auth input r after calls (send-IsKept now ids db after r h))
