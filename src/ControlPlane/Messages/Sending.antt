-- ===== src/ControlPlane/Messages/Sending.antt =====
-- `sendGrantScoped` in src/control-plane/services/messages.ts: what a message that is accepted for
-- delivery is, and where it goes.
use aicoo_local_agent.Common.{
  ℕ, ◌<◌, ◌≡◌, refl, sym, subst, ◌∙◌, ap, List, [], ◌∷◌, ◌++◌, Bool, true, false, ◌||◌, some, arith,
  Bool-cases, Option-cases, inl, inr, ◌==◌, column_is, truthy, has_row, select_first, le-max_of,
  Memᴰ, ◌⊎◌,
}
use aicoo_local_agent.ControlPlane.Schema.{
  DeliveryStatus, CommRow, MessageRow, DeliveryRow, Db, AuthContext,
}
use aicoo_local_agent.ControlPlane.Outcome.{
  Result, ok, >>=-eq-ok, >>-eq-ok, require, read, lift, modify, ◌>>=◌, ◌>>◌,
}
use aicoo_local_agent.ControlPlane.Events.{audit}
use aicoo_local_agent.ControlPlane.CommSessions.{require_active}
use aicoo_local_agent.ControlPlane.CommSessions.Expiry.{find_comm}
use aicoo_local_agent.ControlPlane.CommSessions.Activity.{
  IsCurrent, require_active_sound, find_comm-id,
}
use aicoo_local_agent.ControlPlane.Messages.{
  SendMessageInput, Fresh, MessageReceipt, receipt_for, receipt_of, find_delivery, insert_message,
  clashes, new_delivery, dispatch_event, store_and_dispatch, announce, send_on, send_grant_scoped,
  check_reply, target_of, next_sequence, grant_row, grant_expiry,
}

-- The rows that a successful insertion adds.
pub insert_message-ok :
    (row : MessageRow) (d : DeliveryRow) (db mid : Db)
    → insert_message row d db ≡ (ok tt, mid)
    → (mid ≡ record db { messages = db.messages ++ row ∷ []; deliveries = db.deliveries ++ d ∷ [] })
      × (has_row (clashes row) db.messages ≡ false)
      × (has_row (λ e. e.delivery_id == d.delivery_id || e.message_id == d.message_id) db.deliveries
          ≡ false)
unfolding insert_message
insert_message-ok row d db mid h = elim (Bool-cases (has_row (clashes row) db.messages)) [
  | inl old ↦ absurd (cc (ap (λ (p : Result (Unit {0}) × Db). p.0) (rw (old, insert_message) at h)))
  | inr new ↦ elim (Bool-cases (has_row used db.deliveries)) [
    | inl old ↦
        absurd (cc (ap (λ (p : Result (Unit {0}) × Db). p.0) (rw (new, old, insert_message) at h)))
    | inr fresh ↦ (
      sym (ap (λ (p : Result (Unit {0}) × Db). p.1) (rw (new, fresh, insert_message) at h)),
      new,
      fresh,
    )
  ]
]
  where
    used : DeliveryRow → Bool
    used e = e.delivery_id == d.delivery_id || e.message_id == d.message_id

-- The tables after a message has been stored.
pub record Stored (ids : Fresh) (now : ℕ) (status : DeliveryStatus) (row : MessageRow)
    (db after : Db) : Type 0 where
  pub messages : after.messages ≡ db.messages ++ row ∷ []
  pub deliveries :
      after.deliveries ≡ db.deliveries ++ new_delivery ids row.target_endpoint_id status now ∷ []
  pub new_key : has_row (clashes row) db.messages ≡ false

-- What follows the insertion concerns the feed and the audit alone.
announced :
    (now : ℕ) (ids : Fresh) (auth : AuthContext) (row : MessageRow) (mid after : Db)
    (r : MessageReceipt)
    → announce now ids auth row mid ≡ (ok r, after)
    → (after.messages ≡ mid.messages)
      × (after.deliveries ≡ mid.deliveries)
      × ((receipt_for ids.message_id false mid).0 ≡ ok r)
unfolding announce modify dispatch_event audit receipt_for ◌>>◌ ◌>>=◌
announced now ids auth row mid after r h = (
  sym (ap (λ (p : Result MessageReceipt × Db). p.1.messages) h),
  sym (ap (λ (p : Result MessageReceipt × Db). p.1.deliveries) h),
  ap (λ (p : Result MessageReceipt × Db). p.0) h,
)

-- A receipt depends on the deliveries alone.
pub receipt_by :
    (message : ℕ) (mid after : Db) (r : MessageReceipt)
    → after.deliveries ≡ mid.deliveries
    → (receipt_for message false mid).0 ≡ ok r
    → receipt_of message false (find_delivery message after) ≡ ok r
unfolding receipt_for find_delivery
receipt_by message mid after r same answered =
    ap
      (λ (ds : List DeliveryRow).
        receipt_of message false (select_first (λ d. d.message_id == message) ds))
      same
    ∙ answered

store_and_dispatch-ok :
    (now : ℕ) (ids : Fresh) (auth : AuthContext) (row : MessageRow) (db after : Db)
    (r : MessageReceipt)
    → store_and_dispatch now ids auth row db ≡ (ok r, after)
    → Stored ids now DeliveryStatus.queued row db after
      × (receipt_of ids.message_id false (find_delivery ids.message_id after) ≡ ok r)
unfolding store_and_dispatch
store_and_dispatch-ok now ids auth row db after r h =
    let (mid, inserted, rest) =
      >>-eq-ok
        (insert_message row (new_delivery ids row.target_endpoint_id DeliveryStatus.queued now)) _
        db after h in
    let (is, new, _) = insert_message-ok row _ db mid inserted in
    let (same_messages, same_deliveries, answered) = announced now ids auth row mid after r rest in
    (
      record {
        messages = same_messages ∙ ap (λ (d : Db). d.messages) is;
        deliveries = same_deliveries ∙ ap (λ (d : Db). d.deliveries) is;
        new_key = new;
      },
      receipt_by ids.message_id mid after r same_deliveries answered,
    )

-- The steps of `send_on`, taken apart.
send_on-ok :
    (now : ℕ) (ids : Fresh) (auth : AuthContext) (input : SendMessageInput) (hash : ℕ)
    (comm : CommRow) (db after : Db) (r : MessageReceipt)
    → send_on now ids auth input hash comm db ≡ (ok r, after)
    → (t : ℕ) × (comm.grant_expires_at ≡ some t)
      × (check_reply input.reply_to comm.comm_session_id db ≡ true)
      × (truthy (target_of auth comm).endpoint_id ≡ true)
      × (truthy (target_of auth comm).session_handle ≡ true)
      × (store_and_dispatch now ids auth
            (grant_row now ids auth input hash comm.comm_session_id
              (target_of auth comm)
              (next_sequence comm.comm_session_id db)
              t)
            db
          ≡ (ok r, after))
unfolding send_on require read lift grant_expiry ◌>>◌ ◌>>=◌
send_on-ok now ids auth input hash comm db after r h = elim (Option-cases comm.grant_expires_at) [
  | inl never ↦ absurd (ground arith)
  | inr (t, at) ↦ (t, at, ground arith, ground arith, ground arith, ground arith)
]

-- A message that `sendGrantScoped` accepts.
pub record IsDispatched (now : ℕ) (ids : Fresh) (auth : AuthContext) (input : SendMessageInput)
    (hash session : ℕ) (db after : Db) (r : MessageReceipt) : Type 0 where
  pub comm : CommRow
  pub comm_found : find_comm session db.comms ≡ some comm
  pub current : IsCurrent now auth.principal_id comm
  pub row : MessageRow
  pub stored : Stored ids now DeliveryStatus.queued row db after
  pub answered : receipt_of ids.message_id false (find_delivery ids.message_id after) ≡ ok r
  pub id : row.message_id ≡ ids.message_id
  pub sender : row.sender_principal_id ≡ auth.principal_id
  pub client : row.client_message_id ≡ input.client_message_id
  pub hashed : row.request_hash ≡ hash
  pub of_session : row.comm_session_id ≡ some session
  pub route :
      ((comm.requester_principal_id ≡ auth.principal_id)
        × (row.target_principal_id ≡ comm.recipient_principal_id)
        × (row.target_endpoint_id ≡ comm.frozen_endpoint_id)
        × (row.target_session_handle ≡ comm.frozen_session_handle))
      ⊎ ((comm.recipient_principal_id ≡ auth.principal_id)
          × (row.target_principal_id ≡ comm.requester_principal_id)
          × (row.target_endpoint_id ≡ some comm.requester_reply_endpoint_id)
          × (row.target_session_handle ≡ some comm.requester_reply_session_handle))
  pub expiry : comm.grant_expires_at ≡ some row.expires_at
  pub unexpired : now < row.expires_at
  pub last :
      (m : MessageRow)
      → Memᴰ m db.messages
      → m.comm_session_id ≡ some session
      → m.sequence < row.sequence

next_sequence_lem :
    (comm : ℕ) (db : Db) (m : MessageRow)
    → Memᴰ m db.messages
    → m.comm_session_id ≡ some comm
    → m.sequence < next_sequence comm db
unfolding next_sequence
next_sequence_lem comm db m listed of_session = omega (
  arith,
  le-max_of (λ (x : MessageRow). x.sequence) (λ x. column_is x.comm_session_id comm) db.messages
      listed (ground (arith, of_session)),
)

-- A message that `sendGrantScoped` accepts is stored, last in its session's order, in the name of
-- its authenticated sender; the session is active and unexpired and the sender is one of its two
-- principals; it goes to the frozen route from the requester, or to the reply route from the
-- recipient; and it expires with the grant. No other message and no other delivery changes.
pub send_grant_scoped-IsDispatched :
    (now : ℕ) (ids : Fresh) (auth : AuthContext) (input : SendMessageInput) (session hash : ℕ)
    (db after : Db) (r : MessageReceipt)
    → send_grant_scoped now ids auth input session hash db ≡ (ok r, after)
    → IsDispatched now ids auth input hash session db after r
unfolding send_grant_scoped
send_grant_scoped-IsDispatched now ids auth input session hash db after r h =
    let (comm, mid, active, rest) =
      >>=-eq-ok (require_active now auth.principal_id session) _ db after h in
    let (current, found, same) =
      require_active_sound now auth.principal_id session db comm
        (ap (λ (p : Result CommRow × Db). p.0) active) in
    let mid_is : mid ≡ db = sym (ap (λ (p : Result CommRow × Db). p.1) active) ∙ same in
    let rest' : send_on now ids auth input hash comm db ≡ (ok r, after) =
      subst (λ (d : Db). send_on now ids auth input hash comm d ≡ (ok r, after)) mid_is rest in
    let key : comm.comm_session_id ≡ session = find_comm-id session db.comms comm found in
    let (t, expires, _, has_endpoint, has_handle, stored) =
      send_on-ok now ids auth input hash comm db after r rest' in
    let row : MessageRow =
      grant_row now ids auth input hash comm.comm_session_id (target_of auth comm)
        (next_sequence comm.comm_session_id db) t in
    record {
      comm = comm;
      comm_found = found;
      current = current;
      row = row;
      stored = (store_and_dispatch-ok now ids auth row db after r stored).0;
      answered = (store_and_dispatch-ok now ids auth row db after r stored).1;
      id = unfold grant_row in refl;
      sender = unfold grant_row in refl;
      client = unfold grant_row in refl;
      hashed = unfold grant_row in refl;
      of_session = unfold grant_row in ap some key;
      route = unfold grant_row target_of in ground (arith, current.participant);
      expiry = unfold grant_row in expires;
      unexpired = unfold grant_row in ground (arith, current.unexpired, expires);
      last = λ m listed of_session.
          unfold grant_row in
          next_sequence_lem comm.comm_session_id db m listed (of_session ∙ ap some (sym key));
    }
