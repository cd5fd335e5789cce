-- ===== src/ControlPlane/Messages/Boxing.antt =====
-- `sendInbox` in src/control-plane/services/messages.ts: what a call that succeeds has stored.
use aicoo_local_agent.Common.{
  ℕ, ◌≡◌, sym, ◌∙◌, ap, [], ◌∷◌, ◌++◌, Bool, false, ◌||◌, none, Bool-cases, inl, inr, ◌==◌, has_row,
}
use aicoo_local_agent.ControlPlane.Schema.{
  DeliveryStatus, MessageRow, DeliveryRow, InboxRow, Db, AuthContext, Actor, Action,
}
use aicoo_local_agent.ControlPlane.Outcome.{Result, ok, >>-eq-ok, modify, ◌>>=◌, ◌>>◌}
use aicoo_local_agent.ControlPlane.Events.{audit}
use aicoo_local_agent.ControlPlane.Messages.{
  Fresh, MessageReceipt, receipt_for, receipt_of, find_delivery, store_inbox, insert_message,
  insert_inbox, new_delivery,
}
use aicoo_local_agent.ControlPlane.Messages.Sending.{receipt_by, insert_message-ok}

pub insert_inbox-ok :
    (item : InboxRow) (row : MessageRow) (d : DeliveryRow) (db mid : Db)
    → insert_inbox item row d db ≡ (ok tt, mid)
    → mid.messages ≡ db.messages ++ row ∷ []
unfolding insert_inbox
insert_inbox-ok item row d db mid h = elim (Bool-cases (has_row taken db.inbox)) [
  | inl old ↦ absurd (cc (ap (λ (p : Result (Unit {0}) × Db). p.0) (rw (old, insert_inbox) at h)))
  | inr new ↦
      let (next, inserted, rest) =
        >>-eq-ok (insert_message row d) _ db mid (rw (new, insert_inbox) at h) in
      let (is, _, _) = insert_message-ok row d db next inserted in
      added next rest ∙ ap (λ (x : Db). x.messages) is
]
  where
    taken : InboxRow → Bool
    taken i = i.inbox_item_id == item.inbox_item_id || i.message_id == item.message_id

    added :
        (next : Db)
        → modify (λ x. record x { inbox = x.inbox ++ item ∷ [] }) next ≡ (ok tt, mid)
        → mid.messages ≡ next.messages
    added next e = unfold modify in sym (ap (λ (p : Result (Unit {0}) × Db). p.1.messages) e)

pub store_inbox-ok :
    (now : ℕ) (ids : Fresh) (auth : AuthContext) (item : InboxRow) (row : MessageRow)
    (db after : Db) (r : MessageReceipt)
    → store_inbox now ids auth item row db ≡ (ok r, after)
    → (after.messages ≡ db.messages ++ row ∷ [])
      × (receipt_of ids.message_id false (find_delivery ids.message_id after) ≡ ok r)
unfolding store_inbox
store_inbox-ok now ids auth item row db after r h =
    let (mid, inserted, rest) =
      >>-eq-ok (insert_inbox item row (new_delivery ids none DeliveryStatus.inbox_persisted now)) _
        db after h in
    let (messages, deliveries, answered) = answered_lem mid rest in
    (
      messages ∙ insert_inbox-ok item row _ db mid inserted,
      receipt_by ids.message_id mid after r deliveries answered,
    )
  where
    answered_lem :
        (mid : Db)
        → (modify (
                audit now
                  (Actor.principal auth.principal_id)
                  Action.message_inbox_persisted
                  ids.message_id)
              >> receipt_for ids.message_id false)
            mid
          ≡ (ok r, after)
        → (after.messages ≡ mid.messages)
          × (after.deliveries ≡ mid.deliveries)
          × ((receipt_for ids.message_id false mid).0 ≡ ok r)
    answered_lem mid e =
        unfold modify audit receipt_for ◌>>◌ ◌>>=◌ in
        (
          sym (ap (λ (p : Result MessageReceipt × Db). p.1.messages) e),
          sym (ap (λ (p : Result MessageReceipt × Db). p.1.deliveries) e),
          ap (λ (p : Result MessageReceipt × Db). p.0) e,
        )
