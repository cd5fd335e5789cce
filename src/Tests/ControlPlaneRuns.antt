-- ===== src/Tests/ControlPlaneRuns.antt =====
-- The theorems on the control plane, on concrete databases.
use aicoo_local_agent.Common.{
  ℕ, ◌≡◌, ◌≢◌, refl, ap, ◌∙◌, sym, List, [], ◌∷◌, true, none, false, some, Memᴰ,
}
use aicoo_local_agent.Common.{
  select_first, select, has_row, update_where, max_of, insert_by, order_by,
}
use aicoo_local_agent.ControlPlane.Schema.{
  CommRow, OfferRow, Db, DeliveryRow, DeliveryStatus, ResultCode, ReasonCode, EventBody, is_open,
}
use aicoo_local_agent.ControlPlane.Events.Numbering.{IsNumbered, broadcast-IsNumbered}
use aicoo_local_agent.ControlPlane.CommSessions.Activity.{IsCurrent, require_active_sound}
use aicoo_local_agent.ControlPlane.Offers
use aicoo_local_agent.ControlPlane.Offers.{resolve, check_offer, is_revocable}
use aicoo_local_agent.ControlPlane.Offers.Withdrawal.{
  IsOffered, resolve_sound, revoked_not_resolved,
}
use aicoo_local_agent.ControlPlane.Evolution.{Evolution}
use aicoo_local_agent.ControlPlane.Messages.{
  MessageReceipt, find_delivery, receipt_of, receipt_for, clashes, insert_message, new_delivery,
  check_reply, target_of, present, next_sequence, grant_row, envelope_for, dispatch_event,
  grant_expiry, announce, store_and_dispatch, send_on, send_grant_scoped, find_duplicate, send_to,
  send_new, send_found, send,
}
use aicoo_local_agent.ControlPlane.Messages.Injection
use aicoo_local_agent.ControlPlane.Messages.Injection.{
  InjectionInput, valid, find_message, check_message, check_active, check_endpoint, judge,
  validate_injection,
}
use aicoo_local_agent.ControlPlane.Messages.Soundness.{IsInjectable, validate_injection_sound}
use aicoo_local_agent.ControlPlane.Messages.Sending.{IsDispatched, send_grant_scoped-IsDispatched}
use aicoo_local_agent.ControlPlane.History.{Call, run, run-Evolution}
use aicoo_local_agent.ControlPlane.History.Revocation.{
  revoked_never_valid, revoke_closes_deliveries,
}
use aicoo_local_agent.ControlPlane.History.Retry.{send_again}
use aicoo_local_agent.ControlPlane.Outcome.{Result, ok, require, lift, read, modify, ◌>>=◌, ◌>>◌}
use aicoo_local_agent.ControlPlane.Events.{
  append, mark_stale, endpoints_of, append_all, notify, broadcast, audit,
}
use aicoo_local_agent.ControlPlane.Endpoints.{
  get_owned, owns_endpoint, found_or, get_session, get_default_route,
}
use aicoo_local_agent.ControlPlane.CommSessions
use aicoo_local_agent.ControlPlane.CommSessions.{
  accept, accept_on, accept_route, check_session, blocks_route, row_for, is_waiting, grant_to,
  activate, require_pending, grant, close_revoked, is_granted, require_active,
}
use aicoo_local_agent.ControlPlane.CommSessions.Expiry.{
  find_comm, ends_with, end_deliveries, is_overdue, expire_found, expire_if_needed, visible_to,
  get_visible, is_run_out, expire_rows, expire_active_grants_for_route,
}
use aicoo_local_agent.ControlPlane.CommSessions.Exclusive.{IsExclusive}
use aicoo_local_agent.ControlPlane.CommSessions.Granting.{accept-IsExclusive}
use aicoo_local_agent.Tests.{
  requester, recipient, waiting, granted, waiting_db, granted_db, sent_db, sent, queued, greeting,
  node, ids,
}

abbrev accepted : Result CommRow × Db
accepted = accept 2000 recipient 301 waiting_db

accept_ok : accept 2000 recipient 301 waiting_db ≡ (ok granted, accepted.1)
unfolding select_first select has_row update_where max_of insert_by order_by require lift read
    modify ◌>>=◌ ◌>>◌ append mark_stale endpoints_of append_all notify broadcast audit get_session
    get_default_route accept accept_on accept_route check_session blocks_route row_for is_waiting
    grant_to activate require_pending grant find_comm is_overdue expire_found expire_if_needed
    visible_to get_visible is_run_out expire_rows expire_active_grants_for_route
accept_ok = refl

only : {r a : CommRow} → Memᴰ a (r ∷ []) → a ≡ r
only (Memᴰ.head e) = e
only (Memᴰ.tail m) = elim m [ ]

one_row-IsExclusive : (now : ℕ) (r : CommRow) → IsExclusive now (r ∷ [])
one_row-IsExclusive now r = record {
  unique = λ a b m n e. only m ∙ sym (only n);
  single = λ principal endpoint handle a b m n ha hb.
      ap (λ (c : CommRow). c.comm_session_id) (only m ∙ sym (only n));
}

accept-IsExclusive_example : IsExclusive 2000 accepted.1.comms
accept-IsExclusive_example =
    accept-IsExclusive 2000 recipient 301 waiting_db accepted.1 granted accept_ok
      (one_row-IsExclusive 2000 waiting)

broadcast-IsNumbered_example :
    IsNumbered (broadcast 2000 (EventBody.comm_declined 301) (1 ∷ 2 ∷ []) waiting_db).events
broadcast-IsNumbered_example =
    broadcast-IsNumbered 2000 (EventBody.comm_declined 301) (1 ∷ 2 ∷ []) waiting_db
      IsNumbered.no_events

require_active_granted : (require_active 3000 1 301 granted_db).0 ≡ ok granted
unfolding select_first require ◌>>=◌ ◌>>◌ require_active find_comm is_overdue expire_found
    expire_if_needed visible_to get_visible
require_active_granted = refl

require_active_sound_example :
    IsCurrent 3000 1 granted
    × (find_comm 301 granted_db.comms ≡ some granted)
    × ((require_active 3000 1 301 granted_db).1 ≡ granted_db)
require_active_sound_example =
    require_active_sound 3000 1 301 granted_db granted require_active_granted

abbrev asked : InjectionInput
asked = record {
  message_id = 401;
  communication_session_id = 301;
  endpoint_id = 102;
  session_handle = some 202;
}

asked_valid : (validate_injection 3500 recipient asked sent_db).0 ≡ valid
unfolding select_first require ◌>>=◌ ◌>>◌ audit get_owned owns_endpoint found_or get_session
    require_active find_comm is_overdue expire_found expire_if_needed visible_to get_visible
    find_message Injection.check_session check_message check_active check_endpoint judge
    validate_injection
asked_valid = refl

validate_injection_sound_example : IsInjectable 3500 recipient asked sent_db
validate_injection_sound_example = validate_injection_sound 3500 recipient asked sent_db asked_valid

abbrev revoked_db : Db
revoked_db = (CommSessions.revoke 4000 requester 301 sent_db).1

revoke_ok : CommSessions.revoke 4000 requester 301 sent_db ≡ (ok tt, revoked_db)
unfolding select_first require modify ◌>>=◌ ◌>>◌ find_comm is_overdue expire_found expire_if_needed
    visible_to get_visible CommSessions.revoke
revoke_ok = refl

abbrev calls : List (ℕ × Call)
calls =
    (4500, Call.accept recipient 301)
    ∷ (5000, Call.dispatch 401)
    ∷ (6000, Call.send_message ids requester greeting)
    ∷ []

revoked_never_valid_example :
    (validate_injection 7000 recipient asked (run node revoked_db calls)).0 ≢ valid
revoked_never_valid_example =
    revoked_never_valid node 4000 requester 301 sent_db revoked_db calls 7000 recipient asked
      revoke_ok refl

abbrev ended : DeliveryRow
ended = record queued {
  status = DeliveryStatus.revoked;
  terminal_at = some 4000;
  result_code = some (ResultCode.reason ReasonCode.communication_session_revoked);
}

ended_listed : Memᴰ ended revoked_db.deliveries
unfolding select_first has_row update_where require modify ◌>>=◌ ◌>>◌ audit broadcast find_comm
    is_overdue expire_found expire_if_needed visible_to get_visible ends_with end_deliveries
    is_granted close_revoked CommSessions.revoke
ended_listed = Memᴰ.head refl

sent_listed : Memᴰ sent revoked_db.messages
unfolding select_first require modify ◌>>=◌ ◌>>◌ audit broadcast find_comm is_overdue expire_found
    expire_if_needed visible_to get_visible end_deliveries close_revoked CommSessions.revoke
sent_listed = Memᴰ.head refl

revoke_closes_deliveries_example : is_open ended.status ≡ false
revoke_closes_deliveries_example =
    revoke_closes_deliveries 4000 requester 301 sent_db revoked_db ended sent revoke_ok ended_listed
      sent_listed refl refl

run-Evolution_example : Evolution sent_db (run node sent_db calls)
run-Evolution_example = run-Evolution node sent_db calls

abbrev receipt : MessageReceipt
receipt = record {
  message_id = 401;
  delivery_id = 501;
  status = DeliveryStatus.queued;
  duplicate = false;
  queued_at = 3000;
}

abbrev dispatched_db : Db
dispatched_db = (send_grant_scoped 3000 ids requester greeting 301 9 granted_db).1

send_grant_scoped_ok :
    send_grant_scoped 3000 ids requester greeting 301 9 granted_db ≡ (ok receipt, dispatched_db)
unfolding select_first has_row max_of require lift read modify ◌>>=◌ ◌>>◌ append audit
    require_active find_comm is_overdue expire_found expire_if_needed visible_to get_visible
    find_delivery receipt_of receipt_for clashes insert_message new_delivery check_reply target_of
    present next_sequence grant_row envelope_for dispatch_event grant_expiry announce
    store_and_dispatch send_on send_grant_scoped
send_grant_scoped_ok = refl

send_grant_scoped-IsDispatched_example :
    IsDispatched 3000 ids requester greeting 9 301 granted_db dispatched_db receipt
send_grant_scoped-IsDispatched_example =
    send_grant_scoped-IsDispatched 3000 ids requester greeting 301 9 granted_db dispatched_db
      receipt send_grant_scoped_ok

send_ok : send node 3000 ids requester greeting granted_db ≡ (ok receipt, dispatched_db)
unfolding select_first require ◌>>=◌ ◌>>◌ find_duplicate send_to send_new send_found send
send_ok = send_grant_scoped_ok

send_again_example :
    (r : MessageReceipt) × (send node 9000 ids requester greeting (run node dispatched_db calls)
      ≡ (ok r, run node dispatched_db calls))
    × (r.message_id ≡ 401)
    × (r.delivery_id ≡ 501)
    × (r.duplicate ≡ true)
send_again_example =
    send_again node requester greeting 3000 ids granted_db dispatched_db receipt calls 9000 ids
      send_ok

abbrev offer : OfferRow
offer = record {
  offer_id = 701;
  owner_principal_id = 2;
  audience_principal_id = 1;
  endpoint_id = 102;
  session_handle = 202;
  label = 7;
  expires_at = 600000;
  revoked_at = none;
  created_at = 500;
}

abbrev offered_db : Db
offered_db = record waiting_db { offers = offer ∷ [] }

offer_resolved : (resolve 1000 701 2 1 offered_db).0 ≡ ok (102, 202)
unfolding select_first check_offer resolve
offer_resolved = refl

resolve_sound_example : IsOffered 1000 701 2 1 (102, 202) offered_db
resolve_sound_example = resolve_sound 1000 701 2 1 offered_db (102, 202) offer_resolved

abbrev withdrawn_db : Db
withdrawn_db = (Offers.revoke 2000 recipient 701 offered_db).1

withdraw_ok : Offers.revoke 2000 recipient 701 offered_db ≡ (ok tt, withdrawn_db)
unfolding has_row require read modify ◌>>=◌ ◌>>◌ is_revocable Offers.revoke
withdraw_ok = refl

revoked_not_resolved_example : (resolve 3000 701 2 1 withdrawn_db).0 ≢ ok (102, 202)
revoked_not_resolved_example =
    revoked_not_resolved 2000 recipient 701 offered_db withdrawn_db 3000 1 (102, 202) withdraw_ok
