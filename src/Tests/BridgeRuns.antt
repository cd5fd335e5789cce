-- ===== src/Tests/BridgeRuns.antt =====
-- The theorems on the bridge, on concrete spools.
use aicoo_local_agent.Common.Int.{pos, negsuc}
use aicoo_local_agent.Common.{
  map, ◌++◌, select_first, none, ◌*◌, ◌^◌, min, max, false, if◌then◌else◌, ◌≡◌, ◌<◌, refl, [], ◌∷◌,
  true, false, some, Memᴰ, arith,
}
use aicoo_local_agent.Common.{select, has_row, insert_by, order_by}
use aicoo_local_agent.Bridge.Spool.{
  SpoolStatus, SpoolMessage, Spool, cursor_of, put_cursor, parsed_or_zero, save_cursor,
  store_dispatch, is_dispatch, dispatch_row, list_injectable, is_next, is_blocked_by, first_of_each,
  block_communication_session,
}
use aicoo_local_agent.Bridge.Spool.Ordering.{
  IsNext, HasOneEach, list_injectable_in_order, list_injectable-HasOneEach,
}
use aicoo_local_agent.Bridge.Spool.Progress.{list_injectable_progress}
use aicoo_local_agent.Bridge.Spool.Blocking.{IsSilent, block_communication_session-IsSilent}
use aicoo_local_agent.Bridge.Spool.Cursor.{
  IsGreatest, save_all, stored_cursor, cursor_of-save_all, store_dispatch_twice,
}
use aicoo_local_agent.Bridge.Injector.{inject}
use aicoo_local_agent.Bridge.Injector.Acceptance.{
  HasStatus, is_settled, is_delivered, inject-is_settled, inject_delivered,
}
use aicoo_local_agent.Bridge.Backoff.{
  next, AreBounded, waits, poll, idle, new_backoff, waits_new-AreBounded, idle_new_lem,
}
use aicoo_local_agent.Bridge.FailureBudget.{count_fatal, new_budget, is_late, count_fatal_lem}
use aicoo_local_agent.Tests.{envelope, spooled, spool_of, peers}

abbrev acked : SpoolMessage
acked = spooled 0 SpoolStatus.device_acked

abbrev follower : SpoolMessage
follower = record acked { message_id = 404; sequence = 2 }

abbrev two : Spool
two = spool_of (follower ∷ acked ∷ [])

first_listed : Memᴰ acked (list_injectable two)
unfolding select has_row insert_by order_by is_blocked_by is_next first_of_each list_injectable
first_listed = Memᴰ.head refl

list_injectable_in_order_example : IsNext two.messages acked
list_injectable_in_order_example = list_injectable_in_order two acked first_listed

list_injectable-HasOneEach_example : HasOneEach (list_injectable two)
list_injectable-HasOneEach_example = list_injectable-HasOneEach two

block_communication_session-IsSilent_example :
    IsSilent 301 (block_communication_session 301 8 9 two)
block_communication_session-IsSilent_example = block_communication_session-IsSilent 301 8 9 two

-- Stored is -4; then -2, a text that is no number, and 3 are saved.
cursor_of-save_all_example :
    IsGreatest
      (cursor_of 102 (save_all 102 (some (negsuc 1) ∷ none ∷ some (pos 3) ∷ []) two).cursors)
      (stored_cursor 102 two.cursors
        ++ map parsed_or_zero (some (negsuc 1) ∷ none ∷ some (pos 3) ∷ []))
cursor_of-save_all_example = cursor_of-save_all 102 (some (negsuc 1)) (none ∷ some (pos 3) ∷ []) two

-- A negative number is kept where nothing was stored.
fresh_negative : cursor_of 103 (save_cursor 103 (some (negsuc 4)) two).cursors ≡ negsuc 4
unfolding cursor_of save_cursor put_cursor select_first has_row
fresh_negative = refl

abbrev stored : Spool
stored = spool_of (spooled 0 SpoolStatus.received ∷ [])

stored_ok : store_dispatch envelope (some 501) (spool_of []) ≡ some (true, stored)
unfolding has_row is_dispatch dispatch_row store_dispatch
stored_ok = refl

store_dispatch_twice_example : store_dispatch envelope (some 501) stored ≡ some (false, stored)
store_dispatch_twice_example = store_dispatch_twice envelope (some 501) (spool_of []) stored_ok

inject-is_settled_example : HasStatus is_settled 401 (inject peers acked two)
inject-is_settled_example = inject-is_settled peers acked two

no_tries : acked.attempt_count < 5
no_tries = ground arith

inject_delivered_example : HasStatus is_delivered 401 (inject peers acked two)
inject_delivered_example = inject_delivered peers acked two 902 (some 903) no_tries refl refl refl

waits_new-AreBounded_example :
    AreBounded 250 5000
      (false ∷ true ∷ false ∷ [])
      (waits (false ∷ true ∷ false ∷ []) (new_backoff 250 5000))
waits_new-AreBounded_example = waits_new-AreBounded 250 5000 (false ∷ true ∷ false ∷ [])

idle_new_lem_example :
    ((next false (idle 3 (new_backoff 250 5000))).0 ≡ min (250 * 2 ^ 4) (max 250 5000))
    × ((next false (idle 3 (next true (poll (false ∷ []) (new_backoff 250 5000))).1)).0
        ≡ min (250 * 2 ^ 4) (max 250 5000))
idle_new_lem_example = idle_new_lem 250 5000 3 (false ∷ [])

count_fatal_lem_example :
    count_fatal (1000 ∷ 2000 ∷ 7000 ∷ []) (new_budget 5000)
    ≡ (if has_row (is_late 5000 1000) (1000 ∷ 2000 ∷ 7000 ∷ []) then 1 else 0)
count_fatal_lem_example = count_fatal_lem 5000 1000 (2000 ∷ 7000 ∷ [])

acked-IsNext : IsNext two.messages acked
acked-IsNext = list_injectable_in_order two acked first_listed

list_injectable_progress_example :
    (b : SpoolMessage) × Memᴰ b (list_injectable two) × (b.comm_session_id ≡ 301)
list_injectable_progress_example = list_injectable_progress two acked acked-IsNext
