-- ===== src/Shared/Continuations/Reading.antt =====
-- The methods of src/shared/continuation-store.ts that only read.
use aicoo_local_agent.Common.{
  ℕ, List, [], ◌∷◌, Bool, true, false, not, ◌&&◌, ◌||◌, Option, none, some, map, ◌==◌, ltb,
  column_is, if◌then◌else◌, is_some, select_first, select, order_by,
}
use aicoo_local_agent.Common.Attempts.{Attempt, returned, thrown}
use aicoo_local_agent.Shared.Continuations.Schema.{
  ContinuationState, same_state, ContinuationCheckpoint, ContinuationRow, Store, ContinuationError,
  from_row,
}

abbrev pub has_continuation_id : ℕ → ContinuationRow → Bool
has_continuation_id id row = row.continuation_id == id

unfoldable pub find : ℕ → Store → Option ContinuationCheckpoint
unfolding from_row
find id s = elim (select_first (has_continuation_id id) s) [
  | none ↦ none
  | some row ↦ some (from_row row)
]

-- `require`
unfoldable pub require_continuation : ℕ → Store → Attempt ContinuationError ContinuationCheckpoint
unfolding find
require_continuation id s = elim (find id s) [
  | none ↦ thrown ContinuationError.unknown_continuation
  | some c ↦ returned c
]

unfoldable pub row_for_idempotency_key : ℕ → Store → Option ContinuationRow
row_for_idempotency_key key s = select_first (λ row. row.idempotency_key == key) s

unfoldable pub list_continuations : Store → List ContinuationCheckpoint
unfolding from_row
list_continuations s =
    map from_row (order_by (λ row. row.created_at) (order_by (λ row. row.continuation_id) s))

abbrev pub is_recoverable : ContinuationState → Bool
is_recoverable ContinuationState.approved_pending_activation = true
is_recoverable ContinuationState.rebuilding_session = true
is_recoverable ContinuationState.resuming = true
is_recoverable _ = false

-- ORDER BY updated_at, continuation_id
unfoldable pub by_update : Store → Store
by_update s = order_by (λ row. row.updated_at) (order_by (λ row. row.continuation_id) s)

unfoldable pub list_recoverable : Store → List ContinuationCheckpoint
unfolding from_row by_update
list_recoverable s = map from_row (by_update (select (λ row. is_recoverable row.state) s))

unfoldable pub list_awaiting_decisions : Store → List ContinuationCheckpoint
unfolding from_row by_update
list_awaiting_decisions s = map from_row (
    by_update (
      select
        (λ row. same_state row.state ContinuationState.awaiting_approval && is_some row.approval_id)
        s))

-- ORDER BY updated_at DESC LIMIT 1
unfoldable pub latest_update : Store → Option ContinuationRow
latest_update [] = none
latest_update (row ∷ rows) = elim (latest_update rows) [
  | none ↦ some row
  | some later ↦ if ltb row.updated_at later.updated_at then some later else some row
]

unfoldable pub find_resuming : ℕ → ℕ → Option ℕ → Store → Option ContinuationCheckpoint
unfolding latest_update from_row
find_resuming session message correlation s =
    elim (latest_update (
      select
        (λ row.
          same_state row.state ContinuationState.resuming
          && row.session_handle == session
          && row.message_id == message
          && (not (is_some correlation) || column_is correlation row.correlation_id))
        s)) [ none ↦ none | some row ↦ some (from_row row) ]
