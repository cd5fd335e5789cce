-- ===== src/Shared/Continuations/Graph.antt =====
-- The graph of the states of a continuation, and what a call of src/shared/continuation-store.ts may
-- make of a row and of the table.
use aicoo_local_agent.Common.{
  ℕ, ◌≡◌, ◌≢◌, refl, sym, ap, ◌∙◌, inl, inr, [], ◌∷◌, ◌++◌, true, false, none, some, Option-cases,
  ◌==◌, truthy, if◌then◌else◌, select_first, update_first, ==_iff,
}
use aicoo_local_agent.Common.Attempts.{returned, ◌>>=◌, ◌>>◌, >>=-eq-returned, ensure-eq-returned}
use aicoo_local_agent.Shared.Continuations.{
  ContinuationState, same_state, state_code, ContinuationCheckpoint, CreateContinuationInput,
  ContinuationRow, Store, Call, from_row, has_continuation_id, find, require_continuation,
  row_for_idempotency_key, require_state, write, set_state, set_failed, set_approval, set_approved,
  set_mismatched, set_attested, ContinuationApproval, new_continuation,
}

-- The edges that set the state alone, and those that record an error too.
pub data Edge : ContinuationState → ContinuationState → Type 0 where
  rebuild : Edge ContinuationState.approved_pending_activation ContinuationState.rebuilding_session
  complete : Edge ContinuationState.resuming ContinuationState.completed
  expire : Edge ContinuationState.awaiting_approval ContinuationState.approval_expired
  deny : Edge ContinuationState.awaiting_approval ContinuationState.denied
  not_delivered :
      Edge ContinuationState.awaiting_approval ContinuationState.approval_delivery_failed

pub data Failure : ContinuationState → ContinuationState → Type 0 where
  before_rebuild :
      Failure ContinuationState.approved_pending_activation ContinuationState.activation_failed
  in_rebuild : Failure ContinuationState.rebuilding_session ContinuationState.activation_failed
  in_resume : Failure ContinuationState.resuming ContinuationState.resume_failed

-- What a call may make of a row.
pub data Move (a b : ContinuationRow) : Type 0 where
  advance : (now : ℕ) (to : ContinuationState) → Edge a.state to → b ≡ set_state now to a → Move a b
  fail :
      (now error : ℕ) (to : ContinuationState)
      → Failure a.state to
      → b ≡ set_failed now to error a
      → Move a b
  attach :
      (now approval : ℕ)
      → a.state ≡ ContinuationState.awaiting_approval
      → truthy a.approval_id ≡ false
      → b ≡ set_approval now approval a
      → Move a b
  approve :
      (now : ℕ) (approval : ContinuationApproval)
      → a.state ≡ ContinuationState.awaiting_approval
      → b ≡ set_approved now approval a
      → Move a b
  attest :
      (now hash : ℕ)
      → a.state ≡ ContinuationState.rebuilding_session
      → a.expected_boundary_manifest_hash ≡ some hash
      → hash ≢ 0
      → b ≡ set_attested now hash a
      → Move a b
  refuse :
      (now hash : ℕ)
      → a.state ≡ ContinuationState.rebuilding_session
      → ¬ ((a.expected_boundary_manifest_hash ≡ some hash) × (hash ≢ 0))
      → b ≡ set_mismatched now hash a
      → Move a b

-- What a call may make of the table.
pub data Step (s t : Store) : Type 0 where
  kept : t ≡ s → Step s t
  added :
      (now id hash : ℕ) (input : CreateContinuationInput)
      → row_for_idempotency_key input.idempotency_key s ≡ none
      → t ≡ (s ++ new_continuation now id hash input ∷ [])
      → Step s t
  moved :
      (id : ℕ) (a : ContinuationRow) (f : ContinuationRow → ContinuationRow)
      → select_first (has_continuation_id id) s ≡ some a
      → Move a (f a)
      → t ≡ update_first (has_continuation_id id) f s
      → Step s t

pub second :
    {c d : ContinuationCheckpoint} {s t : Store}
    → ◌≡◌ {A = Call} (returned (c, s)) (returned (d, t))
    → t ≡ s
second h = cc

abbrev state_of : ℕ → ContinuationState
state_of n =
    if n == 0
    then ContinuationState.awaiting_approval
    else if n == 1
    then ContinuationState.approved_pending_activation
    else if n == 2
    then ContinuationState.rebuilding_session
    else if n == 3
    then ContinuationState.resuming
    else if n == 4
    then ContinuationState.completed
    else if n == 5
    then ContinuationState.denied
    else if n == 6
    then ContinuationState.approval_expired
    else if n == 7
    then ContinuationState.approval_delivery_failed
    else if n == 8
    then ContinuationState.activation_failed
    else ContinuationState.resume_failed

state_of-state_code : (a : ContinuationState) → state_of (state_code a) ≡ a
state_of-state_code ContinuationState.awaiting_approval = refl
state_of-state_code ContinuationState.approved_pending_activation = refl
state_of-state_code ContinuationState.rebuilding_session = refl
state_of-state_code ContinuationState.resuming = refl
state_of-state_code ContinuationState.completed = refl
state_of-state_code ContinuationState.denied = refl
state_of-state_code ContinuationState.approval_expired = refl
state_of-state_code ContinuationState.approval_delivery_failed = refl
state_of-state_code ContinuationState.activation_failed = refl
state_of-state_code ContinuationState.resume_failed = refl

pub same_state_lem : (a b : ContinuationState) → same_state a b ≡ true → a ≡ b
same_state_lem a b h =
    let codes : state_code a ≡ state_code b = (==_iff (state_code a) (state_code b)).0 h in
    sym (state_of-state_code a) ∙ ap state_of codes ∙ state_of-state_code b

pub write-Step :
    (id : ℕ) (f : ContinuationRow → ContinuationRow) (s : Store) (a : ContinuationRow)
    (c : ContinuationCheckpoint) (t : Store)
    → select_first (has_continuation_id id) s ≡ some a
    → Move a (f a)
    → write id f s ≡ returned (c, t)
    → Step s t
unfolding write
write-Step id f s a c t found move h =
    let (d, _, e) =
      >>=-eq-returned (require_continuation id (update_first (has_continuation_id id) f s))
        (λ current. returned (current, update_first (has_continuation_id id) f s)) {b = (c, t)} h in
    Step.moved id a f found move (second e)

-- A method that reads a row first.
pub at_row :
    (id : ℕ) (s : Store) (k : ContinuationCheckpoint → Call) {r : ContinuationCheckpoint × Store}
    → (require_continuation id s >>= k) ≡ returned r
    → (a : ContinuationRow) × (select_first (has_continuation_id id) s ≡ some a)
      × (k (from_row a) ≡ returned r)
unfolding require_continuation find
at_row id s k {r} h = elim (Option-cases (select_first (has_continuation_id id) s)) [
  | inl missing ↦ cc (rw (missing, require_continuation, find) at h)
  | inr (a, found) ↦ (a, found, rw (found, require_continuation, find) at h)
]

pub in_state :
    (a : ContinuationRow) (expected : ContinuationState) (k : Call)
    {r : ContinuationCheckpoint × Store}
    → (require_state (from_row a) expected >> k) ≡ returned r
    → (a.state ≡ expected) × (k ≡ returned r)
unfolding require_state from_row
in_state a expected k {r} h =
    let (same, rest) = ensure-eq-returned (same_state a.state expected) _ k {b = r} h in
    (same_state_lem a.state expected same, rest)
