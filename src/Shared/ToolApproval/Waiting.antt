-- ===== src/Shared/ToolApproval/Waiting.antt =====
-- `awaitToolApproval` in src/shared/tool-approval.ts: it ends, and it allows nothing by itself.
use aicoo_local_agent.Common.{
  ℕ, zero, suc, ◌+◌, ◌<◌, ◌≤◌, ◌≡◌, refl, ◌∙◌, ◌⊎◌, inl, inr, Bool, true, false, Option, none, some,
  ltb, arith, Bool-cases, Option-cases,
}
use aicoo_local_agent.Shared.Continuations.{Texts}
use aicoo_local_agent.Shared.ToolApproval.{
  ToolApprovalScope, ApprovalStatus, ApprovalDecision, BoundaryActivation, ToolApprovalState,
  DenyReason, ToolApprovalOutcome, valid_activation, verified_activation, allow_with, decide_status,
  decide_by, decide, polled, wait_loop, after_request, await_tool_approval,
}

-- The owner's answer is to allow, or the control plane's is, where there is no answer of the owner.
abbrev pub grants : Option ApprovalDecision → ApprovalStatus → Bool
grants (some ApprovalDecision.allow) status = true
grants none ApprovalStatus.auto_allow = true
grants _ _ = false

-- What an allowance rests on.
abbrev pub GrantedBy : Texts → Bool → Option BoundaryActivation → ToolApprovalState → Type 0
GrantedBy texts requires activation state =
    (grants state.decision state.status ≡ true)
    × (requires ≡ true
        → (a : BoundaryActivation) × (activation ≡ some a) × (valid_activation texts a ≡ true))

module _ (texts : Texts) (requires : Bool) (scope : ToolApprovalScope)
    (activation : Option BoundaryActivation) where
  decide_by-allow_with :
      (d : Option ApprovalDecision) (status : ApprovalStatus) (state : ToolApprovalState)
      → state.status ≡ status
      → decide_by texts d state requires ≡ some (ToolApprovalOutcome.allowed scope activation)
      → (grants d status ≡ true)
        × (allow_with texts state.scope state.activation requires
            ≡ ToolApprovalOutcome.allowed scope activation)
  unfolding decide_by
  decide_by-allow_with (some ApprovalDecision.allow) status state e h = (refl, inner h)
    where
      inner : {a b : ToolApprovalOutcome} → some a ≡ some b → a ≡ b
      inner k = cc
  decide_by-allow_with (some ApprovalDecision.deny) status state e h = cc
  decide_by-allow_with none ApprovalStatus.pending state e h = cc (rw (e, decide_status) at h)
  decide_by-allow_with none ApprovalStatus.auto_allow state e h =
      (refl, inner (rw (e, decide_status) at h))
    where
      inner : {a b : ToolApprovalOutcome} → some a ≡ some b → a ≡ b
      inner k = cc
  decide_by-allow_with none (ApprovalStatus.ended x) state e h = cc (rw (e, decide_status) at h)

  activation_lem :
      (given : Option BoundaryActivation) (s : Option ToolApprovalScope)
      → allow_with texts s given requires ≡ ToolApprovalOutcome.allowed scope activation
      → requires ≡ true
      → (a : BoundaryActivation) × (activation ≡ some a) × (valid_activation texts a ≡ true)
  unfolding allow_with verified_activation
  activation_lem none s h needed = cc (rw (needed, allow_with) at h)
  activation_lem (some given) s h needed = elim (Bool-cases (valid_activation texts given)) [
    | inl valid ↦ (given, inner (rw (needed, allow_with, valid) at h), valid)
    | inr bad ↦ cc (rw (needed, allow_with, bad) at h)
  ]
    where
      inner :
          {a b : ToolApprovalScope} {x y : Option BoundaryActivation}
          → ToolApprovalOutcome.allowed a x ≡ ToolApprovalOutcome.allowed b y
          → y ≡ x
      inner k = cc

  decide-GrantedBy :
      (state : ToolApprovalState)
      → decide texts state requires ≡ some (ToolApprovalOutcome.allowed scope activation)
      → GrantedBy texts requires activation state
  unfolding decide
  decide-GrantedBy state h =
      let (granted, e) = decide_by-allow_with state.decision state.status state refl h in
      (granted, activation_lem state.activation state.scope e)

  polled-GrantedBy :
      (answer : Option ToolApprovalState)
      → polled texts requires answer ≡ some (ToolApprovalOutcome.allowed scope activation)
      → (state : ToolApprovalState) × (answer ≡ some state)
        × GrantedBy texts requires activation state
  unfolding polled
  polled-GrantedBy none h = cc
  polled-GrantedBy (some state) h = (state, refl, decide-GrantedBy state h)

  module _ (answers : ℕ → ℕ → Option ToolApprovalState) (clock : ℕ → ℕ) (sleep : ℕ → ℕ → ℕ)
      (poll_ms : ℕ) where
    wait_loop-GrantedBy :
        (deadline fuel k : ℕ)
        → wait_loop texts requires answers clock sleep poll_ms deadline fuel k
          ≡ some (ToolApprovalOutcome.allowed scope activation)
        → (n : ℕ) × (clock n < deadline)
          × ((state : ToolApprovalState) × (answers n (sleep (clock n) poll_ms) ≡ some state)
              × GrantedBy texts requires activation state)
    unfolding wait_loop
    wait_loop-GrantedBy deadline zero k h = cc
    wait_loop-GrantedBy deadline (suc fuel) k h = elim (Bool-cases (ltb (clock k) deadline)) [
      | inl early ↦
          elim (Option-cases (polled texts requires (answers k (sleep (clock k) poll_ms)))) [
            | inl open_still ↦
                wait_loop-GrantedBy deadline fuel (k + 1) (rw (early, open_still, wait_loop) at h)
            | inr (o, e) ↦
                let same : some o ≡ some (ToolApprovalOutcome.allowed scope activation) =
                  rw (early, e, wait_loop) at h in
                (k, ground arith, polled-GrantedBy (answers k (sleep (clock k) poll_ms)) (e ∙ same))
          ]
      | inr late ↦ cc (rw (late, wait_loop) at h)
    ]

-- If `awaitToolApproval` allows a call, then the request itself, or the poll of a round that began before
-- the deadline, gave an answer that grants it. A round sleeps before it polls, so its poll is made when
-- that sleep ends, which may be at the deadline or after it. An answer grants the call by the owner's
-- decision to allow, or, with no decision of the owner, by the control plane's automatic one. Where the
-- call needs a new session boundary, the outcome carries an activation that passes validation.
pub allowed_only_if_granted :
    (texts : Texts) (requires : Bool) (answers : ℕ → ℕ → Option ToolApprovalState) (clock : ℕ → ℕ)
    (sleep : ℕ → ℕ → ℕ) (poll_ms : ℕ) (timeout fuel : ℕ) (requested : Option ToolApprovalState)
    (scope : ToolApprovalScope) (activation : Option BoundaryActivation)
    → await_tool_approval texts requires answers clock sleep poll_ms timeout fuel requested
      ≡ some (ToolApprovalOutcome.allowed scope activation)
    → (state : ToolApprovalState) × GrantedBy texts requires activation state
      × ((requested ≡ some state)
          ⊎ ((n : ℕ) × (clock n < clock 0 + timeout)
              × (answers n (sleep (clock n) poll_ms) ≡ some state)))
unfolding await_tool_approval after_request
allowed_only_if_granted texts requires answers clock sleep poll_ms timeout fuel none scope
      activation h =
    cc
allowed_only_if_granted texts requires answers clock sleep poll_ms timeout fuel (some first) scope
      activation h =
    elim (Option-cases (decide texts first requires)) [
      | inl waits ↦
          let (n, early, answer) =
            wait_loop-GrantedBy texts requires scope activation answers clock sleep poll_ms
              (clock 0 + timeout) fuel 1 (rw (waits, await_tool_approval, after_request) at h) in
          let (state, e, granted) = answer in (state, granted, inr (n, early, e))
      | inr (o, e) ↦
          let same : some o ≡ some (ToolApprovalOutcome.allowed scope activation) =
            rw (e, await_tool_approval, after_request) at h in
          (first, decide-GrantedBy texts requires scope activation first (e ∙ same), inl refl)
    ]

wait_loop_ends :
    (texts : Texts) (requires : Bool) (answers : ℕ → ℕ → Option ToolApprovalState) (clock : ℕ → ℕ)
    (sleep : ℕ → ℕ → ℕ) (poll_ms : ℕ)
    → ((n : ℕ) → clock n < clock (n + 1))
    → (deadline fuel k : ℕ) → deadline ≤ clock k + fuel
    → (o : ToolApprovalOutcome) × (wait_loop texts requires answers clock sleep poll_ms deadline
          (suc fuel)
          k
        ≡ some o)
unfolding wait_loop
wait_loop_ends texts requires answers clock sleep poll_ms on deadline zero k enough =
    let late : ltb (clock k) deadline ≡ false = ground arith in
    (ToolApprovalOutcome.denied DenyReason.not_in_time, rw (late, wait_loop) refl)
wait_loop_ends texts requires answers clock sleep poll_ms on deadline (suc fuel) k enough =
    elim (Bool-cases (ltb (clock k) deadline)) [
      | inl early ↦
          elim (Option-cases (polled texts requires (answers k (sleep (clock k) poll_ms)))) [
            | inl open_still ↦
                let (o, e) =
                  wait_loop_ends texts requires answers clock sleep poll_ms on deadline fuel (k + 1)
                    (omega (arith, on k)) in
                (o, rw (early, open_still) e)
            | inr (o, e) ↦ (o, rw (early, e) refl)
          ]
      | inr late ↦ (ToolApprovalOutcome.denied DenyReason.not_in_time, rw (late) refl)
    ]

-- If the clock goes forward between two readings, then `awaitToolApproval` ends with an outcome,
-- whatever the gateway answers or fails to answer: no more rounds than the timeout has ticks, and one.
pub await_ends :
    (texts : Texts) (requires : Bool) (answers : ℕ → ℕ → Option ToolApprovalState) (clock : ℕ → ℕ)
    (sleep : ℕ → ℕ → ℕ) (poll_ms : ℕ) (timeout fuel : ℕ) (requested : Option ToolApprovalState)
    → ((n : ℕ) → clock n < clock (n + 1))
    → timeout ≤ fuel
    → (o : ToolApprovalOutcome) × (await_tool_approval texts requires answers clock sleep poll_ms
          timeout
          (suc fuel)
          requested
        ≡ some o)
unfolding await_tool_approval after_request
await_ends texts requires answers clock sleep poll_ms timeout fuel none on enough =
    (ToolApprovalOutcome.denied DenyReason.could_not_ask, refl)
await_ends texts requires answers clock sleep poll_ms timeout fuel (some first) on enough =
    elim (Option-cases (decide texts first requires)) [
      | inl waits ↦
          let (o, e) =
            wait_loop_ends texts requires answers clock sleep poll_ms on (clock 0 + timeout) fuel 1
              (omega (arith, on 0)) in
          (o, rw (waits, after_request) e)
      | inr (o, e) ↦ (o, rw (e, after_request) refl)
    ]
