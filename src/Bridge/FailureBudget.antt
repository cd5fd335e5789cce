-- ===== src/Bridge/FailureBudget.antt =====
-- src/bridge/auth-failure-budget.ts: a run of authentication failures becomes fatal once.
use aicoo_local_agent.Common.{
  ℕ, suc, ◌-◌, ◌≡◌, refl, ap, List, [], ◌∷◌, Bool, true, false, Option, none, some, or_else,
  if◌then◌else◌, has_row, leb, ltb, Bool-cases, inl, inr, arith,
}

pub record AuthenticationFailureBudget : Type 0 where
  pub timeout_ms : ℕ
  pub first_failure_at : Option ℕ
  pub reported : Bool

pub record AuthenticationFailureDecision : Type 0 where
  pub fatal : Bool
  pub elapsed_ms : ℕ
  pub already_reported : Option Bool

-- The constructor.
unfoldable pub new_budget : ℕ → AuthenticationFailureBudget
new_budget timeout = record { timeout_ms = timeout; first_failure_at = none; reported = false }

-- `recordFailure` once the time of the first failure is set; `now - first` is 0 where it is negative.
unfoldable pub decide :
    ℕ → AuthenticationFailureBudget → AuthenticationFailureDecision × AuthenticationFailureBudget
decide elapsed b =
    if b.reported
    then (record { fatal = false; elapsed_ms = elapsed; already_reported = some true }, b)
    else if ltb elapsed b.timeout_ms
    then (record { fatal = false; elapsed_ms = elapsed; already_reported = none }, b)
    else (
      record { fatal = true; elapsed_ms = elapsed; already_reported = none },
      record b { reported = true },
    )

unfoldable pub record_failure :
    ℕ → AuthenticationFailureBudget → AuthenticationFailureDecision × AuthenticationFailureBudget
unfolding decide
record_failure now b =
    let first = or_else b.first_failure_at now in
    decide (now - first) (record b { first_failure_at = some first })

unfoldable pub record_recovery : AuthenticationFailureBudget → AuthenticationFailureBudget
record_recovery b = record b { first_failure_at = none; reported = false }

-- How many of the failures at these times are fatal.
unfoldable pub count_fatal : List ℕ → AuthenticationFailureBudget → ℕ
count_fatal [] b = 0
count_fatal (now ∷ times) b =
    let rest = count_fatal times (record_failure now b).1 in
    if (record_failure now b).0.fatal then suc rest else rest

abbrev after : ℕ → ℕ → Bool → AuthenticationFailureBudget
after timeout first reported = record {
  timeout_ms = timeout;
  first_failure_at = some first;
  reported = reported;
}

count_fatal-reported :
    (times : List ℕ) (timeout first : ℕ) → count_fatal times (after timeout first true) ≡ 0
unfolding count_fatal record_failure decide
count_fatal-reported [] timeout first = refl
count_fatal-reported (now ∷ times) timeout first = count_fatal-reported times timeout first

-- A failure so long after the first one.
unfoldable pub is_late : ℕ → ℕ → ℕ → Bool
is_late timeout first now = leb timeout (now - first)

count_fatal-unreported :
    (times : List ℕ) (timeout first : ℕ)
    → count_fatal times (after timeout first false)
      ≡ (if has_row (is_late timeout first) times then 1 else 0)
unfolding count_fatal has_row record_failure
count_fatal-unreported [] timeout first = refl
count_fatal-unreported (now ∷ times) timeout first = elim (Bool-cases (ltb (now - first) timeout)) [
  | inl early ↦
      let soon : is_late timeout first now ≡ false = unfold is_late in ground arith in
      rw (decide, early, soon) (count_fatal-unreported times timeout first)
  | inr late ↦
      let due : is_late timeout first now ≡ true = unfold is_late in ground arith in
      rw (decide, late, due) (ap suc (count_fatal-reported times timeout first))
]

-- Of a run of failures without a recovery between them, exactly one is fatal if some failure comes
-- at least the timeout after the first one, and none otherwise.
pub count_fatal_lem :
    (timeout first : ℕ) (times : List ℕ)
    → count_fatal (first ∷ times) (new_budget timeout)
      ≡ (if has_row (is_late timeout first) (first ∷ times) then 1 else 0)
unfolding count_fatal new_budget record_failure
count_fatal_lem timeout first times = count_fatal-unreported (first ∷ times) timeout first
