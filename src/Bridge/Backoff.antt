-- ===== src/Bridge/Backoff.antt =====
-- src/bridge/idle-backoff.ts: how long the bridge waits between two polls.
use native.Mathlib.Nat.{pow-suc, mul_assoc}
use aicoo_local_agent.Common.{
  ℕ, zero, suc, ◌*◌, ◌^◌, ◌≤◌, ◌≡◌, ap, min, max, refl, List, [], ◌∷◌, Bool, true, false,
  if◌then◌else◌, arith,
}

pub record IdlePollBackoff : Type 0 where
  pub minimum_ms : ℕ
  pub maximum_ms : ℕ
  pub current_ms : ℕ

-- The constructor.
unfoldable pub new_backoff : ℕ → ℕ → IdlePollBackoff
new_backoff minimum maximum = record {
  minimum_ms = minimum;
  maximum_ms = max minimum maximum;
  current_ms = minimum;
}

-- `next`, with the state that it leaves.
unfoldable pub next : Bool → IdlePollBackoff → ℕ × IdlePollBackoff
next worked b = if worked then (b.minimum_ms, record b { current_ms = b.minimum_ms }) else (
  min (b.current_ms * 2) b.maximum_ms,
  record b { current_ms = min (b.current_ms * 2) b.maximum_ms },
)

-- The rounds of a poll loop, and whether each had work: the state that they leave, and the waits that
-- `next` returns.
unfoldable pub poll : List Bool → IdlePollBackoff → IdlePollBackoff
poll [] b = b
poll (worked ∷ rounds) b = poll rounds (next worked b).1

unfoldable pub waits : List Bool → IdlePollBackoff → List ℕ
waits [] b = []
waits (worked ∷ rounds) b = (next worked b).0 ∷ waits rounds (next worked b).1

unfoldable pub idle : ℕ → IdlePollBackoff → IdlePollBackoff
idle zero b = b
idle (suc n) b = (next false (idle n b)).1

record IsBounded (minimum maximum : ℕ) (b : IdlePollBackoff) : Type 0 where
  minimum_is : b.minimum_ms ≡ minimum
  maximum_is : b.maximum_ms ≡ max minimum maximum
  lower : minimum ≤ b.current_ms
  upper : b.current_ms ≤ max minimum maximum

-- One wait for each round: within the bounds, and the minimum where the round had work.
abbrev pub AreBounded : ℕ → ℕ → List Bool → List ℕ → Type 0
AreBounded minimum maximum [] [] = Unit {0}
AreBounded minimum maximum (worked ∷ rounds) (w ∷ ws) =
    (minimum ≤ w)
    × (w ≤ max minimum maximum)
    × (worked ≡ true → w ≡ minimum)
    × AreBounded minimum maximum rounds ws
AreBounded minimum maximum _ _ = ⊥

next-IsBounded :
    (minimum maximum : ℕ) (worked : Bool) (b : IdlePollBackoff)
    → IsBounded minimum maximum b
    → IsBounded minimum maximum (next worked b).1
      × (minimum ≤ (next worked b).0)
      × ((next worked b).0 ≤ max minimum maximum)
      × (worked ≡ true → (next worked b).0 ≡ minimum)
unfolding next
next-IsBounded minimum maximum true b v = (
  record {
    minimum_is = v.minimum_is;
    maximum_is = v.maximum_is;
    lower = omega (arith, v.minimum_is);
    upper = omega (arith, v.minimum_is, v.lower, v.upper);
  },
  omega (arith, v.minimum_is),
  omega (arith, v.minimum_is),
  λ e. v.minimum_is,
)
next-IsBounded minimum maximum false b v = (
  record {
    minimum_is = v.minimum_is;
    maximum_is = v.maximum_is;
    lower = omega (arith, v.lower, v.upper, v.maximum_is);
    upper = omega (arith, v.maximum_is);
  },
  omega (arith, v.lower, v.upper, v.maximum_is),
  omega (arith, v.maximum_is),
  λ e. cc,
)

waits-AreBounded :
    (minimum maximum : ℕ) (rounds : List Bool) (b : IdlePollBackoff)
    → IsBounded minimum maximum b
    → AreBounded minimum maximum rounds (waits rounds b)
unfolding waits
waits-AreBounded minimum maximum [] b v = tt
waits-AreBounded minimum maximum (worked ∷ rounds) b v =
    let (after, low, high, reset) = next-IsBounded minimum maximum worked b v in
    (low, high, reset, waits-AreBounded minimum maximum rounds _ after)

poll-IsBounded :
    (minimum maximum : ℕ) (rounds : List Bool) (b : IdlePollBackoff)
    → IsBounded minimum maximum b
    → IsBounded minimum maximum (poll rounds b)
unfolding poll
poll-IsBounded minimum maximum [] b v = v
poll-IsBounded minimum maximum (worked ∷ rounds) b v =
    poll-IsBounded minimum maximum rounds _ (next-IsBounded minimum maximum worked b v).0

new-IsBounded : (minimum maximum : ℕ) → IsBounded minimum maximum (new_backoff minimum maximum)
unfolding new_backoff
new-IsBounded minimum maximum = record {
  minimum_is = refl;
  maximum_is = refl;
  lower = omega arith;
  upper = omega arith;
}

-- Whatever rounds have had work, each wait that a new backoff gives is between its minimum and the
-- larger of its minimum and its maximum, and is the minimum after a round with work.
pub waits_new-AreBounded :
    (minimum maximum : ℕ) (rounds : List Bool)
    → AreBounded minimum maximum rounds (waits rounds (new_backoff minimum maximum))
waits_new-AreBounded minimum maximum rounds =
    waits-AreBounded minimum maximum rounds _ (new-IsBounded minimum maximum)

idle_maximum : (n : ℕ) (b : IdlePollBackoff) → (idle n b).maximum_ms ≡ b.maximum_ms
unfolding idle next
idle_maximum zero b = refl
idle_maximum (suc n) b = idle_maximum n b

idle_from_minimum :
    (minimum maximum n : ℕ) (b : IdlePollBackoff)
    → b.current_ms ≡ minimum
    → b.maximum_ms ≡ max minimum maximum
    → (idle n b).current_ms ≡ min (minimum * 2 ^ n) (max minimum maximum)
unfolding idle next
idle_from_minimum minimum maximum zero b low high = omega (arith, low)
idle_from_minimum minimum maximum (suc n) b low high = omega (
  arith,
  high,
  idle_from_minimum minimum maximum n b low high,
  idle_maximum n b,
  ap (λ k. minimum * k) (pow-suc 2 n),
  mul_assoc minimum (2 ^ n) 2,
)

idle_wait :
    (minimum maximum n : ℕ) (b : IdlePollBackoff)
    → b.current_ms ≡ minimum
    → b.maximum_ms ≡ max minimum maximum
    → (next false (idle n b)).0 ≡ min (minimum * 2 ^ suc n) (max minimum maximum)
unfolding next
idle_wait minimum maximum n b low high = omega (
  arith,
  high,
  idle_from_minimum minimum maximum n b low high,
  idle_maximum n b,
  ap (λ k. minimum * k) (pow-suc 2 n),
  mul_assoc minimum (2 ^ n) 2,
)

-- The wait after n + 1 rounds without work in a row, on a new backoff or after any rounds of which the
-- last had work, is the minimum doubled n + 1 times, or the larger of the minimum and the maximum
-- where that is less.
pub idle_new_lem :
    (minimum maximum n : ℕ) (rounds : List Bool)
    → ((next false (idle n (new_backoff minimum maximum))).0
        ≡ min (minimum * 2 ^ suc n) (max minimum maximum))
      × ((next false (idle n (next true (poll rounds (new_backoff minimum maximum))).1)).0
          ≡ min (minimum * 2 ^ suc n) (max minimum maximum))
unfolding new_backoff next
idle_new_lem minimum maximum n rounds =
    let v = poll-IsBounded minimum maximum rounds _ (new-IsBounded minimum maximum) in
    (
      idle_wait minimum maximum n (new_backoff minimum maximum) refl refl,
      idle_wait minimum maximum n (next true (poll rounds (new_backoff minimum maximum))).1
          v.minimum_is v.maximum_is,
    )
