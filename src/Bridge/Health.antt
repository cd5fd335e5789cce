-- ===== src/Bridge/Health.antt =====
-- src/bridge/health.ts: the watchdog of a bridge's heartbeats. Instants and delays are milliseconds;
-- `persist` only hands the state out, so it is the value of each method.
use aicoo_local_agent.Common.{
  ℕ, zero, suc, ◌+◌, ◌-◌, ◌*◌, ◌^◌, ◌≡◌, refl, min, max, arith, List, [], ◌∷◌, Bool, true, false,
  Option, none, some, leb, if◌then◌else◌,
}

pub data BridgeHealthStatus : Type 0 where
  starting healthy degraded unhealthy stopped : BridgeHealthStatus

pub record BridgeHealthState : Type 0 where
  pub status : BridgeHealthStatus
  pub consecutive_heartbeat_failures : ℕ
  pub next_heartbeat_in_ms : ℕ
  pub event_loop_lag_ms : ℕ
  pub last_heartbeat_attempt_at : Option ℕ
  pub last_heartbeat_success_at : Option ℕ
  pub last_error : Option ℕ
  pub updated_at : ℕ

-- The options that the methods read; `failureThreshold` is positive.
pub record HeartbeatWatchdogOptions : Type 0 where
  pub heartbeat_ms : ℕ
  pub max_backoff_ms : ℕ
  pub failure_threshold : ℕ

unfoldable pub start_watchdog : HeartbeatWatchdogOptions → ℕ → BridgeHealthState
start_watchdog options now = record {
  status = BridgeHealthStatus.starting;
  consecutive_heartbeat_failures = 0;
  next_heartbeat_in_ms = options.heartbeat_ms;
  event_loop_lag_ms = 0;
  last_heartbeat_attempt_at = none;
  last_heartbeat_success_at = none;
  last_error = none;
  updated_at = now;
}

unfoldable pub record_success : HeartbeatWatchdogOptions → ℕ → ℕ → BridgeHealthState
record_success options now lag = record {
  status =
      if leb options.heartbeat_ms lag
      then BridgeHealthStatus.degraded
      else BridgeHealthStatus.healthy;
  consecutive_heartbeat_failures = 0;
  next_heartbeat_in_ms = options.heartbeat_ms;
  event_loop_lag_ms = lag;
  last_heartbeat_attempt_at = some now;
  last_heartbeat_success_at = some now;
  last_error = none;
  updated_at = now;
}

unfoldable pub record_failure :
    HeartbeatWatchdogOptions → ℕ → ℕ → ℕ → BridgeHealthState → BridgeHealthState
record_failure options now error lag state =
    let failures = state.consecutive_heartbeat_failures + 1 in
    let exponent = max 0 (failures - 1) in
    record {
      status =
          if leb options.failure_threshold failures
          then BridgeHealthStatus.unhealthy
          else BridgeHealthStatus.degraded;
      consecutive_heartbeat_failures = failures;
      next_heartbeat_in_ms = min options.max_backoff_ms (options.heartbeat_ms * 2 ^ exponent);
      event_loop_lag_ms = lag;
      last_heartbeat_attempt_at = some now;
      last_heartbeat_success_at = state.last_heartbeat_success_at;
      last_error = some error;
      updated_at = now;
    }

unfoldable pub stop_watchdog : ℕ → BridgeHealthState → BridgeHealthState
stop_watchdog now state = record state { status = BridgeHealthStatus.stopped; updated_at = now }

-- `updatedAt` is missing where it is no date.
unfoldable pub bridge_health_is_fresh : Option ℕ → ℕ → ℕ → Bool
bridge_health_is_fresh none next now = false
bridge_health_is_fresh (some updated) next now = leb now (updated + max 40000 (next * 2 + 20000))

-- What befalls a watchdog.
pub data Beat : Type 0 where
  succeeded : (now lag : ℕ) → Beat
  failed : (now error lag : ℕ) → Beat
  ended : (now : ℕ) → Beat

-- The state after some beats, the latest of them first.
unfoldable pub watch : HeartbeatWatchdogOptions → ℕ → List Beat → BridgeHealthState
unfolding start_watchdog record_success record_failure stop_watchdog
watch options began [] = start_watchdog options began
watch options began (Beat.succeeded now lag ∷ beats) = record_success options now lag
watch options began (Beat.failed now error lag ∷ beats) =
    record_failure options now error lag (watch options began beats)
watch options began (Beat.ended now ∷ beats) = stop_watchdog now (watch options began beats)

-- The failures since the last success.
unfoldable pub failures_in_a_row : List Beat → ℕ
failures_in_a_row [] = 0
failures_in_a_row (Beat.succeeded now lag ∷ beats) = 0
failures_in_a_row (Beat.failed now error lag ∷ beats) = suc (failures_in_a_row beats)
failures_in_a_row (Beat.ended now ∷ beats) = failures_in_a_row beats

-- The delay before the next heartbeat after n failures in a row.
abbrev pub delay_after : HeartbeatWatchdogOptions → ℕ → ℕ
delay_after options zero = options.heartbeat_ms
delay_after options (suc n) = min options.max_backoff_ms (options.heartbeat_ms * 2 ^ n)

-- Is the watchdog unhealthy: did it last fail, the threshold of failures reached?
abbrev pub is_unhealthy : BridgeHealthStatus → Bool
is_unhealthy BridgeHealthStatus.unhealthy = true
is_unhealthy _ = false

unfoldable pub should_be_unhealthy : HeartbeatWatchdogOptions → List Beat → Bool
unfolding failures_in_a_row
should_be_unhealthy options (Beat.failed now error lag ∷ beats) =
    leb options.failure_threshold (suc (failures_in_a_row beats))
should_be_unhealthy options _ = false

-- After any beats the watchdog has counted the failures since the last success, waits the heartbeat
-- interval, doubled for each such failure but the first and cut off at the maximum backoff, and is
-- unhealthy exactly when the latest beat failed and the failures in a row reach the threshold.
pub watch_lem :
    (options : HeartbeatWatchdogOptions) (began : ℕ) (beats : List Beat)
    → ((watch options began beats).consecutive_heartbeat_failures ≡ failures_in_a_row beats)
      × ((watch options began beats).next_heartbeat_in_ms
          ≡ delay_after options (failures_in_a_row beats))
      × (is_unhealthy (watch options began beats).status ≡ should_be_unhealthy options beats)
unfolding watch failures_in_a_row should_be_unhealthy start_watchdog record_success record_failure
    stop_watchdog
watch_lem options began [] = (refl, refl, refl)
watch_lem options began (Beat.succeeded now lag ∷ beats) = (refl, refl, ground arith)
watch_lem options began (Beat.failed now error lag ∷ beats) =
    let (counted, _, _) = watch_lem options began beats in
    let n = failures_in_a_row beats in
    let next : n + 1 ≡ suc n = omega arith in
    let exponent : max 0 (n + 1 - 1) ≡ n = omega arith in
    rw counted (next, rw exponent refl, rw next (status (leb options.failure_threshold (suc n))))
  where
    status :
        (b : Bool)
        → is_unhealthy (if b then BridgeHealthStatus.unhealthy else BridgeHealthStatus.degraded) ≡ b
    status true = refl
    status false = refl
watch_lem options began (Beat.ended now ∷ beats) =
    let (counted, delay, _) = watch_lem options began beats in (counted, delay, refl)
