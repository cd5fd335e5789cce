-- ===== src/Tests/SharedRuns.antt =====
-- The theorems on the shared parts and the bridge's health, on concrete runs.
use aicoo_local_agent.Common.{
  update_first, ◌*◌, ℕ, ◌+◌, ◌<◌, ◌≡◌, ◌⊎◌, ◌↔◌, refl, arith, List, [], ◌∷◌, Bool, true, false,
  Option, none, some, is_some, select_first, update_first, Every, ◌==◌, if◌then◌else◌,
}
use aicoo_local_agent.Common.Attempts.{returned}
use aicoo_local_agent.Security.Presets.{FileAccessPreset}
use aicoo_local_agent.Shared.Continuations.{
  require_continuation, write, set_state, set_attested, transition, transition_from, require_state,
  mark_rebuilding, mark_attested, attest_from, mark_resuming, has_continuation_id,
  ContinuationState, ContinuationCheckpoint, CreateContinuationInput, ContinuationRow, Store, Texts,
  ContinuationApproval, from_row, find, require_continuation, row_for_idempotency_key,
  new_continuation, validate_input, create_row, create, is_terminal, set_approved, mark_approved,
  approve_from, require_state, write, set_state, transition, transition_from, mark_denied,
  is_recoverable,
}
use aicoo_local_agent.Shared.Continuations.Graph.{Step}
use aicoo_local_agent.Shared.Continuations.Runs.{Method, Run, perform, perform-Step}
use aicoo_local_agent.Shared.Continuations.Invariants.{IsAttested, run-IsAttested}
use aicoo_local_agent.Shared.Continuations.Permanence.{terminal_stays, create_again}
use aicoo_local_agent.Shared.Continuations.Rebuild.{
  SessionRebuildOperations, execute, execute_at, execute_from, rebuilding, run_stages, quiesced,
  rebuilt, attested, resume_stage, resumed, settle, settle_or,
}
use aicoo_local_agent.Shared.Continuations.Rebuild.Attestation.{resume_only_attested}
use aicoo_local_agent.Shared.Continuations.Rebuild.Progress.{LeavesTable, execute-Settled}
use aicoo_local_agent.Shared.Continuations.Rebuild.Writing.{CodesFit, Settled}
use aicoo_local_agent.Shared.ToolApproval.{
  BoundaryActivation, ToolApprovalScope, ApprovalStatus, ApprovalDecision, ToolApprovalState,
  ToolApprovalOutcome, allow_with, verified_activation, valid_activation, decide_status, decide_by,
  decide, polled, wait_loop, after_request, await_tool_approval,
}
use aicoo_local_agent.Shared.ToolApproval.Waiting.{GrantedBy, allowed_only_if_granted, await_ends}
use aicoo_local_agent.Shared.Rollout.{
  CapabilitySurface, BoundaryMetrics, Runtime, CapabilitySecurityContext,
  CapabilitySurfaceActivation, default_thresholds, resolve_capability_surface,
}
use aicoo_local_agent.Shared.Rollout.Surface.{IsOperable, IsWithinLimits, full_surface_iff}
use aicoo_local_agent.Bridge.Recovery.{RecoveryState, is_resuming, recover_decision}
use aicoo_local_agent.Bridge.Recovery.Once.{Recovered, recover_as, recover_all, recover_once}
use aicoo_local_agent.Bridge.Recovery.Deciding.{IsAnswered, recover_decision-IsAnswered}
use aicoo_local_agent.Bridge.Health.{
  HeartbeatWatchdogOptions, Beat, watch, failures_in_a_row, delay_after, is_unhealthy,
  should_be_unhealthy, watch_lem,
}

-- Texts that are all of five characters.
abbrev texts : Texts
texts = record { is_blank = λ text. text == 0; size = λ text. 5 }

abbrev hash : CreateContinuationInput → ℕ
hash input = input.original_message

abbrev asked : CreateContinuationInput
asked = record {
  idempotency_key = 21;
  correlation_id = 22;
  communication_session_id = 301;
  message_id = 401;
  session_handle = 202;
  runtime_turn_id = 23;
  original_message = 24;
  requested_capability = record { tool_name = 25; canonical_resource = 26; summary = 27 };
}

abbrev paused : ContinuationRow
paused = record {
  continuation_id = 31;
  approval_id = none;
  idempotency_key = 21;
  request_hash = 24;
  correlation_id = 22;
  communication_session_id = 301;
  message_id = 401;
  session_handle = 202;
  runtime_turn_id = 23;
  original_message_json = 24;
  requested_capability = record { tool_name = 25; canonical_resource = 26; summary = 27 };
  state = ContinuationState.awaiting_approval;
  grant_id = none;
  grant_revision = none;
  approved_canonical_folder = none;
  approved_access_preset = none;
  expected_boundary_manifest_hash = none;
  boundary_manifest_hash = none;
  error_code = none;
  created_at = 100;
  updated_at = 100;
}

abbrev approval : ContinuationApproval
approval = record {
  grant_id = 41;
  grant_revision = 1;
  approved_canonical_folder = 42;
  approved_access_preset = FileAccessPreset.read_project;
  expected_boundary_manifest_hash = 43;
}

abbrev approved : ContinuationRow
approved = record paused {
  state = ContinuationState.approved_pending_activation;
  grant_id = some 41;
  grant_revision = some 1;
  approved_canonical_folder = some 42;
  approved_access_preset = some FileAccessPreset.read_project;
  expected_boundary_manifest_hash = some 43;
  updated_at = 110;
}

abbrev denied_row : ContinuationRow
denied_row = record paused { state = ContinuationState.denied; updated_at = 110 }

created : create texts hash 100 31 asked [] ≡ returned (from_row paused, paused ∷ [])
unfolding create validate_input row_for_idempotency_key create_row new_continuation
    require_continuation find from_row select_first
created = refl

performed :
    perform texts hash 110 (Method.approve_one 31 approval) (paused ∷ [])
    ≡ returned (from_row approved, approved ∷ [])
unfolding perform mark_approved approve_from require_continuation find from_row require_state write
    set_approved select_first update_first
performed = refl

refused :
    perform texts hash 110 (Method.deny_one 31) (paused ∷ [])
    ≡ returned (from_row denied_row, denied_row ∷ [])
unfolding perform mark_denied transition transition_from require_continuation find from_row
    require_state write set_state select_first update_first
refused = refl

perform-Step_example : Step (paused ∷ []) (approved ∷ [])
perform-Step_example =
    perform-Step texts hash 110 (Method.approve_one 31 approval) (paused ∷ []) (from_row approved)
      (approved ∷ []) performed

created_run : Run texts hash [] (paused ∷ [])
unfolding perform
created_run =
    Run.after 100 (Method.create_one 31 asked) (from_row paused) (paused ∷ []) (Run.start [])
      created

approved_run : Run texts hash [] (approved ∷ [])
approved_run =
    Run.after 110 (Method.approve_one 31 approval) (from_row approved) (approved ∷ []) created_run
      performed

run-IsAttested_example : Every IsAttested (approved ∷ [])
run-IsAttested_example = run-IsAttested texts hash (approved ∷ []) approved_run

found_denied : find 31 (denied_row ∷ []) ≡ some (from_row denied_row)
unfolding find select_first
found_denied = refl

denied_ends : is_terminal (from_row denied_row).state ≡ true
unfolding from_row
denied_ends = refl

abbrev more : CreateContinuationInput
more = record asked { idempotency_key = 61 }

abbrev other_row : ContinuationRow
other_row = record paused {
  continuation_id = 32;
  idempotency_key = 61;
  created_at = 120;
  updated_at = 120;
}

created_more :
    perform texts hash 120 (Method.create_one 32 more) (denied_row ∷ [])
    ≡ returned (from_row other_row, denied_row ∷ other_row ∷ [])
unfolding perform create validate_input row_for_idempotency_key create_row new_continuation
    require_continuation find from_row select_first
created_more = refl

terminal_stays_example : find 31 (denied_row ∷ other_row ∷ []) ≡ some (from_row denied_row)
terminal_stays_example =
    terminal_stays texts hash 31 (denied_row ∷ []) (denied_row ∷ other_row ∷ [])
      (from_row denied_row)
      (Run.after 120 (Method.create_one 32 more) (from_row other_row) (denied_row ∷ other_row ∷ [])
        (Run.start (denied_row ∷ [])) created_more)
      found_denied denied_ends

fresh_id : find 31 [] ≡ none
unfolding find select_first
fresh_id = refl

create_again_example :
    (d : ContinuationCheckpoint) × (create texts hash 130 33 asked (denied_row ∷ [])
      ≡ returned (d, denied_row ∷ []))
    × (d.continuation_id ≡ (from_row paused).continuation_id)
create_again_example =
    create_again texts hash 100 31 130 33 asked [] (paused ∷ []) (denied_row ∷ []) (from_row paused)
      fresh_id created
      (Run.after 110 (Method.deny_one 31) (from_row denied_row) (denied_row ∷ [])
        (Run.start (paused ∷ [])) refused)

-- A runtime that attests the expected manifest and resumes.
abbrev runtime : SessionRebuildOperations
runtime = record {
  quiesce = λ c s. (true, s);
  rebuild_and_attest = λ c s. (some 43, s);
  resume = λ c s. (true, s);
}

-- One that fails where no manifest hash was attested.
abbrev fails_unattested : ContinuationCheckpoint → Store → Bool × Store
fails_unattested c s = (is_some c.boundary_manifest_hash, s)

approved_rows : Every IsAttested (approved ∷ [])
approved_rows = (refl, tt)

resume_only_attested_example :
    execute texts runtime 120 31 (approved ∷ [])
    ≡ execute texts (record runtime { resume = fails_unattested }) 120 31 (approved ∷ [])
resume_only_attested_example =
    resume_only_attested texts runtime fails_unattested 120 31 (approved ∷ [])
      (λ c s state attestation. rw (attestation.2) refl) (λ c s fine. fine) (λ c s fine. fine)
      approved_rows

untouched : LeavesTable runtime
untouched = record {
  in_quiesce = λ c s. refl;
  in_rebuild_and_attest = λ c s. refl;
  in_resume = λ c s. refl;
}

codes_fit : CodesFit texts
codes_fit = (refl, refl, refl)

found_approved : find 31 (approved ∷ []) ≡ some (from_row approved)
unfolding find select_first
found_approved = refl

approved_lives : is_recoverable (from_row approved).state ≡ true
unfolding from_row
approved_lives = refl

execute-Settled_example : Settled 31 (execute texts runtime 120 31 (approved ∷ []))
execute-Settled_example =
    execute-Settled texts runtime untouched codes_fit 120 31 (approved ∷ []) (from_row approved)
      found_approved approved_lives

-- The owner has not answered, and answers at the second poll.
abbrev asking : ToolApprovalState
asking = record {
  status = ApprovalStatus.pending;
  decision = none;
  scope = none;
  activation = none;
}

abbrev agreed : ToolApprovalState
agreed = record asking { decision = some ApprovalDecision.allow }

abbrev answers : ℕ → ℕ → Option ToolApprovalState
answers n at_time = if n == 2 then some agreed else none

abbrev clock : ℕ → ℕ
clock n = 1000 * n + 1000

abbrev sleep : ℕ → ℕ → ℕ
sleep start ms = start + ms

waited :
    await_tool_approval texts false answers clock sleep 1000 5000 6 (some asking)
    ≡ some (ToolApprovalOutcome.allowed ToolApprovalScope.once none)
unfolding await_tool_approval after_request wait_loop polled decide decide_by decide_status
    allow_with verified_activation valid_activation
waited = refl

allowed_only_if_granted_example :
    (state : ToolApprovalState) × GrantedBy texts false none state
    × ((some asking ≡ some state)
        ⊎ ((n : ℕ) × (clock n < clock 0 + 5000) × (answers n (sleep (clock n) 1000) ≡ some state)))
allowed_only_if_granted_example =
    allowed_only_if_granted texts false answers clock sleep 1000 5000 6 (some asking)
      ToolApprovalScope.once none waited

clock_on : (n : ℕ) → clock n < clock (n + 1)
clock_on n = omega arith

await_ends_example :
    (o : ToolApprovalOutcome) × (await_tool_approval texts false answers clock sleep 1000 5000 5001
        (some asking)
      ≡ some o)
await_ends_example =
    await_ends texts false answers clock sleep 1000 5000 5000 (some asking) clock_on (omega arith)

abbrev no_history : BoundaryMetrics
no_history = record {
  eligible_tasks = 3;
  rebuild_rate = 500000;
  rebuild_failure_rate = 0;
  rebuild_latency_p95_ms = none;
}

abbrev owned : CapabilitySecurityContext
owned = record {
  runtime = Runtime.claude_code;
  owner_approval_gateway = true;
  codex_app_server = none;
}

full_surface_iff_example :
    let resolved =
      resolve_capability_surface CapabilitySurface.full_agent no_history owned default_thresholds in
    (IsOperable owned ↔ ((act : CapabilitySurfaceActivation) × (resolved ≡ returned act)))
    × ((act : CapabilitySurfaceActivation)
        → resolved ≡ returned act
        → (act.requested ≡ CapabilitySurface.full_agent)
          × ((act.active ≡ CapabilitySurface.full_agent)
              ↔ IsWithinLimits no_history default_thresholds))
full_surface_iff_example = full_surface_iff no_history owned default_thresholds

abbrev beating : HeartbeatWatchdogOptions
beating = record { heartbeat_ms = 15000; max_backoff_ms = 120000; failure_threshold = 3 }

abbrev beats : List Beat
beats = Beat.failed 300 8 1 ∷ Beat.failed 200 8 1 ∷ Beat.failed 150 8 1 ∷ Beat.succeeded 100 1 ∷ []

watch_lem_example :
    ((watch beating 50 beats).consecutive_heartbeat_failures ≡ failures_in_a_row beats)
    × ((watch beating 50 beats).next_heartbeat_in_ms
        ≡ delay_after beating (failures_in_a_row beats))
    × (is_unhealthy (watch beating 50 beats).status ≡ should_be_unhealthy beating beats)
watch_lem_example = watch_lem beating 50 beats

abbrev activation : BoundaryActivation
activation = record {
  grant_id = some 41;
  grant_revision = some 1;
  canonical_folder = some 42;
  access_preset = some FileAccessPreset.read_project;
  expected_boundary_manifest_hash = some 43;
}

abbrev agreed_with_boundary : Option ToolApprovalState
agreed_with_boundary = some (record agreed { activation = some activation })

-- Every resource lies in a part of every folder: `relative` gives "a".
abbrev relative : ℕ → ℕ → List ℕ
relative folder resource = 97 ∷ []

found_paused : find (from_row paused).continuation_id (paused ∷ []) ≡ some (from_row paused)
unfolding find from_row select_first
found_paused = refl

paused_waits : (from_row paused).state ≡ ContinuationState.awaiting_approval
unfolding from_row
paused_waits = refl

recover_decision-IsAnswered_example :
    (row : ContinuationRow) × (select_first
        (has_continuation_id (from_row paused).continuation_id)
        (recover_decision texts relative 140 (from_row paused) agreed_with_boundary (paused ∷ []))
      ≡ some row)
    × IsAnswered texts relative
        (from_row paused).requested_capability.canonical_resource
        agreed_with_boundary
        row
recover_decision-IsAnswered_example =
    recover_decision-IsAnswered texts relative 140 (paused ∷ []) (from_row paused)
      agreed_with_boundary found_paused paused_waits

abbrev recovering : RecoveryState
recovering = record { store = approved ∷ []; resumed_this_process = [] }

abbrev recovered_at : ℕ → SessionRebuildOperations → Recovered
recovered_at time operations = record {
  operations = operations;
  now = time;
  can_activate = true;
  checkpoint = from_row approved;
}

-- A runtime that cannot be stopped, which fails what it is asked.
abbrev broken : SessionRebuildOperations
broken = record runtime { quiesce = λ c s. (false, s) }

brought_to_resume :
    is_resuming (execute texts runtime 120 (from_row approved).continuation_id recovering.store).0
    ≡ true
unfolding execute execute_at execute_from rebuilding run_stages quiesced rebuilt attested
    resume_stage resumed settle settle_or require_continuation find from_row select_first
    update_first write set_state set_attested transition transition_from require_state
    mark_rebuilding mark_attested attest_from mark_resuming
brought_to_resume = refl

recover_once_example :
    recover_as texts (recovered_at 140 broken) (
      recover_all texts
        (recovered_at 130 broken ∷ [])
        (recover_as texts (recovered_at 120 runtime) recovering))
    ≡ recover_all texts
        (recovered_at 130 broken ∷ [])
        (recover_as texts (recovered_at 120 runtime) recovering)
recover_once_example =
    recover_once texts (recovered_at 120 runtime) (recovered_at 140 broken)
      (recovered_at 130 broken ∷ []) recovering refl brought_to_resume refl
