-- ===== src/Shared/Continuations/Rebuild/Attestation.antt =====
-- `execute` in src/shared/session-rebuild.ts: the runtime is asked to resume attested continuations
-- alone.
use aicoo_local_agent.Common.{
  ℕ, ◌≡◌, ◌≢◌, refl, subst, ap, ◌∙◌, inl, inr, Bool, true, false, ◌&&◌, Option, none, some, Memᴰ,
  arith, Bool-cases, Option-cases, truthy, column_is, select_first, update_first, Every, Every-mem,
  select_first_sound,
}
use aicoo_local_agent.Common.Attempts.{returned, thrown}
use aicoo_local_agent.Shared.Continuations.{
  ContinuationState, same_state, ContinuationCheckpoint, ContinuationRow, Store, Call, Texts,
  is_terminal, from_row, find, has_continuation_id, require_continuation, mark_rebuilding,
  transition, transition_from, set_state, mark_attested, attest_from, write, text_column,
}
use aicoo_local_agent.Shared.Continuations.Invariants.{IsAttested, StateColumns, Step-IsAttested}
use aicoo_local_agent.Shared.Continuations.Steps.{mark_attested-Step, transition-Step}
use aicoo_local_agent.Shared.Continuations.Graph.{same_state_lem, at_row, in_state, Edge}
use aicoo_local_agent.Shared.Continuations.Rebuild.{
  SessionRebuildOperations, resumed, resume_stage, attested, rebuilt, quiesced, run_stages,
  rebuilding, execute_from, execute_at, execute,
}

-- A checkpoint whose attested manifest hash is the expected one.
abbrev pub HasAttestation : ContinuationCheckpoint → Type 0
HasAttestation c =
    (hash : ℕ) × (c.expected_boundary_manifest_hash ≡ some hash)
    × (c.boundary_manifest_hash ≡ some hash)

columns_lem :
    (e b : Option ℕ)
    → e ≡ b
    → b ≢ none
    → b ≢ some 0
    → (hash : ℕ) × (text_column e ≡ some hash) × (text_column b ≡ some hash)
columns_lem e none same some_one real = absurd (some_one refl)
columns_lem e (some v) same some_one real = elim (Bool-cases (truthy (some v))) [
  | inl full ↦ (v, rw (same, full) refl, rw (full) refl)
  | inr empty ↦ absurd (real (ap some (ground arith)))
]

row-HasAttestation :
    (a : ContinuationRow)
    → IsAttested a
    → a.state ≡ ContinuationState.resuming
    → HasAttestation (from_row a)
unfolding from_row
row-HasAttestation a h state =
    let (_, same, some_one, real) : StateColumns ContinuationState.resuming a.grant_id
        a.expected_boundary_manifest_hash a.boundary_manifest_hash =
      subst
        (λ x. StateColumns x a.grant_id a.expected_boundary_manifest_hash a.boundary_manifest_hash)
        state h in
    columns_lem a.expected_boundary_manifest_hash a.boundary_manifest_hash same some_one real

-- A checkpoint of a row of the table.
abbrev IsRowOf : Store → ContinuationCheckpoint → Type 0
IsRowOf t c = (row : ContinuationRow) × Memᴰ row t × (from_row row ≡ c)

both :
    {c d : ContinuationCheckpoint} {s t : Store}
    → ◌≡◌ {A = Call} (returned (c, s)) (returned (d, t))
    → (c ≡ d) × (s ≡ t)
both h = (cc, cc)

found-IsRowOf :
    (id : ℕ) (s : Store) (a : ContinuationRow) {c : ContinuationCheckpoint} {t : Store}
    → select_first (has_continuation_id id) s ≡ some a
    → ◌≡◌ {A = Call} (returned (from_row a, s)) (returned (c, t))
    → IsRowOf t c
found-IsRowOf id s a found h =
    let (i, j) = both h in
    (a, rw (← j) (select_first_sound (has_continuation_id id) s {a = a} found).0, i)

write-IsRowOf :
    (id : ℕ) (f : ContinuationRow → ContinuationRow) (s : Store) {c : ContinuationCheckpoint}
    {t : Store}
    → write id f s ≡ returned (c, t)
    → IsRowOf t c
unfolding write
write-IsRowOf id f s {c} {t} h =
    let (a, found, e) =
      at_row id (update_first (has_continuation_id id) f s)
        (λ current. returned (current, update_first (has_continuation_id id) f s)) {r = (c, t)} h in
    found-IsRowOf id (update_first (has_continuation_id id) f s) a found e

mark_attested-IsRowOf :
    (now id hash : ℕ) (s : Store) (c : ContinuationCheckpoint) (t : Store)
    → mark_attested now id hash s ≡ returned (c, t)
    → IsRowOf t c
unfolding mark_attested attest_from
mark_attested-IsRowOf now id hash s c t h =
    let (a, found, e) = at_row id s (λ current. attest_from now id hash current s) {r = (c, t)} h in
    elim (Bool-cases (
      same_state a.state ContinuationState.resuming
      && column_is (from_row a).boundary_manifest_hash hash)) [
        | inl before ↦ found-IsRowOf id s a found (rw (before, attest_from) at e)
        | inr other ↦
            let (_, e2) =
              in_state a ContinuationState.rebuilding_session _ {r = (c, t)}
                (rw (other, attest_from) at e) in
            write-IsRowOf id _ s e2
      ]

mark_rebuilding-IsRowOf :
    (now id : ℕ) (s : Store) (c : ContinuationCheckpoint) (t : Store)
    → mark_rebuilding now id s ≡ returned (c, t)
    → IsRowOf t c
unfolding mark_rebuilding transition transition_from
mark_rebuilding-IsRowOf now id s c t h =
    let from = ContinuationState.approved_pending_activation in
    let to = ContinuationState.rebuilding_session in
    let (a, found, e) =
      at_row id s (λ current. transition_from now id from to current s) {r = (c, t)} h in
    elim (Bool-cases (same_state a.state to)) [
      | inl before ↦ found-IsRowOf id s a found (rw (before, transition_from) at e)
      | inr other ↦
          let (_, e2) = in_state a from _ {r = (c, t)} (rw (other, transition_from) at e) in
          write-IsRowOf id (set_state now to) s e2
    ]

-- Attested where it is resuming: what a table with attested rows gives.
abbrev IsReady : ContinuationCheckpoint → Type 0
IsReady c = c.state ≡ ContinuationState.resuming → HasAttestation c

IsRowOf-IsReady :
    (t : Store) (c : ContinuationCheckpoint) → Every IsAttested t → IsRowOf t c → IsReady c
unfolding from_row
IsRowOf-IsReady t c fine (row, m, e) =
    subst IsReady e (λ state. row-HasAttestation row (Every-mem IsAttested t row m fine) state)

module _ (texts : Texts) (ops : SessionRebuildOperations)
    (other : ContinuationCheckpoint → Store → Bool × Store)
    (agrees : (c : ContinuationCheckpoint) (s : Store)
      → c.state ≡ ContinuationState.resuming
      → HasAttestation c
      → ops.resume c s ≡ other c s)
    (now id : ℕ) where
  abbrev changed : SessionRebuildOperations
  changed = record ops { resume = other }

  resumed-changed : (q : Bool × Store) → resumed texts ops now id q ≡ resumed texts changed now id q
  unfolding resumed
  resumed-changed (true, s) = refl
  resumed-changed (false, s) = refl

  resume_stage-changed :
      (c : ContinuationCheckpoint) (s : Store)
      → IsReady c
      → same_state c.state ContinuationState.resuming ≡ true
      → resume_stage texts ops now id c s ≡ resume_stage texts changed now id c s
  unfolding resume_stage
  resume_stage-changed c s ready same =
      let state = same_state_lem c.state ContinuationState.resuming same in
      ap (resumed texts ops now id) (agrees c s state (ready state)) ∙ resumed-changed (other c s)

  module _
      (quiesces : (c : ContinuationCheckpoint) (s : Store)
        → Every IsAttested s
        → Every IsAttested (ops.quiesce c s).1)
      (rebuilds : (c : ContinuationCheckpoint) (s : Store)
        → Every IsAttested s
        → Every IsAttested (ops.rebuild_and_attest c s).1) where
    rebuilt-changed :
        (q : Option ℕ × Store)
        → Every IsAttested q.1
        → rebuilt texts ops now id q ≡ rebuilt texts changed now id q
    unfolding rebuilt attested
    rebuilt-changed (none, s) g = refl
    rebuilt-changed (some hash, s) g = call (mark_attested now id hash s) refl
      where
        call :
            (k : Call)
            → mark_attested now id hash s ≡ k
            → attested texts ops now id k s ≡ attested texts changed now id k s
        call (thrown x) e = refl
        call (returned (c, t)) e =
            elim (Bool-cases (same_state c.state ContinuationState.resuming)) [
              | inl same ↦
                  let ready =
                    IsRowOf-IsReady t c
                      (Step-IsAttested s t (mark_attested-Step now id s c t hash e) g)
                      (mark_attested-IsRowOf now id hash s c t e) in
                  rw (same) (resume_stage-changed c t ready same)
              | inr otherwise ↦ rw (otherwise) refl
            ]

    quiesced-changed :
        (c : ContinuationCheckpoint) (q : Bool × Store)
        → Every IsAttested q.1
        → quiesced texts ops now id c q ≡ quiesced texts changed now id c q
    unfolding quiesced
    quiesced-changed c (false, s) g = refl
    quiesced-changed c (true, s) g = rebuilt-changed (ops.rebuild_and_attest c s) (rebuilds c s g)

    run_stages-changed :
        (c : ContinuationCheckpoint) (s : Store)
        → Every IsAttested s
        → IsReady c
        → run_stages texts ops now id c s ≡ run_stages texts changed now id c s
    unfolding run_stages
    run_stages-changed c s g ready =
        elim (Bool-cases (same_state c.state ContinuationState.rebuilding_session)) [
          | inl first ↦ rw (first) (quiesced-changed c (ops.quiesce c s) (quiesces c s g))
          | inr later ↦ elim (Bool-cases (same_state c.state ContinuationState.resuming)) [
            | inl same ↦ rw (later, same) (resume_stage-changed c s ready same)
            | inr ended ↦ rw (later, ended) refl
          ]
        ]

    execute-changed :
        (s : Store)
        → Every IsAttested s
        → execute texts ops now id s ≡ execute texts changed now id s
    unfolding execute execute_at execute_from
    execute-changed s g = elim (Option-cases (select_first (has_continuation_id id) s)) [
      | inl missing ↦ rw (missing, execute, require_continuation, find) refl
      | inr (a, found) ↦
          rw (found, execute, require_continuation, find)
            (from_row_of a (
              IsRowOf-IsReady s (from_row a) g
                (a, (select_first_sound (has_continuation_id id) s {a = a} found).0, refl)))
    ]
      where
        marked :
            (k : Call)
            → mark_rebuilding now id s ≡ k
            → rebuilding texts ops now id k s ≡ rebuilding texts changed now id k s
        marked (thrown x) e = refl
        marked (returned (c, t)) e =
            let g2 = Step-IsAttested s t (transition-Step now id s c t _ _ Edge.rebuild e) g in
            run_stages-changed c t g2
              (IsRowOf-IsReady t c g2 (mark_rebuilding-IsRowOf now id s c t e))

        from_row_of :
            (a : ContinuationRow)
            → IsReady (from_row a)
            → execute_from texts ops now id (from_row a) s
              ≡ execute_from texts changed now id (from_row a) s
        from_row_of a ready = elim (Bool-cases (is_terminal a.state)) [
          | inl ended ↦ rw (ended) refl
          | inr going ↦
              elim (Bool-cases (same_state a.state ContinuationState.approved_pending_activation)) [
                | inl approved ↦ rw (going, approved) (marked (mark_rebuilding now id s) refl)
                | inr later ↦ rw (going, later) (run_stages-changed (from_row a) s g ready)
              ]
        ]

-- In a table whose rows are attested, and stay so while the other operations are awaited, `execute`
-- comes to the same for two `resume` operations that agree on the checkpoints that are resuming with
-- an attested manifest hash equal to the expected one: it asks for no other to be resumed.
pub resume_only_attested :
    (texts : Texts) (ops : SessionRebuildOperations)
    (other : ContinuationCheckpoint → Store → Bool × Store) (now id : ℕ) (s : Store)
    → ((c : ContinuationCheckpoint) (s : Store)
        → c.state ≡ ContinuationState.resuming
        → HasAttestation c
        → ops.resume c s ≡ other c s)
    → ((c : ContinuationCheckpoint) (s : Store)
        → Every IsAttested s
        → Every IsAttested (ops.quiesce c s).1)
    → ((c : ContinuationCheckpoint) (s : Store)
        → Every IsAttested s
        → Every IsAttested (ops.rebuild_and_attest c s).1)
    → Every IsAttested s
    → execute texts ops now id s ≡ execute texts (record ops { resume = other }) now id s
resume_only_attested texts ops other now id s agrees quiesces rebuilds fine =
    execute-changed texts ops other agrees now id quiesces rebuilds s fine
