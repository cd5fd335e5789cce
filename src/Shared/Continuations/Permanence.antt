-- ===== src/Shared/Continuations/Permanence.antt =====
-- src/shared/continuation-store.ts: what no later call changes.
use aicoo_local_agent.Common.{
  ℕ, ◌≡◌, refl, sym, ap, ◌∙◌, inl, inr, [], ◌∷◌, ◌++◌, Bool, true, false, Option, none, some,
  Bool-cases, Option-cases, ◌==◌, select_first, Evolves, Evolves-refl, Evolves-trans,
  Evolves-append, Evolves-update_first, Evolves-select_first, select_first-append_none, ==_iff,
}
use aicoo_local_agent.Common.Attempts.{returned, >>=-eq-returned}
use aicoo_local_agent.Shared.Continuations.{
  ContinuationState, ContinuationCheckpoint, CreateContinuationInput, ContinuationRow, Store, Call,
  Texts, from_row, has_continuation_id, find, require_continuation, row_for_idempotency_key,
  set_state, set_failed, set_approval, set_approved, set_mismatched, set_attested, new_continuation,
  validate_input, create_row, create, is_terminal,
}
use aicoo_local_agent.Shared.Continuations.Graph.{
  Edge, rebuild, complete, expire, deny, not_delivered, Failure, before_rebuild, in_rebuild,
  in_resume, Move, advance, fail, attach, approve, attest, refuse, Step, kept, added, moved,
}
use aicoo_local_agent.Shared.Continuations.Runs.{Run, start, after, perform-Step}

-- How a row moves: it keeps its names and what was asked, and where it has ended nothing changes.
abbrev pub Kept : ContinuationRow → ContinuationRow → Type 0
Kept a b =
    (b.continuation_id ≡ a.continuation_id)
    × (b.idempotency_key ≡ a.idempotency_key)
    × (b.request_hash ≡ a.request_hash)
    × (is_terminal a.state ≡ true → b ≡ a)

Kept-refl : (a : ContinuationRow) → Kept a a
Kept-refl a = (refl, refl, refl, λ _. refl)

Kept-trans : (a b c : ContinuationRow) → Kept a b → Kept b c → Kept a c
Kept-trans a b c (i, k, q, f) (j, l, r, g) = (
  j ∙ i,
  l ∙ k,
  r ∙ q,
  λ h. g (ap (λ (x : ContinuationRow). is_terminal x.state) (f h) ∙ h) ∙ f h,
)

Edge-is_terminal : {from to : ContinuationState} → Edge from to → is_terminal from ≡ false
Edge-is_terminal rebuild = refl
Edge-is_terminal complete = refl
Edge-is_terminal expire = refl
Edge-is_terminal deny = refl
Edge-is_terminal not_delivered = refl

Failure-is_terminal : {from to : ContinuationState} → Failure from to → is_terminal from ≡ false
Failure-is_terminal before_rebuild = refl
Failure-is_terminal in_rebuild = refl
Failure-is_terminal in_resume = refl

Move-Kept : (a b : ContinuationRow) → Move a b → Kept a b
unfolding set_state set_failed set_approval set_approved set_mismatched set_attested
Move-Kept a b (advance now to edge e) = rw e (refl, refl, refl, λ k. cc (Edge-is_terminal edge, k))
Move-Kept a b (fail now error to failure e) =
    rw e (refl, refl, refl, λ k. cc (Failure-is_terminal failure, k))
Move-Kept a b (attach now approval state free e) =
    rw e (refl, refl, refl, λ k. cc (ap is_terminal state, k))
Move-Kept a b (approve now approval state e) =
    rw e (refl, refl, refl, λ k. cc (ap is_terminal state, k))
Move-Kept a b (attest now hash state expected real e) =
    rw e (refl, refl, refl, λ k. cc (ap is_terminal state, k))
Move-Kept a b (refuse now hash state bad e) =
    rw e (refl, refl, refl, λ k. cc (ap is_terminal state, k))

Step-Kept : (s t : Store) → Step s t → Evolves Kept s t
Step-Kept s t (kept e) = rw e (Evolves-refl Kept Kept-refl s)
Step-Kept s t (added now id hash input fresh e) = rw e (Evolves-append Kept Kept-refl s _)
Step-Kept s t (moved id a f found move e) = rw e (
    Evolves-update_first Kept Kept-refl (has_continuation_id id) f s a found
      (Move-Kept a (f a) move))

run-Kept :
    (texts : Texts) (hash : CreateContinuationInput → ℕ) {s t : Store}
    → Run texts hash s t
    → Evolves Kept s t
run-Kept texts hash (start s) = Evolves-refl Kept Kept-refl s
run-Kept texts hash (after {s = q} now m c t before e) =
    Evolves-trans Kept Kept-trans (run-Kept texts hash before)
      (Step-Kept q t (perform-Step texts hash now m q c t e))

-- A continuation that is completed, denied, expired or failed stays in the table as it is, whatever
-- methods are called after.
pub terminal_stays :
    (texts : Texts) (hash : CreateContinuationInput → ℕ) (id : ℕ) (s t : Store)
    (a : ContinuationCheckpoint)
    → Run texts hash s t
    → find id s ≡ some a
    → is_terminal a.state ≡ true
    → find id t ≡ some a
unfolding find
terminal_stays texts hash id s t a run found ended =
    elim (Option-cases (select_first (has_continuation_id id) s)) [
      | inl missing ↦ cc (rw (missing, find) at found)
      | inr (row, e) ↦
          let same : some (from_row row) ≡ some a = rw (e, find) at found in
          let (later, e2, moves) =
            Evolves-select_first Kept (λ r. r.continuation_id) (λ _ _ k. k.0) id s t row
              (run-Kept texts hash run) e in
          let ended_row : is_terminal row.state ≡ true =
            ap (λ (o : Option ContinuationCheckpoint). over o) same ∙ ended in
          let (_, _, _, k) = moves in
          let stays : later ≡ row = k ended_row in
          rw (e2, find) (ap (λ (r : ContinuationRow). some (from_row r)) stays ∙ same)
    ]
  where
    over : Option ContinuationCheckpoint → Bool
    over none = false
    over (some c) = is_terminal c.state

-- The row of an idempotency key, once there, answers every later creation under that key.
create_at_row :
    (texts : Texts) (hash : CreateContinuationInput → ℕ) (now id : ℕ)
    (input : CreateContinuationInput) (t : Store) (row : ContinuationRow)
    → validate_input texts input ≡ returned tt
    → row_for_idempotency_key input.idempotency_key t ≡ some row
    → row.request_hash ≡ hash input
    → create texts hash now id input t ≡ returned (from_row row, t)
unfolding create create_row
create_at_row texts hash now id input t row valid found same =
    let hit : (row.request_hash == hash input) ≡ true =
      (==_iff row.request_hash (hash input)).1 same in
    rw (valid, found, hit) refl

abbrev CreatedAs : ℕ → ℕ → ContinuationCheckpoint → Store → Type 0
CreatedAs key hash c t =
    (row : ContinuationRow) × (row_for_idempotency_key key t ≡ some row)
    × (row.request_hash ≡ hash)
    × (c.continuation_id ≡ row.continuation_id)

-- What `create` leaves: a row of the input's key and hash, which gave the checkpoint.
create_row_lem :
    (texts : Texts) (hash : CreateContinuationInput → ℕ) (now id : ℕ)
    (input : CreateContinuationInput) (s t : Store) (c : ContinuationCheckpoint)
    → find id s ≡ none
    → create texts hash now id input s ≡ returned (c, t)
    → (validate_input texts input ≡ returned tt) × CreatedAs input.idempotency_key (hash input) c t
unfolding create create_row row_for_idempotency_key new_continuation find require_continuation
    from_row
create_row_lem texts hash now id input s t c fresh h =
    let (_, valid, e) =
      >>=-eq-returned (validate_input texts input)
        (λ _.
          create_row texts now id (hash input) input
            (row_for_idempotency_key input.idempotency_key s) s)
        {b = (c, t)} h in
    (valid, created (row_for_idempotency_key input.idempotency_key s) refl e)
  where
    row : ContinuationRow
    row = new_continuation now id (hash input) input

    first :
        {x y : ContinuationCheckpoint} {q r : Store}
        → ◌≡◌ {A = Call} (returned (x, q)) (returned (y, r))
        → (y ≡ x) × (r ≡ q)
    first k = (cc, cc)

    created :
        (o : Option ContinuationRow)
        → row_for_idempotency_key input.idempotency_key s ≡ o
        → create_row texts now id (hash input) input o s ≡ returned (c, t)
        → CreatedAs input.idempotency_key (hash input) c t
    created (some old) e k = elim (Bool-cases (old.request_hash == hash input)) [
      | inl same ↦
          let (i, j) = first (rw (same, create_row) at k) in
          (
            old,
            rw j e,
            (==_iff old.request_hash (hash input)).0 same,
            ap (λ (x : ContinuationCheckpoint). x.continuation_id) i,
          )
      | inr other ↦ cc (rw (other, create_row) at k)
    ]
    created none e k =
        let (i, j) = first (rw (create_row, require_continuation, find, at_end) at k) in
        (
          row,
          rw j (
              select_first-append_none (λ r. r.idempotency_key == input.idempotency_key) s row e
                ((==_iff _ _).1 refl)),
          refl,
          ap (λ (x : ContinuationCheckpoint). x.continuation_id) i,
        )
      where
        no_row : select_first (has_continuation_id id) s ≡ none
        no_row = elim (Option-cases (select_first (has_continuation_id id) s)) [
          | inl missing ↦ missing
          | inr (old, f) ↦ cc (rw (f, find) at fresh)
        ]

        at_end : select_first (has_continuation_id id) (s ++ row ∷ []) ≡ some row
        at_end =
            select_first-append_none (has_continuation_id id) s row no_row ((==_iff _ _).1 refl)

-- A creation that succeeds, its identifier fresh, and repeated with the same input after any calls of
-- the methods, whatever identifier is drawn then, changes nothing and returns the same continuation.
pub create_again :
    (texts : Texts) (hash : CreateContinuationInput → ℕ) (now id later id' : ℕ)
    (input : CreateContinuationInput) (s t u : Store) (c : ContinuationCheckpoint)
    → find id s ≡ none
    → create texts hash now id input s ≡ returned (c, t)
    → Run texts hash t u
    → (d : ContinuationCheckpoint) × (create texts hash later id' input u ≡ returned (d, u))
      × (d.continuation_id ≡ c.continuation_id)
unfolding from_row row_for_idempotency_key
create_again texts hash now id later id' input s t u c fresh h run =
    let (valid, created) = create_row_lem texts hash now id input s t c fresh h in
    let (row, found, same, named) = created in
    let (row', found', moves) =
      Evolves-select_first Kept (λ r. r.idempotency_key) (λ _ _ k. k.1) input.idempotency_key t u
        row (run-Kept texts hash run) found in
    let (i, _, q, _) = moves in
    (
      from_row row',
      create_at_row texts hash later id' input u row' valid found' (q ∙ same),
      i ∙ sym named,
    )
