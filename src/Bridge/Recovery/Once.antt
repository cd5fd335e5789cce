-- ===== src/Bridge/Recovery/Once.antt =====
-- `recover` in src/bridge/continuation-recovery.ts, run again and again: `#resumedThisProcess`.
use aicoo_local_agent.Common.{
  ℕ, ◌≡◌, refl, ap, ◌∙◌, inl, inr, List, [], ◌∷◌, Bool, true, not, ◌||◌, ◌==◌, has_row, Bool-cases,
  arith,
}
use aicoo_local_agent.Shared.Continuations.{ContinuationCheckpoint, Texts}
use aicoo_local_agent.Shared.Continuations.Rebuild.{SessionRebuildOperations, execute}
use aicoo_local_agent.Bridge.Recovery.{RecoveryState, is_resuming, after_execute, recover_one}

-- The recovery of one continuation, as `recover` starts it.
pub record Recovered : Type 0 where
  pub operations : SessionRebuildOperations
  pub now : ℕ
  pub can_activate : Bool
  pub checkpoint : ContinuationCheckpoint

abbrev is_id : ℕ → ℕ → Bool
is_id id other = other == id

module _ (texts : Texts) where
  abbrev pub recover_as : Recovered → RecoveryState → RecoveryState
  recover_as r s = recover_one texts r.operations r.now r.can_activate r.checkpoint s

  unfoldable pub recover_all : List Recovered → RecoveryState → RecoveryState
  unfolding recover_one
  recover_all [] s = s
  recover_all (r ∷ rs) s = recover_all rs (recover_as r s)

  recover_as-resumed :
      (id : ℕ) (r : Recovered) (s : RecoveryState)
      → has_row (is_id id) s.resumed_this_process ≡ true
      → has_row (is_id id) (recover_as r s).resumed_this_process ≡ true
  unfolding recover_one after_execute has_row
  recover_as-resumed id r s h =
      elim (Bool-cases (
        has_row (is_id r.checkpoint.continuation_id) s.resumed_this_process
        || not r.can_activate)) [
          | inl skipped ↦ rw skipped h
          | inr done_now ↦
              elim (Bool-cases (
                is_resuming
                  (execute texts r.operations r.now r.checkpoint.continuation_id s.store).0)) [
                    | inl resumes ↦ rw (done_now, resumes) (ground (arith, h))
                    | inr stops ↦ rw (done_now, stops) h
                  ]
        ]

  recover_all-resumed :
      (id : ℕ) (rs : List Recovered) (s : RecoveryState)
      → has_row (is_id id) s.resumed_this_process ≡ true
      → has_row (is_id id) (recover_all rs s).resumed_this_process ≡ true
  unfolding recover_all
  recover_all-resumed id [] s h = h
  recover_all-resumed id (r ∷ rs) s h =
      recover_all-resumed id rs (recover_as r s) (recover_as-resumed id r s h)

  first-resumed :
      (first : Recovered) (s : RecoveryState)
      → first.can_activate ≡ true
      → is_resuming
          (execute texts first.operations first.now first.checkpoint.continuation_id s.store).0
        ≡ true
      → has_row (is_id first.checkpoint.continuation_id) (recover_as first s).resumed_this_process
        ≡ true
  unfolding recover_one after_execute has_row
  first-resumed first s able resumes =
      elim (Bool-cases (has_row (is_id first.checkpoint.continuation_id) s.resumed_this_process)) [
        | inl known ↦ rw (known) known
        | inr new ↦ rw (new, able, resumes) (ground arith)
      ]

  -- A continuation that this process has brought to resume is not taken up again: after any further
  -- recoveries, of this and of other continuations, one more recovery of it, with whatever the runtime
  -- would do, leaves the table and the set of resumed continuations as they are.
  pub recover_once :
      (first again : Recovered) (between : List Recovered) (s : RecoveryState)
      → first.can_activate ≡ true
      → is_resuming
          (execute texts first.operations first.now first.checkpoint.continuation_id s.store).0
        ≡ true
      → again.checkpoint.continuation_id ≡ first.checkpoint.continuation_id
      → recover_as again (recover_all between (recover_as first s))
        ≡ recover_all between (recover_as first s)
  unfolding recover_one
  recover_once first again between s able resumes same =
      let t : RecoveryState = recover_all between (recover_as first s) in
      let known : has_row (is_id first.checkpoint.continuation_id) t.resumed_this_process ≡ true =
        recover_all-resumed first.checkpoint.continuation_id between (recover_as first s)
          (first-resumed first s able resumes) in
      let seen : has_row (is_id again.checkpoint.continuation_id) t.resumed_this_process ≡ true =
        ap (λ id. has_row (is_id id) t.resumed_this_process) same ∙ known in
      rw seen refl
