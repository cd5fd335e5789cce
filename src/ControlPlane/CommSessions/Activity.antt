-- ===== src/ControlPlane/CommSessions/Activity.antt =====
-- `requireActive` in src/control-plane/services/comm-sessions.ts: what it has established when it
-- succeeds, and that it refuses a session whose time has passed.
use aicoo_local_agent.Common.{
  ℕ, ◌≡◌, refl, sym, ◌∙◌, ◌⊎◌, ap, Bool, true, false, Option, none, some, arith, Bool-cases,
  Option-cases, inl, inr, ◌==◌, ==_iff, ◌&&◌, if◌then◌else◌, select_first_sound,
  select_first-update_where, has_row-mem,
}
use aicoo_local_agent.ControlPlane.Schema.{CommunicationStatus, CommRow, Db, is_active}
use aicoo_local_agent.ControlPlane.Outcome.{Result, ok, fail, threw, require, ◌>>=◌, ◌>>◌}
use aicoo_local_agent.ControlPlane.Events.{audit, broadcast}
use aicoo_local_agent.ControlPlane.CommSessions.{require_active}
use aicoo_local_agent.ControlPlane.CommSessions.Expiry.{
  find_comm, get_visible, visible_to, expire_if_needed, expire_found, expire_row, same_status,
  end_deliveries, is_overdue, is_past, status_reason,
}

-- A session that one looks up has the identifier that one asked for.
pub find_comm-id :
    (comm : ℕ) (rows : _) (row : CommRow)
    → find_comm comm rows ≡ some row
    → row.comm_session_id ≡ comm
unfolding find_comm
find_comm-id comm rows row h =
    (==_iff row.comm_session_id comm).0
      (select_first_sound (λ r. r.comm_session_id == comm) rows h).1

same_status_refl : (s : CommunicationStatus) → same_status s s ≡ true
unfolding same_status
same_status_refl s = ground arith

module _ (now comm : ℕ) (db : Db) (row : CommRow) (found : find_comm comm db.comms ≡ some row) where
  matches : CommRow → Bool
  matches r = r.comm_session_id == row.comm_session_id && same_status r.status row.status

  row-matches : matches row ≡ true
  unfolding matches
  row-matches = ground (arith, same_status_refl row.status)

  find_comm-expire_row :
      (endpoint handle : Option ℕ)
      → find_comm comm (expire_row now row endpoint handle db).comms
        ≡ some (record row { status = CommunicationStatus.expired })
  unfolding expire_row find_comm audit broadcast end_deliveries matches
  find_comm-expire_row endpoint handle =
      rw
        (
          has_row-mem matches db.comms
              (select_first_sound (λ r. r.comm_session_id == comm) db.comms found).0 row-matches,
          expire_row,
        )
        (select_first-update_where (λ r. r.comm_session_id == comm) matches _ (λ a. refl) db.comms
            row found
          ∙ ground (arith, row-matches))

  -- A session whose time has passed is found expired; any other is found as it is, and nothing has changed.
  pub expire_if_needed_cases :
      ((is_overdue now row ≡ true)
        × (find_comm comm (expire_if_needed now comm db).comms
            ≡ some (record row { status = CommunicationStatus.expired })))
      ⊎ ((is_overdue now row ≡ false) × (expire_if_needed now comm db ≡ db))
  unfolding expire_if_needed
  expire_if_needed_cases = elim (Bool-cases (is_overdue now row)) [
    | inl late ↦ inl (
      late,
      ap (λ (o : Option CommRow). find_comm comm (expire_found now o db).comms) found
          ∙ (unfold expire_found in
              rw late (find_comm-expire_row row.frozen_endpoint_id row.frozen_session_handle)),
    )
    | inr fresh ↦ inr (
      fresh,
      ap (λ (o : Option CommRow). expire_found now o db) found ∙ (unfold expire_found in rw fresh),
    )
  ]

-- A session that is active now, as one of its two principals sees it.
pub record IsCurrent (now principal : ℕ) (c : CommRow) : Type 0 where
  pub active : c.status ≡ CommunicationStatus.active
  pub unexpired : is_past now c.grant_expires_at ≡ false
  pub participant : (c.requester_principal_id ≡ principal) ⊎ (c.recipient_principal_id ≡ principal)

-- The answer of `require_active` once the row is found.
answer : ℕ → Option CommRow → Result CommRow
unfolding visible_to
answer principal o = elim (visible_to principal o) [
  | ok c ↦ if is_active c.status then ok c else fail (status_reason c.status) 403
  | fail code s ↦ fail code s
  | threw ↦ threw
]

module _ (now principal comm : ℕ) (db : Db) where
  require_active-answer : require_active now principal comm db ≡ (
    answer principal (find_comm comm (expire_if_needed now comm db).comms),
    expire_if_needed now comm db,
  )
  unfolding require_active get_visible answer require ◌>>=◌ ◌>>◌
  require_active-answer = ground arith

  answer-ok :
      (o : Option CommRow) (c : CommRow)
      → answer principal o ≡ ok c
      → (o ≡ some c)
        × (c.status ≡ CommunicationStatus.active)
        × ((c.requester_principal_id ≡ principal) ⊎ (c.recipient_principal_id ≡ principal))
  unfolding answer
  answer-ok o c h = ground arith

  expire_missing : find_comm comm db.comms ≡ none → expire_if_needed now comm db ≡ db
  unfolding expire_if_needed expire_found
  expire_missing missing = ap (λ (o : Option CommRow). expire_found now o db) missing

  not_past :
      (row c : CommRow)
      → row ≡ c
      → is_overdue now row ≡ false
      → c.status ≡ CommunicationStatus.active
      → is_past now c.grant_expires_at ≡ false
  unfolding is_overdue
  not_past row c e fresh act = rw (← e) (ground (arith, ap (λ (r : CommRow). r.status) e))

  some_inj : (row c : CommRow) → some row ≡ some c → row ≡ c
  some_inj row c e = cc

  -- A session for which `requireActive` succeeds stands in the table as it is, active, unexpired,
  -- and one of the caller's own; and the call has changed nothing.
  pub require_active_sound :
      (c : CommRow)
      → (require_active now principal comm db).0 ≡ ok c
      → IsCurrent now principal c
        × (find_comm comm db.comms ≡ some c)
        × ((require_active now principal comm db).1 ≡ db)
  require_active_sound c h =
      let seen =
        answer-ok (find_comm comm (expire_if_needed now comm db).comms) c
          (sym (ap (λ (p : Result CommRow × Db). p.0) require_active-answer) ∙ h) in
      let after = ap (λ (p : Result CommRow × Db). p.1) require_active-answer in
      elim (Option-cases (find_comm comm db.comms)) [
        | inl missing ↦ absurd (
            cc (
              sym missing,
              seen.0,
              ap (λ (d : Db). find_comm comm d.comms) (expire_missing missing),
            ))
        | inr (row, found) ↦ elim (expire_if_needed_cases now comm db row found) [
          | inl (late, gone) ↦ absurd (ground (arith, gone, seen.0, seen.1))
          | inr (fresh, same) ↦
              let stands = ap (λ (d : Db). find_comm comm d.comms) (sym same) ∙ seen.0 in
              (
                record {
                  active = seen.1;
                  unexpired = not_past row c (some_inj row c (sym found ∙ stands)) fresh seen.1;
                  participant = seen.2;
                },
                stands,
                after ∙ same,
              )
        ]
      ]

visible_to-ok :
    (principal : ℕ) (o : Option CommRow) (c : CommRow)
    → visible_to principal o ≡ ok c
    → (o ≡ some c)
      × ((c.requester_principal_id ≡ principal) ⊎ (c.recipient_principal_id ≡ principal))
unfolding visible_to
visible_to-ok principal o c h = ground arith

-- A session that is seen stands in the table that the call leaves, and is one of the caller's own.
pub get_visible-ok :
    (now principal comm : ℕ) (db mid : Db) (c : CommRow)
    → get_visible now principal comm db ≡ (ok c, mid)
    → (find_comm comm mid.comms ≡ some c)
      × ((c.requester_principal_id ≡ principal) ⊎ (c.recipient_principal_id ≡ principal))
unfolding get_visible
get_visible-ok now principal comm db mid c h =
    let seen =
      visible_to-ok principal (find_comm comm (expire_if_needed now comm db).comms) c
        (ap (λ (p : Result CommRow × Db). p.0) h) in
    let same = ap (λ (p : Result CommRow × Db). p.1) h in
    (ap (λ (d : Db). find_comm comm d.comms) (sym same) ∙ seen.0, seen.1)
