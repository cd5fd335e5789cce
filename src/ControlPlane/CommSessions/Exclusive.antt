-- ===== src/ControlPlane/CommSessions/Exclusive.antt =====
-- Exclusive grants, and the part of `getVisible` and `accept` that expires sessions in
-- src/control-plane/services/comm-sessions.ts.
use aicoo_local_agent.Common.{
  ℕ, ◌≡◌, ◌≢◌, refl, sym, subst, ◌∙◌, ap, inl, inr, List, [], ◌∷◌, Bool, false, ◌&&◌, Option, none,
  some, arith, Bool-cases, ◌==◌, if◌then◌else◌, has_row, update_where, mem-update_where, Memᴰ,
}
use aicoo_local_agent.ControlPlane.Schema.{CommunicationStatus, CommRow, Db}
use aicoo_local_agent.ControlPlane.Events.{audit, broadcast}
use aicoo_local_agent.ControlPlane.CommSessions.Expiry.{
  find_comm, expire_if_needed, expire_found, expire_row, expire_rows, is_overdue, end_deliveries,
  same_status, is_past,
}

-- The row grants the runtime session at the end of a route, now.
pub record Holds (now principal endpoint handle : ℕ) (r : CommRow) : Type 0 where
  pub recipient : r.recipient_principal_id ≡ principal
  pub at_endpoint : r.frozen_endpoint_id ≡ some endpoint
  pub at_handle : r.frozen_session_handle ≡ some handle
  pub active : r.status ≡ CommunicationStatus.active
  pub unexpired : is_past now r.grant_expires_at ≡ false

-- The primary key is one, and at most one session holds a route.
pub record IsExclusive (now : ℕ) (rows : List CommRow) : Type 0 where
  pub unique :
      (a b : CommRow) → Memᴰ a rows → Memᴰ b rows → a.comm_session_id ≡ b.comm_session_id → a ≡ b
  pub single :
      (principal endpoint handle : ℕ) (a b : CommRow)
      → Memᴰ a rows
      → Memᴰ b rows
      → Holds now principal endpoint handle a
      → Holds now principal endpoint handle b
      → a.comm_session_id ≡ b.comm_session_id

-- An update that keeps the key of each row.
module _ (p : CommRow → Bool) (f : CommRow → CommRow)
    (same_id : (a : CommRow) → (f a).comm_session_id ≡ a.comm_session_id)
    (rows : List CommRow) where
  pub updated : CommRow → CommRow
  updated a = if p a then f a else a

  pub updated-id : (a : CommRow) → (updated a).comm_session_id ≡ a.comm_session_id
  unfolding updated
  updated-id a = ground (arith, same_id a)

  pub update_where_unique :
      ((a b : CommRow) → Memᴰ a rows → Memᴰ b rows → a.comm_session_id ≡ b.comm_session_id → a ≡ b)
      → (a b : CommRow) → Memᴰ a (update_where p f rows)
      → Memᴰ b (update_where p f rows)
      → a.comm_session_id ≡ b.comm_session_id
      → a ≡ b
  unfolding updated
  update_where_unique h a b m n e =
      let (x, x_in, ex) = mem-update_where p f rows m in
      let (y, y_in, ey) = mem-update_where p f rows n in
      let key : CommRow → ℕ = λ r. r.comm_session_id in
      let same =
        h x y x_in y_in (sym (ap key ex ∙ updated-id x) ∙ e ∙ (ap key ey ∙ updated-id y)) in
      ex ∙ ap updated same ∙ sym ey

  -- One whose changed rows hold no route.
  pub update_where-IsExclusive :
      (now : ℕ)
      → ((a : CommRow) → (f a).status ≢ CommunicationStatus.active)
      → IsExclusive now rows
      → IsExclusive now (update_where p f rows)
  unfolding updated
  update_where-IsExclusive now off v = record {
    unique = update_where_unique v.unique;
    single = λ principal endpoint handle a b m n ha hb.
        let (x, x_in, ex) = mem-update_where p f rows m in
        let (y, y_in, ey) = mem-update_where p f rows n in
        let a_is = kept x a ex ha.active in
        let b_is = kept y b ey hb.active in
        v.single principal endpoint handle a b (subst (λ r. Memᴰ r rows) (sym a_is) x_in)
          (subst (λ r. Memᴰ r rows) (sym b_is) y_in) ha hb;
  }
    where
      kept : (x a : CommRow) → a ≡ updated x → a.status ≡ CommunicationStatus.active → a ≡ x
      kept x a e act = elim (Bool-cases (p x)) [
        | inl hit ↦ absurd (off x (ground arith))
        | inr miss ↦ ground arith
      ]

pub expire_row-IsExclusive :
    (now : ℕ) (row : CommRow) (endpoint handle : Option ℕ) (db : Db)
    → IsExclusive now db.comms
    → IsExclusive now (expire_row now row endpoint handle db).comms
unfolding expire_row audit broadcast end_deliveries
expire_row-IsExclusive now row endpoint handle db v = elim (Bool-cases (has_row matches db.comms)) [
  | inl hit ↦
      rw (hit, expire_row)
        (update_where-IsExclusive matches (λ r. record r { status = CommunicationStatus.expired })
          (λ a. refl) db.comms now (λ a e. cc) v)
  | inr miss ↦ rw (miss, expire_row) v
]
  where
    matches : CommRow → Bool
    matches r = r.comm_session_id == row.comm_session_id && same_status r.status row.status

pub expire_if_needed-IsExclusive :
    (now comm : ℕ) (db : Db)
    → IsExclusive now db.comms
    → IsExclusive now (expire_if_needed now comm db).comms
unfolding expire_if_needed
expire_if_needed-IsExclusive now comm db v = found (find_comm comm db.comms)
  where
    found : (o : Option CommRow) → IsExclusive now (expire_found now o db).comms
    found none = v
    found (some row) = elim (Bool-cases (is_overdue now row)) [
      | inl late ↦ rw (late, expire_found) (expire_row-IsExclusive now row _ _ db v)
      | inr fresh ↦ rw (fresh, expire_found) v
    ]

pub expire_rows-IsExclusive :
    (now endpoint handle : ℕ) (rs : List CommRow) (db : Db)
    → IsExclusive now db.comms
    → IsExclusive now (expire_rows now endpoint handle rs db).comms
unfolding expire_rows
expire_rows-IsExclusive now endpoint handle [] db v = v
expire_rows-IsExclusive now endpoint handle (r ∷ rs) db v =
    expire_rows-IsExclusive now endpoint handle rs _
      (expire_row-IsExclusive now r (some endpoint) (some handle) db v)
