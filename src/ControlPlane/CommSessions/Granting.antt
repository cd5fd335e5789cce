-- ===== src/ControlPlane/CommSessions/Granting.antt =====
-- `accept` in src/control-plane/services/comm-sessions.ts grants a runtime session that is free.
use aicoo_local_agent.Common.{
  ℕ, ◌+◌, ◌*◌, min, ◌≡◌, refl, sym, subst, ◌∙◌, ap, inl, inr, List, true, false, some, arith,
  Bool-cases, ◌==◌, has_row, has_row-mem, select_first_sound, update_where, mem-update_where, Memᴰ,
  Evolves-select_first,
}
use aicoo_local_agent.ControlPlane.Schema.{CommRow, Db, AuthContext}
use aicoo_local_agent.ControlPlane.Outcome.{Result, ok}
use aicoo_local_agent.ControlPlane.Events.{audit, broadcast}
use aicoo_local_agent.ControlPlane.CommSessions.Expiry.{
  find_comm, get_visible, expire_if_needed, expire_active_grants_for_route,
}
use aicoo_local_agent.ControlPlane.Evolution.{CommMoves}
use aicoo_local_agent.ControlPlane.CommSessions.Ending.{expire_route_step}
use aicoo_local_agent.ControlPlane.CommSessions.Accepting.{Accepted, accept-Accepted}
use aicoo_local_agent.ControlPlane.CommSessions.Activity.{find_comm-id, get_visible-ok}
use aicoo_local_agent.ControlPlane.CommSessions.{
  accept, activate, blocks_route, grant_to, is_waiting,
}
use aicoo_local_agent.ControlPlane.CommSessions.Exclusive.{
  Holds, IsExclusive, update_where_unique, expire_if_needed-IsExclusive, expire_rows-IsExclusive,
}

activate-ok :
    (now : ℕ) (auth : AuthContext) (c : CommRow) (endpoint handle expires : ℕ) (db granted : Db)
    → activate now auth c endpoint handle expires db ≡ (ok tt, granted)
    → granted.comms
      ≡ update_where (is_waiting c.comm_session_id) (grant_to now endpoint handle expires) db.comms
unfolding activate audit broadcast
activate-ok now auth c endpoint handle expires db granted h =
    elim (Bool-cases (has_row (is_waiting c.comm_session_id) db.comms)) [
      | inl waiting ↦
          sym (ap (λ (p : Result (Unit {0}) × Db). p.1.comms) (rw (waiting, activate) at h))
      | inr gone ↦ absurd (cc (ap (λ (p : Result (Unit {0}) × Db). p.0) (rw (gone, activate) at h)))
    ]

-- The grant of one waiting session on a route that no other session holds.
module _ (now : ℕ) (auth : AuthContext) (comm endpoint handle expires : ℕ) (rows : List CommRow)
    (v : IsExclusive now rows)
    (untaken : has_row (blocks_route now auth.principal_id endpoint handle comm) rows ≡ false)
    (own : (x : CommRow)
      → Memᴰ x rows
      → x.comm_session_id ≡ comm
      → x.recipient_principal_id ≡ auth.principal_id) where
  only_holder :
      (y : CommRow)
      → Memᴰ y rows
      → Holds now auth.principal_id endpoint handle y
      → y.comm_session_id ≡ comm
  unfolding blocks_route
  only_holder y m h = elim (Bool-cases (y.comm_session_id == comm)) [
    | inl same ↦ ground arith
    | inr other ↦ absurd (
        cc (
          sym untaken
          ∙ has_row-mem (blocks_route now auth.principal_id endpoint handle comm) rows m
              (ground arith)))
  ]

  -- The granted row and another holder of its route.
  beside :
      (x a b : CommRow) (principal e h : ℕ)
      → Memᴰ x rows
      → Memᴰ b rows
      → is_waiting comm x ≡ true
      → a ≡ grant_to now endpoint handle expires x
      → Holds now principal e h a
      → Holds now principal e h b
      → a.comm_session_id ≡ b.comm_session_id
  unfolding is_waiting grant_to
  beside x a b principal e h x_in b_in hit is ha hb =
      let x_id : x.comm_session_id ≡ comm = ground arith in
      ground (
        arith,
        x_id,
        only_holder b b_in (record {
          recipient = ground (arith, own x x_in x_id, ha.recipient, hb.recipient);
          at_endpoint = ground (arith, ha.at_endpoint, hb.at_endpoint);
          at_handle = ground (arith, ha.at_handle, hb.at_handle);
          active = hb.active;
          unexpired = hb.unexpired;
        }),
      )

  grant_to-IsExclusive :
      IsExclusive now (update_where (is_waiting comm) (grant_to now endpoint handle expires) rows)
  unfolding grant_to is_waiting
  grant_to-IsExclusive = record {
    unique =
        update_where_unique (is_waiting comm) (grant_to now endpoint handle expires) (λ a. refl)
          rows v.unique;
    single = λ principal e h a b m n ha hb.
        let (x, x_in, ex) =
          mem-update_where (is_waiting comm) (grant_to now endpoint handle expires) rows m in
        let (y, y_in, ey) =
          mem-update_where (is_waiting comm) (grant_to now endpoint handle expires) rows n in
        elim (Bool-cases (is_waiting comm x)) [
          | inl hx ↦ elim (Bool-cases (is_waiting comm y)) [
            | inl hy ↦ ground arith
            | inr ny ↦
                let b_in : Memᴰ b rows = subst (λ r. Memᴰ r rows) (ground arith) y_in in
                beside x a b principal e h x_in b_in hx (ground arith) ha hb
          ]
          | inr nx ↦
              let a_in : Memᴰ a rows = subst (λ r. Memᴰ r rows) (ground arith) x_in in
              elim (Bool-cases (is_waiting comm y)) [
                | inl hy ↦ sym (beside y b a principal e h y_in a_in hy (ground arith) hb ha)
                | inr ny ↦
                    v.single principal e h a b a_in (subst (λ r. Memᴰ r rows) (ground arith) y_in)
                      ha hb
              ]
        ];
  }

get_visible_db :
    (now principal comm : ℕ) (db mid : Db) (c : CommRow)
    → get_visible now principal comm db ≡ (ok c, mid)
    → expire_if_needed now comm db ≡ mid
unfolding get_visible
get_visible_db now principal comm db mid c h = ap (λ (p : Result CommRow × Db). p.1) h

expire_route-IsExclusive :
    (now principal endpoint handle : ℕ) (db : Db)
    → IsExclusive now db.comms
    → IsExclusive now (expire_active_grants_for_route now principal endpoint handle db).comms
unfolding expire_active_grants_for_route
expire_route-IsExclusive now principal endpoint handle db v =
    expire_rows-IsExclusive now endpoint handle _ db v

-- The row that waits for its grant is the one that the recipient looked at.
own_row :
    (now : ℕ) (auth : AuthContext) (comm endpoint handle : ℕ) (seen : Db) (current : CommRow)
    → find_comm comm seen.comms ≡ some current
    → current.recipient_principal_id ≡ auth.principal_id
    → IsExclusive now
        (expire_active_grants_for_route now auth.principal_id endpoint handle seen).comms
    → (x : CommRow)
    → Memᴰ x (expire_active_grants_for_route now auth.principal_id endpoint handle seen).comms
    → x.comm_session_id ≡ comm
    → x.recipient_principal_id ≡ auth.principal_id
unfolding find_comm
own_row now auth comm endpoint handle seen current found recipient v x m id =
    let cleared = expire_active_grants_for_route now auth.principal_id endpoint handle seen in
    let (b, b_found, moves) =
      Evolves-select_first CommMoves (λ r. r.comm_session_id) (λ y z k. k.id) comm seen.comms
        cleared.comms current (expire_route_step now auth.principal_id endpoint handle seen).comms
        found in
    let b_in : Memᴰ b cleared.comms =
      (select_first_sound (λ r. r.comm_session_id == comm) cleared.comms b_found).0 in
    let same : x ≡ b = v.unique x b m b_in (id ∙ sym (find_comm-id comm cleared.comms b b_found)) in
    ap (λ (r : CommRow). r.recipient_principal_id) same ∙ moves.recipient ∙ recipient

-- If every session has its own key and no runtime session is under two live grants, then both hold
-- after an `accept` that succeeds.
pub accept-IsExclusive :
    (now : ℕ) (auth : AuthContext) (comm : ℕ) (db after : Db) (c : CommRow)
    → accept now auth comm db ≡ (ok c, after)
    → IsExclusive now db.comms
    → IsExclusive now after.comms
accept-IsExclusive now auth comm db after c h v =
    let s : Accepted now auth comm db c after = accept-Accepted now auth comm db after c h in
    let current_found : find_comm comm s.seen.comms ≡ some s.current =
      (get_visible-ok now auth.principal_id comm db s.seen s.current s.looked).0 in
    let key : s.current.comm_session_id ≡ comm =
      find_comm-id comm s.seen.comms s.current current_found in
    let cleared = expire_active_grants_for_route now auth.principal_id s.endpoint s.handle s.seen in
    let seen_ok : IsExclusive now s.seen.comms =
      subst (λ (d : Db). IsExclusive now d.comms)
        (get_visible_db now auth.principal_id comm db s.seen s.current s.looked)
        (expire_if_needed-IsExclusive now comm db v) in
    let cleared_ok : IsExclusive now cleared.comms =
      expire_route-IsExclusive now auth.principal_id s.endpoint s.handle s.seen seen_ok in
    let expires : ℕ = now + min s.row.requested_ttl_minutes 30 * 60 * 1000 in
    let granted_ok : IsExclusive now s.granted.comms =
      subst (IsExclusive now)
        (sym (
          activate-ok now auth s.current s.endpoint s.handle expires cleared s.granted s.activated))
        (subst
          (λ k.
            IsExclusive now (
              update_where (is_waiting k) (grant_to now s.endpoint s.handle expires) cleared.comms))
          (sym key)
          (grant_to-IsExclusive now auth comm s.endpoint s.handle expires cleared.comms cleared_ok
            s.untaken
            (own_row now auth comm s.endpoint s.handle s.seen s.current current_found s.recipient
              cleared_ok))) in
    subst (λ (d : Db). IsExclusive now d.comms)
      (get_visible_db now auth.principal_id comm s.granted after c s.looked_again)
      (expire_if_needed-IsExclusive now comm s.granted granted_ok)
