-- ===== src/ControlPlane/CommSessions/Accepting.antt =====
-- `accept` in src/control-plane/services/comm-sessions.ts, taken apart where it succeeds.
use aicoo_local_agent.Common.{
  ℕ, ◌+◌, ◌*◌, min, ◌≡◌, refl, sym, subst, ◌∙◌, ap, true, false, arith, Bool-cases, Option-cases,
  inl, inr, ◌==◌, ==_iff, has_row, truthy,
}
use aicoo_local_agent.ControlPlane.Schema.{TargetKind, CommRow, Db, AuthContext, is_pending}
use aicoo_local_agent.ControlPlane.Outcome.{
  Result, ok, >>=-eq-ok, >>-eq-ok, require-eq-ok, require, modify, read, lift, ◌>>=◌, ◌>>◌,
}
use aicoo_local_agent.ControlPlane.Offers.{resolve}
use aicoo_local_agent.ControlPlane.Endpoints.{get_session, get_default_route}
use aicoo_local_agent.ControlPlane.CommSessions.Expiry.{
  find_comm, get_visible, expire_active_grants_for_route,
}
use aicoo_local_agent.ControlPlane.CommSessions.{
  accept, grant, accept_on, accept_route, activate, blocks_route, check_session, row_for,
  require_pending,
}

accept_route_same :
    (now : ℕ) (auth : AuthContext) (kind : TargetKind) (row : CommRow) (db : Db)
    → (accept_route now auth kind row db).1 ≡ db
unfolding accept_route
accept_route_same now auth TargetKind.person_default_runtime row db =
    elim (Option-cases (get_default_route auth.principal_id db)) [
      | inl e ↦ rw (e, accept_route)
      | inr (r, e) ↦ rw (e, accept_route)
    ]
accept_route_same now auth TargetKind.runtime_session row db =
    elim (Bool-cases (truthy row.target_offer_id)) [
      | inl e ↦ rw (e, accept_route) (unfold resolve in refl)
      | inr e ↦ rw (e, accept_route)
    ]
accept_route_same now auth TargetKind.human_inbox row db = refl

row_for_same : (comm : ℕ) (db : Db) → (row_for comm db).1 ≡ db
unfolding row_for
row_for_same comm db = elim (Option-cases (find_comm comm db.comms)) [
  | inl e ↦ rw (e, row_for)
  | inr (r, e) ↦ rw (e, row_for)
]

-- The steps of an `accept` that succeeds.
pub record Accepted (now : ℕ) (auth : AuthContext) (comm : ℕ) (db : Db) (c : CommRow) (after : Db)
    : Type 0 where
  pub current : CommRow
  pub seen : Db
  pub endpoint : ℕ
  pub handle : ℕ
  pub row : CommRow
  pub granted : Db
  pub looked : get_visible now auth.principal_id comm db ≡ (ok current, seen)
  pub recipient : current.recipient_principal_id ≡ auth.principal_id
  pub pending : is_pending current.status ≡ true
  pub routed : (accept_route now auth current.target_kind current seen).0 ≡ ok (endpoint, handle)
  pub session_checked : check_session auth endpoint (get_session handle seen) ≡ ok tt
  pub untaken :
      has_row
        (blocks_route now auth.principal_id endpoint handle comm)
        (expire_active_grants_for_route now auth.principal_id endpoint handle seen).comms
      ≡ false
  pub row_found :
      (row_for comm (expire_active_grants_for_route now auth.principal_id endpoint handle seen)).0
      ≡ ok row
  pub activated :
      activate now auth current endpoint handle
        (now + min row.requested_ttl_minutes 30 * 60 * 1000)
        (expire_active_grants_for_route now auth.principal_id endpoint handle seen)
      ≡ (ok tt, granted)
  pub looked_again : get_visible now auth.principal_id comm granted ≡ (ok c, after)

module _ (now : ℕ) (auth : AuthContext) (comm : ℕ) (current : CommRow) (endpoint handle : ℕ) where
  -- The database in which the route is free of grants that have run out.
  abbrev cleared : Db → Db
  cleared = expire_active_grants_for_route now auth.principal_id endpoint handle

  grant-ok :
      (db after : Db) (c : CommRow)
      → grant now auth comm current endpoint handle db ≡ (ok c, after)
      → (row : CommRow) × (granted : Db) × ((row_for comm db).0 ≡ ok row)
        × (activate now auth current endpoint handle
              (now + min row.requested_ttl_minutes 30 * 60 * 1000)
              db
            ≡ (ok tt, granted))
        × (get_visible now auth.principal_id comm granted ≡ (ok c, after))
  unfolding grant
  grant-ok db after c h =
      let (row, mid, found, h₁) = >>=-eq-ok (row_for comm) _ db after h in
      let same : mid ≡ db =
        sym (ap (λ (p : Result CommRow × Db). p.1) found) ∙ row_for_same comm db in
      let (granted, done, h₂) =
        >>-eq-ok (activate now auth current endpoint handle _) _ mid after h₁ in
      (
        row,
        granted,
        ap (λ (p : Result CommRow × Db). p.0) found,
        subst
            (λ (d : Db).
              activate now auth current endpoint handle
                (now + min row.requested_ttl_minutes 30 * 60 * 1000) d
              ≡ (ok tt, granted))
            same done,
        h₂,
      )

  accept_on-ok :
      (db after : Db) (c : CommRow)
      → accept_on now auth comm current endpoint handle db ≡ (ok c, after)
      → (check_session auth endpoint (get_session handle db) ≡ ok tt)
        × (has_row (blocks_route now auth.principal_id endpoint handle comm) (cleared db).comms
            ≡ false)
        × (grant now auth comm current endpoint handle (cleared db) ≡ (ok c, after))
  unfolding accept_on read lift modify require ◌>>=◌ ◌>>◌
  accept_on-ok db after c h = (ground arith, ground arith, ground arith)

pub accept-Accepted :
    (now : ℕ) (auth : AuthContext) (comm : ℕ) (db after : Db) (c : CommRow)
    → accept now auth comm db ≡ (ok c, after)
    → Accepted now auth comm db c after
unfolding accept require_pending
accept-Accepted now auth comm db after c h =
    let (current, seen, looked, h₁) =
      >>=-eq-ok (get_visible now auth.principal_id comm) _ db after h in
    let (recipient, h₂) =
      require-eq-ok (current.recipient_principal_id == auth.principal_id) _ _ _ seen after h₁ in
    let (pending, h₃) = require-eq-ok (is_pending current.status) _ _ _ seen after h₂ in
    let (route, mid, routed, h₄) =
      >>=-eq-ok (accept_route now auth current.target_kind current) _ seen after h₃ in
    let same : mid ≡ seen =
      sym (ap (λ (p : Result (ℕ × ℕ) × Db). p.1) routed)
      ∙ accept_route_same now auth current.target_kind current seen in
    let h₅ : accept_on now auth comm current route.0 route.1 seen ≡ (ok c, after) =
      subst (λ (d : Db). accept_on now auth comm current route.0 route.1 d ≡ (ok c, after)) same
        h₄ in
    let (checked, untaken, h₆) =
      accept_on-ok now auth comm current route.0 route.1 seen after c h₅ in
    let (row, granted, row_found, done, again) =
      grant-ok now auth comm current route.0 route.1 _ after c h₆ in
    record {
      current = current;
      seen = seen;
      endpoint = route.0;
      handle = route.1;
      row = row;
      granted = granted;
      looked = looked;
      recipient = (==_iff _ _).0 recipient;
      pending = pending;
      routed = ap (λ (p : Result (ℕ × ℕ) × Db). p.0) routed;
      session_checked = checked;
      untaken = untaken;
      row_found = row_found;
      activated = done;
      looked_again = again;
    }
