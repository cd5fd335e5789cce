-- ===== src/ControlPlane/Offers.antt =====
-- src/control-plane/services/offers.ts: offers of one runtime session to one principal.
pub mod Withdrawal
use aicoo_local_agent.Common.{
  ℕ, ◌+◌, ◌*◌, List, [], ◌∷◌, ◌++◌, map, Bool, true, not, ◌&&◌, Option, none, some, ◌==◌, ltb, leb,
  if◌then◌else◌, or_else, is_some, select_first, select, has_row, update_where, order_by,
}
use aicoo_local_agent.ControlPlane.Schema.{
  ReasonCode, TargetKind, OfferRow, Actor, Action, Db, AuthContext, is_closed,
}
use aicoo_local_agent.ControlPlane.Outcome.{
  Result, ok, fail, threw, Service, pure, require, read, modify, ◌>>=◌, ◌>>◌,
}
use aicoo_local_agent.ControlPlane.Events.{audit}
use aicoo_local_agent.ControlPlane.Endpoints.{get_session_owned, get_default_route}

pub record CreateOfferInput : Type 0 where
  pub endpoint_id : ℕ
  pub session_handle : ℕ
  pub audience_principal_id : ℕ
  pub ttl_seconds : Option ℕ

unfoldable pub insert_offer : OfferRow → Service (Unit {0})
insert_offer row db =
    if has_row (λ o. o.offer_id == row.offer_id) db.offers
    then (threw, db)
    else (ok tt, record db { offers = db.offers ++ row ∷ [] })

unfoldable pub create : ℕ → ℕ → AuthContext → CreateOfferInput → Service OfferRow
create now fresh auth input = do
  session ← get_session_owned auth input.endpoint_id input.session_handle
  require (not (is_closed session.state)) ReasonCode.session_closed 409
  require session.allow_inbound ReasonCode.inbound_disabled 409
  known ← read λ db. has_row (λ p. p == input.audience_principal_id) db.principals
  require known ReasonCode.not_found 404
  let row : OfferRow = record {
    offer_id = fresh;
    owner_principal_id = auth.principal_id;
    audience_principal_id = input.audience_principal_id;
    endpoint_id = input.endpoint_id;
    session_handle = input.session_handle;
    label = session.label;
    expires_at = now + or_else input.ttl_seconds 600 * 1000;
    revoked_at = none;
    created_at = now;
  }
  insert_offer row
  modify (audit now (Actor.principal auth.principal_id) Action.target_offer_created fresh)
  pure row

unfoldable pub is_revocable : AuthContext → ℕ → OfferRow → Bool
is_revocable auth offer o =
    o.offer_id == offer && o.owner_principal_id == auth.principal_id && not (is_some o.revoked_at)

unfoldable pub revoke : ℕ → AuthContext → ℕ → Service (Unit {0})
unfolding is_revocable
revoke now auth offer = do
  changed ← read λ db. has_row (is_revocable auth offer) db.offers
  require changed ReasonCode.offer_not_found 404
  modify λ db. record db {
    offers =
        update_where (is_revocable auth offer) (λ o. record o { revoked_at = some now }) db.offers;
  }
  modify (audit now (Actor.principal auth.principal_id) Action.target_offer_revoked offer)
  pure tt

unfoldable pub check_offer : ℕ → ℕ → Option OfferRow → Result (ℕ × ℕ)
check_offer now audience none = fail ReasonCode.offer_not_found 404
check_offer now audience (some row) =
    if not (row.audience_principal_id == audience)
    then fail ReasonCode.offer_audience_mismatch 403
    else if is_some row.revoked_at
    then fail ReasonCode.offer_revoked 409
    else if leb row.expires_at now
    then fail ReasonCode.offer_expired 409
    else ok (row.endpoint_id, row.session_handle)

-- The endpoint and the session that a valid offer names.
unfoldable pub resolve : ℕ → ℕ → ℕ → ℕ → Service (ℕ × ℕ)
unfolding check_offer
resolve now offer owner audience db = (
  check_offer now audience
      (select_first (λ o. o.offer_id == offer && o.owner_principal_id == owner) db.offers),
  db,
)

pub record ReachableTarget : Type 0 where
  pub kind : TargetKind
  pub principal_id : ℕ
  pub label : Option ℕ
  pub target_offer_id : Option ℕ
  pub expires_at : Option ℕ
  pub available : Bool

unfoldable pub is_offered : ℕ → ℕ → ℕ → OfferRow → Bool
is_offered now viewer person o =
    o.owner_principal_id == person
    && o.audience_principal_id == viewer
    && not (is_some o.revoked_at)
    && ltb now o.expires_at

-- The label of the default runtime, a constant text, is `none`.
unfoldable pub list_reachable : ℕ → ℕ → ℕ → Db → List ReachableTarget
unfolding is_offered
list_reachable now viewer person db =
    if not (has_row (λ p. p == person) db.principals)
    then []
    else record {
      kind = TargetKind.person_default_runtime;
      principal_id = person;
      label = none;
      target_offer_id = none;
      expires_at = none;
      available = is_some (get_default_route person db);
    }
      ∷ map
          (λ o. record {
            kind = TargetKind.runtime_session;
            principal_id = person;
            label = some o.label;
            target_offer_id = some o.offer_id;
            expires_at = some o.expires_at;
            available = true;
          })
          (order_by (λ o. o.created_at) (select (is_offered now viewer person) db.offers))
