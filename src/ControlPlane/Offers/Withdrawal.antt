-- ===== src/ControlPlane/Offers/Withdrawal.antt =====
-- `resolve` and `revoke` in src/control-plane/services/offers.ts: what a resolved offer is, and that a
-- revoked one is none.
use aicoo_local_agent.Common.{
  ℕ, ◌<◌, ◌≡◌, ◌≢◌, refl, sym, subst, ap, List, ◌&&◌, none, some, arith, Bool-cases, Option-cases,
  inl, inr, ◌==◌, has_row, select_first, select_first_sound, update_where, Memᴰ, All-update_where,
}
use aicoo_local_agent.ControlPlane.Schema.{ReasonCode, OfferRow, Db, AuthContext}
use aicoo_local_agent.ControlPlane.Outcome.{Result, ok, fail, require, read, modify, ◌>>=◌, ◌>>◌}
use aicoo_local_agent.ControlPlane.Events.{audit}
use aicoo_local_agent.ControlPlane.Offers
use aicoo_local_agent.ControlPlane.Offers.{resolve, check_offer, is_revocable}

-- An offer of the route to the audience that stands at a time.
pub record IsOffered (now offer owner audience : ℕ) (route : ℕ × ℕ) (db : Db) : Type 0 where
  pub row : OfferRow
  pub listed : Memᴰ row db.offers
  pub id : row.offer_id ≡ offer
  pub owned : row.owner_principal_id ≡ owner
  pub offered : row.audience_principal_id ≡ audience
  pub standing : row.revoked_at ≡ none
  pub unexpired : now < row.expires_at
  pub endpoint : row.endpoint_id ≡ route.0
  pub handle : row.session_handle ≡ route.1

check_offer-ok :
    (now audience endpoint handle : ℕ) (row : OfferRow)
    → check_offer now audience (some row) ≡ ok (endpoint, handle)
    → (row.audience_principal_id ≡ audience)
      × (row.revoked_at ≡ none)
      × (now < row.expires_at)
      × (row.endpoint_id ≡ endpoint)
      × (row.session_handle ≡ handle)
unfolding check_offer
check_offer-ok now audience endpoint handle row h =
    (ground arith, ground arith, ground arith, ground arith, ground arith)

-- A route that `resolve` answers with is that of a stored offer of the owner to the audience, which
-- is not revoked and has not expired.
pub resolve_sound :
    (now offer owner audience : ℕ) (db : Db) (route : ℕ × ℕ)
    → (resolve now offer owner audience db).0 ≡ ok route
    → IsOffered now offer owner audience route db
unfolding resolve
resolve_sound now offer owner audience db (endpoint, handle) h =
    elim (Option-cases
      (select_first (λ o. o.offer_id == offer && o.owner_principal_id == owner) db.offers)) [
        | inl missing ↦
            let k : check_offer now audience none ≡ ok (endpoint, handle) =
              rw (← h, missing) refl in
            absurd (unfold check_offer in ground arith)
        | inr (row, found) ↦
            let k : check_offer now audience (some row) ≡ ok (endpoint, handle) =
              rw (← h, found) refl in
            let (offered, standing, unexpired, at_endpoint, at_handle) =
              check_offer-ok now audience endpoint handle row k in
            let (listed, test) =
              select_first_sound (λ o. o.offer_id == offer && o.owner_principal_id == owner)
                db.offers found in
            record {
              row = row;
              listed = listed;
              id = ground arith;
              owned = ground arith;
              offered = offered;
              standing = standing;
              unexpired = unexpired;
              endpoint = at_endpoint;
              handle = at_handle;
            }
      ]

revoke-ok :
    (now : ℕ) (auth : AuthContext) (offer : ℕ) (db after : Db)
    → Offers.revoke now auth offer db ≡ (ok tt, after)
    → update_where (is_revocable auth offer) (λ o. record o { revoked_at = some now }) db.offers
      ≡ after.offers
unfolding Offers.revoke read require modify audit ◌>>◌ ◌>>=◌
revoke-ok now auth offer db after h =
    elim (Bool-cases (has_row (is_revocable auth offer) db.offers)) [
      | inl hit ↦ rw (← ap (λ (p : Result (Unit {0}) × Db). p.1.offers) h, hit) refl
      | inr miss ↦ absurd (nothing (rw (← h, miss) refl))
    ]
  where
    nothing :
        ◌≢◌ {A = Result (Unit {0}) × Db} (fail ReasonCode.offer_not_found 404, db) (ok tt, after)
    nothing k = cc

-- When an owner's `revoke` of an offer succeeds, then in the database that it leaves the offer is
-- resolved for no audience, at no time.
pub revoked_not_resolved :
    (now : ℕ) (auth : AuthContext) (offer : ℕ) (db after : Db) (later audience : ℕ) (route : ℕ × ℕ)
    → Offers.revoke now auth offer db ≡ (ok tt, after)
    → (resolve later offer auth.principal_id audience after).0 ≢ ok route
unfolding is_revocable
revoked_not_resolved now auth offer db after later audience route h k =
    let v : IsOffered later offer auth.principal_id audience route after =
      resolve_sound later offer auth.principal_id audience after route k in
    let off =
      All-update_where (is_revocable auth offer) (λ o. record o { revoked_at = some now }) db.offers
        (subst (λ (os : List OfferRow). Memᴰ v.row os) (sym (revoke-ok now auth offer db after h))
          v.listed)
        (λ a a_in hit. ground arith) in
    let id = v.id in let owned = v.owned in let standing = v.standing in ground arith
