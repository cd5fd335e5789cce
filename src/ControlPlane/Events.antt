-- ===== src/ControlPlane/Events.antt =====
-- src/control-plane/events.ts: each endpoint's numbered feed of events; and the two loops by which
-- the services append one event to the feed of every endpoint of some principals. The wake-up of
-- the listeners is left out.
pub mod Numbering
use aicoo_local_agent.Common.{
  ℕ, zero, suc, ◌+◌, ◌-◌, List, [], ◌∷◌, ◌++◌, Bool, true, false, ◌&&◌, ltb, ◌==◌, select,
  update_where, max_of, order_by,
}
use aicoo_local_agent.ControlPlane.Schema.{
  EndpointRow, EventBody, EventRow, Presence, Db, Actor, Action,
}

unfoldable pub append : ℕ → ℕ → EventBody → List EventRow → List EventRow
append now endpoint body events =
    events
    ++ record {
      endpoint_id = endpoint;
      seq = max_of (λ e. e.seq) (λ e. e.endpoint_id == endpoint) events + 1;
      body = body;
      created_at = now;
    }
      ∷ []

take : ℕ → List EventRow → List EventRow
take zero es = []
take (suc n) [] = []
take (suc n) (e ∷ es) = e ∷ take n es

-- `list`, at the number that its cursor spells.
unfoldable pub list_after : ℕ → ℕ → ℕ → List EventRow → List EventRow
unfolding take
list_after endpoint cursor limit events =
    take limit
      (order_by (λ e. e.seq) (select (λ e. e.endpoint_id == endpoint && ltb cursor e.seq) events))

abbrev pub is_online : Presence → Bool
is_online Presence.online = true
is_online _ = false

-- The UPDATE of `listForPrincipal`: endpoints not seen for a minute are offline.
unfoldable pub mark_stale : ℕ → ℕ → List EndpointRow → List EndpointRow
mark_stale now principal =
    update_where
      (λ e. e.principal_id == principal && ltb e.last_seen_at (now - 60000) && is_online e.presence)
      (λ e. record e { presence = Presence.offline })

-- Its SELECT.
unfoldable pub endpoints_of : ℕ → List EndpointRow → List EndpointRow
endpoints_of principal endpoints =
    order_by (λ e. e.created_at) (select (λ e. e.principal_id == principal) endpoints)

unfoldable pub append_all : ℕ → EventBody → List EndpointRow → List EventRow → List EventRow
append_all now body [] events = events
append_all now body (e ∷ es) events = append_all now body es (append now e.endpoint_id body events)

-- for (const principalId of principals) for (const endpoint of listForPrincipal(principalId)) …
unfoldable pub notify :
    ℕ → EventBody → List ℕ → List EndpointRow → List EventRow → List EndpointRow × List EventRow
notify now body [] endpoints events = (endpoints, events)
notify now body (p ∷ ps) endpoints events =
    let seen = mark_stale now p endpoints in
    notify now body ps seen (append_all now body (endpoints_of p seen) events)

unfoldable pub broadcast : ℕ → EventBody → List ℕ → Db → Db
broadcast now body principals db =
    let fed = notify now body principals db.endpoints db.events in
    record db { endpoints = fed.0; events = fed.1 }

-- `audit` of src/control-plane/audit.ts.
unfoldable pub audit : ℕ → Actor → Action → ℕ → Db → Db
audit now actor action entity db = record db {
  audits =
      db.audits
      ++ record { actor = actor; action = action; entity_id = entity; created_at = now } ∷ [];
}
