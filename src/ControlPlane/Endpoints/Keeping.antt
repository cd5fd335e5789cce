-- ===== src/ControlPlane/Endpoints/Keeping.antt =====
-- The operations on endpoints, runtime sessions, default routes and offers leave the
-- communication sessions, the messages and the deliveries alone.
use aicoo_local_agent.Common.{
  ℕ, refl, inl, inr, List, Option, none, some, Bool-cases, ◌==◌, has_row,
}
use aicoo_local_agent.ControlPlane.Schema.{
  EndpointRow, SessionRow, OfferRow, RouteRow, Db, AuthContext,
}
use aicoo_local_agent.ControlPlane.Evolution.{
  Evolution, Evolution-refl, same_tables, Keeps, keeps_rules,
}
use aicoo_local_agent.ControlPlane.Events.{audit}
use aicoo_local_agent.ControlPlane.Endpoints.{
  RegisterEndpointInput, RegisterRuntimeSessionInput, SessionUpdate, get_owned, store_endpoint,
  register, heartbeat, owns_endpoint, list_for_principal, get_session_owned, insert_session,
  register_session, update_session, close_session, set_default_route, put_route,
  clear_default_route,
}
use aicoo_local_agent.ControlPlane.Offers
use aicoo_local_agent.ControlPlane.Offers.{CreateOfferInput, insert_offer}

get_owned-Keeps : (auth : AuthContext) (endpoint : ℕ) → Keeps (get_owned auth endpoint)
unfolding get_owned
get_owned-Keeps auth endpoint = record { at = Evolution-refl }

get_session_owned-Keeps :
    (auth : AuthContext) (endpoint handle : ℕ) → Keeps (get_session_owned auth endpoint handle)
unfolding get_session_owned
get_session_owned-Keeps auth endpoint handle = record { at = Evolution-refl }

audit_same :
    (now : ℕ) (actor : _) (action : _) (entity : ℕ) (db : Db)
    → Evolution db (audit now actor action entity db)
unfolding audit
audit_same now actor action entity db = same_tables db _ refl refl refl

ruleset local_rules = (keeps_rules, get_owned-Keeps, get_session_owned-Keeps, audit_same)

store_endpoint-Keeps :
    (now fresh : ℕ) (auth : AuthContext) (input : RegisterEndpointInput)
    (found : Option EndpointRow)
    → Keeps (store_endpoint now fresh auth input found)
unfolding store_endpoint
store_endpoint-Keeps now fresh auth input none = record {
  at = λ db. elim (Bool-cases (has_row (λ e. e.endpoint_id == fresh) db.endpoints)) [
    | inl old ↦ rw (old, store_endpoint) (Evolution-refl db)
    | inr new ↦ rw (new, store_endpoint) (same_tables db _ refl refl refl)
  ];
}
store_endpoint-Keeps now fresh auth input (some row) = record {
  at = λ db. same_tables db _ refl refl refl;
}

pub register-Keeps :
    (now fresh : ℕ) (auth : AuthContext) (input : RegisterEndpointInput)
    → Keeps (register now fresh auth input)
unfolding register
register-Keeps now fresh auth input = search (local_rules, store_endpoint-Keeps) depth 10

pub heartbeat-Keeps :
    (now : ℕ) (auth : AuthContext) (endpoint : ℕ) → Keeps (heartbeat now auth endpoint)
unfolding heartbeat
heartbeat-Keeps now auth endpoint = record {
  at = λ db. elim (Bool-cases (has_row (owns_endpoint auth endpoint) db.endpoints)) [
    | inl e ↦ rw (e, heartbeat) (same_tables db _ refl refl refl)
    | inr e ↦ rw (e, heartbeat) (Evolution-refl db)
  ];
}

insert_session-Keeps : (row : SessionRow) → Keeps (insert_session row)
unfolding insert_session
insert_session-Keeps row = record {
  at = λ db. elim (Bool-cases (has_row (λ s. s.session_handle == row.session_handle) db.sessions)) [
    | inl e ↦ rw (e, insert_session) (Evolution-refl db)
    | inr e ↦ rw (e, insert_session) (same_tables db _ refl refl refl)
  ];
}

pub register_session-Keeps :
    (now fresh : ℕ) (auth : AuthContext) (endpoint : ℕ) (input : RegisterRuntimeSessionInput)
    → Keeps (register_session now fresh auth endpoint input)
unfolding register_session
register_session-Keeps now fresh auth endpoint input =
    search (local_rules, insert_session-Keeps) depth 10

sessions_same : (db : Db) (ss : List SessionRow) → Evolution db (record db { sessions = ss })
sessions_same db ss = same_tables db _ refl refl refl

pub update_session-Keeps :
    (now : ℕ) (auth : AuthContext) (endpoint handle : ℕ) (input : SessionUpdate)
    → Keeps (update_session now auth endpoint handle input)
unfolding update_session
update_session-Keeps now auth endpoint handle input = search (local_rules, sessions_same) depth 10

pub close_session-Keeps :
    (now : ℕ) (auth : AuthContext) (endpoint handle : ℕ)
    → Keeps (close_session now auth endpoint handle)
unfolding close_session
close_session-Keeps now auth endpoint handle = search (local_rules, update_session-Keeps)

routes_same : (db : Db) (rs : List RouteRow) → Evolution db (record db { routes = rs })
routes_same db rs = same_tables db _ refl refl refl

put_route_same : (row : RouteRow) (db : Db) → Evolution db (put_route row db)
unfolding put_route
put_route_same row db = same_tables db _ refl refl refl

pub set_default_route-Keeps :
    (now : ℕ) (auth : AuthContext) (endpoint handle : ℕ)
    → Keeps (set_default_route now auth endpoint handle)
unfolding set_default_route
set_default_route-Keeps now auth endpoint handle = search (local_rules, put_route_same) depth 12

pub clear_default_route-Keeps :
    (now : ℕ) (auth : AuthContext) → Keeps (clear_default_route now auth)
unfolding clear_default_route
clear_default_route-Keeps now auth = search (local_rules, routes_same) depth 8

insert_offer-Keeps : (row : OfferRow) → Keeps (insert_offer row)
unfolding insert_offer
insert_offer-Keeps row = record {
  at = λ db. elim (Bool-cases (has_row (λ o. o.offer_id == row.offer_id) db.offers)) [
    | inl e ↦ rw (e, insert_offer) (Evolution-refl db)
    | inr e ↦ rw (e, insert_offer) (same_tables db _ refl refl refl)
  ];
}

pub create-Keeps :
    (now fresh : ℕ) (auth : AuthContext) (input : CreateOfferInput)
    → Keeps (Offers.create now fresh auth input)
unfolding Offers.create
create-Keeps now fresh auth input = search (local_rules, insert_offer-Keeps) depth 12

offers_same : (db : Db) (os : List OfferRow) → Evolution db (record db { offers = os })
offers_same db os = same_tables db _ refl refl refl

pub revoke-Keeps : (now : ℕ) (auth : AuthContext) (offer : ℕ) → Keeps (Offers.revoke now auth offer)
unfolding Offers.revoke
revoke-Keeps now auth offer = search (local_rules, offers_same) depth 10

pub list_for_principal-Keeps : (now principal : ℕ) → Keeps (list_for_principal now principal)
unfolding list_for_principal
list_for_principal-Keeps now principal = record { at = λ db. same_tables db _ refl refl refl }
