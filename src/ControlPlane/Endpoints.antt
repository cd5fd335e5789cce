-- ===== src/ControlPlane/Endpoints.antt =====
-- src/control-plane/services/endpoints.ts: endpoints, their runtime sessions and default routes.
pub mod Keeping
use Prim.Native.String.{String}
use aicoo_local_agent.Common.{
  ℕ, List, [], ◌∷◌, ◌++◌, Bool, true, false, not, ◌&&◌, Option, none, some, ◌==◌, if◌then◌else◌,
  or_else, is_some, select_first, has_row, update_where, select,
}
use aicoo_local_agent.ControlPlane.Schema.{
  RuntimeKind, SessionState, Presence, ReasonCode, EndpointRow, SessionRow, RouteRow, Actor, Action,
  Db, AuthContext, is_closed,
}
use aicoo_local_agent.ControlPlane.Outcome.{
  Result, ok, fail, threw, Service, pure, require, read, modify, ◌>>=◌, ◌>>◌,
}
use aicoo_local_agent.ControlPlane.Events.{audit, mark_stale, endpoints_of}

abbrev pub same_runtime : RuntimeKind → RuntimeKind → Bool
same_runtime RuntimeKind.claude_code RuntimeKind.claude_code = true
same_runtime RuntimeKind.codex RuntimeKind.codex = true
same_runtime _ _ = false

pub record RegisterEndpointInput : Type 0 where
  pub runtime : RuntimeKind
  pub bridge_version : String
  pub adapter_version : String
  pub capabilities : ℕ

pub record RegisterRuntimeSessionInput : Type 0 where
  pub label : ℕ
  pub state : SessionState
  pub capabilities : ℕ
  pub allow_inbound : Bool
  pub allow_mid_turn_steer : Bool

pub record SessionUpdate : Type 0 where
  pub state : Option SessionState
  pub allow_inbound : Option Bool
  pub allow_mid_turn_steer : Option Bool

unfoldable pub owns_endpoint : AuthContext → ℕ → EndpointRow → Bool
owns_endpoint auth endpoint e =
    e.endpoint_id == endpoint
    && e.principal_id == auth.principal_id
    && e.device_id == auth.device_id

unfoldable pub found_or {ℓ} : {A : Type ℓ} → ReasonCode → ℕ → Option A → Result A
found_or code http_status none = fail code http_status
found_or code http_status (some a) = ok a

unfoldable pub get_owned : AuthContext → ℕ → Service EndpointRow
unfolding owns_endpoint found_or
get_owned auth endpoint db = (
  found_or ReasonCode.endpoint_not_owned 404
      (select_first (owns_endpoint auth endpoint) db.endpoints),
  db,
)

-- The UPDATE or the INSERT of `register`; the primary key is checked by the table.
unfoldable pub store_endpoint :
    ℕ → ℕ → AuthContext → RegisterEndpointInput → Option EndpointRow → Service ℕ
store_endpoint now fresh auth input (some existing) db = (
  ok existing.endpoint_id,
  record db {
    endpoints =
        update_where (λ e. e.endpoint_id == existing.endpoint_id)
          (λ e. record e {
            bridge_version = input.bridge_version;
            adapter_version = input.adapter_version;
            capabilities_json = input.capabilities;
            presence = Presence.online;
            last_seen_at = now;
          })
          db.endpoints;
  },
)
store_endpoint now fresh auth input none db =
    if has_row (λ e. e.endpoint_id == fresh) db.endpoints then (threw, db) else (
      ok fresh,
      record db {
        endpoints =
            db.endpoints
            ++ record {
              endpoint_id = fresh;
              principal_id = auth.principal_id;
              device_id = auth.device_id;
              runtime = input.runtime;
              bridge_version = input.bridge_version;
              adapter_version = input.adapter_version;
              capabilities_json = input.capabilities;
              presence = Presence.online;
              last_seen_at = now;
              created_at = now;
            }
              ∷ [];
      },
    )

unfoldable pub register : ℕ → ℕ → AuthContext → RegisterEndpointInput → Service EndpointRow
register now fresh auth input = do
  existing ← read λ db.
      select_first
        (λ e.
          e.principal_id == auth.principal_id
          && e.device_id == auth.device_id
          && same_runtime e.runtime input.runtime)
        db.endpoints
  endpoint ← store_endpoint now fresh auth input existing
  modify (
      audit now (Actor.principal auth.principal_id)
        (if is_some existing then Action.endpoint_reregistered else Action.endpoint_registered)
        endpoint)
  get_owned auth endpoint

unfoldable pub heartbeat : ℕ → AuthContext → ℕ → Service (Unit {0})
unfolding owns_endpoint
heartbeat now auth endpoint db =
    if has_row (owns_endpoint auth endpoint) db.endpoints
    then (
      ok tt,
      record db {
        endpoints =
            update_where (owns_endpoint auth endpoint)
              (λ e. record e { presence = Presence.online; last_seen_at = now }) db.endpoints;
      },
    )
    else (fail ReasonCode.endpoint_not_owned 404, db)

unfoldable pub list_for_principal : ℕ → ℕ → Service (List EndpointRow)
list_for_principal now principal db =
    let seen = mark_stale now principal db.endpoints in
    (ok (endpoints_of principal seen), record db { endpoints = seen })

unfoldable pub owns_session : AuthContext → ℕ → ℕ → List EndpointRow → SessionRow → Bool
owns_session auth endpoint handle endpoints s =
    s.session_handle == handle
    && s.endpoint_id == endpoint
    && s.principal_id == auth.principal_id
    && has_row (λ e. e.endpoint_id == s.endpoint_id && e.device_id == auth.device_id) endpoints

unfoldable pub get_session_owned : AuthContext → ℕ → ℕ → Service SessionRow
unfolding owns_session found_or
get_session_owned auth endpoint handle db = (
  found_or ReasonCode.session_not_owned 404
      (select_first (owns_session auth endpoint handle db.endpoints) db.sessions),
  db,
)

unfoldable pub get_session : ℕ → Db → Option SessionRow
get_session handle db = select_first (λ s. s.session_handle == handle) db.sessions

unfoldable pub insert_session : SessionRow → Service (Unit {0})
insert_session row db =
    if has_row (λ s. s.session_handle == row.session_handle) db.sessions
    then (threw, db)
    else (ok tt, record db { sessions = db.sessions ++ row ∷ [] })

unfoldable pub register_session :
    ℕ → ℕ → AuthContext → ℕ → RegisterRuntimeSessionInput → Service SessionRow
unfolding insert_session
register_session now fresh auth endpoint input = do
  owned ← get_owned auth endpoint
  insert_session (record {
    session_handle = fresh;
    endpoint_id = endpoint;
    principal_id = auth.principal_id;
    label = input.label;
    state = input.state;
    capabilities_json = input.capabilities;
    allow_inbound = input.allow_inbound;
    allow_mid_turn_steer = input.allow_mid_turn_steer;
    created_at = now;
    last_active_at = now;
  })
  modify (audit now (Actor.principal auth.principal_id) Action.runtime_session_registered fresh)
  get_session_owned auth endpoint fresh

unfoldable pub update_session : ℕ → AuthContext → ℕ → ℕ → SessionUpdate → Service SessionRow
update_session now auth endpoint handle input = do
  current ← get_session_owned auth endpoint handle
  modify λ db. record db {
    sessions =
        update_where
          (λ s.
            s.session_handle == handle
            && s.endpoint_id == endpoint
            && s.principal_id == auth.principal_id)
          (λ s. record s {
            state = or_else input.state current.state;
            allow_inbound = or_else input.allow_inbound current.allow_inbound;
            allow_mid_turn_steer = or_else input.allow_mid_turn_steer current.allow_mid_turn_steer;
            last_active_at = now;
          })
          db.sessions;
  }
  modify (audit now (Actor.principal auth.principal_id) Action.runtime_session_updated handle)
  get_session_owned auth endpoint handle

unfoldable pub close_session : ℕ → AuthContext → ℕ → ℕ → Service (Unit {0})
close_session now auth endpoint handle = do
  closed ← update_session now auth endpoint handle (record {
    state = some SessionState.closed;
    allow_inbound = some false;
    allow_mid_turn_steer = none;
  })
  pure tt

unfoldable pub get_default_route : ℕ → Db → Option RouteRow
get_default_route principal db = select_first (λ r. r.principal_id == principal) db.routes

-- INSERT … ON CONFLICT(principal_id) DO UPDATE
unfoldable pub put_route : RouteRow → Db → Db
put_route r db = record db {
  routes =
      if has_row (λ q. q.principal_id == r.principal_id) db.routes
      then update_where (λ q. q.principal_id == r.principal_id) (λ q. r) db.routes
      else db.routes ++ r ∷ [];
}

unfoldable pub set_default_route : ℕ → AuthContext → ℕ → ℕ → Service RouteRow
set_default_route now auth endpoint handle = do
  session ← get_session_owned auth endpoint handle
  require (not (is_closed session.state)) ReasonCode.session_closed 409
  require session.allow_inbound ReasonCode.inbound_disabled 409
  modify (put_route route)
  modify (audit now (Actor.principal auth.principal_id) Action.default_route_set auth.principal_id)
  pure route
  where
    route : RouteRow
    route = record {
      principal_id = auth.principal_id;
      endpoint_id = endpoint;
      session_handle = handle;
      updated_at = now;
    }

unfoldable pub clear_default_route : ℕ → AuthContext → Service (Unit {0})
clear_default_route now auth = do
  modify
      λ db. record db { routes = select (λ r. not (r.principal_id == auth.principal_id)) db.routes }
  modify
      (audit now (Actor.principal auth.principal_id) Action.default_route_cleared auth.principal_id)
  pure tt
