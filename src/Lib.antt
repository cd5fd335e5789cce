-- ===== src/Lib.antt =====
-- The control plane and the bridge of the Aicoo local agent.
--
-- The control plane (src/control-plane) stores who may talk to which runtime session. A requester
-- asks for a communication session, the recipient accepts it, which freezes a route to one runtime
-- session and grants it for half an hour at most, and messages are then sent over that route until
-- the grant runs out or is revoked. The bridge (src/bridge), one on each device, copies the messages
-- that the control plane dispatches into its spool, and its injector asks the control plane about
-- each of them once more before it hands it to the local runtime.
--
-- What a peer's message may make the runtime do is bounded on the device. Relationships and trusted
-- tool policies (src/security) grant folders to a peer's device; a tool call outside them waits for
-- the owner's approval (src/shared/tool-approval.ts), and where it needs a wider sandbox it is kept
-- as a continuation (src/shared/continuation-store.ts) until the session is rebuilt
-- (src/shared/session-rebuild.ts) inside the approved boundary.
--
-- The files:
--   ControlPlane/Schema        the tables of src/control-plane/db.ts, src/shared/contracts.ts and
--                              src/shared/reason-codes.ts
--   ControlPlane/Outcome       `ServiceResult`, and a service's call as a function of the database
--   ControlPlane/Events        src/control-plane/events.ts and `audit` of src/control-plane/audit.ts
--   ControlPlane/Endpoints     src/control-plane/services/endpoints.ts
--   ControlPlane/Offers        src/control-plane/services/offers.ts
--   ControlPlane/CommSessions  src/control-plane/services/comm-sessions.ts; `Expiry` holds
--                              `expireIfNeeded`, `getVisible` and `expireActiveGrantsForRoute`
--   ControlPlane/Messages      src/control-plane/services/messages.ts; `Acknowledge` and `Injection`
--                              hold `acknowledge` and `validateInjection`; `Storing`, `Inbox`
--                              and `Granted` hold what `send` calls
--   ControlPlane/Evolution     the order in which rows may change
--   ControlPlane/History       sequences of calls of all the services
--   Bridge/Spool               src/bridge/spool.ts
--   Bridge/Injector            src/bridge/injector.ts
--   Bridge/Backoff             src/bridge/idle-backoff.ts
--   Bridge/FailureBudget       src/bridge/auth-failure-budget.ts
--   Bridge/Health              src/bridge/health.ts
--   Bridge/Recovery            src/bridge/continuation-recovery.ts
--   Security/Presets           src/security/relationship-access.ts
--   Security/ToolPolicies      src/security/trusted-tool-policy.ts; `Schema` holds its types and
--                              `Calls` sequences of calls
--   Security/Paths             the paths of src/security/relationship-policy.ts: `isWithin`,
--                              `canonicalPath`, `dangerousPathDecision` and the loop of `#authorize`
--   Security/RelationshipPolicy  `#authorize` of src/security/relationship-policy.ts; `Access` holds
--                              `accessFor`
--   Shared/Continuations       src/shared/continuation-store.ts; `Schema` holds its types, `Reading`
--                              the methods that only read, `Rows` the rows that it writes, `Graph`
--                              the graph of the states and `Runs` sequences of calls; `Rebuild` is
--                              src/shared/session-rebuild.ts
--   Shared/ToolApproval        src/shared/tool-approval.ts
--   Shared/Rollout             src/shared/capability-rollout.ts
--   Common                     tables, Boolean tests, calls that may throw, signed integers, and how
--                              tables grow
--   Tests                      concrete databases and spools
-- The other modules below these hold proofs and are named for what they prove.
--
-- How the code is modelled. A method is a function with the method's name in snake_case. Its state
-- is a record of tables, each a list of rows in the order of insertion, and it returns its answer
-- with the new state. A failing call keeps what it has already committed, as the code does. A
-- constraint of a primary or unique key that is violated is the answer `threw`, after the rollback.
-- Identifiers and opaque texts are natural numbers, where 0 is the empty text; times are
-- milliseconds, and a call reads the clock once, as its first argument. The identifiers that a call
-- draws are its arguments. The hash of a request and the size of a payload, which Node.js computes,
-- are the parameter `Node`; the answers that the injector gets from the control plane and from the
-- runtime adapter are the parameter `Peers`. A function that may throw is an `Attempt`; where it
-- writes, it throws before. The runtime's operations in `execute` take the table and give it back,
-- since other calls may change it while they are awaited. Paths are those of a POSIX system, lists
-- of character codes; the file system is the parameter `FileSystem`, and `Texts` says which texts
-- are blank and how long they are. The numbers of cursors, which are parsed from texts, are signed.
-- The code writes one relationship for each device but reads any number, and where several are
-- selected it takes a folder of one with a tool of another, as the model does. Rates in
-- Shared/Rollout are numbers of millionths. Loops run over lists but for two: `canonicalPath` has
-- fuel for the parents of a path that does not exist, as many as the path has parts, and throws
-- without it; `awaitToolApproval`, whose gateway, clock and timer are parameters, has fuel for its
-- polls, and a clock that goes forward ends it within as many rounds as the timeout has ticks, and
-- one.
--
-- What is not modelled: foreign keys, the free-form metadata of audit records, the wake-up of
-- listeners, JSON, and the mapping of rows to the JSON that the HTTP routes return. `listInbox` and
-- `listAudit` only read. The delegations of both sides, the bridge's event loop, the
-- adapters, the transports and the command line are left out. Of the security policies, the reading,
-- migration and writing of their files, the selection of projects from a message, MCP grants and
-- git are left out.
mod Common
pub mod ControlPlane
pub mod Bridge
pub mod Security
pub mod Shared
mod Tests
