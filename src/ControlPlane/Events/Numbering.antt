-- ===== src/ControlPlane/Events/Numbering.antt =====
-- src/control-plane/events.ts: the numbers that the events of one endpoint get.
use aicoo_local_agent.Common.{ℕ, ◌<◌, ◌≡◌, List, [], ◌∷◌, ◌++◌, arith, ◌==◌, le-max_of, Memᴰ}
use aicoo_local_agent.ControlPlane.Schema.{EndpointRow, EventBody, EventRow, Db}
use aicoo_local_agent.ControlPlane.Events.{
  append, append_all, notify, broadcast, mark_stale, endpoints_of,
}

-- Each event has a larger number than the events of its endpoint before it.
pub data IsNumbered : List EventRow → Type 0 where
  no_events : IsNumbered []
  then_event :
      (es : List EventRow) (e : EventRow)
      → IsNumbered es
      → ((a : EventRow) → Memᴰ a es → a.endpoint_id ≡ e.endpoint_id → a.seq < e.seq)
      → IsNumbered (es ++ e ∷ [])

append-IsNumbered :
    (now endpoint : ℕ) (body : EventBody) (events : List EventRow)
    → IsNumbered events
    → IsNumbered (append now endpoint body events)
unfolding append
append-IsNumbered now endpoint body events v = IsNumbered.then_event events _ v (λ a listed same.
    omega (
      arith,
      le-max_of (λ (e : EventRow). e.seq) (λ e. e.endpoint_id == endpoint) events listed
          (ground (arith, same)),
    ))

append_all-IsNumbered :
    (now : ℕ) (body : EventBody) (endpoints : List EndpointRow) (events : List EventRow)
    → IsNumbered events
    → IsNumbered (append_all now body endpoints events)
unfolding append_all
append_all-IsNumbered now body [] events v = v
append_all-IsNumbered now body (e ∷ es) events v =
    append_all-IsNumbered now body es _ (append-IsNumbered now e.endpoint_id body events v)

notify-IsNumbered :
    (now : ℕ) (body : EventBody) (principals : List ℕ) (endpoints : List EndpointRow)
    (events : List EventRow)
    → IsNumbered events
    → IsNumbered (notify now body principals endpoints events).1
unfolding notify
notify-IsNumbered now body [] endpoints events v = v
notify-IsNumbered now body (p ∷ ps) endpoints events v =
    notify-IsNumbered now body ps (mark_stale now p endpoints) _
      (append_all-IsNumbered now body (endpoints_of p (mark_stale now p endpoints)) events v)

-- If the events of each endpoint have increasing numbers in the order of their insertion, then they
-- still have after one event is appended for every endpoint of some principals.
pub broadcast-IsNumbered :
    (now : ℕ) (body : EventBody) (principals : List ℕ) (db : Db)
    → IsNumbered db.events
    → IsNumbered (broadcast now body principals db).events
unfolding broadcast
broadcast-IsNumbered now body principals db v =
    notify-IsNumbered now body principals db.endpoints db.events v
