-- ===== src/ControlPlane/Evolution.antt =====
-- What no operation of the control plane can undo. Statuses only rise in rank, a closed row never
-- changes again, a granted session keeps its route and its expiry, and a message is never edited.
use aicoo_local_agent.Common.{
  ℕ, ◌≤◌, ◌≡◌, refl, ◌∙◌, Bool, true, false, arith, Evolves, Evolves-refl, Evolves-trans,
}
use aicoo_local_agent.ControlPlane.Schema.{
  CommunicationStatus, DeliveryStatus, CommRow, DeliveryRow, MessageRow, Db,
}
use aicoo_local_agent.ControlPlane.Outcome.{
  Result, ok, fail, threw, Service, pure, and_then, require, lift, read, modify, ◌>>=◌, ◌>>◌,
}

abbrev pub comm_rank : CommunicationStatus → ℕ
comm_rank CommunicationStatus.pending = 0
comm_rank CommunicationStatus.active = 1
comm_rank _ = 2

abbrev pub delivery_rank : DeliveryStatus → ℕ
delivery_rank DeliveryStatus.queued = 0
delivery_rank DeliveryStatus.dispatched = 1
delivery_rank DeliveryStatus.device_acked = 2
delivery_rank DeliveryStatus.runtime_pending = 3
delivery_rank _ = 4

-- A granted session's route and times.
pub record IsSameGrant (a b : CommRow) : Type 0 where
  pub endpoint : b.frozen_endpoint_id ≡ a.frozen_endpoint_id
  pub handle : b.frozen_session_handle ≡ a.frozen_session_handle
  pub activated : b.activated_at ≡ a.activated_at
  pub expires : b.grant_expires_at ≡ a.grant_expires_at

pub record CommMoves (a b : CommRow) : Type 0 where
  pub id : b.comm_session_id ≡ a.comm_session_id
  pub requester : b.requester_principal_id ≡ a.requester_principal_id
  pub recipient : b.recipient_principal_id ≡ a.recipient_principal_id
  pub rises : comm_rank a.status ≤ comm_rank b.status
  pub closed : 2 ≤ comm_rank a.status → b ≡ a
  pub granted : 1 ≤ comm_rank a.status → IsSameGrant a b

pub record DeliveryMoves (a b : DeliveryRow) : Type 0 where
  pub id : b.delivery_id ≡ a.delivery_id
  pub message : b.message_id ≡ a.message_id
  pub endpoint : b.endpoint_id ≡ a.endpoint_id
  pub rises : delivery_rank a.status ≤ delivery_rank b.status
  pub closed : 4 ≤ delivery_rank a.status → b ≡ a

pub CommMoves-refl : (a : CommRow) → CommMoves a a
CommMoves-refl a = ground arith

pub CommMoves-trans : (a b c : CommRow) → CommMoves a b → CommMoves b c → CommMoves a c
CommMoves-trans a b c f g = record {
  id = g.id ∙ f.id;
  requester = g.requester ∙ f.requester;
  recipient = g.recipient ∙ f.recipient;
  rises = omega (arith, f.rises, g.rises);
  closed = λ h. g.closed (omega (arith, f.rises)) ∙ f.closed h;
  granted = λ h.
      let p : IsSameGrant a b = f.granted h in
      let q : IsSameGrant b c = g.granted (omega (arith, f.rises)) in
      record {
        endpoint = q.endpoint ∙ p.endpoint;
        handle = q.handle ∙ p.handle;
        activated = q.activated ∙ p.activated;
        expires = q.expires ∙ p.expires;
      };
}

pub DeliveryMoves-refl : (a : DeliveryRow) → DeliveryMoves a a
DeliveryMoves-refl a = ground arith

pub DeliveryMoves-trans :
    (a b c : DeliveryRow) → DeliveryMoves a b → DeliveryMoves b c → DeliveryMoves a c
DeliveryMoves-trans a b c f g = record {
  id = g.id ∙ f.id;
  message = g.message ∙ f.message;
  endpoint = g.endpoint ∙ f.endpoint;
  rises = omega (arith, f.rises, g.rises);
  closed = λ h. g.closed (omega (arith, f.rises)) ∙ f.closed h;
}

-- A stored message is never edited.
abbrev pub Unchanged : MessageRow → MessageRow → Type 0
Unchanged a b = b ≡ a

pub record Evolution (old new : Db) : Type 0 where
  pub comms : Evolves CommMoves old.comms new.comms
  pub deliveries : Evolves DeliveryMoves old.deliveries new.deliveries
  pub messages : Evolves Unchanged old.messages new.messages

pub Evolution-refl : (db : Db) → Evolution db db
Evolution-refl db = record {
  comms = Evolves-refl CommMoves CommMoves-refl db.comms;
  deliveries = Evolves-refl DeliveryMoves DeliveryMoves-refl db.deliveries;
  messages = Evolves-refl Unchanged (λ a. refl) db.messages;
}

pub Evolution-trans : {a b c : Db} → Evolution a b → Evolution b c → Evolution a c
Evolution-trans f g = record {
  comms = Evolves-trans CommMoves CommMoves-trans f.comms g.comms;
  deliveries = Evolves-trans DeliveryMoves DeliveryMoves-trans f.deliveries g.deliveries;
  messages = Evolves-trans Unchanged (λ a b c p q. q ∙ p) f.messages g.messages;
}

-- A call, whether it succeeds or fails, moves the database along.
pub record Keeps {ℓ} {A : Type ℓ} (m : Service A) : Type ℓ where
  pub at : (db : Db) → Evolution db (m db).1

module _ {ℓ κ} {A : Type ℓ} {B : Type κ} where
  and_then-Evolution :
      (db : Db) (p : Result A × Db) (f : A → Service B)
      → Evolution db p.1
      → ((a : A) → Keeps (f a))
      → Evolution db (and_then p f).1
  and_then-Evolution db (ok a, mid) f e k = Evolution-trans e ((k a).at mid)
  and_then-Evolution db (fail c s, mid) f e k = e
  and_then-Evolution db (threw, mid) f e k = e

  pub Keeps->>= :
      (m : Service A) (f : A → Service B) → Keeps m → ((a : A) → Keeps (f a)) → Keeps (m >>= f)
  unfolding ◌>>=◌
  Keeps->>= m f h k = record { at = λ db. and_then-Evolution db (m db) f (h.at db) k }

module _ {ℓ} {A : Type ℓ} where
  pub Keeps->> : (m : Service (Unit {0})) (k : Service A) → Keeps m → Keeps k → Keeps (m >> k)
  unfolding ◌>>◌
  Keeps->> m k h j = Keeps->>= m (λ _. k) h (λ _. j)

  pub Keeps-pure : (a : A) → Keeps (pure a)
  Keeps-pure a = record { at = Evolution-refl }

  pub Keeps-lift : (r : Result A) → Keeps (lift r)
  unfolding lift
  Keeps-lift r = record { at = Evolution-refl }

  pub Keeps-read : (f : Db → A) → Keeps (read f)
  unfolding read
  Keeps-read f = record { at = Evolution-refl }

pub Keeps-require : (b : Bool) (code : _) (s : ℕ) → Keeps (require b code s)
unfolding require
Keeps-require true code s = record { at = Evolution-refl }
Keeps-require false code s = record { at = Evolution-refl }

pub Keeps-modify : (f : Db → Db) → ((db : Db) → Evolution db (f db)) → Keeps (modify f)
unfolding modify
Keeps-modify f h = record { at = h }

pub ruleset keeps_rules =
    (Keeps->>=, Keeps->>, Keeps-pure, Keeps-lift, Keeps-read, Keeps-require, Keeps-modify)

-- A change of other tables.
pub same_tables :
    (old new : Db)
    → new.comms ≡ old.comms
    → new.deliveries ≡ old.deliveries
    → new.messages ≡ old.messages
    → Evolution old new
same_tables old new c d m = record {
  comms = rw c (Evolves-refl CommMoves CommMoves-refl old.comms);
  deliveries = rw d (Evolves-refl DeliveryMoves DeliveryMoves-refl old.deliveries);
  messages = rw m (Evolves-refl Unchanged (λ a. refl) old.messages);
}
