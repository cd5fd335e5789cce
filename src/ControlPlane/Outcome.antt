-- ===== src/ControlPlane/Outcome.antt =====
-- `ServiceResult<T>` of src/shared/contracts.ts, and the services' calls as state passing. A call
-- that fails keeps what it has already committed; `threw` is a constraint that SQLite raised, after
-- the ROLLBACK of `transaction` in src/control-plane/db.ts.
use aicoo_local_agent.Common.{ℕ, ◌≡◌, refl, Bool, true, false, arith}
use aicoo_local_agent.ControlPlane.Schema.{ReasonCode, Db}

pub data Result {ℓ} (A : Type ℓ) : Type ℓ where
  ok : A → Result A
  fail : ReasonCode → ℕ → Result A
  threw : Result A

abbrev pub Service {ℓ} : Type ℓ → Type ℓ
Service A = Db → Result A × Db

abbrev pub pure {ℓ} : {A : Type ℓ} → A → Service A
pure a db = (ok a, db)

abbrev pub failure {ℓ} : {A : Type ℓ} → ReasonCode → ℕ → Service A
failure code http_status db = (fail code http_status, db)

abbrev pub and_then {ℓ κ} :
    {A : Type ℓ} {B : Type κ} → Result A × Db → (A → Service B) → Result B × Db
and_then (ok a, db) f = f a db
and_then (fail c s, db) f = (fail c s, db)
and_then (threw, db) f = (threw, db)

infixl 5 ◌>>=◌ ◌>>◌
unfoldable pub ◌>>=◌ {ℓ κ} : {A : Type ℓ} {B : Type κ} → Service A → (A → Service B) → Service B
◌>>=◌ m f db = and_then (m db) f

unfoldable pub ◌>>◌ {ℓ} : {B : Type ℓ} → Service (Unit {0}) → Service B → Service B
unfolding ◌>>=◌
m >> k = m >>= λ _. k

-- `if (!test) return failure(code, status)`
unfoldable pub require : Bool → ReasonCode → ℕ → Service (Unit {0})
require true code http_status db = (ok tt, db)
require false code http_status db = (fail code http_status, db)

-- `if (!row) return failure(code, status)`, for a result that needs no state.
unfoldable pub lift {ℓ} : {A : Type ℓ} → Result A → Service A
lift r db = (r, db)

unfoldable pub read {ℓ} : {A : Type ℓ} → (Db → A) → Service A
read f db = (ok (f db), db)

unfoldable pub modify : (Db → Db) → Service (Unit {0})
modify f db = (ok tt, f db)

abbrev pub IsOk {ℓ} : {A : Type ℓ} → Result A → Type 0
IsOk (ok a) = Unit {0}
IsOk _ = ⊥

module _ {ℓ κ} {A : Type ℓ} {B : Type κ} where
  and_then-eq-ok :
      (p : Result A × Db) (f : A → Service B) (db' : Db) {b : B}
      → and_then p f ≡ (ok b, db')
      → (a : A) × (mid : Db) × (p ≡ (ok a, mid)) × (f a mid ≡ (ok b, db'))
  and_then-eq-ok (ok a, mid) f db' h = (a, mid, refl, h)
  and_then-eq-ok (fail c s, mid) f db' h = absurd (ground arith)
  and_then-eq-ok (threw, mid) f db' h = absurd (ground arith)

  -- Inversion of a call that succeeded.
  pub >>=-eq-ok :
      (m : Service A) (f : A → Service B) (db db' : Db) {b : B}
      → (m >>= f) db ≡ (ok b, db')
      → (a : A) × (mid : Db) × (m db ≡ (ok a, mid)) × (f a mid ≡ (ok b, db'))
  unfolding ◌>>=◌
  >>=-eq-ok m f db db' h = and_then-eq-ok (m db) f db' h

module _ {ℓ} {B : Type ℓ} where
  pub >>-eq-ok :
      (m : Service (Unit {0})) (k : Service B) (db db' : Db) {b : B}
      → (m >> k) db ≡ (ok b, db')
      → (mid : Db) × (m db ≡ (ok tt, mid)) × (k mid ≡ (ok b, db'))
  unfolding ◌>>◌
  >>-eq-ok m k db db' h =
      let (_, mid, e, rest) = and_then-eq-ok (m db) (λ _. k) db' h in (mid, e, rest)

  -- A guard that lets a call go on held, and has changed nothing.
  pub require-eq-ok :
      (test : Bool) (code : ReasonCode) (s : ℕ) (k : Service B) (db db' : Db) {b : B}
      → (require test code s >> k) db ≡ (ok b, db')
      → (test ≡ true) × (k db ≡ (ok b, db'))
  unfolding ◌>>◌ require
  require-eq-ok true code s k db db' h = (refl, h)
  require-eq-ok false code s k db db' h = absurd (ground arith)
