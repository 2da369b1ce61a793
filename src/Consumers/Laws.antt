-- ===== src/Consumers/Laws.antt =====
-- What the loop of a worker relies on of the transaction that it calls.
use payment_rail_simulator.Prelude.{Bool, true, false, ◌≡◌, ◌≢◌, ◌⊎◌, some}
use payment_rail_simulator.Payment.{PaymentState}
use payment_rail_simulator.Store.{
  Uuid, UuidText, Payment, Db, Error, unavailable, root, ok, err, find_payment,
}
use payment_rail_simulator.Store.Calm.{calm}
use payment_rail_simulator.Store.Follows.{Follows}
use payment_rail_simulator.Consumers.{Call}

-- The payment with this id stands in another state than `state`.
pub record IsPast (state : PaymentState) (id : UuidText) (db : Db) : Type 0 where
  pub key : Uuid
  pub named : id ≡ some key
  pub payment : Payment
  pub row : find_payment key db ≡ some payment
  pub elsewhere : payment.status ≢ state

-- A transaction that takes a payment out of one state: `Ready` says when it does, and `Done` what it
-- has done then.
pub record TakesFrom {R : Type 0} (state : PaymentState) (call : Call R)
    (is_duplicate : Error → Bool) (Ready : Uuid → UuidText → Db → Type 0)
    (Done : Uuid → UuidText → Db → Db → Type 0) : Type 0 where
  pub retried : is_duplicate unavailable ≡ false
  pub follows : (new_id : Uuid) (id : UuidText) → Follows (call new_id id)
  pub attempt :
      (new_id : Uuid) (id : UuidText) (c w : Db)
      → let v = (call new_id id (calm c w)).1.committed in (v ≡ c) ⊎ Done new_id id c v
  pub ready :
      (new_id : Uuid) (id : UuidText) (c w : Db)
      → Ready new_id id c
      → (r : R) × (v : Db) × (call new_id id (calm c w) ≡ (ok r, calm v v)) × Done new_id id c v
  pub early :
      (new_id : Uuid) (id : UuidText) (c w : Db)
      → IsPast state id c
      → (e : Error) × (call new_id id (calm c w) ≡ (err e, calm c c))
        × (is_duplicate (root e) ≡ true)
  pub moves : (new_id : Uuid) (id : UuidText) (c v : Db) → Done new_id id c v → IsPast state id v
