-- ===== src/System.antt =====
-- The system: requests and workers call the four business transactions in any order, each over a
-- connection of its own. A transaction holds the row locks of what it reads and writes, so calls take
-- effect one after the other.
pub mod Reachable
pub mod Steps
pub mod Finality
pub mod Reconciled
pub mod Told
pub mod Announced
pub mod Rail
pub mod Reads
pub mod Journey
use payment_rail_simulator.Prelude.{String, Bool, Option, ◌≡◌}
use payment_rail_simulator.Prelude.Int.{ℤ}
use payment_rail_simulator.Store.{Uuid, UuidText, Db}
use payment_rail_simulator.Store.Tx.{Session}
use payment_rail_simulator.Message.{Document}
use payment_rail_simulator.Intake.{submit_payment}
use payment_rail_simulator.Clearing.{clear_payment}
use payment_rail_simulator.Receiver.{respond_to_payment}
use payment_rail_simulator.Settlement.{settle_payment}

module _ {F : Type 0} (le_zero : F → Bool) (to_numeric : F → Option ℤ) where
  -- One call, from the tables that are committed before it to those after it.
  pub data Step : Db → Db → Type 0 where
    submits :
        (id event_id : Uuid) (doc : Document F) (s : Session) {u : Db}
        → (submit_payment le_zero to_numeric id event_id doc s).1.committed ≡ u
        → Step s.committed u
    clears :
        (event_id : Uuid) (id : UuidText) (s : Session) {u : Db}
        → (clear_payment event_id id s).1.committed ≡ u
        → Step s.committed u
    responds :
        (event_id : Uuid) (id : UuidText) (yes_or_no : Bool) (reason : String) (s : Session)
        {u : Db}
        → (respond_to_payment event_id id yes_or_no reason s).1.committed ≡ u
        → Step s.committed u
    settles :
        (ledger_id : Uuid) (id : UuidText) (s : Session) {u : Db}
        → (settle_payment ledger_id id s).1.committed ≡ u
        → Step s.committed u

  pub data Reach (start : Db) : Db → Type 0 where
    here : Reach start start
    next : {t u : Db} → Reach start t → Step t u → Reach start u
