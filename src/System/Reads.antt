-- ===== src/System/Reads.antt =====
-- What the ledger and the transition log of reached tables show over HTTP.
use mathlib.Core.List.{map}
use payment_rail_simulator.Prelude.{
  Bool, false, List, ◌≡◌, ◌≢◌, subst, String, Option, some, [], ◌==◌, string_eq,
}
use payment_rail_simulator.Prelude.Int.{ℤ}
use payment_rail_simulator.Payment.{received}
use payment_rail_simulator.Store.{Uuid, UuidText, Payment, Db, find_payment}
use payment_rail_simulator.Store.Tx.{answered}
use payment_rail_simulator.Handlers.{json_answer}
use payment_rail_simulator.Effects.History.{log_of, Chain, ToldAt}
use payment_rail_simulator.Queries.Booking.{handle_get_ledger, LedgerShows, asked-LedgerShows}
use payment_rail_simulator.Queries.Log.{
  TransitionLogEntry, log_row, Shows, map-Shows, handle_get_transition_log, log_asked-Chain,
}
use payment_rail_simulator.System.{Reach}
use payment_rail_simulator.System.Reconciled.{Reach-IsBalanced}
use payment_rail_simulator.System.Told.{Reach-ToldAt}

module _ {F : Type 0} (le_zero : F → Bool) (to_numeric : F → Option ℤ) (to_uuid : String → UuidText)
    (text : String) (id : Uuid) where
  -- Start with no payments and no rows in the ledger. After any calls of the four transactions, in any
  -- order and with any replies lost, a GET of the ledger with the text of a payment id, answered from these
  -- tables over a connection that answers, shows of a settled payment one booking in its currency,
  -- with a debit of its debtor and a credit of its creditor, each of its amount; of any other
  -- payment, and of an id without a payment, it answers 404.
  pub handle_get_ledger-LedgerShows :
      {start db : Db}
      → (text == "") ≡ false
      → to_uuid text ≡ some id
      → start.payments ≡ []
      → start.ledger_transactions ≡ []
      → start.ledger_entries ≡ []
      → Reach le_zero to_numeric start db
      → LedgerShows text
          (handle_get_ledger to_uuid "GET" text answered answered db db)
          (find_payment id db)
  handle_get_ledger-LedgerShows {db = db} named cast no_payments no_ts no_es way =
      let balanced = Reach-IsBalanced le_zero to_numeric no_payments no_ts no_es way in
      asked-LedgerShows to_uuid text id db named cast (find_payment id db) (balanced.at id)

  -- Start with no payments and an empty transition log. After any calls of the four transactions, in
  -- any order and with any replies lost, a GET of the transition log with the text of the id of a
  -- payment that has left "received", over a connection that answers, gives back all of its rows in
  -- order, each with its number, both of its states, its event and its reason, and these are a run of
  -- the state machine from "received" to the status of the payment, numbered from 1 on without a gap.
  pub handle_get_transition_log-Chain :
      {start db : Db} (p : Payment)
      → (text == "") ≡ false
      → to_uuid text ≡ some id
      → start.payments ≡ []
      → start.transition_log ≡ []
      → Reach le_zero to_numeric start db
      → find_payment id db ≡ some p
      → p.status ≢ received
      → let xs = log_of id db.transition_log in
        (ys : List TransitionLogEntry) × (handle_get_transition_log to_uuid "GET" text answered db
          ≡ json_answer 200 ys)
        × Shows xs ys
        × Chain 1 received xs p.status
  handle_get_transition_log-Chain {db = db} p named cast no_payments no_log way row moved =
      let told : ToldAt db.transition_log id (some p) =
        subst (ToldAt db.transition_log id) row
          (Reach-ToldAt le_zero to_numeric id no_payments no_log way) in
      (
        map log_row (log_of id db.transition_log),
        log_asked-Chain to_uuid text id db named cast p.status moved told.0,
        map-Shows (log_of id db.transition_log),
        told.0,
      )
