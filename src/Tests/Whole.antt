-- ===== src/Tests/Whole.antt =====
-- What the theorems on the whole system say of the payment that goes all the way.
use payment_rail_simulator.Payment.{
  awaiting_response, validation_passed, clearing_started, clearing_passed, receiver_accepted,
  settlement_started, settlement_completed, settled,
}
use payment_rail_simulator.System.{submits, clears, next, settles, here}
use payment_rail_simulator.System.Announced.{IsAnnounced, Reach-IsAnnounced}
use payment_rail_simulator.Tests.Data.{
  cleared, submitted, document, account, start, le_zero, to_numeric, settled_db, payment,
}
use payment_rail_simulator.Tests.Way.{cleared_row, whole_way, settled_row}
use payment_rail_simulator.Prelude.{
  inr, false, none, nat_eq, string_eq, arith, ◌≤◌, length, [], ◌∷◌, ◌≡◌, refl, some,
}
use payment_rail_simulator.Settlement.{settle_payment, SettlementResult}
use payment_rail_simulator.Reconciliation.View.{transactions_of}
use payment_rail_simulator.System.Finality.{Holds, Reach-Holds}
use payment_rail_simulator.Prelude.Int.{pos, leb_ℤ, ◌+ℤ◌, ◌-ℤ◌}
use payment_rail_simulator.Prelude.Table.{find}
use payment_rail_simulator.Store.{Db, fits_numeric, ok}
use payment_rail_simulator.Store.Calm.{calm}
use payment_rail_simulator.Validate.{validate_payment}
use payment_rail_simulator.Accounts.{is_usable}
use payment_rail_simulator.Outbox.{has_event}
use payment_rail_simulator.Ledger.{has_ledger_transaction, is_booked}
use payment_rail_simulator.Intake.Columns.{is_blank, fits_varchar, cut, fits_columns}
use payment_rail_simulator.Intake.{is_taken}
use payment_rail_simulator.Intake.Outcomes.{CanStore}
use payment_rail_simulator.Effects.Submits.{stored_row}
use payment_rail_simulator.System.Journey.{journey, journey-HasPaid}
use payment_rail_simulator.System.Journey.Stages.{CanPay}
use payment_rail_simulator.System.Journey.Funds.{HasPaid}
use payment_rail_simulator.Effects.History.{log_of}
use payment_rail_simulator.System.Told.{events_of, log_of-bound}
use payment_rail_simulator.System.Rail.{Course, rail, Reach-Course}
use payment_rail_simulator.Reconciliation.{ReconciliationResponse, reconcile_payment}
use payment_rail_simulator.System.Reconciled.{expected, reconcile_payment-Reach}

reconcile_payment-Reach_example :
    (r : ReconciliationResponse) × (reconcile_payment (some 7) settled_db settled_db ≡ ok r)
    × (r.reconciliation_status ≡ expected settled)
reconcile_payment-Reach_example =
    reconcile_payment-Reach le_zero to_numeric 7 (payment settled) refl refl refl whole_way here
      settled_row

log_of-bound_example :
    (length (log_of 7 settled_db.transition_log) ≤ 6)
    × (settled ≡ settled
        → events_of (log_of 7 settled_db.transition_log)
          ≡ validation_passed ∷ clearing_started ∷ clearing_passed ∷ receiver_accepted
            ∷ settlement_started ∷ settlement_completed ∷ [])
log_of-bound_example =
    log_of-bound le_zero to_numeric 7 (payment settled) refl refl whole_way settled_row

Reach-Course_example : Course (rail start) (rail settled_db)
Reach-Course_example = Reach-Course le_zero to_numeric whole_way

start_valid : validate_payment le_zero document ≡ none
unfolding validate_payment leb_ℤ
start_valid = refl

start_stores : CanStore le_zero to_numeric 7 100 document (pos 2500) start
unfolding fits_numeric leb_ℤ is_blank fits_varchar cut fits_columns is_taken has_event
start_stores = record { converts = refl; fits = refl; free = refl; unused = λ valid. refl }

start_pays : CanPay start (stored_row le_zero to_numeric 7 100 document (pos 2500))
unfolding cut find is_usable leb_ℤ fits_numeric ◌+ℤ◌ ◌-ℤ◌
start_pays = record {
  positive = refl;
  debtor = account "A" "bank1" (pos 10000);
  debtor_row = refl;
  debtor_covers = refl;
  debtor_solvent = omega arith;
  debtor_fits = refl;
  debtor_pays = refl;
  creditor = account "B" "bank2" (pos 50);
  creditor_row = refl;
  creditor_usable = refl;
  creditor_fits = refl;
  two_accounts = refl;
}

new_ids :
    (has_event 101 start.outbox_events ≡ false)
    × (has_event 102 start.outbox_events ≡ false)
    × (has_ledger_transaction 200 start.ledger_transactions ≡ false)
    × (is_booked 7 start.ledger_transactions ≡ false)
unfolding has_event has_ledger_transaction is_booked
new_ids = (refl, refl, refl, refl)

journey-HasPaid_example :
    (r : SettlementResult) × (v : Db) × (journey le_zero to_numeric 7 100 101 102 200 document start
      ≡ (ok r, calm v v))
    × (r.status ≡ settled)
    × HasPaid start (stored_row le_zero to_numeric 7 100 document (pos 2500)) start_pays v
journey-HasPaid_example =
    journey-HasPaid le_zero to_numeric 7 100 101 102 200 document (pos 2500) start start_valid
      start_stores start_pays (new_ids.0) (new_ids.1) refl refl refl (new_ids.2) (new_ids.3)

-- The tables after another call for the settled payment.
abbrev settled_again : Db
settled_again = (settle_payment 201 (some 7) (calm settled_db settled_db)).1.committed

Reach-Holds_example :
    Holds 7
      (payment settled)
      (log_of 7 settled_db.transition_log)
      (transactions_of 7 settled_db.ledger_transactions)
      settled_again
Reach-Holds_example =
    Reach-Holds le_zero to_numeric 7 (payment settled) (inr (inr refl)) settled_row
      (next here (settles 201 (some 7) (calm settled_db settled_db) refl))

Reach-IsAnnounced_example : IsAnnounced awaiting_response 7 cleared.outbox_events
Reach-IsAnnounced_example =
    Reach-IsAnnounced le_zero to_numeric 7 (payment awaiting_response) refl
      (next (next here (submits 7 100 document (calm start start) refl))
        (clears 101 (some 7) (calm submitted submitted) refl))
      cleared_row
