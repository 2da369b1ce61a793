-- ===== src/Tests/Examples.antt =====
-- The theorems at inputs that meet their hypotheses.
use payment_rail_simulator.Tests.Way.{rounds, IsFresh-accounts, whole_way, settled_row}
use payment_rail_simulator.Prelude.{
  String, ◌≡◌, ◌≢◌, ◌≤◌, ◌⊎◌, ◌↔◌, refl, true, false, some, none, List, [], ◌∷◌, arith, length,
  string_eq, eq_iff,
}
use payment_rail_simulator.Prelude.Int.{pos, leb_ℤ, ◌+ℤ◌}
use payment_rail_simulator.Prelude.Table.{find}
use payment_rail_simulator.Payment.{
  received, accepted, settled, validation_passed, clearing_started, clearing_passed,
  receiver_accepted, settlement_started, settlement_completed, PaymentEvent, next_payment_state,
}
use payment_rail_simulator.Payment.Machine.{Run, done, step, Run-ends, settled_path}
use payment_rail_simulator.Store.{
  Account, ok, find_payment, find_account, fits_numeric, account_key,
}
use payment_rail_simulator.Store.Calm.{calm, Failed}
use payment_rail_simulator.Store.Tx.{unacked}
use payment_rail_simulator.Store.Follows.{Follows}
use payment_rail_simulator.Transition.{apply_payment_event}
use payment_rail_simulator.Transition.Steps.{apply_payment_event-Follows}
use payment_rail_simulator.Accounts.{is_usable, deposit, fits_row}
use payment_rail_simulator.Ledger.{has_ledger_transaction, is_booked}
use payment_rail_simulator.Validate.{validate_payment}
use payment_rail_simulator.Validate.Rules.{IsAcceptable, validate_payment_exact}
use payment_rail_simulator.Intake.{submit_payment}
use payment_rail_simulator.Intake.Outcomes.{submit_payment-Follows}
use payment_rail_simulator.Intake.Ends.{Stores, submit_payment_ends}
use payment_rail_simulator.Clearing.{clear_payment}
use payment_rail_simulator.Clearing.Faults.{clear_payment-Follows}
use payment_rail_simulator.Clearing.Ends.{Refuses, Clears, clear_payment_ends}
use payment_rail_simulator.Receiver.{respond_to_payment}
use payment_rail_simulator.Receiver.Faults.{respond_to_payment-Follows}
use payment_rail_simulator.Receiver.Ends.{Answers, respond_to_payment_ends}
use payment_rail_simulator.Settlement.{settle_payment}
use payment_rail_simulator.Settlement.Faults.{settle_payment-Follows}
use payment_rail_simulator.Settlement.Outcomes.{settled_tables, settlement}
use payment_rail_simulator.Settlement.Ends.{Settles, settle_payment_ends}
use payment_rail_simulator.Reconciliation.{ReconciliationResponse, reconcile_payment}
use payment_rail_simulator.Reconciliation.Verdicts.{Verdict, reconcile_payment-Verdict}
use payment_rail_simulator.System.Reachable.{fresh-Backs, Reach-IsBacked}
use payment_rail_simulator.Books.{IsBacked}
use payment_rail_simulator.Books.Operations.{clear_payment-IsBacked, respond_to_payment-IsBacked}
use payment_rail_simulator.Books.Stores.{submit_payment-IsBacked}
use payment_rail_simulator.Books.Totals.{total_balance, money_is_conserved}
use payment_rail_simulator.Books.Covers.{FitsColumns, accepted_always_settles}
use payment_rail_simulator.Tests.Data.{
  le_zero, to_numeric, account, with_reserved, accounts, reserved_accounts, start, document,
  submitted, cleared, accepted_db, settled_db, flaky, payment,
}
use payment_rail_simulator.Tests.Runs.{accepted_payments}

-- A payment is submitted, cleared, accepted and settled.
Reach-IsBacked_example : IsBacked settled_db
Reach-IsBacked_example = Reach-IsBacked le_zero to_numeric rounds IsFresh-accounts refl whole_way

money_is_conserved_example :
    (total_balance (clear_payment 200 (some 7) (flaky accepted_db unacked)).1.committed.accounts
      ≡ total_balance accepted_db.accounts)
    × (total_balance
          (respond_to_payment 200 (some 7) true "" (flaky accepted_db unacked)).1.committed.accounts
        ≡ total_balance accepted_db.accounts)
    × (total_balance (settle_payment 200 (some 7) (flaky accepted_db unacked)).1.committed.accounts
        ≡ total_balance accepted_db.accounts)
money_is_conserved_example = money_is_conserved 200 (some 7) true "" (flaky accepted_db unacked)

-- Each transaction at the payment that is ready for it.
settle_payment-Follows_example : Follows (settle_payment 200 (some 7))
settle_payment-Follows_example = settle_payment-Follows 200 (some 7)

clear_payment-Follows_example : Follows (clear_payment 101 (some 7))
clear_payment-Follows_example = clear_payment-Follows 101 (some 7)

respond_to_payment-Follows_example :
    Follows (respond_to_payment 102 (some 7) false "no such customer")
respond_to_payment-Follows_example =
    respond_to_payment-Follows 102 (some 7) false "no such customer"

submit_payment-Follows_example : Follows (submit_payment le_zero to_numeric 7 100 document)
submit_payment-Follows_example = submit_payment-Follows le_zero to_numeric 7 100 document

apply_payment_event-Follows_example : Follows (apply_payment_event 7 clearing_started "")
apply_payment_event-Follows_example = apply_payment_event-Follows 7 clearing_started ""

settle_payment_ends_example :
    let r = settle_payment 200 (some 7) (calm accepted_db accepted_db) in
    Failed accepted_db r ⊎ Settles 200 (some 7) accepted_db r
settle_payment_ends_example = settle_payment_ends 200 accepted_db accepted_db (some 7)

clear_payment_ends_example :
    let r = clear_payment 101 (some 7) (calm submitted submitted) in
    Failed submitted r ⊎ Refuses (some 7) submitted r ⊎ Clears 101 (some 7) submitted r
clear_payment_ends_example = clear_payment_ends 101 submitted submitted (some 7)

respond_to_payment_ends_example :
    let r = respond_to_payment 102 (some 7) false "no such customer" (calm cleared cleared) in
    Failed cleared r ⊎ Answers false "no such customer" 102 (some 7) cleared r
respond_to_payment_ends_example =
    respond_to_payment_ends 102 cleared cleared "no such customer" false (some 7)

submit_payment_ends_example :
    Failed start (submit_payment le_zero to_numeric 7 100 document (calm start start))
    ⊎ Stores le_zero to_numeric 7 100 document start start
submit_payment_ends_example = submit_payment_ends le_zero to_numeric 7 100 document start start

-- The stages of the run are backed, and their accounts fit their columns.
submitted-IsBacked : IsBacked submitted
submitted-IsBacked =
    submit_payment-IsBacked le_zero to_numeric rounds 7 100 document (calm start start)
      (fresh-Backs accounts IsFresh-accounts)

cleared-IsBacked : IsBacked cleared
cleared-IsBacked = clear_payment-IsBacked 101 (some 7) (calm submitted submitted) submitted-IsBacked

accepted_db-IsBacked : IsBacked accepted_db
accepted_db-IsBacked =
    respond_to_payment-IsBacked 102 (some 7) true "" (calm cleared cleared) cleared-IsBacked

reserved_fits :
    (k : String) (a : Account) → find account_key k reserved_accounts ≡ some a → fits_row a ≡ true
unfolding find fits_numeric leb_ℤ
reserved_fits k a h = ground arith

accepted_db_fits : FitsColumns accepted_db
accepted_db_fits = record { row = rw (accepted_payments.2) reserved_fits }

accepted_row : find_payment 7 accepted_db ≡ some (payment accepted)
unfolding find
accepted_row = rw (accepted_payments.0) refl

debtor_row :
    find_account "A" accepted_db ≡ some (with_reserved (pos 2500) (account "A" "bank1" (pos 10000)))
unfolding find
debtor_row = rw (accepted_payments.2) refl

creditor_row : find_account "B" accepted_db ≡ some (account "B" "bank2" (pos 50))
unfolding find
creditor_row = rw (accepted_payments.2) refl

creditor_usable : is_usable "bank2" "USD" (account "B" "bank2" (pos 50)) ≡ true
unfolding is_usable
creditor_usable = refl

creditor_fits : fits_row (deposit (pos 2500) (account "B" "bank2" (pos 50))) ≡ true
unfolding ◌+ℤ◌ fits_numeric leb_ℤ
creditor_fits = refl

unbooked :
    (has_ledger_transaction 200 accepted_db.ledger_transactions ≡ false)
    × (is_booked 7 accepted_db.ledger_transactions ≡ false)
unfolding has_ledger_transaction is_booked
unbooked = rw (accepted_payments.1) (refl, refl)

positive : leb_ℤ (pos 2500) (pos 0) ≡ false
unfolding leb_ℤ
positive = refl

two_accounts : (payment accepted).debtor_account ≢ (payment accepted).creditor_account
two_accounts h =
    let p = payment accepted in
    let e = (eq_iff p.debtor_account p.creditor_account).1 h in ground (arith, e)

accepted_always_settles_example :
    let p = payment accepted in
    settle_payment 200 (some 7) (calm accepted_db accepted_db) ≡ (
      ok (settlement p),
      calm (settled_tables 200 p accepted_db) (settled_tables 200 p accepted_db),
    )
accepted_always_settles_example =
    accepted_always_settles (payment accepted) accepted_db accepted_db-IsBacked accepted_db_fits
      accepted_row refl debtor_row refl creditor_row creditor_usable creditor_fits two_accounts 200
      accepted_db positive unbooked.0 unbooked.1

validate_payment_exact_example :
    (validate_payment le_zero document ≡ none)
    ↔ IsAcceptable le_zero document.fi_to_fi_cstmr_cdt_trf.cdt_trf_tx_inf
validate_payment_exact_example = validate_payment_exact le_zero document

reconcile_payment-Verdict_example :
    (r : ReconciliationResponse) × (reconcile_payment (some 7) settled_db settled_db ≡ ok r)
    × ((r.payment_status ≡ settled) × (r.amount ≡ pos 2500) × (r.currency ≡ "USD"))
    × Verdict settled r.reconciliation_status (payment settled) settled_db
reconcile_payment-Verdict_example =
    reconcile_payment-Verdict 7 (payment settled) settled_db settled_db settled_row

happy-Run :
    Run received
      (validation_passed ∷ clearing_started ∷ clearing_passed ∷ receiver_accepted
        ∷ settlement_started ∷ settlement_completed ∷ [])
      settled
unfolding next_payment_state
happy-Run = step _ refl (step _ refl (step _ refl (step _ refl (step _ refl (step _ refl done)))))

abbrev happy_events : List PaymentEvent
happy_events =
    validation_passed ∷ clearing_started ∷ clearing_passed ∷ receiver_accepted ∷ settlement_started
    ∷ settlement_completed ∷ []

Run-ends_example : (length happy_events ≤ 6) × (received ≡ settled → happy_events ≡ [])
Run-ends_example = Run-ends happy-Run

settled_path_example : happy_events ≡ (
    validation_passed ∷ clearing_started ∷ clearing_passed ∷ receiver_accepted ∷ settlement_started
    ∷ settlement_completed ∷ [])
settled_path_example = settled_path happy-Run
