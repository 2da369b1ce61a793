-- ===== src/Tests/Runs.antt =====
-- Runs of the model on the data, by evaluation.
use payment_rail_simulator.Prelude.{false, ◌≡◌, refl, [], ◌∷◌, length}
use payment_rail_simulator.Prelude.Int.{pos, ◌+ℤ◌, ◌-ℤ◌, leb_ℤ}
use payment_rail_simulator.Prelude.Table.{find, update}
use payment_rail_simulator.Payment.{
  validated, awaiting_response, accepted, settled, next_payment_state,
}
use payment_rail_simulator.Store.{fits_numeric, ok}
use payment_rail_simulator.Store.Tx.{statement, query, wrap, begin, commit, ◌>>=◌, ◌>>◌}
use payment_rail_simulator.Transition.{
  max_sequence, has_sequence, insert_log_entry, update_status, apply_payment_event_tx,
}
use payment_rail_simulator.Accounts.{is_usable, update_account}
use payment_rail_simulator.Outbox.{
  has_event, insert_outbox_event, record_payment_validated_outbox_tx,
  record_payment_cleared_outbox_tx, record_payment_accepted_outbox_tx,
}
use payment_rail_simulator.Ledger.{
  has_ledger_transaction, is_booked, insert_ledger_transaction, insert_ledger_entries,
  record_ledger_transaction_tx,
}
use payment_rail_simulator.Validate.{validate_payment}
use payment_rail_simulator.Intake.Columns.{is_blank, fits_varchar, cut, fits_columns}
use payment_rail_simulator.Intake.{is_taken, insert_payment, submit_payment}
use payment_rail_simulator.Clearing.{
  complete_clearing, reserve_funds, check_creditor, clear_payment,
}
use payment_rail_simulator.Receiver.{accept_payment, respond_to_payment}
use payment_rail_simulator.Settlement.{move_money, complete_settlement, settle_payment}
use payment_rail_simulator.Store.Calm.{calm}
use payment_rail_simulator.Tests.Data.{
  le_zero, to_numeric, document, start, submitted_answer, account, submitted, cleared, accepted_db,
  settled_db, payment, reserved_accounts,
}

submitted_payments : submitted.payments ≡ payment validated ∷ []
unfolding ◌+ℤ◌ ◌-ℤ◌ leb_ℤ find update next_payment_state fits_numeric statement query wrap begin
    commit ◌>>=◌ ◌>>◌ max_sequence has_sequence insert_log_entry update_status
    apply_payment_event_tx has_event insert_outbox_event record_payment_validated_outbox_tx
    validate_payment is_blank fits_varchar cut fits_columns is_taken insert_payment submit_payment
submitted_payments = refl

pub submitted_result :
    submit_payment le_zero to_numeric 7 100 document (calm start start)
    ≡ (ok submitted_answer, calm submitted submitted)
unfolding ◌+ℤ◌ ◌-ℤ◌ leb_ℤ find update next_payment_state fits_numeric statement query wrap begin
    commit ◌>>=◌ ◌>>◌ max_sequence has_sequence insert_log_entry update_status
    apply_payment_event_tx has_event insert_outbox_event record_payment_validated_outbox_tx
    validate_payment is_blank fits_varchar cut fits_columns is_taken insert_payment submit_payment
submitted_result = refl

pub cleared_payments :
    (cleared.payments ≡ payment awaiting_response ∷ []) × (cleared.accounts ≡ reserved_accounts)
unfolding ◌+ℤ◌ ◌-ℤ◌ leb_ℤ find update next_payment_state fits_numeric statement query wrap begin
    commit ◌>>=◌ ◌>>◌ max_sequence has_sequence insert_log_entry update_status
    apply_payment_event_tx has_event insert_outbox_event record_payment_validated_outbox_tx
    validate_payment is_blank fits_varchar cut fits_columns is_taken insert_payment submit_payment
    is_usable update_account complete_clearing reserve_funds check_creditor clear_payment
    record_payment_cleared_outbox_tx
cleared_payments = (refl, refl)

pub cleared_events :
    (has_event 102 cleared.outbox_events ≡ false) × (has_event 103 cleared.outbox_events ≡ false)
unfolding ◌+ℤ◌ ◌-ℤ◌ leb_ℤ find update next_payment_state fits_numeric statement query wrap begin
    commit ◌>>=◌ ◌>>◌ max_sequence has_sequence insert_log_entry update_status
    apply_payment_event_tx has_event insert_outbox_event record_payment_validated_outbox_tx
    validate_payment is_blank fits_varchar cut fits_columns is_taken insert_payment submit_payment
    is_usable update_account complete_clearing reserve_funds check_creditor clear_payment
    record_payment_cleared_outbox_tx
cleared_events = (refl, refl)

pub accepted_payments :
    (accepted_db.payments ≡ payment accepted ∷ [])
    × (accepted_db.ledger_transactions ≡ [])
    × (accepted_db.accounts ≡ reserved_accounts)
unfolding ◌+ℤ◌ ◌-ℤ◌ leb_ℤ find update next_payment_state fits_numeric statement query wrap begin
    commit ◌>>=◌ ◌>>◌ max_sequence has_sequence insert_log_entry update_status
    apply_payment_event_tx has_event insert_outbox_event record_payment_validated_outbox_tx
    validate_payment is_blank fits_varchar cut fits_columns is_taken insert_payment submit_payment
    is_usable update_account complete_clearing reserve_funds check_creditor clear_payment
    record_payment_cleared_outbox_tx accept_payment respond_to_payment
    record_payment_accepted_outbox_tx
accepted_payments = (refl, refl, refl)

pub settled_payments :
    (settled_db.payments ≡ payment settled ∷ [])
    × (settled_db.accounts ≡ account "A" "bank1" (pos 7500) ∷ account "B" "bank2" (pos 2550) ∷ [])
    × (length settled_db.transition_log ≡ 6)
    × (length settled_db.ledger_entries ≡ 2)
    × (length settled_db.outbox_events ≡ 3)
unfolding ◌+ℤ◌ ◌-ℤ◌ leb_ℤ find update next_payment_state fits_numeric statement query wrap begin
    commit ◌>>=◌ ◌>>◌ max_sequence has_sequence insert_log_entry update_status
    apply_payment_event_tx has_event insert_outbox_event record_payment_validated_outbox_tx
    validate_payment is_blank fits_varchar cut fits_columns is_taken insert_payment submit_payment
    is_usable update_account complete_clearing reserve_funds check_creditor clear_payment
    record_payment_cleared_outbox_tx accept_payment respond_to_payment
    record_payment_accepted_outbox_tx has_ledger_transaction is_booked insert_ledger_transaction
    insert_ledger_entries record_ledger_transaction_tx move_money complete_settlement settle_payment
settled_payments = (refl, refl, refl, refl, refl)
