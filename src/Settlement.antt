-- ===== src/Settlement.antt =====
-- settlement.go: `settlePayment` books the payment in the ledger and moves the money, in one
-- transaction.
pub mod Faults
pub mod Outcomes
pub mod Ends
use payment_rail_simulator.Prelude.{String}
use payment_rail_simulator.Prelude.Int.{ℤ}
use payment_rail_simulator.Payment.{
  PaymentState, settlement_started, settlement_completed, is_accepted,
}
use payment_rail_simulator.Store.{
  Uuid, UuidText, Payment, payment_not_found, payment_not_accepted, find_payment,
}
use payment_rail_simulator.Store.Tx.{
  Tx, pure, statement, wrap, guard, or_error, select_by_text, require_row, ◌>>=◌, ◌>>◌, begin,
  commit,
}
use payment_rail_simulator.Transition.{apply_payment_event_tx}
use payment_rail_simulator.Accounts.{is_usable, can_take, take_reserved, deposit, update_account}
use payment_rail_simulator.Ledger.{record_ledger_transaction_tx}

pub record SettlementResult : Type 0 where
  pub id : UuidText
  pub status : PaymentState
  pub amount : ℤ
  pub currency : String
  pub message : String

-- The debtor's balance and reservation go down, the creditor's balance goes up. No row is an error.
unfoldable pub move_money : Payment → Tx (Unit {0})
move_money p = do
  debited ← wrap "failed to debit debtor account" (
      statement (
        update_account p.debtor_account (can_take p.debtor_agent p.currency p.amount)
          (take_reserved p.amount)))
  wrap "failed to debit debtor account" (require_row debited)
  credited ← wrap "failed to credit creditor account" (
      statement (
        update_account p.creditor_account (is_usable p.creditor_agent p.currency)
          (deposit p.amount)))
  wrap "failed to credit creditor account" (require_row credited)
  pure tt

unfoldable pub complete_settlement : UuidText → Payment → Tx SettlementResult
complete_settlement id p = do
  final ← wrap "failed to complete settlement" (apply_payment_event_tx p.id settlement_completed "")
  wrap "failed to commit settlement" commit
  pure (record {
    id = id;
    status = final;
    amount = p.amount;
    currency = p.currency;
    message = "payment settled successfully";
  })

-- `ledger_id` is the id that the row in ledger_transactions gets.
unfoldable pub settle_payment : Uuid → UuidText → Tx SettlementResult
settle_payment ledger_id id = do
  wrap "failed to start settlement transaction" begin
  row ← wrap "failed to read payment" (statement (select_by_text find_payment id))
  p ← or_error payment_not_found row
  guard (is_accepted p.status) payment_not_accepted
  wrap "failed to start settlement" (apply_payment_event_tx p.id settlement_started "")
  wrap "failed to record ledger transaction" (
      record_ledger_transaction_tx ledger_id p.id p.debtor_account p.creditor_account p.amount
        p.currency)
  move_money p
  complete_settlement id p
