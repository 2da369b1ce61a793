-- ===== src/Clearing.antt =====
-- clearing.go: `clearPayment` checks the creditor's account, reserves the debtor's funds and puts
-- the payment before the receiver. A failed check is recorded, and commits.
pub mod Faults
pub mod Outcomes
pub mod Ends
use payment_rail_simulator.Prelude.{String, Bool, true, false, Option, none, some}
use payment_rail_simulator.Prelude.Int.{ℤ}
use payment_rail_simulator.Payment.{
  PaymentState, clearing_started, clearing_passed, clearing_failed, is_validated,
}
use payment_rail_simulator.Store.{
  Uuid, UuidText, Payment, payment_not_found, payment_not_validated, find_payment, find_account,
}
use payment_rail_simulator.Store.Tx.{
  Tx, pure, statement, query, wrap, guard, or_error, select_by_text, require_row, ◌>>=◌, ◌>>◌,
  begin, commit,
}
use payment_rail_simulator.Transition.{apply_payment_event_tx}
use payment_rail_simulator.Accounts.{is_usable_row, can_reserve, reserve, update_account}
use payment_rail_simulator.Outbox.{record_payment_cleared_outbox_tx}

pub record ClearPaymentResponse : Type 0 where
  pub id : UuidText
  pub status : PaymentState
  pub debtor_account : String
  pub creditor_account : String
  pub debtor_agent : String
  pub creditor_agent : String
  pub amount : ℤ
  pub currency : String
  pub message : String

abbrev pub response : UuidText → Payment → PaymentState → String → ClearPaymentResponse
response id p final message = record {
  id = id;
  status = final;
  debtor_account = p.debtor_account;
  creditor_account = p.creditor_account;
  debtor_agent = p.debtor_agent;
  creditor_agent = p.creditor_agent;
  amount = p.amount;
  currency = p.currency;
  message = message;
}

-- A failed check: the payment fails, the reservation is not made, and the transaction commits.
unfoldable pub refuse_clearing : UuidText → Payment → String → Tx ClearPaymentResponse
refuse_clearing id p reason = do
  final ←
      wrap "failed to record clearing failure" (apply_payment_event_tx p.id clearing_failed reason)
  wrap "failed to commit clearing failure" commit
  pure (response id p final reason)

unfoldable pub complete_clearing : Uuid → UuidText → Payment → Tx ClearPaymentResponse
complete_clearing event_id id p = do
  final ← wrap "failed to complete clearing" (apply_payment_event_tx p.id clearing_passed "")
  wrap "failed to record payment cleared event" (record_payment_cleared_outbox_tx event_id p.id)
  wrap "failed to commit clearing" commit
  pure (response id p final "payment cleared and forwarded to the receiver bank")

-- On the row that the reservation has returned, or on `pgx.ErrNoRows`.
abbrev pub after_reservation : Uuid → UuidText → Payment → Option String → Tx ClearPaymentResponse
after_reservation event_id id p none =
    refuse_clearing id p "debtor account has insufficient available funds or is inactive"
after_reservation event_id id p (some account_id) = complete_clearing event_id id p

unfoldable pub reserve_funds : Uuid → UuidText → Payment → Tx ClearPaymentResponse
reserve_funds event_id id p = do
  reserved ← wrap "failed to reserve debtor funds" (
      statement (
        update_account p.debtor_account (can_reserve p.debtor_agent p.currency p.amount)
          (reserve p.amount)))
  after_reservation event_id id p reserved

-- `if !creditorExists { … }`
abbrev pub after_creditor : Uuid → UuidText → Payment → Bool → Tx ClearPaymentResponse
after_creditor event_id id p false =
    refuse_clearing id p "creditor account does not exist or is inactive"
after_creditor event_id id p true = reserve_funds event_id id p

unfoldable pub check_creditor : Uuid → UuidText → Payment → Tx ClearPaymentResponse
check_creditor event_id id p = do
  creditor_exists ← wrap "failed to check creditor account" (
      query (λ db.
        some (is_usable_row p.creditor_agent p.currency (find_account p.creditor_account db))))
  exists ← require_row creditor_exists
  after_creditor event_id id p exists

-- `event_id` is the id that the outbox row gets.
unfoldable pub clear_payment : Uuid → UuidText → Tx ClearPaymentResponse
clear_payment event_id id = do
  wrap "failed to start clearing transaction" begin
  row ← wrap "failed to read payment" (statement (select_by_text find_payment id))
  p ← or_error payment_not_found row
  guard (is_validated p.status) payment_not_validated
  wrap "failed to start clearing" (apply_payment_event_tx p.id clearing_started "")
  check_creditor event_id id p
