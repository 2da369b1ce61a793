-- ===== src/Receiver.antt =====
-- receiver.go: `respondToPayment` records the receiving bank's answer. An acceptance is put before
-- settlement; a rejection gives the reserved funds back.
pub mod Faults
pub mod Outcomes
pub mod Ends
use payment_rail_simulator.Prelude.{
  String, Bool, true, false, Option, none, some, ◌==◌, string_eq, if◌then◌else◌,
}
use payment_rail_simulator.Payment.{
  PaymentState, receiver_accepted, receiver_rejected, is_awaiting_response,
}
use payment_rail_simulator.Store.{
  Uuid, UuidText, Payment, payment_not_found, payment_not_awaiting_response, find_payment,
}
use payment_rail_simulator.Store.Tx.{
  Tx, pure, statement, wrap, guard, or_error, select_by_text, require_row, ◌>>=◌, ◌>>◌, begin,
  commit,
}
use payment_rail_simulator.Transition.{apply_payment_event_tx}
use payment_rail_simulator.Accounts.{can_release, release, update_account}
use payment_rail_simulator.Outbox.{record_payment_accepted_outbox_tx}

pub record ReceiverPaymentResult : Type 0 where
  pub id : UuidText
  pub status : PaymentState
  pub message : String

unfoldable pub accept_payment : Uuid → UuidText → Payment → Tx ReceiverPaymentResult
accept_payment event_id id p = do
  final ← wrap "failed to accept payment" (apply_payment_event_tx p.id receiver_accepted "")
  wrap "failed to record payment accepted event" (record_payment_accepted_outbox_tx event_id p.id)
  wrap "failed to commit receiver acceptance" commit
  pure (record { id = id; status = final; message = "receiver accepted payment" })

-- if reason == "" { reason = "receiver rejected payment" }
unfoldable pub stated_reason : String → String
stated_reason reason = if reason == "" then "receiver rejected payment" else reason

unfoldable pub reject_payment : UuidText → Payment → String → Tx ReceiverPaymentResult
reject_payment id p reason = do
  final ← wrap "failed to reject payment" (apply_payment_event_tx p.id receiver_rejected reason)
  released ← wrap "failed to release reserved funds" (
      statement (
        update_account p.debtor_account (can_release p.debtor_agent p.currency p.amount)
          (release p.amount)))
  wrap "failed to release reserved funds" (require_row released)
  wrap "failed to commit receiver rejection" commit
  pure (record { id = id; status = final; message = reason })

abbrev pub answer_payment : Uuid → UuidText → Payment → Bool → String → Tx ReceiverPaymentResult
answer_payment event_id id p true reason = accept_payment event_id id p
answer_payment event_id id p false reason = reject_payment id p (stated_reason reason)

-- `event_id` is the id that the outbox row gets.
unfoldable pub respond_to_payment : Uuid → UuidText → Bool → String → Tx ReceiverPaymentResult
respond_to_payment event_id id accepted reason = do
  wrap "failed to start receiver transaction" begin
  row ← wrap "failed to read payment" (statement (select_by_text find_payment id))
  p ← or_error payment_not_found row
  guard (is_awaiting_response p.status) payment_not_awaiting_response
  answer_payment event_id id p accepted reason
