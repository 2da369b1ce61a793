-- ===== src/Receiver/Faults.antt =====
-- `respondToPayment` over a connection that loses replies.
use payment_rail_simulator.Prelude.{Bool, true, false, String}
use payment_rail_simulator.Store.{Uuid, UuidText, Payment}
use payment_rail_simulator.Store.Follows.{Body, Follows, body_rules, follows_rules}
use payment_rail_simulator.Transition.Steps.{Body-apply_payment_event_tx}
use payment_rail_simulator.Outbox.{record_payment_accepted_outbox_tx}
use payment_rail_simulator.Receiver.{
  accept_payment, reject_payment, stated_reason, answer_payment, respond_to_payment,
}

Body-record_payment_accepted :
    (event_id payment_id : Uuid) → Body (record_payment_accepted_outbox_tx event_id payment_id)
unfolding record_payment_accepted_outbox_tx
Body-record_payment_accepted event_id payment_id = search body_rules

module _ (event_id : Uuid) (id : UuidText) where
  accept_payment-Follows : (p : Payment) → Follows (accept_payment event_id id p)
  unfolding accept_payment
  accept_payment-Follows p =
      search (follows_rules, Body-apply_payment_event_tx, Body-record_payment_accepted) depth 30

  reject_payment-Follows : (p : Payment) (reason : String) → Follows (reject_payment id p reason)
  unfolding reject_payment
  reject_payment-Follows p reason = search (follows_rules, Body-apply_payment_event_tx) depth 30

  answer_payment-Follows :
      (p : Payment) (accepted : Bool) (reason : String)
      → Follows (answer_payment event_id id p accepted reason)
  answer_payment-Follows p true reason = accept_payment-Follows p
  answer_payment-Follows p false reason = reject_payment-Follows p (stated_reason reason)

  -- A call of respondToPayment over a connection that loses replies has the result and the tables of
  -- the same call over one that answers; or it returns the error of a lost reply, and the committed
  -- tables are those from before the call, or those of the whole call.
  pub respond_to_payment-Follows :
      (accepted : Bool) (reason : String) → Follows (respond_to_payment event_id id accepted reason)
  unfolding respond_to_payment
  respond_to_payment-Follows accepted reason =
      search (follows_rules, answer_payment-Follows) depth 30
