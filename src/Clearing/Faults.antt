-- ===== src/Clearing/Faults.antt =====
-- `clearPayment` over a connection that loses replies.
use payment_rail_simulator.Prelude.{Bool, true, false, Option, none, some, String}
use payment_rail_simulator.Store.{Uuid, UuidText, Payment}
use payment_rail_simulator.Store.Follows.{Body, Follows, body_rules, follows_rules}
use payment_rail_simulator.Transition.Steps.{Body-apply_payment_event_tx}
use payment_rail_simulator.Outbox.{record_payment_cleared_outbox_tx}
use payment_rail_simulator.Clearing.{
  refuse_clearing, complete_clearing, after_reservation, reserve_funds, after_creditor,
  check_creditor, clear_payment,
}

Body-record_payment_cleared :
    (event_id payment_id : Uuid) → Body (record_payment_cleared_outbox_tx event_id payment_id)
unfolding record_payment_cleared_outbox_tx
Body-record_payment_cleared event_id payment_id = search body_rules

refuse_clearing-Follows :
    (id : UuidText) (p : Payment) (reason : String) → Follows (refuse_clearing id p reason)
unfolding refuse_clearing
refuse_clearing-Follows id p reason = search (follows_rules, Body-apply_payment_event_tx) depth 30

module _ (event_id : Uuid) (id : UuidText) where
  complete_clearing-Follows : (p : Payment) → Follows (complete_clearing event_id id p)
  unfolding complete_clearing
  complete_clearing-Follows p =
      search (follows_rules, Body-apply_payment_event_tx, Body-record_payment_cleared) depth 30

  after_reservation-Follows :
      (p : Payment) (row : Option String) → Follows (after_reservation event_id id p row)
  after_reservation-Follows p none = refuse_clearing-Follows id p _
  after_reservation-Follows p (some account_id) = complete_clearing-Follows p

  reserve_funds-Follows : (p : Payment) → Follows (reserve_funds event_id id p)
  unfolding reserve_funds
  reserve_funds-Follows p = search (follows_rules, after_reservation-Follows) depth 30

  after_creditor-Follows :
      (p : Payment) (exists : Bool) → Follows (after_creditor event_id id p exists)
  after_creditor-Follows p false = refuse_clearing-Follows id p _
  after_creditor-Follows p true = reserve_funds-Follows p

  check_creditor-Follows : (p : Payment) → Follows (check_creditor event_id id p)
  unfolding check_creditor
  check_creditor-Follows p = search (follows_rules, after_creditor-Follows) depth 30

  -- A call of clearPayment over a connection that loses replies has the result and the tables of the
  -- same call over one that answers; or it returns the error of a lost reply, and the committed
  -- tables are those from before the call, or those of the whole call.
  pub clear_payment-Follows : Follows (clear_payment event_id id)
  unfolding clear_payment
  clear_payment-Follows =
      search (follows_rules, Body-apply_payment_event_tx, check_creditor-Follows) depth 30
