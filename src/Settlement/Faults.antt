-- ===== src/Settlement/Faults.antt =====
-- `settlePayment` over a connection that loses replies.
use payment_rail_simulator.Prelude.{String}
use payment_rail_simulator.Prelude.Int.{ℤ}
use payment_rail_simulator.Store.{Uuid, UuidText, Payment}
use payment_rail_simulator.Store.Follows.{Body, Follows, body_rules, follows_rules}
use payment_rail_simulator.Transition.Steps.{Body-apply_payment_event_tx}
use payment_rail_simulator.Ledger.{record_ledger_transaction_tx}
use payment_rail_simulator.Settlement.{move_money, complete_settlement, settle_payment}

Body-record_ledger_transaction_tx :
    (ledger_id payment_id : Uuid) (debtor creditor : String) (amount : ℤ) (currency : String)
    → Body (record_ledger_transaction_tx ledger_id payment_id debtor creditor amount currency)
unfolding record_ledger_transaction_tx
Body-record_ledger_transaction_tx ledger_id payment_id debtor creditor amount currency =
    search body_rules depth 30

Body-move_money : (p : Payment) → Body (move_money p)
unfolding move_money
Body-move_money p = search body_rules depth 30

complete_settlement-Follows : (id : UuidText) (p : Payment) → Follows (complete_settlement id p)
unfolding complete_settlement
complete_settlement-Follows id p = search (follows_rules, Body-apply_payment_event_tx) depth 30

-- A call of settlePayment over a connection that loses replies has the result and the tables of the
-- same call over one that answers; or it returns the error of a lost reply, and the committed tables
-- are those from before the call, or those of the whole call.
pub settle_payment-Follows :
    (ledger_id : Uuid) (id : UuidText) → Follows (settle_payment ledger_id id)
unfolding settle_payment
settle_payment-Follows ledger_id id =
    search
      (
        follows_rules, Body-apply_payment_event_tx, Body-record_ledger_transaction_tx,
        Body-move_money, complete_settlement-Follows,
      )
      depth 30
