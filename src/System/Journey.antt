-- ===== src/System/Journey.antt =====
-- A payment that is sent by one who can afford it, through all four transactions.
pub mod Stages
pub mod Funds
use payment_rail_simulator.Prelude.{
  Bool, true, false, ◌≡◌, refl, Option, none, some, ◌==◌, nat_eq, string_eq,
}
use payment_rail_simulator.Prelude.Int.{ℤ}
use payment_rail_simulator.Prelude.Table.{update}
use payment_rail_simulator.Payment.{clearing, awaiting_response, accepted, settled}
use payment_rail_simulator.Store.{Uuid, Payment, Db, Result, ok, account_key}
use payment_rail_simulator.Store.Tx.{Session}
use payment_rail_simulator.Store.Calm.{calm}
use payment_rail_simulator.Message.{Document}
use payment_rail_simulator.Validate.{validate_payment}
use payment_rail_simulator.Transition.{with_status}
use payment_rail_simulator.Accounts.{reserve}
use payment_rail_simulator.Outbox.{has_event}
use payment_rail_simulator.Ledger.{has_ledger_transaction, is_booked}
use payment_rail_simulator.Intake.{submit_payment}
use payment_rail_simulator.Intake.Outcomes.{CanStore, stored_tables, submit_payment_at}
use payment_rail_simulator.Clearing.{clear_payment}
use payment_rail_simulator.Clearing.Outcomes.{cleared_tables, clear_payment_at}
use payment_rail_simulator.Receiver.{respond_to_payment}
use payment_rail_simulator.Receiver.Outcomes.{
  IsAwaiting, accepted_tables, respond_to_payment_enters, accept_payment_at,
}
use payment_rail_simulator.Settlement.{SettlementResult, settle_payment}
use payment_rail_simulator.Settlement.Outcomes.{settled_tables, settlement, settle_payment_at}
use payment_rail_simulator.Effects.Submits.{stored_row}
use Stages.{
  CanPay, sent_stands, submit-Stage, submit-has_event, can_clear, clear-Stage, clear-has_event,
  accept-Stage,
}
use Funds.{can_settle, HasPaid, accepted_payment, moved_CanPay, settled-HasPaid}

module _ {F : Type 0} (le_zero : F → Bool) (to_numeric : F → Option ℤ) (id : Uuid)
    (validated_id cleared_id accepted_id ledger_id : Uuid) (doc : Document F) where
  -- The four calls one after the other, over a connection that answers, with the ids of the rows that
  -- they add.
  abbrev pub journey : Db → Result SettlementResult × Session
  journey c =
      let s1 = (submit_payment le_zero to_numeric id validated_id doc (calm c c)).1 in
      let s2 = (clear_payment cleared_id (some id) s1).1 in
      let s3 = (respond_to_payment accepted_id (some id) true "" s2).1 in
      settle_payment ledger_id (some id) s3

  module _ (amount : ℤ) (c : Db) (valid : validate_payment le_zero doc ≡ none)
      (stores : CanStore le_zero to_numeric id validated_id doc amount c)
      (pays : CanPay c (stored_row le_zero to_numeric id validated_id doc amount))
      (cleared_unused : has_event cleared_id c.outbox_events ≡ false)
      (accepted_unused : has_event accepted_id c.outbox_events ≡ false)
      (two_events : (validated_id == cleared_id) ≡ false)
      (other_events : (validated_id == accepted_id) ≡ false)
      (last_events : (cleared_id == accepted_id) ≡ false)
      (ledger_unused : has_ledger_transaction ledger_id c.ledger_transactions ≡ false)
      (unbooked : is_booked id c.ledger_transactions ≡ false) where
    -- A payment that passes the validation, with texts that fit their columns, a new UETR and an amount
    -- that NUMERIC(18,2) can hold, from a debtor whose available funds cover this positive amount and to
    -- a creditor, both with usable accounts which are not the same and in range, no negative amount
    -- reserved on the debtor's, and new, different ids: submitted, cleared, accepted
    -- and settled over connections that answer, it ends as settled, the debtor has paid the amount and
    -- has no more reserved than before, and the creditor has it.
    pub journey-HasPaid :
        (r : SettlementResult) × (v : Db) × (journey c ≡ (ok r, calm v v))
        × (r.status ≡ settled)
        × HasPaid c (stored_row le_zero to_numeric id validated_id doc amount) pays v
    unfolding settlement
    journey-HasPaid =
        let p1 : Payment = stored_row le_zero to_numeric id validated_id doc amount in
        let p2 : Payment = with_status awaiting_response "" (with_status clearing "" p1) in
        let db1 : Db = stored_tables le_zero to_numeric id validated_id doc amount c in
        let db2 : Db = cleared_tables p1 db1 cleared_id in
        let db3 : Db = accepted_tables p2 db2 accepted_id in
        let at1 = submit-Stage le_zero to_numeric id validated_id doc amount c valid stores in
        let free = submit-has_event le_zero to_numeric id validated_id doc amount c valid stores in
        let at2 = clear-Stage c p1 pays db1 at1 cleared_id in
        let can =
          can_clear c p1 pays db1 at1 cleared_id
            (sent_stands le_zero to_numeric id validated_id doc amount c valid stores)
            (free cleared_id cleared_unused two_events) in
        let waits : IsAwaiting p2 db2 = record { row = at2.here; stands_awaiting = refl } in
        let at3 =
          accept-Stage c p2 (update account_key p1.debtor_account (reserve p1.amount) c.accounts)
            db2 at2 accepted_id in
        let settles_at =
          can_settle c (accepted_payment p1) (moved_CanPay c p1 pays) db3 at3 ledger_id refl
            ledger_unused unbooked in
        (
          settlement (accepted_payment p1),
          settled_tables ledger_id (accepted_payment p1) db3,
          rw
              (
                submit_payment_at le_zero to_numeric id validated_id doc amount c c stores,
                clear_payment_at cleared_id p1 db1 db1 can,
                respond_to_payment_enters accepted_id p2 db2 db2 waits true "",
                accept_payment_at accepted_id p2 db2 db2 waits (
                    clear-has_event c p1 pays db1 at1 cleared_id accepted_id
                      (free accepted_id accepted_unused other_events) last_events),
                settle_payment_at ledger_id (accepted_payment p1) db3 db3 settles_at,
              )
              refl,
          refl,
          settled-HasPaid c p1 pays db3 ledger_id at3,
        )
