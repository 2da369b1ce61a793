-- ===== src/Effects/Calls.antt =====
-- The effect of each call, whatever replies are lost.
use payment_rail_simulator.Prelude.{String, Bool, true, false, refl, inl, inr, nat_eq}
use payment_rail_simulator.Prelude.Table.{update-update}
use payment_rail_simulator.Payment.{
  validated, clearing, awaiting_response, failed, accepted, settling, settled, clearing_started,
  clearing_passed, clearing_failed, receiver_accepted, receiver_rejected, settlement_started,
  settlement_completed, next_payment_state,
}
use payment_rail_simulator.Store.{Uuid, UuidText, Payment, Db, payment_key}
use payment_rail_simulator.Store.Tx.{Session}
use payment_rail_simulator.Store.Calm.{calm, committed-Failed}
use payment_rail_simulator.Store.Follows.{keeps-Follows}
use payment_rail_simulator.Transition.{with_status}
use payment_rail_simulator.Transition.Steps.{advanced}
use payment_rail_simulator.Ledger.Entries.{booked}
use payment_rail_simulator.Clearing.{clear_payment}
use payment_rail_simulator.Clearing.Outcomes.{
  IsChecked, CanClear, entered_tables, reserved_tables, passed_tables, refused_tables,
  cleared_tables,
}
use payment_rail_simulator.Clearing.Ends.{clear_payment_ends}
use payment_rail_simulator.Clearing.Faults.{clear_payment-Follows}
use payment_rail_simulator.Receiver.{respond_to_payment, stated_reason}
use payment_rail_simulator.Receiver.Outcomes.{
  IsAwaiting, agreed_tables, accepted_tables, declined_tables, rejected_tables,
}
use payment_rail_simulator.Receiver.Ends.{respond_to_payment_ends}
use payment_rail_simulator.Receiver.Faults.{respond_to_payment-Follows}
use payment_rail_simulator.Settlement.{settle_payment}
use payment_rail_simulator.Settlement.Outcomes.{
  CanSettle, debited, credited, started_tables, recorded_tables, settled_tables,
}
use payment_rail_simulator.Settlement.Ends.{settle_payment_ends}
use payment_rail_simulator.Settlement.Faults.{settle_payment-Follows}
use payment_rail_simulator.Effects.{
  nothing, also, Turn, Turned, Settled, Effect, stays, turns, settles,
}

module _ (p : Payment) (c : Db) where
  pub refused-Turned :
      {creditor : Bool} (reason : String)
      → IsChecked p c creditor
      → Turned p validated failed reason c (refused_tables p c reason)
  unfolding refused_tables entered_tables advanced next_payment_state
  refused-Turned reason k = record {
    row = k.row;
    stands = k.stands_validated;
    turn = Turn.refused;
    payments =
        update-update payment_key p.id (with_status clearing "") (with_status failed reason)
          c.payments (λ x. refl);
    log = also clearing_failed reason (also clearing_started "" nothing refl refl) refl refl;
    ledger = (refl, refl);
    outbox = refl;
  }

  pub cleared-Turned :
      (event_id : Uuid)
      → CanClear p c event_id
      → Turned p validated awaiting_response "" c (cleared_tables p c event_id)
  unfolding cleared_tables passed_tables reserved_tables entered_tables advanced next_payment_state
  cleared-Turned event_id k = record {
    row = k.checked.row;
    stands = k.checked.stands_validated;
    turn = Turn.cleared;
    payments =
        update-update payment_key p.id (with_status clearing "") (with_status awaiting_response "")
          c.payments (λ x. refl);
    log = also clearing_passed "" (also clearing_started "" nothing refl refl) refl refl;
    ledger = (refl, refl);
    outbox = (_, refl, refl, refl);
  }

  pub accepted-Turned :
      (event_id : Uuid)
      → IsAwaiting p c
      → Turned p awaiting_response accepted "" c (accepted_tables p c event_id)
  unfolding accepted_tables agreed_tables advanced next_payment_state
  accepted-Turned event_id k = record {
    row = k.row;
    stands = k.stands_awaiting;
    turn = Turn.agreed;
    payments = refl;
    log = also receiver_accepted "" nothing refl refl;
    ledger = (refl, refl);
    outbox = (_, refl, refl, refl);
  }

  rejected-Turned :
      (reason : String)
      → IsAwaiting p c
      → Turned p awaiting_response failed (stated_reason reason) c (rejected_tables p c reason)
  unfolding rejected_tables declined_tables advanced next_payment_state
  rejected-Turned reason k = record {
    row = k.row;
    stands = k.stands_awaiting;
    turn = Turn.declined;
    payments = refl;
    log = also receiver_rejected (stated_reason reason) nothing refl refl;
    ledger = (refl, refl);
    outbox = refl;
  }

  pub settled_tables-Settled :
      (ledger_id : Uuid)
      → CanSettle ledger_id p c
      → Settled p ledger_id c (settled_tables ledger_id p c)
  unfolding settled_tables started_tables recorded_tables booked debited credited advanced
      next_payment_state
  settled_tables-Settled ledger_id k = record {
    row = k.row;
    stands = k.stands_accepted;
    unused = k.books.unused;
    unbooked = k.books.unbooked;
    payments =
        update-update payment_key p.id (with_status settling "") (with_status settled "") c.payments
          (λ x. refl);
    log = also settlement_completed "" (also settlement_started "" nothing refl refl) refl refl;
    transactions = refl;
    entries = refl;
    outbox = refl;
  }

module _ (c w : Db) where
  calm-clear_payment-Effect :
      (event_id : Uuid) (id : UuidText)
      → Effect c (clear_payment event_id id (calm c w)).1.committed
  calm-clear_payment-Effect event_id id = elim (clear_payment_ends event_id c w id) [
    | inl stopped ↦ stays (committed-Failed c (clear_payment event_id id (calm c w)) stopped)
    | inr (inl (p, own, inl (k, e))) ↦ rw e (turns p _ _ _ (refused-Turned p c _ k))
    | inr (inl (p, own, inr (k, short, e))) ↦ rw e (turns p _ _ _ (refused-Turned p c _ k))
    | inr (inr (p, own, k, e)) ↦ rw e (turns p _ _ _ (cleared-Turned p c event_id k))
  ]

  calm-respond_to_payment-Effect :
      (event_id : Uuid) (id : UuidText) (yes_or_no : Bool) (reason : String)
      → Effect c (respond_to_payment event_id id yes_or_no reason (calm c w)).1.committed
  calm-respond_to_payment-Effect event_id id true reason =
      elim (respond_to_payment_ends event_id c w reason true id) [
        | inl stopped ↦
            stays
              (committed-Failed c (respond_to_payment event_id id true reason (calm c w)) stopped)
        | inr (p, own, k, unused, e) ↦ rw e (turns p _ _ _ (accepted-Turned p c event_id k))
      ]
  calm-respond_to_payment-Effect event_id id false reason =
      elim (respond_to_payment_ends event_id c w reason false id) [
        | inl stopped ↦
            stays
              (committed-Failed c (respond_to_payment event_id id false reason (calm c w)) stopped)
        | inr (p, own, k, can, e) ↦ rw e (turns p _ _ _ (rejected-Turned p c reason k))
      ]

  calm-settle_payment-Effect :
      (ledger_id : Uuid) (id : UuidText)
      → Effect c (settle_payment ledger_id id (calm c w)).1.committed
  calm-settle_payment-Effect ledger_id id = elim (settle_payment_ends ledger_id c w id) [
    | inl stopped ↦ stays (committed-Failed c (settle_payment ledger_id id (calm c w)) stopped)
    | inr (p, own, k, e) ↦ rw e (settles p ledger_id (settled_tables-Settled p c ledger_id k))
  ]

-- Over any connection, the committed tables differ from those before the call by one effect at most.
pub clear_payment-Effect :
    (event_id : Uuid) (id : UuidText) (s : Session)
    → Effect s.committed (clear_payment event_id id s).1.committed
clear_payment-Effect event_id id s =
    keeps-Follows (Effect s.committed) (clear_payment event_id id) s
      (clear_payment-Follows event_id id) (stays refl)
      (calm-clear_payment-Effect s.committed s.working event_id id)

pub respond_to_payment-Effect :
    (event_id : Uuid) (id : UuidText) (yes_or_no : Bool) (reason : String) (s : Session)
    → Effect s.committed (respond_to_payment event_id id yes_or_no reason s).1.committed
respond_to_payment-Effect event_id id yes_or_no reason s =
    keeps-Follows (Effect s.committed) (respond_to_payment event_id id yes_or_no reason) s
      (respond_to_payment-Follows event_id id yes_or_no reason) (stays refl)
      (calm-respond_to_payment-Effect s.committed s.working event_id id yes_or_no reason)

pub settle_payment-Effect :
    (ledger_id : Uuid) (id : UuidText) (s : Session)
    → Effect s.committed (settle_payment ledger_id id s).1.committed
settle_payment-Effect ledger_id id s =
    keeps-Follows (Effect s.committed) (settle_payment ledger_id id) s
      (settle_payment-Follows ledger_id id) (stays refl)
      (calm-settle_payment-Effect s.committed s.working ledger_id id)
