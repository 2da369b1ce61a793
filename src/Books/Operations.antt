-- ===== src/Books/Operations.antt =====
-- clearPayment, respondToPayment and settlePayment against the invariant of Books.
use payment_rail_simulator.Prelude.{String, Bool, true, false, refl, ap, inl, inr}
use payment_rail_simulator.Prelude.Table.{update-update}
use payment_rail_simulator.Payment.{
  clearing, awaiting_response, failed, accepted, settling, settled,
}
use payment_rail_simulator.Store.{Uuid, UuidText, Payment, Db, payment_key}
use payment_rail_simulator.Store.Tx.{Session}
use payment_rail_simulator.Store.Calm.{calm, committed-Failed}
use payment_rail_simulator.Store.Follows.{keeps-Follows}
use payment_rail_simulator.Transition.{with_status}
use payment_rail_simulator.Transition.Steps.{advanced}
use payment_rail_simulator.Ledger.Entries.{booked}
use payment_rail_simulator.Clearing.{clear_payment}
use payment_rail_simulator.Clearing.Outcomes.{
  IsChecked, CanClear, entered_tables, reserved_tables, passed_tables, refused_tables,
  cleared_tables,
}
use payment_rail_simulator.Clearing.Ends.{clear_payment_ends}
use payment_rail_simulator.Clearing.Faults.{clear_payment-Follows}
use payment_rail_simulator.Receiver.{respond_to_payment, stated_reason}
use payment_rail_simulator.Receiver.Outcomes.{
  IsAwaiting, CanRelease, agreed_tables, accepted_tables, declined_tables, rejected_tables,
}
use payment_rail_simulator.Receiver.Ends.{respond_to_payment_ends}
use payment_rail_simulator.Receiver.Faults.{respond_to_payment-Follows}
use payment_rail_simulator.Settlement.{settle_payment}
use payment_rail_simulator.Settlement.Outcomes.{
  CanSettle, debited, credited, started_tables, recorded_tables, settled_tables,
}
use payment_rail_simulator.Settlement.Ends.{settle_payment_ends}
use payment_rail_simulator.Settlement.Faults.{settle_payment-Follows}
use payment_rail_simulator.Books.{in_flight, is_open, IsBacked}
use payment_rail_simulator.Books.Rows.{row_is_sound}
use payment_rail_simulator.Books.Moves.{
  Backs-with_status, Backs-reserve, Backs-release, Backs-take_reserved, Backs-deposit,
}

module _ (p : Payment) (c : Db) (b : IsBacked c) where
  refused_tables-IsBacked :
      {creditor : Bool} (reason : String)
      → IsChecked p c creditor
      → IsBacked (refused_tables p c reason)
  unfolding refused_tables entered_tables advanced
  refused_tables-IsBacked reason k =
      rw
        (update-update payment_key p.id (with_status clearing "") (with_status failed reason)
          c.payments (λ x. refl))
        (Backs-with_status p.id reason c.accounts c.payments k.row b failed
          (ap in_flight k.stands_validated) refl (λ o. cc))

  cleared_tables-IsBacked :
      (event_id : Uuid) → CanClear p c event_id → IsBacked (cleared_tables p c event_id)
  unfolding cleared_tables passed_tables reserved_tables entered_tables advanced
  cleared_tables-IsBacked event_id k =
      rw
        (update-update payment_key p.id (with_status clearing "") (with_status awaiting_response "")
          c.payments (λ x. refl))
        (Backs-reserve p.id "" c.accounts c.payments k.checked.row b k.checked.stands_validated
          k.debtor_row k.debtor_covers)

  accepted_tables-IsBacked :
      (event_id : Uuid) → IsAwaiting p c → IsBacked (accepted_tables p c event_id)
  unfolding accepted_tables agreed_tables advanced
  accepted_tables-IsBacked event_id k =
      Backs-with_status p.id "" c.accounts c.payments k.row b accepted
        (ap in_flight k.stands_awaiting) refl (λ _. ap is_open k.stands_awaiting)

  rejected_tables-IsBacked :
      (reason : String) → IsAwaiting p c → CanRelease p c → IsBacked (rejected_tables p c reason)
  unfolding rejected_tables declined_tables advanced
  rejected_tables-IsBacked reason k can =
      Backs-release p.id (stated_reason reason) c.accounts c.payments k.row b k.stands_awaiting
        can.debtor_row can.debtor_covers

  settled_tables-IsBacked :
      (ledger_id : Uuid) → CanSettle ledger_id p c → IsBacked (settled_tables ledger_id p c)
  unfolding settled_tables started_tables recorded_tables booked debited credited advanced
  settled_tables-IsBacked ledger_id k =
      rw
        (update-update payment_key p.id (with_status settling "") (with_status settled "")
          c.payments (λ x. refl))
        (Backs-deposit p.creditor_account p.amount _ _ k.moves.creditor_row
          ((row_is_sound p.id c.accounts c.payments k.row b.rows).nonneg
            (ap is_open k.stands_accepted))
          (Backs-take_reserved p.id "" c.accounts c.payments k.row b k.stands_accepted
            k.moves.debtor_row k.moves.debtor_covers))

module _ (c w : Db) (b : IsBacked c) where
  calm-clear_payment-IsBacked :
      (event_id : Uuid) (id : UuidText)
      → IsBacked (clear_payment event_id id (calm c w)).1.committed
  calm-clear_payment-IsBacked event_id id = elim (clear_payment_ends event_id c w id) [
    | inl stopped ↦ rw (committed-Failed c (clear_payment event_id id (calm c w)) stopped) b
    | inr (inl (p, own, inl (k, e))) ↦ rw e (refused_tables-IsBacked p c b _ k)
    | inr (inl (p, own, inr (k, short, e))) ↦ rw e (refused_tables-IsBacked p c b _ k)
    | inr (inr (p, own, k, e)) ↦ rw e (cleared_tables-IsBacked p c b event_id k)
  ]

  calm-respond_to_payment-IsBacked :
      (event_id : Uuid) (id : UuidText) (yes_or_no : Bool) (reason : String)
      → IsBacked (respond_to_payment event_id id yes_or_no reason (calm c w)).1.committed
  calm-respond_to_payment-IsBacked event_id id true reason =
      elim (respond_to_payment_ends event_id c w reason true id) [
        | inl stopped ↦
            rw (committed-Failed c (respond_to_payment event_id id true reason (calm c w)) stopped)
              b
        | inr (p, own, k, unused, e) ↦ rw e (accepted_tables-IsBacked p c b event_id k)
      ]
  calm-respond_to_payment-IsBacked event_id id false reason =
      elim (respond_to_payment_ends event_id c w reason false id) [
        | inl stopped ↦
            rw (committed-Failed c (respond_to_payment event_id id false reason (calm c w)) stopped)
              b
        | inr (p, own, k, can, e) ↦ rw e (rejected_tables-IsBacked p c b reason k can)
      ]

  calm-settle_payment-IsBacked :
      (ledger_id : Uuid) (id : UuidText)
      → IsBacked (settle_payment ledger_id id (calm c w)).1.committed
  calm-settle_payment-IsBacked ledger_id id = elim (settle_payment_ends ledger_id c w id) [
    | inl stopped ↦ rw (committed-Failed c (settle_payment ledger_id id (calm c w)) stopped) b
    | inr (p, own, k, e) ↦ rw e (settled_tables-IsBacked p c b ledger_id k)
  ]

-- Whatever replies are lost, a call of clearPayment leaves tables in which no account has reserved
-- more than it owns, every account has reserved what its payments in flight are worth, and no
-- payment is left in a passing state, if the tables before the call were such.
pub clear_payment-IsBacked :
    (event_id : Uuid) (id : UuidText) (s : Session)
    → IsBacked s.committed
    → IsBacked (clear_payment event_id id s).1.committed
clear_payment-IsBacked event_id id s b =
    keeps-Follows IsBacked (clear_payment event_id id) s (clear_payment-Follows event_id id) b
      (calm-clear_payment-IsBacked s.committed s.working b event_id id)

-- A call of respondToPayment leaves backed tables backed, whatever the answer and the lost replies.
pub respond_to_payment-IsBacked :
    (event_id : Uuid) (id : UuidText) (yes_or_no : Bool) (reason : String) (s : Session)
    → IsBacked s.committed
    → IsBacked (respond_to_payment event_id id yes_or_no reason s).1.committed
respond_to_payment-IsBacked event_id id yes_or_no reason s b =
    keeps-Follows IsBacked (respond_to_payment event_id id yes_or_no reason) s
      (respond_to_payment-Follows event_id id yes_or_no reason) b
      (calm-respond_to_payment-IsBacked s.committed s.working b event_id id yes_or_no reason)

-- A call of settlePayment leaves backed tables backed, whatever replies are lost.
pub settle_payment-IsBacked :
    (ledger_id : Uuid) (id : UuidText) (s : Session)
    → IsBacked s.committed
    → IsBacked (settle_payment ledger_id id s).1.committed
settle_payment-IsBacked ledger_id id s b =
    keeps-Follows IsBacked (settle_payment ledger_id id) s (settle_payment-Follows ledger_id id) b
      (calm-settle_payment-IsBacked s.committed s.working b ledger_id id)
