-- ===== src/Receiver/Outcomes.antt =====
-- How `respondToPayment` ends over a connection that answers, and what the tables are then.
use payment_rail_simulator.Prelude.{
  String, Bool, true, false, ◌≡◌, refl, ap, ◌⊎◌, inl, inr, none, some, [], ◌∷◌, ◌++◌, arith,
  Option-cases, string_eq,
}
use payment_rail_simulator.Prelude.Table.{update}
use payment_rail_simulator.Payment.{
  is_awaiting_response, awaiting_response, accepted, failed, receiver_accepted, receiver_rejected,
  next_payment_state,
}
use payment_rail_simulator.Store.{
  Uuid, Payment, Account, Db, ok, account_key, find_payment, find_account, payment_accepted,
}
use payment_rail_simulator.Store.Tx.{statement, wrap, begin, commit, ◌>>=◌, ◌>>◌}
use payment_rail_simulator.Store.Calm.{calm, Failed}
use payment_rail_simulator.Transition.Steps.{
  advanced, find_payment-update, apply_payment_event_tx_from,
}
use payment_rail_simulator.Accounts.{can_release, release, fits_row, update_account}
use payment_rail_simulator.Outbox.{
  has_event, insert_outbox_event, new_event, record_payment_accepted_outbox_tx,
}
use payment_rail_simulator.Receiver.{
  ReceiverPaymentResult, accept_payment, reject_payment, stated_reason, answer_payment,
  respond_to_payment,
}

module _ (p : Payment) (db : Db) where
  pub record IsAwaiting : Type 0 where
    pub row : find_payment p.id db ≡ some p
    pub stands_awaiting : p.status ≡ awaiting_response

  -- What has to hold for the funds of a rejected payment to be released.
  pub record CanRelease : Type 0 where
    pub debtor : Account
    pub debtor_row : find_account p.debtor_account db ≡ some debtor
    pub debtor_covers : can_release p.debtor_agent p.currency p.amount debtor ≡ true
    pub debtor_fits : fits_row (release p.amount debtor) ≡ true

  unfoldable pub agreed_tables : Db
  agreed_tables = advanced p.id receiver_accepted "" awaiting_response accepted db

  -- The tables after an acceptance.
  unfoldable pub accepted_tables : Uuid → Db
  accepted_tables event_id = record agreed_tables {
    outbox_events = db.outbox_events ++ new_event event_id p.id payment_accepted none ∷ [];
  }

  unfoldable pub declined_tables : String → Db
  declined_tables reason =
      advanced p.id receiver_rejected (stated_reason reason) awaiting_response failed db

  -- The tables after a rejection.
  unfoldable pub rejected_tables : String → Db
  rejected_tables reason = record (declined_tables reason) {
    accounts = update account_key p.debtor_account (release p.amount) db.accounts;
  }

abbrev pub acceptance : Payment → ReceiverPaymentResult
acceptance p = record { id = some p.id; status = accepted; message = "receiver accepted payment" }

unfoldable pub rejection : Payment → String → ReceiverPaymentResult
rejection p reason = record { id = some p.id; status = failed; message = stated_reason reason }

module _ (event_id : Uuid) (p : Payment) (c w : Db) (k : IsAwaiting p c) where
  -- Up to the answer.
  pub respond_to_payment_enters :
      (yes_or_no : Bool) (reason : String)
      → respond_to_payment event_id (some p.id) yes_or_no reason (calm c w)
        ≡ answer_payment event_id (some p.id) p yes_or_no reason (calm c c)
  unfolding respond_to_payment statement ◌>>=◌ ◌>>◌ wrap begin
  respond_to_payment_enters yes_or_no reason = rw (k.row, ap is_awaiting_response k.stands_awaiting)

  pub accept_payment_at :
      has_event event_id c.outbox_events ≡ false
      → accept_payment event_id (some p.id) p (calm c c)
        ≡ (ok (acceptance p), calm (accepted_tables p c event_id) (accepted_tables p c event_id))
  unfolding accept_payment record_payment_accepted_outbox_tx insert_outbox_event agreed_tables
      accepted_tables advanced statement ◌>>=◌ ◌>>◌ wrap commit next_payment_state
  accept_payment_at unused = rw (
    apply_payment_event_tx_from p.id receiver_accepted "" c c k.row k.stands_awaiting refl,
    unused,
    find_payment-update p.id accepted "" c k.row,
  )

  pub accept_payment_taken :
      has_event event_id c.outbox_events ≡ true
      → Failed c (accept_payment event_id (some p.id) p (calm c c))
  unfolding accept_payment record_payment_accepted_outbox_tx insert_outbox_event advanced statement
      ◌>>=◌ ◌>>◌ wrap next_payment_state
  accept_payment_taken taken = rw (
    apply_payment_event_tx_from p.id receiver_accepted "" c c k.row k.stands_awaiting refl,
    taken,
  )

  module _ (reason : String) where
    pub reject_payment_at :
        CanRelease p c
        → reject_payment (some p.id) p (stated_reason reason) (calm c c) ≡ (
          ok (rejection p reason),
          calm (rejected_tables p c reason) (rejected_tables p c reason),
        )
    unfolding reject_payment rejection update_account declined_tables rejected_tables advanced
        statement ◌>>=◌ ◌>>◌ wrap commit next_payment_state
    reject_payment_at can = rw (
      apply_payment_event_tx_from p.id receiver_rejected (stated_reason reason) c c k.row
          k.stands_awaiting refl,
      can.debtor_row,
      can.debtor_covers,
      can.debtor_fits,
    )

    reject_row_tests :
        {a : Account}
        → find_account p.debtor_account c ≡ some a
        → Failed c (reject_payment (some p.id) p (stated_reason reason) (calm c c))
          ⊎ ((can_release p.debtor_agent p.currency p.amount a ≡ true)
              × (fits_row (release p.amount a) ≡ true))
    unfolding reject_payment update_account advanced statement ◌>>=◌ ◌>>◌ wrap next_payment_state
    reject_row_tests {a} row =
        rw
          (apply_payment_event_tx_from p.id receiver_rejected (stated_reason reason) c c k.row
            k.stands_awaiting refl)
          (rw row (ground arith))

    reject_absent :
        find_account p.debtor_account c ≡ none
        → Failed c (reject_payment (some p.id) p (stated_reason reason) (calm c c))
    unfolding reject_payment update_account advanced statement ◌>>=◌ ◌>>◌ wrap next_payment_state
    reject_absent h = rw (
      apply_payment_event_tx_from p.id receiver_rejected (stated_reason reason) c c k.row
          k.stands_awaiting refl,
      h,
    )

    pub reject_payment_decides :
        Failed c (reject_payment (some p.id) p (stated_reason reason) (calm c c)) ⊎ CanRelease p c
    reject_payment_decides = elim (Option-cases (find_account p.debtor_account c)) [
      | inl absent ↦ inl (reject_absent absent)
      | inr (a, row) ↦ elim (reject_row_tests row) [
        | inl failed_call ↦ inl failed_call
        | inr t ↦
            inr (record { debtor = a; debtor_row = row; debtor_covers = t.0; debtor_fits = t.1 })
      ]
    ]
