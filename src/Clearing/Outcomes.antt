-- ===== src/Clearing/Outcomes.antt =====
-- How `clearPayment` ends over a connection that answers, and what the tables are then.
use payment_rail_simulator.Prelude.{
  String, Bool, true, false, ◌≡◌, refl, ap, ◌∙◌, Option, none, some, [], ◌∷◌, ◌++◌, arith,
  string_eq,
}
use payment_rail_simulator.Prelude.Table.{update}
use payment_rail_simulator.Payment.{
  is_validated, validated, clearing, awaiting_response, failed, clearing_started, clearing_passed,
  clearing_failed, next_payment_state,
}
use payment_rail_simulator.Store.{
  Uuid, Payment, Account, Db, ok, account_key, find_payment, find_account, payment_cleared,
}
use payment_rail_simulator.Store.Tx.{statement, query, wrap, begin, commit, ◌>>=◌, ◌>>◌}
use payment_rail_simulator.Store.Calm.{calm}
use payment_rail_simulator.Transition.{with_status}
use payment_rail_simulator.Transition.Steps.{
  advanced, find_payment-update, apply_payment_event_tx_from,
}
use payment_rail_simulator.Accounts.{is_usable_row, can_reserve, reserve, fits_row, update_account}
use payment_rail_simulator.Outbox.{
  has_event, insert_outbox_event, new_event, record_payment_cleared_outbox_tx,
}
use payment_rail_simulator.Clearing.{
  response, refuse_clearing, complete_clearing, reserve_funds, check_creditor, clear_payment,
}

abbrev pub no_creditor : String
no_creditor = "creditor account does not exist or is inactive"

abbrev pub no_funds : String
no_funds = "debtor account has insufficient available funds or is inactive"

abbrev pub cleared_message : String
cleared_message = "payment cleared and forwarded to the receiver bank"

abbrev pub can_reserve_row : Payment → Option Account → Bool
can_reserve_row p none = false
can_reserve_row p (some a) = can_reserve p.debtor_agent p.currency p.amount a

module _ (p : Payment) (db : Db) where
  -- The payment waits for clearing, and `creditor` says whether its creditor's account is usable.
  pub record IsChecked (creditor : Bool) : Type 0 where
    pub row : find_payment p.id db ≡ some p
    pub stands_validated : p.status ≡ validated
    pub creditor_test :
        is_usable_row p.creditor_agent p.currency (find_account p.creditor_account db) ≡ creditor

  -- What has to hold for `clearPayment` to clear payment `p`.
  pub record CanClear (event_id : Uuid) : Type 0 where
    pub checked : IsChecked true
    pub debtor : Account
    pub debtor_row : find_account p.debtor_account db ≡ some debtor
    pub debtor_covers : can_reserve p.debtor_agent p.currency p.amount debtor ≡ true
    pub debtor_fits : fits_row (reserve p.amount debtor) ≡ true
    pub unused : has_event event_id db.outbox_events ≡ false

  unfoldable pub entered_tables : Db
  entered_tables = advanced p.id clearing_started "" validated clearing db

  -- The tables after a check that failed.
  unfoldable pub refused_tables : String → Db
  refused_tables reason = advanced p.id clearing_failed reason clearing failed entered_tables

  unfoldable pub reserved_tables : Db
  reserved_tables = record entered_tables {
    accounts = update account_key p.debtor_account (reserve p.amount) db.accounts;
  }

  unfoldable pub passed_tables : Db
  passed_tables = advanced p.id clearing_passed "" clearing awaiting_response reserved_tables

  -- The tables after clearing.
  unfoldable pub cleared_tables : Uuid → Db
  cleared_tables event_id = record passed_tables {
    outbox_events = db.outbox_events ++ new_event event_id p.id payment_cleared none ∷ [];
  }

  entered_row :
      find_payment p.id db ≡ some p
      → find_payment p.id entered_tables ≡ some (with_status clearing "" p)
  unfolding entered_tables advanced
  entered_row h = find_payment-update p.id clearing "" db h

  pub reserved_row :
      find_payment p.id db ≡ some p
      → find_payment p.id reserved_tables ≡ some (with_status clearing "" p)
  unfolding reserved_tables
  reserved_row h = entered_row h

  pub passed_row :
      find_payment p.id db ≡ some p
      → find_payment p.id passed_tables
        ≡ some (with_status awaiting_response "" (with_status clearing "" p))
  unfolding passed_tables advanced
  passed_row h = find_payment-update p.id awaiting_response "" reserved_tables (reserved_row h)

module _ (event_id : Uuid) (p : Payment) (c w : Db) where
  refuse_clearing_at :
      (reason : String)
      → find_payment p.id c ≡ some p
      → refuse_clearing (some p.id) p reason (calm c (entered_tables p c)) ≡ (
        ok (response (some p.id) p failed reason),
        calm (refused_tables p c reason) (refused_tables p c reason),
      )
  unfolding refuse_clearing refused_tables ◌>>=◌ ◌>>◌ wrap commit next_payment_state
  refuse_clearing_at reason row = rw (
      apply_payment_event_tx_from p.id clearing_failed reason c (entered_tables p c)
        (entered_row p c row) refl refl)

  -- Up to the check of the creditor's account.
  clear_payment_enters :
      find_payment p.id c ≡ some p
      → p.status ≡ validated
      → clear_payment event_id (some p.id) (calm c w)
        ≡ check_creditor event_id (some p.id) p (calm c (entered_tables p c))
  unfolding clear_payment entered_tables statement ◌>>=◌ ◌>>◌ wrap begin next_payment_state
  clear_payment_enters row at_state = rw (
    row,
    ap is_validated at_state,
    apply_payment_event_tx_from p.id clearing_started "" c c row at_state refl,
  )

  creditor_refused :
      IsChecked p c false
      → check_creditor event_id (some p.id) p (calm c (entered_tables p c))
        ≡ refuse_clearing (some p.id) p no_creditor (calm c (entered_tables p c))
  unfolding check_creditor entered_tables advanced ◌>>=◌ wrap query
  creditor_refused k = rw k.creditor_test

  -- Up to the reservation.
  pub creditor_passes :
      IsChecked p c true
      → clear_payment event_id (some p.id) (calm c w)
        ≡ reserve_funds event_id (some p.id) p (calm c (entered_tables p c))
  creditor_passes k = clear_payment_enters k.row k.stands_validated ∙ passed_check
    where
      passed_check :
          check_creditor event_id (some p.id) p (calm c (entered_tables p c))
          ≡ reserve_funds event_id (some p.id) p (calm c (entered_tables p c))
      passed_check =
          unfold check_creditor entered_tables advanced ◌>>=◌ wrap query in rw k.creditor_test

  -- Without a usable account of the creditor the payment fails, and no account changes.
  pub clear_payment-no_creditor :
      IsChecked p c false
      → clear_payment event_id (some p.id) (calm c w) ≡ (
        ok (response (some p.id) p failed no_creditor),
        calm (refused_tables p c no_creditor) (refused_tables p c no_creditor),
      )
  clear_payment-no_creditor k =
      clear_payment_enters k.row k.stands_validated
      ∙ creditor_refused k
      ∙ refuse_clearing_at no_creditor k.row

  funds_refused :
      can_reserve_row p (find_account p.debtor_account c) ≡ false
      → reserve_funds event_id (some p.id) p (calm c (entered_tables p c))
        ≡ refuse_clearing (some p.id) p no_funds (calm c (entered_tables p c))
  unfolding reserve_funds update_account entered_tables advanced statement ◌>>=◌ wrap
  funds_refused h = ground arith

  -- Where the debtor's available funds do not cover the amount, or its account is not usable, the
  -- payment fails, and no account changes.
  pub clear_payment-no_funds :
      IsChecked p c true
      → can_reserve_row p (find_account p.debtor_account c) ≡ false
      → clear_payment event_id (some p.id) (calm c w) ≡ (
        ok (response (some p.id) p failed no_funds),
        calm (refused_tables p c no_funds) (refused_tables p c no_funds),
      )
  clear_payment-no_funds k h =
      creditor_passes k ∙ funds_refused h ∙ refuse_clearing_at no_funds k.row

  pub funds_reserved :
      {a : Account}
      → find_account p.debtor_account c ≡ some a
      → can_reserve p.debtor_agent p.currency p.amount a ≡ true
      → fits_row (reserve p.amount a) ≡ true
      → reserve_funds event_id (some p.id) p (calm c (entered_tables p c))
        ≡ complete_clearing event_id (some p.id) p (calm c (reserved_tables p c))
  unfolding reserve_funds update_account reserved_tables entered_tables advanced statement ◌>>=◌
      wrap
  funds_reserved row covers fits = rw (row, covers, fits)

  clearing_completed :
      CanClear p c event_id
      → complete_clearing event_id (some p.id) p (calm c (reserved_tables p c)) ≡ (
        ok (response (some p.id) p awaiting_response cleared_message),
        calm (cleared_tables p c event_id) (cleared_tables p c event_id),
      )
  unfolding complete_clearing record_payment_cleared_outbox_tx insert_outbox_event passed_tables
      cleared_tables reserved_tables entered_tables advanced statement ◌>>=◌ ◌>>◌ wrap commit
      next_payment_state
  clearing_completed k = rw (
    apply_payment_event_tx_from p.id clearing_passed "" c (reserved_tables p c)
        (reserved_row p c k.checked.row) refl refl,
    k.unused,
    passed_row p c k.checked.row,
  )

  pub clear_payment_at :
      CanClear p c event_id
      → clear_payment event_id (some p.id) (calm c w) ≡ (
        ok (response (some p.id) p awaiting_response cleared_message),
        calm (cleared_tables p c event_id) (cleared_tables p c event_id),
      )
  clear_payment_at k =
      creditor_passes k.checked
      ∙ funds_reserved k.debtor_row k.debtor_covers k.debtor_fits
      ∙ clearing_completed k
