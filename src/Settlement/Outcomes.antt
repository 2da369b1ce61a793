-- ===== src/Settlement/Outcomes.antt =====
-- When `settlePayment` settles, and what the tables are then.
use payment_rail_simulator.Prelude.{
  true, ◌≡◌, ◌≢◌, refl, ap, ◌⊎◌, inl, inr, none, some, arith, Option-cases, string_eq,
}
use payment_rail_simulator.Prelude.Table.{update}
use payment_rail_simulator.Payment.{
  is_accepted, accepted, settling, settled, settlement_started, settlement_completed,
  next_payment_state,
}
use payment_rail_simulator.Store.{
  Uuid, Payment, Account, Db, payment_not_found, payment_not_accepted, Result, ok, err, account_key,
  find_payment, find_account,
}
use payment_rail_simulator.Store.Tx.{Session, statement, wrap, begin, commit, ◌>>=◌, ◌>>◌}
use payment_rail_simulator.Store.Calm.{calm, Failed, Failed-continue, Failed-wrap}
use payment_rail_simulator.Transition.Steps.{
  advanced, find_payment-update, find_payment-advanced, apply_payment_event_tx_from,
}
use payment_rail_simulator.Transition.{with_status}
use payment_rail_simulator.Accounts.{
  is_usable, can_take, take_reserved, deposit, fits_row, update_account,
}
use payment_rail_simulator.Ledger.{record_ledger_transaction_tx}
use payment_rail_simulator.Ledger.Entries.{
  booked, CanBook, record_ledger_transaction_tx_at, record_ledger_transaction_tx_decides,
}
use payment_rail_simulator.Settlement.{
  SettlementResult, move_money, complete_settlement, settle_payment,
}

module _ (p : Payment) where
  unfoldable pub debited : Db → Db
  debited db = record db {
    accounts = update account_key p.debtor_account (take_reserved p.amount) db.accounts;
  }

  unfoldable pub credited : Db → Db
  credited db = record db {
    accounts = update account_key p.creditor_account (deposit p.amount) db.accounts;
  }

  pub record CanMove (db : Db) : Type 0 where
    pub debtor : Account
    pub debtor_row : find_account p.debtor_account db ≡ some debtor
    pub debtor_covers : can_take p.debtor_agent p.currency p.amount debtor ≡ true
    pub debtor_fits : fits_row (take_reserved p.amount debtor) ≡ true
    pub creditor : Account
    pub creditor_row : find_account p.creditor_account (debited db) ≡ some creditor
    pub creditor_usable : is_usable p.creditor_agent p.currency creditor ≡ true
    pub creditor_fits : fits_row (deposit p.amount creditor) ≡ true

  move_money_at :
      (c w : Db) → CanMove w → move_money p (calm c w) ≡ (ok tt, calm c (credited (debited w)))
  unfolding move_money update_account debited credited statement ◌>>=◌ ◌>>◌ wrap
  move_money_at c w m = ground arith

  module _ (c w : Db) {a b : Account} where
    move_money_tests :
        find_account p.debtor_account w ≡ some a
        → find_account p.creditor_account (debited w) ≡ some b
        → Failed c (move_money p (calm c w))
          ⊎ ((can_take p.debtor_agent p.currency p.amount a ≡ true)
              × (fits_row (take_reserved p.amount a) ≡ true)
              × (is_usable p.creditor_agent p.currency b ≡ true)
              × (fits_row (deposit p.amount b) ≡ true))
    unfolding move_money update_account debited statement ◌>>=◌ ◌>>◌ wrap
    move_money_tests row row' = ground arith

  move_money_decides : (c w : Db) → Failed c (move_money p (calm c w)) ⊎ CanMove w
  unfolding move_money update_account debited statement ◌>>=◌ ◌>>◌ wrap
  move_money_decides c w = elim (Option-cases (find_account p.debtor_account w)) [
    | inl absent ↦ inl (ground arith)
    | inr (a, row) ↦ elim (Option-cases (find_account p.creditor_account (debited w))) [
      | inl absent ↦ inl (ground arith)
      | inr (b, row') ↦ elim (move_money_tests c w row row') [
        | inl failed ↦ inl failed
        | inr t ↦ inr (record {
          debtor = a;
          debtor_row = row;
          debtor_covers = t.0;
          debtor_fits = t.1;
          creditor = b;
          creditor_row = row';
          creditor_usable = t.2;
          creditor_fits = t.3;
        })
      ]
    ]
  ]

-- What has to hold for `settlePayment` to settle payment `p`.
pub record CanSettle (ledger_id : Uuid) (p : Payment) (db : Db) : Type 0 where
  pub row : find_payment p.id db ≡ some p
  pub stands_accepted : p.status ≡ accepted
  pub books : CanBook ledger_id p.id p.debtor_account p.creditor_account p.amount p.currency db
  pub moves : CanMove p db

module _ (ledger_id : Uuid) (p : Payment) (db : Db) where
  unfoldable pub started_tables : Db
  started_tables = advanced p.id settlement_started "" accepted settling db

  unfoldable pub recorded_tables : Db
  recorded_tables =
      booked ledger_id p.id p.debtor_account p.creditor_account p.amount p.currency started_tables

  -- The tables after settlement.
  unfoldable pub settled_tables : Db
  settled_tables =
      advanced p.id settlement_completed "" settling settled
        (credited p (debited p recorded_tables))

  started-CanBook :
      CanBook ledger_id p.id p.debtor_account p.creditor_account p.amount p.currency db
      → find_payment p.id db ≡ some p
      → CanBook ledger_id p.id p.debtor_account p.creditor_account p.amount p.currency
          started_tables
  unfolding started_tables advanced
  started-CanBook b h = record {
    positive = b.positive;
    unused = b.unused;
    unbooked = b.unbooked;
    payment = ground (arith, find_payment-update p.id settling "" db h);
    debtor_account = b.debtor_account;
    creditor_account = b.creditor_account;
  }

  recorded-CanMove : CanMove p db → CanMove p recorded_tables
  unfolding started_tables recorded_tables advanced booked debited
  recorded-CanMove m = record {
    debtor = m.debtor;
    debtor_row = m.debtor_row;
    debtor_covers = m.debtor_covers;
    debtor_fits = m.debtor_fits;
    creditor = m.creditor;
    creditor_row = m.creditor_row;
    creditor_usable = m.creditor_usable;
    creditor_fits = m.creditor_fits;
  }

  CanBook-started :
      CanBook ledger_id p.id p.debtor_account p.creditor_account p.amount p.currency started_tables
      → find_payment p.id db ≡ some p
      → CanBook ledger_id p.id p.debtor_account p.creditor_account p.amount p.currency db
  unfolding started_tables advanced
  CanBook-started b h = record {
    positive = b.positive;
    unused = b.unused;
    unbooked = b.unbooked;
    payment = ground arith;
    debtor_account = b.debtor_account;
    creditor_account = b.creditor_account;
  }

  CanMove-recorded : CanMove p recorded_tables → CanMove p db
  unfolding started_tables recorded_tables advanced booked debited
  CanMove-recorded m = record {
    debtor = m.debtor;
    debtor_row = m.debtor_row;
    debtor_covers = m.debtor_covers;
    debtor_fits = m.debtor_fits;
    creditor = m.creditor;
    creditor_row = m.creditor_row;
    creditor_usable = m.creditor_usable;
    creditor_fits = m.creditor_fits;
  }

  moved_row :
      find_payment p.id db ≡ some p
      → find_payment p.id (credited p (debited p recorded_tables))
        ≡ some (with_status settling "" p)
  unfolding started_tables recorded_tables advanced booked debited credited
  moved_row h = find_payment-update p.id settling "" db h

  -- A settled payment stands in state settled.
  pub settled_row :
      find_payment p.id db ≡ some p
      → find_payment p.id settled_tables ≡ some (with_status settled "" (with_status settling "" p))
  unfolding settled_tables
  settled_row h =
      find_payment-advanced p.id settlement_completed "" settling settled
        (credited p (debited p recorded_tables)) (moved_row h)

unfoldable pub settlement : Payment → SettlementResult
settlement p = record {
  id = some p.id;
  status = settled;
  amount = p.amount;
  currency = p.currency;
  message = "payment settled successfully";
}

module _ (ledger_id : Uuid) (p : Payment) (c w : Db) where
  pub settle_payment_at :
      CanSettle ledger_id p c
      → settle_payment ledger_id (some p.id) (calm c w)
        ≡ (ok (settlement p), calm (settled_tables ledger_id p c) (settled_tables ledger_id p c))
  unfolding settle_payment complete_settlement settled_tables started_tables recorded_tables
      settlement statement ◌>>=◌ ◌>>◌ wrap begin commit next_payment_state
  settle_payment_at k = rw (
    k.row,
    ap is_accepted k.stands_accepted,
    apply_payment_event_tx_from p.id settlement_started "" c c k.row k.stands_accepted refl,
    record_ledger_transaction_tx_at ledger_id p.id p.debtor_account p.creditor_account p.amount
        p.currency c (started_tables ledger_id p c) (started-CanBook ledger_id p c k.books k.row),
    move_money_at p c (recorded_tables ledger_id p c) (recorded-CanMove ledger_id p c k.moves),
    apply_payment_event_tx_from p.id settlement_completed "" c
        (credited p (debited p (recorded_tables ledger_id p c))) (moved_row ledger_id p c k.row)
        refl refl,
  )

  abbrev booking : Session → Result (Unit {0}) × Session
  booking =
      record_ledger_transaction_tx ledger_id p.id p.debtor_account p.creditor_account p.amount
        p.currency

  module _ (row : find_payment p.id c ≡ some p) (at_state : p.status ≡ accepted) where
    booking-Failed :
        Failed c (booking (calm c (started_tables ledger_id p c)))
        → Failed c (settle_payment ledger_id (some p.id) (calm c w))
    unfolding settle_payment started_tables statement ◌>>=◌ ◌>>◌ wrap begin next_payment_state
    booking-Failed failed =
        rw
          (
            row,
            ap is_accepted at_state,
            apply_payment_event_tx_from p.id settlement_started "" c c row at_state refl,
          )
          (Failed-continue c _ _ (
            Failed-wrap c "failed to record ledger transaction"
              (booking (calm c (started_tables ledger_id p c))) failed))

    moving-Failed :
        CanBook ledger_id p.id p.debtor_account p.creditor_account p.amount p.currency c
        → Failed c (move_money p (calm c (recorded_tables ledger_id p c)))
        → Failed c (settle_payment ledger_id (some p.id) (calm c w))
    unfolding settle_payment started_tables recorded_tables statement ◌>>=◌ ◌>>◌ wrap begin
        next_payment_state
    moving-Failed b failed =
        rw
          (
            row,
            ap is_accepted at_state,
            apply_payment_event_tx_from p.id settlement_started "" c c row at_state refl,
            record_ledger_transaction_tx_at ledger_id p.id p.debtor_account p.creditor_account
                p.amount p.currency c (started_tables ledger_id p c)
                (started-CanBook ledger_id p c b row),
          )
          (Failed-continue c (move_money p (calm c (recorded_tables ledger_id p c))) _ failed)

    -- With the payment's row in `accepted`, the call ends in an error or all of `CanSettle` holds.
    pub settle_payment_decides :
        Failed c (settle_payment ledger_id (some p.id) (calm c w)) ⊎ CanSettle ledger_id p c
    settle_payment_decides =
        elim (record_ledger_transaction_tx_decides ledger_id p.id p.debtor_account
          p.creditor_account p.amount p.currency c (started_tables ledger_id p c)) [
            | inl failed ↦ inl (booking-Failed failed)
            | inr books ↦
                let b = CanBook-started ledger_id p c books row in
                elim (move_money_decides p c (recorded_tables ledger_id p c)) [
                  | inl failed ↦ inl (moving-Failed b failed)
                  | inr moves ↦ inr (record {
                    row = row;
                    stands_accepted = at_state;
                    books = b;
                    moves = CanMove-recorded ledger_id p c moves;
                  })
                ]
          ]

module _ (ledger_id id : Uuid) (c w : Db) where
  pub settle_payment_absent :
      find_payment id c ≡ none
      → settle_payment ledger_id (some id) (calm c w) ≡ (err payment_not_found, calm c c)
  unfolding settle_payment statement ◌>>=◌ ◌>>◌ wrap begin
  settle_payment_absent h = rw h

  pub settle_payment_early :
      {p : Payment}
      → find_payment id c ≡ some p
      → p.status ≢ accepted
      → settle_payment ledger_id (some id) (calm c w) ≡ (err payment_not_accepted, calm c c)
  unfolding settle_payment statement ◌>>=◌ ◌>>◌ wrap begin
  settle_payment_early h ne = ground arith
