-- ===== src/Ledger/Entries.antt =====
-- What `recordLedgerTransactionTx` adds to the ledger, and when it is refused.
use payment_rail_simulator.Prelude.{
  String, true, false, ◌≡◌, ◌≢◌, ◌⊎◌, none, List, [], ◌∷◌, ◌++◌, arith, nat_beq_iff,
}
use payment_rail_simulator.Prelude.Int.{ℤ, pos, leb_ℤ}
use payment_rail_simulator.Store.{
  Uuid, LedgerTransaction, debit, credit, Db, ok, find_payment, find_account,
}
use payment_rail_simulator.Store.Tx.{statement, ◌>>=◌, wrap}
use payment_rail_simulator.Store.Calm.{calm, Failed}
use payment_rail_simulator.Ledger.{
  has_ledger_transaction, is_booked, insert_ledger_transaction, insert_ledger_entries,
  record_ledger_transaction_tx,
}

has_ledger_transaction_last :
    (t : LedgerTransaction) (ts : List LedgerTransaction)
    → has_ledger_transaction t.id (ts ++ t ∷ []) ≡ true
unfolding has_ledger_transaction
has_ledger_transaction_last t [] = ground (arith, nat_beq_iff t.id t.id)
has_ledger_transaction_last t (x ∷ xs) = ground (arith, has_ledger_transaction_last t xs)

module _ (ledger_id payment_id : Uuid) (debtor creditor : String) (amount : ℤ)
    (currency : String) where
  -- The tables with the payment's transaction and its two entries.
  unfoldable pub booked : Db → Db
  booked db = record db {
    ledger_transactions =
        db.ledger_transactions
        ++ record { id = ledger_id; payment_id = payment_id; currency = currency } ∷ [];
    ledger_entries =
        db.ledger_entries
        ++ record {
          ledger_transaction_id = ledger_id;
          account_id = debtor;
          entry_type = debit;
          amount = amount;
        }
          ∷ record {
            ledger_transaction_id = ledger_id;
            account_id = creditor;
            entry_type = credit;
            amount = amount;
          }
          ∷ [];
  }

  pub record CanBook (db : Db) : Type 0 where
    pub positive : leb_ℤ amount (pos 0) ≡ false
    pub unused : has_ledger_transaction ledger_id db.ledger_transactions ≡ false
    pub unbooked : is_booked payment_id db.ledger_transactions ≡ false
    pub payment : find_payment payment_id db ≢ none
    pub debtor_account : find_account debtor db ≢ none
    pub creditor_account : find_account creditor db ≢ none

  pub record_ledger_transaction_tx_at :
      (c w : Db)
      → CanBook w
      → record_ledger_transaction_tx ledger_id payment_id debtor creditor amount currency (calm c w)
        ≡ (ok tt, calm c (booked w))
  unfolding record_ledger_transaction_tx insert_ledger_transaction insert_ledger_entries booked
      statement ◌>>=◌ wrap
  record_ledger_transaction_tx_at c w b = ground (
    arith,
    has_ledger_transaction_last
        (record { id = ledger_id; payment_id = payment_id; currency = currency })
        w.ledger_transactions,
  )

  pub record_ledger_transaction_tx_decides :
      (c w : Db)
      → Failed c (
          record_ledger_transaction_tx ledger_id payment_id debtor creditor amount currency
            (calm c w))
        ⊎ CanBook w
  unfolding record_ledger_transaction_tx insert_ledger_transaction insert_ledger_entries statement
      ◌>>=◌ wrap
  record_ledger_transaction_tx_decides c w = ground (
    arith,
    has_ledger_transaction_last
        (record { id = ledger_id; payment_id = payment_id; currency = currency })
        w.ledger_transactions,
  )
