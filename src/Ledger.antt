-- ===== src/Ledger.antt =====
-- ledger.go: `recordLedgerTransactionTx` over the tables of ledger.sql.
pub mod Entries
use payment_rail_simulator.Prelude.{
  String, Bool, false, ◌||◌, Option, none, some, List, [], ◌∷◌, ◌++◌, ◌==◌, nat_eq, if◌then◌else◌,
}
use payment_rail_simulator.Prelude.Int.{ℤ, pos, leb_ℤ}
use payment_rail_simulator.Store.{
  Uuid, Account, LedgerTransaction, debit, credit, Db, unique_violation, foreign_key_violation,
  check_violation, Result, ok, err, find_payment, find_account,
}
use payment_rail_simulator.Store.Tx.{Tx, statement, wrap, ◌>>=◌}
use payment_rail_simulator.Transition.{if_references}

-- PRIMARY KEY (id)
unfoldable pub has_ledger_transaction : Uuid → List LedgerTransaction → Bool
has_ledger_transaction id [] = false
has_ledger_transaction id (x ∷ xs) = x.id == id || has_ledger_transaction id xs

-- UNIQUE (payment_id)
unfoldable pub is_booked : Uuid → List LedgerTransaction → Bool
is_booked payment_id [] = false
is_booked payment_id (x ∷ xs) = x.payment_id == payment_id || is_booked payment_id xs

-- INSERT INTO ledger_transactions … RETURNING id
unfoldable pub insert_ledger_transaction : LedgerTransaction → Db → Result (Uuid × Db)
insert_ledger_transaction t db =
    if has_ledger_transaction t.id db.ledger_transactions
      || is_booked t.payment_id db.ledger_transactions
    then err unique_violation
    else if_references (find_payment t.payment_id db)
        (ok (t.id, record db { ledger_transactions = db.ledger_transactions ++ t ∷ [] }))

-- `account_id … REFERENCES accounts(account_id)`
abbrev pub if_account : {A : Type 0} → Option Account → Result A → Result A
if_account none r = err foreign_key_violation
if_account (some a) r = r

-- INSERT INTO ledger_entries, both rows in one statement; CHECK (amount > 0)
unfoldable pub insert_ledger_entries : Uuid → String → String → ℤ → Db → Result (Unit {0} × Db)
insert_ledger_entries id debtor creditor amount db =
    if leb_ℤ amount (pos 0)
    then err check_violation
    else if has_ledger_transaction id db.ledger_transactions
    then if_account (find_account debtor db) (
        if_account (find_account creditor db) (
          ok (
            tt,
            record db {
              ledger_entries =
                  db.ledger_entries
                  ++ record {
                    ledger_transaction_id = id;
                    account_id = debtor;
                    entry_type = debit;
                    amount = amount;
                  }
                    ∷ record {
                      ledger_transaction_id = id;
                      account_id = creditor;
                      entry_type = credit;
                      amount = amount;
                    }
                    ∷ [];
            },
          )))
    else err foreign_key_violation

-- `ledger_id` is the value of the column's default, `gen_random_uuid()`.
unfoldable pub record_ledger_transaction_tx :
    Uuid → Uuid → String → String → ℤ → String → Tx (Unit {0})
record_ledger_transaction_tx ledger_id payment_id debtor creditor amount currency = do
  id ← wrap "failed to create ledger transaction" (
      statement (
        insert_ledger_transaction
          (record { id = ledger_id; payment_id = payment_id; currency = currency })))
  wrap "failed to create ledger entries"
      (statement (insert_ledger_entries id debtor creditor amount))
