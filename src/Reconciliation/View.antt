-- ===== src/Reconciliation/View.antt =====
-- reconciliation.go: the second query of `reconcilePayment`, over the ledger.
use payment_rail_simulator.Prelude.{
  ℕ, String, Bool, true, false, ◌&&◌, List, [], ◌∷◌, ◌++◌, ◌==◌, nat_eq, string_eq, length,
  if◌then◌else◌,
}
use payment_rail_simulator.Prelude.Int.{ℤ, eqb_ℤ}
use payment_rail_simulator.Prelude.Table.{sum_by}
use payment_rail_simulator.Store.{
  Uuid, Payment, LedgerTransaction, EntryType, debit, credit, LedgerEntry, Db,
}

-- FROM ledger_transactions lt … WHERE lt.payment_id = $1
unfoldable pub transactions_of : Uuid → List LedgerTransaction → List LedgerTransaction
transactions_of id [] = []
transactions_of id (t ∷ ts) =
    if t.payment_id == id then t ∷ transactions_of id ts else transactions_of id ts

-- LEFT JOIN ledger_entries le ON le.ledger_transaction_id = lt.id, for one row of lt
unfoldable pub entries_of : Uuid → List LedgerEntry → List LedgerEntry
entries_of id [] = []
entries_of id (e ∷ es) =
    if e.ledger_transaction_id == id then e ∷ entries_of id es else entries_of id es

unfoldable pub joined : List LedgerTransaction → List LedgerEntry → List LedgerEntry
joined [] es = []
joined (t ∷ ts) es = entries_of t.id es ++ joined ts es

abbrev pub is_debit : EntryType → Bool
is_debit debit = true
is_debit credit = false

abbrev pub is_credit : EntryType → Bool
is_credit debit = false
is_credit credit = true

-- FILTER (WHERE …)
unfoldable pub keep_entries : (LedgerEntry → Bool) → List LedgerEntry → List LedgerEntry
keep_entries test [] = []
keep_entries test (e ∷ es) = if test e then e ∷ keep_entries test es else keep_entries test es

abbrev pub amount_of : LedgerEntry → ℤ
amount_of e = e.amount

-- COUNT(DISTINCT lt.currency) = 1 AND MIN(lt.currency) = $3: there is a row, and every row has it.
abbrev all_in : String → List LedgerTransaction → Bool
all_in currency [] = true
all_in currency (t ∷ ts) = t.currency == currency && all_in currency ts

unfoldable pub currency_matches : String → List LedgerTransaction → Bool
currency_matches currency [] = false
currency_matches currency (t ∷ ts) = all_in currency (t ∷ ts)

-- The columns of the one row that the second query returns. `lt.id` is a primary key, so its
-- distinct values are as many as the rows of the payment.
pub record LedgerView : Type 0 where
  pub transaction_count : ℕ
  pub entry_count : ℕ
  pub debit_entry_count : ℕ
  pub credit_entry_count : ℕ
  pub debit_total : ℤ
  pub credit_total : ℤ
  pub debit_matches_payment : Bool
  pub credit_matches_payment : Bool
  pub debit_credit_balanced : Bool
  pub currency_matches : Bool
  pub debtor_debit_count : ℕ
  pub creditor_credit_count : ℕ

-- The columns over the transactions of a payment and their entries.
abbrev pub view_of : Payment → List LedgerTransaction → List LedgerEntry → LedgerView
view_of p lts les =
    let debits = keep_entries (λ e. is_debit e.entry_type) les in
    let credits = keep_entries (λ e. is_credit e.entry_type) les in
    record {
      transaction_count = length lts;
      entry_count = length les;
      debit_entry_count = length debits;
      credit_entry_count = length credits;
      debit_total = sum_by amount_of debits;
      credit_total = sum_by amount_of credits;
      debit_matches_payment = eqb_ℤ (sum_by amount_of debits) p.amount;
      credit_matches_payment = eqb_ℤ (sum_by amount_of credits) p.amount;
      debit_credit_balanced = eqb_ℤ (sum_by amount_of debits) (sum_by amount_of credits);
      currency_matches = currency_matches p.currency lts;
      debtor_debit_count =
          length
            (keep_entries (λ e. is_debit e.entry_type && e.account_id == p.debtor_account) les);
      creditor_credit_count =
          length
            (keep_entries (λ e. is_credit e.entry_type && e.account_id == p.creditor_account) les);
    }

unfoldable pub ledger_view : Payment → Db → LedgerView
ledger_view p db =
    let lts = transactions_of p.id db.ledger_transactions in
    view_of p lts (joined lts db.ledger_entries)
