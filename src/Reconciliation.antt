-- ===== src/Reconciliation.antt =====
-- reconciliation.go: `reconcilePayment` compares a payment with what the ledger says of it.
pub mod View
pub mod Agrees
pub mod Counts
pub mod Verdicts
use payment_rail_simulator.Prelude.{
  ℕ, suc, String, Bool, true, false, ◌&&◌, Option, none, some, List, [], ◌∷◌, ◌++◌, ◌==◌, nat_eq,
  string_eq, length, if◌then◌else◌,
}
use payment_rail_simulator.Prelude.Int.{ℤ, eqb_ℤ}
use View.{LedgerView, ledger_view}
use payment_rail_simulator.Payment.{PaymentState, rejected, failed, settled}
use payment_rail_simulator.Store.{
  Uuid, UuidText, Payment, LedgerTransaction, EntryType, debit, credit, LedgerEntry, Db, no_rows,
  invalid_text, Result, ok, err, find_payment,
}

-- The format of a check's detail, with the values that are put into it.
pub data Detail : Type 0 where
  expected_transactions : ℕ → ℕ → Detail
  expected_entries : ℕ → ℕ → Detail
  expected_debits : ℕ → ℕ → Detail
  expected_credits : ℕ → ℕ → Detail
  payment_and_debits : ℤ → ℤ → Detail
  payment_and_credits : ℤ → ℤ → Detail
  debits_and_credits : ℤ → ℤ → Detail
  expected_currency : String → Detail
  expected_one_debit : String → Detail
  expected_one_credit : String → Detail
  still_processing : Detail

pub record ReconciliationCheck : Type 0 where
  pub name : String
  pub passed : Bool
  pub detail : Detail

-- "pass", "fail", "pending"
pub data ReconciliationStatus : Type 0 where
  pass fail pending : ReconciliationStatus

pub record ReconciliationResponse : Type 0 where
  pub payment_id : UuidText
  pub payment_status : PaymentState
  pub reconciliation_status : ReconciliationStatus
  pub amount : ℤ
  pub currency : String
  pub ledger_transactions : ℕ
  pub ledger_entries : ℕ
  pub debit_total : ℤ
  pub credit_total : ℤ
  pub checks : List ReconciliationCheck

-- The ten checks of a settled payment.
unfoldable pub settled_checks : Payment → LedgerView → List ReconciliationCheck
settled_checks p v =
    record {
      name = "single_ledger_transaction";
      passed = v.transaction_count == 1;
      detail = expected_transactions 1 v.transaction_count;
    }
    ∷ record {
      name = "exactly_two_ledger_entries";
      passed = v.entry_count == 2;
      detail = expected_entries 2 v.entry_count;
    }
    ∷ record {
      name = "single_debit_entry";
      passed = v.debit_entry_count == 1;
      detail = expected_debits 1 v.debit_entry_count;
    }
    ∷ record {
      name = "single_credit_entry";
      passed = v.credit_entry_count == 1;
      detail = expected_credits 1 v.credit_entry_count;
    }
    ∷ record {
      name = "debit_matches_payment";
      passed = v.debit_matches_payment;
      detail = payment_and_debits p.amount v.debit_total;
    }
    ∷ record {
      name = "credit_matches_payment";
      passed = v.credit_matches_payment;
      detail = payment_and_credits p.amount v.credit_total;
    }
    ∷ record {
      name = "debits_equal_credits";
      passed = v.debit_credit_balanced;
      detail = debits_and_credits v.debit_total v.credit_total;
    }
    ∷ record {
      name = "currency_matches";
      passed = v.currency_matches;
      detail = expected_currency p.currency;
    }
    ∷ record {
      name = "debtor_was_debited";
      passed = v.debtor_debit_count == 1;
      detail = expected_one_debit p.debtor_account;
    }
    ∷ record {
      name = "creditor_was_credited";
      passed = v.creditor_credit_count == 1;
      detail = expected_one_credit p.creditor_account;
    }
    ∷ []

-- The loop over `result.Checks`, with its `break`.
unfoldable pub status_of : List ReconciliationCheck → ReconciliationStatus
status_of [] = pass
status_of (c ∷ cs) = if c.passed then status_of cs else fail

unfoldable pub unmoved_checks : LedgerView → List ReconciliationCheck
unmoved_checks v =
    record {
      name = "no_ledger_transaction";
      passed = v.transaction_count == 0;
      detail = expected_transactions 0 v.transaction_count;
    }
    ∷ record {
      name = "no_ledger_entries";
      passed = v.entry_count == 0;
      detail = expected_entries 0 v.entry_count;
    }
    ∷ []

unfoldable pub pending_checks : List ReconciliationCheck
pending_checks =
    record { name = "payment_terminal"; passed = false; detail = still_processing } ∷ []

abbrev pub result_of :
    UuidText
    → Payment
    → LedgerView
    → ReconciliationStatus
    → List ReconciliationCheck
    → ReconciliationResponse
result_of id p v status checks = record {
  payment_id = id;
  payment_status = p.status;
  reconciliation_status = status;
  amount = p.amount;
  currency = p.currency;
  ledger_transactions = v.transaction_count;
  ledger_entries = v.entry_count;
  debit_total = v.debit_total;
  credit_total = v.credit_total;
  checks = checks;
}

-- if noLedgerTransaction && noLedgerEntries { … }
unfoldable pub unmoved_status : LedgerView → ReconciliationStatus
unmoved_status v = if v.transaction_count == 0 && v.entry_count == 0 then pass else fail

-- By the status of the payment.
unfoldable pub judge : PaymentState → UuidText → Payment → LedgerView → ReconciliationResponse
judge settled id p v = let checks = settled_checks p v in result_of id p v (status_of checks) checks
judge failed id p v = result_of id p v (unmoved_status v) (unmoved_checks v)
judge rejected id p v = result_of id p v (unmoved_status v) (unmoved_checks v)
judge _ id p v = result_of id p v pending pending_checks

-- The two queries are two statements on the pool: the payment is read from `first`, the ledger from
-- `second`, and what other calls have committed in between lies between the two.
abbrev pub judged : UuidText → Db → Option Payment → Result ReconciliationResponse
judged id second none = err no_rows
judged id second (some p) = ok (judge p.status id p (ledger_view p second))

unfoldable pub reconcile_payment : UuidText → Db → Db → Result ReconciliationResponse
reconcile_payment none first second = err invalid_text
reconcile_payment (some id) first second = judged (some id) second (find_payment id first)
