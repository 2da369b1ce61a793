-- ===== src/Reconciliation/Agrees.antt =====
-- What the ledger says of a payment, by its rows: the description that a verdict is held against.
use payment_rail_simulator.Prelude.{
  ◌≡◌, refl, ◌⊎◌, inl, inr, List, [], ◌∷◌, arith, Bool-cases, nat_eq, string_eq, nat_beq_iff, ◌==◌,
}
use payment_rail_simulator.Store.{Uuid, Payment, LedgerTransaction, debit, credit, LedgerEntry, Db}
use payment_rail_simulator.Reconciliation.View.{transactions_of, entries_of}

-- `Picks P xs ys`: of the rows `xs`, those for which P holds are `ys`, in the same order.
pub data Picks {A : Type 0} (P : A → Type 0) : List A → List A → Type 0 where
  picks_none : Picks P [] []
  takes : {x : A} {xs ys : List A} → P x → Picks P xs ys → Picks P (x ∷ xs) (x ∷ ys)
  skips : {x : A} {xs ys : List A} → ¬ (P x) → Picks P xs ys → Picks P (x ∷ xs) ys

abbrev pub IsOfPayment : Uuid → LedgerTransaction → Type 0
IsOfPayment id t = t.payment_id ≡ id

abbrev pub IsOfTransaction : Uuid → LedgerEntry → Type 0
IsOfTransaction id e = e.ledger_transaction_id ≡ id

pub transactions_of-Picks :
    (id : Uuid) {ts xs : List LedgerTransaction}
    → Picks (IsOfPayment id) ts xs
    → transactions_of id ts ≡ xs
unfolding transactions_of
transactions_of-Picks id picks_none = refl
transactions_of-Picks id (takes {x = x} same more) =
    ground (arith, nat_beq_iff x.payment_id id, transactions_of-Picks id more, same)
transactions_of-Picks id (skips {x = x} other more) =
    ground (arith, nat_beq_iff x.payment_id id, transactions_of-Picks id more, other)

pub entries_of-Picks :
    (id : Uuid) {es xs : List LedgerEntry}
    → Picks (IsOfTransaction id) es xs
    → entries_of id es ≡ xs
unfolding entries_of
entries_of-Picks id picks_none = refl
entries_of-Picks id (takes {x = x} same more) =
    ground (arith, nat_beq_iff x.ledger_transaction_id id, entries_of-Picks id more, same)
entries_of-Picks id (skips {x = x} other more) =
    ground (arith, nat_beq_iff x.ledger_transaction_id id, entries_of-Picks id more, other)

pub Picks-transactions_of :
    (id : Uuid) (ts : List LedgerTransaction) → Picks (IsOfPayment id) ts (transactions_of id ts)
unfolding transactions_of
Picks-transactions_of id [] = picks_none
Picks-transactions_of id (t ∷ ts) = elim (Bool-cases (t.payment_id == id)) [
  | inl same ↦ rw same (takes ((nat_beq_iff t.payment_id id).0 same) (Picks-transactions_of id ts))
  | inr other ↦ rw other (
      skips (λ e. ground (arith, (nat_beq_iff t.payment_id id).1 e, other))
        (Picks-transactions_of id ts))
]

pub Picks-entries_of :
    (id : Uuid) (es : List LedgerEntry) → Picks (IsOfTransaction id) es (entries_of id es)
unfolding entries_of
Picks-entries_of id [] = picks_none
Picks-entries_of id (e ∷ es) = elim (Bool-cases (e.ledger_transaction_id == id)) [
  | inl same ↦
      rw same (takes ((nat_beq_iff e.ledger_transaction_id id).0 same) (Picks-entries_of id es))
  | inr other ↦ rw other (
      skips (λ h. ground (arith, (nat_beq_iff e.ledger_transaction_id id).1 h, other))
        (Picks-entries_of id es))
]

-- A debit of the debtor and a credit of the creditor, of the amount of the payment.
pub record IsBookingOf (p : Payment) (t : LedgerTransaction) (d c : LedgerEntry) : Type 0 where
  pub currency : t.currency ≡ p.currency
  pub is_debit_entry : d.entry_type ≡ debit
  pub debited : d.account_id ≡ p.debtor_account
  pub debit_amount : d.amount ≡ p.amount
  pub is_credit_entry : c.entry_type ≡ credit
  pub credited : c.account_id ≡ p.creditor_account
  pub credit_amount : c.amount ≡ p.amount

-- The ledger has one transaction of the payment, whose entries are one such pair, in either order.
pub record Agrees (p : Payment) (db : Db) : Type 0 where
  pub booking : LedgerTransaction
  pub debited_by : LedgerEntry
  pub credited_by : LedgerEntry
  pub one_transaction : Picks (IsOfPayment p.id) db.ledger_transactions (booking ∷ [])
  pub two_entries :
      Picks (IsOfTransaction booking.id) db.ledger_entries (debited_by ∷ credited_by ∷ [])
      ⊎ Picks (IsOfTransaction booking.id) db.ledger_entries (credited_by ∷ debited_by ∷ [])
  pub is_booking : IsBookingOf p booking debited_by credited_by

-- The ledger has no transaction of the payment, and so no entry.
abbrev pub HasNothing : Payment → Db → Type 0
HasNothing p db = Picks (IsOfPayment p.id) db.ledger_transactions []
