-- ===== src/Effects/Bookings.antt =====
-- The bookings of a payment: its transactions in the ledger, with their entries.
use payment_rail_simulator.Prelude.{
  true, false, ◌≡◌, refl, Option, none, some, List, [], ◌∷◌, ◌++◌, inl, inr, arith, ◌==◌, nat_eq,
  Bool-cases, if◌then◌else◌,
}
use payment_rail_simulator.Payment.{PaymentState, settled}
use payment_rail_simulator.Store.{Uuid, Payment, LedgerTransaction, LedgerEntry, Db, find_payment}
use payment_rail_simulator.Ledger.{has_ledger_transaction}
use payment_rail_simulator.Reconciliation.View.{transactions_of, entries_of}
use payment_rail_simulator.Effects.{debit_of, credit_of}

module _ (ts : List LedgerTransaction) (es : List LedgerEntry) where
  -- One transaction in the currency of the payment, with a debit of its debtor and a credit of its
  -- creditor, each of its amount.
  abbrev pub IsBookedOnce : Uuid → Payment → Type 0
  IsBookedOnce id p =
      (t : LedgerTransaction) × (transactions_of id ts ≡ t ∷ [])
      × (t.currency ≡ p.currency)
      × (entries_of t.id es ≡ debit_of t.id p ∷ credit_of t.id p ∷ [])

  abbrev pub LedgerFor : PaymentState → Uuid → Payment → Type 0
  LedgerFor settled id p = IsBookedOnce id p
  LedgerFor _ id p = transactions_of id ts ≡ []

  abbrev pub LedgerAt : Uuid → Option Payment → Type 0
  LedgerAt id none = transactions_of id ts ≡ []
  LedgerAt id (some p) = LedgerFor p.status id p

-- A payment is booked once if it is settled and not at all if it is not, and every entry belongs to
-- a transaction.
pub record IsBalanced (db : Db) : Type 0 where
  pub at : (id : Uuid) → LedgerAt db.ledger_transactions db.ledger_entries id (find_payment id db)
  pub owned :
      (id : Uuid)
      → has_ledger_transaction id db.ledger_transactions ≡ false
      → entries_of id db.ledger_entries ≡ []

pub transactions_of-append :
    (id : Uuid) (ts : List LedgerTransaction) (t : LedgerTransaction)
    → transactions_of id (ts ++ t ∷ [])
      ≡ transactions_of id ts ++ (if t.payment_id == id then t ∷ [] else [])
unfolding transactions_of
transactions_of-append id [] t = refl
transactions_of-append id (x ∷ xs) t = ground (arith, transactions_of-append id xs t)

pub entries_of-append :
    (id : Uuid) (es fs : List LedgerEntry)
    → entries_of id (es ++ fs) ≡ entries_of id es ++ entries_of id fs
unfolding entries_of
entries_of-append id [] fs = refl
entries_of-append id (x ∷ xs) fs = ground (arith, entries_of-append id xs fs)

pub has_ledger_transaction-found :
    (id : Uuid) (ts : List LedgerTransaction) {t : LedgerTransaction}
    {rest : List LedgerTransaction}
    → transactions_of id ts ≡ t ∷ rest
    → has_ledger_transaction t.id ts ≡ true
unfolding transactions_of has_ledger_transaction
has_ledger_transaction-found id [] h = cc
has_ledger_transaction-found id (x ∷ xs) {t} {rest} h = elim (Bool-cases (x.payment_id == id)) [
  | inl here ↦ let same : x ≡ t = ground arith in ground (arith, same)
  | inr away ↦
      ground (arith, has_ledger_transaction-found id xs {t = t} {rest = rest} (ground arith))
]

pub has_ledger_transaction-append :
    (id : Uuid) (ts : List LedgerTransaction) (t : LedgerTransaction)
    → has_ledger_transaction id (ts ++ t ∷ []) ≡ false
    → (has_ledger_transaction id ts ≡ false) × ((t.id == id) ≡ false)
unfolding has_ledger_transaction
has_ledger_transaction-append id [] t h = ground arith
has_ledger_transaction-append id (x ∷ xs) t h =
    ground (arith, has_ledger_transaction-append id xs t)
