-- ===== src/Queries/Booking.antt =====
-- handleGetLedger of ledger.go: the booking of a payment.
use mathlib.Core.List.{map}
use payment_rail_simulator.Prelude.{
  ℕ, false, ◌≡◌, refl, String, Option, none, some, List, [], ◌∷◌, ◌==◌, nat_eq, string_eq, ◌⊎◌, inl,
  inr, ◌≢◌, arith,
}
use payment_rail_simulator.Prelude.Int.{ℤ}
use payment_rail_simulator.Payment.{PaymentState, settled}
use payment_rail_simulator.Store.{
  Uuid, UuidText, Payment, LedgerTransaction, EntryType, debit, credit, LedgerEntry, Db, Error,
  no_rows, invalid_text, Result, ok, err,
}
use payment_rail_simulator.Store.Tx.{Reply, answered}
use payment_rail_simulator.Handlers.{Answer, text_answer, json_answer}
use payment_rail_simulator.Reconciliation.View.{transactions_of, entries_of}
use payment_rail_simulator.Effects.Bookings.{IsBookedOnce, LedgerFor, LedgerAt}
use payment_rail_simulator.Queries.{select, select_row, for_get}

pub record LedgerEntryResponse : Type 0 where
  pub account_id : String
  pub entry_type : EntryType
  pub amount : ℤ

pub record LedgerResponse : Type 0 where
  pub payment_id : String
  pub ledger_transaction_id : Uuid
  pub currency : String
  pub entries : List LedgerEntryResponse

abbrev pub entry_row : LedgerEntry → LedgerEntryResponse
entry_row e = record { account_id = e.account_id; entry_type = e.entry_type; amount = e.amount }

-- `QueryRow` reads the first row.
abbrev pub first_row : {A : Type 0} → List A → Option A
first_row [] = none
first_row (x ∷ xs) = some x

-- SELECT id, currency FROM ledger_transactions WHERE payment_id = $1::uuid
abbrev pub select_transaction : UuidText → Reply → Db → Result LedgerTransaction
select_transaction none answered db = err invalid_text
select_transaction none reply db = select_row reply none
select_transaction (some id) reply db =
    select_row reply (first_row (transactions_of id db.ledger_transactions))

abbrev pub ledger_code : Error → ℕ
ledger_code no_rows = 404
ledger_code _ = 500

abbrev pub entries_answer :
    String → LedgerTransaction → Result (List LedgerEntry) → Answer LedgerResponse
entries_answer payment_id t (ok es) = json_answer 200 (record {
  payment_id = payment_id;
  ledger_transaction_id = t.id;
  currency = t.currency;
  entries = map entry_row es;
})
entries_answer payment_id t (err e) = text_answer 500

-- The second query reads the entries of the transaction, in the order of their ids.
abbrev pub ledger_answer : String → Reply → Db → Result LedgerTransaction → Answer LedgerResponse
ledger_answer payment_id reply second (ok t) =
    entries_answer payment_id t (select reply (entries_of t.id second.ledger_entries))
ledger_answer payment_id reply second (err e) = text_answer (ledger_code e)

-- The two queries read from `first` and `second`, and `to_uuid` is the cast of Postgres.
unfoldable pub handle_get_ledger :
    (String → UuidText) → String → String → Reply → Reply → Db → Db → Answer LedgerResponse
handle_get_ledger to_uuid method payment_id reply reply' first second =
    for_get method payment_id
      (ledger_answer payment_id reply' second (select_transaction (to_uuid payment_id) reply first))

-- The booking of payment `p` as one transaction with a debit and a credit of its amount.
abbrev pub booking_of : String → Uuid → Payment → LedgerResponse
booking_of payment_id ledger_id p = record {
  payment_id = payment_id;
  ledger_transaction_id = ledger_id;
  currency = p.currency;
  entries =
      record { account_id = p.debtor_account; entry_type = debit; amount = p.amount }
      ∷ record { account_id = p.creditor_account; entry_type = credit; amount = p.amount }
      ∷ [];
}

-- What the ledger says of a payment, by its row.
abbrev pub LedgerShows : String → Answer LedgerResponse → Option Payment → Type 0
LedgerShows text r none = r ≡ text_answer 404
LedgerShows text r (some p) =
    ((p.status ≡ settled)
      × ((ledger_id : Uuid) × (r ≡ json_answer 200 (booking_of text ledger_id p))))
    ⊎ ((p.status ≢ settled) × (r ≡ text_answer 404))

module _ (to_uuid : String → UuidText) (text : String) (id : Uuid) (db : Db)
    (named : (text == "") ≡ false) (cast : to_uuid text ≡ some id) where
  abbrev pub asked : Answer LedgerResponse
  asked = handle_get_ledger to_uuid "GET" text answered answered db db

  unbooked-asked : transactions_of id db.ledger_transactions ≡ [] → asked ≡ text_answer 404
  unfolding handle_get_ledger
  unbooked-asked e = rw (named, cast, e) refl

  booked-asked :
      (p : Payment)
      → IsBookedOnce db.ledger_transactions db.ledger_entries id p
      → (ledger_id : Uuid) × (asked ≡ json_answer 200 (booking_of text ledger_id p))
  unfolding handle_get_ledger
  booked-asked p (t, one, money, both) = (t.id, rw (named, cast, one, both, money) refl)

  by_status :
      (p : Payment) (s : PaymentState)
      → p.status ≡ s
      → LedgerFor db.ledger_transactions db.ledger_entries s id p
      → LedgerShows text asked (some p)
  by_status p settled e h = inl (e, booked-asked p h)
  by_status p _ e h = inr (λ k. ground arith, unbooked-asked h)

  pub asked-LedgerShows :
      (o : Option Payment)
      → LedgerAt db.ledger_transactions db.ledger_entries id o
      → LedgerShows text asked o
  asked-LedgerShows none h = unbooked-asked h
  asked-LedgerShows (some p) h = by_status p p.status refl h
