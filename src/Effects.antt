-- ===== src/Effects.antt =====
-- What a call of a business transaction does to the committed tables, as the rows that it adds and
-- changes: one type for submit, clearing, the receiver's answer and settlement.
pub mod Calls
pub mod Submits
pub mod Bookings
pub mod Booked
pub mod History
use payment_rail_simulator.Prelude.{String, false, ◌≡◌, ◌⊎◌, nat_eq, some, List, [], ◌∷◌, ◌++◌}
use payment_rail_simulator.Prelude.Table.{update}
use payment_rail_simulator.Payment.{
  PaymentState, PaymentEvent, received, validated, rejected, awaiting_response, failed, accepted,
  settled, goes_to, next_payment_state,
}
use payment_rail_simulator.Store.{
  Uuid, Payment, LogEntry, LedgerTransaction, LedgerEntry, OutboxEvent, payment_validated,
  payment_cleared, payment_accepted, debit, credit, Db, payment_key, find_payment,
}
use payment_rail_simulator.Transition.{with_status}
use payment_rail_simulator.Transition.Steps.{next_entry}
use payment_rail_simulator.Ledger.{has_ledger_transaction, is_booked}
use payment_rail_simulator.Intake.{is_taken}

-- The transition log with one more transition.
abbrev pub logged :
    Uuid → PaymentEvent → String → PaymentState → PaymentState → List LogEntry → List LogEntry
logged id event reason current next log = log ++ next_entry id event reason current next log ∷ []

-- The log grows by transitions of one payment, which lead from the first state to the second.
pub data Logs (id : Uuid) (s : PaymentState) (log : List LogEntry)
    : PaymentState → List LogEntry → Type 0 where
  nothing : Logs id s log s log
  also :
      {t u : PaymentState} {grown more : List LogEntry} (event : PaymentEvent) (reason : String)
      → Logs id s log t grown
      → next_payment_state t event ≡ goes_to u
      → more ≡ logged id event reason t u grown
      → Logs id s log u more

-- The changes of state that a committed call can show, but for settlement.
pub data Turn : PaymentState → PaymentState → Type 0 where
  refused : Turn validated failed
  cleared : Turn validated awaiting_response
  agreed : Turn awaiting_response accepted
  declined : Turn awaiting_response failed

abbrev pub SameLedger : Db → Db → Type 0
SameLedger c v =
    (v.ledger_transactions ≡ c.ledger_transactions) × (v.ledger_entries ≡ c.ledger_entries)

-- The outbox gets an event for the worker that takes a payment in this state further, and none where
-- there is no such worker.
abbrev pub Announces : PaymentState → Uuid → List OutboxEvent → List OutboxEvent → Type 0
Announces validated id es more =
    (e : OutboxEvent) × (e.payment_id ≡ id)
    × (e.event_type ≡ payment_validated)
    × (more ≡ es ++ e ∷ [])
Announces awaiting_response id es more =
    (e : OutboxEvent) × (e.payment_id ≡ id)
    × (e.event_type ≡ payment_cleared)
    × (more ≡ es ++ e ∷ [])
Announces accepted id es more =
    (e : OutboxEvent) × (e.payment_id ≡ id)
    × (e.event_type ≡ payment_accepted)
    × (more ≡ es ++ e ∷ [])
Announces _ id es more = more ≡ es

-- A new payment, valid or rejected.
pub record Stored (p : Payment) (c v : Db) : Type 0 where
  pub free : is_taken p.id p.uetr c.payments ≡ false
  pub verdict : (p.status ≡ validated) ⊎ (p.status ≡ rejected)
  pub payments : v.payments ≡ c.payments ++ p ∷ []
  pub log : Logs p.id received c.transition_log p.status v.transition_log
  pub ledger : SameLedger c v
  pub outbox : Announces p.status p.id c.outbox_events v.outbox_events

-- A change of state of one payment.
pub record Turned (p : Payment) (before next : PaymentState) (reason : String) (c v : Db)
    : Type 0 where
  pub row : find_payment p.id c ≡ some p
  pub stands : p.status ≡ before
  pub turn : Turn before next
  pub payments : v.payments ≡ update payment_key p.id (with_status next reason) c.payments
  pub log : Logs p.id before c.transition_log next v.transition_log
  pub ledger : SameLedger c v
  pub outbox : Announces next p.id c.outbox_events v.outbox_events

abbrev pub transaction_of : Uuid → Payment → LedgerTransaction
transaction_of ledger_id p = record { id = ledger_id; payment_id = p.id; currency = p.currency }

abbrev pub debit_of : Uuid → Payment → LedgerEntry
debit_of ledger_id p = record {
  ledger_transaction_id = ledger_id;
  account_id = p.debtor_account;
  entry_type = debit;
  amount = p.amount;
}

abbrev pub credit_of : Uuid → Payment → LedgerEntry
credit_of ledger_id p = record {
  ledger_transaction_id = ledger_id;
  account_id = p.creditor_account;
  entry_type = credit;
  amount = p.amount;
}

-- A settlement, with its rows in the ledger.
pub record Settled (p : Payment) (ledger_id : Uuid) (c v : Db) : Type 0 where
  pub row : find_payment p.id c ≡ some p
  pub stands : p.status ≡ accepted
  pub unused : has_ledger_transaction ledger_id c.ledger_transactions ≡ false
  pub unbooked : is_booked p.id c.ledger_transactions ≡ false
  pub payments : v.payments ≡ update payment_key p.id (with_status settled "") c.payments
  pub log : Logs p.id accepted c.transition_log settled v.transition_log
  pub transactions :
      v.ledger_transactions ≡ c.ledger_transactions ++ transaction_of ledger_id p ∷ []
  pub entries :
      v.ledger_entries ≡ c.ledger_entries ++ debit_of ledger_id p ∷ credit_of ledger_id p ∷ []
  pub outbox : v.outbox_events ≡ c.outbox_events

pub data Effect (c v : Db) : Type 0 where
  stays : v ≡ c → Effect c v
  stores : (p : Payment) → Stored p c v → Effect c v
  turns :
      (p : Payment) (before next : PaymentState) (reason : String)
      → Turned p before next reason c v
      → Effect c v
  settles : (p : Payment) (ledger_id : Uuid) → Settled p ledger_id c v → Effect c v
