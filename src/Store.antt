-- ===== src/Store.antt =====
-- The Postgres tables that the program keeps (schema.sql, ledger.sql, db/schema.sql), the errors
-- that its statements and its own checks give, and the tests of the column types.
pub mod Tx
pub mod Follows
pub mod Calm
use payment_rail_simulator.Prelude.{
  ℕ, ◌-◌, ◌^◌, String, Bool, ◌&&◌, Option, List, nat_eq, string_eq,
}
use payment_rail_simulator.Prelude.Int.{ℤ, pos, negsuc, leb_ℤ}
use payment_rail_simulator.Prelude.Table.{find}
use payment_rail_simulator.Payment.{PaymentState, PaymentEvent}

-- The value of a `uuid` column. They are only compared.
abbrev pub Uuid : Type 0
Uuid = ℕ

-- A text that is cast by `$1::uuid`: the value, or `none` where Postgres refuses the cast.
abbrev pub UuidText : Type 0
UuidText = Option Uuid

-- The sentinels of the program, `pgx.ErrNoRows`, the SQLSTATE classes that the tables can give
-- (22P02, 22001, 22003, 23503, 23505, 23514), a statement that got no answer, the error of
-- `NextPaymentState`, and `fmt.Errorf("…: %w", err)`.
pub data Error : Type 0 where
  payment_not_found payment_not_validated payment_not_awaiting_response : Error
  payment_not_accepted : Error
  no_rows : Error
  invalid_text value_too_long numeric_overflow : Error
  foreign_key_violation unique_violation check_violation : Error
  unavailable : Error
  invalid_event : PaymentState → PaymentEvent → Error
  wrapped : String → Error → Error

-- What `errors.Is` and `errors.As` look for at the end of a chain of `%w`.
unfoldable pub root : Error → Error
root (wrapped _ e) = root e
root e = e

pub data Result (A : Type 0) : Type 0 where
  ok : A → Result A
  err : Error → Result A

pub record Payment : Type 0 where
  pub id : Uuid
  pub uetr : String
  pub end_to_end_id : String
  pub instr_id : String
  pub tx_id : String
  pub msg_id : String
  pub amount : ℤ  -- NUMERIC(18,2), in cents
  pub currency : String
  pub debtor_name : String
  pub debtor_account : String
  pub debtor_agent : String
  pub creditor_name : String
  pub creditor_account : String
  pub creditor_agent : String
  pub remittance_info : String
  pub status : PaymentState
  pub reject_reason : String

pub record LogEntry : Type 0 where
  pub payment_id : Uuid
  pub sequence_number : ℕ  -- BIGINT
  pub from_state : PaymentState
  pub to_state : PaymentState
  pub event_type : PaymentEvent
  pub reason : String

pub record Account : Type 0 where
  pub account_id : String
  pub routing_number : String
  pub owner_name : String
  pub balance : ℤ
  pub reserved_balance : ℤ
  pub currency : String
  pub status : String

pub record LedgerTransaction : Type 0 where
  pub id : Uuid
  pub payment_id : Uuid
  pub currency : String

pub data EntryType : Type 0 where
  debit credit : EntryType

pub record LedgerEntry : Type 0 where
  pub ledger_transaction_id : Uuid
  pub account_id : String
  pub entry_type : EntryType
  pub amount : ℤ

-- "payment.validated", "payment.cleared", "payment.accepted"
pub data EventType : Type 0 where
  payment_validated payment_cleared payment_accepted : EventType

-- The JSON object of the payload: `payment_id`, and `uetr` where it is given.
pub record Payload : Type 0 where
  pub payment_id : Uuid
  pub uetr : Option String

pub record OutboxEvent : Type 0 where
  pub id : Uuid
  pub payment_id : Uuid
  pub event_type : EventType
  pub payload : Payload
  pub published : Bool  -- published_at IS NOT NULL

-- The rows of each table in the order of insertion.
pub record Db : Type 0 where
  pub payments : List Payment
  pub transition_log : List LogEntry
  pub accounts : List Account
  pub ledger_transactions : List LedgerTransaction
  pub ledger_entries : List LedgerEntry
  pub outbox_events : List OutboxEvent

-- NUMERIC(18,2) holds at most 18 digits.
unfoldable pub fits_numeric : ℤ → Bool
fits_numeric c = leb_ℤ c (pos (10 ^ 18 - 1)) && leb_ℤ (negsuc (10 ^ 18 - 2)) c

abbrev pub payment_key : Payment → Uuid
payment_key p = p.id

abbrev pub account_key : Account → String
account_key a = a.account_id

abbrev pub find_payment : Uuid → Db → Option Payment
find_payment k db = find payment_key k db.payments

abbrev pub find_account : String → Db → Option Account
find_account k db = find account_key k db.accounts
