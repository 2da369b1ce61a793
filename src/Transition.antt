-- ===== src/Transition.antt =====
-- transitions.go: one event of a payment, inside the caller's transaction or in one of its own.
pub mod Steps
use Prim.Native.Nat.{max}
use payment_rail_simulator.Prelude.{
  ℕ, ◌+◌, String, Bool, true, false, ◌&&◌, ◌||◌, Option, none, some, List, [], ◌∷◌, ◌++◌, ◌==◌,
  nat_eq, if◌then◌else◌,
}
use payment_rail_simulator.Prelude.Table.{update}
use payment_rail_simulator.Payment.{
  PaymentState, PaymentEvent, Next, goes_to, invalid, next_payment_state,
}
use payment_rail_simulator.Store.{
  Uuid, Payment, LogEntry, Db, Error, foreign_key_violation, unique_violation, invalid_event,
  Result, ok, err, payment_key, find_payment,
}
use payment_rail_simulator.Store.Tx.{
  Tx, pure, fail, statement, query, require_row, wrap, ◌>>=◌, ◌>>◌, begin, commit,
}

-- SELECT COALESCE(MAX(sequence_number), 0) … WHERE payment_id = $1
unfoldable pub max_sequence : Uuid → List LogEntry → ℕ
max_sequence id [] = 0
max_sequence id (x ∷ xs) =
    if x.payment_id == id then max x.sequence_number (max_sequence id xs) else max_sequence id xs

-- UNIQUE (payment_id, sequence_number)
unfoldable pub has_sequence : Uuid → ℕ → List LogEntry → Bool
has_sequence id n [] = false
has_sequence id n (x ∷ xs) = (x.payment_id == id && x.sequence_number == n) || has_sequence id n xs

-- `payment_id … REFERENCES payments(id)`
abbrev pub if_references : {A : Type 0} → Option Payment → Result A → Result A
if_references none r = err foreign_key_violation
if_references (some p) r = r

unfoldable pub insert_log_entry : LogEntry → Db → Result (Unit {0} × Db)
unfolding has_sequence
insert_log_entry e db = if_references (find_payment e.payment_id db) (
    if has_sequence e.payment_id e.sequence_number db.transition_log
    then err unique_violation
    else ok (tt, record db { transition_log = db.transition_log ++ e ∷ [] }))

abbrev pub with_status : PaymentState → String → Payment → Payment
with_status next reason p = record p { status = next; reject_reason = reason }

-- UPDATE payments SET status = $1, reject_reason = $2 WHERE id = $3
unfoldable pub update_status : Uuid → PaymentState → String → Db → Result (Unit {0} × Db)
update_status id next reason db =
    ok (tt, record db { payments = update payment_key id (with_status next reason) db.payments })

abbrev pub or_invalid : PaymentState → PaymentEvent → Next → Tx PaymentState
or_invalid current event (goes_to next) = pure next
or_invalid current event invalid = fail (invalid_event current event)

unfoldable pub apply_payment_event_tx : Uuid → PaymentEvent → String → Tx PaymentState
apply_payment_event_tx id event reason = do
  row ← query (find_payment id)
  payment ← require_row row
  next ← or_invalid payment.status event (next_payment_state payment.status event)
  n ← statement (λ db. ok (max_sequence id db.transition_log + 1, db))
  statement (update_status id next reason)
  wrap "failed to insert into payment_transition_log" (
      statement (
        insert_log_entry (record {
          payment_id = id;
          sequence_number = n;
          from_state = payment.status;
          to_state = next;
          event_type = event;
          reason = reason;
        })))
  pure next

unfoldable pub apply_payment_event : Uuid → PaymentEvent → String → Tx PaymentState
apply_payment_event id event reason = do
  begin
  final ← apply_payment_event_tx id event reason
  commit
  pure final
