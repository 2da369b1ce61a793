-- ===== src/Transition/Steps.antt =====
-- What one event does to the tables, over a connection that answers; and over any other, that it
-- is done whole or not at all.
use payment_rail_simulator.Prelude.{
  ℕ, ◌+◌, ◌<◌, String, false, ◌≡◌, refl, none, some, List, [], ◌∷◌, ◌++◌, arith, nat_eq,
  nat_beq_iff,
}
use payment_rail_simulator.Prelude.Table.{update, find-update}
use payment_rail_simulator.Payment.{
  PaymentState, PaymentEvent, Next, goes_to, invalid, next_payment_state,
}
use payment_rail_simulator.Store.{
  Uuid, Payment, LogEntry, Db, no_rows, invalid_event, ok, err, payment_key, find_payment,
}
use payment_rail_simulator.Store.Tx.{◌>>=◌, ◌>>◌, statement, query, wrap}
use payment_rail_simulator.Store.Calm.{calm}
use payment_rail_simulator.Store.Follows.{
  Body, Follows, Body-pure, Body-fail, body_rules, follows_rules,
}
use payment_rail_simulator.Transition.{
  max_sequence, has_sequence, insert_log_entry, with_status, update_status, or_invalid,
  apply_payment_event_tx, apply_payment_event,
}

-- The row that the event adds to the log.
abbrev pub next_entry :
    Uuid → PaymentEvent → String → PaymentState → PaymentState → List LogEntry → LogEntry
next_entry id event reason current next log = record {
  payment_id = id;
  sequence_number = max_sequence id log + 1;
  from_state = current;
  to_state = next;
  event_type = event;
  reason = reason;
}

-- The tables after payment `id` has gone from one state to the next.
unfoldable pub advanced : Uuid → PaymentEvent → String → PaymentState → PaymentState → Db → Db
advanced id event reason current next db = record db {
  payments = update payment_key id (with_status next reason) db.payments;
  transition_log =
      db.transition_log ++ next_entry id event reason current next db.transition_log ∷ [];
}

has_sequence_above :
    (id : Uuid) (n : ℕ) (log : List LogEntry)
    → max_sequence id log < n
    → has_sequence id n log ≡ false
unfolding max_sequence has_sequence
has_sequence_above id n [] h = refl
has_sequence_above id n (x ∷ xs) h = ground (arith, has_sequence_above id n xs)

pub find_payment-update :
    (id : Uuid) (next : PaymentState) (reason : String) (db : Db) {p : Payment}
    → find_payment id db ≡ some p
    → find_payment id
        (record db { payments = update payment_key id (with_status next reason) db.payments })
      ≡ some (with_status next reason p)
find_payment-update id next reason db h =
    rw (find-update payment_key id id (with_status next reason) db.payments (λ x. refl))
      (ground (arith, nat_beq_iff id id))

pub find_payment-advanced :
    (id : Uuid) (event : PaymentEvent) (reason : String) (current next : PaymentState) (db : Db)
    {p : Payment}
    → find_payment id db ≡ some p
    → find_payment id (advanced id event reason current next db) ≡ some (with_status next reason p)
unfolding advanced
find_payment-advanced id event reason current next db h = find_payment-update id next reason db h

insert_log_entry_at :
    (id : Uuid) (event : PaymentEvent) (reason : String) (current next : PaymentState) (db : Db)
    {p : Payment}
    → find_payment id db ≡ some p
    → let e = next_entry id event reason current next db.transition_log in
      insert_log_entry e db ≡ ok (tt, record db { transition_log = db.transition_log ++ e ∷ [] })
unfolding insert_log_entry
insert_log_entry_at id event reason current next db h = rw (
  h,
  has_sequence_above id (max_sequence id db.transition_log + 1) db.transition_log (omega arith),
)

module _ (id : Uuid) (event : PaymentEvent) (reason : String) (c w : Db) where
  pub apply_payment_event_tx_at :
      {p : Payment} {next : PaymentState}
      → find_payment id w ≡ some p
      → next_payment_state p.status event ≡ goes_to next
      → apply_payment_event_tx id event reason (calm c w)
        ≡ (ok next, calm c (advanced id event reason p.status next w))
  unfolding apply_payment_event_tx advanced update_status ◌>>=◌ ◌>>◌ statement query wrap
  apply_payment_event_tx_at {p} {next} h e =
      rw (h, e)
        (rw (
          insert_log_entry_at id event reason p.status next
            (record w { payments = update payment_key id (with_status next reason) w.payments })
            (find_payment-update id next reason w h)))

  -- The same, with the state that the payment is in named.
  pub apply_payment_event_tx_from :
      {p : Payment} {current next : PaymentState}
      → find_payment id w ≡ some p
      → p.status ≡ current
      → next_payment_state current event ≡ goes_to next
      → apply_payment_event_tx id event reason (calm c w)
        ≡ (ok next, calm c (advanced id event reason current next w))
  apply_payment_event_tx_from h at_state e =
      rw (← at_state) (apply_payment_event_tx_at h (rw (at_state) e))

  pub apply_payment_event_tx_absent :
      find_payment id w ≡ none
      → apply_payment_event_tx id event reason (calm c w) ≡ (err no_rows, calm c w)
  unfolding apply_payment_event_tx ◌>>=◌ query
  apply_payment_event_tx_absent h = rw h

  pub apply_payment_event_tx_refused :
      {p : Payment}
      → find_payment id w ≡ some p
      → next_payment_state p.status event ≡ invalid
      → apply_payment_event_tx id event reason (calm c w)
        ≡ (err (invalid_event p.status event), calm c w)
  unfolding apply_payment_event_tx ◌>>=◌ query
  apply_payment_event_tx_refused h e = rw (h, e)

Body-or_invalid :
    (current : PaymentState) (event : PaymentEvent) (n : Next) → Body (or_invalid current event n)
Body-or_invalid current event (goes_to next) = Body-pure next
Body-or_invalid current event invalid = Body-fail (invalid_event current event)

pub Body-apply_payment_event_tx :
    (id : Uuid) (event : PaymentEvent) (reason : String)
    → Body (apply_payment_event_tx id event reason)
unfolding apply_payment_event_tx
Body-apply_payment_event_tx id event reason = search (body_rules, Body-or_invalid) depth 30

-- A call of applyPaymentEvent over a connection that loses replies has the result and the tables of
-- the call over one that does not; or it returns the error of the lost reply, and the tables are
-- those from before the call or those of the whole call.
pub apply_payment_event-Follows :
    (id : Uuid) (event : PaymentEvent) (reason : String)
    → Follows (apply_payment_event id event reason)
unfolding apply_payment_event
apply_payment_event-Follows id event reason =
    search (follows_rules, Body-apply_payment_event_tx) depth 30
