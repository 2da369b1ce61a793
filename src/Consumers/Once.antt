-- ===== src/Consumers/Once.antt =====
-- What the three workers do to the tables when they try one record several times.
use payment_rail_simulator.Prelude.{
  Bool, Option, ◌≡◌, refl, true, ◌⊎◌, inl, inr, some, List, [], ◌∷◌, ◌++◌,
}
use payment_rail_simulator.Store.{
  Uuid, UuidText, EventType, payment_validated, payment_cleared, payment_accepted, Db,
}
use payment_rail_simulator.Publisher.{KafkaPaymentEvent}
use payment_rail_simulator.Consumers.{
  Attempt, clear_if_validated, accept_if_cleared, settle_if_accepted, consume_clearing,
  consume_receiver, consume_settlement,
}
use payment_rail_simulator.Consumers.Handled.{loop-Once, loop-Ends, calm_attempt}
use payment_rail_simulator.Books.{All}
use payment_rail_simulator.Consumers.Instances.{
  Cleared, CanBeCleared, clear-TakesFrom, Accepted, CanBeAccepted, accept-TakesFrom, Booked,
  CanBeSettled, settle-TakesFrom,
}

abbrev pub ClearedOnce : UuidText → Db → Db → Type 0
ClearedOnce id db v = (event_id : Uuid) × Cleared event_id id db v

abbrev pub AcceptedOnce : UuidText → Db → Db → Type 0
AcceptedOnce id db v = (event_id : Uuid) × Accepted event_id id db v

-- The payment with this id has been settled once, with all of `CanSettle` before.
abbrev pub SettledOnce : UuidText → Db → Db → Type 0
SettledOnce id db v = (ledger_id : Uuid) × Booked ledger_id id db v

clear_if_validated-once :
    (t : EventType) (id : Uuid) (more : List Attempt) (db : Db)
    → let v = (clear_if_validated t id more db).1 in
      (v ≡ db) ⊎ ((t ≡ payment_validated) × ClearedOnce (some id) db v)
clear_if_validated-once payment_validated id more db =
    elim (loop-Once clear-TakesFrom (some id) more db) [
      | inl same ↦ inl same
      | inr once ↦ inr (refl, once)
    ]
clear_if_validated-once _ id more db = inl refl

-- However often the clearing worker tries one record and whatever replies are lost, while no other
-- call comes in between: the tables are as they were; or the event says that a payment was validated,
-- and that payment, which stood there, has gone through clearing exactly once, to be forwarded or to
-- fail on one of the two checks.
pub consume_clearing-once :
    (event : KafkaPaymentEvent) (more : List Attempt) (db : Db)
    → let v = (consume_clearing (some event) more db).1 in
      (v ≡ db) ⊎ ((event.event_type ≡ payment_validated) × ClearedOnce (some event.payment_id) db v)
unfolding consume_clearing
consume_clearing-once event more db =
    clear_if_validated-once event.event_type event.payment_id more db

accept_if_cleared-once :
    (t : EventType) (id : Uuid) (more : List Attempt) (db : Db)
    → let v = (accept_if_cleared t id more db).1 in
      (v ≡ db) ⊎ ((t ≡ payment_cleared) × AcceptedOnce (some id) db v)
accept_if_cleared-once payment_cleared id more db =
    elim (loop-Once accept-TakesFrom (some id) more db) [
      | inl same ↦ inl same
      | inr once ↦ inr (refl, once)
    ]
accept_if_cleared-once _ id more db = inl refl

-- However often the receiver worker tries one record and whatever replies are lost, while no other
-- call comes in between: the tables are as they were; or the event says that a payment was cleared, and
-- that payment, which awaited its answer, has been accepted exactly once.
pub consume_receiver-once :
    (event : KafkaPaymentEvent) (more : List Attempt) (db : Db)
    → let v = (consume_receiver (some event) more db).1 in
      (v ≡ db) ⊎ ((event.event_type ≡ payment_cleared) × AcceptedOnce (some event.payment_id) db v)
unfolding consume_receiver
consume_receiver-once event more db =
    accept_if_cleared-once event.event_type event.payment_id more db

settle_if_accepted-once :
    (t : EventType) (id : Uuid) (more : List Attempt) (db : Db)
    → let v = (settle_if_accepted t id more db).1 in
      (v ≡ db) ⊎ ((t ≡ payment_accepted) × SettledOnce (some id) db v)
settle_if_accepted-once payment_accepted id more db =
    elim (loop-Once settle-TakesFrom (some id) more db) [
      | inl same ↦ inl same
      | inr once ↦ inr (refl, once)
    ]
settle_if_accepted-once _ id more db = inl refl

-- However often one record is tried and whatever replies are lost, while no other call comes in
-- between: the tables are as they were; or the event says that a payment was accepted, and that
-- payment, which was ready to be settled, has been settled exactly once.
pub consume_settlement-once :
    (event : KafkaPaymentEvent) (more : List Attempt) (db : Db)
    → let v = (consume_settlement (some event) more db).1 in
      (v ≡ db) ⊎ ((event.event_type ≡ payment_accepted) × SettledOnce (some event.payment_id) db v)
unfolding consume_settlement
consume_settlement-once event more db =
    settle_if_accepted-once event.event_type event.payment_id more db

-- The worker that an event is for.
abbrev pub consume : EventType → Option KafkaPaymentEvent → List Attempt → Db → Bool × Db
consume payment_validated = consume_clearing
consume payment_cleared = consume_receiver
consume payment_accepted = consume_settlement

-- The payment is ready for the worker, under the new id.
abbrev pub IsReadyFor : EventType → Uuid → UuidText → Db → Type 0
IsReadyFor payment_validated = CanBeCleared
IsReadyFor payment_cleared = CanBeAccepted
IsReadyFor payment_accepted = CanBeSettled

abbrev pub WorkedOnce : EventType → UuidText → Db → Db → Type 0
WorkedOnce payment_validated = ClearedOnce
WorkedOnce payment_cleared = AcceptedOnce
WorkedOnce payment_accepted = SettledOnce

handled_by_type :
    (event : KafkaPaymentEvent) (t : EventType)
    → event.event_type ≡ t
    → (before : List Attempt) (a : Uuid) (db : Db)
    → All (λ (x : Attempt). IsReadyFor t x.new_id (some event.payment_id) db) before
    → IsReadyFor t a (some event.payment_id) db
    → let r = consume t (some event) (before ++ calm_attempt a ∷ []) db in
      (r.0 ≡ true) × WorkedOnce t (some event.payment_id) db r.1
unfolding consume_clearing consume_receiver consume_settlement
handled_by_type event payment_validated e before a db all last =
    rw e (loop-Ends clear-TakesFrom (some event.payment_id) before a db all last)
handled_by_type event payment_cleared e before a db all last =
    rw e (loop-Ends accept-TakesFrom (some event.payment_id) before a db all last)
handled_by_type event payment_accepted e before a db all last =
    rw e (loop-Ends settle-TakesFrom (some event.payment_id) before a db all last)

-- The worker that an event is for, with a payment that is ready for it under the new ids of all
-- attempts, and no other call in between: whatever replies are lost at first, once an attempt is
-- answered throughout, Kafka is asked to commit the record, and the payment has been cleared, accepted
-- or settled exactly once.
pub consume-handles :
    (event : KafkaPaymentEvent) (before : List Attempt) (a : Uuid) (db : Db)
    → All (λ (x : Attempt). IsReadyFor event.event_type x.new_id (some event.payment_id) db) before
    → IsReadyFor event.event_type a (some event.payment_id) db
    → let r = consume event.event_type (some event) (before ++ calm_attempt a ∷ []) db in
      (r.0 ≡ true) × WorkedOnce event.event_type (some event.payment_id) db r.1
consume-handles event = handled_by_type event event.event_type refl
