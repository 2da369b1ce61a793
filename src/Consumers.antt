-- ===== src/Consumers.antt =====
-- clearing_consumer.go, receiver_consumer.go and settlement_consumer.go: the three workers of the
-- topic. The client of Kafka decides which record comes and is told when it is done.
pub mod Once
pub mod Handled
pub mod Laws
pub mod Instances
pub mod Order
use payment_rail_simulator.Prelude.{
  Bool, true, false, Option, none, some, List, [], ◌∷◌, if◌then◌else◌,
}
use payment_rail_simulator.Store.{
  Uuid, UuidText, EventType, payment_validated, payment_cleared, payment_accepted, Db, Error,
  payment_not_validated, payment_not_awaiting_response, payment_not_accepted, root, Result, ok, err,
}
use payment_rail_simulator.Store.Tx.{Reply, Session}
use payment_rail_simulator.Clearing.{clear_payment}
use payment_rail_simulator.Receiver.{ReceiverPaymentResult, respond_to_payment}
use payment_rail_simulator.Settlement.{settle_payment}
use payment_rail_simulator.Publisher.{KafkaPaymentEvent}

-- One attempt: the id that a new row gets, and the replies of the connection.
pub record Attempt : Type 0 where
  pub new_id : Uuid
  pub replies : List Reply

abbrev pub attempt_session : Attempt → Db → Session
attempt_session a db = record { committed = db; working = db; replies = a.replies }

-- A business transaction, with the id that a new row gets.
abbrev pub Call : Type 0 → Type 0
Call R = Uuid → UuidText → Session → Result R × Session

module _ {R : Type 0} (call : Call R) (is_duplicate : Error → Bool) where
  -- `err == nil`, or `errors.Is(err, …)`: the loop is left.
  abbrev pub is_handled : Result R → Bool
  is_handled (ok r) = true
  is_handled (err e) = is_duplicate (root e)

  -- The retry loop, for the attempts that are made before the program shuts down: whether the event
  -- has been handled, and the tables.
  unfoldable pub until_handled : UuidText → List Attempt → Db → Bool × Db
  until_handled id [] db = (false, db)
  until_handled id (a ∷ more) db =
      let (r, s) = call a.new_id id (attempt_session a db) in
      let rest = until_handled id more s.committed in
      if is_handled r then (true, s.committed) else rest

abbrev pub is_not_validated : Error → Bool
is_not_validated payment_not_validated = true
is_not_validated _ = false

abbrev pub is_not_awaiting : Error → Bool
is_not_awaiting payment_not_awaiting_response = true
is_not_awaiting _ = false

abbrev pub is_not_accepted : Error → Bool
is_not_accepted payment_not_accepted = true
is_not_accepted _ = false

abbrev pub clear_until_handled : UuidText → List Attempt → Db → Bool × Db
clear_until_handled = until_handled clear_payment is_not_validated

-- The simulated receiving bank accepts always.
abbrev pub always_accepts : Call ReceiverPaymentResult
always_accepts event_id id = respond_to_payment event_id id true ""

abbrev pub accept_until_handled : UuidText → List Attempt → Db → Bool × Db
accept_until_handled = until_handled always_accepts is_not_awaiting

abbrev pub settle_until_handled : UuidText → List Attempt → Db → Bool × Db
settle_until_handled = until_handled settle_payment is_not_accepted

-- The clearing worker is for the events of validated payments only.
abbrev pub clear_if_validated : EventType → Uuid → List Attempt → Db → Bool × Db
clear_if_validated payment_validated id more db = clear_until_handled (some id) more db
clear_if_validated _ id more db = (true, db)

abbrev pub accept_if_cleared : EventType → Uuid → List Attempt → Db → Bool × Db
accept_if_cleared payment_cleared id more db = accept_until_handled (some id) more db
accept_if_cleared _ id more db = (true, db)

abbrev pub settle_if_accepted : EventType → Uuid → List Attempt → Db → Bool × Db
settle_if_accepted payment_accepted id more db = settle_until_handled (some id) more db
settle_if_accepted _ id more db = (true, db)

-- One record, `none` where it does not decode: whether Kafka is asked to commit it, and the tables.
unfoldable pub consume_clearing : Option KafkaPaymentEvent → List Attempt → Db → Bool × Db
consume_clearing none more db = (true, db)
consume_clearing (some event) more db = clear_if_validated event.event_type event.payment_id more db

unfoldable pub consume_receiver : Option KafkaPaymentEvent → List Attempt → Db → Bool × Db
consume_receiver none more db = (true, db)
consume_receiver (some event) more db = accept_if_cleared event.event_type event.payment_id more db

unfoldable pub consume_settlement : Option KafkaPaymentEvent → List Attempt → Db → Bool × Db
consume_settlement none more db = (true, db)
consume_settlement (some event) more db =
    settle_if_accepted event.event_type event.payment_id more db

-- What one poll returns: the context is done, Kafka reports errors, nothing has come, or one record
-- with the attempts that will be made on it.
pub data Poll : Type 0 where
  cancelled errors empty : Poll
  polled : Option KafkaPaymentEvent → List Attempt → Poll

module _ (consume : Option KafkaPaymentEvent → List Attempt → Db → Bool × Db) where
  -- The outer loop of a worker over the polls that it makes: the records that it asks Kafka to commit,
  -- in this order, and the tables. A record that is not handled when the context ends stops the worker.
  unfoldable pub run_consumer : List Poll → Db → List (Option KafkaPaymentEvent) × Db
  run_consumer [] db = ([], db)
  run_consumer (cancelled ∷ more) db = ([], db)
  run_consumer (errors ∷ more) db = run_consumer more db
  run_consumer (empty ∷ more) db = run_consumer more db
  run_consumer (polled event attempts ∷ more) db =
      let (handled, v) = consume event attempts db in
      let (commits, last) = run_consumer more v in
      if handled then (event ∷ commits, last) else ([], v)

abbrev pub run_clearing_consumer : List Poll → Db → List (Option KafkaPaymentEvent) × Db
run_clearing_consumer = run_consumer consume_clearing

abbrev pub run_receiver_consumer : List Poll → Db → List (Option KafkaPaymentEvent) × Db
run_receiver_consumer = run_consumer consume_receiver

abbrev pub run_settlement_consumer : List Poll → Db → List (Option KafkaPaymentEvent) × Db
run_settlement_consumer = run_consumer consume_settlement
