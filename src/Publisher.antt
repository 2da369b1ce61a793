-- ===== src/Publisher.antt =====
-- kafka.go and the reading half of outbox.go: the worker that hands the events of the outbox to Kafka.
pub mod Delivery
pub mod Drain
pub mod Rounds
pub mod Worker
use payment_rail_simulator.Prelude.{
  ℕ, zero, suc, Bool, true, false, Option, none, some, List, [], ◌∷◌, ◌++◌, ◌≡◌, ◌==◌, nat_eq,
  length, if◌then◌else◌,
}
use payment_rail_simulator.Store.{Uuid, EventType, Payload, OutboxEvent}
use payment_rail_simulator.Store.Tx.{Reply, answered, lost, unacked, first_reply, rest_replies}
use payment_rail_simulator.Outbox.{has_event}

-- The message on the topic payment-events, before it is encoded.
pub record KafkaPaymentEvent : Type 0 where
  pub event_id : Uuid
  pub payment_id : Uuid
  pub event_type : EventType
  pub payload : Payload

abbrev pub kafka_event : OutboxEvent → KafkaPaymentEvent
kafka_event e = record {
  event_id = e.id;
  payment_id = e.payment_id;
  event_type = e.event_type;
  payload = e.payload;
}

-- WHERE published_at IS NULL ORDER BY created_at ASC LIMIT 1; rows stand in the order of creation.
unfoldable pub next_unpublished : List OutboxEvent → Option OutboxEvent
next_unpublished [] = none
next_unpublished (x ∷ xs) = let rest = next_unpublished xs in if x.published then rest else some x

abbrev pub set_published : OutboxEvent → OutboxEvent
set_published e = record e { published = true }

-- UPDATE outbox_events SET published_at = now() WHERE id = id
unfoldable pub mark_published : Uuid → List OutboxEvent → List OutboxEvent
mark_published id [] = []
mark_published id (x ∷ xs) = (if x.id == id then set_published x else x) ∷ mark_published id xs

-- The table and the client of Kafka.
pub record World (K : Type 0) : Type 0 where
  pub outbox_events : List OutboxEvent
  pub client : K

-- A wait for the ticker: the rows that transactions have added at its end, and the replies to the
-- queries and the updates of the rounds that follow.
pub record Tick : Type 0 where
  pub arrived : List OutboxEvent
  pub replies : List Reply

-- `produce` is `ProduceSync` of the client, whose state is `K`: whether it reports no error, and the
-- state after it.
module _ {K : Type 0} (produce : K → KafkaPaymentEvent → Bool × K) where
  -- Whether the loop goes on.
  abbrev pub mark_outbox_event_published : Reply → World K → OutboxEvent → Bool × World K
  mark_outbox_event_published answered w e =
      (true, record w { outbox_events = mark_published e.id w.outbox_events })
  mark_outbox_event_published lost w e = (false, w)
  mark_outbox_event_published unacked w e =
      (false, record w { outbox_events = mark_published e.id w.outbox_events })

  abbrev pub mark_if_sent : Reply → World K → OutboxEvent → Bool × K → Bool × World K
  mark_if_sent r w e (false, k) = (false, record w { client = k })
  mark_if_sent r w e (true, k) = mark_outbox_event_published r (record w { client = k }) e

  abbrev pub publish_if_any : Reply → World K → Option OutboxEvent → Bool × World K
  publish_if_any r w none = (false, w)
  publish_if_any r w (some e) = mark_if_sent r w e (produce w.client (kafka_event e))

  -- One round of the inner loop, by the replies to its query and to its update.
  unfoldable pub publish_next : Reply → Reply → World K → Bool × World K
  publish_next answered r w = publish_if_any r w (next_unpublished w.outbox_events)
  publish_next _ r w = (false, w)

  -- The inner loop, for at most so many rounds.
  unfoldable pub publish_all : ℕ → List Reply → World K → World K
  publish_all zero rs w = w
  publish_all (suc n) rs w =
      let (more, w') = publish_next (first_reply rs) (first_reply (rest_replies rs)) w in
      let rest = publish_all n (rest_replies (rest_replies rs)) w' in if more then rest else w'

  -- The worker: the inner loop, and again after each tick until the context is done. A round that goes
  -- on marks an event, so the loop makes at most one round more than there are events.
  unfoldable pub run_outbox_publisher : List Reply → List Tick → World K → World K
  run_outbox_publisher rs [] w = publish_all (suc (length w.outbox_events)) rs w
  run_outbox_publisher rs (t ∷ ts) w =
      let v = publish_all (suc (length w.outbox_events)) rs w in
      run_outbox_publisher t.replies ts (record v { outbox_events = v.outbox_events ++ t.arrived })

  -- A round of the worker, or a row that a transaction has added in between.
  pub data Step : World K → World K → Type 0 where
    publishes : (read mark : Reply) {w : World K} → Step w (publish_next read mark w).1
    inserts :
        (e : OutboxEvent) {w : World K}
        → has_event e.id w.outbox_events ≡ false
        → e.published ≡ false
        → Step w (record w { outbox_events = w.outbox_events ++ e ∷ [] })

  pub data Reach (start : World K) : World K → Type 0 where
    here : Reach start start
    next : {v w : World K} → Reach start v → Step v w → Reach start w
