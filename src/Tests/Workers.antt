-- ===== src/Tests/Workers.antt =====
-- The theorems on the handlers and the workers, at inputs that meet their hypotheses.
use payment_rail_simulator.Prelude.{
  ◌≡◌, ◌⊎◌, refl, true, false, some, inl, inr, ◌++◌, List, [], ◌∷◌, string_eq, nat_eq,
}
use payment_rail_simulator.Payment.{validated, awaiting_response, accepted}
use payment_rail_simulator.Store.Calm.{calm}
use payment_rail_simulator.Store.Tx.{answered, unacked}
use payment_rail_simulator.Clearing.{clear_payment}
use payment_rail_simulator.Receiver.{respond_to_payment}
use payment_rail_simulator.Settlement.{settle_payment}
use payment_rail_simulator.Handlers.{
  handle_clear_payment, handle_receiver_response, handle_settle_payment,
}
use payment_rail_simulator.Handlers.Reports.{
  Reports, handle_clear_payment-Reports, handle_receiver_response-Reports,
  handle_settle_payment-Reports,
}
use payment_rail_simulator.Handlers.Codes.{Guards, handlers-Guards}
use payment_rail_simulator.Publisher.{World, KafkaPaymentEvent, publish_next, run_outbox_publisher}
use payment_rail_simulator.Publisher as Publisher
use payment_rail_simulator.Publisher.Delivery.{IsKeyed, Delivers, Reach-Delivers}
use payment_rail_simulator.Publisher.Drain.{unpublished, messages}
use payment_rail_simulator.Publisher.Worker.{all_arrived, calm_ticks, run_outbox_publisher-drains}
use payment_rail_simulator.Outbox.{has_event}
use payment_rail_simulator.Consumers.{
  consume_settlement, consume_clearing, consume_receiver, Attempt,
}
use payment_rail_simulator.Consumers.Once.{
  SettledOnce, consume_settlement-once, ClearedOnce, consume_clearing-once, AcceptedOnce,
  consume_receiver-once, WorkedOnce, consume, consume-handles,
}
use payment_rail_simulator.Consumers.Handled.{calm_attempt}
use payment_rail_simulator.Tests.Way.{cleared_row}
use payment_rail_simulator.Store.{Uuid, payment_validated, payment_cleared, payment_accepted}
use payment_rail_simulator.Consumers.Instances.{CanBeAccepted}
use payment_rail_simulator.Tests.Data.{
  validated_event, cleared_event, payment, accepted_event, attempts, produce, IsOnTopic,
  waiting_events, arrivals, to_uuid, refusal, submitted, cleared, accepted_db, flaky,
}
use payment_rail_simulator.Tests.Runs.{cleared_events}

handle_clear_payment-Reports_example :
    Reports
      (clear_payment 101 (some 7))
      (flaky submitted unacked)
      (handle_clear_payment to_uuid "POST" "7" 101 (flaky submitted unacked))
handle_clear_payment-Reports_example =
    handle_clear_payment-Reports to_uuid "POST" "7" 101 (flaky submitted unacked)

handle_receiver_response-Reports_example :
    Reports
      (respond_to_payment 102 (some 7) false "no such customer")
      (flaky cleared unacked)
      (handle_receiver_response to_uuid "POST" "7" 102 (some refusal) (flaky cleared unacked))
handle_receiver_response-Reports_example =
    handle_receiver_response-Reports to_uuid "POST" "7" 102 (flaky cleared unacked) refusal

handle_settle_payment-Reports_example :
    Reports
      (settle_payment 200 (some 7))
      (flaky accepted_db unacked)
      (handle_settle_payment to_uuid "POST" "7" 200 (flaky accepted_db unacked))
handle_settle_payment-Reports_example =
    handle_settle_payment-Reports to_uuid "POST" "7" 200 (flaky accepted_db unacked)

handlers-Guards_example :
    Guards validated cleared
      (some 7)
      (handle_clear_payment to_uuid "POST" "7" 101 (calm cleared cleared))
    × Guards awaiting_response cleared
        (some 7)
        (handle_receiver_response to_uuid "POST" "7" 101 (some refusal) (calm cleared cleared))
    × Guards accepted cleared
        (some 7)
        (handle_settle_payment to_uuid "POST" "7" 101 (calm cleared cleared))
handlers-Guards_example = handlers-Guards to_uuid "7" refl 101 refusal cleared cleared

produce-accepts :
    (k : List KafkaPaymentEvent) (m : KafkaPaymentEvent)
    → (produce k m).0 ≡ true
    → IsOnTopic (produce k m).1 m
produce-accepts [] m h = inl refl
produce-accepts (x ∷ k) m h = inr (produce-accepts k m h)

produce-keeps :
    (k : List KafkaPaymentEvent) (m sent : KafkaPaymentEvent)
    → IsOnTopic k sent
    → IsOnTopic (produce k m).1 sent
produce-keeps [] m sent h = absurd h
produce-keeps (x ∷ k) m sent (inl h) = inl h
produce-keeps (x ∷ k) m sent (inr h) = inr (produce-keeps k m sent h)

waiting_events-Delivers : Delivers IsOnTopic waiting_events
unfolding has_event
waiting_events-Delivers = ((refl, (refl, tt)), (inl refl, (inl refl, tt)))

arrivals-IsKeyed : IsKeyed (waiting_events.outbox_events ++ all_arrived arrivals)
unfolding has_event all_arrived
arrivals-IsKeyed = (refl, (refl, (refl, tt)))

-- A round whose update is done without an answer, and one that publishes the second event.
Reach-Delivers_example :
    Delivers IsOnTopic
      (publish_next produce answered answered
        (publish_next produce answered unacked waiting_events).1).1
Reach-Delivers_example =
    Reach-Delivers produce IsOnTopic produce-accepts produce-keeps
      (Publisher.next (Publisher.next Publisher.here (Publisher.publishes answered unacked))
        (Publisher.publishes answered answered))
      waiting_events-Delivers

run_outbox_publisher-drains_example :
    let v = run_outbox_publisher produce [] (calm_ticks arrivals) waiting_events in
    (unpublished v.outbox_events ≡ [])
    × (v.client
        ≡ [] ++ messages (unpublished (waiting_events.outbox_events ++ all_arrived arrivals)))
run_outbox_publisher-drains_example =
    run_outbox_publisher-drains produce (λ k. k) (λ k m. refl) (λ k m. refl) arrivals waiting_events
      arrivals-IsKeyed

consume_settlement-once_example :
    let v = (consume_settlement (some accepted_event) attempts accepted_db).1 in
    (v ≡ accepted_db)
    ⊎ ((accepted_event.event_type ≡ payment_accepted) × SettledOnce (some 7) accepted_db v)
consume_settlement-once_example = consume_settlement-once accepted_event attempts accepted_db

consume_clearing-once_example :
    let v = (consume_clearing (some validated_event) attempts submitted).1 in
    (v ≡ submitted)
    ⊎ ((validated_event.event_type ≡ payment_validated) × ClearedOnce (some 7) submitted v)
consume_clearing-once_example = consume_clearing-once validated_event attempts submitted

consume_receiver-once_example :
    let v = (consume_receiver (some cleared_event) attempts cleared).1 in
    (v ≡ cleared) ⊎ ((cleared_event.event_type ≡ payment_cleared) × AcceptedOnce (some 7) cleared v)
consume_receiver-once_example = consume_receiver-once cleared_event attempts cleared

-- One attempt that is cut off, and one that is answered.
abbrev cut_off : List Attempt
cut_off = record { new_id = 102; replies = (flaky cleared unacked).replies } ∷ []

can_be_accepted :
    (event_id : Uuid)
    → has_event event_id cleared.outbox_events ≡ false
    → CanBeAccepted event_id (some 7) cleared
can_be_accepted event_id unused =
    (payment awaiting_response, refl, record { row = cleared_row; stands_awaiting = refl }, unused)

consume-handles_example :
    let r =
      consume payment_cleared (some cleared_event) (cut_off ++ calm_attempt 103 ∷ []) cleared in
    (r.0 ≡ true) × WorkedOnce payment_cleared (some 7) cleared r.1
consume-handles_example =
    consume-handles cleared_event cut_off 103 cleared (can_be_accepted 102 (cleared_events.0), tt)
      (can_be_accepted 103 (cleared_events.1))
