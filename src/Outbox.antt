-- ===== src/Outbox.antt =====
-- outbox.go, the writing half: the three rows that the business transactions add.
use payment_rail_simulator.Prelude.{
  Bool, false, ◌||◌, Option, none, some, List, [], ◌∷◌, ◌++◌, String, ◌==◌, nat_eq, if◌then◌else◌,
}
use payment_rail_simulator.Store.{
  Uuid, OutboxEvent, EventType, payment_validated, payment_cleared, payment_accepted, Db,
  unique_violation, Result, ok, err, find_payment,
}
use payment_rail_simulator.Store.Tx.{Tx, statement, wrap}
use payment_rail_simulator.Transition.{if_references}

-- PRIMARY KEY (id)
unfoldable pub has_event : Uuid → List OutboxEvent → Bool
has_event id [] = false
has_event id (x ∷ xs) = x.id == id || has_event id xs

-- INSERT INTO outbox_events; `id` is the value of the column's default, `gen_random_uuid()`.
unfoldable pub insert_outbox_event : OutboxEvent → Db → Result (Unit {0} × Db)
insert_outbox_event e db =
    if has_event e.id db.outbox_events
    then err unique_violation
    else if_references (find_payment e.payment_id db)
        (ok (tt, record db { outbox_events = db.outbox_events ++ e ∷ [] }))

abbrev pub new_event : Uuid → Uuid → EventType → Option String → OutboxEvent
new_event id payment_id event_type uetr = record {
  id = id;
  payment_id = payment_id;
  event_type = event_type;
  payload = record { payment_id = payment_id; uetr = uetr };
  published = false;
}

unfoldable pub record_payment_validated_outbox_tx : Uuid → Uuid → String → Tx (Unit {0})
record_payment_validated_outbox_tx id payment_id uetr =
    wrap "failed to record payment validated outbox event"
      (statement (insert_outbox_event (new_event id payment_id payment_validated (some uetr))))

unfoldable pub record_payment_cleared_outbox_tx : Uuid → Uuid → Tx (Unit {0})
record_payment_cleared_outbox_tx id payment_id =
    wrap "failed to record payment cleared outbox event"
      (statement (insert_outbox_event (new_event id payment_id payment_cleared none)))

unfoldable pub record_payment_accepted_outbox_tx : Uuid → Uuid → Tx (Unit {0})
record_payment_accepted_outbox_tx id payment_id =
    wrap "failed to record payment accepted outbox event"
      (statement (insert_outbox_event (new_event id payment_id payment_accepted none)))
