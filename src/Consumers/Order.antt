-- ===== src/Consumers/Order.antt =====
-- The records that a worker is done with, against those that it has polled.
use payment_rail_simulator.Prelude.{
  Bool, true, false, ◌≡◌, refl, ap, Option, List, [], ◌∷◌, ◌++◌, if◌then◌else◌,
}
use payment_rail_simulator.Store.{Db}
use payment_rail_simulator.Publisher.{KafkaPaymentEvent}
use payment_rail_simulator.Consumers.{Attempt, Poll, cancelled, errors, empty, polled, run_consumer}

-- The records of the polls, in the order of the topic.
abbrev pub records_of : List Poll → List (Option KafkaPaymentEvent)
records_of [] = []
records_of (polled event attempts ∷ more) = event ∷ records_of more
records_of (_ ∷ more) = records_of more

abbrev Prefix : List (Option KafkaPaymentEvent) → List (Option KafkaPaymentEvent) → Type 0
Prefix xs ys = (rest : List (Option KafkaPaymentEvent)) × (xs ++ rest ≡ ys)

module _ (consume : Option KafkaPaymentEvent → List Attempt → Db → Bool × Db) where
  one_more :
      (b : Bool) (event : Option KafkaPaymentEvent) (v : Db)
      (r : List (Option KafkaPaymentEvent) × Db) (ys : List (Option KafkaPaymentEvent))
      → Prefix r.0 ys
      → let both : List (Option KafkaPaymentEvent) × Db =
          if b then (event ∷ r.0, r.1) else ([], v) in
        Prefix both.0 (event ∷ ys)
  one_more true event v r ys (rest, e) = (rest, ap (λ xs. event ∷ xs) e)
  one_more false event v r ys h = (event ∷ ys, refl)

  -- A worker asks Kafka to commit the records that it has polled from the first on, in their order
  -- and with none left out, up to some point.
  pub run_consumer-Prefix :
      (polls : List Poll) (db : Db)
      → (rest : List (Option KafkaPaymentEvent)) × ((run_consumer consume polls db).0 ++ rest
          ≡ records_of polls)
  unfolding run_consumer
  run_consumer-Prefix [] db = ([], refl)
  run_consumer-Prefix (cancelled ∷ more) db = (records_of more, refl)
  run_consumer-Prefix (errors ∷ more) db = run_consumer-Prefix more db
  run_consumer-Prefix (empty ∷ more) db = run_consumer-Prefix more db
  run_consumer-Prefix (polled event attempts ∷ more) db =
      let (handled, v) = consume event attempts db in
      one_more handled event v (run_consumer consume more v) (records_of more)
        (run_consumer-Prefix more v)
