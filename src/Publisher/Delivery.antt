-- ===== src/Publisher/Delivery.antt =====
-- The events that runOutboxPublisher marks as published, and the messages that Kafka has accepted.
use payment_rail_simulator.Prelude.{
  Bool, true, false, ◌≡◌, refl, ◌⊎◌, inl, inr, Option, none, some, List, [], ◌∷◌, ◌++◌, arith, ◌==◌,
  nat_eq, Bool-cases, subst, ap, sym,
}
use payment_rail_simulator.Store.{Uuid, OutboxEvent}
use payment_rail_simulator.Store.Tx.{Reply, answered, lost, unacked}
use payment_rail_simulator.Outbox.{has_event}
use payment_rail_simulator.Books.{All}
use payment_rail_simulator.Publisher.{
  KafkaPaymentEvent, kafka_event, next_unpublished, mark_published, World, publish_next,
  publish_if_any, mark_if_sent, mark_outbox_event_published, Step, Reach, publishes, inserts, here,
  next,
}

-- The ids of the events are distinct.
abbrev pub IsKeyed : List OutboxEvent → Type 0
IsKeyed [] = Unit {0}
IsKeyed (x ∷ xs) = (has_event x.id xs ≡ false) × IsKeyed xs

pub found-has_event :
    (es : List OutboxEvent) {e : OutboxEvent}
    → next_unpublished es ≡ some e
    → has_event e.id es ≡ true
unfolding next_unpublished has_event
found-has_event [] h = absurd (ground arith)
found-has_event (x ∷ xs) {e} h = elim (Bool-cases x.published) [
  | inl old ↦ ground (arith, found-has_event xs {e = e} (ground arith))
  | inr waiting ↦ let same : x ≡ e = ground arith in ground (arith, same)
]

pub mark_published-absent :
    (id : Uuid) (es : List OutboxEvent) → has_event id es ≡ false → mark_published id es ≡ es
unfolding mark_published has_event
mark_published-absent id [] h = refl
mark_published-absent id (x ∷ xs) h = ground (arith, mark_published-absent id xs)

has_event-mark_published :
    (id j : Uuid) (es : List OutboxEvent) → has_event j (mark_published id es) ≡ has_event j es
unfolding mark_published has_event
has_event-mark_published id j [] = refl
has_event-mark_published id j (x ∷ xs) = ground (arith, has_event-mark_published id j xs)

has_event-append :
    (j : Uuid) (es : List OutboxEvent) (e : OutboxEvent)
    → has_event j es ≡ false
    → (e.id == j) ≡ false
    → has_event j (es ++ e ∷ []) ≡ false
unfolding has_event
has_event-append j [] e h ne = ground arith
has_event-append j (x ∷ xs) e h ne = ground (arith, has_event-append j xs e)

pub mark_published-IsKeyed :
    (id : Uuid) (es : List OutboxEvent) → IsKeyed es → IsKeyed (mark_published id es)
unfolding mark_published
mark_published-IsKeyed id [] h = tt
mark_published-IsKeyed id (x ∷ xs) h = elim (Bool-cases (x.id == id)) [
  | inl same ↦
      rw same (rw (has_event-mark_published id x.id xs) h.0, mark_published-IsKeyed id xs h.1)
  | inr other ↦
      rw other (rw (has_event-mark_published id x.id xs) h.0, mark_published-IsKeyed id xs h.1)
]

append-IsKeyed :
    (es : List OutboxEvent) (e : OutboxEvent)
    → IsKeyed es
    → has_event e.id es ≡ false
    → IsKeyed (es ++ e ∷ [])
unfolding has_event
append-IsKeyed [] e k h = (refl, tt)
append-IsKeyed (x ∷ xs) e k h =
    (has_event-append x.id xs e k.0 (ground arith), append-IsKeyed xs e k.1 (ground arith))

module _ {K : Type 0} (IsOnTopic : K → KafkaPaymentEvent → Type 0) where
  abbrev IsDelivered : K → OutboxEvent → Type 0
  IsDelivered k e = (e.published ≡ false) ⊎ IsOnTopic k (kafka_event e)

  -- Ids are distinct, and what is marked as published is on the topic.
  abbrev pub Delivers : World K → Type 0
  Delivers w = IsKeyed w.outbox_events × All (IsDelivered w.client) w.outbox_events

module _ {K : Type 0} (produce : K → KafkaPaymentEvent → Bool × K)
    (IsOnTopic : K → KafkaPaymentEvent → Type 0)
    (accepts : (k : K) (m : KafkaPaymentEvent)
      → (produce k m).0 ≡ true
      → IsOnTopic (produce k m).1 m)
    (keeps : (k : K) (m sent : KafkaPaymentEvent)
      → IsOnTopic k sent
      → IsOnTopic (produce k m).1 sent) where
  produce-All :
      (k : K) (m : KafkaPaymentEvent) (es : List OutboxEvent)
      → All (IsDelivered IsOnTopic k) es
      → All (IsDelivered IsOnTopic (produce k m).1) es
  produce-All k m [] h = tt
  produce-All k m (x ∷ xs) (inl waiting, h) = (inl waiting, produce-All k m xs h)
  produce-All k m (x ∷ xs) (inr sent, h) =
      (inr (keeps k m (kafka_event x) sent), produce-All k m xs h)

  append-All :
      (k : K) (es : List OutboxEvent) (e : OutboxEvent)
      → All (IsDelivered IsOnTopic k) es
      → e.published ≡ false
      → All (IsDelivered IsOnTopic k) (es ++ e ∷ [])
  append-All k [] e h new = (inl new, tt)
  append-All k (x ∷ xs) e h new = (h.0, append-All k xs e h.1 new)

  mark_published-All :
      (k : K) (es : List OutboxEvent) {e : OutboxEvent}
      → IsKeyed es
      → next_unpublished es ≡ some e
      → IsOnTopic k (kafka_event e)
      → All (IsDelivered IsOnTopic k) es
      → All (IsDelivered IsOnTopic k) (mark_published e.id es)
  unfolding next_unpublished mark_published
  mark_published-All k [] keyed found sent h = tt
  mark_published-All k (x ∷ xs) {e} keyed found sent h = elim (Bool-cases x.published) [
    | inl old ↦
        let later : next_unpublished xs ≡ some e = ground arith in
        let other : (x.id == e.id) ≡ false = elim (Bool-cases (x.id == e.id)) [
          | inr ne ↦ ne
          | inl same ↦
              let has = found-has_event xs later in let no = keyed.0 in absurd (ground arith)
        ] in
        rw other (h.0, mark_published-All k xs keyed.1 later sent h.1)
    | inr waiting ↦
        let same : x ≡ e = ground arith in
        let own : (x.id == e.id) ≡ true = ground (arith, same) in
        rw own (
          rw (mark_published-absent e.id xs (subst (λ y. has_event y.id xs ≡ false) same keyed.0))
            (inr (subst (λ y. IsOnTopic k (kafka_event y)) (sym same) sent), h.1))
  ]

  marked-Delivers :
      (r : Reply) (w : World K) (e : OutboxEvent)
      → next_unpublished w.outbox_events ≡ some e
      → IsOnTopic w.client (kafka_event e)
      → Delivers IsOnTopic w
      → Delivers IsOnTopic (mark_outbox_event_published produce r w e).1
  marked-Delivers answered w e found sent d = (
    mark_published-IsKeyed e.id w.outbox_events d.0,
    mark_published-All w.client w.outbox_events d.0 found sent d.1,
  )
  marked-Delivers lost w e found sent d = d
  marked-Delivers unacked w e found sent d = (
    mark_published-IsKeyed e.id w.outbox_events d.0,
    mark_published-All w.client w.outbox_events d.0 found sent d.1,
  )

  sent-Delivers :
      (r : Reply) (w : World K) (e : OutboxEvent) (q : Bool × K)
      → produce w.client (kafka_event e) ≡ q
      → next_unpublished w.outbox_events ≡ some e
      → Delivers IsOnTopic w
      → Delivers IsOnTopic (mark_if_sent produce r w e q).1
  sent-Delivers r w e (false, k) made found d = (
    d.0,
    subst (λ q. All (IsDelivered IsOnTopic q.1) w.outbox_events) made
        (produce-All w.client (kafka_event e) w.outbox_events d.1),
  )
  sent-Delivers r w e (true, k) made found d =
      marked-Delivers r (record w { client = k }) e found
        (subst (λ q. IsOnTopic q.1 (kafka_event e)) made
          (accepts w.client (kafka_event e) (ap (λ q. q.0) made)))
        (
          d.0,
          subst (λ q. All (IsDelivered IsOnTopic q.1) w.outbox_events) made
              (produce-All w.client (kafka_event e) w.outbox_events d.1),
        )

  any-Delivers :
      (r : Reply) (w : World K) (o : Option OutboxEvent)
      → next_unpublished w.outbox_events ≡ o
      → Delivers IsOnTopic w
      → Delivers IsOnTopic (publish_if_any produce r w o).1
  any-Delivers r w none found d = d
  any-Delivers r w (some e) found d = sent-Delivers r w e _ refl found d

  publish_next-Delivers :
      (read mark : Reply) (w : World K)
      → Delivers IsOnTopic w
      → Delivers IsOnTopic (publish_next produce read mark w).1
  unfolding publish_next
  publish_next-Delivers answered r w d = any-Delivers r w _ refl d
  publish_next-Delivers _ r w d = d

  Step-Delivers : {v w : World K} → Step produce v w → Delivers IsOnTopic v → Delivers IsOnTopic w
  Step-Delivers (publishes read mark {w = w}) d = publish_next-Delivers read mark w d
  Step-Delivers (inserts e {w = w} unused new) d =
      (append-IsKeyed w.outbox_events e d.0 unused, append-All w.client w.outbox_events e d.1 new)

  -- Provided that a message that Kafka has accepted is on the topic, and that the topic loses nothing:
  -- after any rounds of the worker, whatever their queries, updates and messages come to, and any rows
  -- that transactions add in between, the ids of the events are distinct and every event that is marked
  -- as published is on the topic, if it was so before.
  pub Reach-Delivers :
      {v w : World K} → Reach produce v w → Delivers IsOnTopic v → Delivers IsOnTopic w
  Reach-Delivers here d = d
  Reach-Delivers (next r st) d = Step-Delivers st (Reach-Delivers r d)
