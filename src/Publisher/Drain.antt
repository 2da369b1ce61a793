-- ===== src/Publisher/Drain.antt =====
-- The inner loop of runOutboxPublisher with nothing in its way.
use mathlib.Core.List.{append-nil, append_assoc}
use payment_rail_simulator.Prelude.{
  ℕ, zero, suc, ◌≤◌, Bool, true, false, ◌≡◌, refl, sym, ap, ◌∙◌, none, some, inl, inr, List, [],
  ◌∷◌, ◌++◌, arith, length, ◌==◌, nat_eq, if◌then◌else◌, Bool-cases, Option-cases,
}
use payment_rail_simulator.Store.{OutboxEvent}
use payment_rail_simulator.Store.Tx.{answered}
use payment_rail_simulator.Outbox.{has_event}
use payment_rail_simulator.Publisher.{
  KafkaPaymentEvent, kafka_event, next_unpublished, mark_published, World, publish_next,
  mark_if_sent, publish_all,
}
use payment_rail_simulator.Publisher.Delivery.{
  IsKeyed, found-has_event, mark_published-absent, mark_published-IsKeyed,
}

-- The events that wait, in the order of creation.
unfoldable pub unpublished : List OutboxEvent → List OutboxEvent
unpublished [] = []
unpublished (x ∷ xs) = if x.published then unpublished xs else x ∷ unpublished xs

-- Their messages.
unfoldable pub messages : List OutboxEvent → List KafkaPaymentEvent
messages [] = []
messages (e ∷ es) = kafka_event e ∷ messages es

unpublished-none : (es : List OutboxEvent) → next_unpublished es ≡ none → unpublished es ≡ []
unfolding next_unpublished unpublished
unpublished-none [] h = refl
unpublished-none (x ∷ xs) h = ground (arith, unpublished-none xs)

unpublished-mark_published :
    (es : List OutboxEvent) {e : OutboxEvent}
    → IsKeyed es
    → next_unpublished es ≡ some e
    → unpublished es ≡ e ∷ unpublished (mark_published e.id es)
unfolding next_unpublished mark_published unpublished
unpublished-mark_published [] keyed h = absurd (ground arith)
unpublished-mark_published (x ∷ xs) {e} keyed h = elim (Bool-cases x.published) [
  | inl old ↦
      let later : next_unpublished xs ≡ some e = ground arith in
      let rest = unpublished-mark_published xs keyed.1 later in
      elim (Bool-cases (x.id == e.id)) [
        | inr other ↦ rw (old, other) rest
        | inl same ↦ let has = found-has_event xs later in let no = keyed.0 in absurd (ground arith)
      ]
  | inr waiting ↦
      let same : x ≡ e = ground arith in
      let own : (x.id == e.id) ≡ true = ground (arith, same) in
      let gone : has_event e.id xs ≡ false = rw (← same) keyed.0 in
      ground (arith, same, own, waiting, mark_published-absent e.id xs gone)
]

nothing_left : (es : List OutboxEvent) → length es ≤ 0 → es ≡ []
nothing_left [] h = refl
nothing_left (e ∷ es) h = absurd (omega arith)

module _ {K : Type 0} (produce : K → KafkaPaymentEvent → Bool × K)
    (topic : K → List KafkaPaymentEvent)
    (accepts : (k : K) (m : KafkaPaymentEvent) → (produce k m).0 ≡ true)
    (appends : (k : K) (m : KafkaPaymentEvent) → topic (produce k m).1 ≡ topic k ++ m ∷ []) where
  -- The world after one event is published.
  abbrev published_first : World K → OutboxEvent → World K
  published_first w e = record {
    outbox_events = mark_published e.id w.outbox_events;
    client = (produce w.client (kafka_event e)).1;
  }

  mark_if_sent-accepted :
      (w : World K) (e : OutboxEvent) (q : Bool × K)
      → q.0 ≡ true
      → mark_if_sent produce answered w e q
        ≡ (true, record { outbox_events = mark_published e.id w.outbox_events; client = q.1 })
  mark_if_sent-accepted w e (true, k) h = refl
  mark_if_sent-accepted w e (false, k) h = absurd (ground arith)

  publish_next-some :
      (w : World K) {e : OutboxEvent}
      → next_unpublished w.outbox_events ≡ some e
      → publish_next produce answered answered w ≡ (true, published_first w e)
  unfolding publish_next
  publish_next-some w {e} h = rw h (
      mark_if_sent-accepted w e (produce w.client (kafka_event e))
        (accepts w.client (kafka_event e)))

  publish_next-none :
      (w : World K)
      → next_unpublished w.outbox_events ≡ none
      → publish_next produce answered answered w ≡ (false, w)
  unfolding publish_next
  publish_next-none w h = rw h refl

  abbrev Drained : World K → World K → Type 0
  Drained w v =
      (unpublished v.outbox_events ≡ [])
      × (topic v.client ≡ topic w.client ++ messages (unpublished w.outbox_events))

  Drained-none : (w : World K) → unpublished w.outbox_events ≡ [] → Drained w w
  unfolding messages
  Drained-none w h = (h, rw h (sym (append-nil (topic w.client))))

  -- Provided that Kafka accepts every message and puts it at the end of the topic, the replies are not
  -- lost and the ids of the events are distinct: after as many rounds as events wait, or more, no event
  -- waits, and the topic has grown by one message for each that did, in the order of creation.
  pub publish_all-drains :
      (n : ℕ) (w : World K)
      → IsKeyed w.outbox_events
      → length (unpublished w.outbox_events) ≤ n
      → let v = publish_all produce n [] w in
        (unpublished v.outbox_events ≡ [])
        × (topic v.client ≡ topic w.client ++ messages (unpublished w.outbox_events))
  unfolding publish_all messages
  publish_all-drains zero w keyed le =
      Drained-none w (nothing_left (unpublished w.outbox_events) le)
  publish_all-drains (suc n) w keyed le = elim (Option-cases (next_unpublished w.outbox_events)) [
    | inl none_waits ↦
        rw (publish_next-none w none_waits)
          (Drained-none w (unpublished-none w.outbox_events none_waits))
    | inr (e, found) ↦
        let split = unpublished-mark_published w.outbox_events keyed found in
        let w' = published_first w e in
        let shorter : length (unpublished w'.outbox_events) ≤ n =
          omega (arith, ap length split, le) in
        let ih =
          publish_all-drains n w' (mark_published-IsKeyed e.id w.outbox_events keyed) shorter in
        rw (publish_next-some w found, split)
          (
            ih.0,
            ih.1
                ∙ ap (λ t. t ++ messages (unpublished w'.outbox_events))
                    (appends w.client (kafka_event e))
                ∙ append_assoc (topic w.client) (kafka_event e ∷ []) _,
          )
  ]
