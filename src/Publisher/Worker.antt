-- ===== src/Publisher/Worker.antt =====
-- runOutboxPublisher through its ticks.
use mathlib.Core.List.{append-nil, append_assoc}
use payment_rail_simulator.Prelude.{
  ℕ, zero, suc, ◌≤◌, Bool, true, false, ◌≡◌, refl, sym, ap, subst, ◌∙◌, Option, none, some, inl,
  inr, List, [], ◌∷◌, ◌++◌, arith, length, ◌==◌, nat_eq, Bool-cases,
}
use payment_rail_simulator.Store.{Uuid, OutboxEvent}
use payment_rail_simulator.Store.Tx.{Reply, answered, lost, unacked, first_reply, rest_replies}
use payment_rail_simulator.Outbox.{has_event}
use payment_rail_simulator.Publisher.{
  KafkaPaymentEvent, kafka_event, next_unpublished, mark_published, World, Tick, publish_next,
  publish_if_any, mark_if_sent, publish_all, run_outbox_publisher,
}
use payment_rail_simulator.Publisher.Delivery.{IsKeyed}
use payment_rail_simulator.Publisher.Drain.{unpublished, messages, publish_all-drains}

-- The rows that come in, in the order in which they do.
unfoldable pub all_arrived : List (List OutboxEvent) → List OutboxEvent
all_arrived [] = []
all_arrived (a ∷ later) = a ++ all_arrived later

-- Ticks with no lost reply.
unfoldable pub calm_ticks : List (List OutboxEvent) → List Tick
calm_ticks [] = []
calm_ticks (a ∷ later) = record { arrived = a; replies = [] } ∷ calm_ticks later

unpublished-append :
    (xs ys : List OutboxEvent) → unpublished (xs ++ ys) ≡ unpublished xs ++ unpublished ys
unfolding unpublished
unpublished-append [] ys = refl
unpublished-append (x ∷ xs) ys = ground (arith, unpublished-append xs ys)

length-unpublished : (es : List OutboxEvent) → length (unpublished es) ≤ length es
unfolding unpublished
length-unpublished [] = omega arith
length-unpublished (x ∷ xs) = elim (Bool-cases x.published) [
  | inl old ↦ rw old (omega (arith, length-unpublished xs))
  | inr waits ↦ rw waits (omega (arith, length-unpublished xs))
]

messages-append : (xs ys : List OutboxEvent) → messages (xs ++ ys) ≡ messages xs ++ messages ys
unfolding messages
messages-append [] ys = refl
messages-append (x ∷ xs) ys = ap (λ t. kafka_event x ∷ t) (messages-append xs ys)

has_event-marked :
    (j id : Uuid) (es rest : List OutboxEvent)
    → has_event j (mark_published id es ++ rest) ≡ has_event j (es ++ rest)
unfolding has_event mark_published
has_event-marked j id [] rest = refl
has_event-marked j id (x ∷ xs) rest = elim (Bool-cases (x.id == id)) [
  | inl same ↦ rw (same, has_event-marked j id xs rest) refl
  | inr other ↦ rw (other, has_event-marked j id xs rest) refl
]

has_event-prefix :
    (j : Uuid) (xs ys : List OutboxEvent) → has_event j (xs ++ ys) ≡ false → has_event j xs ≡ false
unfolding has_event
has_event-prefix j [] ys h = refl
has_event-prefix j (x ∷ xs) ys h = ground (arith, has_event-prefix j xs ys)

prefix-IsKeyed : (xs ys : List OutboxEvent) → IsKeyed (xs ++ ys) → IsKeyed xs
prefix-IsKeyed [] ys h = tt
prefix-IsKeyed (x ∷ xs) ys h = (has_event-prefix x.id xs ys h.0, prefix-IsKeyed xs ys h.1)

-- Distinct ids stay so, those of the rows to come included.
marked-IsKeyed :
    (id : Uuid) (es rest : List OutboxEvent)
    → IsKeyed (es ++ rest)
    → IsKeyed (mark_published id es ++ rest)
unfolding mark_published
marked-IsKeyed id [] rest h = h
marked-IsKeyed id (x ∷ xs) rest h =
    let tail = marked-IsKeyed id xs rest h.1 in
    elim (Bool-cases (x.id == id)) [
      | inl same ↦ rw same (rw (has_event-marked x.id id xs rest) h.0, tail)
      | inr other ↦ rw other (rw (has_event-marked x.id id xs rest) h.0, tail)
    ]

-- What every update of the table keeps, the worker keeps.
module _ {K : Type 0} (produce : K → KafkaPaymentEvent → Bool × K) (P : List OutboxEvent → Type 0)
    (marks : (id : Uuid) (es : List OutboxEvent) → P es → P (mark_published id es)) where
  mark_if_sent-keeps :
      (r : Reply) (w : World K) (e : OutboxEvent) (q : Bool × K)
      → P w.outbox_events
      → P (mark_if_sent produce r w e q).1.outbox_events
  mark_if_sent-keeps r w e (false, k) h = h
  mark_if_sent-keeps answered w e (true, k) h = marks e.id w.outbox_events h
  mark_if_sent-keeps lost w e (true, k) h = h
  mark_if_sent-keeps unacked w e (true, k) h = marks e.id w.outbox_events h

  publish_if_any-keeps :
      (r : Reply) (w : World K) (found : Option OutboxEvent)
      → P w.outbox_events
      → P (publish_if_any produce r w found).1.outbox_events
  publish_if_any-keeps r w none h = h
  publish_if_any-keeps r w (some e) h =
      mark_if_sent-keeps r w e (produce w.client (kafka_event e)) h

  publish_next-keeps :
      (read mark : Reply) (w : World K)
      → P w.outbox_events
      → P (publish_next produce read mark w).1.outbox_events
  unfolding publish_next
  publish_next-keeps answered mark w h =
      publish_if_any-keeps mark w (next_unpublished w.outbox_events) h
  publish_next-keeps lost mark w h = h
  publish_next-keeps unacked mark w h = h

  publish_all-keeps :
      (n : ℕ) (rs : List Reply) (w : World K)
      → P w.outbox_events
      → P (publish_all produce n rs w).outbox_events
  unfolding publish_all
  publish_all-keeps zero rs w h = h
  publish_all-keeps (suc n) rs w h =
      let q = publish_next produce (first_reply rs) (first_reply (rest_replies rs)) w in
      let kept = publish_next-keeps (first_reply rs) (first_reply (rest_replies rs)) w h in
      elim (Bool-cases q.0) [
        | inl more ↦ rw more (publish_all-keeps n (rest_replies (rest_replies rs)) q.1 kept)
        | inr done ↦ rw done kept
      ]

module _ {K : Type 0} (produce : K → KafkaPaymentEvent → Bool × K)
    (topic : K → List KafkaPaymentEvent)
    (accepts : (k : K) (m : KafkaPaymentEvent) → (produce k m).0 ≡ true)
    (appends : (k : K) (m : KafkaPaymentEvent) → topic (produce k m).1 ≡ topic k ++ m ∷ []) where
  -- The inner loop as the worker calls it.
  abbrev emptied : World K → World K
  emptied w = publish_all produce (suc (length w.outbox_events)) [] w

  emptied-drains :
      (w : World K)
      → IsKeyed w.outbox_events
      → (unpublished (emptied w).outbox_events ≡ [])
        × (topic (emptied w).client ≡ topic w.client ++ messages (unpublished w.outbox_events))
  emptied-drains w keyed =
      publish_all-drains produce topic accepts appends (suc (length w.outbox_events)) w keyed
        (omega (arith, length-unpublished w.outbox_events))

  -- What waits and what comes in later, beside what comes in after the loop is done.
  split_messages :
      (sent : List KafkaPaymentEvent) (before done rest : List OutboxEvent)
      → unpublished done ≡ []
      → (sent ++ messages (unpublished before)) ++ messages (unpublished (done ++ rest))
        ≡ sent ++ messages (unpublished (before ++ rest))
  split_messages sent before done rest none_waits =
      rw
        (
          unpublished-append done rest,
          none_waits,
          unpublished-append before rest,
          messages-append (unpublished before) (unpublished rest),
        )
        (append_assoc sent (messages (unpublished before)) (messages (unpublished rest)))

  -- Provided that Kafka accepts every message and puts it at the end of the topic, no reply is lost
  -- and the ids of the events, of those to come too, are distinct: whatever rows come in between the
  -- ticks, when the worker stops no event waits, and the topic has grown by exactly one message for
  -- each event that waited or came in unpublished, in the order in which they were added.
  pub run_outbox_publisher-drains :
      (arrivals : List (List OutboxEvent)) (w : World K)
      → IsKeyed (w.outbox_events ++ all_arrived arrivals)
      → let v = run_outbox_publisher produce [] (calm_ticks arrivals) w in
        (unpublished v.outbox_events ≡ [])
        × (topic v.client
            ≡ topic w.client ++ messages (unpublished (w.outbox_events ++ all_arrived arrivals)))
  unfolding run_outbox_publisher calm_ticks all_arrived
  run_outbox_publisher-drains [] w keyed =
      let own = subst IsKeyed (append-nil w.outbox_events) keyed in
      rw (append-nil w.outbox_events) (emptied-drains w own)
  run_outbox_publisher-drains (a ∷ later) w keyed =
      let v = emptied w in
      let first = emptied-drains w (prefix-IsKeyed w.outbox_events _ keyed) in
      let rest = a ++ all_arrived later in
      let kept : IsKeyed (v.outbox_events ++ rest) =
        publish_all-keeps produce (λ es. IsKeyed (es ++ rest)) (λ id es. marked-IsKeyed id es rest)
          (suc (length w.outbox_events)) [] w keyed in
      let joined : (v.outbox_events ++ a) ++ all_arrived later ≡ v.outbox_events ++ rest =
        append_assoc v.outbox_events a (all_arrived later) in
      let w' : World K = record v { outbox_events = v.outbox_events ++ a } in
      let ih = run_outbox_publisher-drains later w' (subst IsKeyed (sym joined) kept) in
      (
        ih.0,
        ih.1
            ∙ ap (λ es. topic v.client ++ messages (unpublished es)) joined
            ∙ ap (λ t. t ++ messages (unpublished (v.outbox_events ++ rest))) first.1
            ∙ split_messages (topic w.client) w.outbox_events v.outbox_events rest first.0,
      )
