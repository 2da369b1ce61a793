-- ===== src/Publisher/Rounds.antt =====
-- The rounds that the inner loop of runOutboxPublisher makes.
use payment_rail_simulator.Prelude.{
  ℕ, zero, suc, ◌≤◌, ◌<◌, Bool, true, false, ◌≡◌, refl, Option, none, some, inl, inr, List, [], ◌∷◌,
  arith, length, ◌==◌, nat_eq, Bool-cases,
}
use payment_rail_simulator.Store.{Uuid, OutboxEvent}
use payment_rail_simulator.Store.Tx.{Reply, answered, lost, unacked, first_reply, rest_replies}
use payment_rail_simulator.Publisher.{
  KafkaPaymentEvent, kafka_event, next_unpublished, mark_published, World, publish_next,
  publish_if_any, mark_if_sent, publish_all,
}
use payment_rail_simulator.Publisher.Drain.{unpublished}

-- How many events wait.
abbrev waiting : List OutboxEvent → ℕ
waiting es = length (unpublished es)

waiting-mark_published :
    (id : Uuid) (es : List OutboxEvent) → waiting (mark_published id es) ≤ waiting es
unfolding unpublished mark_published
waiting-mark_published id [] = omega arith
waiting-mark_published id (x ∷ xs) =
    let ih = waiting-mark_published id xs in
    elim (Bool-cases (x.id == id)) [
      | inl same ↦ elim (Bool-cases x.published) [
        | inl old ↦ rw (same, old) ih
        | inr new ↦ rw (same, new) (omega (arith, ih))
      ]
      | inr other ↦ elim (Bool-cases x.published) [
        | inl old ↦ rw (other, old) ih
        | inr new ↦ rw (other, new) (omega (arith, ih))
      ]
    ]

-- An update of the event that was found leaves fewer to wait.
waiting-found :
    (es : List OutboxEvent) {e : OutboxEvent}
    → next_unpublished es ≡ some e
    → waiting (mark_published e.id es) < waiting es
unfolding unpublished mark_published next_unpublished
waiting-found [] h = absurd (ground arith)
waiting-found (x ∷ xs) {e} h = elim (Bool-cases x.published) [
  | inl old ↦
      let ih = waiting-found xs {e = e} (ground arith) in
      elim (Bool-cases (x.id == e.id)) [
        | inl same ↦ rw (same, old) ih
        | inr other ↦ rw (other, old) ih
      ]
  | inr new ↦
      let same : x ≡ e = ground arith in
      let own : (x.id == e.id) ≡ true = ground (arith, same) in
      rw (own, new) (omega (arith, waiting-mark_published e.id xs))
]

module _ {K : Type 0} (produce : K → KafkaPaymentEvent → Bool × K) where
  mark_if_sent-fewer :
      (r : Reply) (w : World K) (e : OutboxEvent) (q : Bool × K)
      → next_unpublished w.outbox_events ≡ some e
      → (mark_if_sent produce r w e q).0 ≡ true
      → waiting (mark_if_sent produce r w e q).1.outbox_events < waiting w.outbox_events
  mark_if_sent-fewer r w e (false, k) found h = absurd (ground arith)
  mark_if_sent-fewer answered w e (true, k) found h = waiting-found w.outbox_events found
  mark_if_sent-fewer lost w e (true, k) found h = absurd (ground arith)
  mark_if_sent-fewer unacked w e (true, k) found h = absurd (ground arith)

  publish_if_any-fewer :
      (r : Reply) (w : World K) (found : Option OutboxEvent)
      → next_unpublished w.outbox_events ≡ found
      → (publish_if_any produce r w found).0 ≡ true
      → waiting (publish_if_any produce r w found).1.outbox_events < waiting w.outbox_events
  publish_if_any-fewer r w none same h = absurd (ground arith)
  publish_if_any-fewer r w (some e) same h =
      mark_if_sent-fewer r w e (produce w.client (kafka_event e)) same h

  publish_next-fewer :
      (read mark : Reply) (w : World K)
      → (publish_next produce read mark w).0 ≡ true
      → waiting (publish_next produce read mark w).1.outbox_events < waiting w.outbox_events
  unfolding publish_next
  publish_next-fewer answered mark w h =
      publish_if_any-fewer mark w (next_unpublished w.outbox_events) refl h
  publish_next-fewer lost mark w h = absurd (ground arith)
  publish_next-fewer unacked mark w h = absurd (ground arith)

  -- The inner loop ends by itself, with any faults: a bound on its rounds that is above the number of
  -- events that wait makes no difference.
  pub publish_all-bound :
      (n m : ℕ) (rs : List Reply) (w : World K)
      → length (unpublished w.outbox_events) < n
      → length (unpublished w.outbox_events) < m
      → publish_all produce n rs w ≡ publish_all produce m rs w
  unfolding publish_all
  publish_all-bound zero m rs w le le' = absurd (omega arith)
  publish_all-bound n zero rs w le le' = absurd (omega arith)
  publish_all-bound (suc n) (suc m) rs w le le' =
      let q = publish_next produce (first_reply rs) (first_reply (rest_replies rs)) w in
      elim (Bool-cases q.0) [
        | inr done ↦ rw done refl
        | inl more ↦
            let fewer =
              publish_next-fewer (first_reply rs) (first_reply (rest_replies rs)) w more in
            rw more (
              publish_all-bound n m (rest_replies (rest_replies rs)) q.1 (omega (arith, fewer, le))
                (omega (arith, fewer, le')))
      ]
