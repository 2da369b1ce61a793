-- ===== src/System/Announced.antt =====
-- The outbox beside the payments: the events that the workers of the next stages wait for.
use payment_rail_simulator.Prelude.{
  Bool, ◌≡◌, refl, sym, subst, ◌⊎◌, inl, inr, Option, some, none, List, [], ◌∷◌, ◌++◌, ◌==◌, nat_eq,
  arith, Bool-cases, if◌then◌else◌,
}
use payment_rail_simulator.Prelude.Int.{ℤ}
use payment_rail_simulator.Prelude.Table.{find, update, or_else, find-update, find-append}
use payment_rail_simulator.Payment.{PaymentState, validated, awaiting_response, accepted, settled}
use payment_rail_simulator.Store.{
  Uuid, Payment, OutboxEvent, EventType, payment_validated, payment_cleared, payment_accepted, Db,
  payment_key, find_payment,
}
use payment_rail_simulator.Transition.{with_status}
use payment_rail_simulator.Effects.{Announces, Effect, stays, stores, turns, settles}
use payment_rail_simulator.System.{Reach}
use payment_rail_simulator.System.Steps.{Reach-keeps}

-- An event of this type for the payment, published or not.
abbrev pub HasEvent : EventType → Uuid → List OutboxEvent → Type 0
HasEvent t id [] = ⊥
HasEvent t id (x ∷ xs) = ((x.event_type ≡ t) × (x.payment_id ≡ id)) ⊎ HasEvent t id xs

-- What the outbox has for a payment in this state.
abbrev pub IsAnnounced : PaymentState → Uuid → List OutboxEvent → Type 0
IsAnnounced validated id es = HasEvent payment_validated id es
IsAnnounced awaiting_response id es = HasEvent payment_cleared id es
IsAnnounced accepted id es = HasEvent payment_accepted id es
IsAnnounced _ id es = Unit {0}

abbrev AnnouncedAt : List OutboxEvent → Uuid → Option Payment → Type 0
AnnouncedAt es id none = Unit {0}
AnnouncedAt es id (some p) = IsAnnounced p.status id es

HasEvent-append :
    (t : EventType) (id : Uuid) (es : List OutboxEvent) (e : OutboxEvent)
    → HasEvent t id es
    → HasEvent t id (es ++ e ∷ [])
HasEvent-append t id [] e h = absurd h
HasEvent-append t id (x ∷ xs) e (inl here) = inl here
HasEvent-append t id (x ∷ xs) e (inr later) = inr (HasEvent-append t id xs e later)

HasEvent-last :
    (t : EventType) (id : Uuid) (es : List OutboxEvent) (e : OutboxEvent)
    → e.event_type ≡ t
    → e.payment_id ≡ id
    → HasEvent t id (es ++ e ∷ [])
HasEvent-last t id [] e kind own = inl (kind, own)
HasEvent-last t id (x ∷ xs) e kind own = inr (HasEvent-last t id xs e kind own)

-- An event that is added is the one for the new state.
Announces-IsAnnounced :
    (s : PaymentState) (id : Uuid) (es more : List OutboxEvent)
    → Announces s id es more
    → IsAnnounced s id more
Announces-IsAnnounced validated id es more (e, own, kind, grown) =
    rw grown (HasEvent-last payment_validated id es e kind own)
Announces-IsAnnounced awaiting_response id es more (e, own, kind, grown) =
    rw grown (HasEvent-last payment_cleared id es e kind own)
Announces-IsAnnounced accepted id es more (e, own, kind, grown) =
    rw grown (HasEvent-last payment_accepted id es e kind own)
Announces-IsAnnounced _ id es more h = tt

-- The outbox stays, or grows by one event.
Grows : List OutboxEvent → List OutboxEvent → Type 0
Grows es more = (more ≡ es) ⊎ ((e : OutboxEvent) × (more ≡ es ++ e ∷ []))

Announces-Grows :
    (s : PaymentState) (id : Uuid) (es more : List OutboxEvent)
    → Announces s id es more
    → Grows es more
unfolding Grows
Announces-Grows validated id es more (e, own, kind, grown) = inr (e, grown)
Announces-Grows awaiting_response id es more (e, own, kind, grown) = inr (e, grown)
Announces-Grows accepted id es more (e, own, kind, grown) = inr (e, grown)
Announces-Grows _ id es more h = inl h

HasEvent-Grows :
    (t : EventType) (id : Uuid) (es more : List OutboxEvent)
    → Grows es more
    → HasEvent t id es
    → HasEvent t id more
unfolding Grows
HasEvent-Grows t id es more (inl same) h = rw same h
HasEvent-Grows t id es more (inr (e, grown)) h = rw grown (HasEvent-append t id es e h)

IsAnnounced-Grows :
    (s : PaymentState) (id : Uuid) (es more : List OutboxEvent)
    → Grows es more
    → IsAnnounced s id es
    → IsAnnounced s id more
IsAnnounced-Grows validated id es more g h = HasEvent-Grows payment_validated id es more g h
IsAnnounced-Grows awaiting_response id es more g h = HasEvent-Grows payment_cleared id es more g h
IsAnnounced-Grows accepted id es more g h = HasEvent-Grows payment_accepted id es more g h
IsAnnounced-Grows _ id es more g h = tt

AnnouncedAt-Grows :
    (id : Uuid) (o : Option Payment) (es more : List OutboxEvent)
    → Grows es more
    → AnnouncedAt es id o
    → AnnouncedAt more id o
AnnouncedAt-Grows id none es more g h = tt
AnnouncedAt-Grows id (some p) es more g h = IsAnnounced-Grows p.status id es more g h

abbrev AllAnnounced : Db → Type 0
AllAnnounced db = (id : Uuid) → AnnouncedAt db.outbox_events id (find_payment id db)

-- A payment that changes is announced in its new state, and the others stay so.
changed-AnnouncedAt :
    (p : Payment) (g : Payment → Payment) (c : Db) (more : List OutboxEvent)
    → ((x : Payment) → (g x).id ≡ x.id)
    → find_payment p.id c ≡ some p
    → Grows c.outbox_events more
    → IsAnnounced (g p).status p.id more
    → AllAnnounced c
    → (id : Uuid) → AnnouncedAt more id (find payment_key id (update payment_key p.id g c.payments))
changed-AnnouncedAt p g c more keeps row grows own_event all id =
    rw (find-update payment_key id p.id g c.payments keeps) (elim (Bool-cases (p.id == id)) [
      | inl own ↦ let same : p.id ≡ id = ground arith in rw (own, ← same, row) own_event
      | inr other ↦
          rw other (AnnouncedAt-Grows id (find_payment id c) c.outbox_events more grows (all id))
    ])

stored-AnnouncedAt :
    (p : Payment) (more : List OutboxEvent) (id : Uuid) (o : Option Payment)
    → IsAnnounced p.status p.id more
    → AnnouncedAt more id o
    → AnnouncedAt more id (or_else o (if p.id == id then some p else none))
stored-AnnouncedAt p more id (some q) new h = h
stored-AnnouncedAt p more id none new h = elim (Bool-cases (p.id == id)) [
  | inl own ↦ let same : p.id ≡ id = ground arith in rw (own, ← same) new
  | inr other ↦ rw other tt
]

Effect-AllAnnounced : (c v : Db) → Effect c v → AllAnnounced c → AllAnnounced v
unfolding find Grows
Effect-AllAnnounced c v (stays e) all id = subst AllAnnounced (sym e) all id
Effect-AllAnnounced c v (stores p st) all id =
    rw (st.payments, find-append payment_key id c.payments (p ∷ []))
      (stored-AnnouncedAt p v.outbox_events id (find_payment id c)
        (Announces-IsAnnounced p.status p.id c.outbox_events v.outbox_events st.outbox)
        (AnnouncedAt-Grows id (find_payment id c) c.outbox_events v.outbox_events
          (Announces-Grows p.status p.id c.outbox_events v.outbox_events st.outbox) (all id)))
Effect-AllAnnounced c v (turns p before next reason t) all id = rw t.payments (
    changed-AnnouncedAt p (with_status next reason) c v.outbox_events (λ x. refl) t.row
      (Announces-Grows next p.id c.outbox_events v.outbox_events t.outbox)
      (Announces-IsAnnounced next p.id c.outbox_events v.outbox_events t.outbox) all id)
Effect-AllAnnounced c v (settles p ledger_id s) all id = rw s.payments (
    changed-AnnouncedAt p (with_status settled "") c v.outbox_events (λ x. refl) s.row
      (inl s.outbox) tt all id)

module _ {F : Type 0} (le_zero : F → Bool) (to_numeric : F → Option ℤ) where
  -- No payment is forgotten. Start with no payments. After any calls of the four transactions, in any
  -- order and with any replies lost, the outbox has an event "payment.validated" for every payment
  -- that is validated, "payment.cleared" for every one that awaits its answer, and
  -- "payment.accepted" for every one that is accepted.
  pub Reach-IsAnnounced :
      {start db : Db} (id : Uuid) (p : Payment)
      → start.payments ≡ []
      → Reach le_zero to_numeric start db
      → find_payment id db ≡ some p
      → IsAnnounced p.status id db.outbox_events
  unfolding find
  Reach-IsAnnounced {start} {db} id p no_payments way row =
      let began : AllAnnounced start = λ j. rw no_payments tt in
      let all = Reach-keeps le_zero to_numeric AllAnnounced Effect-AllAnnounced way began in
      subst (AnnouncedAt db.outbox_events id) row (all id)
