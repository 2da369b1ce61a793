-- ===== src/System/Rail.antt =====
-- The rail as its users see it: the state of each payment and whether the ledger has it, without
-- accounts, messages, logs, faults and the passing states.
use payment_rail_simulator.Prelude.{
  Bool, true, false, ◌≡◌, ◌⊎◌, refl, Option, some, none, List, [], ◌∷◌, ◌++◌, ◌==◌, ◌||◌, arith,
  nat_eq, nat_beq_iff, ap, ◌∙◌,
}
use mathlib.Core.Option
use payment_rail_simulator.Prelude.Int.{ℤ}
use payment_rail_simulator.Prelude.Table.{find, update, find-update, find-append, or_else}
use payment_rail_simulator.Payment.{PaymentState, validated, rejected, accepted, settled}
use payment_rail_simulator.Store.{Uuid, Payment, LedgerTransaction, Db, payment_key, find_payment}
use payment_rail_simulator.Transition.{with_status}
use payment_rail_simulator.Ledger.{is_booked}
use payment_rail_simulator.Intake.Outcomes.{find-is_taken}
use payment_rail_simulator.Effects.{Turn, Effect, stays, stores, turns, settles, transaction_of}
use payment_rail_simulator.System.{Reach, here, next}
use payment_rail_simulator.System.Steps.{Step-Effect}

pub record Rail : Type 0 where
  pub state : Uuid → Option PaymentState
  pub has_entry : Uuid → Bool

-- All other payments are as they were.
abbrev pub Others : Uuid → Rail → Rail → Type 0
Others id a b =
    (j : Uuid) → (id == j) ≡ false → (b.state j ≡ a.state j) × (b.has_entry j ≡ a.has_entry j)

-- One move of the rail: nothing that one sees, a new payment, a payment that clears, is answered or
-- fails, or a payment that settles and enters the ledger.
pub data Move (a b : Rail) : Type 0 where
  idles : ((j : Uuid) → (b.state j ≡ a.state j) × (b.has_entry j ≡ a.has_entry j)) → Move a b
  enters :
      (id : Uuid) (s : PaymentState)
      → a.state id ≡ none
      → (s ≡ validated) ⊎ (s ≡ rejected)
      → b.state id ≡ some s
      → b.has_entry id ≡ a.has_entry id
      → Others id a b
      → Move a b
  goes_on :
      (id : Uuid) (before next : PaymentState)
      → Turn before next
      → a.state id ≡ some before
      → b.state id ≡ some next
      → b.has_entry id ≡ a.has_entry id
      → Others id a b
      → Move a b
  books :
      (id : Uuid)
      → a.state id ≡ some accepted
      → a.has_entry id ≡ false
      → b.state id ≡ some settled
      → b.has_entry id ≡ true
      → Others id a b
      → Move a b

pub data Course (a : Rail) : Rail → Type 0 where
  begins : Course a a
  moves : {b c : Rail} → Course a b → Move b c → Course a c

-- What one sees of the tables.
abbrev pub rail : Db → Rail
rail db = record {
  state = λ id. Option.map (λ p. p.status) (find_payment id db);
  has_entry = λ id. is_booked id db.ledger_transactions;
}

is_booked-append :
    (id : Uuid) (ts : List LedgerTransaction) (t : LedgerTransaction)
    → is_booked id (ts ++ t ∷ []) ≡ (is_booked id ts || t.payment_id == id)
unfolding is_booked
is_booked-append id [] t = ground arith
is_booked-append id (x ∷ xs) t = ground (arith, is_booked-append id xs t)

abbrev status_at : Uuid → List Payment → Option PaymentState
status_at id ps = Option.map (λ p. p.status) (find payment_key id ps)

module _ (p : Payment) (g : Payment → Payment) (ps : List Payment)
    (keeps : (x : Payment) → (g x).id ≡ x.id) (row : find payment_key p.id ps ≡ some p) where
  state-update : status_at p.id (update payment_key p.id g ps) ≡ some (g p).status
  state-update =
      rw (find-update payment_key p.id p.id g ps keeps, row) (ground (arith, nat_beq_iff p.id p.id))

  state-update_others :
      (j : Uuid) → (p.id == j) ≡ false → status_at j (update payment_key p.id g ps) ≡ status_at j ps
  state-update_others j other = rw (find-update payment_key j p.id g ps keeps, other) refl

state-append :
    (p : Payment) (ps : List Payment)
    → find payment_key p.id ps ≡ none
    → status_at p.id (ps ++ p ∷ []) ≡ some p.status
unfolding find
state-append p ps fresh =
    rw (find-append payment_key p.id ps (p ∷ []), fresh) (ground (arith, nat_beq_iff p.id p.id))

state-append_others :
    (p : Payment) (ps : List Payment) (j : Uuid)
    → (p.id == j) ≡ false
    → status_at j (ps ++ p ∷ []) ≡ status_at j ps
unfolding find
state-append_others p ps j other =
    rw (find-append payment_key j ps (p ∷ []), other) (same (find payment_key j ps))
  where
    same :
        (o : Option Payment)
        → Option.map (λ q. q.status) (or_else o none) ≡ Option.map (λ q. q.status) o
    same none = refl
    same (some q) = refl

Effect-Move : (c v : Db) → Effect c v → Move (rail c) (rail v)
Effect-Move c v (stays e) = idles (λ j. rw e (refl, refl))
Effect-Move c v (stores p st) =
    let fresh = find-is_taken p.id p.uetr c.payments st.free in
    rw (st.payments, st.ledger.0)
      (enters p.id p.status (rw fresh refl) st.verdict (state-append p c.payments fresh) refl
        (λ j other. (state-append_others p c.payments j other, refl)))
Effect-Move c v (turns p before after reason t) =
    let keeps : (x : Payment) → (with_status after reason x).id ≡ x.id = λ x. refl in
    rw (t.payments, t.ledger.0)
      (goes_on p.id before after t.turn (rw t.row (ap some t.stands))
        (state-update p (with_status after reason) c.payments keeps t.row) refl
        (λ j other.
          (state-update_others p (with_status after reason) c.payments keeps t.row j other, refl)))
Effect-Move c v (settles p ledger_id s) =
    let keeps : (x : Payment) → (with_status settled "" x).id ≡ x.id = λ x. refl in
    let t = transaction_of ledger_id p in
    rw (s.payments, s.transactions)
      (books p.id (rw s.row (ap some s.stands)) s.unbooked
        (state-update p (with_status settled "") c.payments keeps s.row)
        (is_booked-append p.id c.ledger_transactions t ∙ ground (arith, nat_beq_iff p.id p.id))
        (λ j other. (
          state-update_others p (with_status settled "") c.payments keeps s.row j other,
          is_booked-append j c.ledger_transactions t ∙ ground (arith, other),
        )))

module _ {F : Type 0} (le_zero : F → Bool) (to_numeric : F → Option ℤ) where
  -- The four transactions refine the rail: whatever calls are made, in any order and with any replies
  -- lost, the states of the payments and the presence of their transactions in the ledger go along a
  -- path of its moves.
  pub Reach-Course :
      {start db : Db} → Reach le_zero to_numeric start db → Course (rail start) (rail db)
  Reach-Course here = begins
  Reach-Course (next {t = t} {u = u} way st) =
      moves (Reach-Course way) (Effect-Move t u (Step-Effect le_zero to_numeric st))
