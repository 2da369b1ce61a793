-- ===== src/System/Finality.antt =====
-- Payments that are over, beside the calls of the four transactions.
use mathlib.Core.List.{append-nil}
use payment_rail_simulator.Prelude.{
  Bool, false, ◌≡◌, refl, sym, subst, ◌∙◌, inl, inr, Option, some, none, List, [], ◌∷◌, ◌==◌,
  nat_eq, arith, Bool-cases,
}
use payment_rail_simulator.Prelude.Int.{ℤ}
use payment_rail_simulator.Prelude.Table.{find, update, find-update, find-append}
use payment_rail_simulator.Payment.{PaymentState, settled}
use payment_rail_simulator.Payment.Machine.{IsTerminal}
use payment_rail_simulator.Store.{
  Uuid, Payment, LogEntry, LedgerTransaction, Db, payment_key, find_payment,
}
use payment_rail_simulator.Transition.{with_status}
use payment_rail_simulator.Intake.Outcomes.{find-is_taken}
use payment_rail_simulator.Reconciliation.View.{transactions_of}
use payment_rail_simulator.Effects.{
  Turn, refused, cleared, agreed, declined, Effect, stays, stores, turns, settles, transaction_of,
}
use payment_rail_simulator.Effects.Bookings.{transactions_of-append}
use payment_rail_simulator.Effects.History.{log_of, Logs-others}
use payment_rail_simulator.System.{Reach}
use payment_rail_simulator.System.Steps.{Reach-keeps}

turn_starts_alive :
    {before next : PaymentState} (s : PaymentState)
    → Turn before next
    → s ≡ before
    → ¬ (IsTerminal s)
turn_starts_alive s refused e t = ground arith
turn_starts_alive s cleared e t = ground arith
turn_starts_alive s agreed e t = ground arith
turn_starts_alive s declined e t = ground arith

-- Payment `p` with this id, these rows in the transition log and these transactions in the ledger.
pub record Holds (id : Uuid) (p : Payment) (rows : List LogEntry) (ts : List LedgerTransaction)
    (db : Db) : Type 0 where
  pub payment : find_payment id db ≡ some p
  pub log : log_of id db.transition_log ≡ rows
  pub bookings : transactions_of id db.ledger_transactions ≡ ts

module _ (id : Uuid) (p : Payment) (over : IsTerminal p.status) where
  -- A payment that a call changes is another one.
  another :
      (q : Payment) (db : Db)
      → find_payment q.id db ≡ some q
      → ¬ (IsTerminal q.status)
      → find_payment id db ≡ some p
      → (q.id == id) ≡ false
  another q db row alive here = elim (Bool-cases (q.id == id)) [
    | inr other ↦ other
    | inl own ↦
        let same : q.id ≡ id = ground arith in
        let both : some p ≡ some q = sym here ∙ rw (← same) row in
        let one : p ≡ q = ground arith in absurd (alive (subst (λ x. IsTerminal x.status) one over))
  ]

  untouched :
      (q : Payment) (g : Payment → Payment) (ps : List Payment)
      → ((x : Payment) → (g x).id ≡ x.id)
      → (q.id == id) ≡ false
      → find payment_key id ps ≡ some p
      → find payment_key id (update payment_key q.id g ps) ≡ some p
  untouched q g ps keeps other here = rw (find-update payment_key id q.id g ps keeps, other) here

  new_is_another :
      (q : Payment) (c : Db)
      → find_payment q.id c ≡ none
      → find_payment id c ≡ some p
      → (q.id == id) ≡ false
  new_is_another q c fresh here = elim (Bool-cases (q.id == id)) [
    | inr other ↦ other
    | inl own ↦
        let same : q.id ≡ id = ground arith in
        let both : none ≡ some p = sym fresh ∙ rw same here in absurd (ground arith)
  ]

  module _ (rows : List LogEntry) (ts : List LedgerTransaction) where
    held : (c v : Db) → Effect c v → Holds id p rows ts c → Holds id p rows ts v
    held c v (stays e) h = subst (Holds id p rows ts) (sym e) h
    held c v (stores q st) h =
        let other = new_is_another q c (find-is_taken q.id q.uetr c.payments st.free) h.payment in
        record {
          payment =
              rw (st.payments, find-append payment_key id c.payments (q ∷ []), h.payment) refl;
          log = (Logs-others id other st.log).0 ∙ h.log;
          bookings = rw (st.ledger.0) h.bookings;
        }
    held c v (turns q before next reason t) h =
        let alive = turn_starts_alive q.status t.turn t.stands in
        let other = another q c t.row alive h.payment in
        record {
          payment =
              rw t.payments
                (untouched q (with_status next reason) c.payments (λ x. refl) other h.payment);
          log = (Logs-others id other t.log).0 ∙ h.log;
          bookings = rw (t.ledger.0) h.bookings;
        }
    held c v (settles q ledger_id s) h =
        let other = another q c s.row (λ t. ground (arith, s.stands)) h.payment in
        record {
          payment =
              rw s.payments
                (untouched q (with_status settled "") c.payments (λ x. refl) other h.payment);
          log = (Logs-others id other s.log).0 ∙ h.log;
          bookings = rw s.transactions (
              transactions_of-append id c.ledger_transactions (transaction_of ledger_id q)
              ∙ rw other (append-nil (transactions_of id c.ledger_transactions))
              ∙ h.bookings);
        }

module _ {F : Type 0} (le_zero : F → Bool) (to_numeric : F → Option ℤ) where
  -- A payment that is rejected, failed or settled stays as it is: whatever calls of the four transactions
  -- follow, in any order and with any replies lost, its row, its rows in the transition log and its
  -- transactions in the ledger are as they were.
  pub Reach-Holds :
      {first second : Db} (id : Uuid) (p : Payment)
      → IsTerminal p.status
      → find_payment id first ≡ some p
      → Reach le_zero to_numeric first second
      → Holds id p
          (log_of id first.transition_log)
          (transactions_of id first.ledger_transactions)
          second
  Reach-Holds {first} id p over row way =
      let rows = log_of id first.transition_log in
      let ts = transactions_of id first.ledger_transactions in
      Reach-keeps le_zero to_numeric (Holds id p rows ts) (held id p over rows ts) way
        (record { payment = row; log = refl; bookings = refl })
