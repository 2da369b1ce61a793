-- ===== src/System/Told.antt =====
-- The transition log of the tables that the system reaches.
use payment_rail_simulator.Prelude.{
  ℕ, ◌+◌, Bool, ◌≡◌, ◌≤◌, refl, subst, Option, some, List, [], ◌∷◌, arith, nat_eq, length,
}
use payment_rail_simulator.Prelude.Int.{ℤ}
use payment_rail_simulator.Prelude.Table.{find}
use payment_rail_simulator.Payment.{
  PaymentState, PaymentEvent, received, settled, validation_passed, clearing_started,
  clearing_passed, receiver_accepted, settlement_started, settlement_completed,
}
use payment_rail_simulator.Payment.Machine.{Run, done, step, Run-ends, settled_path}
use payment_rail_simulator.Store.{Uuid, Payment, LogEntry, Db, find_payment}
use payment_rail_simulator.Transition.{max_sequence}
use payment_rail_simulator.Effects.History.{
  log_of, Chain, ToldAt, IsWellLogged, Effect-IsWellLogged,
}
use payment_rail_simulator.System.{Reach}
use payment_rail_simulator.System.Steps.{Reach-keeps}

-- The column `event_type` of the rows.
abbrev pub events_of : List LogEntry → List PaymentEvent
events_of [] = []
events_of (x ∷ xs) = x.event_type ∷ events_of xs

length-events_of : (xs : List LogEntry) → length (events_of xs) ≡ length xs
length-events_of [] = refl
length-events_of (x ∷ xs) = omega (arith, length-events_of xs)

Chain-Run :
    (n : ℕ) (s : PaymentState) (xs : List LogEntry) {t : PaymentState}
    → Chain n s xs t
    → Run s (events_of xs) t
Chain-Run n s [] here = subst (Run s []) here done
Chain-Run n s (x ∷ xs) (number, origin, move, rest) =
    step x.event_type move (Chain-Run (n + 1) x.to_state xs rest)

module _ {F : Type 0} (le_zero : F → Bool) (to_numeric : F → Option ℤ) where
  -- Start with no payments and an empty transition log. After any calls of the four transactions, in
  -- any order and with any replies lost, the log's rows of a payment are a run of the state machine
  -- from "received" to the status of the payment, numbered 1, 2, 3 and so on in the order in which they
  -- were written, with the highest number the number of rows; and the log has no row of a payment
  -- that does not exist.
  pub Reach-ToldAt :
      {start db : Db} (id : Uuid)
      → start.payments ≡ []
      → start.transition_log ≡ []
      → Reach le_zero to_numeric start db
      → ToldAt db.transition_log id (find_payment id db)
  unfolding find log_of max_sequence
  Reach-ToldAt {start} id no_payments no_log way =
      let began : IsWellLogged start = λ j. rw (no_payments, no_log) (refl, refl) in
      Reach-keeps le_zero to_numeric IsWellLogged Effect-IsWellLogged way began id

  -- Start with no payments and an empty transition log. After any calls of the four transactions, in
  -- any order and with any replies lost, a payment has at most six rows in the log, and the rows of a
  -- settled payment are the six events from the passed validation to the completed settlement, each
  -- once and in their order.
  pub log_of-bound :
      {start db : Db} (id : Uuid) (p : Payment)
      → start.payments ≡ []
      → start.transition_log ≡ []
      → Reach le_zero to_numeric start db
      → find_payment id db ≡ some p
      → (length (log_of id db.transition_log) ≤ 6)
        × (p.status ≡ settled
            → events_of (log_of id db.transition_log)
              ≡ validation_passed ∷ clearing_started ∷ clearing_passed ∷ receiver_accepted
                ∷ settlement_started ∷ settlement_completed ∷ [])
  log_of-bound {db = db} id p no_payments no_log way row =
      let rows = log_of id db.transition_log in
      let told : ToldAt db.transition_log id (some p) =
        subst (ToldAt db.transition_log id) row (Reach-ToldAt id no_payments no_log way) in
      let run = Chain-Run 1 received rows told.0 in
      (
        omega (arith, (Run-ends run).0, length-events_of rows),
        λ e. settled_path (subst (Run received (events_of rows)) e run),
      )
