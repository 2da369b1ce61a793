-- ===== src/System/Reconciled.antt =====
-- Reconciliation of the tables that the system reaches.
use payment_rail_simulator.System.Finality.{Reach-Holds}
use payment_rail_simulator.Prelude.{
  Bool, ◌≡◌, refl, subst, Option, some, [], inl, inr, arith, nat_eq, string_eq, eq_iff,
}
use payment_rail_simulator.Prelude.Int.{ℤ, eqb_ℤ_iff}
use payment_rail_simulator.Prelude.Table.{find, key-find}
use payment_rail_simulator.Payment.{PaymentState, rejected, failed, settled}
use payment_rail_simulator.Payment.Machine.{IsTerminal}
use payment_rail_simulator.Store.{Uuid, UuidText, Payment, Db, ok, payment_key, find_payment}
use payment_rail_simulator.Reconciliation.{
  ReconciliationStatus, pass, pending, ReconciliationResponse, judge, unmoved_status,
  reconcile_payment,
}
use payment_rail_simulator.Reconciliation.View.{
  ledger_view, transactions_of, entries_of, joined, keep_entries, currency_matches,
}
use payment_rail_simulator.Reconciliation.Counts.{Matches, plus_zero}
use payment_rail_simulator.Reconciliation.Verdicts.{Matches-pass}
use payment_rail_simulator.Effects.Bookings.{IsBookedOnce, LedgerFor, LedgerAt, IsBalanced}
use payment_rail_simulator.Effects.Booked.{Effect-IsBalanced}
use payment_rail_simulator.System.{Reach}
use payment_rail_simulator.System.Steps.{Reach-keeps}

booked-Matches :
    (id : Uuid) (p : Payment) (db : Db)
    → p.id ≡ id
    → IsBookedOnce db.ledger_transactions db.ledger_entries id p
    → Matches (ledger_view p db)
unfolding ledger_view joined keep_entries currency_matches
booked-Matches id p db own (t, one, money, both) =
    rw (own, one, both)
      (record {
        one_transaction = refl;
        two_entries = refl;
        one_debit = refl;
        one_credit = refl;
        debit_amount = (eqb_ℤ_iff _ _).1 (plus_zero p.amount);
        credit_amount = (eqb_ℤ_iff _ _).1 (plus_zero p.amount);
        balanced = (eqb_ℤ_iff _ _).1 refl;
        same_currency = ground (arith, eq_iff t.currency p.currency);
        debtor_debited = ground (arith, eq_iff p.debtor_account p.debtor_account);
        creditor_credited = ground (arith, eq_iff p.creditor_account p.creditor_account);
      })

unbooked-status :
    (id : Uuid) (p : Payment) (db : Db)
    → p.id ≡ id
    → transactions_of id db.ledger_transactions ≡ []
    → unmoved_status (ledger_view p db) ≡ pass
unfolding unmoved_status ledger_view joined
unbooked-status id p db own none_booked = rw (own, none_booked) refl

-- What a reconciliation of a payment in state `s` has to say.
abbrev pub expected : PaymentState → ReconciliationStatus
expected settled = pass
expected failed = pass
expected rejected = pass
expected _ = pending

judge_settled-expected :
    (id : Uuid) (text : UuidText) (p : Payment) (db : Db)
    → p.id ≡ id
    → IsBookedOnce db.ledger_transactions db.ledger_entries id p
    → (judge settled text p (ledger_view p db)).reconciliation_status ≡ pass
unfolding judge
judge_settled-expected id text p db own b =
    Matches-pass p (ledger_view p db) (booked-Matches id p db own b)

judge-expected :
    (s : PaymentState) (id : Uuid) (text : UuidText) (p : Payment) (db : Db)
    → p.id ≡ id
    → (IsTerminal s → LedgerFor db.ledger_transactions db.ledger_entries s id p)
    → (judge s text p (ledger_view p db)).reconciliation_status ≡ expected s
unfolding judge
judge-expected settled id text p db own b =
    judge_settled-expected id text p db own (b (inr (inr refl)))
judge-expected failed id text p db own b = unbooked-status id p db own (b (inr (inl refl)))
judge-expected rejected id text p db own b = unbooked-status id p db own (b (inl refl))
judge-expected _ id text p db own b = refl

module _ {F : Type 0} (le_zero : F → Bool) (to_numeric : F → Option ℤ) where
  -- What is reached from tables without payments and bookings is balanced.
  pub Reach-IsBalanced :
      {start db : Db}
      → start.payments ≡ []
      → start.ledger_transactions ≡ []
      → start.ledger_entries ≡ []
      → Reach le_zero to_numeric start db
      → IsBalanced db
  unfolding find transactions_of entries_of
  Reach-IsBalanced {start} no_payments no_ts no_es way =
      let began : IsBalanced start = record {
        at = λ j. rw (no_payments, no_ts) refl;
        owned = λ j h. rw no_es refl;
      } in
      Reach-keeps le_zero to_numeric IsBalanced (λ c v. Effect-IsBalanced) way began

  -- Start with no payments and no rows in the ledger, and let `first` and then `second` be reached by
  -- any calls of the four transactions, in any order and with any replies lost. reconcilePayment of a
  -- payment of `first`, which reads the payment from `first` and the ledger from `second`, answers
  -- without an error: "pass" if the payment was settled, failed or rejected, "pending" otherwise, and
  -- so never "fail".
  pub reconcile_payment-Reach :
      {start first second : Db} (id : Uuid) (p : Payment)
      → start.payments ≡ []
      → start.ledger_transactions ≡ []
      → start.ledger_entries ≡ []
      → Reach le_zero to_numeric start first
      → Reach le_zero to_numeric first second
      → find_payment id first ≡ some p
      → (r : ReconciliationResponse) × (reconcile_payment (some id) first second ≡ ok r)
        × (r.reconciliation_status ≡ expected p.status)
  unfolding reconcile_payment
  reconcile_payment-Reach {start} {first} {second} id p no_payments no_ts no_es before after row =
      let balanced : IsBalanced second =
        Reach-keeps le_zero to_numeric IsBalanced (λ c v. Effect-IsBalanced) after
          (Reach-IsBalanced no_payments no_ts no_es before) in
      let ts = second.ledger_transactions in
      let es = second.ledger_entries in
      (
        judge p.status (some id) p (ledger_view p second),
        rw row refl,
        judge-expected p.status id (some id) p second (key-find payment_key id first.payments row)
            (λ over.
              subst (LedgerAt ts es id) (Reach-Holds le_zero to_numeric id p over row after).payment
                (balanced.at id)),
      )
