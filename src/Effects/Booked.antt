-- ===== src/Effects/Booked.antt =====
-- The ledger against the payments: what each call does to the bookings.
use mathlib.Core.List.{append-nil}
use payment_rail_simulator.Prelude.{
  true, false, ◌≡◌, ◌⊎◌, String, refl, sym, subst, ◌∙◌, Option, none, some, List, [], ◌∷◌, ◌++◌,
  inl, inr, arith, ◌==◌, nat_eq, nat_beq_iff, Bool-cases, if◌then◌else◌,
}
use payment_rail_simulator.Prelude.Table.{find, update, or_else, find-update, find-append}
use payment_rail_simulator.Payment.{PaymentState, validated, rejected, accepted, settled}
use payment_rail_simulator.Store.{
  Uuid, Payment, LedgerTransaction, LedgerEntry, Db, payment_key, find_payment,
}
use payment_rail_simulator.Transition.{with_status}
use payment_rail_simulator.Ledger.{has_ledger_transaction}
use payment_rail_simulator.Reconciliation.View.{transactions_of, entries_of}
use payment_rail_simulator.Effects.{
  Turn, refused, cleared, agreed, declined, transaction_of, debit_of, credit_of, Stored, Effect,
  stays, stores, turns, settles,
}
use payment_rail_simulator.Effects.Bookings.{
  IsBookedOnce, LedgerFor, LedgerAt, IsBalanced, transactions_of-append, entries_of-append,
  has_ledger_transaction-found, has_ledger_transaction-append,
}

module _ (ts : List LedgerTransaction) (es : List LedgerEntry) where
  unsettled_new :
      (p : Payment) (id : Uuid)
      → (p.status ≡ validated) ⊎ (p.status ≡ rejected)
      → transactions_of id ts ≡ []
      → LedgerFor ts es p.status id p
  unsettled_new p id (inl e) h = subst (λ s. LedgerFor ts es s id p) (sym e) h
  unsettled_new p id (inr e) h = subst (λ s. LedgerFor ts es s id p) (sym e) h

  stored-LedgerAt :
      (p : Payment) (id : Uuid) (o : Option Payment)
      → (p.status ≡ validated) ⊎ (p.status ≡ rejected)
      → LedgerAt ts es id o
      → LedgerAt ts es id (or_else o (if p.id == id then some p else none))
  stored-LedgerAt p id (some q) v h = h
  stored-LedgerAt p id none v h = elim (Bool-cases (p.id == id)) [
    | inl own ↦ rw own (unsettled_new p id v h)
    | inr other ↦ rw other h
  ]

  turn-LedgerFor :
      {before next : PaymentState} (id : Uuid) (p q : Payment)
      → Turn before next
      → LedgerFor ts es before id p
      → LedgerFor ts es next id q
  turn-LedgerFor id p q refused h = h
  turn-LedgerFor id p q cleared h = h
  turn-LedgerFor id p q agreed h = h
  turn-LedgerFor id p q declined h = h

  turned-LedgerAt :
      (p : Payment) {before next : PaymentState} (reason : String) (ps : List Payment)
      → find payment_key p.id ps ≡ some p
      → p.status ≡ before
      → Turn before next
      → ((id : Uuid) → LedgerAt ts es id (find payment_key id ps))
      → (id : Uuid)
      → LedgerAt ts es id
          (find payment_key id (update payment_key p.id (with_status next reason) ps))
  turned-LedgerAt p {before} {next} reason ps row stands turn at id =
      rw (find-update payment_key id p.id (with_status next reason) ps (λ x. refl))
        (elim (Bool-cases (p.id == id)) [
          | inr other ↦ rw other (at id)
          | inl own ↦
              let same : p.id ≡ id = ground arith in
              let now : LedgerAt ts es p.id (some p) = subst (LedgerAt ts es p.id) row (at p.id) in
              rw (own, row, ← same)
                (turn-LedgerFor p.id p (with_status next reason p) turn
                  (subst (λ s. LedgerFor ts es s p.id p) stands now))
        ])

-- A settlement of payment `p` adds its transaction and its two entries.
module _ (p : Payment) (ledger_id : Uuid) (ts : List LedgerTransaction) (es : List LedgerEntry)
    (unused : has_ledger_transaction ledger_id ts ≡ false)
    (owned : (id : Uuid) → has_ledger_transaction id ts ≡ false → entries_of id es ≡ []) where
  abbrev more_transactions : List LedgerTransaction
  more_transactions = ts ++ transaction_of ledger_id p ∷ []

  abbrev more_entries : List LedgerEntry
  more_entries = es ++ debit_of ledger_id p ∷ credit_of ledger_id p ∷ []

  others_same :
      (id : Uuid)
      → (p.id == id) ≡ false
      → transactions_of id more_transactions ≡ transactions_of id ts
  others_same id other =
      transactions_of-append id ts (transaction_of ledger_id p)
      ∙ rw other (append-nil (transactions_of id ts))

  own_entries :
      entries_of ledger_id more_entries ≡ debit_of ledger_id p ∷ credit_of ledger_id p ∷ []
  unfolding entries_of
  own_entries =
      entries_of-append ledger_id es (debit_of ledger_id p ∷ credit_of ledger_id p ∷ [])
      ∙ rw (owned ledger_id unused) (ground (arith, nat_beq_iff ledger_id ledger_id))

  other_entries :
      (id : Uuid) → (ledger_id == id) ≡ false → entries_of id more_entries ≡ entries_of id es
  unfolding entries_of
  other_entries id other =
      entries_of-append id es (debit_of ledger_id p ∷ credit_of ledger_id p ∷ [])
      ∙ rw other (append-nil (entries_of id es))

  not_the_new : (id : Uuid) → has_ledger_transaction id ts ≡ true → (ledger_id == id) ≡ false
  not_the_new id has = elim (Bool-cases (ledger_id == id)) [
    | inr other ↦ other
    | inl own ↦
        let same : ledger_id ≡ id = ground arith in ground (arith, unused, rw (← same) at has)
  ]

  others-LedgerFor :
      (s : PaymentState) (id : Uuid) (q : Payment)
      → (p.id == id) ≡ false
      → LedgerFor ts es s id q
      → LedgerFor more_transactions more_entries s id q
  others-LedgerFor settled id q other (t, one, money, both) = (
    t,
    others_same id other ∙ one,
    money,
    other_entries t.id (not_the_new t.id (has_ledger_transaction-found id ts one)) ∙ both,
  )
  others-LedgerFor _ id q other h = others_same id other ∙ h

  others-LedgerAt :
      (id : Uuid) (o : Option Payment)
      → (p.id == id) ≡ false
      → LedgerAt ts es id o
      → LedgerAt more_transactions more_entries id o
  others-LedgerAt id none other h = others_same id other ∙ h
  others-LedgerAt id (some q) other h = others-LedgerFor q.status id q other h

  settled-IsBookedOnce :
      transactions_of p.id ts ≡ []
      → IsBookedOnce more_transactions more_entries p.id (with_status settled "" p)
  settled-IsBookedOnce h = (
    transaction_of ledger_id p,
    transactions_of-append p.id ts (transaction_of ledger_id p)
        ∙ rw h (ground (arith, nat_beq_iff p.id p.id)),
    refl,
    own_entries,
  )

  settled-LedgerAt :
      (ps : List Payment)
      → find payment_key p.id ps ≡ some p
      → p.status ≡ accepted
      → ((id : Uuid) → LedgerAt ts es id (find payment_key id ps))
      → (id : Uuid)
      → LedgerAt more_transactions more_entries id
          (find payment_key id (update payment_key p.id (with_status settled "") ps))
  settled-LedgerAt ps row stands at id =
      rw (find-update payment_key id p.id (with_status settled "") ps (λ x. refl))
        (elim (Bool-cases (p.id == id)) [
          | inr other ↦ rw other (others-LedgerAt id (find payment_key id ps) other (at id))
          | inl own ↦
              let same : p.id ≡ id = ground arith in
              let now : LedgerAt ts es p.id (some p) = subst (LedgerAt ts es p.id) row (at p.id) in
              rw (own, row, ← same)
                (settled-IsBookedOnce (subst (λ s. LedgerFor ts es s p.id p) stands now))
        ])

  settled-owned :
      (id : Uuid)
      → has_ledger_transaction id more_transactions ≡ false
      → entries_of id more_entries ≡ []
  settled-owned id h =
      let (old, other) = has_ledger_transaction-append id ts (transaction_of ledger_id p) h in
      other_entries id other ∙ owned id old

Stored-IsBalanced : (p : Payment) (c v : Db) → Stored p c v → IsBalanced c → IsBalanced v
Stored-IsBalanced p c v st b = record {
  at = λ id.
      rw (st.payments, st.ledger.0, st.ledger.1, find-append payment_key id c.payments (p ∷ []))
        (unfold find in
          stored-LedgerAt c.ledger_transactions c.ledger_entries p id (find_payment id c) st.verdict
            (b.at id));
  owned = rw (st.ledger.0, st.ledger.1) b.owned;
}

-- Every effect keeps the ledger balanced.
pub Effect-IsBalanced : {c v : Db} → Effect c v → IsBalanced c → IsBalanced v
Effect-IsBalanced (stays e) b = subst IsBalanced (sym e) b
Effect-IsBalanced {c} {v} (stores p st) b = Stored-IsBalanced p c v st b
Effect-IsBalanced {c} {v} (turns p before next reason t) b = record {
  at =
      rw (t.payments, t.ledger.0, t.ledger.1)
        (turned-LedgerAt c.ledger_transactions c.ledger_entries p reason c.payments t.row t.stands
          t.turn b.at);
  owned = rw (t.ledger.0, t.ledger.1) b.owned;
}
Effect-IsBalanced {c} {v} (settles p ledger_id s) b = record {
  at =
      rw (s.payments, s.transactions, s.entries)
        (settled-LedgerAt p ledger_id c.ledger_transactions c.ledger_entries s.unused b.owned
          c.payments s.row s.stands b.at);
  owned =
      rw (s.transactions, s.entries)
        (settled-owned p ledger_id c.ledger_transactions c.ledger_entries s.unused b.owned);
}
