-- ===== src/Settlement/Ends.antt =====
-- Every way in which `settlePayment` can end over a connection that answers.
use payment_rail_simulator.Prelude.{
  ◌≡◌, ◌≢◌, refl, sym, subst, ◌⊎◌, inl, inr, none, some, arith, nat_eq, Option-cases,
}
use payment_rail_simulator.Prelude.Table.{key-find}
use payment_rail_simulator.Payment.{PaymentState, accepted}
use payment_rail_simulator.Store.{
  Uuid, UuidText, Payment, Db, Result, ok, payment_key, find_payment,
}
use payment_rail_simulator.Store.Tx.{Session, statement, begin, wrap, ◌>>=◌, ◌>>◌}
use payment_rail_simulator.Store.Calm.{calm, Failed}
use payment_rail_simulator.Settlement.{SettlementResult, settle_payment}
use payment_rail_simulator.Settlement.Outcomes.{
  CanSettle, settled_tables, settlement, settle_payment_at, settle_payment_decides,
  settle_payment_absent, settle_payment_early,
}

-- The payment with the id of the call is settled, and all of `CanSettle` held.
abbrev pub Settles : Uuid → UuidText → Db → Result SettlementResult × Session → Type 0
Settles ledger_id id c r =
    (p : Payment) × (id ≡ some p.id)
    × CanSettle ledger_id p c
    × (r ≡ (ok (settlement p), calm (settled_tables ledger_id p c) (settled_tables ledger_id p c)))

module _ (ledger_id : Uuid) (c w : Db) where
  settle_row_ends :
      (p : Payment)
      → find_payment p.id c ≡ some p
      → let r = settle_payment ledger_id (some p.id) (calm c w) in
        Failed c r ⊎ Settles ledger_id (some p.id) c r
  settle_row_ends p row = elim (dec_accepted p.status) [
    | inl at_state ↦ elim (settle_payment_decides ledger_id p c w row at_state) [
      | inl failed ↦ inl failed
      | inr k ↦ inr (p, refl, k, settle_payment_at ledger_id p c w k)
    ]
    | inr ne ↦ inl (rw (settle_payment_early ledger_id p.id c w row ne))
  ]
    where
      dec_accepted : (s : PaymentState) → (s ≡ accepted) ⊎ (s ≢ accepted)
      dec_accepted s = ground arith

  abbrev Ends : UuidText → Type 0
  Ends id = let r = settle_payment ledger_id id (calm c w) in Failed c r ⊎ Settles ledger_id id c r

  -- Over a connection that answers, settlePayment returns an error and keeps the committed tables as
  -- they were; or there is a payment with this id for which all of `CanSettle` held, the result is its settlement,
  -- and the committed tables are `settled_tables` of those before.
  pub settle_payment_ends :
      (id : UuidText)
      → let r = settle_payment ledger_id id (calm c w) in Failed c r ⊎ Settles ledger_id id c r
  settle_payment_ends none = inl (unfold settle_payment statement ◌>>=◌ ◌>>◌ wrap begin in refl)
  settle_payment_ends (some id) = elim (Option-cases (find_payment id c)) [
    | inl absent ↦ inl (rw (settle_payment_absent ledger_id id c w absent))
    | inr (p, row) ↦
        let e = key-find payment_key id c.payments row in
        subst (λ k. Ends (some k)) e
          (settle_row_ends p (subst (λ k. find_payment k c ≡ some p) (sym e) row))
  ]
