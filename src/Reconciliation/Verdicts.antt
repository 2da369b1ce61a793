-- ===== src/Reconciliation/Verdicts.antt =====
-- What the verdict of `reconcilePayment` means.
use payment_rail_simulator.Prelude.{◌≡◌, ◌↔◌, refl, ◌⊎◌, inl, some, List, [], ◌∷◌, arith, nat_eq}
use payment_rail_simulator.Payment.{PaymentState, rejected, failed, settled}
use payment_rail_simulator.Store.{Uuid, UuidText, Payment, Db, ok, find_payment}
use payment_rail_simulator.Reconciliation.{
  ReconciliationCheck, ReconciliationStatus, pass, fail, pending, ReconciliationResponse,
  settled_checks, status_of, unmoved_status, judge, reconcile_payment,
}
use payment_rail_simulator.Reconciliation.View.{LedgerView, ledger_view}
use payment_rail_simulator.Reconciliation.Agrees.{Agrees, HasNothing}
use payment_rail_simulator.Reconciliation.Counts.{Matches, Matches-iff_Agrees, counts-HasNothing}

settled_pass : (p : Payment) (v : LedgerView) → status_of (settled_checks p v) ≡ pass → Matches v
unfolding status_of settled_checks
settled_pass p v h = ground arith

pub Matches-pass :
    (p : Payment) (v : LedgerView) → Matches v → status_of (settled_checks p v) ≡ pass
unfolding status_of settled_checks
Matches-pass p v m = ground arith

-- What a verdict says: of a settled payment that the ledger agrees with it, of a failed or rejected
-- one that the ledger has nothing of it, and of any other that it is too early.
abbrev pub Verdict : PaymentState → ReconciliationStatus → Payment → Db → Type 0
Verdict settled r p db = ((r ≡ pass) ↔ Agrees p db) × ((r ≡ pass) ⊎ (r ≡ fail))
Verdict failed r p db = ((r ≡ pass) ↔ HasNothing p db) × ((r ≡ pass) ⊎ (r ≡ fail))
Verdict rejected r p db = ((r ≡ pass) ↔ HasNothing p db) × ((r ≡ pass) ⊎ (r ≡ fail))
Verdict _ r p db = r ≡ pending

two_ways : (cs : List ReconciliationCheck) → (status_of cs ≡ pass) ⊎ (status_of cs ≡ fail)
unfolding status_of
two_ways [] = inl refl
two_ways (c ∷ cs) = ground (arith, two_ways cs)

unmoved_pass :
    (v : LedgerView) → (unmoved_status v ≡ pass) ↔ ((v.transaction_count ≡ 0) × (v.entry_count ≡ 0))
unfolding unmoved_status
unmoved_pass v = (λ h. ground arith, λ h. ground arith)

unmoved-HasNothing :
    (p : Payment) (db : Db)
    → let r = unmoved_status (ledger_view p db) in
      ((r ≡ pass) ↔ HasNothing p db) × ((r ≡ pass) ⊎ (r ≡ fail))
unmoved-HasNothing p db =
    let v = ledger_view p db in
    let counts = counts-HasNothing p db in
    (
      (λ h. counts.0 ((unmoved_pass v).0 h), λ h. (unmoved_pass v).1 (counts.1 h)),
      unfold unmoved_status in ground arith,
    )

judge-Verdict :
    (s : PaymentState) (id : UuidText) (p : Payment) (db : Db)
    → Verdict s (judge s id p (ledger_view p db)).reconciliation_status p db
unfolding judge
judge-Verdict settled id p db =
    let v = ledger_view p db in
    let agrees = Matches-iff_Agrees p db in
    (
      (λ h. agrees.0 (settled_pass p v h), λ h. Matches-pass p v (agrees.1 h)),
      two_ways (settled_checks p v),
    )
judge-Verdict failed id p db = unmoved-HasNothing p db
judge-Verdict rejected id p db = unmoved-HasNothing p db
judge-Verdict _ id p db = refl

judge_echoes :
    (s : PaymentState) (id : UuidText) (p : Payment) (v : LedgerView)
    → let r = judge s id p v in
      (r.payment_status ≡ p.status) × (r.amount ≡ p.amount) × (r.currency ≡ p.currency)
unfolding judge
judge_echoes settled id p v = (refl, refl, refl)
judge_echoes _ id p v = (refl, refl, refl)

-- reconcilePayment of a payment that is found returns a response with the payment's status, amount and
-- currency. Of a settled payment the verdict is "pass" exactly if the ledger has one transaction of the
-- payment, in its currency, with exactly two entries, a debit of its debtor and a credit of its
-- creditor, each of its amount; of a failed or rejected one exactly if the ledger has no transaction
-- of it; and "fail" otherwise. Of any other payment it is "pending".
pub reconcile_payment-Verdict :
    (id : Uuid) (p : Payment) (first second : Db)
    → find_payment id first ≡ some p
    → (r : ReconciliationResponse) × (reconcile_payment (some id) first second ≡ ok r)
      × ((r.payment_status ≡ p.status) × (r.amount ≡ p.amount) × (r.currency ≡ p.currency))
      × Verdict p.status r.reconciliation_status p second
unfolding reconcile_payment
reconcile_payment-Verdict id p first second row =
    let v = ledger_view p second in
    (
      judge p.status (some id) p v,
      rw row,
      judge_echoes p.status (some id) p v,
      judge-Verdict p.status (some id) p second,
    )
