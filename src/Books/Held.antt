-- ===== src/Books/Held.antt =====
-- How the amounts held move when one payment changes its status.
use payment_rail_simulator.Prelude.{
  String, true, false, ◌≡◌, ap, inl, inr, some, List, ◌==◌, nat_eq, string_eq, if◌then◌else◌,
  Bool-cases,
}
use payment_rail_simulator.Prelude.Int.{ℤ, pos, pos_part, neg_part, ◌+ℤ◌, ◌-ℤ◌, int_laws}
use payment_rail_simulator.Prelude.Table.{find, update, sum_by-update}
use payment_rail_simulator.Payment.{PaymentState}
use payment_rail_simulator.Store.{Uuid, Payment, payment_key}
use payment_rail_simulator.Transition.{with_status}
use payment_rail_simulator.Books.{in_flight, held_for, held}

same_sum : (s h x : ℤ) → s +ℤ x ≡ h +ℤ x → s ≡ h
same_sum s h x e = omega (int_laws, ap pos_part e, ap neg_part e)

grown_sum : (s h x : ℤ) → s +ℤ pos 0 ≡ h +ℤ x → s ≡ h +ℤ x
grown_sum s h x e = omega (int_laws, ap pos_part e, ap neg_part e)

shrunk_sum : (s h x : ℤ) → s +ℤ x ≡ h +ℤ pos 0 → s ≡ h -ℤ x
shrunk_sum s h x e = omega (int_laws, ap pos_part e, ap neg_part e)

module _ (k : String) (id : Uuid) (next : PaymentState) (reason : String) (ps : List Payment)
    {p : Payment} (row : find payment_key id ps ≡ some p) where
  moved :
      held k (update payment_key id (with_status next reason) ps) +ℤ held_for k p
      ≡ held k ps +ℤ held_for k (with_status next reason p)
  unfolding held
  moved = sum_by-update payment_key (held_for k) id (with_status next reason) ps row

  pub held_same :
      in_flight p.status ≡ in_flight next
      → held k (update payment_key id (with_status next reason) ps) ≡ held k ps
  held_same e = same_sum _ _ (held_for k p) (rw (← e) at moved)

  pub held_grows :
      in_flight p.status ≡ false
      → in_flight next ≡ true
      → held k (update payment_key id (with_status next reason) ps)
        ≡ (if p.debtor_account == k then held k ps +ℤ p.amount else held k ps)
  held_grows e e' = elim (Bool-cases (p.debtor_account == k)) [
    | inl own ↦ rw own (grown_sum _ _ p.amount (rw (e, e', own) at moved))
    | inr other ↦ rw other (same_sum _ _ (pos 0) (rw (e, e', other) at moved))
  ]

  pub held_shrinks :
      in_flight p.status ≡ true
      → in_flight next ≡ false
      → held k (update payment_key id (with_status next reason) ps)
        ≡ (if p.debtor_account == k then held k ps -ℤ p.amount else held k ps)
  held_shrinks e e' = elim (Bool-cases (p.debtor_account == k)) [
    | inl own ↦ rw own (shrunk_sum _ _ p.amount (rw (e, e', own) at moved))
    | inr other ↦ rw other (same_sum _ _ (pos 0) (rw (e, e', other) at moved))
  ]
