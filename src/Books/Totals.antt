-- ===== src/Books/Totals.antt =====
-- The sum of the balances of all accounts before and after clearPayment, respondToPayment and
-- settlePayment.
use payment_rail_simulator.Prelude.{
  String, Bool, true, false, ◌≡◌, refl, ap, nat_eq, string_eq, some, inl, inr, List,
}
use payment_rail_simulator.Prelude.Int.{ℤ, pos_part, neg_part, ◌+ℤ◌, ◌-ℤ◌, int_laws}
use payment_rail_simulator.Prelude.Table.{find, update, sum_by, sum_by-update}
use payment_rail_simulator.Store.{Uuid, UuidText, Account, Db, account_key}
use payment_rail_simulator.Store.Tx.{Session}
use payment_rail_simulator.Store.Calm.{calm, committed-Failed}
use payment_rail_simulator.Store.Follows.{keeps-Follows}
use payment_rail_simulator.Transition.Steps.{advanced}
use payment_rail_simulator.Accounts.{reserve, release, take_reserved, deposit}
use payment_rail_simulator.Ledger.Entries.{booked}
use payment_rail_simulator.Clearing.{clear_payment}
use payment_rail_simulator.Clearing.Outcomes.{
  entered_tables, reserved_tables, passed_tables, refused_tables, cleared_tables,
}
use payment_rail_simulator.Clearing.Ends.{clear_payment_ends}
use payment_rail_simulator.Clearing.Faults.{clear_payment-Follows}
use payment_rail_simulator.Receiver.{respond_to_payment}
use payment_rail_simulator.Receiver.Outcomes.{
  agreed_tables, accepted_tables, declined_tables, rejected_tables,
}
use payment_rail_simulator.Receiver.Ends.{respond_to_payment_ends}
use payment_rail_simulator.Receiver.Faults.{respond_to_payment-Follows}
use payment_rail_simulator.Settlement.{settle_payment}
use payment_rail_simulator.Settlement.Outcomes.{
  debited, credited, started_tables, recorded_tables, settled_tables,
}
use payment_rail_simulator.Settlement.Ends.{settle_payment_ends}
use payment_rail_simulator.Settlement.Faults.{settle_payment-Follows}

abbrev balance_of : Account → ℤ
balance_of a = a.balance

unfoldable pub total_balance : List Account → ℤ
total_balance table = sum_by balance_of table

unmoved : (s h x : ℤ) → s +ℤ x ≡ h +ℤ x → s ≡ h
unmoved s h x e = omega (int_laws, ap pos_part e, ap neg_part e)

exchanged : (s h t x b d : ℤ) → h +ℤ b ≡ s +ℤ (b -ℤ x) → t +ℤ d ≡ h +ℤ (d +ℤ x) → t ≡ s
exchanged s h t x b d e f =
    omega (int_laws, ap pos_part e, ap neg_part e, ap pos_part f, ap neg_part f)

module _ (k : String) (table : List Account) {a : Account}
    (row : find account_key k table ≡ some a) where
  total-reserve :
      (x : ℤ) → total_balance (update account_key k (reserve x) table) ≡ total_balance table
  unfolding total_balance
  total-reserve x =
      unmoved _ _ a.balance (sum_by-update account_key balance_of k (reserve x) table row)

  total-release :
      (x : ℤ) → total_balance (update account_key k (release x) table) ≡ total_balance table
  unfolding total_balance
  total-release x =
      unmoved _ _ a.balance (sum_by-update account_key balance_of k (release x) table row)

  -- A debit, and a credit of the same amount.
  total-transfer :
      (x : ℤ) (j : String) {b : Account}
      → find account_key j (update account_key k (take_reserved x) table) ≡ some b
      → total_balance
          (update account_key j (deposit x) (update account_key k (take_reserved x) table))
        ≡ total_balance table
  unfolding total_balance
  total-transfer x j {b} row' =
      exchanged (sum_by balance_of table)
        (sum_by balance_of (update account_key k (take_reserved x) table)) _ x a.balance b.balance
        (sum_by-update account_key balance_of k (take_reserved x) table row)
        (sum_by-update account_key balance_of j (deposit x)
          (update account_key k (take_reserved x) table) row')

module _ (c w : Db) where
  abbrev Keeps : Db → Type 0
  Keeps db = total_balance db.accounts ≡ total_balance c.accounts

  calm-clear_payment-total :
      (event_id : Uuid) (id : UuidText) → Keeps (clear_payment event_id id (calm c w)).1.committed
  unfolding refused_tables cleared_tables passed_tables reserved_tables entered_tables advanced
  calm-clear_payment-total event_id id = elim (clear_payment_ends event_id c w id) [
    | inl stopped ↦ rw (committed-Failed c (clear_payment event_id id (calm c w)) stopped)
    | inr (inl (p, own, inl (k, e))) ↦ rw e
    | inr (inl (p, own, inr (k, short, e))) ↦ rw e
    | inr (inr (p, own, k, e)) ↦
        rw e (total-reserve p.debtor_account c.accounts k.debtor_row p.amount)
  ]

  calm-respond_to_payment-total :
      (event_id : Uuid) (id : UuidText) (yes_or_no : Bool) (reason : String)
      → Keeps (respond_to_payment event_id id yes_or_no reason (calm c w)).1.committed
  unfolding accepted_tables agreed_tables rejected_tables declined_tables advanced
  calm-respond_to_payment-total event_id id true reason =
      elim (respond_to_payment_ends event_id c w reason true id) [
        | inl stopped ↦
            rw (committed-Failed c (respond_to_payment event_id id true reason (calm c w)) stopped)
        | inr (p, own, k, unused, e) ↦ rw e
      ]
  calm-respond_to_payment-total event_id id false reason =
      elim (respond_to_payment_ends event_id c w reason false id) [
        | inl stopped ↦
            rw (committed-Failed c (respond_to_payment event_id id false reason (calm c w)) stopped)
        | inr (p, own, k, can, e) ↦
            rw e (total-release p.debtor_account c.accounts can.debtor_row p.amount)
      ]

  calm-settle_payment-total :
      (ledger_id : Uuid) (id : UuidText)
      → Keeps (settle_payment ledger_id id (calm c w)).1.committed
  unfolding settled_tables started_tables recorded_tables booked debited credited advanced
  calm-settle_payment-total ledger_id id = elim (settle_payment_ends ledger_id c w id) [
    | inl stopped ↦ rw (committed-Failed c (settle_payment ledger_id id (calm c w)) stopped)
    | inr (p, own, k, e) ↦ rw e (
        total-transfer p.debtor_account c.accounts k.moves.debtor_row p.amount p.creditor_account
          k.moves.creditor_row)
  ]

-- Whatever replies are lost, the balances of all accounts add up to the same before and after a call
-- of clearPayment, of respondToPayment and of settlePayment.
pub money_is_conserved :
    (new_id : Uuid) (id : UuidText) (yes_or_no : Bool) (reason : String) (s : Session)
    → (total_balance (clear_payment new_id id s).1.committed.accounts
        ≡ total_balance s.committed.accounts)
      × (total_balance (respond_to_payment new_id id yes_or_no reason s).1.committed.accounts
          ≡ total_balance s.committed.accounts)
      × (total_balance (settle_payment new_id id s).1.committed.accounts
          ≡ total_balance s.committed.accounts)
money_is_conserved new_id id yes_or_no reason s = (
  keeps-Follows (Keeps s.committed s.working) (clear_payment new_id id) s
      (clear_payment-Follows new_id id) refl
      (calm-clear_payment-total s.committed s.working new_id id),
  keeps-Follows (Keeps s.committed s.working) (respond_to_payment new_id id yes_or_no reason) s
      (respond_to_payment-Follows new_id id yes_or_no reason) refl
      (calm-respond_to_payment-total s.committed s.working new_id id yes_or_no reason),
  keeps-Follows (Keeps s.committed s.working) (settle_payment new_id id) s
      (settle_payment-Follows new_id id) refl
      (calm-settle_payment-total s.committed s.working new_id id),
)
