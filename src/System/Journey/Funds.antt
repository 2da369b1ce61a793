-- ===== src/System/Journey/Funds.antt =====
-- The accounts of the two sides at the settlement of a payment.
use payment_rail_simulator.Prelude.{
  Bool, true, false, ◌≡◌, refl, ◌∙◌, some, List, ◌==◌, nat_eq, string_eq, eq_iff, arith, ◌&&◌,
}
use payment_rail_simulator.Prelude.Int.{ℤ, pos, ◌+ℤ◌, ◌-ℤ◌, ◌≤ℤ◌, leb_ℤ, leb_ℤ_iff, int_laws}
use payment_rail_simulator.Prelude.Table.{update, find-update}
use payment_rail_simulator.Payment.{clearing, awaiting_response, accepted, settled}
use payment_rail_simulator.Store.{
  Uuid, Payment, Account, Db, account_key, find_payment, find_account,
}
use payment_rail_simulator.Transition.{with_status}
use payment_rail_simulator.Transition.Steps.{advanced}
use payment_rail_simulator.Accounts.{is_usable, reserve, can_take, take_reserved, deposit}
use payment_rail_simulator.Ledger.Entries.{booked}
use payment_rail_simulator.Ledger.{has_ledger_transaction, is_booked}
use payment_rail_simulator.Settlement.Outcomes.{
  CanMove, CanSettle, started_tables, recorded_tables, settled_tables, debited, credited,
  settled_row,
}
use payment_rail_simulator.System.Journey.Stages.{Stage, CanPay}

-- The settlement of payment `p` with its amount reserved.
module _ (c : Db) (p : Payment) (pays : CanPay c p) (db : Db)
    (at : Stage c p (update account_key p.debtor_account (reserve p.amount) c.accounts) db)
    (ledger_id : Uuid) where
  held_debtor : find_account p.debtor_account db ≡ some (reserve p.amount pays.debtor)
  held_debtor = rw at.funds (
      find-update account_key p.debtor_account p.debtor_account (reserve p.amount) c.accounts
        (λ x. refl)
      ∙ rw pays.debtor_row (ground (arith, eq_iff p.debtor_account p.debtor_account)))

  held_creditor : find_account p.creditor_account db ≡ some pays.creditor
  held_creditor = rw at.funds (
      find-update account_key p.creditor_account p.debtor_account (reserve p.amount) c.accounts
        (λ x. refl)
      ∙ rw (pays.two_accounts, pays.creditor_row) refl)

  covered :
      (x : ℤ) (a : Account)
      → pos 0 ≤ℤ a.reserved_balance
      → x ≤ℤ (a.balance -ℤ a.reserved_balance)
      → (x ≤ℤ (a.reserved_balance +ℤ x)) × (x ≤ℤ a.balance)
  unfolding ◌+ℤ◌ ◌-ℤ◌
  covered x a h k = (omega (int_laws, arith, h), omega (int_laws, arith, h, k))

  debtor_takes : can_take p.debtor_agent p.currency p.amount (reserve p.amount pays.debtor) ≡ true
  unfolding is_usable
  debtor_takes =
      let a = pays.debtor in
      let (usable, enough) =
        both_true
          (a.routing_number == p.debtor_agent && a.status == "active" && a.currency == p.currency)
          (leb_ℤ p.amount (a.balance -ℤ a.reserved_balance)) pays.debtor_covers in
      let (first, second) =
        covered p.amount a pays.debtor_solvent
          ((leb_ℤ_iff p.amount (a.balance -ℤ a.reserved_balance)).0 enough) in
      rw
        (
          usable,
          (leb_ℤ_iff p.amount (a.reserved_balance +ℤ p.amount)).1 first,
          (leb_ℤ_iff p.amount a.balance).1 second,
        )
        refl
    where
      both_true : (x y : Bool) → (x && y) ≡ true → (x ≡ true) × (y ≡ true)
      both_true true true h = (refl, refl)
      both_true true false h = absurd (ground arith)
      both_true false y h = absurd (ground arith)

  can_move : CanMove p db
  unfolding debited
  can_move = record {
    debtor = reserve p.amount pays.debtor;
    debtor_row = held_debtor;
    debtor_covers = debtor_takes;
    debtor_fits = pays.debtor_pays;
    creditor = pays.creditor;
    creditor_row =
        find-update account_key p.creditor_account p.debtor_account (take_reserved p.amount)
          db.accounts (λ x. refl)
        ∙ rw (pays.two_accounts, held_creditor) refl;
    creditor_usable = pays.creditor_usable;
    creditor_fits = pays.creditor_fits;
  }

  pub can_settle :
      p.status ≡ accepted
      → has_ledger_transaction ledger_id c.ledger_transactions ≡ false
      → is_booked p.id c.ledger_transactions ≡ false
      → CanSettle ledger_id p db
  can_settle stands unused unbooked = record {
    row = at.here;
    stands_accepted = stands;
    books = record {
      positive = pays.positive;
      unused = rw at.ledger.0 unused;
      unbooked = rw at.ledger.0 unbooked;
      payment = λ h. let found = at.here in ground arith;
      debtor_account = λ h. let found = held_debtor in ground arith;
      creditor_account = λ h. let found = held_creditor in ground arith;
    };
    moves = can_move;
  }

  abbrev taken : List Account
  taken = update account_key p.debtor_account (take_reserved p.amount) db.accounts

  settled_accounts :
      (settled_tables ledger_id p db).accounts
      ≡ update account_key p.creditor_account (deposit p.amount) taken
  unfolding settled_tables recorded_tables started_tables booked debited credited advanced
  settled_accounts = refl

  -- The debtor has paid the amount, and nothing of it is reserved any more; the creditor has it.
  paid_debtor :
      find_account p.debtor_account (settled_tables ledger_id p db)
      ≡ some (take_reserved p.amount (reserve p.amount pays.debtor))
  paid_debtor =
      let away : (p.creditor_account == p.debtor_account) ≡ false = ground (
        arith,
        pays.two_accounts,
        eq_iff p.creditor_account p.debtor_account,
        eq_iff p.debtor_account p.creditor_account,
      ) in
      rw settled_accounts (
        find-update account_key p.debtor_account p.creditor_account (deposit p.amount) taken
          (λ x. refl)
        ∙ rw away (
            find-update account_key p.debtor_account p.debtor_account (take_reserved p.amount)
              db.accounts (λ x. refl)
            ∙ rw held_debtor (ground (arith, eq_iff p.debtor_account p.debtor_account))))

  paid_creditor :
      find_account p.creditor_account (settled_tables ledger_id p db)
      ≡ some (deposit p.amount pays.creditor)
  paid_creditor = rw settled_accounts (
      find-update account_key p.creditor_account p.creditor_account (deposit p.amount) taken
        (λ x. refl)
      ∙ rw
          (find-update account_key p.creditor_account p.debtor_account (take_reserved p.amount)
            db.accounts (λ x. refl))
          (rw (pays.two_accounts, held_creditor)
            (ground (arith, eq_iff p.creditor_account p.creditor_account))))

-- What the four calls leave: the payment settled, the debtor's balance less by the amount and its
-- reservation as before, and the creditor's balance more by the amount.
pub record HasPaid (c : Db) (p : Payment) (pays : CanPay c p) (db : Db) : Type 0 where
  pub payment : Payment
  pub payment_row : find_payment p.id db ≡ some payment
  pub payment_settled : payment.status ≡ settled
  pub debtor : Account
  pub debtor_row : find_account p.debtor_account db ≡ some debtor
  pub debtor_balance : debtor.balance ≡ pays.debtor.balance -ℤ p.amount
  pub debtor_reserved : debtor.reserved_balance ≡ pays.debtor.reserved_balance
  pub creditor : Account
  pub creditor_row : find_account p.creditor_account db ≡ some creditor
  pub creditor_balance : creditor.balance ≡ pays.creditor.balance +ℤ p.amount

given_back : (r x : ℤ) → r +ℤ x -ℤ x ≡ r
given_back r x = omega int_laws

-- The payment as it stands before settlement.
abbrev pub accepted_payment : Payment → Payment
accepted_payment p =
    with_status accepted "" (with_status awaiting_response "" (with_status clearing "" p))

-- The state of a payment does not change what it has to be paid from.
abbrev pub moved_CanPay : (c : Db) (p : Payment) → CanPay c p → CanPay c (accepted_payment p)
moved_CanPay c p pays = record {
  positive = pays.positive;
  debtor = pays.debtor;
  debtor_row = pays.debtor_row;
  debtor_covers = pays.debtor_covers;
  debtor_solvent = pays.debtor_solvent;
  debtor_fits = pays.debtor_fits;
  debtor_pays = pays.debtor_pays;
  creditor = pays.creditor;
  creditor_row = pays.creditor_row;
  creditor_usable = pays.creditor_usable;
  creditor_fits = pays.creditor_fits;
  two_accounts = pays.two_accounts;
}

pub settled-HasPaid :
    (c : Db) (p : Payment) (pays : CanPay c p) (db : Db) (ledger_id : Uuid)
    → Stage c
        (accepted_payment p)
        (update account_key p.debtor_account (reserve p.amount) c.accounts)
        db
    → HasPaid c p pays (settled_tables ledger_id (accepted_payment p) db)
settled-HasPaid c p pays db ledger_id at = record {
  payment = _;
  payment_row = settled_row ledger_id (accepted_payment p) db at.here;
  payment_settled = refl;
  debtor = take_reserved p.amount (reserve p.amount pays.debtor);
  debtor_row = paid_debtor c (accepted_payment p) (moved_CanPay c p pays) db at ledger_id;
  debtor_balance = refl;
  debtor_reserved = given_back pays.debtor.reserved_balance p.amount;
  creditor = deposit p.amount pays.creditor;
  creditor_row = paid_creditor c (accepted_payment p) (moved_CanPay c p pays) db at ledger_id;
  creditor_balance = refl;
}
