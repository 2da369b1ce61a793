-- ===== src/Books/Covers.antt =====
-- The reserved funds against the payments in flight: the release that respondToPayment makes after a
-- rejection, and the debit of settlePayment.
use payment_rail_simulator.Prelude.{
  String, Bool, true, false, ◌≡◌, ◌≢◌, refl, ap, ◌∙◌, nat_eq, string_eq, eq_iff, some, inl, inr,
  List, [], ◌∷◌, arith, ◌==◌, if◌then◌else◌, Bool-cases,
}
use payment_rail_simulator.Prelude.Int.{ℤ, pos, ◌-ℤ◌, ◌≤ℤ◌, leb_ℤ, leb_ℤ_iff, int_laws}
use payment_rail_simulator.Prelude.Table.{find, find-update}
use payment_rail_simulator.Payment.{PaymentState, accepted, failed}
use payment_rail_simulator.Store.{
  Uuid, Payment, Account, Db, ok, payment_key, account_key, find_payment, find_account,
  fits_numeric,
}
use payment_rail_simulator.Store.Calm.{calm}
use payment_rail_simulator.Accounts.{is_usable, can_take, take_reserved, deposit, fits_row}
use payment_rail_simulator.Ledger.{has_ledger_transaction, is_booked}
use payment_rail_simulator.Receiver.{stated_reason}
use payment_rail_simulator.Settlement.{settle_payment}
use payment_rail_simulator.Settlement.Outcomes.{
  CanMove, debited, settled_tables, settlement, settle_payment_at,
}
use payment_rail_simulator.Books.{
  in_flight, is_open, held_for, held, IsSolvent, All, RowIsSound, IsBacked,
}
use payment_rail_simulator.Books.Rows.{row_is_sound}

in_flight-is_open : (s : PaymentState) → in_flight s ≡ true → is_open s ≡ true
in_flight-is_open s h = ground arith

held_for_nonneg :
    (k : String) (table : List Account) (p : Payment) → RowIsSound table p → pos 0 ≤ℤ held_for k p
held_for_nonneg k table p h = elim (Bool-cases (in_flight p.status)) [
  | inr landed ↦ rw landed (omega arith)
  | inl flying ↦
      rw flying (either (p.debtor_account == k) (h.nonneg (in_flight-is_open p.status flying)))
]
  where
    either : (b : Bool) → pos 0 ≤ℤ p.amount → pos 0 ≤ℤ (if b then p.amount else pos 0)
    either true n = n
    either false n = omega arith

held_nonneg :
    (k : String) (table : List Account) (ps : List Payment)
    → All (RowIsSound table) ps
    → pos 0 ≤ℤ held k ps
unfolding held
held_nonneg k table [] h = omega arith
held_nonneg k table (p ∷ ps) h =
    omega (int_laws, held_for_nonneg k table p h.0, held_nonneg k table ps h.1)

-- What an account has to hold is at least the amount of each of its payments in flight.
held_covers :
    (id : Uuid) (table : List Account) (ps : List Payment) {p : Payment}
    → All (RowIsSound table) ps
    → find payment_key id ps ≡ some p
    → in_flight p.status ≡ true
    → p.amount ≤ℤ held p.debtor_account ps
unfolding held find
held_covers id table [] h row flying = absurd (ground arith)
held_covers id table (x ∷ xs) {p} h row flying = elim (Bool-cases (x.id == id)) [
  | inl here ↦
      let same : x ≡ p = ground arith in
      let own : held_for p.debtor_account p ≡ p.amount =
        ground (arith, eq_iff p.debtor_account p.debtor_account) in
      rw same (rw own (omega (int_laws, held_nonneg p.debtor_account table xs h.1)))
  | inr away ↦ omega (
    int_laws,
    held_for_nonneg p.debtor_account table x h.0,
    held_covers id table xs {p = p} h.1 (ground arith) flying,
  )
]

-- The two columns of money of every account hold what NUMERIC(18,2) can hold.
pub record FitsColumns (db : Db) : Type 0 where
  pub row : (k : String) (a : Account) → find_account k db ≡ some a → fits_row a ≡ true

fits_between : (y z : ℤ) → pos 0 ≤ℤ y → y ≤ℤ z → fits_numeric z ≡ true → fits_numeric y ≡ true
unfolding fits_numeric leb_ℤ
fits_between y z n le h = ground arith

module _ (p : Payment) (c : Db) (b : IsBacked c) (fits : FitsColumns c)
    (row : find_payment p.id c ≡ some p) where
  sound : RowIsSound c.accounts p
  sound = row_is_sound p.id c.accounts c.payments row b.rows

  reserved_covers :
      {a : Account}
      → in_flight p.status ≡ true
      → find_account p.debtor_account c ≡ some a
      → p.amount ≤ℤ a.reserved_balance
  reserved_covers {a} flying found =
      rw (b.reserves p.debtor_account a found)
        (held_covers p.id c.accounts c.payments b.rows row flying)

  -- The payment is failed with the reason, its amount is taken off what the debtor has reserved, and
  -- all else on the accounts is as it was.
  pub record GivesBack (reason : String) (v : Db) : Type 0 where
    pub status_failed :
        find_payment p.id v
        ≡ some (record p { status = failed; reject_reason = stated_reason reason })
    pub before : Account
    pub before_row : find_account p.debtor_account c ≡ some before
    pub after_row :
        find_account p.debtor_account v
        ≡ some (record before { reserved_balance = before.reserved_balance -ℤ p.amount })
    pub others :
        (k : String) → (p.debtor_account == k) ≡ false → find_account k v ≡ find_account k c

  module _ {a d : Account} (at_state : p.status ≡ accepted)
      (debtor_row : find_account p.debtor_account c ≡ some a)
      (debtor_active : (a.status == "active") ≡ true)
      (creditor_row : find_account p.creditor_account c ≡ some d)
      (creditor_usable : is_usable p.creditor_agent p.currency d ≡ true)
      (creditor_fits : fits_row (deposit p.amount d) ≡ true)
      (two_accounts : p.debtor_account ≢ p.creditor_account) where
    debtor_is_covered : can_take p.debtor_agent p.currency p.amount a ≡ true
    unfolding is_usable
    debtor_is_covered =
        let (a', found, bank, money) = sound.debtor (ap in_flight at_state) in
        let same : a' ≡ a = ground arith in
        let covered = reserved_covers (ap in_flight at_state) debtor_row in
        let solvent = b.solvent p.debtor_account a debtor_row in
        ground (
          arith,
          leb_ℤ_iff p.amount a.reserved_balance,
          leb_ℤ_iff p.amount a.balance,
          rest p.amount a covered solvent,
        )
      where
        rest : (x : ℤ) (r : Account) → x ≤ℤ r.reserved_balance → IsSolvent r → x ≤ℤ r.balance
        rest x r h s = omega arith

    moves : CanMove p c
    unfolding debited
    moves =
        let n : pos 0 ≤ℤ p.amount = sound.nonneg (ap is_open at_state) in
        let covered = reserved_covers (ap in_flight at_state) debtor_row in
        let solvent = b.solvent p.debtor_account a debtor_row in
        record {
          debtor = a;
          debtor_row = debtor_row;
          debtor_covers = debtor_is_covered;
          debtor_fits = ground (
            arith,
            fits.row p.debtor_account a debtor_row,
            fits_between (a.reserved_balance -ℤ p.amount) a.reserved_balance (omega int_laws)
                (omega int_laws),
            fits_between (a.balance -ℤ p.amount) a.balance (omega int_laws) (omega int_laws),
          );
          creditor = d;
          creditor_row =
              find-update account_key p.creditor_account p.debtor_account (take_reserved p.amount)
                c.accounts (λ x. refl)
              ∙ ground (arith, eq_iff p.debtor_account p.creditor_account);
          creditor_usable = creditor_usable;
          creditor_fits = creditor_fits;
        }

    -- An accepted payment is settled at the first call over a connection that answers, where its amount
    -- is positive, it is not in the ledger yet, the id of the ledger's row is new, both accounts are
    -- active and not the same, and the creditor's can hold the amount: it is never short of funds.
    pub accepted_always_settles :
        (ledger_id : Uuid) (w : Db)
        → leb_ℤ p.amount (pos 0) ≡ false
        → has_ledger_transaction ledger_id c.ledger_transactions ≡ false
        → is_booked p.id c.ledger_transactions ≡ false
        → settle_payment ledger_id (some p.id) (calm c w)
          ≡ (ok (settlement p), calm (settled_tables ledger_id p c) (settled_tables ledger_id p c))
    accepted_always_settles ledger_id w positive unused unbooked =
        settle_payment_at ledger_id p c w (record {
          row = row;
          stands_accepted = at_state;
          books = record {
            positive = positive;
            unused = unused;
            unbooked = unbooked;
            payment = λ e. ground arith;
            debtor_account = λ e. ground arith;
            creditor_account = λ e. ground arith;
          };
          moves = moves;
        })
