-- ===== src/Reconciliation/Counts.antt =====
-- What the counts and sums of the second query of `reconcilePayment` say of the rows of the ledger.
use mathlib.Core.List.{append-nil}
use payment_rail_simulator.Prelude.{
  Bool, true, ◌&&◌, ◌≡◌, ◌↔◌, refl, ap, sym, subst, ◌∙◌, ◌⊎◌, inl, inr, List, [], ◌∷◌, arith,
  nat_eq, string_eq, eq_iff, ◌==◌, length, if◌then◌else◌,
}
use payment_rail_simulator.Prelude.Int.{ℤ, pos, ◌+ℤ◌, eqb_ℤ_iff, int_laws}
use payment_rail_simulator.Store.{
  Payment, LedgerTransaction, EntryType, debit, credit, LedgerEntry, Db,
}
use payment_rail_simulator.Reconciliation.View.{
  LedgerView, view_of, ledger_view, transactions_of, entries_of, joined, keep_entries, is_debit,
  is_credit, currency_matches,
}
use payment_rail_simulator.Reconciliation.Agrees.{
  Picks, IsOfPayment, IsOfTransaction, IsBookingOf, Agrees, HasNothing, transactions_of-Picks,
  entries_of-Picks, Picks-transactions_of, Picks-entries_of,
}

-- The ten comparisons on the row that the query returns.
pub record Matches (v : LedgerView) : Type 0 where
  pub one_transaction : v.transaction_count ≡ 1
  pub two_entries : v.entry_count ≡ 2
  pub one_debit : v.debit_entry_count ≡ 1
  pub one_credit : v.credit_entry_count ≡ 1
  pub debit_amount : v.debit_matches_payment ≡ true
  pub credit_amount : v.credit_matches_payment ≡ true
  pub balanced : v.debit_credit_balanced ≡ true
  pub same_currency : v.currency_matches ≡ true
  pub debtor_debited : v.debtor_debit_count ≡ 1
  pub creditor_credited : v.creditor_credit_count ≡ 1

pub plus_zero : (a : ℤ) → a +ℤ pos 0 ≡ a
plus_zero a = omega int_laws

type_cases : (s : EntryType) → (s ≡ debit) ⊎ (s ≡ credit)
type_cases s = ground arith

-- The entries `les` are a debit and a credit.
record Sides (p : Payment) (les : List LedgerEntry) (d c : LedgerEntry) : Type 0 where
  is_pair : (les ≡ d ∷ c ∷ []) ⊎ (les ≡ c ∷ d ∷ [])
  is_debit_entry : d.entry_type ≡ debit
  is_credit_entry : c.entry_type ≡ credit
  two : length les ≡ 2
  debits : keep_entries (λ e. is_debit e.entry_type) les ≡ d ∷ []
  credits : keep_entries (λ e. is_credit e.entry_type) les ≡ c ∷ []
  of_debtor :
      keep_entries (λ e. is_debit e.entry_type && e.account_id == p.debtor_account) les
      ≡ (if d.account_id == p.debtor_account then d ∷ [] else [])
  of_creditor :
      keep_entries (λ e. is_credit e.entry_type && e.account_id == p.creditor_account) les
      ≡ (if c.account_id == p.creditor_account then c ∷ [] else [])

debit_first :
    (p : Payment) (d c : LedgerEntry)
    → d.entry_type ≡ debit
    → c.entry_type ≡ credit
    → Sides p (d ∷ c ∷ []) d c
unfolding keep_entries
debit_first p d c hd hc = record {
  is_pair = inl refl;
  is_debit_entry = hd;
  is_credit_entry = hc;
  two = refl;
  debits = rw (hd, hc) refl;
  credits = rw (hd, hc) refl;
  of_debtor = rw (hd, hc) refl;
  of_creditor = rw (hd, hc) refl;
}

credit_first :
    (p : Payment) (d c : LedgerEntry)
    → d.entry_type ≡ debit
    → c.entry_type ≡ credit
    → Sides p (c ∷ d ∷ []) d c
unfolding keep_entries
credit_first p d c hd hc = record {
  is_pair = inr refl;
  is_debit_entry = hd;
  is_credit_entry = hc;
  two = refl;
  debits = rw (hd, hc) refl;
  credits = rw (hd, hc) refl;
  of_debtor = rw (hd, hc) refl;
  of_creditor = rw (hd, hc) refl;
}

one_if : (b : Bool) (e : LedgerEntry) → length (if b then e ∷ [] else []) ≡ 1 → b ≡ true
one_if b e h = ground arith

module _ (p : Payment) (t : LedgerTransaction) {les : List LedgerEntry} {d c : LedgerEntry}
    (s : Sides p les d c) where
  Sides-IsBookingOf : Matches (view_of p (t ∷ []) les) → IsBookingOf p t d c
  unfolding currency_matches
  Sides-IsBookingOf m =
      let debit_sum = rw s.debits at m.debit_amount in
      let credit_sum = rw s.credits at m.credit_amount in
      let debtor = one_if _ d (rw s.of_debtor at m.debtor_debited) in
      let creditor = one_if _ c (rw s.of_creditor at m.creditor_credited) in
      record {
        currency = ground (arith, eq_iff t.currency p.currency, m.same_currency);
        is_debit_entry = s.is_debit_entry;
        debited = (eq_iff d.account_id p.debtor_account).0 debtor;
        debit_amount = sym (plus_zero d.amount) ∙ (eqb_ℤ_iff _ _).0 debit_sum;
        is_credit_entry = s.is_credit_entry;
        credited = (eq_iff c.account_id p.creditor_account).0 creditor;
        credit_amount = sym (plus_zero c.amount) ∙ (eqb_ℤ_iff _ _).0 credit_sum;
      }

  Sides-Matches : IsBookingOf p t d c → Matches (view_of p (t ∷ []) les)
  unfolding currency_matches
  Sides-Matches b = record {
    one_transaction = refl;
    two_entries = s.two;
    one_debit = rw s.debits refl;
    one_credit = rw s.credits refl;
    debit_amount = rw s.debits ((eqb_ℤ_iff _ _).1 (plus_zero d.amount ∙ b.debit_amount));
    credit_amount = rw s.credits ((eqb_ℤ_iff _ _).1 (plus_zero c.amount ∙ b.credit_amount));
    balanced =
        rw (s.debits, s.credits)
          ((eqb_ℤ_iff _ _).1 (ap (λ a. a +ℤ pos 0) (b.debit_amount ∙ sym b.credit_amount)));
    same_currency = ground (arith, eq_iff t.currency p.currency, b.currency);
    debtor_debited = rw (s.of_debtor, (eq_iff d.account_id p.debtor_account).1 b.debited) refl;
    creditor_credited =
        rw (s.of_creditor, (eq_iff c.account_id p.creditor_account).1 b.credited) refl;
  }

-- Two entries of which one is a debit and one a credit.
pair-Sides :
    (p : Payment) (lts : List LedgerTransaction) (a b : LedgerEntry)
    → Matches (view_of p lts (a ∷ b ∷ []))
    → (d : LedgerEntry) × (c : LedgerEntry) × Sides p (a ∷ b ∷ []) d c
unfolding keep_entries
pair-Sides p lts a b m = elim (type_cases a.entry_type) [
  | inl ha ↦ elim (type_cases b.entry_type) [
    | inl hb ↦ absurd (ground (arith, rw (ha, hb) at m.one_debit))
    | inr hb ↦ (a, b, debit_first p a b ha hb)
  ]
  | inr ha ↦ elim (type_cases b.entry_type) [
    | inl hb ↦ (b, a, credit_first p b a hb ha)
    | inr hb ↦ absurd (ground (arith, rw (ha, hb) at m.one_credit))
  ]
]

-- The comparisons hold only of one transaction with a debit and a credit.
view_of-Sides :
    (p : Payment) (lts : List LedgerTransaction) (les : List LedgerEntry)
    → Matches (view_of p lts les)
    → (t : LedgerTransaction) × (lts ≡ t ∷ [])
      × (d : LedgerEntry) × (c : LedgerEntry) × Sides p les d c
view_of-Sides p [] les m = absurd (ground (arith, m.one_transaction))
view_of-Sides p (t ∷ u ∷ ts) les m = absurd (ground (arith, m.one_transaction))
view_of-Sides p (t ∷ []) [] m = absurd (ground (arith, m.two_entries))
view_of-Sides p (t ∷ []) (a ∷ []) m = absurd (ground (arith, m.two_entries))
view_of-Sides p (t ∷ []) (a ∷ b ∷ e ∷ es) m = absurd (ground (arith, m.two_entries))
view_of-Sides p (t ∷ []) (a ∷ b ∷ []) m =
    let (d, c, s) = pair-Sides p (t ∷ []) a b m in (t, refl, d, c, s)

joined_one :
    (t : LedgerTransaction) (es : List LedgerEntry) → joined (t ∷ []) es ≡ entries_of t.id es
unfolding joined
joined_one t es = append-nil (entries_of t.id es)

-- The ten comparisons hold exactly if the ledger agrees with the payment.
Matches-Agrees : (p : Payment) (db : Db) → Matches (ledger_view p db) → Agrees p db
unfolding ledger_view
Matches-Agrees p db m =
    let lts = transactions_of p.id db.ledger_transactions in
    let (t, one, d, c, s) = view_of-Sides p lts (joined lts db.ledger_entries) m in
    let picked : joined lts db.ledger_entries ≡ entries_of t.id db.ledger_entries =
      ap (λ ts. joined ts db.ledger_entries) one ∙ joined_one t db.ledger_entries in
    let all = Picks-entries_of t.id db.ledger_entries in
    record {
      booking = t;
      debited_by = d;
      credited_by = c;
      one_transaction =
          subst (Picks (IsOfPayment p.id) db.ledger_transactions) one
            (Picks-transactions_of p.id db.ledger_transactions);
      two_entries = elim s.is_pair [
        | inl e ↦ inl (subst (Picks (IsOfTransaction t.id) db.ledger_entries) (sym picked ∙ e) all)
        | inr e ↦ inr (subst (Picks (IsOfTransaction t.id) db.ledger_entries) (sym picked ∙ e) all)
      ];
      is_booking =
          Sides-IsBookingOf p t s
            (subst (λ ts. Matches (view_of p ts (joined lts db.ledger_entries))) one m);
    }

Agrees-Matches : (p : Payment) (db : Db) → Agrees p db → Matches (ledger_view p db)
unfolding ledger_view
Agrees-Matches p db a =
    let t = a.booking in
    let b = a.is_booking in
    rw (transactions_of-Picks p.id a.one_transaction, joined_one t db.ledger_entries)
      (elim a.two_entries [
        | inl e ↦ rw (entries_of-Picks t.id e) (
            Sides-Matches p t
              (debit_first p a.debited_by a.credited_by b.is_debit_entry b.is_credit_entry) b)
        | inr e ↦ rw (entries_of-Picks t.id e) (
            Sides-Matches p t
              (credit_first p a.debited_by a.credited_by b.is_debit_entry b.is_credit_entry) b)
      ])

pub Matches-iff_Agrees : (p : Payment) (db : Db) → Matches (ledger_view p db) ↔ Agrees p db
Matches-iff_Agrees p db = (Matches-Agrees p db, Agrees-Matches p db)

-- The two counts are 0 exactly if the ledger has nothing of the payment.
pub counts-HasNothing :
    (p : Payment) (db : Db)
    → let v = ledger_view p db in
      ((v.transaction_count ≡ 0) × (v.entry_count ≡ 0)) ↔ HasNothing p db
unfolding ledger_view joined
counts-HasNothing p db = (
  λ h.
      subst (Picks (IsOfPayment p.id) db.ledger_transactions)
        (no_items (transactions_of p.id db.ledger_transactions) h.0)
        (Picks-transactions_of p.id db.ledger_transactions),
  λ none_booked. rw (transactions_of-Picks p.id none_booked) (refl, refl),
)
  where
    no_items : (xs : List LedgerTransaction) → length xs ≡ 0 → xs ≡ []
    no_items [] h = refl
    no_items (x ∷ xs) h = absurd (omega (arith, h))
