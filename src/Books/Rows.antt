-- ===== src/Books/Rows.antt =====
-- The rows of payments, when one of them changes its status and when an account changes its amounts.
use payment_rail_simulator.Prelude.{
  String, true, ◌≡◌, ◌∙◌, subst, some, List, [], ◌∷◌, arith, ◌==◌, nat_eq, string_eq, eq_iff, inl,
  inr, Bool-cases,
}
use payment_rail_simulator.Prelude.Int.{pos, ◌≤ℤ◌}
use payment_rail_simulator.Prelude.Table.{find, update, find-update}
use payment_rail_simulator.Payment.{PaymentState}
use payment_rail_simulator.Store.{Uuid, Account, Payment, payment_key, account_key}
use payment_rail_simulator.Transition.{with_status}
use payment_rail_simulator.Books.{in_flight, is_open, is_resting, All, HasDebtor, RowIsSound}

All-find :
    (P : Payment → Type 0) (id : Uuid) (ps : List Payment) {p : Payment}
    → All P ps
    → find payment_key id ps ≡ some p
    → P p
unfolding find
All-find P id [] h e = absurd (ground arith)
All-find P id (x ∷ xs) h e = elim (Bool-cases (x.id == id)) [
  | inl here ↦ subst P (ground arith) h.0
  | inr away ↦ All-find P id xs h.1 (ground arith)
]

All-update :
    (P : Payment → Type 0) (id : Uuid) (g : Payment → Payment) (ps : List Payment) {p : Payment}
    → All P ps
    → find payment_key id ps ≡ some p
    → P (g p)
    → All P (update payment_key id g ps)
unfolding find update
All-update P id g [] h e new = tt
All-update P id g (x ∷ xs) {p} h e new = elim (Bool-cases (x.id == id)) [
  | inl here ↦ let same : p ≡ x = ground arith in rw here (subst (λ y. P (g y)) same new, h.1)
  | inr away ↦ rw away (h.0, All-update P id g xs h.1 (ground arith) new)
]

All-map :
    {P Q : Payment → Type 0} (ps : List Payment) → ((p : Payment) → P p → Q p) → All P ps → All Q ps
All-map [] f h = tt
All-map (x ∷ xs) f h = (f x h.0, All-map xs f h.1)

-- An UPDATE of amounts leaves each debtor's account what it is.
abbrev pub KeepsIdentity : (Account → Account) → Type 0
KeepsIdentity g =
    (a : Account)
    → ((g a).account_id ≡ a.account_id)
      × ((g a).routing_number ≡ a.routing_number)
      × ((g a).currency ≡ a.currency)

HasDebtor-update :
    (k : String) (g : Account → Account) (table : List Account) (p : Payment)
    → KeepsIdentity g
    → HasDebtor table p
    → HasDebtor (update account_key k g table) p
HasDebtor-update k g table p keeps (a, row, bank, money) =
    elim (Bool-cases (k == p.debtor_account)) [
      | inl own ↦ (
        g a,
        find-update account_key p.debtor_account k g table (λ x. (keeps x).0)
            ∙ ground (arith, eq_iff k p.debtor_account),
        ground (arith, keeps a),
        ground (arith, keeps a),
      )
      | inr other ↦ (
        a,
        find-update account_key p.debtor_account k g table (λ x. (keeps x).0) ∙ ground arith,
        bank,
        money,
      )
    ]

pub row_is_sound :
    (id : Uuid) (table : List Account) (ps : List Payment) {p : Payment}
    → find payment_key id ps ≡ some p
    → All (RowIsSound table) ps
    → RowIsSound table p
row_is_sound id table ps row h = All-find (RowIsSound table) id ps h row

module _ (id : Uuid) (next : PaymentState) (reason : String) (table : List Account)
    (ps : List Payment) {p : Payment} (row : find payment_key id ps ≡ some p) where
  -- One payment goes on to a resting state that it may be in.
  pub rows-with_status :
      All (RowIsSound table) ps
      → is_resting next ≡ true
      → (is_open next ≡ true → pos 0 ≤ℤ p.amount)
      → (in_flight next ≡ true → HasDebtor table p)
      → All (RowIsSound table) (update payment_key id (with_status next reason) ps)
  rows-with_status h resting nonneg debtor =
      All-update (RowIsSound table) id (with_status next reason) ps h row
        (record { resting = resting; nonneg = nonneg; debtor = debtor })

pub rows-update_account :
    (k : String) (g : Account → Account) (table : List Account) (ps : List Payment)
    → KeepsIdentity g
    → All (RowIsSound table) ps
    → All (RowIsSound (update account_key k g table)) ps
rows-update_account k g table ps keeps = All-map ps λ p sound. record {
  resting = sound.resting;
  nonneg = sound.nonneg;
  debtor = λ flying. HasDebtor-update k g table p keeps (sound.debtor flying);
}
