-- ===== src/System/Reachable.antt =====
-- The tables after any calls of the four transactions.
use payment_rail_simulator.Prelude.{
  String, Bool, false, ◌≡◌, subst, Option, some, inl, inr, List, [], ◌∷◌, arith, ◌==◌, string_eq,
  Bool-cases,
}
use payment_rail_simulator.Prelude.Int.{ℤ, pos, ◌≤ℤ◌}
use payment_rail_simulator.Prelude.Table.{find}
use payment_rail_simulator.Store.{Account, Db, account_key}
use payment_rail_simulator.System.{Step, Reach, submits, clears, responds, settles, here, next}
use payment_rail_simulator.Books.{IsSolvent, held, All, Backs, IsBacked}
use payment_rail_simulator.Books.Operations.{
  clear_payment-IsBacked, respond_to_payment-IsBacked, settle_payment-IsBacked,
}
use payment_rail_simulator.Books.Stores.{submit_payment-IsBacked}

-- A new account: nothing is reserved, and the balance is not negative.
abbrev pub IsFresh : Account → Type 0
IsFresh a = (a.reserved_balance ≡ pos 0) × (pos 0 ≤ℤ a.balance)

IsFresh-row :
    (k : String) (table : List Account) {a : Account}
    → All IsFresh table
    → find account_key k table ≡ some a
    → IsFresh a
unfolding find
IsFresh-row k [] h e = absurd (ground arith)
IsFresh-row k (x ∷ xs) {a} h e = elim (Bool-cases (account_key x == k)) [
  | inl here_it_is ↦ let same : x ≡ a = ground arith in subst IsFresh same h.0
  | inr away ↦ IsFresh-row k xs {a = a} h.1 (ground arith)
]

pub fresh-Backs : (table : List Account) → All IsFresh table → Backs table []
unfolding held
fresh-Backs table h = record {
  solvent = λ k a e. let f = IsFresh-row k table h e in solvent_of a f;
  reserves = λ k a e. (IsFresh-row k table h e).0;
  rows = tt;
}
  where
    solvent_of : (a : Account) → IsFresh a → IsSolvent a
    solvent_of a f = rw (f.0) (omega arith, f.1)

module _ {F : Type 0} (le_zero : F → Bool) (to_numeric : F → Option ℤ)
    (rounds : (v : F) (c : ℤ) → le_zero v ≡ false → to_numeric v ≡ some c → pos 0 ≤ℤ c) where
  Step-IsBacked : {t u : Db} → Step le_zero to_numeric t u → IsBacked t → IsBacked u
  Step-IsBacked (submits id event_id doc s e) b =
      subst IsBacked e (submit_payment-IsBacked le_zero to_numeric rounds id event_id doc s b)
  Step-IsBacked (clears event_id id s e) b =
      subst IsBacked e (clear_payment-IsBacked event_id id s b)
  Step-IsBacked (responds event_id id yes_or_no reason s e) b =
      subst IsBacked e (respond_to_payment-IsBacked event_id id yes_or_no reason s b)
  Step-IsBacked (settles ledger_id id s e) b =
      subst IsBacked e (settle_payment-IsBacked ledger_id id s b)

  -- From tables with new accounts and no payments, after any calls of the four transactions in any
  -- order and with any replies lost: no account has reserved more than it owns or less than nothing,
  -- every account has reserved exactly what its payments in flight are worth, and every payment rests
  -- in a state that is no passing one. The premise is that a value which is not `<= 0` is not negative
  -- when Postgres has rounded it to cents.
  pub Reach-IsBacked :
      {start db : Db}
      → All IsFresh start.accounts
      → start.payments ≡ []
      → Reach le_zero to_numeric start db
      → IsBacked db
  Reach-IsBacked {start} fresh none_yet here = rw none_yet (fresh-Backs start.accounts fresh)
  Reach-IsBacked fresh none_yet (next r st) = Step-IsBacked st (Reach-IsBacked fresh none_yet r)
