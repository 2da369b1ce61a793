-- ===== src/Books.antt =====
-- The invariant that ties the tables `accounts` and `payments` together between two transactions:
-- what every account has reserved is what its payments in flight are worth.
pub mod Held
pub mod Rows
pub mod Moves
pub mod Operations
pub mod Stores
pub mod Totals
pub mod Covers
use payment_rail_simulator.Prelude.{
  String, Bool, true, false, ◌&&◌, ◌≡◌, some, List, [], ◌∷◌, ◌==◌, string_eq, if◌then◌else◌,
}
use payment_rail_simulator.Prelude.Int.{ℤ, pos, ◌≤ℤ◌}
use payment_rail_simulator.Prelude.Table.{find, sum_by}
use payment_rail_simulator.Payment.{
  PaymentState, received, validated, rejected, clearing, awaiting_response, failed, accepted,
  settling, settled,
}
use payment_rail_simulator.Store.{Account, Payment, Db, account_key}

-- The payments whose amount is reserved.
abbrev pub in_flight : PaymentState → Bool
in_flight awaiting_response = true
in_flight accepted = true
in_flight _ = false

-- The states that a committed payment can be in.
abbrev pub is_resting : PaymentState → Bool
is_resting received = false
is_resting clearing = false
is_resting settling = false
is_resting _ = true

-- The payments that validation has passed and that are not over.
abbrev pub is_open : PaymentState → Bool
is_open validated = true
is_open awaiting_response = true
is_open accepted = true
is_open _ = false

-- What payment `p` keeps reserved on account `k`.
abbrev pub held_for : String → Payment → ℤ
held_for k p = if in_flight p.status && p.debtor_account == k then p.amount else pos 0

unfoldable pub held : String → List Payment → ℤ
held k ps = sum_by (held_for k) ps

-- No account has more reserved than it owns, and none owns or reserves less than nothing.
abbrev pub IsSolvent : Account → Type 0
IsSolvent a = (pos 0 ≤ℤ a.reserved_balance) × (a.reserved_balance ≤ℤ a.balance)

-- The debtor's account of a payment in flight is there, at the bank and in the currency that the
-- payment names.
abbrev pub HasDebtor : List Account → Payment → Type 0
HasDebtor table p =
    (a : Account) × (find account_key p.debtor_account table ≡ some a)
    × ((a.routing_number == p.debtor_agent) ≡ true)
    × ((a.currency == p.currency) ≡ true)

pub record RowIsSound (table : List Account) (p : Payment) : Type 0 where
  pub resting : is_resting p.status ≡ true
  pub nonneg : is_open p.status ≡ true → pos 0 ≤ℤ p.amount
  pub debtor : in_flight p.status ≡ true → HasDebtor table p

abbrev pub All : {A : Type 0} → (A → Type 0) → List A → Type 0
All P [] = Unit {0}
All P (x ∷ xs) = P x × All P xs

pub record Backs (table : List Account) (ps : List Payment) : Type 0 where
  pub solvent : (k : String) (a : Account) → find account_key k table ≡ some a → IsSolvent a
  pub reserves :
      (k : String) (a : Account)
      → find account_key k table ≡ some a
      → a.reserved_balance ≡ held k ps
  pub rows : All (RowIsSound table) ps

abbrev pub IsBacked : Db → Type 0
IsBacked db = Backs db.accounts db.payments
