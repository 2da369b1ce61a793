-- ===== src/Queries/Account.antt =====
-- accounts.go: one account with what is free of its balance.
use payment_rail_simulator.Prelude.{
  ℕ, false, ◌≡◌, refl, String, none, some, ◌==◌, string_eq, arith, Option-cases, ◌⊎◌, inl, inr,
}
use payment_rail_simulator.Prelude.Int.{ℤ, pos, ◌-ℤ◌, ◌≤ℤ◌, int_laws}
use payment_rail_simulator.Store.{Account, Db, Error, no_rows, Result, ok, err, find_account}
use payment_rail_simulator.Store.Tx.{Reply, answered}
use payment_rail_simulator.Handlers.{Answer, text_answer, json_answer}
use payment_rail_simulator.Books.{IsSolvent, IsBacked}
use payment_rail_simulator.Queries.{select_row, for_get}

pub record AccountResponse : Type 0 where
  pub account_id : String
  pub routing_number : String
  pub owner_name : String
  pub balance : ℤ
  pub reserved_balance : ℤ
  pub available_balance : ℤ
  pub currency : String
  pub status : String

abbrev pub account_row : Account → AccountResponse
account_row a = record {
  account_id = a.account_id;
  routing_number = a.routing_number;
  owner_name = a.owner_name;
  balance = a.balance;
  reserved_balance = a.reserved_balance;
  available_balance = a.balance -ℤ a.reserved_balance;
  currency = a.currency;
  status = a.status;
}

-- `err == pgx.ErrNoRows`
abbrev pub account_code : Error → ℕ
account_code no_rows = 404
account_code _ = 500

abbrev pub account_answer : Result Account → Answer AccountResponse
account_answer (ok a) = json_answer 200 (account_row a)
account_answer (err e) = text_answer (account_code e)

-- `account_id` is the rest of the path after "/accounts/".
unfoldable pub handle_get_account : String → String → Reply → Db → Answer AccountResponse
handle_get_account method account_id reply db =
    for_get method account_id (account_answer (select_row reply (find_account account_id db)))

-- What is shown of an account: its columns and the balance less what is reserved, none of the three
-- sums negative.
pub record IsShown (a : Account) (r : AccountResponse) : Type 0 where
  pub account_id : r.account_id ≡ a.account_id
  pub routing_number : r.routing_number ≡ a.routing_number
  pub owner_name : r.owner_name ≡ a.owner_name
  pub balance : r.balance ≡ a.balance
  pub reserved_balance : r.reserved_balance ≡ a.reserved_balance
  pub available_balance : r.available_balance ≡ a.balance -ℤ a.reserved_balance
  pub currency : r.currency ≡ a.currency
  pub status : r.status ≡ a.status
  pub balance_nonneg : pos 0 ≤ℤ r.balance
  pub reserved_nonneg : pos 0 ≤ℤ r.reserved_balance
  pub available_nonneg : pos 0 ≤ℤ r.available_balance

solvent-IsShown : (a : Account) → IsSolvent a → IsShown a (account_row a)
unfolding ◌-ℤ◌
solvent-IsShown a (reserved, covered) = record {
  account_id = refl;
  routing_number = refl;
  owner_name = refl;
  balance = refl;
  reserved_balance = refl;
  available_balance = refl;
  currency = refl;
  status = refl;
  balance_nonneg = omega (int_laws, arith, reserved, covered);
  reserved_nonneg = reserved;
  available_nonneg = omega (int_laws, arith, covered);
}

-- In backed tables, over a connection that answers, a GET of an account that exists is answered with
-- 200, the columns of its row and, as available, its balance less its reserved balance, and none of
-- these three is negative; a GET of any other name but the empty one is answered with 404.
pub handle_get_account-IsShown :
    (id : String) (db : Db)
    → (id == "") ≡ false
    → IsBacked db
    → let r = handle_get_account "GET" id answered db in
      ((find_account id db ≡ none) × (r ≡ text_answer 404))
      ⊎ ((a : Account) × (b : AccountResponse) × (find_account id db ≡ some a)
          × (r ≡ json_answer 200 b)
          × IsShown a b)
unfolding handle_get_account
handle_get_account-IsShown id db named backed = elim (Option-cases (find_account id db)) [
  | inl absent ↦ inl (absent, rw (named, absent) refl)
  | inr (a, row) ↦
      inr (a, account_row a, row, rw (named, row) refl, solvent-IsShown a (backed.solvent id a row))
]
