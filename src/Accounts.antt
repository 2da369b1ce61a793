-- ===== src/Accounts.antt =====
-- The statements on the table `accounts` that clearing.go, receiver.go and settlement.go share in
-- shape: UPDATE … RETURNING account_id, and the tests of their WHERE clauses. `account_id` is
-- UNIQUE, so a WHERE clause that names it selects one row at most.
use payment_rail_simulator.Prelude.{
  String, Bool, ◌&&◌, Option, none, some, ◌==◌, string_eq, if◌then◌else◌,
}
use payment_rail_simulator.Prelude.Int.{ℤ, ◌+ℤ◌, ◌-ℤ◌, leb_ℤ}
use payment_rail_simulator.Prelude.Table.{update}
use payment_rail_simulator.Store.{
  Account, Db, numeric_overflow, Result, ok, err, account_key, find_account, fits_numeric,
}

-- WHERE routing_number = … AND status = 'active' AND currency = …
unfoldable pub is_usable : String → String → Account → Bool
is_usable agent currency a =
    a.routing_number == agent && a.status == "active" && a.currency == currency

-- SELECT EXISTS (SELECT 1 FROM accounts WHERE …)
abbrev pub is_usable_row : String → String → Option Account → Bool
is_usable_row agent currency none = Bool.false
is_usable_row agent currency (some a) = is_usable agent currency a

-- Both columns of money are NUMERIC(18,2).
abbrev pub fits_row : Account → Bool
fits_row a = fits_numeric a.balance && fits_numeric a.reserved_balance

abbrev pub write_account :
    String
    → (Account → Bool)
    → (Account → Account)
    → Db
    → Option Account
    → Result (Option String × Db)
write_account k holds change db none = ok (none, db)
write_account k holds change db (some a) =
    if holds a
    then if fits_row (change a)
      then ok (some a.account_id, record db { accounts = update account_key k change db.accounts })
      else err numeric_overflow
    else ok (none, db)

-- UPDATE accounts SET … WHERE account_id = k AND … RETURNING account_id
unfoldable pub update_account :
    String → (Account → Bool) → (Account → Account) → Db → Result (Option String × Db)
update_account k holds change db = write_account k holds change db (find_account k db)

-- SET reserved_balance = reserved_balance + amount
abbrev pub reserve : ℤ → Account → Account
reserve amount a = record a { reserved_balance = a.reserved_balance +ℤ amount }

-- AND balance - reserved_balance >= amount
abbrev pub can_reserve : String → String → ℤ → Account → Bool
can_reserve agent currency amount a =
    is_usable agent currency a && leb_ℤ amount (a.balance -ℤ a.reserved_balance)

-- SET reserved_balance = reserved_balance - amount
abbrev pub release : ℤ → Account → Account
release amount a = record a { reserved_balance = a.reserved_balance -ℤ amount }

-- WHERE routing_number = … AND currency = … AND reserved_balance >= amount; the status is not read
abbrev pub can_release : String → String → ℤ → Account → Bool
can_release agent currency amount a =
    a.routing_number == agent && a.currency == currency && leb_ℤ amount a.reserved_balance

-- SET balance = balance - amount, reserved_balance = reserved_balance - amount
abbrev pub take_reserved : ℤ → Account → Account
take_reserved amount a = record a {
  balance = a.balance -ℤ amount;
  reserved_balance = a.reserved_balance -ℤ amount;
}

-- AND reserved_balance >= amount AND balance >= amount
abbrev pub can_take : String → String → ℤ → Account → Bool
can_take agent currency amount a =
    is_usable agent currency a && leb_ℤ amount a.reserved_balance && leb_ℤ amount a.balance

-- SET balance = balance + amount
abbrev pub deposit : ℤ → Account → Account
deposit amount a = record a { balance = a.balance +ℤ amount }
