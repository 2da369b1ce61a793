-- ===== src/Tests/Way.antt =====
-- The calls that lead to the settled payment.
use payment_rail_simulator.Prelude.{false, ◌≡◌, some, refl, arith, true, string_eq, nat_eq}
use payment_rail_simulator.Prelude.Int.{ℤ, pos, ◌≤ℤ◌, leb_ℤ}
use payment_rail_simulator.Store.{fits_numeric, find_payment}
use payment_rail_simulator.Books.{All, IsBacked}
use payment_rail_simulator.System.Reachable.{IsFresh, Reach-IsBacked}
use payment_rail_simulator.Tests.Data.{
  le_zero, to_numeric, accounts, cleared, start, document, submitted, accepted_db, settled_db,
  payment,
}
use payment_rail_simulator.Tests.Runs.{cleared_payments, settled_payments}
use payment_rail_simulator.Payment.{awaiting_response, settled}
use payment_rail_simulator.Prelude.Table.{find}
use payment_rail_simulator.Store.Calm.{calm}
use payment_rail_simulator.System.{Reach, here, next, submits, clears, responds, settles}

-- From the first tables to the settled payment.
pub whole_way : Reach le_zero to_numeric start settled_db
whole_way =
    next
      (next
        (next (next here (submits 7 100 document (calm start start) refl))
          (clears 101 (some 7) (calm submitted submitted) refl))
        (responds 102 (some 7) true "" (calm cleared cleared) refl))
      (settles 200 (some 7) (calm accepted_db accepted_db) refl)

pub settled_row : find_payment 7 settled_db ≡ some (payment settled)
unfolding find
settled_row = rw (settled_payments.0) refl

pub cleared_row : find_payment 7 cleared ≡ some (payment awaiting_response)
unfolding find
cleared_row = rw (cleared_payments.0) refl

pub rounds : (v c : ℤ) → le_zero v ≡ false → to_numeric v ≡ some c → pos 0 ≤ℤ c
unfolding fits_numeric leb_ℤ
rounds v c h e = ground arith

pub IsFresh-accounts : All IsFresh accounts
IsFresh-accounts = ((refl, omega arith), ((refl, omega arith), tt))

pub settled-IsBacked : IsBacked settled_db
settled-IsBacked = Reach-IsBacked le_zero to_numeric rounds IsFresh-accounts refl whole_way
