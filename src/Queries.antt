-- ===== src/Queries.antt =====
-- The handlers that only read: recent_payments.go, accounts.go, handleGetLedger of ledger.go, and of
-- main.go handleGetPaymentByUETR and handleGetTransitionLog.
pub mod Recent
pub mod Account
pub mod Uetr
pub mod Booking
pub mod Log
use payment_rail_simulator.Prelude.{String, ◌==◌, string_eq, if◌then◌else◌, Option, none, some}
use payment_rail_simulator.Store.{no_rows, unavailable, Result, ok, err}
use payment_rail_simulator.Store.Tx.{Reply, answered}
use payment_rail_simulator.Handlers.{Answer, text_answer}

-- One SELECT on the pool: its rows, or the error of a connection that fails, while the rows are read
-- or before.
abbrev pub select : {A : Type 0} → Reply → A → Result A
select answered a = ok a
select _ a = err unavailable

-- `QueryRow(…).Scan(…)`
abbrev pub select_row : {A : Type 0} → Reply → Option A → Result A
select_row answered none = err no_rows
select_row answered (some a) = ok a
select_row _ o = err unavailable

-- The guards that the handlers begin with: the method, and an argument that is not empty.
abbrev pub for_get : {A : Type 0} → String → String → Answer A → Answer A
for_get method argument answer =
    if method == "GET" then if argument == "" then text_answer 400 else answer else text_answer 405
