-- ===== src/Tests/Reads.antt =====
-- The theorems on the reading handlers, the stored payment and the wrappers, at concrete inputs.
use payment_rail_simulator.Prelude.{◌≡◌, ◌≢◌, ◌⊎◌, refl, some, none, List, arith, ℕ, ◌++◌}
use payment_rail_simulator.Prelude.Int.{ℤ, pos}
use payment_rail_simulator.Payment.{received, settled}
use payment_rail_simulator.Store.{Account, find_payment, find_account}
use payment_rail_simulator.Store.Tx.{answered, unacked}
use payment_rail_simulator.Store.Follows.{quiet}
use payment_rail_simulator.Intake.{submit_payment}
use payment_rail_simulator.Handlers.{json_answer, text_answer}
use payment_rail_simulator.Handlers.Submit.{SaysOf, handle_payment, handle_payment-SaysOf}
use payment_rail_simulator.Queries.Recent.{
  RecentEnds, handle_get_recent_payments, handle_get_recent_payments-bounds,
}
use payment_rail_simulator.Queries.Account.{
  AccountResponse, IsShown, handle_get_account, handle_get_account-IsShown,
}
use payment_rail_simulator.Queries.Uetr.{
  handle_get_payment_by_uetr, sent_row, IsShort, submit_payment-handle_get_payment_by_uetr,
}
use payment_rail_simulator.Queries.Booking.{handle_get_ledger, LedgerShows}
use payment_rail_simulator.Queries.Log.{TransitionLogEntry, Shows, handle_get_transition_log}
use payment_rail_simulator.Effects.History.{log_of, Chain}
use payment_rail_simulator.System.Reads.{
  handle_get_ledger-LedgerShows, handle_get_transition_log-Chain,
}
use payment_rail_simulator.Middleware.{Request, Op, Server, cors_headers, wrapped_route}
use payment_rail_simulator.Middleware.Stack.{Served, wrapped_route-Served}
use payment_rail_simulator.Tests.Data.{
  le_zero, to_numeric, document, start, submitted, settled_db, payment, to_uuid, flaky, atoi, allow,
  not_found, server, submitted_answer,
}
use payment_rail_simulator.Tests.Runs.{submitted_result}
use payment_rail_simulator.Tests.Way.{whole_way, settled_row, settled-IsBacked}

handle_get_recent_payments-bounds_example :
    RecentEnds atoi "250" answered settled_db
      (handle_get_recent_payments atoi "250" answered settled_db)
handle_get_recent_payments-bounds_example =
    handle_get_recent_payments-bounds atoi "250" answered settled_db

handle_get_account-IsShown_example :
    let r = handle_get_account "GET" "A" answered settled_db in
    ((find_account "A" settled_db ≡ none) × (r ≡ text_answer 404))
    ⊎ ((a : Account) × (b : AccountResponse) × (find_account "A" settled_db ≡ some a)
        × (r ≡ json_answer 200 b)
        × IsShown a b)
handle_get_account-IsShown_example = handle_get_account-IsShown "A" settled_db refl settled-IsBacked

document-IsShort : IsShort le_zero to_numeric (λ c. c) 7 100 document
document-IsShort = record {
  uetr = omega arith;
  currency = omega arith;
  debtor_account = omega arith;
  debtor_agent = omega arith;
  creditor_account = omega arith;
  creditor_agent = omega arith;
  end_to_end_id = omega arith;
}

submit_payment-handle_get_payment_by_uetr_example :
    (amount : ℤ) × (to_numeric (pos 2500) ≡ some amount)
    × (handle_get_payment_by_uetr (λ c. c) "GET" "u-1" answered submitted
        ≡ json_answer 200
            (sent_row le_zero to_numeric (λ c. c) 7 100 document submitted_answer amount))
submit_payment-handle_get_payment_by_uetr_example =
    submit_payment-handle_get_payment_by_uetr le_zero to_numeric (λ c. c) 7 100 document start start
      submitted submitted_answer refl document-IsShort submitted_result

handle_get_ledger-LedgerShows_example :
    LedgerShows "7"
      (handle_get_ledger to_uuid "GET" "7" answered answered settled_db settled_db)
      (find_payment 7 settled_db)
handle_get_ledger-LedgerShows_example =
    handle_get_ledger-LedgerShows le_zero to_numeric to_uuid "7" 7 refl refl refl refl refl
      whole_way

not_received : settled ≢ received
not_received h = ground arith

handle_get_transition_log-Chain_example :
    let xs = log_of 7 settled_db.transition_log in
    (ys : List TransitionLogEntry) × (handle_get_transition_log to_uuid "GET" "7" answered
        settled_db
      ≡ json_answer 200 ys)
    × Shows xs ys
    × Chain 1 received xs settled
handle_get_transition_log-Chain_example =
    handle_get_transition_log-Chain le_zero to_numeric to_uuid "7" 7 (payment settled) refl refl
      refl refl whole_way settled_row not_received

handle_payment-SaysOf_example :
    let s = flaky start unacked in
    SaysOf start
      (submit_payment le_zero to_numeric 7 100 document (quiet s))
      (handle_payment atoi le_zero to_numeric "POST" "" 7 100 (some document) s)
handle_payment-SaysOf_example =
    handle_payment-SaysOf atoi le_zero to_numeric 7 100 document (flaky start unacked) "POST" ""

abbrev a_request : Request
a_request = record { method = "GET"; path = "/ledger" }

wrapped_route-Served_example :
    (ops : List Op) × (v : Server ℕ (Unit {0})) × (wrapped_route allow not_found a_request server
      ≡ (cors_headers ++ ops, v))
    × Served allow not_found a_request server ops v
wrapped_route-Served_example =
    wrapped_route-Served allow not_found a_request server (omega arith, omega arith, tt)
