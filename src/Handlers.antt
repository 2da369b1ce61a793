-- ===== src/Handlers.antt =====
-- The HTTP handlers around the transactions: main.go (handleClearPayment, handleReceiverResponse,
-- handleSettlePayment) and reconciliation.go (handleReconciliation).
pub mod Reports
pub mod Codes
pub mod Submit
use payment_rail_simulator.Prelude.{
  ℕ, String, Bool, Option, none, some, ◌==◌, string_eq, if◌then◌else◌,
}
use payment_rail_simulator.Payment.{failed}
use payment_rail_simulator.Store.{
  Uuid, UuidText, Db, Error, payment_not_found, payment_not_validated,
  payment_not_awaiting_response, payment_not_accepted, no_rows, invalid_text, root, Result, ok, err,
}
use payment_rail_simulator.Store.Tx.{Session, Tx}
use payment_rail_simulator.Clearing.{ClearPaymentResponse, clear_payment}
use payment_rail_simulator.Receiver.{ReceiverPaymentResult, respond_to_payment}
use payment_rail_simulator.Settlement.{SettlementResult, settle_payment}
use payment_rail_simulator.Reconciliation.{ReconciliationResponse, reconcile_payment}

-- The status code, and what is encoded as JSON; `none` where the body is a text.
pub record Answer (A : Type 0) : Type 0 where
  pub code : ℕ
  pub body : Option A

pub record ReceiverResponseRequest : Type 0 where
  pub accepted : Bool
  pub reason : String

module _ {A : Type 0} where
  abbrev pub text_answer : ℕ → Answer A
  text_answer code = record { code = code; body = none }

  abbrev pub json_answer : ℕ → A → Answer A
  json_answer code a = record { code = code; body = some a }

  -- What a call answers, and the session after it.
  abbrev pub answered_by : (Result A → Answer A) → Tx A → Session → Answer A × Session
  answered_by answer m s = let (r, s') = m s in (answer r, s')

-- `errors.Is` tells the two sentinels of a transaction from other errors.
abbrev pub clear_code : Error → ℕ
clear_code payment_not_found = 404
clear_code payment_not_validated = 409
clear_code _ = 500

abbrev pub receiver_code : Error → ℕ
receiver_code payment_not_found = 404
receiver_code payment_not_awaiting_response = 409
receiver_code _ = 500

abbrev pub settle_code : Error → ℕ
settle_code payment_not_found = 404
settle_code payment_not_accepted = 409
settle_code _ = 500

abbrev pub clear_answer : Result ClearPaymentResponse → Answer ClearPaymentResponse
clear_answer (ok r) = json_answer (elim r.status [ failed ↦ 422 | _ ↦ 200 ]) r
clear_answer (err e) = text_answer (clear_code (root e))

abbrev pub receiver_answer : Result ReceiverPaymentResult → Answer ReceiverPaymentResult
receiver_answer (ok r) = json_answer 200 r
receiver_answer (err e) = text_answer (receiver_code (root e))

abbrev pub settle_answer : Result SettlementResult → Answer SettlementResult
settle_answer (ok r) = json_answer 200 r
settle_answer (err e) = text_answer (settle_code (root e))

-- The request's JSON, `none` where it does not decode.
abbrev pub respond_as :
    Uuid
    → UuidText
    → Option ReceiverResponseRequest
    → Session
    → Answer ReceiverPaymentResult × Session
respond_as event_id id none s = (text_answer 400, s)
respond_as event_id id (some req) s =
    answered_by receiver_answer (respond_to_payment event_id id req.accepted req.reason) s

-- `pgErr.Code == "22P02"`, then `pgx.ErrNoRows`
abbrev pub reconciliation_code : Error → ℕ
reconciliation_code invalid_text = 400
reconciliation_code no_rows = 404
reconciliation_code _ = 500

abbrev pub reconciliation_answer : Result ReconciliationResponse → Answer ReconciliationResponse
reconciliation_answer (ok r) = json_answer 200 r
reconciliation_answer (err e) = text_answer (reconciliation_code (root e))

-- `to_uuid` is the cast of Postgres; `id` is the text of the request.
module _ (to_uuid : String → UuidText) (method id : String) where
  unfoldable pub handle_clear_payment : Uuid → Session → Answer ClearPaymentResponse × Session
  handle_clear_payment event_id s =
      if method == "POST"
      then if id == ""
        then (text_answer 400, s)
        else answered_by clear_answer (clear_payment event_id (to_uuid id)) s
      else (text_answer 405, s)

  unfoldable pub handle_receiver_response :
      Uuid → Option ReceiverResponseRequest → Session → Answer ReceiverPaymentResult × Session
  handle_receiver_response event_id body s =
      if method == "POST"
      then if id == "" then (text_answer 400, s) else respond_as event_id (to_uuid id) body s
      else (text_answer 405, s)

  unfoldable pub handle_settle_payment : Uuid → Session → Answer SettlementResult × Session
  handle_settle_payment ledger_id s =
      if method == "POST"
      then if id == ""
        then (text_answer 400, s)
        else answered_by settle_answer (settle_payment ledger_id (to_uuid id)) s
      else (text_answer 405, s)

  -- The two queries read from `first` and `second`.
  unfoldable pub handle_reconciliation : Db → Db → Answer ReconciliationResponse
  handle_reconciliation first second =
      if method == "GET"
      then if id == ""
        then text_answer 400
        else reconciliation_answer (reconcile_payment (to_uuid id) first second)
      else text_answer 405
