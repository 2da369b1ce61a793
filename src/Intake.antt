-- ===== src/Intake.antt =====
-- main.go: the POST half of `handlePayment` stores a payment, validates it and puts it before
-- clearing, in one transaction.
pub mod Columns
pub mod Outcomes
pub mod Ends
use Columns.{fits_columns, cut_columns}
use payment_rail_simulator.Prelude.{
  ℕ, String, Bool, true, false, ◌&&◌, ◌||◌, Option, none, some, List, [], ◌∷◌, ◌++◌, ◌==◌, nat_eq,
  string_eq, leb, if◌then◌else◌,
}
use payment_rail_simulator.Prelude.Int.{ℤ}
use payment_rail_simulator.Payment.{
  PaymentState, received, validated, rejected, PaymentEvent, validation_passed, validation_failed,
}
use payment_rail_simulator.Store.{
  Uuid, Payment, Db, Error, numeric_overflow, value_too_long, unique_violation, root, wrapped,
  Result, ok, err,
}
use payment_rail_simulator.Store.Tx.{Tx, pure, statement, wrap, ◌>>=◌, ◌>>◌, begin, commit}
use payment_rail_simulator.Transition.{apply_payment_event_tx}
use payment_rail_simulator.Outbox.{record_payment_validated_outbox_tx}
use payment_rail_simulator.Message.{Document}
use payment_rail_simulator.Validate.{validate_payment}

-- PRIMARY KEY (id) and UNIQUE (uetr)
unfoldable pub is_taken : Uuid → String → List Payment → Bool
is_taken id uetr [] = false
is_taken id uetr (x ∷ xs) = x.id == id || x.uetr == uetr || is_taken id uetr xs

-- INSERT INTO payments … RETURNING id; the amount is `none` where NUMERIC(18,2) cannot hold it.
unfoldable pub insert_payment : (ℤ → Payment) → Option ℤ → Db → Result (Uuid × Db)
insert_payment row none db = err numeric_overflow
insert_payment row (some amount) db =
    let p = cut_columns (row amount) in
    if fits_columns (row amount)
    then if is_taken p.id p.uetr db.payments
      then err unique_violation
      else ok (p.id, record db { payments = db.payments ++ p ∷ [] })
    else err value_too_long

-- What the caller is told of a payment that was stored.
pub record PaymentResponse : Type 0 where
  pub id : Uuid
  pub uetr : String
  pub end_to_end_id : String
  pub status : PaymentState
  pub reject_reason : String

-- `event` and `rejectReason`, from the result of `validatePayment`.
abbrev pub validation_event : Option String → PaymentEvent
validation_event none = validation_passed
validation_event (some reason) = validation_failed

abbrev pub validation_reason : Option String → String
validation_reason none = ""
validation_reason (some reason) = reason

-- `if finalState == StateValidated { … }`
abbrev pub record_validated : PaymentState → Uuid → Uuid → String → Tx (Unit {0})
record_validated validated event_id id uetr = record_payment_validated_outbox_tx event_id id uetr
record_validated _ event_id id uetr = pure tt

-- `to_numeric` is what Postgres makes of a float64 in a NUMERIC(18,2) column, in cents.
module _ {F : Type 0} (le_zero : F → Bool) (to_numeric : F → Option ℤ) where
  abbrev pub new_payment : Uuid → Document F → ℤ → Payment
  new_payment id doc amount =
      let tx = doc.fi_to_fi_cstmr_cdt_trf.cdt_trf_tx_inf in
      record {
        id = id;
        uetr = tx.pmt_id.uetr;
        end_to_end_id = tx.pmt_id.end_to_end_id;
        instr_id = tx.pmt_id.instr_id;
        tx_id = tx.pmt_id.tx_id;
        msg_id = doc.fi_to_fi_cstmr_cdt_trf.grp_hdr.msg_id;
        amount = amount;
        currency = tx.intr_bk_sttlm_amt.ccy;
        debtor_name = tx.dbtr.nm;
        debtor_account = tx.dbtr_acct.id.othr.id;
        debtor_agent = tx.dbtr_agt.fin_instn_id.clr_sys_mmb_id.mmb_id;
        creditor_name = tx.cdtr.nm;
        creditor_account = tx.cdtr_acct.id.othr.id;
        creditor_agent = tx.cdtr_agt.fin_instn_id.clr_sys_mmb_id.mmb_id;
        remittance_info = tx.rmt_inf.ustrd;
        status = received;
        reject_reason = "";
      }

  -- `id` and `event_id` are the ids that the rows get.
  unfoldable pub submit_payment : Uuid → Uuid → Document F → Tx PaymentResponse
  submit_payment id event_id doc = do
    let tx = doc.fi_to_fi_cstmr_cdt_trf.cdt_trf_tx_inf
    let verdict = validate_payment le_zero doc
    wrap "falied to start database transaction: " begin
    id' ←
        wrap "database error: "
          (statement (insert_payment (new_payment id doc) (to_numeric tx.intr_bk_sttlm_amt.value)))
    final ←
        wrap "state transition error: "
          (apply_payment_event_tx id' (validation_event verdict) (validation_reason verdict))
    wrap "failed to record outbox event: " (record_validated final event_id id' tx.pmt_id.uetr)
    wrap "failed to commit transaction: " commit
    pure (record {
      id = id';
      uetr = tx.pmt_id.uetr;
      end_to_end_id = tx.pmt_id.end_to_end_id;
      status = final;
      reject_reason = validation_reason verdict;
    })

-- The status code of the answer: 422 for a rejected payment, 201 for one that is accepted, 409 for
-- any error of the insertion, and 500 for every other.
unfoldable pub status_code : Result PaymentResponse → ℕ
status_code (ok r) = elim r.status [ rejected ↦ 422 | _ ↦ 201 ]
status_code (err (wrapped message e)) = if message == "database error: " then 409 else 500
status_code (err e) = 500

-- Whether the 409 says that a payment with the same UETR exists (SQLSTATE 23505).
unfoldable pub says_duplicate : Result PaymentResponse → Bool
says_duplicate (err (wrapped message e)) =
    message == "database error: " && elim (root e) [ unique_violation ↦ true | _ ↦ false ]
says_duplicate r = false
