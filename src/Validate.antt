-- ===== src/Validate.antt =====
-- validate.go: `validatePayment`.
pub mod Rules
use payment_rail_simulator.Prelude.{
  String, Bool, not, Option, none, some, ◌==◌, string_eq, if◌then◌else◌,
}
use payment_rail_simulator.Message.{Document, CreditTransferTransaction}

-- `le_zero` is the test `Value <= 0` on a float64. `none` is nil: the payment is acceptable.
module _ {F : Type 0} (le_zero : F → Bool) where
  check_transaction : CreditTransferTransaction F → Option String
  check_transaction tx =
      if tx.pmt_id.uetr == ""
      then some "missing UETR"
      else if tx.pmt_id.end_to_end_id == ""
      then some "missing EndToEndId"
      else if le_zero tx.intr_bk_sttlm_amt.value
      then some "IntrBkSttlmAmt.value must be positive"
      else if not (tx.intr_bk_sttlm_amt.ccy == "USD")
      then some "only USD is supported"
      else if tx.dbtr_acct.id.othr.id == ""
      then some "missing DbtrAcct identifier"
      else if tx.cdtr_acct.id.othr.id == ""
      then some "missing CdtrAcct identifier"
      else if tx.dbtr_agt.fin_instn_id.clr_sys_mmb_id.mmb_id == ""
      then some "missing DbtrAgt routing identifier"
      else if tx.cdtr_agt.fin_instn_id.clr_sys_mmb_id.mmb_id == ""
      then some "missing CdtrAgt routing identifier"
      else none

  unfoldable pub validate_payment : Document F → Option String
  unfolding check_transaction
  validate_payment doc = check_transaction doc.fi_to_fi_cstmr_cdt_trf.cdt_trf_tx_inf
