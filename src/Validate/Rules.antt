-- ===== src/Validate/Rules.antt =====
-- The rules of `validatePayment`, as a predicate.
use payment_rail_simulator.Prelude.{Bool, false, ◌≡◌, ◌≢◌, ◌↔◌, none, arith, eq_iff}
use payment_rail_simulator.Message.{Document, CreditTransferTransaction}
use payment_rail_simulator.Validate.{validate_payment}

-- The mandatory identifiers are there, the amount is positive, and the currency is the dollar.
pub record IsAcceptable {F : Type 0} (le_zero : F → Bool) (tx : CreditTransferTransaction F)
    : Type 0 where
  pub uetr : tx.pmt_id.uetr ≢ ""
  pub end_to_end_id : tx.pmt_id.end_to_end_id ≢ ""
  pub positive : le_zero tx.intr_bk_sttlm_amt.value ≡ false
  pub dollars : tx.intr_bk_sttlm_amt.ccy ≡ "USD"
  pub debtor_account : tx.dbtr_acct.id.othr.id ≢ ""
  pub creditor_account : tx.cdtr_acct.id.othr.id ≢ ""
  pub debtor_agent : tx.dbtr_agt.fin_instn_id.clr_sys_mmb_id.mmb_id ≢ ""
  pub creditor_agent : tx.cdtr_agt.fin_instn_id.clr_sys_mmb_id.mmb_id ≢ ""

module _ {F : Type 0} (le_zero : F → Bool) (doc : Document F) where
  abbrev tx : CreditTransferTransaction F
  tx = doc.fi_to_fi_cstmr_cdt_trf.cdt_trf_tx_inf

  accepted-IsAcceptable : validate_payment le_zero doc ≡ none → IsAcceptable le_zero tx
  unfolding validate_payment
  accepted-IsAcceptable h = ground (
    arith,
    eq_iff tx.pmt_id.uetr "",
    eq_iff tx.pmt_id.end_to_end_id "",
    eq_iff tx.intr_bk_sttlm_amt.ccy "USD",
    eq_iff tx.dbtr_acct.id.othr.id "",
    eq_iff tx.cdtr_acct.id.othr.id "",
    eq_iff tx.dbtr_agt.fin_instn_id.clr_sys_mmb_id.mmb_id "",
    eq_iff tx.cdtr_agt.fin_instn_id.clr_sys_mmb_id.mmb_id "",
  )

  IsAcceptable-accepted : IsAcceptable le_zero tx → validate_payment le_zero doc ≡ none
  unfolding validate_payment
  IsAcceptable-accepted h = ground (
    arith,
    eq_iff tx.pmt_id.uetr "",
    eq_iff tx.pmt_id.end_to_end_id "",
    eq_iff tx.intr_bk_sttlm_amt.ccy "USD",
    eq_iff tx.dbtr_acct.id.othr.id "",
    eq_iff tx.cdtr_acct.id.othr.id "",
    eq_iff tx.dbtr_agt.fin_instn_id.clr_sys_mmb_id.mmb_id "",
    eq_iff tx.cdtr_agt.fin_instn_id.clr_sys_mmb_id.mmb_id "",
  )

-- validatePayment returns nil exactly for the messages that satisfy all eight rules.
pub validate_payment_exact :
    {F : Type 0} (le_zero : F → Bool) (doc : Document F)
    → (validate_payment le_zero doc ≡ none)
      ↔ IsAcceptable le_zero doc.fi_to_fi_cstmr_cdt_trf.cdt_trf_tx_inf
validate_payment_exact le_zero doc =
    (accepted-IsAcceptable le_zero doc, IsAcceptable-accepted le_zero doc)
