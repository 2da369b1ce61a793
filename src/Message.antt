-- ===== src/Message.antt =====
-- message.go: the ISO 20022 message. `F` is Go's `float64`, which is not modelled: what the program
-- asks of a value is a parameter where it asks. The creation time of the header is not read.
use payment_rail_simulator.Prelude.{String}

pub record SettlementInstruction : Type 0 where
  pub sttlm_mtd : String

pub record GroupHeader : Type 0 where
  pub msg_id : String
  pub nb_of_txs : String
  pub sttlm_inf : SettlementInstruction

pub record PaymentIdentification : Type 0 where
  pub instr_id : String
  pub end_to_end_id : String
  pub tx_id : String
  pub uetr : String

pub record Amount (F : Type 0) : Type 0 where
  pub ccy : String
  pub value : F

pub record Party : Type 0 where
  pub nm : String

-- `Account.Id.Othr.Id`, three structs deep.
pub record GenericId : Type 0 where
  pub id : String

pub record AccountId : Type 0 where
  pub othr : GenericId

pub record CashAccount : Type 0 where
  pub id : AccountId

-- `Agent.FinInstnId.ClrSysMmbId.MmbId`
pub record ClearingSystemMember : Type 0 where
  pub mmb_id : String

pub record FinancialInstitution : Type 0 where
  pub clr_sys_mmb_id : ClearingSystemMember

pub record Agent : Type 0 where
  pub fin_instn_id : FinancialInstitution

pub record RemittanceInfo : Type 0 where
  pub ustrd : String

pub record CreditTransferTransaction (F : Type 0) : Type 0 where
  pub pmt_id : PaymentIdentification
  pub intr_bk_sttlm_amt : Amount F
  pub chrg_br : String
  pub dbtr : Party
  pub dbtr_acct : CashAccount
  pub dbtr_agt : Agent
  pub cdtr_agt : Agent
  pub cdtr : Party
  pub cdtr_acct : CashAccount
  pub rmt_inf : RemittanceInfo

pub record FiToFiCustomerCreditTransfer (F : Type 0) : Type 0 where
  pub grp_hdr : GroupHeader
  pub cdt_trf_tx_inf : CreditTransferTransaction F

pub record Document (F : Type 0) : Type 0 where
  pub fi_to_fi_cstmr_cdt_trf : FiToFiCustomerCreditTransfer F
