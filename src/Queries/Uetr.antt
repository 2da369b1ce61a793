-- ===== src/Queries/Uetr.antt =====
-- handleGetPaymentByUETR of main.go: a payment by its end-to-end reference.
use Prim.Native.String.{count}
use payment_rail_simulator.Prelude.{
  ◌≤◌, Bool, false, ◌≡◌, refl, sym, ap, subst, ◌∙◌, String, Option, none, some, List, [], ◌∷◌, ◌==◌,
  nat_eq, string_eq, arith, inl, inr,
}
use payment_rail_simulator.Prelude.Int.{ℤ}
use payment_rail_simulator.Prelude.Table.{find, find-append_new}
use payment_rail_simulator.Payment.{PaymentState}
use payment_rail_simulator.Store.{Uuid, Payment, Db, Result, ok, err}
use payment_rail_simulator.Store.Tx.{Reply, answered}
use payment_rail_simulator.Store.Calm.{calm, Failed}
use payment_rail_simulator.Message.{Document}
use payment_rail_simulator.Intake.Columns.{cut, cut_short}
use payment_rail_simulator.Intake.{is_taken, submit_payment, PaymentResponse}
use payment_rail_simulator.Intake.Outcomes.{CanStore, stored_tables, stored_response}
use payment_rail_simulator.Intake.Ends.{submit_payment_ends}
use payment_rail_simulator.Effects.Submits.{stored_row, stored_tables-Stored}
use payment_rail_simulator.Handlers.{Answer, text_answer, json_answer}
use payment_rail_simulator.Queries.{select_row, for_get}

-- The columns that are read.
pub record UetrResponse (F : Type 0) : Type 0 where
  pub id : Uuid
  pub uetr : String
  pub end_to_end_id : String
  pub status : PaymentState
  pub reject_reason : String
  pub amount : F
  pub currency : String
  pub debtor_name : String
  pub debtor_account : String
  pub debtor_agent : String
  pub creditor_name : String
  pub creditor_account : String
  pub creditor_agent : String

abbrev pub uetr_key : Payment → String
uetr_key p = p.uetr

-- `to_float` is what a NUMERIC of Postgres, in cents, becomes in a float64.
module _ {F : Type 0} (to_float : ℤ → F) where
  abbrev pub uetr_row : Payment → UetrResponse F
  uetr_row p = record {
    id = p.id;
    uetr = p.uetr;
    end_to_end_id = p.end_to_end_id;
    status = p.status;
    reject_reason = p.reject_reason;
    amount = to_float p.amount;
    currency = p.currency;
    debtor_name = p.debtor_name;
    debtor_account = p.debtor_account;
    debtor_agent = p.debtor_agent;
    creditor_name = p.creditor_name;
    creditor_account = p.creditor_account;
    creditor_agent = p.creditor_agent;
  }

  -- Every error is answered with 404.
  abbrev pub uetr_answer : Result Payment → Answer (UetrResponse F)
  uetr_answer (ok p) = json_answer 200 (uetr_row p)
  uetr_answer (err e) = text_answer 404

  -- `uetr` is the rest of the path after "/uetr/".
  unfoldable pub handle_get_payment_by_uetr : String → String → Reply → Db → Answer (UetrResponse F)
  handle_get_payment_by_uetr method uetr reply db =
      for_get method uetr (uetr_answer (select_row reply (find uetr_key uetr db.payments)))

untaken-find :
    (id : Uuid) (uetr : String) (ps : List Payment)
    → is_taken id uetr ps ≡ false
    → find uetr_key uetr ps ≡ none
unfolding is_taken find
untaken-find id uetr [] h = refl
untaken-find id uetr (x ∷ xs) h = ground (arith, untaken-find id uetr xs)

module _ {F : Type 0} (le_zero : F → Bool) (to_numeric : F → Option ℤ) (to_float : ℤ → F)
    (id event_id : Uuid) (doc : Document F) where
  abbrev tx_uetr : String
  tx_uetr = doc.fi_to_fi_cstmr_cdt_trf.cdt_trf_tx_inf.pmt_id.uetr

  -- No text of the message that is read back is longer than its column.
  pub record IsShort : Type 0 where
    pub uetr : count tx_uetr ≤ 36
    pub currency : count doc.fi_to_fi_cstmr_cdt_trf.cdt_trf_tx_inf.intr_bk_sttlm_amt.ccy ≤ 3
    pub debtor_account : count doc.fi_to_fi_cstmr_cdt_trf.cdt_trf_tx_inf.dbtr_acct.id.othr.id ≤ 34
    pub debtor_agent :
        count doc.fi_to_fi_cstmr_cdt_trf.cdt_trf_tx_inf.dbtr_agt.fin_instn_id.clr_sys_mmb_id.mmb_id
        ≤ 35
    pub creditor_account : count doc.fi_to_fi_cstmr_cdt_trf.cdt_trf_tx_inf.cdtr_acct.id.othr.id ≤ 34
    pub creditor_agent :
        count doc.fi_to_fi_cstmr_cdt_trf.cdt_trf_tx_inf.cdtr_agt.fin_instn_id.clr_sys_mmb_id.mmb_id
        ≤ 35
    pub end_to_end_id : count doc.fi_to_fi_cstmr_cdt_trf.cdt_trf_tx_inf.pmt_id.end_to_end_id ≤ 35

  -- What was sent and what was answered, as one reads it back.
  abbrev pub sent_row : PaymentResponse → ℤ → UetrResponse F
  sent_row r amount =
      let tx = doc.fi_to_fi_cstmr_cdt_trf.cdt_trf_tx_inf in
      record {
        id = r.id;
        uetr = r.uetr;
        end_to_end_id = r.end_to_end_id;
        status = r.status;
        reject_reason = r.reject_reason;
        amount = to_float amount;
        currency = tx.intr_bk_sttlm_amt.ccy;
        debtor_name = tx.dbtr.nm;
        debtor_account = tx.dbtr_acct.id.othr.id;
        debtor_agent = tx.dbtr_agt.fin_instn_id.clr_sys_mmb_id.mmb_id;
        creditor_name = tx.cdtr.nm;
        creditor_account = tx.cdtr_acct.id.othr.id;
        creditor_agent = tx.cdtr_agt.fin_instn_id.clr_sys_mmb_id.mmb_id;
      }

  stored-find :
      (amount : ℤ) (c : Db)
      → IsShort
      → CanStore le_zero to_numeric id event_id doc amount c
      → find uetr_key tx_uetr (stored_tables le_zero to_numeric id event_id doc amount c).payments
        ≡ some (stored_row le_zero to_numeric id event_id doc amount)
  stored-find amount c short k =
      let whole : cut 36 tx_uetr ≡ tx_uetr = cut_short 36 tx_uetr short.uetr in
      let free : is_taken id tx_uetr c.payments ≡ false =
        subst (λ u. is_taken id u c.payments ≡ false) whole k.free in
      rw (stored_tables-Stored le_zero to_numeric id event_id doc amount c k).payments (
        find-append_new uetr_key tx_uetr c.payments
          (stored_row le_zero to_numeric id event_id doc amount)
          (untaken-find id tx_uetr c.payments free) whole)

  -- What is read of the row is what was sent.
  stored-uetr_row :
      (amount : ℤ)
      → IsShort
      → uetr_row to_float (stored_row le_zero to_numeric id event_id doc amount)
        ≡ sent_row (stored_response le_zero to_numeric id event_id doc) amount
  unfolding stored_response
  stored-uetr_row amount short = rw (
    cut_short 36 _ short.uetr,
    cut_short 35 _ short.end_to_end_id,
    cut_short 3 _ short.currency,
    cut_short 34 _ short.debtor_account,
    cut_short 35 _ short.debtor_agent,
    cut_short 34 _ short.creditor_account,
    cut_short 35 _ short.creditor_agent,
  )

  -- Where a message with a UETR, none of whose texts that are read back is longer than its column, is
  -- stored over a connection that answers, whether it is then valid or rejected, a GET of its UETR from the tables after it, over a connection that answers, gives back
  -- what the caller was told, the accounts, names, banks and currency of the message, and its amount
  -- as it was rounded to cents.
  pub submit_payment-handle_get_payment_by_uetr :
      (c w v : Db) (r : PaymentResponse)
      → (tx_uetr == "") ≡ false
      → IsShort
      → submit_payment le_zero to_numeric id event_id doc (calm c w) ≡ (ok r, calm v v)
      → (amount : ℤ) × (to_numeric doc.fi_to_fi_cstmr_cdt_trf.cdt_trf_tx_inf.intr_bk_sttlm_amt.value
          ≡ some amount)
        × (handle_get_payment_by_uetr to_float "GET" tx_uetr answered v
            ≡ json_answer 200 (sent_row r amount))
  unfolding handle_get_payment_by_uetr
  submit_payment-handle_get_payment_by_uetr c w v r named short e =
      elim (submit_payment_ends le_zero to_numeric id event_id doc c w) [
        | inl stopped ↦ absurd (subst (Failed c) e stopped)
        | inr (amount, k, done) ↦
            let both = sym e ∙ done in
            let told : ok r ≡ ok (stored_response le_zero to_numeric id event_id doc) =
              ap (λ q. q.0) both in
            let same : r ≡ stored_response le_zero to_numeric id event_id doc = ground arith in
            let tables : v ≡ stored_tables le_zero to_numeric id event_id doc amount c =
              ap (λ q. q.1.committed) both in
            (
              amount,
              k.converts,
              rw (tables, same, named, stored-find amount c short k)
                  (ap (json_answer 200) (stored-uetr_row amount short)),
            )
      ]
