-- ===== src/Intake/Outcomes.antt =====
-- How the POST half of `handlePayment` ends, and what the tables are then.
use payment_rail_simulator.Prelude.{
  String, Bool, true, false, ◌≡◌, refl, Option, none, some, List, [], ◌∷◌, ◌++◌, arith, nat_eq,
  string_eq,
}
use payment_rail_simulator.Prelude.Int.{ℤ}
use payment_rail_simulator.Prelude.Table.{find, find-append_new}
use payment_rail_simulator.Payment.{
  PaymentState, validated, rejected, received, next_payment_state, goes_to,
}
use payment_rail_simulator.Store.{Uuid, Payment, Db, ok, payment_key, payment_validated}
use payment_rail_simulator.Store.Tx.{statement, wrap, begin, commit, ◌>>=◌, ◌>>◌}
use payment_rail_simulator.Store.Calm.{calm}
use payment_rail_simulator.Store.Follows.{Body, Follows, body_rules, follows_rules}
use payment_rail_simulator.Transition.Steps.{
  advanced, find_payment-update, apply_payment_event_tx_at, Body-apply_payment_event_tx,
}
use payment_rail_simulator.Outbox.{
  has_event, insert_outbox_event, new_event, record_payment_validated_outbox_tx,
}
use payment_rail_simulator.Message.{Document}
use payment_rail_simulator.Validate.{validate_payment}
use payment_rail_simulator.Intake.Columns.{fits_columns, cut_columns}
use payment_rail_simulator.Intake.{
  is_taken, insert_payment, PaymentResponse, validation_event, validation_reason, record_validated,
  new_payment, submit_payment,
}

abbrev pub final_state : Option String → PaymentState
final_state none = validated
final_state (some reason) = rejected

pub validation_moves :
    (v : Option String) → next_payment_state received (validation_event v) ≡ goes_to (final_state v)
unfolding next_payment_state
validation_moves none = refl
validation_moves (some reason) = refl

pub find-is_taken :
    (id : Uuid) (uetr : String) (ps : List Payment)
    → is_taken id uetr ps ≡ false
    → find payment_key id ps ≡ none
unfolding is_taken find
find-is_taken id uetr [] h = refl
find-is_taken id uetr (x ∷ xs) h = ground (arith, find-is_taken id uetr xs)

Body-record_validated :
    (t : PaymentState) (event_id id : Uuid) (uetr : String)
    → Body (record_validated t event_id id uetr)
unfolding record_payment_validated_outbox_tx
Body-record_validated validated event_id id uetr = search body_rules
Body-record_validated _ event_id id uetr = search body_rules

module _ {F : Type 0} (le_zero : F → Bool) (to_numeric : F → Option ℤ) (id event_id : Uuid)
    (doc : Document F) where
  -- Over a connection that loses replies, handlePayment stores and answers as over one that does
  -- not; or its error is that of the lost reply, and all of its writes are kept or none.
  pub submit_payment-Follows : Follows (submit_payment le_zero to_numeric id event_id doc)
  unfolding submit_payment
  submit_payment-Follows =
      search (follows_rules, Body-apply_payment_event_tx, Body-record_validated) depth 30

  abbrev pub verdict : Option String
  verdict = validate_payment le_zero doc

  abbrev pub sent : ℤ → Payment
  sent amount = new_payment le_zero to_numeric id doc amount

  abbrev pub row : ℤ → Payment
  row amount = cut_columns (sent amount)

  -- What has to hold for the payment to be stored.
  pub record CanStore (amount : ℤ) (db : Db) : Type 0 where
    pub converts :
        to_numeric doc.fi_to_fi_cstmr_cdt_trf.cdt_trf_tx_inf.intr_bk_sttlm_amt.value ≡ some amount
    pub fits : fits_columns (sent amount) ≡ true
    pub free : is_taken id (row amount).uetr db.payments ≡ false
    pub unused : verdict ≡ none → has_event event_id db.outbox_events ≡ false

  unfoldable pub inserted_tables : ℤ → Db → Db
  inserted_tables amount db = record db { payments = db.payments ++ row amount ∷ [] }

  unfoldable pub judged_tables : ℤ → Db → Db
  judged_tables amount db =
      advanced id (validation_event verdict) (validation_reason verdict) received
        (final_state verdict) (inserted_tables amount db)

  -- A payment that has passed validation is put before clearing.
  abbrev pub announced : Option String → Db → Db
  announced none db = record db {
    outbox_events =
        db.outbox_events
        ++ new_event event_id id payment_validated
            (some doc.fi_to_fi_cstmr_cdt_trf.cdt_trf_tx_inf.pmt_id.uetr)
          ∷ [];
  }
  announced (some reason) db = db

  -- The tables after the payment is stored.
  unfoldable pub stored_tables : ℤ → Db → Db
  stored_tables amount db = announced verdict (judged_tables amount db)

  unfoldable pub stored_response : PaymentResponse
  stored_response = record {
    id = id;
    uetr = doc.fi_to_fi_cstmr_cdt_trf.cdt_trf_tx_inf.pmt_id.uetr;
    end_to_end_id = doc.fi_to_fi_cstmr_cdt_trf.cdt_trf_tx_inf.pmt_id.end_to_end_id;
    status = final_state verdict;
    reject_reason = validation_reason verdict;
  }

  pub inserted_row :
      (amount : ℤ) (c : Db)
      → is_taken id (row amount).uetr c.payments ≡ false
      → find payment_key id (inserted_tables amount c).payments ≡ some (row amount)
  unfolding inserted_tables
  inserted_row amount c free =
      find-append_new payment_key id c.payments (row amount)
        (find-is_taken id (row amount).uetr c.payments free) refl

  module _ (amount : ℤ) (c w : Db) (k : CanStore amount c) where
    announcement :
        (v : Option String)
        → verdict ≡ v
        → record_validated
            (final_state v)
            event_id
            id
            doc.fi_to_fi_cstmr_cdt_trf.cdt_trf_tx_inf.pmt_id.uetr
            (calm c (judged_tables amount c))
          ≡ (ok tt, calm c (announced v (judged_tables amount c)))
    unfolding record_payment_validated_outbox_tx insert_outbox_event judged_tables inserted_tables
        advanced statement wrap
    announcement none e = rw (
      k.unused e,
      find_payment-update id (final_state verdict) (validation_reason verdict)
          (inserted_tables amount c) (inserted_row amount c k.free),
    )
    announcement (some reason) e = refl

    pub submit_payment_at :
        submit_payment le_zero to_numeric id event_id doc (calm c w)
        ≡ (ok stored_response, calm (stored_tables amount c) (stored_tables amount c))
    unfolding submit_payment insert_payment inserted_tables judged_tables stored_tables
        stored_response statement ◌>>=◌ ◌>>◌ wrap begin commit
    submit_payment_at = rw (
      k.converts,
      k.fits,
      k.free,
      apply_payment_event_tx_at id (validation_event verdict) (validation_reason verdict) c
          (inserted_tables amount c) (inserted_row amount c k.free) (validation_moves verdict),
      announcement verdict refl,
    )
