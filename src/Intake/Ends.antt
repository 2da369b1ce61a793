-- ===== src/Intake/Ends.antt =====
-- Every way in which the POST half of `handlePayment` can end over a connection that answers.
use payment_rail_simulator.Prelude.{
  String, ◌≡◌, refl, ◌⊎◌, Bool, true, false, inl, inr, Option, none, some, Bool-cases, Option-cases,
}
use payment_rail_simulator.Prelude.Int.{ℤ}
use payment_rail_simulator.Store.{Uuid, Payment, Db, Result, ok}
use payment_rail_simulator.Store.Tx.{Session, statement, wrap, begin, ◌>>=◌, ◌>>◌}
use payment_rail_simulator.Store.Calm.{calm, Failed}
use payment_rail_simulator.Transition.Steps.{advanced, apply_payment_event_tx_at}
use payment_rail_simulator.Outbox.{
  has_event, insert_outbox_event, record_payment_validated_outbox_tx,
}
use payment_rail_simulator.Message.{Document}
use payment_rail_simulator.Validate.{validate_payment}
use payment_rail_simulator.Intake.Columns.{fits_columns}
use payment_rail_simulator.Intake.{
  is_taken, insert_payment, PaymentResponse, validation_event, validation_reason, submit_payment,
}
use payment_rail_simulator.Intake.Outcomes.{
  validation_moves, verdict, sent, row, CanStore, inserted_tables, inserted_row, stored_tables,
  stored_response, submit_payment_at,
}

module _ {F : Type 0} (le_zero : F → Bool) (to_numeric : F → Option ℤ) (id event_id : Uuid)
    (doc : Document F) (c w : Db) where
  abbrev call : Result PaymentResponse × Session
  call = submit_payment le_zero to_numeric id event_id doc (calm c w)

  abbrev value_of : Option ℤ
  value_of = to_numeric doc.fi_to_fi_cstmr_cdt_trf.cdt_trf_tx_inf.intr_bk_sttlm_amt.value

  abbrev row_of : ℤ → Payment
  row_of amount = row le_zero to_numeric id event_id doc amount

  abbrev sent_of : ℤ → Payment
  sent_of amount = sent le_zero to_numeric id event_id doc amount

  overflow_fails : value_of ≡ none → Failed c call
  unfolding submit_payment insert_payment statement ◌>>=◌ ◌>>◌ wrap begin
  overflow_fails h = rw h

  module _ {amount : ℤ} (converts : value_of ≡ some amount) where
    too_long_fails : fits_columns (sent_of amount) ≡ false → Failed c call
    unfolding submit_payment insert_payment statement ◌>>=◌ ◌>>◌ wrap begin
    too_long_fails h = rw (converts, h)

    module _ (fits : fits_columns (sent_of amount) ≡ true) where
      duplicate_fails : is_taken id (row_of amount).uetr c.payments ≡ true → Failed c call
      unfolding submit_payment insert_payment statement ◌>>=◌ ◌>>◌ wrap begin
      duplicate_fails h = rw (converts, fits, h)

      module _ (free : is_taken id (row_of amount).uetr c.payments ≡ false) where
        event_id_fails :
            validate_payment le_zero doc ≡ none
            → has_event event_id c.outbox_events ≡ true
            → Failed c call
        unfolding submit_payment insert_payment inserted_tables record_payment_validated_outbox_tx
            insert_outbox_event advanced statement ◌>>=◌ ◌>>◌ wrap begin
        event_id_fails valid taken =
            rw
              (
                converts,
                fits,
                free,
                apply_payment_event_tx_at id
                    (validation_event (verdict le_zero to_numeric id event_id doc))
                    (validation_reason (verdict le_zero to_numeric id event_id doc)) c
                    (inserted_tables le_zero to_numeric id event_id doc amount c)
                    (inserted_row le_zero to_numeric id event_id doc amount c free)
                    (validation_moves (verdict le_zero to_numeric id event_id doc)),
              )
              (rw (valid, taken))

  abbrev pub Stores : Type 0
  Stores =
      (amount : ℤ) × CanStore le_zero to_numeric id event_id doc amount c
      × (call ≡ (
        ok (stored_response le_zero to_numeric id event_id doc),
        calm (stored_tables le_zero to_numeric id event_id doc amount c)
            (stored_tables le_zero to_numeric id event_id doc amount c),
      ))

  unused_decides :
      (v : Option String)
      → validate_payment le_zero doc ≡ v
      → ((validate_payment le_zero doc ≡ none) × (has_event event_id c.outbox_events ≡ true))
        ⊎ (validate_payment le_zero doc ≡ none → has_event event_id c.outbox_events ≡ false)
  unused_decides (some reason) e = inr (λ h. cc)
  unused_decides none e = elim (Bool-cases (has_event event_id c.outbox_events)) [
    | inl taken ↦ inl (e, taken)
    | inr unused ↦ inr (λ h. unused)
  ]

  amount_decides : (amount : ℤ) → value_of ≡ some amount → Failed c call ⊎ Stores
  amount_decides amount converts = elim (Bool-cases (fits_columns (sent_of amount))) [
    | inr long ↦ inl (too_long_fails converts long)
    | inl fits ↦ elim (Bool-cases (is_taken id (row_of amount).uetr c.payments)) [
      | inl taken ↦ inl (duplicate_fails converts fits taken)
      | inr free ↦ elim (unused_decides (validate_payment le_zero doc) refl) [
        | inl (valid, taken) ↦ inl (event_id_fails converts fits free valid taken)
        | inr unused ↦
            let k : CanStore le_zero to_numeric id event_id doc amount c = record {
              converts = converts;
              fits = fits;
              free = free;
              unused = unused;
            } in
            inr (amount, k, submit_payment_at le_zero to_numeric id event_id doc amount c w k)
      ]
    ]
  ]

  -- Over a connection that answers, the POST half of handlePayment ends in an error and keeps the
  -- committed tables as they were; or all of `CanStore` held, and the response and the committed
  -- tables are those of the stored payment.
  pub submit_payment_ends : Failed c call ⊎ Stores
  submit_payment_ends = elim (Option-cases value_of) [
    | inl overflow ↦ inl (overflow_fails overflow)
    | inr (amount, converts) ↦ amount_decides amount converts
  ]
