-- ===== src/Clearing/Ends.antt =====
-- Every way in which `clearPayment` can end over a connection that answers.
use payment_rail_simulator.Prelude.{
  Bool, true, false, ◌≡◌, ◌≢◌, refl, sym, subst, ◌⊎◌, inl, inr, none, some, arith, nat_eq,
  string_eq, Bool-cases, Option-cases,
}
use payment_rail_simulator.Prelude.Table.{key-find}
use payment_rail_simulator.Payment.{
  PaymentState, validated, failed, awaiting_response, clearing_passed, next_payment_state,
}
use payment_rail_simulator.Store.{
  Uuid, UuidText, Payment, Account, Db, payment_not_found, payment_not_validated, Result, ok, err,
  payment_key, find_payment, find_account,
}
use payment_rail_simulator.Store.Tx.{Session, statement, begin, wrap, ◌>>=◌, ◌>>◌}
use payment_rail_simulator.Store.Calm.{calm, Failed}
use payment_rail_simulator.Transition.Steps.{advanced, apply_payment_event_tx_from}
use payment_rail_simulator.Accounts.{is_usable_row, can_reserve, update_account, reserve, fits_row}
use payment_rail_simulator.Outbox.{has_event, insert_outbox_event, record_payment_cleared_outbox_tx}
use payment_rail_simulator.Clearing.{
  ClearPaymentResponse, response, complete_clearing, reserve_funds, clear_payment,
}
use payment_rail_simulator.Clearing.Outcomes.{
  no_creditor, no_funds, cleared_message, can_reserve_row, IsChecked, CanClear, entered_tables,
  refused_tables, reserved_tables, passed_tables, cleared_tables, reserved_row, creditor_passes,
  funds_reserved, clear_payment-no_creditor, clear_payment-no_funds, clear_payment_at,
}

-- A check has failed, and the payment with it.
abbrev pub Refuses : UuidText → Db → Result ClearPaymentResponse × Session → Type 0
Refuses id c r =
    (p : Payment) × (id ≡ some p.id)
    × ((IsChecked p c false
          × (r ≡ (
            ok (response (some p.id) p failed no_creditor),
            calm (refused_tables p c no_creditor) (refused_tables p c no_creditor),
          )))
        ⊎ (IsChecked p c true
            × (can_reserve_row p (find_account p.debtor_account c) ≡ false)
            × (r ≡ (
              ok (response (some p.id) p failed no_funds),
              calm (refused_tables p c no_funds) (refused_tables p c no_funds),
            ))))

-- The payment is cleared, and all of `CanClear` held.
abbrev pub Clears : Uuid → UuidText → Db → Result ClearPaymentResponse × Session → Type 0
Clears event_id id c r =
    (p : Payment) × (id ≡ some p.id)
    × CanClear p c event_id
    × (r ≡ (
      ok (response (some p.id) p awaiting_response cleared_message),
      calm (cleared_tables p c event_id) (cleared_tables p c event_id),
    ))

module _ (event_id : Uuid) (c w : Db) where
  abbrev Ends : UuidText → Type 0
  Ends id =
      let r = clear_payment event_id id (calm c w) in
      Failed c r ⊎ Refuses id c r ⊎ Clears event_id id c r

  pub clear_payment_absent :
      (id : Uuid)
      → find_payment id c ≡ none
      → clear_payment event_id (some id) (calm c w) ≡ (err payment_not_found, calm c c)
  unfolding clear_payment statement ◌>>=◌ ◌>>◌ wrap begin
  clear_payment_absent id h = rw h

  pub clear_payment_early :
      (id : Uuid) {p : Payment}
      → find_payment id c ≡ some p
      → p.status ≢ validated
      → clear_payment event_id (some id) (calm c w) ≡ (err payment_not_validated, calm c c)
  unfolding clear_payment statement ◌>>=◌ ◌>>◌ wrap begin
  clear_payment_early id h ne = ground arith

  module _ (p : Payment) (k : IsChecked p c true) where
    event_id_taken :
        has_event event_id c.outbox_events ≡ true
        → Failed c (complete_clearing event_id (some p.id) p (calm c (reserved_tables p c)))
    unfolding complete_clearing record_payment_cleared_outbox_tx insert_outbox_event passed_tables
        reserved_tables entered_tables advanced statement ◌>>=◌ ◌>>◌ wrap next_payment_state
    event_id_taken h = rw (
      apply_payment_event_tx_from p.id clearing_passed "" c (reserved_tables p c)
          (reserved_row p c k.row) refl refl,
      h,
    )

    row_end :
        (a : Account)
        → find_account p.debtor_account c ≡ some a
        → can_reserve p.debtor_agent p.currency p.amount a ≡ true
        → Failed c (reserve_funds event_id (some p.id) p (calm c (entered_tables p c)))
          ⊎ CanClear p c event_id
    unfolding reserve_funds update_account entered_tables advanced statement ◌>>=◌ wrap
    row_end a row covers = elim (Bool-cases (fits_row (reserve p.amount a))) [
      | inr overflow ↦ inl (rw (row, covers, overflow))
      | inl fits ↦ elim (Bool-cases (has_event event_id c.outbox_events)) [
        | inl taken ↦
            inl (rw (funds_reserved event_id p c w row covers fits) (event_id_taken taken))
        | inr unused ↦ inr (record {
          checked = k;
          debtor = a;
          debtor_row = row;
          debtor_covers = covers;
          debtor_fits = fits;
          unused = unused;
        })
      ]
    ]

    funds_end :
        can_reserve_row p (find_account p.debtor_account c) ≡ true
        → Failed c (reserve_funds event_id (some p.id) p (calm c (entered_tables p c)))
          ⊎ CanClear p c event_id
    funds_end h = elim (Option-cases (find_account p.debtor_account c)) [
      | inl absent ↦ absurd (ground arith)
      | inr (a, row) ↦ row_end a row (rw row at h)
    ]

    funds_decide : Ends (some p.id)
    funds_decide = elim (Bool-cases (can_reserve_row p (find_account p.debtor_account c))) [
      | inr short ↦
          inr (inl (p, refl, inr (k, short, clear_payment-no_funds event_id p c w k short)))
      | inl covered ↦ elim (funds_end covered) [
        | inl failed_call ↦ inl (rw (creditor_passes event_id p c w k) failed_call)
        | inr can ↦ inr (inr (p, refl, can, clear_payment_at event_id p c w can))
      ]
    ]

  creditor_decides :
      (p : Payment)
      → find_payment p.id c ≡ some p
      → p.status ≡ validated
      → (b : Bool)
      → is_usable_row p.creditor_agent p.currency (find_account p.creditor_account c) ≡ b
      → Ends (some p.id)
  creditor_decides p row at_state false e =
      let k : IsChecked p c false = record {
        row = row;
        stands_validated = at_state;
        creditor_test = e;
      } in
      inr (inl (p, refl, inl (k, clear_payment-no_creditor event_id p c w k)))
  creditor_decides p row at_state true e =
      funds_decide p (record { row = row; stands_validated = at_state; creditor_test = e })

  clear_row-Ends : (p : Payment) → find_payment p.id c ≡ some p → Ends (some p.id)
  clear_row-Ends p row = elim (dec_validated p.status) [
    | inl at_state ↦ creditor_decides p row at_state _ refl
    | inr ne ↦ inl (rw (clear_payment_early p.id row ne))
  ]
    where
      dec_validated : (s : PaymentState) → (s ≡ validated) ⊎ (s ≢ validated)
      dec_validated s = ground arith

  -- Over a connection that answers, clearPayment returns an error and keeps the committed tables as
  -- they were; or it fails the payment with this id, which was validated, because the test of the creditor's account fails, or
  -- because that passes and the one of the debtor's fails, with the message of that test; or all of
  -- `CanClear` held, and it reserves the funds, moves the payment on and writes the outbox event.
  pub clear_payment_ends :
      (id : UuidText)
      → let r = clear_payment event_id id (calm c w) in
        Failed c r ⊎ Refuses id c r ⊎ Clears event_id id c r
  clear_payment_ends none = inl (unfold clear_payment statement ◌>>=◌ ◌>>◌ wrap begin in refl)
  clear_payment_ends (some id) = elim (Option-cases (find_payment id c)) [
    | inl absent ↦ inl (rw (clear_payment_absent id absent))
    | inr (p, row) ↦
        let e = key-find payment_key id c.payments row in
        subst (λ k. Ends (some k)) e
          (clear_row-Ends p (subst (λ k. find_payment k c ≡ some p) (sym e) row))
  ]
