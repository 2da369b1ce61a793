-- ===== src/Receiver/Ends.antt =====
-- Every way in which `respondToPayment` can end over a connection that answers.
use payment_rail_simulator.Prelude.{
  String, Bool, true, false, ◌≡◌, ◌≢◌, refl, sym, subst, ◌⊎◌, inl, inr, none, some, arith, nat_eq,
  Bool-cases, Option-cases,
}
use payment_rail_simulator.Prelude.Table.{key-find}
use payment_rail_simulator.Payment.{PaymentState, awaiting_response}
use payment_rail_simulator.Store.{
  Uuid, UuidText, Payment, Db, payment_not_found, payment_not_awaiting_response, Result, ok, err,
  payment_key, find_payment,
}
use payment_rail_simulator.Store.Tx.{Session, statement, begin, wrap, ◌>>=◌, ◌>>◌}
use payment_rail_simulator.Store.Calm.{calm, Failed}
use payment_rail_simulator.Outbox.{has_event}
use payment_rail_simulator.Receiver.{ReceiverPaymentResult, respond_to_payment}
use payment_rail_simulator.Receiver.Outcomes.{
  IsAwaiting, CanRelease, accepted_tables, rejected_tables, acceptance, rejection,
  respond_to_payment_enters, accept_payment_at, accept_payment_taken, reject_payment_at,
  reject_payment_decides,
}

abbrev pub Accepts : Uuid → UuidText → Db → Result ReceiverPaymentResult × Session → Type 0
Accepts event_id id c r =
    (p : Payment) × (id ≡ some p.id)
    × IsAwaiting p c
    × (has_event event_id c.outbox_events ≡ false)
    × (r ≡ (ok (acceptance p), calm (accepted_tables p c event_id) (accepted_tables p c event_id)))

abbrev pub Rejects : String → UuidText → Db → Result ReceiverPaymentResult × Session → Type 0
Rejects reason id c r =
    (p : Payment) × (id ≡ some p.id)
    × IsAwaiting p c
    × CanRelease p c
    × (r
        ≡ (ok (rejection p reason), calm (rejected_tables p c reason) (rejected_tables p c reason)))

-- What an answer can lead to, by what it says.
abbrev pub Answers :
    Bool → String → Uuid → UuidText → Db → Result ReceiverPaymentResult × Session → Type 0
Answers true reason event_id id c r = Accepts event_id id c r
Answers false reason event_id id c r = Rejects reason id c r

module _ (event_id : Uuid) (c w : Db) (reason : String) where
  abbrev Ends : Bool → UuidText → Type 0
  Ends b id =
      let r = respond_to_payment event_id id b reason (calm c w) in
      Failed c r ⊎ Answers b reason event_id id c r

  pub respond_absent :
      (b : Bool) (id : Uuid)
      → find_payment id c ≡ none
      → respond_to_payment event_id (some id) b reason (calm c w)
        ≡ (err payment_not_found, calm c c)
  unfolding respond_to_payment statement ◌>>=◌ ◌>>◌ wrap begin
  respond_absent b id h = rw h

  pub respond_early :
      (b : Bool) (id : Uuid) {p : Payment}
      → find_payment id c ≡ some p
      → p.status ≢ awaiting_response
      → respond_to_payment event_id (some id) b reason (calm c w)
        ≡ (err payment_not_awaiting_response, calm c c)
  unfolding respond_to_payment statement ◌>>=◌ ◌>>◌ wrap begin
  respond_early b id h ne = ground arith

  awaiting-Ends : (b : Bool) (p : Payment) → IsAwaiting p c → Ends b (some p.id)
  awaiting-Ends true p k =
      rw (respond_to_payment_enters event_id p c w k true reason)
        (elim (Bool-cases (has_event event_id c.outbox_events)) [
          | inl taken ↦ inl (accept_payment_taken event_id p c w k taken)
          | inr unused ↦ inr (p, refl, k, unused, accept_payment_at event_id p c w k unused)
        ])
  awaiting-Ends false p k =
      rw (respond_to_payment_enters event_id p c w k false reason)
        (elim (reject_payment_decides event_id p c w k reason) [
          | inl failed_call ↦ inl failed_call
          | inr can ↦ inr (p, refl, k, can, reject_payment_at event_id p c w k reason can)
        ])

  respond_row-Ends : (b : Bool) (p : Payment) → find_payment p.id c ≡ some p → Ends b (some p.id)
  respond_row-Ends b p row = elim (dec_awaiting p.status) [
    | inl at_state ↦ awaiting-Ends b p (record { row = row; stands_awaiting = at_state })
    | inr ne ↦ inl (rw (respond_early b p.id row ne))
  ]
    where
      dec_awaiting : (s : PaymentState) → (s ≡ awaiting_response) ⊎ (s ≢ awaiting_response)
      dec_awaiting s = ground arith

  -- Over a connection that answers, respondToPayment returns an error and keeps the committed tables
  -- as they were; or the payment with this id awaited its answer, and an acceptance moves it on and writes the
  -- outbox event, and a rejection fails it and releases its funds, which were reserved.
  pub respond_to_payment_ends :
      (b : Bool) (id : UuidText)
      → let r = respond_to_payment event_id id b reason (calm c w) in
        Failed c r ⊎ Answers b reason event_id id c r
  respond_to_payment_ends b none =
      inl (unfold respond_to_payment statement ◌>>=◌ ◌>>◌ wrap begin in refl)
  respond_to_payment_ends b (some id) = elim (Option-cases (find_payment id c)) [
    | inl absent ↦ inl (rw (respond_absent b id absent))
    | inr (p, row) ↦
        let e = key-find payment_key id c.payments row in
        subst (λ k. Ends b (some k)) e
          (respond_row-Ends b p (subst (λ k. find_payment k c ≡ some p) (sym e) row))
  ]
