-- ===== src/Handlers/Codes.antt =====
-- Which code a handler answers with, over a connection that answers.
use payment_rail_simulator.Prelude.{
  String, Bool, false, ◌≡◌, ◌≢◌, refl, ◌⊎◌, inl, inr, Option, none, some, arith, ◌==◌, string_eq,
  Option-cases,
}
use payment_rail_simulator.Payment.{PaymentState, validated, awaiting_response, accepted}
use payment_rail_simulator.Store.{Uuid, UuidText, Payment, Db, find_payment, root}
use payment_rail_simulator.Store.Tx.{Session, statement, begin, wrap, ◌>>=◌, ◌>>◌}
use payment_rail_simulator.Store.Calm.{calm}
use payment_rail_simulator.Clearing.{clear_payment}
use payment_rail_simulator.Clearing.Ends.{clear_payment_absent, clear_payment_early}
use payment_rail_simulator.Receiver.{respond_to_payment}
use payment_rail_simulator.Receiver.Ends.{respond_absent, respond_early}
use payment_rail_simulator.Settlement.{settle_payment}
use payment_rail_simulator.Settlement.Outcomes.{settle_payment_absent, settle_payment_early}
use payment_rail_simulator.Reconciliation.{judged, reconcile_payment}
use payment_rail_simulator.Handlers.{
  Answer, answered_by, clear_answer, receiver_answer, settle_answer, reconciliation_answer,
  ReceiverResponseRequest, text_answer, handle_clear_payment, handle_receiver_response,
  handle_settle_payment, handle_reconciliation,
}

-- 404 where there is no payment, and 409 for one that does not stand in state `ready`; nothing changes.
abbrev pub GuardsRow :
    {A : Type 0} → PaymentState → Db → Option Payment → Answer A × Session → Type 0
GuardsRow ready c none r = r ≡ (text_answer 404, calm c c)
GuardsRow ready c (some p) r = (p.status ≡ ready) ⊎ (r ≡ (text_answer 409, calm c c))

-- Moreover 500 for an id that is no uuid.
abbrev pub Guards : {A : Type 0} → PaymentState → Db → UuidText → Answer A × Session → Type 0
Guards ready c none r = r ≡ (text_answer 500, calm c c)
Guards ready c (some k) r = GuardsRow ready c (find_payment k c) r

-- 404 where there is no payment, and 200 with a body where there is one.
abbrev pub ReadsRow : {A : Type 0} → Option Payment → Answer A → Type 0
ReadsRow none r = r ≡ text_answer 404
ReadsRow (some p) r = (r.code ≡ 200) × (r.body ≢ none)

-- Moreover 400 for an id that is no uuid.
abbrev pub Reads : {A : Type 0} → UuidText → Db → Answer A → Type 0
Reads none db r = r ≡ text_answer 400
Reads (some k) db r = ReadsRow (find_payment k db) r

dec_validated : (s : PaymentState) → (s ≡ validated) ⊎ (s ≢ validated)
dec_validated s = ground arith

dec_awaiting : (s : PaymentState) → (s ≡ awaiting_response) ⊎ (s ≢ awaiting_response)
dec_awaiting s = ground arith

dec_accepted : (s : PaymentState) → (s ≡ accepted) ⊎ (s ≢ accepted)
dec_accepted s = ground arith

Guards-by :
    {A : Type 0} (ready : PaymentState) (c : Db) (k : Uuid) (r : Answer A × Session)
    → ((s : PaymentState) → (s ≡ ready) ⊎ (s ≢ ready))
    → (find_payment k c ≡ none → r ≡ (text_answer 404, calm c c))
    → ((p : Payment)
        → find_payment k c ≡ some p
        → p.status ≢ ready
        → r ≡ (text_answer 409, calm c c))
    → Guards ready c (some k) r
Guards-by ready c k r dec absent early = elim (Option-cases (find_payment k c)) [
  | inl no_row ↦ let e = absent no_row in rw (no_row, Guards) e
  | inr (p, row) ↦ elim (dec p.status) [
    | inl at_state ↦ rw (row, Guards) (inl at_state)
    | inr ne ↦ let e = early p row ne in rw (row, Guards) (inr e)
  ]
]

module _ (new_id : Uuid) (c w : Db) where
  clear_payment-Guards :
      (u : UuidText)
      → Guards validated c u (answered_by clear_answer (clear_payment new_id u) (calm c w))
  clear_payment-Guards none = unfold clear_payment statement ◌>>=◌ ◌>>◌ wrap begin root in refl
  clear_payment-Guards (some k) =
      Guards-by validated c k _ dec_validated
        (λ no_row. rw (clear_payment_absent new_id c w k no_row) (unfold root in refl))
        (λ p row ne. rw (clear_payment_early new_id c w k row ne) (unfold root in refl))

  respond_to_payment-Guards :
      (b : Bool) (reason : String) (u : UuidText)
      → Guards awaiting_response c u
          (answered_by receiver_answer (respond_to_payment new_id u b reason) (calm c w))
  respond_to_payment-Guards b reason none =
      unfold respond_to_payment statement ◌>>=◌ ◌>>◌ wrap begin root in refl
  respond_to_payment-Guards b reason (some k) =
      Guards-by awaiting_response c k _ dec_awaiting
        (λ no_row. rw (respond_absent new_id c w reason b k no_row) (unfold root in refl))
        (λ p row ne. rw (respond_early new_id c w reason b k row ne) (unfold root in refl))

  settle_payment-Guards :
      (u : UuidText)
      → Guards accepted c u (answered_by settle_answer (settle_payment new_id u) (calm c w))
  settle_payment-Guards none = unfold settle_payment statement ◌>>=◌ ◌>>◌ wrap begin root in refl
  settle_payment-Guards (some k) =
      Guards-by accepted c k _ dec_accepted
        (λ no_row. rw (settle_payment_absent new_id k c w no_row) (unfold root in refl))
        (λ p row ne. rw (settle_payment_early new_id k c w row ne) (unfold root in refl))

judged-ReadsRow :
    (u : UuidText) (second : Db) (o : Option Payment)
    → ReadsRow o (reconciliation_answer (judged u second o))
unfolding root
judged-ReadsRow u second none = refl
judged-ReadsRow u second (some p) = (refl, λ e. ground arith)

reconciliation_answer-Reads :
    (u : UuidText) (first second : Db)
    → Reads u first (reconciliation_answer (reconcile_payment u first second))
unfolding reconcile_payment root
reconciliation_answer-Reads none first second = refl
reconciliation_answer-Reads (some k) first second =
    judged-ReadsRow (some k) second (find_payment k first)

module _ (to_uuid : String → UuidText) (id : String) (named : (id == "") ≡ false) where
  -- A POST with a payment_id, over a connection that answers: handleClearPayment, handleSettlePayment
  -- and, of a body that decodes, handleReceiverResponse answer 500 to an id that is no uuid, 404 to one
  -- that no payment has, and 409 where the payment is not validated, not awaiting its response or not
  -- accepted; and none of these changes the committed tables.
  pub handlers-Guards :
      (new_id : Uuid) (req : ReceiverResponseRequest) (c w : Db)
      → Guards validated c (to_uuid id) (handle_clear_payment to_uuid "POST" id new_id (calm c w))
        × Guards awaiting_response c
            (to_uuid id)
            (handle_receiver_response to_uuid "POST" id new_id (some req) (calm c w))
        × Guards accepted c (to_uuid id) (handle_settle_payment to_uuid "POST" id new_id (calm c w))
  unfolding handle_clear_payment handle_receiver_response handle_settle_payment
  handlers-Guards new_id req c w = rw named (
    clear_payment-Guards new_id c w (to_uuid id),
    respond_to_payment-Guards new_id c w req.accepted req.reason (to_uuid id),
    settle_payment-Guards new_id c w (to_uuid id),
  )

  -- A GET with a payment id: handleReconciliation answers 400 to an id that is no uuid, 404 to one that
  -- no payment has, and 200 to every other, with a body in this case alone.
  pub handle_reconciliation-Reads :
      (first second : Db)
      → Reads (to_uuid id) first (handle_reconciliation to_uuid "GET" id first second)
  unfolding handle_reconciliation
  handle_reconciliation-Reads first second =
      rw named (reconciliation_answer-Reads (to_uuid id) first second)
