-- ===== src/Handlers/Reports.antt =====
-- What an answer of a handler says about the tables, over a connection that loses replies.
use payment_rail_simulator.Prelude.{
  String, Bool, true, false, ◌≡◌, refl, sym, ap, ◌∙◌, ◌⊎◌, inl, inr, none, some, arith, ◌==◌,
  string_eq, Bool-cases,
}
use payment_rail_simulator.Store.{Uuid, UuidText, Db, unavailable, root, Result, ok, err}
use payment_rail_simulator.Store.Tx.{Session, Tx}
use payment_rail_simulator.Store.Calm.{Failed}
use payment_rail_simulator.Store.Follows.{quiet, Agrees, AllOrNone, Follows}
use payment_rail_simulator.Clearing.{ClearPaymentResponse, clear_payment}
use payment_rail_simulator.Clearing.Ends.{clear_payment_ends}
use payment_rail_simulator.Clearing.Faults.{clear_payment-Follows}
use payment_rail_simulator.Receiver.{ReceiverPaymentResult, respond_to_payment}
use payment_rail_simulator.Receiver.Ends.{respond_to_payment_ends}
use payment_rail_simulator.Receiver.Faults.{respond_to_payment-Follows}
use payment_rail_simulator.Settlement.{SettlementResult, settle_payment}
use payment_rail_simulator.Settlement.Ends.{settle_payment_ends}
use payment_rail_simulator.Settlement.Faults.{settle_payment-Follows}
use payment_rail_simulator.Handlers.{
  Answer, clear_code, receiver_code, settle_code, ReceiverResponseRequest, clear_answer,
  receiver_answer, settle_answer, handle_clear_payment, handle_receiver_response,
  handle_settle_payment,
}

module _ {A : Type 0} where
  -- An error of `q` has changed nothing.
  abbrev pub KeepsOnError : Db → Result A × Session → Type 0
  KeepsOnError db (ok a, t) = Unit {0}
  KeepsOnError db (err e, t) = t.committed ≡ db

  -- What the result of a call says of the tables, where `q` is the call over a connection that answers.
  abbrev pub Told : Db → Result A × Session → Result A × Session → Type 0
  Told db q (ok a, t) = (q.0 ≡ ok a) × (t.committed ≡ q.1.committed)
  Told db q (err e, t) =
      (t.committed ≡ db) ⊎ ((root e ≡ unavailable) × (t.committed ≡ q.1.committed))

  -- A JSON body is the result of the whole call. A text means that nothing has changed; or the code
  -- is 500, and what has changed is the whole call.
  abbrev pub Reports : Tx A → Session → Answer A × Session → Type 0
  Reports m s r = elim r.0.body [
    | some a ↦ ((m (quiet s)).0 ≡ ok a) × (r.1.committed ≡ (m (quiet s)).1.committed)
    | none ↦
        (r.1.committed ≡ s.committed)
        ⊎ ((r.0.code ≡ 500) × (r.1.committed ≡ (m (quiet s)).1.committed))
  ]

  told :
      (db : Db) (r q : Result A × Session)
      → Agrees r q ⊎ AllOrNone db r q
      → KeepsOnError db q
      → Told db q r
  told db (ok a, t) q (inl same) k = (sym same.result, ap Session.committed same.session)
  told db (ok a, t) q (inr x) k = absurd x.0
  told db (err e, t) (ok b, u) (inl same) k = let no = same.result in absurd (ground arith)
  told db (err e, t) (err f, u) (inl same) k = inl (ap Session.committed same.session ∙ k)
  told db (err e, t) q (inr (lost_reply, inl h)) k = inl h
  told db (err e, t) q (inr (lost_reply, inr h)) k = inr (lost_reply, h)

  pub KeepsOnError-Failed : (c : Db) (r : Result A × Session) → Failed c r → KeepsOnError c r
  KeepsOnError-Failed c (ok a, t) h = absurd h
  KeepsOnError-Failed c (err e, t) h = h

  pub Told-Follows :
      (m : Tx A) (s : Session)
      → Follows m
      → KeepsOnError s.committed (m (quiet s))
      → Told s.committed (m (quiet s)) (m s)
  Told-Follows m s f k = told s.committed (m s) (m (quiet s)) (f.at s) k

module _ (to_uuid : String → UuidText) (method id : String) (new_id : Uuid) (s : Session) where
  clear_keeps : (k : UuidText) → KeepsOnError s.committed (clear_payment new_id k (quiet s))
  clear_keeps k = elim (clear_payment_ends new_id s.committed s.working k) [
    | inl stopped ↦ KeepsOnError-Failed s.committed (clear_payment new_id k (quiet s)) stopped
    | inr (inl (p, own, inl (x, e))) ↦ rw e tt
    | inr (inl (p, own, inr (x, short, e))) ↦ rw e tt
    | inr (inr (p, own, x, e)) ↦ rw e tt
  ]

  respond_keeps :
      (b : Bool) (reason : String) (k : UuidText)
      → KeepsOnError s.committed (respond_to_payment new_id k b reason (quiet s))
  respond_keeps true reason k =
      elim (respond_to_payment_ends new_id s.committed s.working reason true k) [
        | inl stopped ↦
            KeepsOnError-Failed s.committed (respond_to_payment new_id k true reason (quiet s))
              stopped
        | inr (p, own, x, unused, e) ↦ rw e tt
      ]
  respond_keeps false reason k =
      elim (respond_to_payment_ends new_id s.committed s.working reason false k) [
        | inl stopped ↦
            KeepsOnError-Failed s.committed (respond_to_payment new_id k false reason (quiet s))
              stopped
        | inr (p, own, x, can, e) ↦ rw e tt
      ]

  settle_keeps : (k : UuidText) → KeepsOnError s.committed (settle_payment new_id k (quiet s))
  settle_keeps k = elim (settle_payment_ends new_id s.committed s.working k) [
    | inl stopped ↦ KeepsOnError-Failed s.committed (settle_payment new_id k (quiet s)) stopped
    | inr (p, own, x, e) ↦ rw e tt
  ]

  clear_answer-Reports :
      (m : Tx ClearPaymentResponse) (r : Result ClearPaymentResponse × Session)
      → Told s.committed (m (quiet s)) r
      → Reports m s (clear_answer r.0, r.1)
  clear_answer-Reports m (ok a, t) h = h
  clear_answer-Reports m (err e, t) (inl h) = inl h
  clear_answer-Reports m (err e, t) (inr (lost_reply, h)) = inr (ap clear_code lost_reply, h)

  receiver_answer-Reports :
      (m : Tx ReceiverPaymentResult) (r : Result ReceiverPaymentResult × Session)
      → Told s.committed (m (quiet s)) r
      → Reports m s (receiver_answer r.0, r.1)
  receiver_answer-Reports m (ok a, t) h = h
  receiver_answer-Reports m (err e, t) (inl h) = inl h
  receiver_answer-Reports m (err e, t) (inr (lost_reply, h)) = inr (ap receiver_code lost_reply, h)

  settle_answer-Reports :
      (m : Tx SettlementResult) (r : Result SettlementResult × Session)
      → Told s.committed (m (quiet s)) r
      → Reports m s (settle_answer r.0, r.1)
  settle_answer-Reports m (ok a, t) h = h
  settle_answer-Reports m (err e, t) (inl h) = inl h
  settle_answer-Reports m (err e, t) (inr (lost_reply, h)) = inr (ap settle_code lost_reply, h)

  -- Whatever the method, the id and the connection: if handleClearPayment answers with a JSON body,
  -- that is the result of the whole call of clearPayment over a connection that answers, and the
  -- committed tables are those of that call; if it answers with a text, nothing has changed, or the
  -- code is 500 and the committed tables are those of the whole call.
  pub handle_clear_payment-Reports :
      Reports
        (clear_payment new_id (to_uuid id))
        s
        (handle_clear_payment to_uuid method id new_id s)
  unfolding handle_clear_payment
  handle_clear_payment-Reports = elim (Bool-cases (method == "POST")) [
    | inr other ↦ rw other (inl refl)
    | inl post ↦ elim (Bool-cases (id == "")) [
      | inl empty ↦ rw (post, empty) (inl refl)
      | inr named ↦
          rw (post, named)
            (clear_answer-Reports (clear_payment new_id (to_uuid id)) _ (
              Told-Follows (clear_payment new_id (to_uuid id)) s
                (clear_payment-Follows new_id (to_uuid id)) (clear_keeps (to_uuid id))))
    ]
  ]

  -- Whatever the method, the id and the connection, for a request that decodes: a JSON body of
  -- handleReceiverResponse is the result of the whole call of respondToPayment over a connection that
  -- answers, and the committed tables are those of that call; with a text, nothing has changed, or the
  -- code is 500 and the committed tables are those of the whole call.
  pub handle_receiver_response-Reports :
      (req : ReceiverResponseRequest)
      → Reports
          (respond_to_payment new_id (to_uuid id) req.accepted req.reason)
          s
          (handle_receiver_response to_uuid method id new_id (some req) s)
  unfolding handle_receiver_response
  handle_receiver_response-Reports req = elim (Bool-cases (method == "POST")) [
    | inr other ↦ rw other (inl refl)
    | inl post ↦ elim (Bool-cases (id == "")) [
      | inl empty ↦ rw (post, empty) (inl refl)
      | inr named ↦
          let m = respond_to_payment new_id (to_uuid id) req.accepted req.reason in
          rw (post, named)
            (receiver_answer-Reports m _ (
              Told-Follows m s
                (respond_to_payment-Follows new_id (to_uuid id) req.accepted req.reason)
                (respond_keeps req.accepted req.reason (to_uuid id))))
    ]
  ]

  -- Whatever the method, the id and the connection: a JSON body of handleSettlePayment is the result
  -- of the whole call of settlePayment over a connection that answers, and the committed tables are
  -- those of that call; with a text, nothing has changed, or the code is 500 and the committed tables
  -- are those of the whole call.
  pub handle_settle_payment-Reports :
      Reports
        (settle_payment new_id (to_uuid id))
        s
        (handle_settle_payment to_uuid method id new_id s)
  unfolding handle_settle_payment
  handle_settle_payment-Reports = elim (Bool-cases (method == "POST")) [
    | inr other ↦ rw other (inl refl)
    | inl post ↦ elim (Bool-cases (id == "")) [
      | inl empty ↦ rw (post, empty) (inl refl)
      | inr named ↦
          rw (post, named)
            (settle_answer-Reports (settle_payment new_id (to_uuid id)) _ (
              Told-Follows (settle_payment new_id (to_uuid id)) s
                (settle_payment-Follows new_id (to_uuid id)) (settle_keeps (to_uuid id))))
    ]
  ]
