-- ===== src/Handlers/Submit.antt =====
-- handlePayment of main.go: GET lists the newest payments, POST stores one.
use payment_rail_simulator.Prelude.{
  ℕ, Bool, true, ◌≡◌, ◌≢◌, refl, arith, ◌⊎◌, inl, inr, String, Option, none, some, List, ◌==◌,
  string_eq, if◌then◌else◌, Bool-cases,
}
use payment_rail_simulator.Prelude.Int.{ℤ}
use payment_rail_simulator.Payment.{PaymentState, rejected}
use payment_rail_simulator.Store.{Uuid, Db, Error, Result, ok, err}
use payment_rail_simulator.Store.Tx.{Reply, Session, Tx, first_reply, rest_replies}
use payment_rail_simulator.Store.Follows.{quiet}
use payment_rail_simulator.Message.{Document}
use payment_rail_simulator.Intake.{PaymentResponse, submit_payment, status_code, says_duplicate}
use payment_rail_simulator.Intake.Outcomes.{submit_payment-Follows}
use payment_rail_simulator.Intake.Ends.{submit_payment_ends}
use payment_rail_simulator.Queries.Recent.{
  RecentPaymentResponse, handle_get_recent_payments, handle_get_recent_payments-bounds,
}
use payment_rail_simulator.Handlers.{Answer}
use payment_rail_simulator.Handlers.Reports.{KeepsOnError, Told, KeepsOnError-Failed, Told-Follows}

-- What the body of an answer has: a text, the list of payments, the stored payment, or the UETR that
-- is there already.
pub data PaymentBody : Type 0 where
  plain : PaymentBody
  payments : List RecentPaymentResponse → PaymentBody
  stored : PaymentResponse → PaymentBody
  duplicate : String → PaymentBody

pub record PaymentAnswer : Type 0 where
  pub code : ℕ
  pub body : PaymentBody

abbrev pub list_body : Option (List RecentPaymentResponse) → PaymentBody
list_body none = plain
list_body (some ps) = payments ps

abbrev pub listed : Answer (List RecentPaymentResponse) → PaymentAnswer
listed r = record { code = r.code; body = list_body r.body }

abbrev pub plain_answer : ℕ → PaymentAnswer
plain_answer code = record { code = code; body = plain }

abbrev pub stored_body : String → Result PaymentResponse → PaymentBody
stored_body uetr (ok r) = stored r
stored_body uetr (err e) = if says_duplicate (err e) then duplicate uetr else plain

abbrev pub stored_answer : String → Result PaymentResponse → PaymentAnswer
stored_answer uetr r = record { code = status_code r; body = stored_body uetr r }

module _ {F : Type 0} (atoi : String → Option ℤ) (le_zero : F → Bool)
    (to_numeric : F → Option ℤ) where
  -- The request's JSON, `none` where it does not decode.
  abbrev pub submit_as : Uuid → Uuid → Option (Document F) → Session → PaymentAnswer × Session
  submit_as id event_id none s = (plain_answer 400, s)
  submit_as id event_id (some doc) s =
      let (r, s') = submit_payment le_zero to_numeric id event_id doc s in
      (stored_answer doc.fi_to_fi_cstmr_cdt_trf.cdt_trf_tx_inf.pmt_id.uetr r, s')

  unfoldable pub handle_payment :
      String → String → Uuid → Uuid → Option (Document F) → Session → PaymentAnswer × Session
  handle_payment method limit id event_id body s =
      if method == "GET"
      then (
        listed (handle_get_recent_payments atoi limit (first_reply s.replies) s.committed),
        record s { replies = rest_replies s.replies },
      )
      else if method == "POST"
      then submit_as id event_id body s
      else (plain_answer 405, s)

-- The code of a stored payment.
abbrev pub StoredCode : PaymentState → ℕ → Type 0
StoredCode status code = ((status ≡ rejected) × (code ≡ 422)) ⊎ ((status ≢ rejected) × (code ≡ 201))

-- The codes of an answer without a stored payment.
abbrev pub OtherCode : ℕ → Type 0
OtherCode code = (code ≢ 201) × (code ≢ 422)

-- What an answer says of the tables, where `q` is the submission over a connection that answers.
abbrev pub SaysOf : Db → Result PaymentResponse × Session → PaymentAnswer × Session → Type 0
SaysOf db q (a, t) = elim a.body [
  | stored r ↦ (q.0 ≡ ok r) × (t.committed ≡ q.1.committed) × StoredCode r.status a.code
  | duplicate uetr ↦ ((t.committed ≡ db) ⊎ (t.committed ≡ q.1.committed)) × (a.code ≡ 409)
  | _ ↦ ((t.committed ≡ db) ⊎ (t.committed ≡ q.1.committed)) × OtherCode a.code
]

status_code-StoredCode : (r : PaymentResponse) → StoredCode r.status (status_code (ok r))
unfolding status_code
status_code-StoredCode r = by_state r.status
  where
    by_state : (s : PaymentState) → StoredCode s (elim s [ rejected ↦ 422 | _ ↦ 201 ])
    by_state s = ground arith

status_code-OtherCode : (e : Error) → OtherCode (status_code (err e))
unfolding status_code
status_code-OtherCode e = ground arith

-- Only an answer with code 409 says that the UETR is there already.
duplicate_code : (e : Error) → says_duplicate (err e) ≡ true → status_code (err e) ≡ 409
unfolding status_code says_duplicate
duplicate_code e h = ground arith

plain_or_duplicate :
    (e : Error) (uetr : String) (db : Db) (q : Result PaymentResponse × Session) (t : Session)
    → (t.committed ≡ db) ⊎ (t.committed ≡ q.1.committed)
    → SaysOf db q (stored_answer uetr (err e), t)
plain_or_duplicate e uetr db q t h = elim (Bool-cases (says_duplicate (err e))) [
  | inl taken ↦ rw taken (h, duplicate_code e taken)
  | inr other ↦ rw other (h, status_code-OtherCode e)
]

stored_answer-SaysOf :
    (uetr : String) (db : Db) (q r : Result PaymentResponse × Session)
    → Told db q r
    → SaysOf db q (stored_answer uetr r.0, r.1)
stored_answer-SaysOf uetr db q (ok a, t) (same, kept) = (same, kept, status_code-StoredCode a)
stored_answer-SaysOf uetr db q (err e, t) (inl h) = plain_or_duplicate e uetr db q t (inl h)
stored_answer-SaysOf uetr db q (err e, t) (inr (gone, h)) = plain_or_duplicate e uetr db q t (inr h)

module _ {F : Type 0} (atoi : String → Option ℤ) (le_zero : F → Bool) (to_numeric : F → Option ℤ)
    (id event_id : Uuid) (doc : Document F) (s : Session) where
  abbrev submitted : Tx PaymentResponse
  submitted = submit_payment le_zero to_numeric id event_id doc

  submit_keeps : KeepsOnError s.committed (submitted (quiet s))
  submit_keeps =
      elim (submit_payment_ends le_zero to_numeric id event_id doc s.committed s.working) [
        | inl stopped ↦ KeepsOnError-Failed s.committed (submitted (quiet s)) stopped
        | inr (amount, k, e) ↦ rw e tt
      ]

  submit_as-SaysOf :
      SaysOf s.committed
        (submitted (quiet s))
        (submit_as atoi le_zero to_numeric id event_id (some doc) s)
  submit_as-SaysOf =
      stored_answer-SaysOf doc.fi_to_fi_cstmr_cdt_trf.cdt_trf_tx_inf.pmt_id.uetr s.committed
        (submitted (quiet s)) (submitted s)
        (Told-Follows submitted s (submit_payment-Follows le_zero to_numeric id event_id doc)
          submit_keeps)

  listed-SaysOf :
      (r : Answer (List RecentPaymentResponse)) (t : Session)
      → t.committed ≡ s.committed
      → OtherCode r.code
      → SaysOf s.committed (submitted (quiet s)) (listed r, t)
  listed-SaysOf r t same other = by_body r.body
    where
      by_body :
          (o : Option (List RecentPaymentResponse))
          → SaysOf s.committed
              (submitted (quiet s))
              (record { code = r.code; body = list_body o }, t)
      by_body none = (inl same, other)
      by_body (some ps) = (inl same, other)

  other_code : OtherCode 405
  other_code = ground arith

  list_code :
      (limit : String) (reply : Reply) (db : Db)
      → OtherCode (handle_get_recent_payments atoi limit reply db).code
  list_code limit reply db = elim (handle_get_recent_payments-bounds atoi limit reply db) [
    | inl (e, given, refused) ↦ rw e (ground arith)
    | inr (inl (e, more)) ↦ rw e (ground arith)
    | inr (inr (n, ps, asked, e, newest)) ↦ rw e (ground arith)
  ]

  -- For any method and a body that decodes: where handlePayment answers with a stored payment, it is
  -- the result of the whole submission, its writes are committed, and the code is 422 if the payment
  -- is rejected and 201 otherwise; after any other answer, whose code is neither 201 nor 422, and 409
  -- where it names a UETR that is there already, the tables are as they were, or those after the whole
  -- submission.
  pub handle_payment-SaysOf :
      (method limit : String)
      → SaysOf s.committed
          (submitted (quiet s))
          (handle_payment atoi le_zero to_numeric method limit id event_id (some doc) s)
  unfolding handle_payment
  handle_payment-SaysOf method limit = elim (Bool-cases (method == "GET")) [
    | inl get ↦ rw get (
        listed-SaysOf (handle_get_recent_payments atoi limit (first_reply s.replies) s.committed)
          (record s { replies = rest_replies s.replies }) refl
          (list_code limit (first_reply s.replies) s.committed))
    | inr other ↦ elim (Bool-cases (method == "POST")) [
      | inl post ↦ rw (other, post) submit_as-SaysOf
      | inr unknown ↦ rw (other, unknown) (inl refl, other_code)
    ]
  ]
