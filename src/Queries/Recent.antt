-- ===== src/Queries/Recent.antt =====
-- recent_payments.go: the newest payments, as many as the request asks for.
use mathlib.Core.List.{map, reverse}
use payment_rail_simulator.Prelude.{
  ℕ, zero, suc, ◌≤◌, ◌≡◌, ◌≢◌, refl, sym, subst, ap, ◌⊎◌, inl, inr, String, Option, none, some,
  List, [], ◌∷◌, ◌++◌, ◌==◌, string_eq, if◌then◌else◌, leb, length, arith, Bool-cases, eq_iff,
  false,
}
use payment_rail_simulator.Prelude.Int.{ℤ, pos, negsuc, ◌≤ℤ◌}
use payment_rail_simulator.Payment.{PaymentState}
use payment_rail_simulator.Store.{Uuid, Payment, Db, Result, ok, err}
use payment_rail_simulator.Store.Tx.{Reply, answered, lost, unacked}
use payment_rail_simulator.Handlers.{Answer, text_answer, json_answer}
use payment_rail_simulator.Queries.{select}

pub record RecentPaymentResponse : Type 0 where
  pub id : Uuid
  pub uetr : String
  pub end_to_end_id : String
  pub debtor_name : String
  pub creditor_name : String
  pub amount : ℤ
  pub currency : String
  pub status : PaymentState
  pub reject_reason : String

abbrev pub recent_row : Payment → RecentPaymentResponse
recent_row p = record {
  id = p.id;
  uetr = p.uetr;
  end_to_end_id = p.end_to_end_id;
  debtor_name = p.debtor_name;
  creditor_name = p.creditor_name;
  amount = p.amount;
  currency = p.currency;
  status = p.status;
  reject_reason = p.reject_reason;
}

-- `err != nil || parsedLimit < 1`, then the cap of 100
unfoldable pub capped : Option ℤ → Option ℕ
capped none = none
capped (some (negsuc n)) = none
capped (some (pos zero)) = none
capped (some (pos (suc n))) = some (if leb (suc n) 100 then suc n else 100)

-- LIMIT
unfoldable pub limited {ℓ} : {A : Type ℓ} → ℕ → List A → List A
limited zero xs = []
limited (suc n) [] = []
limited (suc n) (x ∷ xs) = x ∷ limited n xs

abbrev pub recent_answer : Result (List RecentPaymentResponse) → Answer (List RecentPaymentResponse)
recent_answer (ok payments) = json_answer 200 payments
recent_answer (err e) = text_answer 500

-- SELECT … FROM payments ORDER BY created_at DESC LIMIT $1
abbrev pub recent_with : Option ℕ → Reply → Db → Answer (List RecentPaymentResponse)
recent_with none reply db = text_answer 400
recent_with (some limit) reply db =
    recent_answer (select reply (limited limit (map recent_row (reverse db.payments))))

-- `atoi` is `strconv.Atoi`, `none` for its error.
module _ (atoi : String → Option ℤ) where
  unfoldable pub limit_of : String → Option ℕ
  limit_of param = if param == "" then some 20 else capped (atoi param)

  unfoldable pub handle_get_recent_payments :
      String → Reply → Db → Answer (List RecentPaymentResponse)
  handle_get_recent_payments param reply db = recent_with (limit_of param) reply db

length-limited : {A : Type 0} (n : ℕ) (xs : List A) → length (limited n xs) ≤ n
unfolding limited
length-limited zero xs = omega arith
length-limited (suc n) [] = omega arith
length-limited (suc n) (x ∷ xs) = omega (arith, length-limited n xs)

-- The rows that are left out, of which there are none unless the limit is used up.
limited_rest :
    {A : Type 0} (n : ℕ) (xs : List A)
    → (rest : List A) × (limited n xs ++ rest ≡ xs) × ((rest ≡ []) ⊎ (length (limited n xs) ≡ n))
unfolding limited
limited_rest zero xs = (xs, refl, inr refl)
limited_rest (suc n) [] = ([], refl, inl refl)
limited_rest (suc n) (x ∷ xs) =
    let (rest, all, full) = limited_rest n xs in
    (rest, ap (λ ys. x ∷ ys) all, elim full [ inl h ↦ inl h | inr h ↦ inr (omega (arith, h)) ])

-- A number that is taken as a limit: a positive one, at most 100 of it.
abbrev pub IsTaken : Option ℤ → ℕ → Type 0
IsTaken o n =
    (v : ℤ) × (o ≡ some v)
    × (pos 1 ≤ℤ v)
    × (((v ≤ℤ pos 100) × (v ≡ pos n)) ⊎ ((pos 101 ≤ℤ v) × (n ≡ 100)))

-- A text that is no number, or one that is not positive.
abbrev pub IsRefused : Option ℤ → Type 0
IsRefused o = (o ≡ none) ⊎ ((v : ℤ) × (o ≡ some v) × (v ≤ℤ pos 0))

capped-IsTaken : (o : Option ℤ) {n : ℕ} → capped o ≡ some n → IsTaken o n
unfolding capped
capped-IsTaken none h = absurd (ground arith)
capped-IsTaken (some (negsuc n)) h = absurd (ground arith)
capped-IsTaken (some (pos zero)) h = absurd (ground arith)
capped-IsTaken (some (pos (suc m))) {n} h = (
  pos (suc m),
  refl,
  omega arith,
  elim (Bool-cases (leb (suc m) 100)) [
    | inl small ↦
        let same : suc m ≡ n = ground (arith, small) in inl (ground (arith, small), ap pos same)
    | inr large ↦ inr (ground (arith, large), ground (arith, large))
  ],
)

capped-IsRefused : (o : Option ℤ) → capped o ≡ none → IsRefused o
unfolding capped
capped-IsRefused none h = inl refl
capped-IsRefused (some (negsuc n)) h = inr (negsuc n, refl, omega arith)
capped-IsRefused (some (pos zero)) h = inr (pos zero, refl, omega arith)
capped-IsRefused (some (pos (suc m))) h = absurd (ground arith)

-- Each payment is shown with its columns.
abbrev pub ShowsPayments : List Payment → List RecentPaymentResponse → Type 0
ShowsPayments [] [] = Unit {0}
ShowsPayments (p ∷ ps) (r ∷ rs) =
    (r.id ≡ p.id)
    × (r.uetr ≡ p.uetr)
    × (r.end_to_end_id ≡ p.end_to_end_id)
    × (r.debtor_name ≡ p.debtor_name)
    × (r.creditor_name ≡ p.creditor_name)
    × (r.amount ≡ p.amount)
    × (r.currency ≡ p.currency)
    × (r.status ≡ p.status)
    × (r.reject_reason ≡ p.reject_reason)
    × ShowsPayments ps rs
ShowsPayments [] (r ∷ rs) = ⊥
ShowsPayments (p ∷ ps) [] = ⊥

map-ShowsPayments : (ps : List Payment) → ShowsPayments ps (map recent_row ps)
map-ShowsPayments [] = tt
map-ShowsPayments (p ∷ ps) =
    (refl, refl, refl, refl, refl, refl, refl, refl, refl, map-ShowsPayments ps)

-- The newest payments, newest first: as many as the limit if there are as many, and all otherwise.
pub record IsNewest (limit : ℕ) (db : Db) (ps : List RecentPaymentResponse) : Type 0 where
  pub bounded : length ps ≤ limit
  pub rest : List RecentPaymentResponse
  pub all : ShowsPayments (reverse db.payments) (ps ++ rest)
  pub full : (rest ≡ []) ⊎ (length ps ≡ limit)

module _ (atoi : String → Option ℤ) where
  -- The limit that a text of the request asks for: 20 if there is none.
  abbrev pub Asks : String → ℕ → Type 0
  Asks param n = ((param ≡ "") × (n ≡ 20)) ⊎ ((param ≢ "") × IsTaken (atoi param) n)

  abbrev pub RecentEnds : String → Reply → Db → Answer (List RecentPaymentResponse) → Type 0
  RecentEnds param reply db r =
      ((r ≡ text_answer 400) × (param ≢ "") × IsRefused (atoi param))
      ⊎ ((r ≡ text_answer 500) × (reply ≢ answered))
      ⊎ ((n : ℕ) × (ps : List RecentPaymentResponse) × Asks param n
          × (r ≡ json_answer 200 ps)
          × IsNewest n db ps)

  is_given : (param : String) → (param == "") ≡ false → param ≢ ""
  is_given param h e = ground (arith, (eq_iff param "").1 e, h)

  limit_of-Asks : (param : String) {n : ℕ} → limit_of atoi param ≡ some n → Asks param n
  unfolding limit_of
  limit_of-Asks param {n} h = elim (Bool-cases (param == "")) [
    | inl default ↦
        let twenty : n ≡ 20 = ground (arith, default) in inl ((eq_iff param "").0 default, twenty)
    | inr given ↦
        let from_text : capped (atoi param) ≡ some n = ground (arith, given) in
        inr (is_given param given, capped-IsTaken (atoi param) from_text)
  ]

  limit_of-IsRefused :
      (param : String) → limit_of atoi param ≡ none → (param ≢ "") × IsRefused (atoi param)
  unfolding limit_of
  limit_of-IsRefused param h = elim (Bool-cases (param == "")) [
    | inl default ↦ absurd (ground (arith, default))
    | inr given ↦
        let from_text : capped (atoi param) ≡ none = ground (arith, given) in
        (is_given param given, capped-IsRefused (atoi param) from_text)
  ]

  recent_with-Ends :
      (param : String) (o : Option ℕ) (reply : Reply) (db : Db)
      → limit_of atoi param ≡ o
      → RecentEnds param reply db (recent_with o reply db)
  recent_with-Ends param none reply db e =
      let (given, refused) = limit_of-IsRefused param e in inl (refl, given, refused)
  recent_with-Ends param (some n) answered db e =
      let rows = map recent_row (reverse db.payments) in
      let (rest, all, full) = limited_rest n rows in
      inr (
        inr (
          n,
          limited n rows,
          limit_of-Asks param e,
          refl,
          record {
            bounded = length-limited n rows;
            rest = rest;
            all =
                subst (ShowsPayments (reverse db.payments)) (sym all)
                  (map-ShowsPayments (reverse db.payments));
            full = full;
          },
        ))
  recent_with-Ends param (some n) lost db e = inr (inl (refl, λ h. ground arith))
  recent_with-Ends param (some n) unacked db e = inr (inl (refl, λ h. ground arith))

  -- The answer is 400 without a list, and the request gives a limit that is no number or less than 1;
  -- or it is 500 without a list, and the connection has failed; or it is 200 with the newest payments,
  -- newest first: as many as the limit if there are as many, and all of them otherwise. The limit is 20
  -- where the request gives none, the number that it gives from 1 to 100, and 100 for a larger one.
  pub handle_get_recent_payments-bounds :
      (param : String) (reply : Reply) (db : Db)
      → RecentEnds param reply db (handle_get_recent_payments atoi param reply db)
  unfolding handle_get_recent_payments
  handle_get_recent_payments-bounds param reply db =
      recent_with-Ends param (limit_of atoi param) reply db refl
