-- ===== src/Consumers/Handled.antt =====
-- The retry loop of a worker, for any transaction that keeps the laws of `TakesFrom`.
use payment_rail_simulator.Prelude.{
  Bool, true, false, ◌≡◌, refl, sym, ap, subst, ◌∙◌, ◌⊎◌, inl, inr, List, [], ◌∷◌, ◌++◌,
  if◌then◌else◌,
}
use payment_rail_simulator.Payment.{PaymentState}
use payment_rail_simulator.Store.{Uuid, UuidText, Db, Error, Result, ok, err}
use payment_rail_simulator.Store.Tx.{Session}
use payment_rail_simulator.Store.Follows.{keeps-Follows, IsLost}
use payment_rail_simulator.Books.{All}
use payment_rail_simulator.Consumers.{Call, Attempt, attempt_session, is_handled, until_handled}
use payment_rail_simulator.Consumers.Laws.{IsPast, TakesFrom}

-- An attempt over a connection that answers every request.
abbrev pub calm_attempt : Uuid → Attempt
calm_attempt new_id = record { new_id = new_id; replies = [] }

if_second :
    (P : Db → Type 0) (b : Bool) (v : Db) (rest : Bool × Db)
    → P v
    → P rest.1
    → P (if b then (true, v) else rest).1
if_second P true v rest h k = h
if_second P false v rest h k = k

module _ {R : Type 0} {state : PaymentState} {call : Call R} {is_duplicate : Error → Bool}
    {Ready : Uuid → UuidText → Db → Type 0} {Done : Uuid → UuidText → Db → Db → Type 0}
    (laws : TakesFrom state call is_duplicate Ready Done) where
  -- The call has been done once, under some new id.
  abbrev pub DoneOnce : UuidText → Db → Db → Type 0
  DoneOnce id db v = (new_id : Uuid) × Done new_id id db v

  abbrev pub Once : UuidText → Db → Db → Type 0
  Once id db v = (v ≡ db) ⊎ DoneOnce id db v

  abbrev after : Attempt → UuidText → Db → Db
  after a id db = (call a.new_id id (attempt_session a db)).1.committed

  abbrev handled : Attempt → UuidText → Db → Bool
  handled a id db = is_handled call is_duplicate (call a.new_id id (attempt_session a db)).0

  abbrev loop : UuidText → List Attempt → Db → Bool × Db
  loop = until_handled call is_duplicate

  one_attempt : (id : UuidText) (a : Attempt) (db : Db) → Once id db (after a id db)
  one_attempt id a db =
      keeps-Follows (Once id db) (call a.new_id id) (attempt_session a db)
        (laws.follows a.new_id id) (inl refl)
        (elim (laws.attempt a.new_id id db db) [
          | inl same ↦ inl same
          | inr done ↦ inr (a.new_id, done)
        ])

  attempt_idle : (id : UuidText) (a : Attempt) (db : Db) → IsPast state id db → after a id db ≡ db
  attempt_idle id a db past =
      let (e, same, duplicate) = laws.early a.new_id id db db past in
      keeps-Follows (λ v. v ≡ db) (call a.new_id id) (attempt_session a db)
        (laws.follows a.new_id id) refl (ap (λ r. r.1.committed) same)

  loop_idle :
      (id : UuidText) (more : List Attempt) (db : Db)
      → IsPast state id db
      → (loop id more db).1 ≡ db
  unfolding until_handled
  loop_idle id [] db past = refl
  loop_idle id (a ∷ more) db past =
      let idle = attempt_idle id a db past in
      if_second (λ v. v ≡ db) (handled a id db) _ _ idle
        (subst (λ v. (loop id more v).1 ≡ db) (sym idle) (loop_idle id more db past))

  done_stays :
      (id : UuidText) (more : List Attempt) (db v : Db)
      → DoneOnce id db v
      → DoneOnce id db (loop id more v).1
  done_stays id more db v (new_id, done) = (
    new_id,
    subst (Done new_id id db) (sym (loop_idle id more v (laws.moves new_id id db v done))) done,
  )

  -- However many attempts are made and whatever replies are lost, the call is done once or not at all.
  pub loop-Once :
      (id : UuidText) (more : List Attempt) (db : Db)
      → Once id db (until_handled call is_duplicate id more db).1
  unfolding until_handled
  loop-Once id [] db = inl refl
  loop-Once id (a ∷ more) db =
      if_second (Once id db) (handled a id db) _ _ (one_attempt id a db)
        (elim (one_attempt id a db) [
          | inl same ↦ subst (λ v. Once id db (loop id more v).1) (sym same) (loop-Once id more db)
          | inr once ↦ inr (done_stays id more db (after a id db) once)
        ])

  lost-handled : (r : Result R) → IsLost r → is_handled call is_duplicate r ≡ false
  lost-handled (ok r) l = absurd l
  lost-handled (err e) l = ap is_duplicate l ∙ laws.retried

  past_once :
      (id : UuidText) (a : Uuid) (db : Db)
      → IsPast state id db
      → handled (calm_attempt a) id db ≡ true
  past_once id a db past =
      let (e, same, duplicate) = laws.early a id db db past in rw same duplicate

  if_true :
      (b : Bool) (v : Db) (rest : Bool × Db)
      → rest.0 ≡ true
      → (if b then (true, v) else rest).0 ≡ true
  if_true true v rest h = refl
  if_true false v rest h = h

  -- An answered attempt on a payment that is past the state ends the loop.
  past_ends :
      (id : UuidText) (before : List Attempt) (a : Uuid) (db : Db)
      → IsPast state id db
      → (loop id (before ++ calm_attempt a ∷ []) db).0 ≡ true
  unfolding until_handled
  past_ends id [] a db past = rw (past_once id a db past) refl
  past_ends id (x ∷ before) a db past = if_true (handled x id db) (after x id db) _ (
      subst (λ v. (loop id (before ++ calm_attempt a ∷ []) v).0 ≡ true)
        (sym (attempt_idle id x db past)) (past_ends id before a db past))

  -- How one attempt ends where the call is ready: it is done and answered, or it has to be tried again.
  abbrev Tried : UuidText → Attempt → Db → Type 0
  Tried id x db =
      ((handled x id db ≡ true) × DoneOnce id db (after x id db))
      ⊎ ((handled x id db ≡ false) × Once id db (after x id db))

  ready_attempt : (id : UuidText) (x : Attempt) (db : Db) → Ready x.new_id id db → Tried id x db
  ready_attempt id x db is_ready =
      let (r, v, same, done) = laws.ready x.new_id id db db is_ready in
      elim ((laws.follows x.new_id id).at (attempt_session x db)) [
        | inl agrees ↦ inl (
          ap (is_handled call is_duplicate) (agrees.result ∙ ap (λ q. q.0) same),
          (
            x.new_id,
            subst (Done x.new_id id db)
                (sym
                  (ap (λ (t : Session). t.committed) agrees.session ∙ ap (λ q. q.1.committed) same))
                done,
          ),
        )
        | inr (gone, kept) ↦ inr (lost-handled _ gone, one_attempt id x db)
      ]

  abbrev AllReady : UuidText → List Attempt → Db → Type 0
  AllReady id xs db = All (λ (x : Attempt). Ready x.new_id id db) xs

  -- As soon as one attempt is answered, the event is handled and the call done, once.
  abbrev Ends : UuidText → Db → Bool × Db → Type 0
  Ends id db r = (r.0 ≡ true) × DoneOnce id db r.1

  pub loop-Ends :
      (id : UuidText) (before : List Attempt) (a : Uuid) (db : Db)
      → AllReady id before db
      → Ready a id db
      → Ends id db (until_handled call is_duplicate id (before ++ calm_attempt a ∷ []) db)
  unfolding until_handled
  loop-Ends id [] a db all last =
      let (r, v, same, done) = laws.ready a id db db last in rw same (refl, (a, done))
  loop-Ends id (x ∷ before) a db (first, all) last = elim (ready_attempt id x db first) [
    | inl (sure, done) ↦ rw sure (refl, done)
    | inr (no_reply, inl same) ↦ rw (no_reply, same) (loop-Ends id before a db all last)
    | inr (no_reply, inr (n, done)) ↦ rw no_reply (
      past_ends id before a (after x id db) (laws.moves n id db _ done),
      done_stays id (before ++ calm_attempt a ∷ []) db (after x id db) (n, done),
    )
  ]
