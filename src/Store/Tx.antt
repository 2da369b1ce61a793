-- ===== src/Store/Tx.antt =====
-- `pgx.Tx` and the pool: a call of the program runs statements over one connection, any of which
-- may go unanswered, and sees its own writes until it commits. A call that returns before it has
-- committed leaves the tables as they were: the deferred `Rollback`.
use payment_rail_simulator.Prelude.{Bool, true, false, String, Option, none, some, List, [], ◌∷◌}
use payment_rail_simulator.Store.{
  Uuid, UuidText, Db, Error, no_rows, unavailable, invalid_text, wrapped, Result, ok, err,
}

-- What the connection does with one request. `unacked`: the server has done it, and the answer is
-- lost.
pub data Reply : Type 0 where
  answered lost unacked : Reply

-- `working` is what the open transaction sees. Beyond the end of `replies` all are answered.
pub record Session : Type 0 where
  pub committed : Db
  pub working : Db
  pub replies : List Reply

abbrev pub Tx : Type 0 → Type 0
Tx A = Session → Result A × Session

abbrev pub first_reply : List Reply → Reply
first_reply [] = answered
first_reply (r ∷ rs) = r

abbrev pub rest_replies : List Reply → List Reply
rest_replies [] = []
rest_replies (r ∷ rs) = rs

module _ {A : Type 0} where
  abbrev pub pure : A → Tx A
  pure a s = (ok a, s)

  abbrev pub fail : Error → Tx A
  fail e s = (err e, s)

  abbrev pub answer : Reply → Result (A × Db) → Session → Result A × Session
  answer answered (ok (a, db)) s = (ok a, record s { working = db })
  answer answered (err e) s = (err e, s)
  answer _ _ s = (err unavailable, s)

  -- A statement inside the transaction.
  unfoldable pub statement : (Db → Result (A × Db)) → Tx A
  statement f s =
      answer (first_reply s.replies) (f s.working) (record s { replies = rest_replies s.replies })

  -- `if err != nil { return … err }` after a `Scan`, `ErrNoRows` included.
  abbrev pub require_row : Option A → Tx A
  require_row none = fail no_rows
  require_row (some a) = pure a

  abbrev pub wrap_result : String → Result A → Result A
  wrap_result message (ok a) = ok a
  wrap_result message (err e) = err (wrapped message e)

  -- `fmt.Errorf("message: %w", err)` around a call's error.
  unfoldable pub wrap : String → Tx A → Tx A
  wrap message m s = let (r, s') = m s in (wrap_result message r, s')

-- `QueryRow(…).Scan(…)` of a SELECT; `none` is `pgx.ErrNoRows`.
unfoldable pub query : {A : Type 0} → (Db → Option A) → Tx (Option A)
unfolding statement
query f = statement (λ db. ok (f db, db))

module _ {A B : Type 0} where
  abbrev pub continue : Result A → (A → Tx B) → Tx B
  continue (ok a) f s = f a s
  continue (err e) f s = (err e, s)

  infixl 5 ◌>>=◌ ◌>>◌
  unfoldable pub ◌>>=◌ : Tx A → (A → Tx B) → Tx B
  ◌>>=◌ m f s = let (r, s') = m s in continue r f s'

  unfoldable pub ◌>>◌ : Tx A → Tx B → Tx B
  unfolding ◌>>=◌
  m >> k = m >>= λ _. k

-- `db.Begin(ctx)`
abbrev pub start : Reply → Session → Result (Unit {0}) × Session
start answered s = (ok tt, record s { working = s.committed })
start _ s = (err unavailable, s)

unfoldable pub begin : Tx (Unit {0})
begin s = start (first_reply s.replies) (record s { replies = rest_replies s.replies })

-- `dbTx.Commit(ctx)`
abbrev pub finish : Reply → Session → Result (Unit {0}) × Session
finish answered s = (ok tt, record s { committed = s.working })
finish lost s = (err unavailable, s)
finish unacked s = (err unavailable, record s { committed = s.working })

unfoldable pub commit : Tx (Unit {0})
commit s = finish (first_reply s.replies) (record s { replies = rest_replies s.replies })

-- A check of the program that returns an error unless it passes.
abbrev pub guard : Bool → Error → Tx (Unit {0})
guard true e = pure tt
guard false e = fail e

-- `if errors.Is(err, pgx.ErrNoRows) { return …, ErrPaymentNotFound }`
abbrev pub or_error : {A : Type 0} → Error → Option A → Tx A
or_error e none = fail e
or_error e (some a) = pure a

-- SELECT … FROM payments WHERE id = $1::uuid FOR UPDATE: the cast may be refused.
abbrev pub select_by_text :
    {A : Type 0} → (Uuid → Db → Option A) → UuidText → Db → Result (Option A × Db)
select_by_text f none db = err invalid_text
select_by_text f (some id) db = ok (f id db, db)
