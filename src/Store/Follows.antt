-- ===== src/Store/Follows.antt =====
-- A call over a connection that loses replies, beside the same call over one that answers always.
use payment_rail_simulator.Prelude.{
  String, Bool, true, false, ◌≡◌, refl, sym, ap, subst, ◌∙◌, ◌⊎◌, inl, inr, Option, none, some, [],
  if◌then◌else◌,
}
use payment_rail_simulator.Store.{Db, Error, unavailable, root, Result, ok, err}
use payment_rail_simulator.Store.Tx.{
  Reply, answered, lost, unacked, Session, first_reply, rest_replies, Tx, answer, start, finish,
  pure, fail, statement, query, wrap, wrap_result, require_row, or_error, guard, continue, ◌>>=◌,
  ◌>>◌, begin, commit,
}

-- The connection answers all requests from here on.
abbrev pub quiet : Session → Session
quiet s = record s { replies = [] }

-- The error of a request that got no answer, wrapped or not.
abbrev pub IsLost : {A : Type 0} → Result A → Type 0
IsLost (ok a) = ⊥
IsLost (err e) = root e ≡ unavailable

-- After a lost reply: nothing of the call is kept, or all that `q` keeps.
abbrev pub AllOrNone : {B : Type 0} → Db → Result B × Session → Result B × Session → Type 0
AllOrNone db r q = IsLost r.0 × ((r.1.committed ≡ db) ⊎ (r.1.committed ≡ q.1.committed))

module _ {A : Type 0} where
  pub record Agrees (r q : Result A × Session) : Type 0 where
    pub result : r.0 ≡ q.0
    pub session : quiet r.1 ≡ q.1

  -- A part of a call that does not commit.
  pub record Body (m : Tx A) : Type 0 where
    pub at : (s : Session) → Agrees (m s) (m (quiet s)) ⊎ IsLost (m s).0
    pub keeps : (s : Session) → (m s).1.committed ≡ s.committed

  -- A call with a commit: if a reply was lost, all of it is kept or nothing.
  pub record Follows (m : Tx A) : Type 0 where
    pub at : (s : Session) → Agrees (m s) (m (quiet s)) ⊎ AllOrNone s.committed (m s) (m (quiet s))

  pub Body-pure : (a : A) → Body (pure a)
  Body-pure a = record {
    at = λ s. inl (record { result = refl; session = refl });
    keeps = λ s. refl;
  }

  pub Body-fail : (e : Error) → Body (fail {A = A} e)
  Body-fail e = record {
    at = λ s. inl (record { result = refl; session = refl });
    keeps = λ s. refl;
  }

  pub Body-require_row : (o : Option A) → Body (require_row o)
  Body-require_row none = Body-fail _
  Body-require_row (some a) = Body-pure a

  answer_at :
      (r : Reply) (x : Result (A × Db)) (s : Session)
      → Agrees (answer r x s) (answer answered x (quiet s)) ⊎ IsLost (answer r x s).0
  unfolding root
  answer_at answered (ok (a, db)) s = inl (record { result = refl; session = refl })
  answer_at answered (err e) s = inl (record { result = refl; session = refl })
  answer_at _ x s = inr refl

  answer_keeps :
      (r : Reply) (x : Result (A × Db)) (s : Session) → (answer r x s).1.committed ≡ s.committed
  answer_keeps answered (ok (a, db)) s = refl
  answer_keeps answered (err e) s = refl
  answer_keeps _ x s = refl

  pub Body-statement : (f : Db → Result (A × Db)) → Body (statement f)
  unfolding statement
  Body-statement f = record {
    at = λ s.
        answer_at (first_reply s.replies) (f s.working)
          (record s { replies = rest_replies s.replies });
    keeps = λ s.
        answer_keeps (first_reply s.replies) (f s.working)
          (record s { replies = rest_replies s.replies });
  }

  IsLost-wrap_result : (message : String) (r : Result A) → IsLost r → IsLost (wrap_result message r)
  unfolding root
  IsLost-wrap_result message (ok a) h = h
  IsLost-wrap_result message (err e) h = h

  Agrees-wrap :
      (message : String) (m : Tx A) (s t : Session)
      → Agrees (m s) (m t)
      → Agrees (wrap message m s) (wrap message m t)
  unfolding wrap
  Agrees-wrap message m s t h = record {
    result = ap (wrap_result message) h.result;
    session = h.session;
  }

  pub Body-wrap : (message : String) (m : Tx A) → Body m → Body (wrap message m)
  unfolding wrap
  Body-wrap message m b = record {
    at = λ s. elim (b.at s) [
      | inl same ↦ inl (Agrees-wrap message m s (quiet s) same)
      | inr lost_reply ↦ inr (IsLost-wrap_result message (m s).0 lost_reply)
    ];
    keeps = b.keeps;
  }

  pub Body-if : (b : Bool) (m n : Tx A) → Body m → Body n → Body (if b then m else n)
  Body-if true m n hm hn = hm
  Body-if false m n hm hn = hn

  pub Follows-if : (b : Bool) (m n : Tx A) → Follows m → Follows n → Follows (if b then m else n)
  Follows-if true m n hm hn = hm
  Follows-if false m n hm hn = hn

  pub Follows-Body : (m : Tx A) → Body m → Follows m
  Follows-Body m b = record {
    at = λ s. elim (b.at s) [
      | inl same ↦ inl same
      | inr lost_reply ↦ inr (lost_reply, inl (b.keeps s))
    ];
  }

pub Body-or_error : {A : Type 0} (e : Error) (o : Option A) → Body (or_error e o)
Body-or_error e none = Body-fail e
Body-or_error e (some a) = Body-pure a

pub Body-guard : (b : Bool) (e : Error) → Body (guard b e)
Body-guard true e = Body-pure tt
Body-guard false e = Body-fail e

pub Body-query : {A : Type 0} (f : Db → Option A) → Body (query f)
unfolding query
Body-query f = Body-statement _

start_at :
    (r : Reply) (s : Session) → Agrees (start r s) (start answered (quiet s)) ⊎ IsLost (start r s).0
unfolding root
start_at answered s = inl (record { result = refl; session = refl })
start_at _ s = inr refl

start_keeps : (r : Reply) (s : Session) → (start r s).1.committed ≡ s.committed
start_keeps answered s = refl
start_keeps _ s = refl

pub Body-begin : Body begin
unfolding begin
Body-begin = record {
  at = λ s. start_at (first_reply s.replies) (record s { replies = rest_replies s.replies });
  keeps = λ s. start_keeps (first_reply s.replies) (record s { replies = rest_replies s.replies });
}

module _ {A B : Type 0} (f : A → Tx B) where
  IsLost-continue : (r : Result A) (s : Session) → IsLost r → IsLost (continue r f s).0
  IsLost-continue (ok a) s h = absurd h
  IsLost-continue (err e) s h = h

  committed-continue :
      (r : Result A) (s : Session) → IsLost r → (continue r f s).1.committed ≡ s.committed
  committed-continue (ok a) s h = absurd h
  committed-continue (err e) s h = refl

  module _ (bf : (a : A) → Body (f a)) where
    continue_at :
        (r : Result A) (s : Session)
        → Agrees (continue r f s) (continue r f (quiet s)) ⊎ IsLost (continue r f s).0
    continue_at (ok a) s = (bf a).at s
    continue_at (err e) s = inl (record { result = refl; session = refl })

    continue_keeps : (r : Result A) (s : Session) → (continue r f s).1.committed ≡ s.committed
    continue_keeps (ok a) s = (bf a).keeps s
    continue_keeps (err e) s = refl

    pub Body-bind : (m : Tx A) → Body m → Body (m >>= f)
    unfolding ◌>>=◌
    Body-bind m bm = record {
      at = λ s. elim (bm.at s) [
        | inl same ↦ rw (← same.result, ← same.session) (continue_at (m s).0 (m s).1)
        | inr lost_reply ↦ inr (IsLost-continue (m s).0 (m s).1 lost_reply)
      ];
      keeps = λ s. continue_keeps (m s).0 (m s).1 ∙ bm.keeps s;
    }

  module _ (bf : (a : A) → Follows (f a)) where
    continue_follows :
        {db : Db} (r : Result A) (s : Session)
        → s.committed ≡ db
        → Agrees (continue r f s) (continue r f (quiet s))
          ⊎ AllOrNone db (continue r f s) (continue r f (quiet s))
    continue_follows (ok a) s e = rw (← e) ((bf a).at s)
    continue_follows (err c) s e = inl (record { result = refl; session = refl })

    pub Follows-bind : (m : Tx A) → Body m → Follows (m >>= f)
    unfolding ◌>>=◌
    Follows-bind m bm = record {
      at = λ s. elim (bm.at s) [
        | inl same ↦
            rw (← same.result, ← same.session) (continue_follows (m s).0 (m s).1 (bm.keeps s))
        | inr lost_reply ↦ inr (
          IsLost-continue (m s).0 (m s).1 lost_reply,
          inl (committed-continue (m s).0 (m s).1 lost_reply ∙ bm.keeps s),
        )
      ];
    }

pub Body-seq : {A B : Type 0} (m : Tx A) (k : Tx B) → Body m → Body k → Body (m >> k)
unfolding ◌>>◌
Body-seq m k bm bk = Body-bind (λ _. k) (λ _. bk) m bm

pub Follows-seq : {A B : Type 0} (m : Tx A) (k : Tx B) → Body m → Follows k → Follows (m >> k)
unfolding ◌>>◌
Follows-seq m k bm bk = Follows-bind (λ _. k) (λ _. bk) m bm

-- `if err := dbTx.Commit(ctx); err != nil { return …, fmt.Errorf(…) }; return a, nil`
finish_follows :
    {A : Type 0} (message : String) (a : A) (r : Reply) (s : Session)
    → let call = λ (x : Reply) (t : Session).
      continue (wrap_result message (finish x t).0) (λ _. pure a) (finish x t).1 in
      Agrees (call r s) (call answered (quiet s))
      ⊎ AllOrNone s.committed (call r s) (call answered (quiet s))
unfolding root
finish_follows message a answered s = inl (record { result = refl; session = refl })
finish_follows message a lost s = inr (refl, inl refl)
finish_follows message a unacked s = inr (refl, inr refl)

pub Follows-commit :
    {A : Type 0} (message : String) (a : A) → Follows (wrap message commit >> pure a)
unfolding ◌>>◌ wrap commit
Follows-commit message a = record {
  at = λ s.
      finish_follows message a (first_reply s.replies)
        (record s { replies = rest_replies s.replies });
}

plain_finish_follows :
    {A : Type 0} (a : A) (r : Reply) (s : Session)
    → let call =
        λ (x : Reply) (t : Session). continue (finish x t).0 (λ _. pure a) (finish x t).1 in
      Agrees (call r s) (call answered (quiet s))
      ⊎ AllOrNone s.committed (call r s) (call answered (quiet s))
unfolding root
plain_finish_follows a answered s = inl (record { result = refl; session = refl })
plain_finish_follows a lost s = inr (refl, inl refl)
plain_finish_follows a unacked s = inr (refl, inr refl)

pub Follows-plain_commit : {A : Type 0} (a : A) → Follows (commit >> pure a)
unfolding ◌>>◌ commit
Follows-plain_commit a = record {
  at = λ s.
      plain_finish_follows a (first_reply s.replies)
        (record s { replies = rest_replies s.replies });
}

pub ruleset body_rules = (
  Body-pure, Body-fail, Body-require_row, Body-or_error, Body-guard, Body-statement, Body-query,
  Body-wrap, Body-if, Body-bind, Body-seq, Body-begin,
)

pub ruleset follows_rules = (
  body_rules, Follows-if, Follows-bind, Follows-seq, Follows-commit, Follows-plain_commit,
  Follows-Body,
)

-- What the tables keep under a call over a connection that answers, they keep over any.
pub keeps-Follows :
    {A : Type 0} (P : Db → Type 0) (m : Tx A) (s : Session)
    → Follows m
    → P s.committed
    → P (m (quiet s)).1.committed
    → P (m s).1.committed
keeps-Follows P m s f before after = elim (f.at s) [
  | inl same ↦ subst P (sym (ap (λ (t : Session). t.committed) same.session)) after
  | inr (lost_reply, inl none_kept) ↦ subst P (sym none_kept) before
  | inr (lost_reply, inr all_kept) ↦ subst P (sym all_kept) after
]
