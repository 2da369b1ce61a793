-- ===== src/Store/Calm.antt =====
-- Calls over a connection that answers every request, step by step.
use payment_rail_simulator.Prelude.{String, ◌≡◌, []}
use payment_rail_simulator.Store.{Db, Result, ok, err}
use payment_rail_simulator.Store.Tx.{Session, Tx, wrap_result, continue}

abbrev pub calm : Db → Db → Session
calm c w = record { committed = c; working = w; replies = [] }

-- The call has ended in an error and has committed nothing.
abbrev pub Failed : {A : Type 0} → Db → Result A × Session → Type 0
Failed c r = elim r.0 [ ok a ↦ ⊥ | err e ↦ r.1.committed ≡ c ]

module _ {A B : Type 0} (c : Db) where
  pub Failed-continue :
      (r : Result A × Session) (f : A → Tx B) → Failed c r → Failed c (continue r.0 f r.1)
  Failed-continue (ok a, s) f h = absurd h
  Failed-continue (err e, s) f h = h

module _ {A : Type 0} (c : Db) where
  pub Failed-wrap :
      (message : String) (r : Result A × Session)
      → Failed c r
      → Failed c (wrap_result message r.0, r.1)
  Failed-wrap message (ok a, s) h = absurd h
  Failed-wrap message (err e, s) h = h

pub committed-Failed :
    {A : Type 0} (c : Db) (r : Result A × Session) → Failed c r → r.1.committed ≡ c
committed-Failed c (ok a, s) h = absurd h
committed-Failed c (err e, s) h = h
