-- ===== src/Books/Stores.antt =====
-- The POST half of handlePayment against the invariant of Books.
use payment_rail_simulator.Prelude.{
  String, Bool, true, false, ◌≡◌, refl, ap, ◌∙◌, nat_eq, Option, none, some, inl, inr, List, [],
  ◌∷◌, ◌++◌, arith,
}
use payment_rail_simulator.Prelude.Int.{ℤ, pos, pos_part, neg_part, ◌+ℤ◌, ◌≤ℤ◌, int_laws}
use payment_rail_simulator.Prelude.Table.{update-append, sum_by-append}
use payment_rail_simulator.Store.{Uuid, Payment, Account, Db, payment_key}
use payment_rail_simulator.Store.Tx.{Session}
use payment_rail_simulator.Store.Calm.{calm, committed-Failed}
use payment_rail_simulator.Store.Follows.{keeps-Follows}
use payment_rail_simulator.Transition.{with_status}
use payment_rail_simulator.Transition.Steps.{advanced}
use payment_rail_simulator.Message.{Document}
use payment_rail_simulator.Validate.{validate_payment}
use payment_rail_simulator.Validate.Rules.{validate_payment_exact}
use payment_rail_simulator.Intake.{submit_payment, validation_reason}
use payment_rail_simulator.Intake.Outcomes.{
  final_state, row, CanStore, find-is_taken, inserted_tables, judged_tables, announced,
  stored_tables, submit_payment-Follows,
}
use payment_rail_simulator.Intake.Ends.{submit_payment_ends}
use payment_rail_simulator.Books.{
  in_flight, is_open, is_resting, held_for, held, All, RowIsSound, Backs, IsBacked,
}

All-append :
    (P : Payment → Type 0) (ps : List Payment) (p : Payment) → All P ps → P p → All P (ps ++ p ∷ [])
All-append P [] p h new = (new, tt)
All-append P (x ∷ xs) p h new = (h.0, All-append P xs p h.1 new)

plus_zero : (s h : ℤ) → s ≡ h +ℤ pos 0 → h ≡ s
plus_zero s h e = omega (int_laws, ap pos_part e, ap neg_part e)

module _ (table : List Account) (ps : List Payment) (p : Payment)
    (still : in_flight p.status ≡ false) where
  held-append : (k : String) → held k ps ≡ held k (ps ++ p ∷ [])
  unfolding held
  held-append k =
      plus_zero (held k (ps ++ p ∷ [])) (held k ps) (sum_by-append (held_for k) ps p ∙ rw still)

  Backs-append : RowIsSound table p → Backs table ps → Backs table (ps ++ p ∷ [])
  Backs-append sound b = record {
    solvent = b.solvent;
    reserves = λ k a e. b.reserves k a e ∙ held-append k;
    rows = All-append (RowIsSound table) ps p b.rows sound;
  }

module _ {F : Type 0} (le_zero : F → Bool) (to_numeric : F → Option ℤ)
    (rounds : (v : F) (c : ℤ) → le_zero v ≡ false → to_numeric v ≡ some c → pos 0 ≤ℤ c)
    (id event_id : Uuid) (doc : Document F) where
  judged_row : ℤ → Payment
  judged_row amount =
      with_status (final_state (validate_payment le_zero doc))
        (validation_reason (validate_payment le_zero doc))
        (row le_zero to_numeric id event_id doc amount)

  judged_row-IsSound :
      (amount : ℤ) (c : Db) (v : Option String)
      → validate_payment le_zero doc ≡ v
      → CanStore le_zero to_numeric id event_id doc amount c
      → (is_resting (final_state v) ≡ true)
        × (in_flight (final_state v) ≡ false)
        × (is_open (final_state v) ≡ true → pos 0 ≤ℤ amount)
  judged_row-IsSound amount c none e k = (
    refl,
    refl,
    λ _. rounds _ amount ((validate_payment_exact le_zero doc).0 e).positive k.converts,
  )
  judged_row-IsSound amount c (some reason) e k = (refl, refl, λ o. cc)

  payments-announced :
      (v : Option String) (db : Db)
      → ((announced le_zero to_numeric id event_id doc v db).payments ≡ db.payments)
        × ((announced le_zero to_numeric id event_id doc v db).accounts ≡ db.accounts)
  payments-announced none db = (refl, refl)
  payments-announced (some reason) db = (refl, refl)

  module _ (amount : ℤ) (c : Db) (k : CanStore le_zero to_numeric id event_id doc amount c) where
    judged : Db
    judged = judged_tables le_zero to_numeric id event_id doc amount c

    judged_payments : judged.payments ≡ c.payments ++ judged_row amount ∷ []
    unfolding judged judged_row judged_tables inserted_tables advanced
    judged_payments =
        update-append payment_key id
          (with_status (final_state (validate_payment le_zero doc))
            (validation_reason (validate_payment le_zero doc)))
          c.payments (row le_zero to_numeric id event_id doc amount)
          (find-is_taken id _ c.payments k.free) refl

    judged_accounts : judged.accounts ≡ c.accounts
    unfolding judged judged_tables inserted_tables advanced
    judged_accounts = refl

    judged_Backs : IsBacked c → Backs c.accounts (c.payments ++ judged_row amount ∷ [])
    unfolding judged_row
    judged_Backs b =
        let (resting, still, nonneg) =
          judged_row-IsSound amount c (validate_payment le_zero doc) refl k in
        Backs-append c.accounts c.payments (judged_row amount) still
          (record {
            resting = resting;
            nonneg = nonneg;
            debtor = λ flying. absurd (ground (arith, still, flying));
          })
          b

    stored_tables-IsBacked :
        IsBacked c → IsBacked (stored_tables le_zero to_numeric id event_id doc amount c)
    unfolding stored_tables judged
    stored_tables-IsBacked b =
        rw
          (
            (payments-announced (validate_payment le_zero doc) judged).0,
            (payments-announced (validate_payment le_zero doc) judged).1,
            judged_payments,
            judged_accounts,
          )
          (judged_Backs b)

  calm-submit_payment-IsBacked :
      (c w : Db)
      → IsBacked c
      → IsBacked (submit_payment le_zero to_numeric id event_id doc (calm c w)).1.committed
  calm-submit_payment-IsBacked c w b =
      elim (submit_payment_ends le_zero to_numeric id event_id doc c w) [
        | inl stopped ↦
            rw
              (committed-Failed c (submit_payment le_zero to_numeric id event_id doc (calm c w))
                stopped)
              b
        | inr (amount, k, e) ↦ rw e (stored_tables-IsBacked amount c k b)
      ]

  -- Whatever replies are lost, the POST half of handlePayment leaves the accounts backed if they were:
  -- provided that a value which is not `<= 0` is not negative when Postgres has rounded it to cents.
  pub submit_payment-IsBacked :
      (s : Session)
      → IsBacked s.committed
      → IsBacked (submit_payment le_zero to_numeric id event_id doc s).1.committed
  submit_payment-IsBacked s b =
      keeps-Follows IsBacked (submit_payment le_zero to_numeric id event_id doc) s
        (submit_payment-Follows le_zero to_numeric id event_id doc) b
        (calm-submit_payment-IsBacked s.committed s.working b)
