-- ===== src/Effects/Submits.antt =====
-- The effect of the POST half of handlePayment, whatever replies are lost.
use payment_rail_simulator.Prelude.{
  Bool, ◌≡◌, ◌⊎◌, [], ◌∷◌, ◌++◌, refl, Option, none, some, inl, inr, String, nat_eq,
}
use payment_rail_simulator.Prelude.Int.{ℤ}
use payment_rail_simulator.Prelude.Table.{update-append}
use payment_rail_simulator.Payment.{received, validated, rejected}
use payment_rail_simulator.Store.{Uuid, Payment, Db, payment_key}
use payment_rail_simulator.Store.Tx.{Session}
use payment_rail_simulator.Store.Calm.{calm, committed-Failed}
use payment_rail_simulator.Store.Follows.{keeps-Follows}
use payment_rail_simulator.Transition.{with_status}
use payment_rail_simulator.Transition.Steps.{advanced}
use payment_rail_simulator.Message.{Document}
use payment_rail_simulator.Validate.{validate_payment}
use payment_rail_simulator.Intake.{submit_payment, validation_event, validation_reason}
use payment_rail_simulator.Intake.Outcomes.{
  final_state, validation_moves, row, CanStore, find-is_taken, inserted_tables, judged_tables,
  announced, stored_tables, submit_payment-Follows,
}
use payment_rail_simulator.Intake.Ends.{submit_payment_ends}
use payment_rail_simulator.Effects.{Logs, nothing, also, Stored, Effect, stays, stores}

final_state_verdict : (v : Option String) → (final_state v ≡ validated) ⊎ (final_state v ≡ rejected)
final_state_verdict none = inl refl
final_state_verdict (some reason) = inr refl

module _ {F : Type 0} (le_zero : F → Bool) (to_numeric : F → Option ℤ) (id event_id : Uuid)
    (doc : Document F) where
  -- The row as it is committed.
  abbrev pub stored_row : ℤ → Payment
  stored_row amount =
      with_status (final_state (validate_payment le_zero doc))
        (validation_reason (validate_payment le_zero doc))
        (row le_zero to_numeric id event_id doc amount)

  module _ (amount : ℤ) (c : Db) (k : CanStore le_zero to_numeric id event_id doc amount c) where
    abbrev judged : Db
    judged = judged_tables le_zero to_numeric id event_id doc amount c

    judged_payments : judged.payments ≡ c.payments ++ stored_row amount ∷ []
    unfolding judged_tables inserted_tables advanced
    judged_payments =
        update-append payment_key id
          (with_status (final_state (validate_payment le_zero doc))
            (validation_reason (validate_payment le_zero doc)))
          c.payments (row le_zero to_numeric id event_id doc amount)
          (find-is_taken id _ c.payments k.free) refl

    judged-Logs :
        Logs id received c.transition_log
          (final_state (validate_payment le_zero doc))
          judged.transition_log
    unfolding judged_tables inserted_tables advanced
    judged-Logs =
        also (validation_event (validate_payment le_zero doc))
          (validation_reason (validate_payment le_zero doc)) nothing
          (validation_moves (validate_payment le_zero doc)) refl

    announced-Stored :
        (v : Option String)
        → validate_payment le_zero doc ≡ v
        → Stored (stored_row amount) c (announced le_zero to_numeric id event_id doc v judged)
    unfolding judged_tables inserted_tables advanced
    announced-Stored none e = record {
      free = k.free;
      verdict = final_state_verdict (validate_payment le_zero doc);
      payments = judged_payments;
      log = judged-Logs;
      ledger = (refl, refl);
      outbox = rw e (_, refl, refl, refl);
    }
    announced-Stored (some reason) e = record {
      free = k.free;
      verdict = final_state_verdict (validate_payment le_zero doc);
      payments = judged_payments;
      log = judged-Logs;
      ledger = (refl, refl);
      outbox = rw e refl;
    }

    pub stored_tables-Stored :
        Stored (stored_row amount) c (stored_tables le_zero to_numeric id event_id doc amount c)
    unfolding stored_tables
    stored_tables-Stored = announced-Stored (validate_payment le_zero doc) refl

  calm-submit_payment-Effect :
      (c w : Db)
      → Effect c (submit_payment le_zero to_numeric id event_id doc (calm c w)).1.committed
  calm-submit_payment-Effect c w =
      elim (submit_payment_ends le_zero to_numeric id event_id doc c w) [
        | inl stopped ↦ stays (
            committed-Failed c (submit_payment le_zero to_numeric id event_id doc (calm c w))
              stopped)
        | inr (amount, k, e) ↦ rw e (stores (stored_row amount) (stored_tables-Stored amount c k))
      ]

  -- Over any connection, the committed tables are those before the call, or have one new payment.
  pub submit_payment-Effect :
      (s : Session)
      → Effect s.committed (submit_payment le_zero to_numeric id event_id doc s).1.committed
  submit_payment-Effect s =
      keeps-Follows (Effect s.committed) (submit_payment le_zero to_numeric id event_id doc) s
        (submit_payment-Follows le_zero to_numeric id event_id doc) (stays refl)
        (calm-submit_payment-Effect s.committed s.working)
