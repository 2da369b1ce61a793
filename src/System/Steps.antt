-- ===== src/System/Steps.antt =====
-- A call of the system as an effect, and properties that every effect keeps.
use payment_rail_simulator.Prelude.{Bool, Option, subst}
use payment_rail_simulator.Prelude.Int.{ℤ}
use payment_rail_simulator.Store.{Db}
use payment_rail_simulator.Effects.{Effect}
use payment_rail_simulator.Effects.Calls.{
  clear_payment-Effect, respond_to_payment-Effect, settle_payment-Effect,
}
use payment_rail_simulator.Effects.Submits.{submit_payment-Effect}
use payment_rail_simulator.System.{Step, Reach, submits, clears, responds, settles, here, next}

module _ {F : Type 0} (le_zero : F → Bool) (to_numeric : F → Option ℤ) where
  pub Step-Effect : {t u : Db} → Step le_zero to_numeric t u → Effect t u
  Step-Effect (submits id event_id doc s e) =
      subst (Effect s.committed) e (submit_payment-Effect le_zero to_numeric id event_id doc s)
  Step-Effect (clears event_id id s e) =
      subst (Effect s.committed) e (clear_payment-Effect event_id id s)
  Step-Effect (responds event_id id yes_or_no reason s e) =
      subst (Effect s.committed) e (respond_to_payment-Effect event_id id yes_or_no reason s)
  Step-Effect (settles ledger_id id s e) =
      subst (Effect s.committed) e (settle_payment-Effect ledger_id id s)

  pub Reach-keeps :
      (P : Db → Type 0)
      → ((c v : Db) → Effect c v → P c → P v)
      → {t u : Db} → Reach le_zero to_numeric t u
      → P t
      → P u
  Reach-keeps P keeps here h = h
  Reach-keeps P keeps (next {t = t} {u = u} r st) h =
      keeps t u (Step-Effect st) (Reach-keeps P keeps r h)
