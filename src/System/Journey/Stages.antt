-- ===== src/System/Journey/Stages.antt =====
-- The tables between the calls that a payment goes through.
use payment_rail_simulator.Prelude.{
  Bool, true, false, ◌≡◌, refl, Option, none, some, List, [], ◌∷◌, ◌++◌, ◌==◌, nat_eq, string_eq,
  arith,
}
use payment_rail_simulator.Prelude.Int.{ℤ, pos, ◌≤ℤ◌, leb_ℤ}
use payment_rail_simulator.Prelude.Table.{update, find-append_new}
use payment_rail_simulator.Payment.{validated, clearing, awaiting_response, accepted}
use payment_rail_simulator.Store.{
  Uuid, Payment, Account, OutboxEvent, Db, payment_key, account_key, find_payment, find_account,
}
use payment_rail_simulator.Message.{Document}
use payment_rail_simulator.Validate.{validate_payment}
use payment_rail_simulator.Transition.{with_status}
use payment_rail_simulator.Transition.Steps.{advanced, find_payment-update}
use payment_rail_simulator.Accounts.{
  is_usable, can_reserve, reserve, take_reserved, deposit, fits_row,
}
use payment_rail_simulator.Outbox.{has_event}
use payment_rail_simulator.Intake.Outcomes.{
  CanStore, find-is_taken, stored_tables, judged_tables, inserted_tables,
}
use payment_rail_simulator.Clearing.Outcomes.{
  CanClear, cleared_tables, passed_tables, reserved_tables, entered_tables, passed_row,
}
use payment_rail_simulator.Receiver.Outcomes.{accepted_tables, agreed_tables}
use payment_rail_simulator.Effects.{SameLedger}
use payment_rail_simulator.Effects.Submits.{stored_row, stored_tables-Stored}

has_event-append :
    (e : Uuid) (es : List OutboxEvent) (x : OutboxEvent)
    → has_event e es ≡ false
    → (x.id == e) ≡ false
    → has_event e (es ++ x ∷ []) ≡ false
unfolding has_event
has_event-append e [] x h other = ground arith
has_event-append e (y ∷ ys) x h other = ground (arith, has_event-append e ys x)

-- What is known of payment `p` and the tables between two calls.
pub record Stage (c : Db) (p : Payment) (accounts : List Account) (db : Db) : Type 0 where
  pub here : find_payment p.id db ≡ some p
  pub funds : db.accounts ≡ accounts
  pub ledger : SameLedger c db

-- An account that covers an amount, and one that can receive it.
pub record CanPay (c : Db) (p : Payment) : Type 0 where
  pub positive : leb_ℤ p.amount (pos 0) ≡ false
  pub debtor : Account
  pub debtor_row : find_account p.debtor_account c ≡ some debtor
  pub debtor_covers : can_reserve p.debtor_agent p.currency p.amount debtor ≡ true
  pub debtor_solvent : pos 0 ≤ℤ debtor.reserved_balance
  pub debtor_fits : fits_row (reserve p.amount debtor) ≡ true
  pub debtor_pays : fits_row (take_reserved p.amount (reserve p.amount debtor)) ≡ true
  pub creditor : Account
  pub creditor_row : find_account p.creditor_account c ≡ some creditor
  pub creditor_usable : is_usable p.creditor_agent p.currency creditor ≡ true
  pub creditor_fits : fits_row (deposit p.amount creditor) ≡ true
  pub two_accounts : (p.debtor_account == p.creditor_account) ≡ false

module _ {F : Type 0} (le_zero : F → Bool) (to_numeric : F → Option ℤ) (id e : Uuid)
    (doc : Document F) (amount : ℤ) (c : Db) (valid : validate_payment le_zero doc ≡ none)
    (k : CanStore le_zero to_numeric id e doc amount c) where
  abbrev sent : Payment
  sent = stored_row le_zero to_numeric id e doc amount

  abbrev after_submit : Db
  after_submit = stored_tables le_zero to_numeric id e doc amount c

  pub sent_stands : sent.status ≡ validated
  sent_stands = rw valid refl

  pub submit-Stage : Stage c sent c.accounts after_submit
  unfolding stored_tables judged_tables inserted_tables advanced
  submit-Stage = record {
    here = rw (stored_tables-Stored le_zero to_numeric id e doc amount c k).payments (
        find-append_new payment_key id c.payments sent
          (find-is_taken id sent.uetr c.payments k.free) refl);
    funds = rw valid refl;
    ledger = rw valid (refl, refl);
  }

  pub submit-has_event :
      (x : Uuid)
      → has_event x c.outbox_events ≡ false
      → (e == x) ≡ false
      → has_event x after_submit.outbox_events ≡ false
  unfolding stored_tables judged_tables inserted_tables advanced
  submit-has_event x free other = rw valid (has_event-append x c.outbox_events _ free other)

-- Clearing of payment `p`, from tables with the accounts of `c`.
module _ (c : Db) (p : Payment) (pays : CanPay c p) (db : Db) (at : Stage c p c.accounts db)
    (e : Uuid) where
  abbrev reserved : List Account
  reserved = update account_key p.debtor_account (reserve p.amount) c.accounts

  abbrev cleared_payment : Payment
  cleared_payment = with_status awaiting_response "" (with_status clearing "" p)

  pub can_clear : p.status ≡ validated → has_event e db.outbox_events ≡ false → CanClear p db e
  can_clear stands unused = record {
    checked = record {
      row = at.here;
      stands_validated = stands;
      creditor_test = rw (at.funds, pays.creditor_row) pays.creditor_usable;
    };
    debtor = pays.debtor;
    debtor_row = rw at.funds pays.debtor_row;
    debtor_covers = pays.debtor_covers;
    debtor_fits = pays.debtor_fits;
    unused = unused;
  }

  pub clear-Stage : Stage c cleared_payment reserved (cleared_tables p db e)
  unfolding cleared_tables passed_tables reserved_tables entered_tables advanced
  clear-Stage = record {
    here = passed_row p db at.here;
    funds = rw at.funds refl;
    ledger = at.ledger;
  }

  pub clear-has_event :
      (x : Uuid)
      → has_event x db.outbox_events ≡ false
      → (e == x) ≡ false
      → has_event x (cleared_tables p db e).outbox_events ≡ false
  unfolding cleared_tables
  clear-has_event x free other = has_event-append x db.outbox_events _ free other

-- The acceptance, which touches no account.
module _ (c : Db) (p : Payment) (accounts : List Account) (db : Db) (at : Stage c p accounts db)
    (e : Uuid) where
  pub accept-Stage : Stage c (with_status accepted "" p) accounts (accepted_tables p db e)
  unfolding accepted_tables agreed_tables advanced
  accept-Stage = record {
    here = find_payment-update p.id accepted "" db at.here;
    funds = at.funds;
    ledger = at.ledger;
  }
