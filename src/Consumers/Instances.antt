-- ===== src/Consumers/Instances.antt =====
-- The three transactions as the workers call them.
use payment_rail_simulator.Prelude.{
  String, true, false, ◌≡◌, ◌≢◌, refl, ap, ◌⊎◌, inl, inr, some, arith, nat_eq,
}
use payment_rail_simulator.Payment.{
  PaymentState, validated, awaiting_response, accepted, failed, settled,
}
use payment_rail_simulator.Store.{
  Uuid, UuidText, Payment, Db, root, ok, find_account, payment_not_validated,
  payment_not_awaiting_response, payment_not_accepted,
}
use payment_rail_simulator.Store.Calm.{calm, committed-Failed}
use payment_rail_simulator.Transition.{with_status}
use payment_rail_simulator.Transition.Steps.{find_payment-update}
use payment_rail_simulator.Outbox.{has_event}
use payment_rail_simulator.Clearing.{clear_payment, ClearPaymentResponse}
use payment_rail_simulator.Clearing.Outcomes.{
  no_creditor, no_funds, can_reserve_row, IsChecked, CanClear, refused_tables, cleared_tables,
  clear_payment-no_creditor, clear_payment-no_funds, clear_payment_at,
}
use payment_rail_simulator.Clearing.Ends.{clear_payment_ends, clear_payment_early}
use payment_rail_simulator.Clearing.Faults.{clear_payment-Follows}
use payment_rail_simulator.Receiver.{respond_to_payment}
use payment_rail_simulator.Receiver.Outcomes.{
  IsAwaiting, accepted_tables, acceptance, respond_to_payment_enters, accept_payment_at,
}
use payment_rail_simulator.Receiver.Ends.{respond_to_payment_ends, respond_early}
use payment_rail_simulator.Receiver.Faults.{respond_to_payment-Follows}
use payment_rail_simulator.Settlement.{settle_payment}
use payment_rail_simulator.Settlement.Outcomes.{
  CanSettle, settled_tables, settlement, settle_payment_at, settle_payment_early,
}
use payment_rail_simulator.Settlement.Ends.{settle_payment_ends}
use payment_rail_simulator.Settlement.Faults.{settle_payment-Follows}
use payment_rail_simulator.Effects.{Turned}
use payment_rail_simulator.Effects.Calls.{
  refused-Turned, cleared-Turned, accepted-Turned, settled_tables-Settled,
}
use payment_rail_simulator.Consumers.{
  is_not_validated, is_not_awaiting, is_not_accepted, always_accepts,
}
use payment_rail_simulator.Consumers.Laws.{IsPast, TakesFrom}

Turned-IsPast :
    (p : Payment) (before next state : PaymentState) (reason : String) (c v : Db)
    → Turned p before next reason c v
    → next ≢ state
    → IsPast state (some p.id) v
Turned-IsPast p before next state reason c v t ne = record {
  key = p.id;
  named = refl;
  payment = with_status next reason p;
  row = rw t.payments (find_payment-update p.id next reason c t.row);
  elsewhere = ne;
}

-- How the clearing of payment `p` ends.
pub data ClearsTo (p : Payment) (c : Db) (event_id : Uuid) : Db → Type 0 where
  no_account : IsChecked p c false → ClearsTo p c event_id (refused_tables p c no_creditor)
  too_poor :
      IsChecked p c true
      → can_reserve_row p (find_account p.debtor_account c) ≡ false
      → ClearsTo p c event_id (refused_tables p c no_funds)
  clears : CanClear p c event_id → ClearsTo p c event_id (cleared_tables p c event_id)

abbrev pub Cleared : Uuid → UuidText → Db → Db → Type 0
Cleared event_id id c v = (p : Payment) × (id ≡ some p.id) × ClearsTo p c event_id v

abbrev pub CanBeCleared : Uuid → UuidText → Db → Type 0
CanBeCleared event_id id c = (v : Db) × Cleared event_id id c v

ClearsTo-IsPast :
    (p : Payment) (c : Db) (event_id : Uuid) (v : Db)
    → ClearsTo p c event_id v
    → IsPast validated (some p.id) v
ClearsTo-IsPast p c event_id v (no_account k) =
    Turned-IsPast p validated failed validated no_creditor c v (refused-Turned p c no_creditor k)
      (ground arith)
ClearsTo-IsPast p c event_id v (too_poor k short) =
    Turned-IsPast p validated failed validated no_funds c v (refused-Turned p c no_funds k)
      (ground arith)
ClearsTo-IsPast p c event_id v (clears k) =
    Turned-IsPast p validated awaiting_response validated "" c v (cleared-Turned p c event_id k)
      (ground arith)

clear_payment-ClearsTo :
    (p : Payment) (c w : Db) (event_id : Uuid) (v : Db)
    → ClearsTo p c event_id v
    → (r : ClearPaymentResponse) × (clear_payment event_id (some p.id) (calm c w)
        ≡ (ok r, calm v v))
clear_payment-ClearsTo p c w event_id v (no_account k) =
    (_, clear_payment-no_creditor event_id p c w k)
clear_payment-ClearsTo p c w event_id v (too_poor k short) =
    (_, clear_payment-no_funds event_id p c w k short)
clear_payment-ClearsTo p c w event_id v (clears k) = (_, clear_payment_at event_id p c w k)

clear_payment-attempt :
    (event_id : Uuid) (id : UuidText) (c w : Db)
    → let v = (clear_payment event_id id (calm c w)).1.committed in
      (v ≡ c) ⊎ Cleared event_id id c v
clear_payment-attempt event_id id c w = elim (clear_payment_ends event_id c w id) [
  | inl stopped ↦ inl (committed-Failed c (clear_payment event_id id (calm c w)) stopped)
  | inr (inl (p, own, inl (k, e))) ↦ inr (p, own, rw e (no_account k))
  | inr (inl (p, own, inr (k, short, e))) ↦ inr (p, own, rw e (too_poor k short))
  | inr (inr (p, own, k, e)) ↦ inr (p, own, rw e (clears k))
]

pub clear-TakesFrom : TakesFrom validated clear_payment is_not_validated CanBeCleared Cleared
unfolding root
clear-TakesFrom = record {
  retried = refl;
  follows = clear_payment-Follows;
  attempt = clear_payment-attempt;
  ready = λ event_id id c w h.
      let (v, (p, own, to)) = h in
      let (r, e) = clear_payment-ClearsTo p c w event_id v to in (r, v, rw own e, (p, own, to));
  early = λ event_id id c w past. (
    payment_not_validated,
    rw past.named (clear_payment_early event_id c w past.key past.row past.elsewhere),
    refl,
  );
  moves =
      λ event_id id c v done. let (p, own, to) = done in rw own (ClearsTo-IsPast p c event_id v to);
}

abbrev pub Accepted : Uuid → UuidText → Db → Db → Type 0
Accepted event_id id c v =
    (p : Payment) × (id ≡ some p.id) × IsAwaiting p c × (v ≡ accepted_tables p c event_id)

abbrev pub CanBeAccepted : Uuid → UuidText → Db → Type 0
CanBeAccepted event_id id c =
    (p : Payment) × (id ≡ some p.id) × IsAwaiting p c × (has_event event_id c.outbox_events ≡ false)

pub accept-TakesFrom :
    TakesFrom awaiting_response always_accepts is_not_awaiting CanBeAccepted Accepted
unfolding root
accept-TakesFrom = record {
  retried = refl;
  follows = λ event_id id. respond_to_payment-Follows event_id id true "";
  attempt = λ event_id id c w. elim (respond_to_payment_ends event_id c w "" true id) [
    | inl stopped ↦
        inl (committed-Failed c (respond_to_payment event_id id true "" (calm c w)) stopped)
    | inr (p, own, k, unused, e) ↦ inr (p, own, k, ap (λ r. r.1.committed) e)
  ];
  ready = λ event_id id c w h.
      let (p, own, k, unused) = h in
      (
        acceptance p,
        accepted_tables p c event_id,
        rw (own, respond_to_payment_enters event_id p c w k true "")
            (accept_payment_at event_id p c w k unused),
        (p, own, k, refl),
      );
  early = λ event_id id c w past. (
    payment_not_awaiting_response,
    rw past.named (respond_early event_id c w "" true past.key past.row past.elsewhere),
    refl,
  );
  moves = λ event_id id c v done.
      let (p, own, k, e) = done in
      rw (own, e)
        (Turned-IsPast p awaiting_response accepted awaiting_response "" c
          (accepted_tables p c event_id) (accepted-Turned p c event_id k) (ground arith));
}

abbrev pub Booked : Uuid → UuidText → Db → Db → Type 0
Booked ledger_id id c v =
    (p : Payment) × (id ≡ some p.id) × CanSettle ledger_id p c × (v ≡ settled_tables ledger_id p c)

abbrev pub CanBeSettled : Uuid → UuidText → Db → Type 0
CanBeSettled ledger_id id c = (p : Payment) × (id ≡ some p.id) × CanSettle ledger_id p c

settled-IsPast :
    (p : Payment) (c : Db) (ledger_id : Uuid)
    → CanSettle ledger_id p c
    → IsPast accepted (some p.id) (settled_tables ledger_id p c)
settled-IsPast p c ledger_id k =
    let s = settled_tables-Settled p c ledger_id k in
    record {
      key = p.id;
      named = refl;
      payment = with_status settled "" p;
      row = rw s.payments (find_payment-update p.id settled "" c s.row);
      elsewhere = ground arith;
    }

pub settle-TakesFrom : TakesFrom accepted settle_payment is_not_accepted CanBeSettled Booked
unfolding root
settle-TakesFrom = record {
  retried = refl;
  follows = settle_payment-Follows;
  attempt = λ ledger_id id c w. elim (settle_payment_ends ledger_id c w id) [
    | inl stopped ↦ inl (committed-Failed c (settle_payment ledger_id id (calm c w)) stopped)
    | inr (p, own, k, e) ↦ inr (p, own, k, ap (λ r. r.1.committed) e)
  ];
  ready = λ ledger_id id c w h.
      let (p, own, k) = h in
      (
        settlement p,
        settled_tables ledger_id p c,
        rw own (settle_payment_at ledger_id p c w k),
        (p, own, k, refl),
      );
  early = λ ledger_id id c w past. (
    payment_not_accepted,
    rw past.named (settle_payment_early ledger_id past.key c w past.row past.elsewhere),
    refl,
  );
  moves = λ ledger_id id c v done.
      let (p, own, k, e) = done in rw (own, e) (settled-IsPast p c ledger_id k);
}
