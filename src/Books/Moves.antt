-- ===== src/Books/Moves.antt =====
-- The three ways in which a transaction changes accounts and payments together: a reservation, a
-- release, and a settlement; and a change of status with no change of money.
use payment_rail_simulator.Prelude.{
  String, true, false, ◌≡◌, refl, sym, ap, ◌∙◌, subst, some, List, arith, ◌==◌, nat_eq, string_eq,
  eq_iff, if◌then◌else◌, inl, inr, Bool-cases,
}
use payment_rail_simulator.Prelude.Int.{ℤ, pos, ◌+ℤ◌, ◌-ℤ◌, ◌≤ℤ◌, leb_ℤ, leb_ℤ_iff, int_laws}
use payment_rail_simulator.Prelude.Table.{find, update, find-update}
use payment_rail_simulator.Payment.{
  PaymentState, validated, awaiting_response, accepted, failed, settled,
}
use payment_rail_simulator.Store.{Uuid, Account, Payment, payment_key, account_key}
use payment_rail_simulator.Transition.{with_status}
use payment_rail_simulator.Accounts.{
  is_usable, reserve, can_reserve, release, can_release, take_reserved, can_take, deposit,
}
use payment_rail_simulator.Books.{
  in_flight, is_open, is_resting, held, IsSolvent, RowIsSound, All, Backs,
}
use payment_rail_simulator.Books.Held.{held_same, held_grows, held_shrinks}
use payment_rail_simulator.Books.Rows.{
  KeepsIdentity, rows-with_status, row_is_sound, rows-update_account,
}

reserve-IsSolvent :
    (a : Account) (x : ℤ)
    → IsSolvent a
    → pos 0 ≤ℤ x
    → leb_ℤ x (a.balance -ℤ a.reserved_balance) ≡ true
    → IsSolvent (reserve x a)
reserve-IsSolvent a x h n t = omega (int_laws, (leb_ℤ_iff x (a.balance -ℤ a.reserved_balance)).0 t)

release-IsSolvent :
    (a : Account) (x : ℤ)
    → IsSolvent a
    → pos 0 ≤ℤ x
    → leb_ℤ x a.reserved_balance ≡ true
    → IsSolvent (release x a)
release-IsSolvent a x h n t = omega (int_laws, (leb_ℤ_iff x a.reserved_balance).0 t)

take_reserved-IsSolvent :
    (a : Account) (x : ℤ)
    → IsSolvent a
    → leb_ℤ x a.reserved_balance ≡ true
    → IsSolvent (take_reserved x a)
take_reserved-IsSolvent a x h t = omega (int_laws, (leb_ℤ_iff x a.reserved_balance).0 t)

deposit-IsSolvent : (a : Account) (x : ℤ) → IsSolvent a → pos 0 ≤ℤ x → IsSolvent (deposit x a)
deposit-IsSolvent a x h n = omega int_laws

module _ (k : String) (g : Account → Account) (table : List Account) (keeps : KeepsIdentity g)
    (j : String) {x : Account} where
  updated_own :
      {a : Account}
      → (k == j) ≡ true
      → find account_key k table ≡ some a
      → find account_key j (update account_key k g table) ≡ some x
      → g a ≡ x
  updated_own own row e = ground (arith, find-update account_key j k g table (λ y. (keeps y).0))

  updated_other :
      (k == j) ≡ false
      → find account_key j (update account_key k g table) ≡ some x
      → find account_key j table ≡ some x
  updated_other other e = ground (arith, find-update account_key j k g table (λ y. (keeps y).0))

-- One account changes, and with it the payments.
Backs-update :
    (k : String) (g : Account → Account) (table : List Account) (ps ps' : List Payment)
    (a : Account)
    → KeepsIdentity g
    → find account_key k table ≡ some a
    → IsSolvent (g a)
    → (g a).reserved_balance ≡ held k ps'
    → ((j : String) → (k == j) ≡ false → held j ps' ≡ held j ps)
    → All (RowIsSound table) ps'
    → Backs table ps
    → Backs (update account_key k g table) ps'
Backs-update k g table ps ps' a keeps row solvent reserves others rows b = record {
  solvent = λ j x e. elim (Bool-cases (k == j)) [
    | inl own ↦ subst IsSolvent (updated_own k g table keeps j own row e) solvent
    | inr other ↦ b.solvent j x (updated_other k g table keeps j other e)
  ];
  reserves = λ j x e. elim (Bool-cases (k == j)) [
    | inl own ↦
        ap (λ (y : Account). y.reserved_balance) (sym (updated_own k g table keeps j own row e))
        ∙ reserves
        ∙ ap (λ y. held y ps') ((eq_iff k j).0 own)
    | inr other ↦ b.reserves j x (updated_other k g table keeps j other e) ∙ sym (others j other)
  ];
  rows = rows-update_account k g table ps' keeps rows;
}

module _ (id : Uuid) (reason : String) (table : List Account) (ps : List Payment) {p : Payment}
    (row : find payment_key id ps ≡ some p) (b : Backs table ps) where
  sound : RowIsSound table p
  sound = row_is_sound id table ps row b.rows

  abbrev after : PaymentState → List Payment
  after next = update payment_key id (with_status next reason) ps

  -- No money moves.
  pub Backs-with_status :
      (next : PaymentState)
      → in_flight p.status ≡ in_flight next
      → is_resting next ≡ true
      → (is_open next ≡ true → is_open p.status ≡ true)
      → Backs table (after next)
  Backs-with_status next flight resting opens = record {
    solvent = b.solvent;
    reserves = λ k a e. b.reserves k a e ∙ sym (held_same k id next reason ps row flight);
    rows =
        rows-with_status id next reason table ps row b.rows resting (λ o. sound.nonneg (opens o))
          (λ f. sound.debtor (flight ∙ f));
  }

  -- Clearing: a validated payment goes into flight, and its amount is reserved.
  pub Backs-reserve :
      {a : Account}
      → p.status ≡ validated
      → find account_key p.debtor_account table ≡ some a
      → can_reserve p.debtor_agent p.currency p.amount a ≡ true
      → Backs
          (update account_key p.debtor_account (reserve p.amount) table)
          (after awaiting_response)
  unfolding is_usable
  Backs-reserve {a} at_state found covers =
      Backs-update p.debtor_account (reserve p.amount) table ps (after awaiting_response) a
        (λ x. (refl, refl, refl)) found
        (reserve-IsSolvent a p.amount (b.solvent p.debtor_account a found) nonneg (ground arith))
        (ap (λ h. h +ℤ p.amount) (b.reserves p.debtor_account a found)
          ∙ sym (grows p.debtor_account ∙ ground (arith, eq_iff p.debtor_account p.debtor_account)))
        (λ j other. grows j ∙ ground arith)
        (rows-with_status id awaiting_response reason table ps row b.rows refl (λ _. nonneg)
          (λ _. (a, found, ground arith, ground arith)))
        b
    where
      nonneg : pos 0 ≤ℤ p.amount
      nonneg = sound.nonneg (ap is_open at_state)

      grows :
          (j : String)
          → held j (after awaiting_response)
            ≡ (if p.debtor_account == j then held j ps +ℤ p.amount else held j ps)
      grows j = held_grows j id awaiting_response reason ps row (ap in_flight at_state) refl

  -- A rejection: a payment leaves its flight, and its amount is released.
  pub Backs-release :
      {a : Account}
      → p.status ≡ awaiting_response
      → find account_key p.debtor_account table ≡ some a
      → can_release p.debtor_agent p.currency p.amount a ≡ true
      → Backs (update account_key p.debtor_account (release p.amount) table) (after failed)
  Backs-release {a} at_state found covers =
      Backs-update p.debtor_account (release p.amount) table ps (after failed) a
        (λ x. (refl, refl, refl)) found
        (release-IsSolvent a p.amount (b.solvent p.debtor_account a found)
          (sound.nonneg (ap is_open at_state)) (ground arith))
        (ap (λ h. h -ℤ p.amount) (b.reserves p.debtor_account a found)
          ∙ sym
              (shrinks p.debtor_account ∙ ground (arith, eq_iff p.debtor_account p.debtor_account)))
        (λ j other. shrinks j ∙ ground arith)
        (rows-with_status id failed reason table ps row b.rows refl (λ o. cc) (λ f. cc)) b
    where
      shrinks :
          (j : String)
          → held j (after failed)
            ≡ (if p.debtor_account == j then held j ps -ℤ p.amount else held j ps)
      shrinks j = held_shrinks j id failed reason ps row (ap in_flight at_state) refl

  -- A settlement, its debit: the amount leaves the account and the reservation.
  pub Backs-take_reserved :
      {a : Account}
      → p.status ≡ accepted
      → find account_key p.debtor_account table ≡ some a
      → can_take p.debtor_agent p.currency p.amount a ≡ true
      → Backs (update account_key p.debtor_account (take_reserved p.amount) table) (after settled)
  Backs-take_reserved {a} at_state found covers =
      Backs-update p.debtor_account (take_reserved p.amount) table ps (after settled) a
        (λ x. (refl, refl, refl)) found
        (take_reserved-IsSolvent a p.amount (b.solvent p.debtor_account a found) (ground arith))
        (ap (λ h. h -ℤ p.amount) (b.reserves p.debtor_account a found)
          ∙ sym
              (shrinks p.debtor_account ∙ ground (arith, eq_iff p.debtor_account p.debtor_account)))
        (λ j other. shrinks j ∙ ground arith)
        (rows-with_status id settled reason table ps row b.rows refl (λ o. cc) (λ f. cc)) b
    where
      shrinks :
          (j : String)
          → held j (after settled)
            ≡ (if p.debtor_account == j then held j ps -ℤ p.amount else held j ps)
      shrinks j = held_shrinks j id settled reason ps row (ap in_flight at_state) refl

-- A settlement, its credit: no reservation changes.
pub Backs-deposit :
    (k : String) (x : ℤ) (table : List Account) (ps : List Payment) {a : Account}
    → find account_key k table ≡ some a
    → pos 0 ≤ℤ x
    → Backs table ps
    → Backs (update account_key k (deposit x) table) ps
Backs-deposit k x table ps {a} found n b =
    Backs-update k (deposit x) table ps ps a (λ y. (refl, refl, refl)) found
      (deposit-IsSolvent a x (b.solvent k a found) n) (b.reserves k a found) (λ j other. refl)
      b.rows b
