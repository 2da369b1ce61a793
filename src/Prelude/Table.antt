-- ===== src/Prelude/Table.antt =====
-- A table with a unique key, as the list of its rows in the order of insertion: the SELECT and the
-- UPDATE of the row with a given key, sums over a column, and their laws.
use payment_rail_simulator.Prelude.Tests.{if◌then◌else◌, Eq, ◌==◌, Bool-cases}
use payment_rail_simulator.Prelude.Int.{ℤ, pos, pos_part, neg_part, ◌+ℤ◌, int_laws}
use mathlib.Core.Path.{◌≡◌, refl, ap}
use mathlib.Core.Option
use mathlib.Core.Option.{Option, none, some}
use mathlib.Core.Logic.{inl, inr}
use mathlib.Core.List.{List, [], ◌∷◌, ◌++◌}
use native.Mathlib.Omega.{arith}

abbrev pub or_else : {A : Type 0} → Option A → Option A → Option A
or_else none y = y
or_else (some x) y = some x

-- SUM over a column; 0 over no row.
abbrev pub sum_by : {A : Type 0} → (A → ℤ) → List A → ℤ
sum_by f [] = pos 0
sum_by f (x ∷ xs) = f x +ℤ sum_by f xs

exchange : (a b c : ℤ) → b +ℤ c +ℤ a ≡ a +ℤ c +ℤ b
exchange a b c = omega int_laws

shift : (a s x t y : ℤ) → s +ℤ x ≡ t +ℤ y → a +ℤ s +ℤ x ≡ a +ℤ t +ℤ y
shift a s x t y h = omega (int_laws, ap pos_part h, ap neg_part h)

module _ {K A : Type 0} ⦃e : Eq K⦄ (key : A → K) where
  -- SELECT … WHERE key = k
  unfoldable pub find : K → List A → Option A
  find k [] = none
  find k (x ∷ xs) = if key x == k then some x else find k xs

  -- UPDATE … SET … WHERE key = k
  unfoldable pub update : K → (A → A) → List A → List A
  update k g [] = []
  update k g (x ∷ xs) = if key x == k then g x ∷ xs else x ∷ update k g xs

  abbrev pub KeepsKey : (A → A) → Type 0
  KeepsKey g = (x : A) → key (g x) ≡ key x

  pub key-find : (k : K) (xs : List A) {x : A} → find k xs ≡ some x → key x ≡ k
  unfolding find
  key-find k [] h = cc
  key-find k (y ∷ xs) {x} h = ground (arith, e.beq_iff (key y) k, key-find k xs {x = x})

  pub find-update :
      (j k : K) (g : A → A) (xs : List A)
      → KeepsKey g
      → find j (update k g xs) ≡ (if k == j then Option.map g (find k xs) else find j xs)
  unfolding find update
  find-update j k g [] keeps = ground arith
  find-update j k g (x ∷ xs) keeps = ground (
    arith,
    keeps x,
    e.beq_iff (key x) k,
    e.beq_iff (key x) j,
    e.beq_iff k j,
    find-update j k g xs keeps,
  )

  pub find-append : (j : K) (xs ys : List A) → find j (xs ++ ys) ≡ or_else (find j xs) (find j ys)
  unfolding find
  find-append j [] ys = refl
  find-append j (x ∷ xs) ys = ground (arith, find-append j xs ys)

  pub update_absent : (k : K) (g : A → A) (xs : List A) → find k xs ≡ none → update k g xs ≡ xs
  unfolding find update
  update_absent k g [] h = refl
  update_absent k g (x ∷ xs) h = ground (arith, update_absent k g xs)

  pub update-update :
      (k : K) (g h : A → A) (xs : List A)
      → KeepsKey g
      → update k h (update k g xs) ≡ update k (λ x. h (g x)) xs
  unfolding update
  update-update k g h [] keeps = refl
  update-update k g h (x ∷ xs) keeps = ground (arith, keeps x, update-update k g h xs keeps)

  -- The sum over a column moves by what the one row moves.
  pub sum_by-update :
      (f : A → ℤ) (k : K) (g : A → A) {x : A} (xs : List A)
      → find k xs ≡ some x
      → sum_by f (update k g xs) +ℤ f x ≡ sum_by f xs +ℤ f (g x)
  unfolding find update
  sum_by-update f k g [] h = cc
  sum_by-update f k g {x} (y ∷ xs) h = elim (Bool-cases (key y == k)) [
    | inl here ↦ ground (arith, exchange (f y) (f (g y)) (sum_by f xs))
    | inr away ↦ rw away (
        shift (f y) (sum_by f (update k g xs)) (f x) (sum_by f xs) (f (g x))
          (sum_by-update f k g xs (ground arith)))
  ]

  -- An UPDATE of a row that has just been inserted.
  pub update-append :
      (k : K) (g : A → A) (xs : List A) (x : A)
      → find k xs ≡ none
      → key x ≡ k
      → update k g (xs ++ x ∷ []) ≡ xs ++ g x ∷ []
  unfolding find update
  update-append k g [] x h own = ground (arith, e.beq_iff (key x) k)
  update-append k g (y ∷ xs) x h own = ground (arith, update-append k g xs x)

  pub find-append_new :
      (k : K) (xs : List A) (x : A) → find k xs ≡ none → key x ≡ k → find k (xs ++ x ∷ []) ≡ some x
  unfolding find
  find-append_new k [] x h own = ground (arith, e.beq_iff (key x) k)
  find-append_new k (y ∷ xs) x h own = ground (arith, find-append_new k xs x)

pub sum_by-append :
    {A : Type 0} (f : A → ℤ) (xs : List A) (x : A) → sum_by f (xs ++ x ∷ []) ≡ sum_by f xs +ℤ f x
sum_by-append f [] x = omega int_laws
sum_by-append f (y ∷ xs) x = rw (sum_by-append f xs x) (omega int_laws)
