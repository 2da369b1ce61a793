-- ===== src/Intake/Columns.antt =====
-- schema.sql: the VARCHAR columns of the table payments. Postgres counts characters; of a text that is
-- longer than its column it cuts off what is too much if that is only spaces, and refuses it otherwise.
use Prim.Native.Char.{code}
use Prim.Native.String.{count}
use Prim.Native.String.count
use payment_rail_simulator.Prelude.{
  ℕ, zero, suc, ◌≤◌, String, Bool, true, ◌&&◌, ◌≡◌, refl, ap, arith, ◌==◌, nat_eq,
}
use payment_rail_simulator.Store.{Payment}

unfoldable pub is_blank : String → Bool
is_blank String.[] = true
is_blank (String.◌∷◌ c s) = code c == 32 && is_blank s

-- Whether VARCHAR(n) takes a text.
unfoldable pub fits_varchar : ℕ → String → Bool
fits_varchar zero s = is_blank s
fits_varchar (suc n) String.[] = true
fits_varchar (suc n) (String.◌∷◌ c s) = fits_varchar n s

-- The text that VARCHAR(n) holds then.
unfoldable pub cut : ℕ → String → String
cut zero s = String.[]
cut (suc n) String.[] = String.[]
cut (suc n) (String.◌∷◌ c s) = String.◌∷◌ c (cut n s)

unfoldable pub fits_columns : Payment → Bool
fits_columns p =
    fits_varchar 36 p.uetr
    && fits_varchar 35 p.end_to_end_id
    && fits_varchar 35 p.instr_id
    && fits_varchar 35 p.tx_id
    && fits_varchar 35 p.msg_id
    && fits_varchar 3 p.currency
    && fits_varchar 34 p.debtor_account
    && fits_varchar 35 p.debtor_agent
    && fits_varchar 34 p.creditor_account
    && fits_varchar 35 p.creditor_agent

-- The row as its columns hold it.
abbrev pub cut_columns : Payment → Payment
cut_columns p = record p {
  uetr = cut 36 p.uetr;
  end_to_end_id = cut 35 p.end_to_end_id;
  instr_id = cut 35 p.instr_id;
  tx_id = cut 35 p.tx_id;
  msg_id = cut 35 p.msg_id;
  currency = cut 3 p.currency;
  debtor_account = cut 34 p.debtor_account;
  debtor_agent = cut 35 p.debtor_agent;
  creditor_account = cut 34 p.creditor_account;
  creditor_agent = cut 35 p.creditor_agent;
}

-- A text that is not too long is kept as it is.
pub cut_short : (n : ℕ) (s : String) → count s ≤ n → cut n s ≡ s
unfolding cut
cut_short zero String.[] h = refl
cut_short zero (String.◌∷◌ c s) h = absurd (omega (arith, count.cons c s, h))
cut_short (suc n) String.[] h = refl
cut_short (suc n) (String.◌∷◌ c s) h =
    ap (λ t. String.◌∷◌ c t) (cut_short n s (omega (arith, count.cons c s, h)))
