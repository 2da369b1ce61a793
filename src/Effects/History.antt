-- ===== src/Effects/History.antt =====
-- The transition log against the payments: the rows of one payment as a run of the state machine.
use mathlib.Core.List.{append-nil}
use Prim.Native.Nat.{max}
use payment_rail_simulator.Prelude.{
  ℕ, ◌+◌, true, false, ◌≡◌, String, refl, sym, subst, ◌∙◌, Option, none, some, List, [], ◌∷◌, ◌++◌,
  inl, inr, arith, ◌==◌, nat_eq, nat_beq_iff, Bool-cases, if◌then◌else◌, length, length-append,
}
use payment_rail_simulator.Prelude.Table.{find, update, or_else, find-update, find-append}
use payment_rail_simulator.Payment.{
  PaymentState, PaymentEvent, received, accepted, settled, goes_to, next_payment_state,
}
use payment_rail_simulator.Store.{Uuid, Payment, LogEntry, Db, payment_key, find_payment}
use payment_rail_simulator.Transition.{with_status, max_sequence}
use payment_rail_simulator.Transition.Steps.{next_entry}
use payment_rail_simulator.Intake.Outcomes.{find-is_taken}
use payment_rail_simulator.Effects.{
  Logs, nothing, also, logged, Stored, Effect, stays, stores, turns, settles,
}

-- The rows of one payment, in the order in which they were written.
unfoldable pub log_of : Uuid → List LogEntry → List LogEntry
log_of id [] = []
log_of id (x ∷ xs) = let rest = log_of id xs in if x.payment_id == id then x ∷ rest else rest

-- A run of the machine from the first state to the second, its steps numbered from `n` on.
abbrev pub Chain : ℕ → PaymentState → List LogEntry → PaymentState → Type 0
Chain n s [] t = s ≡ t
Chain n s (x ∷ xs) t =
    (x.sequence_number ≡ n)
    × (x.from_state ≡ s)
    × (next_payment_state s x.event_type ≡ goes_to x.to_state)
    × Chain (n + 1) x.to_state xs t

Chain-append :
    (n : ℕ) (s : PaymentState) (xs : List LogEntry) (x : LogEntry) {t : PaymentState}
    → Chain n s xs t
    → x.sequence_number ≡ n + length xs
    → x.from_state ≡ t
    → next_payment_state t x.event_type ≡ goes_to x.to_state
    → Chain n s (xs ++ x ∷ []) x.to_state
Chain-append n s [] x {t} here number origin move =
    (omega arith, origin ∙ sym here, rw here move, refl)
Chain-append n s (y ∷ xs) x (own, from_there, first, rest) number origin move =
    (own, from_there, first, Chain-append (n + 1) y.to_state xs x rest (omega arith) origin move)

log_of-append :
    (id : Uuid) (log : List LogEntry) (x : LogEntry)
    → log_of id (log ++ x ∷ []) ≡ log_of id log ++ (if x.payment_id == id then x ∷ [] else [])
unfolding log_of
log_of-append id [] x = refl
log_of-append id (y ∷ ys) x = ground (arith, log_of-append id ys x)

max_sequence-append :
    (id : Uuid) (log : List LogEntry) (x : LogEntry)
    → max_sequence id (log ++ x ∷ []) ≡ (
        if x.payment_id == id
        then max (max_sequence id log) x.sequence_number
        else max_sequence id log)
unfolding max_sequence
max_sequence-append id [] x = ground arith
max_sequence-append id (y ∷ ys) x = ground (arith, max_sequence-append id ys x)

-- What the log says of payment `id` while it is in state `s`, and that its numbers have no gap.
abbrev pub IsTold : Uuid → PaymentState → List LogEntry → Type 0
IsTold id s log =
    Chain 1 received (log_of id log) s × (max_sequence id log ≡ length (log_of id log))

abbrev IsSilent : Uuid → List LogEntry → Type 0
IsSilent id log = (log_of id log ≡ []) × (max_sequence id log ≡ 0)

abbrev pub ToldAt : List LogEntry → Uuid → Option Payment → Type 0
ToldAt log id none = IsSilent id log
ToldAt log id (some p) = IsTold id p.status log

logged-IsTold :
    (id : Uuid) (event : PaymentEvent) (reason : String) (t u : PaymentState) (log : List LogEntry)
    → next_payment_state t event ≡ goes_to u
    → IsTold id t log
    → IsTold id u (logged id event reason t u log)
logged-IsTold id event reason t u log move (chain, count) =
    let x = next_entry id event reason t u log in
    let own : (x.payment_id == id) ≡ true = ground (arith, nat_beq_iff id id) in
    (
      rw (log_of-append id log x, own)
          (Chain-append 1 received (log_of id log) x chain (omega (arith, count)) refl move),
      rw
          (
            log_of-append id log x,
            max_sequence-append id log x,
            own,
            length-append (log_of id log) (x ∷ []),
          )
          (omega (arith, count)),
    )

Logs-IsTold :
    {id : Uuid} {s : PaymentState} {log : List LogEntry} {t : PaymentState} {more : List LogEntry}
    → Logs id s log t more
    → IsTold id s log
    → IsTold id t more
Logs-IsTold nothing h = h
Logs-IsTold {id} (also {t = t} {u = u} {grown = grown} event reason l move e) h =
    rw e (logged-IsTold id event reason t u grown move (Logs-IsTold l h))

-- The rows of another payment stay as they are.
pub Logs-others :
    {id : Uuid} {s : PaymentState} {log : List LogEntry} {t : PaymentState} {more : List LogEntry}
    (j : Uuid)
    → (id == j) ≡ false
    → Logs id s log t more
    → (log_of j more ≡ log_of j log) × (max_sequence j more ≡ max_sequence j log)
Logs-others j other nothing = (refl, refl)
Logs-others {id} j other (also {t = t} {u = u} {grown = grown} event reason l move e) =
    let (rows, top) = Logs-others j other l in
    let x = next_entry id event reason t u grown in
    rw e (
      log_of-append j grown x ∙ rw other (append-nil (log_of j grown) ∙ rows),
      max_sequence-append j grown x ∙ rw other top,
    )

or_else-none : (o : Option Payment) → or_else o none ≡ o
or_else-none none = refl
or_else-none (some p) = refl

others-ToldAt :
    {id : Uuid} {s t : PaymentState} {log more : List LogEntry} (j : Uuid) (o : Option Payment)
    → (id == j) ≡ false
    → Logs id s log t more
    → ToldAt log j o
    → ToldAt more j o
others-ToldAt j none other l h = let (rows, top) = Logs-others j other l in rw (rows, top) h
others-ToldAt j (some p) other l h = let (rows, top) = Logs-others j other l in rw (rows, top) h

-- Every payment is told by the log, and the log has rows of no other.
abbrev pub IsWellLogged : Db → Type 0
IsWellLogged db = (id : Uuid) → ToldAt db.transition_log id (find_payment id db)

IsSilent-IsTold : (id : Uuid) (log : List LogEntry) → IsSilent id log → IsTold id received log
IsSilent-IsTold id log (rows, top) = rw (rows, top) (refl, refl)

Stored-IsWellLogged : (p : Payment) (c v : Db) → Stored p c v → IsWellLogged c → IsWellLogged v
unfolding find
Stored-IsWellLogged p c v st told id =
    rw (st.payments, find-append payment_key id c.payments (p ∷ []))
      (elim (Bool-cases (p.id == id)) [
        | inl own ↦
            let same : p.id ≡ id = ground arith in
            let fresh = find-is_taken p.id p.uetr c.payments st.free in
            let silent : ToldAt c.transition_log p.id none =
              subst (ToldAt c.transition_log p.id) fresh (told p.id) in
            rw (own, ← same, fresh)
              (Logs-IsTold st.log (IsSilent-IsTold p.id c.transition_log silent))
        | inr other ↦
            rw (other, or_else-none (find_payment id c))
              (others-ToldAt id (find_payment id c) other st.log (told id))
      ])

module _ (p : Payment) (g : Payment → Payment) (before next : PaymentState) (c : Db)
    (keeps : (x : Payment) → (g x).id ≡ x.id) (moves : (g p).status ≡ next)
    (row : find_payment p.id c ≡ some p) (stands : p.status ≡ before) where
  changed-ToldAt :
      (more : List LogEntry)
      → Logs p.id before c.transition_log next more
      → IsWellLogged c
      → (id : Uuid) → ToldAt more id (find payment_key id (update payment_key p.id g c.payments))
  changed-ToldAt more l told id =
      rw (find-update payment_key id p.id g c.payments keeps) (elim (Bool-cases (p.id == id)) [
        | inl own ↦
            let same : p.id ≡ id = ground arith in
            let now : IsTold p.id before c.transition_log =
              subst (λ s. IsTold p.id s c.transition_log) stands
                (subst (ToldAt c.transition_log p.id) row (told p.id)) in
            rw (own, ← same, row, moves) (Logs-IsTold l now)
        | inr other ↦ rw other (others-ToldAt id (find_payment id c) other l (told id))
      ])

-- Every effect keeps the log in step with the payments.
pub Effect-IsWellLogged : (c v : Db) → Effect c v → IsWellLogged c → IsWellLogged v
Effect-IsWellLogged c v (stays e) told = subst IsWellLogged (sym e) told
Effect-IsWellLogged c v (stores p st) told = Stored-IsWellLogged p c v st told
Effect-IsWellLogged c v (turns p before next reason t) told = rw t.payments (
    changed-ToldAt p (with_status next reason) before next c (λ x. refl) refl t.row t.stands
      v.transition_log t.log told)
Effect-IsWellLogged c v (settles p ledger_id s) told = rw s.payments (
    changed-ToldAt p (with_status settled "") accepted settled c (λ x. refl) refl s.row s.stands
      v.transition_log s.log told)
