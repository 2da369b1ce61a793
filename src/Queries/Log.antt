-- ===== src/Queries/Log.antt =====
-- handleGetTransitionLog of main.go: the transitions of a payment, by their numbers.
use mathlib.Core.List.{map}
use payment_rail_simulator.Prelude.{
  ℕ, ◌+◌, ◌≤◌, false, ◌≡◌, refl, sym, ap, String, none, some, List, [], ◌∷◌, ◌==◌, nat_eq,
  string_eq, if◌then◌else◌, leb, arith, ◌∙◌, ◌≢◌,
}
use payment_rail_simulator.Payment.{PaymentState, PaymentEvent, received}
use payment_rail_simulator.Store.{Uuid, UuidText, LogEntry, Db, invalid_text, Result, ok, err}
use payment_rail_simulator.Store.Tx.{Reply, answered}
use payment_rail_simulator.Handlers.{Answer, text_answer, json_answer}
use payment_rail_simulator.Effects.History.{log_of, Chain}
use payment_rail_simulator.Queries.{select, for_get}

pub record TransitionLogEntry : Type 0 where
  pub sequence_number : ℕ
  pub from_state : PaymentState
  pub to_state : PaymentState
  pub event_type : PaymentEvent
  pub reason : String

abbrev pub log_row : LogEntry → TransitionLogEntry
log_row x = record {
  sequence_number = x.sequence_number;
  from_state = x.from_state;
  to_state = x.to_state;
  event_type = x.event_type;
  reason = x.reason;
}

-- Each row is shown with its number, its two states, its event and its reason.
abbrev pub Shows : List LogEntry → List TransitionLogEntry → Type 0
Shows [] [] = Unit {0}
Shows (x ∷ xs) (y ∷ ys) =
    (y.sequence_number ≡ x.sequence_number)
    × (y.from_state ≡ x.from_state)
    × (y.to_state ≡ x.to_state)
    × (y.event_type ≡ x.event_type)
    × (y.reason ≡ x.reason)
    × Shows xs ys
Shows [] (y ∷ ys) = ⊥
Shows (x ∷ xs) [] = ⊥

pub map-Shows : (xs : List LogEntry) → Shows xs (map log_row xs)
map-Shows [] = tt
map-Shows (x ∷ xs) = (refl, refl, refl, refl, refl, map-Shows xs)

-- ORDER BY sequence_number ASC
unfoldable pub insert_by_number : LogEntry → List LogEntry → List LogEntry
insert_by_number x [] = x ∷ []
insert_by_number x (y ∷ ys) =
    if leb x.sequence_number y.sequence_number then x ∷ y ∷ ys else y ∷ insert_by_number x ys

unfoldable pub by_number : List LogEntry → List LogEntry
by_number [] = []
by_number (x ∷ xs) = insert_by_number x (by_number xs)

-- WHERE payment_id = $1; a text that is no uuid is refused.
abbrev pub select_log : UuidText → Reply → Db → Result (List LogEntry)
select_log none reply db = err invalid_text
select_log (some id) reply db = select reply (by_number (log_of id db.transition_log))

abbrev pub log_answer : Result (List LogEntry) → Answer (List TransitionLogEntry)
log_answer (ok []) = text_answer 404
log_answer (ok (x ∷ xs)) = json_answer 200 (map log_row (x ∷ xs))
log_answer (err e) = text_answer 500

-- `to_uuid` is the cast of Postgres.
unfoldable pub handle_get_transition_log :
    (String → UuidText) → String → String → Reply → Db → Answer (List TransitionLogEntry)
handle_get_transition_log to_uuid method payment_id reply db =
    for_get method payment_id (log_answer (select_log (to_uuid payment_id) reply db))

insert_by_number-Chain :
    (n : ℕ) (x : LogEntry) (s : PaymentState) (xs : List LogEntry) (t : PaymentState)
    → x.sequence_number ≤ n
    → Chain n s xs t
    → insert_by_number x xs ≡ x ∷ xs
unfolding insert_by_number
insert_by_number-Chain n x s [] t h c = refl
insert_by_number-Chain n x s (y ∷ ys) t h (number, origin, move, more) = ground arith

-- The rows of a chain are in the order of their numbers.
by_number-Chain :
    (n : ℕ) (s : PaymentState) (xs : List LogEntry) (t : PaymentState)
    → Chain n s xs t
    → by_number xs ≡ xs
unfolding by_number
by_number-Chain n s [] t c = refl
by_number-Chain n s (x ∷ xs) t (number, origin, move, rest) =
    ap (insert_by_number x) (by_number-Chain (n + 1) x.to_state xs t rest)
    ∙ insert_by_number-Chain (n + 1) x x.to_state xs t (omega (arith, number)) rest

module _ (to_uuid : String → UuidText) (text : String) (id : Uuid) (db : Db)
    (named : (text == "") ≡ false) (cast : to_uuid text ≡ some id) where
  abbrev pub log_asked : Answer (List TransitionLogEntry)
  log_asked = handle_get_transition_log to_uuid "GET" text answered db

  some_rows :
      (xs : List LogEntry) (s : PaymentState)
      → s ≢ received
      → Chain 1 received xs s
      → log_answer (ok xs) ≡ json_answer 200 (map log_row xs)
  some_rows [] s moved c = absurd (moved (sym c))
  some_rows (x ∷ xs) s moved c = refl

  pub log_asked-Chain :
      (s : PaymentState)
      → s ≢ received
      → Chain 1 received (log_of id db.transition_log) s
      → log_asked ≡ json_answer 200 (map log_row (log_of id db.transition_log))
  unfolding handle_get_transition_log by_number
  log_asked-Chain s moved chain =
      let xs = log_of id db.transition_log in
      rw (named, cast, by_number-Chain 1 received xs s chain) (some_rows xs s moved chain)

  pub log_asked_silent : log_of id db.transition_log ≡ [] → log_asked ≡ text_answer 404
  unfolding handle_get_transition_log by_number
  log_asked_silent rows = rw (named, cast, rows) refl
