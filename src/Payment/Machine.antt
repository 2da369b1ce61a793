-- ===== src/Payment/Machine.antt =====
-- The transition diagram of statemachine.go: what events can do to a payment in the long run.
use payment_rail_simulator.Prelude.{
  ℕ, ◌+◌, ◌≤◌, ◌<◌, ◌≡◌, refl, ap, ◌≢◌, ◌⊎◌, List, [], ◌∷◌, arith, length,
}
use payment_rail_simulator.Payment.{
  PaymentState, received, validated, rejected, clearing, awaiting_response, failed, accepted,
  settling, settled, PaymentEvent, validation_passed, clearing_started, clearing_passed,
  receiver_accepted, settlement_started, settlement_completed, goes_to, invalid, next_payment_state,
}

abbrev pub IsTerminal : PaymentState → Type 0
IsTerminal s = (s ≡ rejected) ⊎ (s ≡ failed) ⊎ (s ≡ settled)

-- A run of the machine over events that it accepts.
pub data Run : PaymentState → List PaymentEvent → PaymentState → Type 0 where
  done : {s : PaymentState} → Run s [] s
  step :
      {s t u : PaymentState} (e : PaymentEvent) {es : List PaymentEvent}
      → next_payment_state s e ≡ goes_to t
      → Run t es u
      → Run s (e ∷ es) u

-- How far along the diagram a state stands.
stage : PaymentState → ℕ
stage received = 0
stage validated = 1
stage rejected = 6
stage clearing = 2
stage awaiting_response = 3
stage failed = 6
stage accepted = 4
stage settling = 5
stage settled = 6

stage-lt :
    (s t : PaymentState) (e : PaymentEvent) → next_payment_state s e ≡ goes_to t → stage s < stage t
unfolding next_payment_state stage
stage-lt s t e h = ground arith

stage-le-six : (s : PaymentState) → stage s ≤ 6
unfolding stage
stage-le-six s = ground arith

stage-Run :
    {s u : PaymentState} {es : List PaymentEvent} → Run s es u → stage s + length es ≤ stage u
stage-Run done = omega arith
stage-Run (step {s = s} {t = t} e h r) = omega (arith, stage-lt s t e h, stage-Run r)

-- A state accepts no event exactly if it is rejected, failed or settled.
pub IsTerminal-iff_stuck :
    (s : PaymentState)
    → (IsTerminal s → (e : PaymentEvent) → next_payment_state s e ≡ invalid)
      × (((e : PaymentEvent) → next_payment_state s e ≡ invalid) → IsTerminal s)
unfolding next_payment_state
IsTerminal-iff_stuck s = (
  λ t e. ground arith,
  λ stuck. ground (
    arith,
    stuck validation_passed,
    stuck clearing_started,
    stuck clearing_passed,
    stuck receiver_accepted,
    stuck settlement_started,
    stuck settlement_completed,
  ),
)

stage-loop : {s u : PaymentState} {n : ℕ} → s ≡ u → stage s + n ≤ stage u → n ≡ 0
stage-loop {s} {u} e h = omega (arith, ap stage e)

no_events : (es : List PaymentEvent) → length es ≡ 0 → es ≡ []
no_events [] h = refl
no_events (e ∷ es) h = absurd (omega arith)

-- Every run accepts at most six events, and none leads back to the state that it began in.
pub Run-ends :
    {s u : PaymentState} {es : List PaymentEvent} → Run s es u → (length es ≤ 6) × (s ≡ u → es ≡ [])
Run-ends {s} {u} {es} r = (
  omega (arith, stage-Run r, stage-le-six u),
  λ back. no_events es (stage-loop back (stage-Run r)),
)

-- The events that lead from a state to settled.
abbrev way : PaymentState → List PaymentEvent
way settled = []
way settling = settlement_completed ∷ []
way accepted = settlement_started ∷ settlement_completed ∷ []
way awaiting_response = receiver_accepted ∷ settlement_started ∷ settlement_completed ∷ []
way clearing = clearing_passed ∷ receiver_accepted ∷ settlement_started ∷ settlement_completed ∷ []
way validated =
    clearing_started ∷ clearing_passed ∷ receiver_accepted ∷ settlement_started
    ∷ settlement_completed ∷ []
way received =
    validation_passed ∷ clearing_started ∷ clearing_passed ∷ receiver_accepted ∷ settlement_started
    ∷ settlement_completed ∷ []
way _ = []

way_step :
    (s t : PaymentState) (e : PaymentEvent) (es : List PaymentEvent)
    → next_payment_state s e ≡ goes_to t
    → (es ≡ way t) × (t ≢ failed) × (t ≢ rejected)
    → (e ∷ es ≡ way s) × (s ≢ failed) × (s ≢ rejected)
unfolding next_payment_state
way_step s t e es h ih = rw (ih.0) (ground (arith, ih.1, ih.2))

Run-way :
    {s u : PaymentState} {es : List PaymentEvent}
    → Run s es u
    → u ≡ settled
    → (es ≡ way s) × (s ≢ failed) × (s ≢ rejected)
Run-way done h = ground arith
Run-way (step {s = s} {t = t} e {es = es} h r) last = way_step s t e es h (Run-way r last)

-- A run from received to settled is the one path through validation, clearing, the receiver's
-- acceptance and settlement.
pub settled_path :
    {es : List PaymentEvent}
    → Run received es settled
    → es ≡ (
        validation_passed ∷ clearing_started ∷ clearing_passed ∷ receiver_accepted
        ∷ settlement_started ∷ settlement_completed ∷ [])
settled_path r = (Run-way r refl).0
