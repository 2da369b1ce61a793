-- ===== src/Payment.antt =====
-- statemachine.go: the states and events of a payment, and `NextPaymentState`.
pub mod Machine
use payment_rail_simulator.Prelude.{Bool, true, false}

-- The nine constants of `PaymentState`. A text that is none of them takes the `default` of
-- `NextPaymentState`, as the three terminal states do; the program writes no such text.
pub data PaymentState : Type 0 where
  received validated rejected clearing awaiting_response failed accepted settling settled :
      PaymentState

pub data PaymentEvent : Type 0 where
  validation_passed validation_failed : PaymentEvent
  clearing_started clearing_passed clearing_failed : PaymentEvent
  receiver_accepted receiver_rejected : PaymentEvent
  settlement_started settlement_completed settlement_failed : PaymentEvent

-- What `NextPaymentState` returns: a state and nil, or "" and an error.
pub data Next : Type 0 where
  goes_to : PaymentState → Next
  invalid : Next

unfoldable pub next_payment_state : PaymentState → PaymentEvent → Next
next_payment_state received validation_passed = goes_to validated
next_payment_state received validation_failed = goes_to rejected
next_payment_state validated clearing_started = goes_to clearing
next_payment_state clearing clearing_passed = goes_to awaiting_response
next_payment_state clearing clearing_failed = goes_to failed
next_payment_state awaiting_response receiver_accepted = goes_to accepted
next_payment_state awaiting_response receiver_rejected = goes_to failed
next_payment_state accepted settlement_started = goes_to settling
next_payment_state settling settlement_completed = goes_to settled
next_payment_state settling settlement_failed = goes_to failed
next_payment_state _ _ = invalid

-- `currentState != StateValidated` and its like.
abbrev pub is_validated : PaymentState → Bool
is_validated validated = true
is_validated _ = false

abbrev pub is_awaiting_response : PaymentState → Bool
is_awaiting_response awaiting_response = true
is_awaiting_response _ = false

abbrev pub is_accepted : PaymentState → Bool
is_accepted accepted = true
is_accepted _ = false
