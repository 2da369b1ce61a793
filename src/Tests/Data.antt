-- ===== src/Tests/Data.antt =====
-- The accounts, the message and the stages of the run.
use payment_rail_simulator.Prelude.{
  ℕ, zero, suc, String, Bool, Option, some, none, List, [], ◌∷◌, ◌==◌, ◌++◌, ◌≡◌, ◌⊎◌, string_eq,
  if◌then◌else◌,
}
use payment_rail_simulator.Prelude.Int.{negsuc, ℤ, pos, leb_ℤ}
use payment_rail_simulator.Payment.{validated, PaymentState}
use payment_rail_simulator.Intake.{PaymentResponse, submit_payment}
use payment_rail_simulator.Middleware.{Handler, Server, http_error}
use payment_rail_simulator.Store.{
  payment_validated, payment_cleared, payment_accepted, UuidText, Account, Payment, Db,
  fits_numeric, OutboxEvent,
}
use payment_rail_simulator.Store.Tx.{Reply, answered, unacked, Session}
use payment_rail_simulator.Store.Calm.{calm}
use payment_rail_simulator.Message.{Document}
use payment_rail_simulator.Clearing.{clear_payment}
use payment_rail_simulator.Receiver.{respond_to_payment}
use payment_rail_simulator.Settlement.{settle_payment}
use payment_rail_simulator.Consumers.{Attempt}
use payment_rail_simulator.Outbox.{new_event}
use payment_rail_simulator.Publisher.{KafkaPaymentEvent, kafka_event, World}
use payment_rail_simulator.Handlers.{ReceiverResponseRequest}

abbrev pub le_zero : ℤ → Bool
le_zero v = leb_ℤ v (pos 0)

abbrev pub to_numeric : ℤ → Option ℤ
to_numeric v = if fits_numeric v then some v else none

abbrev pub account : String → String → ℤ → Account
account id bank balance = record {
  account_id = id;
  routing_number = bank;
  owner_name = "owner";
  balance = balance;
  reserved_balance = pos 0;
  currency = "USD";
  status = "active";
}

abbrev pub accounts : List Account
accounts = account "A" "bank1" (pos 10000) ∷ account "B" "bank2" (pos 50) ∷ []

abbrev pub with_reserved : ℤ → Account → Account
with_reserved amount a = record a { reserved_balance = amount }

-- The accounts while the payment is in flight.
abbrev pub reserved_accounts : List Account
reserved_accounts =
    with_reserved (pos 2500) (account "A" "bank1" (pos 10000)) ∷ account "B" "bank2" (pos 50) ∷ []

abbrev pub start : Db
start = record {
  payments = [];
  transition_log = [];
  accounts = accounts;
  ledger_transactions = [];
  ledger_entries = [];
  outbox_events = [];
}

abbrev pub message : String → ℤ → Document ℤ
message uetr value = record {
  fi_to_fi_cstmr_cdt_trf = record {
    grp_hdr = record { msg_id = "M1"; nb_of_txs = "1"; sttlm_inf = record { sttlm_mtd = "CLRG" } };
    cdt_trf_tx_inf = record {
      pmt_id = record { instr_id = "I1"; end_to_end_id = "E1"; tx_id = "T1"; uetr = uetr };
      intr_bk_sttlm_amt = record { ccy = "USD"; value = value };
      chrg_br = "SLEV";
      dbtr = record { nm = "Alice" };
      dbtr_acct = record { id = record { othr = record { id = "A" } } };
      dbtr_agt = record { fin_instn_id = record { clr_sys_mmb_id = record { mmb_id = "bank1" } } };
      cdtr_agt = record { fin_instn_id = record { clr_sys_mmb_id = record { mmb_id = "bank2" } } };
      cdtr = record { nm = "Bob" };
      cdtr_acct = record { id = record { othr = record { id = "B" } } };
      rmt_inf = record { ustrd = "" };
    };
  };
}

abbrev pub document : Document ℤ
document = message "u-1" (pos 2500)

-- The tables after each stage; the payment has id 7.
abbrev pub submitted : Db
submitted = (submit_payment le_zero to_numeric 7 100 document (calm start start)).1.committed

abbrev pub cleared : Db
cleared = (clear_payment 101 (some 7) (calm submitted submitted)).1.committed

abbrev pub accepted_db : Db
accepted_db = (respond_to_payment 102 (some 7) Bool.true "" (calm cleared cleared)).1.committed

abbrev pub settled_db : Db
settled_db = (settle_payment 200 (some 7) (calm accepted_db accepted_db)).1.committed

-- The sixth request is answered by nothing, or done without an answer.
abbrev pub flaky : Db → Reply → Session
flaky db r = record {
  committed = db;
  working = db;
  replies = answered ∷ answered ∷ answered ∷ answered ∷ answered ∷ r ∷ [];
}

-- The row of the payment.
abbrev pub payment : PaymentState → Payment
payment s = record {
  id = 7;
  uetr = "u-1";
  end_to_end_id = "E1";
  instr_id = "I1";
  tx_id = "T1";
  msg_id = "M1";
  amount = pos 2500;
  currency = "USD";
  debtor_name = "Alice";
  debtor_account = "A";
  debtor_agent = "bank1";
  creditor_name = "Bob";
  creditor_account = "B";
  creditor_agent = "bank2";
  remittance_info = "";
  status = s;
  reject_reason = "";
}

-- The texts of payment ids.
abbrev pub to_uuid : String → UuidText
to_uuid s = if s == "7" then some 7 else none

abbrev pub refusal : ReceiverResponseRequest
refusal = record { accepted = Bool.false; reason = "no such customer" }

-- A broker that accepts every message, with the topic as its state.
abbrev pub produce : List KafkaPaymentEvent → KafkaPaymentEvent → Bool × List KafkaPaymentEvent
produce topic m = (Bool.true, topic ++ m ∷ [])

abbrev pub IsOnTopic : List KafkaPaymentEvent → KafkaPaymentEvent → Type 0
IsOnTopic [] m = ⊥
IsOnTopic (x ∷ xs) m = (x ≡ m) ⊎ IsOnTopic xs m

-- Two events that wait.
abbrev pub waiting_events : World (List KafkaPaymentEvent)
waiting_events = record {
  outbox_events =
      new_event 100 7 payment_validated (some "u-1") ∷ new_event 101 7 payment_cleared none ∷ [];
  client = [];
}

-- A row that comes in before the first tick, and none before the second.
abbrev pub arrivals : List (List OutboxEvent)
arrivals = (new_event 102 7 payment_accepted none ∷ []) ∷ [] ∷ []

-- The event of the accepted payment, and two attempts to settle it, of which the first is cut off.
abbrev pub accepted_event : KafkaPaymentEvent
accepted_event = kafka_event (new_event 102 7 payment_accepted none)

abbrev pub attempts : List Attempt
attempts =
    record { new_id = 200; replies = (flaky accepted_db unacked).replies }
    ∷ record { new_id = 201; replies = [] }
    ∷ []

abbrev pub validated_event : KafkaPaymentEvent
validated_event = kafka_event (new_event 100 7 payment_validated none)

abbrev pub cleared_event : KafkaPaymentEvent
cleared_event = kafka_event (new_event 101 7 payment_cleared none)

-- What the sender of the message is told.
abbrev pub submitted_answer : PaymentResponse
submitted_answer = record {
  id = 7;
  uetr = "u-1";
  end_to_end_id = "E1";
  status = validated;
  reject_reason = "";
}

-- Numbers in requests: some texts that `strconv.Atoi` reads.
abbrev pub atoi : String → Option ℤ
atoi s = if s == "250" then some (pos 250) else if s == "-3" then some (negsuc 2) else none

-- A limiter with so many requests left, and a handler that finds nothing.
abbrev pub allow : ℕ → Bool × ℕ
allow zero = (Bool.false, zero)
allow (suc n) = (Bool.true, n)

abbrev pub not_found : Handler ℕ (Unit {0})
not_found request w = (http_error 404 "not found", w)

abbrev pub server : Server ℕ (Unit {0})
server = record { limiter = 1; log = []; rest = tt }
