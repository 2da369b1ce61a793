-- ===== src/Lib.antt =====
-- A payment rail simulator: a service in Go over Postgres and Kafka that takes credit transfers between
-- accounts, checks and clears them, asks the receiver's bank, and settles them in a ledger.
--
-- The program keeps its state in the tables of schema.sql and ledger.sql. Four transactions change it:
-- handlePayment (main.go) stores and validates a message, clearPayment (clearing.go) checks the
-- creditor's account and reserves the debtor's funds, respondToPayment (receiver.go) accepts the payment
-- or fails it and releases the funds, and settlePayment (settlement.go) books the payment and moves the
-- money. Each moves the payment through the state machine of statemachine.go with applyPaymentEventTx
-- (transitions.go), which also writes the transition log, and each but the last leaves an event in the
-- outbox for the worker of the next stage. reconcilePayment (reconciliation.go) compares a payment with
-- the ledger.
--
-- Files, by the code they are about:
--   Payment: statemachine.go; Payment/Machine: runs of it.
--   Store: the rows and tables, the errors; Store/Tx: transactions over a connection that may lose a
--     reply; Store/Follows: such a call beside the one over a connection that answers; Store/Calm:
--     calls over a connection that answers.
--   Transition: transitions.go; Transition/Steps: what an event does to the tables.
--   Accounts: the UPDATE statements on accounts of clearing.go, receiver.go and settlement.go.
--   Outbox: the functions of outbox.go that write events.
--   Ledger: recordLedgerTransactionTx of ledger.go; Ledger/Entries: when it goes through.
--   Clearing, Receiver, Settlement: clearing.go, receiver.go, settlement.go. Of each, Faults is about
--     lost replies, Outcomes about the tables that a call leaves, and Ends about all its ends.
--   Message and Validate: message.go and validate.go; Validate/Rules: the rules as a predicate.
--   Intake: the POST half of handlePayment in main.go, with Outcomes and Ends; Intake/Columns: the VARCHAR
--     columns of schema.sql.
--   Reconciliation: reconcilePayment; Reconciliation/View: its query over the ledger;
--     Reconciliation/Agrees: the agreement of a payment with the rows of the ledger;
--     Reconciliation/Counts: what the query says of it; Reconciliation/Verdicts: what its answer means.
--   Books: what ties accounts and payments together between transactions, with a file for each step of
--     the argument.
--   System: calls of the four transactions in any order. Of the tables that they reach,
--     System/Reachable is about the accounts, Finality about payments that are over, Reconciled about
--     the ledger and reconcilePayment, Told about the transition log, Announced about the outbox, and
--     Reads about what is shown over HTTP; System/Rail is the abstract rail, System/Journey one payment
--     through all four calls, and System/Steps what these share.
--   Publisher: the loop of kafka.go that hands events to Kafka, with the queries of outbox.go;
--     Publisher/Delivery: over a broker that may refuse; Publisher/Drain: over one that accepts;
--     Publisher/Rounds: how many rounds its inner loop makes; Publisher/Worker: runOutboxPublisher
--     through its ticks. The rows that come in while the inner loop runs are put at the next tick; in
--     Publisher/Delivery they may come in between any two rounds.
--   Handlers: the HTTP handlers of the three later transactions and of the reconciliation (main.go,
--     reconciliation.go); Handlers/Reports: what an answer says of the tables; Handlers/Codes: codes.
--     Handlers/Submit: handlePayment with its two methods.
--   Consumers: the workers of clearing_consumer.go, receiver_consumer.go and settlement_consumer.go;
--     Consumers/Laws: what their loops rely on; Consumers/Handled: the loops for any transaction that
--     keeps these laws; Consumers/Instances: the three transactions; Consumers/Once: the workers;
--     Consumers/Order: the order in which records are committed to Kafka.
--   Queries: the handlers that only read, in Recent (recent_payments.go), Account (accounts.go), Uetr
--     and Log (main.go) and Booking (handleGetLedger of ledger.go).
--   Middleware: middleware.go; Middleware/Stack: the wrappers of a route. Health: health.go.
--   Effects: the four transactions seen as changes of rows; Effects/Calls and Effects/Submits: which
--     change each makes; Effects/Bookings and Effects/Booked: the ledger beside the payments;
--     Effects/History: the transition log beside the payments.
--   Prelude: shared names, amounts of money, and tables with keys. Tests: runs and examples.
--
-- How the code is modelled:
--   A transaction is a function from a session to a result and a session. A session has the committed
--   tables, the tables that the open transaction sees, and the fate of each coming request: answered,
--   lost, or done with the answer lost. An early return leaves the committed tables alone, which is the
--   deferred Rollback. The transactions take row locks (FOR UPDATE, UPDATE), so that calls take effect
--   one after the other; their interleavings are sequences of whole calls.
--   Ids that Postgres generates are arguments, and their primary keys are tested. A payment id in a
--   request is `none` where the cast to uuid is refused. A NUMERIC(18,2) is a whole number of cents,
--   tested for its range at each write. VARCHAR limits are tested where texts come in, and spaces beyond
--   them are cut off (Intake/Columns).
--   The amount in a message is a float64, an abstract type `F` with its test `<= 0` and with what
--   Postgres rounds it to; the premise that a value which is not `<= 0` is not rounded below 0 is a
--   hypothesis of the theorems that need it.
--   The client of Kafka is a parameter of the worker that publishes events, with what a broker does as
--   hypotheses. Its loop runs on fuel, the number of rounds, of which there are enough if there are as
--   many as waiting events. Every other loop is a recursion on a list.
--   A worker of a topic makes a finite list of polls and, for each record, a finite list of attempts:
--   those that are made before the program shuts down. The limiter of the middleware is a parameter,
--   and what a handler does with its ResponseWriter is a list of operations. strconv.Atoi, the cast to
--   uuid and the conversion of a NUMERIC to a float64 are parameters.
--
-- Not modelled: timestamps (rows are in the order of insertion), the bound of sequence numbers, the
-- texts of `Detail` in a reconciliation (their arguments are kept), JSON and HTTP beyond status codes,
-- bodies and the headers of CORS, handlers that panic; the set-up of main.go and of the clients of
-- Kafka, which is I/O, and the rebalancing of the consumers; the web client in web/.
pub mod Prelude
pub mod Payment
pub mod Store
pub mod Transition
pub mod Accounts
pub mod Outbox
pub mod Ledger
pub mod Clearing
pub mod Receiver
pub mod Settlement
pub mod Message
pub mod Validate
pub mod Intake
pub mod Reconciliation
pub mod Books
pub mod Publisher
pub mod Consumers
pub mod Handlers
pub mod Queries
pub mod Middleware
pub mod Health
pub mod Effects
pub mod System
pub mod Tests
