-- ===== src/Lib.antt =====
-- Signmons Call Desk backend: payments, text messages, appointments, dispatch and the closing of jobs.
--
-- The backend books service jobs for contractors. A job may require a payment before it is dispatched;
-- the customer is sent a checkout link, and Stripe reports what became of it. Customers are sent text
-- messages through Twilio, as far as their consent goes. A customer books a slot, moves it and cancels it
-- by signed tokens, and each appointment is an event of a Google calendar. The office assigns a technician
-- whom the rules of routing and the gate allow, and may change the urgency; the technician enters by a
-- signed link and moves the job along, and the office closes it. The parts meet in the database: the gate
-- reads the payment that requests and webhooks write and the policy that reviews write, delivery reads the
-- consent that keywords and calls write, and scheduling, dispatch, technician and office write the same
-- job.
--
-- Files and the code they stand for:
--   Base        the HTTP exceptions, actions on a store that may throw, transactions, texts as UTF-16 code
--               units, JSON values, and the database client: a table is any type with `find_first`,
--               `update_many` and `create` that act on its rows as documented (a table kept as a list has
--               these laws)
--   Data        prisma/schema.prisma: the enumerations, the rows and the store of payments and jobs, and
--               rules for actions under which each payment stays related to what it was
--   Payments    src/payments
--     Gate      payment-gate.policy.ts: `evaluatePaymentGate`
--     Requests  payment-requests.service.ts: `requirement` and the pure helpers in Requests, the columns that
--               are written in Reservation, `reserveRequest`, `recordCreated` and `recordFailure` in Writes,
--               `create` in Create, `governException` in Exceptions, `get` and `recover` in Recovery
--     Webhooks  stripe-webhooks.service.ts: `transition`, `findPayment` and `paymentUpdate` in Webhooks,
--               `receive` in Receive
--   Sms         src/communications
--     Rows      prisma/schema.prisma: consent records, customers and communication events, and their store
--     Keywords, Consent
--               sms-consent.service.ts: numbers, quiet hours, keywords and answers; the service's methods
--     Events, Delivery, Delivery/Service
--               sms-delivery.service.ts: what each step does to a row; an attempt to deliver; `create`,
--               `replayDeadLetter`, `applyStatus`, `processDue` and sequences of calls
--   Jobs        src/jobs
--     Lifecycle job-lifecycle.service.ts: `completeJob`
--     Technician, Technician/Service
--               technician-workflow.service.ts: transitions and `update`
--     Links     technician-link.service.ts: `issue` and `verify`
--   Scheduling  src/scheduling/scheduling.service.ts: the pure helpers in Scheduling, signed payloads in Tokens,
--               Google's calendar in Calendar, `getAvailableSlots` in Slots, `confirmAppointment` in Confirm,
--               `cancelAppointment` in Cancel, `rescheduleAppointment` in Reschedule, `manageAppointment` in
--               Manage, and sequences of changes to one appointment in Sequences
--   Dispatch    src/jobs
--     Postal, Routing
--               routing.service.ts: `postalCode`; `evaluateJob`
--     Board     dispatch-board.service.ts: `candidates`, `recommend`, `queue`
--     Assign, Unassign
--               dispatch-board.service.ts: `assign`; `cancelAssignment`
--   Review      src/jobs
--     Urgency   urgency-review.service.ts: `override` and `rationale`
--     Intake    intake-readiness.service.ts: `review` and `toSummary`, and in Intake/Records how the entries of the
--               transcript and the history are read
-- The other files hold theorems, and the files named Tests, ExceptionTests or ChangeTests apply them to small inputs.
--
-- Conventions. A method is an action: a function from the store to a result, or an exception, and the
-- store. A throw keeps what was written before it, except in a transaction, which is undone. What a method
-- reads before it writes can be stale: such reads take a store of their own, `seen`, and what other
-- requests commit while `create` waits for the provider is the function `meanwhile`. The current time is an
-- argument, one for all that a step reads from the clock, in milliseconds. A round of `processDue`
-- delivers its events one after another. The calendar is a state of its own beside the database (`World`),
-- with the notifications that were queued; what Google answers to a call and makes of its state is given,
-- with no hypothesis on it: an answer that did not arrive may have changed anything. Between two writes of
-- one method nothing else is committed, except in `create`. That the database refuses a single update or
-- entry is an argument where the code handles it (`refusal`). Signed tokens stand over a codec: the digest,
-- base64url and JSON. A unique key that a write would violate is looked for before it. `find_first` takes
-- the first row that fits, in the table's own order. Ids and digests are texts that are only compared.
-- Every loop is over a list or a number of days, so there is no fuel.
--
-- Given, and not modelled: the database behind the client, the digests, encryption, JSON parsing, time
-- zones and the other texts of the JavaScript engine (`Settings`), and the clients of Stripe, Twilio and
-- Google (an answer is an argument of the call). `toLowerCase` is modelled for ASCII letters and
-- `toUpperCase` for the characters that matter for the keywords; the columns and joins that no modelled
-- method reads are left out of the rows.
-- Not modelled: reports on the services' data, signatures of Stripe's webhooks, the technician's lists,
-- the views of the dispatch board and the urgency review, the escalation of a review, the configuration of
-- routing, the creation of jobs, the conversation, and controllers, guards and configuration.
pub mod Base
pub mod Data
pub mod Jobs
pub mod Payments
pub mod Sms
pub mod Scheduling
pub mod Dispatch
pub mod Review
