-- ===== src/Payments/Tests.antt =====
-- The theorems on payments, applied to small inputs.
use signmons_calldesk_backen.Base.{
  ℕ, ◌≤◌, ◌+◌, true, false, none, some, [], ◌∷◌, ◌≡◌, ◌≢◌, ◌↔◌, refl, Result, ok, err, unavailable,
  length, all, map,
}
use signmons_calldesk_backen.Base.Text.{codes, text_eq}
use signmons_calldesk_backen.Base.Json.{
  Json, bool, num, str, obj, whole, Fields, end, field, get_field, record_of, prop,
}
use signmons_calldesk_backen.Data.Enums.{JobStatus, JobUrgency, PaymentStatus, RefundStatus}
use signmons_calldesk_backen.Data.Rows.{Job, Payment, Tenant}
use signmons_calldesk_backen.Data.Store.{ListStore, list_client, store_effects}
use signmons_calldesk_backen.Data.Keeps.{Kept-refl}
use signmons_calldesk_backen.Payments.Gate.{PaymentGatePayment, locked, evaluate_payment_gate}
use signmons_calldesk_backen.Payments.Gate.Decision.{
  MayDispatch, evaluate_payment_gate-ne-locked_iff,
}
use signmons_calldesk_backen.Payments.Requests.{PaymentRequirement, RequirementKind, requirement}
use signmons_calldesk_backen.Payments.Requests.Amounts.{due, is_lower_letter, requirement-amount}
use signmons_calldesk_backen.Payments.Requests.Reservation.{
  CreateRequest, CheckoutRequest, Checkout,
}
use signmons_calldesk_backen.Payments.Requests.Create.{create}
use signmons_calldesk_backen.Payments.Requests.Safety.{
  Spares, Spares-refl, Spares-trans, SparesAll, create-spares,
}
use signmons_calldesk_backen.Payments.Requests.Recovery.{
  OpenLink, IsOpen, recoverable, recoverable-IsOpen,
}
use signmons_calldesk_backen.Payments.Webhooks.{
  EventType, WebhookEvent, assert_expected_money, is_amount, prefixed, names_payment, event_type,
  payment_ids, changes_payment, Transition, transition, apply_transition,
}
use signmons_calldesk_backen.Payments.Webhooks.Receive.{
  Receipt, record_event, record_new, receive, webhook_tenant,
}
use signmons_calldesk_backen.Payments.Webhooks.Following.{FollowAll, receive-Follows}
use signmons_calldesk_backen.Payments.Webhooks.Money.{StatesMoney, Refunds, transition-money}
use signmons_calldesk_backen.Payments.Webhooks.Once.{receive-receive}

-- A policy that asks for a deposit, a price of 50 dollars, and a payment of it.
abbrev deposit_policy : Json
deposit_policy = obj (field "depositRequired" (bool true) end)

abbrev fifty_dollars : Json
fifty_dollars =
    obj (field "depositAmountCents" (num (whole 5000)) (field "currency" (str (codes "USD")) end))

abbrev gate_payment : PaymentGatePayment
gate_payment = record {
  status = codes "PENDING";
  amount_total_cents = some (whole 5000);
  currency = some (codes "usd");
}

abbrev pending_payment : Payment
pending_payment = record {
  id = codes "payment-1";
  tenant_id = codes "tenant-1";
  job_id = codes "job-1";
  status = PaymentStatus.pending;
  stripe_payment_intent_id = none;
  stripe_checkout_session_id = some (codes "cs_1");
  request_key_hash = none;
  checkout_expires_at = some 900;
  requested_at = some 100;
  stripe_charge_id = none;
  destination_account_id = some (codes "acct_1");
  amount_total_cents = 5000;
  application_fee_amount_cents = 0;
  currency = codes "usd";
  refund_status = RefundStatus.none;
  refund_amount_cents = none;
  stripe_refund_id = none;
  refund_reason = none;
  updated_at = 100;
}

abbrev paid_session : Fields
paid_session = field "id" (str (codes "cs_1")) (
    field "payment_status" (str (codes "paid"))
      (field "amount_total" (num (whole 5000)) (field "currency" (str (codes "usd")) end)))

abbrev paid_event : WebhookEvent
paid_event = record {
  id = codes "evt_1";
  type = codes "checkout.session.completed";
  account = codes "acct_1";
  livemode = false;
  created = num (whole 1);
  object = paid_session;
}

abbrev tenant_one : Tenant
tenant_one = record {
  id = codes "tenant-1";
  stripe_connect_account_id = some (codes "acct_1");
  charges_enabled = true;
}

abbrev store_one : ListStore
store_one = record {
  jobs = [];
  payments = pending_payment ∷ [];
  tenants = tenant_one ∷ [];
  subscriptions = [];
  stripe_events = [];
  audits = [];
}

abbrev request_one : CreateRequest
request_one = record {
  tenant_id = codes "tenant-1";
  job_id = codes "job-1";
  actor_id = codes "user-1";
  trace_id = codes "trace-1";
  idempotency_key = codes "key-1";
  expected_job_updated_at = 7;
}

abbrev no_provider : CheckoutRequest → Result Checkout
no_provider r = err (unavailable "Checkout is unavailable.")

evaluate_payment_gate-ne-locked_iff_example :
    ((evaluate_payment_gate (some deposit_policy) (some gate_payment)).state ≢ locked)
    ↔ MayDispatch (record_of (some deposit_policy)) (some gate_payment)
evaluate_payment_gate-ne-locked_iff_example =
    evaluate_payment_gate-ne-locked_iff (some deposit_policy) (some gate_payment)

abbrev deposit_due : PaymentRequirement
deposit_due = record {
  kind = RequirementKind.deposit;
  label = "Required service deposit";
  amount_total_cents = 5000;
  currency = codes "usd";
}

deposit_asked : requirement (some deposit_policy) (some fifty_dollars) ≡ ok deposit_due
unfolding requirement
deposit_asked = refl

requirement-amount_example :
    (5000
      ≡ due true (prop (record_of (some fifty_dollars)) "depositAmountCents")
        + due false (prop (record_of (some fifty_dollars)) "serviceFeeAmountCents"))
    × (1 ≤ 5000)
    × (5000 ≤ 200_000_000)
    × (length (codes "usd") ≡ 3)
    × (all is_lower_letter (codes "usd") ≡ true)
requirement-amount_example =
    requirement-amount (some deposit_policy) (some fifty_dollars) deposit_asked

-- The provider fails, and nothing else happens meanwhile.
create-spares_example :
    SparesAll list_client 300 store_one
      (create list_client
        (λ t. t)
        no_provider
        (codes "payment-2")
        300
        301
        store_one
        (λ s. s)
        request_one
        store_one).1
create-spares_example =
    create-spares list_client 300 (λ t. t) no_provider (codes "payment-2") 301 store_one (λ s. s)
      request_one (λ s. Kept-refl list_client (Spares 300) (Spares-refl 300) (Spares-trans 300) s)
      store_one

abbrev paid : Transition
paid = record {
  status = some PaymentStatus.succeeded;
  refund_status = none;
  refund_amount_cents = none;
  stripe_payment_intent_id = none;
  stripe_charge_id = none;
}

session_paid : transition EventType.checkout_completed paid_session pending_payment ≡ ok paid
unfolding transition text_eq assert_expected_money is_amount prefixed
session_paid = refl

transition-money_example :
    (some PaymentStatus.succeeded ≡ some PaymentStatus.succeeded
      → PaymentStatus.pending ≢ PaymentStatus.succeeded
      → StatesMoney (get_field "amount_total" paid_session) paid_session pending_payment)
    × ((n : ℕ)
        → none ≡ some n
        → StatesMoney (get_field "amount" paid_session) paid_session pending_payment
          × Refunds pending_payment n paid)
transition-money_example =
    transition-money EventType.checkout_completed paid_session pending_payment session_paid

abbrev job_one : Job
job_one = record {
  id = codes "job-1";
  tenant_id = codes "tenant-1";
  customer_id = codes "c1";
  service_category_id = codes "s1";
  assigned_user_id = none;
  assigned_user_tenant_id = none;
  status = JobStatus.created;
  technician_status = none;
  technician_status_updated_at = none;
  urgency = JobUrgency.standard;
  intake_session_id = none;
  pricing_snapshot = fifty_dollars;
  policy_snapshot = deposit_policy;
  preferred_time_text = none;
  service_window_start = none;
  service_window_end = none;
  calendar_event_id = none;
  accepted_at = none;
  completed_at = none;
  updated_at = 7;
  deleted_at = none;
}

abbrev link_one : OpenLink
link_one = record {
  payment = pending_payment;
  connected_account_id = codes "acct_1";
  session_id = codes "cs_1";
}

link_open :
    recoverable 300 (some job_one) (some tenant_one) (some pending_payment) ≡ ok (job_one, link_one)
unfolding recoverable text_eq
link_open = refl

recoverable-IsOpen_example : IsOpen 300 (some pending_payment) link_one
recoverable-IsOpen_example =
    recoverable-IsOpen 300 (some job_one) (some tenant_one) (some pending_payment) link_open

abbrev handled_once : Receipt
handled_once = record { handled = true; duplicate = false }

first_delivery :
    (receive list_client 400 (codes "trace-1") false store_one paid_event store_one).0
    ≡ ok handled_once
unfolding receive store_effects text_eq transition assert_expected_money is_amount prefixed
    names_payment event_type webhook_tenant payment_ids record_event record_new changes_payment
first_delivery = refl

account_known : webhook_tenant list_client paid_event store_one ≡ some tenant_one
unfolding webhook_tenant text_eq
account_known = refl

-- The payment was refunded after it was read, and the event pays it again.
abbrev refunded_store : ListStore
refunded_store = record store_one {
  payments = record pending_payment { status = PaymentStatus.refunded } ∷ [];
}

receive-Follows_example :
    FollowAll list_client store_one paid_event refunded_store
      (receive list_client 400 (codes "trace-1") false store_one paid_event refunded_store).1
receive-Follows_example =
    receive-Follows list_client store_one paid_event 400 (codes "trace-1") false refunded_store

paid_again :
    map
      (λ p. p.status)
      (receive list_client 400
        (codes "trace-1")
        false
        store_one
        paid_event
        refunded_store).1.payments
    ≡ PaymentStatus.succeeded ∷ []
unfolding receive transition text_eq assert_expected_money is_amount prefixed store_effects
    event_type webhook_tenant names_payment payment_ids record_event record_new changes_payment
    apply_transition
paid_again = refl

receive-receive_example :
    (receive list_client 500
      (codes "trace-2")
      false
      store_one
      paid_event
      (receive list_client 400 (codes "trace-1") false store_one paid_event store_one).1).1
    ≡ (receive list_client 400 (codes "trace-1") false store_one paid_event store_one).1
receive-receive_example =
    receive-receive list_client 400 500 (codes "trace-1") (codes "trace-2") false store_one
      store_one paid_event store_one account_known account_known first_delivery refl
