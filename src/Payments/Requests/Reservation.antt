-- ===== src/Payments/Requests/Reservation.antt =====
-- payments/payment-requests.service.ts: `create`, and the three methods that it writes through.
use signmons_calldesk_backen.Base.{
  ℕ, Bool, true, false, not, ◌&&◌, ◌||◌, Option, none, some, is_some, when_some, if◌then◌else◌, ltb,
  ◌==◌, Instant, HttpError, conflict, String, [], ◌∷◌,
}
use signmons_calldesk_backen.Base.Text.{Text, Key, text_eq, opt_text_eq, present}
use signmons_calldesk_backen.Base.Audit.{Audit, Detail, user, person}
use signmons_calldesk_backen.Data.Enums.{PaymentStatus, RefundStatus, payment_status_eq}
use signmons_calldesk_backen.Data.Rows.{Job, Payment}
use signmons_calldesk_backen.Payments.Requests.{
  PaymentRequirement, RequirementKind, deposit, service_fee, deposit_and_service_fee,
  expired_or_abandoned, lapsed,
}

pub record CreateRequest : Type 0 where
  pub tenant_id : Key
  pub job_id : Key
  pub actor_id : Key
  pub trace_id : Key
  pub idempotency_key : Text
  pub expected_job_updated_at : Instant

pub record CheckoutRequest : Type 0 where
  pub tenant_id : Key
  pub job_id : Key
  pub payment_request_id : Key
  pub connected_account_id : Key
  pub idempotency_key : Text
  pub amount_total_cents : ℕ
  pub currency : Text
  pub label : String

pub record Checkout : Type 0 where
  pub session_id : Key
  pub payment_intent_id : Option Key
  pub expires_at : Instant
  pub checkout_url : Text

-- `{ tenantId, id, deletedAt: null }`
abbrev pub live_job : Key → Key → Job → Bool
live_job tenant_id job_id j =
    text_eq j.id job_id && text_eq j.tenant_id tenant_id && not (is_some j.deleted_at)

abbrev pub payment_of : Key → Key → Payment → Bool
payment_of tenant_id job_id p = text_eq p.job_id job_id && text_eq p.tenant_id tenant_id

abbrev pub payment_by_id : Key → Key → Payment → Bool
payment_by_id tenant_id id p = text_eq p.id id && text_eq p.tenant_id tenant_id

-- RETRYABLE_PAYMENT_STATUSES
unfoldable pub is_retryable : PaymentStatus → Bool
is_retryable PaymentStatus.failed = true
is_retryable PaymentStatus.canceled = true
is_retryable PaymentStatus.refunded = true
is_retryable _ = false

-- The row that a first request creates.
unfoldable pub new_payment :
    Instant → CreateRequest → Key → Key → Key → PaymentRequirement → Payment
new_payment now input payment_id key_hash account r = record {
  id = payment_id;
  tenant_id = input.tenant_id;
  job_id = input.job_id;
  status = PaymentStatus.pending;
  stripe_payment_intent_id = none;
  stripe_checkout_session_id = none;
  request_key_hash = some key_hash;
  checkout_expires_at = none;
  requested_at = some now;
  stripe_charge_id = none;
  destination_account_id = some account;
  amount_total_cents = r.amount_total_cents;
  application_fee_amount_cents = 0;
  currency = r.currency;
  refund_status = RefundStatus.none;
  refund_amount_cents = none;
  stripe_refund_id = none;
  refund_reason = none;
  updated_at = now;
}

-- The `where` of the reservation: the row as it was read, and retryable, expired or abandoned.
unfoldable pub reservable : Instant → Key → Key → Instant → Payment → Bool
unfolding is_retryable lapsed
reservable now tenant_id id read_at p =
    payment_by_id tenant_id id p
    && p.updated_at == read_at
    && (is_retryable p.status
        || payment_status_eq p.status PaymentStatus.pending
          && lapsed now p.checkout_expires_at p.requested_at)

-- The `data` of the reservation.
unfoldable pub reserve : Instant → Key → Key → PaymentRequirement → Payment → Payment
reserve now key_hash account r p = record p {
  status = PaymentStatus.pending;
  request_key_hash = some key_hash;
  requested_at = some now;
  checkout_expires_at = none;
  stripe_checkout_session_id = none;
  stripe_payment_intent_id = none;
  destination_account_id = some account;
  amount_total_cents = r.amount_total_cents;
  application_fee_amount_cents = 0;
  currency = r.currency;
  refund_status = RefundStatus.none;
  refund_amount_cents = none;
  stripe_refund_id = none;
  refund_reason = none;
  updated_at = now;
}

-- The `where` of `recordCreated` and `recordFailure`: the reservation of this request, with no session.
unfoldable pub reserved : Key → Key → Key → Payment → Bool
reserved tenant_id id key_hash p =
    payment_by_id tenant_id id p
    && opt_text_eq p.request_key_hash (some key_hash)
    && not (is_some p.stripe_checkout_session_id)

unfoldable pub attach_checkout : Instant → Checkout → Payment → Payment
attach_checkout now c p = record p {
  stripe_checkout_session_id = some c.session_id;
  stripe_payment_intent_id = c.payment_intent_id;
  checkout_expires_at = some c.expires_at;
  updated_at = now;
}

unfoldable pub mark_failed : Instant → Payment → Payment
mark_failed now p = record p { status = PaymentStatus.failed; updated_at = now }

abbrev pub kind_name : RequirementKind → String
kind_name deposit = "DEPOSIT"
kind_name service_fee = "SERVICE_FEE"
kind_name deposit_and_service_fee = "DEPOSIT_AND_SERVICE_FEE"

-- The audit entries of `recordCreated` and `recordFailure`.
unfoldable pub request_audit :
    CreateRequest → String → Key → PaymentRequirement → String → String × Detail → Audit
request_audit input action payment_id r status last = record {
  tenant_id = input.tenant_id;
  action = action;
  actor_type = user;
  actor_id = person input.actor_id;
  entity_type = "Payment";
  entity_id = payment_id;
  metadata =
      ("jobId", Detail.text input.job_id)
      ∷ ("requestKind", Detail.word (kind_name r.kind))
      ∷ ("amountTotalCents", Detail.amount r.amount_total_cents)
      ∷ ("currency", Detail.text r.currency)
      ∷ ("status", Detail.word status)
      ∷ last
      ∷ [];
  trace_id = some input.trace_id;
}

-- `job.payment?.requestKeyHash === requestKeyHash`
abbrev pub same_request : Key → Payment → Bool
same_request key_hash p = opt_text_eq p.request_key_hash (some key_hash)

abbrev pub is_pending : Payment → Bool
is_pending p = payment_status_eq p.status PaymentStatus.pending

-- The request that asks again for the link it was given, which is still open.
unfoldable pub is_replay : Instant → Key → Payment → Bool
is_replay now key_hash p =
    same_request key_hash p
    && is_pending p
    && present p.stripe_checkout_session_id
    && when_some p.checkout_expires_at (λ t. ltb now t)

-- The refusals of `create` that look at the payment as it was read.
unfoldable pub refusal : Instant → Key → Payment → Option HttpError
unfolding is_replay expired_or_abandoned
refusal now key_hash p =
    if payment_status_eq p.status PaymentStatus.succeeded
    then some (conflict "Required payment has already succeeded.")
    else if same_request key_hash p
        && present p.stripe_checkout_session_id
        && not (is_replay now key_hash p)
    then some (conflict "The payment link is not active. Create a new request key to retry.")
    else if is_pending p && not (same_request key_hash p) && not (expired_or_abandoned now p)
    then some (conflict "An active payment request already exists for this job.")
    else none
