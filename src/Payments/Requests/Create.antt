-- ===== src/Payments/Requests/Create.antt =====
-- payments/payment-requests.service.ts: `create`. What the code leaves to others is given: the digest
-- of the idempotency key, the provider's answer, the new id, the clock, and what other requests commit
-- between the read and the first write (`seen` is the state that was read) and while the provider
-- is asked (`meanwhile`).
use signmons_calldesk_backen.Base.{
  Bool, true, false, not, ◌&&◌, Option, none, some, if◌then◌else◌, ◌==◌, Instant, Result, ok, err,
  HttpError, not_found, conflict, unavailable, unexpected, Action, pure, throw, when, lift, modify,
  ◌>>=◌, ◌>>◌, and_then, check, ok_or,
}
use signmons_calldesk_backen.Base.Text.{Text, Key, text_eq, present}
use signmons_calldesk_backen.Data.Enums.{JobStatus}
use signmons_calldesk_backen.Data.Rows.{Job, Payment, Tenant}
use signmons_calldesk_backen.Data.Store.{Store, Client}
use signmons_calldesk_backen.Payments.Requests.{
  PaymentRequirement, requirement, PaymentTracking, tracking,
}
use signmons_calldesk_backen.Payments.Requests.Reservation.{
  CreateRequest, CheckoutRequest, Checkout, live_job, payment_of, is_replay, refusal, same_request,
}
use signmons_calldesk_backen.Payments.Requests.Writes.{
  reserve_request, record_created, record_failure,
}

abbrev pub is_closed : JobStatus → Bool
is_closed JobStatus.completed = true
is_closed JobStatus.cancelled = true
is_closed _ = false

-- The connected account, where the tenant has one that may charge.
abbrev pub ready_account : Tenant → Option Key
ready_account t =
    if present t.stripe_connect_account_id && t.charges_enabled
    then t.stripe_connect_account_id
    else none

-- A request that comes again keeps the account that it was reserved for.
abbrev pub account_for : Key → Key → Option Payment → Key
account_for key_hash account none = account
account_for key_hash account (some p) = elim p.destination_account_id [
  | none ↦ account
  | some a ↦ if same_request key_hash p && present (some a) then a else account
]

-- What `create` has read and decided when it begins to write.
pub record Plan : Type 0 where
  pub payment_id : Key
  pub key_hash : Key
  pub tenant_account : Key
  pub requirement : PaymentRequirement
  pub existing : Option Payment
  pub replay : Bool

abbrev pub replays : Instant → Key → Option Payment → Bool
replays now key_hash none = false
replays now key_hash (some p) = is_replay now key_hash p

abbrev pub refusal_of : Instant → Key → Option Payment → Option HttpError
refusal_of now key_hash none = none
refusal_of now key_hash (some p) = refusal now key_hash p

abbrev pub request_id : Key → Option Payment → Key
request_id fresh none = fresh
request_id fresh (some p) = p.id

abbrev pub refuse : Option HttpError → Result (Unit {0})
refuse none = ok tt
refuse (some e) = err e

-- The checks of `create` on the job as it was read, up to the first write.
unfoldable pub plan :
    (Text → Key)
    → Key
    → Instant
    → CreateRequest
    → Option Job
    → Option Tenant
    → Option Payment
    → Result Plan
plan hash fresh now input job tenant existing =
    and_then (ok_or job (not_found "Job was not found.")) λ j.
      and_then
        (check (not (j.updated_at == input.expected_job_updated_at))
          (conflict "Job changed after it was loaded. Refresh before requesting payment."))
        λ _.
          and_then
            (check (is_closed j.status) (conflict "Payment cannot be requested for a closed job."))
            λ _. and_then (ok_or tenant unexpected) λ t.
              and_then
                (ok_or (ready_account t)
                  (unavailable "The contractor payment account is not ready to accept charges."))
                λ account.
                  and_then (requirement (some j.policy_snapshot) (some j.pricing_snapshot)) λ r.
                    let key_hash = hash input.idempotency_key in
                    and_then (refuse (refusal_of now key_hash existing)) λ _. ok (record {
                      payment_id = request_id fresh existing;
                      key_hash = key_hash;
                      tenant_account = account;
                      requirement = r;
                      existing = existing;
                      replay = replays now key_hash existing;
                    })

abbrev pub checkout_request : CreateRequest → Plan → CheckoutRequest
checkout_request input p = record {
  tenant_id = input.tenant_id;
  job_id = input.job_id;
  payment_request_id = p.payment_id;
  connected_account_id = account_for p.key_hash p.tenant_account p.existing;
  idempotency_key = input.idempotency_key;
  amount_total_cents = p.requirement.amount_total_cents;
  currency = p.requirement.currency;
  label = p.requirement.label;
}

module _ {J P T U E A : Type 0} (db : Client J P T U E A) where
  abbrev S : Type 0
  S = Store J P T U E A

  -- The row of the job that the request names, with the rows that its `select` joins.
  unfoldable pub read_plan : (Text → Key) → Key → Instant → CreateRequest → S → Result Plan
  unfolding plan
  read_plan hash fresh now input seen =
      let job = db.job.find_first (live_job input.tenant_id input.job_id) seen.jobs in
      let tenant = db.tenant.find_first (λ t. text_eq t.id input.tenant_id) seen.tenants in
      let existing =
        db.payment.find_first (payment_of input.tenant_id input.job_id) seen.payments in
      plan hash fresh now input job tenant existing

  -- The part of `create` after the provider has answered.
  unfoldable pub settle :
      Instant → CreateRequest → Plan → Result Checkout → Action S (PaymentTracking × Text)
  settle later input p (ok checkout) = do
    payment ← record_created db later input p.payment_id p.key_hash p.requirement checkout
    pure (tracking later (some payment), checkout.checkout_url)
  settle later input p (err e) = do
    when (not p.replay) (record_failure db later input p.payment_id p.key_hash p.requirement)
    throw e

  unfoldable pub create :
      (Text → Key)
      → (CheckoutRequest → Result Checkout)
      → Key
      → Instant
      → Instant
      → S
      → (S → S)
      → CreateRequest
      → Action S (PaymentTracking × Text)
  unfolding read_plan settle
  create hash checkout fresh now later seen meanwhile input = do
    p ← lift (read_plan hash fresh now input seen)
    when (not p.replay) (
        reserve_request db now input p.payment_id p.key_hash p.tenant_account p.requirement
          p.existing)
    modify meanwhile
    settle later input p (checkout (checkout_request input p))
