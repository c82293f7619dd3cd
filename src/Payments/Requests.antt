-- ===== src/Payments/Requests.antt =====
-- payments/payment-requests.service.ts: what a payment request must ask for, how a payment is
-- shown, and when a request has lapsed. The methods that write are in the children.
pub mod Amounts
pub mod Reservation
pub mod Writes
pub mod Create
pub mod Safety
pub mod Exceptions
pub mod Unlocking
pub mod Recovery
use signmons_calldesk_backen.Base.{
  ℕ, ◌+◌, ◌*◌, ◌-◌, Bool, true, false, not, ◌&&◌, ◌||◌, Option, none, some, if◌then◌else◌, leb, ltb,
  ◌==◌, Instant, Result, ok, err, HttpError, conflict, unprocessable, check, and_then, ok_or,
  when_some, String, List, [], ◌∷◌, length, all,
}
use signmons_calldesk_backen.Base.Text.{Text, Key, codes, text_eq, trim, to_lower, one_of}
use signmons_calldesk_backen.Base.Json.{
  Json, num, str, Number, whole, negative, fraction, Fields, record_of, prop, is_true,
}
use signmons_calldesk_backen.Data.Enums.{PaymentStatus, payment_status_eq}
use signmons_calldesk_backen.Data.Rows.{Payment}

pub data RequirementKind : Type 0 where
  deposit service_fee deposit_and_service_fee : RequirementKind

pub record PaymentRequirement : Type 0 where
  pub kind : RequirementKind
  pub label : String
  pub amount_total_cents : ℕ
  pub currency : Text

abbrev pub request_reservation_timeout_ms : ℕ
request_reservation_timeout_ms = 5 * 60 * 1000

abbrev pub max_amount_cents : ℕ
max_amount_cents = 100_000_000

abbrev deposit_message : String
deposit_message = "Job pricing does not define a valid depositAmountCents."

abbrev fee_message : String
fee_message = "Job pricing does not define a valid serviceFeeAmountCents."

-- `money`: a whole number from 1 to 100,000,000; the message names the field.
money : Option Json → String → Result ℕ
money (some (num (whole n))) message =
    if leb n 0 || ltb max_amount_cents n then err (unprocessable message) else ok n
money _ message = err (unprocessable message)

is_letter : ℕ → Bool
is_letter c = leb b'A' c && leb c b'Z' || leb b'a' c && leb c b'z'

-- `/^[A-Za-z]{3}$/`
is_currency_code : Text → Bool
unfolding is_letter
is_currency_code t = length t == 3 && all is_letter t

requirement_currency : Option Json → Option Text
unfolding is_currency_code to_lower
requirement_currency (some (str t)) = if is_currency_code t then some (to_lower t) else none
requirement_currency _ = none

-- The amount of a part that the policy requires, and 0 for one that it does not.
required_part : Bool → Option Json → String → Result ℕ
unfolding money
required_part required value message = if required then money value message else ok 0

requirement_of : Bool → Bool → ℕ → ℕ → Text → PaymentRequirement
requirement_of true true deposit_amount fee_amount currency = record {
  kind = deposit_and_service_fee;
  label = "Required service deposit and fee";
  amount_total_cents = deposit_amount + fee_amount;
  currency = currency;
}
requirement_of true false deposit_amount fee_amount currency = record {
  kind = deposit;
  label = "Required service deposit";
  amount_total_cents = deposit_amount;
  currency = currency;
}
requirement_of false _ deposit_amount fee_amount currency = record {
  kind = service_fee;
  label = "Required service fee";
  amount_total_cents = fee_amount;
  currency = currency;
}

unfoldable pub requirement : Option Json → Option Json → Result PaymentRequirement
unfolding required_part requirement_currency requirement_of
requirement policy_value pricing_value =
    let policy = record_of policy_value in
    let pricing = record_of pricing_value in
    let deposit_required = is_true (prop policy "depositRequired") in
    let fee_required = is_true (prop policy "serviceFeeRequired") in
    and_then
      (check (not deposit_required && not fee_required)
        (conflict "This job does not require payment before dispatch."))
      λ _.
        and_then
          (required_part deposit_required (prop pricing "depositAmountCents") deposit_message)
          λ deposit_amount.
            and_then (required_part fee_required (prop pricing "serviceFeeAmountCents") fee_message)
              λ fee_amount.
                and_then
                  (ok_or (requirement_currency (prop pricing "currency"))
                    (unprocessable "Job pricing does not define a valid payment currency."))
                  λ currency. ok (
                    requirement_of deposit_required fee_required deposit_amount fee_amount currency)

-- `advancedPaymentPlan`; no subscription means no plan.
unfoldable pub advanced_payment_plan : Option Text → Bool
unfolding trim to_lower one_of
advanced_payment_plan none = false
advanced_payment_plan (some plan_id) =
    one_of (to_lower (trim plan_id)) (codes "growth" ∷ codes "pro" ∷ codes "enterprise" ∷ [])

pub record PaymentTracking : Type 0 where
  pub payment_request_id : Option Key
  pub status : Option PaymentStatus  -- `none` is "NOT_REQUESTED"
  pub amount_total_cents : Option ℕ
  pub currency : Option Text
  pub requested_at : Option Instant
  pub checkout_expires_at : Option Instant
  pub request_active : Bool

unfoldable pub tracking : Instant → Option Payment → PaymentTracking
tracking now none = record {
  payment_request_id = none;
  status = none;
  amount_total_cents = none;
  currency = none;
  requested_at = none;
  checkout_expires_at = none;
  request_active = false;
}
tracking now (some p) = record {
  payment_request_id = some p.id;
  status = some p.status;
  amount_total_cents = some p.amount_total_cents;
  currency = some p.currency;
  requested_at = p.requested_at;
  checkout_expires_at = p.checkout_expires_at;
  request_active =
      payment_status_eq p.status PaymentStatus.pending
      && when_some p.checkout_expires_at (λ t. ltb now t);
}

-- `requestedAt <= Date.now() - REQUEST_RESERVATION_TIMEOUT_MS`, with the timeout on the other side.
lapsed : Instant → Option Instant → Option Instant → Bool
lapsed now (some expires) requested = leb expires now
lapsed now none none = false
lapsed now none (some requested) = leb (requested + request_reservation_timeout_ms) now

unfoldable pub expired_or_abandoned : Instant → Payment → Bool
unfolding lapsed
expired_or_abandoned now p =
    payment_status_eq p.status PaymentStatus.pending
    && lapsed now p.checkout_expires_at p.requested_at
