-- ===== src/Payments/Webhooks.antt =====
-- payments/stripe-webhooks.service.ts: what an event that Stripe signed does to a payment.
pub mod Receive
pub mod Money
pub mod Following
pub mod Replay
pub mod Once
use signmons_calldesk_backen.Base.{
  ℕ, Bool, true, false, not, ◌&&◌, ◌||◌, Option, none, some, is_some, if◌then◌else◌, leb, ◌==◌,
  Result, ok, err, HttpError, unprocessable, check, and_then, ok_or, coalesce, when_some, List, [],
  ◌∷◌,
}
use signmons_calldesk_backen.Base.Text.{
  Text, Key, codes, text_eq, opt_text_eq, starts_with, is_uuid,
}
use signmons_calldesk_backen.Base.Json.{
  Json, num, str, whole, Fields, record_of, prop, get_field, text_of, is_text, max_safe_integer,
}
use signmons_calldesk_backen.Data.Enums.{PaymentStatus, RefundStatus, payment_status_eq}
use signmons_calldesk_backen.Data.Rows.{Payment}

-- A verified event, as `isEvent` admits it.
pub record WebhookEvent : Type 0 where
  pub id : Key
  pub type : Text
  pub account : Key
  pub livemode : Bool
  pub created : Json
  pub object : Fields

-- HANDLED_EVENTS; `other` is any type that is not in the set.
pub data EventType : Type 0 where
  checkout_completed : EventType
  async_payment_succeeded : EventType
  async_payment_failed : EventType
  checkout_expired : EventType
  payment_failed : EventType
  charge_refunded : EventType
  other : EventType

unfoldable pub event_type : Text → EventType
unfolding text_eq
event_type t =
    if text_eq t (codes "checkout.session.completed")
    then checkout_completed
    else if text_eq t (codes "checkout.session.async_payment_succeeded")
    then async_payment_succeeded
    else if text_eq t (codes "checkout.session.async_payment_failed")
    then async_payment_failed
    else if text_eq t (codes "checkout.session.expired")
    then checkout_expired
    else if text_eq t (codes "payment_intent.payment_failed")
    then payment_failed
    else if text_eq t (codes "charge.refunded")
    then charge_refunded
    else other

pub record Transition : Type 0 where
  pub status : Option PaymentStatus
  pub refund_status : Option RefundStatus
  pub refund_amount_cents : Option ℕ
  pub stripe_payment_intent_id : Option Key
  pub stripe_charge_id : Option Key

abbrev pub no_transition : Transition
no_transition = record {
  status = none;
  refund_status = none;
  refund_amount_cents = none;
  stripe_payment_intent_id = none;
  stripe_charge_id = none;
}

-- `prefixed`
unfoldable pub prefixed : Option Json → Text → Option Text
unfolding starts_with
prefixed (some (str t)) prefix = if starts_with t prefix then some t else none
prefixed _ prefix = none

-- `nonnegativeInteger`
unfoldable pub nonnegative_integer : Option Json → Option ℕ
nonnegative_integer (some (num (whole n))) = if leb n max_safe_integer then some n else none
nonnegative_integer _ = none

-- `value === amount`
unfoldable pub is_amount : Option Json → ℕ → Bool
is_amount (some (num (whole n))) amount = n == amount
is_amount _ amount = false

-- `assertExpectedMoney`, on the two values that it compares.
unfoldable pub assert_expected_money : Option Json → Option Json → Payment → Result (Unit {0})
assert_expected_money amount_total currency p =
    check (not (is_amount amount_total p.amount_total_cents) || not (is_text currency p.currency))
      (unprocessable "Stripe payment amount does not match the payment request.")

-- `payment_status` that counts as paid.
abbrev is_paid : Fields → Bool
is_paid object =
    is_text (get_field "payment_status" object) (codes "paid")
    || is_text (get_field "payment_status" object) (codes "no_payment_required")

settle_paid : Fields → Payment → Result Transition
settle_paid object p =
    and_then
      (assert_expected_money (get_field "amount_total" object) (get_field "currency" object) p)
      λ _.
        if payment_status_eq p.status PaymentStatus.refunded
        then ok no_transition
        else ok (record no_transition {
          status = some PaymentStatus.succeeded;
          stripe_payment_intent_id = prefixed (get_field "payment_intent" object) (codes "pi_");
        })

-- A status that an event gives to a payment that is still pending.
when_pending : PaymentStatus → Payment → Transition
when_pending status p =
    if payment_status_eq p.status PaymentStatus.pending
    then record no_transition { status = some status }
    else no_transition

refund_transition : Fields → Payment → ℕ → ℕ → Transition
refund_transition object p refunded amount = record {
  status = some (if refunded == amount then PaymentStatus.refunded else p.status);
  refund_status = some (if refunded == amount then RefundStatus.full else RefundStatus.partial);
  refund_amount_cents = some refunded;
  stripe_payment_intent_id = none;
  stripe_charge_id = prefixed (get_field "id" object) (codes "ch_");
}

abbrev invalid_refund : HttpError
invalid_refund = unprocessable "Stripe refund amount is invalid."

refund : Fields → Payment → Result Transition
unfolding refund_transition
refund object p =
    and_then (assert_expected_money (get_field "amount" object) (get_field "currency" object) p)
      λ _.
        and_then (ok_or (nonnegative_integer (get_field "amount_refunded" object)) invalid_refund)
          λ refunded.
            and_then (ok_or (nonnegative_integer (get_field "amount" object)) invalid_refund)
              λ amount.
                and_then (check (not (leb refunded amount)) invalid_refund)
                  λ _. ok (refund_transition object p refunded amount)

unfoldable pub transition : EventType → Fields → Payment → Result Transition
unfolding settle_paid when_pending refund
transition checkout_completed object p =
    if not (is_paid object) then ok no_transition else settle_paid object p
transition async_payment_succeeded object p = settle_paid object p
transition async_payment_failed object p = ok (when_pending PaymentStatus.failed p)
transition payment_failed object p = ok (when_pending PaymentStatus.failed p)
transition checkout_expired object p = ok (when_pending PaymentStatus.canceled p)
transition charge_refunded object p = refund object p
transition other object p = ok no_transition

-- `paymentUpdate` put on a row: only what the transition names is written.
unfoldable pub apply_transition : Transition → Payment → Payment
apply_transition t p = record p {
  status = coalesce t.status p.status;
  refund_status = coalesce t.refund_status p.refund_status;
  refund_amount_cents = elim t.refund_amount_cents [
    | none ↦ p.refund_amount_cents
    | some n ↦ some n
  ];
  stripe_payment_intent_id = elim t.stripe_payment_intent_id [
    | none ↦ p.stripe_payment_intent_id
    | some k ↦ some k
  ];
  stripe_charge_id = elim t.stripe_charge_id [ none ↦ p.stripe_charge_id | some k ↦ some k ];
}

-- `Object.keys(update).length > 0`
unfoldable pub changes_payment : Transition → Bool
changes_payment t =
    is_some t.status
    || is_some t.refund_status
    || is_some t.refund_amount_cents
    || is_some t.stripe_payment_intent_id
    || is_some t.stripe_charge_id

-- The ids by which `findPayment` looks for the row; each may be absent.
pub record PaymentIds : Type 0 where
  pub request_id : Option Key
  pub session_id : Option Key
  pub intent_id : Option Key
  pub charge_id : Option Key

abbrev uuid_of : Option Text → Option Text
uuid_of none = none
uuid_of (some t) = if is_uuid t then some t else none

unfoldable pub payment_ids : Fields → PaymentIds
unfolding prefixed
payment_ids object =
    let id = get_field "id" object in
    record {
      request_id =
          uuid_of (text_of (prop (record_of (get_field "metadata" object)) "paymentRequestId"));
      session_id = prefixed id (codes "cs_");
      intent_id = elim (prefixed (get_field "payment_intent" object) (codes "pi_")) [
        | some k ↦ some k
        | none ↦ prefixed id (codes "pi_")
      ];
      charge_id = prefixed id (codes "ch_");
    }

abbrev matches_id : Option Key → Option Key → Bool
matches_id wanted column = when_some wanted (λ k. opt_text_eq column (some k))

-- The `where` of `findPayment`. With no id at all nothing matches, as the code returns null.
unfoldable pub names_payment : Key → Key → PaymentIds → Payment → Bool
names_payment tenant_id account ids p =
    text_eq p.tenant_id tenant_id
    && opt_text_eq p.destination_account_id (some account)
    && (matches_id ids.request_id (some p.id)
        || matches_id ids.session_id p.stripe_checkout_session_id
        || matches_id ids.intent_id p.stripe_payment_intent_id
        || matches_id ids.charge_id p.stripe_charge_id)
