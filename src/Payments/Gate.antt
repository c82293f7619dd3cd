-- ===== src/Payments/Gate.antt =====
-- payments/payment-gate.policy.ts: whether a job's payment locks its dispatch.
pub mod Decision
use signmons_calldesk_backen.Base.{
  ◌&&◌, ◌||◌, not, Bool, true, false, Option, none, some, if◌then◌else◌, is_some, String,
}
use signmons_calldesk_backen.Base.Text.{Text, codes, text_eq, trim, truthy, to_lower}
use signmons_calldesk_backen.Base.Json.{
  Json, Number, Fields, record_of, prop, is_true, is_text, text_of,
}

pub data PaymentGateState : Type 0 where
  not_required locked unlocked : PaymentGateState

pub data PaymentGateReasonCode : Type 0 where
  payment_not_required : PaymentGateReasonCode
  payment_required_not_requested : PaymentGateReasonCode
  payment_pending : PaymentGateReasonCode
  payment_failed : PaymentGateReasonCode
  payment_canceled : PaymentGateReasonCode
  payment_refunded : PaymentGateReasonCode
  payment_succeeded : PaymentGateReasonCode
  payment_exception_approved : PaymentGateReasonCode

pub record PaymentGatePayment : Type 0 where
  pub status : Text
  pub amount_total_cents : Option Number
  pub currency : Option Text

pub data GateStatus : Type 0 where
  not_requested pending succeeded failed refunded canceled : GateStatus

pub record PaymentGateDecision : Type 0 where
  pub required : Bool
  pub state : PaymentGateState
  pub payment_status : GateStatus
  pub amount_total_cents : Option Number
  pub currency : Option Text
  pub reason_code : PaymentGateReasonCode
  pub label : String

-- `PAYMENT_STATES.has(status) ? status : "NOT_REQUESTED"`
known_status : Text → GateStatus
known_status s =
    if text_eq s (codes "PENDING")
    then pending
    else if text_eq s (codes "SUCCEEDED")
    then succeeded
    else if text_eq s (codes "FAILED")
    then failed
    else if text_eq s (codes "REFUNDED")
    then refunded
    else if text_eq s (codes "CANCELED")
    then canceled
    else not_requested

-- `payment?.status ?? ""`
unfoldable pub gate_status : Option PaymentGatePayment → GateStatus
unfolding known_status
gate_status none = not_requested
gate_status (some p) = known_status p.status

-- A currency of white space only counts as none; any other is put in lower case, untrimmed.
shown_currency : Option Text → Option Text
unfolding trim to_lower
shown_currency none = none
shown_currency (some c) = if truthy (trim c) then some (to_lower c) else none

gate_amount : Option PaymentGatePayment → Option Number
gate_amount none = none
gate_amount (some p) = p.amount_total_cents

gate_currency : Option PaymentGatePayment → Option Text
unfolding shown_currency
gate_currency none = none
gate_currency (some p) = shown_currency p.currency

unfoldable pub payment_required : Option Fields → Bool
payment_required policy =
    is_true (prop policy "depositRequired") || is_true (prop policy "serviceFeeRequired")

-- The conditions of an authorised payment exception.
unfoldable pub exception_approved : Option Fields → Bool
exception_approved policy =
    let exception = record_of (prop policy "paymentGateException") in
    is_text (prop policy "paymentGateMode") (codes "manual_override")
    && is_true (prop exception "active")
    && is_some (text_of (prop exception "approvedAt"))
    && is_some (text_of (prop exception "reason"))

-- `succeeded` is no key of the table `reasons`, and is asked for by no call.
locked_reason : GateStatus → PaymentGateReasonCode
locked_reason not_requested = payment_required_not_requested
locked_reason pending = payment_pending
locked_reason failed = payment_failed
locked_reason canceled = payment_canceled
locked_reason refunded = payment_refunded
locked_reason succeeded = payment_succeeded

unfoldable pub is_succeeded : GateStatus → Bool
is_succeeded succeeded = true
is_succeeded _ = false

-- The `label` that goes with each reason.
gate_label : PaymentGateReasonCode → String
gate_label payment_not_required = "Payment is not required before dispatch"
gate_label payment_required_not_requested = "Required payment has not been requested"
gate_label payment_pending = "Required payment is pending"
gate_label payment_failed = "Required payment failed"
gate_label payment_canceled = "Required payment was cancelled"
gate_label payment_refunded = "Required payment was refunded"
gate_label payment_succeeded = "Required payment received; dispatch is unlocked"
gate_label payment_exception_approved = "Authorized payment exception; dispatch is unlocked"

-- The four results of `evaluatePaymentGate` differ in the state and the reason.
gate_decision :
    Bool
    → Option PaymentGatePayment
    → PaymentGateState
    → PaymentGateReasonCode
    → PaymentGateDecision
unfolding gate_status gate_amount gate_currency gate_label
gate_decision required payment state reason = record {
  required = required;
  state = state;
  payment_status = gate_status payment;
  amount_total_cents = gate_amount payment;
  currency = gate_currency payment;
  reason_code = reason;
  label = gate_label reason;
}

-- The early returns of `evaluatePaymentGate`, in their order.
decide_gate : Bool → Bool → Option PaymentGatePayment → PaymentGateDecision
unfolding gate_decision locked_reason is_succeeded
decide_gate required excepted payment =
    if not required
    then gate_decision required payment not_required payment_not_required
    else if is_succeeded (gate_status payment)
    then gate_decision required payment unlocked payment_succeeded
    else if excepted
    then gate_decision required payment unlocked payment_exception_approved
    else gate_decision required payment locked (locked_reason (gate_status payment))

unfoldable pub evaluate_payment_gate : Option Json → Option PaymentGatePayment → PaymentGateDecision
unfolding decide_gate
evaluate_payment_gate policy_snapshot payment =
    let policy = record_of policy_snapshot in
    decide_gate (payment_required policy) (exception_approved policy) payment
