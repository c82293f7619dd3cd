-- ===== src/Payments/Gate/Decision.antt =====
-- What the gate decides, against an independent reading of the policy.
use signmons_calldesk_backen.Base.{
  ◌≡◌, ◌≢◌, ◌⊎◌, ◌↔◌, inl, inr, refl, true, false, Bool, ◌||◌, ◌&&◌, not, if◌then◌else◌, Option,
  none, some, arith, Bool-cases, is_some,
}
use signmons_calldesk_backen.Base.Text.{codes}
use signmons_calldesk_backen.Base.Json.{Json, Fields, record_of, prop, is_true, is_text, text_of}
use signmons_calldesk_backen.Payments.Gate.{
  PaymentGatePayment, PaymentGateDecision, decide_gate, is_succeeded, gate_decision, locked_reason,
  GateStatus, PaymentGateState, PaymentGateReasonCode, evaluate_payment_gate, payment_required,
  exception_approved, gate_status, not_required, locked, unlocked, payment_not_required,
  payment_required_not_requested, payment_pending, payment_failed, payment_canceled,
  payment_refunded, payment_succeeded, payment_exception_approved,
}

-- The policy asks for a deposit or a service fee.
abbrev pub IsRequired : Option Fields → Type 0
IsRequired policy =
    (is_true (prop policy "depositRequired") ≡ true)
    ⊎ (is_true (prop policy "serviceFeeRequired") ≡ true)

-- The policy lets managers override the gate, and holds an active exception with its approval.
pub record HasException (policy : Option Fields) : Type 0 where
  pub manual : is_text (prop policy "paymentGateMode") (codes "manual_override") ≡ true
  pub active : is_true (prop (record_of (prop policy "paymentGateException")) "active") ≡ true
  pub approved :
      is_some (text_of (prop (record_of (prop policy "paymentGateException")) "approvedAt")) ≡ true
  pub reasoned :
      is_some (text_of (prop (record_of (prop policy "paymentGateException")) "reason")) ≡ true

payment_required_iff :
    (policy : Option Fields) → (payment_required policy ≡ true) ↔ IsRequired policy
unfolding payment_required
payment_required_iff policy =
    or_iff (is_true (prop policy "depositRequired")) (is_true (prop policy "serviceFeeRequired"))
  where
    or_iff : (a b : Bool) → ((a || b) ≡ true) ↔ ((a ≡ true) ⊎ (b ≡ true))
    or_iff a b = (ground arith, ground arith)

&&_iff :
    (a b c d : Bool)
    → ((a && b && c && d) ≡ true) ↔ ((a ≡ true) × (b ≡ true) × (c ≡ true) × (d ≡ true))
&&_iff a b c d = (ground arith, ground arith)

pub exception_approved_iff :
    (policy : Option Fields) → (exception_approved policy ≡ true) ↔ HasException policy
unfolding exception_approved
exception_approved_iff policy =
    let split = &&_iff (is_text (prop policy "paymentGateMode") (codes "manual_override")) _ _ _ in
    (
      λ h.
          let (m, a, t, r) = split.0 h in
          record { manual = m; active = a; approved = t; reasoned = r },
      λ h. split.1 (h.manual, h.active, h.approved, h.reasoned),
    )

-- The state as a function of the three tests.
abbrev pub state_of : Bool → Bool → Bool → PaymentGateState
state_of required paid excepted =
    if not required
    then not_required
    else if paid
    then unlocked
    else if excepted
    then unlocked
    else locked

decide_gate-state :
    (r e : Bool) (payment : Option PaymentGatePayment)
    → (decide_gate r e payment).state ≡ state_of r (is_succeeded (gate_status payment)) e
unfolding decide_gate
decide_gate-state r e payment = split r (is_succeeded (gate_status payment)) e
  where
    split :
        (r p e : Bool)
        → (if not r
            then gate_decision r payment not_required payment_not_required
            else if p
            then gate_decision r payment unlocked payment_succeeded
            else if e
            then gate_decision r payment unlocked payment_exception_approved
            else gate_decision r payment locked (locked_reason (gate_status payment))).state
          ≡ state_of r p e
    split false p e = refl
    split true true e = refl
    split true false true = refl
    split true false false = refl

pub evaluate_payment_gate-state :
    (snapshot : Option Json) (payment : Option PaymentGatePayment)
    → let policy = record_of snapshot in
      (evaluate_payment_gate snapshot payment).state
      ≡ state_of
          (payment_required policy)
          (is_succeeded (gate_status payment))
          (exception_approved policy)
unfolding evaluate_payment_gate
evaluate_payment_gate-state snapshot payment =
    decide_gate-state (payment_required (record_of snapshot))
      (exception_approved (record_of snapshot)) payment

-- What lets a job's dispatch go ahead.
pub data MayDispatch (policy : Option Fields) (payment : Option PaymentGatePayment) : Type 0 where
  nothing_due : ¬ IsRequired policy → MayDispatch policy payment
  paid : gate_status payment ≡ GateStatus.succeeded → MayDispatch policy payment
  excepted : HasException policy → MayDispatch policy payment

is_succeeded-eq : (s : GateStatus) → is_succeeded s ≡ true → s ≡ GateStatus.succeeded
unfolding is_succeeded
is_succeeded-eq s h = ground arith

may_dispatch :
    (policy : Option Fields) (payment : Option PaymentGatePayment)
    → state_of
        (payment_required policy)
        (is_succeeded (gate_status payment))
        (exception_approved policy)
      ≢ locked
    → MayDispatch policy payment
may_dispatch policy payment open_gate = elim (Bool-cases (payment_required policy)) [
  | inr e ↦ nothing_due (λ h. cc (e, (payment_required_iff policy).1 h))
  | inl e ↦ elim (Bool-cases (is_succeeded (gate_status payment))) [
    | inl p ↦ paid (is_succeeded-eq _ p)
    | inr p ↦ elim (Bool-cases (exception_approved policy)) [
      | inl x ↦ excepted ((exception_approved_iff policy).0 x)
      | inr x ↦ absurd (open_gate (rw (e, p, x)))
    ]
  ]
]

gate_open :
    (policy : Option Fields) (payment : Option PaymentGatePayment)
    → MayDispatch policy payment
    → state_of
        (payment_required policy)
        (is_succeeded (gate_status payment))
        (exception_approved policy)
      ≢ locked
unfolding is_succeeded
gate_open policy payment (nothing_due h) = elim (Bool-cases (payment_required policy)) [
  | inl e ↦ absurd (h ((payment_required_iff policy).0 e))
  | inr e ↦ rw e (λ l. cc)
]
gate_open policy payment (paid h) = rw h (ground arith)
gate_open policy payment (excepted h) = rw ((exception_approved_iff policy).1 h) (ground arith)

-- The gate is not locked exactly when nothing is due, the payment succeeded, or an active exception
-- with an approval date and a reason stands under a policy of manual override.
pub evaluate_payment_gate-ne-locked_iff :
    (snapshot : Option Json) (payment : Option PaymentGatePayment)
    → ((evaluate_payment_gate snapshot payment).state ≢ locked)
      ↔ MayDispatch (record_of snapshot) payment
evaluate_payment_gate-ne-locked_iff snapshot payment =
    rw evaluate_payment_gate-state
      (may_dispatch (record_of snapshot) payment, gate_open (record_of snapshot) payment)

-- The state that a reason belongs to.
abbrev pub reason_state : PaymentGateReasonCode → PaymentGateState
reason_state payment_not_required = not_required
reason_state payment_succeeded = unlocked
reason_state payment_exception_approved = unlocked
reason_state _ = locked

-- The payment status that a locking reason reports.
abbrev pub reason_status : PaymentGateReasonCode → Option GateStatus
reason_status payment_required_not_requested = some GateStatus.not_requested
reason_status payment_pending = some GateStatus.pending
reason_status payment_failed = some GateStatus.failed
reason_status payment_canceled = some GateStatus.canceled
reason_status payment_refunded = some GateStatus.refunded
reason_status _ = none

abbrev ReasonFits : PaymentGateDecision → Type 0
ReasonFits d =
    (d.state ≡ reason_state d.reason_code)
    × (d.state ≡ locked → reason_status d.reason_code ≡ some d.payment_status)

decide_gate-ReasonFits :
    (r e : Bool) (payment : Option PaymentGatePayment) → ReasonFits (decide_gate r e payment)
unfolding decide_gate
decide_gate-ReasonFits r e payment = ground arith

-- The decision's reason belongs to its state, and a locked decision's reason reports the decision's
-- own payment status.
pub evaluate_payment_gate-reason :
    (snapshot : Option Json) (payment : Option PaymentGatePayment)
    → let d = evaluate_payment_gate snapshot payment in
      (d.state ≡ reason_state d.reason_code)
      × (d.state ≡ locked → reason_status d.reason_code ≡ some d.payment_status)
unfolding evaluate_payment_gate
evaluate_payment_gate-reason snapshot payment =
    decide_gate-ReasonFits (payment_required (record_of snapshot))
      (exception_approved (record_of snapshot)) payment
