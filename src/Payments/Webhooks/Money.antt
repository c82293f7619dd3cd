-- ===== src/Payments/Webhooks/Money.antt =====
-- Which changes of a payment's status an event can make, and that money decides them.
use signmons_calldesk_backen.Base.{
  ℕ, true, not, Option, none, some, ok, ◌≡◌, ◌≢◌, ◌⊎◌, inl, inr, refl, sym, ◌∙◌, some_inj, arith,
  Bool-cases, ok-injective, and_then-ok, ok_or, ok_or-ok, if◌then◌else◌, leb, ◌==◌, ◌≤◌, check,
}
use signmons_calldesk_backen.Base.Json.{Json, num, whole, Fields, get_field, is_text}
use signmons_calldesk_backen.Data.Enums.{PaymentStatus}
use signmons_calldesk_backen.Data.Rows.{Payment}
use signmons_calldesk_backen.Payments.Webhooks.{
  EventType, Transition, transition, apply_transition, assert_expected_money, settle_paid, refund,
  when_pending, is_amount, is_paid, invalid_refund, refund_transition, nonnegative_integer,
  refund_transition,
}

-- The changes of status that events make.
pub data ◌⇝◌ : PaymentStatus → PaymentStatus → Type 0 where
  stay : {s : PaymentStatus} → s ⇝ s
  pay : {s : PaymentStatus} → s ≢ PaymentStatus.refunded → s ⇝ PaymentStatus.succeeded
  fail : PaymentStatus.pending ⇝ PaymentStatus.failed
  cancel : PaymentStatus.pending ⇝ PaymentStatus.canceled
  give_back : {s : PaymentStatus} → s ⇝ PaymentStatus.refunded

infix 40 ◌⇝◌
settle_paid-⇝ :
    (object : Fields) (p : Payment) {t : Transition}
    → settle_paid object p ≡ ok t
    → p.status ⇝ (apply_transition t p).status
unfolding settle_paid apply_transition
settle_paid-⇝ object p h = grind (arith, stay, pay)

when_pending-⇝ :
    (s : PaymentStatus) (p : Payment)
    → ((s ≡ PaymentStatus.failed) ⊎ (s ≡ PaymentStatus.canceled))
    → p.status ⇝ (apply_transition (when_pending s p) p).status
unfolding when_pending apply_transition
when_pending-⇝ s p h = grind (arith, stay, fail, cancel)

refund-⇝ :
    (object : Fields) (p : Payment) {t : Transition}
    → refund object p ≡ ok t
    → p.status ⇝ (apply_transition t p).status
unfolding refund apply_transition
refund-⇝ object p h = grind (arith, stay, give_back)

-- Whatever an event says, the payment's status changes along an edge of the diagram or not at all.
pub transition-⇝ :
    (e : EventType) (object : Fields) (p : Payment) {t : Transition}
    → transition e object p ≡ ok t
    → p.status ⇝ (apply_transition t p).status
unfolding transition apply_transition
transition-⇝ EventType.checkout_completed object p h = elim (Bool-cases (is_paid object)) [
  | inl e ↦ settle_paid-⇝ object p (rw e at h)
  | inr e ↦ grind (arith, stay)
]
transition-⇝ EventType.async_payment_succeeded object p h = settle_paid-⇝ object p h
transition-⇝ EventType.async_payment_failed object p h =
    rw (← ok-injective h) (when_pending-⇝ _ p (inl refl))
transition-⇝ EventType.checkout_expired object p h =
    rw (← ok-injective h) (when_pending-⇝ _ p (inr refl))
transition-⇝ EventType.payment_failed object p h =
    rw (← ok-injective h) (when_pending-⇝ _ p (inl refl))
transition-⇝ EventType.charge_refunded object p h = refund-⇝ object p h
transition-⇝ EventType.other object p h = rw (← ok-injective h) stay

-- The event states the amount and the currency of the payment, under `total`.
abbrev pub StatesMoney : Option Json → Fields → Payment → Type 0
StatesMoney total object p =
    (is_amount total p.amount_total_cents ≡ true)
    × (is_text (get_field "currency" object) p.currency ≡ true)

assert_expected_money-ok :
    (amount currency : Option Json) (p : Payment) {u : Unit {0}}
    → assert_expected_money amount currency p ≡ ok u
    → (is_amount amount p.amount_total_cents ≡ true) × (is_text currency p.currency ≡ true)
unfolding assert_expected_money
assert_expected_money-ok amount currency p h = ground arith

settle_paid-money :
    (object : Fields) (p : Payment) {t : Transition}
    → settle_paid object p ≡ ok t
    → StatesMoney (get_field "amount_total" object) object p × (t.refund_amount_cents ≡ none)
unfolding settle_paid assert_expected_money
settle_paid-money object p h = ground arith

amount_read :
    (v : Option Json) (n : ℕ) {a : ℕ}
    → is_amount v n ≡ true
    → nonnegative_integer v ≡ some a
    → a ≡ n
unfolding is_amount nonnegative_integer
amount_read (some (num (whole m))) n h k = ground arith
amount_read _ n h k = ground arith

-- What a refund writes: an amount within the payment, and a full refund exactly at the whole of it.
abbrev pub Refunds : Payment → ℕ → Transition → Type 0
Refunds p n t =
    (t.refund_amount_cents ≡ some n)
    × (n ≤ p.amount_total_cents)
    × (t.status ≡ some (if n == p.amount_total_cents then PaymentStatus.refunded else p.status))

refund_transition-Refunds :
    (object : Fields) (p : Payment) (n amount : ℕ)
    → amount ≡ p.amount_total_cents
    → leb n amount ≡ true
    → Refunds p n (refund_transition object p n amount)
unfolding refund_transition
refund_transition-Refunds object p n amount e le = rw e (refl, ground arith, refl)

refund-money :
    (object : Fields) (p : Payment) {t : Transition}
    → refund object p ≡ ok t
    → StatesMoney (get_field "amount" object) object p × ((n : ℕ) × Refunds p n t)
unfolding refund
refund-money object p {t} h =
    let amount_field = get_field "amount" object in
    let currency_field = get_field "currency" object in
    let (_, money, h1) = and_then-ok (assert_expected_money amount_field currency_field p) _ h in
    let refunded_field = nonnegative_integer (get_field "amount_refunded" object) in
    let whole_field = nonnegative_integer amount_field in
    let (refunded, _, h2) = and_then-ok (ok_or refunded_field invalid_refund) _ h1 in
    let (amount, a, h3) = and_then-ok (ok_or whole_field invalid_refund) _ h2 in
    let (_, le, done) = and_then-ok (check (not (leb refunded amount)) invalid_refund) _ h3 in
    let same : refund_transition object p refunded amount ≡ t = ok-injective done in
    let stated = assert_expected_money-ok amount_field currency_field p money in
    let total =
      amount_read (get_field "amount" object) p.amount_total_cents stated.0
        (ok_or-ok whole_field invalid_refund a) in
    (
      stated,
      (
        refunded,
        rw (← same) (refund_transition-Refunds object p refunded amount total (ground (arith, le))),
      ),
    )

abbrev MoneyDecides : Fields → Payment → Transition → Type 0
MoneyDecides object p t =
    (t.status ≡ some PaymentStatus.succeeded
      → p.status ≢ PaymentStatus.succeeded
      → StatesMoney (get_field "amount_total" object) object p)
    × ((n : ℕ)
        → t.refund_amount_cents ≡ some n
        → StatesMoney (get_field "amount" object) object p × Refunds p n t)

paid_money :
    (object : Fields) (p : Payment) {t : Transition}
    → settle_paid object p ≡ ok t
    → MoneyDecides object p t
paid_money object p h = let m = settle_paid-money object p h in (λ _ _. m.0, λ n e. cc)

kept_status :
    (n total : ℕ) (s : PaymentStatus)
    → some (if n == total then PaymentStatus.refunded else s) ≡ some PaymentStatus.succeeded
    → s ≡ PaymentStatus.succeeded
kept_status n total s h = ground arith

refund_only :
    (object : Fields) (p : Payment) {t : Transition}
    → refund object p ≡ ok t
    → MoneyDecides object p t
refund_only object p {t} h =
    let (stated, written) = refund-money object p h in
    let (n, r) = written in
    (
      λ s old. absurd (old (kept_status n p.amount_total_cents p.status (sym r.2 ∙ s))),
      λ k e. (stated, rw (some_inj (sym e ∙ r.0)) r),
    )

-- A payment is marked as succeeded, or a refund is written, only if the event states the payment's own
-- amount and currency. A refund is within the payment, and marks it as refunded exactly when it is
-- the whole of it; a part leaves the status alone.
pub transition-money :
    (e : EventType) (object : Fields) (p : Payment) {t : Transition}
    → transition e object p ≡ ok t
    → (t.status ≡ some PaymentStatus.succeeded
        → p.status ≢ PaymentStatus.succeeded
        → StatesMoney (get_field "amount_total" object) object p)
      × ((n : ℕ)
          → t.refund_amount_cents ≡ some n
          → StatesMoney (get_field "amount" object) object p × Refunds p n t)
unfolding transition when_pending
transition-money EventType.checkout_completed object p h = elim (Bool-cases (is_paid object)) [
  | inl e ↦ paid_money object p (rw e at h)
  | inr e ↦ ground arith
]
transition-money EventType.async_payment_succeeded object p h = paid_money object p h
transition-money EventType.async_payment_failed object p h = ground arith
transition-money EventType.checkout_expired object p h = ground arith
transition-money EventType.payment_failed object p h = ground arith
transition-money EventType.charge_refunded object p h = refund_only object p h
transition-money EventType.other object p h = ground arith
