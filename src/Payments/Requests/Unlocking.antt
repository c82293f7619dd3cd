-- ===== src/Payments/Requests/Unlocking.antt =====
-- What an exception does to the gate of its job.
use signmons_calldesk_backen.Base.{
  ℕ, Bool, true, false, not, ◌&&◌, Option, some, ◌≡◌, refl, ◌∙◌, arith, ok, err, Instant, inl, inr,
  Bool-cases, and_then-ok, ok_or-ok, ok-injective, check, ok_or, find, find-holds, ◌==◌,
  if◌then◌else◌, HttpError, Result-cases, conflict, not_found, effects, after, commit,
}
use signmons_calldesk_backen.Base.Text.{Text, Key, codes}
use signmons_calldesk_backen.Base.Json.{
  Json, obj, Fields, get_field, set_field, record_of, prop, is_text, get_field-set_field_self,
  get_field-set_field_ne,
}
use signmons_calldesk_backen.Base.Table.{find-update_rows_if, count_rows, count_rows-one}
use signmons_calldesk_backen.Data.Rows.{Job, Payment, Subscription}
use signmons_calldesk_backen.Data.Store.{Store, Client, update_jobs, create_audit}
use signmons_calldesk_backen.Payments.Gate.{
  PaymentGatePayment, PaymentGateState, locked, unlocked, gate_status, is_succeeded,
  payment_required, exception_approved, evaluate_payment_gate,
}
use signmons_calldesk_backen.Payments.Gate.Decision.{state_of, evaluate_payment_gate-state}
use signmons_calldesk_backen.Payments.Requests.Reservation.{live_job}
use signmons_calldesk_backen.Payments.Requests.Create.{is_closed}
use signmons_calldesk_backen.Payments.Requests.Exceptions.{
  ExceptionAction, approve, revoke, ExceptionRequest, ExceptionResult, approves, standing_message,
  snapshot_of, is_paid, may_govern, exception_fields, change_exception, set_policy, policy_key,
  write_exception, read_exception, govern_exception, is_flag,
}

-- The state of the gate that an action is to bring about.
abbrev pub state_after : ExceptionAction → PaymentGateState
state_after approve = unlocked
state_after revoke = locked

abbrev pub with_exception :
    (Instant → Text) → Instant → ExceptionAction → ExceptionRequest → Fields → Fields
with_exception to_iso now action r policy =
    set_field "paymentGateException" (obj (exception_fields to_iso now action r)) policy

-- An exception leaves the other keys of the policy alone.
with_exception-required :
    (v : Json) (policy : Fields)
    → payment_required (some (set_field "paymentGateException" v policy))
      ≡ payment_required (some policy)
unfolding payment_required
with_exception-required v policy =
    rw
      (
        get_field-set_field_ne "paymentGateException" "depositRequired" v policy refl,
        get_field-set_field_ne "paymentGateException" "serviceFeeRequired" v policy refl,
      )
      refl

with_exception-approved :
    (to_iso : Instant → Text) (now : Instant) (action : ExceptionAction) (r : ExceptionRequest)
    (policy : Fields)
    → (action ≡ approve
        → is_text (get_field "paymentGateMode" policy) (codes "manual_override") ≡ true)
    → exception_approved (some (with_exception to_iso now action r policy)) ≡ approves action
unfolding exception_approved
with_exception-approved to_iso now approve r policy mode =
    rw
      (
        get_field-set_field_ne "paymentGateException" "paymentGateMode"
            (obj (exception_fields to_iso now approve r)) policy refl,
        get_field-set_field_self "paymentGateException"
            (obj (exception_fields to_iso now approve r)) policy,
        mode refl,
      )
      refl
with_exception-approved to_iso now revoke r policy mode =
    rw
      (get_field-set_field_self "paymentGateException" (obj (exception_fields to_iso now revoke r))
        policy)
      (no_exception
        (is_text (get_field "paymentGateMode" (with_exception to_iso now revoke r policy))
          (codes "manual_override"))
        _ _)
  where
    no_exception : (b c d : Bool) → (b && false && c && d) ≡ false
    no_exception true c d = refl
    no_exception false c d = refl

may_govern-mode :
    (action : ExceptionAction) (policy : Fields) (s : Option Subscription) {u : Unit {0}}
    → may_govern action policy s ≡ ok u
    → action ≡ approve
    → is_text (get_field "paymentGateMode" policy) (codes "manual_override") ≡ true
unfolding may_govern
may_govern-mode approve policy s h e =
    let (_, mode, _) =
      and_then-ok
        (check (not (is_text (get_field "paymentGateMode" policy) (codes "manual_override"))) _) _
        h in
    ground arith
may_govern-mode revoke policy s h e = ground arith

check-ok : (b : Bool) (e : HttpError) {u : Unit {0}} → check b e ≡ ok u → b ≡ false
check-ok true e h = ground arith
check-ok false e h = refl

not-false : (b : Bool) → not b ≡ false → b ≡ true
not-false true h = refl
not-false false h = ground arith

state_of-approves :
    (action : ExceptionAction) → state_of true false (approves action) ≡ state_after action
state_of-approves approve = refl
state_of-approves revoke = refl

gate_after :
    (to_iso : Instant → Text) (now : Instant) (action : ExceptionAction) (r : ExceptionRequest)
    (policy : Fields) (payment : Option PaymentGatePayment)
    → payment_required (some policy) ≡ true
    → (action ≡ approve
        → is_text (get_field "paymentGateMode" policy) (codes "manual_override") ≡ true)
    → is_succeeded (gate_status payment) ≡ false
    → (evaluate_payment_gate (some (obj (with_exception to_iso now action r policy))) payment).state
      ≡ state_after action
gate_after to_iso now action r policy payment required mode unpaid =
    rw
      (
        evaluate_payment_gate-state (some (obj (with_exception to_iso now action r policy)))
            payment,
        with_exception-required (obj (exception_fields to_iso now action r)) policy,
        required,
        unpaid,
        with_exception-approved to_iso now action r policy mode,
      )
      (state_of-approves action)

-- What the checks have established, on the new policy.
pub change_exception-gate :
    (to_iso : Instant → Text) (now : Instant) (r : ExceptionRequest) (job : Option Job)
    (paid : Option Payment) (s : Option Subscription) (payment : Option PaymentGatePayment)
    {c : Job × Fields}
    → change_exception to_iso now r job paid s ≡ ok c
    → is_succeeded (gate_status payment) ≡ false
    → (job ≡ some c.0)
      × ((evaluate_payment_gate (some (obj c.1)) payment).state ≡ state_after r.action)
unfolding change_exception
change_exception-gate to_iso now r job paid s payment {c} h unpaid =
    let (j, found, h1) = and_then-ok (ok_or job (not_found "Job was not found.")) _ h in
    let policy = snapshot_of j in
    let (_, _, h2) =
      and_then-ok (check (is_closed j.status) (conflict "A closed job cannot be overridden.")) _
        h1 in
    let (_, _, h3) =
      and_then-ok
        (check (not (j.updated_at == r.expected_job_updated_at)) (
          conflict
            "Job changed after it was loaded. Refresh before changing the payment exception."))
        _ h2 in
    let (_, gated, h4) =
      and_then-ok
        (check (not (payment_required (some policy)))
          (conflict "This job does not have a payment gate."))
        _ h3 in
    let (_, _, h5) =
      and_then-ok
        (check (is_paid paid)
          (conflict "Verified payment already satisfies this job's payment gate."))
        _ h4 in
    let (_, governed, h6) = and_then-ok (may_govern r.action policy s) _ h5 in
    let (_, _, done) =
      and_then-ok
        (check
          (is_flag (prop (record_of (get_field "paymentGateException" policy)) "active")
            (approves r.action))
          (conflict (standing_message r.action)))
        _ h6 in
    rw (← ok-injective done) (
      ok_or-ok job _ found,
      gate_after to_iso now r.action r policy payment (not-false _ (check-ok _ _ gated))
          (may_govern-mode r.action policy s governed) unpaid,
    )

set_policy-keeps :
    (now : Instant) (policy : Fields) (t id : Key) (j : Job)
    → live_job t id (set_policy now policy j) ≡ live_job t id j
unfolding set_policy
set_policy-keeps now policy t id j = refl

set_policy-snapshot :
    (now : Instant) (policy : Fields) (j : Job)
    → (set_policy now policy j).policy_snapshot ≡ obj policy
unfolding set_policy
set_policy-snapshot now policy j = refl

one_of_one : (b : Bool) (n : ℕ) → n ≡ (if b then 1 else 0) → (n == 1) ≡ true → b ≡ true
one_of_one true n h k = refl
one_of_one false n h k = ground arith

module _ {J P T U E A : Type 0} (db : Client J P T U E A) where
  abbrev S : Type 0
  S = Store J P T U E A

  abbrev written_rows : Instant → ExceptionRequest → Job × Fields → S → ℕ × J
  written_rows now r c s = db.job.update_many (policy_key db r c.0) (set_policy now c.1) s.jobs

  -- A write that finds its one row leaves the job with the new policy.
  written-policy :
      (now : Instant) (r : ExceptionRequest) (c : Job × Fields) (s : S) (k : Job)
      → find (live_job r.tenant_id r.job_id) (db.job.rows s.jobs) ≡ some k
      → count_rows (live_job r.tenant_id r.job_id) (db.job.rows s.jobs) ≡ 1
      → ((written_rows now r c s).0 == 1) ≡ true
      → find (live_job r.tenant_id r.job_id) (db.job.rows (written_rows now r c s).1)
        ≡ some (set_policy now c.1 k)
  written-policy now r c s k found only one =
      let same_version =
        one_of_one (k.updated_at == c.0.updated_at) (written_rows now r c s).0
          (db.job.count-update_many (policy_key db r c.0) (set_policy now c.1) s.jobs
            ∙ count_rows-one (live_job r.tenant_id r.job_id) (λ j. j.updated_at == c.0.updated_at)
                (db.job.rows s.jobs) only found)
          one in
      rw (db.job.rows-update_many (policy_key db r c.0) (set_policy now c.1) s.jobs) (
        rw (find-holds (live_job r.tenant_id r.job_id) (db.job.rows s.jobs) found, same_version) at
          (find-update_rows_if (live_job r.tenant_id r.job_id) (policy_key db r c.0)
            (set_policy now c.1) (set_policy-keeps now c.1 r.tenant_id r.job_id)
            (db.job.rows s.jobs) found))

  read_exception-gate :
      (to_iso : Instant → Text) (now : Instant) (r : ExceptionRequest) (seen : S) (c : Job × Fields)
      (payment : Option PaymentGatePayment)
      → read_exception db to_iso now r seen ≡ ok c
      → is_succeeded (gate_status payment) ≡ false
      → (evaluate_payment_gate (some (obj c.1)) payment).state ≡ state_after r.action
  unfolding read_exception
  read_exception-gate to_iso now r seen c payment h unpaid =
      (change_exception-gate to_iso now r _ _ _ payment h unpaid).1

  -- Where a change of the payment exception is answered, and the job alone has its key, the gate that
  -- reads the job's policy afterwards is unlocked by an approval and locked by a revocation, for every
  -- payment that has not succeeded, even if another transaction was committed since the job was read.
  pub govern_exception-gate :
      (to_iso : Instant → Text) (now : Instant) (seen : S) (r : ExceptionRequest) (s : S) (k : Job)
      (payment : Option PaymentGatePayment) {x : ExceptionResult}
      → find (live_job r.tenant_id r.job_id) (db.job.rows s.jobs) ≡ some k
      → count_rows (live_job r.tenant_id r.job_id) (db.job.rows s.jobs) ≡ 1
      → is_succeeded (gate_status payment) ≡ false
      → (govern_exception db to_iso now seen r s).0 ≡ ok x
      → (j : Job) × (find
            (live_job r.tenant_id r.job_id)
            (db.job.rows (govern_exception db to_iso now seen r s).1.jobs)
          ≡ some j)
        × ((evaluate_payment_gate (some j.policy_snapshot) payment).state ≡ state_after r.action)
  unfolding govern_exception write_exception effects after commit update_jobs create_audit
  govern_exception-gate to_iso now seen r s k payment {x} found only unpaid h =
      elim (Result-cases (read_exception db to_iso now r seen)) [
        | inr (e, bad) ↦ let no : err e ≡ ok x = rw bad at h in ground arith
        | inl (c, good) ↦ elim (Bool-cases ((written_rows now r c s).0 == 1)) [
          | inl one ↦
              rw (good, one)
                (
                  set_policy now c.1 k,
                  written-policy now r c s k found only one,
                  read_exception-gate to_iso now r seen c payment good unpaid,
                )
          | inr many ↦
              let no : err (conflict "Job changed while the payment exception was being saved.")
                  ≡ ok x =
                rw (good, many) at h in
              ground arith
        ]
      ]
