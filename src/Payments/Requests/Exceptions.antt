-- ===== src/Payments/Requests/Exceptions.antt =====
-- payments/payment-requests.service.ts: `governException`. The text of a time is given.
use signmons_calldesk_backen.Base.{
  Bool, true, false, not, ◌&&◌, Option, none, some, if◌then◌else◌, leb, ltb, ◌==◌, Instant, Result,
  ok, not_found, conflict, forbidden, Action, pure, throw_if, lift, transaction, ◌>>=◌, ◌>>◌,
  and_then, check, ok_or, String, List, [], ◌∷◌, filter,
}
use signmons_calldesk_backen.Base.Text.{Text, Key, codes, text_eq}
use signmons_calldesk_backen.Base.Json.{
  Json, bool, str, obj, Fields, end, field, get_field, set_field, record_of, prop, is_text,
}
use signmons_calldesk_backen.Base.Audit.{Audit, person, user, Detail}
use signmons_calldesk_backen.Data.Enums.{PaymentStatus, SubscriptionStatus, payment_status_eq}
use signmons_calldesk_backen.Data.Rows.{Job, Payment, Subscription}
use signmons_calldesk_backen.Data.Store.{Store, Client, update_jobs, create_audit}
use signmons_calldesk_backen.Payments.Gate.{payment_required}
use signmons_calldesk_backen.Payments.Requests.{advanced_payment_plan}
use signmons_calldesk_backen.Payments.Requests.Reservation.{live_job, payment_of}
use signmons_calldesk_backen.Payments.Requests.Create.{is_closed}

pub data ExceptionAction : Type 0 where
  approve revoke : ExceptionAction

pub record ExceptionRequest : Type 0 where
  pub tenant_id : Key
  pub job_id : Key
  pub actor_id : Key
  pub trace_id : Key
  pub action : ExceptionAction
  pub reason : Text
  pub expected_job_updated_at : Instant

-- The result, besides `changed: true` and the id of the audit entry.
pub record ExceptionResult : Type 0 where
  pub job_id : Key
  pub active : Bool
  pub reason : Text
  pub changed_at : Instant

abbrev pub approves : ExceptionAction → Bool
approves approve = true
approves revoke = false

-- `this.record(job.policySnapshot) ?? {}`
abbrev pub snapshot_of : Job → Fields
snapshot_of j = elim (record_of (some j.policy_snapshot)) [ none ↦ end | some fs ↦ fs ]

abbrev pub is_paid : Option Payment → Bool
is_paid none = false
is_paid (some p) = payment_status_eq p.status PaymentStatus.succeeded

-- `existing?.active === active`
abbrev pub is_flag : Option Json → Bool → Bool
is_flag (some (bool true)) active = active
is_flag (some (bool false)) active = not active
is_flag _ active = false

-- The subscriptions that count at a time, and the one among them that ends last.
abbrev is_current : Key → Instant → Subscription → Bool
is_current tenant_id now s =
    text_eq s.tenant_id tenant_id
    && (is_live s.status && (leb s.current_period_start now && ltb now s.current_period_end))
  where
    is_live : SubscriptionStatus → Bool
    is_live SubscriptionStatus.trialing = true
    is_live SubscriptionStatus.active = true
    is_live _ = false

abbrev later_end : Subscription → Option Subscription → Option Subscription
later_end s none = some s
later_end s (some t) = if leb t.current_period_end s.current_period_end then some s else some t

abbrev last_ending : List Subscription → Option Subscription
last_ending [] = none
last_ending (s ∷ ss) = later_end s (last_ending ss)

abbrev plan_of : Option Subscription → Option Text
plan_of none = none
plan_of (some s) = some s.plan_id

-- What an approval needs besides: a policy of manual override, and a plan that includes exceptions.
unfoldable pub may_govern : ExceptionAction → Fields → Option Subscription → Result (Unit {0})
may_govern revoke snapshot entitlement = ok tt
may_govern approve snapshot entitlement =
    and_then
      (check (not (is_text (get_field "paymentGateMode" snapshot) (codes "manual_override")))
        (forbidden "This job's governed policy does not allow a manual payment exception."))
      λ _.
        check (not (advanced_payment_plan (plan_of entitlement)))
          (forbidden "Payment exception approval requires an active Growth or higher entitlement.")

abbrev pub exception_fields :
    (Instant → Text) → Instant → ExceptionAction → ExceptionRequest → Fields
exception_fields to_iso now approve r = field "active" (bool true) (
    field "reason" (str r.reason)
      (field "approvedAt" (str (to_iso now)) (field "approvedBy" (str r.actor_id) end)))
exception_fields to_iso now revoke r = field "active" (bool false) (
    field "reason" (str r.reason)
      (field "revokedAt" (str (to_iso now)) (field "revokedBy" (str r.actor_id) end)))

abbrev pub standing_message : ExceptionAction → String
standing_message approve = "A payment exception is already active."
standing_message revoke = "No active payment exception exists."

-- The checks, up to the first write: the job that was read, and its policy with the new exception.
unfoldable pub change_exception :
    (Instant → Text)
    → Instant
    → ExceptionRequest
    → Option Job
    → Option Payment
    → Option Subscription
    → Result (Job × Fields)
unfolding may_govern
change_exception to_iso now r job payment entitlement =
    and_then (ok_or job (not_found "Job was not found.")) λ j.
      and_then (check (is_closed j.status) (conflict "A closed job cannot be overridden.")) λ _.
        and_then
          (check (not (j.updated_at == r.expected_job_updated_at)) (
            conflict
              "Job changed after it was loaded. Refresh before changing the payment exception."))
          λ _.
            and_then
              (check (not (payment_required (some (snapshot_of j))))
                (conflict "This job does not have a payment gate."))
              λ _.
                and_then
                  (check (is_paid payment)
                    (conflict "Verified payment already satisfies this job's payment gate."))
                  λ _. and_then (may_govern r.action (snapshot_of j) entitlement) λ _.
                    and_then
                      (check
                        (is_flag
                          (prop (record_of (get_field "paymentGateException" (snapshot_of j)))
                            "active")
                          (approves r.action))
                        (conflict (standing_message r.action)))
                      λ _. ok (
                        j,
                        set_field "paymentGateException"
                            (obj (exception_fields to_iso now r.action r)) (snapshot_of j),
                      )

unfoldable pub set_policy : Instant → Fields → Job → Job
set_policy now policy j = record j { policy_snapshot = obj policy; updated_at = now }

abbrev payment_status_name : Option Payment → String
payment_status_name none = "NOT_REQUESTED"
payment_status_name (some p) = go p.status
  where
    go : PaymentStatus → String
    go PaymentStatus.pending = "PENDING"
    go PaymentStatus.succeeded = "SUCCEEDED"
    go PaymentStatus.failed = "FAILED"
    go PaymentStatus.refunded = "REFUNDED"
    go PaymentStatus.canceled = "CANCELED"

abbrev action_name : ExceptionAction → String
action_name approve = "APPROVE"
action_name revoke = "REVOKE"

abbrev audited_action : ExceptionAction → String
audited_action approve = "payment.gate_exception_approved"
audited_action revoke = "payment.gate_exception_revoked"

unfoldable pub exception_audit : Instant → ExceptionRequest → Option Payment → Audit
exception_audit now r payment = record {
  tenant_id = r.tenant_id;
  action = audited_action r.action;
  actor_type = user;
  actor_id = person r.actor_id;
  entity_type = "Job";
  entity_id = r.job_id;
  metadata =
      ("reason", Detail.text r.reason)
      ∷ ("action", Detail.word (action_name r.action))
      ∷ ("previousPaymentStatus", Detail.word (payment_status_name payment))
      ∷ ("changedAt", Detail.time now)
      ∷ [];
  trace_id = some r.trace_id;
}

module _ {J P T U E A : Type 0} (db : Client J P T U E A) where
  abbrev S : Type 0
  S = Store J P T U E A

  -- The row as it was read.
  abbrev pub policy_key : ExceptionRequest → Job → Job → Bool
  policy_key r j k = live_job r.tenant_id r.job_id k && k.updated_at == j.updated_at

  unfoldable pub write_exception :
      Instant → ExceptionRequest → Option Payment → Job → Fields → Action S ExceptionResult
  unfolding set_policy exception_audit
  write_exception now r payment j policy = do
    count ← update_jobs db (policy_key r j) (set_policy now policy)
    throw_if (not (count == 1))
        (conflict "Job changed while the payment exception was being saved.")
    create_audit db (exception_audit now r payment)
    pure (record {
      job_id = r.job_id;
      active = approves r.action;
      reason = r.reason;
      changed_at = now;
    })

  abbrev pub payment_seen : ExceptionRequest → S → Option Payment
  payment_seen r seen = db.payment.find_first (payment_of r.tenant_id r.job_id) seen.payments

  unfoldable pub read_exception :
      (Instant → Text) → Instant → ExceptionRequest → S → Result (Job × Fields)
  unfolding change_exception
  read_exception to_iso now r seen =
      change_exception to_iso now r (db.job.find_first (live_job r.tenant_id r.job_id) seen.jobs)
        (payment_seen r seen)
        (last_ending
          (filter (is_current r.tenant_id now) (db.subscription.rows seen.subscriptions)))

  -- The reads see `seen`: other transactions may have been committed since.
  unfoldable pub govern_exception :
      (Instant → Text) → Instant → S → ExceptionRequest → Action S ExceptionResult
  unfolding read_exception write_exception
  govern_exception to_iso now seen r = transaction do
    change ← lift (read_exception to_iso now r seen)
    write_exception now r (payment_seen r seen) change.0 change.1
