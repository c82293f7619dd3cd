-- ===== src/Payments/ExceptionTests.antt =====
-- The theorems on payment exceptions, applied to small inputs.
use signmons_calldesk_backen.Base.{true, false, none, some, [], ◌∷◌, find, ◌≡◌, refl, ok, Instant}
use signmons_calldesk_backen.Base.Text.{Text, codes, text_eq}
use signmons_calldesk_backen.Base.Json.{null, bool, str, obj, Fields, end, field}
use signmons_calldesk_backen.Base.Table.{count_rows}
use signmons_calldesk_backen.Data.Enums.{JobStatus, JobUrgency, SubscriptionStatus}
use signmons_calldesk_backen.Data.Rows.{Job, Subscription}
use signmons_calldesk_backen.Data.Store.{ListStore, list_client, store_effects}
use signmons_calldesk_backen.Payments.Gate.{
  payment_required, gate_status, is_succeeded, evaluate_payment_gate,
}
use signmons_calldesk_backen.Payments.Requests.{advanced_payment_plan}
use signmons_calldesk_backen.Payments.Requests.Reservation.{live_job}
use signmons_calldesk_backen.Payments.Requests.Exceptions.{
  may_govern, ExceptionAction, approve, revoke, ExceptionRequest, ExceptionResult, change_exception,
  govern_exception,
}
use signmons_calldesk_backen.Payments.Requests.Unlocking.{
  state_after, with_exception, govern_exception-gate,
}

abbrev override_policy : Fields
override_policy =
    field "depositRequired" (bool true)
      (field "paymentGateMode" (str (codes "manual_override")) end)

abbrev locked_job : Job
locked_job = record {
  id = codes "job-1";
  tenant_id = codes "t1";
  customer_id = codes "c1";
  service_category_id = codes "s1";
  assigned_user_id = none;
  assigned_user_tenant_id = none;
  status = JobStatus.created;
  technician_status = none;
  technician_status_updated_at = none;
  urgency = JobUrgency.standard;
  intake_session_id = none;
  pricing_snapshot = null;
  policy_snapshot = obj override_policy;
  preferred_time_text = none;
  service_window_start = none;
  service_window_end = none;
  calendar_event_id = none;
  accepted_at = none;
  completed_at = none;
  updated_at = 5;
  deleted_at = none;
}

abbrev growth_plan : Subscription
growth_plan = record {
  tenant_id = codes "t1";
  plan_id = codes " Growth ";
  status = SubscriptionStatus.active;
  current_period_start = 0;
  current_period_end = 1000;
}

abbrev store_one : ListStore
store_one = record {
  jobs = locked_job ∷ [];
  payments = [];
  tenants = [];
  subscriptions = growth_plan ∷ [];
  stripe_events = [];
  audits = [];
}

abbrev request_to : ExceptionAction → ExceptionRequest
request_to action = record {
  tenant_id = codes "t1";
  job_id = codes "job-1";
  actor_id = codes "u1";
  trace_id = codes "trace-1";
  action = action;
  reason = codes "Paid in cash";
  expected_job_updated_at = 5;
}

abbrev iso : Instant → Text
iso at = codes "2026-09-04T10:00:00.000Z"

abbrev approval : ExceptionResult
approval = record {
  job_id = codes "job-1";
  active = true;
  reason = codes "Paid in cash";
  changed_at = 20;
}

job_there : find (live_job (codes "t1") (codes "job-1")) (locked_job ∷ []) ≡ some locked_job
unfolding text_eq
job_there = refl

job_alone : count_rows (live_job (codes "t1") (codes "job-1")) (locked_job ∷ []) ≡ 1
unfolding text_eq
job_alone = refl

approved :
    (govern_exception list_client iso 20 store_one (request_to approve) store_one).0 ≡ ok approval
unfolding govern_exception store_effects text_eq advanced_payment_plan payment_required
approved = refl

unpaid : is_succeeded (gate_status none) ≡ false
unfolding is_succeeded gate_status
unpaid = refl

govern_exception-gate_example :
    (j : Job) × (find
        (live_job (codes "t1") (codes "job-1"))
        (govern_exception list_client iso 20 store_one (request_to approve) store_one).1.jobs
      ≡ some j)
    × ((evaluate_payment_gate (some j.policy_snapshot) none).state ≡ state_after approve)
govern_exception-gate_example =
    govern_exception-gate list_client iso 20 store_one (request_to approve) store_one locked_job
      none job_there job_alone unpaid approved

-- A revocation is accepted on a job that never had an exception.
revoked_none :
    change_exception iso 20 (request_to revoke) (some locked_job) none none
    ≡ ok (locked_job, with_exception iso 20 revoke (request_to revoke) override_policy)
unfolding change_exception may_govern payment_required
revoked_none = refl
