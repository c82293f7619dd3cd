-- ===== src/Review/Tests.antt =====
-- The theorems on reviews, applied to small inputs.
use signmons_calldesk_backen.Base.{true, none, some, ok, [], ◌∷◌, ◌≡◌, refl}
use signmons_calldesk_backen.Base.Text.{codes, text_eq, to_lower, trim, starts_with}
use signmons_calldesk_backen.Base.Json.{
  null, bool, str, num, whole, arr, obj, nil, cons, field, end,
}
use signmons_calldesk_backen.Base.Guarded.{Only}
use signmons_calldesk_backen.Data.Enums.{JobStatus, JobUrgency}
use signmons_calldesk_backen.Data.Rows.{Job}
use signmons_calldesk_backen.Data.Store.{ListStore, list_client, store_effects}
use signmons_calldesk_backen.Review.Urgency.{
  OverrideRequest, Overridden, id_key, review_key, rationale, set_urgency, operator_override,
  override,
}
use signmons_calldesk_backen.Scheduling.{Joined}
use signmons_calldesk_backen.Payments.Gate.{
  evaluate_payment_gate, payment_required, exception_approved,
}
use signmons_calldesk_backen.Dispatch.Board.{gate_of}
use signmons_calldesk_backen.Review.Intake.{
  Readiness, missing_info, payment_status, preferred_window, customer_name, ReviewRequest, review,
}
use signmons_calldesk_backen.Review.Intake.History.{Reviews, review-Reviews}
use signmons_calldesk_backen.Review.Urgency.Reasons.{IsShort, rationale-IsShort}
use signmons_calldesk_backen.Review.Urgency.Overriding.{Overrides, override-gate}

abbrev paying_job : Job
paying_job = record {
  id = codes "job-1";
  tenant_id = codes "t1";
  customer_id = codes "c1";
  service_category_id = codes "s1";
  assigned_user_id = none;
  assigned_user_tenant_id = none;
  status = JobStatus.created;
  technician_status = none;
  technician_status_updated_at = none;
  urgency = JobUrgency.standard;
  intake_session_id = none;
  pricing_snapshot = null;
  policy_snapshot = obj (
      field "depositRequired" (bool true) (
        field "urgencyDecision"
          (obj
            (field "reasonCodes" (arr (cons (num (whole 1)) (cons (str (codes "LATE")) nil))) end))
          end));
  preferred_time_text = none;
  service_window_start = none;
  service_window_end = none;
  calendar_event_id = none;
  accepted_at = none;
  completed_at = none;
  updated_at = 5;
  deleted_at = none;
}

abbrev store_of : Job → ListStore
store_of j = record {
  jobs = j ∷ [];
  payments = [];
  tenants = [];
  subscriptions = [];
  stripe_events = [];
  audits = [];
}

rationale-IsShort_example :
    IsShort (rationale paying_job).reason_codes
    × ((rationale (set_urgency 9 JobUrgency.high paying_job paying_job)).decision_source
        ≡ operator_override)
    × ((rationale (set_urgency 9 JobUrgency.high paying_job paying_job)).reason_codes
        ≡ codes "OPERATOR_OVERRIDE" ∷ [])
rationale-IsShort_example = rationale-IsShort paying_job paying_job 9 JobUrgency.high

shown_once : (rationale paying_job).reason_codes ≡ codes "LATE" ∷ []
unfolding rationale
shown_once = refl

abbrev to_high : OverrideRequest
to_high = record {
  tenant_id = codes "t1";
  job_id = codes "job-1";
  actor_id = codes "u1";
  urgency = JobUrgency.high;
  reason = codes "No heat with an infant at home";
  trace_id = none;
}

abbrev made_high : Overridden
made_high = record {
  job_id = codes "job-1";
  previous_urgency = JobUrgency.standard;
  urgency = JobUrgency.high;
  changed = true;
}

overridden :
    (override list_client 9 (store_of paying_job) to_high (store_of paying_job)).0 ≡ ok made_high
unfolding override text_eq store_effects
overridden = refl

found_job :
    list_client.job.find_first (review_key to_high) (store_of paying_job).jobs ≡ some paying_job
unfolding text_eq
found_job = refl

Only-paying_job :
    Only list_client.job (id_key (codes "t1") paying_job) paying_job (store_of paying_job).jobs
unfolding text_eq
Only-paying_job = (refl, refl)

override-gate_example :
    Overrides list_client to_high paying_job paying_job
      (override list_client 9 (store_of paying_job) to_high (store_of paying_job)).1
override-gate_example =
    override-gate list_client 9 to_high paying_job paying_job (store_of paying_job)
      (store_of paying_job) found_job Only-paying_job overridden refl

abbrev joins : Job → Joined
joins j = record {
  full_name = codes " Unknown Caller ";
  phone = codes "+12165550100";
  formatted_address = codes "1 Main St";
  service_category = codes "HEATING";
  description = some (codes "No heat");
  preferred_window_label = none;
  created_at = 1;
}

abbrev intake_review : ReviewRequest
intake_review = record {
  tenant_id = codes "t1";
  job_id = codes "job-1";
  actor_id = codes "u1";
  trace_id = none;
}

abbrev three_missing : Readiness
three_missing = record {
  state = missing_info;
  missing_fields = customer_name ∷ preferred_window ∷ payment_status ∷ [];
}

reviewed :
    (review list_client (λ t. []) joins intake_review (store_of paying_job)).0 ≡ ok three_missing
unfolding review text_eq store_effects to_lower trim starts_with gate_of evaluate_payment_gate
    payment_required exception_approved
reviewed = refl

review-Reviews_example :
    Reviews list_client
      (λ t. [])
      joins
      intake_review
      three_missing
      (store_of paying_job)
      (review list_client (λ t. []) joins intake_review (store_of paying_job)).1
review-Reviews_example =
    review-Reviews list_client (λ t. []) joins intake_review (store_of paying_job) reviewed
