-- ===== src/Dispatch/Tests.antt =====
-- The theorems on routing and dispatch, applied to small inputs.
use signmons_calldesk_backen.Base.{
  ℕ, Bool, true, false, not, ◌||◌, Option, none, some, Instant, ok, List, [], ◌∷◌, ◌≡◌, refl, arith,
  any,
}
use signmons_calldesk_backen.Base.Text.{Text, Key, codes, text_eq}
use signmons_calldesk_backen.Base.Json.{null, str, arr, obj, nil, cons, field, end}
use signmons_calldesk_backen.Base.Guarded.{Only}
use signmons_calldesk_backen.Data.Enums.{JobStatus, JobUrgency}
use signmons_calldesk_backen.Data.Rows.{Job}
use signmons_calldesk_backen.Data.Store.{ListStore, list_client, store_effects}
use signmons_calldesk_backen.Payments.Gate.{evaluate_payment_gate, payment_required}
use signmons_calldesk_backen.Dispatch.Postal.{postal_code}
use signmons_calldesk_backen.Dispatch.Routing.{
  RoutingRule, ServiceArea, ServiceAreaType, any_time, UserRole, Place, evaluate_found,
}
use signmons_calldesk_backen.Dispatch.Routing.Matching.{
  IsChoice, applies, takes, evaluate_found-IsChoice,
}
use signmons_calldesk_backen.Dispatch.Board.{
  DispatchUser, Candidate, Comparison, same, expert, junior, recommend, sort, gate_of, candidates,
  default_routing,
}
use signmons_calldesk_backen.Dispatch.Board.Ranking.{IsBest, recommend-IsBest}
use signmons_calldesk_backen.Dispatch.Assign.{
  AssignRequest, Surroundings, Assignment, live_key, assign,
}
use signmons_calldesk_backen.Dispatch.Assign.Allowed.{WasAllowed, assign-WasAllowed}
use signmons_calldesk_backen.Dispatch.Assign.Again.{IsThere, assign-assign}

abbrev new_job : Job
new_job = record {
  id = codes "job-1";
  tenant_id = codes "t1";
  customer_id = codes "c1";
  service_category_id = codes "s1";
  assigned_user_id = none;
  assigned_user_tenant_id = none;
  status = JobStatus.created;
  technician_status = none;
  technician_status_updated_at = none;
  urgency = JobUrgency.standard;
  intake_session_id = none;
  pricing_snapshot = null;
  policy_snapshot = null;
  preferred_time_text = none;
  service_window_start = none;
  service_window_end = none;
  calendar_event_id = none;
  accepted_at = none;
  completed_at = none;
  updated_at = 5;
  deleted_at = none;
}

abbrev store_of : Job → ListStore
store_of j = record {
  jobs = j ∷ [];
  payments = [];
  tenants = [];
  subscriptions = [];
  stripe_events = [];
  audits = [];
}

abbrev rule_of : ℕ → Option ServiceArea → RoutingRule
rule_of priority service_area = record {
  id = codes "rule";
  tenant_id = codes "t1";
  name = codes "Rule";
  is_active = true;
  priority = priority;
  service_category_id = none;
  service_area = service_area;
  urgency = none;
  time_scope = any_time;
  require_available = true;
  require_on_call = false;
  escalate_to_owner = false;
  escalate_to_on_call = false;
}

abbrev area_of : Text → ServiceArea
area_of code = record {
  id = codes "area";
  is_active = true;
  type = ServiceAreaType.zip;
  definition = obj (field "postalCodes" (arr (cons (str code) nil)) end);
}

abbrev two_rules : List RoutingRule
two_rules =
    rule_of 10 (some (area_of (codes "33101"))) ∷ rule_of 20 (some (area_of (codes "44101"))) ∷ []

abbrev cleveland : Place
cleveland = record { is_business_hours = true; postal_code = some (codes "44101") }

evaluate_found-IsChoice_example :
    IsChoice
      (codes "t1")
      new_job
      cleveland
      two_rules
      (evaluate_found (codes "t1") new_job cleveland two_rules []).matched_rule
    × ((evaluate_found (codes "t1") new_job cleveland two_rules []).covered ≡ (
        not (any (applies (codes "t1") new_job cleveland) two_rules)
        || any (takes (codes "t1") new_job cleveland) two_rules))
evaluate_found-IsChoice_example =
    evaluate_found-IsChoice (codes "t1") new_job cleveland two_rules []
      ((omega arith, tt), (tt, tt))

matched_second :
    (evaluate_found (codes "t1") new_job cleveland two_rules []).matched_rule
    ≡ some (rule_of 20 (some (area_of (codes "44101"))))
unfolding evaluate_found text_eq
matched_second = refl

code_of_address :
    postal_code null (codes "1 Main St, Cleveland, OH 44101-1234") ≡ some (codes "44101")
unfolding postal_code
code_of_address = refl

abbrev candidate_with : Text → Bool → ℕ → Candidate
candidate_with id eligible score = record {
  user_id = id;
  full_name = id;
  role = UserRole.tech;
  available = true;
  on_call = false;
  proficiency = some junior;
  active_assignments = 0;
  eligible = eligible;
  reason_codes = [];
  score = score;
}

abbrev three_candidates : List Candidate
three_candidates =
    candidate_with (codes "a") false 90
    ∷ candidate_with (codes "b") true 40
    ∷ candidate_with (codes "c") true 60
    ∷ []

abbrev in_name_order : Text → Text → Comparison
in_name_order s t = same

recommend-IsBest_example : IsBest three_candidates (recommend (sort in_name_order three_candidates))
recommend-IsBest_example = recommend-IsBest in_name_order three_candidates

recommended_third :
    recommend (sort in_name_order three_candidates) ≡ some (candidate_with (codes "c") true 60)
unfolding recommend sort
recommended_third = refl

abbrev technician : DispatchUser
technician = record {
  id = codes "tech-1";
  tenant_id = codes "t1";
  full_name = codes "Ada";
  role = UserRole.tech;
  is_active = true;
  is_available = true;
  is_on_call = false;
  capabilities =
      record { service_category_id = codes "s1"; proficiency = expert; is_enabled = true } ∷ [];
  blocks = [];
}

abbrev around : Surroundings
around = record {
  has_routing = false;
  local_time = λ t. (codes "Mon", 9);
  address = λ j. record { components = null; formatted = [] };
  rules = [];
  contacts = [];
  users = technician ∷ [];
  locale_compare = in_name_order;
}

abbrev assignment_by : Key → Instant → AssignRequest
assignment_by actor version = record {
  tenant_id = codes "t1";
  job_id = codes "job-1";
  technician_id = codes "tech-1";
  expected_updated_at = version;
  actor_id = actor;
  reason = none;
  trace_id = none;
}

abbrev assigned_at : Instant → Assignment
assigned_at now = record {
  changed = true;
  job_id = codes "job-1";
  technician_id = some (codes "tech-1");
  updated_at = some now;
}

assigned_once :
    (assign list_client around 9
      (store_of new_job)
      (assignment_by (codes "u1") 5)
      (store_of new_job)).0
    ≡ ok (assigned_at 9)
unfolding assign text_eq store_effects gate_of evaluate_payment_gate payment_required candidates
    recommend default_routing
assigned_once = refl

assign-WasAllowed_example :
    WasAllowed list_client around 9 (store_of new_job) (assignment_by (codes "u1") 5)
assign-WasAllowed_example =
    assign-WasAllowed list_client around 9 (store_of new_job) (assignment_by (codes "u1") 5)
      (store_of new_job) assigned_once refl

Only-new_job :
    Only list_client.job (live_key (codes "t1") (codes "job-1")) new_job (store_of new_job).jobs
unfolding text_eq
Only-new_job = (refl, refl)

assign-assign_example :
    IsThere list_client around
      (assignment_by (codes "u2") 5)
      (assign list_client around 9
        (store_of new_job)
        (assignment_by (codes "u1") 5)
        (store_of new_job)).1
      (assign list_client around 12
        (assign list_client around 9
          (store_of new_job)
          (assignment_by (codes "u1") 5)
          (store_of new_job)).1
        (assignment_by (codes "u2") 5)
        (assign list_client around 9
          (store_of new_job)
          (assignment_by (codes "u1") 5)
          (store_of new_job)).1)
assign-assign_example =
    assign-assign list_client around 9 12 (assignment_by (codes "u1") 5)
      (assignment_by (codes "u2") 5) (store_of new_job) refl refl refl Only-new_job assigned_once
