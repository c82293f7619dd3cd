-- ===== src/Jobs/Tests.antt =====
-- The theorems on jobs, applied to small inputs.
use signmons_calldesk_backen.Base.{
  ℕ, ◌<◌, true, false, none, some, [], ◌∷◌, ◌≡◌, ◌≢◌, ◌↔◌, refl, arith, ok,
}
use signmons_calldesk_backen.Base.Text.{Key, codes, text_eq}
use signmons_calldesk_backen.Base.Json.{null}
use signmons_calldesk_backen.Data.Enums.{JobStatus, TechnicianJobStatus, JobUrgency, job_status_eq}
use signmons_calldesk_backen.Data.Rows.{Job}
use signmons_calldesk_backen.Data.Store.{ListStore, list_client, store_effects}
use signmons_calldesk_backen.Jobs.Lifecycle.{
  CompleteJobRequest, CompleteJobResult, complete, complete_job,
}
use signmons_calldesk_backen.Jobs.Lifecycle.Completion.{again, complete_job-complete_job}
use signmons_calldesk_backen.Jobs.Technician.{
  TechnicianJobAction, on_my_way, cannot_take, Access, UpdateRequest, is_change, reading, available,
  current_technician_status, target_status, apply_action,
}
use signmons_calldesk_backen.Jobs.Technician.Service.{update_job}
use signmons_calldesk_backen.Jobs.Technician.Transitions.{
  Moves, progress, reading-available_iff, reading-progress, reading_complete,
}
use signmons_calldesk_backen.Jobs.Technician.Locking.{update_job-update_job}

abbrev accepted_job : Job
accepted_job = record {
  id = codes "job-1";
  tenant_id = codes "t1";
  customer_id = codes "c1";
  service_category_id = codes "s1";
  assigned_user_id = some (codes "tech-1");
  assigned_user_tenant_id = some (codes "t1");
  status = JobStatus.accepted;
  technician_status = some TechnicianJobStatus.accepted;
  technician_status_updated_at = some 5;
  urgency = JobUrgency.standard;
  intake_session_id = none;
  pricing_snapshot = null;
  policy_snapshot = null;
  preferred_time_text = none;
  service_window_start = none;
  service_window_end = none;
  calendar_event_id = none;
  accepted_at = some 5;
  completed_at = none;
  updated_at = 5;
  deleted_at = none;
}

abbrev store_one : ListStore
store_one = record {
  jobs = accepted_job ∷ [];
  payments = [];
  tenants = [];
  subscriptions = [];
  stripe_events = [];
  audits = [];
}

abbrev completion_by : Key → CompleteJobRequest
completion_by actor = record {
  tenant_id = codes "t1";
  job_id = codes "job-1";
  actor_id = actor;
  trace_id = none;
}

abbrev done_at_ten : CompleteJobResult
done_at_ten = record { job_id = codes "job-1"; completed_at = 10; changed = true }

completed_once :
    (complete_job list_client 10 store_one (completion_by (codes "u1")) store_one).0
    ≡ ok done_at_ten
unfolding complete_job text_eq store_effects
completed_once = refl

complete_job-complete_job_example :
    complete_job list_client 20
      (complete_job list_client 10 store_one (completion_by (codes "u1")) store_one).1
      (completion_by (codes "u2"))
      (complete_job list_client 10 store_one (completion_by (codes "u1")) store_one).1
    ≡ (
      ok (again done_at_ten),
      (complete_job list_client 10 store_one (completion_by (codes "u1")) store_one).1,
    )
complete_job-complete_job_example =
    complete_job-complete_job list_client 10 20 (completion_by (codes "u1"))
      (completion_by (codes "u2")) store_one done_at_ten refl refl completed_once

abbrev technician_one : Access
technician_one = record { tenant_id = codes "t1"; technician_id = codes "tech-1" }

abbrev request_to : TechnicianJobAction → UpdateRequest
request_to action = record {
  job_id = codes "job-1";
  action = action;
  expected_updated_at = 5;
  note = none;
  trace_id = none;
}

set_out :
    is_change (update_job list_client 9 store_one technician_one (request_to on_my_way) store_one).0
    ≡ true
unfolding update_job text_eq store_effects
set_out = refl

later_version : ◌≢◌ {A = ℕ} 9 5
later_version h = ground arith

update_job-update_job_example :
    (is_change
        (update_job list_client 12 store_one technician_one
          (request_to cannot_take)
          (update_job list_client 9 store_one technician_one (request_to on_my_way) store_one).1).0
      ≡ false)
    × ((update_job list_client 12 store_one technician_one
          (request_to cannot_take)
          (update_job list_client 9 store_one technician_one (request_to on_my_way) store_one).1).1
        ≡ (update_job list_client 9 store_one technician_one (request_to on_my_way) store_one).1)
update_job-update_job_example =
    update_job-update_job list_client 9 12 store_one store_one technician_one (request_to on_my_way)
      (request_to cannot_take) store_one refl refl later_version set_out

reading-available_iff_example : (reading on_my_way (some accepted_job) ≡ available accepted_job) ↔ (
    (job_status_eq JobStatus.accepted JobStatus.cancelled ≡ false)
    × Moves (current_technician_status accepted_job) on_my_way (target_status on_my_way))
reading-available_iff_example = reading-available_iff accepted_job on_my_way

may_set_out : reading on_my_way (some accepted_job) ≡ available accepted_job
unfolding reading
may_set_out = refl

now_en_route :
    (apply_action 9 on_my_way accepted_job accepted_job).technician_status
    ≡ some TechnicianJobStatus.en_route
unfolding apply_action
now_en_route = refl

reading-progress_example :
    progress (current_technician_status accepted_job) < progress TechnicianJobStatus.en_route
reading-progress_example =
    reading-progress 9 on_my_way accepted_job accepted_job may_set_out now_en_route

reading_complete_example :
    (reading TechnicianJobAction.in_progress (some (complete 10 accepted_job))
      ≡ available (complete 10 accepted_job))
    × ((apply_action 12 TechnicianJobAction.in_progress
          (complete 10 accepted_job)
          (complete 10 accepted_job)).status
        ≡ JobStatus.in_progress)
reading_complete_example = reading_complete 10 12 accepted_job refl
