-- ===== src/Scheduling/Samples.antt =====
-- Small jobs, a calendar and a codec for the tests.
use signmons_calldesk_backen.Base.{true, false, Option, none, some, Instant, [], ◌∷◌}
use signmons_calldesk_backen.Base.Text.{codes}
use signmons_calldesk_backen.Base.Json.{Json, null, str}
use signmons_calldesk_backen.Base.Token.{Codec}
use signmons_calldesk_backen.Data.Enums.{JobStatus, JobUrgency}
use signmons_calldesk_backen.Data.Rows.{Job}
use signmons_calldesk_backen.Data.Store.{ListStore}
use signmons_calldesk_backen.Scheduling.{Settings, Joined}
use signmons_calldesk_backen.Scheduling.Calendar.{FreeBusy, Answer, status, Google, World}

abbrev pub cancelled_job : Job
cancelled_job = record {
  id = codes "job-1";
  tenant_id = codes "t1";
  customer_id = codes "c1";
  service_category_id = codes "s1";
  assigned_user_id = none;
  assigned_user_tenant_id = none;
  status = JobStatus.cancelled;
  technician_status = none;
  technician_status_updated_at = none;
  urgency = JobUrgency.standard;
  intake_session_id = none;
  pricing_snapshot = null;
  policy_snapshot = null;
  preferred_time_text = none;
  service_window_start = none;
  service_window_end = none;
  calendar_event_id = none;
  accepted_at = none;
  completed_at = none;
  updated_at = 5;
  deleted_at = none;
}

abbrev pub booked_job : Job
booked_job = record {
  id = codes "job-1";
  tenant_id = codes "t1";
  customer_id = codes "c1";
  service_category_id = codes "s1";
  assigned_user_id = none;
  assigned_user_tenant_id = none;
  status = JobStatus.accepted;
  technician_status = none;
  technician_status_updated_at = none;
  urgency = JobUrgency.standard;
  intake_session_id = none;
  pricing_snapshot = null;
  policy_snapshot = null;
  preferred_time_text = none;
  service_window_start = some 1000;
  service_window_end = some 2000;
  calendar_event_id = some (codes "event-1");
  accepted_at = none;
  completed_at = none;
  updated_at = 5;
  deleted_at = none;
}

abbrev pub store_of : Job → ListStore
store_of j = record {
  jobs = j ∷ [];
  payments = [];
  tenants = [];
  subscriptions = [];
  stripe_events = [];
  audits = [];
}

-- A calendar that holds the window of its one event, and makes every change.
abbrev pub Shown : Type 0
Shown = Option (Instant × Instant)

abbrev pub google : Google Shown
google = record {
  free_busy =
      λ start finish k. FreeBusy.payload (some (record { busy = none; has_errors = false }));
  insert = λ j start finish k. (status 200 (some (codes "event-1")), some (start, finish));
  patch = λ id start finish k. (status 200 none, some (start, finish));
  delete = λ id k. (status 204 none, none);
}

-- The same, but for a move whose answer does not arrive, whether or not the calendar makes it.
abbrev pub silent_google : Google Shown
silent_google = record google {
  patch = λ id start finish k. (Answer.no_answer, some (start, finish));
}

abbrev pub world_of : Job → Shown → World ListStore Shown
world_of j k = record { store = store_of j; calendar = k; notices = [] }

-- A codec whose two texts are fixed, and which reads one payload back.
abbrev pub codec_of : Json → Codec
codec_of payload = record {
  sign = λ t. codes "c2ln";
  encode = λ j. codes "cGF5bG9hZA";
  decode = λ t. some payload;
}

-- In UTC, with the two texts and dates of one slot.
abbrev pub settings : Settings
settings = record {
  scheduling_enabled = true;
  lookahead_days = 1;
  min_notice_minutes = 60;
  observe = λ t. t;
  to_iso = λ t. t ∷ [];
  read_date = date_of;
  format_day = λ t. codes "Thu, Jan 1";
  format_window = λ start finish. codes "Jan 1, 8–11 AM";
}
  where
    date_of : Option Json → Option Instant
    date_of (some (str (t ∷ []))) = some t
    date_of _ = none

abbrev pub joins : Job → Joined
joins j = record {
  full_name = codes "Grace";
  phone = codes "+12165550100";
  formatted_address = codes "1 Main St";
  service_category = codes "HEATING";
  description = none;
  preferred_window_label = none;
  created_at = 1;
}
