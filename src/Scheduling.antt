-- ===== src/Scheduling.antt =====
-- scheduling/scheduling.service.ts: appointments. This file has what the service reads off a job: its
-- record, whether it may be booked at once, and the states that a customer is shown.
pub mod Tokens
pub mod Slots
pub mod Calendar
pub mod Confirm
pub mod Reschedule
pub mod Cancel
pub mod Manage
pub mod Sequences
mod Samples
mod Tests
mod ChangeTests
use signmons_calldesk_backen.Base.{
  ℕ, ◌-◌, Bool, true, false, not, ◌&&◌, ◌||◌, Option, none, some, is_some, coalesce, if◌then◌else◌,
  leb, ltb, Instant, HttpError, conflict, String, List, [], ◌∷◌, map, take, filter, ◌==◌,
}
use signmons_calldesk_backen.Base.Text.{Text, Key, codes, text_eq, one_of, present, is_digit}
use signmons_calldesk_backen.Base.Json.{Json, record_of, prop, is_text}
use signmons_calldesk_backen.Data.Enums.{
  JobStatus, TechnicianJobStatus, JobUrgency, PaymentStatus, job_status_eq, payment_status_eq,
}
use signmons_calldesk_backen.Data.Rows.{Job, Payment}

pub data PropertyType : Type 0 where
  residential commercial managed : PropertyType

pub data ServiceIntent : Type 0 where
  diagnostic repair installation maintenance other : ServiceIntent

-- The columns of a job and of the rows joined to it that the service only copies.
pub record Joined : Type 0 where
  pub full_name : Text
  pub phone : Text
  pub formatted_address : Text
  pub service_category : Text
  pub description : Option Text
  pub preferred_window_label : Option Text
  pub created_at : Instant

-- JobRecord of jobs/interfaces/job-repository.interface.ts
pub record JobRecord : Type 0 where
  pub id : Key
  pub tenant_id : Key
  pub customer_name : Text
  pub phone : Text
  pub address : Text
  pub issue_category : Text
  pub urgency : JobUrgency
  pub description : Option Text
  pub preferred_time : Option Text
  pub preferred_time_text : Option Text
  pub property_type : PropertyType
  pub service_intent : ServiceIntent
  pub service_window_start : Option Instant
  pub service_window_end : Option Instant
  pub calendar_event_id : Option Key
  pub status : JobStatus
  pub created_at : Instant
  pub updated_at : Instant

abbrev property_type : Option Json → PropertyType
property_type v =
    if is_text v (codes "RESIDENTIAL")
    then residential
    else if is_text v (codes "COMMERCIAL")
    then commercial
    else managed

abbrev service_intent : Option Json → ServiceIntent
service_intent v =
    if is_text v (codes "DIAGNOSTIC")
    then diagnostic
    else if is_text v (codes "REPAIR")
    then repair
    else if is_text v (codes "INSTALLATION")
    then installation
    else if is_text v (codes "MAINTENANCE")
    then maintenance
    else other

unfoldable pub map_job : Joined → Job → JobRecord
map_job with_rows j =
    let snapshot = record_of (some j.policy_snapshot) in
    record {
      id = j.id;
      tenant_id = j.tenant_id;
      customer_name = with_rows.full_name;
      phone = with_rows.phone;
      address = with_rows.formatted_address;
      issue_category = with_rows.service_category;
      urgency = j.urgency;
      description = with_rows.description;
      preferred_time = with_rows.preferred_window_label;
      preferred_time_text = j.preferred_time_text;
      property_type = property_type (prop snapshot "propertyType");
      service_intent = service_intent (prop snapshot "serviceIntent");
      service_window_start = j.service_window_start;
      service_window_end = j.service_window_end;
      calendar_event_id = j.calendar_event_id;
      status = j.status;
      created_at = with_rows.created_at;
      updated_at = j.updated_at;
    }

-- What the configuration and the JavaScript engine give to the service. `observe` is the clock on the
-- wall of the scheduling time zone, as `Date.UTC` of the parts that `partsInZone` gives; `to_iso` is
-- `toISOString`, `read_date` is `new Date(value).getTime()` of a payload's field, and the last two are
-- the texts of `Intl.DateTimeFormat`.
pub record Settings : Type 0 where
  pub scheduling_enabled : Bool
  pub lookahead_days : ℕ
  pub min_notice_minutes : ℕ
  pub observe : Instant → Instant
  pub to_iso : Instant → Text
  pub read_date : Option Json → Option Instant
  pub format_day : Instant → Text
  pub format_window : Instant → Instant → Text

abbrev is_residential : PropertyType → Bool
is_residential residential = true
is_residential _ = false

abbrev is_visit : ServiceIntent → Bool
is_visit diagnostic = true
is_visit repair = true
is_visit _ = false

abbrev is_standard : JobUrgency → Bool
is_standard JobUrgency.standard = true
is_standard _ = false

unfoldable pub is_instant_booking_eligible : Settings → JobRecord → Bool
unfolding one_of text_eq
is_instant_booking_eligible settings j =
    settings.scheduling_enabled
    && is_residential j.property_type
    && is_visit j.service_intent
    && is_standard j.urgency
    && (present (some j.address) && not (text_eq j.address (codes "Unknown address")))
    && one_of j.issue_category (codes "HEATING" ∷ codes "COOLING" ∷ [])

-- The row of a job that was read.
abbrev pub same_job : Job → Job → Bool
same_job j k = text_eq k.id j.id && text_eq k.tenant_id j.tenant_id

-- An appointment that can be changed online: accepted, with an event and a window.
pub record Active : Type 0 where
  pub event_id : Key
  pub start : Instant
  pub end : Instant

abbrev active_parts : Option Key → Option Instant → Option Instant → Option Active
active_parts (some (c ∷ event_id)) (some start) (some end) =
    some (record { event_id = c ∷ event_id; start = start; end = end })
active_parts _ _ _ = none

unfoldable pub active_appointment : Job → Option Active
active_appointment j =
    if job_status_eq j.status JobStatus.accepted
    then active_parts j.calendar_event_id j.service_window_start j.service_window_end
    else none

pub record AppointmentSummary : Type 0 where
  pub start : Option Instant
  pub end : Option Instant
  pub label : Text

abbrev summary_label : Settings → Option Instant → Option Instant → Option Text → Text
summary_label settings (some start) (some end) text = settings.format_window start end
summary_label settings _ _ text = coalesce text (codes "Cancelled")

unfoldable pub appointment_summary : Settings → JobRecord → AppointmentSummary
appointment_summary settings j = record {
  start = j.service_window_start;
  end = j.service_window_end;
  label = summary_label settings j.service_window_start j.service_window_end j.preferred_time_text;
}

-- `CUSTOMER_APPOINTMENT_ACTIONS`
pub data CustomerAction : Type 0 where
  customer_confirmed customer_reschedule_requested customer_rescheduled : CustomerAction

abbrev pub action_name : CustomerAction → String
action_name customer_confirmed = "appointment.customer_confirmed"
action_name customer_reschedule_requested = "appointment.customer_reschedule_requested"
action_name customer_rescheduled = "appointment.customer_rescheduled"

pub data CustomerResponseState : Type 0 where
  awaiting_response confirmed reschedule_requested : CustomerResponseState

-- One of the customer's recorded actions, the newest first in a list of them.
pub record CustomerEvent : Type 0 where
  pub action : CustomerAction
  pub note : Option Text
  pub created_at : Instant

abbrev customer_response_state : List CustomerEvent → CustomerResponseState
customer_response_state [] = awaiting_response
customer_response_state (e ∷ _) = of_action e.action
  where
    of_action : CustomerAction → CustomerResponseState
    of_action customer_confirmed = confirmed
    of_action customer_reschedule_requested = reschedule_requested
    of_action customer_rescheduled = confirmed

abbrev customer_response_label : List CustomerEvent → String
customer_response_label [] = "Waiting for customer confirmation"
customer_response_label (e ∷ _) = of_action e.action
  where
    of_action : CustomerAction → String
    of_action customer_confirmed = "Customer confirmed the appointment window"
    of_action customer_reschedule_requested = "Customer requested a different appointment time"
    of_action customer_rescheduled = "Customer selected a new confirmed appointment window"

abbrev newest : List CustomerEvent → Option Instant
newest [] = none
newest (e ∷ _) = some e.created_at

pub record CustomerActivity : Type 0 where
  pub state : CustomerResponseState
  pub label : String
  pub updated_at : Option Instant
  pub events : List CustomerEvent

unfoldable pub customer_activity : List CustomerEvent → CustomerActivity
customer_activity events = record {
  state = customer_response_state events;
  label = customer_response_label events;
  updated_at = newest events;
  events = events;
}

pub data BookingState : Type 0 where
  cancelled completed reschedule_requested confirmed pending_customer_confirmation : BookingState
  request_received : BookingState

unfoldable pub booking_state : Job → CustomerResponseState → BookingState
booking_state j state =
    if job_status_eq j.status JobStatus.cancelled
    then cancelled
    else if job_status_eq j.status JobStatus.completed
    then completed
    else of_response state
  where
    of_response : CustomerResponseState → BookingState
    of_response CustomerResponseState.reschedule_requested = BookingState.reschedule_requested
    of_response CustomerResponseState.confirmed = BookingState.confirmed
    of_response awaiting_response =
        if is_some j.service_window_start && is_some j.service_window_end
        then pending_customer_confirmation
        else request_received

pub data OfferedAction : Type 0 where
  confirm request_reschedule : OfferedAction

unfoldable pub customer_actions : Job → CustomerResponseState → List OfferedAction
unfolding active_appointment
customer_actions j state = if is_some (active_appointment j) then offered state else []
  where
    offered : CustomerResponseState → List OfferedAction
    offered CustomerResponseState.confirmed = request_reschedule ∷ []
    offered _ = confirm ∷ request_reschedule ∷ []

abbrev pub technician_label : Option TechnicianJobStatus → String
technician_label none = "A technician has not been assigned yet"
technician_label (some TechnicianJobStatus.assigned) = "A technician has been assigned"
technician_label (some TechnicianJobStatus.accepted) = "Your technician accepted the job"
technician_label (some TechnicianJobStatus.en_route) = "Your technician is on the way"
technician_label (some TechnicianJobStatus.in_progress) = "Work is in progress"
technician_label (some TechnicianJobStatus.completed) = "Work is complete"

-- `job.assignedUserId ? (job.technicianStatus ?? "ASSIGNED") : "UNASSIGNED"`
abbrev pub technician_state : Job → Option TechnicianJobStatus
technician_state j =
    if present j.assigned_user_id
    then some (coalesce j.technician_status TechnicianJobStatus.assigned)
    else none

pub record PaymentSummary : Type 0 where
  pub state : Option PaymentStatus
  pub label : String
  pub can_continue : Bool

abbrev payment_label : PaymentStatus → String
payment_label PaymentStatus.pending = "Payment is pending"
payment_label PaymentStatus.succeeded = "Payment received"
payment_label PaymentStatus.failed = "Payment needs attention"
payment_label PaymentStatus.refunded = "Payment refunded"
payment_label PaymentStatus.canceled = "Payment was cancelled"

abbrev ends_after : Instant → Option Instant → Bool
ends_after now none = false
ends_after now (some at) = ltb now at

unfoldable pub payment_summary : Instant → Option Payment → PaymentSummary
payment_summary now none = record {
  state = none;
  label = "Payment has not been requested";
  can_continue = false;
}
payment_summary now (some p) = record {
  state = some p.status;
  label = payment_label p.status;
  can_continue =
      payment_status_eq p.status PaymentStatus.pending && ends_after now p.checkout_expires_at;
}

-- `jobId.replace(/-/g, "").slice(0, 8).toUpperCase()`
unfoldable pub reference : Key → Text
reference id = map upper (take 8 (filter (λ c. not (c == b'-')) id))
  where
    upper : ℕ → ℕ
    upper c = if leb b'a' c && leb c b'z' then c - 32 else c
