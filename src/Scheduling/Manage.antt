-- ===== src/Scheduling/Manage.antt =====
-- scheduling/scheduling.service.ts: `manageAppointment`, what a customer does through the link.

use signmons_calldesk_backen.Base.{
  Bool, true, false, not, ◌&&◌, Option, none, some, if◌then◌else◌, is_some, Instant, Result, ok,
  err, HttpError, bad_request, conflict, Action, pure, throw, lift, gets, when, ◌>>=◌, ◌>>◌, List,
  [], ◌∷◌, String,
}
use signmons_calldesk_backen.Base.Text.{Text, Key, text_eq, opt_text_eq, squeeze, truthy, trim}
use signmons_calldesk_backen.Base.Audit.{Detail}
use signmons_calldesk_backen.Base.Token.{Codec}
use signmons_calldesk_backen.Data.Enums.{JobStatus, TechnicianJobStatus, job_status_eq}
use signmons_calldesk_backen.Data.Rows.{Job}
use signmons_calldesk_backen.Data.Store.{Store, Client, create_audit}
use signmons_calldesk_backen.Payments.Requests.Reservation.{payment_of}
use signmons_calldesk_backen.Payments.Requests.Recovery.{Recovered, recover}
use signmons_calldesk_backen.Scheduling.{
  Settings, Joined, map_job, Active, active_appointment, reference, AppointmentSummary,
  appointment_summary, customer_confirmed, customer_reschedule_requested, CustomerEvent,
  CustomerResponseState, CustomerActivity, customer_activity, BookingState, booking_state,
  OfferedAction, customer_actions, technician_label, technician_state, PaymentSummary,
  payment_summary,
}
use signmons_calldesk_backen.Scheduling.Tokens.{Authority, verify_management_token}
use signmons_calldesk_backen.Scheduling.Slots.{AppointmentSlot, available_slots}
use signmons_calldesk_backen.Scheduling.Calendar.{Google, World, on_store}
use signmons_calldesk_backen.Scheduling.Reschedule.{
  Rescheduled, reschedule_appointment, customer_audit, not_changeable,
}
use signmons_calldesk_backen.Scheduling.Cancel.{cancel_appointment}

pub data ManageAction : Type 0 where
  view confirm request_reschedule continue_payment availability reschedule cancel : ManageAction

pub record ManageRequest : Type 0 where
  pub management_token : Text
  pub action : ManageAction
  pub slot_token : Option Text
  pub note : Option Text
  pub expected_tenant_id : Option Key

pub record Details : Type 0 where
  pub is_cancelled : Bool
  pub booking_state : BookingState
  pub reference : Text
  pub customer_name : Text
  pub service_category : Text
  pub appointment : AppointmentSummary
  pub technician : Option TechnicianJobStatus × String
  pub payment : PaymentSummary
  pub customer_response : CustomerActivity
  pub available_actions : List OfferedAction

pub data Response : Type 0 where
  details : Details → Response
  was_confirmed : Details → Bool → Response
  was_requested : Details → Bool → Response
  recovered : Recovered → Response
  times : AppointmentSummary → List AppointmentSlot → Response
  was_rescheduled : Rescheduled → Response
  was_cancelled : Text → Response

-- `note?.replace(/\s+/g, " ").trim() || null`
unfoldable pub normalized_note : Option Text → Option Text
normalized_note none = none
normalized_note (some note) =
    let text = trim (squeeze false note) in if truthy text then some text else none

abbrev detail_of : Option Text → Detail
detail_of none = Detail.absent
detail_of (some t) = Detail.text t

abbrev is_confirmed : CustomerResponseState → Bool
is_confirmed CustomerResponseState.confirmed = true
is_confirmed _ = false

abbrev is_requested : CustomerResponseState → Bool
is_requested CustomerResponseState.reschedule_requested = true
is_requested _ = false

abbrev latest_note : List CustomerEvent → Option (Option Text)
latest_note [] = none
latest_note (e ∷ _) = some e.note

-- `state === "RESCHEDULE_REQUESTED" && latest?.note === normalizedNote`
abbrev asked_before : List CustomerEvent → Option Text → Bool
asked_before events note =
    is_requested (customer_activity events).state && same (latest_note events)
  where
    same : Option (Option Text) → Bool
    same none = false
    same (some n) = opt_text_eq n note

abbrev pub inactive_appointment : HttpError
inactive_appointment =
    conflict
      "This appointment can no longer be confirmed or changed online. Please contact the service company."

abbrev pub appointment_key : Authority → Job → Bool
appointment_key a j = text_eq j.id a.job_id && text_eq j.tenant_id a.tenant_id

module _ {J P T U E A K : Type 0} (db : Client J P T U E A) (g : Google K) (c : Codec)
    (settings : Settings) (joins : Job → Joined)
    (activity : Store J P T U E A → Key → Key → List CustomerEvent) where
  -- `activity` is the query for the last 20 of the customer's actions on a job, the newest first.
  abbrev S : Type 0
  S = Store J P T U E A

  abbrev W : Type 0
  W = World S K

  unfoldable pub management_response : Instant → Job → S → Details
  unfolding booking_state customer_activity customer_actions appointment_summary payment_summary
      reference
  management_response now j s =
      let known = customer_activity (activity s j.tenant_id j.id) in
      record {
        is_cancelled = job_status_eq j.status JobStatus.cancelled;
        booking_state = booking_state j known.state;
        reference = reference j.id;
        customer_name = (joins j).full_name;
        service_category = (joins j).service_category;
        appointment = appointment_summary settings (map_job (joins j) j);
        technician = (technician_state j, technician_label (technician_state j));
        payment =
            payment_summary now (db.payment.find_first (payment_of j.tenant_id j.id) s.payments);
        customer_response = known;
        available_actions = customer_actions j known.state;
      }

  unfoldable pub require_active : Job → Result (Unit {0})
  unfolding active_appointment
  require_active j = if is_some (active_appointment j) then ok tt else err inactive_appointment

  unfoldable pub confirm_window : Instant → Job → Action S Response
  unfolding require_active customer_audit management_response
  confirm_window now j = do
    lift (require_active j)
    events ← gets (λ s. activity s j.tenant_id j.id)
    let changed = not (is_confirmed (customer_activity events).state)
    when changed (
        create_audit db (
          customer_audit j customer_confirmed (
            (
              "appointmentLabel",
              Detail.text (appointment_summary settings (map_job (joins j) j)).label,
            )
            ∷ [])))
    d ← gets (management_response now j)
    pure (was_confirmed d changed)

  unfoldable pub request_change : Instant → Job → Option Text → Action S Response
  unfolding require_active customer_audit management_response normalized_note
  request_change now j note = do
    lift (require_active j)
    events ← gets (λ s. activity s j.tenant_id j.id)
    let changed = not (asked_before events (normalized_note note))
    when changed (
        create_audit db (
          customer_audit j customer_reschedule_requested (
            ("note", detail_of (normalized_note note))
            ∷ (
              "currentAppointmentLabel",
              Detail.text (appointment_summary settings (map_job (joins j) j)).label,
            )
            ∷ [])))
    d ← gets (management_response now j)
    pure (was_requested d changed)

  -- The two actions that need an appointment that can be changed: `availability` and `reschedule`.
  unfoldable pub change_time :
      Option HttpError → Instant → Job → ManageRequest → Option Active → Action W Response
  change_time refusal now j r none = throw not_changeable
  change_time refusal now j r (some a) = choose r.action r.slot_token
    where
      move : Option Text → Action W Response
      move none = throw (bad_request "Choose a new appointment time.")
      move (some []) = throw (bad_request "Choose a new appointment time.")
      move (some (unit ∷ token)) = do
        done ← reschedule_appointment db g settings joins c refusal now j a (unit ∷ token)
        pure (was_rescheduled done)

      choose : ManageAction → Option Text → Action W Response
      choose availability token = do
        slots ← available_slots db g c settings now (map_job (joins j) j)
        pure (times (appointment_summary settings (map_job (joins j) j)) slots)
      choose _ token = move token

  -- `ask` and `trace` are what the recovery of a payment link is given.
  unfoldable pub perform :
      (Key → Key → Result (Option Recovered))
      → Key
      → Option HttpError
      → Instant
      → S
      → Job
      → ManageRequest
      → ManageAction
      → Action W Response
  unfolding confirm_window request_change change_time
  perform ask trace refusal now seen j r view =
      on_store do d ← gets (management_response now j); pure (details d)
  perform ask trace refusal now seen j r confirm = on_store (confirm_window now j)
  perform ask trace refusal now seen j r request_reschedule = on_store (request_change now j r.note)
  perform ask trace refusal now seen j r continue_payment =
      on_store do link ← recover db ask now trace seen j.tenant_id j.id; pure (recovered link)
  perform ask trace refusal now seen j r cancel = do
    id ← cancel_appointment db g settings joins now j
    pure (was_cancelled id)
  perform ask trace refusal now seen j r _ = change_time refusal now j r (active_appointment j)

  unfoldable pub read_appointment : Instant → ManageRequest → S → Result Job
  read_appointment now r seen =
      found (verify_management_token c now r.expected_tenant_id r.management_token)
    where
      job : Option Job → Result Job
      job none = err (bad_request "Appointment not found.")
      job (some j) = ok j

      found : Result Authority → Result Job
      found (ok a) = job (db.job.find_first (appointment_key a) seen.jobs)
      found (err e) = err e

  -- The read of the appointment sees `seen`: other transactions may have been committed since.
  unfoldable pub manage_appointment :
      (Key → Key → Result (Option Recovered))
      → Key
      → Option HttpError
      → Instant
      → S
      → ManageRequest
      → Action W Response
  unfolding perform read_appointment
  manage_appointment ask trace refusal now seen r = do
    j ← lift (read_appointment now r seen)
    perform ask trace refusal now seen j r r.action
