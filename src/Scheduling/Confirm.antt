-- ===== src/Scheduling/Confirm.antt =====
-- scheduling/scheduling.service.ts: `confirmAppointment`, the booking of a slot.
pub mod Compensation
pub mod Refusal
use signmons_calldesk_backen.Base.{
  ℕ, Bool, true, false, not, ◌&&◌, ◌||◌, Option, none, some, is_some, opt_eq, if◌then◌else◌, leb,
  ltb, ◌==◌, Instant, Result, ok, err, HttpError, bad_request, conflict, unavailable, unexpected,
  Action, pure, throw, throw_if, or_throw, lift, gets, ◌>>=◌, ◌>>◌, ◌otherwise◌, and_then, check,
  ok_or,
}
use signmons_calldesk_backen.Base.Text.{Text, Key, text_eq, opt_text_eq}
use signmons_calldesk_backen.Base.Json.{Json, is_text}
use signmons_calldesk_backen.Base.Token.{Codec}
use signmons_calldesk_backen.Data.Enums.{JobStatus, job_status_eq}
use signmons_calldesk_backen.Data.Rows.{Job}
use signmons_calldesk_backen.Data.Store.{Store, Client, update_jobs}
use signmons_calldesk_backen.Scheduling.{
  Settings, Joined, JobRecord, map_job, is_instant_booking_eligible, AppointmentSummary,
  appointment_summary,
}
use signmons_calldesk_backen.Scheduling.Tokens.{
  SignedSlot, verify_slot, invalid_choice, sign_management_token,
}
use signmons_calldesk_backen.Scheduling.Calendar.{
  Google, World, on_store, ask_busy, insert_event, overlaps_busy, enqueue, appointment_confirmed,
}

pub record ConfirmRequest : Type 0 where
  pub tenant_id : Key
  pub session_id : Key
  pub job_id : Key
  pub slot_token : Text

pub record Confirmation : Type 0 where
  pub job : JobRecord
  pub appointment : AppointmentSummary
  pub management_token : Text

pub record TimeWindow : Type 0 where
  pub start : Instant
  pub end : Instant

abbrev pub just_taken : HttpError
just_taken = conflict "That appointment was just taken. Please choose another time."

-- `slot.tenantId !== tenantId || slot.jobId !== jobId`, negated
abbrev is_for : Key → Key → SignedSlot → Bool
is_for tenant_id job_id slot = is_text slot.tenant_id tenant_id && is_text slot.job_id job_id

-- The window of a slot, where both ends are dates and the first comes before the second.
unfoldable pub slot_window : Settings → SignedSlot → Result TimeWindow
slot_window settings slot = go (settings.read_date slot.start) (settings.read_date slot.end)
  where
    go : Option Instant → Option Instant → Result TimeWindow
    go (some start) (some finish) =
        if ltb start finish then ok (record { start = start; end = finish }) else err invalid_choice
    go _ _ = err invalid_choice

-- The slot of a token, for the job that it was signed for.
unfoldable pub chosen_slot : Codec → Instant → Key → Key → Text → Result SignedSlot
chosen_slot c now tenant_id job_id token =
    and_then (verify_slot c now token)
      λ slot. and_then (check (not (is_for tenant_id job_id slot)) invalid_choice) λ _. ok slot

abbrev pub has_window : TimeWindow → Job → Bool
has_window t j =
    opt_eq j.service_window_start (some t.start) && opt_eq j.service_window_end (some t.end)

abbrev request_key : ConfirmRequest → Job → Bool
request_key r j =
    text_eq j.id r.job_id
    && text_eq j.tenant_id r.tenant_id
    && opt_text_eq j.intake_session_id (some r.session_id)

-- What the reads before the booking come to.
pub record Booking : Type 0 where
  pub job : Job
  pub window : TimeWindow

unfoldable pub read_booking :
    Settings → (Job → Joined) → Codec → Instant → ConfirmRequest → Option Job → Result Booking
unfolding slot_window chosen_slot
read_booking settings joins c now r job =
    and_then
      (check (not settings.scheduling_enabled)
        (unavailable "Instant appointment booking is temporarily unavailable."))
      λ _. and_then (chosen_slot c now r.tenant_id r.job_id r.slot_token) λ slot.
        and_then (ok_or job (bad_request "Service request not found.")) λ j.
          and_then
            (check (not (is_instant_booking_eligible settings (map_job (joins j) j)))
              (bad_request "This service request requires confirmation from Eternity."))
            λ _. and_then (slot_window settings slot) λ t. ok (record { job = j; window = t })

abbrev is_booked : Booking → Bool
is_booked b = job_status_eq b.job.status JobStatus.accepted && has_window b.window b.job

abbrev pub same_id : Job → Job → Bool
same_id j k = text_eq k.id j.id

-- The row that may be reserved: without a window, whatever its status.
abbrev pub without_window : Job → Job → Bool
without_window j k =
    same_id j k
    && (text_eq k.tenant_id j.tenant_id
        && not (is_some k.service_window_start)
        && not (is_some k.service_window_end))

-- Another job of the tenant with the window: `@@unique([tenantId, serviceWindowStart, serviceWindowEnd])`.
abbrev pub holds_window : Job → TimeWindow → Job → Bool
holds_window j t k = not (text_eq k.id j.id) && text_eq k.tenant_id j.tenant_id && has_window t k

unfoldable pub reserve_window : Settings → Instant → TimeWindow → Job → Job
reserve_window settings now t k = record k {
  status = JobStatus.accepted;
  service_window_start = some t.start;
  service_window_end = some t.end;
  preferred_time_text = some (settings.format_window t.start t.end);
  updated_at = now;
}

unfoldable pub set_event : Instant → Key → Job → Job
set_event now event_id k = record k { calendar_event_id = some event_id; updated_at = now }

abbrev pub without_event : Job → Job → Bool
without_event j k =
    same_id j k && (text_eq k.tenant_id j.tenant_id && not (is_some k.calendar_event_id))

unfoldable pub release_window : Instant → Job → Job
release_window now k = record k {
  status = JobStatus.created;
  service_window_start = none;
  service_window_end = none;
  preferred_time_text = none;
  updated_at = now;
}

unfoldable pub confirmed_response : Codec → Settings → Instant → JobRecord → Confirmation
confirmed_response c settings now j = record {
  job = j;
  appointment = appointment_summary settings j;
  management_token = sign_management_token c now j.tenant_id j.id;
}

-- The database refuses an update, or it does not.
abbrev pub unless_refused : Option HttpError → Result (Unit {0})
unless_refused none = ok tt
unless_refused (some e) = err e

abbrev pub not_reserved : HttpError
not_reserved = unavailable "We could not reserve that time. Please try another appointment."

module _ {J P T U E A K : Type 0} (db : Client J P T U E A) (g : Google K) (c : Codec)
    (settings : Settings) (joins : Job → Joined) where
  abbrev W : Type 0
  W = World (Store J P T U E A) K

  unfoldable pub reserve : Instant → Booking → Action (Store J P T U E A) (Unit {0})
  unfolding reserve_window
  reserve now b = do
    row ← gets (λ s. db.job.find_first (without_window b.job) s.jobs)
    clash ← gets (λ s. db.job.find_first (holds_window b.job b.window) s.jobs)
    throw_if (is_some row && is_some clash) just_taken
    count ← update_jobs db (without_window b.job) (reserve_window settings now b.window)
    throw_if (not (count == 1)) (conflict "This request already has an appointment selection.")

  -- `job.update`, which throws where the database refuses it or there is no such row, and returns the row.
  unfoldable pub attach_event :
      Option HttpError → Instant → Booking → Key → Action (Store J P T U E A) Job
  unfolding set_event
  attach_event refusal now b event_id = do
    lift (unless_refused refusal)
    count ← update_jobs db (same_id b.job) (set_event now event_id)
    throw_if (count == 0) unexpected
    row ← gets (λ s. db.job.find_first (same_id b.job) s.jobs)
    or_throw row unexpected

  unfoldable pub book_event : Option HttpError → Instant → Booking → Action W Confirmation
  unfolding attach_event confirmed_response
  book_event refusal now b = do
    event_id ← insert_event g (map_job (joins b.job) b.job) b.window.start b.window.end
    j ← on_store (attach_event refusal now b event_id)
    enqueue (appointment_confirmed (map_job (joins j) j))
    pure (confirmed_response c settings now (map_job (joins j) j))

  unfoldable pub give_up : Instant → Booking → Action W Confirmation
  unfolding release_window
  give_up now b = do
    count ← on_store (update_jobs db (without_event b.job) (release_window now))
    throw not_reserved

  unfoldable pub book : Option HttpError → Instant → Booking → Action W Confirmation
  unfolding reserve book_event give_up
  book refusal now b = do
    busy ← ask_busy g b.window.start b.window.end
    throw_if (overlaps_busy b.window.start b.window.end busy) just_taken
    on_store (reserve now b)
    book_event refusal now b otherwise give_up now b

  unfoldable pub settle_booking : Option HttpError → Instant → Booking → Action W Confirmation
  unfolding book
  settle_booking refusal now b =
      if is_booked b
      then pure (confirmed_response c settings now (map_job (joins b.job) b.job))
      else book refusal now b

  -- The first read sees `seen`: other transactions may have been committed since.
  unfoldable pub confirm_appointment :
      Option HttpError → Instant → Store J P T U E A → ConfirmRequest → Action W Confirmation
  unfolding read_booking settle_booking
  confirm_appointment refusal now seen r = do
    b ← lift (read_booking settings joins c now r (db.job.find_first (request_key r) seen.jobs))
    settle_booking refusal now b
