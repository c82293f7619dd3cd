-- ===== src/Scheduling/Cancel.antt =====
-- scheduling/scheduling.service.ts: `cancelAppointment`.
pub mod Restoring
use signmons_calldesk_backen.Base.{
  ℕ, Bool, true, false, not, ◌&&◌, Option, none, some, coalesce, if◌then◌else◌, ◌==◌, is_some,
  opt_eq, Instant, Result, ok, err, HttpError, conflict, unavailable, unexpected, Action, pure,
  throw, throw_if, gets, ◌>>=◌, ◌>>◌, ◌otherwise◌,
}
use signmons_calldesk_backen.Base.Text.{Text, Key, text_eq, opt_text_eq}
use signmons_calldesk_backen.Data.Enums.{JobStatus, job_status_eq}
use signmons_calldesk_backen.Data.Rows.{Job}
use signmons_calldesk_backen.Data.Store.{Store, Client, update_jobs}
use signmons_calldesk_backen.Scheduling.{
  Settings, Joined, JobRecord, map_job, Active, active_appointment, reference, same_job,
}
use signmons_calldesk_backen.Scheduling.Confirm.{TimeWindow, holds_window}
use signmons_calldesk_backen.Scheduling.Calendar.{
  Google, World, on_store, delete_event, enqueue, appointment_cancelled,
}

abbrev pub changed_while_viewing : HttpError
changed_while_viewing =
    conflict "This appointment changed while you were viewing it. Please refresh."

abbrev pub not_cancellable : HttpError
not_cancellable =
    conflict "This appointment can no longer be cancelled online. Please call Eternity."

abbrev pub not_cancelled : HttpError
not_cancelled =
    unavailable "We could not cancel that appointment. It remains scheduled; please call Eternity."

-- The row as it was read: accepted, with its event and window.
abbrev pub is_scheduled : Active → Job → Bool
is_scheduled a k =
    job_status_eq k.status JobStatus.accepted
    && opt_text_eq k.calendar_event_id (some a.event_id)
    && opt_eq k.service_window_start (some a.start)
    && opt_eq k.service_window_end (some a.end)

abbrev pub scheduled_key : Job → Active → Job → Bool
scheduled_key j a k = same_job j k && is_scheduled a k

abbrev pub original_text : Settings → Job → Active → Text
original_text settings j a = coalesce j.preferred_time_text (settings.format_window a.start a.end)

unfoldable pub cancel : Settings → Instant → Job → Active → Job → Job
cancel settings now j a k = record k {
  status = JobStatus.cancelled;
  calendar_event_id = none;
  service_window_start = none;
  service_window_end = none;
  preferred_time_text = some (original_text settings j a);
  updated_at = now;
}

-- The row that a failed cancellation left.
abbrev pub cancelled_key : Job → Job → Bool
cancelled_key j k =
    same_job j k
    && (job_status_eq k.status JobStatus.cancelled && not (is_some k.calendar_event_id))

unfoldable pub restore : Settings → Instant → Job → Active → Job → Job
restore settings now j a k = record k {
  status = JobStatus.accepted;
  calendar_event_id = some a.event_id;
  service_window_start = some a.start;
  service_window_end = some a.end;
  preferred_time_text = some (original_text settings j a);
  updated_at = now;
}

abbrev pub window_of : Active → TimeWindow
window_of a = record { start = a.start; end = a.end }

abbrev cancelled_record : Settings → Instant → Job → Active → JobRecord → JobRecord
cancelled_record settings now j a r = record r {
  status = JobStatus.cancelled;
  calendar_event_id = none;
  service_window_start = none;
  service_window_end = none;
  preferred_time_text = some (original_text settings j a);
  updated_at = now;
}

module _ {J P T U E A K : Type 0} (db : Client J P T U E A) (g : Google K) (settings : Settings)
    (joins : Job → Joined) where
  abbrev W : Type 0
  W = World (Store J P T U E A) K

  unfoldable pub remove_event : Instant → Job → Active → Action W Text
  unfolding reference
  remove_event now j a = do
    delete_event g a.event_id
    enqueue (appointment_cancelled (cancelled_record settings now j a (map_job (joins j) j)))
    pure (reference j.id)

  -- The window is unique: where another job of the tenant holds it, the update throws out of the catch block.
  unfoldable pub restore_appointment : Instant → Job → Active → Action W Text
  unfolding restore
  restore_appointment now j a = do
    row ← on_store (gets (λ s. db.job.find_first (cancelled_key j) s.jobs))
    clash ← on_store (gets (λ s. db.job.find_first (holds_window j (window_of a)) s.jobs))
    throw_if (is_some row && is_some clash) unexpected
    count ← on_store (update_jobs db (cancelled_key j) (restore settings now j a))
    throw not_cancelled

  unfoldable pub cancel_active : Instant → Job → Option Active → Action W Text
  unfolding cancel remove_event restore_appointment
  cancel_active now j none = throw not_cancellable
  cancel_active now j (some a) = do
    count ← on_store (update_jobs db (scheduled_key j a) (cancel settings now j a))
    throw_if (not (count == 1)) changed_while_viewing
    remove_event now j a otherwise restore_appointment now j a

  -- The answer is the reference of the job.
  unfoldable pub cancel_appointment : Instant → Job → Action W Text
  unfolding cancel_active active_appointment
  cancel_appointment now j =
      if job_status_eq j.status JobStatus.cancelled
      then pure (reference j.id)
      else cancel_active now j (active_appointment j)
