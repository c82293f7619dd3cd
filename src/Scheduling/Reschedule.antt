-- ===== src/Scheduling/Reschedule.antt =====
-- scheduling/scheduling.service.ts: `rescheduleAppointment`.
pub mod Agreement
use signmons_calldesk_backen.Base.{
  ℕ, Bool, true, false, not, ◌&&◌, ◌||◌, Option, none, some, if◌then◌else◌, ◌==◌, is_some, opt_eq,
  Instant, Result, ok, err, HttpError, conflict, unavailable, unexpected, Action, pure, throw,
  throw_if, or_throw, lift, gets, when, ◌>>=◌, ◌>>◌, ◌otherwise◌, and_then, List, [], ◌∷◌, String,
}
use signmons_calldesk_backen.Base.Text.{Text, Key, text_eq, opt_text_eq}
use signmons_calldesk_backen.Base.Audit.{Audit, customer, of_customer, Detail}
use signmons_calldesk_backen.Base.Token.{Codec}
use signmons_calldesk_backen.Data.Enums.{JobStatus}
use signmons_calldesk_backen.Data.Rows.{Job}
use signmons_calldesk_backen.Data.Store.{Store, Client, update_jobs, create_audit}
use signmons_calldesk_backen.Scheduling.{
  Settings, Joined, JobRecord, map_job, Active, active_appointment, reference, AppointmentSummary,
  appointment_summary, CustomerAction, customer_rescheduled, action_name, same_job,
}
use signmons_calldesk_backen.Scheduling.Calendar.{
  Google, World, on_store, ask_busy, move_event, overlaps_busy, enqueue, appointment_rescheduled,
}
use signmons_calldesk_backen.Scheduling.Confirm.{
  TimeWindow, slot_window, chosen_slot, has_window, holds_window, just_taken,
}
use signmons_calldesk_backen.Scheduling.Cancel.{scheduled_key, window_of, changed_while_viewing}

pub record Rescheduled : Type 0 where
  pub reference : Text
  pub appointment : AppointmentSummary

-- `recordCustomerAction`
unfoldable pub customer_audit : Job → CustomerAction → List (String × Detail) → Audit
customer_audit j action metadata = record {
  tenant_id = j.tenant_id;
  action = action_name action;
  actor_type = customer;
  actor_id = of_customer j.customer_id;
  entity_type = "Job";
  entity_id = j.id;
  metadata = metadata;
  trace_id = none;
}

unfoldable pub move_window : Settings → Instant → TimeWindow → Job → Job
move_window settings now t k = record k {
  service_window_start = some t.start;
  service_window_end = some t.end;
  preferred_time_text = some (settings.format_window t.start t.end);
  updated_at = now;
}

-- The row that the reservation of a new window left.
abbrev pub moved_key : Job → Active → TimeWindow → Job → Bool
moved_key j a t k =
    same_job j k && (opt_text_eq k.calendar_event_id (some a.event_id) && has_window t k)

unfoldable pub move_back : Instant → Job → Active → Job → Job
move_back now j a k = record k {
  service_window_start = some a.start;
  service_window_end = some a.end;
  preferred_time_text = j.preferred_time_text;
  updated_at = now;
}

abbrev moved_record : Settings → Instant → TimeWindow → JobRecord → JobRecord
moved_record settings now t r = record r {
  service_window_start = some t.start;
  service_window_end = some t.end;
  preferred_time_text = some (settings.format_window t.start t.end);
  updated_at = now;
}

abbrev pub not_changeable : HttpError
not_changeable = conflict "This appointment can no longer be changed online. Please call Eternity."

abbrev pub not_changed : HttpError
not_changed =
    unavailable "We could not change that appointment. Your original time is still reserved."

-- What the handler throws for the error that it caught: a conflict is passed on.
abbrev pub handled : HttpError → HttpError
handled (HttpError.conflict m) = HttpError.conflict m
handled _ = not_changed

-- How far the attempt came when it threw: `reservationChanged` and `calendarChanged`.
pub record Progress : Type 0 where
  pub reservation_changed : Bool
  pub calendar_changed : Bool

unfoldable pub read_choice : Settings → Codec → Instant → Job → Text → Result TimeWindow
unfolding chosen_slot slot_window
read_choice settings c now j token =
    and_then (chosen_slot c now j.tenant_id j.id token) λ slot. slot_window settings slot

module _ {J P T U E A K : Type 0} (db : Client J P T U E A) (g : Google K) (settings : Settings)
    (joins : Job → Joined) where
  abbrev W : Type 0
  W = World (Store J P T U E A) K

  unfoldable pub rescheduled : Instant → Job → TimeWindow → Rescheduled
  unfolding reference appointment_summary
  rescheduled now j t = record {
    reference = reference j.id;
    appointment = appointment_summary settings (moved_record settings now t (map_job (joins j) j));
  }

  unfoldable pub reserve_move :
      Instant → Job → Active → TimeWindow → Action (Store J P T U E A) (Unit {0})
  unfolding move_window
  reserve_move now j a t = do
    row ← gets (λ s. db.job.find_first (scheduled_key j a) s.jobs)
    clash ← gets (λ s. db.job.find_first (holds_window j t) s.jobs)
    throw_if (is_some row && is_some clash) just_taken
    count ← update_jobs db (scheduled_key j a) (move_window settings now t)
    throw_if (not (count == 1)) changed_while_viewing

  -- The window is unique: where another job of the tenant holds the old one, the update throws out of the
  -- catch block.
  unfoldable pub return_window :
      Instant → Job → Active → TimeWindow → Action (Store J P T U E A) (Unit {0})
  unfolding move_back
  return_window now j a t = do
    row ← gets (λ s. db.job.find_first (moved_key j a t) s.jobs)
    clash ← gets (λ s. db.job.find_first (holds_window j (window_of a)) s.jobs)
    throw_if (is_some row && is_some clash) unexpected
    count ← update_jobs db (moved_key j a t) (move_back now j a)
    pure tt

  -- The catch block after `progress`.
  unfoldable pub undo : Instant → Job → Active → TimeWindow → Progress → Action W (Unit {0})
  unfolding return_window
  undo now j a t progress = do
    restored ←
        if progress.calendar_changed
        then ((do move_event g a.event_id a.start a.end; pure true) otherwise pure false)
        else pure true
    when (progress.reservation_changed && restored) (on_store (return_window now j a t))

  -- The try block, each of its steps with the catch block that its throw runs into. `refusal` is the
  -- error of the database when it refuses the audit entry.
  unfoldable pub caught :
      {B : Type 0}
      → Instant
      → Job
      → Active
      → TimeWindow
      → Progress
      → Action W B
      → (B → Action W Rescheduled)
      → Action W Rescheduled
  unfolding undo
  caught {B = B} now j a t progress m k w = settled (m w)
    where
      settled : Result B × W → Result Rescheduled × W
      settled (ok b, w') = k b w'
      settled (err e, w') = (do undo now j a t progress; throw (handled e)) w'

  unfoldable pub write_customer_audit :
      Option HttpError → Audit → Action (Store J P T U E A) (Unit {0})
  write_customer_audit none entry = create_audit db entry
  write_customer_audit (some e) entry = throw e

  unfoldable pub record_move :
      Option HttpError → Instant → Job → Active → TimeWindow → Action W Rescheduled
  unfolding caught write_customer_audit customer_audit rescheduled
  record_move refusal now j a t =
      caught now j a t (record { reservation_changed = true; calendar_changed = true })
        (on_store (
          write_customer_audit refusal (
            customer_audit j customer_rescheduled (
              ("previousAppointmentLabel", Detail.text (settings.format_window a.start a.end))
              ∷ ("appointmentLabel", Detail.text (settings.format_window t.start t.end))
              ∷ []))))
        λ _. do
          enqueue (appointment_rescheduled (moved_record settings now t (map_job (joins j) j)))
          pure (rescheduled now j t)

  unfoldable pub move_calendar :
      Option HttpError → Instant → Job → Active → TimeWindow → Action W Rescheduled
  unfolding caught record_move
  move_calendar refusal now j a t =
      caught now j a t (record { reservation_changed = true; calendar_changed = false })
        (move_event g a.event_id t.start t.end) λ _. record_move refusal now j a t

  unfoldable pub attempt :
      Option HttpError → Instant → Job → Active → TimeWindow → Action W Rescheduled
  unfolding caught reserve_move move_calendar
  attempt refusal now j a t =
      caught now j a t (record { reservation_changed = false; calendar_changed = false })
        (on_store (reserve_move now j a t)) λ _. move_calendar refusal now j a t

  -- `job.serviceWindowStart` and the rest were checked by `manageAppointment`, with the event.
  unfoldable pub move_to :
      Option HttpError → Instant → Job → Active → TimeWindow → Action W Rescheduled
  unfolding attempt
  move_to refusal now j a t =
      if has_window t j
      then pure (record {
        reference = reference j.id;
        appointment = appointment_summary settings (map_job (joins j) j);
      })
      else do
        busy ← ask_busy g t.start t.end
        throw_if (overlaps_busy t.start t.end busy) just_taken
        attempt refusal now j a t

  unfoldable pub reschedule_appointment :
      Codec → Option HttpError → Instant → Job → Active → Text → Action W Rescheduled
  unfolding read_choice move_to
  reschedule_appointment c refusal now j a token = do
    t ← lift (read_choice settings c now j token)
    move_to refusal now j a t
