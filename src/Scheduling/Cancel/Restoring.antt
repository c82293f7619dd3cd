-- ===== src/Scheduling/Cancel/Restoring.antt =====
-- What a cancellation leaves behind, whether or not it succeeds.
use signmons_calldesk_backen.Base.{
  HttpError, ◌⊎◌, Bool, true, ◌&&◌, Option, none, some, if◌then◌else◌, opt_eq, Instant, Result, ok,
  err, Bool-cases, Result-cases, inl, inr, ◌≡◌, refl, sym, ap, arith, effects, after, rescue,
  ◌otherwise◌, &&-cases, not, is_some,
}
use signmons_calldesk_backen.Base.Text.{Text, Key, text_eq→eq, opt_text_eq}
use signmons_calldesk_backen.Base.Guarded.{Only, guarded_count, guarded_row}
use signmons_calldesk_backen.Data.Enums.{JobStatus, job_status_eq}
use signmons_calldesk_backen.Data.Rows.{Job}
use signmons_calldesk_backen.Data.Store.{Store, Client, update_jobs}
use signmons_calldesk_backen.Scheduling.{Settings, Joined, Active, same_job}
use signmons_calldesk_backen.Scheduling.Calendar.{Google, World, deleted, world_effects}
use signmons_calldesk_backen.Scheduling.Confirm.{holds_window}
use signmons_calldesk_backen.Scheduling.Cancel.{
  is_scheduled, scheduled_key, window_of, cancel, cancelled_key, restore, remove_event,
  restore_appointment, cancel_active,
}

-- What is scheduled: the status, the calendar's event and the window.
pub record Schedule : Type 0 where
  pub status : JobStatus
  pub event_id : Option Key
  pub start : Option Instant
  pub end : Option Instant

abbrev pub schedule_of : Job → Schedule
schedule_of j = record {
  status = j.status;
  event_id = j.calendar_event_id;
  start = j.service_window_start;
  end = j.service_window_end;
}

abbrev pub unscheduled : Schedule
unscheduled = record { status = JobStatus.cancelled; event_id = none; start = none; end = none }

opt_text_eq→eq : (a : Option Text) (t : Text) → opt_text_eq a (some t) ≡ true → a ≡ some t
opt_text_eq→eq none t h = ground arith
opt_text_eq→eq (some s) t h = ap some (text_eq→eq s t h)

opt_eq→eq : (a : Option Instant) (t : Instant) → opt_eq a (some t) ≡ true → a ≡ some t
opt_eq→eq none t h = ground arith
opt_eq→eq (some s) t h = ground arith

accepted_of : (s : JobStatus) → job_status_eq s JobStatus.accepted ≡ true → s ≡ JobStatus.accepted
accepted_of JobStatus.accepted h = refl
accepted_of JobStatus.created h = cc
accepted_of JobStatus.offered h = cc
accepted_of JobStatus.declined h = cc
accepted_of JobStatus.expired h = cc
accepted_of JobStatus.in_progress h = cc
accepted_of JobStatus.completed h = cc
accepted_of JobStatus.cancelled h = cc

pub schedule_of_scheduled :
    (a : Active) (k : Job)
    → is_scheduled a k ≡ true
    → schedule_of k ≡ record {
      status = JobStatus.accepted;
      event_id = some a.event_id;
      start = some a.start;
      end = some a.end;
    }
schedule_of_scheduled a k h =
    let (h1, finish) = &&-cases _ (opt_eq k.service_window_end (some a.end)) h in
    let (h2, start) = &&-cases _ (opt_eq k.service_window_start (some a.start)) h1 in
    let (status, event) =
      &&-cases (job_status_eq k.status JobStatus.accepted)
        (opt_text_eq k.calendar_event_id (some a.event_id)) h2 in
    rw
      (
        accepted_of k.status status,
        opt_text_eq→eq k.calendar_event_id a.event_id event,
        opt_eq→eq k.service_window_start a.start start,
        opt_eq→eq k.service_window_end a.end finish,
      )
      refl

module _ {J P T U E A K : Type 0} (db : Client J P T U E A) (g : Google K) (settings : Settings)
    (joins : Job → Joined) where
  abbrev W : Type 0
  W = World (Store J P T U E A) K

  -- The job's row, which is the only one of its key, has this schedule.
  abbrev pub HasSchedule : Job → Schedule → W → Type 0
  HasSchedule j x w = (k : Job) × Only db.job (same_job j) k w.store.jobs × (schedule_of k ≡ x)

  -- Another job of the tenant holds the appointment's window.
  abbrev pub IsHeld : Job → Active → W → Type 0
  IsHeld j a w = is_some (db.job.find_first (holds_window j (window_of a)) w.store.jobs) ≡ true

  -- The calendar was not asked, or it was asked for the job's own event and refused.
  abbrev pub Spares : Active → Schedule → W → W → Type 0
  Spares a x w w' =
      (w'.calendar ≡ w.calendar)
      ⊎ ((e : HttpError) × (x.event_id ≡ some a.event_id)
          × (deleted (g.delete a.event_id w.calendar).0 ≡ err e)
          × (w'.calendar ≡ (g.delete a.event_id w.calendar).1))

  -- What a call of `cancelAppointment` comes to for a job whose schedule was `x`.
  abbrev pub Settles : Job → Active → Schedule → W → Result Text × W → Type 0
  Settles j a x w (ok _, w') =
      (deleted (g.delete a.event_id w.calendar).0 ≡ ok tt) × HasSchedule j unscheduled w'
  Settles j a x w (err _, w') =
      (HasSchedule j x w' × Spares a x w w')
      ⊎ ((e : HttpError) × (deleted (g.delete a.event_id w.calendar).0 ≡ err e)
          × (w'.calendar ≡ (g.delete a.event_id w.calendar).1)
          × (IsHeld j a w' × HasSchedule j unscheduled w'))

  same_job-cancel :
      (now : Instant) (j : Job) (a : Active) (r : Job)
      → same_job j (cancel settings now j a r) ≡ same_job j r
  unfolding cancel
  same_job-cancel now j a r = refl

  same_job-restore :
      (now : Instant) (j : Job) (a : Active) (r : Job)
      → same_job j (restore settings now j a r) ≡ same_job j r
  unfolding restore
  same_job-restore now j a r = refl

  -- The first update, and what the job's key finds after it.
  module _ (now : Instant) (j : Job) (a : Active) (w : W) (k : Job)
      (only : Only db.job (same_job j) k w.store.jobs) where
    cancelled_jobs : J
    cancelled_jobs =
        (db.job.update_many (scheduled_key j a) (cancel settings now j a) w.store.jobs).1

    cancelled_count :
        (db.job.update_many (scheduled_key j a) (cancel settings now j a) w.store.jobs).0
        ≡ (if is_scheduled a k then 1 else 0)
    cancelled_count =
        guarded_count db.job (same_job j) (is_scheduled a) (cancel settings now j a)
          (same_job-cancel now j a) w.store.jobs only

    cancelled_row :
        Only db.job
          (same_job j)
          (if is_scheduled a k then cancel settings now j a k else k)
          cancelled_jobs
    unfolding cancelled_jobs
    cancelled_row =
        guarded_row db.job (same_job j) (is_scheduled a) (cancel settings now j a)
          (same_job-cancel now j a) w.store.jobs only

    -- The update that restores the row after a failed deletion.
    restored_row :
        is_scheduled a k ≡ true
        → Only db.job
            (same_job j)
            (restore settings now j a (cancel settings now j a k))
            (db.job.update_many (cancelled_key j) (restore settings now j a) cancelled_jobs).1
    unfolding cancel
    restored_row fresh =
        guarded_row db.job (same_job j)
          (λ r. job_status_eq r.status JobStatus.cancelled && not (is_some r.calendar_event_id))
          (restore settings now j a) (same_job-restore now j a) cancelled_jobs
          (rw fresh at cancelled_row)

    restored_schedule :
        is_scheduled a k ≡ true
        → schedule_of (restore settings now j a (cancel settings now j a k)) ≡ schedule_of k
    unfolding restore cancel
    restored_schedule fresh = sym (schedule_of_scheduled a k fresh)

    cancelled_schedule : schedule_of (cancel settings now j a k) ≡ unscheduled
    unfolding cancel
    cancelled_schedule = refl

    clashes : Bool
    clashes =
        is_some (db.job.find_first (cancelled_key j) cancelled_jobs)
        && is_some (db.job.find_first (holds_window j (window_of a)) cancelled_jobs)

    held :
        clashes ≡ true
        → is_some (db.job.find_first (holds_window j (window_of a)) cancelled_jobs) ≡ true
    unfolding clashes
    held h =
        (&&-cases (is_some (db.job.find_first (cancelled_key j) cancelled_jobs))
          (is_some (db.job.find_first (holds_window j (window_of a)) cancelled_jobs)) h).1

    -- Cancelling an appointment that alone has its key, and may have changed since it was read, either
    -- takes the event and the window off the job, once the calendar has let the event go, or throws
    -- and leaves the status, the event and the window as they were, and then the calendar was not asked,
    -- or it was asked to delete the job's own event and refused. Only where it refused and another job of
    -- the tenant holds the appointment's window by then, it throws and the job stays cancelled, without the
    -- event and the window.
    pub cancel_active-Settles :
        Settles j a (schedule_of k) w (cancel_active db g settings joins now j (some a) w)
    unfolding cancel_active remove_event restore_appointment effects after ◌otherwise◌ rescue
        world_effects update_jobs cancelled_jobs clashes
    cancel_active-Settles = elim (Bool-cases (is_scheduled a k)) [
      | inr stale ↦
          rw (cancelled_count, stale) (inl ((k, rw stale at cancelled_row, refl), inl refl))
      | inl fresh ↦
          rw (cancelled_count, fresh)
            (elim (Result-cases (deleted (g.delete a.event_id w.calendar).0)) [
              | inl (gone, e) ↦
                  rw e
                    (e, (cancel settings now j a k, rw fresh at cancelled_row, cancelled_schedule))
              | inr (refusal, e) ↦ rw e (elim (Bool-cases clashes) [
                | inl clash ↦ rw clash (
                    inr (
                      refusal,
                      e,
                      refl,
                      (
                        held clash,
                        (cancel settings now j a k, rw fresh at cancelled_row, cancelled_schedule),
                      ),
                    ))
                | inr no_clash ↦ rw no_clash (
                    inl (
                      (
                        restore settings now j a (cancel settings now j a k),
                        restored_row fresh,
                        restored_schedule fresh,
                      ),
                      inr (
                        refusal,
                        ap (λ x. x.event_id) (schedule_of_scheduled a k fresh),
                        e,
                        refl,
                      ),
                    ))
              ])
            ])
    ]
