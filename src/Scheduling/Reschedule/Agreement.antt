-- ===== src/Scheduling/Reschedule/Agreement.antt =====
-- What an attempt to move an appointment comes to, whatever the calendar and the database answer.
use signmons_calldesk_backen.Base.{
  Bool, true, ◌&&◌, Option, none, some, is_some, if◌then◌else◌, opt_eq, Instant, Result, ok, err,
  HttpError, Bool-cases, Result-cases, inl, inr, ◌≡◌, ◌⊎◌, refl, sym, ap, arith, ◌∙◌, &&-cases,
  effects, after, rescue, ◌otherwise◌,
}
use signmons_calldesk_backen.Base.Text.{text_eq_refl, opt_text_eq}
use signmons_calldesk_backen.Base.Guarded.{Only, guarded_count, guarded_row}
use signmons_calldesk_backen.Data.Enums.{JobStatus}
use signmons_calldesk_backen.Data.Rows.{Job}
use signmons_calldesk_backen.Data.Store.{Store, Client, update_jobs, create_audit}
use signmons_calldesk_backen.Scheduling.{Settings, Joined, Active, same_job}
use signmons_calldesk_backen.Scheduling.Calendar.{Answer, Google, World, updated, world_effects}
use signmons_calldesk_backen.Scheduling.Confirm.{TimeWindow, has_window, holds_window}
use signmons_calldesk_backen.Scheduling.Cancel.{is_scheduled, scheduled_key, window_of}
use signmons_calldesk_backen.Scheduling.Cancel.Restoring.{
  Schedule, schedule_of, schedule_of_scheduled, HasSchedule, IsHeld,
}
use signmons_calldesk_backen.Scheduling.Reschedule.{
  Rescheduled, record_move, move_calendar, move_window, moved_key, move_back, reserve_move,
  return_window, undo, caught, write_customer_audit, attempt,
}

opt_eq_refl : (t : Instant) → opt_eq (some t) (some t) ≡ true
opt_eq_refl t = ground arith

module _ {J P T U E A K : Type 0} (db : Client J P T U E A) (g : Google K) (settings : Settings)
    (joins : Job → Joined) where
  abbrev W : Type 0
  W = World (Store J P T U E A) K

  -- The job's row is accepted with the event and the window.
  abbrev pub HasWindow : Job → Active → TimeWindow → W → Type 0
  HasWindow j a t = HasSchedule db g settings joins j (record {
    status = JobStatus.accepted;
    event_id = some a.event_id;
    start = some t.start;
    end = some t.end;
  })

  -- The catch block wrote the old schedule back, or it found another job of the tenant with the old window.
  abbrev pub Returns : Job → Active → TimeWindow → Job → W → Type 0
  Returns j a t k w =
      HasSchedule db g settings joins j (schedule_of k) w
      ⊎ (IsHeld db g settings joins j a w × HasWindow j a t w)

  -- The calendar's answer to the move, and to the move back, with what it then keeps.
  abbrev pub moved : Active → TimeWindow → W → Answer × K
  moved a t w = g.patch a.event_id t.start t.end w.calendar

  abbrev pub moved_back : Active → TimeWindow → W → Answer × K
  moved_back a t w = g.patch a.event_id a.start a.end (moved a t w).1

  -- What an attempt to move the job with the row `k` comes to.
  abbrev pub Moves : Job → Active → TimeWindow → Job → W → Result Rescheduled × W → Type 0
  Moves j a t k w (ok _, w') =
      (updated (moved a t w).0 ≡ ok tt) × (w'.calendar ≡ (moved a t w).1) × HasWindow j a t w'
  Moves j a t k w (err _, w') =
      ((w'.calendar ≡ w.calendar) × HasSchedule db g settings joins j (schedule_of k) w')
      ⊎ ((e : HttpError) × (updated (moved a t w).0 ≡ err e)
          × (w'.calendar ≡ (moved a t w).1)
          × Returns j a t k w')
      ⊎ ((updated (moved a t w).0 ≡ ok tt)
          × (updated (moved_back a t w).0 ≡ ok tt)
          × (w'.calendar ≡ (moved_back a t w).1)
          × Returns j a t k w')
      ⊎ ((e : HttpError) × (updated (moved a t w).0 ≡ ok tt)
          × (updated (moved_back a t w).0 ≡ err e)
          × (w'.calendar ≡ (moved_back a t w).1)
          × HasWindow j a t w')

  same_job-move_window :
      (now : Instant) (j : Job) (t : TimeWindow) (r : Job)
      → same_job j (move_window settings now t r) ≡ same_job j r
  unfolding move_window
  same_job-move_window now j t r = refl

  same_job-move_back :
      (now : Instant) (i j : Job) (a : Active) (r : Job)
      → same_job i (move_back now j a r) ≡ same_job i r
  unfolding move_back
  same_job-move_back now i j a r = refl

  module _ (now : Instant) (j : Job) (a : Active) (t : TimeWindow) (w : W) (k : Job)
      (only : Only db.job (same_job j) k w.store.jobs) where
    moved_jobs : J
    moved_jobs =
        (db.job.update_many (scheduled_key j a) (move_window settings now t) w.store.jobs).1

    moved_count :
        (db.job.update_many (scheduled_key j a) (move_window settings now t) w.store.jobs).0
        ≡ (if is_scheduled a k then 1 else 0)
    moved_count =
        guarded_count db.job (same_job j) (is_scheduled a) (move_window settings now t)
          (same_job-move_window now j t) w.store.jobs only

    moved_row :
        Only db.job
          (same_job j)
          (if is_scheduled a k then move_window settings now t k else k)
          moved_jobs
    unfolding moved_jobs
    moved_row =
        guarded_row db.job (same_job j) (is_scheduled a) (move_window settings now t)
          (same_job-move_window now j t) w.store.jobs only

    moved_schedule :
        is_scheduled a k ≡ true
        → schedule_of (move_window settings now t k) ≡ record {
          status = JobStatus.accepted;
          event_id = some a.event_id;
          start = some t.start;
          end = some t.end;
        }
    unfolding move_window
    moved_schedule fresh =
        ap {A = Schedule} (λ x. record x { start = some t.start; end = some t.end })
          (schedule_of_scheduled a k fresh)

    -- The row of a reservation is the one that the catch block moves back.
    moves_back :
        is_scheduled a k ≡ true
        → (opt_text_eq (move_window settings now t k).calendar_event_id (some a.event_id)
            && has_window t (move_window settings now t k))
          ≡ true
    unfolding move_window
    moves_back fresh =
        let event : k.calendar_event_id ≡ some a.event_id =
          ap (λ x. x.event_id) (schedule_of_scheduled a k fresh) in
        rw (event, text_eq_refl a.event_id, opt_eq_refl t.start, opt_eq_refl t.end) refl

    back_row :
        is_scheduled a k ≡ true
        → Only db.job
            (same_job j)
            (move_back now j a (move_window settings now t k))
            (db.job.update_many (moved_key j a t) (move_back now j a) moved_jobs).1
    back_row fresh = rw (moves_back fresh) at (
        guarded_row db.job (same_job j)
          (λ r. opt_text_eq r.calendar_event_id (some a.event_id) && has_window t r)
          (move_back now j a) (same_job-move_back now j j a) moved_jobs (rw fresh at moved_row))

    back_schedule :
        is_scheduled a k ≡ true
        → schedule_of (move_back now j a (move_window settings now t k)) ≡ schedule_of k
    unfolding move_back move_window
    back_schedule fresh =
        ap {A = Schedule} (λ x. record x { start = some a.start; end = some a.end })
          (schedule_of_scheduled a k fresh)
        ∙ sym (schedule_of_scheduled a k fresh)

    -- What the catch block finds before it moves the row back.
    crowded : Bool
    crowded =
        is_some (db.job.find_first (moved_key j a t) moved_jobs)
        && is_some (db.job.find_first (holds_window j (window_of a)) moved_jobs)

    held :
        crowded ≡ true
        → is_some (db.job.find_first (holds_window j (window_of a)) moved_jobs) ≡ true
    unfolding crowded
    held h =
        (&&-cases (is_some (db.job.find_first (moved_key j a t) moved_jobs))
          (is_some (db.job.find_first (holds_window j (window_of a)) moved_jobs)) h).1

    -- The world after the reservation, and after the change of the calendar.
    reserved_world : W
    reserved_world = record w { store = record w.store { jobs = moved_jobs } }

    patched_world : W
    unfolding reserved_world
    patched_world = record reserved_world { calendar = (moved a t w).1 }

    -- The row after the reservation, and after it was moved back.
    stays :
        is_scheduled a k ≡ true
        → (i : Job) × Only db.job (same_job j) i moved_jobs
          × (schedule_of i ≡ record {
            status = JobStatus.accepted;
            event_id = some a.event_id;
            start = some t.start;
            end = some t.end;
          })
    stays fresh = (move_window settings now t k, rw fresh at moved_row, moved_schedule fresh)

    goes_back :
        is_scheduled a k ≡ true
        → (i : Job) × Only db.job
            (same_job j)
            i
            (db.job.update_many (moved_key j a t) (move_back now j a) moved_jobs).1
          × (schedule_of i ≡ schedule_of k)
    goes_back fresh =
        (move_back now j a (move_window settings now t k), back_row fresh, back_schedule fresh)

    record_move-Moves :
        (refusal : Option HttpError)
        → is_scheduled a k ≡ true
        → updated (moved a t w).0 ≡ ok tt
        → Moves j a t k w (record_move db g settings joins refusal now j a t patched_world)
    unfolding record_move caught undo return_window write_customer_audit effects after rescue
        ◌otherwise◌ world_effects update_jobs create_audit patched_world reserved_world crowded
    record_move-Moves none fresh made = (made, refl, stays fresh)
    record_move-Moves (some _) fresh made = elim (Result-cases (updated (moved_back a t w).0)) [
      | inl (_, back) ↦ rw back (elim (Bool-cases crowded) [
        | inl full ↦ rw full (inr (inr (inl (made, back, refl, inr (held full, stays fresh)))))
        | inr free ↦ rw free (inr (inr (inl (made, back, refl, inl (goes_back fresh)))))
      ])
      | inr (e, kept) ↦ rw kept (inr (inr (inr (e, made, kept, refl, stays fresh))))
    ]

    move_calendar-Moves :
        (refusal : Option HttpError)
        → is_scheduled a k ≡ true
        → Moves j a t k w (move_calendar db g settings joins refusal now j a t reserved_world)
    unfolding move_calendar caught undo return_window effects after rescue ◌otherwise◌ world_effects
        update_jobs reserved_world patched_world crowded
    move_calendar-Moves refusal fresh = elim (Result-cases (updated (moved a t w).0)) [
      | inl (_, made) ↦ rw made (record_move-Moves refusal fresh made)
      | inr (e, refused) ↦ rw refused (elim (Bool-cases crowded) [
        | inl full ↦ rw full (inr (inl (e, refused, refl, inr (held full, stays fresh))))
        | inr free ↦ rw free (inr (inl (e, refused, refl, inl (goes_back fresh))))
      ])
    ]

    clashes : Bool
    clashes =
        is_some (db.job.find_first (scheduled_key j a) w.store.jobs)
        && is_some (db.job.find_first (holds_window j t) w.store.jobs)

    -- An attempt on an appointment that alone has its key, and may have changed since it was read, ends in
    -- one of five ways, whatever the calendar and the database answer. Where it is answered, the calendar
    -- answered the move with success, and the job has the new window. Where it throws, either the calendar
    -- was not asked and the job has what it had; or the calendar did not answer the move with success, or it
    -- did and then answered the move back with success, and the job has what it had, unless another job of
    -- the tenant holds the old window by then; or the calendar answered the move with success and the move
    -- back without, and the job keeps the new window. The calendar keeps what the last of its answers left.
    pub attempt-Moves :
        (refusal : Option HttpError)
        → Moves j a t k w (attempt db g settings joins refusal now j a t w)
    unfolding attempt caught reserve_move undo effects after rescue ◌otherwise◌ world_effects
        update_jobs moved_jobs clashes reserved_world
    attempt-Moves refusal = elim (Bool-cases clashes) [
      | inl clash ↦ rw clash (inl (refl, (k, only, refl)))
      | inr free ↦ rw free (elim (Bool-cases (is_scheduled a k)) [
        | inr stale ↦ rw (moved_count, stale) (inl (refl, (k, rw stale at moved_row, refl)))
        | inl fresh ↦ rw (moved_count, fresh) (move_calendar-Moves refusal fresh)
      ])
    ]
