-- ===== src/Scheduling/Sequences/Whole.antt =====
-- A job never has half an appointment, whatever is booked, moved and cancelled.
use signmons_calldesk_backen.Base.{
  Bool, true, ◌&&◌, Option, some, Instant, Result, ok, err, HttpError, List, [], ◌∷◌, All,
  find-holds, inl, inr, ◌≡◌, ◌⊎◌, sym, ap, ◌∙◌, arith,
}
use mathlib.Core.Path.{subst}
use signmons_calldesk_backen.Base.Text.{Key, Text, text_eq}
use signmons_calldesk_backen.Base.Token.{Codec}
use signmons_calldesk_backen.Base.Table.{count_rows-one, find-narrow, find-widen}
use signmons_calldesk_backen.Base.Guarded.{Only}
use signmons_calldesk_backen.Data.Enums.{JobStatus}
use signmons_calldesk_backen.Data.Rows.{Job}
use signmons_calldesk_backen.Data.Store.{Store, Client}
use signmons_calldesk_backen.Scheduling.{Settings, Joined, Active, same_job}
use signmons_calldesk_backen.Scheduling.Calendar.{Google, World}
use signmons_calldesk_backen.Scheduling.Confirm.{Booking, TimeWindow, Confirmation, same_id, book}
use signmons_calldesk_backen.Scheduling.Confirm.Compensation.{
  open_schedule, IsLeft, Books, book-Books,
}
use signmons_calldesk_backen.Scheduling.Confirm.Refusal.{book-Unchanged}
use signmons_calldesk_backen.Scheduling.Cancel.{cancel_active}
use signmons_calldesk_backen.Scheduling.Cancel.Restoring.{
  Schedule, schedule_of, unscheduled, HasSchedule, Settles, cancel_active-Settles,
}
use signmons_calldesk_backen.Scheduling.Reschedule.{Rescheduled, attempt}
use signmons_calldesk_backen.Scheduling.Reschedule.Agreement.{
  HasWindow, Returns, Moves, attempt-Moves,
}
use signmons_calldesk_backen.Scheduling.Sequences.{
  Change, booking, moving, cancelling, make, make_all,
}
use signmons_calldesk_backen.Scheduling.Sequences.Alone.{
  IsAlone, cancel_active-Preserves, attempt-Preserves,
}

-- What was read for the change is the job `i`, at some time.
abbrev pub IsFor : Job → Change → Type 0
IsFor i (booking refusal now b) = (b.job.id ≡ i.id) × (b.job.tenant_id ≡ i.tenant_id)
IsFor i (moving refusal now j a t) = (j.id ≡ i.id) × (j.tenant_id ≡ i.tenant_id)
IsFor i (cancelling now j a) = (j.id ≡ i.id) × (j.tenant_id ≡ i.tenant_id)

module _ {J P T U E A K : Type 0} (db : Client J P T U E A) (g : Google K) (c : Codec)
    (settings : Settings) (joins : Job → Joined) where
  abbrev W : Type 0
  W = World (Store J P T U E A) K

  -- A schedule without an event and a window, or an accepted one with an event and both ends of a window.
  abbrev pub IsWhole : Schedule → Type 0
  IsWhole x =
      (x ≡ open_schedule x.status)
      ⊎ ((id : Key) × (start : Instant) × (finish : Instant) × (x ≡ record {
        status = JobStatus.accepted;
        event_id = some id;
        start = some start;
        end = some finish;
      }))

  -- The row of `i`, alone with its id, has such a schedule.
  abbrev pub HasWhole : Job → W → Type 0
  HasWhole i w =
      IsAlone db g settings joins i w
      × ((k : Job) × Only db.job (same_job i) k w.store.jobs × IsWhole (schedule_of k))

  HasWhole-of_same :
      (i j : Job) (w : W) → j.id ≡ i.id → j.tenant_id ≡ i.tenant_id → HasWhole i w → HasWhole j w
  HasWhole-of_same i j w e f h = rw (e, f) h

  HasWhole-to_same :
      (i j : Job) (w : W) → j.id ≡ i.id → j.tenant_id ≡ i.tenant_id → HasWhole j w → HasWhole i w
  HasWhole-to_same i j w e f h = rw (← e, ← f) h

  Only-same_job :
      (j k : Job) (t : J)
      → Only db.job (same_id j) k t
      → text_eq k.tenant_id j.tenant_id ≡ true
      → Only db.job (same_job j) k t
  Only-same_job j k t only tenant = (
    rw tenant at (
        count_rows-one (same_id j) (λ r. text_eq r.tenant_id j.tenant_id) (db.job.rows t) only.0
          only.1),
    find-narrow (same_id j) (λ r. text_eq r.tenant_id j.tenant_id) (db.job.rows t) only.1 tenant,
  )

  Only-same_id :
      (j k : Job) (w : W)
      → IsAlone db g settings joins j w
      → Only db.job (same_job j) k w.store.jobs
      → Only db.job (same_id j) k w.store.jobs × (text_eq k.tenant_id j.tenant_id ≡ true)
  Only-same_id j k w alone only = (
    (
      alone,
      find-widen (same_id j) (λ r. text_eq r.tenant_id j.tenant_id) (db.job.rows w.store.jobs) alone
          only.1,
    ),
    second _ _ (find-holds (same_job j) (db.job.rows w.store.jobs) only.1),
  )
    where
      second : (x y : Bool) → (x && y) ≡ true → y ≡ true
      second x y h = ground arith

  reopened :
      (x : Schedule) (status : JobStatus) → x ≡ open_schedule status → x ≡ open_schedule x.status
  reopened x status e = e ∙ ap (λ y. open_schedule y.status) (sym e)

  book-HasWhole :
      (refusal : Option HttpError) (now : Instant) (b : Booking) (w : W)
      → HasWhole b.job w
      → HasWhole b.job (book db g c settings joins refusal now b w).1
  book-HasWhole refusal now b w (alone, (k, only, is_whole)) = by_schedule is_whole
    where
      ids :
          Only db.job (same_id b.job) k w.store.jobs × (text_eq k.tenant_id b.job.tenant_id ≡ true)
      ids = Only-same_id b.job k w alone only

      is_left_open :
          (status : JobStatus) (w' : W)
          → IsLeft db g c settings joins b.job (open_schedule status) w'
          → HasWhole b.job w'
      is_left_open status w' (i, only', tenant, e) =
          (only'.0, (i, Only-same_job b.job i w'.store.jobs only' tenant, inl (reopened _ _ e)))

      by_result :
          (r : Result Confirmation × W)
          → Books db g c settings joins b k.status w r
          → HasWhole b.job r.1
      by_result (ok _, w') (id, made, kept, (i, only', tenant, e)) = (
        only'.0,
        (
          i,
          Only-same_job b.job i w'.store.jobs only' tenant,
          inr (id, b.window.start, b.window.end, e),
        ),
      )
      by_result (err _, w') (inl (_, left)) = is_left_open k.status w' left
      by_result (err _, w') (inr (_, left)) = is_left_open JobStatus.created w' left

      by_schedule :
          IsWhole (schedule_of k) → HasWhole b.job (book db g c settings joins refusal now b w).1
      by_schedule (inl is_open) =
          by_result (book db g c settings joins refusal now b w)
            (book-Books db g c settings joins now b w k ids.0 ids.1 k.status is_open refusal)
      by_schedule (inr (id, start, finish, e)) =
          let (only', kept) =
            book-Unchanged db g c settings joins refusal now b w k ids.0 (ap (λ x. x.start) e) in
          (only'.0, (k, Only-same_job b.job k _ only' ids.1, inr (id, start, finish, e)))

  -- The row of a job with a whole schedule.
  abbrev Left : Job → W → Type 0
  Left j w = (i : Job) × Only db.job (same_job j) i w.store.jobs × IsWhole (schedule_of i)

  Left-schedule :
      (j k : Job) (w : W)
      → IsWhole (schedule_of k)
      → HasSchedule db g settings joins j (schedule_of k) w
      → Left j w
  Left-schedule j k w is_whole (i, only, e) = (i, only, subst IsWhole (sym e) is_whole)

  Left-unscheduled : (j : Job) (w : W) → HasSchedule db g settings joins j unscheduled w → Left j w
  Left-unscheduled j w (i, only, e) = (i, only, inl (reopened _ JobStatus.cancelled e))

  Left-window :
      (j : Job) (a : Active) (t : TimeWindow) (w : W)
      → HasWindow db g settings joins j a t w
      → Left j w
  Left-window j a t w (i, only, e) = (i, only, inr (a.event_id, t.start, t.end, e))

  cancel-HasWhole :
      (now : Instant) (j : Job) (a : Active) (w : W)
      → HasWhole j w
      → HasWhole j (cancel_active db g settings joins now j (some a) w).1
  cancel-HasWhole now j a w (alone, (k, only, is_whole)) = (
    (cancel_active-Preserves db g settings joins j now j a).preserved w alone,
    by_result (cancel_active db g settings joins now j (some a) w)
        (cancel_active-Settles db g settings joins now j a w k only),
  )
    where
      by_result :
          (r : Result Text × W) → Settles db g settings joins j a (schedule_of k) w r → Left j r.1
      by_result (ok _, w') (gone, left) = Left-unscheduled j w' left
      by_result (err _, w') (inl (left, spares)) = Left-schedule j k w' is_whole left
      by_result (err _, w') (inr (_, _, _, (_, left))) = Left-unscheduled j w' left

  move-HasWhole :
      (refusal : Option HttpError) (now : Instant) (j : Job) (a : Active) (t : TimeWindow) (w : W)
      → HasWhole j w
      → HasWhole j (attempt db g settings joins refusal now j a t w).1
  move-HasWhole refusal now j a t w (alone, (k, only, is_whole)) = (
    (attempt-Preserves db g settings joins j refusal now j a t).preserved w alone,
    by_result (attempt db g settings joins refusal now j a t w)
        (attempt-Moves db g settings joins now j a t w k only refusal),
  )
    where
      returned : (w' : W) → Returns db g settings joins j a t k w' → Left j w'
      returned w' (inl left) = Left-schedule j k w' is_whole left
      returned w' (inr (_, left)) = Left-window j a t w' left

      by_result : (r : Result Rescheduled × W) → Moves db g settings joins j a t k w r → Left j r.1
      by_result (ok _, w') (_, _, left) = Left-window j a t w' left
      by_result (err _, w') (inl (_, left)) = Left-schedule j k w' is_whole left
      by_result (err _, w') (inr (inl (_, _, _, left))) = returned w' left
      by_result (err _, w') (inr (inr (inl (_, _, _, left)))) = returned w' left
      by_result (err _, w') (inr (inr (inr (_, _, _, _, left)))) = Left-window j a t w' left

  make-HasWhole :
      (i : Job) (x : Change) (w : W)
      → IsFor i x
      → HasWhole i w
      → HasWhole i (make db g c settings joins x w)
  unfolding make
  make-HasWhole i (booking refusal now b) w (e, f) h =
      HasWhole-to_same i b.job (book db g c settings joins refusal now b w).1 e f
        (book-HasWhole refusal now b w (HasWhole-of_same i b.job w e f h))
  make-HasWhole i (moving refusal now j a t) w (e, f) h =
      HasWhole-to_same i j (attempt db g settings joins refusal now j a t w).1 e f
        (move-HasWhole refusal now j a t w (HasWhole-of_same i j w e f h))
  make-HasWhole i (cancelling now j a) w (e, f) h =
      HasWhole-to_same i j (cancel_active db g settings joins now j (some a) w).1 e f
        (cancel-HasWhole now j a w (HasWhole-of_same i j w e f h))

  -- No sequence of bookings, moves and cancellations of a job, each prepared on whatever was read before and
  -- whether or not it throws, leaves it half an appointment, whatever the calendar and the database answer:
  -- where the job is alone with its id and starts without an event and a window, or accepted with an event
  -- and both ends of a window, it ends so. It says nothing of what the calendar has.
  pub make_all-HasWhole :
      (i : Job) (xs : List Change) (w : W)
      → All (IsFor i) xs
      → HasWhole i w
      → HasWhole i (make_all db g c settings joins xs w)
  unfolding make_all
  make_all-HasWhole i [] w for h = h
  make_all-HasWhole i (x ∷ xs) w (for, fors) h =
      make_all-HasWhole i xs (make db g c settings joins x w) fors (make-HasWhole i x w for h)
