-- ===== src/Scheduling/Confirm/Compensation.antt =====
-- What the booking of a slot leaves behind, whether or not it succeeds.
use signmons_calldesk_backen.Base.{
  Bool, true, not, ◌&&◌, Option, HttpError, none, some, is_some, Instant, Result, ok, err,
  Bool-cases, Option-cases, Result-cases, inl, inr, ◌≡◌, ◌⊎◌, refl, ap, effects, after, rescue,
  ◌otherwise◌,
}
use signmons_calldesk_backen.Base.Text.{Key, text_eq}
use signmons_calldesk_backen.Base.Token.{Codec}
use signmons_calldesk_backen.Base.Guarded.{Only, guarded_count, guarded_row, keyed_count, keyed_row}
use signmons_calldesk_backen.Data.Enums.{JobStatus}
use signmons_calldesk_backen.Data.Rows.{Job}
use signmons_calldesk_backen.Data.Store.{Store, Client, update_jobs}
use signmons_calldesk_backen.Scheduling.{Settings, Joined, map_job}
use signmons_calldesk_backen.Scheduling.Calendar.{
  Google, World, fetch_busy, inserted, overlaps_busy, world_effects,
}
use signmons_calldesk_backen.Scheduling.Cancel.Restoring.{Schedule, schedule_of}
use signmons_calldesk_backen.Scheduling.Confirm.{
  Confirmation, Booking, without_window, holds_window, reserve_window, set_event, without_event,
  release_window, same_id, reserve, attach_event, book_event, give_up, book,
}

-- A job without an event and a window.
abbrev pub open_schedule : JobStatus → Schedule
open_schedule status = record { status = status; event_id = none; start = none; end = none }

module _ {J P T U E A K : Type 0} (db : Client J P T U E A) (g : Google K) (c : Codec)
    (settings : Settings) (joins : Job → Joined) where
  abbrev W : Type 0
  W = World (Store J P T U E A) K

  -- The row of the job's id, which is the only one, is the tenant's and has this schedule.
  abbrev pub IsLeft : Job → Schedule → W → Type 0
  IsLeft j x w =
      (k : Job) × Only db.job (same_id j) k w.store.jobs
      × (text_eq k.tenant_id j.tenant_id ≡ true)
      × (schedule_of k ≡ x)

  -- What a booking of `b` comes to, where the row was open and had `status`.
  abbrev pub Books : Booking → JobStatus → W → Result Confirmation × W → Type 0
  Books b status w (ok _, w') =
      (event_id : Key) × (inserted
          (g.insert (map_job (joins b.job) b.job) b.window.start b.window.end w.calendar).0
        ≡ ok event_id)
      × (w'.calendar
          ≡ (g.insert (map_job (joins b.job) b.job) b.window.start b.window.end w.calendar).1)
      × IsLeft b.job
          (record {
            status = JobStatus.accepted;
            event_id = some event_id;
            start = some b.window.start;
            end = some b.window.end;
          })
          w'
  Books b status w (err _, w') =
      ((w'.calendar ≡ w.calendar) × IsLeft b.job (open_schedule status) w')
      ⊎ ((w'.calendar
            ≡ (g.insert (map_job (joins b.job) b.job) b.window.start b.window.end w.calendar).1)
          × IsLeft b.job (open_schedule JobStatus.created) w')

  module _ (now : Instant) (b : Booking) (w : W) (k : Job)
      (only : Only db.job (same_id b.job) k w.store.jobs)
      (tenant : text_eq k.tenant_id b.job.tenant_id ≡ true) (status : JobStatus)
      (is_open : schedule_of k ≡ open_schedule status) where
    reserved_jobs : J
    reserved_jobs =
        (db.job.update_many (without_window b.job) (reserve_window settings now b.window)
          w.store.jobs).1

    is_reservable :
        (text_eq k.tenant_id b.job.tenant_id
          && not (is_some k.service_window_start)
          && not (is_some k.service_window_end))
        ≡ true
    is_reservable =
        let start : k.service_window_start ≡ none = ap (λ x. x.start) is_open in
        let finish : k.service_window_end ≡ none = ap (λ x. x.end) is_open in
        rw (tenant, start, finish) refl

    same_id-reserve_window :
        (r : Job) → same_id b.job (reserve_window settings now b.window r) ≡ same_id b.job r
    unfolding reserve_window
    same_id-reserve_window r = refl

    reserved_count :
        (db.job.update_many
          (without_window b.job)
          (reserve_window settings now b.window)
          w.store.jobs).0
        ≡ 1
    reserved_count = rw is_reservable at (
        guarded_count db.job (same_id b.job)
          (λ r.
            text_eq r.tenant_id b.job.tenant_id
            && not (is_some r.service_window_start)
            && not (is_some r.service_window_end))
          (reserve_window settings now b.window) same_id-reserve_window w.store.jobs only)

    reserved_row :
        Only db.job (same_id b.job) (reserve_window settings now b.window k) reserved_jobs
    unfolding reserved_jobs
    reserved_row = rw is_reservable at (
        guarded_row db.job (same_id b.job)
          (λ r.
            text_eq r.tenant_id b.job.tenant_id
            && not (is_some r.service_window_start)
            && not (is_some r.service_window_end))
          (reserve_window settings now b.window) same_id-reserve_window w.store.jobs only)

    event_row :
        (event_id : Key)
        → Only db.job
            (same_id b.job)
            (set_event now event_id (reserve_window settings now b.window k))
            (db.job.update_many (same_id b.job) (set_event now event_id) reserved_jobs).1
    event_row event_id =
        keyed_row db.job (same_id b.job) (set_event now event_id) (λ r. unfold set_event in refl)
          reserved_jobs reserved_row

    event_count :
        (event_id : Key)
        → (db.job.update_many (same_id b.job) (set_event now event_id) reserved_jobs).0 ≡ 1
    event_count event_id =
        keyed_count db.job (same_id b.job) (set_event now event_id) (λ r. unfold set_event in refl)
          reserved_jobs reserved_row

    is_releasable :
        (text_eq (reserve_window settings now b.window k).tenant_id b.job.tenant_id
          && not (is_some (reserve_window settings now b.window k).calendar_event_id))
        ≡ true
    unfolding reserve_window
    is_releasable =
        let event : k.calendar_event_id ≡ none = ap (λ x. x.event_id) is_open in
        rw (tenant, event) refl

    released_row :
        Only db.job
          (same_id b.job)
          (release_window now (reserve_window settings now b.window k))
          (db.job.update_many (without_event b.job) (release_window now) reserved_jobs).1
    released_row = rw is_releasable at (
        guarded_row db.job (same_id b.job)
          (λ r. text_eq r.tenant_id b.job.tenant_id && not (is_some r.calendar_event_id))
          (release_window now) (λ r. unfold release_window in refl) reserved_jobs reserved_row)

    released_schedule :
        schedule_of (release_window now (reserve_window settings now b.window k))
        ≡ open_schedule JobStatus.created
    unfolding release_window reserve_window
    released_schedule =
        let event : k.calendar_event_id ≡ none = ap (λ x. x.event_id) is_open in rw event refl

    event_schedule :
        (event_id : Key)
        → schedule_of (set_event now event_id (reserve_window settings now b.window k)) ≡ record {
          status = JobStatus.accepted;
          event_id = some event_id;
          start = some b.window.start;
          end = some b.window.end;
        }
    unfolding set_event reserve_window
    event_schedule event_id = refl

    tenant_of_release :
        text_eq
          (release_window now (reserve_window settings now b.window k)).tenant_id
          b.job.tenant_id
        ≡ true
    unfolding release_window reserve_window
    tenant_of_release = tenant

    tenant_of_event :
        (event_id : Key)
        → text_eq
            (set_event now event_id (reserve_window settings now b.window k)).tenant_id
            b.job.tenant_id
          ≡ true
    unfolding set_event reserve_window
    tenant_of_event event_id = tenant

    released :
        (i : Job) × Only db.job
          (same_id b.job)
          i
          (db.job.update_many (without_event b.job) (release_window now) reserved_jobs).1
        × (text_eq i.tenant_id b.job.tenant_id ≡ true)
        × (schedule_of i ≡ open_schedule JobStatus.created)
    released = (
      release_window now (reserve_window settings now b.window k),
      released_row,
      tenant_of_release,
      released_schedule,
    )

    reserved_world : W
    reserved_world = record w { store = record w.store { jobs = reserved_jobs } }

    clashes : Bool
    clashes =
        is_some (db.job.find_first (without_window b.job) w.store.jobs)
        && is_some (db.job.find_first (holds_window b.job b.window) w.store.jobs)

    -- The calendar's part, and the catch block.
    book_event-Books :
        (refusal : Option HttpError)
        → Books b status w (
            (book_event db g c settings joins refusal now b
                otherwise give_up db g c settings joins now b)
              reserved_world)
    unfolding book_event give_up attach_event effects after rescue ◌otherwise◌ world_effects
        update_jobs reserved_world
    book_event-Books refusal =
        elim (Result-cases (
          inserted
            (g.insert (map_job (joins b.job) b.job) b.window.start b.window.end w.calendar).0)) [
              | inr (_, refused) ↦ rw refused (inr (refl, released))
              | inl (event_id, made) ↦
                  let row = event_row event_id in
                  rw made (elim (Option-cases refusal) [
                    | inr (_, no_update) ↦ rw no_update (inr (refl, released))
                    | inl update ↦
                        rw (update, event_count event_id, db.job.find_first_lem, row.1)
                          (
                            event_id,
                            made,
                            refl,
                            (
                              set_event now event_id (reserve_window settings now b.window k),
                              row,
                              tenant_of_event event_id,
                              event_schedule event_id,
                            ),
                          )
                  ])
            ]

    unchanged : IsLeft b.job (open_schedule status) w
    unchanged = (k, only, tenant, is_open)

    -- Booking a slot for a job that alone has its id, is the tenant's, and has no event and no window,
    -- whatever its status is and whether or not the database refuses the event's id. Where it is answered, the calendar has made an event, and the job is
    -- accepted with that event and the slot's window. Where it throws, the job has no event and no
    -- window; either the calendar was not asked and the job's status is what it was, or the calendar was
    -- asked for an event, of which nothing is taken back, and the status is that of a new request. The job
    -- stays the tenant's.
    pub book-Books :
        (refusal : Option HttpError) → Books b status w (book db g c settings joins refusal now b w)
    unfolding book reserve effects after rescue world_effects update_jobs reserved_jobs clashes
        reserved_world
    book-Books refusal =
        elim (Result-cases (fetch_busy (g.free_busy b.window.start b.window.end w.calendar))) [
          | inr (_, no_times) ↦ rw no_times (inl (refl, unchanged))
          | inl (busy, known) ↦
              rw known (elim (Bool-cases (overlaps_busy b.window.start b.window.end busy)) [
                | inl taken ↦ rw taken (inl (refl, unchanged))
                | inr free ↦ rw free (elim (Bool-cases clashes) [
                  | inl clash ↦ rw clash (inl (refl, unchanged))
                  | inr no_clash ↦ rw (no_clash, reserved_count) (book_event-Books refusal)
                ])
              ])
        ]
