-- ===== src/Scheduling/ChangeTests.antt =====
-- The theorems on the changes of an appointment, applied to small inputs.
use signmons_calldesk_backen.Base.{inl, ◌otherwise◌, true, none, some, List, [], ◌∷◌, ◌≡◌, refl}
use signmons_calldesk_backen.Base.Text.{codes, text_eq}
use signmons_calldesk_backen.Base.Json.{null}
use signmons_calldesk_backen.Base.Guarded.{Only}
use signmons_calldesk_backen.Data.Enums.{JobStatus}
use signmons_calldesk_backen.Data.Store.{list_client, store_effects}
use signmons_calldesk_backen.Scheduling.{Active, same_job}
use signmons_calldesk_backen.Scheduling.Calendar.{updated, world_effects, overlaps_busy}
use signmons_calldesk_backen.Scheduling.Confirm.{same_id, book}
use signmons_calldesk_backen.Scheduling.Confirm.Compensation.{Books, book-Books}
use signmons_calldesk_backen.Scheduling.Cancel.{cancel_active}
use signmons_calldesk_backen.Scheduling.Cancel.Restoring.{
  Settles, schedule_of, cancel_active-Settles,
}
use signmons_calldesk_backen.Scheduling.Reschedule.{attempt}
use signmons_calldesk_backen.Scheduling.Sequences.{Change, booking, moving, cancelling, make_all}
use signmons_calldesk_backen.Scheduling.Sequences.Whole.{HasWhole, make_all-HasWhole}
use signmons_calldesk_backen.Scheduling.Reschedule.Agreement.{Moves, attempt-Moves}
use signmons_calldesk_backen.Scheduling.Samples.{
  booked_job, cancelled_job, codec_of, google, joins, settings, silent_google, store_of, world_of,
}

Only-id : Only list_client.job (same_id cancelled_job) cancelled_job (store_of cancelled_job).jobs
unfolding text_eq
Only-id = (refl, refl)

same_tenant : text_eq cancelled_job.tenant_id cancelled_job.tenant_id ≡ true
unfolding text_eq
same_tenant = refl

book-Books_example :
    Books list_client google
      (codec_of null)
      settings
      joins
      (record { job = cancelled_job; window = record { start = 3000; end = 4000 } })
      JobStatus.cancelled
      (world_of cancelled_job none)
      (book list_client google
        (codec_of null)
        settings
        joins
        none
        9
        (record { job = cancelled_job; window = record { start = 3000; end = 4000 } })
        (world_of cancelled_job none))
book-Books_example =
    book-Books list_client google (codec_of null) settings joins 9
      (record { job = cancelled_job; window = record { start = 3000; end = 4000 } })
      (world_of cancelled_job none) cancelled_job Only-id same_tenant JobStatus.cancelled refl none

Only-booked : Only list_client.job (same_job booked_job) booked_job (store_of booked_job).jobs
unfolding text_eq
Only-booked = (refl, refl)

abbrev appointment : Active
appointment = record { event_id = codes "event-1"; start = 1000; end = 2000 }

cancel_active-Settles_example :
    Settles list_client google settings joins booked_job appointment
      (schedule_of booked_job)
      (world_of booked_job (some (1000, 2000)))
      (cancel_active list_client google settings joins 9 booked_job
        (some appointment)
        (world_of booked_job (some (1000, 2000))))
cancel_active-Settles_example =
    cancel_active-Settles list_client google settings joins 9 booked_job appointment
      (world_of booked_job (some (1000, 2000))) booked_job Only-booked

attempt-Moves_example :
    Moves list_client silent_google settings joins booked_job appointment
      (record { start = 3000; end = 4000 })
      booked_job
      (world_of booked_job (some (1000, 2000)))
      (attempt list_client silent_google settings joins none 9 booked_job appointment
        (record { start = 3000; end = 4000 })
        (world_of booked_job (some (1000, 2000))))
attempt-Moves_example =
    attempt-Moves list_client silent_google settings joins 9 booked_job appointment
      (record { start = 3000; end = 4000 }) (world_of booked_job (some (1000, 2000))) booked_job
      Only-booked none

-- The job has its old window again, and the calendar shows the new one.
silent_move :
    (attempt list_client silent_google settings joins none 9 booked_job appointment
      (record { start = 3000; end = 4000 })
      (world_of booked_job (some (1000, 2000)))).1.calendar
    ≡ some (3000, 4000)
unfolding attempt text_eq store_effects world_effects updated ◌otherwise◌
silent_move = refl

-- A booking, a move of what was booked, its cancellation, and a move that comes too late.
abbrev four_changes : List Change
four_changes =
    booking none 9 (record { job = cancelled_job; window = record { start = 1000; end = 2000 } })
    ∷ moving none 10 booked_job appointment (record { start = 3000; end = 4000 })
    ∷ cancelling 11 booked_job (record appointment { start = 3000; end = 4000 })
    ∷ moving none 12 booked_job appointment (record { start = 5000; end = 6000 })
    ∷ []

starts_whole :
    HasWhole list_client google
      (codec_of null)
      settings
      joins
      cancelled_job
      (world_of cancelled_job none)
unfolding text_eq
starts_whole = (refl, (cancelled_job, (refl, refl), inl refl))

make_all-HasWhole_example :
    HasWhole list_client google (codec_of null) settings joins cancelled_job (
      make_all list_client google
        (codec_of null)
        settings
        joins
        four_changes
        (world_of cancelled_job none))
make_all-HasWhole_example =
    make_all-HasWhole list_client google (codec_of null) settings joins cancelled_job four_changes
      (world_of cancelled_job none)
      ((refl, refl), ((refl, refl), ((refl, refl), ((refl, refl), tt)))) starts_whole

-- The second change is made, and the fourth is not.
third_window :
    (make_all list_client google
      (codec_of null)
      settings
      joins
      (booking none 9 (record { job = cancelled_job; window = record { start = 1000; end = 2000 } })
        ∷ moving none 10 booked_job appointment (record { start = 3000; end = 4000 })
        ∷ [])
      (world_of cancelled_job none)).calendar
    ≡ some (3000, 4000)
unfolding make_all text_eq store_effects world_effects overlaps_busy ◌otherwise◌
third_window = refl
