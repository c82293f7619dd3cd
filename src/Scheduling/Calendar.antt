-- ===== src/Scheduling/Calendar.antt =====
-- scheduling/scheduling.service.ts: the calls of Google's calendar. What it answers is given, as is what
-- it keeps: a state of its own beside the database's.
use signmons_calldesk_backen.Base.{
  ℕ, Bool, false, ◌&&◌, ◌||◌, Option, none, some, if◌then◌else◌, leb, ltb, ◌==◌, Instant, Result,
  ok, err, HttpError, unavailable, unexpected, Action, List, [], ◌∷◌, any, coalesce,
}
use signmons_calldesk_backen.Base.Text.{Key, present}
use signmons_calldesk_backen.Scheduling.{JobRecord}

-- A period as `new Date` reads its two texts; `none` is a date that is not valid.
pub record BusyPeriod : Type 0 where
  pub start : Option Instant
  pub end : Option Instant

pub record BusyCalendar : Type 0 where
  pub busy : Option (List BusyPeriod)
  pub has_errors : Bool

-- The answer to a query of busy times: none where the request or its authorization failed, and the
-- payload's calendar where there is one.
pub data FreeBusy : Type 0 where
  no_answer : FreeBusy
  rejected : FreeBusy
  payload : Option BusyCalendar → FreeBusy

-- The answer to a change: none where the request or its authorization failed, or the status with the id
-- of the body.
pub data Answer : Type 0 where
  no_answer : Answer
  status : ℕ → Option Key → Answer

pub record Google (K : Type 0) : Type 0 where
  pub free_busy : Instant → Instant → K → FreeBusy
  pub insert : JobRecord → Instant → Instant → K → Answer × K
  pub patch : Key → Instant → Instant → K → Answer × K
  pub delete : Key → K → Answer × K

-- `response.ok`
abbrev pub is_ok : ℕ → Bool
is_ok s = leb 200 s && ltb s 300

abbrev pub unavailable_times : HttpError
unavailable_times = unavailable "Appointment availability is temporarily unavailable."

unfoldable pub fetch_busy : FreeBusy → Result (List BusyPeriod)
fetch_busy FreeBusy.no_answer = err unexpected
fetch_busy rejected = err unavailable_times
fetch_busy (payload none) = err unavailable_times
fetch_busy (payload (some c)) =
    if c.has_errors then err unavailable_times else ok (coalesce c.busy [])

-- `insertCalendarEvent`: the id of the event
unfoldable pub inserted : Answer → Result Key
inserted Answer.no_answer = err unexpected
inserted (status s none) = err unexpected
inserted (status s (some id)) = if is_ok s && present (some id) then ok id else err unexpected

-- `updateCalendarEvent`
unfoldable pub updated : Answer → Result (Unit {0})
updated Answer.no_answer = err unexpected
updated (status s _) = if is_ok s then ok tt else err unexpected

-- `deleteCalendarEvent`: an event that is not there counts as deleted.
unfoldable pub deleted : Answer → Result (Unit {0})
deleted Answer.no_answer = err unexpected
deleted (status s _) = if is_ok s || s == 404 then ok tt else err unexpected

-- `start < busyEnd && end > busyStart`, which no invalid date satisfies
abbrev pub overlaps : Instant → Instant → BusyPeriod → Bool
overlaps start finish p = before p.end && after p.start
  where
    before : Option Instant → Bool
    before none = false
    before (some busy_end) = ltb start busy_end

    after : Option Instant → Bool
    after none = false
    after (some busy_start) = ltb busy_start finish

unfoldable pub overlaps_busy : Instant → Instant → List BusyPeriod → Bool
overlaps_busy start finish = any (overlaps start finish)

-- What the notification service is asked to send, in the background.
pub data Notice : Type 0 where
  appointment_confirmed appointment_rescheduled appointment_cancelled : JobRecord → Notice

-- The database, the calendar and the notifications that were queued, the latest first.
pub record World (S K : Type 0) : Type 0 where
  pub store : S
  pub calendar : K
  pub notices : List Notice

module _ {S K : Type 0} where
  unfoldable pub on_store : {A : Type 0} → Action S A → Action (World S K) A
  on_store m w = let (r, s) = m w.store in (r, record w { store = s })

  unfoldable pub ask_busy : Google K → Instant → Instant → Action (World S K) (List BusyPeriod)
  unfolding fetch_busy
  ask_busy g start finish w = (fetch_busy (g.free_busy start finish w.calendar), w)

  unfoldable pub insert_event : Google K → JobRecord → Instant → Instant → Action (World S K) Key
  unfolding inserted
  insert_event g j start finish w =
      let (a, k) = g.insert j start finish w.calendar in (inserted a, record w { calendar = k })

  unfoldable pub move_event : Google K → Key → Instant → Instant → Action (World S K) (Unit {0})
  unfolding updated
  move_event g id start finish w =
      let (a, k) = g.patch id start finish w.calendar in (updated a, record w { calendar = k })

  unfoldable pub delete_event : Google K → Key → Action (World S K) (Unit {0})
  unfolding deleted
  delete_event g id w =
      let (a, k) = g.delete id w.calendar in (deleted a, record w { calendar = k })

  unfoldable pub enqueue : Notice → Action (World S K) (Unit {0})
  enqueue n w = (ok tt, record w { notices = n ∷ w.notices })

-- Named on an `unfolding` line, it opens the calls above.
unfoldable pub world_effects : Unit {0}
unfolding on_store ask_busy insert_event move_event delete_event enqueue
world_effects = tt
