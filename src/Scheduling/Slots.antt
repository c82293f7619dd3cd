-- ===== src/Scheduling/Slots.antt =====
-- scheduling/scheduling.service.ts: the slots that a customer is offered.
pub mod Offers
use signmons_calldesk_backen.Base.{
  ℕ, zero, suc, ◌+◌, ◌-◌, ◌*◌, ◌/◌, ◌%◌, Bool, true, false, not, ◌&&◌, ◌||◌, Option, none, some,
  if◌then◌else◌, leb, ltb, ◌==◌, Instant, Result, ok, err, Action, pure, gets, ◌>>=◌, ◌>>◌, List,
  [], ◌∷◌, ◌++◌, map, filter, take, any,
}
use signmons_calldesk_backen.Base.Text.{Text, Key, codes, text_eq}
use signmons_calldesk_backen.Base.Token.{Codec}
use signmons_calldesk_backen.Data.Enums.{JobStatus, job_status_eq}
use signmons_calldesk_backen.Data.Rows.{Job}
use signmons_calldesk_backen.Data.Store.{Store, Client}
use signmons_calldesk_backen.Scheduling.{Settings, JobRecord, is_instant_booking_eligible}
use signmons_calldesk_backen.Scheduling.Tokens.{slot_json, sign_slot, slot_ttl_ms}
use signmons_calldesk_backen.Scheduling.Calendar.{
  BusyPeriod, Google, World, ask_busy, overlaps_busy,
}

abbrev minute_ms : ℕ
minute_ms = 60_000

abbrev pub day_ms : ℕ
day_ms = 86_400_000

-- A service window, in minutes of the day.
pub record ServiceWindow : Type 0 where
  pub label : Text
  pub start : ℕ
  pub end : ℕ

-- The dashes of the labels are U+2013.
abbrev pub service_windows : List ServiceWindow
service_windows =
    record { label = codes "8–11 AM"; start = 480; end = 660 }
    ∷ record { label = codes "11 AM–2 PM"; start = 660; end = 840 }
    ∷ record { label = codes "2–5 PM"; start = 840; end = 1020 }
    ∷ []

pub record Candidate : Type 0 where
  pub start : Instant
  pub end : Instant
  pub label : Text

-- One round of the loop of `zonedTime`: `guess += desired - observed`.
abbrev pub adjust : (Instant → Instant) → Instant → Instant → Instant
adjust observe desired guess = guess + desired - observe guess

-- A day is the number of days since 1970-01-01, which `dateKey` spells.
unfoldable pub zoned_time : (Instant → Instant) → ℕ → ℕ → Instant
zoned_time observe day minute =
    let desired = day * day_ms + minute * minute_ms in
    adjust observe desired (adjust observe desired (adjust observe desired desired))

-- `getUTCDay() === 0 || getUTCDay() === 6`; 1970-01-01 was a Thursday.
abbrev pub is_weekend : ℕ → Bool
is_weekend day = (day + 4) % 7 == 0 || (day + 4) % 7 == 6

unfoldable pub window_candidates : Settings → Instant → ℕ → List ServiceWindow → List Candidate
unfolding zoned_time
window_candidates settings minimum day [] = []
window_candidates settings minimum day (w ∷ ws) =
    let rest = window_candidates settings minimum day ws in
    let start = zoned_time settings.observe day w.start in
    if ltb start minimum
    then rest
    else record {
      start = start;
      end = zoned_time settings.observe day w.end;
      label = settings.format_day start ++ codes ", " ++ w.label;
    }
      ∷ rest

-- The days that are left of the loop, from `day` on.
unfoldable pub day_candidates : Settings → Instant → ℕ → ℕ → List Candidate
unfolding window_candidates
day_candidates settings minimum day zero = []
day_candidates settings minimum day (suc days) =
    (if is_weekend day then [] else window_candidates settings minimum day service_windows)
    ++ day_candidates settings minimum (suc day) days

abbrev pub earliest : Settings → Instant → Instant
earliest settings now = now + settings.min_notice_minutes * minute_ms

unfoldable pub build_candidates : Settings → Instant → List Candidate
unfolding day_candidates
build_candidates settings now =
    day_candidates settings (earliest settings now) (settings.observe now / day_ms)
      settings.lookahead_days

abbrev pub last_end : Instant → List Candidate → Instant
last_end d [] = d
last_end d (c ∷ cs) = last_end c.end cs

pub record AppointmentSlot : Type 0 where
  pub token : Text
  pub start : Instant
  pub end : Instant
  pub label : Text

-- The accepted jobs whose window meets the range.
abbrev pub is_reserved : Key → Instant → Instant → Job → Bool
is_reserved tenant_id range_start range_end j =
    text_eq j.tenant_id tenant_id
    && job_status_eq j.status JobStatus.accepted
    && before j.service_window_start
    && after j.service_window_end
  where
    before : Option Instant → Bool
    before none = false
    before (some start) = ltb start range_end

    after : Option Instant → Bool
    after none = false
    after (some finish) = ltb range_start finish

abbrev pub reserved_period : Job → BusyPeriod
reserved_period j = record { start = j.service_window_start; end = j.service_window_end }

unfoldable pub slot_of : Codec → Settings → Instant → JobRecord → Candidate → AppointmentSlot
unfolding sign_slot slot_json
slot_of codec settings now j c = record {
  token = sign_slot codec (
      slot_json j.tenant_id j.id (settings.to_iso c.start) (settings.to_iso c.end)
        (now + slot_ttl_ms));
  start = c.start;
  end = c.end;
  label = c.label;
}

-- `candidates.filter(...).slice(0, 8)`
unfoldable pub free_candidates : List BusyPeriod → List Candidate → List Candidate
free_candidates busy cs = take 8 (filter (λ c. not (overlaps_busy c.start c.end busy)) cs)

module _ {J P T U E A K : Type 0} (db : Client J P T U E A) (g : Google K) (codec : Codec)
    (settings : Settings) where
  abbrev W : Type 0
  W = World (Store J P T U E A) K

  unfoldable pub reserved_periods : Key → Instant → Instant → W → List BusyPeriod
  reserved_periods tenant_id range_start range_end w =
      map reserved_period
        (filter (is_reserved tenant_id range_start range_end) (db.job.rows w.store.jobs))

  unfoldable pub slots_among :
      Instant → JobRecord → List Candidate → Action W (List AppointmentSlot)
  unfolding free_candidates slot_of reserved_periods
  slots_among now j [] = pure []
  slots_among now j (c ∷ cs) = do
    calendar_busy ← ask_busy g c.start (last_end c.end cs)
    reserved ← gets (reserved_periods j.tenant_id c.start (last_end c.end cs))
    pure (map (slot_of codec settings now j) (free_candidates (calendar_busy ++ reserved) (c ∷ cs)))

  unfoldable pub available_slots : Instant → JobRecord → Action W (List AppointmentSlot)
  unfolding slots_among build_candidates
  available_slots now j =
      if is_instant_booking_eligible settings j
      then slots_among now j (build_candidates settings now)
      else pure []
