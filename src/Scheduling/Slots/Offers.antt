-- ===== src/Scheduling/Slots/Offers.antt =====
-- The slots that are offered: when they are, that they are free, and that they can be chosen.
use signmons_calldesk_backen.Base.{
  ℕ, zero, suc, ◌+◌, ◌/◌, ◌<◌, ◌≤◌, Bool, true, false, not, ◌&&◌, Option, none, some, if◌then◌else◌,
  ltb, Instant, Result, ok, List, [], ◌∷◌, ◌++◌, map, filter, length, All, All-take, length-take_le,
  ◌≡◌, ◌⊎◌, refl, arith, Bool-cases, inl, inr, effects, after, ok-injective, pure,
}
use signmons_calldesk_backen.Base.Listwise.{
  All-concat, any-append_false, any-map-filter-false, All-imp, All-filter_both, length-map, All-map,
  All-both,
}
use signmons_calldesk_backen.Base.Text.{Key, text_eq, text_eq_refl}
use signmons_calldesk_backen.Base.Json.{str}
use signmons_calldesk_backen.Base.Token.{Codec}
use signmons_calldesk_backen.Data.Enums.{JobStatus, job_status_eq}
use signmons_calldesk_backen.Data.Rows.{Job}
use signmons_calldesk_backen.Data.Store.{Store, Client}
use signmons_calldesk_backen.Scheduling.{Settings, JobRecord, is_instant_booking_eligible}
use signmons_calldesk_backen.Scheduling.Tokens.{slot_json, slot_ttl_ms}
use signmons_calldesk_backen.Scheduling.Tokens.Separation.{Reads, verify_slot-sign_slot}
use signmons_calldesk_backen.Scheduling.Calendar.{
  BusyPeriod, Google, World, overlaps, overlaps_busy, fetch_busy, world_effects,
}
use signmons_calldesk_backen.Scheduling.Confirm.{chosen_slot, slot_window}
use signmons_calldesk_backen.Scheduling.Reschedule.{read_choice}
use signmons_calldesk_backen.Scheduling.Slots.{
  Candidate, window_candidates, day_candidates, build_candidates, earliest, last_end,
  AppointmentSlot, is_reserved, reserved_period, slot_of, free_candidates, reserved_periods,
  slots_among, available_slots, service_windows, is_weekend, ServiceWindow, zoned_time, day_ms,
}

-- A slot that was offered is the window that is read back from its token for thirty minutes, where its
-- start comes before its end, the codec reads the token's payload back, and a date reads its own text.
pub read_choice-slot_of :
    (c : Codec) (settings : Settings) (now later : Instant) (j : JobRecord) (k : Job)
    (s : Candidate)
    → k.tenant_id ≡ j.tenant_id
    → k.id ≡ j.id
    → later ≤ now + slot_ttl_ms
    → s.start < s.end
    → Reads c (
        slot_json j.tenant_id j.id
          (settings.to_iso s.start)
          (settings.to_iso s.end)
          (now + slot_ttl_ms))
    → settings.read_date (some (str (settings.to_iso s.start))) ≡ some s.start
    → settings.read_date (some (str (settings.to_iso s.end))) ≡ some s.end
    → read_choice settings c later k (slot_of c settings now j s).token
      ≡ ok (record { start = s.start; end = s.end })
unfolding read_choice chosen_slot slot_window slot_of
read_choice-slot_of c settings now later j k s tenant id h order reads start finish =
    rw
      (verify_slot-sign_slot c later (now + slot_ttl_ms) j.tenant_id j.id (settings.to_iso s.start)
        (settings.to_iso s.end) reads h)
      (rw (tenant, id)
        (rw (text_eq_refl j.tenant_id, text_eq_refl j.id, start, finish)
          (rw (in_order s.start s.end order) refl)))
  where
    in_order : (a b : ℕ) → a < b → ltb a b ≡ true
    in_order a b h = ground arith

-- The loop of `buildCandidates` offers nothing before the notice is over.
NotBefore : Instant → Candidate → Type 0
NotBefore minimum c = minimum ≤ c.start

window_candidates-NotBefore :
    (settings : Settings) (minimum : Instant) (day : ℕ) (ws : List ServiceWindow)
    → All (NotBefore minimum) (window_candidates settings minimum day ws)
unfolding window_candidates NotBefore
window_candidates-NotBefore settings minimum day [] = tt
window_candidates-NotBefore settings minimum day (w ∷ ws) =
    elim (Bool-cases (ltb (zoned_time settings.observe day w.start) minimum)) [
      | inl early ↦ rw early (window_candidates-NotBefore settings minimum day ws)
      | inr late ↦
          rw late (at_least _ minimum late, window_candidates-NotBefore settings minimum day ws)
    ]
  where
    at_least : (a b : ℕ) → ltb a b ≡ false → b ≤ a
    at_least a b h = ground arith

day_candidates-NotBefore :
    (settings : Settings) (minimum : Instant) (day days : ℕ)
    → All (NotBefore minimum) (day_candidates settings minimum day days)
unfolding day_candidates
day_candidates-NotBefore settings minimum day zero = tt
day_candidates-NotBefore settings minimum day (suc days) =
    All-concat (NotBefore minimum) _ (day_candidates settings minimum (suc day) days)
      (of_day (is_weekend day)) (day_candidates-NotBefore settings minimum (suc day) days)
  where
    of_day :
        (b : Bool)
        → All
            (NotBefore minimum)
            (if b then [] else window_candidates settings minimum day service_windows)
    of_day true = tt
    of_day false = window_candidates-NotBefore settings minimum day service_windows

build_candidates-NotBefore :
    (settings : Settings) (now : Instant)
    → All (NotBefore (earliest settings now)) (build_candidates settings now)
unfolding build_candidates
build_candidates-NotBefore settings now =
    day_candidates-NotBefore settings (earliest settings now) (settings.observe now / day_ms)
      settings.lookahead_days

-- The window of an accepted job of the tenant does not meet the time from `a` to `b`.
abbrev pub Clear : Key → Instant → Instant → Job → Type 0
Clear tenant_id a b r =
    (text_eq r.tenant_id tenant_id
      && job_status_eq r.status JobStatus.accepted
      && overlaps a b (reserved_period r))
    ≡ false

-- A window that meets a time within the range is among the reserved ones of the range.
Clear-of_range :
    (tenant_id : Key) (rs re a b : Instant) (r : Job)
    → rs ≤ a
    → b ≤ re
    → (is_reserved tenant_id rs re r ≡ true → overlaps a b (reserved_period r) ≡ false)
    → Clear tenant_id a b r
Clear-of_range tenant_id rs re a b r low high clear =
    either (Bool-cases (text_eq r.tenant_id tenant_id && job_status_eq r.status JobStatus.accepted))
  where
    within : (x y : Instant) → (ltb a y && ltb x b) ≡ true → (ltb x re && ltb rs y) ≡ true
    within x y met = ground arith

    reserved : (m x y : Bool) → m ≡ true → (x && y) ≡ true → (m && x && y) ≡ true
    reserved m x y h k = ground arith

    by_window :
        (text_eq r.tenant_id tenant_id && job_status_eq r.status JobStatus.accepted) ≡ true
        → (x y : Option Instant) → r.service_window_start ≡ x
        → r.service_window_end ≡ y
        → overlaps a b (reserved_period r) ≡ false
    by_window mine none y e f = ground arith
    by_window mine (some x) none e f = ground arith
    by_window mine (some x) (some y) e f = elim (Bool-cases (ltb a y && ltb x b)) [
      | inr no_overlap ↦ rw (e, f) no_overlap
      | inl met ↦ clear (rw (e, f) (reserved _ (ltb x re) (ltb rs y) mine (within x y met)))
    ]

    either :
        ((text_eq r.tenant_id tenant_id && job_status_eq r.status JobStatus.accepted) ≡ true)
          ⊎ ((text_eq r.tenant_id tenant_id && job_status_eq r.status JobStatus.accepted) ≡ false)
        → Clear tenant_id a b r
    either (inr other) = rw other refl
    either (inl mine) =
        rw mine (by_window mine r.service_window_start r.service_window_end refl refl)

-- A time is free: no busy period of the calendar meets it, and no accepted job of the tenant.
abbrev pub IsFree : Key → List BusyPeriod → List Job → Instant → Instant → Type 0
IsFree tenant_id busy jobs a b = (overlaps_busy a b busy ≡ false) × All (Clear tenant_id a b) jobs

-- The candidates lie between the start of the first and the end of the last.
abbrev pub InRange : Instant → Instant → Candidate → Type 0
InRange rs re c = (rs ≤ c.start) × (c.end ≤ re)

IsFree-of_candidate :
    (tenant_id : Key) (rs re : Instant) (busy : List BusyPeriod) (jobs : List Job) (c : Candidate)
    → InRange rs re c
    → not (
        overlaps_busy c.start c.end
          (busy ++ map reserved_period (filter (is_reserved tenant_id rs re) jobs)))
      ≡ true
    → IsFree tenant_id busy jobs c.start c.end
unfolding overlaps_busy
IsFree-of_candidate tenant_id rs re busy jobs c range h =
    let (free, unreserved) =
      any-append_false (overlaps c.start c.end) busy
        (map reserved_period (filter (is_reserved tenant_id rs re) jobs)) (off _ h) in
    (
      free,
      All-imp _ (Clear tenant_id c.start c.end) jobs
          (λ r clear. Clear-of_range tenant_id rs re c.start c.end r range.0 range.1 clear)
          (any-map-filter-false (overlaps c.start c.end) reserved_period
            (is_reserved tenant_id rs re) jobs unreserved),
    )
  where
    off : (b : Bool) → not b ≡ true → b ≡ false
    off b h = ground arith

-- What is promised of a slot.
abbrev pub IsOffer :
    Settings → Instant → Key → List BusyPeriod → List Job → AppointmentSlot → Type 0
IsOffer settings now tenant_id busy jobs s =
    (earliest settings now ≤ s.start) × IsFree tenant_id busy jobs s.start s.end

-- The candidates' range, which the queries are made for.
abbrev pub range_start : List Candidate → Instant
range_start [] = 0
range_start (c ∷ cs) = c.start

abbrev pub range_end : List Candidate → Instant
range_end [] = 0
range_end (c ∷ cs) = last_end c.end cs

free_candidates-IsOffer :
    (settings : Settings) (now : Instant) (tenant_id : Key) (rs re : Instant)
    (busy : List BusyPeriod) (jobs : List Job) (codec : Codec) (j : JobRecord) (cs : List Candidate)
    → All (λ c. NotBefore (earliest settings now) c × InRange rs re c) cs
    → All (IsOffer settings now tenant_id busy jobs) (
        map (slot_of codec settings now j) (
          free_candidates
            (busy ++ map reserved_period (filter (is_reserved tenant_id rs re) jobs))
            cs))
unfolding free_candidates slot_of NotBefore
free_candidates-IsOffer settings now tenant_id rs re busy jobs codec j cs h =
    All-map (IsOffer settings now tenant_id busy jobs) (slot_of codec settings now j) _ (
      All-imp _ (λ c. (earliest settings now ≤ c.start) × IsFree tenant_id busy jobs c.start c.end)
        _ (λ c k. (k.0.0, IsFree-of_candidate tenant_id rs re busy jobs c k.0.1 k.1))
        (All-take _ 8 _ (All-filter_both _ _ cs h)))

module _ {J P T U E A K : Type 0} (db : Client J P T U E A) (g : Google K) (codec : Codec)
    (settings : Settings) where
  abbrev W : Type 0
  W = World (Store J P T U E A) K

  -- The periods that the calendar reports for the range of the candidates.
  abbrev pub reported : List Candidate → W → Result (List BusyPeriod)
  reported cs w = fetch_busy (g.free_busy (range_start cs) (range_end cs) w.calendar)

  slots_among-IsOffer :
      (now : Instant) (j : JobRecord) (w : W) (cs : List Candidate) {busy : List BusyPeriod}
      {slots : List AppointmentSlot}
      → All (NotBefore (earliest settings now)) cs
      → All (InRange (range_start cs) (range_end cs)) cs
      → reported cs w ≡ ok busy
      → (slots_among db g codec settings now j cs w).0 ≡ ok slots
      → (length slots ≤ 8)
        × All (IsOffer settings now j.tenant_id busy (db.job.rows w.store.jobs)) slots
  unfolding slots_among effects after world_effects reserved_periods free_candidates
  slots_among-IsOffer now j w [] h k b r = rw (← ok-injective r) (omega arith, tt)
  slots_among-IsOffer now j w (c ∷ cs) {busy} {slots} h k b r =
      let free =
        free_candidates
          (busy ++ reserved_periods db g codec settings j.tenant_id c.start (last_end c.end cs) w)
          (c ∷ cs) in
      let done : map (slot_of codec settings now j) free ≡ slots = ok-injective (rw b at r) in
      rw (← done) (
        rw (length-map (slot_of codec settings now j) free) (length-take_le 8 _),
        free_candidates-IsOffer settings now j.tenant_id c.start (last_end c.end cs) busy
            (db.job.rows w.store.jobs) codec j (c ∷ cs) (All-both _ _ (c ∷ cs) h k),
      )

  -- At most eight slots are offered. Each starts when the notice is over or later, and meets no busy
  -- period that the calendar reports and no window of an accepted job of the tenant, provided that the
  -- candidates lie in the range that the two are asked for: between the start of the first and the end
  -- of the last.
  pub available_slots-IsOffer :
      (now : Instant) (j : JobRecord) (w : W) {busy : List BusyPeriod}
      {slots : List AppointmentSlot}
      → All
          (InRange
            (range_start (build_candidates settings now))
            (range_end (build_candidates settings now)))
          (build_candidates settings now)
      → reported (build_candidates settings now) w ≡ ok busy
      → (available_slots db g codec settings now j w).0 ≡ ok slots
      → (length slots ≤ 8)
        × All (IsOffer settings now j.tenant_id busy (db.job.rows w.store.jobs)) slots
  unfolding available_slots pure
  available_slots-IsOffer now j w {busy} {slots} k b r =
      elim (Bool-cases (is_instant_booking_eligible settings j)) [
        | inl able ↦
            slots_among-IsOffer now j w (build_candidates settings now)
              (build_candidates-NotBefore settings now) k b (rw able at r)
        | inr not_able ↦
            let none_offered : [] ≡ slots = ok-injective (rw not_able at r) in
            rw (← none_offered) (omega arith, tt)
      ]
