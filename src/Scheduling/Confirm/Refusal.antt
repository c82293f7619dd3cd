-- ===== src/Scheduling/Confirm/Refusal.antt =====
-- A booking of a job that has a window already.
use signmons_calldesk_backen.Base.{
  Bool, false, arith, not, ◌&&◌, Option, HttpError, some, is_some, Instant, Bool-cases,
  Result-cases, inl, inr, ◌≡◌, refl, effects, after, rescue,
}
use signmons_calldesk_backen.Base.Text.{text_eq}
use signmons_calldesk_backen.Base.Token.{Codec}
use signmons_calldesk_backen.Base.Guarded.{Only, guarded_count, guarded_row}
use signmons_calldesk_backen.Data.Rows.{Job}
use signmons_calldesk_backen.Data.Store.{Store, Client, update_jobs}
use signmons_calldesk_backen.Scheduling.{Settings, Joined}
use signmons_calldesk_backen.Scheduling.Calendar.{
  Google, World, fetch_busy, overlaps_busy, world_effects,
}
use signmons_calldesk_backen.Scheduling.Confirm.{
  Booking, without_window, holds_window, reserve_window, same_id, reserve, book,
}

module _ {J P T U E A K : Type 0} (db : Client J P T U E A) (g : Google K) (c : Codec)
    (settings : Settings) (joins : Job → Joined) where
  abbrev W : Type 0
  W = World (Store J P T U E A) K

  -- Where the row already has a window, booking changes nothing.
  module _ (refusal : Option HttpError) (now : Instant) (b : Booking) (w : W) (k : Job)
      (only : Only db.job (same_id b.job) k w.store.jobs) {start : Instant}
      (taken : k.service_window_start ≡ some start) where
    is_refused :
        (text_eq k.tenant_id b.job.tenant_id
          && not (is_some k.service_window_start)
          && not (is_some k.service_window_end))
        ≡ false
    is_refused =
        rw taken (never (text_eq k.tenant_id b.job.tenant_id) (not (is_some k.service_window_end)))
      where
        never : (x y : Bool) → (x && false && y) ≡ false
        never x y = ground arith

    keep : (r : Job) → same_id b.job (reserve_window settings now b.window r) ≡ same_id b.job r
    unfolding reserve_window
    keep r = refl

    guard : Job → Bool
    guard r =
        text_eq r.tenant_id b.job.tenant_id
        && not (is_some r.service_window_start)
        && not (is_some r.service_window_end)

    refused_count :
        (db.job.update_many
          (without_window b.job)
          (reserve_window settings now b.window)
          w.store.jobs).0
        ≡ 0
    unfolding guard
    refused_count = rw is_refused at (
        guarded_count db.job (same_id b.job) guard (reserve_window settings now b.window) keep
          w.store.jobs only)

    refused_row :
        Only db.job
          (same_id b.job)
          k
          (db.job.update_many
            (without_window b.job)
            (reserve_window settings now b.window)
            w.store.jobs).1
    unfolding guard
    refused_row = rw is_refused at (
        guarded_row db.job (same_id b.job) guard (reserve_window settings now b.window) keep
          w.store.jobs only)

    -- The row is the same, and so is the calendar.
    abbrev pub Unchanged : W → Type 0
    Unchanged w' = Only db.job (same_id b.job) k w'.store.jobs × (w'.calendar ≡ w.calendar)

    pub book-Unchanged : Unchanged (book db g c settings joins refusal now b w).1
    unfolding book reserve effects after rescue world_effects update_jobs
    book-Unchanged =
        elim (Result-cases (fetch_busy (g.free_busy b.window.start b.window.end w.calendar))) [
          | inr (_, no_times) ↦ rw no_times (only, refl)
          | inl (busy, known) ↦
              rw known (elim (Bool-cases (overlaps_busy b.window.start b.window.end busy)) [
                | inl taken ↦ rw taken (only, refl)
                | inr free ↦
                    rw free
                      (elim (Bool-cases (
                        is_some (db.job.find_first (without_window b.job) w.store.jobs)
                        && is_some
                            (db.job.find_first (holds_window b.job b.window) w.store.jobs))) [
                              | inl clash ↦ rw clash (only, refl)
                              | inr no_clash ↦ rw (no_clash, refused_count) (refused_row, refl)
                            ])
              ])
        ]
