-- ===== src/Scheduling/Sequences/Alone.antt =====
-- The changes keep the number of rows with an id.
use signmons_calldesk_backen.Base.{
  Bool, true, false, Option, some, none, Result, ok, err, HttpError, Instant, Action, throw, when,
  ◌≡◌, refl, ◌∙◌,
}
use signmons_calldesk_backen.Base.Preserves.{
  Preserves, Preserves-bind, Preserves-then, Preserves-throw_if, Preserves-gets, Preserves-pure,
  Preserves-if, Preserves-otherwise,
}
use signmons_calldesk_backen.Base.Audit.{Audit}
use signmons_calldesk_backen.Base.Table.{count_rows, count_rows-update_rows}
use signmons_calldesk_backen.Data.Rows.{Job}
use signmons_calldesk_backen.Data.Store.{Store, Client, update_jobs, create_audit}
use signmons_calldesk_backen.Scheduling.{Settings, Joined, Active}
use signmons_calldesk_backen.Scheduling.Calendar.{
  Google, World, on_store, move_event, delete_event, enqueue,
}
use signmons_calldesk_backen.Scheduling.Confirm.{TimeWindow, same_id}
use signmons_calldesk_backen.Scheduling.Cancel.{
  cancel, restore, remove_event, restore_appointment, cancel_active,
}
use signmons_calldesk_backen.Scheduling.Reschedule.{
  Progress, Rescheduled, move_window, move_back, reserve_move, return_window, undo, caught,
  write_customer_audit, record_move, move_calendar, attempt,
}

module _ {J P T U E A K : Type 0} (db : Client J P T U E A) (g : Google K) (settings : Settings)
    (joins : Job → Joined) (i : Job) where
  abbrev W : Type 0
  W = World (Store J P T U E A) K

  -- One row has the id of `i`.
  abbrev IsOne : Store J P T U E A → Type 0
  IsOne s = count_rows (same_id i) (db.job.rows s.jobs) ≡ 1

  abbrev pub IsAlone : W → Type 0
  IsAlone w = IsOne w.store

  update_jobs-Preserves :
      (p : Job → Bool) (f : Job → Job)
      → ((r : Job) → same_id i (f r) ≡ same_id i r)
      → Preserves IsOne (update_jobs db p f)
  unfolding update_jobs
  update_jobs-Preserves p f keep = record {
    preserved = λ s h.
        rw db.job.rows-update_many
          (count_rows-update_rows (same_id i) p f keep (db.job.rows s.jobs) ∙ h);
  }

  create_audit-Preserves : (a : _) → Preserves IsOne (create_audit db a)
  unfolding create_audit
  create_audit-Preserves a = record { preserved = λ s h. h }

  on_store-Preserves :
      {B : Type 0} (m : Action (Store J P T U E A) B)
      → Preserves IsOne m
      → Preserves IsAlone (on_store m)
  unfolding on_store
  on_store-Preserves m hm = record { preserved = λ w h. hm.preserved w.store h }

  throw-Preserves : {S B : Type 0} (P : S → Type 0) (e : HttpError) → Preserves P (throw {A = B} e)
  unfolding throw
  throw-Preserves P e = record { preserved = λ w h. h }

  when-Preserves :
      (b : Bool) (m : Action W (Unit {0})) → Preserves IsAlone m → Preserves IsAlone (when b m)
  unfolding when
  when-Preserves true m hm = record { preserved = λ w h. hm.preserved w h }
  when-Preserves false m hm = record { preserved = λ w h. h }

  move_event-Preserves :
      (id : _) (start finish : Instant) → Preserves IsAlone (move_event g id start finish)
  unfolding move_event
  move_event-Preserves id start finish = record { preserved = λ w h. h }

  delete_event-Preserves : (id : _) → Preserves IsAlone (delete_event g id)
  unfolding delete_event
  delete_event-Preserves id = record { preserved = λ w h. h }

  enqueue-Preserves : (n : _) → Preserves IsAlone (enqueue n)
  unfolding enqueue
  enqueue-Preserves n = record { preserved = λ w h. h }

  pub cancel_active-Preserves :
      (now : Instant) (j : Job) (a : Active)
      → Preserves IsAlone (cancel_active db g settings joins now j (some a))
  unfolding cancel_active remove_event restore_appointment
  cancel_active-Preserves now j a =
      Preserves-bind IsAlone _ _
        (on_store-Preserves _
          (update_jobs-Preserves _ (cancel settings now j a) (λ r. unfold cancel in refl)))
        λ count. Preserves-then IsAlone _ _ (Preserves-throw_if IsAlone _ _) (
          Preserves-otherwise IsAlone _ _
            (Preserves-then IsAlone _ _ (delete_event-Preserves _)
              (Preserves-then IsAlone _ _ (enqueue-Preserves _) (Preserves-pure IsAlone _)))
            (Preserves-bind IsAlone _ _ (on_store-Preserves _ (Preserves-gets IsOne _)) λ row.
              Preserves-bind IsAlone _ _ (on_store-Preserves _ (Preserves-gets IsOne _)) λ clash.
                Preserves-then IsAlone _ _ (Preserves-throw_if IsAlone _ _) (
                  Preserves-bind IsAlone _ _
                    (on_store-Preserves _ (
                      update_jobs-Preserves _ (restore settings now j a)
                        (λ r. unfold restore in refl)))
                    λ count. throw-Preserves IsAlone _)))

  return_window-Preserves :
      (now : Instant) (j : Job) (a : Active) (t : TimeWindow)
      → Preserves IsOne (return_window db g settings joins now j a t)
  unfolding return_window
  return_window-Preserves now j a t = Preserves-bind IsOne _ _ (Preserves-gets IsOne _) λ row.
      Preserves-bind IsOne _ _ (Preserves-gets IsOne _) λ clash.
        Preserves-then IsOne _ _ (Preserves-throw_if IsOne _ _) (
          Preserves-bind IsOne _ _
            (update_jobs-Preserves _ (move_back now j a) (λ r. unfold move_back in refl))
            λ count. Preserves-pure IsOne _)

  undo-Preserves :
      (now : Instant) (j : Job) (a : Active) (t : TimeWindow) (progress : Progress)
      → Preserves IsAlone (undo db g settings joins now j a t progress)
  unfolding undo
  undo-Preserves now j a t progress =
      Preserves-bind IsAlone _ _
        (Preserves-if IsAlone _ _ _
          (Preserves-otherwise IsAlone _ _
            (Preserves-then IsAlone _ _ (move_event-Preserves _ _ _) (Preserves-pure IsAlone _))
            (Preserves-pure IsAlone _))
          (Preserves-pure IsAlone _))
        λ restored. when-Preserves _ _ (on_store-Preserves _ (return_window-Preserves now j a t))

  caught-Preserves :
      {B : Type 0} (now : Instant) (j : Job) (a : Active) (t : TimeWindow) (progress : Progress)
      (m : Action W B) (k : B → Action W Rescheduled)
      → Preserves IsAlone m
      → ((b : B) → Preserves IsAlone (k b))
      → Preserves IsAlone (caught db g settings joins now j a t progress m k)
  unfolding caught
  caught-Preserves {B} now j a t progress m k hm hk = record {
    preserved = λ w h. go (m w) (hm.preserved w h);
  }
    where
      go :
          (r : Result B × W)
          → IsAlone r.1
          → IsAlone (caught db g settings joins now j a t progress (λ _. r) k r.1).1
      go (ok b, w) h = (hk b).preserved w h
      go (err e, w) h =
          (Preserves-then IsAlone _ _ (undo-Preserves now j a t progress)
              (throw-Preserves IsAlone _)).preserved
            w h

  reserve_move-Preserves :
      (now : Instant) (j : Job) (a : Active) (t : TimeWindow)
      → Preserves IsOne (reserve_move db g settings joins now j a t)
  unfolding reserve_move
  reserve_move-Preserves now j a t = Preserves-bind IsOne _ _ (Preserves-gets IsOne _) λ row.
      Preserves-bind IsOne _ _ (Preserves-gets IsOne _) λ clash.
        Preserves-then IsOne _ _ (Preserves-throw_if IsOne _ _) (
          Preserves-bind IsOne _ _
            (update_jobs-Preserves _ (move_window settings now t) (λ r. unfold move_window in refl))
            λ count. Preserves-throw_if IsOne _ _)

  write_customer_audit-Preserves :
      (refusal : Option HttpError) (entry : Audit)
      → Preserves IsOne (write_customer_audit db g settings joins refusal entry)
  unfolding write_customer_audit
  write_customer_audit-Preserves none entry = create_audit-Preserves entry
  write_customer_audit-Preserves (some e) entry = throw-Preserves IsOne e

  record_move-Preserves :
      (refusal : Option HttpError) (now : Instant) (j : Job) (a : Active) (t : TimeWindow)
      → Preserves IsAlone (record_move db g settings joins refusal now j a t)
  unfolding record_move
  record_move-Preserves refusal now j a t =
      caught-Preserves now j a t (record { reservation_changed = true; calendar_changed = true }) _
        _ (on_store-Preserves _ (write_customer_audit-Preserves refusal _))
        λ _. Preserves-then IsAlone _ _ (enqueue-Preserves _) (Preserves-pure IsAlone _)

  move_calendar-Preserves :
      (refusal : Option HttpError) (now : Instant) (j : Job) (a : Active) (t : TimeWindow)
      → Preserves IsAlone (move_calendar db g settings joins refusal now j a t)
  unfolding move_calendar
  move_calendar-Preserves refusal now j a t =
      caught-Preserves now j a t (record { reservation_changed = true; calendar_changed = false }) _
        _ (move_event-Preserves a.event_id t.start t.end)
        λ _. record_move-Preserves refusal now j a t

  pub attempt-Preserves :
      (refusal : Option HttpError) (now : Instant) (j : Job) (a : Active) (t : TimeWindow)
      → Preserves IsAlone (attempt db g settings joins refusal now j a t)
  unfolding attempt
  attempt-Preserves refusal now j a t =
      caught-Preserves now j a t (record { reservation_changed = false; calendar_changed = false })
        _ _ (on_store-Preserves _ (reserve_move-Preserves now j a t))
        λ _. move_calendar-Preserves refusal now j a t
