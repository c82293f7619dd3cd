-- ===== src/Sms/Delivery/Outcomes.antt =====
-- What an attempt to deliver leaves behind, on every branch.
use signmons_calldesk_backen.Base.{
  ℕ, ◌<◌, Bool, true, false, not, some, find, find-holds, ◌>>◌, ◌otherwise◌, ◌≡◌, refl, arith, ◌||◌,
  Result, ok, Instant, leb, effects, after, rescue, inl, inr, Bool-cases, pure,
}
use signmons_calldesk_backen.Base.Text.{Text, Key, codes}
use signmons_calldesk_backen.Base.Table.{update_rows, find-update_rows_if, count_rows_pos}
use signmons_calldesk_backen.Sms.Rows.{
  CommunicationStatus, sent, failed, dead_letter, CommunicationEvent, Store, Client, update_events,
}
use signmons_calldesk_backen.Sms.Events.{
  Platform, SendOutcome, accepted, refused, broken, Prepared, unsendable, outgoing, Outgoing,
  event_key, bury, mark_sent, put_off, max_attempts,
}
use signmons_calldesk_backen.Sms.Delivery.{update_event, bury_event, settle, dispatch}

-- What becomes of an event that an attempt has claimed, with the status that the caller is told.
pub data Settled (now : Instant) (claimed : CommunicationEvent)
    : CommunicationStatus → CommunicationEvent → Type 0 where
  is_buried : (code : Text) → Settled now claimed dead_letter (bury now code claimed)
  is_sent : (external_id : Key) → Settled now claimed sent (mark_sent external_id claimed)
  is_put_off :
      (code : Text)
      → claimed.attempt_count < max_attempts
      → Settled now claimed failed (put_off now code claimed.attempt_count claimed)

module _ {C U M A : Type 0} (db : Client C U M A) (p : Platform) where
  abbrev S : Type 0
  S = Store C U M A

  -- The event of a key, once the store is `s`.
  abbrev pub Holds : Key → Key → CommunicationEvent → S → Type 0
  Holds t id e s = find (event_key t id) (db.event.rows s.events) ≡ some e

  -- The call reports a status, and the event is settled with it.
  abbrev pub Reports :
      Instant → Key → Key → CommunicationEvent → Result CommunicationStatus × S → Type 0
  Reports now t id claimed r =
      (status : CommunicationStatus) × (e : CommunicationEvent) × (r.0 ≡ ok status)
      × Holds t id e r.1
      × Settled now claimed status e

  update_event-ok :
      (t id : Key) (f : CommunicationEvent → CommunicationEvent) (e : CommunicationEvent) (s : S)
      → Holds t id e s
      → ((r : CommunicationEvent) → event_key t id (f r) ≡ event_key t id r)
      → (s' : S) × (update_event db p t id f s ≡ (ok tt, s')) × Holds t id (f e) s'
  unfolding update_event update_events effects after
  update_event-ok t id f e s held keep =
      let after_update : find (event_key t id)
            (update_rows (event_key t id) f (db.event.rows s.events))
          ≡ some (f e) =
        rw (find-holds (event_key t id) (db.event.rows s.events) held) at (
          find-update_rows_if (event_key t id) (event_key t id) f keep (db.event.rows s.events)
            held) in
      (
        record s { events = (db.event.update_many (event_key t id) f s.events).1 },
        rw
            (
              db.event.count-update_many (event_key t id) f s.events,
              count_rows_pos (event_key t id) (db.event.rows s.events) held,
            )
            refl,
        rw (db.event.rows-update_many (event_key t id) f s.events) after_update,
      )

  bury_event-Reports :
      (now : Instant) (t id : Key) (code : Text) (e : CommunicationEvent) (s : S)
      → Holds t id e s
      → Reports now t id e (bury_event db p now t id code s)
  unfolding bury_event bury effects after
  bury_event-Reports now t id code e s held =
      let (s', done, held') = update_event-ok t id (bury now code) e s held (λ r. refl) in
      rw done (dead_letter, bury now code e, refl, held', is_buried code)

  put_off-Reports :
      (now : Instant) (t id : Key) (code : Text) (e : CommunicationEvent) (s : S)
      → Holds t id e s
      → e.attempt_count < max_attempts
      → Reports now t id e
          ((update_event db p t id (put_off now code e.attempt_count) >> pure failed) s)
  unfolding put_off effects after
  put_off-Reports now t id code e s held below =
      let (s', done, held') =
        update_event-ok t id (put_off now code e.attempt_count) e s held (λ r. refl) in
      rw done (failed, put_off now code e.attempt_count e, refl, held', is_put_off code below)

  sent-Reports :
      (now : Instant) (t id x : Key) (e : CommunicationEvent) (s : S)
      → Holds t id e s
      → Reports now t id e (settle db p now e (accepted x) t id s)
  unfolding settle mark_sent effects after ◌otherwise◌ rescue
  sent-Reports now t id x e s held =
      let (s', done, held') = update_event-ok t id (mark_sent x) e s held (λ r. refl) in
      rw done (sent, mark_sent x e, refl, held', is_sent x)

  settle-Reports :
      (now : Instant) (t id : Key) (o : SendOutcome) (e : CommunicationEvent) (s : S)
      → Holds t id e s
      → Reports now t id e (settle db p now e o t id s)
  unfolding settle
  settle-Reports now t id (accepted x) e s held = sent-Reports now t id x e s held
  settle-Reports now t id broken e s held = bury_event-Reports now t id (codes "unknown") e s held
  settle-Reports now t id (refused code safe) e s held =
      elim (Bool-cases (not safe || leb max_attempts e.attempt_count)) [
        | inl final ↦ rw final (bury_event-Reports now t id code e s held)
        | inr again ↦
            rw again (put_off-Reports now t id code e s held (below safe e.attempt_count again))
      ]
    where
      below : (safe : Bool) (n : ℕ) → (not safe || leb max_attempts n) ≡ false → n < max_attempts
      below true n h = ground arith
      below false n h = ground arith

  pub dispatch-Reports :
      (now : Instant) (t id : Key) (send : Outgoing → SendOutcome) (m : Prepared)
      (e : CommunicationEvent) (s : S)
      → Holds t id e s
      → Reports now t id e (dispatch db p now e send t id m s)
  unfolding dispatch
  dispatch-Reports now t id send (unsendable code) e s held =
      bury_event-Reports now t id code e s held
  dispatch-Reports now t id send (outgoing m) e s held = settle-Reports now t id (send m) e s held
