-- ===== src/Sms/Delivery/Claims.antt =====
-- An attempt from its claim to its report, and the attempts after it.
use signmons_calldesk_backen.Base.{
  Bool, true, false, some, find-holds, ◌≡◌, refl, ◌&&◌, err, Instant, HttpError, conflict, effects,
  after, if◌then◌else◌,
}
use signmons_calldesk_backen.Base.Text.{Key}
use signmons_calldesk_backen.Base.Table.{
  find-update_rows_if, count_rows, count_rows-one, count_rows-update_rows, update_rows_none,
}
use signmons_calldesk_backen.Sms.Rows.{CommunicationEvent, Store, Client, update_events}
use signmons_calldesk_backen.Sms.Events.{
  Platform, SendOutcome, Outgoing, event_key, is_claimable, claim,
}
use signmons_calldesk_backen.Sms.Delivery.{deliver, prepare, find_event}
use signmons_calldesk_backen.Sms.Delivery.Outcomes.{Holds}

module _ {C U M A : Type 0} (db : Client C U M A) (p : Platform) where
  abbrev S : Type 0
  S = Store C U M A

  abbrev free_at : Key → Key → CommunicationEvent → Bool
  free_at t id e = event_key t id e && is_claimable e

  -- The store that the claim of an attempt leaves.
  abbrev pub claimed_store : Key → Key → S → S
  claimed_store t id s = record s {
    events = (db.event.update_many (free_at t id) claim s.events).1;
  }

  event_key-claim :
      (t id : Key) (e : CommunicationEvent) → event_key t id (claim e) ≡ event_key t id e
  unfolding claim
  event_key-claim t id e = refl

  claimed-Holds :
      (t id : Key) (e : CommunicationEvent) (s : S)
      → Holds db p t id e s
      → is_claimable e ≡ true
      → Holds db p t id (claim e) (claimed_store t id s)
  claimed-Holds t id e s held free = rw (db.event.rows-update_many (free_at t id) claim s.events) (
      rw (find-holds (event_key t id) (db.event.rows s.events) held, free) at
        (find-update_rows_if (event_key t id) (free_at t id) claim (event_key-claim t id)
          (db.event.rows s.events) held))

  -- The primary key: one event has it.
  abbrev pub IsOnly : Key → Key → S → Type 0
  IsOnly t id s = count_rows (event_key t id) (db.event.rows s.events) ≡ 1

  claims :
      (t id : Key) (e : CommunicationEvent) (s : S)
      → IsOnly t id s
      → Holds db p t id e s
      → (db.event.update_many (free_at t id) claim s.events).0 ≡ (if is_claimable e then 1 else 0)
  claims t id e s only held =
      rw (db.event.count-update_many (free_at t id) claim s.events)
        (count_rows-one (event_key t id) is_claimable (db.event.rows s.events) only held)

  no_claim :
      (t id : Key) (e : CommunicationEvent) (s : S)
      → IsOnly t id s
      → Holds db p t id e s
      → is_claimable e ≡ false
      → count_rows (free_at t id) (db.event.rows s.events) ≡ 0
  no_claim t id e s only held busy =
      rw busy at (count_rows-one (event_key t id) is_claimable (db.event.rows s.events) only held)

  failed_attempt :
      (now : Instant) (send : Outgoing → SendOutcome) (t id : Key) (e : CommunicationEvent) (s : S)
      (x : HttpError)
      → IsOnly t id s
      → Holds db p t id e s
      → is_claimable e ≡ true
      → prepare db p now t (claim e) (claimed_store t id s) ≡ err x
      → deliver db p now send t id s ≡ (err x, claimed_store t id s)
  unfolding deliver effects after update_events find_event
  failed_attempt now send t id e s x only held free bad =
      let held' : db.event.find_first (event_key t id) (claimed_store t id s).events
          ≡ some (claim e) =
        rw db.event.find_first_lem (claimed-Holds t id e s held free) in
      rw (claims t id e s only held, free, held') (rw bad refl)

  -- An attempt on an event that may not be claimed, and alone has its key, throws, and leaves every event as it is.
  pub deliver-refused :
      (now : Instant) (send : Outgoing → SendOutcome) (t id : Key) (e : CommunicationEvent) (s : S)
      → IsOnly t id s
      → Holds db p t id e s
      → is_claimable e ≡ false
      → ((deliver db p now send t id s).0 ≡ err (conflict "SMS delivery is not claimable."))
        × (db.event.rows (deliver db p now send t id s).1.events ≡ db.event.rows s.events)
  unfolding deliver effects after update_events find_event
  deliver-refused now send t id e s only held busy =
      rw (claims t id e s only held, busy)
        (
          refl,
          rw (db.event.rows-update_many (free_at t id) claim s.events) (
              update_rows_none (free_at t id) claim (db.event.rows s.events)
                (no_claim t id e s only held busy)),
        )

  claimed-busy : (e : CommunicationEvent) → is_claimable (claim e) ≡ false
  unfolding is_claimable claim
  claimed-busy e = refl

  -- Where an event may be claimed, it alone has its key, and the checks before sending throw, the
  -- attempt throws the same and leaves the event claimed, and the next attempt is refused and leaves
  -- it so.
  pub deliver-deliver :
      (now later : Instant) (send send' : Outgoing → SendOutcome) (t id : Key)
      (e : CommunicationEvent) (s : S) (x : HttpError)
      → IsOnly t id s
      → Holds db p t id e s
      → is_claimable e ≡ true
      → prepare db p now t (claim e) (claimed_store t id s) ≡ err x
      → ((deliver db p now send t id s).0 ≡ err x)
        × ((deliver db p later send' t id (deliver db p now send t id s).1).0
            ≡ err (conflict "SMS delivery is not claimable."))
        × Holds db p t id
            (claim e)
            (deliver db p later send' t id (deliver db p now send t id s).1).1
  deliver-deliver now later send send' t id e s x only held free bad =
      rw (failed_attempt now send t id e s x only held free bad) (refl, (again).0, rw again.1 held')
    where
      held' : Holds db p t id (claim e) (claimed_store t id s)
      held' = claimed-Holds t id e s held free

      only' : IsOnly t id (claimed_store t id s)
      only' =
          rw
            (
              db.event.rows-update_many (free_at t id) claim s.events,
              count_rows-update_rows (event_key t id) (free_at t id) claim (event_key-claim t id)
                  (db.event.rows s.events),
            )
            only

      again :
          ((deliver db p later send' t id (claimed_store t id s)).0
            ≡ err (conflict "SMS delivery is not claimable."))
          × (db.event.rows (deliver db p later send' t id (claimed_store t id s)).1.events
              ≡ db.event.rows (claimed_store t id s).events)
      again =
          deliver-refused later send' t id (claim e) (claimed_store t id s) only' held'
            (claimed-busy e)
