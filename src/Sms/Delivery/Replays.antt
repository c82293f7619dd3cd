-- ===== src/Sms/Delivery/Replays.antt =====
-- What a replay of a dead letter comes to.
use signmons_calldesk_backen.Base.{◌≤◌, true, some, Result, ok, err, ◌≡◌, length}
use signmons_calldesk_backen.Base.Text.{trim}
use signmons_calldesk_backen.Base.Table.{update_rows}
use signmons_calldesk_backen.Sms.Rows.{CommunicationEvent, Store, Client}
use signmons_calldesk_backen.Sms.Events.{Platform, Replay, event_key, is_dead_letter, requeue}
use signmons_calldesk_backen.Sms.Delivery.{find_event}

module _ {C U M A : Type 0} (db : Client C U M A) (p : Platform) where
  abbrev S : Type 0
  S = Store C U M A

  -- The event as it was read, and what the operator gave.
  abbrev pub MayReplay : S → Replay → Type 0
  MayReplay seen r =
      (e : CommunicationEvent) × (find_event db p r.tenant_id r.event_id seen ≡ some e)
      × (is_dead_letter e.status ≡ true)
      × (r.acknowledge_duplicate_risk ≡ true)
      × ((10 ≤ length (trim r.reason)) × (length r.reason ≤ 500))

  abbrev pub Replays : S → Replay → S → Result (Unit {0}) × S → Type 0
  Replays seen r s (ok _, s') =
      MayReplay seen r
      × (db.event.rows s'.events
          ≡ update_rows (event_key r.tenant_id r.event_id) requeue (db.event.rows s.events))
  Replays seen r s (err _, s') = s' ≡ s
