-- ===== src/Sms/Delivery/Callbacks.antt =====
-- What the provider's reports may do to the events.
use signmons_calldesk_backen.Base.{
  ◌<◌, Bool, false, Option, some, All, List, [], ◌∷◌, find, ◌≡◌, refl, arith, &&-cases, ◌&&◌,
  Instant, leb, effects, after, ◌⊎◌, inl, inr, Bool-cases, Option-cases, Result-cases, ◌==◌,
  find-holds,
}
use signmons_calldesk_backen.Base.Text.{Text, Key, text_eq, text_eq→eq, opt_text_eq}
use signmons_calldesk_backen.Base.Table.{Extends, Extends-refl, update_rows, All-find}
use signmons_calldesk_backen.Sms.Rows.{
  CommunicationStatus, CommunicationEvent, Store, Client, update_events,
}
use signmons_calldesk_backen.Sms.Events.{
  is_twilio, Platform, Callback, event_key, map_status, status_rank, is_message_sid, report, filled,
}
use signmons_calldesk_backen.Sms.Delivery.Service.{external_key, apply_status}
use signmons_calldesk_backen.Sms.Delivery.{update_event}

-- An event that stays as it is, or whose new status ranks above the one that it had in the rows `seen`.
abbrev pub Advances : List CommunicationEvent → CommunicationEvent → CommunicationEvent → Type 0
Advances seen e e' =
    (e' ≡ e)
    ⊎ ((x : CommunicationEvent) × (find (event_key e.tenant_id e.id) seen ≡ some x)
        × (status_rank x.status < status_rank e'.status))

Advances-refl : (seen : List CommunicationEvent) (e : CommunicationEvent) → Advances seen e e
Advances-refl seen e = inl refl

-- The primary key: an event is the one that its key finds.
abbrev pub IsKeyed : List CommunicationEvent → CommunicationEvent → Type 0
IsKeyed rows e = find (event_key e.tenant_id e.id) rows ≡ some e

Extends-keyed :
    (seen : List CommunicationEvent) (t : Key) (x : CommunicationEvent)
    (f : CommunicationEvent → CommunicationEvent)
    → find (event_key t x.id) seen ≡ some x
    → ((e : CommunicationEvent) → status_rank x.status < status_rank (f e).status)
    → (es : List CommunicationEvent)
    → Extends (Advances seen) es (update_rows (event_key t x.id) f es)
Extends-keyed seen t x f at_key rises [] = tt
Extends-keyed seen t x f at_key rises (e ∷ es) = elim (Bool-cases (event_key t x.id e)) [
  | inl hit ↦
      let (of_tenant, of_id) = &&-cases (text_eq e.tenant_id t) (text_eq e.id x.id) hit in
      let same_key : find (event_key e.tenant_id e.id) seen ≡ some x =
        rw (text_eq→eq e.tenant_id t of_tenant, text_eq→eq e.id x.id of_id) at_key in
      rw hit (inr (x, same_key, rises e), Extends-keyed seen t x f at_key rises es)
  | inr miss ↦ rw miss (inl refl, Extends-keyed seen t x f at_key rises es)
]

report-rank :
    (now : Instant) (status : CommunicationStatus) (code : Option Text) (x e : CommunicationEvent)
    → leb (status_rank status) (status_rank x.status) ≡ false
    → status_rank x.status < status_rank (report now status code e).status
unfolding report
report-rank now status code x e h = ground arith

module _ {C U M A : Type 0} (db : Client C U M A) (p : Platform) where
  abbrev S : Type 0
  S = Store C U M A

  update_event-rows :
      (t id : Key) (f : CommunicationEvent → CommunicationEvent) (s : S)
      → db.event.rows (update_event db p t id f s).1.events
        ≡ update_rows (event_key t id) f (db.event.rows s.events)
  unfolding update_event update_events effects after
  update_event-rows t id f s =
      elim (Bool-cases ((db.event.update_many (event_key t id) f s.events).0 == 0)) [
        | inl e ↦ rw e (db.event.rows-update_many (event_key t id) f s.events)
        | inr e ↦ rw e (db.event.rows-update_many (event_key t id) f s.events)
      ]

  -- Where the events as they were read are each the one that its key finds, a callback leaves each event as
  -- it is, or gives it a status of a higher rank than it had when it was read, whatever other requests have
  -- committed since. The comparison is with the read alone, so nothing is said of the rank that the event
  -- has by then.
  pub apply_status-Advances :
      (now : Instant) (seen : S) (c : Callback) (s : S)
      → All (IsKeyed (db.event.rows seen.events)) (db.event.rows seen.events)
      → Extends
          (Advances (db.event.rows seen.events))
          (db.event.rows s.events)
          (db.event.rows (apply_status db p now seen c s).1.events)
  unfolding apply_status effects after
  apply_status-Advances now seen c s keyed = elim (Bool-cases (is_message_sid c.external_id)) [
    | inr bad ↦ rw bad (same)
    | inl sid ↦ rw sid (elim (Result-cases (map_status c.provider_status)) [
      | inr (e, bad) ↦ rw bad (same)
      | inl (status, known) ↦
          rw known (elim (Option-cases (db.event.find_first of_callback seen.events)) [
            | inl absent ↦ rw absent same
            | inr (x, found) ↦
                rw found (elim (Bool-cases (leb (status_rank status) (status_rank x.status))) [
                  | inl low ↦ rw low same
                  | inr high ↦
                      rw
                        (
                          high,
                          update_event-rows c.tenant_id x.id
                              (report now status (filled c.error_code)) s,
                        )
                        (Extends-keyed seen_rows c.tenant_id x
                          (report now status (filled c.error_code))
                          (found-IsKeyed x
                            (rw (← db.event.find_first_lem of_callback seen.events) found))
                          (λ e. report-rank now status (filled c.error_code) x e high)
                          (db.event.rows s.events))
                ])
          ])
    ])
  ]
    where
      seen_rows : List CommunicationEvent
      seen_rows = db.event.rows seen.events

      of_callback : CommunicationEvent → Bool
      of_callback = external_key db p c.tenant_id c.external_id

      found-IsKeyed :
          (x : CommunicationEvent)
          → find of_callback seen_rows ≡ some x
          → find (event_key c.tenant_id x.id) seen_rows ≡ some x
      found-IsKeyed x found =
          let of_tenant =
            (&&-cases (text_eq x.tenant_id c.tenant_id)
              (is_twilio x.provider && opt_text_eq x.external_id (some c.external_id))
              (find-holds of_callback seen_rows found)).0 in
          rw (← text_eq→eq x.tenant_id c.tenant_id of_tenant)
            (All-find (IsKeyed seen_rows) of_callback seen_rows keyed found)

      same : Extends (Advances seen_rows) (db.event.rows s.events) (db.event.rows s.events)
      same = Extends-refl (Advances seen_rows) (Advances-refl seen_rows) (db.event.rows s.events)
