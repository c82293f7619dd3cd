-- ===== src/Sms/Delivery/Attempts.antt =====
-- No event is tried more often than the limit allows.
use signmons_calldesk_backen.Base.{
  ℕ, ◌≤◌, Bool, true, false, not, All, List, [], ◌∷◌, ◌≡◌, arith, ◌&&◌, &&-cases, Bool-cases, inl,
  inr, Instant, leb, ltb, ◌+◌, ◌||◌, unexpected, Action, is_some,
}
use signmons_calldesk_backen.Base.Text.{Text, Key, codes}
use signmons_calldesk_backen.Base.Table.{All-update_rows, All-append}
use signmons_calldesk_backen.Base.Preserves.{
  Preserves, Preserves-bind, Preserves-then, Preserves-transaction, Preserves-throw_if,
  Preserves-or_throw, Preserves-lift, Preserves-read, Preserves-gets, Preserves-pure, Preserves-if,
  Preserves-otherwise,
}
use signmons_calldesk_backen.Sms.Rows.{
  CommunicationEvent, Store, Client, update_events, create_event, create_audit,
}
use signmons_calldesk_backen.Sms.Events.{
  max_attempts, is_queued, is_failed, Platform, SendOutcome, accepted, refused, broken, Prepared,
  unsendable, outgoing, Outgoing, Replay, Callback, SmsRequest, event_key, is_claimable, claim,
  bury, mark_sent, put_off, report, requeue,
}
use signmons_calldesk_backen.Sms.Delivery.{update_event, bury_event, settle, dispatch, deliver}
use signmons_calldesk_backen.Sms.Delivery.Service.{
  replay_dead_letter, apply_status, create, upsert_event, read_back, new_event, deliver_all,
  due_events, process_due, Call, of_create, of_deliver, of_process_due, of_replay, of_status, make,
  make_all,
}

module _ {C U M A : Type 0} (db : Client C U M A) (p : Platform) where
  abbrev S : Type 0
  S = Store C U M A

  -- Every event has made at most three attempts.
  abbrev pub WithinLimit : S → Type 0
  WithinLimit s =
      All (λ (e : CommunicationEvent). e.attempt_count ≤ max_attempts) (db.event.rows s.events)

  abbrev Keeps : {B : Type 0} → Action S B → Type 0
  Keeps m = Preserves WithinLimit m

  Keeps-update_events :
      (q : CommunicationEvent → Bool) (f : CommunicationEvent → CommunicationEvent)
      → ((e : CommunicationEvent) → q e ≡ true → e.attempt_count ≤ 3 → (f e).attempt_count ≤ 3)
      → Keeps (update_events db q f)
  unfolding update_events
  Keeps-update_events q f step = record {
    preserved = λ s h.
        rw db.event.rows-update_many (
          All-update_rows (λ e. e.attempt_count ≤ max_attempts) q f step (db.event.rows s.events)
            h);
  }

  Keeps-update_event :
      (t id : Key) (f : CommunicationEvent → CommunicationEvent)
      → ((e : CommunicationEvent) → e.attempt_count ≤ 3 → (f e).attempt_count ≤ 3)
      → Keeps (update_event db p t id f)
  unfolding update_event
  Keeps-update_event t id f step =
      Preserves-bind WithinLimit _ _ (Keeps-update_events (event_key t id) f (λ e _. step e))
        (λ n. Preserves-throw_if WithinLimit _ _)

  below-within : (b : Bool) (n : ℕ) → (b && ltb n 3) ≡ true → n + 1 ≤ 3
  below-within true n h = ground arith
  below-within false n h = ground arith

  Keeps-claim :
      (t id : Key) → Keeps (update_events db (λ e. event_key t id e && is_claimable e) claim)
  unfolding is_claimable claim
  Keeps-claim t id = Keeps-update_events _ _ λ e h _.
      below-within (is_queued e.status || is_failed e.status) e.attempt_count
        (&&-cases (event_key t id e) (is_claimable e) h).1

  Keeps-bury_event :
      (now : Instant) (t id : Key) (code : Text) → Keeps (bury_event db p now t id code)
  unfolding bury_event bury
  Keeps-bury_event now t id code =
      Preserves-then WithinLimit _ _ (Keeps-update_event t id (bury now code) λ e h. h)
        (Preserves-pure WithinLimit _)

  Keeps-put_off :
      (now : Instant) (code : Text) (n : ℕ) (t id : Key)
      → Keeps (update_event db p t id (put_off now code n))
  unfolding put_off
  Keeps-put_off now code n t id = Keeps-update_event t id (put_off now code n) λ e h. h

  Keeps-sent : (x t id : Key) → Keeps (update_event db p t id (mark_sent x))
  unfolding mark_sent
  Keeps-sent x t id = Keeps-update_event t id (mark_sent x) λ e h. h

  Keeps-settle :
      (now : Instant) (e : CommunicationEvent) (o : SendOutcome) (t id : Key)
      → Keeps (settle db p now e o t id)
  unfolding settle
  Keeps-settle now e (accepted x) t id =
      Preserves-otherwise WithinLimit _ _
        (Preserves-then WithinLimit _ _ (Keeps-sent x t id) (Preserves-pure WithinLimit _))
        (Keeps-bury_event now t id (codes "unknown"))
  Keeps-settle now e (refused code safe) t id =
      Preserves-if WithinLimit (not safe || leb max_attempts e.attempt_count) _ _
        (Keeps-bury_event now t id code)
        (Preserves-then WithinLimit _ _ (Keeps-put_off now code e.attempt_count t id)
          (Preserves-pure WithinLimit _))
  Keeps-settle now e broken t id = Keeps-bury_event now t id (codes "unknown")

  Keeps-dispatch :
      (now : Instant) (e : CommunicationEvent) (send : Outgoing → SendOutcome) (t id : Key)
      (m : Prepared)
      → Keeps (dispatch db p now e send t id m)
  unfolding dispatch
  Keeps-dispatch now e send t id (unsendable code) = Keeps-bury_event now t id code
  Keeps-dispatch now e send t id (outgoing m) = Keeps-settle now e (send m) t id

  -- A delivery attempt, whatever it comes to.
  pub Keeps-deliver :
      (now : Instant) (send : Outgoing → SendOutcome) (t id : Key)
      → Keeps (deliver db p now send t id)
  unfolding deliver
  Keeps-deliver now send t id = Preserves-bind WithinLimit _ _ (Keeps-claim t id) λ n.
      Preserves-then WithinLimit _ _ (Preserves-throw_if WithinLimit _ _) (
        Preserves-bind WithinLimit _ _ (Preserves-gets WithinLimit _) λ found.
          Preserves-bind WithinLimit _ _ (Preserves-or_throw WithinLimit found unexpected) λ e.
            Preserves-bind WithinLimit _ _ (Preserves-read WithinLimit _)
              λ m. Keeps-dispatch now e send t id m)

  Keeps-replay : (seen : S) (r : Replay) → Keeps (replay_dead_letter db p seen r)
  unfolding replay_dead_letter requeue create_audit
  Keeps-replay seen r = Preserves-bind WithinLimit _ _ (Preserves-or_throw WithinLimit _ _) λ e.
      Preserves-then WithinLimit _ _ (Preserves-throw_if WithinLimit _ _) (
        Preserves-then WithinLimit _ _ (Preserves-throw_if WithinLimit _ _) (
          Preserves-then WithinLimit _ _ (Preserves-throw_if WithinLimit _ _) (
            Preserves-transaction WithinLimit _ (
              Preserves-then WithinLimit _ _
                (Keeps-update_event r.tenant_id r.event_id requeue λ e h. ground arith)
                (record { preserved = λ s h. h })))))

  Keeps-apply_status :
      (now : Instant) (seen : S) (c : Callback) → Keeps (apply_status db p now seen c)
  unfolding apply_status report
  Keeps-apply_status now seen c =
      Preserves-then WithinLimit _ _ (Preserves-throw_if WithinLimit _ _) (
        Preserves-bind WithinLimit _ _ (Preserves-lift WithinLimit _) λ status.
          Preserves-bind WithinLimit _ _ (Preserves-or_throw WithinLimit _ _) λ e.
            Preserves-if WithinLimit _ _ _ (Preserves-pure WithinLimit _)
              (Keeps-update_event c.tenant_id e.id _ λ e h. h))

  Keeps-upsert_event :
      (q : CommunicationEvent → Bool) (e : CommunicationEvent)
      → e.attempt_count ≤ 3
      → Keeps (upsert_event db p q e)
  unfolding upsert_event create_event
  Keeps-upsert_event q e bound = record {
    preserved = λ s h. elim (Bool-cases (is_some (db.event.find_first q s.events))) [
      | inl found ↦ rw found h
      | inr absent ↦
          rw (absent, db.event.rows-create e s.events)
            (All-append (λ e. e.attempt_count ≤ max_attempts) (db.event.rows s.events) e h bound)
    ];
  }

  Keeps-read_back : (q : CommunicationEvent → Bool) (h : Key) → Keeps (read_back db p q h)
  unfolding read_back
  Keeps-read_back q h = Preserves-bind WithinLimit _ _ (Preserves-gets WithinLimit _) λ found.
      Preserves-bind WithinLimit _ _ (Preserves-or_throw WithinLimit found _) λ e.
        Preserves-then WithinLimit _ _ (Preserves-throw_if WithinLimit _ _)
          (Preserves-pure WithinLimit _)

  Keeps-create : (now : Instant) (id : Key) (r : SmsRequest) → Keeps (create db p now id r)
  unfolding create new_event
  Keeps-create now id r = Preserves-bind WithinLimit _ _ (Preserves-read WithinLimit _) λ hashes.
      Preserves-then WithinLimit _ _
        (Keeps-upsert_event _ (new_event db p id r hashes.0 hashes.1) (ground arith))
        (Keeps-read_back _ hashes.1)

  deliver_all-WithinLimit :
      (now : Instant) (send : Outgoing → SendOutcome) (es : List CommunicationEvent) (s : S)
      → WithinLimit s
      → WithinLimit (deliver_all db p now send es s)
  unfolding deliver_all
  deliver_all-WithinLimit now send [] s h = h
  deliver_all-WithinLimit now send (e ∷ es) s h =
      deliver_all-WithinLimit now send es _
        ((Keeps-deliver now send e.tenant_id e.id).preserved s h)

  process_due-WithinLimit :
      (by : List CommunicationEvent → List CommunicationEvent) (now : Instant)
      (send : Outgoing → SendOutcome) (limit : ℕ) (s : S)
      → WithinLimit s
      → WithinLimit (process_due db p by now send limit s).1
  unfolding process_due
  process_due-WithinLimit by now send limit s h = elim (Bool-cases p.delivery_enabled) [
    | inl e ↦ rw e (deliver_all-WithinLimit now send (due_events db p by now limit s) s h)
    | inr e ↦ rw e h
  ]

  make-WithinLimit : (c : Call S) (s : S) → WithinLimit s → WithinLimit (make db p c s)
  unfolding make
  make-WithinLimit (of_create now id r) s h = (Keeps-create now id r).preserved s h
  make-WithinLimit (of_deliver now send t id) s h = (Keeps-deliver now send t id).preserved s h
  make-WithinLimit (of_process_due by now send limit) s h =
      process_due-WithinLimit by now send limit s h
  make-WithinLimit (of_replay seen r) s h = (Keeps-replay seen r).preserved s h
  make-WithinLimit (of_status now seen c) s h = (Keeps-apply_status now seen c).preserved s h

  -- Where no event's count of attempts is above three, none is after any sequence of calls of the delivery
  -- service: new requests, rounds over the due events, attempts on any event, replays of dead letters and
  -- reports of the provider, whatever was read before, whatever the provider answers and whichever call
  -- throws. The count is of the attempts since the event was requested or last replayed: a replay sets it
  -- back to zero.
  pub make_all-WithinLimit :
      (cs : List (Call S)) (s : S) → WithinLimit s → WithinLimit (make_all db p cs s)
  unfolding make_all
  make_all-WithinLimit [] s h = h
  make_all-WithinLimit (c ∷ cs) s h =
      make_all-WithinLimit cs (make db p c s) (make-WithinLimit c s h)
