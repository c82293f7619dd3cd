-- ===== src/Payments/Webhooks/Once.antt =====
-- The first delivery of an event records it, so that no later one changes anything.
use signmons_calldesk_backen.Base.{
  Bool, true, false, some, is_some, ◌≡◌, ◌≢◌, refl, arith, Result, ok, err, Instant, inl, inr,
  Bool-cases, Option-cases, find, List, [], ◌∷◌, ◌++◌, effects, after, commit, transaction, Action,
  pure, ok-injective, when, ◌>>◌, ◌>>=◌,
}
use signmons_calldesk_backen.Base.Text.{Key, text_eq_refl}
use signmons_calldesk_backen.Base.Table.{find-update_rows}
use signmons_calldesk_backen.Base.Preserves.{
  Preserves, Preserves-bind, Preserves-then, Preserves-throw_if, Preserves-pure,
}
use signmons_calldesk_backen.Data.Rows.{Payment, Tenant, StripeEvent}
use signmons_calldesk_backen.Data.Store.{
  Store, Client, update_payments, create_audit, create_stripe_event, update_stripe_events,
}
use signmons_calldesk_backen.Payments.Webhooks.{WebhookEvent, Transition, changes_payment}
use signmons_calldesk_backen.Payments.Webhooks.Receive.{
  Receipt, Reading, ignored, known, is_event_row, pending_event, mark_processed, record_new,
  record_effects, record_transition, record_event, webhook_tenant, read_webhook, deliver, receive,
}
use signmons_calldesk_backen.Payments.Webhooks.Replay.{
  Recorded, receive-Recorded, read_webhook-tenant,
}

-- A list whose last row fits has a row that fits.
find-last :
    {R : Type 0} (p : R → Bool) (r : R) (rs : List R)
    → p r ≡ true
    → is_some (find p (rs ++ (r ∷ []))) ≡ true
find-last p r [] h = rw h refl
find-last p r (x ∷ rs) h = elim (Bool-cases (p x)) [
  | inl e ↦ rw e refl
  | inr e ↦ rw e (find-last p r rs h)
]

pending_event-key :
    (tenant_id : Key) (event : WebhookEvent) (p : Payment)
    → is_event_row tenant_id event.id (pending_event tenant_id event p) ≡ true
unfolding pending_event
pending_event-key tenant_id event p = rw (text_eq_refl event.id, text_eq_refl tenant_id) refl

module _ {J P T U E A : Type 0} (db : Client J P T U E A) where
  abbrev S : Type 0
  S = Store J P T U E A

  abbrev Kept : {B : Type 0} → Key → Key → Action S B → Type 0
  Kept t id m = Preserves (Recorded db t id) m

  Kept-update_payments :
      (t id : Key) (q : Payment → Bool) (f : Payment → Payment) → Kept t id (update_payments db q f)
  unfolding update_payments
  Kept-update_payments t id q f = record { preserved = λ s h. h }

  Kept-when : (t id : Key) (b : Bool) (m : Action S (Unit {0})) → Kept t id m → Kept t id (when b m)
  unfolding when
  Kept-when t id true m h = h
  Kept-when t id false m h = record { preserved = λ s h. h }

  Kept-update_events :
      (t id : Key) (f : StripeEvent → StripeEvent)
      → ((e : StripeEvent) → is_event_row t id (f e) ≡ is_event_row t id e)
      → Kept t id (update_stripe_events db (is_event_row t id) f)
  unfolding update_stripe_events
  Kept-update_events t id f keep = record { preserved = λ s h. kept s h }
    where
      kept :
          (s : S)
          → Recorded db t id s
          → is_some (
              db.stripe_event.find_first
                (is_event_row t id)
                (db.stripe_event.update_many (is_event_row t id) f s.stripe_events).1)
            ≡ true
      kept s h =
          elim (Option-cases (find (is_event_row t id) (db.stripe_event.rows s.stripe_events))) [
            | inl none_there ↦
                let no : false ≡ true = rw (db.stripe_event.find_first_lem, none_there) at h in
                ground arith
            | inr (e, found) ↦
                rw
                  (
                    db.stripe_event.find_first_lem,
                    db.stripe_event.rows-update_many,
                    find-update_rows (is_event_row t id) f (λ r fits. rw (keep r) fits)
                        (db.stripe_event.rows s.stripe_events) found,
                  )
                  refl
          ]

  created :
      (t : Key) (event : WebhookEvent) (p : Payment) (s : S)
      → Recorded db t event.id (create_stripe_event db (pending_event t event p) s).1
  unfolding create_stripe_event
  created t event p s =
      rw (db.stripe_event.find_first_lem, db.stripe_event.rows-create)
        (find-last (is_event_row t event.id) (pending_event t event p)
          (db.stripe_event.rows s.stripe_events) (pending_event-key t event p))

  Kept-transition :
      (now : Instant) (trace t : Key) (event : WebhookEvent) (p : Payment) (c : Transition)
      → Kept t event.id (record_transition db now trace t event p c)
  unfolding record_transition create_audit
  Kept-transition now trace t event p c =
      Preserves-bind (Recorded db t event.id) _ _ (Kept-update_payments t event.id _ _) λ n.
        Preserves-then (Recorded db t event.id) _ _
          (Preserves-throw_if (Recorded db t event.id) _ _) (record { preserved = λ s h. h })

  mark_processed-key :
      (now : Instant) (t id : Key) (e : StripeEvent)
      → is_event_row t id (mark_processed now e) ≡ is_event_row t id e
  unfolding mark_processed
  mark_processed-key now t id e = refl

  Kept-effects :
      (now : Instant) (trace t : Key) (event : WebhookEvent) (p : Payment) (c : Transition)
      → Kept t event.id (record_effects db now trace t event p c)
  unfolding record_effects
  Kept-effects now trace t event p c =
      Preserves-then (Recorded db t event.id) _ _
        (Kept-when t event.id (changes_payment c) _ (Kept-transition now trace t event p c))
        (Preserves-bind (Recorded db t event.id) _ _
          (Kept-update_events t event.id (mark_processed now) (mark_processed-key now t event.id))
          λ n. Preserves-pure (Recorded db t event.id) _)

  record_new-Recorded :
      (now : Instant) (trace t : Key) (event : WebhookEvent) (p : Payment) (c : Transition) (s : S)
      → Recorded db t event.id (record_new db now trace t event p c s).1
  unfolding record_new ◌>>◌ ◌>>=◌ after create_stripe_event
  record_new-Recorded now trace t event p c s =
      (Kept-effects now trace t event p c).preserved _ (created t event p s)

  record_event-records :
      (now : Instant) (trace t : Key) (event : WebhookEvent) (p : Payment) (c : Transition) (s : S)
      → Recorded db t event.id (record_event db now trace t event p c s).1
  unfolding record_event effects after
  record_event-records now trace t event p c s =
      elim (Bool-cases
        (is_some (db.stripe_event.find_first (is_event_row t event.id) s.stripe_events))) [
          | inl old ↦ rw old old
          | inr new ↦ rw new (record_new-Recorded now trace t event p c s)
        ]

  not_handled :
      (s : S) {x : Receipt}
      → (pure (record { handled = false; duplicate = false }) s).0 ≡ ok x
      → x.handled ≢ true
  unfolding pure
  not_handled s h k = let no : false ≡ true = rw (← ok-injective h) at k in ground arith

  -- A handled delivery has recorded the event.
  deliver-records :
      (now : Instant) (trace : Key) (event : WebhookEvent) (r : Result Reading) (s : S) (t : Key)
      {x : Receipt}
      → ((i : Key) (p : Payment) (c : Transition) → r ≡ ok (known i p c) → i ≡ t)
      → (after (deliver db now trace event) (r, s)).0 ≡ ok x
      → x.handled ≡ true
      → Recorded db t event.id (after (deliver db now trace event) (r, s)).1
  unfolding deliver after transaction commit
  deliver-records now trace event (err e) s t {x} of_tenant h handled = ground arith
  deliver-records now trace event (ok ignored) s t {x} of_tenant h handled =
      absurd (not_handled s h handled)
  deliver-records now trace event (ok (known i p c)) s t {x} of_tenant h handled =
      rw (← of_tenant i p c refl) (
        committed (record_event db now trace i event p c s) h
          (record_event-records now trace i event p c s))
    where
      committed :
          (q : Result Receipt × S)
          → (commit s q).0 ≡ ok x
          → Recorded db i event.id q.1
          → Recorded db i event.id (commit s q).1
      committed (ok y, s') k m = m
      committed (err e, s') k m = ground arith

  receive-records :
      (now : Instant) (trace : Key) (livemode : Bool) (seen : S) (event : WebhookEvent) (s : S)
      {tenant : Tenant} {x : Receipt}
      → webhook_tenant db event seen ≡ some tenant
      → (receive db now trace livemode seen event s).0 ≡ ok x
      → x.handled ≡ true
      → Recorded db tenant.id event.id (receive db now trace livemode seen event s).1
  unfolding receive effects
  receive-records now trace livemode seen event s {tenant} {x} known_tenant h handled =
      deliver-records now trace event (read_webhook db livemode seen event) s tenant.id {x = x}
        (λ i p c r. read_webhook-tenant db livemode seen event known_tenant r) h handled

  -- Once Stripe has been told that an event was handled, delivering it again, at any later time and
  -- whatever state the delivery reads, changes nothing, as long as the account belongs to the same tenant.
  pub receive-receive :
      (now later : Instant) (trace trace' : Key) (livemode : Bool) (seen seen' : S)
      (event : WebhookEvent) (s : S) {tenant : Tenant} {x : Receipt}
      → webhook_tenant db event seen ≡ some tenant
      → webhook_tenant db event seen' ≡ some tenant
      → (receive db now trace livemode seen event s).0 ≡ ok x
      → x.handled ≡ true
      → (receive db later trace' livemode seen' event
          (receive db now trace livemode seen event s).1).1
        ≡ (receive db now trace livemode seen event s).1
  receive-receive now later trace trace' livemode seen seen' event s {tenant} {x} first second h
        handled =
      receive-Recorded db later trace' livemode seen' event
        (receive db now trace livemode seen event s).1 second
        (receive-records now trace livemode seen event s {tenant = tenant} {x = x} first h handled)
