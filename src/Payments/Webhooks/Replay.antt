-- ===== src/Payments/Webhooks/Replay.antt =====
-- Stripe delivers an event more than once: only the first delivery changes anything.
use signmons_calldesk_backen.Base.{
  Bool, true, some, is_some, Result, ok, err, ◌≡◌, refl, arith, Instant, after,
}
use signmons_calldesk_backen.Base.Text.{Key}
use signmons_calldesk_backen.Data.Rows.{Payment, Tenant}
use signmons_calldesk_backen.Data.Store.{Store, Client, store_effects}
use signmons_calldesk_backen.Payments.Webhooks.{WebhookEvent, Transition}
use signmons_calldesk_backen.Payments.Webhooks.Receive.{
  Reading, ignored, known, read_webhook, deliver, is_event_row, record_event, receive,
  webhook_tenant,
}

module _ {J P T U E A : Type 0} (db : Client J P T U E A) where
  abbrev S : Type 0
  S = Store J P T U E A

  -- The tenant has a row for the event.
  abbrev pub Recorded : Key → Key → S → Type 0
  Recorded tenant_id id s =
      is_some (db.stripe_event.find_first (is_event_row tenant_id id) s.stripe_events) ≡ true

  record_event-Recorded :
      (now : Instant) (trace tenant_id : Key) (event : WebhookEvent) (p : Payment) (t : Transition)
      (s : S)
      → Recorded tenant_id event.id s
      → record_event db now trace tenant_id event p t s
        ≡ (ok (record { handled = true; duplicate = true }), s)
  unfolding record_event store_effects
  record_event-Recorded now trace tenant_id event p t s h = rw h

  pub read_webhook-tenant :
      (livemode : Bool) (seen : S) (event : WebhookEvent) {tenant : Tenant} {id : Key} {p : Payment}
      {t : Transition}
      → webhook_tenant db event seen ≡ some tenant
      → read_webhook db livemode seen event ≡ ok (known id p t)
      → id ≡ tenant.id
  unfolding read_webhook
  read_webhook-tenant livemode seen event h r = ground arith

  deliver-Recorded :
      (now : Instant) (trace : Key) (event : WebhookEvent) (r : Result Reading) (s : S) (id : Key)
      → ((i : Key) (p : Payment) (t : Transition) → r ≡ ok (known i p t) → i ≡ id)
      → Recorded id event.id s
      → (after (deliver db now trace event) (r, s)).1 ≡ s
  unfolding deliver store_effects
  deliver-Recorded now trace event (err e) s id known_id h = refl
  deliver-Recorded now trace event (ok ignored) s id known_id h = refl
  deliver-Recorded now trace event (ok (known i p t)) s id known_id h =
      rw (record_event-Recorded now trace i event p t s (rw (known_id i p t refl) h))

  -- Once a tenant has a row for an event, delivering the event again changes nothing at all, whatever
  -- state the delivery reads.
  pub receive-Recorded :
      (now : Instant) (trace : Key) (livemode : Bool) (seen : S) (event : WebhookEvent) (s : S)
      {tenant : Tenant}
      → webhook_tenant db event seen ≡ some tenant
      → Recorded tenant.id event.id s
      → (receive db now trace livemode seen event s).1 ≡ s
  unfolding receive store_effects
  receive-Recorded now trace livemode seen event s {tenant} h r =
      deliver-Recorded now trace event (read_webhook db livemode seen event) s tenant.id
        (λ i p t e. read_webhook-tenant livemode seen event h e) r
