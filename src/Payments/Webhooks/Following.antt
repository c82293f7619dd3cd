-- ===== src/Payments/Webhooks/Following.antt =====
-- What delivering an event does to the stored payments, whatever was committed since they were read.
use signmons_calldesk_backen.Base.{
  Bool, true, false, arith, not, ◌&&◌, Option, none, some, is_some, if◌then◌else◌, Result, ok, err,
  Instant, Action, ◌≡◌, ◌⊎◌, inl, inr, refl, sym, ◌∙◌, and_then, and_then-ok, ok_or, check,
  coalesce, &&-cases, Bool-cases, after, not_found, unprocessable,
}
use signmons_calldesk_backen.Base.Text.{Key, text_eq, text_eq→eq}
use signmons_calldesk_backen.Data.Enums.{PaymentStatus}
use signmons_calldesk_backen.Data.Rows.{Payment, Tenant, StripeEvent}
use signmons_calldesk_backen.Data.Store.{
  Store, Client, create_stripe_event, update_stripe_events, store_effects,
}
use signmons_calldesk_backen.Data.Keeps
use signmons_calldesk_backen.Payments.Webhooks.{
  WebhookEvent, event_type, Transition, transition, apply_transition, payment_ids, names_payment,
}
use signmons_calldesk_backen.Payments.Webhooks.Receive.{
  is_other, bool_eq, Reading, ignored, known, record_new, record_effects, record_transition,
  record_event, webhook_tenant, read_webhook, deliver, receive,
}
use signmons_calldesk_backen.Payments.Webhooks.Money.{◌⇝◌, transition-⇝}

-- What a transition writes is its own status, or none.
status_written :
    (t : Transition) (p row : Payment)
    → ((apply_transition t row).status ≡ row.status)
      ⊎ ((apply_transition t row).status ≡ (apply_transition t p).status)
unfolding apply_transition
status_written t p row = by_status t.status
  where
    by_status :
        (s : Option PaymentStatus)
        → (coalesce s row.status ≡ row.status) ⊎ (coalesce s row.status ≡ coalesce s p.status)
    by_status none = inl refl
    by_status (some s) = inr refl

module _ {J P T U E A : Type 0} (db : Client J P T U E A) (seen : Store J P T U E A)
    (event : WebhookEvent) where
  abbrev S : Type 0
  S = Store J P T U E A

  -- The payment that the event finds in `seen` for one of its tenants.
  abbrev pub IsFound : Payment → Type 0
  IsFound p =
      (tenant_id : Key) × (db.payment.find_first
          (names_payment tenant_id event.account (payment_ids event.object)) seen.payments
        ≡ some p)

  -- A row that keeps its key, and either its status, or is the payment that was found, and has a status
  -- that the diagram reaches from the one that was read.
  abbrev pub Follows : Payment → Payment → Type 0
  Follows row row' =
      (row'.id ≡ row.id)
      × (row'.tenant_id ≡ row.tenant_id)
      × ((row'.status ≡ row.status)
          ⊎ ((p : Payment) × IsFound p × (p.id ≡ row.id) × (p.status ⇝ row'.status)))

  pub Follows-refl : (r : Payment) → Follows r r
  Follows-refl r = (refl, refl, inl refl)

  pub Follows-trans : (a b c : Payment) → Follows a b → Follows b c → Follows a c
  Follows-trans a b c (i, t, inl s) (i', t', inl s') = (i' ∙ i, t' ∙ t, inl (s' ∙ s))
  Follows-trans a b c (i, t, inr (p, found, its, step)) (i', t', inl s') =
      (i' ∙ i, t' ∙ t, inr (p, found, its, rw s' step))
  Follows-trans a b c (i, t, s) (i', t', inr (p, found, its, step)) =
      (i' ∙ i, t' ∙ t, inr (p, found, its ∙ i, step))

  -- Every stored payment follows what it was; new ones may have come.
  abbrev pub FollowAll : S → S → Type 0
  FollowAll = Keeps.Kept db Follows Follows-refl Follows-trans

  abbrev FollowIn : {B : Type 0} → Action S B → Type 0
  FollowIn = Keeps.Keeps db Follows Follows-refl Follows-trans

  read_webhook-found :
      (livemode : Bool) {tenant_id : Key} {p : Payment} {t : Transition}
      → read_webhook db livemode seen event ≡ ok (known tenant_id p t)
      → db.payment.find_first
          (names_payment tenant_id event.account (payment_ids event.object))
          seen.payments
        ≡ some p
  unfolding read_webhook
  read_webhook-found livemode h = ground arith

  read_webhook-transition :
      (livemode : Bool) {tenant_id : Key} {p : Payment} {t : Transition}
      → read_webhook db livemode seen event ≡ ok (known tenant_id p t)
      → transition (event_type event.type) event.object p ≡ ok t
  unfolding read_webhook
  read_webhook-transition livemode {tenant_id = tenant_id} {p = p} {t = t} h =
      elim (Bool-cases (is_other (event_type event.type))) [
        | inl e ↦ let never : ok ignored ≡ ok (known tenant_id p t) = rw e at h in cc
        | inr e ↦
            let (_, _, h1) = and_then-ok live after_live (rw e at h) in
            let (tenant, _, h2) = and_then-ok of_account after_account h1 in
            let (x, _, h3) = and_then-ok (of_payment tenant) (after_payment tenant) h2 in
            let (u, made, h4) =
              and_then-ok (transition (event_type event.type) event.object x)
                (λ v. ok (known tenant.id x v)) h3 in
            conclude h4 made
      ]
    where
      live : Result (Unit {0})
      live =
          check (not (bool_eq event.livemode livemode))
            (unprocessable "Stripe webhook mode does not match the configured environment.")

      of_account : Result Tenant
      of_account =
          ok_or (webhook_tenant db event seen) (not_found "Webhook account is not recognized.")

      of_payment : Tenant → Result Payment
      of_payment tenant =
          ok_or
            (db.payment.find_first
              (names_payment tenant.id event.account (payment_ids event.object)) seen.payments)
            (not_found "Webhook payment is not recognized.")

      after_payment : Tenant → Payment → Result Reading
      after_payment tenant x =
          and_then (transition (event_type event.type) event.object x) λ v. ok (known tenant.id x v)

      after_account : Tenant → Result Reading
      after_account tenant = and_then (of_payment tenant) (after_payment tenant)

      after_live : Unit {0} → Result Reading
      after_live _ = and_then of_account after_account

      conclude :
          {i k : Key} {x : Payment} {u : Transition}
          → ok (known i x u) ≡ ok (known k p t)
          → transition (event_type event.type) event.object x ≡ ok u
          → transition (event_type event.type) event.object p ≡ ok t
      conclude e made = cc

  transition-Follows :
      (now : Instant) (tenant_id : Key) (p row : Payment) (t : Transition)
      → IsFound p
      → transition (event_type event.type) event.object p ≡ ok t
      → (text_eq row.id p.id && text_eq row.tenant_id tenant_id) ≡ true
      → Follows row (record (apply_transition t row) { updated_at = now })
  transition-Follows now tenant_id p row t found made hit =
      let (its, _) = &&-cases (text_eq row.id p.id) (text_eq row.tenant_id tenant_id) hit in
      (
        unfold apply_transition in refl,
        unfold apply_transition in refl,
        by_status (status_written t p row) (text_eq→eq row.id p.id its),
      )
    where
      by_status :
          ((apply_transition t row).status ≡ row.status)
            ⊎ ((apply_transition t row).status ≡ (apply_transition t p).status)
          → row.id ≡ p.id
          → ((apply_transition t row).status ≡ row.status)
            ⊎ ((x : Payment) × IsFound x
                × (x.id ≡ row.id)
                × (x.status ⇝ (apply_transition t row).status))
      by_status (inl same) its = inl same
      by_status (inr written) its =
          inr (
            p,
            found,
            sym its,
            rw written (transition-⇝ (event_type event.type) event.object p made),
          )

  create_stripe_event-Follows : (e : StripeEvent) → FollowIn (create_stripe_event db e)
  unfolding create_stripe_event
  create_stripe_event-Follows e = record {
    kept = Keeps.Kept-refl db Follows Follows-refl Follows-trans;
  }

  update_stripe_events-Follows :
      (q : StripeEvent → Bool) (f : StripeEvent → StripeEvent)
      → FollowIn (update_stripe_events db q f)
  unfolding update_stripe_events
  update_stripe_events-Follows q f = record {
    kept = Keeps.Kept-refl db Follows Follows-refl Follows-trans;
  }

  if_Follows :
      {B : Type 0} (b : Bool) (m n : Action S B)
      → FollowIn m
      → FollowIn n
      → FollowIn (if b then m else n)
  if_Follows true m n hm hn = hm
  if_Follows false m n hm hn = hn

  record_event-Follows :
      (now : Instant) (trace tenant_id : Key) (p : Payment) (t : Transition)
      → IsFound p
      → transition (event_type event.type) event.object p ≡ ok t
      → FollowIn (record_event db now trace tenant_id event p t)
  unfolding record_event record_new record_effects record_transition
  record_event-Follows now trace tenant_id p t found made =
      Keeps.Keeps-bind db Follows Follows-refl Follows-trans _ _
        (Keeps.Keeps-gets db Follows Follows-refl Follows-trans _)
        λ old.
          if_Follows (is_some old) _ _ (Keeps.Keeps-pure db Follows Follows-refl Follows-trans _) (
            Keeps.Keeps-then db Follows Follows-refl Follows-trans _ _
              (create_stripe_event-Follows _)
              (Keeps.Keeps-then db Follows Follows-refl Follows-trans _ _
                (Keeps.Keeps-when db Follows Follows-refl Follows-trans _ _ (
                  Keeps.Keeps-bind db Follows Follows-refl Follows-trans _ _
                    (Keeps.Keeps-update_payments db Follows Follows-refl Follows-trans _ _
                      (λ row hit. transition-Follows now tenant_id p row t found made hit))
                    λ count.
                      Keeps.Keeps-then db Follows Follows-refl Follows-trans _ _
                        (Keeps.Keeps-throw_if db Follows Follows-refl Follows-trans _ _)
                        (Keeps.Keeps-create_audit db Follows Follows-refl Follows-trans _)))
                (Keeps.Keeps-bind db Follows Follows-refl Follows-trans _ _
                  (update_stripe_events-Follows _ _)
                  λ count. Keeps.Keeps-pure db Follows Follows-refl Follows-trans _)))

  deliver-Follows :
      (now : Instant) (trace : Key) (r : Result Reading)
      → ((tenant_id : Key) (p : Payment) (t : Transition)
          → r ≡ ok (known tenant_id p t)
          → IsFound p × (transition (event_type event.type) event.object p ≡ ok t))
      → (s : S) → FollowAll s (after (deliver db now trace event) (r, s)).1
  unfolding deliver store_effects
  deliver-Follows now trace (err e) read s = Keeps.Kept-refl db Follows Follows-refl Follows-trans s
  deliver-Follows now trace (ok ignored) read s =
      Keeps.Kept-refl db Follows Follows-refl Follows-trans s
  deliver-Follows now trace (ok (known tenant_id p t)) read s =
      let (found, made) = read tenant_id p t refl in
      (Keeps.Keeps-transaction db Follows Follows-refl Follows-trans _
          (record_event-Follows now trace tenant_id p t found made)).kept
        s

  -- Delivering an event changes the status of no stored payment but the one that it found when the payments
  -- were read, and that one only to a status that an edge of the diagram reaches from the status that was
  -- read: it pays what was not refunded when it was read, and fails or cancels only what was pending then.
  -- Other requests may have committed anything since; of the status that the payment has by then nothing
  -- is said.
  pub receive-Follows :
      (now : Instant) (trace : Key) (livemode : Bool) (s : S)
      → FollowAll s (receive db now trace livemode seen event s).1
  unfolding receive store_effects
  receive-Follows now trace livemode s =
      deliver-Follows now trace (read_webhook db livemode seen event)
        (λ tenant_id p t r.
          ((tenant_id, read_webhook-found livemode r), read_webhook-transition livemode r))
        s
