-- ===== src/Payments/Webhooks/Receive.antt =====
-- payments/stripe-webhooks.service.ts: `receive`, from the verified event on. The payment is read
-- before the transaction begins: `seen` is the state that was read.
use signmons_calldesk_backen.Base.{
  Bool, true, false, not, ◌&&◌, Option, none, some, is_some, if◌then◌else◌, ◌==◌, Instant, Result,
  ok, not_found, unprocessable, unexpected, Action, pure, throw_if, lift, gets, when, transaction,
  ◌>>=◌, ◌>>◌, coalesce, and_then, check, ok_or, String, [], ◌∷◌,
}
use signmons_calldesk_backen.Base.Text.{Key, text_eq, opt_text_eq}
use signmons_calldesk_backen.Base.Audit.{Audit, Detail, webhook, named}
use signmons_calldesk_backen.Data.Enums.{PaymentStatus, RefundStatus, StripeEventStatus}
use signmons_calldesk_backen.Data.Rows.{Payment, Tenant, StripeEvent}
use signmons_calldesk_backen.Data.Store.{
  Store, Client, update_payments, create_audit, create_stripe_event, update_stripe_events,
}
use signmons_calldesk_backen.Payments.Webhooks.{
  WebhookEvent, EventType, event_type, other, Transition, transition, apply_transition,
  changes_payment, payment_ids, names_payment,
}

pub record Receipt : Type 0 where
  pub handled : Bool
  pub duplicate : Bool

abbrev status_name : PaymentStatus → String
status_name PaymentStatus.pending = "PENDING"
status_name PaymentStatus.succeeded = "SUCCEEDED"
status_name PaymentStatus.failed = "FAILED"
status_name PaymentStatus.refunded = "REFUNDED"
status_name PaymentStatus.canceled = "CANCELED"

abbrev refund_name : RefundStatus → String
refund_name RefundStatus.none = "NONE"
refund_name RefundStatus.partial = "PARTIAL"
refund_name RefundStatus.full = "FULL"

webhook_audit : Key → WebhookEvent → Payment → Transition → Key → Audit
webhook_audit tenant_id event p t trace = record {
  tenant_id = tenant_id;
  action = "payment.webhook_transitioned";
  actor_type = webhook;
  actor_id = named "stripe";
  entity_type = "Payment";
  entity_id = p.id;
  metadata =
      ("jobId", Detail.text p.job_id)
      ∷ ("eventType", Detail.text event.type)
      ∷ ("previousStatus", Detail.word (status_name p.status))
      ∷ ("status", Detail.word (status_name (coalesce t.status p.status)))
      ∷ ("refundStatus", Detail.word (refund_name (coalesce t.refund_status p.refund_status)))
      ∷ [];
  trace_id = some trace;
}

unfoldable pub pending_event : Key → WebhookEvent → Payment → StripeEvent
pending_event tenant_id event p = record {
  tenant_id = tenant_id;
  stripe_event_id = event.id;
  type = event.type;
  payment_id = p.id;
  created = event.created;
  processing_status = StripeEventStatus.pending;
  processed_at = none;
}

-- `@@unique([tenantId, stripeEventId])`
abbrev pub is_event_row : Key → Key → StripeEvent → Bool
is_event_row tenant_id id e = text_eq e.stripe_event_id id && text_eq e.tenant_id tenant_id

unfoldable pub mark_processed : Instant → StripeEvent → StripeEvent
mark_processed now e = record e {
  processing_status = StripeEventStatus.processed;
  processed_at = some now;
}

abbrev pub is_other : EventType → Bool
is_other other = true
is_other _ = false

abbrev pub bool_eq : Bool → Bool → Bool
bool_eq true b = b
bool_eq false b = not b

-- An event that is not handled, or the tenant, the payment and the transition of one that is.
pub data Reading : Type 0 where
  ignored : Reading
  known : Key → Payment → Transition → Reading

module _ {J P T U E A : Type 0} (db : Client J P T U E A) where
  abbrev S : Type 0
  S = Store J P T U E A

  -- The update of the payment and its entry in the audit log.
  unfoldable pub record_transition :
      Instant → Key → Key → WebhookEvent → Payment → Transition → Action S (Unit {0})
  unfolding webhook_audit
  record_transition now trace tenant_id event p t = do
    count ←
        update_payments db (λ row. text_eq row.id p.id && text_eq row.tenant_id tenant_id)
          (λ row. record (apply_transition t row) { updated_at = now })
    throw_if (count == 0) unexpected
    create_audit db (webhook_audit tenant_id event p t trace)

  -- What follows the insertion of a new event.
  unfoldable pub record_effects :
      Instant → Key → Key → WebhookEvent → Payment → Transition → Action S Receipt
  unfolding record_transition mark_processed
  record_effects now trace tenant_id event p t = do
    when (changes_payment t) (record_transition now trace tenant_id event p t)
    count ← update_stripe_events db (is_event_row tenant_id event.id) (mark_processed now)
    pure (record { handled = true; duplicate = false })

  -- The writes of the transaction for an event that was not seen before.
  unfoldable pub record_new :
      Instant → Key → Key → WebhookEvent → Payment → Transition → Action S Receipt
  unfolding pending_event record_effects
  record_new now trace tenant_id event p t =
      create_stripe_event db (pending_event tenant_id event p)
      >> record_effects now trace tenant_id event p t

  -- The callback of the transaction, with `skipDuplicates` read as: no row if there is one.
  unfoldable pub record_event :
      Instant → Key → Key → WebhookEvent → Payment → Transition → Action S Receipt
  record_event now trace tenant_id event p t = do
    old ← gets (λ s. db.stripe_event.find_first (is_event_row tenant_id event.id) s.stripe_events)
    if is_some old
        then pure (record { handled = true; duplicate = true })
        else record_new now trace tenant_id event p t

  -- The tenant whose connected account the event names.
  unfoldable pub webhook_tenant : WebhookEvent → S → Option Tenant
  webhook_tenant event s =
      db.tenant.find_first (λ t. opt_text_eq t.stripe_connect_account_id (some event.account))
        s.tenants

  -- The checks and the reads that come before the transaction.
  unfoldable pub read_webhook : Bool → S → WebhookEvent → Result Reading
  read_webhook livemode seen event =
      if is_other (event_type event.type)
      then ok ignored
      else and_then
          (check (not (bool_eq event.livemode livemode))
            (unprocessable "Stripe webhook mode does not match the configured environment."))
          λ _.
            and_then
              (ok_or (webhook_tenant event seen) (not_found "Webhook account is not recognized."))
              λ tenant.
                and_then
                  (ok_or
                    (db.payment.find_first
                      (names_payment tenant.id event.account (payment_ids event.object))
                      seen.payments)
                    (not_found "Webhook payment is not recognized."))
                  λ p.
                    and_then (transition (event_type event.type) event.object p)
                      λ t. ok (known tenant.id p t)

  -- What follows the reads.
  unfoldable pub deliver : Instant → Key → WebhookEvent → Reading → Action S Receipt
  deliver now trace event ignored = pure (record { handled = false; duplicate = false })
  deliver now trace event (known tenant_id p t) =
      transaction (record_event now trace tenant_id event p t)

  unfoldable pub receive : Instant → Key → Bool → S → WebhookEvent → Action S Receipt
  unfolding read_webhook deliver
  receive now trace livemode seen event = do
    reading ← lift (read_webhook livemode seen event)
    deliver now trace event reading
