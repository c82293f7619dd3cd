-- ===== src/Data/Rows.antt =====
-- prisma/schema.prisma: the rows of the tables, with the columns that the modelled services use.
use signmons_calldesk_backen.Base.{Bool, Option, Instant, ℕ}
use signmons_calldesk_backen.Base.Text.{Text, Key}
use signmons_calldesk_backen.Base.Json.{Json}
use signmons_calldesk_backen.Data.Enums.{
  JobStatus, TechnicianJobStatus, JobUrgency, PaymentStatus, RefundStatus, StripeEventStatus,
  SubscriptionStatus,
}

pub record Job : Type 0 where
  pub id : Key
  pub tenant_id : Key
  pub customer_id : Key
  pub service_category_id : Key
  pub assigned_user_id : Option Key
  pub assigned_user_tenant_id : Option Key
  pub status : JobStatus
  pub technician_status : Option TechnicianJobStatus
  pub technician_status_updated_at : Option Instant
  pub urgency : JobUrgency
  pub intake_session_id : Option Key
  pub pricing_snapshot : Json
  pub policy_snapshot : Json
  pub preferred_time_text : Option Text
  pub service_window_start : Option Instant
  pub service_window_end : Option Instant
  pub calendar_event_id : Option Key
  pub accepted_at : Option Instant
  pub completed_at : Option Instant
  pub updated_at : Instant
  pub deleted_at : Option Instant

pub record Payment : Type 0 where
  pub id : Key
  pub tenant_id : Key
  pub job_id : Key
  pub status : PaymentStatus
  pub stripe_payment_intent_id : Option Key
  pub stripe_checkout_session_id : Option Key
  pub request_key_hash : Option Key
  pub checkout_expires_at : Option Instant
  pub requested_at : Option Instant
  pub stripe_charge_id : Option Key
  pub destination_account_id : Option Key
  pub amount_total_cents : ℕ
  pub application_fee_amount_cents : ℕ
  pub currency : Text
  pub refund_status : RefundStatus
  pub refund_amount_cents : Option ℕ
  pub stripe_refund_id : Option Key
  pub refund_reason : Option Text
  pub updated_at : Instant

pub record Tenant : Type 0 where
  pub id : Key
  pub stripe_connect_account_id : Option Key
  pub charges_enabled : Bool

pub record Subscription : Type 0 where
  pub tenant_id : Key
  pub plan_id : Text
  pub status : SubscriptionStatus
  pub current_period_start : Instant
  pub current_period_end : Instant

pub record StripeEvent : Type 0 where
  pub tenant_id : Key
  pub stripe_event_id : Key
  pub type : Text
  pub payment_id : Key
  pub created : Json
  pub processing_status : StripeEventStatus
  pub processed_at : Option Instant
