-- ===== src/Data/Enums.antt =====
-- prisma/schema.prisma: the enumerations.
use signmons_calldesk_backen.Base.{Bool, true, false}

pub data JobStatus : Type 0 where
  created offered accepted declined expired in_progress completed cancelled : JobStatus

pub data TechnicianJobStatus : Type 0 where
  assigned accepted en_route in_progress completed : TechnicianJobStatus

pub data JobUrgency : Type 0 where
  standard high emergency : JobUrgency

pub data PaymentStatus : Type 0 where
  pending succeeded failed refunded canceled : PaymentStatus

pub data RefundStatus : Type 0 where
  none partial full : RefundStatus

pub data StripeEventStatus : Type 0 where
  pending processed failed : StripeEventStatus

pub data SubscriptionStatus : Type 0 where
  trialing active past_due canceled unpaid : SubscriptionStatus

-- `===` on the enumerations.
abbrev pub job_status_eq : JobStatus → JobStatus → Bool
job_status_eq JobStatus.created JobStatus.created = true
job_status_eq JobStatus.offered JobStatus.offered = true
job_status_eq JobStatus.accepted JobStatus.accepted = true
job_status_eq JobStatus.declined JobStatus.declined = true
job_status_eq JobStatus.expired JobStatus.expired = true
job_status_eq JobStatus.in_progress JobStatus.in_progress = true
job_status_eq JobStatus.completed JobStatus.completed = true
job_status_eq JobStatus.cancelled JobStatus.cancelled = true
job_status_eq _ _ = false

abbrev pub payment_status_eq : PaymentStatus → PaymentStatus → Bool
payment_status_eq PaymentStatus.pending PaymentStatus.pending = true
payment_status_eq PaymentStatus.succeeded PaymentStatus.succeeded = true
payment_status_eq PaymentStatus.failed PaymentStatus.failed = true
payment_status_eq PaymentStatus.refunded PaymentStatus.refunded = true
payment_status_eq PaymentStatus.canceled PaymentStatus.canceled = true
payment_status_eq _ _ = false

abbrev pub urgency_eq : JobUrgency → JobUrgency → Bool
urgency_eq JobUrgency.standard JobUrgency.standard = true
urgency_eq JobUrgency.high JobUrgency.high = true
urgency_eq JobUrgency.emergency JobUrgency.emergency = true
urgency_eq _ _ = false
