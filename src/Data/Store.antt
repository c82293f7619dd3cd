-- ===== src/Data/Store.antt =====
-- The state that the services share: one table for each model of prisma/schema.prisma. What a table
-- is kept as belongs to the database, so the six types are parameters.
use signmons_calldesk_backen.Base.{ℕ, Bool, List, Action, ok, effects}
use signmons_calldesk_backen.Base.Table.{Table, list_table}
use signmons_calldesk_backen.Base.Audit.{Audit}
use signmons_calldesk_backen.Data.Rows.{Job, Payment, Tenant, Subscription, StripeEvent}

pub record Store (J P T U E A : Type 0) : Type 0 where
  pub jobs : J
  pub payments : P
  pub tenants : T
  pub subscriptions : U
  pub stripe_events : E
  pub audits : A

-- The client's calls on each table.
pub record Client (J P T U E A : Type 0) : Type 0 where
  pub job : Table J Job
  pub payment : Table P Payment
  pub tenant : Table T Tenant
  pub subscription : Table U Subscription
  pub stripe_event : Table E StripeEvent
  pub audit_log : Table A Audit

abbrev pub ListStore : Type 0
ListStore =
    Store (List Job) (List Payment) (List Tenant) (List Subscription) (List StripeEvent)
      (List Audit)

-- The client over tables that are lists.
abbrev pub list_client :
    Client
      (List Job)
      (List Payment)
      (List Tenant)
      (List Subscription)
      (List StripeEvent)
      (List Audit)
list_client = record {
  job = list_table Job;
  payment = list_table Payment;
  tenant = list_table Tenant;
  subscription = list_table Subscription;
  stripe_event = list_table StripeEvent;
  audit_log = list_table Audit;
}

-- The client's calls as actions on the store.
module _ {J P T U E A : Type 0} (db : Client J P T U E A) where
  unfoldable pub update_jobs : (Job → Bool) → (Job → Job) → Action (Store J P T U E A) ℕ
  update_jobs p f s =
      let (n, jobs') = db.job.update_many p f s.jobs in (ok n, record s { jobs = jobs' })

  unfoldable pub update_payments :
      (Payment → Bool) → (Payment → Payment) → Action (Store J P T U E A) ℕ
  update_payments p f s =
      let (n, payments') = db.payment.update_many p f s.payments in
      (ok n, record s { payments = payments' })

  unfoldable pub create_payment : Payment → Action (Store J P T U E A) (Unit {0})
  create_payment r s = (ok tt, record s { payments = db.payment.create r s.payments })

  unfoldable pub create_audit : Audit → Action (Store J P T U E A) (Unit {0})
  create_audit a s = (ok tt, record s { audits = db.audit_log.create a s.audits })

  unfoldable pub create_stripe_event : StripeEvent → Action (Store J P T U E A) (Unit {0})
  create_stripe_event e s =
      (ok tt, record s { stripe_events = db.stripe_event.create e s.stripe_events })

  unfoldable pub update_stripe_events :
      (StripeEvent → Bool) → (StripeEvent → StripeEvent) → Action (Store J P T U E A) ℕ
  update_stripe_events p f s =
      let (n, events') = db.stripe_event.update_many p f s.stripe_events in
      (ok n, record s { stripe_events = events' })

-- Named on an `unfolding` line, it opens the calls above and the effects.
unfoldable pub store_effects : Unit {0}
unfolding effects update_jobs update_payments create_payment create_audit create_stripe_event
    update_stripe_events
store_effects = tt
