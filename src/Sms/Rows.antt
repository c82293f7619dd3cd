-- ===== src/Sms/Rows.antt =====
-- prisma/schema.prisma: the rows behind SMS consent and delivery, and the part of the configuration
-- that the two services read.
use signmons_calldesk_backen.Base.{
  ℕ, Bool, Option, Instant, List, Action, ok, is_some, if◌then◌else◌, effects,
}
use signmons_calldesk_backen.Base.Text.{Text, Key}
use signmons_calldesk_backen.Base.Table.{Table, list_table}
use signmons_calldesk_backen.Base.Audit.{Audit}

pub data SmsConsentStatus : Type 0 where
  opted_in opted_out : SmsConsentStatus

pub data SmsConsentSource : Type 0 where
  verbal keyword : SmsConsentSource

pub record SmsConsentRecord : Type 0 where
  pub tenant_id : Key
  pub phone_hash : Key
  pub status : SmsConsentStatus
  pub source : SmsConsentSource
  pub disclosure_version : Text
  pub evidence_at : Instant

pub record Customer : Type 0 where
  pub tenant_id : Key
  pub phone : Text
  pub consent_to_text : Bool
  pub consent_to_text_at : Option Instant

pub data CommunicationStatus : Type 0 where
  queued sending sent delivered failed dead_letter received : CommunicationStatus

pub data CommunicationChannel : Type 0 where
  sms voice webchat email push : CommunicationChannel

pub data CommunicationDirection : Type 0 where
  inbound outbound : CommunicationDirection

pub data CommunicationProvider : Type 0 where
  twilio sendgrid fcm other : CommunicationProvider

-- An event with its content: `request_hash` is the one of `content.payload`.
pub record CommunicationEvent : Type 0 where
  pub id : Key
  pub tenant_id : Key
  pub job_id : Option Key
  pub channel : CommunicationChannel
  pub direction : CommunicationDirection
  pub provider : CommunicationProvider
  pub external_id : Option Key
  pub idempotency_key_hash : Option Key
  pub status : CommunicationStatus
  pub attempt_count : ℕ
  pub next_attempt_at : Option Instant
  pub terminal_at : Option Instant
  pub last_error_code : Option Text
  pub request_hash : Option Key
  pub encrypted_raw : Option Text

-- TwilioTenantIdentityConfig
pub record Identity : Type 0 where
  pub tenant_id : Key
  pub enabled : Bool
  pub environment : Key
  pub phone_number : Text
  pub time_zone : Key
  pub quiet_hours_start : ℕ
  pub quiet_hours_end : ℕ

pub record Store (C U M A : Type 0) : Type 0 where
  pub consents : C
  pub customers : U
  pub events : M
  pub audits : A

pub record Client (C U M A : Type 0) : Type 0 where
  pub consent : Table C SmsConsentRecord
  pub customer : Table U Customer
  pub event : Table M CommunicationEvent
  pub audit_log : Table A Audit

abbrev pub ListStore : Type 0
ListStore = Store (List SmsConsentRecord) (List Customer) (List CommunicationEvent) (List Audit)

abbrev pub list_client :
    Client (List SmsConsentRecord) (List Customer) (List CommunicationEvent) (List Audit)
list_client = record {
  consent = list_table SmsConsentRecord;
  customer = list_table Customer;
  event = list_table CommunicationEvent;
  audit_log = list_table Audit;
}

module _ {C U M A : Type 0} (db : Client C U M A) where
  unfoldable pub create_audit : Audit → Action (Store C U M A) (Unit {0})
  create_audit a s = (ok tt, record s { audits = db.audit_log.create a s.audits })

  unfoldable pub update_customers :
      (Customer → Bool) → (Customer → Customer) → Action (Store C U M A) ℕ
  update_customers p f s =
      let (n, customers') = db.customer.update_many p f s.customers in
      (ok n, record s { customers = customers' })

  unfoldable pub update_events :
      (CommunicationEvent → Bool)
      → (CommunicationEvent → CommunicationEvent)
      → Action (Store C U M A) ℕ
  update_events p f s =
      let (n, events') = db.event.update_many p f s.events in (ok n, record s { events = events' })

  unfoldable pub create_event : CommunicationEvent → Action (Store C U M A) (Unit {0})
  create_event e s = (ok tt, record s { events = db.event.create e s.events })

  -- `upsert`: the rows that fit are updated, and where there is none the new one is created.
  unfoldable pub upsert_consent :
      (SmsConsentRecord → Bool)
      → SmsConsentRecord
      → (SmsConsentRecord → SmsConsentRecord)
      → Action (Store C U M A) (Unit {0})
  upsert_consent p new f s =
      if is_some (db.consent.find_first p s.consents)
      then (ok tt, record s { consents = (db.consent.update_many p f s.consents).1 })
      else (ok tt, record s { consents = db.consent.create new s.consents })

-- Named on an `unfolding` line, it opens the calls above and the effects.
unfoldable pub store_effects : Unit {0}
unfolding effects create_audit update_customers update_events create_event upsert_consent
store_effects = tt
