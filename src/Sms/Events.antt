-- ===== src/Sms/Events.antt =====
-- communications/sms-delivery.service.ts: the statuses of an event, what each step does to a row, and the
-- requests, answers and settings that the service works with.
use signmons_calldesk_backen.Base.{
  ℕ, ◌+◌, ◌-◌, ◌*◌, ◌^◌, Bool, true, false, ◌&&◌, ◌||◌, Option, none, some, if◌then◌else◌, ltb,
  ◌==◌, Instant, Result, ok, err, bad_request, conflict, List, [], ◌∷◌,
}
use signmons_calldesk_backen.Base.Text.{
  Text, Key, codes, text_eq, truthy, one_of, is_hex, fits, times,
}
use signmons_calldesk_backen.Base.Json.{Json}
use signmons_calldesk_backen.Sms.Rows.{
  CommunicationProvider, twilio, CommunicationStatus, queued, sending, sent, delivered, failed,
  dead_letter, CommunicationChannel, CommunicationDirection, outbound, CommunicationEvent, Identity,
}
use signmons_calldesk_backen.Sms.Keywords.{
  OutboundConsentDecision, allowed, no_consent, opted_out_earlier, quiet_hours,
}

abbrev pub max_attempts : ℕ
max_attempts = 3

abbrev pub is_queued : CommunicationStatus → Bool
is_queued queued = true
is_queued _ = false

abbrev pub is_failed : CommunicationStatus → Bool
is_failed failed = true
is_failed _ = false

abbrev pub is_dead_letter : CommunicationStatus → Bool
is_dead_letter dead_letter = true
is_dead_letter _ = false

abbrev pub is_final : CommunicationStatus → Bool
is_final delivered = true
is_final dead_letter = true
is_final _ = false

abbrev pub is_twilio : CommunicationProvider → Bool
is_twilio twilio = true
is_twilio _ = false

-- `channel: SMS, direction: OUTBOUND`
abbrev pub is_outbound_sms : CommunicationEvent → Bool
is_outbound_sms e = go e.channel e.direction
  where
    go : CommunicationChannel → CommunicationDirection → Bool
    go CommunicationChannel.sms outbound = true
    go _ _ = false

unfoldable pub map_status : Text → Result CommunicationStatus
unfolding text_eq one_of
map_status t =
    if text_eq t (codes "delivered")
    then ok delivered
    else if text_eq t (codes "failed") || text_eq t (codes "undelivered")
    then ok dead_letter
    else if one_of t (codes "accepted" ∷ codes "queued" ∷ codes "sending" ∷ codes "sent" ∷ [])
    then ok sent
    else err (bad_request "SMS delivery status is invalid.")

unfoldable pub status_rank : CommunicationStatus → ℕ
status_rank delivered = 4
status_rank dead_letter = 3
status_rank sent = 2
status_rank _ = 1

-- `/^(SM|MM)[0-9a-f]{32}$/i`
unfoldable pub is_message_sid : Text → Bool
unfolding fits
is_message_sid t =
    let first = λ (c : ℕ). c == b's' || c == b'S' || c == b'm' || c == b'M' in
    fits (first ∷ (λ c. c == b'm' || c == b'M') ∷ times 32 is_hex []) t

-- `{ id_tenantId }`
abbrev pub event_key : Key → Key → CommunicationEvent → Bool
event_key tenant_id id e = text_eq e.tenant_id tenant_id && text_eq e.id id

-- The rows that an attempt may claim, and the claim.
unfoldable pub is_claimable : CommunicationEvent → Bool
is_claimable e = (is_queued e.status || is_failed e.status) && ltb e.attempt_count max_attempts

unfoldable pub claim : CommunicationEvent → CommunicationEvent
claim e = record e { status = sending; attempt_count = e.attempt_count + 1; next_attempt_at = none }

unfoldable pub bury : Instant → Text → CommunicationEvent → CommunicationEvent
bury now code e = record e {
  status = dead_letter;
  last_error_code = some code;
  terminal_at = some now;
  next_attempt_at = none;
}

unfoldable pub mark_sent : Key → CommunicationEvent → CommunicationEvent
mark_sent external_id e = record e {
  external_id = some external_id;
  status = sent;
  last_error_code = none;
}

-- `60_000 * 2 ** (attemptCount - 1)` milliseconds from now; a claimed event has made an attempt.
unfoldable pub put_off : Instant → Text → ℕ → CommunicationEvent → CommunicationEvent
put_off now code attempts e = record e {
  status = failed;
  last_error_code = some code;
  next_attempt_at = some (now + 60_000 * 2 ^ (attempts - 1));
}

unfoldable pub report :
    Instant → CommunicationStatus → Option Text → CommunicationEvent → CommunicationEvent
report now status code e = record e {
  status = status;
  last_error_code = code;
  terminal_at = if is_final status then some now else none;
}

unfoldable pub requeue : CommunicationEvent → CommunicationEvent
requeue e = record e {
  status = queued;
  attempt_count = 0;
  next_attempt_at = none;
  terminal_at = none;
  last_error_code = none;
  external_id = none;
}

-- What `provider.send` is given, besides the address of the callback.
pub record Outgoing : Type 0 where
  pub sender : Text
  pub recipient : Text
  pub body : Text

-- `refused` is a thrown SmsProviderError with its code and `safeToRetry`, `broken` any other error.
pub data SendOutcome : Type 0 where
  accepted : Key → SendOutcome
  refused : Text → Bool → SendOutcome
  broken : SendOutcome

-- What an attempt comes to before the provider is called: a code to bury it under, or a message.
pub data Prepared : Type 0 where
  unsendable : Text → Prepared
  outgoing : Outgoing → Prepared

abbrev pub suppressed : OutboundConsentDecision → Option Text
suppressed allowed = none
suppressed no_consent = some (codes "suppressed_no_consent")
suppressed opted_out_earlier = some (codes "suppressed_opted_out")
suppressed quiet_hours = some (codes "suppressed_quiet_hours")

abbrev pub refusal : OutboundConsentDecision → Result (Unit {0})
refusal allowed = ok tt
refusal no_consent = err (conflict "SMS suppressed: no_consent.")
refusal opted_out_earlier = err (conflict "SMS suppressed: opted_out.")
refusal quiet_hours = err (conflict "SMS suppressed: quiet_hours.")

-- What the service has from the platform and from the configuration.
pub record Platform : Type 0 where
  pub digest : Key → Text → Key
  pub local_hour : Instant → Key → ℕ
  pub request_text : Text → Text → Option Key → Text
  pub encrypt : Text → Text → Text
  pub decrypt : Text → Option Text
  pub parse_json : Text → Result Json
  pub hash_key_is_set : Bool
  pub delivery_enabled : Bool
  pub identities : List Identity
  pub environment : Key

pub record SmsRequest : Type 0 where
  pub tenant_id : Key
  pub to : Text
  pub body : Text
  pub idempotency_key : Text
  pub job_id : Option Key

pub record Replay : Type 0 where
  pub tenant_id : Key
  pub event_id : Key
  pub actor_id : Key
  pub acknowledge_duplicate_risk : Bool
  pub reason : Text

pub record Callback : Type 0 where
  pub tenant_id : Key
  pub external_id : Key
  pub provider_status : Text
  pub error_code : Option Text

-- `errorCode || null`
abbrev pub filled : Option Text → Option Text
filled none = none
filled (some t) = if truthy t then some t else none

abbrev pub enclose : Identity → Text → Text → Option Text → Prepared
enclose identity to body (some code) = unsendable code
enclose identity to body none =
    outgoing (record { sender = identity.phone_number; recipient = to; body = body })

-- `typeof message.to !== "string" || typeof message.body !== "string"`
abbrev pub with_content :
    Option Text → Option Text → (Text → Text → Result Prepared) → Result Prepared
with_content (some to) (some body) f = f to body
with_content _ _ f = ok (unsendable (codes "content_invalid"))

abbrev pub only_one : List Identity → Result Identity
only_one (i ∷ []) = ok i
only_one _ = err (bad_request "Tenant SMS identity is unavailable.")
