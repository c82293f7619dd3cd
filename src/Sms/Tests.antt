-- ===== src/Sms/Tests.antt =====
-- The theorems on text messages, applied to small inputs.
use signmons_calldesk_backen.Base.{
  ◌+◌, ◌-◌, ◌%◌, ◌<◌, true, false, none, some, List, [], ◌∷◌, All, find, ◌≡◌, ◌≢◌, ◌↔◌, refl,
  Result, ok, err, arith, bad_request, conflict,
}
use signmons_calldesk_backen.Base.Text.{codes, text_eq}
use signmons_calldesk_backen.Base.Json.{str, obj, field, end}
use signmons_calldesk_backen.Base.Table.{Extends}
use signmons_calldesk_backen.Sms.Rows.{
  SmsConsentSource, SmsConsentRecord, opted_in, CommunicationStatus, CommunicationChannel,
  CommunicationDirection, CommunicationProvider, CommunicationEvent, Identity, ListStore,
  list_client,
}
use signmons_calldesk_backen.Sms.Keywords.{
  Inbound, stop, inbound_keyword, is_quiet_hour, is_e164, allowed,
}
use signmons_calldesk_backen.Sms.Consent.{handle_inbound_keyword, evaluate_outbound, find_consent}
use signmons_calldesk_backen.Sms.Consent.Quiet.{is_quiet_hour_iff}
use signmons_calldesk_backen.Sms.Consent.OptOut.{handle_inbound_keyword-evaluate_outbound}
use signmons_calldesk_backen.Sms.Events.{
  Replay, Platform, Outgoing, SendOutcome, accepted, Callback, outgoing, event_key, is_claimable,
  claim,
}
use signmons_calldesk_backen.Sms.Delivery.{deliver, prepare}
use signmons_calldesk_backen.Sms.Delivery.Service.{Call, of_deliver, make_all, apply_status}
use signmons_calldesk_backen.Sms.Delivery.Attempts.{WithinLimit, make_all-WithinLimit}
use signmons_calldesk_backen.Sms.Delivery.Callbacks.{Advances, apply_status-Advances}
use signmons_calldesk_backen.Sms.Delivery.Replays.{Replays}
use signmons_calldesk_backen.Sms.Delivery.Outcomes.{Holds}
use signmons_calldesk_backen.Sms.Delivery.Claims.{
  claimed_store, IsOnly, deliver-refused, deliver-deliver,
}
use signmons_calldesk_backen.Sms.Delivery.Suppression.{
  IsAllowed, prepare-IsAllowed, prepare-handle_inbound_keyword,
}

abbrev consent_one : SmsConsentRecord
consent_one = record {
  tenant_id = codes "t1";
  phone_hash = codes "+14155550100";
  status = opted_in;
  source = SmsConsentSource.verbal;
  disclosure_version = codes "v1";
  evidence_at = 1;
}

abbrev identity_one : Identity
identity_one = record {
  tenant_id = codes "t1";
  enabled = true;
  environment = codes "test";
  phone_number = codes "+14155550199";
  time_zone = codes "UTC";
  quiet_hours_start = 21;
  quiet_hours_end = 8;
}

abbrev event_one : CommunicationEvent
event_one = record {
  id = codes "e1";
  tenant_id = codes "t1";
  job_id = none;
  channel = CommunicationChannel.sms;
  direction = CommunicationDirection.outbound;
  provider = CommunicationProvider.twilio;
  external_id = none;
  idempotency_key_hash = some (codes "k1");
  status = CommunicationStatus.queued;
  attempt_count = 0;
  next_attempt_at = none;
  terminal_at = none;
  last_error_code = none;
  request_hash = some (codes "h1");
  encrypted_raw = some (codes "secret");
}

abbrev sent_event : CommunicationEvent
sent_event = record event_one {
  status = CommunicationStatus.sent;
  attempt_count = 1;
  external_id = some (codes "SM0123456789abcdef0123456789abcdef");
}

abbrev store_of : List CommunicationEvent → ListStore
store_of events = record {
  consents = consent_one ∷ [];
  customers = [];
  events = events;
  audits = [];
}

-- A platform whose digest is the number itself, at noon, with the given identities.
abbrev platform_with : List Identity → Platform
platform_with identities = record {
  digest = λ t value. value;
  local_hour = λ at zone. 12;
  request_text = λ to body job. to;
  encrypt = λ to body. body;
  decrypt = λ t. some t;
  parse_json = λ t. ok (obj (field "to" (str (codes "+14155550100")) (field "body" (str t) end)));
  hash_key_is_set = true;
  delivery_enabled = true;
  identities = identities;
  environment = codes "test";
}

abbrev platform_one : Platform
platform_one = platform_with (identity_one ∷ [])

abbrev stop_message : Inbound
stop_message = record {
  tenant_id = codes "t1";
  phone_number = codes "+14155550100";
  body = codes " stop ";
  opt_out_type = none;
  display_name = codes "Plumber";
  support_phone = codes "+14155550111";
}

abbrev message_one : Outgoing
message_one = record {
  sender = codes "+14155550199";
  recipient = codes "+14155550100";
  body = codes "secret";
}

abbrev send_one : Outgoing → SendOutcome
send_one m = accepted (codes "SM0123456789abcdef0123456789abcdef")

is_quiet_hour_iff_example :
    (is_quiet_hour 23 21 8 ≡ true) ↔ ((23 + 24 - 21) % 24 < (8 + 24 - 21) % 24)
is_quiet_hour_iff_example = is_quiet_hour_iff 23 21 8 (omega arith) (omega arith) (omega arith)

says_stop : inbound_keyword stop_message ≡ stop
unfolding inbound_keyword
says_stop = refl

handle_inbound_keyword-evaluate_outbound_example :
    evaluate_outbound list_client
      (λ t value. value)
      true
      (λ at zone. 12)
      (codes "t1")
      (codes "+14155550100")
      identity_one
      9
      (handle_inbound_keyword list_client (λ t value. value) true 5 stop_message (store_of [])).1
    ≢ ok allowed
handle_inbound_keyword-evaluate_outbound_example =
    handle_inbound_keyword-evaluate_outbound list_client (λ t value. value) true 5 stop_message
      (store_of []) (λ at zone. 12) identity_one 9 says_stop

prepare-handle_inbound_keyword_example :
    prepare list_client platform_one 9
      (codes "t1")
      event_one
      (handle_inbound_keyword list_client (λ t value. value) true 5 stop_message (store_of [])).1
    ≢ ok (outgoing message_one)
prepare-handle_inbound_keyword_example =
    prepare-handle_inbound_keyword list_client platform_one 5 9 stop_message event_one message_one
      (store_of []) says_stop refl

message_ready :
    prepare list_client platform_one 9 (codes "t1") event_one (store_of (event_one ∷ []))
    ≡ ok (outgoing message_one)
unfolding prepare text_eq evaluate_outbound find_consent is_e164
message_ready = refl

prepare-IsAllowed_example :
    IsAllowed list_client platform_one 9 (codes "t1") message_one (store_of (event_one ∷ []))
prepare-IsAllowed_example =
    prepare-IsAllowed list_client platform_one 9 (codes "t1") event_one message_one
      (store_of (event_one ∷ [])) message_ready

abbrev calls_one : List (Call ListStore)
calls_one =
    of_deliver 10 send_one (codes "t1") (codes "e1")
    ∷ of_deliver 11 send_one (codes "t1") (codes "e1")
    ∷ []

make_all-WithinLimit_example :
    WithinLimit list_client platform_one
      (make_all list_client platform_one calls_one (store_of (event_one ∷ [])))
make_all-WithinLimit_example =
    make_all-WithinLimit list_client platform_one calls_one (store_of (event_one ∷ []))
      (omega arith, tt)

abbrev delivered_report : Callback
delivered_report = record {
  tenant_id = codes "t1";
  external_id = codes "SM0123456789abcdef0123456789abcdef";
  provider_status = codes "delivered";
  error_code = none;
}

events_keyed :
    All (λ e. find (event_key e.tenant_id e.id) (sent_event ∷ []) ≡ some e) (sent_event ∷ [])
unfolding text_eq
events_keyed = (refl, tt)

-- What another request made of the event since it was read.
abbrev failed_event : CommunicationEvent
failed_event = record sent_event { status = CommunicationStatus.failed }

apply_status-Advances_example :
    Extends
      (Advances (sent_event ∷ []))
      (failed_event ∷ [])
      (apply_status list_client platform_one 20
        (store_of (sent_event ∷ []))
        delivered_report
        (store_of (failed_event ∷ []))).1.events
apply_status-Advances_example =
    apply_status-Advances list_client platform_one 20 (store_of (sent_event ∷ [])) delivered_report
      (store_of (failed_event ∷ [])) events_keyed

-- A dead letter that another request has replayed and claimed since it was read.
abbrev dead_event : CommunicationEvent
dead_event = record event_one { status = CommunicationStatus.dead_letter; attempt_count = 3 }

abbrev sending_event : CommunicationEvent
sending_event = record event_one { status = CommunicationStatus.sending; attempt_count = 1 }

abbrev replay_one : Replay
replay_one = record {
  tenant_id = codes "t1";
  event_id = codes "e1";
  actor_id = codes "u1";
  acknowledge_duplicate_risk = true;
  reason = codes "the carrier is back";
}

event_free : is_claimable event_one ≡ true
unfolding is_claimable
event_free = refl

sent-IsOnly : IsOnly list_client platform_one (codes "t1") (codes "e1") (store_of (sent_event ∷ []))
unfolding text_eq
sent-IsOnly = refl

sent_held :
    Holds list_client platform_one (codes "t1") (codes "e1") sent_event (store_of (sent_event ∷ []))
unfolding text_eq
sent_held = refl

sent_busy : is_claimable sent_event ≡ false
unfolding is_claimable
sent_busy = refl

deliver-refused_example :
    ((deliver list_client platform_one 10 send_one
        (codes "t1")
        (codes "e1")
        (store_of (sent_event ∷ []))).0
      ≡ err (conflict "SMS delivery is not claimable."))
    × ((deliver list_client platform_one 10 send_one
          (codes "t1")
          (codes "e1")
          (store_of (sent_event ∷ []))).1.events
        ≡ sent_event ∷ [])
deliver-refused_example =
    deliver-refused list_client platform_one 10 send_one (codes "t1") (codes "e1") sent_event
      (store_of (sent_event ∷ [])) sent-IsOnly sent_held sent_busy

-- A platform on which the tenant has no sending identity.
abbrev no_identity : Platform
no_identity = platform_with []

nobody_sends :
    prepare list_client no_identity 10
      (codes "t1")
      (claim event_one)
      (claimed_store list_client no_identity (codes "t1") (codes "e1") (store_of (event_one ∷ [])))
    ≡ err (bad_request "Tenant SMS identity is unavailable.")
unfolding prepare claim
nobody_sends = refl

lonely : IsOnly list_client no_identity (codes "t1") (codes "e1") (store_of (event_one ∷ []))
unfolding text_eq
lonely = refl

lonely_held :
    Holds list_client no_identity (codes "t1") (codes "e1") event_one (store_of (event_one ∷ []))
unfolding text_eq
lonely_held = refl

abbrev first_attempt : Result CommunicationStatus × ListStore
first_attempt =
    deliver list_client no_identity 10 send_one (codes "t1") (codes "e1")
      (store_of (event_one ∷ []))

deliver-deliver_example :
    (first_attempt.0 ≡ err (bad_request "Tenant SMS identity is unavailable."))
    × ((deliver list_client no_identity 90 send_one (codes "t1") (codes "e1") first_attempt.1).0
        ≡ err (conflict "SMS delivery is not claimable."))
    × Holds list_client no_identity
        (codes "t1")
        (codes "e1")
        (claim event_one)
        (deliver list_client no_identity 90 send_one (codes "t1") (codes "e1") first_attempt.1).1
deliver-deliver_example =
    deliver-deliver list_client no_identity 10 90 send_one send_one (codes "t1") (codes "e1")
      event_one (store_of (event_one ∷ [])) (bad_request "Tenant SMS identity is unavailable.")
      lonely lonely_held event_free nobody_sends
