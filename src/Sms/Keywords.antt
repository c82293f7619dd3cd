-- ===== src/Sms/Keywords.antt =====
-- communications/sms-consent.service.ts: numbers, quiet hours and keywords, what a change of consent
-- records, and the answers.
use signmons_calldesk_backen.Base.{
  ℕ, ◌-◌, Bool, true, false, not, ◌&&◌, ◌||◌, Option, none, some, if◌then◌else◌, leb, ltb, ◌==◌,
  Instant, String, List, [], ◌∷◌, length, all, ◌++◌,
}
use signmons_calldesk_backen.Base.Text.{Text, Key, codes, text_eq, trim, is_digit}
use signmons_calldesk_backen.Base.Audit.{Audit, AuditActorType, Actor, named, webhook, Detail}
use signmons_calldesk_backen.Sms.Rows.{
  SmsConsentStatus, opted_in, opted_out, SmsConsentSource, verbal, keyword, SmsConsentRecord,
}

abbrev pub keyword_disclosure_version : Text
keyword_disclosure_version = codes "sms-keyword-v1"

pub data OutboundConsentDecision : Type 0 where
  allowed no_consent opted_out_earlier quiet_hours : OutboundConsentDecision

-- `/^\+[1-9]\d{7,14}$/`
unfoldable pub is_e164 : Text → Bool
is_e164 [] = false
is_e164 (plus ∷ []) = false
is_e164 (plus ∷ first ∷ rest) =
    plus == b'+'
    && (leb b'1' first && leb first b'9')
    && all is_digit rest
    && leb 7 (length rest)
    && leb (length rest) 14

unfoldable pub is_quiet_hour : ℕ → ℕ → ℕ → Bool
is_quiet_hour hour start end =
    if start == end
    then false
    else if ltb start end
    then leb start hour && ltb hour end
    else leb start hour || ltb hour end

-- `toUpperCase`, for ASCII letters and the other characters whose capitals are letters of a keyword:
-- the long s, and its two ligatures with t.
abbrev pub upper_units : ℕ → Text
upper_units c =
    if leb b'a' c && leb c b'z'
    then (c - 32) ∷ []
    else if c == 383
    then b'S' ∷ []
    else if c == 64261 || c == 64262
    then b'S' ∷ b'T' ∷ []
    else c ∷ []

unfoldable pub to_upper : Text → Text
to_upper [] = []
to_upper (c ∷ s) = upper_units c ++ to_upper s

pub data Keyword : Type 0 where
  stop start help other : Keyword

unfoldable pub keyword_of : Text → Keyword
unfolding text_eq
keyword_of t =
    if text_eq t (codes "STOP")
    then stop
    else if text_eq t (codes "START")
    then start
    else if text_eq t (codes "HELP")
    then help
    else other

abbrev pub is_other : Keyword → Bool
is_other other = true
is_other _ = false

pub record Inbound : Type 0 where
  pub tenant_id : Key
  pub phone_number : Text
  pub body : Text
  pub opt_out_type : Option Text
  pub display_name : Text
  pub support_phone : Text

-- `optOutType?.trim().toUpperCase()`, which no keyword equals when it is absent.
unfoldable pub provider_keyword : Option Text → Keyword
unfolding trim to_upper keyword_of
provider_keyword none = other
provider_keyword (some t) = keyword_of (to_upper (trim t))

unfoldable pub provider_handled : Inbound → Bool
unfolding provider_keyword
provider_handled i = not (is_other (provider_keyword i.opt_out_type))

unfoldable pub inbound_keyword : Inbound → Keyword
unfolding provider_handled provider_keyword trim to_upper keyword_of
inbound_keyword i =
    if provider_handled i
    then provider_keyword i.opt_out_type
    else keyword_of (to_upper (trim i.body))

-- What a change of consent records.
pub record ConsentChange : Type 0 where
  pub tenant_id : Key
  pub phone_number : Text
  pub status : SmsConsentStatus
  pub source : SmsConsentSource
  pub disclosure_version : Text
  pub evidence_at : Instant
  pub actor_id : Actor
  pub actor_type : AuditActorType
  pub action : String

abbrev pub keyword_change : Inbound → SmsConsentStatus → Instant → String → ConsentChange
keyword_change i status now action = record {
  tenant_id = i.tenant_id;
  phone_number = i.phone_number;
  status = status;
  source = keyword;
  disclosure_version = keyword_disclosure_version;
  evidence_at = now;
  actor_id = named "twilio-webhook";
  actor_type = webhook;
  action = action;
}

abbrev pub is_opted_in : SmsConsentStatus → Bool
is_opted_in opted_in = true
is_opted_in opted_out = false

abbrev pub status_name : SmsConsentStatus → String
status_name opted_in = "OPTED_IN"
status_name opted_out = "OPTED_OUT"

abbrev pub source_name : SmsConsentSource → String
source_name verbal = "VERBAL"
source_name keyword = "KEYWORD"

-- `{ tenantId_phoneHash }`
abbrev pub consent_key : Key → Key → SmsConsentRecord → Bool
consent_key tenant_id hash r = text_eq r.tenant_id tenant_id && text_eq r.phone_hash hash

unfoldable pub new_consent : ConsentChange → Key → SmsConsentRecord
new_consent c hash = record {
  tenant_id = c.tenant_id;
  phone_hash = hash;
  status = c.status;
  source = c.source;
  disclosure_version = c.disclosure_version;
  evidence_at = c.evidence_at;
}

unfoldable pub set_consent : ConsentChange → SmsConsentRecord → SmsConsentRecord
set_consent c r = record r {
  status = c.status;
  source = c.source;
  disclosure_version = c.disclosure_version;
  evidence_at = c.evidence_at;
}

unfoldable pub consent_audit : ConsentChange → Key → Audit
consent_audit c hash = record {
  tenant_id = c.tenant_id;
  action = c.action;
  actor_type = c.actor_type;
  actor_id = c.actor_id;
  entity_type = "SmsConsent";
  entity_id = hash;
  metadata =
      ("status", Detail.word (status_name c.status))
      ∷ ("source", Detail.word (source_name c.source))
      ∷ ("disclosureVersion", Detail.text c.disclosure_version)
      ∷ [];
  trace_id = none;
}

-- The private `audit`.
unfoldable pub webhook_audit : Key → String → List (String × Detail) → Audit
webhook_audit tenant_id action metadata = record {
  tenant_id = tenant_id;
  action = action;
  actor_type = webhook;
  actor_id = named "twilio-webhook";
  entity_type = "SmsConsent";
  entity_id = tenant_id;
  metadata = metadata;
  trace_id = none;
}

-- `providerHandled ? null : reply`
abbrev pub reply_unless : Bool → Text → Option Text
reply_unless handled t = if handled then none else some t

abbrev pub opted_out_reply : Inbound → Text
opted_out_reply i =
    i.display_name
    ++ codes
        ": You have opted out and will receive no further text messages. Reply START to opt in again."

abbrev pub rejected_reply : Inbound → Text
rejected_reply i =
    i.display_name
    ++ (codes ": We could not restore SMS because no prior opt-out was found. Call "
        ++ (i.support_phone ++ codes " to provide consent."))

abbrev pub resumed_reply : Inbound → Text
resumed_reply i =
    i.display_name
    ++ codes
        ": SMS service messages have resumed. Message frequency varies. Message and data rates may apply. Reply HELP for help or STOP to opt out."

abbrev pub help_reply : Inbound → Text
help_reply i =
    i.display_name
    ++ (codes ": For help, call " ++ (i.support_phone ++ codes ". Reply STOP to opt out."))

pub record Verbal : Type 0 where
  pub tenant_id : Key
  pub phone_number : Text
  pub accepted : Bool
  pub disclosure_version : Text
  pub evidence_at : Option Instant  -- `none` is an invalid date
  pub actor_id : Key
  pub actor_type : AuditActorType
