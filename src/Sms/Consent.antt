-- ===== src/Sms/Consent.antt =====
-- communications/sms-consent.service.ts: who may be sent a text message, and when. The keyed digest
-- of a phone number and the local hour come from the platform and are given.
pub mod Quiet
pub mod OptOut
use signmons_calldesk_backen.Base.{
  ℕ, ◌-◌, Bool, true, false, not, ◌&&◌, ◌||◌, Option, none, some, is_some, if◌then◌else◌, leb, ltb,
  ◌==◌, Instant, Result, ok, err, HttpError, bad_request, unavailable, Action, pure, throw_if,
  or_throw, lift, gets, transaction, ◌>>=◌, ◌>>◌, check, and_then, String, List, [], ◌∷◌, length,
  all, map, ◌++◌,
}
use signmons_calldesk_backen.Base.Text.{Text, Key, codes, text_eq, trim, truthy, one_of, is_digit}
use signmons_calldesk_backen.Base.Audit.{
  Audit, AuditActorType, Actor, named, person, webhook, Detail,
}
use signmons_calldesk_backen.Sms.Rows.{
  SmsConsentStatus, opted_in, opted_out, SmsConsentSource, verbal, keyword, SmsConsentRecord,
  Customer, Identity, Store, Client, create_audit, update_customers, upsert_consent,
}
use signmons_calldesk_backen.Sms.Keywords.{
  keyword_disclosure_version, OutboundConsentDecision, allowed, no_consent, opted_out_earlier,
  quiet_hours, is_e164, is_quiet_hour, to_upper, Keyword, stop, start, help, other, keyword_of,
  is_other, Inbound, provider_keyword, provider_handled, inbound_keyword, ConsentChange,
  keyword_change, is_opted_in, status_name, source_name, consent_key, new_consent, set_consent,
  consent_audit, webhook_audit, reply_unless, opted_out_reply, rejected_reply, resumed_reply,
  help_reply, Verbal,
}

module _ {C U M A : Type 0} (db : Client C U M A) (digest : Key → Text → Key)
    (configured : Bool) where
  abbrev S : Type 0
  S = Store C U M A

  -- `phoneHash`: the configuration holds a key, and the number is in E.164 form.
  unfoldable pub phone_hash : Key → Text → Result Key
  phone_hash tenant_id phone =
      and_then (check (not configured) (unavailable "SMS consent processing is not configured."))
        λ _.
          and_then (check (not (is_e164 phone)) (bad_request "SMS phone number is invalid."))
            λ _. ok (digest tenant_id phone)

  -- The private `find`.
  unfoldable pub find_consent : Key → Text → S → Result (Option SmsConsentRecord)
  unfolding phone_hash
  find_consent tenant_id phone s =
      and_then (phone_hash tenant_id phone)
        λ hash. ok (db.consent.find_first (consent_key tenant_id hash) s.consents)

  unfoldable pub persist_consent : ConsentChange → Action S (Unit {0})
  unfolding new_consent set_consent consent_audit
  persist_consent c = do
    hash ← lift (phone_hash c.tenant_id c.phone_number)
    transaction do
      upsert_consent db (consent_key c.tenant_id hash) (new_consent c hash) (set_consent c)
      count ←
          update_customers db
            (λ u. text_eq u.tenant_id c.tenant_id && text_eq u.phone c.phone_number)
            (λ u. record u {
              consent_to_text = is_opted_in c.status;
              consent_to_text_at = some c.evidence_at;
            })
      create_audit db (consent_audit c hash)

  unfoldable pub record_verbal_consent : Verbal → Action S (Unit {0})
  record_verbal_consent v = do
    throw_if (not (truthy (trim v.disclosure_version))) (bad_request "Consent evidence is invalid.")
    evidence_at ← or_throw v.evidence_at (bad_request "Consent evidence is invalid.")
    persist_consent (record {
      tenant_id = v.tenant_id;
      phone_number = v.phone_number;
      status = if v.accepted then opted_in else opted_out;
      source = verbal;
      disclosure_version = v.disclosure_version;
      evidence_at = evidence_at;
      actor_id = person v.actor_id;
      actor_type = v.actor_type;
      action = if v.accepted then "sms.consent_granted" else "sms.consent_declined";
    })

  abbrev is_opted_out : Option SmsConsentRecord → Bool
  is_opted_out none = false
  is_opted_out (some r) = not (is_opted_in r.status)

  -- The answers to the keywords; `handled` says that the provider has answered already.
  unfoldable pub answer_keyword : Instant → Inbound → Bool → Keyword → Action S (Option Text)
  unfolding webhook_audit
  answer_keyword now i handled stop = do
    persist_consent (keyword_change i opted_out now "sms.opted_out")
    pure (reply_unless handled (opted_out_reply i))
  answer_keyword now i handled start = do
    existing ← (λ s. (find_consent i.tenant_id i.phone_number s, s))
    if not (is_opted_out existing)
        then (create_audit db (
              webhook_audit i.tenant_id "sms.start_rejected"
                (("reason", Detail.word "prior_opt_out_not_found") ∷ []))
            >> pure (some (rejected_reply i)))
        else (persist_consent (keyword_change i opted_in now "sms.opted_in_again")
            >> pure (reply_unless handled (resumed_reply i)))
  answer_keyword now i handled help = do
    create_audit db (webhook_audit i.tenant_id "sms.help_requested" [])
    pure (reply_unless handled (help_reply i))
  answer_keyword now i handled other = pure none

  unfoldable pub handle_inbound_keyword : Instant → Inbound → Action S (Option Text)
  unfolding provider_handled inbound_keyword answer_keyword
  handle_inbound_keyword now i = answer_keyword now i (provider_handled i) (inbound_keyword i)

  -- What the consent of a known number allows at a local hour.
  unfoldable pub consent_decision : Option SmsConsentRecord → Identity → ℕ → OutboundConsentDecision
  unfolding is_quiet_hour
  consent_decision none identity hour = no_consent
  consent_decision (some r) identity hour =
      if not (is_opted_in r.status)
      then opted_out_earlier
      else if is_quiet_hour hour identity.quiet_hours_start identity.quiet_hours_end
      then quiet_hours
      else allowed

  unfoldable pub evaluate_outbound :
      (Instant → Key → ℕ) → Key → Text → Identity → Instant → S → Result OutboundConsentDecision
  unfolding consent_decision
  evaluate_outbound local_hour tenant_id phone identity at s =
      and_then
        (check (not (text_eq identity.tenant_id tenant_id) || not identity.enabled)
          (bad_request "Communication identity is invalid."))
        λ _.
          and_then (find_consent tenant_id phone s)
            λ consent. ok (consent_decision consent identity (local_hour at identity.time_zone))
