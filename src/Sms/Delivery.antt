-- ===== src/Sms/Delivery.antt =====
-- communications/sms-delivery.service.ts: an attempt to send a message, from its claim to its outcome.
-- Hashing, encryption, JSON and the provider's client are given.
pub mod Service
pub mod Attempts
pub mod Callbacks
pub mod Replays
pub mod Outcomes
pub mod Claims
pub mod Suppression
use signmons_calldesk_backen.Base.{
  ℕ, ◌+◌, ◌-◌, ◌*◌, ◌^◌, Bool, true, false, not, ◌&&◌, ◌||◌, Option, none, some, is_some, when_some,
  if◌then◌else◌, leb, ltb, ◌==◌, Instant, Result, ok, err, HttpError, bad_request, conflict,
  unexpected, Action, pure, throw, throw_if, or_throw, lift, gets, transaction, commit, ◌>>=◌, ◌>>◌,
  ◌otherwise◌, check, and_then, ok_or, String, List, [], ◌∷◌, length, filter, take, min, max, ◌++◌,
}
use signmons_calldesk_backen.Base.Text.{
  Text, Key, codes, text_eq, opt_text_eq, to_lower, trim, truthy, one_of, is_hex, fits, times,
}
use signmons_calldesk_backen.Base.Json.{Json, null, record_of, prop, text_of}
use signmons_calldesk_backen.Base.Audit.{Audit, person, user, Detail}
use signmons_calldesk_backen.Sms.Rows.{
  CommunicationStatus, queued, sending, sent, delivered, failed, dead_letter, received,
  CommunicationChannel, CommunicationDirection, outbound, inbound, CommunicationEvent, Identity,
  Store, Client, create_audit, update_events, create_event,
}
use signmons_calldesk_backen.Sms.Keywords.{
  OutboundConsentDecision, allowed, no_consent, opted_out_earlier, quiet_hours,
}
use signmons_calldesk_backen.Sms.Consent.{evaluate_outbound}
use signmons_calldesk_backen.Sms.Events.{
  max_attempts, is_queued, is_failed, is_dead_letter, is_final, is_outbound_sms, map_status,
  status_rank, is_message_sid, event_key, is_claimable, claim, bury, mark_sent, put_off, report,
  requeue, Outgoing, SendOutcome, accepted, refused, broken, Prepared, unsendable, outgoing,
  suppressed, refusal, Platform, SmsRequest, Replay, Callback, filled, enclose, with_content,
  only_one,
}

module _ {C U M A : Type 0} (db : Client C U M A) (p : Platform) where
  abbrev S : Type 0
  S = Store C U M A

  -- The private `identity`.
  unfoldable pub identity_of : Key → Result Identity
  identity_of tenant_id = only_one (
      filter
        (λ i. i.enabled && text_eq i.tenant_id tenant_id && text_eq i.environment p.environment)
        p.identities)

  -- The private `hash`.
  unfoldable pub hash_of : Key → Text → Result Key
  hash_of tenant_id value =
      and_then (check (not p.hash_key_is_set) (bad_request "SMS hashing is not configured."))
        λ _. ok (p.digest tenant_id value)

  -- `evaluateOutbound`, at the current time.
  abbrev pub decision_on : Instant → Key → Text → Identity → S → Result OutboundConsentDecision
  decision_on now tenant_id to identity =
      evaluate_outbound db p.digest p.hash_key_is_set p.local_hour tenant_id to identity now

  unfoldable pub find_event : Key → Key → S → Option CommunicationEvent
  find_event tenant_id id s = db.event.find_first (event_key tenant_id id) s.events

  -- `communicationEvent.update`, which throws where there is no row.
  unfoldable pub update_event :
      Key → Key → (CommunicationEvent → CommunicationEvent) → Action S (Unit {0})
  update_event tenant_id id f = do
    count ← update_events db (event_key tenant_id id) f
    throw_if (count == 0) unexpected

  -- The private `deadLetter`.
  unfoldable pub bury_event : Instant → Key → Key → Text → Action S CommunicationStatus
  unfolding bury update_event
  bury_event now tenant_id id code = update_event tenant_id id (bury now code) >> pure dead_letter

  -- From the checks on the sender and on consent, what becomes of a message.
  unfoldable pub address : Instant → Key → Text → Text → S → Result Prepared
  unfolding identity_of
  address now tenant_id to body s = and_then (identity_of tenant_id) λ identity.
      and_then (decision_on now tenant_id to identity s)
        λ decision. ok (enclose identity to body (suppressed decision))

  -- `message.to` and `message.body` of what was parsed; reading them off null throws.
  unfoldable pub read_message : Instant → Key → Json → S → Result Prepared
  unfolding address
  read_message now tenant_id null s = err unexpected
  read_message now tenant_id message s =
      with_content (text_of (prop (record_of (some message)) "to"))
        (text_of (prop (record_of (some message)) "body"))
        (λ to body. address now tenant_id to body s)

  -- `content?.encryptedRaw ? decrypt(content.encryptedRaw) : null`
  abbrev pub plain_text : Option Text → Option Text
  plain_text (some t) = if truthy t then p.decrypt t else none
  plain_text none = none

  unfoldable pub prepare : Instant → Key → CommunicationEvent → S → Result Prepared
  unfolding read_message
  prepare now tenant_id e s = go (filled (plain_text e.encrypted_raw))
    where
      go : Option Text → Result Prepared
      go none = ok (unsendable (codes "content_unavailable"))
      go (some t) = and_then (p.parse_json t) λ message. read_message now tenant_id message s

  -- The `try` block and its `catch`, from what the provider answered. The update after a message that
  -- was sent is inside the block: should it throw, the outcome counts as unknown.
  unfoldable pub settle :
      Instant → CommunicationEvent → SendOutcome → Key → Key → Action S CommunicationStatus
  unfolding bury_event update_event mark_sent put_off
  settle now e (accepted external_id) tenant_id id =
      update_event tenant_id id (mark_sent external_id) >> pure sent
      otherwise bury_event now tenant_id id (codes "unknown")
  settle now e (refused code safe_to_retry) tenant_id id =
      if not safe_to_retry || leb max_attempts e.attempt_count
      then bury_event now tenant_id id code
      else update_event tenant_id id (put_off now code e.attempt_count) >> pure failed
  settle now e broken tenant_id id = bury_event now tenant_id id (codes "unknown")

  unfoldable pub dispatch :
      Instant
      → CommunicationEvent
      → (Outgoing → SendOutcome)
      → Key
      → Key
      → Prepared
      → Action S CommunicationStatus
  unfolding settle bury_event
  dispatch now e send tenant_id id (unsendable code) = bury_event now tenant_id id code
  dispatch now e send tenant_id id (outgoing m) = settle now e (send m) tenant_id id

  -- `send` is the provider's behaviour during this attempt.
  unfoldable pub deliver :
      Instant → (Outgoing → SendOutcome) → Key → Key → Action S CommunicationStatus
  unfolding is_claimable claim find_event prepare dispatch
  deliver now send tenant_id id = do
    claimed ← update_events db (λ e. event_key tenant_id id e && is_claimable e) claim
    throw_if (not (claimed == 1)) (conflict "SMS delivery is not claimable.")
    found ← gets (find_event tenant_id id)
    e ← or_throw found unexpected
    prepared ← (λ s. (prepare now tenant_id e s, s))
    dispatch now e send tenant_id id prepared
