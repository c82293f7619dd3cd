-- ===== src/Sms/Delivery/Service.antt =====
-- communications/sms-delivery.service.ts: requests, replays, the provider's reports, rounds over the due
-- events, and sequences of such calls.
use signmons_calldesk_backen.Base.{
  ℕ, Bool, true, not, ◌&&◌, ◌||◌, Option, none, some, is_some, when_some, if◌then◌else◌, leb, ltb,
  Instant, Result, ok, bad_request, conflict, unexpected, Action, pure, throw_if, or_throw, lift,
  gets, transaction, ◌>>=◌, ◌>>◌, check, and_then, List, [], ◌∷◌, length, filter, take, min, max,
}
use signmons_calldesk_backen.Base.Text.{Text, Key, text_eq, opt_text_eq, trim, truthy}
use signmons_calldesk_backen.Base.Audit.{person, user, Detail}
use signmons_calldesk_backen.Sms.Rows.{
  twilio, CommunicationStatus, queued, CommunicationChannel, outbound, CommunicationEvent, Store,
  Client, create_audit, create_event,
}
use signmons_calldesk_backen.Sms.Events.{
  is_twilio, max_attempts, is_queued, is_failed, is_dead_letter, is_outbound_sms, map_status,
  status_rank, is_message_sid, report, requeue, Outgoing, SendOutcome, refusal, Platform,
  SmsRequest, Replay, Callback, filled,
}
use signmons_calldesk_backen.Sms.Delivery.{
  identity_of, hash_of, decision_on, find_event, update_event, deliver,
}

module _ {C U M A : Type 0} (db : Client C U M A) (p : Platform) where
  abbrev S : Type 0
  S = Store C U M A

  -- The private columns of `create`'s new row, and the key that it is looked up by.
  abbrev pub idempotency_key : Key → Key → CommunicationEvent → Bool
  idempotency_key tenant_id key_hash e =
      text_eq e.tenant_id tenant_id && opt_text_eq e.idempotency_key_hash (some key_hash)

  unfoldable pub new_event : Key → SmsRequest → Key → Key → CommunicationEvent
  new_event new_id r key_hash request_hash = record {
    id = new_id;
    tenant_id = r.tenant_id;
    job_id = r.job_id;
    channel = CommunicationChannel.sms;
    direction = outbound;
    provider = twilio;
    external_id = none;
    idempotency_key_hash = some key_hash;
    status = queued;
    attempt_count = 0;
    next_attempt_at = none;
    terminal_at = none;
    last_error_code = none;
    request_hash = some request_hash;
    encrypted_raw = some (p.encrypt r.to r.body);
  }

  -- `upsert` with an empty update: an event of the same key is left as it is.
  unfoldable pub upsert_event :
      (CommunicationEvent → Bool) → CommunicationEvent → Action S (Unit {0})
  upsert_event of_key new s =
      if is_some (db.event.find_first of_key s.events) then (ok tt, s) else create_event db new s

  unfoldable pub read_back :
      (CommunicationEvent → Bool) → Key → Action S (Key × CommunicationStatus)
  read_back of_key request_hash = do
    found ← gets (λ s. db.event.find_first of_key s.events)
    e ← or_throw found unexpected
    throw_if (not (opt_text_eq e.request_hash (some request_hash)))
        (conflict "Idempotency key was already used for a different SMS request.")
    pure (e.id, e.status)

  -- The guards of `create`, with the two hashes that it goes on with.
  unfoldable pub admit : Instant → SmsRequest → S → Result (Key × Key)
  unfolding identity_of hash_of
  admit now r s =
      and_then
        (check
          (not (truthy (trim r.body))
            || ltb 1600 (length r.body)
            || not (truthy (trim r.idempotency_key)))
          (bad_request "SMS request is invalid."))
        λ _. and_then (identity_of db p r.tenant_id) λ identity.
          and_then (decision_on db p now r.tenant_id r.to identity s) λ decision.
            and_then (refusal decision) λ _.
              and_then (hash_of db p r.tenant_id r.idempotency_key) λ key_hash.
                and_then (hash_of db p r.tenant_id (p.request_text r.to r.body r.job_id))
                  λ request_hash. ok (key_hash, request_hash)

  unfoldable pub create : Instant → Key → SmsRequest → Action S (Key × CommunicationStatus)
  unfolding admit new_event upsert_event read_back
  create now new_id r = do
    hashes ← (λ s. (admit now r s, s))
    upsert_event (idempotency_key r.tenant_id hashes.0) (new_event new_id r hashes.0 hashes.1)
    read_back (idempotency_key r.tenant_id hashes.0) hashes.1

  -- What was read before the transaction is what `seen` had.
  unfoldable pub replay_dead_letter : S → Replay → Action S (Unit {0})
  unfolding requeue update_event find_event
  replay_dead_letter seen r = do
    e ←
        or_throw (find_event db p r.tenant_id r.event_id seen)
          (conflict "SMS event is not dead-lettered.")
    throw_if (not (is_dead_letter e.status)) (conflict "SMS event is not dead-lettered.")
    throw_if (not r.acknowledge_duplicate_risk)
        (conflict "Replay requires duplicate-risk acknowledgment.")
    throw_if (ltb (length (trim r.reason)) 10 || ltb 500 (length r.reason))
        (bad_request "Replay reason is invalid.")
    transaction do
      update_event db p r.tenant_id r.event_id requeue
      create_audit db (record {
        tenant_id = r.tenant_id;
        action = "sms.dead_letter_replayed";
        actor_type = user;
        actor_id = person r.actor_id;
        entity_type = "CommunicationEvent";
        entity_id = r.event_id;
        metadata =
            ("priorErrorCode", optional_text e.last_error_code)
            ∷ ("duplicateRiskAcknowledged", Detail.flag true)
            ∷ ("reason", Detail.text (trim r.reason))
            ∷ [];
        trace_id = none;
      })
    where
      optional_text : Option Text → Detail
      optional_text none = Detail.absent
      optional_text (some t) = Detail.text t

  -- `{ tenantId_provider_externalId }`
  abbrev pub external_key : Key → Key → CommunicationEvent → Bool
  external_key tenant_id external_id e =
      text_eq e.tenant_id tenant_id
      && (is_twilio e.provider && opt_text_eq e.external_id (some external_id))

  -- The event is read in `seen`; the update asks for its key alone.
  unfoldable pub apply_status : Instant → S → Callback → Action S (Unit {0})
  unfolding map_status status_rank is_message_sid report update_event
  apply_status now seen c = do
    throw_if (not (is_message_sid c.external_id)) (bad_request "SMS delivery callback is invalid.")
    status ← lift (map_status c.provider_status)
    e ←
        or_throw (db.event.find_first (external_key c.tenant_id c.external_id) seen.events)
          (bad_request "Unknown SMS delivery callback.")
    if leb (status_rank status) (status_rank e.status)
        then pure tt
        else update_event db p c.tenant_id e.id (report now status (filled c.error_code))

  -- One round over the due events: the query's rows come in the order that `due` gives, and what one
  -- delivery throws stops no other.
  unfoldable pub deliver_all : Instant → (Outgoing → SendOutcome) → List CommunicationEvent → S → S
  unfolding deliver
  deliver_all now send [] s = s
  deliver_all now send (e ∷ es) s =
      deliver_all now send es (deliver db p now send e.tenant_id e.id s).1

  unfoldable pub is_due : Instant → CommunicationEvent → Bool
  is_due now e =
      is_outbound_sms e
      && (is_queued e.status
          || is_failed e.status && when_some e.next_attempt_at (λ at. leb at now))
      && ltb e.attempt_count max_attempts

  -- The query of `processDue`.
  unfoldable pub due_events :
      (List CommunicationEvent → List CommunicationEvent)
      → Instant
      → ℕ
      → S
      → List CommunicationEvent
  unfolding is_due
  due_events by_next_attempt now limit s =
      take (min (max limit 1) 100) (by_next_attempt (filter (is_due now) (db.event.rows s.events)))

  unfoldable pub process_due :
      (List CommunicationEvent → List CommunicationEvent)
      → Instant
      → (Outgoing → SendOutcome)
      → ℕ
      → S
      → ℕ × S
  unfolding deliver_all due_events
  process_due by_next_attempt now send limit s =
      if not p.delivery_enabled
      then (0, s)
      else let due = due_events by_next_attempt now limit s in
        (length due, deliver_all now send due s)

-- A call of the service, with what the clock, the database, the provider and an earlier read bring to it.
pub data Call (S : Type 0) : Type 0 where
  of_create : Instant → Key → SmsRequest → Call S
  of_deliver : Instant → (Outgoing → SendOutcome) → Key → Key → Call S
  of_process_due :
      (List CommunicationEvent → List CommunicationEvent)
      → Instant
      → (Outgoing → SendOutcome)
      → ℕ
      → Call S
  of_replay : S → Replay → Call S
  of_status : Instant → S → Callback → Call S

module _ {C U M A : Type 0} (db : Client C U M A) (p : Platform) where
  -- What a call leaves behind, and what one call after another does.
  unfoldable pub make : Call (Store C U M A) → Store C U M A → Store C U M A
  unfolding create deliver process_due replay_dead_letter apply_status
  make (of_create now id r) s = (create db p now id r s).1
  make (of_deliver now send t id) s = (deliver db p now send t id s).1
  make (of_process_due by_next_attempt now send limit) s =
      (process_due db p by_next_attempt now send limit s).1
  make (of_replay seen r) s = (replay_dead_letter db p seen r s).1
  make (of_status now seen c) s = (apply_status db p now seen c s).1

  unfoldable pub make_all : List (Call (Store C U M A)) → Store C U M A → Store C U M A
  unfolding make
  make_all [] s = s
  make_all (c ∷ cs) s = make_all cs (make c s)
