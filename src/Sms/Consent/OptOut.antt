-- ===== src/Sms/Consent/OptOut.antt =====
-- A number that opts out is sent nothing until it opts in again.
use signmons_calldesk_backen.Base.{
  ℕ, Bool, true, not, ◌||◌, Option, some, Result, ok, err, Instant, ◌≡◌, ◌≢◌, inl, inr, refl, arith,
  Option-cases, find, effects, after, commit, List, ◌>>◌, ◌>>=◌, pure, Action, and_then-ok, check,
  and_then, bad_request, ok-injective,
}
use signmons_calldesk_backen.Base.Text.{Text, Key, text_eq, text_eq_refl}
use signmons_calldesk_backen.Base.Table.{find-update_rows, find-append}
use signmons_calldesk_backen.Sms.Rows.{
  SmsConsentStatus, opted_out, SmsConsentRecord, Identity, Store, Client, upsert_consent,
  update_customers, create_audit,
}
use signmons_calldesk_backen.Sms.Keywords.{
  ConsentChange, Inbound, stop, allowed, opted_out_earlier, opted_out_reply, consent_key,
  new_consent, set_consent, inbound_keyword, provider_handled, keyword_change, reply_unless,
}
use signmons_calldesk_backen.Sms.Consent.{
  phone_hash, find_consent, persist_consent, answer_keyword, handle_inbound_keyword,
  evaluate_outbound, consent_decision,
}

module _ {C U M A : Type 0} (db : Client C U M A) (digest : Key → Text → Key)
    (configured : Bool) where
  abbrev S : Type 0
  S = Store C U M A

  -- The consent of a number stands at a status.
  abbrev pub Stands : SmsConsentStatus → Key → Key → S → Type 0
  Stands status tenant_id hash s =
      (r : SmsConsentRecord) × (find (consent_key tenant_id hash) (db.consent.rows s.consents)
        ≡ some r)
      × (r.status ≡ status)

  consent_key-new :
      (c : ConsentChange) (hash : Key) → consent_key c.tenant_id hash (new_consent c hash) ≡ true
  unfolding new_consent
  consent_key-new c hash = rw (text_eq_refl c.tenant_id, text_eq_refl hash)

  new_consent-status : (c : ConsentChange) (hash : Key) → (new_consent c hash).status ≡ c.status
  unfolding new_consent
  new_consent-status c hash = refl

  set_consent-status :
      (c : ConsentChange) (r : SmsConsentRecord) → (set_consent c r).status ≡ c.status
  unfolding set_consent
  set_consent-status c r = refl

  consent_key-set :
      (c : ConsentChange) (t hash : Key) (r : SmsConsentRecord)
      → consent_key t hash r ≡ true
      → consent_key t hash (set_consent c r) ≡ true
  unfolding set_consent
  consent_key-set c t hash r h = h

  upsert_consent-Stands :
      (c : ConsentChange) (hash : Key) (s : S)
      → Stands c.status c.tenant_id hash
          (upsert_consent db
            (consent_key c.tenant_id hash)
            (new_consent c hash)
            (set_consent c)
            s).1
  unfolding upsert_consent
  upsert_consent-Stands c hash s = elim (Option-cases (find key rows)) [
    | inl e ↦
        rw (db.consent.find_first_lem key s.consents, e)
          (
            new_consent c hash,
            rw (db.consent.rows-create (new_consent c hash) s.consents)
                (find-append key (new_consent c hash) rows e (consent_key-new c hash)),
            new_consent-status c hash,
          )
    | inr (r, e) ↦
        rw (db.consent.find_first_lem key s.consents, e)
          (
            set_consent c r,
            rw (db.consent.rows-update_many key (set_consent c) s.consents)
                (find-update_rows key (set_consent c) (consent_key-set c c.tenant_id hash) rows e),
            set_consent-status c r,
          )
  ]
    where
      key : SmsConsentRecord → Bool
      key = consent_key c.tenant_id hash

      rows : List SmsConsentRecord
      rows = db.consent.rows s.consents

  upsert_consent-ok :
      (p : SmsConsentRecord → Bool) (new : SmsConsentRecord)
      (f : SmsConsentRecord → SmsConsentRecord) (s : S)
      → upsert_consent db p new f s ≡ (ok tt, (upsert_consent db p new f s).1)
  unfolding upsert_consent
  upsert_consent-ok p new f s = ground arith

  -- Whatever stood before, a change of consent stands afterwards.
  pub persist_consent-Stands :
      (c : ConsentChange) (hash : Key) (s : S)
      → phone_hash db digest configured c.tenant_id c.phone_number ≡ ok hash
      → Stands c.status c.tenant_id hash (persist_consent db digest configured c s).1
  unfolding persist_consent effects commit update_customers create_audit
  persist_consent-Stands c hash s h =
      rw
        (h, upsert_consent-ok (consent_key c.tenant_id hash) (new_consent c hash) (set_consent c) s)
        (upsert_consent-Stands c hash s)

  state->>pure :
      {A : Type 0} (m : Action S (Unit {0})) (a : A) (s : S) → ((m >> pure a) s).1 ≡ (m s).1
  unfolding ◌>>◌ ◌>>=◌ after pure
  state->>pure m a s = go (m s)
    where
      go : (p : Result (Unit {0}) × S) → (after (λ _. pure a) p).1 ≡ p.1
      go (ok u, s') = refl
      go (err e, s') = refl

  -- A stop message records the refusal.
  handle_inbound_keyword-Stands :
      (now : Instant) (i : Inbound) (hash : Key) (s : S)
      → inbound_keyword i ≡ stop
      → phone_hash db digest configured i.tenant_id i.phone_number ≡ ok hash
      → Stands opted_out i.tenant_id hash (handle_inbound_keyword db digest configured now i s).1
  unfolding handle_inbound_keyword answer_keyword
  handle_inbound_keyword-Stands now i hash s is_stop h =
      rw
        (
          is_stop,
          state->>pure
              (persist_consent db digest configured
                (keyword_change i opted_out now "sms.opted_out"))
              (reply_unless (provider_handled i) (opted_out_reply i)) s,
        )
        (persist_consent-Stands (keyword_change i opted_out now "sms.opted_out") hash s h)

  consent_decision-opted_out :
      (r : SmsConsentRecord) (identity : Identity) (hour : ℕ)
      → r.status ≡ opted_out
      → consent_decision db digest configured (some r) identity hour ≡ opted_out_earlier
  unfolding consent_decision
  consent_decision-opted_out r identity hour h = rw h refl

  not_allowed :
      (consent : Option SmsConsentRecord) (r : SmsConsentRecord) (identity : Identity) (hour : ℕ)
      → consent ≡ some r
      → r.status ≡ opted_out
      → ok (consent_decision db digest configured consent identity hour) ≢ ok allowed
  not_allowed consent r identity hour e status h =
      let refused : ok opted_out_earlier ≡ ok allowed =
        rw (e, consent_decision-opted_out r identity hour status) at h in
      ground arith

  evaluate_outbound-opted_out :
      (local_hour : Instant → Key → ℕ) (tenant_id : Key) (phone : Text) (identity : Identity)
      (at : Instant) (s : S)
      → ((hash : Key)
          → phone_hash db digest configured tenant_id phone ≡ ok hash
          → Stands opted_out tenant_id hash s)
      → evaluate_outbound db digest configured local_hour tenant_id phone identity at s ≢ ok allowed
  unfolding evaluate_outbound find_consent
  evaluate_outbound-opted_out local_hour tenant_id phone identity at s stands h =
      let (_, _, found) =
        and_then-ok
          (check (not (text_eq identity.tenant_id tenant_id) || not identity.enabled)
            (bad_request "Communication identity is invalid."))
          (λ _. and_then (find_consent db digest configured tenant_id phone s) λ consent. ok (
            consent_decision db digest configured consent identity
              (local_hour at identity.time_zone)))
          h in
      let (consent, looked_up, decided) =
        and_then-ok (find_consent db digest configured tenant_id phone s) _ found in
      let (hash, hashed, same) =
        and_then-ok (phone_hash db digest configured tenant_id phone) _ looked_up in
      let (r, at_key, status) = stands hash hashed in
      let row : db.consent.find_first (consent_key tenant_id hash) s.consents ≡ some r =
        rw (db.consent.find_first_lem (consent_key tenant_id hash) s.consents) at_key in
      not_allowed consent r identity (local_hour at identity.time_zone)
        (rw (← ok-injective same) row) status decided

  -- After a message whose keyword is STOP, however the provider or the body spells it, no message
  -- to that number is allowed for that tenant at any time.
  pub handle_inbound_keyword-evaluate_outbound :
      (now : Instant) (i : Inbound) (s : S) (local_hour : Instant → Key → ℕ) (identity : Identity)
      (at : Instant)
      → inbound_keyword i ≡ stop
      → evaluate_outbound db digest configured local_hour i.tenant_id i.phone_number identity at
          (handle_inbound_keyword db digest configured now i s).1
        ≢ ok allowed
  handle_inbound_keyword-evaluate_outbound now i s local_hour identity at is_stop =
      evaluate_outbound-opted_out local_hour i.tenant_id i.phone_number identity at
        (handle_inbound_keyword db digest configured now i s).1
        (λ hash hashed. handle_inbound_keyword-Stands now i hash s is_stop hashed)
