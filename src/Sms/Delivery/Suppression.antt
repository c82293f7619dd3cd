-- ===== src/Sms/Delivery/Suppression.antt =====
-- Nothing is handed to the provider that the recipient's consent does not allow.
use signmons_calldesk_backen.Base.{
  Option, none, some, ◌≡◌, ◌≢◌, refl, arith, ok, Instant, inl, inr, and_then-ok, ok-injective,
  Option-cases, ap, sym,
}
use signmons_calldesk_backen.Base.Text.{Text, Key, codes}
use signmons_calldesk_backen.Base.Json.{Json, null, bool, num, str, arr, obj, get_field, text_of}
use signmons_calldesk_backen.Sms.Rows.{CommunicationEvent, Identity, Store, Client}
use signmons_calldesk_backen.Sms.Keywords.{
  OutboundConsentDecision, allowed, no_consent, opted_out_earlier, quiet_hours, Inbound, stop,
  inbound_keyword,
}
use signmons_calldesk_backen.Sms.Consent.{handle_inbound_keyword}
use signmons_calldesk_backen.Sms.Consent.OptOut.{handle_inbound_keyword-evaluate_outbound}
use signmons_calldesk_backen.Sms.Events.{
  Platform, Prepared, unsendable, outgoing, Outgoing, suppressed, enclose, with_content, filled,
}
use signmons_calldesk_backen.Sms.Delivery.{
  decision_on, identity_of, address, read_message, prepare, plain_text,
}

module _ {C U M A : Type 0} (db : Client C U M A) (p : Platform) where
  abbrev S : Type 0
  S = Store C U M A

  -- The tenant has an identity, and the recipient may be sent a message from it now.
  abbrev pub IsAllowed : Instant → Key → Outgoing → S → Type 0
  IsAllowed now t m s =
      (identity : Identity) × (identity_of db p t ≡ ok identity)
      × (m.sender ≡ identity.phone_number)
      × (decision_on db p now t m.recipient identity s ≡ ok allowed)

  sendable : (d : OutboundConsentDecision) → suppressed d ≡ none → d ≡ allowed
  sendable allowed h = refl
  sendable no_consent h = ground arith
  sendable opted_out_earlier h = ground arith
  sendable quiet_hours h = ground arith

  enclose-outgoing :
      (identity : Identity) (to body : Text) (o : Option Text) (m : Outgoing)
      → enclose identity to body o ≡ outgoing m
      → (o ≡ none) × (m.sender ≡ identity.phone_number) × (m.recipient ≡ to)
  enclose-outgoing identity to body none m h =
      (refl, ap (λ x. sender_of x) (sym h), ap (λ x. recipient_of x) (sym h))
    where
      sender_of : Prepared → Text
      sender_of (outgoing m) = m.sender
      sender_of (unsendable code) = code

      recipient_of : Prepared → Text
      recipient_of (outgoing m) = m.recipient
      recipient_of (unsendable code) = code
  enclose-outgoing identity to body (some code) m h = ground arith

  address-IsAllowed :
      (now : Instant) (t : Key) (to body : Text) (m : Outgoing) (s : S)
      → address db p now t to body s ≡ ok (outgoing m)
      → IsAllowed now t m s
  unfolding address
  address-IsAllowed now t to body m s h =
      let (identity, of_tenant, rest) = and_then-ok (identity_of db p t) _ h in
      let (decision, decided, step) = and_then-ok (decision_on db p now t to identity s) _ rest in
      let (free, of_sender, of_recipient) =
        enclose-outgoing identity to body (suppressed decision) m (ok-injective step) in
      (identity, of_tenant, of_sender, rw (of_recipient, ← sendable decision free) decided)

  with_content-IsAllowed :
      (now : Instant) (t : Key) (to body : Option Text) (m : Outgoing) (s : S)
      → with_content to body (λ to body. address db p now t to body s) ≡ ok (outgoing m)
      → IsAllowed now t m s
  with_content-IsAllowed now t (some to) (some body) m s h = address-IsAllowed now t to body m s h
  with_content-IsAllowed now t (some to) none m s h = ground arith
  with_content-IsAllowed now t none body m s h = ground arith

  read_message-IsAllowed :
      (now : Instant) (t : Key) (j : Json) (m : Outgoing) (s : S)
      → read_message db p now t j s ≡ ok (outgoing m)
      → IsAllowed now t m s
  unfolding read_message
  read_message-IsAllowed now t null m s h = ground arith
  read_message-IsAllowed now t (bool b) m s h = ground arith
  read_message-IsAllowed now t (num n) m s h = ground arith
  read_message-IsAllowed now t (str x) m s h = ground arith
  read_message-IsAllowed now t (arr xs) m s h = ground arith
  read_message-IsAllowed now t (obj fs) m s h =
      with_content-IsAllowed now t (text_of (get_field "to" fs)) (text_of (get_field "body" fs)) m s
        h

  -- What an attempt is to hand to the provider goes out from the tenant's one identity, to a recipient
  -- whose consent and local hour allow it at that moment.
  pub prepare-IsAllowed :
      (now : Instant) (t : Key) (e : CommunicationEvent) (m : Outgoing) (s : S)
      → prepare db p now t e s ≡ ok (outgoing m)
      → IsAllowed now t m s
  unfolding prepare
  prepare-IsAllowed now t e m s h = elim (Option-cases (filled (plain_text db p e.encrypted_raw))) [
    | inl absent ↦
        let no : ok (unsendable (codes "content_unavailable")) ≡ ok (outgoing m) = rw absent at h in
        ground arith
    | inr (raw, found) ↦
        let (message, _, rest) =
          and_then-ok (p.parse_json raw) (λ j. read_message db p now t j s) (rw found at h) in
        read_message-IsAllowed now t message m s rest
  ]

  -- After a message whose keyword is STOP, no attempt on any event of the tenant hands the provider a
  -- message to that number, whatever the event holds and whenever the attempt is made.
  pub prepare-handle_inbound_keyword :
      (now later : Instant) (i : Inbound) (e : CommunicationEvent) (m : Outgoing) (s : S)
      → inbound_keyword i ≡ stop
      → m.recipient ≡ i.phone_number
      → prepare db p later i.tenant_id e
          (handle_inbound_keyword db p.digest p.hash_key_is_set now i s).1
        ≢ ok (outgoing m)
  prepare-handle_inbound_keyword now later i e m s is_stop to_them h =
      let (identity, _, _, free) = prepare-IsAllowed later i.tenant_id e m _ h in
      handle_inbound_keyword-evaluate_outbound db p.digest p.hash_key_is_set now i s p.local_hour
        identity later is_stop (rw to_them at free)
