-- ===== src/Jobs/Links/RoundTrip.antt =====
-- What a technician's link is good for.
use signmons_calldesk_backen.Base.{
  ℕ, ◌+◌, ◌<◌, ◌≤◌, true, false, Option, none, some, Instant, ok, err, ltb, leb, List, [], ◌∷◌,
  length, ◌≡◌, refl, arith, inl, inr, Option-cases, ok-injective, ap,
}
use signmons_calldesk_backen.Base.Text.{
  Text, Key, is_uuid, text_eq, text_eq_refl, text_eq→eq, trim, truthy,
}
use signmons_calldesk_backen.Base.Json.{max_safe_integer, whole, negative, fraction, Number}
use signmons_calldesk_backen.Base.Token.{
  Codec, split, token_of, IsEncoded, split-token_of, trim-token_of, eq_of_split,
}
use signmons_calldesk_backen.Jobs.Technician.{User}
use signmons_calldesk_backen.Jobs.Links.{
  LinkPayload, VerifiedLink, payload_json, read_payload, live_until, check_payload, check_parts,
  check_token, verify, IssueRequest, LinkConfig, link_expiry, ttl_hours, issued_link,
  maximum_ttl_ms, clock_skew_ms, bind_payload, invalid_link,
}

read_payload-payload_json :
    (tenant_id technician_id nonce : Key) (issued_at expires_at : Instant)
    → is_uuid tenant_id ≡ true
    → is_uuid technician_id ≡ true
    → is_uuid nonce ≡ true
    → leb issued_at max_safe_integer ≡ true
    → leb expires_at max_safe_integer ≡ true
    → read_payload (payload_json tenant_id technician_id issued_at expires_at nonce)
      ≡ some (record {
        tenant_id = tenant_id;
        technician_id = technician_id;
        issued_at = whole issued_at;
        expires_at = whole expires_at;
      })
unfolding read_payload payload_json text_eq
read_payload-payload_json tenant_id technician_id nonce issued_at expires_at t u n i e =
    rw (t, u, n, i, e) refl

live_until-some :
    (now issued_at expires_at : ℕ)
    → issued_at ≤ now + clock_skew_ms
    → now < expires_at
    → expires_at ≤ issued_at + maximum_ttl_ms
    → live_until now (whole issued_at) (whole expires_at) ≡ some expires_at
unfolding live_until
live_until-some now issued_at expires_at h k l = ground arith

short_test : (n : ℕ) → n ≤ 2048 → ltb 2048 n ≡ false
short_test n h = ground arith

token_of-truthy :
    (c : Codec) (encoded : Text) → IsEncoded encoded → truthy (token_of c encoded) ≡ true
unfolding token_of
token_of-truthy c [] h = refl
token_of-truthy c (x ∷ s) h = refl

check_token-token_of :
    (c : Codec) (now : Instant) (encoded : Text)
    → IsEncoded encoded
    → IsEncoded (c.sign encoded)
    → length (token_of c encoded) ≤ 2048
    → check_token c now (token_of c encoded) ≡ check_payload now (bind_payload (c.decode encoded))
unfolding check_token
check_token-token_of c now encoded h k short =
    rw (token_of-truthy c encoded h, short_test _ short)
      (rw (split-token_of c encoded h k) (rw (h.0, k.0, text_eq_refl (c.sign encoded)) refl))

-- A link that was issued for at most a week is verified, until it ends, as the access of its tenant and
-- technician: where the tenant, the technician and the nonce are ids, the clock that checks the link is
-- at most five minutes behind the one that issued it, the token is at most 2048 units long, and the
-- codec gives texts in base64url and reads its own payload back.
pub verify-issued_link :
    (c : Codec) (config : LinkConfig) (now later : Instant) (nonce : Text) (r : IssueRequest)
    (u : User)
    → is_uuid r.tenant_id ≡ true
    → is_uuid u.id ≡ true
    → is_uuid nonce ≡ true
    → ttl_hours config r ≤ 168
    → link_expiry config r now ≤ max_safe_integer
    → now ≤ later + clock_skew_ms
    → later < link_expiry config r now
    → IsEncoded (c.encode (payload_json r.tenant_id u.id now (link_expiry config r now) nonce))
    → IsEncoded
        (c.sign (c.encode (payload_json r.tenant_id u.id now (link_expiry config r now) nonce)))
    → length (issued_link c config now nonce r u).token ≤ 2048
    → c.decode (c.encode (payload_json r.tenant_id u.id now (link_expiry config r now) nonce))
      ≡ some (payload_json r.tenant_id u.id now (link_expiry config r now) nonce)
    → verify c later (some (issued_link c config now nonce r u).token)
      ≡ ok (record {
        access = record { tenant_id = r.tenant_id; technician_id = u.id };
        expires_at = link_expiry config r now;
      })
unfolding verify issued_link check_payload
verify-issued_link c config now later nonce r u t i n week safe skew live plain signed short back =
    let payload = payload_json r.tenant_id u.id now (link_expiry config r now) nonce in
    rw (trim-token_of c (c.encode payload) plain signed) (
      rw (check_token-token_of c later (c.encode payload) plain signed short, back)
        (rw
          (read_payload-payload_json r.tenant_id u.id nonce now (link_expiry config r now) t i n
            (ground arith) (ground arith))
          (rw (live_until-some later now (link_expiry config r now) skew live (omega arith)) refl)))

-- What a link that is accepted says: it carries the service's signature, has not ended, and ends within
-- a week and five minutes from now.
abbrev pub IsSigned : Codec → Instant → Text → VerifiedLink → Type 0
IsSigned c now raw v =
    ((encoded : Text) × (trim raw ≡ token_of c encoded))
    × (now < v.expires_at)
    × (v.expires_at ≤ now + clock_skew_ms + maximum_ttl_ms)

live_until-bounds :
    (now : Instant) (i e : Number) {at : Instant}
    → live_until now i e ≡ some at
    → (now < at) × (at ≤ now + clock_skew_ms + maximum_ttl_ms)
unfolding live_until
live_until-bounds now (whole i) (whole e) h = (ground arith, ground arith)
live_until-bounds now (negative i) (whole e) h = (ground arith, ground arith)
live_until-bounds now (fraction i) (whole e) h = absurd (ground arith)
live_until-bounds now (whole i) (negative e) h = absurd (ground arith)
live_until-bounds now (negative i) (negative e) h = absurd (ground arith)
live_until-bounds now (fraction i) (negative e) h = absurd (ground arith)
live_until-bounds now (whole i) (fraction e) h = absurd (ground arith)
live_until-bounds now (negative i) (fraction e) h = absurd (ground arith)
live_until-bounds now (fraction i) (fraction e) h = absurd (ground arith)

check_payload-live :
    (now : Instant) (p : LinkPayload) {v : VerifiedLink}
    → check_payload now (some p) ≡ ok v
    → live_until now p.issued_at p.expires_at ≡ some v.expires_at
unfolding check_payload
check_payload-live now p {v} h = elim (Option-cases (live_until now p.issued_at p.expires_at)) [
  | inl e ↦ absurd (refused (rw e at h))
  | inr (at, e) ↦ rw e (ap (λ w. some w.expires_at) (ok-injective (rw e at h)))
]
  where
    refused : (err invalid_link ≡ ok v) → ⊥
    refused k = ground arith

check_payload-bounds :
    (now : Instant) (p : Option LinkPayload) {v : VerifiedLink}
    → check_payload now p ≡ ok v
    → (now < v.expires_at) × (v.expires_at ≤ now + clock_skew_ms + maximum_ttl_ms)
check_payload-bounds now none h = absurd (unfold check_payload in ground arith)
check_payload-bounds now (some p) h =
    live_until-bounds now p.issued_at p.expires_at (check_payload-live now p h)

signed_parts :
    (c : Codec) (now : Instant) (encoded supplied : Text) {v : VerifiedLink}
    → check_parts c now (encoded ∷ supplied ∷ []) ≡ ok v
    → (text_eq supplied (c.sign encoded) ≡ true)
      × (check_payload now (bind_payload (c.decode encoded)) ≡ ok v)
unfolding check_parts
signed_parts c now encoded supplied h = (ground arith, ground arith)

check_parts-two :
    (c : Codec) (now : Instant) (ps : List Text) {v : VerifiedLink}
    → check_parts c now ps ≡ ok v
    → (encoded : Text) × (supplied : Text) × (ps ≡ encoded ∷ supplied ∷ [])
unfolding check_parts
check_parts-two c now [] h = absurd (ground arith)
check_parts-two c now (a ∷ []) h = absurd (ground arith)
check_parts-two c now (a ∷ b ∷ []) h = (a, b, refl)
check_parts-two c now (a ∷ b ∷ d ∷ ps) h = absurd (ground arith)

check_parts-IsSigned :
    (c : Codec) (now : Instant) (token : Text) {v : VerifiedLink}
    → check_parts c now (split b'.' token) ≡ ok v
    → ((encoded : Text) × (token ≡ token_of c encoded))
      × (now < v.expires_at)
      × (v.expires_at ≤ now + clock_skew_ms + maximum_ttl_ms)
unfolding token_of
check_parts-IsSigned c now token h =
    let (encoded, supplied, e) = check_parts-two c now (split b'.' token) h in
    let (same, payload) = signed_parts c now encoded supplied (rw e at h) in
    let ends = check_payload-bounds now (bind_payload (c.decode encoded)) payload in
    (
      (
        encoded,
        rw (← text_eq→eq supplied (c.sign encoded) same)
            (eq_of_split b'.' token encoded supplied e),
      ),
      ends.0,
      ends.1,
    )

-- A link is accepted only if it carries the service's signature of its payload, and then it has not
-- ended, and ends within a week and five minutes from now.
pub verify-IsSigned :
    (c : Codec) (now : Instant) (raw : Text) {v : VerifiedLink}
    → verify c now (some raw) ≡ ok v
    → IsSigned c now raw v
unfolding verify check_token
verify-IsSigned c now raw {v} h = check_parts-IsSigned c now (trim raw) {v = v} (ground arith)
