-- ===== src/Scheduling/Tokens/Separation.antt =====
-- The two kinds of tokens are signed with one secret, and are told apart by what they hold.
use signmons_calldesk_backen.Base.{
  ℕ, ◌+◌, ◌≤◌, true, false, Option, some, Instant, ok, err, ltb, leb, ◌≡◌, refl, arith,
  if◌then◌else◌,
}
use signmons_calldesk_backen.Base.Text.{Text, Key, text_eq, text_eq_refl}
use signmons_calldesk_backen.Base.Json.{Json, str}
use signmons_calldesk_backen.Base.Token.{Codec, token_of, IsEncoded, split-token_of}
use signmons_calldesk_backen.Scheduling.Tokens.{
  slot_json, sign_slot, management_json, sign_management_token, management_ttl_ms, signed_part,
  read_slot, verify_slot, read_management, verify_management_token, invalid_appointment_link,
  is_expected,
}

-- The codec writes the payload and its signature in base64url, and reads the payload back.
pub record Reads (c : Codec) (payload : Json) : Type 0 where
  pub encoded : IsEncoded (c.encode payload)
  pub signed : IsEncoded (c.sign (c.encode payload))
  pub decoded : c.decode (c.encode payload) ≡ some payload

pub signed_part-token_of :
    (c : Codec) (encoded : Text)
    → IsEncoded encoded
    → IsEncoded (c.sign encoded)
    → signed_part c (token_of c encoded) ≡ some encoded
unfolding signed_part
signed_part-token_of c encoded h k =
    rw (split-token_of c encoded h k) (rw (h.0, k.0, text_eq_refl (c.sign encoded)) refl)

not_before : (now expires_at : ℕ) → now ≤ expires_at → ltb expires_at now ≡ false
not_before now expires_at h = ground arith

pub verify_slot-sign_slot :
    (c : Codec) (now expires_at : Instant) (tenant_id job_id : Key) (start finish : Text)
    → Reads c (slot_json tenant_id job_id start finish expires_at)
    → now ≤ expires_at
    → verify_slot c now (sign_slot c (slot_json tenant_id job_id start finish expires_at))
      ≡ ok (record {
        tenant_id = some (str tenant_id);
        job_id = some (str job_id);
        start = some (str start);
        end = some (str finish);
      })
unfolding verify_slot sign_slot
verify_slot-sign_slot c now expires_at tenant_id job_id start finish reads h =
    rw (signed_part-token_of c _ reads.encoded reads.signed, reads.decoded)
      (unfold slot_json in unfold read_slot in rw (not_before now expires_at h) refl)

-- A token that a booking was answered with gives authority over its own job and tenant for ninety
-- days, and is refused exactly where another tenant is expected.
pub verify_management-sign_management :
    (c : Codec) (now later : Instant) (expected : Option Key) (tenant_id job_id : Key)
    → Reads c (management_json tenant_id job_id (now + management_ttl_ms))
    → later ≤ now + management_ttl_ms
    → verify_management_token c later expected (sign_management_token c now tenant_id job_id) ≡ (
        if is_expected expected tenant_id
        then ok (record { tenant_id = tenant_id; job_id = job_id })
        else err invalid_appointment_link)
unfolding verify_management_token sign_management_token text_eq
verify_management-sign_management c now later expected tenant_id job_id reads h =
    rw (signed_part-token_of c _ reads.encoded reads.signed, reads.decoded) (rw within refl)
  where
    within : leb later (now + management_ttl_ms) ≡ true
    within = ground arith

-- The token of a slot, which the customer holds before anything is booked, gives no authority over an
-- appointment, at no time and whatever the slot is.
pub verify_management-sign_slot :
    (c : Codec) (now expires_at : Instant) (expected : Option Key) (tenant_id job_id : Key)
    (start finish : Text)
    → Reads c (slot_json tenant_id job_id start finish expires_at)
    → verify_management_token c now expected
        (sign_slot c (slot_json tenant_id job_id start finish expires_at))
      ≡ err invalid_appointment_link
unfolding verify_management_token sign_slot
verify_management-sign_slot c now expires_at expected tenant_id job_id start finish reads =
    rw (signed_part-token_of c _ reads.encoded reads.signed, reads.decoded)
      (unfold slot_json in unfold read_management in refl)
