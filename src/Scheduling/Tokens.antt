-- ===== src/Scheduling/Tokens.antt =====
-- scheduling/scheduling.service.ts: the signed tokens of a slot and of an appointment's management.
-- The digest and the encoding are a codec.
pub mod Separation
use signmons_calldesk_backen.Base.{
  ℕ, ◌+◌, Bool, true, false, not, ◌&&◌, ◌||◌, Option, none, some, if◌then◌else◌, ltb, leb, Instant,
  Result, ok, err, HttpError, bad_request, List, [], ◌∷◌, ◌==◌, ◌≡◌, ◌≢◌, ◌≤◌, refl, arith,
}
use signmons_calldesk_backen.Base.Text.{Text, Key, codes, text_eq, text_eq_refl, truthy}
use signmons_calldesk_backen.Base.Json.{
  Json, Fields, Number, whole, negative, fraction, null, bool, num, str, arr, obj, field, end, prop,
  record_of, text_of, is_text,
}
use signmons_calldesk_backen.Base.Token.{Codec, split, token_of, IsEncoded, split-token_of}
use signmons_calldesk_backen.Scheduling.{Settings, JobRecord}

-- Thirty minutes.
abbrev pub slot_ttl_ms : ℕ
slot_ttl_ms = 1_800_000

-- Ninety days.
abbrev pub management_ttl_ms : ℕ
management_ttl_ms = 7_776_000_000

abbrev pub invalid_choice : HttpError
invalid_choice = bad_request "This appointment choice is invalid."

abbrev pub invalid_appointment_link : HttpError
invalid_appointment_link = bad_request "This appointment link is invalid or has expired."

-- SignedSlot, with the fields as they are read: no field has a type that was checked.
pub record SignedSlot : Type 0 where
  pub tenant_id : Option Json
  pub job_id : Option Json
  pub start : Option Json
  pub end : Option Json

unfoldable pub slot_json : Key → Key → Text → Text → Instant → Json
slot_json tenant_id job_id start end_text expires_at = obj (
    field "tenantId" (str tenant_id) (
      field "jobId" (str job_id) (
        field "start" (str start)
          (field "end" (str end_text) (field "expiresAt" (num (whole expires_at)) end)))))

unfoldable pub sign_slot : Codec → Json → Text
unfolding token_of
sign_slot c payload = token_of c (c.encode payload)

unfoldable pub management_json : Key → Key → Instant → Json
management_json tenant_id job_id expires_at = obj (
    field "version" (num (whole 1)) (
      field "purpose" (str (codes "appointment-management")) (
        field "tenantId" (str tenant_id)
          (field "jobId" (str job_id) (field "expiresAt" (num (whole expires_at)) end)))))

unfoldable pub sign_management_token : Codec → Instant → Key → Key → Text
unfolding token_of management_json
sign_management_token c now tenant_id job_id =
    token_of c (c.encode (management_json tenant_id job_id (now + management_ttl_ms)))

-- `const [encoded, suppliedSignature] = token.split(".")`, with the signature checked. The digest is
-- ASCII, so the bytes in UTF-8 are equal exactly where the texts are.
unfoldable pub signed_part : Codec → Text → Option Text
unfolding split
signed_part c token = first_two (split b'.' token)
  where
    first_two : List Text → Option Text
    first_two (encoded ∷ supplied ∷ _) =
        if truthy encoded && truthy supplied && text_eq supplied (c.sign encoded)
        then some encoded
        else none
    first_two _ = none

-- `value < now` for a field that may be missing: `undefined` is not less. The service's tokens hold whole
-- numbers there; what JavaScript converts to a number, and fractions, are taken as not less.
abbrev pub is_before : Instant → Option Json → Bool
is_before now (some (num (whole n))) = ltb n now
is_before now (some (num (negative n))) = true
is_before now _ = false

-- `verifySlot`, once the payload is parsed. Reading a field of null throws, which is caught.
unfoldable pub read_slot : Instant → Option Json → Result SignedSlot
read_slot now none = err invalid_choice
read_slot now (some null) = err invalid_choice
read_slot now (some payload) =
    let fields = record_of (some payload) in
    if is_before now (prop fields "expiresAt")
    then err (bad_request "This appointment choice has expired.")
    else ok (record {
      tenant_id = prop fields "tenantId";
      job_id = prop fields "jobId";
      start = prop fields "start";
      end = prop fields "end";
    })

abbrev decode_part : Codec → Option Text → Option Json
decode_part c none = none
decode_part c (some encoded) = c.decode encoded

unfoldable pub verify_slot : Codec → Instant → Text → Result SignedSlot
unfolding signed_part read_slot
verify_slot c now token = read_slot now (decode_part c (signed_part c token))

-- SignedAppointmentManagement
pub record Authority : Type 0 where
  pub tenant_id : Key
  pub job_id : Key

-- `typeof value !== "number" || value < now`, negated
abbrev not_ended : Instant → Option Json → Bool
not_ended now (some (num (whole n))) = leb now n
not_ended now (some (num (fraction k))) = true
not_ended now _ = false

abbrev is_one : Option Json → Bool
is_one (some (num (whole n))) = n == 1
is_one _ = false

abbrev pub is_expected : Option Key → Key → Bool
is_expected none tenant_id = true
is_expected (some expected) tenant_id = text_eq tenant_id expected

unfoldable pub read_management : Instant → Option Key → Option Fields → Result Authority
read_management now expected payload =
    both (text_of (prop payload "tenantId")) (text_of (prop payload "jobId"))
  where
    both : Option Key → Option Key → Result Authority
    both (some tenant_id) (some job_id) =
        if is_one (prop payload "version")
          && is_text (prop payload "purpose") (codes "appointment-management")
          && not_ended now (prop payload "expiresAt")
          && is_expected expected tenant_id
        then ok (record { tenant_id = tenant_id; job_id = job_id })
        else err invalid_appointment_link
    both _ _ = err invalid_appointment_link

unfoldable pub verify_management_token : Codec → Instant → Option Key → Text → Result Authority
unfolding signed_part read_management
verify_management_token c now expected token =
    read_management now expected (record_of (decode_part c (signed_part c token)))
