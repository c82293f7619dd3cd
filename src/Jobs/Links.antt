-- ===== src/Jobs/Links.antt =====
-- jobs/technician-link.service.ts: the links by which a technician enters. The digest and the encoding
-- of the payload are a codec; the address of the app and `encodeURIComponent` are given.
pub mod RoundTrip
mod Tests
use signmons_calldesk_backen.Base.{
  ℕ, ◌+◌, ◌*◌, Bool, true, false, not, ◌&&◌, ◌||◌, Option, none, some, coalesce, if◌then◌else◌, ltb,
  leb, Instant, Result, ok, err, HttpError, unauthorized, not_found, Action, pure, or_throw, ◌>>=◌,
  ◌>>◌, List, [], ◌∷◌, ◌++◌, length, find, ◌==◌,
}
use signmons_calldesk_backen.Base.Text.{Text, Key, codes, text_eq, truthy, trim, is_uuid}
use signmons_calldesk_backen.Base.Json.{
  Json, Number, whole, negative, num, str, obj, field, end, record_of, prop, text_of, is_text,
  max_safe_integer,
}
use signmons_calldesk_backen.Base.Token.{Codec, split, token_of}
use signmons_calldesk_backen.Base.Audit.{Audit, person, user, Detail}
use signmons_calldesk_backen.Data.Store.{Store, Client, create_audit}
use signmons_calldesk_backen.Jobs.Technician.{User, Access}

-- Five minutes.
abbrev pub clock_skew_ms : ℕ
clock_skew_ms = 300_000

-- 168 hours.
abbrev pub maximum_ttl_ms : ℕ
maximum_ttl_ms = 604_800_000

abbrev hour_ms : ℕ
hour_ms = 3_600_000

abbrev token_purpose : Text
token_purpose = codes "technician-workflow"

-- TechnicianLinkPayload, of version 1
pub record LinkPayload : Type 0 where
  pub tenant_id : Key
  pub technician_id : Key
  pub issued_at : Number
  pub expires_at : Number

-- VerifiedTechnicianLink
pub record VerifiedLink : Type 0 where
  pub access : Access
  pub expires_at : Instant

abbrev pub invalid_link : HttpError
invalid_link = unauthorized "Technician link is invalid or expired."

-- `JSON.stringify` gives the fields in this order.
unfoldable pub payload_json : Key → Key → Instant → Instant → Text → Json
payload_json tenant_id technician_id issued_at expires_at nonce = obj (
    field "version" (num (whole 1)) (
      field "purpose" (str token_purpose) (
        field "tenantId" (str tenant_id) (
          field "technicianId" (str technician_id) (
            field "issuedAt" (num (whole issued_at))
              (field "expiresAt" (num (whole expires_at)) (field "nonce" (str nonce) end)))))))

-- `typeof value === "string" && UUID_PATTERN.test(value)`
abbrev uuid_of : Option Json → Option Key
uuid_of (some (str t)) = if is_uuid t then some t else none
uuid_of _ = none

-- `typeof value === "number" && Number.isSafeInteger(value)`
abbrev safe_integer : Option Json → Option Number
safe_integer (some (num (whole n))) = if leb n max_safe_integer then some (whole n) else none
safe_integer (some (num (negative n))) = if ltb n max_safe_integer then some (negative n) else none
safe_integer _ = none

-- `value === TOKEN_VERSION`
abbrev is_version : Option Json → Bool
is_version (some (num (whole n))) = n == 1
is_version _ = false

abbrev payload_parts :
    Option Key → Option Key → Option Number → Option Number → Option Key → Option LinkPayload
payload_parts (some tenant_id) (some technician_id) (some issued_at) (some expires_at) (some _) =
    some (record {
      tenant_id = tenant_id;
      technician_id = technician_id;
      issued_at = issued_at;
      expires_at = expires_at;
    })
payload_parts _ _ _ _ _ = none

-- `isPayload`, with the payload that it admits
unfoldable pub read_payload : Json → Option LinkPayload
read_payload value =
    let payload = record_of (some value) in
    if is_version (prop payload "version") && is_text (prop payload "purpose") token_purpose
    then payload_parts (uuid_of (prop payload "tenantId")) (uuid_of (prop payload "technicianId"))
        (safe_integer (prop payload "issuedAt")) (safe_integer (prop payload "expiresAt"))
        (uuid_of (prop payload "nonce"))
    else none

-- The end of a link that is in force: it was not issued in the future, has not ended, and does not
-- last longer than a week.
unfoldable pub live_until : Instant → Number → Number → Option Instant
live_until now (whole issued_at) (whole expires_at) =
    if ltb (now + clock_skew_ms) issued_at
      || leb expires_at now
      || ltb (issued_at + maximum_ttl_ms) expires_at
    then none
    else some expires_at
live_until now (negative n) (whole expires_at) =
    if leb expires_at now || ltb maximum_ttl_ms (expires_at + n + 1) then none else some expires_at
live_until now _ _ = none

unfoldable pub check_payload : Instant → Option LinkPayload → Result VerifiedLink
unfolding live_until
check_payload now none = err invalid_link
check_payload now (some p) = ending (live_until now p.issued_at p.expires_at)
  where
    ending : Option Instant → Result VerifiedLink
    ending none = err invalid_link
    ending (some at) = ok (record {
      access = record { tenant_id = p.tenant_id; technician_id = p.technician_id };
      expires_at = at;
    })

abbrev bind_payload : Option Json → Option LinkPayload
bind_payload none = none
bind_payload (some value) = read_payload value

-- The digest is ASCII, so the bytes in UTF-8 are equal exactly where the texts are.
unfoldable pub check_parts : Codec → Instant → List Text → Result VerifiedLink
unfolding read_payload check_payload
check_parts c now (encoded ∷ supplied ∷ []) =
    if not (truthy encoded) || not (truthy supplied) || not (text_eq supplied (c.sign encoded))
    then err invalid_link
    else check_payload now (bind_payload (c.decode encoded))
check_parts c now _ = err invalid_link

unfoldable pub check_token : Codec → Instant → Text → Result VerifiedLink
unfolding check_parts split
check_token c now token =
    if not (truthy token) || ltb 2048 (length token)
    then err invalid_link
    else check_parts c now (split b'.' token)

unfoldable pub verify : Codec → Instant → Option Text → Result VerifiedLink
unfolding check_token
verify c now none = err invalid_link
verify c now (some raw) = check_token c now (trim raw)

pub record IssueRequest : Type 0 where
  pub tenant_id : Key
  pub technician_id : Key
  pub expires_in_hours : Option ℕ
  pub actor_id : Key
  pub trace_id : Option Key

pub record IssuedLink : Type 0 where
  pub technician_id : Key
  pub expires_at : Instant
  pub token : Text
  pub url : Text

-- What the configuration and the environment give to `issue`: the default lifetime, the app's address
-- without its fragment, and the escaping of a URL's component.
pub record LinkConfig : Type 0 where
  pub technician_link_ttl_hours : ℕ
  pub technician_app_base_url : Text
  pub encode_uri_component : Text → Text

abbrev pub ttl_hours : LinkConfig → IssueRequest → ℕ
ttl_hours config r = coalesce r.expires_in_hours config.technician_link_ttl_hours

abbrev pub link_expiry : LinkConfig → IssueRequest → Instant → Instant
link_expiry config r now = now + ttl_hours config r * hour_ms

abbrev technician_key : IssueRequest → User → Bool
technician_key r u =
    text_eq u.id r.technician_id
    && text_eq u.tenant_id r.tenant_id
    && u.is_technician
    && u.is_active

unfoldable pub link_audit : LinkConfig → IssueRequest → Instant → User → Audit
link_audit config r now u = record {
  tenant_id = r.tenant_id;
  action = "technician.link_issued";
  actor_type = user;
  actor_id = person r.actor_id;
  entity_type = "User";
  entity_id = u.id;
  metadata =
      ("expiresAt", Detail.time (link_expiry config r now))
      ∷ ("ttlHours", Detail.amount (ttl_hours config r))
      ∷ [];
  trace_id = r.trace_id;
}

unfoldable pub issued_link : Codec → LinkConfig → Instant → Text → IssueRequest → User → IssuedLink
unfolding payload_json token_of
issued_link c config now nonce r u =
    let expires_at = link_expiry config r now in
    let token = token_of c (c.encode (payload_json r.tenant_id u.id now expires_at nonce)) in
    record {
      technician_id = u.id;
      expires_at = expires_at;
      token = token;
      url = config.technician_app_base_url ++ b'#' ∷ config.encode_uri_component token;
    }

module _ {J P T U E A : Type 0} (db : Client J P T U E A) where
  unfoldable pub issue :
      Codec
      → LinkConfig
      → Instant
      → Text
      → List User
      → IssueRequest
      → Action (Store J P T U E A) IssuedLink
  unfolding issued_link link_audit
  issue c config now nonce users r = do
    u ← or_throw (find (technician_key r) users) (not_found "Active technician was not found.")
    create_audit db (link_audit config r now u)
    pure (issued_link c config now nonce r u)
