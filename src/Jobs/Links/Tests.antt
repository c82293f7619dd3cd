-- ===== src/Jobs/Links/Tests.antt =====
-- The theorems on technicians' links, applied to a small link.
use signmons_calldesk_backen.Base.{◌≤◌, true, none, some, ok, length, ◌≡◌, refl, arith}
use signmons_calldesk_backen.Base.Text.{Text, codes, is_uuid}
use signmons_calldesk_backen.Base.Json.{Json}
use signmons_calldesk_backen.Base.Token.{Codec, IsEncoded}
use signmons_calldesk_backen.Jobs.Technician.{User}
use signmons_calldesk_backen.Jobs.Links.{
  payload_json, verify, IssueRequest, LinkConfig, issued_link,
}
use signmons_calldesk_backen.Jobs.Links.RoundTrip.{IsSigned, verify-issued_link, verify-IsSigned}

-- A codec whose two texts are fixed, and which reads one payload back.
abbrev codec_of : Json → Codec
codec_of payload = record {
  sign = λ t. codes "c2ln";
  encode = λ j. codes "cGF5bG9hZA";
  decode = λ t. some payload;
}

abbrev link_config : LinkConfig
link_config = record {
  technician_link_ttl_hours = 24;
  technician_app_base_url = codes "https://app.example.com/technician";
  encode_uri_component = λ t. t;
}

abbrev uuid_one : Text
uuid_one = codes "11111111-1111-4111-8111-111111111111"

abbrev link_request : IssueRequest
link_request = record {
  tenant_id = uuid_one;
  technician_id = uuid_one;
  expires_in_hours = none;
  actor_id = codes "u1";
  trace_id = none;
}

abbrev link_user : User
link_user = record { id = uuid_one; tenant_id = uuid_one; is_technician = true; is_active = true }

abbrev link_codec : Codec
link_codec = codec_of (payload_json uuid_one uuid_one 1000 86_401_000 uuid_one)

plain_text : IsEncoded (codes "cGF5bG9hZA")
plain_text =
    (refl, (refl, (refl, (refl, (refl, (refl, (refl, (refl, (refl, (refl, (refl, tt)))))))))))

signed_text : IsEncoded (codes "c2ln")
signed_text = (refl, (refl, (refl, (refl, (refl, tt)))))

short_link :
    length (issued_link link_codec link_config 1000 uuid_one link_request link_user).token ≤ 2048
unfolding issued_link
short_link = omega arith

verify-issued_link_example :
    verify link_codec 5000
      (some (issued_link link_codec link_config 1000 uuid_one link_request link_user).token)
    ≡ ok (record {
      access = record { tenant_id = uuid_one; technician_id = uuid_one };
      expires_at = 86_401_000;
    })
unfolding is_uuid
verify-issued_link_example =
    verify-issued_link link_codec link_config 1000 5000 uuid_one link_request link_user refl refl
      refl (omega arith) (omega arith) (omega arith) (omega arith) plain_text signed_text short_link
      refl

verify-IsSigned_example :
    IsSigned link_codec 5000
      (issued_link link_codec link_config 1000 uuid_one link_request link_user).token
      (record {
        access = record { tenant_id = uuid_one; technician_id = uuid_one };
        expires_at = 86_401_000;
      })
verify-IsSigned_example =
    verify-IsSigned link_codec 5000
      (issued_link link_codec link_config 1000 uuid_one link_request link_user).token
      verify-issued_link_example
