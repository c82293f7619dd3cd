-- ===== src/Review/Intake/Records.antt =====
-- jobs/intake-readiness.service.ts: how entries of the transcript and of the reviews' history are read.
use signmons_calldesk_backen.Base.{
  Option, none, some, if◌then◌else◌, Instant, String, List, [], ◌∷◌,
}
use signmons_calldesk_backen.Base.Text.{Text, codes, text_eq, trim, truthy}
use signmons_calldesk_backen.Base.Json.{
  Json, Items, Fields, num, whole, bool, null, str, arr, obj, nil, cons, field, end, record_of,
  prop, text_of, is_text,
}
use signmons_calldesk_backen.Base.Audit.{Audit, Actor, Detail}
use signmons_calldesk_backen.Review.Intake.{
  MissingField, ReadinessState, ready_to_assign, missing_info, customer_name, phone,
  service_address, service_category, issue_summary, urgency, preferred_window, payment_status,
}

pub data TranscriptRole : Type 0 where
  caller assistant system : TranscriptRole

pub record TranscriptEntry : Type 0 where
  pub role : TranscriptRole
  pub content : Text

-- `toTranscriptEntry`, on the payload
unfoldable pub to_transcript_entry : Json → Option TranscriptEntry
unfolding text_eq
to_transcript_entry v = said (text_of (prop (record_of (some v)) "message"))
  where
    role : TranscriptRole
    role =
        if is_text (prop (record_of (some v)) "role") (codes "user")
        then caller
        else if is_text (prop (record_of (some v)) "role") (codes "assistant")
        then assistant
        else system

    said : Option Text → Option TranscriptEntry
    said none = none
    said (some t) = if truthy (trim t) then some (record { role = role; content = t }) else none

-- What the database keeps of an entry's metadata.
abbrev pub words_json : List String → Items
words_json [] = nil
words_json (w ∷ ws) = cons (str (codes w)) (words_json ws)

abbrev detail_json : (Instant → Text) → Detail → Json
detail_json to_iso (Detail.text t) = str t
detail_json to_iso (Detail.word w) = str (codes w)
detail_json to_iso (Detail.words ws) = arr (words_json ws)
detail_json to_iso (Detail.amount n) = num (whole n)
detail_json to_iso (Detail.time t) = str (to_iso t)
detail_json to_iso (Detail.flag b) = bool b
detail_json to_iso Detail.absent = null

abbrev metadata_json : (Instant → Text) → List (String × Detail) → Fields
metadata_json to_iso [] = end
metadata_json to_iso ((k, d) ∷ ds) = field k (detail_json to_iso d) (metadata_json to_iso ds)

pub record ReviewEntry : Type 0 where
  pub state : ReadinessState
  pub missing_fields : List MissingField
  pub actor_id : Actor

unfoldable pub field_of : Text → Option MissingField
unfolding text_eq
field_of t =
    if text_eq t (codes "customerName")
    then some customer_name
    else if text_eq t (codes "phone")
    then some phone
    else if text_eq t (codes "serviceAddress")
    then some service_address
    else if text_eq t (codes "serviceCategory")
    then some service_category
    else if text_eq t (codes "issueSummary")
    then some issue_summary
    else if text_eq t (codes "urgency")
    then some urgency
    else if text_eq t (codes "preferredWindow")
    then some preferred_window
    else if text_eq t (codes "paymentStatus")
    then some payment_status
    else none

abbrev keep_some : Option MissingField → List MissingField → List MissingField
keep_some none fs = fs
keep_some (some f) fs = f ∷ fs

-- `String(field)` of an array of one name is that name; `review` writes no such item, and here it is left
-- out.
unfoldable pub named_fields : Items → List MissingField
unfolding field_of
named_fields nil = []
named_fields (cons (str t) vs) = keep_some (field_of t) (named_fields vs)
named_fields (cons v vs) = named_fields vs

unfoldable pub fields_of : Option Json → List MissingField
unfolding named_fields
fields_of (some (arr vs)) = named_fields vs
fields_of _ = []

-- One entry of `getReviewHistory`.
unfoldable pub review_entry : (Instant → Text) → Audit → ReviewEntry
unfolding fields_of text_eq
review_entry to_iso a =
    let metadata = record_of (some (obj (metadata_json to_iso a.metadata))) in
    record {
      state =
          if is_text (prop metadata "state") (codes "READY_TO_ASSIGN")
          then ready_to_assign
          else missing_info;
      missing_fields = fields_of (prop metadata "missingFields");
      actor_id = a.actor_id;
    }
