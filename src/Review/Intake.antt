-- ===== src/Review/Intake.antt =====
-- jobs/intake-readiness.service.ts: whether a request has what an assignment needs. The rows that a query
-- joins to the job are `Joined`; what the queries of transcripts and of audit entries answer is given.
pub mod Records
pub mod History
use signmons_calldesk_backen.Base.{
  ℕ, Bool, true, false, not, ◌&&◌, ◌||◌, Option, none, some, is_some, if◌then◌else◌, Instant,
  Result, ok, HttpError, not_found, Action, pure, or_throw, gets, ◌>>=◌, ◌>>◌, String, List, [],
  ◌∷◌, ◌++◌, map, take, length,
}
use signmons_calldesk_backen.Base.Text.{
  Text, Key, codes, text_eq, trim, to_lower, one_of, truthy, starts_with,
}
use signmons_calldesk_backen.Base.Json.{
  Json, Items, Fields, num, whole, bool, null, str, arr, obj, nil, cons, field, end, record_of,
  prop, is_true, text_of, is_text,
}
use signmons_calldesk_backen.Base.Audit.{Audit, Actor, person, user, Detail}
use signmons_calldesk_backen.Data.Enums.{JobStatus, JobUrgency}
use signmons_calldesk_backen.Data.Rows.{Job, Payment}
use signmons_calldesk_backen.Data.Store.{Store, Client, create_audit}
use signmons_calldesk_backen.Payments.Gate.{GateStatus}
use signmons_calldesk_backen.Payments.Requests.Reservation.{payment_of}
use signmons_calldesk_backen.Scheduling.{Joined, reference}
use signmons_calldesk_backen.Dispatch.Board.{gate_of, is_locked}
use signmons_calldesk_backen.Dispatch.Assign.{live_key}

-- `IntakeMissingField`
pub data MissingField : Type 0 where
  customer_name phone service_address service_category issue_summary urgency : MissingField
  preferred_window payment_status : MissingField

abbrev pub field_name : MissingField → String
field_name customer_name = "customerName"
field_name phone = "phone"
field_name service_address = "serviceAddress"
field_name service_category = "serviceCategory"
field_name issue_summary = "issueSummary"
field_name urgency = "urgency"
field_name preferred_window = "preferredWindow"
field_name payment_status = "paymentStatus"

pub data ReadinessState : Type 0 where
  ready_to_assign missing_info : ReadinessState

-- `IntakeReadiness`, without the time
pub record Readiness : Type 0 where
  pub state : ReadinessState
  pub missing_fields : List MissingField

pub data Priority : Type 0 where
  emergency high standard : Priority

-- `UNKNOWN_VALUES`
abbrev pub unknown_values : List Text
unknown_values = [] ∷ codes "unknown" ∷ codes "unknown address" ∷ []

unfoldable pub present : Option Text → Option Text
unfolding one_of
present none = none
present (some t) = if one_of (to_lower (trim t)) unknown_values then none else some (trim t)

abbrev pub unless_known : (Text → Bool) → Option Text → Bool
unless_known p none = true
unless_known p (some t) = p t

abbrev joined_window :
    (Instant → Text) → Option Instant → Option Instant → Option Text → Option Text
joined_window to_iso (some start) (some finish) label =
    some (to_iso start ++ codes " — " ++ to_iso finish)
joined_window to_iso _ _ label = label

abbrev or_else : Option Text → Option Text → Option Text
or_else none next = next
or_else (some t) next = some t

unfoldable pub preferred_window_of : (Instant → Text) → Joined → Job → Option Text
unfolding present
preferred_window_of to_iso row j =
    or_else (present j.preferred_time_text)
      (joined_window to_iso j.service_window_start j.service_window_end row.preferred_window_label)

abbrev pub push_if : Bool → MissingField → List MissingField → List MissingField
push_if true f fs = f ∷ fs
push_if false f fs = fs

-- The column `urgency` is never null, so it is never missing.
unfoldable pub missing_fields : (Instant → Text) → Joined → Job → Option Payment → List MissingField
unfolding present preferred_window_of text_eq
missing_fields to_iso row j p =
    push_if
      (unless_known (λ t. text_eq (to_lower t) (codes "unknown caller"))
        (present (some row.full_name)))
      customer_name
      (push_if
        (unless_known (λ t. starts_with (to_lower t) (codes "unknown-")) (present (some row.phone)))
        phone
        (push_if (not (is_some (present (some row.formatted_address)))) service_address (
          push_if (not (is_some (present (some row.service_category)))) service_category (
            push_if (not (is_some (present row.description))) issue_summary (
              push_if (unless_known (λ t. not (truthy t)) (preferred_window_of to_iso row j))
                preferred_window (push_if (is_locked (gate_of j p)) payment_status []))))))

abbrev state_of : List MissingField → ReadinessState
state_of [] = ready_to_assign
state_of (_ ∷ _) = missing_info

unfoldable pub readiness : (Instant → Text) → Joined → Job → Option Payment → Readiness
unfolding missing_fields
readiness to_iso row j p =
    let missing = missing_fields to_iso row j p in
    record { state = state_of missing; missing_fields = missing }

abbrev priority : Job → Priority
priority j = of_urgency j.urgency
  where
    of_urgency : JobUrgency → Priority
    of_urgency JobUrgency.emergency = Priority.emergency
    of_urgency JobUrgency.high = Priority.high
    of_urgency JobUrgency.standard = Priority.standard

-- The strings of the items that begin with "https://".
abbrev secure_links : Items → List Text
secure_links nil = []
secure_links (cons (str t) vs) =
    let rest = secure_links vs in if starts_with t (codes "https://") then t ∷ rest else rest
secure_links (cons v vs) = secure_links vs

unfoldable pub photos : Option Json → List Text
photos (some (arr vs)) = take 10 (secure_links vs)
photos _ = []

pub record IntakeSummary : Type 0 where
  pub job_id : Key
  pub reference : Text
  pub customer_name : Option Text
  pub phone : Option Text
  pub service_address : Option Text
  pub service_category : Option Text
  pub issue_summary : Option Text
  pub urgency : JobUrgency
  pub priority : Priority
  pub preferred_window : Option Text
  pub photos : List Text
  pub payment_status : GateStatus
  pub deposit_required : Bool
  pub status : JobStatus
  pub source_channel : Option Text
  pub created_at : Instant
  pub readiness : Readiness

unfoldable pub to_summary : (Instant → Text) → Joined → Job → Option Payment → IntakeSummary
unfolding present preferred_window_of photos readiness
to_summary to_iso row j p =
    let snapshot = record_of (some j.policy_snapshot) in
    record {
      job_id = j.id;
      reference = reference j.id;
      customer_name = present (some row.full_name);
      phone = present (some row.phone);
      service_address = present (some row.formatted_address);
      service_category = present (some row.service_category);
      issue_summary = present row.description;
      urgency = j.urgency;
      priority = priority j;
      preferred_window = preferred_window_of to_iso row j;
      photos = photos (prop snapshot "photos");
      payment_status = (gate_of j p).payment_status;
      deposit_required = is_true (prop snapshot "depositRequired");
      status = j.status;
      source_channel = text_of (prop (record_of (prop snapshot "leadAttribution")) "channel");
      created_at = row.created_at;
      readiness = readiness to_iso row j p;
    }

pub record ReviewRequest : Type 0 where
  pub tenant_id : Key
  pub job_id : Key
  pub actor_id : Key
  pub trace_id : Option Key

abbrev pub state_name : ReadinessState → String
state_name ready_to_assign = "READY_TO_ASSIGN"
state_name missing_info = "MISSING_INFO"

unfoldable pub review_audit : ReviewRequest → Readiness → Audit
review_audit r x = record {
  tenant_id = r.tenant_id;
  action = "job.intake_readiness_reviewed";
  actor_type = user;
  actor_id = person r.actor_id;
  entity_type = "Job";
  entity_id = r.job_id;
  metadata =
      ("state", Detail.word (state_name x.state))
      ∷ ("missingFields", Detail.words (map field_name x.missing_fields))
      ∷ [];
  trace_id = r.trace_id;
}

module _ {J P T U E A : Type 0} (db : Client J P T U E A) (to_iso : Instant → Text)
    (joins : Job → Joined) where
  abbrev S : Type 0
  S = Store J P T U E A

  -- The request with its payment.
  unfoldable pub find_job : Key → Key → Action S (Job × Option Payment)
  find_job tenant_id job_id = do
    row ← gets (λ s. db.job.find_first (live_key tenant_id job_id) s.jobs)
    j ← or_throw row (not_found "Intake request was not found.")
    p ← gets (λ s. db.payment.find_first (payment_of j.tenant_id j.id) s.payments)
    pure (j, p)

  unfoldable pub review_found : ReviewRequest → Job × Option Payment → Action S Readiness
  unfolding to_summary review_audit
  review_found r (j, p) = do
    create_audit db (review_audit r (to_summary to_iso (joins j) j p).readiness)
    pure (to_summary to_iso (joins j) j p).readiness

  unfoldable pub review : ReviewRequest → Action S Readiness
  unfolding find_job review_found
  review r = do found ← find_job r.tenant_id r.job_id; review_found r found
