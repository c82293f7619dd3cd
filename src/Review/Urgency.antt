-- ===== src/Review/Urgency.antt =====
-- jobs/urgency-review.service.ts: `override` and what a review shows of a job's urgency.
pub mod Overriding
pub mod Reasons
use signmons_calldesk_backen.Base.{
  ℕ, ◌≤◌, Bool, true, false, not, ◌&&◌, Option, none, some, is_some, if◌then◌else◌, leb, ◌==◌,
  Instant, Result, ok, err, HttpError, not_found, unexpected, Action, pure, throw, throw_if, lift,
  gets, ◌>>=◌, ◌>>◌, transaction, String, List, [], ◌∷◌, map, take, length,
}
use signmons_calldesk_backen.Base.Text.{Text, Key, codes, text_eq}
use signmons_calldesk_backen.Base.Json.{
  Json, Items, Fields, str, arr, obj, nil, cons, field, end, set_field, record_of, prop, text_of,
  is_text,
}
use signmons_calldesk_backen.Base.Audit.{Audit, person, user, Detail}
use signmons_calldesk_backen.Data.Enums.{urgency_eq, JobUrgency}
use signmons_calldesk_backen.Data.Rows.{Job}
use signmons_calldesk_backen.Data.Store.{Store, Client, update_jobs, create_audit}
use signmons_calldesk_backen.Payments.Requests.Exceptions.{snapshot_of}

pub record OverrideRequest : Type 0 where
  pub tenant_id : Key
  pub job_id : Key
  pub actor_id : Key
  pub urgency : JobUrgency
  pub reason : Text
  pub trace_id : Option Key

pub record Overridden : Type 0 where
  pub job_id : Key
  pub previous_urgency : JobUrgency
  pub urgency : JobUrgency
  pub changed : Bool

abbrev urgency_name : JobUrgency → String
urgency_name JobUrgency.standard = "STANDARD"
urgency_name JobUrgency.high = "HIGH"
urgency_name JobUrgency.emergency = "EMERGENCY"

abbrev pub review_key : OverrideRequest → Job → Bool
review_key r j =
    text_eq j.id r.job_id && text_eq j.tenant_id r.tenant_id && not (is_some j.deleted_at)

abbrev pub id_key : Key → Job → Job → Bool
id_key tenant_id j k = text_eq k.id j.id && text_eq k.tenant_id tenant_id

unfoldable pub urgency_decision : JobUrgency → Json
urgency_decision urgency = obj (
    field "source" (str (codes "OPERATOR_OVERRIDE")) (
      field "level" (str (codes (urgency_name urgency))) (
        field "reasonCodes" (arr (cons (str (codes "OPERATOR_OVERRIDE")) nil))
          (field "confidenceNote" (str (codes "Authorized operator decision.")) end))))

-- The data of the update; `j` is the job that was read.
unfoldable pub set_urgency : Instant → JobUrgency → Job → Job → Job
unfolding urgency_decision
set_urgency now urgency j k = record k {
  urgency = urgency;
  policy_snapshot = obj (set_field "urgencyDecision" (urgency_decision urgency) (snapshot_of j));
  updated_at = now;
}

unfoldable pub override_audit : Instant → OverrideRequest → Job → Audit
override_audit now r j = record {
  tenant_id = r.tenant_id;
  action = "job.urgency_overridden";
  actor_type = user;
  actor_id = person r.actor_id;
  entity_type = "Job";
  entity_id = j.id;
  metadata =
      ("previousUrgency", Detail.word (urgency_name j.urgency))
      ∷ ("urgency", Detail.word (urgency_name r.urgency))
      ∷ ("reason", Detail.text r.reason)
      ∷ ("decisionSource", Detail.word "OPERATOR_OVERRIDE")
      ∷ ("changedAt", Detail.time now)
      ∷ [];
  trace_id = r.trace_id;
}

abbrev pub unchanged : Job → Overridden
unchanged j = record {
  job_id = j.id;
  previous_urgency = j.urgency;
  urgency = j.urgency;
  changed = false;
}

module _ {J P T U E A : Type 0} (db : Client J P T U E A) where
  abbrev S : Type 0
  S = Store J P T U E A

  -- `job.update` throws where there is no such row.
  unfoldable pub write_override : Instant → OverrideRequest → Job → Action S Overridden
  unfolding set_urgency override_audit
  write_override now r j = do
    count ← update_jobs db (id_key r.tenant_id j) (set_urgency now r.urgency j)
    throw_if (count == 0) unexpected
    create_audit db (override_audit now r j)
    pure (record {
      job_id = j.id;
      previous_urgency = j.urgency;
      urgency = r.urgency;
      changed = true;
    })

  unfoldable pub override_found : Instant → OverrideRequest → Option Job → Action S Overridden
  unfolding write_override
  override_found now r none = throw (not_found "Urgency review was not found.")
  override_found now r (some j) =
      if urgency_eq j.urgency r.urgency then pure (unchanged j) else write_override now r j

  -- The read sees `seen`: other transactions may have been committed since.
  unfoldable pub override : Instant → S → OverrideRequest → Action S Overridden
  unfolding override_found
  override now seen r =
      transaction (override_found now r (db.job.find_first (review_key r) seen.jobs))

pub data DecisionSource : Type 0 where
  ai_intake operator_override legacy_persisted : DecisionSource

unfoldable pub decision_source : Option Json → DecisionSource
unfolding text_eq
decision_source v =
    if is_text v (codes "AI_INTAKE")
    then ai_intake
    else if is_text v (codes "OPERATOR_OVERRIDE")
    then operator_override
    else legacy_persisted

-- The texts of at most 80 units among the items.
abbrev short_texts : Items → List Text
short_texts nil = []
short_texts (cons (str t) vs) =
    let rest = short_texts vs in if leb (length t) 80 then t ∷ rest else rest
short_texts (cons v vs) = short_texts vs

abbrev legacy_code : JobUrgency → Text
legacy_code JobUrgency.emergency = codes "LEGACY_EMERGENCY_CLASSIFICATION"
legacy_code JobUrgency.high = codes "LEGACY_HIGH_CLASSIFICATION"
legacy_code JobUrgency.standard = codes "NO_ESCALATION_SIGNAL"

abbrev or_legacy : JobUrgency → List Text → List Text
or_legacy urgency [] = legacy_code urgency ∷ []
or_legacy urgency (t ∷ ts) = take 5 (t ∷ ts)

unfoldable pub reason_codes : Option Json → JobUrgency → List Text
reason_codes (some (arr vs)) urgency = or_legacy urgency (short_texts vs)
reason_codes _ urgency = legacy_code urgency ∷ []

unfoldable pub reason_label : Text → String
unfolding text_eq
reason_label code =
    if text_eq code (codes "QUALIFYING_EMERGENCY_SIGNAL")
    then "A qualifying emergency signal was recorded during intake."
    else if text_eq code (codes "TIME_SENSITIVE_SERVICE_SIGNAL")
    then "A time-sensitive essential-service need was recorded."
    else if text_eq code (codes "NO_ESCALATION_SIGNAL")
    then "No emergency or high-priority signal was recorded."
    else if text_eq code (codes "OPERATOR_OVERRIDE")
    then "An authorized operator changed the classification."
    else if text_eq code (codes "LEGACY_EMERGENCY_CLASSIFICATION")
    then "This legacy request was persisted as emergency."
    else if text_eq code (codes "LEGACY_HIGH_CLASSIFICATION")
    then "This legacy request was persisted as high priority."
    else "A bounded operational reason code was recorded."

pub record Rationale : Type 0 where
  pub decision_source : DecisionSource
  pub reason_codes : List Text
  pub trigger_details : List String
  pub confidence_note : Text

abbrev note_or_legacy : Option Text → Text
note_or_legacy none = codes "Legacy classification; operator verification required."
note_or_legacy (some t) = t

unfoldable pub rationale : Job → Rationale
unfolding decision_source reason_codes reason_label
rationale j =
    let decision = record_of (prop (record_of (some j.policy_snapshot)) "urgencyDecision") in
    let shown = reason_codes (prop decision "reasonCodes") j.urgency in
    record {
      decision_source = decision_source (prop decision "source");
      reason_codes = shown;
      trigger_details = map reason_label shown;
      confidence_note = note_or_legacy (text_of (prop decision "confidenceNote"));
    }
