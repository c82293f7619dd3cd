-- ===== src/Dispatch/Routing.antt =====
-- jobs/routing.service.ts: `evaluateJob`, the rule that a job falls under. The queries' answers are given
-- in the order that the service asks for, and the local weekday and hour of a time come from the engine.
pub mod Matching
use signmons_calldesk_backen.Base.{
  ℕ, ◌≤◌, Bool, true, false, not, ◌&&◌, ◌||◌, Option, none, some, is_some, coalesce, when_some,
  if◌then◌else◌, leb, ltb, ◌==◌, Instant, Result, ok, err, not_found, String, List, [], ◌∷◌, ◌++◌,
  map, take, filter, find, any,
}
use signmons_calldesk_backen.Base.Text.{Text, Key, codes, text_eq, truthy, is_digit, one_of}
use signmons_calldesk_backen.Base.Json.{
  Json, Items, null, str, arr, obj, nil, cons, record_of, prop, text_of, is_text,
}
use signmons_calldesk_backen.Dispatch.Postal.{items_of, postal_code}
use signmons_calldesk_backen.Data.Enums.{urgency_eq, JobUrgency}
use signmons_calldesk_backen.Data.Rows.{Job}

pub data RoutingTimeScope : Type 0 where
  any_time business_hours after_hours : RoutingTimeScope

pub data ServiceAreaType : Type 0 where
  zip radius polygon : ServiceAreaType

pub record ServiceArea : Type 0 where
  pub id : Key
  pub is_active : Bool
  pub type : ServiceAreaType
  pub definition : Json

-- A rule with its area.
pub record RoutingRule : Type 0 where
  pub id : Key
  pub tenant_id : Key
  pub name : Text
  pub is_active : Bool
  pub priority : ℕ
  pub service_category_id : Option Key
  pub service_area : Option ServiceArea
  pub urgency : Option JobUrgency
  pub time_scope : RoutingTimeScope
  pub require_available : Bool
  pub require_on_call : Bool
  pub escalate_to_owner : Bool
  pub escalate_to_on_call : Bool

pub data UserRole : Type 0 where
  owner admin dispatcher tech read_only : UserRole

-- The columns of a user that the escalation reads.
pub record Contact : Type 0 where
  pub id : Key
  pub tenant_id : Key
  pub is_active : Bool
  pub full_name : Text
  pub role : UserRole
  pub is_on_call : Bool

pub data EscalationReason : Type 0 where
  owner on_call : EscalationReason

pub record EscalationStep : Type 0 where
  pub user_id : Key
  pub full_name : Text
  pub role : UserRole
  pub reason : EscalationReason

pub data RoutingReason : Type 0 where
  in_business_hours in_after_hours no_routing_rule_configured : RoutingReason
  service_area_out_of_coverage routing_rule_matched service_area_matched : RoutingReason
  owner_escalation on_call_escalation : RoutingReason

pub record RoutingEvaluation : Type 0 where
  pub job_id : Key
  pub is_business_hours : Bool
  pub postal_code : Option Text
  pub covered : Bool
  pub matched_rule : Option RoutingRule
  pub require_available : Bool
  pub require_on_call : Bool
  pub reason_codes : List RoutingReason
  pub reasons : List String
  pub escalation_path : List EscalationStep

-- `timeScope`: the weekday in English, in three letters, and the hour.
unfoldable pub is_business_time : Text × ℕ → Bool
unfolding one_of
is_business_time (weekday, hour) =
    not (one_of weekday (codes "Sat" ∷ codes "Sun" ∷ [])) && leb 8 hour && ltb hour 18

abbrev is_zip : ServiceAreaType → Bool
is_zip zip = true
is_zip _ = false

abbrev lists_code : Text → Items → Bool
lists_code code nil = false
lists_code code (cons (str t) vs) = text_eq (take 5 t) code || lists_code code vs
lists_code code (cons v vs) = lists_code code vs

unfoldable pub area_contains : ServiceArea → Option Text → Bool
unfolding text_eq
area_contains a none = false
area_contains a (some code) =
    a.is_active
    && is_zip a.type
    && truthy code
    && when_some (items_of (prop (record_of (some a.definition)) "postalCodes")) (lists_code code)

abbrev covers_time : RoutingTimeScope → Bool → Bool
covers_time any_time business = true
covers_time business_hours business = business
covers_time after_hours business = not business

-- `!rule.field || rule.field === value`
abbrev unset_or : {A : Type 0} → (A → Bool) → Option A → Bool
unset_or p none = true
unset_or p (some a) = p a

-- The rule applies to the job by its service, its urgency and its time.
unfoldable pub is_base_match : Job → Bool → RoutingRule → Bool
is_base_match j business r =
    unset_or (λ id. not (truthy id) || text_eq id j.service_category_id) r.service_category_id
    && unset_or (λ u. urgency_eq u j.urgency) r.urgency
    && covers_time r.time_scope business

unfoldable pub in_area : Option Text → RoutingRule → Bool
unfolding area_contains
in_area code r = unset_or (λ a. area_contains a code) r.service_area

abbrev is_emergency : JobUrgency → Bool
is_emergency JobUrgency.emergency = true
is_emergency _ = false

-- `{ role: { in: [OWNER, ADMIN] } }`
abbrev is_owner_role : UserRole → Bool
is_owner_role UserRole.owner = true
is_owner_role admin = true
is_owner_role _ = false

unfoldable pub escalates_to : Key → RoutingRule → Contact → Bool
escalates_to tenant_id r u =
    text_eq u.tenant_id tenant_id
    && u.is_active
    && (r.escalate_to_owner && is_owner_role u.role || r.escalate_to_on_call && u.is_on_call)

unfoldable pub escalation_step : RoutingRule → Contact → EscalationStep
escalation_step r u = record {
  user_id = u.id;
  full_name = u.full_name;
  role = u.role;
  reason = if u.is_on_call && r.escalate_to_on_call then on_call else EscalationReason.owner;
}

abbrev escalation_path : Key → Bool → List Contact → Option RoutingRule → List EscalationStep
escalation_path tenant_id emergency users none = []
escalation_path tenant_id emergency users (some r) =
    if emergency then map (escalation_step r) (filter (escalates_to tenant_id r) users) else []

abbrev reason_label : RoutingReason → String
reason_label in_business_hours = "Service window is during business hours"
reason_label in_after_hours = "Service window is after hours"
reason_label no_routing_rule_configured =
    "No matching tenant rule; safe default availability policy applies"
reason_label service_area_out_of_coverage =
    "Address is outside every applicable active service area"
reason_label routing_rule_matched = "Highest-priority applicable routing rule matched"
reason_label service_area_matched = "Address postal code is inside the configured service area"
reason_label owner_escalation = "Emergency escalation includes an owner or administrator"
reason_label on_call_escalation = "Emergency escalation includes on-call personnel"

abbrev only_if : {A : Type 0} → Bool → A → List A
only_if true a = a ∷ []
only_if false a = []

abbrev is_nil : {A : Type 0} → List A → Bool
is_nil [] = true
is_nil (_ ∷ _) = false

-- `reasonCodes`, in the order of the pushes
unfoldable pub routing_reasons : Bool → Bool → Bool → Option RoutingRule → List RoutingReason
routing_reasons business emergency unruled matched =
    (if business then in_business_hours else in_after_hours)
      ∷ (if unruled then no_routing_rule_configured ∷ [] else of_match matched)
    ++ (only_if (emergency && when_some matched (λ r. r.escalate_to_owner)) owner_escalation
        ++ only_if (emergency && when_some matched (λ r. r.escalate_to_on_call)) on_call_escalation)
  where
    of_match : Option RoutingRule → List RoutingReason
    of_match none = service_area_out_of_coverage ∷ []
    of_match (some r) = routing_rule_matched ∷ only_if (is_some r.service_area) service_area_matched

-- What is known of the job's time and place: the business hours and the postal code.
pub record Place : Type 0 where
  pub is_business_hours : Bool
  pub postal_code : Option Text

-- `rules` are the tenant's rules and `users` its users, each in the order of the query.
unfoldable pub active_rules : Key → List RoutingRule → List RoutingRule
active_rules tenant_id = filter (λ r. text_eq r.tenant_id tenant_id && r.is_active)

unfoldable pub base_matches : Key → Job → Place → List RoutingRule → List RoutingRule
unfolding active_rules is_base_match
base_matches tenant_id j place rules =
    filter (is_base_match j place.is_business_hours) (active_rules tenant_id rules)

unfoldable pub evaluate_found :
    Key → Job → Place → List RoutingRule → List Contact → RoutingEvaluation
unfolding base_matches in_area routing_reasons escalation_step escalates_to
evaluate_found tenant_id j place rules users =
    let base = base_matches tenant_id j place rules in
    let matched = find (in_area place.postal_code) base in
    let emergency = is_emergency j.urgency in
    let codes = routing_reasons place.is_business_hours emergency (is_nil base) matched in
    record {
      job_id = j.id;
      is_business_hours = place.is_business_hours;
      postal_code = place.postal_code;
      covered = is_nil base || is_some matched;
      matched_rule = matched;
      require_available = required true (λ r. r.require_available) matched;
      require_on_call = required false (λ r. r.require_on_call) matched;
      reason_codes = codes;
      reasons = map reason_label codes;
      escalation_path = escalation_path tenant_id emergency users matched;
    }
  where
    required : Bool → (RoutingRule → Bool) → Option RoutingRule → Bool
    required d f none = d
    required d f (some r) = f r

-- The address of a job: its components and its text.
pub record Address : Type 0 where
  pub components : Json
  pub formatted : Text

abbrev pub place_of : (Instant → Text × ℕ) → Instant → Address → Job → Place
place_of local_time now address j = record {
  is_business_hours = is_business_time (local_time (coalesce j.service_window_start now));
  postal_code = postal_code address.components address.formatted;
}

-- `evaluateJob`, with the answer of the query for the job.
unfoldable pub evaluate_job :
    (Instant → Text × ℕ)
    → (Job → Address)
    → Instant
    → Key
    → List RoutingRule
    → List Contact
    → Option Job
    → Result RoutingEvaluation
unfolding evaluate_found is_business_time postal_code
evaluate_job local_time address now tenant_id rules users none =
    err (not_found "Routing job was not found.")
evaluate_job local_time address now tenant_id rules users (some j) =
    ok (evaluate_found tenant_id j (place_of local_time now (address j) j) rules users)
