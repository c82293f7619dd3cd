-- ===== src/Dispatch/Board.antt =====
-- jobs/dispatch-board.service.ts: the candidates for a job, their order, and the queues.
pub mod Ranking
use signmons_calldesk_backen.Base.{
  ℕ, ◌+◌, ◌-◌, ◌*◌, Bool, true, false, not, ◌&&◌, ◌||◌, Option, none, some, is_some, when_some,
  if◌then◌else◌, leb, ltb, ◌==◌, Instant, List, [], ◌∷◌, ◌++◌, map, filter, find, any, opt_eq,
}
use signmons_calldesk_backen.Base.Text.{Text, Key, codes, text_eq, present, opt_text_eq}
use signmons_calldesk_backen.Base.Json.{Json, Number, whole}
use signmons_calldesk_backen.Base.Table.{count_rows}
use signmons_calldesk_backen.Data.Enums.{JobStatus, JobUrgency, PaymentStatus, job_status_eq}
use signmons_calldesk_backen.Data.Rows.{Job, Payment}
use signmons_calldesk_backen.Payments.Gate.{
  PaymentGateState, locked, PaymentGatePayment, PaymentGateDecision, evaluate_payment_gate,
}
use signmons_calldesk_backen.Dispatch.Routing.{
  UserRole, tech, RoutingEvaluation, RoutingReason, no_routing_rule_configured,
}

pub data ProficiencyLevel : Type 0 where
  junior standard expert : ProficiencyLevel

pub data AvailabilityBlockType : Type 0 where
  unavailable available_override : AvailabilityBlockType

pub record Capability : Type 0 where
  pub service_category_id : Key
  pub proficiency : ProficiencyLevel
  pub is_enabled : Bool

pub record AvailabilityBlock : Type 0 where
  pub type : AvailabilityBlockType
  pub start_at : Instant
  pub end_at : Instant

-- A user with the rows that the query joins.
pub record DispatchUser : Type 0 where
  pub id : Key
  pub tenant_id : Key
  pub full_name : Text
  pub role : UserRole
  pub is_active : Bool
  pub is_available : Bool
  pub is_on_call : Bool
  pub capabilities : List Capability
  pub blocks : List AvailabilityBlock

pub data CandidateReason : Type 0 where
  service_match missing_service_capability expert_match is_available marked_unavailable :
      CandidateReason
  is_on_call not_on_call service_area_allowed service_area_blocked : CandidateReason
  no_schedule_conflict schedule_conflict low_active_workload payment_gate_locked : CandidateReason

pub record Candidate : Type 0 where
  pub user_id : Key
  pub full_name : Text
  pub role : UserRole
  pub available : Bool
  pub on_call : Bool
  pub proficiency : Option ProficiencyLevel
  pub active_assignments : ℕ
  pub eligible : Bool
  pub reason_codes : List CandidateReason
  pub score : ℕ

-- `ACTIVE_JOB_STATUSES`
abbrev pub is_active_status : JobStatus → Bool
is_active_status JobStatus.created = true
is_active_status JobStatus.offered = true
is_active_status JobStatus.accepted = true
is_active_status JobStatus.in_progress = true
is_active_status _ = false

abbrev pub is_locked : PaymentGateDecision → Bool
is_locked d = of_state d.state
  where
    of_state : PaymentGateState → Bool
    of_state locked = true
    of_state _ = false

abbrev status_text : PaymentStatus → Text
status_text PaymentStatus.pending = codes "PENDING"
status_text PaymentStatus.succeeded = codes "SUCCEEDED"
status_text PaymentStatus.failed = codes "FAILED"
status_text PaymentStatus.refunded = codes "REFUNDED"
status_text PaymentStatus.canceled = codes "CANCELED"

-- The columns of the payment that the board selects.
abbrev gate_payment : Option Payment → Option PaymentGatePayment
gate_payment none = none
gate_payment (some p) = some (record {
  status = status_text p.status;
  amount_total_cents = some (whole p.amount_total_cents);
  currency = some p.currency;
})

unfoldable pub gate_of : Job → Option Payment → PaymentGateDecision
gate_of j p = evaluate_payment_gate (some j.policy_snapshot) (gate_payment p)

-- The enabled capabilities for the job's service.
abbrev matching : Job → Capability → Bool
matching j c = text_eq c.service_category_id j.service_category_id && c.is_enabled

abbrev is_tech : UserRole → Bool
is_tech tech = true
is_tech _ = false

-- The query's condition on the users.
unfoldable pub is_asked_for : Key → Job → DispatchUser → Bool
is_asked_for tenant_id j u =
    text_eq u.tenant_id tenant_id
    && u.is_active
    && (is_tech u.role || any (matching j) u.capabilities)

-- The blocks that meet the service window, or the present where the job has none.
unfoldable pub meets : Instant → Job → AvailabilityBlock → Bool
meets now j b = within j.service_window_start j.service_window_end
  where
    within : Option Instant → Option Instant → Bool
    within (some start) (some finish) = ltb b.start_at finish && ltb start b.end_at
    within _ _ = leb b.start_at now && ltb now b.end_at

abbrev is_unavailable : AvailabilityBlock → Bool
is_unavailable b = of_type b.type
  where
    of_type : AvailabilityBlockType → Bool
    of_type unavailable = true
    of_type available_override = false

-- The jobs of the user that are not done.
abbrev assigned_to : DispatchUser → Job → Bool
assigned_to u j =
    opt_text_eq j.assigned_user_id (some u.id)
    && opt_text_eq j.assigned_user_tenant_id (some u.tenant_id)
    && not (is_some j.deleted_at)
    && is_active_status j.status

abbrev head : {A : Type 0} → List A → Option A
head [] = none
head (x ∷ _) = some x

abbrev level_of : Option Capability → Option ProficiencyLevel
level_of none = none
level_of (some c) = some c.proficiency

abbrev is_expert : Option ProficiencyLevel → Bool
is_expert (some expert) = true
is_expert _ = false

abbrev is_standard : JobUrgency → Bool
is_standard JobUrgency.standard = true
is_standard _ = false

abbrev proficiency_score : Option ProficiencyLevel → ℕ
proficiency_score none = 0
proficiency_score (some junior) = 10
proficiency_score (some standard) = 20
proficiency_score (some expert) = 30

-- What is computed of a user before the candidate is put together.
pub record Fitness : Type 0 where
  pub level : Option ProficiencyLevel
  pub is_blocked : Bool
  pub available : Bool
  pub on_call : Bool
  pub jobs : ℕ

unfoldable pub fitness : Instant → List Job → Job → DispatchUser → Fitness
unfolding meets
fitness now jobs j u =
    let blocks = filter (meets now j) u.blocks in
    let blocked = any is_unavailable blocks in
    let overridden = any (λ b. not (is_unavailable b)) blocks in
    record {
      level = level_of (head (filter (matching j) u.capabilities));
      is_blocked = blocked;
      available = (u.is_available || overridden) && not blocked;
      on_call = u.is_on_call;
      jobs = count_rows (assigned_to u) jobs;
    }

unfoldable pub is_eligible : RoutingEvaluation → Bool → Fitness → Bool
is_eligible routing gate_locked f =
    is_some f.level
    && routing.covered
    && (not routing.require_available || (f.available && not f.is_blocked))
    && (not routing.require_on_call || f.on_call)
    && not gate_locked

unfoldable pub score_of : Job → Fitness → ℕ
score_of j f =
    proficiency_score f.level
    + (if f.available then 25 else 0)
    + (if not f.is_blocked then 20 else 0)
    + (20 - f.jobs * 4)
    + (if not (is_standard j.urgency) && is_expert f.level then 10 else 0)

abbrev push_if : Bool → CandidateReason → List CandidateReason → List CandidateReason
push_if true c cs = c ∷ cs
push_if false c cs = cs

abbrev push_one :
    Bool → CandidateReason → CandidateReason → List CandidateReason → List CandidateReason
push_one b c d cs = (if b then c else d) ∷ cs

unfoldable pub candidate_reasons : RoutingEvaluation → Bool → Fitness → List CandidateReason
candidate_reasons routing gate_locked f =
    push_one (is_some f.level) service_match missing_service_capability (
      push_if (is_expert f.level) expert_match (
        push_one f.available CandidateReason.is_available marked_unavailable (
          push_if f.on_call CandidateReason.is_on_call (
            push_if (not f.on_call && routing.require_on_call) not_on_call (
              push_one routing.covered service_area_allowed service_area_blocked (
                push_one (not f.is_blocked) no_schedule_conflict schedule_conflict (
                  push_if (leb f.jobs 2) low_active_workload
                    (push_if gate_locked payment_gate_locked []))))))))

unfoldable pub candidate_of :
    Instant → List Job → RoutingEvaluation → Bool → Job → DispatchUser → Candidate
unfolding fitness is_eligible score_of candidate_reasons
candidate_of now jobs routing gate_locked j u =
    let f = fitness now jobs j u in
    record {
      user_id = u.id;
      full_name = u.full_name;
      role = u.role;
      available = f.available;
      on_call = u.is_on_call;
      proficiency = f.level;
      active_assignments = f.jobs;
      eligible = is_eligible routing gate_locked f;
      reason_codes = candidate_reasons routing gate_locked f;
      score = score_of j f;
    }

-- What `localeCompare` gives: whether the first text comes before, with, or after the second.
pub data Comparison : Type 0 where
  before same after : Comparison

abbrev or_then : Comparison → Comparison → Comparison
or_then same next = next
or_then c _ = c

abbrev by_eligible : Bool → Bool → Comparison
by_eligible true false = before
by_eligible false true = after
by_eligible _ _ = same

-- `right.score - left.score`
abbrev by_score : ℕ → ℕ → Comparison
by_score l r = if ltb r l then before else if ltb l r then after else same

module _ (locale_compare : Text → Text → Comparison) where
  unfoldable pub compare_candidates : Candidate → Candidate → Comparison
  compare_candidates l r = or_then (by_eligible l.eligible r.eligible) (
      or_then (by_score l.score r.score)
        (or_then (locale_compare l.full_name r.full_name) (locale_compare l.user_id r.user_id)))

  abbrev not_after : Comparison → Bool
  not_after Comparison.after = false
  not_after _ = true

  -- `Array.prototype.sort` is stable: an element stays before those that it is not after.
  unfoldable pub insert : Candidate → List Candidate → List Candidate
  unfolding compare_candidates
  insert c [] = c ∷ []
  insert c (d ∷ ds) = if not_after (compare_candidates c d) then c ∷ d ∷ ds else d ∷ insert c ds

  unfoldable pub sort : List Candidate → List Candidate
  unfolding insert
  sort [] = []
  sort (c ∷ cs) = insert c (sort cs)

  -- `candidates`: the query's users in its order, and all jobs, from which the counts are taken.
  unfoldable pub candidates :
      Instant → List Job → RoutingEvaluation → Bool → Key → Job → List DispatchUser → List Candidate
  unfolding sort candidate_of is_asked_for
  candidates now jobs routing gate_locked tenant_id j users =
      sort (
        map (candidate_of now jobs routing gate_locked j) (filter (is_asked_for tenant_id j) users))

unfoldable pub recommend : List Candidate → Option Candidate
recommend = find (λ c. c.eligible)

pub data DispatchQueue : Type 0 where
  new_request ready_to_assign assigned escalated : DispatchQueue

abbrev is_under_way : JobStatus → Bool
is_under_way JobStatus.offered = true
is_under_way JobStatus.accepted = true
is_under_way JobStatus.in_progress = true
is_under_way _ = false

unfoldable pub queue : Job → Bool → Bool → DispatchQueue
queue j is_escalated gate_locked =
    if present j.assigned_user_id
    then assigned
    else if is_escalated
    then escalated
    else if gate_locked
    then new_request
    else if is_some j.service_window_start || is_under_way j.status
    then ready_to_assign
    else new_request

unfoldable pub default_routing : Key → RoutingEvaluation
default_routing job_id = record {
  job_id = job_id;
  is_business_hours = true;
  postal_code = none;
  covered = true;
  matched_rule = none;
  require_available = true;
  require_on_call = false;
  reason_codes = no_routing_rule_configured ∷ [];
  reasons = "No matching tenant rule; safe default availability policy applies" ∷ [];
  escalation_path = [];
}
