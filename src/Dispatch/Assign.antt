-- ===== src/Dispatch/Assign.antt =====
-- jobs/dispatch-board.service.ts: `assign`. The query for the users and what
-- routing needs are given. Of an audit entry's metadata, the lists of reason codes and the routing
-- evaluation are left out.
pub mod Allowed
pub mod Again
use signmons_calldesk_backen.Base.{
  ℕ, ◌≤◌, Bool, true, false, not, ◌&&◌, ◌||◌, Option, none, some, is_some, if◌then◌else◌, leb, ltb,
  ◌==◌, Instant, Result, ok, err, HttpError, bad_request, not_found, conflict, Action, pure, throw,
  throw_if, lift, gets, ◌>>=◌, ◌>>◌, transaction, List, [], ◌∷◌, find, length, map,
}
use signmons_calldesk_backen.Base.Text.{
  Text, Key, text_eq, opt_text_eq, trim, squeeze, present, truthy,
}
use signmons_calldesk_backen.Base.Audit.{Audit, person, user, Detail}
use signmons_calldesk_backen.Data.Enums.{JobStatus, TechnicianJobStatus, job_status_eq}
use signmons_calldesk_backen.Data.Rows.{Job, Payment}
use signmons_calldesk_backen.Data.Store.{Store, Client, update_jobs, create_audit}
use signmons_calldesk_backen.Payments.Requests.Reservation.{payment_of}
use signmons_calldesk_backen.Dispatch.Routing.{
  RoutingEvaluation, RoutingRule, Contact, Address, evaluate_job,
}
use signmons_calldesk_backen.Dispatch.Board.{
  Candidate, DispatchUser, Comparison, candidates, recommend, gate_of, is_locked, default_routing,
}

pub record AssignRequest : Type 0 where
  pub tenant_id : Key
  pub job_id : Key
  pub technician_id : Key
  pub expected_updated_at : Instant
  pub actor_id : Key
  pub reason : Option Text
  pub trace_id : Option Key

-- What the queries and the engine give.
pub record Surroundings : Type 0 where
  pub has_routing : Bool
  pub local_time : Instant → Text × ℕ
  pub address : Job → Address
  pub rules : List RoutingRule
  pub contacts : List Contact
  pub users : List DispatchUser
  pub locale_compare : Text → Text → Comparison

pub record Assignment : Type 0 where
  pub changed : Bool
  pub job_id : Key
  pub technician_id : Option Key
  pub updated_at : Option Instant

-- `OVERRIDE_REASON_MIN_LENGTH`
abbrev pub override_reason_min_length : ℕ
override_reason_min_length = 10

abbrev pub live_key : Key → Key → Job → Bool
live_key tenant_id job_id j =
    text_eq j.id job_id && text_eq j.tenant_id tenant_id && not (is_some j.deleted_at)

-- `input.reason?.replace(/\s+/g, " ").trim()`
abbrev pub normalized_reason : Option Text → Option Text
normalized_reason none = none
normalized_reason (some r) = some (trim (squeeze false r))

-- `!reason || reason.length < OVERRIDE_REASON_MIN_LENGTH`, negated
abbrev pub is_reason : Option Text → Bool
is_reason none = false
is_reason (some r) = truthy r && leb override_reason_min_length (length r)

abbrev pub is_closed : JobStatus → Bool
is_closed JobStatus.completed = true
is_closed JobStatus.cancelled = true
is_closed _ = false

-- `!selected.eligible || recommendation?.userId !== selected.userId`
abbrev pub is_override : Candidate → Option Candidate → Bool
is_override c none = true
is_override c (some r) = not c.eligible || not (text_eq r.user_id c.user_id)

-- What an assignment comes to before anything is written.
pub data Plan : Type 0 where
  refused : HttpError → Plan
  there_already : Job → Plan
  assignable : Job → Candidate → Option Candidate → Plan

abbrev pub reason_missing : HttpError
reason_missing =
    bad_request
      "A reason of at least 10 characters is required for reassignment or recommendation override."

unfoldable pub plan_candidate : AssignRequest → Job → List Candidate → Plan
plan_candidate r j cs = select (find (λ c. text_eq c.user_id r.technician_id) cs)
  where
    select : Option Candidate → Plan
    select none =
        refused (
          bad_request
            "The selected technician is not an active dispatch candidate for this tenant.")
    select (some c) =
        if (present j.assigned_user_id || is_override c (recommend cs))
          && not (is_reason (normalized_reason r.reason))
        then refused reason_missing
        else assignable j c (recommend cs)

unfoldable pub plan_job :
    AssignRequest → (Job → Option Payment) → (Job → Result (List Candidate)) → Option Job → Plan
unfolding plan_candidate
plan_job r payment ranked none = refused (not_found "Dispatch job was not found.")
plan_job r payment ranked (some j) =
    if is_closed j.status
    then refused (bad_request "Closed jobs cannot be assigned.")
    else if opt_text_eq j.assigned_user_id (some r.technician_id)
    then there_already j
    else if is_locked (gate_of j (payment j))
    then refused (conflict "Required payment must succeed before this job can be assigned.")
    else with_candidates (ranked j)
  where
    with_candidates : Result (List Candidate) → Plan
    with_candidates (err e) = refused e
    with_candidates (ok cs) = plan_candidate r j cs

unfoldable pub set_technician : Instant → AssignRequest → Candidate → Job → Job
set_technician now r c k = record k {
  assigned_user_id = some c.user_id;
  assigned_user_tenant_id = some r.tenant_id;
  technician_status = some TechnicianJobStatus.assigned;
  technician_status_updated_at = some now;
  updated_at = now;
}

-- The row of the update: not changed since it was loaded.
abbrev pub version_key : Key → Key → Instant → Job → Bool
version_key tenant_id job_id version k = live_key tenant_id job_id k && k.updated_at == version

abbrev pub id_detail : Option Key → Detail
id_detail none = Detail.absent
id_detail (some id) = Detail.text id

abbrev user_of : Option Candidate → Option Key
user_of none = none
user_of (some c) = some c.user_id

unfoldable pub assign_audit : AssignRequest → Job → Candidate → Option Candidate → Audit
assign_audit r j c recommended = record {
  tenant_id = r.tenant_id;
  action = if present j.assigned_user_id then "job.reassigned" else "job.assigned";
  actor_type = user;
  actor_id = person r.actor_id;
  entity_type = "Job";
  entity_id = j.id;
  metadata =
      ("previousTechnicianId", id_detail j.assigned_user_id)
      ∷ ("technicianId", Detail.text c.user_id)
      ∷ ("recommendationVersion", Detail.word "dispatch-v2")
      ∷ ("recommendedTechnicianId", id_detail (user_of recommended))
      ∷ ("override", Detail.flag (is_override c recommended))
      ∷ ("reason", id_detail (normalized_reason r.reason))
      ∷ [];
  trace_id = r.trace_id;
}

unfoldable pub there : Job → Assignment
there j = record {
  changed = false;
  job_id = j.id;
  technician_id = j.assigned_user_id;
  updated_at = some j.updated_at;
}

unfoldable pub reloaded : Job → Option Job → Assignment
reloaded j none = record { changed = true; job_id = j.id; technician_id = none; updated_at = none }
reloaded j (some k) = record {
  changed = true;
  job_id = j.id;
  technician_id = k.assigned_user_id;
  updated_at = some k.updated_at;
}

abbrev pub id_key : Key → Key → Job → Bool
id_key tenant_id job_id k = text_eq k.id job_id && text_eq k.tenant_id tenant_id

abbrev pub stale_assignment : HttpError
stale_assignment = conflict "This job changed after it was loaded. Refresh before assigning."

module _ {J P T U E A : Type 0} (db : Client J P T U E A) (around : Surroundings) where
  abbrev S : Type 0
  S = Store J P T U E A

  unfoldable pub routing_for : Instant → AssignRequest → S → Job → Result RoutingEvaluation
  routing_for now r s j =
      if around.has_routing
      then evaluate_job around.local_time around.address now r.tenant_id around.rules
          around.contacts (db.job.find_first (live_key r.tenant_id j.id) s.jobs)
      else ok (default_routing j.id)

  unfoldable pub payment_for : S → Job → Option Payment
  payment_for s j = db.payment.find_first (payment_of j.tenant_id j.id) s.payments

  -- The gate is that of the job, which is not locked where the candidates are asked for.
  unfoldable pub ranked_for : Instant → AssignRequest → S → Job → Result (List Candidate)
  unfolding routing_for
  ranked_for now r s j = with_routing (routing_for now r s j)
    where
      with_routing : Result RoutingEvaluation → Result (List Candidate)
      with_routing (err e) = err e
      with_routing (ok routing) = ok (
          candidates around.locale_compare now (db.job.rows s.jobs) routing
            (is_locked (gate_of j (payment_for s j))) r.tenant_id j around.users)

  unfoldable pub plan_of : Instant → S → AssignRequest → Plan
  unfolding plan_job ranked_for payment_for
  plan_of now seen r =
      plan_job r (payment_for seen) (ranked_for now r seen)
        (db.job.find_first (live_key r.tenant_id r.job_id) seen.jobs)

  unfoldable pub write_assignment :
      Instant → AssignRequest → Job → Candidate → Option Candidate → Action S Assignment
  unfolding set_technician assign_audit reloaded
  write_assignment now r j c recommended = do
    count ←
        update_jobs db (version_key r.tenant_id j.id r.expected_updated_at) (set_technician now r c)
    throw_if (not (count == 1)) stale_assignment
    create_audit db (assign_audit r j c recommended)
    row ← gets (λ s. db.job.find_first (id_key r.tenant_id j.id) s.jobs)
    pure (reloaded j row)

  unfoldable pub settle_plan : Instant → AssignRequest → Plan → Action S Assignment
  unfolding write_assignment there
  settle_plan now r (refused e) = throw e
  settle_plan now r (there_already j) = pure (there j)
  settle_plan now r (assignable j c recommended) = write_assignment now r j c recommended

  -- The reads see `seen`: other transactions may have been committed since.
  unfoldable pub assign : Instant → S → AssignRequest → Action S Assignment
  unfolding plan_of settle_plan
  assign now seen r = transaction (settle_plan now r (plan_of now seen r))
