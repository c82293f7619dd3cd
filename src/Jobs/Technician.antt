-- ===== src/Jobs/Technician.antt =====
-- jobs/technician-workflow.service.ts: what an assigned technician may do to a job. The link's token
-- is verified by the technician-link service, whose answer is given.
pub mod Service
pub mod Transitions
pub mod Locking
use signmons_calldesk_backen.Base.{
  ℕ, Bool, true, false, not, ◌&&◌, ◌||◌, Option, none, some, is_some, opt_eq, if◌then◌else◌, ◌==◌,
  Instant, Result, ok, err, HttpError, not_found, conflict, unauthorized, Action, pure, throw,
  throw_if, or_throw, lift, ◌>>=◌, ◌>>◌, String, List, [], ◌∷◌, transaction, and_then, check, ok_or,
  find, any, leb, ltb, coalesce,
}
use Prim.Native.String.{◌++◌ as concat}
use signmons_calldesk_backen.Base.Text.{Text, Key, text_eq, opt_text_eq}
use signmons_calldesk_backen.Base.Audit.{Audit, person, user, Detail}
use signmons_calldesk_backen.Data.Enums.{JobStatus, TechnicianJobStatus, job_status_eq}
use signmons_calldesk_backen.Data.Rows.{Job}
use signmons_calldesk_backen.Data.Store.{Store, Client, update_jobs, create_audit}

-- dto/update-technician-job.dto.ts
pub data TechnicianJobAction : Type 0 where
  accept decline on_my_way in_progress complete cannot_take : TechnicianJobAction

-- VerifiedTechnicianLink
pub record Access : Type 0 where
  pub tenant_id : Key
  pub technician_id : Key

-- The columns of a user that the lookup of an active technician reads.
pub record User : Type 0 where
  pub id : Key
  pub tenant_id : Key
  pub is_technician : Bool
  pub is_active : Bool

abbrev pub action_eq : TechnicianJobAction → TechnicianJobAction → Bool
action_eq accept accept = true
action_eq decline decline = true
action_eq on_my_way on_my_way = true
action_eq TechnicianJobAction.in_progress TechnicianJobAction.in_progress = true
action_eq complete complete = true
action_eq cannot_take cannot_take = true
action_eq _ _ = false

abbrev pub technician_status_eq : TechnicianJobStatus → TechnicianJobStatus → Bool
technician_status_eq TechnicianJobStatus.assigned TechnicianJobStatus.assigned = true
technician_status_eq TechnicianJobStatus.accepted TechnicianJobStatus.accepted = true
technician_status_eq TechnicianJobStatus.en_route TechnicianJobStatus.en_route = true
technician_status_eq TechnicianJobStatus.in_progress TechnicianJobStatus.in_progress = true
technician_status_eq TechnicianJobStatus.completed TechnicianJobStatus.completed = true
technician_status_eq _ _ = false

unfoldable pub transitions : TechnicianJobStatus → List TechnicianJobAction
transitions TechnicianJobStatus.assigned = accept ∷ decline ∷ cannot_take ∷ []
transitions TechnicianJobStatus.accepted =
    on_my_way ∷ TechnicianJobAction.in_progress ∷ decline ∷ cannot_take ∷ []
transitions TechnicianJobStatus.en_route = TechnicianJobAction.in_progress ∷ cannot_take ∷ []
transitions TechnicianJobStatus.in_progress = complete ∷ []
transitions TechnicianJobStatus.completed = []

unfoldable pub target_status : TechnicianJobAction → Option TechnicianJobStatus
target_status accept = some TechnicianJobStatus.accepted
target_status decline = none
target_status on_my_way = some TechnicianJobStatus.en_route
target_status TechnicianJobAction.in_progress = some TechnicianJobStatus.in_progress
target_status complete = some TechnicianJobStatus.completed
target_status cannot_take = none

unfoldable pub current_technician_status : Job → TechnicianJobStatus
current_technician_status j = go j.technician_status
  where
    go : Option TechnicianJobStatus → TechnicianJobStatus
    go (some status) = status
    go none =
        if job_status_eq j.status JobStatus.completed
        then TechnicianJobStatus.completed
        else if job_status_eq j.status JobStatus.in_progress
        then TechnicianJobStatus.in_progress
        else TechnicianJobStatus.assigned

abbrev audit_action : TechnicianJobAction → String
audit_action accept = "job.technician_accepted"
audit_action decline = "job.technician_declined"
audit_action on_my_way = "job.technician_en_route"
audit_action TechnicianJobAction.in_progress = "job.technician_started"
audit_action complete = "job.technician_completed"
audit_action cannot_take = "job.technician_unavailable"

abbrev status_name : TechnicianJobStatus → String
status_name TechnicianJobStatus.assigned = "ASSIGNED"
status_name TechnicianJobStatus.accepted = "ACCEPTED"
status_name TechnicianJobStatus.en_route = "EN_ROUTE"
status_name TechnicianJobStatus.in_progress = "IN_PROGRESS"
status_name TechnicianJobStatus.completed = "COMPLETED"

abbrev pub releases : TechnicianJobAction → Bool
releases decline = true
releases cannot_take = true
releases _ = false

-- The statuses that `accept` and `on_my_way` turn into ACCEPTED.
abbrev needs_acceptance : JobStatus → Bool
needs_acceptance JobStatus.created = true
needs_acceptance JobStatus.offered = true
needs_acceptance JobStatus.declined = true
needs_acceptance JobStatus.expired = true
needs_acceptance _ = false

-- `updateData`, applied to a row; `read` is the job that was read. Every update also sets `updatedAt`.
unfoldable pub apply_action : Instant → TechnicianJobAction → Job → Job → Job
unfolding target_status
apply_action now action read j = also action (assign (releases action))
  where
    assign : Bool → Job
    assign true = record j {
      assigned_user_id = none;
      assigned_user_tenant_id = none;
      technician_status = none;
      technician_status_updated_at = some now;
      updated_at = now;
    }
    assign false = record j {
      technician_status = target_status action;
      technician_status_updated_at = some now;
      updated_at = now;
    }

    accepting : Job → Job
    accepting k = record k {
      status = if needs_acceptance read.status then JobStatus.accepted else k.status;
      accepted_at = if is_some read.accepted_at then k.accepted_at else some now;
    }

    also : TechnicianJobAction → Job → Job
    also accept k = accepting k
    also on_my_way k = accepting k
    also TechnicianJobAction.in_progress k = record k { status = JobStatus.in_progress }
    also complete k = record k { status = JobStatus.completed; completed_at = some now }
    also _ k = k

-- What `update` answers: the job as it is, the job after a change, or that it was released.
pub data Answer : Type 0 where
  unchanged : Job → Answer
  changed : Job → Answer
  released : Key → TechnicianJobAction → Instant → Answer

-- Whether a job was changed.
abbrev pub is_change : Result Answer → Bool
is_change (ok (changed j)) = true
is_change (ok (released id action at)) = true
is_change _ = false

-- `activeTechnician`
unfoldable pub active_technician : List User → Access → Result (Unit {0})
active_technician users a =
    if any
      (λ u.
        text_eq u.id a.technician_id
        && text_eq u.tenant_id a.tenant_id
        && u.is_technician
        && u.is_active)
      users
    then ok tt
    else err (unauthorized "Technician access is no longer active.")

-- The job of a technician, by its id.
abbrev pub assigned_key : Access → Key → Job → Bool
assigned_key a id j =
    text_eq j.id id
    && (text_eq j.tenant_id a.tenant_id
        && (opt_text_eq j.assigned_user_id (some a.technician_id)
            && (opt_text_eq j.assigned_user_tenant_id (some a.tenant_id)
                && not (is_some j.deleted_at))))

abbrev optional_status : Option TechnicianJobStatus → Detail
optional_status none = Detail.absent
optional_status (some status) = Detail.word (status_name status)

abbrev optional_text : Option Text → Detail
optional_text none = Detail.absent
optional_text (some t) = Detail.text t

pub record UpdateRequest : Type 0 where
  pub job_id : Key
  pub action : TechnicianJobAction
  pub expected_updated_at : Instant
  pub note : Option Text
  pub trace_id : Option Key

unfoldable pub update_audit : Access → UpdateRequest → Job → Audit
unfolding current_technician_status target_status
update_audit a r j = record {
  tenant_id = a.tenant_id;
  action = audit_action r.action;
  actor_type = user;
  actor_id = person a.technician_id;
  entity_type = "Job";
  entity_id = j.id;
  metadata =
      ("previousTechnicianStatus", Detail.word (status_name (current_technician_status j)))
      ∷ ("technicianStatus", optional_status (target_status r.action))
      ∷ ("assignmentReleased", Detail.flag (releases r.action))
      ∷ ("note", optional_text r.note)
      ∷ [];
  trace_id = r.trace_id;
}

-- `target && current === target`
abbrev pub is_at : TechnicianJobStatus → Option TechnicianJobStatus → Bool
is_at current none = false
is_at current (some target) = technician_status_eq current target

unfoldable pub is_there : Job → TechnicianJobAction → Bool
unfolding current_technician_status target_status
is_there j action = is_at (current_technician_status j) (target_status action)

unfoldable pub is_available : Job → TechnicianJobAction → Bool
unfolding current_technician_status transitions
is_available j action = any (action_eq action) (transitions (current_technician_status j))

-- `input.action.replace(/_/g, " ")` and `current.toLowerCase().replace(/_/g, " ")`
abbrev action_words : TechnicianJobAction → String
action_words accept = "accept"
action_words decline = "decline"
action_words on_my_way = "on my way"
action_words TechnicianJobAction.in_progress = "in progress"
action_words complete = "complete"
action_words cannot_take = "cannot take"

abbrev status_words : TechnicianJobStatus → String
status_words TechnicianJobStatus.assigned = "assigned"
status_words TechnicianJobStatus.accepted = "accepted"
status_words TechnicianJobStatus.en_route = "en route"
status_words TechnicianJobStatus.in_progress = "in progress"
status_words TechnicianJobStatus.completed = "completed"

pub not_available : TechnicianJobStatus → TechnicianJobAction → String
not_available current action = concat "The " (
    concat (action_words action)
      (concat " action is not available from " (concat (status_words current) ".")))

-- What the first read decides: an answer without a change, or the job to change.
pub data Reading : Type 0 where
  refused : HttpError → Reading
  there_before : Job → Reading
  available : Job → Reading

unfoldable pub reading : TechnicianJobAction → Option Job → Reading
unfolding is_there is_available current_technician_status
reading action none = refused (not_found "Assigned job was not found.")
reading action (some j) =
    if job_status_eq j.status JobStatus.cancelled
    then refused (conflict "Cancelled jobs cannot be updated.")
    else if is_there j action
    then there_before j
    else if not (is_available j action)
    then refused (conflict (not_available (current_technician_status j) action))
    else available j
