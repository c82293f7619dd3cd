-- ===== src/Dispatch/Unassign.antt =====
-- jobs/dispatch-board.service.ts: `cancelAssignment`.
use signmons_calldesk_backen.Base.{
  false, not, Option, none, some, if◌then◌else◌, ◌==◌, Instant, not_found, conflict, Action, pure,
  throw, throw_if, gets, ◌>>=◌, ◌>>◌, transaction, [], ◌∷◌,
}
use signmons_calldesk_backen.Base.Text.{Text, Key, present}
use signmons_calldesk_backen.Base.Audit.{Audit, person, user, Detail}
use signmons_calldesk_backen.Data.Rows.{Job}
use signmons_calldesk_backen.Data.Store.{Store, Client, update_jobs, create_audit}
use signmons_calldesk_backen.Dispatch.Assign.{
  Assignment, live_key, version_key, id_key, id_detail, reloaded, Surroundings,
}

pub record CancelRequest : Type 0 where
  pub tenant_id : Key
  pub job_id : Key
  pub expected_updated_at : Instant
  pub actor_id : Key
  pub reason : Text
  pub trace_id : Option Key

unfoldable pub clear_technician : Instant → Job → Job
clear_technician now k = record k {
  assigned_user_id = none;
  assigned_user_tenant_id = none;
  technician_status = none;
  technician_status_updated_at = some now;
  updated_at = now;
}

unfoldable pub cancel_audit : CancelRequest → Job → Audit
cancel_audit r j = record {
  tenant_id = r.tenant_id;
  action = "job.assignment_cancelled";
  actor_type = user;
  actor_id = person r.actor_id;
  entity_type = "Job";
  entity_id = j.id;
  metadata =
      ("previousTechnicianId", id_detail j.assigned_user_id)
      ∷ ("reason", Detail.text r.reason)
      ∷ [];
  trace_id = r.trace_id;
}

module _ {J P T U E A : Type 0} (db : Client J P T U E A) (around : Surroundings) where
  abbrev S : Type 0
  S = Store J P T U E A

  unfoldable pub write_cancellation : Instant → CancelRequest → Job → Action S Assignment
  unfolding clear_technician cancel_audit
  write_cancellation now r j = do
    count ←
        update_jobs db (version_key r.tenant_id j.id r.expected_updated_at) (clear_technician now)
    throw_if (not (count == 1))
        (conflict "This job changed after it was loaded. Refresh before cancelling the assignment.")
    create_audit db (cancel_audit r j)
    row ← gets (λ s. db.job.find_first (id_key r.tenant_id j.id) s.jobs)
    pure (record (reloaded j row) { technician_id = none })

  unfoldable pub cancel_found : Instant → CancelRequest → Option Job → Action S Assignment
  unfolding write_cancellation reloaded
  cancel_found now r none = throw (not_found "Dispatch job was not found.")
  cancel_found now r (some j) =
      if present j.assigned_user_id
      then write_cancellation now r j
      else pure (record {
        changed = false;
        job_id = j.id;
        technician_id = none;
        updated_at = some j.updated_at;
      })

  unfoldable pub cancel_assignment : Instant → S → CancelRequest → Action S Assignment
  unfolding cancel_found
  cancel_assignment now seen r =
      transaction (cancel_found now r (db.job.find_first (live_key r.tenant_id r.job_id) seen.jobs))
