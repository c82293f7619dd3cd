-- ===== src/Jobs/Lifecycle.antt =====
-- jobs/job-lifecycle.service.ts: the completion of a job by the office.
pub mod Completion
use signmons_calldesk_backen.Base.{
  ℕ, Bool, true, false, not, ◌&&◌, ◌||◌, Option, none, some, is_some, if◌then◌else◌, ◌==◌, Instant,
  Result, ok, err, HttpError, not_found, conflict, Action, pure, throw, ◌>>=◌, ◌>>◌, String, List,
  [], ◌∷◌, transaction,
}
use signmons_calldesk_backen.Base.Text.{Text, Key, text_eq}
use signmons_calldesk_backen.Base.Audit.{Audit, person, user, Detail}
use signmons_calldesk_backen.Data.Enums.{JobStatus, job_status_eq}
use signmons_calldesk_backen.Data.Rows.{Job}
use signmons_calldesk_backen.Data.Store.{Store, Client, update_jobs, create_audit}

pub record CompleteJobRequest : Type 0 where
  pub tenant_id : Key
  pub job_id : Key
  pub actor_id : Key
  pub trace_id : Option Key

-- The status of the result is always COMPLETED.
pub record CompleteJobResult : Type 0 where
  pub job_id : Key
  pub completed_at : Instant
  pub changed : Bool

unfoldable pub is_completable : JobStatus → Bool
is_completable JobStatus.accepted = true
is_completable JobStatus.in_progress = true
is_completable _ = false

abbrev pub is_completed : JobStatus → Bool
is_completed JobStatus.completed = true
is_completed _ = false

abbrev pub status_name : JobStatus → String
status_name JobStatus.created = "CREATED"
status_name JobStatus.offered = "OFFERED"
status_name JobStatus.accepted = "ACCEPTED"
status_name JobStatus.declined = "DECLINED"
status_name JobStatus.expired = "EXPIRED"
status_name JobStatus.in_progress = "IN_PROGRESS"
status_name JobStatus.completed = "COMPLETED"
status_name JobStatus.cancelled = "CANCELLED"

-- `{ id, tenantId, deletedAt: null }`
abbrev pub job_key : Key → Key → Job → Bool
job_key tenant_id id j =
    text_eq j.id id && text_eq j.tenant_id tenant_id && not (is_some j.deleted_at)

-- The row that was read as `j`, as long as its status is the same.
abbrev pub unchanged_key : Key → Job → Job → Bool
unchanged_key tenant_id j k = job_key tenant_id j.id k && job_status_eq k.status j.status

-- Every update also sets `updatedAt`.
unfoldable pub complete : Instant → Job → Job
complete now j = record j {
  status = JobStatus.completed;
  completed_at = some now;
  updated_at = now;
}

unfoldable pub completion_audit : Instant → CompleteJobRequest → Job → Audit
completion_audit now r j = record {
  tenant_id = r.tenant_id;
  action = "job.completed";
  actor_type = user;
  actor_id = person r.actor_id;
  entity_type = "Job";
  entity_id = j.id;
  metadata =
      ("previousStatus", Detail.word (status_name j.status))
      ∷ ("completedAt", Detail.time now)
      ∷ [];
  trace_id = r.trace_id;
}

-- What the first read decides, before anything is written.
pub data Reading : Type 0 where
  refused : HttpError → Reading
  done_before : CompleteJobResult → Reading
  completable : Job → Reading

unfoldable pub reading : Option Job → Reading
unfolding is_completable
reading none = refused (not_found "Job was not found.")
reading (some j) =
    if is_completed j.status
    then already j.completed_at
    else if not (is_completable j.status)
    then refused (conflict "Only accepted or in-progress jobs can be completed.")
    else completable j
  where
    already : Option Instant → Reading
    already none = refused (conflict "Completed job is missing its completion timestamp.")
    already (some at) = done_before (record { job_id = j.id; completed_at = at; changed = false })

-- What the second read finds, where another transaction was faster.
unfoldable pub overtaken : Option Job → Result CompleteJobResult
overtaken none = err (conflict "Job status changed before completion.")
overtaken (some j) = go (is_completed j.status) j.completed_at
  where
    go : Bool → Option Instant → Result CompleteJobResult
    go true (some at) = ok (record { job_id = j.id; completed_at = at; changed = false })
    go _ _ = err (conflict "Job status changed before completion.")

module _ {J P T U E A : Type 0} (db : Client J P T U E A) where
  abbrev S : Type 0
  S = Store J P T U E A

  abbrev pub find_job : (Job → Bool) → S → Option Job
  find_job p s = db.job.find_first p s.jobs

  -- The guarded update of a job that was read as `j`.
  unfoldable pub write_completion : Instant → CompleteJobRequest → Job → Action S CompleteJobResult
  unfolding complete completion_audit overtaken
  write_completion now r j = do
    count ← update_jobs db (unchanged_key r.tenant_id j) (complete now)
    if count == 0
        then (λ s. (overtaken (find_job (job_key r.tenant_id r.job_id) s), s))
        else (create_audit db (completion_audit now r j)
            >> pure (record { job_id = j.id; completed_at = now; changed = true }))

  unfoldable pub settle_reading :
      Instant → CompleteJobRequest → Reading → Action S CompleteJobResult
  unfolding write_completion
  settle_reading now r (refused e) = throw e
  settle_reading now r (done_before result) = pure result
  settle_reading now r (completable j) = write_completion now r j

  -- The first read sees `seen`: other transactions may have been committed since.
  unfoldable pub complete_job : Instant → S → CompleteJobRequest → Action S CompleteJobResult
  unfolding reading settle_reading
  complete_job now seen r =
      transaction (settle_reading now r (reading (find_job (job_key r.tenant_id r.job_id) seen)))
