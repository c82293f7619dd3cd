-- ===== src/Jobs/Technician/Service.antt =====
-- jobs/technician-workflow.service.ts: `update`, from the verified access to its answer.
use signmons_calldesk_backen.Base.{
  Bool, not, ◌&&◌, Option, none, some, if◌then◌else◌, ◌==◌, Instant, Result, ok, err, conflict,
  Action, pure, throw, throw_if, lift, ◌>>=◌, ◌>>◌, List, transaction,
}
use signmons_calldesk_backen.Base.Text.{text_eq, opt_text_eq}
use signmons_calldesk_backen.Data.Rows.{Job}
use signmons_calldesk_backen.Data.Store.{Store, Client, update_jobs, create_audit}
use signmons_calldesk_backen.Jobs.Technician.{
  Access, User, releases, apply_action, Answer, active_technician, assigned_key, UpdateRequest,
  update_audit, Reading, reading, unchanged, changed, released, refused, there_before, available,
}

module _ {J P T U E A : Type 0} (db : Client J P T U E A) where
  abbrev S : Type 0
  S = Store J P T U E A

  -- The row that the update of a job requires: still the technician's, and not changed since.
  abbrev pub locked_key : Access → UpdateRequest → Job → Job → Bool
  locked_key a r j k = assigned_key a j.id k && k.updated_at == r.expected_updated_at

  -- The last read, by the id, the tenant and the technician alone.
  abbrev reload_key : Access → Job → Job → Bool
  reload_key a j k =
      text_eq k.id j.id
      && text_eq k.tenant_id a.tenant_id
      && opt_text_eq k.assigned_user_id (some a.technician_id)

  unfoldable pub answer : Instant → Access → UpdateRequest → Job → Action S Answer
  answer now a r j s =
      if releases r.action
      then (ok (released j.id r.action now), s)
      else (reloaded (db.job.find_first (reload_key a j) s.jobs), s)
    where
      reloaded : Option Job → Result Answer
      reloaded none = err (conflict "Updated job could not be reloaded.")
      reloaded (some k) = ok (changed k)

  unfoldable pub write_update : Instant → Access → UpdateRequest → Job → Action S Answer
  unfolding apply_action update_audit answer
  write_update now a r j = do
    count ← update_jobs db (locked_key a r j) (apply_action now r.action j)
    throw_if (not (count == 1))
        (conflict "This job changed after it was loaded. Refresh before trying again.")
    create_audit db (update_audit a r j)
    answer now a r j

  unfoldable pub settle_reading : Instant → Access → UpdateRequest → Reading → Action S Answer
  unfolding write_update
  settle_reading now a r (refused e) = throw e
  settle_reading now a r (there_before j) = pure (unchanged j)
  settle_reading now a r (available j) = write_update now a r j

  -- The transaction of `update`, once the access is verified and the technician active. The first read
  -- sees `seen`: other transactions may have been committed since.
  unfoldable pub update_job : Instant → S → Access → UpdateRequest → Action S Answer
  unfolding reading settle_reading
  update_job now seen a r = transaction (
      settle_reading now a r
        (reading r.action (db.job.find_first (assigned_key a r.job_id) seen.jobs)))

  -- `update`, with what the verification of the token came to.
  unfoldable pub update : Result Access → List User → Instant → S → UpdateRequest → Action S Answer
  unfolding active_technician update_job
  update verified users now seen r = do
    a ← lift verified
    lift (active_technician users a)
    update_job now seen a r
