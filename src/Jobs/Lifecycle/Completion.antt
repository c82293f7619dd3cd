-- ===== src/Jobs/Lifecycle/Completion.antt =====
-- A job is completed once.
use signmons_calldesk_backen.Base.{
  Bool, true, false, not, ◌&&◌, Option, some, is_some, find, find-holds, ◌≡◌, ◌≢◌, refl, sym, ap,
  ◌∙◌, arith, Result, ok, err, Instant, inl, inr, Bool-cases, ◌==◌, effects, after, commit,
  transaction, HttpError, throw, pure, Action, ok-injective,
}
use signmons_calldesk_backen.Base.Text.{Key, text_eq, text_eq_refl}
use signmons_calldesk_backen.Base.Table.{find-update_rows_if}
use signmons_calldesk_backen.Data.Enums.{JobStatus, job_status_eq}
use signmons_calldesk_backen.Data.Rows.{Job}
use signmons_calldesk_backen.Data.Store.{Store, Client, update_jobs, create_audit}
use signmons_calldesk_backen.Jobs.Lifecycle.{
  CompleteJobRequest, CompleteJobResult, job_key, unchanged_key, complete, Reading, refused,
  done_before, completable, reading, overtaken, find_job, write_completion, settle_reading,
  complete_job,
}

-- The same result, for a call that changes nothing.
abbrev pub again : CompleteJobResult → CompleteJobResult
again x = record x { changed = false }

job_status_eq_refl : (status : JobStatus) → job_status_eq status status ≡ true
job_status_eq_refl JobStatus.created = refl
job_status_eq_refl JobStatus.offered = refl
job_status_eq_refl JobStatus.accepted = refl
job_status_eq_refl JobStatus.declined = refl
job_status_eq_refl JobStatus.expired = refl
job_status_eq_refl JobStatus.in_progress = refl
job_status_eq_refl JobStatus.completed = refl
job_status_eq_refl JobStatus.cancelled = refl

reading-done_before :
    (o : Option Job) (x : CompleteJobResult) → reading o ≡ done_before x → x.changed ≡ false
unfolding reading
reading-done_before o x h = ground arith

reading-completable : (o : Option Job) (j : Job) → reading o ≡ completable j → o ≡ some j
unfolding reading
reading-completable o j h = ground arith

reading-complete_row :
    (now : Instant) (j : Job)
    → reading (some (complete now j))
      ≡ done_before (record { job_id = j.id; completed_at = now; changed = false })
unfolding reading complete
reading-complete_row now j = refl

complete-keeps :
    (tenant_id id : Key) (now : Instant) (j : Job)
    → job_key tenant_id id (complete now j) ≡ job_key tenant_id id j
unfolding complete
complete-keeps tenant_id id now j = refl

unchanged-again : (y : CompleteJobResult) → y.changed ≡ false → again y ≡ y
unchanged-again y h = ap (λ b. record y { changed = b }) (sym h)

module _ {J P T U E A : Type 0} (db : Client J P T U E A) where
  abbrev S : Type 0
  S = Store J P T U E A

  keep_key : (a b c : Bool) → (a && b && c) ≡ true → ((true && b && c) && true) ≡ true
  keep_key true true true h = refl
  keep_key true true false h = ground arith
  keep_key true false c h = ground arith
  keep_key false b c h = ground arith

  unchanged_key_self :
      (r : CompleteJobRequest) (j : Job)
      → job_key r.tenant_id r.job_id j ≡ true
      → unchanged_key r.tenant_id j j ≡ true
  unchanged_key_self r j h =
      rw (text_eq_refl j.id, job_status_eq_refl j.status)
        (keep_key (text_eq j.id r.job_id) (text_eq j.tenant_id r.tenant_id)
          (not (is_some j.deleted_at)) h)

  -- After the guarded update, the job's key finds it completed.
  written :
      (now : Instant) (r : CompleteJobRequest) (j : Job) (jobs : J)
      → find (job_key r.tenant_id r.job_id) (db.job.rows jobs) ≡ some j
      → find
          (job_key r.tenant_id r.job_id)
          (db.job.rows (db.job.update_many (unchanged_key r.tenant_id j) (complete now) jobs).1)
        ≡ some (complete now j)
  written now r j jobs found =
      rw (db.job.rows-update_many (unchanged_key r.tenant_id j) (complete now) jobs) (
        rw
          (unchanged_key_self r j
            (find-holds (job_key r.tenant_id r.job_id) (db.job.rows jobs) found))
          at
          (find-update_rows_if (job_key r.tenant_id r.job_id) (unchanged_key r.tenant_id j)
            (complete now) (complete-keeps r.tenant_id r.job_id now) (db.job.rows jobs) found))

  overtaken-complete_row :
      (now : Instant) (j : Job)
      → overtaken (some (complete now j))
        ≡ ok (record { job_id = j.id; completed_at = now; changed = false })
  unfolding overtaken complete
  overtaken-complete_row now j = refl

  -- The two ends of the guarded update.
  write_completion-result :
      (now : Instant) (r : CompleteJobRequest) (j : Job) (s : S) {x : CompleteJobResult}
      → find (job_key r.tenant_id r.job_id) (db.job.rows s.jobs) ≡ some j
      → (write_completion db now r j s).0 ≡ ok x
      → (again x ≡ record { job_id = j.id; completed_at = now; changed = false })
        × (find (job_key r.tenant_id r.job_id) (db.job.rows (write_completion db now r j s).1.jobs)
            ≡ some (complete now j))
  unfolding write_completion effects after update_jobs create_audit
  write_completion-result now r j s {x} found h =
      elim (Bool-cases
        ((db.job.update_many (unchanged_key r.tenant_id j) (complete now) s.jobs).0 == 0)) [
          | inr some_row ↦ (
            ap again (sym (ok-injective (rw some_row at h))),
            rw some_row (written now r j s.jobs found),
          )
          | inl no_row ↦
              let seen_again =
                rw
                  (
                    no_row,
                    db.job.find_first_lem,
                    written now r j s.jobs found,
                    overtaken-complete_row now j,
                  )
                  at h in
              (ap again (sym (ok-injective seen_again)), rw no_row (written now r j s.jobs found))
        ]

  done_again :
      (later : Instant) (r : CompleteJobRequest) (s : S) (y : CompleteJobResult)
      → reading (find_job db (job_key r.tenant_id r.job_id) s) ≡ done_before y
      → complete_job db later s r s ≡ (ok y, s)
  unfolding complete_job settle_reading effects commit
  done_again later r s y h = rw h refl

  transaction-ok :
      (m : Action S CompleteJobResult) (s : S) {x : CompleteJobResult}
      → (transaction m s).0 ≡ ok x
      → transaction m s ≡ m s
  unfolding transaction commit
  transaction-ok m s {x} h = go (m s) h
    where
      go : (p : Result CompleteJobResult × S) → (commit s p).0 ≡ ok x → commit s p ≡ p
      go (ok y, s') k = refl
      go (err e, s') k = ground arith

  first_refused :
      (e : HttpError) (s : S) {x : CompleteJobResult} → (transaction (throw e) s).0 ≢ ok x
  unfolding transaction commit throw
  first_refused e s h = ground arith

  first_done : (y : CompleteJobResult) (s : S) → transaction (pure y) s ≡ (ok y, s)
  unfolding transaction commit pure
  first_done y s = refl

  -- The first call, read as `y`, and the store that the second one finds.
  after_first :
      (now : Instant) (r : CompleteJobRequest) (s : S) (x : CompleteJobResult) (y : Reading)
      → y ≡ reading (find_job db (job_key r.tenant_id r.job_id) s)
      → (transaction (settle_reading db now r y) s).0 ≡ ok x
      → reading
          (find_job db (job_key r.tenant_id r.job_id) (transaction (settle_reading db now r y) s).1)
        ≡ done_before (again x)
  unfolding settle_reading
  after_first now r s x (refused e) k h = absurd (first_refused e s h)
  after_first now r s x (done_before y) k h =
      let same : y ≡ x = ok-injective (rw (first_done y s) at h) in
      rw (first_done y s) (
        sym k
        ∙ ap done_before
            (sym (unchanged-again y (reading-done_before _ y (sym k))) ∙ ap again same))
  after_first now r s x (completable j) k h =
      let found : find (job_key r.tenant_id r.job_id) (db.job.rows s.jobs) ≡ some j =
        rw (db.job.find_first_lem (job_key r.tenant_id r.job_id) s.jobs) at
          (reading-completable _ j (sym k)) in
      let plain = transaction-ok (write_completion db now r j) s h in
      let (result, row) = write_completion-result now r j s found (rw plain at h) in
      rw (plain, db.job.find_first_lem, row, reading-complete_row now j)
        (ap done_before (sym result))

  first :
      (now : Instant) (r : CompleteJobRequest) (s : S) (x : CompleteJobResult)
      → (complete_job db now s r s).0 ≡ ok x
      → reading (find_job db (job_key r.tenant_id r.job_id) (complete_job db now s r s).1)
        ≡ done_before (again x)
  unfolding complete_job
  first now r s x h =
      after_first now r s x (reading (find_job db (job_key r.tenant_id r.job_id) s)) refl h

  -- Where the completion of a job is answered, completing it once more, at any later time and whoever
  -- asks, answers the same job and the same time, says that nothing was changed, and writes nothing.
  pub complete_job-complete_job :
      (now later : Instant) (r r' : CompleteJobRequest) (s : S) (x : CompleteJobResult)
      → r'.tenant_id ≡ r.tenant_id
      → r'.job_id ≡ r.job_id
      → (complete_job db now s r s).0 ≡ ok x
      → complete_job db later (complete_job db now s r s).1 r' (complete_job db now s r s).1
        ≡ (ok (again x), (complete_job db now s r s).1)
  complete_job-complete_job now later r r' s x same_tenant same_job h =
      done_again later r' (complete_job db now s r s).1 (again x)
        (rw (same_tenant, same_job) (first now r s x h))
