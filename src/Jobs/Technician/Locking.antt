-- ===== src/Jobs/Technician/Locking.antt =====
-- Two changes that were prepared on the same version of a job.
use signmons_calldesk_backen.Base.{
  ℕ, Bool, true, false, ◌&&◌, Option, none, some, ◌≡◌, ◌≢◌, refl, sym, ap, ◌∙◌, arith, Result, ok,
  err, Instant, inl, inr, Bool-cases, ◌==◌, effects, after, commit, transaction, HttpError, throw,
  pure, Action, find-holds, &&-cases,
}
use signmons_calldesk_backen.Base.Text.{Key, text_eq, text_eq→eq}
use signmons_calldesk_backen.Base.Table.{update_rows, count_rows, count_rows-update_rows_none}
use signmons_calldesk_backen.Data.Rows.{Job}
use signmons_calldesk_backen.Data.Store.{Store, Client, update_jobs, create_audit}
use signmons_calldesk_backen.Jobs.Technician.{
  Access, UpdateRequest, Answer, unchanged, is_change, assigned_key, apply_action, reading, Reading,
  refused, there_before, available, releases, TechnicianJobAction, accept, decline, on_my_way,
  complete, cannot_take,
}
use signmons_calldesk_backen.Jobs.Technician.Service.{
  locked_key, answer, write_update, settle_reading, update_job,
}

apply_action-updated_at :
    (now : Instant) (action : TechnicianJobAction) (read j : Job)
    → (apply_action now action read j).updated_at ≡ now
unfolding apply_action
apply_action-updated_at now accept read j = refl
apply_action-updated_at now decline read j = refl
apply_action-updated_at now on_my_way read j = refl
apply_action-updated_at now TechnicianJobAction.in_progress read j = refl
apply_action-updated_at now complete read j = refl
apply_action-updated_at now cannot_take read j = refl

module _ {J P T U E A : Type 0} (db : Client J P T U E A) where
  abbrev S : Type 0
  S = Store J P T U E A

  answer-state :
      (now : Instant) (a : Access) (r : UpdateRequest) (j : Job) (s : S)
      → (answer db now a r j s).1 ≡ s
  unfolding answer
  answer-state now a r j s = elim (Bool-cases (releases r.action)) [
    | inl e ↦ rw e refl
    | inr e ↦ rw e refl
  ]

  write_update-rows :
      (now : Instant) (a : Access) (r : UpdateRequest) (j : Job) (s : S)
      → db.job.rows (write_update db now a r j s).1.jobs
        ≡ update_rows (locked_key db a r j) (apply_action now r.action j) (db.job.rows s.jobs)
  unfolding write_update effects after update_jobs create_audit
  write_update-rows now a r j s =
      elim (Bool-cases
        ((db.job.update_many (locked_key db a r j) (apply_action now r.action j) s.jobs).0 == 1)) [
          | inl e ↦
              rw (e, answer-state now a r j)
                (db.job.rows-update_many (locked_key db a r j) (apply_action now r.action j) s.jobs)
          | inr e ↦
              rw e
                (db.job.rows-update_many (locked_key db a r j) (apply_action now r.action j) s.jobs)
        ]

  transaction-change :
      (m : Action S Answer) (s : S) → is_change (transaction m s).0 ≡ true → transaction m s ≡ m s
  unfolding transaction commit
  transaction-change m s h = go (m s) h
    where
      go : (r : Result Answer × S) → is_change (commit s r).0 ≡ true → commit s r ≡ r
      go (ok x, s') k = refl
      go (err e, s') k = ground arith

  reading-available :
      (action : TechnicianJobAction) (o : Option Job) (j : Job)
      → reading action o ≡ available j
      → o ≡ some j
  unfolding reading
  reading-available action none j h = ground arith
  reading-available action (some k) j h = ground arith

  throw-no_change :
      (e : HttpError) (s : S) → is_change (transaction (throw {A = Answer} e) s).0 ≢ true
  unfolding transaction commit throw
  throw-no_change e s h = ground arith

  pure-no_change : (j : Job) (s : S) → is_change (transaction (pure (unchanged j)) s).0 ≢ true
  unfolding transaction commit pure
  pure-no_change j s h = ground arith

  throw-undone :
      (e : HttpError) (s : S)
      → (is_change (transaction (throw {A = Answer} e) s).0 ≡ false)
        × ((transaction (throw {A = Answer} e) s).1 ≡ s)
  unfolding transaction commit throw
  throw-undone e s = (refl, refl)

  pure-unchanged :
      (j : Job) (s : S)
      → (is_change (transaction (pure (unchanged j)) s).0 ≡ false)
        × ((transaction (pure (unchanged j)) s).1 ≡ s)
  unfolding transaction commit pure
  pure-unchanged j s = (refl, refl)

  read-id :
      (seen : S) (a : Access) (id : Key) (j : Job)
      → db.job.find_first (assigned_key a id) seen.jobs ≡ some j
      → j.id ≡ id
  read-id seen a id j h =
      let fits =
        find-holds (assigned_key a id) (db.job.rows seen.jobs)
          (rw (db.job.find_first_lem (assigned_key a id) seen.jobs) at h) in
      text_eq→eq j.id id (&&-cases (text_eq j.id id) _ fits).0

  -- A change that is answered has found its row unchanged since it was read, and has written it.
  changed-rows :
      (now : Instant) (seen : S) (a : Access) (r : UpdateRequest) (s : S)
      → is_change (update_job db now seen a r s).0 ≡ true
      → (j : Job) × (j.id ≡ r.job_id)
        × (db.job.rows (update_job db now seen a r s).1.jobs
            ≡ update_rows (locked_key db a r j) (apply_action now r.action j) (db.job.rows s.jobs))
  unfolding update_job
  changed-rows now seen a r s h = go (reading r.action found) refl h
    where
      found : Option Job
      found = db.job.find_first (assigned_key a r.job_id) seen.jobs

      go :
          (x : Reading)
          → x ≡ reading r.action found
          → is_change (transaction (settle_reading db now a r x) s).0 ≡ true
          → (j : Job) × (j.id ≡ r.job_id)
            × (db.job.rows (transaction (settle_reading db now a r x) s).1.jobs
                ≡ update_rows
                    (locked_key db a r j)
                    (apply_action now r.action j)
                    (db.job.rows s.jobs))
      go (refused e) k c = absurd (throw-no_change e s c)
      go (there_before j) k c = absurd (pure-no_change j s c)
      go (available j) k c = (
        j,
        read-id seen a r.job_id j (reading-available r.action found j (sym k)),
        rw (transaction-change (write_update db now a r j) s c) (write_update-rows now a r j s),
      )

  never : (b : Bool) (m n : ℕ) → m ≢ n → (b && m == n) ≡ false
  never true m n h = ground arith
  never false m n h = refl

  locked-out :
      (now : Instant) (a : Access) (r : UpdateRequest) (id : Key) (j : Job)
      → now ≢ r.expected_updated_at
      → (k : Job)
      → (assigned_key a id (apply_action now r.action j k)
          && (apply_action now r.action j k).updated_at == r.expected_updated_at)
        ≡ false
  locked-out now a r id j fresh k =
      never (assigned_key a id (apply_action now r.action j k)) _ r.expected_updated_at
        (rw (apply_action-updated_at now r.action j k) fresh)

  -- Where no row has the version that was read, the transaction is undone.
  overtaken-update :
      (now : Instant) (a : Access) (r : UpdateRequest) (j : Job) (s : S)
      → count_rows (locked_key db a r j) (db.job.rows s.jobs) ≡ 0
      → (is_change (transaction (write_update db now a r j) s).0 ≡ false)
        × ((transaction (write_update db now a r j) s).1 ≡ s)
  unfolding write_update effects after commit update_jobs
  overtaken-update now a r j s none_left =
      rw
        (
          db.job.count-update_many (locked_key db a r j) (apply_action now r.action j) s.jobs,
          none_left,
        )
        (refl, refl)

  second :
      (later : Instant) (seen : S) (a : Access) (r : UpdateRequest) (s : S)
      → ((j : Job) → j.id ≡ r.job_id → count_rows (locked_key db a r j) (db.job.rows s.jobs) ≡ 0)
      → (is_change (update_job db later seen a r s).0 ≡ false)
        × ((update_job db later seen a r s).1 ≡ s)
  unfolding update_job
  second later seen a r s no_row = go (reading r.action found) refl
    where
      found : Option Job
      found = db.job.find_first (assigned_key a r.job_id) seen.jobs

      go :
          (x : Reading)
          → x ≡ reading r.action found
          → (is_change (transaction (settle_reading db later a r x) s).0 ≡ false)
            × ((transaction (settle_reading db later a r x) s).1 ≡ s)
      go (refused e) k = throw-undone e s
      go (there_before j) k = pure-unchanged j s
      go (available j) k =
          overtaken-update later a r j s
            (no_row j (read-id seen a r.job_id j (reading-available r.action found j (sym k))))

  -- Of two changes by a technician that were prepared on the same version of a job, at most one is
  -- made: once the first is answered as a change at another millisecond than that of the version, the
  -- second changes nothing, whatever the two actions are and whatever it read.
  pub update_job-update_job :
      (now later : Instant) (seen seen' : S) (a : Access) (r r' : UpdateRequest) (s : S)
      → r'.job_id ≡ r.job_id
      → r'.expected_updated_at ≡ r.expected_updated_at
      → now ≢ r.expected_updated_at
      → is_change (update_job db now seen a r s).0 ≡ true
      → (is_change (update_job db later seen' a r' (update_job db now seen a r s).1).0 ≡ false)
        × ((update_job db later seen' a r' (update_job db now seen a r s).1).1
            ≡ (update_job db now seen a r s).1)
  update_job-update_job now later seen seen' a r r' s same_job same_version fresh made =
      second later seen' a r' (update_job db now seen a r s).1 no_row
    where
      version : Key → Job → Bool
      version i k = assigned_key a i k && k.updated_at == r.expected_updated_at

      no_row :
          (j' : Job)
          → j'.id ≡ r'.job_id
          → count_rows (locked_key db a r' j') (db.job.rows (update_job db now seen a r s).1.jobs)
            ≡ 0
      no_row j' of_job =
          let (j, id, written) = changed-rows now seen a r s made in
          let changed_row = apply_action now r.action j in
          rw (written, of_job, same_job, same_version)
            (ap
                (λ i.
                  count_rows (version r.job_id)
                    (update_rows (version i) changed_row (db.job.rows s.jobs)))
                id
              ∙ count_rows-update_rows_none (version r.job_id) changed_row
                  (locked-out now a r r.job_id j fresh) (db.job.rows s.jobs))
