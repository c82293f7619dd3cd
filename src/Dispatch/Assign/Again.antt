-- ===== src/Dispatch/Assign/Again.antt =====
-- An assignment is made once.
use signmons_calldesk_backen.Base.{
  Bool, true, false, ◌&&◌, Option, none, some, if◌then◌else◌, ◌==◌, Instant, Result, ok, err,
  HttpError, find, find-holds, ◌≡◌, refl, sym, ap, ◌∙◌, arith, Bool-cases, Result-cases,
  Option-cases, inl, inr, List, effects, after, commit, transaction, throw, pure,
}
use mathlib.Core.Path.{subst}
use signmons_calldesk_backen.Base.Text.{Key, text_eq, text_eq→eq, opt_text_eq}
use signmons_calldesk_backen.Base.Guarded.{Only, guarded_count, guarded_row}
use signmons_calldesk_backen.Data.Rows.{Job, Payment}
use signmons_calldesk_backen.Data.Store.{Store, Client, update_jobs, create_audit}
use signmons_calldesk_backen.Dispatch.Board.{Candidate, gate_of, is_locked}
use signmons_calldesk_backen.Dispatch.Assign.{
  AssignRequest, Surroundings, Assignment, live_key, version_key, is_closed, Plan, refused,
  plan_candidate, reason_missing, stale_assignment, there_already, assignable, plan_job, there,
  plan_of, payment_for, ranked_for, set_technician, write_assignment, settle_plan, assign,
}
use signmons_calldesk_backen.Dispatch.Assign.Allowed.{
  plan_candidate-assignable, plan_job-assignable,
}

plan_candidate-there :
    (r : AssignRequest) (i j : Job) (cs : List Candidate)
    → (plan_candidate r i cs ≡ there_already j)
    → ⊥
unfolding plan_candidate
plan_candidate-there r i j cs h =
    elim (Option-cases (find (λ d. text_eq d.user_id r.technician_id) cs)) [
      | inl e ↦ no_refusal (rw e at h)
      | inr (d, e) ↦ no_choice _ _ d (rw e at h)
    ]
  where
    no_refusal : {e : HttpError} → (refused e ≡ there_already j) → ⊥
    no_refusal k = ground arith

    no_choice :
        (b : Bool) (o : Option Candidate) (d : Candidate)
        → (if b then refused reason_missing else assignable i d o) ≡ there_already j
        → ⊥
    no_choice true o d k = ground arith
    no_choice false o d k = ground arith

plan_job-there_already :
    (r : AssignRequest) (payment : Job → Option Payment) (ranked : Job → Result (List Candidate))
    (i j : Job)
    → plan_job r payment ranked (some i) ≡ there_already j
    → (i ≡ j)
      × (is_closed i.status ≡ false)
      × (opt_text_eq i.assigned_user_id (some r.technician_id) ≡ true)
unfolding plan_job
plan_job-there_already r payment ranked i j h = elim (Bool-cases (is_closed i.status)) [
  | inl k ↦ absurd (no_refusal (rw k at h))
  | inr open_job ↦ elim (Bool-cases (opt_text_eq i.assigned_user_id (some r.technician_id))) [
    | inl k ↦ (ap job_of (rw (open_job, k) at h), open_job, k)
    | inr other ↦ elim (Bool-cases (is_locked (gate_of i (payment i)))) [
      | inl k ↦ absurd (no_refusal (rw (open_job, other, k) at h))
      | inr free ↦ elim (Result-cases (ranked i)) [
        | inl (cs, e) ↦ absurd (plan_candidate-there r i j cs (rw (open_job, other, free, e) at h))
        | inr (x, e) ↦ absurd (no_refusal (rw (open_job, other, free, e) at h))
      ]
    ]
  ]
]
  where
    no_refusal : {e : HttpError} → (refused e ≡ there_already j) → ⊥
    no_refusal k = ground arith

    job_of : Plan → Job
    job_of (there_already k) = k
    job_of _ = i

module _ {J P T U E A : Type 0} (db : Client J P T U E A) (around : Surroundings) where
  abbrev S : Type 0
  S = Store J P T U E A

  -- The job that the key finds has the technician already, and may be assigned.
  abbrev Has : AssignRequest → Job → S → Type 0
  Has r j s =
      (db.job.find_first (live_key r.tenant_id r.job_id) s.jobs ≡ some j)
      × (is_closed j.status ≡ false)
      × (opt_text_eq j.assigned_user_id (some r.technician_id) ≡ true)

  assign-Has :
      (now : Instant) (r : AssignRequest) (j : Job) (s : S)
      → Has r j s
      → assign db around now s r s ≡ (ok (there j), s)
  unfolding assign plan_of plan_job settle_plan transaction commit effects
  assign-Has now r j s h = rw h.0 (rw (h.1, h.2) refl)

  Has-of_plan :
      (now : Instant) (r : AssignRequest) (j : Job) (s : S)
      → plan_of db around now s r ≡ there_already j
      → Has r j s
  unfolding plan_of
  Has-of_plan now r j s h = by_row (db.job.find_first (live_key r.tenant_id r.job_id) s.jobs) refl h
    where
      no_row : {e : HttpError} → (refused e ≡ there_already j) → ⊥
      no_row k = ground arith

      by_row :
          (o : Option Job)
          → db.job.find_first (live_key r.tenant_id r.job_id) s.jobs ≡ o
          → plan_job r (payment_for db around s) (ranked_for db around now r s) o ≡ there_already j
          → Has r j s
      by_row none e k = absurd (no_row (unfold plan_job in k))
      by_row (some i) e k =
          let (same, open_job, has) =
            plan_job-there_already r (payment_for db around s) (ranked_for db around now r s) i j
              k in
          (
            e ∙ ap (λ x. some x) same,
            subst (λ x. is_closed x.status ≡ false) same open_job,
            subst (λ x. opt_text_eq x.assigned_user_id (some r.technician_id) ≡ true) same has,
          )

  -- What a plan to write was made from.
  abbrev Planned : AssignRequest → Job → Candidate → S → Type 0
  Planned r j c s =
      (db.job.find_first (live_key r.tenant_id r.job_id) s.jobs ≡ some j)
      × (is_closed j.status ≡ false)
      × (text_eq c.user_id r.technician_id ≡ true)

  Planned-of_plan :
      (now : Instant) (r : AssignRequest) (j : Job) (c : Candidate) (b : Option Candidate) (s : S)
      → plan_of db around now s r ≡ assignable j c b
      → Planned r j c s
  unfolding plan_of
  Planned-of_plan now r j c b s h =
      by_row (db.job.find_first (live_key r.tenant_id r.job_id) s.jobs) refl h
    where
      no_row : {e : HttpError} → (refused e ≡ assignable j c b) → ⊥
      no_row k = ground arith

      by_row :
          (o : Option Job)
          → db.job.find_first (live_key r.tenant_id r.job_id) s.jobs ≡ o
          → plan_job r (payment_for db around s) (ranked_for db around now r s) o ≡ assignable j c b
          → Planned r j c s
      by_row none e k = absurd (no_row (unfold plan_job in k))
      by_row (some i) e k =
          let (open_job, _, cs, _, planned) =
            plan_job-assignable r (payment_for db around s) (ranked_for db around now r s) i j c b
              k in
          let (same, _, chosen, _) = plan_candidate-assignable r i j cs c b planned in
          (e ∙ ap (λ x. some x) same, subst (λ x. is_closed x.status ≡ false) same open_job, chosen)

  live_key-set_technician :
      (now : Instant) (r : AssignRequest) (c : Candidate) (id : Key) (k : Job)
      → live_key r.tenant_id id (set_technician now r c k) ≡ live_key r.tenant_id id k
  unfolding set_technician
  live_key-set_technician now r c id k = refl

  id_of_key :
      (r : AssignRequest) (j : Job) → live_key r.tenant_id r.job_id j ≡ true → j.id ≡ r.job_id
  id_of_key r j h = text_eq→eq j.id r.job_id (first _ _ _ h)
    where
      first : (a b c : Bool) → (a && b && c) ≡ true → a ≡ true
      first a b c h = ground arith

  -- The row of the update is the one that the job's key finds.
  set_row :
      (now : Instant) (r : AssignRequest) (j : Job) (c : Candidate) (jobs : J)
      → Only db.job (live_key r.tenant_id r.job_id) j jobs
      → ((db.job.update_many
            (version_key r.tenant_id j.id r.expected_updated_at)
            (set_technician now r c)
            jobs).0
          ≡ (if j.updated_at == r.expected_updated_at then 1 else 0))
        × Only db.job
            (live_key r.tenant_id r.job_id)
            (if j.updated_at == r.expected_updated_at then set_technician now r c j else j)
            (db.job.update_many
              (version_key r.tenant_id j.id r.expected_updated_at)
              (set_technician now r c)
              jobs).1
  set_row now r j c jobs only =
      let same = id_of_key r j (find-holds _ (db.job.rows jobs) only.1) in
      subst
        (λ x.
          ((db.job.update_many (version_key r.tenant_id x r.expected_updated_at)
              (set_technician now r c) jobs).0
            ≡ (if j.updated_at == r.expected_updated_at then 1 else 0))
          × Only db.job (live_key r.tenant_id r.job_id)
              (if j.updated_at == r.expected_updated_at then set_technician now r c j else j)
              (db.job.update_many (version_key r.tenant_id x r.expected_updated_at)
                (set_technician now r c) jobs).1)
        (sym same)
        (
          guarded_count db.job (live_key r.tenant_id r.job_id)
              (λ k. k.updated_at == r.expected_updated_at) (set_technician now r c)
              (live_key-set_technician now r c r.job_id) jobs only,
          guarded_row db.job (live_key r.tenant_id r.job_id)
              (λ k. k.updated_at == r.expected_updated_at) (set_technician now r c)
              (live_key-set_technician now r c r.job_id) jobs only,
        )

  set_technician-has :
      (now : Instant) (r : AssignRequest) (c : Candidate) (j : Job)
      → is_closed j.status ≡ false
      → text_eq c.user_id r.technician_id ≡ true
      → (is_closed (set_technician now r c j).status ≡ false)
        × (opt_text_eq (set_technician now r c j).assigned_user_id (some r.technician_id) ≡ true)
  unfolding set_technician
  set_technician-has now r c j h k = (h, k)

  -- The technician has the job once the assignment is answered.
  abbrev Stays : AssignRequest → S → Type 0
  Stays r s = (j : Job) × Has r j s

  write-Stays :
      (now : Instant) (r : AssignRequest) (j : Job) (c : Candidate) (b : Option Candidate) (s : S)
      {a : Assignment}
      → Only db.job (live_key r.tenant_id r.job_id) j s.jobs
      → is_closed j.status ≡ false
      → text_eq c.user_id r.technician_id ≡ true
      → (transaction (write_assignment db around now r j c b) s).0 ≡ ok a
      → Stays r (transaction (write_assignment db around now r j c b) s).1
  unfolding write_assignment transaction commit effects after update_jobs create_audit
  write-Stays now r j c b s {a} only open_job chosen h =
      let (count, row) = set_row now r j c s.jobs only in
      elim (Bool-cases (j.updated_at == r.expected_updated_at)) [
        | inr stale ↦ absurd (not_ok (rw (count, stale) at h))
        | inl fresh ↦
            let kept : Only db.job (live_key r.tenant_id r.job_id) (set_technician now r c j)
                (db.job.update_many (version_key r.tenant_id j.id r.expected_updated_at)
                  (set_technician now r c) s.jobs).1 =
              rw fresh at row in
            let closed = set_technician-has now r c j open_job chosen in
            rw (count, fresh)
              (set_technician now r c j, (rw db.job.find_first_lem (kept.1), closed.0, closed.1))
      ]
    where
      not_ok : (err stale_assignment ≡ ok a) → ⊥
      not_ok k = ground arith

  there_before : (j : Job) (s : S) → transaction (pure (there j)) s ≡ (ok (there j), s)
  unfolding transaction commit pure
  there_before j s = refl

  first_refused :
      (e : HttpError) (s : S) {a : Assignment} → ((transaction (throw e) s).0 ≡ ok a) → ⊥
  unfolding transaction commit throw
  first_refused e s h = ground arith

  settled-Stays :
      (now : Instant) (r : AssignRequest) (p : Plan) (s : S) {k : Job} {a : Assignment}
      → plan_of db around now s r ≡ p
      → Only db.job (live_key r.tenant_id r.job_id) k s.jobs
      → (transaction (settle_plan db around now r p) s).0 ≡ ok a
      → Stays r (transaction (settle_plan db around now r p) s).1
  unfolding settle_plan
  settled-Stays now r (refused e) s planned only h = absurd (first_refused e s h)
  settled-Stays now r (there_already j) s planned only h =
      rw (there_before j s) (j, Has-of_plan now r j s planned)
  settled-Stays now r (assignable j c b) s {k} planned only h =
      let (found, open_job, chosen) = Planned-of_plan now r j c b s planned in
      let seen : find (live_key r.tenant_id r.job_id) (db.job.rows s.jobs) ≡ some j =
        rw db.job.find_first_lem at found in
      write-Stays now r j c b s (only.0, seen) open_job chosen h

  -- The job is the technician's, as the answer says, and nothing was written.
  abbrev pub IsThere : AssignRequest → S → Result Assignment × S → Type 0
  IsThere r s p =
      ((j : Job) × (p.0 ≡ ok (there j))
        × (opt_text_eq j.assigned_user_id (some r.technician_id) ≡ true))
      × (p.1 ≡ s)

  again :
      (later : Instant) (r : AssignRequest) (s : S)
      → Stays r s
      → IsThere r s (assign db around later s r s)
  again later r s (j, has) = rw (assign-Has later r j s has) ((j, refl, has.2), refl)

  -- Where an assignment is answered, and the job alone has its key, asking for it once more, at any later
  -- time, of whatever version and for whatever reason, answers that the job is the technician's, and
  -- writes nothing.
  pub assign-assign :
      (now later : Instant) (r r' : AssignRequest) (s : S) {k : Job} {a : Assignment}
      → r'.tenant_id ≡ r.tenant_id
      → r'.job_id ≡ r.job_id
      → r'.technician_id ≡ r.technician_id
      → Only db.job (live_key r.tenant_id r.job_id) k s.jobs
      → (assign db around now s r s).0 ≡ ok a
      → IsThere r'
          (assign db around now s r s).1
          (assign db around later (assign db around now s r s).1 r' (assign db around now s r s).1)
  assign-assign now later r r' s tenant job technician only h =
      again later r' (assign db around now s r s).1 (
        rw (tenant, job, technician)
          (unfold assign in settled-Stays now r (plan_of db around now s r) s refl only h))
