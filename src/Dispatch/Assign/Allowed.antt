-- ===== src/Dispatch/Assign/Allowed.antt =====
-- Which assignments are made.
use signmons_calldesk_backen.Base.{
  Bool, true, false, not, ◌&&◌, ◌||◌, Option, none, some, if◌then◌else◌, Instant, Result, ok,
  HttpError, List, find, find-holds, ◌≡◌, ◌⊎◌, refl, ap, arith, Bool-cases, Result-cases,
  Option-cases, inl, inr, effects, commit, transaction, ok-injective,
}
use mathlib.Core.Path.{subst}
use signmons_calldesk_backen.Base.Text.{text_eq, opt_text_eq, present}
use signmons_calldesk_backen.Base.Searches.{Among, find-Among}
use signmons_calldesk_backen.Data.Rows.{Job, Payment}
use signmons_calldesk_backen.Data.Store.{Store, Client}
use signmons_calldesk_backen.Dispatch.Board.{Candidate, recommend, gate_of, is_locked}
use signmons_calldesk_backen.Dispatch.Assign.{
  AssignRequest, Surroundings, Assignment, live_key, normalized_reason, is_reason, is_closed,
  is_override, Plan, refused, there_already, assignable, plan_candidate, plan_job, there,
  payment_for, ranked_for, plan_of, settle_plan, assign, reason_missing,
}

-- The candidate is the one that is recommended, and eligible.
abbrev pub IsRecommended : Candidate → List Candidate → Type 0
IsRecommended c cs =
    (c.eligible ≡ true)
    × (b : Candidate) × (recommend cs ≡ some b)
    × (text_eq b.user_id c.user_id ≡ true)

-- The job that is assigned to the candidate `c` of `cs`.
abbrev pub IsAllowed : AssignRequest → Job → Option Payment → List Candidate → Candidate → Type 0
IsAllowed r j payment cs c =
    (is_closed j.status ≡ false)
    × (is_locked (gate_of j payment) ≡ false)
    × Among c cs
    × (text_eq c.user_id r.technician_id ≡ true)
    × ((is_reason (normalized_reason r.reason) ≡ true)
        ⊎ ((present j.assigned_user_id ≡ false) × IsRecommended c cs))

IsRecommended-of_override :
    (c : Candidate) (cs : List Candidate) (o : Option Candidate)
    → recommend cs ≡ o
    → is_override c o ≡ false
    → IsRecommended c cs
IsRecommended-of_override c cs none e h = absurd (ground arith)
IsRecommended-of_override c cs (some b) e h = (ground arith, b, e, ground arith)

excused :
    (assigned override reason : Bool)
    → ((assigned || override) && not reason) ≡ false
    → (reason ≡ true) ⊎ ((assigned ≡ false) × (override ≡ false))
excused assigned override true h = inl refl
excused true override false h = absurd (ground arith)
excused false true false h = absurd (ground arith)
excused false false false h = inr (refl, refl)

pub plan_candidate-assignable :
    (r : AssignRequest) (j j' : Job) (cs : List Candidate) (c : Candidate) (b : Option Candidate)
    → plan_candidate r j cs ≡ assignable j' c b
    → (j ≡ j')
      × Among c cs
      × (text_eq c.user_id r.technician_id ≡ true)
      × ((is_reason (normalized_reason r.reason) ≡ true)
          ⊎ ((present j.assigned_user_id ≡ false) × IsRecommended c cs))
unfolding plan_candidate
plan_candidate-assignable r j j' cs c b h =
    elim (Option-cases (find (λ d. text_eq d.user_id r.technician_id) cs)) [
      | inl e ↦ absurd (no_plan (rw e at h))
      | inr (d, e) ↦ selected d e (Bool-cases (lacking d)) (rw e at h)
    ]
  where
    lacking : Candidate → Bool
    lacking d =
        (present j.assigned_user_id || is_override d (recommend cs))
        && not (is_reason (normalized_reason r.reason))

    no_plan : {e : HttpError} → (refused e ≡ assignable j' c b) → ⊥
    no_plan k = ground arith

    job_of : Plan → Job
    job_of (assignable k _ _) = k
    job_of _ = j

    candidate_of_plan : Plan → Candidate
    candidate_of_plan (assignable _ d _) = d
    candidate_of_plan _ = c

    reasons :
        (d : Candidate)
        → (is_reason (normalized_reason r.reason) ≡ true)
          ⊎ ((present j.assigned_user_id ≡ false) × (is_override d (recommend cs) ≡ false))
        → (is_reason (normalized_reason r.reason) ≡ true)
          ⊎ ((present j.assigned_user_id ≡ false) × IsRecommended d cs)
    reasons d (inl k) = inl k
    reasons d (inr (k, l)) = inr (k, IsRecommended-of_override d cs (recommend cs) refl l)

    selected :
        (d : Candidate)
        → find (λ x. text_eq x.user_id r.technician_id) cs ≡ some d
        → (lacking d ≡ true) ⊎ (lacking d ≡ false)
        → (if lacking d then refused reason_missing else assignable j d (recommend cs))
          ≡ assignable j' c b
        → (j ≡ j')
          × Among c cs
          × (text_eq c.user_id r.technician_id ≡ true)
          × ((is_reason (normalized_reason r.reason) ≡ true)
              ⊎ ((present j.assigned_user_id ≡ false) × IsRecommended c cs))
    selected d e (inl k) g = absurd (no_plan (rw k at g))
    selected d e (inr k) g =
        let made : assignable j d (recommend cs) ≡ assignable j' c b = rw k at g in
        let same : d ≡ c = ap candidate_of_plan made in
        (
          ap job_of made,
          subst (λ x. Among x cs) same (find-Among (λ x. text_eq x.user_id r.technician_id) cs e),
          subst (λ x. text_eq x.user_id r.technician_id ≡ true) same
              (find-holds (λ x. text_eq x.user_id r.technician_id) cs e),
          subst
              (λ x.
                (is_reason (normalized_reason r.reason) ≡ true)
                ⊎ ((present j.assigned_user_id ≡ false) × IsRecommended x cs))
              same (reasons d (excused _ _ _ k)),
        )

-- The checks that a plan to assign has passed.
pub plan_job-assignable :
    (r : AssignRequest) (payment : Job → Option Payment) (ranked : Job → Result (List Candidate))
    (i j : Job) (c : Candidate) (b : Option Candidate)
    → plan_job r payment ranked (some i) ≡ assignable j c b
    → (is_closed i.status ≡ false)
      × (is_locked (gate_of i (payment i)) ≡ false)
      × (cs : List Candidate) × (ranked i ≡ ok cs)
      × (plan_candidate r i cs ≡ assignable j c b)
unfolding plan_job
plan_job-assignable r payment ranked i j c b h = elim (Bool-cases (is_closed i.status)) [
  | inl k ↦ absurd (no_refusal (rw k at h))
  | inr open_job ↦ elim (Bool-cases (opt_text_eq i.assigned_user_id (some r.technician_id))) [
    | inl k ↦ absurd (no_change (rw (open_job, k) at h))
    | inr other ↦ elim (Bool-cases (is_locked (gate_of i (payment i)))) [
      | inl k ↦ absurd (no_refusal (rw (open_job, other, k) at h))
      | inr free ↦ elim (Result-cases (ranked i)) [
        | inl (cs, e) ↦ (open_job, free, cs, e, rw (open_job, other, free, e) at h)
        | inr (x, e) ↦ absurd (no_refusal (rw (open_job, other, free, e) at h))
      ]
    ]
  ]
]
  where
    no_refusal : {e : HttpError} → (refused e ≡ assignable j c b) → ⊥
    no_refusal k = ground arith

    no_change : (there_already i ≡ assignable j c b) → ⊥
    no_change k = ground arith

module _ {J P T U E A : Type 0} (db : Client J P T U E A) (around : Surroundings) where
  abbrev S : Type 0
  S = Store J P T U E A

  -- What was read when an assignment was made.
  abbrev pub WasAllowed : Instant → S → AssignRequest → Type 0
  WasAllowed now seen r =
      (j : Job) × (cs : List Candidate) × (c : Candidate) × (db.job.find_first
          (live_key r.tenant_id r.job_id) seen.jobs
        ≡ some j)
      × (ranked_for db around now r seen j ≡ ok cs)
      × IsAllowed r j (payment_for db around seen j) cs c

  plan_of-assignable :
      (now : Instant) (seen : S) (r : AssignRequest) (j : Job) (c : Candidate)
      (b : Option Candidate)
      → plan_of db around now seen r ≡ assignable j c b
      → WasAllowed now seen r
  unfolding plan_of
  plan_of-assignable now seen r j c b h =
      by_row (db.job.find_first (live_key r.tenant_id r.job_id) seen.jobs) refl h
    where
      no_row : {e : HttpError} → (refused e ≡ assignable j c b) → ⊥
      no_row k = ground arith

      by_row :
          (o : Option Job)
          → db.job.find_first (live_key r.tenant_id r.job_id) seen.jobs ≡ o
          → plan_job r (payment_for db around seen) (ranked_for db around now r seen) o
            ≡ assignable j c b
          → WasAllowed now seen r
      by_row none e k = absurd (no_row (unfold plan_job in k))
      by_row (some i) e k =
          let (open_job, free, cs, ranked, planned) =
            plan_job-assignable r (payment_for db around seen) (ranked_for db around now r seen) i j
              c b k in
          let (same, among, chosen, reason) = plan_candidate-assignable r i j cs c b planned in
          (i, cs, c, e, ranked, (open_job, free, among, chosen, reason))

  plan-changed :
      (now : Instant) (r : AssignRequest) (p : Plan) (s : S) {a : Assignment}
      → (transaction (settle_plan db around now r p) s).0 ≡ ok a
      → a.changed ≡ true
      → (j : Job) × (c : Candidate) × (b : Option Candidate) × (p ≡ assignable j c b)
  unfolding settle_plan transaction commit effects there
  plan-changed now r (refused e) s h k = absurd (ground arith)
  plan-changed now r (there_already j) s {a} h k =
      let unchanged : false ≡ a.changed = ap (λ x. x.changed) (ok-injective h) in
      absurd (ground arith)
  plan-changed now r (assignable j c b) s h k = (j, c, b, refl)

  -- Where an assignment is answered as a change, whatever was committed since the reads: the job that
  -- was read was neither completed nor cancelled, its payment gate was not locked, the technician was
  -- among the candidates, and either a reason of ten characters or more was given, or the job had no
  -- technician and this one is eligible and the one recommended.
  pub assign-WasAllowed :
      (now : Instant) (seen : S) (r : AssignRequest) (s : S) {a : Assignment}
      → (assign db around now seen r s).0 ≡ ok a
      → a.changed ≡ true
      → WasAllowed now seen r
  unfolding assign
  assign-WasAllowed now seen r s h k =
      let (j, c, b, planned) = plan-changed now r (plan_of db around now seen r) s h k in
      plan_of-assignable now seen r j c b planned
