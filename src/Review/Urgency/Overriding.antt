-- ===== src/Review/Urgency/Overriding.antt =====
-- What an override leaves in the row: the urgency asked for, and a policy of the job that was read.
use signmons_calldesk_backen.Base.{
  true, false, Option, none, some, Instant, ok, effects, after, commit, transaction, pure, String,
  ◌≡◌, refl, ap, ◌∙◌, arith, Bool-cases, inl, inr, ok-injective,
}
use text.Mathlib.Text.{◌==◌ as str_eq}
use signmons_calldesk_backen.Base.Json.{
  Json, Fields, obj, null, bool, num, str, arr, end, set_field, record_of, get_field-set_field_ne,
}
use signmons_calldesk_backen.Base.Guarded.{Only, keyed_count, keyed_row}
use signmons_calldesk_backen.Data.Rows.{Job, Payment}
use signmons_calldesk_backen.Data.Enums.{JobUrgency, urgency_eq}
use signmons_calldesk_backen.Data.Store.{Store, Client, update_jobs, create_audit}
use signmons_calldesk_backen.Payments.Requests.Exceptions.{snapshot_of}
use signmons_calldesk_backen.Payments.Gate.{
  evaluate_payment_gate, payment_required, exception_approved, PaymentGatePayment,
}
use signmons_calldesk_backen.Dispatch.Board.{gate_of}
use signmons_calldesk_backen.Review.Urgency.{
  OverrideRequest, Overridden, id_key, review_key, set_urgency, urgency_decision, write_override,
  unchanged, override_found, override,
}

-- The gate reads the policy in four fields only, so it does not see another one.
gate-set_field :
    (k : String) (v : Json) (fs : Fields) (p : Option PaymentGatePayment)
    → str_eq k "depositRequired" ≡ false
    → str_eq k "serviceFeeRequired" ≡ false
    → str_eq k "paymentGateMode" ≡ false
    → str_eq k "paymentGateException" ≡ false
    → evaluate_payment_gate (some (obj (set_field k v fs))) p
      ≡ evaluate_payment_gate (some (obj fs)) p
unfolding evaluate_payment_gate payment_required exception_approved
gate-set_field k v fs p d f m e =
    rw
      (
        get_field-set_field_ne k "depositRequired" v fs d,
        get_field-set_field_ne k "serviceFeeRequired" v fs f,
        get_field-set_field_ne k "paymentGateMode" v fs m,
        get_field-set_field_ne k "paymentGateException" v fs e,
      )
      refl

gate-record_of :
    (v : Json) (p : Option PaymentGatePayment)
    → evaluate_payment_gate (some (obj (elim (record_of (some v)) [ none ↦ end | some fs ↦ fs ]))) p
      ≡ evaluate_payment_gate (some v) p
unfolding evaluate_payment_gate payment_required exception_approved
gate-record_of (obj fs) p = refl
gate-record_of null p = refl
gate-record_of (bool b) p = refl
gate-record_of (num n) p = refl
gate-record_of (str t) p = refl
gate-record_of (arr vs) p = refl

gate-set_urgency :
    (now : Instant) (urgency : JobUrgency) (j k : Job) (p : Option Payment)
    → gate_of (set_urgency now urgency j k) p ≡ gate_of j p
unfolding gate_of set_urgency
gate-set_urgency now urgency j k p =
    gate-set_field "urgencyDecision" (urgency_decision urgency) (snapshot_of j) _ refl refl refl
      refl
    ∙ gate-record_of j.policy_snapshot _

module _ {J P T U E A : Type 0} (db : Client J P T U E A) where
  abbrev S : Type 0
  S = Store J P T U E A

  -- The row has the urgency asked for and the gate of `j`, and is otherwise `k`'s.
  abbrev pub Overrides : OverrideRequest → Job → Job → S → Type 0
  Overrides r j k s =
      (i : Job) × (db.job.find_first (id_key r.tenant_id j) s.jobs ≡ some i)
      × (i.urgency ≡ r.urgency)
      × (i.status ≡ k.status)
      × ((payment : Option Payment) → gate_of i payment ≡ gate_of j payment)

  write-Overrides :
      (now : Instant) (r : OverrideRequest) (j k : Job) (s : S)
      → Only db.job (id_key r.tenant_id j) k s.jobs
      → Overrides r j k (transaction (write_override db now r j) s).1
  unfolding write_override transaction commit effects after update_jobs create_audit
  write-Overrides now r j k s only =
      let keep : (i : Job)
          → id_key r.tenant_id j (set_urgency now r.urgency j i) ≡ id_key r.tenant_id j i =
        λ i. unfold set_urgency in refl in
      rw (keyed_count db.job (id_key r.tenant_id j) (set_urgency now r.urgency j) keep s.jobs only)
        (
          set_urgency now r.urgency j k,
          rw db.job.find_first_lem
              (keyed_row db.job (id_key r.tenant_id j) (set_urgency now r.urgency j) keep s.jobs
                only).1,
          (unfold set_urgency in refl),
          (unfold set_urgency in refl),
          gate-set_urgency now r.urgency j k,
        )

  -- Where an override is answered as a change, and one row `k` has the id of the job `j` that was read,
  -- the row has the urgency asked for and keeps its status, and its payment gate is, for every payment,
  -- the one of `j`: an exception from payment that another transaction revoked after the read is in force
  -- again.
  pub override-gate :
      (now : Instant) (r : OverrideRequest) (j k : Job) (seen s : S) {d : Overridden}
      → db.job.find_first (review_key r) seen.jobs ≡ some j
      → Only db.job (id_key r.tenant_id j) k s.jobs
      → (override db now seen r s).0 ≡ ok d
      → d.changed ≡ true
      → Overrides r j k (override db now seen r s).1
  unfolding override override_found transaction commit pure effects
  override-gate now r j k seen s {d} found only h changed = rw found (by_found (rw found at h))
    where
      was_same : (transaction (pure (unchanged j)) s).0 ≡ ok d → ⊥
      was_same e = ground (arith, ap (λ x. x.changed) (ok-injective e))

      by_found :
          (transaction (override_found db now r (some j)) s).0 ≡ ok d
          → Overrides r j k (transaction (override_found db now r (some j)) s).1
      by_found e = elim (Bool-cases (urgency_eq j.urgency r.urgency)) [
        | inl same ↦ absurd (was_same (rw same at e))
        | inr other ↦ rw other (write-Overrides now r j k s only)
      ]
