-- ===== src/Review/Intake/History.antt =====
-- When a request is ready, and what the history shows of a review.
use signmons_calldesk_backen.Base.{
  Bool, true, false, not, Option, none, some, if◌then◌else◌, is_some, Instant, ok, err, not_found,
  effects, after, ok-injective, Option-cases, inl, inr, ap, List, [], ◌∷◌, ◌++◌, map, ◌≡◌, refl,
  arith,
}
use mathlib.Core.Path.{subst}
use signmons_calldesk_backen.Base.Text.{Text, codes, text_eq, to_lower, truthy, starts_with}
use signmons_calldesk_backen.Base.Audit.{Audit, person}
use signmons_calldesk_backen.Base.Json.{str, is_text}
use signmons_calldesk_backen.Data.Rows.{Job, Payment}
use signmons_calldesk_backen.Data.Store.{Store, Client, create_audit}
use signmons_calldesk_backen.Payments.Requests.Reservation.{payment_of}
use signmons_calldesk_backen.Scheduling.{Joined}
use signmons_calldesk_backen.Dispatch.Board.{gate_of, is_locked}
use signmons_calldesk_backen.Dispatch.Assign.{live_key}
use signmons_calldesk_backen.Review.Intake.{
  MissingField, field_name, customer_name, phone, service_address, service_category, issue_summary,
  urgency, preferred_window, payment_status, ReadinessState, ready_to_assign, missing_info,
  Readiness, present, unless_known, preferred_window_of, push_if, missing_fields, state_of,
  readiness, to_summary, ReviewRequest, review_audit, find_job, review_found, review, state_name,
}
use signmons_calldesk_backen.Review.Intake.Records.{
  field_of, words_json, named_fields, ReviewEntry, review_entry, fields_of,
}

-- A value that is there and does not pass the test.
abbrev pub Passes : (Text → Bool) → Option Text → Type 0
Passes q o = (t : Text) × (o ≡ some t) × (q t ≡ false)

-- A request with everything: a name that is not a placeholder, a number, an address, a category, a summary
-- and a time, none of them blank or unknown, and a payment gate that is not locked.
abbrev pub IsComplete : (Instant → Text) → Joined → Job → Option Payment → Type 0
IsComplete to_iso row j p =
    Passes (λ t. text_eq (to_lower t) (codes "unknown caller")) (present (some row.full_name))
    × Passes (λ t. starts_with (to_lower t) (codes "unknown-")) (present (some row.phone))
    × (is_some (present (some row.formatted_address)) ≡ true)
    × (is_some (present (some row.service_category)) ≡ true)
    × (is_some (present row.description) ≡ true)
    × Passes (λ t. not (truthy t)) (preferred_window_of to_iso row j)
    × (is_locked (gate_of j p) ≡ false)

Passes-of_false : (q : Text → Bool) (o : Option Text) → unless_known q o ≡ false → Passes q o
Passes-of_false q none h = absurd (ground arith)
Passes-of_false q (some t) h = (t, refl, h)

unless_known-false : (q : Text → Bool) (o : Option Text) → Passes q o → unless_known q o ≡ false
unless_known-false q o (t, e, h) = rw e h

push_if-nil :
    (b : Bool) (f : MissingField) (fs : List MissingField)
    → push_if b f fs ≡ []
    → (b ≡ false) × (fs ≡ [])
push_if-nil true f fs h = absurd (ground arith)
push_if-nil false f fs h = (refl, h)

is_true-not : (b : Bool) → not b ≡ false → b ≡ true
is_true-not b h = ground arith

IsComplete-of_none :
    (to_iso : Instant → Text) (row : Joined) (j : Job) (p : Option Payment)
    → missing_fields to_iso row j p ≡ []
    → IsComplete to_iso row j p
unfolding missing_fields
IsComplete-of_none to_iso row j p h =
    let (name, h1) = push_if-nil _ customer_name _ h in
    let (number, h2) = push_if-nil _ phone _ h1 in
    let (address, h3) = push_if-nil _ service_address _ h2 in
    let (category, h4) = push_if-nil _ service_category _ h3 in
    let (summary, h5) = push_if-nil _ issue_summary _ h4 in
    let (window, h6) = push_if-nil _ preferred_window _ h5 in
    let (gate, _) = push_if-nil _ payment_status _ h6 in
    (
      Passes-of_false (λ t. text_eq (to_lower t) (codes "unknown caller")) _ name,
      Passes-of_false (λ t. starts_with (to_lower t) (codes "unknown-")) _ number,
      is_true-not _ address,
      is_true-not _ category,
      is_true-not _ summary,
      Passes-of_false (λ t. not (truthy t)) _ window,
      gate,
    )

missing_fields-IsComplete :
    (to_iso : Instant → Text) (row : Joined) (j : Job) (p : Option Payment)
    → IsComplete to_iso row j p
    → missing_fields to_iso row j p ≡ []
unfolding missing_fields
missing_fields-IsComplete to_iso row j p (name, number, address, category, summary, window, gate) =
    rw
      (
        unless_known-false (λ t. text_eq (to_lower t) (codes "unknown caller")) _ name,
        unless_known-false (λ t. starts_with (to_lower t) (codes "unknown-")) _ number,
        address,
        category,
        summary,
        unless_known-false (λ t. not (truthy t)) _ window,
        gate,
      )
      refl

none_missing : (fs : List MissingField) → state_of fs ≡ ready_to_assign → fs ≡ []
none_missing [] h = refl
none_missing (f ∷ fs) h = cc

-- What the state says of the request.
abbrev pub Verdict : ReadinessState → (Instant → Text) → Joined → Job → Option Payment → Type 0
Verdict ready_to_assign to_iso row j p = IsComplete to_iso row j p
Verdict missing_info to_iso row j p = ¬ IsComplete to_iso row j p

readiness-Verdict :
    (to_iso : Instant → Text) (row : Joined) (j : Job) (p : Option Payment)
    → Verdict (readiness to_iso row j p).state to_iso row j p
unfolding readiness
readiness-Verdict to_iso row j p = by_list (missing_fields to_iso row j p) refl
  where
    some_missing :
        (f : MissingField) (fs : List MissingField)
        → missing_fields to_iso row j p ≡ f ∷ fs
        → IsComplete to_iso row j p
        → ⊥
    some_missing f fs e k =
        let n : missing_fields to_iso row j p ≡ [] = missing_fields-IsComplete to_iso row j p k in
        ground arith

    by_list :
        (fs : List MissingField)
        → missing_fields to_iso row j p ≡ fs
        → Verdict (state_of fs) to_iso row j p
    by_list [] e = IsComplete-of_none to_iso row j p e
    by_list (f ∷ fs) e = some_missing f fs e

field_of-field_name : (f : MissingField) → field_of (codes (field_name f)) ≡ some f
unfolding field_of text_eq
field_of-field_name customer_name = refl
field_of-field_name phone = refl
field_of-field_name service_address = refl
field_of-field_name service_category = refl
field_of-field_name issue_summary = refl
field_of-field_name urgency = refl
field_of-field_name preferred_window = refl
field_of-field_name payment_status = refl

named_fields-words_json :
    (fs : List MissingField) → named_fields (words_json (map field_name fs)) ≡ fs
unfolding named_fields
named_fields-words_json [] = refl
named_fields-words_json (f ∷ fs) =
    rw (field_of-field_name f) (ap (λ gs. f ∷ gs) (named_fields-words_json fs))

-- The history reads back what the review's entry was made from.
review_entry-review_audit :
    (to_iso : Instant → Text) (r : ReviewRequest) (x : Readiness)
    → review_entry to_iso (review_audit r x)
      ≡ record { state = x.state; missing_fields = x.missing_fields; actor_id = person r.actor_id }
unfolding review_entry review_audit fields_of text_eq
review_entry-review_audit to_iso r x =
    rw (named_fields-words_json x.missing_fields) (by_state x.state)
  where
    by_state :
        (s : ReadinessState)
        → ◌≡◌ {A = ReviewEntry}
            (record {
              state =
                  if is_text (some (str (codes (state_name s)))) (codes "READY_TO_ASSIGN")
                  then ready_to_assign
                  else missing_info;
              missing_fields = x.missing_fields;
              actor_id = person r.actor_id;
            })
            (record { state = s; missing_fields = x.missing_fields; actor_id = person r.actor_id })
    by_state ready_to_assign = refl
    by_state missing_info = refl

module _ {J P T U E A : Type 0} (db : Client J P T U E A) (to_iso : Instant → Text)
    (joins : Job → Joined) where
  abbrev S : Type 0
  S = Store J P T U E A

  -- The review was of the request that is stored, its verdict is true, and its entry is the last of the log
  -- and is shown as it was made.
  abbrev pub Reviews : ReviewRequest → Readiness → S → S → Type 0
  Reviews r x s s' =
      ((j : Job) × (db.job.find_first (live_key r.tenant_id r.job_id) s.jobs ≡ some j)
        × Verdict x.state to_iso (joins j) j
            (db.payment.find_first (payment_of j.tenant_id j.id) s.payments))
      × ((a : Audit) × (db.audit_log.rows s'.audits ≡ db.audit_log.rows s.audits ++ a ∷ [])
          × (review_entry to_iso a ≡ record {
            state = x.state;
            missing_fields = x.missing_fields;
            actor_id = person r.actor_id;
          }))

  -- An answered review calls a request ready to be assigned exactly where it is complete and its payment gate
  -- is not locked, and the history shows the review's entry with the state, the missing fields and the
  -- reviewer that the answer has.
  pub review-Reviews :
      (r : ReviewRequest) (s : S) {x : Readiness}
      → (review db to_iso joins r s).0 ≡ ok x
      → Reviews r x s (review db to_iso joins r s).1
  unfolding review find_job review_found effects after create_audit to_summary
  review-Reviews r s {x} h =
      elim (Option-cases (db.job.find_first (live_key r.tenant_id r.job_id) s.jobs)) [
        | inl e ↦ absurd (no_row (rw e at h))
        | inr (j, e) ↦
            let p = db.payment.find_first (payment_of j.tenant_id j.id) s.payments in
            let made = readiness to_iso (joins j) j p in
            let same : made ≡ x = ok-injective (rw e at h) in
            (
              (
                j,
                e,
                subst (λ y. Verdict y.state to_iso (joins j) j p) same
                    (readiness-Verdict to_iso (joins j) j p),
              ),
              (
                review_audit r made,
                rw e (db.audit_log.rows-create (review_audit r made) s.audits),
                rw (← same) (review_entry-review_audit to_iso r made),
              ),
            )
      ]
    where
      no_row : (err (not_found "Intake request was not found.") ≡ ok x) → ⊥
      no_row k = ground arith
