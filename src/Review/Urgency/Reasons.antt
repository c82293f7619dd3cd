-- ===== src/Review/Urgency/Reasons.antt =====
-- How many reasons a review shows, and what they are after an override.
use signmons_calldesk_backen.Base.{
  ℕ, ◌≤◌, true, Option, none, some, List, [], ◌∷◌, All, All-take, length, length-take_le, leb,
  Instant, ◌≡◌, refl, arith, Bool-cases, inl, inr,
}
use signmons_calldesk_backen.Base.Text.{Text, codes, text_eq}
use signmons_calldesk_backen.Base.Json.{
  Json, Items, null, bool, num, str, arr, obj, nil, cons, get_field-set_field_self, prop, record_of,
}
use signmons_calldesk_backen.Data.Enums.{JobUrgency}
use signmons_calldesk_backen.Data.Rows.{Job}
use signmons_calldesk_backen.Review.Urgency.{
  short_texts, or_legacy, legacy_code, reason_codes, set_urgency, urgency_decision, rationale,
  operator_override, decision_source,
}
use signmons_calldesk_backen.Payments.Requests.Exceptions.{snapshot_of}

-- From one to five codes, none longer than 80 units.
abbrev pub IsShort : List Text → Type 0
IsShort ts = (1 ≤ length ts) × (length ts ≤ 5) × All (λ t. length t ≤ 80) ts

short_texts-short : (vs : Items) → All (λ t. length t ≤ 80) (short_texts vs)
short_texts-short nil = tt
short_texts-short (cons (str t) vs) = elim (Bool-cases (leb (length t) 80)) [
  | inl e ↦ rw e (within _ e, short_texts-short vs)
  | inr e ↦ rw e (short_texts-short vs)
]
  where
    within : (n : ℕ) → leb n 80 ≡ true → n ≤ 80
    within n h = ground arith
short_texts-short (cons null vs) = short_texts-short vs
short_texts-short (cons (bool b) vs) = short_texts-short vs
short_texts-short (cons (num n) vs) = short_texts-short vs
short_texts-short (cons (arr ws) vs) = short_texts-short vs
short_texts-short (cons (obj fs) vs) = short_texts-short vs

legacy-IsShort : (urgency : JobUrgency) → IsShort (legacy_code urgency ∷ [])
legacy-IsShort JobUrgency.standard = (omega arith, omega arith, (omega arith, tt))
legacy-IsShort JobUrgency.high = (omega arith, omega arith, (omega arith, tt))
legacy-IsShort JobUrgency.emergency = (omega arith, omega arith, (omega arith, tt))

or_legacy-IsShort :
    (urgency : JobUrgency) (ts : List Text)
    → All (λ t. length t ≤ 80) ts
    → IsShort (or_legacy urgency ts)
or_legacy-IsShort urgency [] h = legacy-IsShort urgency
or_legacy-IsShort urgency (t ∷ ts) h =
    (omega arith, length-take_le 5 (t ∷ ts), All-take (λ x. length x ≤ 80) 5 (t ∷ ts) h)

reason_codes-IsShort : (v : Option Json) (urgency : JobUrgency) → IsShort (reason_codes v urgency)
unfolding reason_codes
reason_codes-IsShort (some (arr vs)) urgency = or_legacy-IsShort urgency _ (short_texts-short vs)
reason_codes-IsShort (some null) urgency = legacy-IsShort urgency
reason_codes-IsShort (some (bool b)) urgency = legacy-IsShort urgency
reason_codes-IsShort (some (num n)) urgency = legacy-IsShort urgency
reason_codes-IsShort (some (str t)) urgency = legacy-IsShort urgency
reason_codes-IsShort (some (obj fs)) urgency = legacy-IsShort urgency
reason_codes-IsShort none urgency = legacy-IsShort urgency

-- Whatever the policy of a job holds, a review shows from one to five reason codes, none longer than 80
-- units; and after an override it shows the operator's decision as its source and its only code.
pub rationale-IsShort :
    (j k : Job) (now : Instant) (urgency : JobUrgency)
    → IsShort (rationale j).reason_codes
      × ((rationale (set_urgency now urgency j k)).decision_source ≡ operator_override)
      × ((rationale (set_urgency now urgency j k)).reason_codes ≡ codes "OPERATOR_OVERRIDE" ∷ [])
unfolding rationale set_urgency urgency_decision reason_codes decision_source text_eq
rationale-IsShort j k now urgency = (
  reason_codes-IsShort
      (prop (record_of (prop (record_of (some j.policy_snapshot)) "urgencyDecision")) "reasonCodes")
      j.urgency,
  rw (get_field-set_field_self "urgencyDecision" (urgency_decision urgency) (snapshot_of j)) refl,
  rw (get_field-set_field_self "urgencyDecision" (urgency_decision urgency) (snapshot_of j)) refl,
)
