-- ===== src/Payments/Requests/Amounts.antt =====
-- What `requirement` asks for: the sum of the required parts, within bounds, in a currency code.
use signmons_calldesk_backen.Base.{
  ℕ, ◌+◌, ◌≤◌, ◌≡◌, Bool, true, false, Option, some, refl, ap, arith, Bool-cases, inl, inr, ok,
  length, all, leb, ◌&&◌, [], ◌∷◌, String, HttpError, and_then-ok, ok_or-ok, ok-injective, some_inj,
  check, not, ◌==◌, suc, &&-cases,
}
use signmons_calldesk_backen.Base.Text.{Text, to_lower, lower_unit}
use signmons_calldesk_backen.Base.Json.{Json, num, whole, str, record_of, prop, is_true}
use signmons_calldesk_backen.Payments.Requests.{
  PaymentRequirement, requirement, required_part, money, requirement_currency, requirement_of,
  deposit_message, fee_message, is_currency_code, is_letter,
}

-- The whole number that a JSON value stands for, and 0 for any other value.
abbrev pub cents : Option Json → ℕ
cents (some (num (whole n))) = n
cents _ = 0

abbrev pub due : Bool → Option Json → ℕ
due true value = cents value
due false value = 0

abbrev pub is_lower_letter : ℕ → Bool
is_lower_letter c = leb b'a' c && leb c b'z'

money-bounds :
    (v : Option Json) (m : String) {n : ℕ}
    → money v m ≡ ok n
    → (cents v ≡ n) × (1 ≤ n) × (n ≤ 100_000_000)
unfolding money
money-bounds (some (num (whole n))) m h = ground arith
money-bounds _ m h = ground arith

required_part-due :
    (b : Bool) (v : Option Json) (m : String) {n : ℕ}
    → required_part b v m ≡ ok n
    → (due b v ≡ n) × (n ≤ 100_000_000) × (b ≡ true → 1 ≤ n)
unfolding required_part
required_part-due true v m h = let (a, b, c) = money-bounds v m h in (a, c, λ _. b)
required_part-due false v m h = ground arith

required_part_absent :
    (b : Bool) (v : Option Json) (m : String) {n : ℕ}
    → required_part b v m ≡ ok n
    → b ≡ false
    → n ≡ 0
unfolding required_part
required_part_absent true v m h e = cc
required_part_absent false v m h e = ground arith

lower_unit-is_lower : (c : ℕ) → is_letter c ≡ true → is_lower_letter (lower_unit c) ≡ true
unfolding is_letter lower_unit
lower_unit-is_lower c h = ground arith

to_lower-letters :
    (t : Text)
    → all is_letter t ≡ true
    → (length (to_lower t) ≡ length t) × (all is_lower_letter (to_lower t) ≡ true)
unfolding to_lower
to_lower-letters [] h = (refl, refl)
to_lower-letters (c ∷ t) h =
    let (p, q) = &&-cases (is_letter c) (all is_letter t) h in
    let (l, r) = to_lower-letters t q in (ap suc l, rw (lower_unit-is_lower c p) r)

requirement_currency-code :
    (v : Option Json) {c : Text}
    → requirement_currency v ≡ some c
    → (length c ≡ 3) × (all is_lower_letter c ≡ true)
unfolding requirement_currency is_currency_code
requirement_currency-code (some (str t)) {c} h =
    elim (Bool-cases (length t == 3 && all is_letter t)) [
      | inr e ↦ cc (rw e at h)
      | inl e ↦
          let (n, l) = &&-cases (length t == 3) (all is_letter t) e in
          let (k, m) = to_lower-letters t l in
          let same : some (to_lower t) ≡ some c = rw e at h in
          let lowered : to_lower t ≡ c = some_inj same in rw (← lowered) (ground (arith, k), m)
    ]
requirement_currency-code _ h = ground arith

-- The amounts and the currency of a requirement whose parts are known.
abbrev Asks : ℕ → PaymentRequirement → Type 0
Asks total r =
    (r.amount_total_cents ≡ total)
    × (1 ≤ r.amount_total_cents)
    × (r.amount_total_cents ≤ 200_000_000)
    × (length r.currency ≡ 3)
    × (all is_lower_letter r.currency ≡ true)

requirement_of-Asks :
    (d f : Bool) (e : HttpError) (u : Unit {0}) (x y m n : ℕ) (c : Text)
    → check (not d && not f) e ≡ ok u
    → (x ≡ m) × (m ≤ 100_000_000) × (d ≡ true → 1 ≤ m)
    → (y ≡ n) × (n ≤ 100_000_000) × (f ≡ true → 1 ≤ n)
    → (d ≡ false → m ≡ 0) × (f ≡ false → n ≡ 0)
    → (length c ≡ 3) × (all is_lower_letter c ≡ true)
    → Asks (x + y) (requirement_of d f m n c)
unfolding requirement_of
requirement_of-Asks true true e u x y m n c some_due dep fee zero_part code =
    (omega arith, omega (arith, dep.2 refl), omega arith, code.0, code.1)
requirement_of-Asks true false e u x y m n c some_due dep fee zero_part code =
    (omega (arith, zero_part.1 refl), omega (arith, dep.2 refl), omega arith, code.0, code.1)
requirement_of-Asks false true e u x y m n c some_due dep fee zero_part code =
    (omega (arith, zero_part.0 refl), omega (arith, fee.2 refl), omega arith, code.0, code.1)
requirement_of-Asks false false e u x y m n c some_due dep fee zero_part code = cc

-- A requirement asks for the sum of the parts that the policy requires, at least one cent and at most
-- 200,000,000, in a currency of three lower-case letters.
pub requirement-amount :
    (policy_value pricing_value : Option Json) {r : PaymentRequirement}
    → requirement policy_value pricing_value ≡ ok r
    → let policy = record_of policy_value in
      let pricing = record_of pricing_value in
      (r.amount_total_cents
        ≡ due (is_true (prop policy "depositRequired")) (prop pricing "depositAmountCents")
          + due (is_true (prop policy "serviceFeeRequired")) (prop pricing "serviceFeeAmountCents"))
      × (1 ≤ r.amount_total_cents)
      × (r.amount_total_cents ≤ 200_000_000)
      × (length r.currency ≡ 3)
      × (all is_lower_letter r.currency ≡ true)
unfolding requirement
requirement-amount policy_value pricing_value {r} h =
    let policy = record_of policy_value in
    let pricing = record_of pricing_value in
    let d = is_true (prop policy "depositRequired") in
    let f = is_true (prop policy "serviceFeeRequired") in
    let deposit_value = prop pricing "depositAmountCents" in
    let fee_value = prop pricing "serviceFeeAmountCents" in
    let (_, some_due, h1) = and_then-ok _ _ h in
    let (deposit_amount, dep, h2) = and_then-ok _ _ h1 in
    let (fee_amount, fee, h3) = and_then-ok _ _ h2 in
    let (currency, cur, done) = and_then-ok _ _ h3 in
    let code = requirement_currency-code (prop pricing "currency") (ok_or-ok _ _ cur) in
    let same : requirement_of d f deposit_amount fee_amount currency ≡ r = ok-injective done in
    rw (← same) (
      requirement_of-Asks d f _ _ _ _ deposit_amount fee_amount currency some_due
        (required_part-due d deposit_value deposit_message dep)
        (required_part-due f fee_value fee_message fee)
        (
          required_part_absent d deposit_value deposit_message dep,
          required_part_absent f fee_value fee_message fee,
        )
        code)
