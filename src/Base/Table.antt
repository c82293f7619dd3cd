-- ===== src/Base/Table.antt =====
-- The database client, which is not part of the program: a table of rows with the calls that the
-- services make, each with its documented effect on the rows.
use Prim.Native.Nat.{ℕ, suc}
use mathlib.Core.Path.{◌≡◌, refl, ap}
use mathlib.Core.Logic.{inl, inr}
use mathlib.Core.Bool.{Bool, true, false, ◌&&◌}
use mathlib.Core.Option.{Option, none, some}
use mathlib.Core.List.{List, [], ◌∷◌, ◌++◌}
use native.Mathlib.Omega.{arith}
use signmons_calldesk_backen.Base.Tests.{if◌then◌else◌, Bool-cases, some_inj, ◌==◌}
use signmons_calldesk_backen.Base.Lists.{find, All}

module _ {R : Type 0} where
  -- The rows that satisfy `p`, updated in place.
  abbrev pub update_rows : (R → Bool) → (R → R) → List R → List R
  update_rows p f [] = []
  update_rows p f (r ∷ rs) = (if p r then f r else r) ∷ update_rows p f rs

  abbrev pub count_rows : (R → Bool) → List R → ℕ
  count_rows p [] = 0
  count_rows p (r ∷ rs) = if p r then suc (count_rows p rs) else count_rows p rs

-- `find_first`, `update_many` and `create` of one table, whose state is a `T`.
pub record Table (T R : Type 0) : Type 0 where
  pub rows : T → List R
  pub find_first : (R → Bool) → T → Option R
  pub update_many : (R → Bool) → (R → R) → T → ℕ × T
  pub create : R → T → T
  pub find_first_lem : (p : R → Bool) (t : T) → find_first p t ≡ find p (rows t)
  pub count-update_many :
      (p : R → Bool) (f : R → R) (t : T) → (update_many p f t).0 ≡ count_rows p (rows t)
  pub rows-update_many :
      (p : R → Bool) (f : R → R) (t : T) → rows (update_many p f t).1 ≡ update_rows p f (rows t)
  pub rows-create : (r : R) (t : T) → rows (create r t) ≡ rows t ++ (r ∷ [])

-- A table kept as a list of rows has these laws.
abbrev pub list_table : (R : Type 0) → Table (List R) R
list_table R = record {
  rows = λ t. t;
  find_first = find;
  update_many = λ p f t. (count_rows p t, update_rows p f t);
  create = λ r t. t ++ (r ∷ []);
  find_first_lem = λ p t. refl;
  count-update_many = λ p f t. refl;
  rows-update_many = λ p f t. refl;
  rows-create = λ r t. refl;
}

module _ {R : Type 0} where
  -- Where no row fits, nothing is updated.
  pub update_rows_none :
      (p : R → Bool) (f : R → R) (rs : List R) → count_rows p rs ≡ 0 → update_rows p f rs ≡ rs
  update_rows_none p f [] h = refl
  update_rows_none p f (r ∷ rs) h = ground (arith, update_rows_none p f rs)

module _ {R : Type 0} where
  -- Each row before and its successor, related by `Q`; new rows may follow.
  abbrev pub Extends : (R → R → Type 0) → List R → List R → Type 0
  Extends Q [] ss = Unit
  Extends Q (r ∷ rs) [] = ⊥
  Extends Q (r ∷ rs) (s ∷ ss) = Q r s × Extends Q rs ss

  pub Extends-refl : (Q : R → R → Type 0) → ((r : R) → Q r r) → (rs : List R) → Extends Q rs rs
  Extends-refl Q h [] = tt
  Extends-refl Q h (r ∷ rs) = (h r, Extends-refl Q h rs)

  pub Extends-trans :
      (Q : R → R → Type 0)
      → ((a b c : R) → Q a b → Q b c → Q a c)
      → (xs ys zs : List R) → Extends Q xs ys
      → Extends Q ys zs
      → Extends Q xs zs
  Extends-trans Q t [] ys zs h k = tt
  Extends-trans Q t (x ∷ xs) [] zs h k = absurd h
  Extends-trans Q t (x ∷ xs) (y ∷ ys) [] h k = absurd k
  Extends-trans Q t (x ∷ xs) (y ∷ ys) (z ∷ zs) h k =
      (t x y z h.0 k.0, Extends-trans Q t xs ys zs h.1 k.1)

  pub Extends-append :
      (Q : R → R → Type 0) → ((r : R) → Q r r) → (rs ss : List R) → Extends Q rs (rs ++ ss)
  Extends-append Q h [] ss = tt
  Extends-append Q h (r ∷ rs) ss = (h r, Extends-append Q h rs ss)

  pub Extends-update_rows :
      (Q : R → R → Type 0) (p : R → Bool) (f : R → R)
      → ((r : R) → Q r r)
      → ((r : R) → p r ≡ true → Q r (f r))
      → (rs : List R) → Extends Q rs (update_rows p f rs)
  Extends-update_rows Q p f same step [] = tt
  Extends-update_rows Q p f same step (r ∷ rs) = elim (Bool-cases (p r)) [
    | inl e ↦ rw e (step r e, Extends-update_rows Q p f same step rs)
    | inr e ↦ rw e (same r, Extends-update_rows Q p f same step rs)
  ]

abbrev map_option : {R : Type 0} → (R → R) → Option R → Option R
map_option f none = none
map_option f (some r) = some (f r)

module _ {R : Type 0} where
  -- A lookup after an update that leaves the looked-up columns alone.
  pub find-update_rows :
      (p : R → Bool) (f : R → R)
      → ((r : R) → p r ≡ true → p (f r) ≡ true)
      → (rs : List R) {r : R} → find p rs ≡ some r
      → find p (update_rows p f rs) ≡ some (f r)
  find-update_rows p f keep [] h = ground arith
  find-update_rows p f keep (x ∷ rs) {r} h = elim (Bool-cases (p x)) [
    | inl e ↦
        let same : some x ≡ some r = rw e at h in
        rw e (rw (keep x e) (ap (λ o. map_option f o) same))
    | inr e ↦ rw e (rw e (find-update_rows p f keep rs (rw e at h)))
  ]

  pub find-append :
      (p : R → Bool) (r : R) (rs : List R)
      → find p rs ≡ none
      → p r ≡ true
      → find p (rs ++ (r ∷ [])) ≡ some r
  find-append p r [] h e = rw e
  find-append p r (x ∷ rs) h e = elim (Bool-cases (p x)) [
    | inl t ↦ ground arith
    | inr f ↦ rw f (find-append p r rs (rw f at h) e)
  ]

  -- A predicate of every row, after an update and after an insertion.
  pub All-update_rows :
      (P : R → Type 0) (p : R → Bool) (f : R → R)
      → ((r : R) → p r ≡ true → P r → P (f r))
      → (rs : List R) → All P rs
      → All P (update_rows p f rs)
  All-update_rows P p f step [] h = tt
  All-update_rows P p f step (r ∷ rs) h = elim (Bool-cases (p r)) [
    | inl e ↦ rw e (step r e h.0, All-update_rows P p f step rs h.1)
    | inr e ↦ rw e (h.0, All-update_rows P p f step rs h.1)
  ]

  pub All-append : (P : R → Type 0) (rs : List R) (r : R) → All P rs → P r → All P (rs ++ (r ∷ []))
  All-append P [] r h k = (k, tt)
  All-append P (x ∷ rs) r h k = (h.0, All-append P rs r h.1 k)

  pub All-find :
      (P : R → Type 0) (p : R → Bool) (rs : List R) → All P rs → {r : R} → find p rs ≡ some r → P r
  All-find P p [] h {r} found = ground arith
  All-find P p (x ∷ rs) h {r} found = elim (Bool-cases (p x)) [
    | inl e ↦ let same : x ≡ r = some_inj (rw e at found) in rw (← same) h.0
    | inr e ↦ All-find P p rs h.1 (rw e at found)
  ]

  -- A row that is found is counted; where the key fits one row, so is the one that passes a test.
  pub count_rows_pos :
      (p : R → Bool) (rs : List R) {r : R} → find p rs ≡ some r → (count_rows p rs == 0) ≡ false
  count_rows_pos p [] h = ground arith
  count_rows_pos p (x ∷ rs) h = elim (Bool-cases (p x)) [
    | inl e ↦ rw e (ground arith)
    | inr e ↦ rw e (count_rows_pos p rs (rw e at h))
  ]

  count_rows_narrow :
      (p q : R → Bool) (rs : List R) → count_rows p rs ≡ 0 → count_rows (λ r. p r && q r) rs ≡ 0
  count_rows_narrow p q [] h = refl
  count_rows_narrow p q (x ∷ rs) h = elim (Bool-cases (p x)) [
    | inl e ↦ let no : suc (count_rows p rs) ≡ 0 = rw e at h in ground arith
    | inr e ↦ rw e (count_rows_narrow p q rs (rw e at h))
  ]

  pub count_rows-one :
      (p q : R → Bool) (rs : List R) {r : R}
      → count_rows p rs ≡ 1
      → find p rs ≡ some r
      → count_rows (λ r. p r && q r) rs ≡ (if q r then 1 else 0)
  count_rows-one p q [] h k = ground arith
  count_rows-one p q (x ∷ rs) {r} h k = elim (Bool-cases (p x)) [
    | inl e ↦
        let same : x ≡ r = some_inj (rw e at k) in
        let alone : suc (count_rows p rs) ≡ 1 = rw e at h in
        rw (e, ← same, count_rows_narrow p q rs (ground arith)) refl
    | inr e ↦ rw e (count_rows-one p q rs (rw e at h) (rw e at k))
  ]

  -- One more test on the row that a key finds, and one less on the only row of a key.
  pub find-narrow :
      (p q : R → Bool) (rs : List R) {r : R}
      → find p rs ≡ some r
      → q r ≡ true
      → find (λ x. p x && q x) rs ≡ some r
  find-narrow p q [] h k = ground arith
  find-narrow p q (x ∷ rs) {r} h k = elim (Bool-cases (p x)) [
    | inl e ↦
        let same : x ≡ r = some_inj (rw e at h) in
        let passes : q x ≡ true = rw same k in rw (e, passes) (rw e at h)
    | inr e ↦ rw e (find-narrow p q rs (rw e at h) k)
  ]

  find-none_of_count :
      (p q : R → Bool) (rs : List R) → count_rows p rs ≡ 0 → find (λ x. p x && q x) rs ≡ none
  find-none_of_count p q [] h = refl
  find-none_of_count p q (x ∷ rs) h = elim (Bool-cases (p x)) [
    | inl e ↦ let no : suc (count_rows p rs) ≡ 0 = rw e at h in ground arith
    | inr e ↦ rw e (find-none_of_count p q rs (rw e at h))
  ]

  pub find-widen :
      (p q : R → Bool) (rs : List R) {r : R}
      → count_rows p rs ≡ 1
      → find (λ x. p x && q x) rs ≡ some r
      → find p rs ≡ some r
  find-widen p q [] h k = ground arith
  find-widen p q (x ∷ rs) {r} h k = elim (Bool-cases (p x)) [
    | inr e ↦ rw e (find-widen p q rs (rw e at h) (rw e at k))
    | inl e ↦ elim (Bool-cases (q x)) [
      | inl f ↦ rw e (rw (e, f) at k)
      | inr f ↦
          let alone : suc (count_rows p rs) ≡ 1 = rw e at h in
          let later : find (λ y. p y && q y) rs ≡ some r = rw (e, f) at k in
          let nowhere : find (λ y. p y && q y) rs ≡ none =
            find-none_of_count p q rs (ground arith) in
          absurd (ground arith)
    ]
  ]

  -- A lookup after an update of some rows that leaves the looked-up columns alone.
  pub find-update_rows_if :
      (p q : R → Bool) (f : R → R)
      → ((r : R) → p (f r) ≡ p r)
      → (rs : List R) {r : R} → find p rs ≡ some r
      → find p (update_rows q f rs) ≡ some (if q r then f r else r)
  find-update_rows_if p q f keep [] h = ground arith
  find-update_rows_if p q f keep (x ∷ rs) {r} h = elim (Bool-cases (p x)) [
    | inl e ↦ let same : x ≡ r = some_inj (rw e at h) in rw (← same) (head x e)
    | inr e ↦ rw (skip x e) (find-update_rows_if p q f keep rs (rw e at h))
  ]
    where
      head :
          (x : R) → p x ≡ true → find p (update_rows q f (x ∷ rs)) ≡ some (if q x then f x else x)
      head x e = elim (Bool-cases (q x)) [
        | inl t ↦ rw t (rw keep (rw e refl))
        | inr t ↦ rw t (rw e refl)
      ]

      skip : (x : R) → p x ≡ false → find p (update_rows q f (x ∷ rs)) ≡ find p (update_rows q f rs)
      skip x e = elim (Bool-cases (q x)) [
        | inl t ↦ rw t (rw keep (rw e refl))
        | inr t ↦ rw t (rw e refl)
      ]

  -- After an update by which a row ceases to fit, no row fits.
  pub count_rows-update_rows_none :
      (p : R → Bool) (f : R → R)
      → ((r : R) → p (f r) ≡ false)
      → (rs : List R) → count_rows p (update_rows p f rs) ≡ 0
  count_rows-update_rows_none p f out [] = refl
  count_rows-update_rows_none p f out (x ∷ rs) = elim (Bool-cases (p x)) [
    | inl e ↦ rw (e, out, count_rows-update_rows_none p f out rs) refl
    | inr e ↦ rw (e, e, count_rows-update_rows_none p f out rs) refl
  ]

  pub count_rows-update_rows :
      (p q : R → Bool) (f : R → R)
      → ((r : R) → p (f r) ≡ p r)
      → (rs : List R) → count_rows p (update_rows q f rs) ≡ count_rows p rs
  count_rows-update_rows p q f keep [] = refl
  count_rows-update_rows p q f keep (x ∷ rs) = elim (Bool-cases (q x)) [
    | inl t ↦ rw (t, keep, count_rows-update_rows p q f keep rs) refl
    | inr t ↦ rw (t, count_rows-update_rows p q f keep rs) refl
  ]
