-- ===== src/Base/Searches.antt =====
-- Searches in lists: what is found, and that it is the least where the list is in order.
use Prim.Native.Nat.{ℕ, ◌≤◌}
use mathlib.Core.Path.{◌≡◌, refl, sym, ap, ◌∙◌, fun_ext}
use mathlib.Core.Logic.{◌⊎◌, inl, inr}
use mathlib.Core.Bool.{Bool, true, false, ◌&&◌}
use mathlib.Core.Option.{Option, none, some}
use mathlib.Core.List.{List, [], ◌∷◌}
use native.Mathlib.Omega.{arith}
use signmons_calldesk_backen.Base.Tests.{Bool-cases, if◌then◌else◌, some_inj, is_some}
use signmons_calldesk_backen.Base.Lists.{All, any, filter, find}
use signmons_calldesk_backen.Base.Listwise.{All-imp}

module _ {A : Type 0} where
  -- The element is in the list.
  abbrev pub Among : A → List A → Type 0
  Among x [] = ⊥
  Among x (y ∷ ys) = (x ≡ y) ⊎ Among x ys

  abbrev pub SortedBy : (A → ℕ) → List A → Type 0
  SortedBy f [] = Unit
  SortedBy f (x ∷ xs) = All (λ y. f x ≤ f y) xs × SortedBy f xs

  pub find-filter :
      (p q : A → Bool) (xs : List A) → find p (filter q xs) ≡ find (λ x. q x && p x) xs
  find-filter p q [] = refl
  find-filter p q (x ∷ xs) = elim (Bool-cases (q x)) [
    | inl e ↦ rw e (if_same (p x) (find-filter p q xs))
    | inr e ↦ rw e (find-filter p q xs)
  ]
    where
      if_same :
          (b : Bool) {u v : Option A}
          → u ≡ v
          → (if b then some x else u) ≡ (if b then some x else v)
      if_same b h = rw h refl

  pub any-filter : (p q : A → Bool) (xs : List A) → any p (filter q xs) ≡ any (λ x. q x && p x) xs
  any-filter p q [] = refl
  any-filter p q (x ∷ xs) = elim (Bool-cases (q x)) [
    | inl e ↦ rw e (rw (any-filter p q xs) refl)
    | inr e ↦ rw e (any-filter p q xs)
  ]

  pub is_some-find : (p : A → Bool) (xs : List A) → is_some (find p xs) ≡ any p xs
  is_some-find p [] = refl
  is_some-find p (x ∷ xs) = elim (Bool-cases (p x)) [
    | inl e ↦ rw e refl
    | inr e ↦ rw e (is_some-find p xs)
  ]

  pub find_head :
      (p : A → Bool) (y : A) (ys : List A) {x : A} → p y ≡ true → find p (y ∷ ys) ≡ some x → y ≡ x
  find_head p y ys e h = some_inj (rw e at h)

  pub find_tail :
      (p : A → Bool) (y : A) (ys : List A) {o : Option A}
      → p y ≡ false
      → find p (y ∷ ys) ≡ o
      → find p ys ≡ o
  find_tail p y ys e h = rw e at h

  pub find-Among : (p : A → Bool) (xs : List A) {x : A} → find p xs ≡ some x → Among x xs
  find-Among p [] h = ground arith
  find-Among p (y ∷ ys) {x} h = elim (Bool-cases (p y)) [
    | inl e ↦ inl (sym (some_inj (rw e at h)))
    | inr e ↦ inr (find-Among p ys (rw e at h))
  ]

  pub find_none-All : (p : A → Bool) (xs : List A) → find p xs ≡ none → All (λ x. p x ≡ false) xs
  find_none-All p [] h = tt
  find_none-All p (y ∷ ys) h = elim (Bool-cases (p y)) [
    | inl e ↦ absurd (no_some (rw e at h))
    | inr e ↦ (e, find_none-All p ys (rw e at h))
  ]
    where
      no_some : (some y ≡ none) → ⊥
      no_some k = ground arith

  -- In a list that is in order, what is found is the least that fits.
  pub find-least :
      (f : A → ℕ) (p : A → Bool) (xs : List A) {x : A}
      → SortedBy f xs
      → find p xs ≡ some x
      → All (λ y. (p y ≡ false) ⊎ (f x ≤ f y)) xs
  find-least f p [] s h = tt
  find-least f p (y ∷ ys) {x} s h = elim (Bool-cases (p y)) [
    | inl e ↦
        let same : y ≡ x = some_inj (rw e at h) in
        (
          inr (rw same (omega arith)),
          All-imp (λ z. f y ≤ f z) (λ z. (p z ≡ false) ⊎ (f x ≤ f z)) ys
              (λ z le. inr (rw (← same) le)) s.0,
        )
    | inr e ↦ (inl e, find-least f p ys s.1 (rw e at h))
  ]

&&-assoc : (a b c : Bool) → (a && (b && c)) ≡ ((a && b) && c)
&&-assoc true b c = refl
&&-assoc false b c = refl

module _ {A : Type 0} (p q r : A → Bool) (xs : List A) where
  -- Two filters and a search are one search.
  pub find-filter-filter : find r (filter q (filter p xs)) ≡ find (λ x. p x && q x && r x) xs
  find-filter-filter =
      find-filter r q (filter p xs)
      ∙ find-filter (λ x. q x && r x) p xs
      ∙ ap (λ t. find t xs) (fun_ext (λ x. &&-assoc (p x) (q x) (r x)))

  pub any-filter-filter : any r (filter q (filter p xs)) ≡ any (λ x. p x && q x && r x) xs
  any-filter-filter =
      any-filter r q (filter p xs)
      ∙ any-filter (λ x. q x && r x) p xs
      ∙ ap (λ t. any t xs) (fun_ext (λ x. &&-assoc (p x) (q x) (r x)))
