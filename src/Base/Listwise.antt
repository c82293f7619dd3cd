-- ===== src/Base/Listwise.antt =====
-- More lemmas on lists: predicates of every element, and searches that find nothing.
use mathlib.Core.Path.{◌≡◌, refl}
use mathlib.Core.Logic.{inl, inr}
use mathlib.Core.Bool.{Bool, true, false, ◌||◌}
use mathlib.Core.List.{List, [], ◌∷◌, ◌++◌, map}
use native.Mathlib.Omega.{arith}
use signmons_calldesk_backen.Base.Tests.{Bool-cases}
use signmons_calldesk_backen.Base.Lists.{All, any, filter, length}

pub All-concat {ℓ κ} :
    {A : Type ℓ} (Q : A → Type κ) (xs ys : List A) → All Q xs → All Q ys → All Q (xs ++ ys)
All-concat Q [] ys h k = k
All-concat Q (x ∷ xs) ys h k = (h.0, All-concat Q xs ys h.1 k)

pub any-append_false {ℓ} :
    {A : Type ℓ} (p : A → Bool) (xs ys : List A)
    → any p (xs ++ ys) ≡ false
    → (any p xs ≡ false) × (any p ys ≡ false)
any-append_false p [] ys h = (refl, h)
any-append_false p (x ∷ xs) ys h =
    let rest = any-append_false p xs ys (ground arith) in (ground arith, rest.1)

pub any-map-filter-false {ℓ κ} :
    {A : Type ℓ} {B : Type κ} (p : B → Bool) (f : A → B) (q : A → Bool) (xs : List A)
    → any p (map f (filter q xs)) ≡ false
    → All (λ x. q x ≡ true → p (f x) ≡ false) xs
any-map-filter-false p f q [] h = tt
any-map-filter-false p f q (x ∷ xs) h = elim (Bool-cases (q x)) [
  | inl e ↦
      let shown = rw e at h in
      (λ _. first (p (f x)) _ shown, any-map-filter-false p f q xs (second (p (f x)) _ shown))
  | inr e ↦ (λ t. cc (e, t), any-map-filter-false p f q xs (rw e at h))
]
  where
    first : (a b : Bool) → (a || b) ≡ false → a ≡ false
    first a b h = ground arith

    second : (a b : Bool) → (a || b) ≡ false → b ≡ false
    second a b h = ground arith

pub All-imp {ℓ κ} :
    {A : Type ℓ} (P Q : A → Type κ) (xs : List A) → ((x : A) → P x → Q x) → All P xs → All Q xs
All-imp P Q [] f h = tt
All-imp P Q (x ∷ xs) f h = (f x h.0, All-imp P Q xs f h.1)

pub All-filter_both {ℓ κ} :
    {A : Type ℓ} (P : A → Type κ) (q : A → Bool) (xs : List A)
    → All P xs
    → All (λ x. P x × (q x ≡ true)) (filter q xs)
All-filter_both P q [] h = tt
All-filter_both P q (x ∷ xs) h = elim (Bool-cases (q x)) [
  | inl e ↦ rw e ((h.0, e), All-filter_both P q xs h.1)
  | inr e ↦ rw e (All-filter_both P q xs h.1)
]

pub length-map {ℓ κ} :
    {A : Type ℓ} {B : Type κ} (f : A → B) (xs : List A) → length (map f xs) ≡ length xs
length-map f [] = refl
length-map f (x ∷ xs) = omega (arith, length-map f xs)

pub All-map {ℓ κ} :
    {A B : Type ℓ} (P : B → Type κ) (f : A → B) (xs : List A)
    → All (λ x. P (f x)) xs
    → All P (map f xs)
All-map P f [] h = tt
All-map P f (x ∷ xs) h = (h.0, All-map P f xs h.1)

pub All-both {ℓ κ} :
    {A : Type ℓ} (P Q : A → Type κ) (xs : List A) → All P xs → All Q xs → All (λ x. P x × Q x) xs
All-both P Q [] h k = tt
All-both P Q (x ∷ xs) h k = ((h.0, k.0), All-both P Q xs h.1 k.1)
