-- ===== src/Base/Effects.antt =====
-- The services' effects: the HTTP exceptions as values, and actions on a store that may throw.
use Prim.Native.String.{String}
use mathlib.Core.Path.{◌≡◌, refl, ap}
use mathlib.Core.Logic.{◌⊎◌, inl, inr}
use native.Mathlib.Omega.{arith}
use mathlib.Core.Bool.{Bool, true, false}
use mathlib.Core.Option.{Option, none, some}

-- The exceptions that the services throw, each with its message. `unexpected` is any other error.
pub data HttpError : Type 0 where
  bad_request : String → HttpError
  unauthorized : String → HttpError
  forbidden : String → HttpError
  not_found : String → HttpError
  conflict : String → HttpError
  unprocessable : String → HttpError
  unavailable : String → HttpError
  unexpected : HttpError

pub data Result (A : Type 0) : Type 0 where
  ok : A → Result A
  err : HttpError → Result A

-- What was written stays written when a later step throws.
abbrev pub Action : Type 0 → Type 0 → Type 0
Action S A = S → Result A × S

module _ {S A : Type 0} where
  unfoldable pub pure : A → Action S A
  pure a s = (ok a, s)

  unfoldable pub throw : HttpError → Action S A
  throw e s = (err e, s)

  -- A call that may throw and writes nothing.
  unfoldable pub lift : Result A → Action S A
  lift r s = (r, s)

  unfoldable pub or_throw : Option A → HttpError → Action S A
  or_throw none e s = (err e, s)
  or_throw (some a) e s = (ok a, s)

  unfoldable pub gets : (S → A) → Action S A
  gets f s = (ok (f s), s)

  unfoldable pub commit : S → Result A × S → Result A × S
  commit s (ok a, s') = (ok a, s')
  commit s (err e, s') = (err e, s)

  -- `prisma.$transaction`: a throw undoes the writes of the callback.
  unfoldable pub transaction : Action S A → Action S A
  unfolding commit
  transaction m s = commit s (m s)

module _ {S : Type 0} where
  unfoldable pub modify : (S → S) → Action S (Unit {0})
  modify f s = (ok tt, f s)

  -- `if (test) throw e;`
  unfoldable pub throw_if : Bool → HttpError → Action S (Unit {0})
  throw_if true e s = (err e, s)
  throw_if false e s = (ok tt, s)

  unfoldable pub throw_some : Option HttpError → Action S (Unit {0})
  throw_some none s = (ok tt, s)
  throw_some (some e) s = (err e, s)

  -- `if (test) await action;`
  unfoldable pub when : Bool → Action S (Unit {0}) → Action S (Unit {0})
  when true m s = m s
  when false m s = (ok tt, s)

-- What follows a step that has been made.
unfoldable pub after : {S A B : Type 0} → (A → Action S B) → Result A × S → Result B × S
after f (ok a, s) = f a s
after f (err e, s) = (err e, s)

infixl 5 ◌>>=◌ ◌>>◌
unfoldable pub ◌>>=◌ : {S A B : Type 0} → Action S A → (A → Action S B) → Action S B
unfolding after
◌>>=◌ m f s = after f (m s)

unfoldable pub ◌>>◌ : {S B : Type 0} → Action S (Unit {0}) → Action S B → Action S B
unfolding ◌>>=◌
m >> k = m >>= λ _. k

-- What follows a step that may have thrown.
unfoldable pub rescue : {S A : Type 0} → Action S A → Result A × S → Result A × S
rescue k (ok a, s) = (ok a, s)
rescue k (err e, s) = k s

infix 4 ◌otherwise◌
-- `try { m } catch { k }`
unfoldable pub ◌otherwise◌ : {S A : Type 0} → Action S A → Action S A → Action S A
unfolding rescue
◌otherwise◌ m k s = rescue k (m s)

-- Named on an `unfolding` line, it opens all of the above.
unfoldable pub effects : Unit {0}
unfolding pure throw lift or_throw gets transaction modify throw_if throw_some when ◌>>=◌ ◌>>◌
effects = tt

-- Checks that touch no store, chained.
abbrev pub check : Bool → HttpError → Result (Unit {0})
check true e = err e
check false e = ok tt

abbrev pub and_then : {A B : Type 0} → Result A → (A → Result B) → Result B
and_then (ok a) f = f a
and_then (err e) f = err e

abbrev pub ok_or : {A : Type 0} → Option A → HttpError → Result A
ok_or none e = err e
ok_or (some a) e = ok a

pub ok-injective : {A : Type 0} {a b : A} → ok a ≡ ok b → a ≡ b
ok-injective {a = a} h = ap (payload a) h
  where
    payload : {A : Type 0} → A → Result A → A
    payload d (ok x) = x
    payload d (err _) = d

-- Inversion of a chain of checks.
pub and_then-ok :
    {A B : Type 0} (r : Result A) (f : A → Result B) {b : B}
    → and_then r f ≡ ok b
    → (a : A) × (r ≡ ok a) × (f a ≡ ok b)
and_then-ok (ok a) f h = (a, refl, h)
and_then-ok (err e) f h = cc

pub ok_or-ok : {A : Type 0} (o : Option A) (e : HttpError) {a : A} → ok_or o e ≡ ok a → o ≡ some a
ok_or-ok o e h = ground arith

pub Result-cases :
    {A : Type 0} (r : Result A) → ((a : A) × (r ≡ ok a)) ⊎ ((e : HttpError) × (r ≡ err e))
Result-cases (ok a) = inl (a, refl)
Result-cases (err e) = inr (e, refl)
