-- ===== src/Base/Preserves.antt =====
-- Actions that keep a property of the store, whether or not they throw: a rule for each effect.
use mathlib.Core.Bool.{Bool, true, false}
use mathlib.Core.Option.{Option, none, some}
use signmons_calldesk_backen.Base.Tests.{if◌then◌else◌}
use signmons_calldesk_backen.Base.Effects.{
  HttpError, Result, ok, err, Action, pure, throw_if, or_throw, lift, gets, after, commit,
  transaction, ◌>>=◌, ◌>>◌, ◌otherwise◌, rescue, effects,
}

module _ {S : Type 0} (P : S → Type 0) where
  pub record Preserves {A : Type 0} (m : Action S A) : Type 0 where
    pub preserved : (s : S) → P s → P (m s).1

  pub Preserves-bind :
      {A B : Type 0} (m : Action S A) (f : A → Action S B)
      → Preserves m
      → ((a : A) → Preserves (f a))
      → Preserves (m >>= f)
  unfolding effects after
  Preserves-bind {A} {B} m f hm hf = record { preserved = λ s h. go (m s) (hm.preserved s h) }
    where
      go : (r : Result A × S) → P r.1 → P (after f r).1
      go (ok a, s) h = (hf a).preserved s h
      go (err e, s) h = h

  pub Preserves-then :
      {B : Type 0} (m : Action S (Unit {0})) (k : Action S B)
      → Preserves m
      → Preserves k
      → Preserves (m >> k)
  unfolding ◌>>◌
  Preserves-then m k hm hk = Preserves-bind m (λ _. k) hm (λ _. hk)

  pub Preserves-transaction :
      {A : Type 0} (m : Action S A) → Preserves m → Preserves (transaction m)
  unfolding effects commit
  Preserves-transaction {A} m hm = record { preserved = λ s h. go s h (m s) (hm.preserved s h) }
    where
      go : (s : S) → P s → (r : Result A × S) → P r.1 → P (commit s r).1
      go s h (ok a, s') k = k
      go s h (err e, s') k = h

  pub Preserves-throw_if : (b : Bool) (e : HttpError) → Preserves (throw_if b e)
  unfolding effects
  Preserves-throw_if true e = record { preserved = λ s h. h }
  Preserves-throw_if false e = record { preserved = λ s h. h }

  pub Preserves-or_throw : {A : Type 0} (o : Option A) (e : HttpError) → Preserves (or_throw o e)
  unfolding effects
  Preserves-or_throw none e = record { preserved = λ s h. h }
  Preserves-or_throw (some a) e = record { preserved = λ s h. h }

  pub Preserves-lift : {A : Type 0} (r : Result A) → Preserves (lift r)
  unfolding effects
  Preserves-lift r = record { preserved = λ s h. h }

  pub Preserves-read : {A : Type 0} (f : S → Result A) → Preserves (λ s. (f s, s))
  Preserves-read f = record { preserved = λ s h. h }

  pub Preserves-gets : {A : Type 0} (f : S → A) → Preserves (gets f)
  unfolding effects
  Preserves-gets f = record { preserved = λ s h. h }

  pub Preserves-pure : {A : Type 0} (a : A) → Preserves (pure a)
  unfolding effects
  Preserves-pure a = record { preserved = λ s h. h }

  pub Preserves-if :
      {A : Type 0} (b : Bool) (m k : Action S A)
      → Preserves m
      → Preserves k
      → Preserves (if b then m else k)
  Preserves-if true m k hm hk = hm
  Preserves-if false m k hm hk = hk

  pub Preserves-otherwise :
      {A : Type 0} (m k : Action S A) → Preserves m → Preserves k → Preserves (m otherwise k)
  unfolding ◌otherwise◌ rescue
  Preserves-otherwise {A} m k hm hk = record { preserved = λ s h. go (m s) (hm.preserved s h) }
    where
      go : (r : Result A × S) → P r.1 → P (rescue k r).1
      go (ok a, s) h = h
      go (err e, s) h = hk.preserved s h
