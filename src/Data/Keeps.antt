-- ===== src/Data/Keeps.antt =====
-- Actions under which every payment row stays related to what it was: a Hoare rule for each call.
use signmons_calldesk_backen.Base.{
  Bool, true, false, Option, none, some, HttpError, Result, ok, err, Action, pure, throw, throw_if,
  when, or_throw, lift, gets, modify, after, commit, transaction, ◌>>=◌, ◌>>◌, ◌≡◌, [], ◌∷◌,
}
use signmons_calldesk_backen.Base.Table.{
  Extends, Extends-refl, Extends-trans, Extends-append, Extends-update_rows,
}
use signmons_calldesk_backen.Base.Audit.{Audit}
use signmons_calldesk_backen.Data.Rows.{Payment}
use signmons_calldesk_backen.Data.Store.{
  Store, Client, update_payments, create_payment, create_audit, store_effects,
}

module _ {J P T U E A : Type 0} (db : Client J P T U E A) (Q : Payment → Payment → Type 0)
    (same : (r : Payment) → Q r r) (trans : (a b c : Payment) → Q a b → Q b c → Q a c) where
  abbrev S : Type 0
  S = Store J P T U E A

  abbrev pub Kept : S → S → Type 0
  Kept s t = Extends Q (db.payment.rows s.payments) (db.payment.rows t.payments)

  pub Kept-refl : (s : S) → Kept s s
  Kept-refl s = Extends-refl Q same (db.payment.rows s.payments)

  pub Kept-trans : (s t u : S) → Kept s t → Kept t u → Kept s u
  Kept-trans s t u =
      Extends-trans Q trans (db.payment.rows s.payments) (db.payment.rows t.payments)
        (db.payment.rows u.payments)

  pub record Keeps {B : Type 0} (m : Action S B) : Type 0 where
    pub kept : (s : S) → Kept s (m s).1

  pub Keeps-bind :
      {B C : Type 0} (m : Action S B) (f : B → Action S C)
      → Keeps m
      → ((b : B) → Keeps (f b))
      → Keeps (m >>= f)
  unfolding store_effects
  Keeps-bind {B} {C} m f hm hf = record { kept = λ s. go s (m s) (hm.kept s) }
    where
      go : (s : S) (r : Result B × S) → Kept s r.1 → Kept s (after f r).1
      go s (ok a, s') h = Kept-trans s s' (f a s').1 h ((hf a).kept s')
      go s (err e, s') h = h

  pub Keeps-then :
      {C : Type 0} (m : Action S (Unit {0})) (k : Action S C) → Keeps m → Keeps k → Keeps (m >> k)
  unfolding ◌>>◌
  Keeps-then m k hm hk = Keeps-bind m (λ _. k) hm (λ _. hk)

  pub Keeps-transaction : {B : Type 0} (m : Action S B) → Keeps m → Keeps (transaction m)
  unfolding store_effects
  Keeps-transaction {B} m hm = record { kept = λ s. go s (m s) (hm.kept s) }
    where
      go : (s : S) (r : Result B × S) → Kept s r.1 → Kept s (commit s r).1
      go s (ok a, s') h = h
      go s (err e, s') h = Kept-refl s

  pub Keeps-throw_if : (b : Bool) (e : HttpError) → Keeps (throw_if b e)
  unfolding store_effects
  Keeps-throw_if true e = record { kept = Kept-refl }
  Keeps-throw_if false e = record { kept = Kept-refl }

  pub Keeps-or_throw : {B : Type 0} (o : Option B) (e : HttpError) → Keeps (or_throw o e)
  unfolding store_effects
  Keeps-or_throw none e = record { kept = Kept-refl }
  Keeps-or_throw (some a) e = record { kept = Kept-refl }

  pub Keeps-when : (b : Bool) (m : Action S (Unit {0})) → Keeps m → Keeps (when b m)
  unfolding store_effects
  Keeps-when true m h = h
  Keeps-when false m h = record { kept = Kept-refl }

  pub Keeps-update_payments :
      (p : Payment → Bool) (f : Payment → Payment)
      → ((r : Payment) → p r ≡ true → Q r (f r))
      → Keeps (update_payments db p f)
  unfolding store_effects
  Keeps-update_payments p f step = record {
    kept = λ s.
        rw db.payment.rows-update_many
          (Extends-update_rows Q p f same step (db.payment.rows s.payments));
  }

  pub Keeps-create_payment : (r : Payment) → Keeps (create_payment db r)
  unfolding store_effects
  Keeps-create_payment r = record {
    kept = λ s.
        rw db.payment.rows-create (Extends-append Q same (db.payment.rows s.payments) (r ∷ []));
  }

  pub Keeps-create_audit : (a : Audit) → Keeps (create_audit db a)
  unfolding store_effects
  Keeps-create_audit a = record { kept = Kept-refl }

  pub Keeps-gets : {B : Type 0} (f : S → B) → Keeps (gets f)
  unfolding store_effects
  Keeps-gets f = record { kept = Kept-refl }

  pub Keeps-result : {B : Type 0} (r : Result B) → Keeps (lift r)
  unfolding store_effects
  Keeps-result r = record { kept = Kept-refl }

  pub Keeps-pure : {B : Type 0} (b : B) → Keeps (pure b)
  unfolding store_effects
  Keeps-pure b = record { kept = Kept-refl }

  pub Keeps-throw : {B : Type 0} (e : HttpError) → Keeps (throw {A = B} e)
  unfolding store_effects
  Keeps-throw e = record { kept = Kept-refl }

  pub Keeps-modify : (f : S → S) → ((s : S) → Kept s (f s)) → Keeps (modify f)
  unfolding store_effects
  Keeps-modify f h = record { kept = h }
