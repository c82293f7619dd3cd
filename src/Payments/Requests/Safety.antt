-- ===== src/Payments/Requests/Safety.antt =====
-- `create` changes no payment with a checkout session, unless it failed, was cancelled or refunded, or
-- lapsed.
use signmons_calldesk_backen.Base.{
  Bool, true, not, ◌&&◌, ◌||◌, Option, none, some, is_some, Instant, Result, ok, err, HttpError,
  Action, when, throw_if, gets, modify, ◌>>=◌, ◌>>◌, ◌≡◌, ◌⊎◌, inl, inr, refl, ◌∙◌, arith,
}
use signmons_calldesk_backen.Base.Text.{Text, Key}
use signmons_calldesk_backen.Base.Audit.{Audit}
use signmons_calldesk_backen.Data.Enums.{PaymentStatus, payment_status_eq}
use signmons_calldesk_backen.Data.Rows.{Payment}
use signmons_calldesk_backen.Data.Store.{Store, Client, update_payments, create_audit}
use signmons_calldesk_backen.Data.Keeps
use signmons_calldesk_backen.Payments.Requests.{PaymentRequirement, lapsed}
use signmons_calldesk_backen.Payments.Requests.Reservation.{
  CreateRequest, CheckoutRequest, Checkout, is_retryable, reservable, reserved,
}
use signmons_calldesk_backen.Payments.Requests.Writes.{
  reserve_request, record_created, record_failure,
}
use signmons_calldesk_backen.Payments.Requests.Create.{
  Plan, settle, create, read_plan, checkout_request,
}

-- Failed, cancelled, refunded, lapsed, or without a checkout session.
unfoldable pub is_free : Instant → Payment → Bool
unfolding is_retryable lapsed
is_free now p =
    is_retryable p.status
    || payment_status_eq p.status PaymentStatus.pending
      && lapsed now p.checkout_expires_at p.requested_at
    || not (is_some p.stripe_checkout_session_id)

-- A payment row and what became of it.
abbrev pub Spares : Instant → Payment → Payment → Type 0
Spares now before after = (after ≡ before) ⊎ (is_free now before ≡ true)

pub Spares-refl : (now : Instant) (p : Payment) → Spares now p p
Spares-refl now p = inl refl

pub Spares-trans :
    (now : Instant) (a b c : Payment) → Spares now a b → Spares now b c → Spares now a c
Spares-trans now a b c (inr free) k = inr free
Spares-trans now a b c (inl same) (inl same') = inl (same' ∙ same)
Spares-trans now a b c (inl same) (inr free) = inr (rw same at free)

reservable-free :
    (now : Instant) (t id : Key) (at : Instant) (p : Payment)
    → reservable now t id at p ≡ true
    → is_free now p ≡ true
unfolding reservable is_free
reservable-free now t id at p h = ground arith

reserved-free :
    (now : Instant) (t id hash : Key) (p : Payment)
    → reserved t id hash p ≡ true
    → is_free now p ≡ true
unfolding reserved is_free
reserved-free now t id hash p h = ground arith

module _ {J P T U E A : Type 0} (db : Client J P T U E A) (now : Instant) where
  abbrev S : Type 0
  S = Store J P T U E A

  -- No payment that was not free has changed; new payments may have come.
  abbrev pub SparesAll : S → S → Type 0
  SparesAll = Keeps.Kept db (Spares now) (Spares-refl now) (Spares-trans now)

  abbrev SparesIn : {B : Type 0} → Action S B → Type 0
  SparesIn = Keeps.Keeps db (Spares now) (Spares-refl now) (Spares-trans now)

  bind :
      {B C : Type 0} (m : Action S B) (f : B → Action S C)
      → SparesIn m
      → ((b : B) → SparesIn (f b))
      → SparesIn (m >>= f)
  bind = Keeps.Keeps-bind db (Spares now) (Spares-refl now) (Spares-trans now)

  seq :
      {C : Type 0} (m : Action S (Unit {0})) (k : Action S C)
      → SparesIn m
      → SparesIn k
      → SparesIn (m >> k)
  seq = Keeps.Keeps-then db (Spares now) (Spares-refl now) (Spares-trans now)

  gets_spares : {B : Type 0} (f : S → B) → SparesIn (gets f)
  gets_spares = Keeps.Keeps-gets db (Spares now) (Spares-refl now) (Spares-trans now)

  check_spares : (b : Bool) (e : HttpError) → SparesIn (throw_if b e)
  check_spares = Keeps.Keeps-throw_if db (Spares now) (Spares-refl now) (Spares-trans now)

  update_spares :
      (p : Payment → Bool) (f : Payment → Payment)
      → ((r : Payment) → p r ≡ true → is_free now r ≡ true)
      → SparesIn (update_payments db p f)
  update_spares p f free =
      Keeps.Keeps-update_payments db (Spares now) (Spares-refl now) (Spares-trans now) p f
        (λ r h. inr (free r h))

  audit_spares : (b : Bool) (a : Audit) → SparesIn (when b (create_audit db a))
  audit_spares b a =
      Keeps.Keeps-when db (Spares now) (Spares-refl now) (Spares-trans now) b _
        (Keeps.Keeps-create_audit db (Spares now) (Spares-refl now) (Spares-trans now) a)

  reserve_request-spares :
      (input : CreateRequest) (id hash account : Key) (r : PaymentRequirement)
      (old : Option Payment)
      → SparesIn (reserve_request db now input id hash account r old)
  unfolding reserve_request
  reserve_request-spares input id hash account r none = bind _ _ (gets_spares _) λ clash.
      seq _ _ (check_spares _ _)
        (Keeps.Keeps-create_payment db (Spares now) (Spares-refl now) (Spares-trans now) _)
  reserve_request-spares input id hash account r (some p) = seq _ _ (check_spares _ _) (
      bind _ _ (gets_spares _) λ row. bind _ _ (gets_spares _) λ clash. seq _ _ (check_spares _ _) (
        bind _ _ (update_spares _ _ (reservable-free now input.tenant_id id p.updated_at))
          λ count. check_spares _ _))

  record_created-spares :
      (later : Instant) (input : CreateRequest) (id hash : Key) (r : PaymentRequirement)
      (c : Checkout)
      → SparesIn (record_created db later input id hash r c)
  unfolding record_created
  record_created-spares later input id hash r c =
      Keeps.Keeps-transaction db (Spares now) (Spares-refl now) (Spares-trans now) _ (
        bind _ _ (update_spares _ _ (reserved-free now input.tenant_id id hash)) λ count.
          seq _ _ (audit_spares _ _) (
            bind _ _ (gets_spares _)
              λ p. Keeps.Keeps-or_throw db (Spares now) (Spares-refl now) (Spares-trans now) p _))

  record_failure-spares :
      (later : Instant) (input : CreateRequest) (id hash : Key) (r : PaymentRequirement)
      → SparesIn (record_failure db later input id hash r)
  unfolding record_failure
  record_failure-spares later input id hash r =
      Keeps.Keeps-transaction db (Spares now) (Spares-refl now) (Spares-trans now) _ (
        bind _ _ (update_spares _ _ (reserved-free now input.tenant_id id hash))
          λ count. audit_spares _ _)

  settle-spares :
      (later : Instant) (input : CreateRequest) (p : Plan) (answer : Result Checkout)
      → SparesIn (settle db later input p answer)
  unfolding settle
  settle-spares later input p (ok c) =
      bind _ _ (record_created-spares later input p.payment_id p.key_hash p.requirement c)
        λ row. Keeps.Keeps-pure db (Spares now) (Spares-refl now) (Spares-trans now) _
  settle-spares later input p (err e) =
      seq _ _
        (Keeps.Keeps-when db (Spares now) (Spares-refl now) (Spares-trans now) _ _
          (record_failure-spares later input p.payment_id p.key_hash p.requirement))
        (Keeps.Keeps-throw db (Spares now) (Spares-refl now) (Spares-trans now) e)

  create-SparesIn :
      (hash : Text → Key) (checkout : CheckoutRequest → Result Checkout) (fresh : Key)
      (later : Instant) (seen : S) (meanwhile : S → S) (input : CreateRequest)
      → ((s : S) → SparesAll s (meanwhile s))
      → SparesIn (create db hash checkout fresh now later seen meanwhile input)
  unfolding create
  create-SparesIn hash checkout fresh later seen meanwhile input others =
      bind _ _
        (Keeps.Keeps-result db (Spares now) (Spares-refl now) (Spares-trans now)
          (read_plan db hash fresh now input seen))
        λ p.
          seq _ _
            (Keeps.Keeps-when db (Spares now) (Spares-refl now) (Spares-trans now) _ _ (
              reserve_request-spares input p.payment_id p.key_hash p.tenant_account p.requirement
                p.existing))
            (seq (modify meanwhile) _
              (Keeps.Keeps-modify db (Spares now) (Spares-refl now) (Spares-trans now) meanwhile
                others)
              (settle-spares later input p (checkout (checkout_request input p))))

  -- However `create` ends and whatever it read, it leaves every payment as it was that has a checkout
  -- session, and whose status is neither failed, cancelled nor refunded, nor pending with a link that
  -- lapsed: the payments that succeeded and the open links, where they have their session. What other
  -- requests commit while it waits is taken to do so too. A payment without a session may change whatever
  -- its status.
  pub create-spares :
      (hash : Text → Key) (checkout : CheckoutRequest → Result Checkout) (fresh : Key)
      (later : Instant) (seen : S) (meanwhile : S → S) (input : CreateRequest)
      → ((s : S) → SparesAll s (meanwhile s))
      → (s : S) → SparesAll s (create db hash checkout fresh now later seen meanwhile input s).1
  create-spares hash checkout fresh later seen meanwhile input others =
      (create-SparesIn hash checkout fresh later seen meanwhile input others).kept
