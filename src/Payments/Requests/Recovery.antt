-- ===== src/Payments/Requests/Recovery.antt =====
-- payments/payment-requests.service.ts: `get` and `recover`. The provider's answer and the id of the
-- trace are given.
use signmons_calldesk_backen.Base.{
  true, not, ◌||◌, Option, none, some, if◌then◌else◌, leb, Instant, Result, ok, err, HttpError,
  not_found, conflict, unavailable, unexpected, Action, pure, lift, or_throw, ◌>>=◌, ◌>>◌, and_then,
  check, ok_or, and_then-ok, ok-injective, [], ◌∷◌, ◌≡◌, arith,
}
use signmons_calldesk_backen.Base.Text.{Text, Key, text_eq, present, opt_text_eq}
use signmons_calldesk_backen.Base.Audit.{Audit, named, customer, Detail}
use signmons_calldesk_backen.Data.Enums.{PaymentStatus, payment_status_eq}
use signmons_calldesk_backen.Data.Rows.{Job, Payment, Tenant}
use signmons_calldesk_backen.Data.Store.{Store, Client, create_audit}
use signmons_calldesk_backen.Payments.Requests.{PaymentTracking, tracking}
use signmons_calldesk_backen.Payments.Requests.Reservation.{live_job, payment_of}

pub record Recovered : Type 0 where
  pub checkout_url : Text
  pub expires_at : Instant

-- The link that is to be recovered: the account and the session at the provider.
pub record OpenLink : Type 0 where
  pub payment : Payment
  pub connected_account_id : Key
  pub session_id : Key

abbrev pub inactive : HttpError
inactive =
    conflict "This payment link is no longer active. Contact the service company for a new request."

-- The account and the session of a pending payment whose link is open.
unfoldable pub open_link : Instant → Option Payment → Result OpenLink
open_link now none = err inactive
open_link now (some p) =
    if not (payment_status_eq p.status PaymentStatus.pending)
    then err inactive
    else if not (present p.stripe_checkout_session_id)
    then err inactive
    else if not (present p.destination_account_id)
    then err inactive
    else open_until p.stripe_checkout_session_id p.destination_account_id p.checkout_expires_at
  where
    open_until : Option Key → Option Key → Option Instant → Result OpenLink
    open_until (some session) (some account) (some expires) =
        if leb expires now
        then err inactive
        else ok (record { payment = p; connected_account_id = account; session_id = session })
    open_until _ _ _ = err inactive

-- The checks of `recover` on the job as it was read.
unfoldable pub recoverable :
    Instant → Option Job → Option Tenant → Option Payment → Result (Job × OpenLink)
unfolding open_link
recoverable now job tenant payment = and_then (ok_or job (not_found "Job was not found.")) λ j.
    and_then (open_link now payment) λ link. and_then (ok_or tenant unexpected) λ t.
      and_then
        (check
          (not t.charges_enabled
            || not (opt_text_eq t.stripe_connect_account_id (some link.connected_account_id)))
          (unavailable "The contractor payment account is not ready to accept charges."))
        λ _. ok (j, link)

unfoldable pub recovery_audit : Key → Key → Job → Payment → Recovered → Audit
recovery_audit tenant_id trace j p recovered = record {
  tenant_id = tenant_id;
  action = "payment.checkout_recovered";
  actor_type = customer;
  actor_id = named "secure-link-customer";
  entity_type = "Payment";
  entity_id = p.id;
  metadata =
      ("jobId", Detail.text j.id)
      ∷ ("status", Detail.word "PENDING")
      ∷ ("checkoutExpiresAt", Detail.time recovered.expires_at)
      ∷ [];
  trace_id = some trace;
}

module _ {J P T U E A : Type 0} (db : Client J P T U E A) where
  abbrev S : Type 0
  S = Store J P T U E A

  unfoldable pub get : Instant → Key → Key → S → Result PaymentTracking
  get now tenant_id job_id s =
      and_then
        (ok_or (db.job.find_first (live_job tenant_id job_id) s.jobs)
          (not_found "Job was not found."))
        λ j. ok (tracking now (db.payment.find_first (payment_of tenant_id job_id) s.payments))

  unfoldable pub read_recoverable : Instant → Key → Key → S → Result (Job × OpenLink)
  unfolding recoverable
  read_recoverable now tenant_id job_id seen =
      recoverable now (db.job.find_first (live_job tenant_id job_id) seen.jobs)
        (db.tenant.find_first (λ t. text_eq t.id tenant_id) seen.tenants)
        (db.payment.find_first (payment_of tenant_id job_id) seen.payments)

  -- `ask` is the provider's answer to the account and the session: a link, none, or an exception.
  unfoldable pub recover :
      (Key → Key → Result (Option Recovered)) → Instant → Key → S → Key → Key → Action S Recovered
  unfolding read_recoverable recovery_audit
  recover ask now trace seen tenant_id job_id = do
    found ← lift (read_recoverable now tenant_id job_id seen)
    answer ← lift (ask found.1.connected_account_id found.1.session_id)
    recovered ← or_throw answer inactive
    create_audit db (recovery_audit tenant_id trace found.0 found.1.payment recovered)
    pure recovered

-- What an open link says of the payment that was read.
abbrev pub IsOpen : Instant → Option Payment → OpenLink → Type 0
IsOpen now payment link =
    (payment ≡ some link.payment)
    × ((tracking now payment).request_active ≡ true)
    × (link.payment.stripe_checkout_session_id ≡ some link.session_id)
    × (link.payment.destination_account_id ≡ some link.connected_account_id)

open_link-IsOpen :
    (now : Instant) (payment : Option Payment) {link : OpenLink}
    → open_link now payment ≡ ok link
    → IsOpen now payment link
unfolding open_link tracking
open_link-IsOpen now none h = ground arith
open_link-IsOpen now (some p) h = ground arith

-- A link is recovered only for the payment that was read, while it is tracked as an active request,
-- with its own session and account.
pub recoverable-IsOpen :
    (now : Instant) (job : Option Job) (tenant : Option Tenant) (payment : Option Payment)
    {c : Job × OpenLink}
    → recoverable now job tenant payment ≡ ok c
    → IsOpen now payment c.1
unfolding recoverable
recoverable-IsOpen now job tenant payment {c} h =
    let (j, _, h1) = and_then-ok (ok_or job (not_found "Job was not found.")) _ h in
    let (link, opened, h2) = and_then-ok (open_link now payment) _ h1 in
    let (t, _, h3) = and_then-ok (ok_or tenant unexpected) _ h2 in
    let (_, _, done) =
      and_then-ok
        (check
          (not t.charges_enabled
            || not (opt_text_eq t.stripe_connect_account_id (some link.connected_account_id)))
          (unavailable "The contractor payment account is not ready to accept charges."))
        _ h3 in
    rw (← ok-injective done) (open_link-IsOpen now payment opened)
