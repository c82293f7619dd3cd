-- ===== src/Payments/Requests/Writes.antt =====
-- payments/payment-requests.service.ts: the methods that `create` writes through.
use signmons_calldesk_backen.Base.{
  Bool, not, ◌&&◌, ◌||◌, Option, none, some, is_some, ◌==◌, Instant, not_found, conflict,
  unexpected, Action, throw_if, when, or_throw, gets, transaction, ◌>>=◌, ◌>>◌,
}
use signmons_calldesk_backen.Base.Text.{Key, text_eq, opt_text_eq}
use signmons_calldesk_backen.Base.Audit.{Detail}
use signmons_calldesk_backen.Data.Rows.{Payment}
use signmons_calldesk_backen.Data.Store.{
  Store, Client, update_payments, create_payment, create_audit,
}
use signmons_calldesk_backen.Payments.Requests.{PaymentRequirement, expired_or_abandoned}
use signmons_calldesk_backen.Payments.Requests.Reservation.{
  CreateRequest, Checkout, payment_of, payment_by_id, is_retryable, new_payment, reservable,
  reserve, reserved, attach_checkout, mark_failed, request_audit, same_request,
}

-- The unique indexes of `model Payment` that a new row may run into.
abbrev pub violates_unique : Payment → Payment → Bool
violates_unique new p =
    text_eq p.id new.id
    || payment_of new.tenant_id new.job_id p
    || text_eq p.tenant_id new.tenant_id && opt_text_eq p.request_key_hash new.request_key_hash

-- Another payment of the tenant that holds the digest: `@@unique([tenantId, requestKeyHash])`.
abbrev pub holds_key : Key → Key → Key → Payment → Bool
holds_key tenant_id id key_hash p =
    not (text_eq p.id id) && text_eq p.tenant_id tenant_id && same_request key_hash p

module _ {J P T U E A : Type 0} (db : Client J P T U E A) where
  abbrev S : Type 0
  S = Store J P T U E A

  unfoldable pub reserve_request :
      Instant
      → CreateRequest
      → Key
      → Key
      → Key
      → PaymentRequirement
      → Option Payment
      → Action S (Unit {0})
  unfolding new_payment
  reserve_request now input payment_id key_hash account r none = do
    let row = new_payment now input payment_id key_hash account r
    clash ← gets (λ s. db.payment.find_first (violates_unique row) s.payments)
    throw_if (is_some clash) (conflict "A payment request is already being created for this job.")
    create_payment db row
  reserve_request now input payment_id key_hash account r (some p) = do
    throw_if (not (is_retryable p.status) && not (expired_or_abandoned now p))
        (conflict "An active payment request already exists for this job.")
    let where_row = reservable now input.tenant_id payment_id p.updated_at
    row ← gets (λ s. db.payment.find_first where_row s.payments)
    clash ←
        gets (λ s. db.payment.find_first (holds_key input.tenant_id payment_id key_hash) s.payments)
    throw_if (is_some row && is_some clash) unexpected
    count ← update_payments db where_row (reserve now key_hash account r)
    throw_if (not (count == 1))
        (conflict "Payment state changed while the request was being created.")

  unfoldable pub record_created :
      Instant → CreateRequest → Key → Key → PaymentRequirement → Checkout → Action S Payment
  unfolding request_audit
  record_created now input payment_id key_hash r checkout = transaction do
    count ←
        update_payments db (reserved input.tenant_id payment_id key_hash)
          (attach_checkout now checkout)
    when (count == 1) (
        create_audit db (
          request_audit input "payment.request_created" payment_id r "PENDING"
            ("checkoutExpiresAt", Detail.time checkout.expires_at)))
    payment ←
        gets (λ s. db.payment.find_first (payment_by_id input.tenant_id payment_id) s.payments)
    or_throw payment (not_found "Payment request was not found.")

  unfoldable pub record_failure :
      Instant → CreateRequest → Key → Key → PaymentRequirement → Action S (Unit {0})
  unfolding request_audit
  record_failure now input payment_id key_hash r = transaction do
    count ← update_payments db (reserved input.tenant_id payment_id key_hash) (mark_failed now)
    when (count == 1) (
        create_audit db (
          request_audit input "payment.request_failed" payment_id r "FAILED"
            ("reasonCode", Detail.word "CHECKOUT_PROVIDER_UNAVAILABLE")))
