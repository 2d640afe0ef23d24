-- ===== src/Stripe/Metadata.antt =====
-- The identifiers that a session is opened with come back with its events.
use payments_boilerplate.Base.{
  ◌≡◌, ◌⊎◌, inl, inr, refl, ◌∙◌, true, false, String, ok, ◌==◌, trim_space,
}
use payments_boilerplate.Checkout.Service.{ProviderRequest}
use payments_boilerplate.Stripe.Session.{CheckoutSession, order_reference, local_reference}
use payments_boilerplate.Stripe.Checkout.{Checkout, params}

-- An identifier that is not empty and has no space around it.
pub record IsPlain (s : String) : Type 0 where
  pub trimmed : trim_space s ≡ s
  pub filled : (s == "") ≡ false

written :
    (c : Checkout) (r : ProviderRequest)
    → ((params c r).metadata "order_id" ≡ r.order_id)
      × ((params c r).metadata "payment_id" ≡ r.payment_id)
      × ((params c r).metadata "payment_attempt_id" ≡ r.attempt_id)
      × ((params c r).client_reference_id ≡ r.order_id)
unfolding params ◌==◌
written c r = (refl, refl, refl, refl)

blank : (trim_space "" == "") ≡ true
unfolding ◌==◌ trim_space
blank = refl

-- A session as the provider gives it back: its metadata as they were sent, or without the order.
pub record IsEcho (c : Checkout) (r : ProviderRequest) (session : CheckoutSession) : Type 0 where
  pub payment : session.metadata "payment_id" ≡ (params c r).metadata "payment_id"
  pub attempt : session.metadata "payment_attempt_id" ≡ (params c r).metadata "payment_attempt_id"
  pub order :
      (session.metadata "order_id" ≡ (params c r).metadata "order_id")
      ⊎ (session.metadata "order_id" ≡ "")
  pub client : session.client_reference_id ≡ (params c r).client_reference_id

order_read :
    (c : Checkout) (r : ProviderRequest) (session : CheckoutSession)
    → IsPlain r.order_id
    → IsEcho c r session
    → order_reference session ≡ r.order_id
order_read c r session o echo =
    let (order, _, _, client) = written c r in
    elim echo.order [
      | inl kept ↦ rw (kept ∙ order, o.trimmed, o.filled) refl
      | inr lost ↦ rw (lost, blank, echo.client ∙ client, o.trimmed) refl
    ]

-- A request's identifiers survive the provider: from a session that keeps the metadata that it was opened
-- with, or loses the order there but keeps the client's reference, the very identifiers of the request
-- are read back, if none is empty or has spaces around it.
pub local_reference-params :
    (c : Checkout) (r : ProviderRequest) (session : CheckoutSession)
    → IsPlain r.order_id
    → IsPlain r.payment_id
    → IsPlain r.attempt_id
    → IsEcho c r session
    → local_reference session
      ≡ ok (record { order_id = r.order_id; payment_id = r.payment_id; attempt_id = r.attempt_id })
unfolding local_reference
local_reference-params c r session o p a echo =
    let (_, payment, attempt, _) = written c r in
    rw
      (
        local_reference,
        order_read c r session o echo,
        echo.payment ∙ payment,
        echo.attempt ∙ attempt,
        p.trimmed,
        a.trimmed,
        o.filled,
        p.filled,
        a.filled,
      )
      refl
