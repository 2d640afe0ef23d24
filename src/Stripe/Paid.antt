-- ===== src/Stripe/Paid.antt =====
-- What it takes to pay an order, down to what the provider wrote.
use payments_boilerplate.Base.{
  ◌≡◌, ◌≢◌, sym, ap, ◌∙◌, inl, inr, true, ◌||◌, not, String, some, ok, Result, Result-cases, ◌==◌,
  trim_space, to_upper, bind-ok, guard, guard-ok, Bool-cases, ◌>>=◌, ◌>>◌, [], ◌∷◌, map_error-ok,
}
use payments_boilerplate.Payments.Transition.{Outcome, outcome_succeeded}
use payments_boilerplate.Payments.Entity.{stripe}
use payments_boilerplate.Orders
use payments_boilerplate.Webhooks.{
  Kind, unknown, checkout_completed, checkout_payment_succeeded, checkout_payment_failed,
  checkout_expired, Event,
}
use payments_boilerplate.Consumer.Ports.{Error, SessionOutcome, Reference, unreadable_payload}
use payments_boilerplate.Consumer.Store.{EventRow, OrderRow, Db}
use payments_boilerplate.Consumer.Process.{stored_event}
use payments_boilerplate.Consumer.Service.{Service, World, handle}
use payments_boilerplate.Consumer.Paying.{IsPaidBy, handle_pays}
use payments_boilerplate.Stripe.Session.{
  EventEnvelope, PaymentStatus, status_paid, status_unpaid, status_no_payment_required,
  status_other, CheckoutSession, Json, Session, is_in, check_version, local_reference,
  financial_outcome, kind_of, unreadable, outcome_of, decode, interpret, interpreter,
}

-- The provider has the money, or needs none.
pub MoneyArrived : Kind → PaymentStatus → Type 0
MoneyArrived checkout_completed status_paid = Unit
MoneyArrived checkout_completed status_no_payment_required = Unit
MoneyArrived checkout_payment_succeeded status = Unit
MoneyArrived _ _ = ⊥

-- The stored event as a receipt: a session of a version that is understood, for which the money arrived.
pub record IsReceipt (s : Session) (json : Json) (e : Event) (o : SessionOutcome) : Type 0 where
  pub envelope : EventEnvelope
  pub session : CheckoutSession
  pub readable : json.envelope e.payload ≡ ok envelope
  pub supported : is_in envelope.api_version s.supported_versions ≡ true
  pub decoded : json.session envelope.object ≡ ok session
  pub arrived : MoneyArrived (kind_of e) session.payment_status
  pub amount : o.amount ≡ session.amount_total
  pub currency : o.currency ≡ to_upper session.currency
  pub names :
      (reference : Reference) × (local_reference session ≡ ok reference)
      × (o.attempt_id ≡ reference.attempt_id)

arrives :
    (kind : Kind) (status : PaymentStatus)
    → financial_outcome kind status ≡ ok outcome_succeeded
    → MoneyArrived kind status
unfolding financial_outcome MoneyArrived
arrives checkout_completed status_paid h = tt
arrives checkout_completed status_no_payment_required h = tt
arrives checkout_completed status_unpaid h = cc h
arrives checkout_completed (status_other s) h = cc h
arrives checkout_payment_succeeded status h = tt
arrives checkout_payment_failed status h = cc h
arrives checkout_expired status h = cc h
arrives unknown status h = cc h

outcome_kept : (o p : SessionOutcome) → Path (Result Error SessionOutcome) (ok o) (ok p) → o ≡ p
outcome_kept o p h = cc h

-- What is read before anything is looked at.
decode_parts :
    (s : Session) (json : Json) (e : Event) (session : CheckoutSession)
    → decode s json e ≡ ok session
    → (envelope : EventEnvelope) × (json.envelope e.payload ≡ ok envelope)
      × (is_in envelope.api_version s.supported_versions ≡ true)
      × (json.session envelope.object ≡ ok session)
unfolding decode check_version
decode_parts s json e session h = elim (Result-cases (json.envelope e.payload)) [
  | inr (cause, broken) ↦ absurd (cc (rw (decode, broken) at h))
  | inl (envelope, read) ↦ elim (Bool-cases (trim_space envelope.api_version == "")) [
    | inl empty ↦ absurd (cc (rw (decode, read, check_version, empty) at h))
    | inr named ↦ elim (Bool-cases (is_in envelope.api_version s.supported_versions)) [
      | inr other ↦ absurd (cc (rw (decode, read, check_version, named, other) at h))
      | inl supported ↦ (
        envelope,
        read,
        supported,
        map_error-ok unreadable _ session (rw (decode, read, check_version, named, supported) at h),
      )
    ]
  ]
]

-- The rest, of a session that was read.
read_session :
    (e : Event) (session : CheckoutSession) (o : SessionOutcome)
    → (do
      guard
          ((session.object == "") || (session.object == "checkout.session"))
          (unreadable_payload ∷ [])
      guard (not (trim_space session.id == "")) (unreadable_payload ∷ [])
      outcome ← financial_outcome (kind_of e) session.payment_status
      reference ← local_reference session
      ok (outcome_of e session outcome reference))
      ≡ ok o
    → (financial_outcome (kind_of e) session.payment_status ≡ ok o.outcome)
      × (reference : Reference) × (local_reference session ≡ ok reference)
      × (outcome_of e session o.outcome reference ≡ o)
read_session e session o h =
    let (_, h1) =
      guard-ok ((session.object == "") || (session.object == "checkout.session")) _ _ o h in
    let (_, h2) = guard-ok (not (trim_space session.id == "")) _ _ o h1 in
    let (outcome, found, h3) =
      bind-ok (financial_outcome (kind_of e) session.payment_status) _ o h2 in
    let (reference, referred, h4) = bind-ok (local_reference session) _ o h3 in
    let is_o = outcome_kept (outcome_of e session outcome reference) o h4 in
    let same : outcome ≡ o.outcome = ap (λ (x : SessionOutcome). x.outcome) is_o in
    (rw same at found, reference, referred, rw same at is_o)

interpret-IsReceipt :
    (s : Session) (json : Json) (e : Event) (o : SessionOutcome)
    → interpret s json e ≡ ok o
    → o.outcome ≡ outcome_succeeded
    → IsReceipt s json e o
unfolding interpret
interpret-IsReceipt s json e o h succeeded =
    let (session, opened, h1) = bind-ok (decode s json e) _ o h in
    let (envelope, read, supported, decoded) = decode_parts s json e session opened in
    let (found, reference, referred, is_o) = read_session e session o h1 in
    record {
      envelope = envelope;
      session = session;
      readable = read;
      supported = supported;
      decoded = decoded;
      arrived =
          arrives (kind_of e) session.payment_status (found ∙ ap (λ (x : Outcome). ok x) succeeded);
      amount = ap (λ (x : SessionOutcome). x.amount) (sym is_o);
      currency = ap (λ (x : SessionOutcome). x.currency) (sym is_o);
      names = (reference, referred, ap (λ (x : SessionOutcome). x.attempt_id) (sym is_o));
    }

-- An order is paid only by a receipt of the provider: when a call of the consumer makes an order paid,
-- the stored event that it was called for holds a checkout session of a supported version, completed with
-- its payment made or not needed, or paid later, whose total and currency are those of an open payment of
-- that very order by this provider, up to the case of the currency's letters.
pub handle_receives :
    (s : Session) (json : Json) (c : Service) (w : World) (id : String) (db : Db) (k : String)
    (o o' : OrderRow)
    → let service = record c { interpreter = interpreter s json } in
      db.orders k ≡ some o
      → o.status ≢ Orders.Status.paid
      → (handle service w id db).db.orders k ≡ some o'
      → o'.status ≡ Orders.Status.paid
      → (row : EventRow) × (outcome : SessionOutcome) × (db.events id ≡ some row)
        × IsReceipt s json (stored_event id row) outcome
        × IsPaidBy db k stripe outcome
handle_receives s json c w id db k o o' at_o unpaid at_o' paid =
    let service = record c { interpreter = interpreter s json } in
    let (row, outcome, stored, read, pays) =
      handle_pays service w id db k o o' at_o unpaid at_o' paid in
    (
      row,
      outcome,
      stored,
      interpret-IsReceipt s json (stored_event id row) outcome read pays.succeeds,
      pays,
    )
