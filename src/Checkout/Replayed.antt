-- ===== src/Checkout/Replayed.antt =====
-- What `CreateCheckout` does where the key is known.
use payments_boilerplate.Base.{
  ℕ, ◌≡◌, refl, sym, inl, inr, true, String, none, ◌==◌, Bool-cases, str_eq_iff, Result,
  Result-cases, map_error, map_error-ok, bind-ok, ok, is_ok,
}
use payments_boilerplate.Ids.{validate_id}
use payments_boilerplate.Orders.{Order, validate_idempotency_key}
use payments_boilerplate.Payments.Status.{AttemptStatus}
use payments_boilerplate.Payments.Entity.{Payment, Attempt, Session, attach_session, has_session}
use payments_boilerplate.Payments.Entity as Entity
use payments_boilerplate.Receiver.Inbox.{committed}
use payments_boilerplate.Checkout.Tables.{Db}
use payments_boilerplate.Checkout.Store.{Faults, recover, prepare_checkout}
use payments_boilerplate.Checkout.Claimed.{Holds}
use payments_boilerplate.Checkout.Service.{
  CreateInput, Service, World, continue, is_pending, build, load_order, check, create_checkout,
  Error, order_not_found,
}

ok_fields :
    (new : Payment × Attempt) (p : Payment) (a : Attempt) (order_id key : String)
    → Path (Result Entity.Error (Payment × Attempt)) (ok new) (ok (p, a))
    → new.0.order_id ≡ order_id
    → new.1.idempotency_key ≡ key
    → new.1.status ≡ AttemptStatus.created
    → (p.order_id ≡ order_id) × (a.idempotency_key ≡ key) × (a.status ≡ AttemptStatus.created)
ok_fields (p', a') p a order_id key h one two three =
    let is_p : p' ≡ p = cc (h) in
    let is_a : a' ≡ a = cc (h) in rw (sym is_p, sym is_a) (one, two, three)

new_fields :
    (payment_id attempt_id : String) (o : Order) (key : String) (now : ℕ) (p : Payment)
    (a : Attempt)
    → Entity.new payment_id attempt_id o key now ≡ ok (p, a)
    → (p.order_id ≡ o.id) × (a.idempotency_key ≡ key) × (a.status ≡ AttemptStatus.created)
unfolding Entity.new
new_fields payment_id attempt_id o key now p a h =
    elim (Bool-cases (Entity.is_incomplete payment_id attempt_id o)) [
      | inl incomplete ↦ absurd (cc (rw incomplete at h))
      | inr complete ↦ elim (Bool-cases (is_ok (validate_idempotency_key key))) [
        | inr invalid ↦ absurd (cc (rw (complete, invalid) at h))
        | inl valid ↦ ok_fields _ p a o.id key (rw (complete, valid) at h) refl refl refl
      ]
    ]

build_fields :
    (w : World) (input : CreateInput) (o : Order) (p : Payment) (a : Attempt)
    → build w input o ≡ ok (p, a)
    → (p.order_id ≡ o.id)
      × (a.idempotency_key ≡ input.idempotency_key)
      × (a.status ≡ AttemptStatus.created)
unfolding build
build_fields w input o p a h = elim (Result-cases w.new_payment_id) [
  | inr (e, fails) ↦ absurd (cc (rw (build, fails) at h))
  | inl (i, one) ↦ elim (Result-cases w.new_attempt_id) [
    | inr (e, fails) ↦ absurd (cc (rw (build, one, fails) at h))
    | inl (j, two) ↦
        new_fields i j o input.idempotency_key w.now p a
          (map_error-ok Error.invalid_checkout _ (p, a) (rw (build, one, two) at h))
  ]
]

-- What is reserved has the order's identifier and the request's key.
pub check_fields :
    (w : World) (input : CreateInput) (x : Db) (o : Order) (p : Payment) (a : Attempt)
    → check w input x ≡ ok (o, (p, a))
    → (p.order_id ≡ o.id)
      × (a.idempotency_key ≡ input.idempotency_key)
      × (a.status ≡ AttemptStatus.created)
unfolding check
check_fields w input x o p a h =
    let (_, _, h1) =
      bind-ok (map_error (λ e. order_not_found) (validate_id "ord_" input.order_id)) _ (o, (p, a))
        h in
    let (_, _, h2) =
      bind-ok (map_error Error.invalid_key (validate_idempotency_key input.idempotency_key)) _
        (o, (p, a)) h1 in
    let (o', _, h3) = bind-ok (load_order w input x) _ (o, (p, a)) h2 in
    elim (Bool-cases (is_pending o'.status)) [
      | inr other ↦ absurd (cc (rw other at h3))
      | inl payable ↦
          let ((p', a'), built, h4) = bind-ok (build w input o') _ (o, (p, a)) (rw payable at h3) in
          let is_o : o' ≡ o = cc (h4) in
          let is_p : p' ≡ p = cc (h4) in
          let is_a : a' ≡ a = cc (h4) in
          rw (sym is_o, sym is_p, sym is_a) (build_fields w input o' p' a' built)
    ]

-- The call passes its checks with the order, and the database answers while the key is searched.
pub record IsReady (w : World) (input : CreateInput) (x : Db) (o : Order) : Type 0 where
  pub payment : Payment
  pub attempt : Attempt
  pub checked : check w input x ≡ ok (o, (payment, attempt))
  pub begun : w.prepare.begin ≡ none
  pub searched : w.prepare.find_key ≡ none
  pub owned : w.prepare.find_owner ≡ none
  pub commits : w.prepare.commit ≡ committed

recover-known :
    (f : Faults) (x : Db) (p q : Payment) (a : Attempt) (key : String)
    (k : Holds x p.order_id key q a)
    → f.find_owner ≡ none
    → recover f.find_owner x p k.row ≡ ok (q, a)
unfolding recover
recover-known f x p q a key k up =
    let same : (q.order_id == p.order_id) ≡ true =
      (str_eq_iff q.order_id p.order_id).1 k.of_order in
    rw (recover, up, k.owner, same, k.is_row) refl

prepare-known :
    (f : Faults) (others : Db → Db) (x : Db) (p q : Payment) (new a : Attempt)
    → Holds x p.order_id new.idempotency_key q a
    → f.begin ≡ none
    → f.find_key ≡ none
    → f.find_owner ≡ none
    → f.commit ≡ committed
    → prepare_checkout f others x p new ≡ (ok (q, a), x)
unfolding prepare_checkout
prepare-known f others x p q new a k begun searched owned commits =
    let found = recover-known f x p q a new.idempotency_key k owned in
    rw (prepare_checkout, begun, searched, k.named, found, commits) refl

-- Where the key is known, the attempt is the stored one: its session is returned, or the provider is
-- asked for it again.
pub create_checkout-known :
    (s : Service) (w : World) (input : CreateInput) (x : Db) (o : Order) (q : Payment) (a : Attempt)
    → IsReady w input x o
    → Holds x o.id input.idempotency_key q a
    → create_checkout s w input x ≡ continue s w o (ok (q, a), x)
unfolding create_checkout
create_checkout-known s w input x o q a r k =
    let (of_order, of_key, _) = check_fields w input x o r.payment r.attempt r.checked in
    let known : Holds x r.payment.order_id r.attempt.idempotency_key q a =
      rw (of_order, of_key) k in
    rw
      (
        create_checkout,
        r.checked,
        prepare-known w.prepare w.others x r.payment q r.attempt a known r.begun r.searched r.owned
            r.commits,
      )
      refl
