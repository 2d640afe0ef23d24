-- ===== src/Checkout/Prepared.antt =====
-- What `PrepareCheckout` leaves in the tables.
use payments_boilerplate.Base.{
  ◌≡◌, refl, sym, inl, inr, some, Option-cases, none, Result, Result-cases, ok, err,
}
use payments_boilerplate.Payments.Entity.{Payment, Attempt}
use payments_boilerplate.Receiver.Inbox.{Commit, committed, refused, lost}
use payments_boilerplate.Checkout.Tables.{Db, Error, find, try, has_key}
use payments_boilerplate.Checkout.Store.{
  Faults, recover, reserve, seen_in, finish, prepare_checkout,
}
use payments_boilerplate.Checkout.Claimed.{Holds, try-ok}
use payments_boilerplate.Checkout.Reserved.{
  IsSound, recover-Holds, seen_in-ok, reserve-Reserved, reserve-status,
}

-- What the answer of a finished transaction says.
pub finish-ok :
    (k : Commit) (x x' : Db) (r : Result Error ((Payment × Attempt) × Db))
    (found : Payment × Attempt)
    → finish k x r ≡ (ok found, x')
    → r ≡ ok (found, x')
finish-ok committed x x' (ok (f, y)) found h = cc h
finish-ok committed x x' (err e) found h = absurd (cc h)
finish-ok (refused e) x x' (ok (f, y)) found h = absurd (cc h)
finish-ok (refused e) x x' (err e') found h = absurd (cc h)
finish-ok (lost e) x x' (ok (f, y)) found h = absurd (cc h)
finish-ok (lost e) x x' (err e') found h = absurd (cc h)

finish-IsSound :
    (k : Commit) (x : Db) (r : Result Error ((Payment × Attempt) × Db))
    → IsSound x
    → ((found : Payment × Attempt) (y : Db) → r ≡ ok (found, y) → IsSound y)
    → IsSound (finish k x r).1
finish-IsSound committed x (ok (f, y)) u h = h f y refl
finish-IsSound committed x (err e) u h = u
finish-IsSound (refused e) x (ok (f, y)) u h = u
finish-IsSound (refused e) x (err e') u h = u
finish-IsSound (lost e) x (ok (f, y)) u h = h f y refl
finish-IsSound (lost e) x (err e') u h = u

module _ (f : Faults) (others : Db → Db) (x : Db) (p : Payment) (a : Attempt) where
  -- `PrepareCheckout`, where the key is free, or where it is not.
  pub prepare-Holds :
      (x' : Db) (q : Payment) (b : Attempt)
      → IsSound (others x)
      → prepare_checkout f others x p a ≡ (ok (q, b), x')
      → Holds x' p.order_id a.idempotency_key q b
  unfolding prepare_checkout
  prepare-Holds x' q b u h = elim (Option-cases f.begin) [
    | inr (e, fails) ↦ absurd (cc (rw (prepare_checkout, fails) at h))
    | inl begun ↦
        elim (Result-cases (try f.find_key (ok (find (has_key a.idempotency_key) x.attempts)))) [
          | inr (e, fails) ↦ absurd (cc (rw (prepare_checkout, begun, fails) at h))
          | inl (o, fine) ↦ elim (Option-cases o) [
            | inl free ↦
                let made =
                  finish-ok f.commit (others x) x' (reserve f (others x) p a) (q, b)
                    (rw (prepare_checkout, begun, fine, free) at h) in
                (reserve-Reserved f (others x) x' p q a b u made).holds
            | inr (old, known) ↦
                let there : find (has_key a.idempotency_key) x.attempts ≡ some old =
                  cc (try-ok f.find_key _ o fine, known) in
                let made =
                  finish-ok f.commit x x' (seen_in x (recover f.find_owner x p old)) (q, b)
                    (rw (prepare_checkout, begun, fine, known) at h) in
                let (found, is_x) = seen_in-ok x x' (recover f.find_owner x p old) (q, b) made in
                rw (sym is_x) (recover-Holds f.find_owner x p q old b a.idempotency_key there found)
          ]
        ]
  ]

  -- Whatever `PrepareCheckout` answers and whatever fails, the unique indexes hold after it (one active
  -- payment for an order, one open attempt for a payment, one attempt for a key), if they held before it
  -- and other transactions keep them.
  pub prepare_checkout-IsSound :
      IsSound x → IsSound (others x) → IsSound (prepare_checkout f others x p a).1
  unfolding prepare_checkout
  prepare_checkout-IsSound u u' = elim (Option-cases f.begin) [
    | inr (e, fails) ↦ rw (prepare_checkout, fails) u
    | inl begun ↦
        elim (Result-cases (try f.find_key (ok (find (has_key a.idempotency_key) x.attempts)))) [
          | inr (e, fails) ↦ rw (prepare_checkout, begun, fails) u
          | inl (o, fine) ↦ elim (Option-cases o) [
            | inl free ↦
                rw (prepare_checkout, begun, fine, free)
                  (finish-IsSound f.commit (others x) (reserve f (others x) p a) u'
                    (λ (q, b) y made. (reserve-Reserved f (others x) y p q a b u' made).sound))
            | inr (old, known) ↦
                rw (prepare_checkout, begun, fine, known)
                  (finish-IsSound f.commit x (seen_in x (recover f.find_owner x p old)) u
                    (λ found y made. rw (sym (seen_in-ok x y _ found made).1) u))
          ]
        ]
  ]

  -- Where the key is new, the answer is the attempt that was made.
  pub prepare-status :
      (x' : Db) (q : Payment) (b : Attempt)
      → IsSound (others x)
      → find (has_key a.idempotency_key) x.attempts ≡ none
      → find (has_key a.idempotency_key) (others x).attempts ≡ none
      → prepare_checkout f others x p a ≡ (ok (q, b), x')
      → b.status ≡ a.status
  unfolding prepare_checkout
  prepare-status x' q b u free free' h = elim (Option-cases f.begin) [
    | inr (e, fails) ↦ absurd (cc (rw (prepare_checkout, fails) at h))
    | inl begun ↦ elim (Option-cases f.find_key) [
      | inr (e, fails) ↦ absurd (cc (rw (prepare_checkout, begun, fails) at h))
      | inl up ↦
          let made =
            finish-ok f.commit (others x) x' (reserve f (others x) p a) (q, b)
              (rw (prepare_checkout, begun, up, free) at h) in
          reserve-status f (others x) x' p q a b u free' made
    ]
  ]
