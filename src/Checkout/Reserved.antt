-- ===== src/Checkout/Reserved.antt =====
-- The invariant of the tables, and what the writes of `prepareCheckout` leave in them.
use payments_boilerplate.Base.{
  ◌≡◌, refl, sym, ap, inl, inr, false, String, Option, none, some, Option-cases, str_eq_refl,
  Result, Result-cases, ok, err,
}
use payments_boilerplate.Payments.Entity.{Payment, Attempt}
use payments_boilerplate.Receiver.Inbox.{Cause}
use payments_boilerplate.Checkout.Models.{PaymentAttempt, from_domain, to_domain}
use payments_boilerplate.Checkout.Tables.{
  Db, Error, find, try, has_key, clashes_payment, clashes_attempt, insert_attempt,
}
use payments_boilerplate.Checkout.Store.{
  Faults, recover, create_or_get_active_payment, look_again, reserve, seen_in,
}
use payments_boilerplate.Checkout.Rows.{
  IsUnique, find-append, find-clashless, clashless-attempt, append-IsUnique, clashes_attempt_sym,
}
use payments_boilerplate.Checkout.Claimed.{
  Holds, try-ok, recovered, insert_attempt-some, Claimed, claim-Claimed,
}

-- The unique indexes: identifiers, keys and sessions name one row, an order has at most one active
-- payment and a payment at most one open attempt.
pub record IsSound (x : Db) : Type 0 where
  pub payments : IsUnique clashes_payment x.payments
  pub attempts : IsUnique clashes_attempt x.attempts

pub record Reserved (x x' : Db) (order_id key : String) (q : Payment) (b : Attempt) : Type 0 where
  pub same_orders : x'.orders ≡ x.orders
  pub holds : Holds x' order_id key q b
  pub sound : IsSound x'

pub recover-Holds :
    (fault : Option Cause) (x : Db) (p q : Payment) (old : PaymentAttempt) (b : Attempt)
    (key : String)
    → find (has_key key) x.attempts ≡ some old
    → recover fault x p old ≡ ok (q, b)
    → Holds x p.order_id key q b
recover-Holds fault x p q old b key named h =
    let (owner, same, is_b) = recovered fault x p q old b h in
    record { row = old; named = named; is_row = is_b; owner = owner; of_order = same }

look_again-Holds :
    (f : Faults) (x : Db) (p q : Payment) (key : String) (b : Attempt)
    → look_again f x p key ≡ ok (q, b)
    → Holds x p.order_id key q b
unfolding look_again
look_again-Holds f x p q key b h =
    elim (Result-cases (try f.find_again (ok (find (has_key key) x.attempts)))) [
      | inr (e, fails) ↦ absurd (cc (rw (look_again, fails) at h))
      | inl (o, fine) ↦ elim (Option-cases o) [
        | inl missing ↦ absurd (cc (rw (look_again, fine, missing) at h))
        | inr (old, there) ↦
            let named : find (has_key key) x.attempts ≡ some old =
              cc (try-ok f.find_again _ o fine, there) in
            recover-Holds f.find_owner x p q old b key named (rw (look_again, fine, there) at h)
      ]
    ]

inserted-Reserved :
    (x x' x'' : Db) (order_id : String) (q : Payment) (a : Attempt)
    → IsUnique clashes_attempt x.attempts
    → Claimed x x' order_id q
    → let row = record (from_domain a) { payment_id = q.id } in
      (insert_attempt x' row ≡ ok (some x''))
      → Reserved x x'' order_id a.idempotency_key q (to_domain row)
inserted-Reserved x x' x'' order_id q a u c h =
    let row = record (from_domain a) { payment_id = q.id } in
    let (clear, made) = insert_attempt-some x' x'' row h in
    let apart = λ (b : PaymentAttempt) (far : clashes_attempt row b ≡ false).
      (clashless-attempt row b far).0 in
    let missing =
      find-clashless (has_key a.idempotency_key) (clashes_attempt row) x'.attempts apart clear in
    rw made (record {
      same_orders = c.same_orders;
      holds = record {
        row = row;
        named =
            find-append (has_key a.idempotency_key) x'.attempts row missing
              (str_eq_refl a.idempotency_key);
        is_row = refl;
        owner = c.there;
        of_order = c.of_order;
      };
      sound = record {
        payments = c.unique;
        attempts =
            append-IsUnique clashes_attempt x'.attempts row clashes_attempt_sym clear
              (rw c.same_attempts u);
      };
    })

repeated-Reserved :
    (f : Faults) (x y x' : Db) (p r q : Payment) (key : String) (b : Attempt)
    → IsSound x
    → Claimed x y p.order_id r
    → seen_in y (look_again f y p key) ≡ ok ((q, b), x')
    → Reserved x x' p.order_id key q b
repeated-Reserved f x y x' p r q key b u c h = elim (Result-cases (look_again f y p key)) [
  | inr (e, fails) ↦ absurd (cc (rw fails at h))
  | inl ((q', b'), fine) ↦
      let answer = rw fine at h in
      let is_q : q' ≡ q = cc (answer) in
      let is_b : b' ≡ b = cc (answer) in
      let is_x : y ≡ x' = cc (answer) in
      rw (sym is_q, sym is_b, sym is_x)
        (record {
          same_orders = c.same_orders;
          holds = look_again-Holds f y p q' key b' fine;
          sound = record { payments = c.unique; attempts = rw c.same_attempts u.attempts };
        })
]

pub reserve-Reserved :
    (f : Faults) (x x' : Db) (p q : Payment) (a b : Attempt)
    → IsSound x
    → reserve f x p a ≡ ok ((q, b), x')
    → Reserved x x' p.order_id a.idempotency_key q b
unfolding reserve
reserve-Reserved f x x' p q a b u h = elim (Result-cases (create_or_get_active_payment f x p)) [
  | inr (e, fails) ↦ absurd (cc (rw (reserve, fails) at h))
  | inl ((r, y), claimed) ↦
      let c = claim-Claimed f x y p r u.payments claimed in
      let row = record (from_domain a) { payment_id = r.id } in
      elim (Result-cases (try f.insert_attempt (insert_attempt y row))) [
        | inr (e, fails) ↦ absurd (cc (rw (reserve, claimed, fails) at h))
        | inl (o, fine) ↦ elim (Option-cases o) [
          | inr (z, new) ↦
              let answer = rw (reserve, claimed, fine, new) at h in
              let is_q : r ≡ q = cc (answer) in
              let is_b : to_domain row ≡ b = cc (answer) in
              let is_x : z ≡ x' = cc (answer) in
              let made = rw new at (try-ok f.insert_attempt _ o fine) in
              rw (sym is_q, sym is_b, sym is_x)
                (inserted-Reserved x y z p.order_id r a u.attempts c made)
          | inl stopped ↦
              repeated-Reserved f x y x' p r q a.idempotency_key b u c
                (rw (reserve, claimed, fine, stopped) at h)
        ]
      ]
]

pub seen_in-ok :
    (x x' : Db) (r : Result Error (Payment × Attempt)) (found : Payment × Attempt)
    → seen_in x r ≡ ok (found, x')
    → (r ≡ ok found) × (x ≡ x')
seen_in-ok x x' (ok f) found h = (cc h, cc h)
seen_in-ok x x' (err e) found h = absurd (cc h)

-- Where the key is new, the attempt is the one that was made.
pub reserve-status :
    (f : Faults) (x x' : Db) (p q : Payment) (a b : Attempt)
    → IsSound x
    → find (has_key a.idempotency_key) x.attempts ≡ none
    → reserve f x p a ≡ ok ((q, b), x')
    → b.status ≡ a.status
unfolding reserve look_again
reserve-status f x x' p q a b u free h = elim (Result-cases (create_or_get_active_payment f x p)) [
  | inr (e, fails) ↦ absurd (cc (rw (reserve, fails) at h))
  | inl ((r, y), claimed) ↦
      let c = claim-Claimed f x y p r u.payments claimed in
      let row = record (from_domain a) { payment_id = r.id } in
      elim (Result-cases (try f.insert_attempt (insert_attempt y row))) [
        | inr (e, fails) ↦ absurd (cc (rw (reserve, claimed, fails) at h))
        | inl (o, fine) ↦ elim (Option-cases o) [
          | inr (z, new) ↦
              let answer = rw (reserve, claimed, fine, new) at h in
              let is_b : to_domain row ≡ b = cc (answer) in rw (sym is_b) refl
          | inl stopped ↦
              let (found, _) =
                seen_in-ok y x' (look_again f y p a.idempotency_key) (q, b)
                  (rw (reserve, claimed, fine, stopped) at h) in
              let k = look_again-Holds f y p q a.idempotency_key b found in
              absurd (cc (k.named, ap (find (has_key a.idempotency_key)) c.same_attempts, free))
        ]
      ]
]
