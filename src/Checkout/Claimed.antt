-- ===== src/Checkout/Claimed.antt =====
-- What the repository's answer says of the tables.
use payments_boilerplate.Base.{
  ◌≡◌, refl, sym, ap, ◌∙◌, inl, inr, false, String, [], ◌∷◌, ◌++◌, Option, none, some, ◌==◌, arith,
  Bool-cases, Option-cases, str_eq_iff, str_eq_refl, Result, Result-cases, ok,
}
use payments_boilerplate.Payments.Entity.{Payment, Attempt}
use payments_boilerplate.Receiver.Inbox.{Cause}
use payments_boilerplate.Checkout.Models.{PaymentAttempt, to_domain}
use payments_boilerplate.Checkout.Tables.{
  Db, Error, any, find, try, has_id, has_key, active_of, clashes_payment, clashes_attempt,
  insert_payment, insert_attempt, priced, anchors,
}
use payments_boilerplate.Checkout.Store.{Faults, recover, create_or_get_active_payment}
use payments_boilerplate.Checkout.Rows.{
  IsUnique, find-append, find-holds, find-clashless, clashless-id, find-has_id, append-IsUnique,
  clashes_payment_sym,
}

-- The key names the attempt `a`, and `p` is its payment, of the order.
pub record Holds (x : Db) (order_id key : String) (p : Payment) (a : Attempt) : Type 0 where
  pub row : PaymentAttempt
  pub named : find (has_key key) x.attempts ≡ some row
  pub is_row : to_domain row ≡ a
  pub owner : find (has_id row.payment_id) x.payments ≡ some p
  pub of_order : p.order_id ≡ order_id

pub try-ok :
    {A : Type 0} (fault : Option Cause) (r : Result Error A) (a : A) → try fault r ≡ ok a → r ≡ ok a
try-ok none r a h = h
try-ok (some e) r a h = ground arith

pub recovered :
    (fault : Option Cause) (x : Db) (p q : Payment) (old : PaymentAttempt) (b : Attempt)
    → recover fault x p old ≡ ok (q, b)
    → (find (has_id old.payment_id) x.payments ≡ some q)
      × (q.order_id ≡ p.order_id)
      × (to_domain old ≡ b)
unfolding recover
recovered fault x p q old b h =
    elim (Result-cases (try fault (ok (find (has_id old.payment_id) x.payments)))) [
      | inr (e, fails) ↦ absurd (cc (rw (recover, fails) at h))
      | inl (o, fine) ↦ elim (Option-cases o) [
        | inl missing ↦ absurd (cc (rw (recover, fine, missing) at h))
        | inr (r, there) ↦ elim (Bool-cases (r.order_id == p.order_id)) [
          | inr other ↦ absurd (cc (rw (recover, fine, there, other) at h))
          | inl same ↦
              let answer = rw (recover, fine, there, same) at h in
              let is_q : r ≡ q = cc (answer) in
              let is_b : to_domain old ≡ b = cc (answer) in
              let lookup = try-ok fault _ o fine in
              (
                cc (lookup, there, is_q),
                ap (λ (r : Payment). r.order_id) (sym is_q)
                    ∙ (str_eq_iff r.order_id p.order_id).0 same,
                is_b,
              )
        ]
      ]
    ]

insert_payment-some :
    (x x' : Db) (p : Payment)
    → insert_payment x p ≡ ok (some x')
    → (any (clashes_payment p) x.payments ≡ false)
      × (x' ≡ record x { payments = x.payments ++ (p ∷ []) })
unfolding insert_payment
insert_payment-some x x' p h = elim (Bool-cases (any (clashes_payment p) x.payments)) [
  | inl stopped ↦ absurd (cc (rw (insert_payment, stopped) at h))
  | inr clear ↦ elim (Bool-cases (priced (x.orders p.order_id) p)) [
    | inr dangling ↦ absurd (cc (rw (insert_payment, clear, dangling) at h))
    | inl fine ↦ (clear, cc (rw (insert_payment, clear, fine) at h))
  ]
]

pub insert_attempt-some :
    (x x' : Db) (a : PaymentAttempt)
    → insert_attempt x a ≡ ok (some x')
    → (any (clashes_attempt a) x.attempts ≡ false)
      × (x' ≡ record x { attempts = x.attempts ++ (a ∷ []) })
unfolding insert_attempt
insert_attempt-some x x' a h = elim (Bool-cases (any (clashes_attempt a) x.attempts)) [
  | inl stopped ↦ absurd (cc (rw (insert_attempt, stopped) at h))
  | inr clear ↦ elim (Bool-cases (any (anchors a) x.payments)) [
    | inr dangling ↦ absurd (cc (rw (insert_attempt, clear, dangling) at h))
    | inl fine ↦ (clear, cc (rw (insert_attempt, clear, fine) at h))
  ]
]

-- The payment that the order has after `createOrGetActivePayment`.
pub record Claimed (x x' : Db) (order_id : String) (q : Payment) : Type 0 where
  pub same_orders : x'.orders ≡ x.orders
  pub same_attempts : x'.attempts ≡ x.attempts
  pub of_order : q.order_id ≡ order_id
  pub there : find (has_id q.id) x'.payments ≡ some q
  pub unique : IsUnique clashes_payment x'.payments

inserted-Claimed :
    (x x' : Db) (p : Payment)
    → IsUnique clashes_payment x.payments
    → insert_payment x p ≡ ok (some x')
    → Claimed x x' p.order_id p
inserted-Claimed x x' p u h =
    let (clear, made) = insert_payment-some x x' p h in
    let missing =
      find-clashless (has_id p.id) (clashes_payment p) x.payments (clashless-id p) clear in
    rw made (record {
      same_orders = refl;
      same_attempts = refl;
      of_order = refl;
      there = find-append (has_id p.id) x.payments p missing (str_eq_refl p.id);
      unique = append-IsUnique clashes_payment x.payments p clashes_payment_sym clear u;
    })

active-Claimed :
    (x : Db) (order_id : String) (q : Payment)
    → IsUnique clashes_payment x.payments
    → find (active_of order_id) x.payments ≡ some q
    → Claimed x x order_id q
active-Claimed x order_id q u h = record {
  same_orders = refl;
  same_attempts = refl;
  of_order = elim (Bool-cases (q.order_id == order_id)) [
    | inl same ↦ (str_eq_iff q.order_id order_id).0 same
    | inr other ↦ absurd (cc (rw other at (find-holds (active_of order_id) x.payments q h)))
  ];
  there = find-has_id (active_of order_id) x.payments q u h;
  unique = u;
}

pub claim-Claimed :
    (f : Faults) (x x' : Db) (p q : Payment)
    → IsUnique clashes_payment x.payments
    → create_or_get_active_payment f x p ≡ ok (q, x')
    → Claimed x x' p.order_id q
unfolding create_or_get_active_payment
claim-Claimed f x x' p q u h = elim (Result-cases (try f.insert_payment (insert_payment x p))) [
  | inr (e, fails) ↦ absurd (cc (rw (create_or_get_active_payment, fails) at h))
  | inl (o, fine) ↦ elim (Option-cases o) [
    | inr (x'', new) ↦
        let answer = rw (create_or_get_active_payment, fine, new) at h in
        let is_q : p ≡ q = cc (answer) in
        let is_x : x'' ≡ x' = cc (answer) in
        let made = rw (new, is_x) at (try-ok f.insert_payment _ o fine) in
        rw (sym is_q) (inserted-Claimed x x' p u made)
    | inl old ↦
        elim (Result-cases (try f.find_active (ok (find (active_of p.order_id) x.payments)))) [
          | inr (e, fails) ↦ absurd (cc (rw (create_or_get_active_payment, fine, old, fails) at h))
          | inl (o', found) ↦ elim (Option-cases o') [
            | inl missing ↦
                absurd (cc (rw (create_or_get_active_payment, fine, old, found, missing) at h))
            | inr (r, is_r) ↦
                let answer = rw (create_or_get_active_payment, fine, old, found, is_r) at h in
                let is_q : r ≡ q = cc (answer) in
                let is_x : x ≡ x' = cc (answer) in
                let lookup = try-ok f.find_active _ o' found in
                rw (sym is_x) (active-Claimed x p.order_id q u (cc (lookup, is_r, is_q)))
          ]
        ]
  ]
]
