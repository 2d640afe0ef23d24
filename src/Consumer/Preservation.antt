-- ===== src/Consumer/Preservation.antt =====
-- The consumer keeps payments and orders consistent, and its guarded statements always find the row
-- that the matrix approved.
use mathlib.Core.Path.{subst₂}
use payments_boilerplate.Base.{◌≡◌, sym, inl, inr, true, false, some, arith}
use payments_boilerplate.Payments.Status as Payment
use payments_boilerplate.Consumer.Ports.{Aggregate, Effect}
use payments_boilerplate.Consumer.Store.{Db, payment_movable}
use payments_boilerplate.Consumer.Process.Writes.{Moved, Wrote}
use payments_boilerplate.Consumer.Consistency.{
  IsConsistent, is_charged, put-IsConsistent, put_paid-IsConsistent,
}
use payments_boilerplate.Consumer.Locked.{IsLocked, IsMeasured}

module _ (a : Aggregate) (e : Effect) (db db' : Db) (l : IsLocked db a) (m : IsMeasured a e)
    (w : Wrote a e db db') (inv : IsConsistent db.payments db.orders) where
  abbrev MovedPayment : Payment.Status → Type 0
  MovedPayment s =
      Moved (λ r. payment_movable r.status) db.payments db'.payments a.payment_id
        (λ r. record r { status = s })

  row_order : (s : Payment.Status) (moved : MovedPayment s) → moved.row.order_id ≡ a.order_id
  row_order s moved =
      let same : moved.row ≡ l.payment = cc (moved.found, l.at_payment) in rw same l.of_order

  moved_uncharged :
      (s : Payment.Status)
      → e.payment_status ≡ some s
      → is_charged s ≡ false
      → MovedPayment s
      → IsConsistent db'.payments db'.orders
  moved_uncharged s at_s uncharged moved = elim w.order [
    | inl (unpaid, same) ↦ subst₂ IsConsistent (sym moved.changed) (sym same) (
        put-IsConsistent db.payments db.orders inv a.payment_id moved.row moved.found moved.free s
          uncharged)
    | inr (paid, marked) ↦ absurd (ground (arith, m.pays paid))
  ]

  moved_succeeded :
      (s : Payment.Status)
      → s ≡ Payment.Status.succeeded
      → e.order_paid ≡ true
      → MovedPayment s
      → IsConsistent db'.payments db'.orders
  moved_succeeded s at_s paid moved = elim w.order [
    | inl (unpaid, same) ↦ absurd (cc)
    | inr (_, marked) ↦
        let same = row_order s moved in
        subst₂ IsConsistent (rw (← at_s) (sym moved.changed)) (rw same (sym marked.changed)) (
          put_paid-IsConsistent db.payments db.orders inv a.payment_id moved.row moved.found
            moved.free l.order (rw same l.at_order))
  ]

  pub wrote-IsConsistent : IsConsistent db'.payments db'.orders
  wrote-IsConsistent = elim w.payment [
    | inl (still, same) ↦ elim w.order [
      | inl (unpaid, same') ↦ subst₂ IsConsistent (sym same) (sym same') inv
      | inr (paid, marked) ↦ absurd (cc (m.pays paid))
    ]
    | inr (s, at_s, moved) ↦ elim (m.targets s at_s) [
      | inl uncharged ↦ moved_uncharged s at_s uncharged moved
      | inr (succeeds, paid) ↦ moved_succeeded s succeeds paid moved
    ]
  ]
