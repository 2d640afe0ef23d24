-- ===== src/Consumer/Consistency.antt =====
-- Payments and orders agree: the invariant that the consumer keeps between the two tables.
use payments_boilerplate.Base.{
  ◌≡◌, refl, sym, inl, inr, Bool, true, false, String, some, Bool-cases, arith, ◌==◌, str_eq_iff,
  str_eq_refl,
}
use payments_boilerplate.Payments.Status as Payment
use payments_boilerplate.Orders
use payments_boilerplate.Consumer.Store.{Table, put, PaymentRow, OrderRow, payment_movable}

-- The partial index `payments_order_id_active_key`: a payment that is neither failed nor cancelled.
abbrev pub is_live : Payment.Status → Bool
is_live Payment.Status.failed = false
is_live Payment.Status.cancelled = false
is_live _ = true

-- The customer was charged, whatever was refunded later.
abbrev pub is_charged : Payment.Status → Bool
is_charged Payment.Status.succeeded = true
is_charged Payment.Status.partially_refunded = true
is_charged Payment.Status.refunded = true
is_charged _ = false

-- An open payment's order is pending, an order has at most one payment that is not failed or
-- cancelled, a charged payment's order is paid, and a paid order has a charged payment.
pub record IsConsistent (payments : Table PaymentRow) (orders : Table OrderRow) : Type 0 where
  pub open_pending :
      (k : String) (p : PaymentRow) (o : OrderRow)
      → payments k ≡ some p
      → payment_movable p.status ≡ true
      → orders p.order_id ≡ some o
      → o.status ≡ Orders.Status.pending
  pub one_live :
      (j k : String) (p q : PaymentRow)
      → payments j ≡ some p
      → payments k ≡ some q
      → is_live p.status ≡ true
      → is_live q.status ≡ true
      → p.order_id ≡ q.order_id
      → j ≡ k
  pub charged_paid :
      (k : String) (p : PaymentRow) (o : OrderRow)
      → payments k ≡ some p
      → is_charged p.status ≡ true
      → orders p.order_id ≡ some o
      → o.status ≡ Orders.Status.paid
  pub paid_charged :
      (id : String) (o : OrderRow)
      → orders id ≡ some o
      → o.status ≡ Orders.Status.paid
      → (k : String) × (p : PaymentRow) × (payments k ≡ some p)
        × (p.order_id ≡ id)
        × (is_charged p.status ≡ true)

module _ (t : Table PaymentRow) (u : Table OrderRow) (inv : IsConsistent t u) (pid : String)
    (p : PaymentRow) (found : t pid ≡ some p) (free : payment_movable p.status ≡ true) where
  -- A payment that leaves its open state for another state that is not charged.
  pub put-IsConsistent :
      (s : Payment.Status)
      → is_charged s ≡ false
      → IsConsistent (put t pid (record p { status = s })) u
  put-IsConsistent s uncharged = record {
    open_pending = λ k q o e m r.
        ground (arith, str_eq_iff k pid, inv.open_pending k q o, inv.open_pending pid p o);
    one_live = λ j k q r e₁ e₂ l₁ l₂ same. ground (
      arith,
      str_eq_iff j pid,
      str_eq_iff k pid,
      inv.one_live j k q r,
      inv.one_live pid k p r,
      inv.one_live j pid q p,
    );
    charged_paid = λ k q o e c r.
        ground (arith, str_eq_iff k pid, inv.charged_paid k q o, inv.charged_paid pid p o);
    paid_charged = λ id o e paid.
        (let (k, q, at_k, of_order, charged) = inv.paid_charged id o e paid in
          (k, q, ground (arith, str_eq_iff k pid), of_order, charged));
  }

  -- A payment that succeeds, together with its order.
  pub put_paid-IsConsistent :
      (o : OrderRow)
      → u p.order_id ≡ some o
      → IsConsistent
          (put t pid (record p { status = Payment.Status.succeeded }))
          (put u p.order_id (record { status = Orders.Status.paid }))
  put_paid-IsConsistent o at_order = record {
    open_pending = λ k q r e m at_r. ground (
      arith,
      str_eq_iff k pid,
      str_eq_iff q.order_id p.order_id,
      inv.open_pending k q r,
      inv.one_live k pid q p,
    );
    one_live = λ j k q r e₁ e₂ l₁ l₂ same. ground (
      arith,
      str_eq_iff j pid,
      str_eq_iff k pid,
      inv.one_live j k q r,
      inv.one_live pid k p r,
      inv.one_live j pid q p,
    );
    charged_paid = λ k q r e c at_r.
        ground (arith, str_eq_iff k pid, str_eq_iff q.order_id p.order_id, inv.charged_paid k q r);
    paid_charged = λ id r e paid. elim (Bool-cases (id == p.order_id)) [
      | inl same ↦ (
        pid,
        record p { status = Payment.Status.succeeded },
        rw (str_eq_refl pid),
        sym ((str_eq_iff id p.order_id).0 same),
        refl,
      )
      | inr other ↦
          (let (k, q, at_k, of_order, charged) = inv.paid_charged id r (rw other at e) paid in
            (k, q, ground (arith, str_eq_iff k pid), of_order, charged))
    ];
  }
