-- ===== src/Consumer/Process/Writes.antt =====
-- What the writes of one transaction do to the three tables of the aggregate.
use mathlib.Core.Path.{subst₂}
use payments_boilerplate.Base.{
  ◌≡◌, subst, sym, ◌∙◌, ◌⊎◌, inl, inr, Bool, true, false, String, Option, none, some, ok,
  Result-cases, Option-cases, Bool-cases, arith,
}
use payments_boilerplate.Payments.Status as Payment
use payments_boilerplate.Orders
use payments_boilerplate.Consumer.Ports.{Aggregate, Effect}
use payments_boilerplate.Consumer.Store.{
  Remark, Table, put, AttemptRow, PaymentRow, OrderRow, Db, attempt_movable, payment_movable,
  order_movable, mark_webhook_event_processed,
}
use payments_boilerplate.Consumer.Process.{
  Faults, apply_attempt, apply_payment, apply_order, apply_effect, write, nullable_text,
}

-- A row that a guarded statement moved: it was there, its state let it move, and the table differs in
-- that row alone.
pub record Moved {R : Type 0} (movable : R → Bool) (t t' : Table R) (id : String) (change : R → R)
    : Type 0 where
  pub row : R
  pub found : t id ≡ some row
  pub free : movable row ≡ true
  pub changed : t' ≡ put t id (change row)

abbrev pub MovesAttempt : Aggregate → Effect → Table AttemptRow → Table AttemptRow → Type 0
MovesAttempt a e t t' =
    ((e.attempt_status ≡ none) × (t' ≡ t))
    ⊎ ((s : Payment.AttemptStatus) × (e.attempt_status ≡ some s)
        × Moved (λ r. attempt_movable r.status) t t' a.attempt_id (λ r. record r { status = s }))

abbrev pub MovesPayment : Aggregate → Effect → Table PaymentRow → Table PaymentRow → Type 0
MovesPayment a e t t' =
    ((e.payment_status ≡ none) × (t' ≡ t))
    ⊎ ((s : Payment.Status) × (e.payment_status ≡ some s)
        × Moved (λ r. payment_movable r.status) t t' a.payment_id (λ r. record r { status = s }))

abbrev pub MovesOrder : Aggregate → Effect → Table OrderRow → Table OrderRow → Type 0
MovesOrder a e t t' =
    ((e.order_paid ≡ false) × (t' ≡ t))
    ⊎ ((e.order_paid ≡ true)
        × Moved (λ r. order_movable r.status) t t' a.order_id
            (λ r. record { status = Orders.Status.paid }))

-- The writes of one transaction.
pub record Wrote (a : Aggregate) (e : Effect) (db db' : Db) : Type 0 where
  pub attempt : MovesAttempt a e db.attempts db'.attempts
  pub payment : MovesPayment a e db.payments db'.payments
  pub order : MovesOrder a e db.orders db'.orders

pub apply_attempt-moves :
    (f : Faults) (a : Aggregate) (e : Effect) (db db' : Db) (b b' : Bool)
    → apply_attempt f a e (db, b) ≡ ok (db', b')
    → MovesAttempt a e db.attempts db'.attempts
      × (db'.payments ≡ db.payments)
      × (db'.orders ≡ db.orders)
unfolding apply_attempt
apply_attempt-moves f a e db db' b b' h = elim (Option-cases e.attempt_status) [
  | inl still ↦ (inl (still, ground arith), ground arith, ground arith)
  | inr (s, moves) ↦ elim (Option-cases (db.attempts a.attempt_id)) [
    | inl gone ↦ absurd (ground arith)
    | inr (row, found) ↦ elim (Bool-cases (attempt_movable row.status)) [
      | inl free ↦ (
        inr (s, moves, record { row = row; found = found; free = free; changed = ground arith }),
        ground arith,
        ground arith,
      )
      | inr settled ↦ absurd (ground arith)
    ]
  ]
]

pub apply_payment-moves :
    (f : Faults) (a : Aggregate) (e : Effect) (db db' : Db) (b b' : Bool)
    → apply_payment f a e (db, b) ≡ ok (db', b')
    → MovesPayment a e db.payments db'.payments
      × (db'.attempts ≡ db.attempts)
      × (db'.orders ≡ db.orders)
unfolding apply_payment
apply_payment-moves f a e db db' b b' h = elim (Option-cases e.payment_status) [
  | inl still ↦ (inl (still, ground arith), ground arith, ground arith)
  | inr (s, moves) ↦ elim (Option-cases (db.payments a.payment_id)) [
    | inl gone ↦ absurd (ground arith)
    | inr (row, found) ↦ elim (Bool-cases (payment_movable row.status)) [
      | inl free ↦ (
        inr (s, moves, record { row = row; found = found; free = free; changed = ground arith }),
        ground arith,
        ground arith,
      )
      | inr settled ↦ absurd (ground arith)
    ]
  ]
]

apply_order-moves :
    (f : Faults) (a : Aggregate) (e : Effect) (db db' : Db) (b b' : Bool)
    → apply_order f a e (db, b) ≡ ok (db', b')
    → MovesOrder a e db.orders db'.orders
      × (db'.attempts ≡ db.attempts)
      × (db'.payments ≡ db.payments)
unfolding apply_order
apply_order-moves f a e db db' b b' h = elim (Bool-cases e.order_paid) [
  | inr still ↦ (inl (still, ground arith), ground arith, ground arith)
  | inl pays ↦ elim (Option-cases (db.orders a.order_id)) [
    | inl gone ↦ absurd (ground arith)
    | inr (row, found) ↦ elim (Bool-cases (order_movable row.status)) [
      | inl free ↦ (
        inr (pays, record { row = row; found = found; free = free; changed = ground arith }),
        ground arith,
        ground arith,
      )
      | inr settled ↦ absurd (ground arith)
    ]
  ]
]

marked-tables :
    (db : Db) (id : String) (r : Option Remark)
    → let db' = mark_webhook_event_processed db id r in
      (db'.attempts ≡ db.attempts) × (db'.payments ≡ db.payments) × (db'.orders ≡ db.orders)
unfolding mark_webhook_event_processed
marked-tables db id r = ground arith

-- Three steps, each of which moves one table, and a mark that moves none of them.
Wrote-by_steps :
    (a : Aggregate) (e : Effect) (db d₁ d₂ d₃ db' : Db)
    → MovesAttempt a e db.attempts d₁.attempts
      × (d₁.payments ≡ db.payments)
      × (d₁.orders ≡ db.orders)
    → MovesPayment a e d₁.payments d₂.payments
      × (d₂.attempts ≡ d₁.attempts)
      × (d₂.orders ≡ d₁.orders)
    → MovesOrder a e d₂.orders d₃.orders × (d₃.attempts ≡ d₂.attempts) × (d₃.payments ≡ d₂.payments)
    → (db'.attempts ≡ d₃.attempts) × (db'.payments ≡ d₃.payments) × (db'.orders ≡ d₃.orders)
    → Wrote a e db db'
Wrote-by_steps a e db d₁ d₂ d₃ db' (m₁, p₁, o₁) (m₂, a₂, o₂) (m₃, a₃, p₃) (a₄, p₄, o₄) = record {
  attempt = subst (MovesAttempt a e db.attempts) (sym (a₄ ∙ a₃ ∙ a₂)) m₁;
  payment = subst₂ (MovesPayment a e) p₁ (sym (p₄ ∙ p₃)) m₂;
  order = subst₂ (MovesOrder a e) (o₂ ∙ o₁) (sym o₄) m₃;
}

-- Whatever one transaction writes moves at most the one attempt, payment and order of its aggregate,
-- each only if its row was open, and to the states that the effect names.
pub write-Wrote :
    (f : Faults) (id : String) (a : Aggregate) (e : Effect) (db db' : Db) (b : Bool)
    → write f id a e db ≡ ok (db', b)
    → Wrote a e db db'
unfolding write apply_effect
write-Wrote f id a e db db' b h = elim (Result-cases (apply_attempt f a e (db, false))) [
  | inr (x, fails) ↦ absurd (ground arith)
  | inl ((d₁, b₁), h₁) ↦ elim (Result-cases (apply_payment f a e (d₁, b₁))) [
    | inr (x, fails) ↦ absurd (ground arith)
    | inl ((d₂, b₂), h₂) ↦ elim (Result-cases (apply_order f a e (d₂, b₂))) [
      | inr (x, fails) ↦ absurd (ground arith)
      | inl ((d₃, b₃), h₃) ↦
          let last : mark_webhook_event_processed d₃ id (nullable_text e.note) ≡ db' =
            ground arith in
          rw (← last) (
            Wrote-by_steps a e db d₁ d₂ d₃ _ (apply_attempt-moves f a e db d₁ false b₁ h₁)
              (apply_payment-moves f a e d₁ d₂ b₁ b₂ h₂) (apply_order-moves f a e d₂ d₃ b₂ b₃ h₃)
              (marked-tables d₃ id (nullable_text e.note)))
    ]
  ]
]
