-- ===== src/Consumer/Approved.antt =====
-- The matrix and the guarded statements agree: what the decider approves is always written.
use payments_boilerplate.Base.{
  ◌≡◌, refl, inl, inr, Bool, true, false, String, none, some, Result, ok, err, is_ok, Option-cases,
  Bool-cases, arith,
}
use payments_boilerplate.Orders
use payments_boilerplate.Consumer.Ports.{SessionOutcome, Aggregate, Reference, Effect}
use payments_boilerplate.Consumer.Store.{
  AttemptRow, PaymentRow, OrderRow, Db, payment_movable, attempt_movable,
}
use payments_boilerplate.Consumer.Process.{
  Faults, lock_aggregate, apply_attempt, apply_payment, apply_order, apply_effect, write,
}
use payments_boilerplate.Consumer.Process.Writes.{apply_attempt-moves, apply_payment-moves}
use payments_boilerplate.Consumer.Deciding.{decide_effect}
use payments_boilerplate.Consumer.Consistency.{IsConsistent}
use payments_boilerplate.Consumer.Locked.{
  lock_aggregate-IsLocked, IsMeasured, effect_of-IsMeasured, decide_effect-IsChecked,
}

-- The database reports no error of its own.
pub record IsQuiet (f : Faults) : Type 0 where
  pub transition_attempt : f.transition_attempt ≡ none
  pub transition_payment : f.transition_payment ≡ none
  pub mark_paid : f.mark_paid ≡ none
  pub mark_processed : f.mark_processed ≡ none

module _ (f : Faults) (q : IsQuiet f) (a : Aggregate) (e : Effect) (m : IsMeasured a e) where
  attempt_moves :
      (db : Db) (b : Bool) (row : AttemptRow)
      → db.attempts a.attempt_id ≡ some row
      → a.attempt_status ≡ row.status
      → is_ok (apply_attempt f a e (db, b)) ≡ true
  unfolding apply_attempt
  attempt_moves db b row at_row same = elim (Option-cases e.attempt_status) [
    | inl still ↦ rw still
    | inr (s, moves) ↦
        let free : attempt_movable row.status ≡ true = rw same at (m.open_attempt s moves) in
        ground (arith, q.transition_attempt)
  ]

  payment_moves :
      (db : Db) (b : Bool) (row : PaymentRow)
      → db.payments a.payment_id ≡ some row
      → a.payment_status ≡ row.status
      → is_ok (apply_payment f a e (db, b)) ≡ true
  unfolding apply_payment
  payment_moves db b row at_row same = elim (Option-cases e.payment_status) [
    | inl still ↦ rw still
    | inr (s, moves) ↦
        let free : payment_movable row.status ≡ true = rw same at (m.open_payment s moves) in
        ground (arith, q.transition_payment)
  ]

  order_moves :
      (db : Db) (b : Bool) (row : OrderRow)
      → db.orders a.order_id ≡ some row
      → (e.order_paid ≡ true → row.status ≡ Orders.Status.pending)
      → is_ok (apply_order f a e (db, b)) ≡ true
  unfolding apply_order
  order_moves db b row at_row pends = elim (Bool-cases e.order_paid) [
    | inr still ↦ rw still
    | inl pays ↦ ground (arith, pends pays, q.mark_paid)
  ]

ok_value {ℓ} : {E : Type 0} {A : Type ℓ} (r : Result E A) → is_ok r ≡ true → (a : A) × (r ≡ ok a)
ok_value (ok a) h = (a, refl)
ok_value (err e) h = absurd (ground arith)

written_by_steps :
    (f : Faults) (id : String) (a : Aggregate) (e : Effect) (db d₁ d₂ d₃ : Db) (b₁ b₂ b₃ : Bool)
    → apply_attempt f a e (db, false) ≡ ok (d₁, b₁)
    → apply_payment f a e (d₁, b₁) ≡ ok (d₂, b₂)
    → apply_order f a e (d₂, b₂) ≡ ok (d₃, b₃)
    → f.mark_processed ≡ none
    → is_ok (write f id a e db) ≡ true
unfolding write apply_effect
written_by_steps f id a e db d₁ d₂ d₃ b₁ b₂ b₃ h₁ h₂ h₃ quiet = rw (h₁, h₂, h₃, quiet)

-- With no error of the database's own, every write that the decider approves is made: on consistent
-- payments and orders, an approved transition never matches zero rows.
pub approved_write :
    (f : Faults) (id : String) (db : Db) (ref : Reference) (a : Aggregate) (o : SessionOutcome)
    (provider : String) (e : Effect)
    → IsQuiet f
    → IsConsistent db.payments db.orders
    → lock_aggregate f db ref ≡ ok a
    → decide_effect o a provider ≡ ok e
    → is_ok (write f id a e db) ≡ true
approved_write f id db ref a o provider e q inv locks decides =
    let l = lock_aggregate-IsLocked f db ref a locks in
    let m = effect_of-IsMeasured _ a e (decide_effect-IsChecked o a provider e decides).decided in
    let ((d₁, b₁), h₁) =
      ok_value _ (attempt_moves f q a e m db false l.attempt l.at_attempt l.attempt_status) in
    let (_, same_payments, same_orders) = apply_attempt-moves f a e db d₁ false b₁ h₁ in
    let ((d₂, b₂), h₂) =
      ok_value _ (
        payment_moves f q a e m d₁ b₁ l.payment (rw same_payments l.at_payment) l.payment_status) in
    let (_, _, same_orders') = apply_payment-moves f a e d₁ d₂ b₁ b₂ h₂ in
    let pends : e.order_paid ≡ true → l.order.status ≡ Orders.Status.pending = λ pays.
      inv.open_pending a.payment_id l.payment l.order l.at_payment
        (rw l.payment_status at (m.open_payment _ (m.pays pays))) (rw l.of_order l.at_order) in
    let ((d₃, b₃), h₃) =
      ok_value _
        (order_moves f q a e m d₂ b₂ l.order (rw (same_orders', same_orders) l.at_order) pends) in
    written_by_steps f id a e db d₁ d₂ d₃ b₁ b₂ b₃ h₁ h₂ h₃ q.mark_processed
